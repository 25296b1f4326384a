-- ===== src/Rules/Punycode.antt =====
-- core/routing_rules.go: `punycode`, the encoder of RFC 3492 for one label. The integers are never
-- negative, and `k - bias` below 0 is taken for 0, which is below `tmin` as well.
use vair.Base.{
  ℕ, zero, suc, ◌+◌, ◌-◌, ◌*◌, ◌/◌, ◌%◌, ◌^◌, Bool, true, false, ◌&&◌, List, [], ◌∷◌, ◌++◌, Option,
  none, some, is_empty, if◌then◌else◌, ◌==◌, leb, ltb, length, select,
}

abbrev pub digit : ℕ → ℕ
digit d = if ltb d 26 then 97 + d else 48 + d - 26

-- The loop of `adapt`, by rounds left.
unfoldable pub adapt_loop : ℕ → ℕ → ℕ → ℕ
adapt_loop zero delta k = k + 36 * delta / (delta + 38)
adapt_loop (suc f) delta k =
    let rest = adapt_loop f (delta / 35) (k + 36) in
    if ltb 455 delta then rest else k + 36 * delta / (delta + 38)

unfoldable pub adapt : ℕ → ℕ → Bool → ℕ
unfolding adapt_loop
adapt delta points first =
    let halved = if first then delta / 700 else delta / 2 in
    let d = halved + halved / points in adapt_loop d d 0

abbrev pub threshold : ℕ → ℕ → ℕ
threshold k bias = let t = k - bias in if ltb t 1 then 1 else if ltb 26 t then 26 else t

-- The digits of one number, by rounds left.
unfoldable pub digits : ℕ → ℕ → ℕ → ℕ → List ℕ
digits zero q k bias = digit q ∷ []
digits (suc f) q k bias =
    let t = threshold k bias in
    let rest = digits f ((q - t) / (36 - t)) (k + 36) bias in
    if ltb q t then digit q ∷ [] else digit (t + (q - t) % (36 - t)) ∷ rest

-- The smallest code point that is not below `n`.
unfoldable pub smallest : ℕ → List ℕ → Option ℕ
smallest n [] = none
smallest n (r ∷ rs) = elim (smallest n rs) [
  | none ↦ if leb n r then some r else none
  | some m ↦ if leb n r && ltb r m then some r else some m
]

pub record Encoder : Type 0 where
  pub delta : ℕ
  pub bias : ℕ
  pub handled : ℕ
  pub output : List ℕ

-- One rune in the pass at the code point `n`.
unfoldable pub encode_rune : ℕ → ℕ → Encoder → ℕ → Encoder
unfolding digits adapt
encode_rune basic n s r =
    if ltb r n
    then record s { delta = s.delta + 1 }
    else if r == n
    then record s {
      delta = 0;
      bias = adapt s.delta (s.handled + 1) (s.handled == basic);
      handled = s.handled + 1;
      output = s.output ++ digits s.delta s.delta 36 s.bias;
    }
    else s

unfoldable pub encode_pass : ℕ → ℕ → Encoder → List ℕ → Encoder
unfolding encode_rune
encode_pass basic n s [] = s
encode_pass basic n s (r ∷ rs) = encode_pass basic n (encode_rune basic n s r) rs

-- The passes, by rounds left: each one handles a rune.
unfoldable pub encode : ℕ → ℕ → List ℕ → ℕ → Encoder → Option (List ℕ)
unfolding smallest encode_pass
encode zero basic runes n s = if ltb s.handled (length runes) then none else some s.output
encode (suc f) basic runes n s = elim (ltb s.handled (length runes)) [
  | false ↦ some s.output
  | true ↦ elim (smallest n runes) [
    | none ↦ none
    | some m ↦ elim (ltb (2 ^ 30 / (s.handled + 1)) (m - n)) [
      | true ↦ none
      | false ↦
          let t =
            encode_pass basic m (record s { delta = s.delta + (m - n) * (s.handled + 1) }) runes in
          encode f basic runes (m + 1) (record t { delta = t.delta + 1 })
    ]
  ]
]

unfoldable pub punycode : List ℕ → Option (List ℕ)
unfolding encode
punycode runes =
    let basic = select (λ r. ltb r 128) runes in
    encode (length runes) (length basic) runes 128 (record {
      delta = 0;
      bias = 72;
      handled = length basic;
      output = if is_empty basic then [] else basic ++ 45 ∷ [];
    })
