-- ===== src/Singbox/Chain/Whole.antt =====
-- The outbounds and endpoints of a sing-box chain, and what a connection that is routed to "proxy"
-- goes through.
use mathlib.Core.Option
use vair.Base.{
  ℕ, zero, suc, ◌+◌, ◌-◌, ◌≡◌, ◌≢◌, ◌<◌, refl, sym, ap, ◌∙◌, true, false, List, [], ◌∷◌, ◌++◌, map,
  none, some, codes, same_refl, arith, length, get_elem?, append_assoc, append-nil, subst,
  cons_some,
}
use vair.Base.Text.{reverse_onto}
use vair.Base.Json.{Fields, get}
use vair.Hops.{
  tag_for, has_tag, find_tag, named_path, IsInjective, tag_for_apart, find_tag-hit, find_tag-miss,
  find_tag-skip, find_tag-without, Linked, Starts, dial_path-all, dial_path-stop, tag_for_last,
}
use vair.Node.{Env, Node}
use vair.Singbox.Chain.{
  Egress, outbound, endpoint, fields_of, egress_of, each_egress, singbox_hop, direct, outbound_hops,
  endpoint_hops, wired, singbox_chain_egress,
}
use vair.Singbox.Chain.Path.{
  dest, through, has_tag-singbox_hop, dest-singbox_hop, through-singbox_hop, through-entry,
}

module _ (env : Env) (injective : IsInjective env.show) (last : ℕ) where
  abbrev tag : ℕ → List ℕ
  tag i = tag_for env.show last i

  abbrev all : ℕ → List Egress → List Fields
  all i es = outbound_hops env last i es ++ direct ∷ endpoint_hops env last i es

  -- `direct` is no hop's tag.
  direct_tag : (i : ℕ) → has_tag (tag i) direct ≡ false
  unfolding has_tag tag_for
  direct_tag i = ground arith

  apart_tag : (i j : ℕ) (m : Fields) → i ≢ j → has_tag (tag j) (singbox_hop env last i m) ≡ false
  apart_tag i j m other =
      has_tag-singbox_hop env last (tag j) i m ∙ tag_for_apart env.show injective last i j other

  own_tag : (i : ℕ) (m : Fields) → has_tag (tag i) (singbox_hop env last i m) ≡ true
  own_tag i m = has_tag-singbox_hop env last (tag i) i m ∙ same_refl (tag i)

  -- A hop does not stand in another one's way.
  find_tag-all_miss :
      (i j : ℕ) (e : Egress) (es : List Egress)
      → i ≢ j
      → find_tag (tag j) (all i (e ∷ es)) ≡ find_tag (tag j) (all (suc i) es)
  unfolding outbound_hops endpoint_hops
  find_tag-all_miss i j (outbound m) es other =
      find_tag-miss (tag j) (singbox_hop env last i m) (all (suc i) es) (apart_tag i j m other)
  find_tag-all_miss i j (endpoint m) es other =
      find_tag-without (tag j) (outbound_hops env last (suc i) es)
        (singbox_hop env last i m ∷ endpoint_hops env last (suc i) es) direct (direct_tag j)
      ∙ find_tag-without (tag j) (outbound_hops env last (suc i) es)
          (endpoint_hops env last (suc i) es) (singbox_hop env last i m) (apart_tag i j m other)
      ∙ sym (
          find_tag-without (tag j) (outbound_hops env last (suc i) es)
            (endpoint_hops env last (suc i) es) direct (direct_tag j))

  later_outbounds :
      (j i : ℕ) (es : List Egress) → j < i → find_tag (tag j) (outbound_hops env last i es) ≡ none
  unfolding outbound_hops find_tag
  later_outbounds j i [] h = refl
  later_outbounds j i (endpoint m ∷ es) h = later_outbounds j (suc i) es (omega arith)
  later_outbounds j i (outbound m ∷ es) h =
      let other : i ≢ j = λ e. omega arith in
      find_tag-miss (tag j) (singbox_hop env last i m) (outbound_hops env last (suc i) es)
        (apart_tag i j m other)
      ∙ later_outbounds j (suc i) es (omega arith)

  find_tag-all_first :
      (i : ℕ) (e : Egress) (es : List Egress)
      → find_tag (tag i) (all i (e ∷ es)) ≡ some (singbox_hop env last i (fields_of e))
  unfolding outbound_hops endpoint_hops
  find_tag-all_first i (outbound m) es =
      find_tag-hit (tag i) (singbox_hop env last i m) (all (suc i) es) (own_tag i m)
  find_tag-all_first i (endpoint m) es =
      find_tag-skip (tag i) (outbound_hops env last (suc i) es)
        (direct ∷ singbox_hop env last i m ∷ endpoint_hops env last (suc i) es)
        (later_outbounds i (suc i) es (omega arith))
      ∙ find_tag-miss (tag i) direct _ (direct_tag i)
      ∙ find_tag-hit (tag i) (singbox_hop env last i m) (endpoint_hops env last (suc i) es)
          (own_tag i m)

  find_tag-all :
      (i k : ℕ) (es : List Egress) (m : Fields)
      → get_elem? (map fields_of es) k ≡ some m
      → find_tag (tag (i + k)) (all i es) ≡ some (singbox_hop env last (i + k) m)
  find_tag-all i k [] m h = absurd (none_some h)
    where
      none_some : {f : Fields} → none ≢ some f
      none_some e = cc
  find_tag-all i zero (e ∷ es) m h =
      let equal : fields_of e ≡ m = cc in
      let index : i + 0 ≡ i = omega arith in rw (index, ← equal) (find_tag-all_first i e es)
  find_tag-all i (suc k) (e ∷ es) m h =
      let other : i ≢ i + suc k = λ g. omega arith in
      let index : i + suc k ≡ suc i + k = omega arith in
      find_tag-all_miss i (i + suc k) e es other ∙ rw index (find_tag-all (suc i) k es m h)

-- The outbounds and the endpoints together.
abbrev pub all_of : List Fields × List Fields → List Fields
all_of (outs, eps) = outs ++ eps

length-map : (es : List Egress) → length (map fields_of es) ≡ length es
length-map [] = refl
length-map (e ∷ es) = ap (λ (k : ℕ). suc k) (length-map es)

module _ (env : Env) (injective : IsInjective env.show) (e : Egress) (es : List Egress)
    (free : get (codes "detour") (fields_of e) ≡ none) where
  abbrev raws : List Fields
  raws = map fields_of (e ∷ es)

  abbrev outs : List Fields
  outs = all env injective (length es) 0 (e ∷ es)

  chain-Linked :
      Linked through outs (tag_for env.show (length es)) dest (singbox_hop env (length es)) raws
  chain-Linked i m h =
      let index : 0 + suc i ≡ suc i = omega arith in
      (
        rw (← index) (find_tag-all env injective (length es) 0 (suc i) (e ∷ es) m h),
        through-singbox_hop env (length es) i m,
        dest-singbox_hop env (length es) (suc i) m,
      )

  chain-Starts :
      Starts through outs
        (tag_for env.show (length es))
        dest
        (singbox_hop env (length es))
        raws
        0
        []
  chain-Starts m h =
      let equal : fields_of e ≡ m = cc in
      ap (Option.map (map dest)) (
        dial_path-stop through outs 0 (tag_for env.show (length es) 0)
          (singbox_hop env (length es) 0 (fields_of e))
          (find_tag-all_first env injective (length es) 0 e es)
          (through-entry env (length es) (fields_of e) free))
      ∙ ap (λ d. some (d ∷ [])) (dest-singbox_hop env (length es) 0 (fields_of e) ∙ ap dest equal)

  chain_path :
      named_path dest through outs (length raws + 0) (codes "proxy")
      ≡ some (map dest (reverse_onto raws []) ++ [])
  chain_path =
      let count : length (map fields_of es) ≡ length es = length-map es in
      let start =
        ap (λ (k : ℕ). tag_for env.show (length es) k) count ∙ tag_for_last env.show (length es) in
      subst
        (λ t.
          named_path dest through outs (length raws + 0) t
          ≡ some (map dest (reverse_onto raws []) ++ []))
        start
        (dial_path-all through outs (tag_for env.show (length es)) dest
          (singbox_hop env (length es)) raws 0 [] chain-Linked chain-Starts (fields_of e)
          (map fields_of es) refl)

-- What `wired` makes of a chain is what the path was found in.
wired-all :
    (env : Env) (injective : IsInjective env.show) (e : Egress) (es : List Egress)
    → all_of (wired env (e ∷ es)) ≡ all env injective (length es) 0 (e ∷ es)
wired-all env injective e es =
    let size : suc (length es) - 1 ≡ length es = omega arith in
    ap
      (λ last.
        (outbound_hops env last 0 (e ∷ es) ++ direct ∷ []) ++ endpoint_hops env last 0 (e ∷ es))
      size
    ∙ append_assoc (outbound_hops env (length es) 0 (e ∷ es)) (direct ∷ [])
        (endpoint_hops env (length es) 0 (e ∷ es))

pub each_egress-cons :
    (env : Env) (n : Node) (ns : List Node) (e : Egress) (es : List Egress)
    → egress_of env n ≡ some e
    → each_egress env ns ≡ some es
    → each_egress env (n ∷ ns) ≡ some (e ∷ es)
unfolding each_egress
each_egress-cons env n ns e es one more =
    ap (λ o. cons_some o (each_egress env ns)) one ∙ ap (cons_some (some e)) more

-- A chain of two configurations or more that sing-box can all carry gets its outbounds and
-- endpoints. Among them, what is routed to "proxy" goes out of the last one's server, which is
-- reached through the one before it, and so on down to the first one, which is reached directly: the
-- way ends there, whichever of them are endpoints and whether or not the first handshake is cut. The
-- tags of the hops are numbers that are printed apart, and the first configuration names no detour
-- of its own.
pub singbox_chain_egress-path :
    (env : Env)
    → IsInjective env.show
    → (n m : Node) (ns : List Node) (e : Egress) (es : List Egress) → egress_of env n ≡ some e
    → each_egress env (m ∷ ns) ≡ some es
    → get (codes "detour") (fields_of e) ≡ none
    → (r : List Fields × List Fields) × (singbox_chain_egress env (n ∷ m ∷ ns) ≡ some r)
      × (named_path dest through (all_of r) (length (e ∷ es)) (codes "proxy")
          ≡ some (map dest (reverse_onto (map fields_of (e ∷ es)) [])))
unfolding singbox_chain_egress
singbox_chain_egress-path env injective n m ns e es one more free =
    let all_egress = each_egress-cons env n (m ∷ ns) e es one more in
    let fuel : length (map fields_of (e ∷ es)) + 0 ≡ length (e ∷ es) =
      omega (arith, length-map (e ∷ es)) in
    let path =
      chain_path env injective e es free
      ∙ ap some (append-nil (map dest (reverse_onto (map fields_of (e ∷ es)) []))) in
    (
      wired env (e ∷ es),
      ap (Option.map (wired env)) all_egress,
      rw (wired-all env injective e es, ← fuel) path,
    )
