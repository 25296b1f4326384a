-- ===== src/Singbox/Protected.antt =====
-- The TLS of sing-box's outbounds.
use vair.Base.{
  ℕ, ◌≡◌, refl, sym, ap, ◌∙◌, Bool, true, false, ◌&&◌, ◌||◌, not, List, [], ◌∷◌, Option, none, some,
  codes, same, is_empty, if◌then◌else◌, arith, String,
}
use vair.Base.Json.{
  Json, boolean, object, text, Fields, get, put, put_if, get-put_self, get-put_other, entries,
}
use vair.Node.{Env, is, first_non_empty}
use vair.Singbox.Blocks.{
  TlsOptions, reality_block, add_utls, or_chrome, add_reality, wants_tls, plain_tls, singbox_tls,
  Transport, unsupported, plain, over, add_some, with_blocks,
}
use vair.Singbox.Chain.{is_there}

-- What the outbound's TLS is to do.
pub record IsProtected (o : TlsOptions) (ob : Fields) : Type 0 where
  pub tls : Fields
  pub at_tls : get (codes "tls") ob ≡ some (object tls)
  pub enabled : get (codes "enabled") tls ≡ some (boolean true)
  pub checked : get (codes "insecure") tls ≡ (if o.insecure then some (boolean true) else none)
  pub reality :
      get (codes "reality") tls
      ≡ (if is "reality" o.security then some (object (reality_block o)) else none)
  pub has_key : (not (is "reality" o.security) || not (is_empty o.public_key)) ≡ true
  pub has_utls : (not (is "reality" o.security) || is_there (get (codes "utls") tls)) ≡ true

get-put_if_other :
    (k : List ℕ) (b : Bool) (key : String) (v : Json) (m : Fields)
    → same (codes key) k ≡ false
    → get k (put_if b key v m) ≡ get k m
get-put_if_other k true key v m h = get-put_other k (codes key) v m h
get-put_if_other k false key v m h = refl

get-put_if_self :
    (b : Bool) (key : String) (v : Json) (m : Fields)
    → get (codes key) m ≡ none
    → get (codes key) (put_if b key v m) ≡ (if b then some v else none)
get-put_if_self true key v m h = get-put_self (codes key) v m
get-put_if_self false key v m h = h

module _ (env : Env) (o : TlsOptions) where
  abbrev named : Fields
  named =
      put_if (not (is_empty (first_non_empty o.sni o.host))) "server_name"
        (text (first_non_empty o.sni o.host)) (entries (("enabled", boolean true) ∷ []))

  abbrev with_insecure : Fields
  with_insecure = put_if o.insecure "insecure" (boolean true) named

  -- The block has nothing that its options do not ask for.
  get-plain_tls :
      (k : List ℕ) → same (codes "alpn") k ≡ false → get k (plain_tls env o) ≡ get k with_insecure
  unfolding plain_tls
  get-plain_tls k h = get-put_if_other k _ "alpn" _ with_insecure h

  get-named :
      (k : List ℕ)
      → same (codes "server_name") k ≡ false
      → get k named ≡ get k (entries (("enabled", boolean true) ∷ []))
  get-named k h = get-put_if_other k _ "server_name" _ _ h

  enabled_plain : get (codes "enabled") (plain_tls env o) ≡ some (boolean true)
  unfolding get
  enabled_plain =
      get-plain_tls (codes "enabled") refl
      ∙ get-put_if_other (codes "enabled") o.insecure "insecure" (boolean true) named refl
      ∙ get-named (codes "enabled") refl

  insecure_plain :
      get (codes "insecure") (plain_tls env o) ≡ (if o.insecure then some (boolean true) else none)
  unfolding get
  insecure_plain =
      get-plain_tls (codes "insecure") refl
      ∙ get-put_if_self o.insecure "insecure" (boolean true) named
          (get-named (codes "insecure") refl)

  reality_plain : get (codes "reality") (plain_tls env o) ≡ none
  unfolding get
  reality_plain =
      get-plain_tls (codes "reality") refl
      ∙ get-put_if_other (codes "reality") o.insecure "insecure" (boolean true) named refl
      ∙ get-named (codes "reality") refl

get-or_chrome :
    (k : List ℕ) (v : Option Json) (m : Fields)
    → same (codes "utls") k ≡ false
    → get k (or_chrome v m) ≡ get k m
get-or_chrome k none m h = get-put_other k (codes "utls") _ m h
get-or_chrome k (some v) m h = refl

utls-or_chrome :
    (v : Option Json) (m : Fields)
    → get (codes "utls") m ≡ v
    → is_there (get (codes "utls") (or_chrome v m)) ≡ true
utls-or_chrome none m e = ap is_there (get-put_self (codes "utls") _ m)
utls-or_chrome (some v) m e = ap is_there e

module _ (o : TlsOptions) (m : Fields) where
  abbrev reality_over : Bool → Fields
  reality_over b =
      if b
      then put (codes "reality") (object (reality_block o)) (or_chrome (get (codes "utls") m) m)
      else m

  get-reality_over :
      (k : List ℕ) (b : Bool)
      → same (codes "reality") k ≡ false
      → same (codes "utls") k ≡ false
      → get k (reality_over b) ≡ get k m
  get-reality_over k true h g =
      get-put_other k (codes "reality") _ _ h ∙ get-or_chrome k (get (codes "utls") m) m g
  get-reality_over k false h g = refl

  reality-reality_over :
      (b : Bool)
      → get (codes "reality") m ≡ none
      → get (codes "reality") (reality_over b)
        ≡ (if b then some (object (reality_block o)) else none)
  reality-reality_over true h = get-put_self (codes "reality") _ _
  reality-reality_over false h = h

  utls-reality_over : (b : Bool) → (not b || is_there (get (codes "utls") (reality_over b))) ≡ true
  utls-reality_over true =
      ap is_there (get-put_other (codes "utls") (codes "reality") _ _ refl)
      ∙ utls-or_chrome (get (codes "utls") m) m refl
  utls-reality_over false = refl

and_implied : (r k : Bool) → (not r || k) ≡ true → (r && k) ≡ r
and_implied r k h = ground (arith, h)

module _ (env : Env) (o : TlsOptions) where
  abbrev cut_hello : Fields
  cut_hello = add_utls (first_non_empty o.fingerprint env.fingerprint) (plain_tls env o)

  get-cut_hello :
      (k : List ℕ) → same (codes "utls") k ≡ false → get k cut_hello ≡ get k (plain_tls env o)
  unfolding add_utls
  get-cut_hello k h = get-put_if_other k _ "utls" _ (plain_tls env o) h

  -- An outbound with this TLS block is protected.
  block-IsProtected :
      (ob : Fields)
      → get (codes "tls") ob ≡ some (object (add_reality o cut_hello))
      → (not (is "reality" o.security) || not (is_empty o.public_key)) ≡ true
      → IsProtected o ob
  unfolding add_reality
  block-IsProtected ob at key =
      let b = is "reality" o.security && not (is_empty o.public_key) in
      let is_reality : b ≡ is "reality" o.security =
        and_implied (is "reality" o.security) (not (is_empty o.public_key)) key in
      record {
        tls = add_reality o cut_hello;
        at_tls = at;
        enabled =
            get-reality_over o cut_hello (codes "enabled") b refl refl
            ∙ get-cut_hello (codes "enabled") refl
            ∙ enabled_plain env o;
        checked =
            get-reality_over o cut_hello (codes "insecure") b refl refl
            ∙ get-cut_hello (codes "insecure") refl
            ∙ insecure_plain env o;
        reality =
            reality-reality_over o cut_hello b
              (get-cut_hello (codes "reality") refl ∙ reality_plain env o)
            ∙ ap (λ (r : Bool). if r then some (object (reality_block o)) else none) is_reality;
        has_key = key;
        has_utls =
            ap (λ (r : Bool). not r || is_there (get (codes "utls") (reality_over o cut_hello b)))
              (sym is_reality)
            ∙ utls-reality_over o cut_hello b;
      }

tls-with_blocks :
    (t : Fields) (tr : Transport) (out ob : Fields)
    → with_blocks (some t) tr out ≡ some ob
    → get (codes "tls") ob ≡ some (object t)
unfolding add_some
tls-with_blocks t unsupported out ob h = absurd (ground (arith, h))
tls-with_blocks t plain out ob h =
    let equal : put (codes "tls") (object t) out ≡ ob = cc in
    ap (get (codes "tls")) (sym equal) ∙ get-put_self (codes "tls") (object t) out
tls-with_blocks t (over r) out ob h =
    let equal : put (codes "transport") (object r) (put (codes "tls") (object t) out) ≡ ob = cc in
    ap (get (codes "tls")) (sym equal)
    ∙ get-put_other (codes "tls") (codes "transport") (object r) _ refl
    ∙ get-put_self (codes "tls") (object t) out

-- The outbounds of VLESS and Trojan, by their options.
pub built-IsProtected :
    (env : Env) (o : TlsOptions) (tr : Transport) (out ob : Fields)
    → wants_tls o.security ≡ true
    → (not (is "reality" o.security) || not (is_empty o.public_key)) ≡ true
    → with_blocks (singbox_tls env o) tr out ≡ some ob
    → IsProtected o ob
unfolding singbox_tls
built-IsProtected env o tr out ob wants key h =
    let block =
      ap (λ (b : Bool). if b then some (add_reality o (cut_hello env o)) else none) wants in
    block-IsProtected env o ob
      (tls-with_blocks (add_reality o (cut_hello env o)) tr out ob
        (ap (λ t. with_blocks t tr out) (sym block) ∙ h))
      key
