-- ===== src/Singbox/Tun/Clean.antt =====
-- No outbound that is built for a parsed link names a file, as the helper looks for them.
use vair.Base.{
  ℕ, ◌≡◌, refl, Bool, true, false, ◌||◌, List, [], ◌∷◌, Option, none, some, codes, same, same_eq,
  Bool-cases, inl, inr, arith, String, ℤ,
}
use vair.Base.Json.{Json, Fields, no_fields, field, get, put, put_if, texts}
use vair.Helper.{Options, Refusal, or_else_check}
use vair.Helper.Config.{check_paths, check_items, check_fields, names_file}
use vair.Node.{Env, TuicParams, WireGuardParams, split_alpn}
use vair.Singbox.{numbers, singbox_outbound_tuic, singbox_endpoint_wireguard, or_h3}
use vair.Singbox.Blocks.{TlsOptions, reality_block, plain_tls}

pub or_else-none : (a b : Option Refusal) → a ≡ none → b ≡ none → or_else_check a b ≡ none
or_else-none none b h g = g
or_else-none (some r) b h g = absurd (ground (arith, h))

pub or_else_parts : (a b : Option Refusal) → or_else_check a b ≡ none → (a ≡ none) × (b ≡ none)
or_else_parts none b h = (refl, h)
or_else_parts (some r) b h = absurd (ground (arith, h))

module _ (table : ℕ → ℕ) (opt : Options) where
  -- A value under a key, and a map, that name no file outside of what is allowed.
  abbrev pub IsCleanAt : List ℕ → Json → Type 0
  IsCleanAt k v = check_paths table opt v k (false || same k (codes "rule_set")) ≡ none

  abbrev pub IsClean : Fields → Type 0
  IsClean m = check_fields table opt m false ≡ none

  pub put-IsClean :
      (k : List ℕ) (v : Json) (m : Fields) → IsCleanAt k v → IsClean m → IsClean (put k v m)
  unfolding put check_paths
  put-IsClean k v no_fields at all = or_else-none _ _ at refl
  put-IsClean k v (field j w rest) at all = elim (Bool-cases (same j k)) [
    | inl e ↦ rw e (or_else-none _ _ at (or_else_parts _ _ all).1)
    | inr e ↦ rw e (
        or_else-none _ _ (or_else_parts _ _ all).0
          (put-IsClean k v rest at (or_else_parts _ _ all).1))
  ]

  pub put_if-IsClean :
      (b : Bool) (key : String) (v : Json) (m : Fields)
      → IsCleanAt (codes key) v
      → IsClean m
      → IsClean (put_if b key v m)
  put_if-IsClean true key v m at all = put-IsClean (codes key) v m at all
  put_if-IsClean false key v m at all = all

  pub get-IsCleanAt :
      (k : List ℕ) (m : Fields) (v : Json) → IsClean m → get k m ≡ some v → IsCleanAt k v
  unfolding get check_paths
  get-IsCleanAt k no_fields v all h = absurd (ground (arith, h))
  get-IsCleanAt k (field j w rest) v all h = elim (Bool-cases (same j k)) [
    | inl e ↦
        let value : w ≡ v = some_eq w v (rw e at h) in
        rw (← same_eq j k e, ← value) (or_else_parts _ _ all).0
    | inr e ↦ get-IsCleanAt k rest v (or_else_parts _ _ all).1 (rw e at h)
  ]
    where
      some_eq : (a b : Json) → some a ≡ some b → a ≡ b
      some_eq a b e = cc

  pub texts-clean :
      (ss : List (List ℕ)) (k : List ℕ) (inside : Bool)
      → names_file k inside ≡ false
      → check_items table opt (texts ss) k inside ≡ none
  unfolding check_paths
  texts-clean [] k inside h = refl
  texts-clean (s ∷ ss) k inside h = rw h (texts-clean ss k inside h)

  pub numbers-clean :
      (ns : List ℤ) (k : List ℕ) (inside : Bool)
      → check_items table opt (numbers ns) k inside ≡ none
  unfolding check_paths
  numbers-clean [] k inside = refl
  numbers-clean (n ∷ ns) k inside = numbers-clean ns k inside

  pub reality_block-IsClean : (o : TlsOptions) → IsClean (reality_block o)
  unfolding put check_paths
  reality_block-IsClean o = ground arith

  pub plain_tls-IsClean : (env : Env) (o : TlsOptions) → IsClean (plain_tls env o)
  unfolding put plain_tls check_paths
  plain_tls-IsClean env o =
      ground (arith, texts-clean (split_alpn env o.alpn) (codes "alpn") false refl)

  pub singbox_outbound_tuic-IsClean :
      (env : Env) (p : TuicParams) → IsClean (singbox_outbound_tuic env p)
  unfolding put singbox_outbound_tuic check_paths
  singbox_outbound_tuic-IsClean env p =
      ground (arith, texts-clean (or_h3 (split_alpn env p.alpn)) (codes "alpn") false refl)

  pub singbox_endpoint_wireguard-IsClean :
      (p : WireGuardParams) → IsClean (singbox_endpoint_wireguard p)
  unfolding put singbox_endpoint_wireguard check_paths
  singbox_endpoint_wireguard-IsClean p = ground (
    arith,
    texts-clean p.addresses (codes "address") false refl,
    numbers-clean p.reserved (codes "reserved") false,
  )
