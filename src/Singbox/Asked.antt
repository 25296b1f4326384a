-- ===== src/Singbox/Asked.antt =====
-- core/protocols.go: the TLS of sing-box's outbounds against what a link asks for.
use vair.Base.{
  ℕ, ◌≡◌, refl, sym, ap, ◌∙◌, Bool, true, false, ◌||◌, not, List, Option, none, some, codes, same,
  same_eq, is_empty, if◌then◌else◌, arith, subst, Bool-cases, inl, inr,
}
use vair.Base.Json.{boolean, object, text, Fields, get, put}
use vair.Node.{Env, is, Node, vless, trojan}
use vair.Singbox.{
  vless_tls, trojan_tls, singbox_outbound_for_node, singbox_outbound_vless, singbox_outbound_trojan,
}
use vair.Singbox.Blocks.{TlsOptions, reality_block, wants_tls, singbox_can_carry_tls}
use vair.Singbox.Chain.{is_there}
use vair.Singbox.Protected.{IsProtected, built-IsProtected}

if_some_parts :
    (b : Bool) (o : Option Fields) (ob : Fields)
    → (if b then o else none) ≡ some ob
    → (b ≡ true) × (o ≡ some ob)
if_some_parts true o ob h = (refl, h)
if_some_parts false o ob h = absurd (ground (arith, h))

implied : (r s k : Bool) → (s ≡ true → r ≡ true) → (not r || k) ≡ true → (not s || k) ≡ true
implied r true k f h = rw (f refl) at h
implied r false k f h = refl

-- What the link of a node asks of its TLS. VLESS has what it names; Trojan is TLS unless it names
-- something else than "none".
pub record Asked : Type 0 where
  pub encrypted : Bool
  pub by_reality : Bool
  pub unchecked : Bool
  pub key : List ℕ
  pub id : List ℕ

abbrev pub names_tls : List ℕ → Bool
names_tls s = same s (codes "tls") || (same s (codes "reality") || same s (codes "xtls"))

abbrev pub asked_of : Node → Option Asked
asked_of (vless p) = some record {
  encrypted = names_tls p.security;
  by_reality = same p.security (codes "reality");
  unchecked = p.allow_insecure;
  key = p.public_key;
  id = p.short_id;
}
asked_of (trojan p) = some record {
  encrypted = is_empty p.security || (same p.security (codes "none") || names_tls p.security);
  by_reality = same p.security (codes "reality");
  unchecked = p.allow_insecure;
  key = p.public_key;
  id = p.short_id;
}
asked_of n = none

-- The REALITY block with that key and that short id.
abbrev pub HasKey : List ℕ → List ℕ → Fields → Type 0
HasKey key id r =
    (get (codes "enabled") r ≡ some (boolean true))
    × (get (codes "public_key") r ≡ some (text key))
    × (get (codes "short_id") r ≡ (if is_empty id then none else some (text id)))

-- An outbound that gives what is asked for, and no less.
pub record Gives (w : Asked) (ob : Fields) : Type 0 where
  pub tls : Fields
  pub at_tls : get (codes "tls") ob ≡ some (object tls)
  pub enabled : get (codes "enabled") tls ≡ some (boolean true)
  pub checked : get (codes "insecure") tls ≡ (if w.unchecked then some (boolean true) else none)
  pub plain : w.by_reality ≡ false → get (codes "reality") tls ≡ none
  pub reality :
      w.by_reality ≡ true
      → (r : Fields) × (get (codes "reality") tls ≡ some (object r))
        × HasKey w.key w.id r
        × (is_empty w.key ≡ false)
        × (is_there (get (codes "utls") tls) ≡ true)

reality_block-HasKey : (o : TlsOptions) → HasKey o.public_key o.short_id (reality_block o)
unfolding get put
reality_block-HasKey o = ground arith

-- What the options say is what the link asks for.
abbrev Agrees : TlsOptions → Asked → Type 0
Agrees o w =
    (is "reality" o.security ≡ w.by_reality)
    × (o.insecure ≡ w.unchecked)
    × (o.public_key ≡ w.key)
    × (o.short_id ≡ w.id)

filled : {b e : Bool} → b ≡ true → (not b || not e) ≡ true → e ≡ false
filled {b} {e} h g = ground (arith, h, g)

there : {b e : Bool} → b ≡ true → (not b || e) ≡ true → e ≡ true
there {b} {e} h g = ground (arith, h, g)

protected-Gives :
    (o : TlsOptions) (w : Asked) (ob : Fields) → Agrees o w → IsProtected o ob → Gives w ob
protected-Gives o w ob (r, i, k, d) p = record {
  tls = p.tls;
  at_tls = p.at_tls;
  enabled = p.enabled;
  checked = p.checked ∙ ap (λ (b : Bool). if b then some (boolean true) else none) i;
  plain = λ h.
      p.reality ∙ ap (λ (b : Bool). if b then some (object (reality_block o)) else none) (r ∙ h);
  reality = λ h.
      let needed = with_key (r ∙ h) in
      (
        reality_block o,
        p.reality ∙ ap (λ (b : Bool). if b then some (object (reality_block o)) else none) (r ∙ h),
        subst (λ key. HasKey key w.id (reality_block o)) k
            (subst (λ id. HasKey o.public_key id (reality_block o)) d (reality_block-HasKey o)),
        needed.0,
        needed.1,
      );
}
  where
    with_key :
        is "reality" o.security ≡ true
        → (is_empty w.key ≡ false) × (is_there (get (codes "utls") p.tls) ≡ true)
    with_key on = (sym (ap is_empty k) ∙ filled on p.has_key, there on p.has_utls)

wants_vless : (s : List ℕ) → names_tls s ≡ true → wants_tls s ≡ true
unfolding wants_tls
wants_vless s h = ground (arith, h)

wants_trojan :
    (s : List ℕ)
    → (is_empty s || (same s (codes "none") || names_tls s)) ≡ true
    → wants_tls (if is_empty s || is "none" s then codes "tls" else s) ≡ true
unfolding wants_tls
wants_trojan s h = ground (arith, h)

trojan_reality :
    (s : List ℕ)
    → is "reality" (if is_empty s || is "none" s then codes "tls" else s) ≡ is "reality" s
trojan_reality s = elim (Bool-cases (is_empty s || is "none" s)) [
  | inl e ↦ rw e (sym (other s e))
  | inr e ↦ rw e refl
]
  where
    other : (t : List ℕ) → (is_empty t || is "none" t) ≡ true → is "reality" t ≡ false
    other t e = ground (arith, e, same_eq t (codes "none"))

some_eq : (a b : Asked) → some a ≡ some b → a ≡ b
some_eq a b e = cc

-- An outbound of VLESS or Trojan whose link asks for TLS, REALITY included, has TLS on, and the
-- server's certificate goes unchecked only if the link says so. REALITY is never made plain TLS: a
-- link that asks for it has a key, and its outbound has the REALITY block with that key and the
-- short id, and uTLS; and no other of these
-- outbounds has the block.
pub singbox_outbound-Gives :
    (env : Env) (n : Node) (w : Asked) (ob : Fields)
    → asked_of n ≡ some w
    → w.encrypted ≡ true
    → singbox_outbound_for_node env n ≡ some ob
    → Gives w ob
unfolding singbox_outbound_for_node singbox_outbound_vless singbox_outbound_trojan
    singbox_can_carry_tls
singbox_outbound-Gives env (vless p) w ob e wants h =
    let equal = some_eq _ w e in
    let (carried, blocks) = if_some_parts (singbox_can_carry_tls p.security p.public_key) _ ob h in
    let on = wants_vless p.security (ap (λ a. a.encrypted) equal ∙ wants) in
    subst (λ a. Gives a ob) equal
      (protected-Gives (vless_tls p) _ ob (refl, refl, refl, refl)
        (built-IsProtected env (vless_tls p) _ _ ob on carried blocks))
singbox_outbound-Gives env (trojan p) w ob e wants h =
    let equal = some_eq _ w e in
    let (carried, blocks) = if_some_parts (singbox_can_carry_tls p.security p.public_key) _ ob h in
    let on = wants_trojan p.security (ap (λ a. a.encrypted) equal ∙ wants) in
    subst (λ a. Gives a ob) equal
      (protected-Gives (trojan_tls p) _ ob (trojan_reality p.security, refl, refl, refl)
        (built-IsProtected env (trojan_tls p) _ _ ob on
          (implied (is "reality" p.security) _ _ (λ r. sym (trojan_reality p.security) ∙ r) carried)
          blocks))
singbox_outbound-Gives env n w ob e wants h = absurd (ground (arith, e))
