-- ===== src/Helper/Config/Safe.antt =====
-- What a configuration that the helper admits is like.
use vair.Base.{
  ℕ, suc, ◌+◌, ◌≡◌, ◌↔◌, refl, subst, inl, inr, arith, zero-add, Bool, true, false, not, ◌&&◌, ◌||◌,
  List, [], ◌∷◌, Option, none, some, if◌then◌else◌, ◌==◌, codes, Bool-cases, ℤ,
}
use vair.Base.Ints.{int_less}
use vair.Helper.{
  Json, Fields, no_fields, field, Options, or_else_check, is_admitted, is_admitted-none,
  is_admitted-or_else_check,
}
use vair.Helper.Config.{
  get, text_field, number_field, as_object, as_objects, is_listed, top_level, check_keys, check_log,
  allowed_endpoint_types, check_each_endpoint, check_endpoint_list, check_endpoints,
  check_inbound_list, check_object, check_decoded, our_name, is_tun, is_listener, check_port,
  check_inbound, check_each_inbound, check_inbounds, check_paths, check_document, with_default,
  config,
}
use vair.Helper.Config.Files.{files, all_of, admitted_file, check_paths-files}

abbrev pub known_keys : Fields → Bool
known_keys no_fields = true
known_keys (field k v rest) = is_listed k top_level && known_keys rest

abbrev pub is_missing : Option Json → Bool
is_missing none = true
is_missing (some v) = false

abbrev pub writes_no_log : Option Json → Bool
writes_no_log none = true
writes_no_log (some raw) = elim (as_object raw) [
  | none ↦ false
  | some log ↦ is_missing (get (codes "output") log)
]

abbrev pub is_wireguard : Fields → Bool
is_wireguard m = is_listed (text_field (codes "type") m) allowed_endpoint_types

abbrev pub all_in {ℓ} : {A : Type ℓ} → (List A → Bool) → Option (List A) → Bool
all_in p none = false
all_in p (some xs) = p xs

abbrev pub only_wireguard : Option Json → Bool
only_wireguard none = true
only_wireguard (some raw) = all_in (all_of is_wireguard) (as_objects raw)

abbrev pub port_at_least : ℤ → Option ℤ → Bool
port_at_least min none = false
port_at_least min (some port) = not (int_less port min)

-- The tunnel under one of our names, or a listener on a port that is high enough.
abbrev pub is_our_inbound : Options → Fields → Bool
is_our_inbound opt m =
    (is_tun m && our_name opt (text_field (codes "interface_name") m))
    || (not (is_tun m)
        && (is_listener m
            && port_at_least opt.min_listen_port (number_field m (codes "listen_port"))))

abbrev pub tuns : List Fields → ℕ
tuns [] = 0
tuns (m ∷ ms) = (if is_tun m then 1 else 0) + tuns ms

abbrev pub one_tunnel_in : Options → List Fields → Bool
one_tunnel_in opt ms = all_of (is_our_inbound opt) ms && tuns ms == 1

abbrev pub one_tunnel : Options → Option Json → Bool
one_tunnel opt none = false
one_tunnel opt (some raw) = all_in (one_tunnel_in opt) (as_objects raw)

abbrev pub is_safe_document : (ℕ → ℕ) → Options → Json → Fields → Bool
is_safe_document table opt whole doc =
    known_keys doc
    && (writes_no_log (get (codes "log") doc)
        && (one_tunnel opt (get (codes "inbounds") doc)
            && (only_wireguard (get (codes "endpoints") doc)
                && all_of (admitted_file table opt) (files whole [] false))))

abbrev pub is_safe_object : (ℕ → ℕ) → Options → Json → Option Fields → Bool
is_safe_object table opt whole none = false
is_safe_object table opt whole (some doc) = is_safe_document table opt whole doc

abbrev pub is_safe : (ℕ → ℕ) → Options → Option Json → Bool
is_safe table opt none = false
is_safe table opt (some whole) = is_safe_object table opt whole (as_object whole)

check_keys-known : (doc : Fields) → is_admitted (check_keys doc) ≡ known_keys doc
unfolding check_keys
check_keys-known no_fields = refl
check_keys-known (field k v rest) = elim (Bool-cases (is_listed k top_level)) [
  | inl e ↦ rw e (check_keys-known rest)
  | inr e ↦ rw e refl
]

check_log-safe : (raw : Option Json) → is_admitted (check_log raw) ≡ writes_no_log raw
unfolding check_log
check_log-safe none = refl
check_log-safe (some raw) = ground arith

check_each_endpoint-safe :
    (eps : List Fields) → is_admitted (check_each_endpoint eps) ≡ all_of is_wireguard eps
unfolding check_each_endpoint
check_each_endpoint-safe [] = refl
check_each_endpoint-safe (m ∷ ms) = elim (Bool-cases (is_wireguard m)) [
  | inl e ↦ rw e (check_each_endpoint-safe ms)
  | inr e ↦ rw e refl
]

check_endpoint_list-safe :
    (o : Option (List Fields))
    → is_admitted (check_endpoint_list o) ≡ all_in (all_of is_wireguard) o
check_endpoint_list-safe none = refl
check_endpoint_list-safe (some eps) = check_each_endpoint-safe eps

check_endpoints-safe : (raw : Option Json) → is_admitted (check_endpoints raw) ≡ only_wireguard raw
unfolding check_endpoints
check_endpoints-safe none = refl
check_endpoints-safe (some raw) = check_endpoint_list-safe (as_objects raw)

check_inbound-safe :
    (opt : Options) (m : Fields) → is_admitted (check_inbound opt m) ≡ is_our_inbound opt m
unfolding check_inbound check_port
check_inbound-safe opt m = ground arith

check_each_inbound-safe :
    (opt : Options) (ms : List Fields) (count : ℕ)
    → is_admitted (check_each_inbound opt ms count)
      ≡ (all_of (is_our_inbound opt) ms && count + tuns ms == 1)
unfolding check_each_inbound
check_each_inbound-safe opt [] count = ground arith
check_each_inbound-safe opt (m ∷ ms) count =
    let next : ℕ = if is_tun m then suc count else count in
    rw
      (
        is_admitted-or_else_check (check_inbound opt m) (check_each_inbound opt ms next),
        check_inbound-safe opt m,
        check_each_inbound-safe opt ms next,
      )
      (ground arith)

check_inbound_list-safe :
    (opt : Options) (o : Option (List Fields))
    → is_admitted (check_inbound_list opt o) ≡ all_in (one_tunnel_in opt) o
check_inbound_list-safe opt none = refl
check_inbound_list-safe opt (some ms) = rw (← zero-add (tuns ms)) (check_each_inbound-safe opt ms 0)

check_inbounds-safe :
    (raw : Option Json) (opt : Options) → is_admitted (check_inbounds raw opt) ≡ one_tunnel opt raw
unfolding check_inbounds
check_inbounds-safe none opt = refl
check_inbounds-safe (some raw) opt = check_inbound_list-safe opt (as_objects raw)

check_document-safe :
    (table : ℕ → ℕ) (opt : Options) (whole : Json) (doc : Fields)
    → is_admitted (check_document table opt whole doc) ≡ is_safe_document table opt whole doc
unfolding check_document
check_document-safe table opt whole doc =
    let paths = check_paths table opt whole [] false in
    let ends = check_endpoints (get (codes "endpoints") doc) in
    let ins = check_inbounds (get (codes "inbounds") doc) opt in
    let log = check_log (get (codes "log") doc) in
    rw
      (
        is_admitted-or_else_check (check_keys doc)
            (or_else_check log (or_else_check ins (or_else_check ends paths))),
        is_admitted-or_else_check log (or_else_check ins (or_else_check ends paths)),
        is_admitted-or_else_check ins (or_else_check ends paths),
        is_admitted-or_else_check ends paths,
        check_keys-known doc,
        check_log-safe (get (codes "log") doc),
        check_inbounds-safe (get (codes "inbounds") doc) opt,
        check_endpoints-safe (get (codes "endpoints") doc),
        check_paths-files table opt whole [] false,
      )
      refl

check_object-safe :
    (table : ℕ → ℕ) (opt : Options) (whole : Json) (o : Option Fields)
    → is_admitted (check_object table opt whole o) ≡ is_safe_object table opt whole o
check_object-safe table opt whole none = refl
check_object-safe table opt whole (some doc) = check_document-safe table opt whole doc

check_decoded-safe :
    (table : ℕ → ℕ) (opt : Options) (o : Option Json)
    → is_admitted (check_decoded table opt o) ≡ is_safe table opt o
check_decoded-safe table opt none = refl
check_decoded-safe table opt (some whole) = check_object-safe table opt whole (as_object whole)

-- The helper admits a configuration exactly when it decodes to an object with known keys only,
-- whose log names no output, whose inbounds are one tunnel under one of our names and listeners on
-- ports no lower than the limit (1024 where the caller set none), whose endpoints are all WireGuard,
-- and of which every file named anywhere is an admitted path.
pub config-exact :
    (unmarshal : List ℕ → Option Json) (table : ℕ → ℕ) (raw : List ℕ) (opt : Options)
    → (config unmarshal table raw opt ≡ none)
      ↔ (is_safe table (with_default opt) (unmarshal raw) ≡ true)
unfolding config
config-exact unmarshal table raw opt =
    let o = check_decoded table (with_default opt) (unmarshal raw) in
    subst (λ (b : Bool). (o ≡ none) ↔ (b ≡ true))
      (check_decoded-safe table (with_default opt) (unmarshal raw)) (is_admitted-none o)
