-- ===== src/Helper/Config.antt =====
-- helper/validate/validate.go: `Config` and the checks that it makes in turn.
-- `unmarshal` is `json.Unmarshal` of the whole text and `table` the case mapping of
-- `strings.ToLower` outside ASCII.
pub mod Files
pub mod Safe
pub mod Directories
use vair.Base.{
  ℕ, zero, suc, ◌≡◌, Bool, true, false, not, ◌&&◌, ◌||◌, List, [], ◌∷◌, ◌++◌, Option, none, some,
  if◌then◌else◌, ◌==◌, leb, ltb, same, is_empty, codes, drop, length, ℤ, pos, negsuc,
}
unfoldable pub use vair.Base.Json.{get}
use vair.Base.Ints.{int_less}
use vair.Base.Text.{has_prefix, has_suffix}
use vair.Helper.{
  Json, null, boolean, number, text, array, object, Items, no_items, item, Fields, no_fields, field,
  Options, Refusal, not_json, not_an_object, log_not_an_object, log_output, endpoints_not_objects,
  unsupported_key, unsupported_endpoint, unsupported_inbound, bad_interface_name, no_inbounds,
  inbounds_not_objects, port_required, port_too_low, tun_count, empty_path, or_else_check,
}
use vair.Helper.Paths.{check_linux_path}
use vair.Helper.Windows.{check_windows_path, is_digit, any_rune}

-- `v, _ := m[key].(string)`.
abbrev pub text_or_empty : Option Json → List ℕ
text_or_empty (some (text s)) = s
text_or_empty _ = []

abbrev pub text_field : List ℕ → Fields → List ℕ
text_field key m = text_or_empty (get key m)

abbrev pub number_of : Option Json → Option ℤ
number_of (some (number n)) = some n
number_of _ = none

unfoldable pub number_field : Fields → List ℕ → Option ℤ
unfolding get
number_field m key = number_of (get key m)

-- A value decoded into a map, and into a slice of maps.
abbrev pub as_object : Json → Option Fields
as_object null = some no_fields
as_object (object m) = some m
as_object _ = none

unfoldable pub objects : Items → Option (List Fields)
objects no_items = some []
objects (item v rest) = elim (as_object v) [
  | none ↦ none
  | some m ↦ elim (objects rest) [ none ↦ none | some ms ↦ some (m ∷ ms) ]
]

unfoldable pub as_objects : Json → Option (List Fields)
unfolding objects
as_objects null = some []
as_objects (array vs) = objects vs
as_objects _ = none

abbrev pub is_listed : List ℕ → List (List ℕ) → Bool
is_listed s [] = false
is_listed s (t ∷ ts) = same s t || is_listed s ts

abbrev pub top_level : List (List ℕ)
top_level =
    codes "log"
    ∷ codes "dns"
    ∷ codes "inbounds"
    ∷ codes "outbounds"
    ∷ codes "route"
    ∷ codes "endpoints"
    ∷ []

unfoldable pub check_keys : Fields → Option Refusal
check_keys no_fields = none
check_keys (field k v rest) =
    or_else_check (if is_listed k top_level then none else some (unsupported_key k))
      (check_keys rest)

unfoldable pub check_log : Option Json → Option Refusal
unfolding get
check_log none = none
check_log (some raw) = elim (as_object raw) [
  | none ↦ some log_not_an_object
  | some log ↦ elim (get (codes "output") log) [ none ↦ none | some v ↦ some log_output ]
]

abbrev pub allowed_endpoint_types : List (List ℕ)
allowed_endpoint_types = codes "wireguard" ∷ []

unfoldable pub check_each_endpoint : List Fields → Option Refusal
check_each_endpoint [] = none
check_each_endpoint (ep ∷ eps) =
    or_else_check
      (if is_listed (text_field (codes "type") ep) allowed_endpoint_types
        then none
        else some (unsupported_endpoint (text_field (codes "type") ep)))
      (check_each_endpoint eps)

abbrev pub check_endpoint_list : Option (List Fields) → Option Refusal
check_endpoint_list none = some endpoints_not_objects
check_endpoint_list (some eps) = check_each_endpoint eps

unfoldable pub check_endpoints : Option Json → Option Refusal
unfolding check_each_endpoint as_objects
check_endpoints none = none
check_endpoints (some raw) = check_endpoint_list (as_objects raw)

abbrev pub all_digits : List ℕ → Bool
all_digits s = not (any_rune (λ c. not (is_digit c)) s)

unfoldable pub iface_name : List ℕ → Bool
iface_name s = has_prefix s (codes "vair") && (leb (length (drop 4 s)) 2 && all_digits (drop 4 s))

unfoldable pub iface_name_windows : List ℕ → Bool
iface_name_windows s =
    has_prefix s (codes "vair-")
    && (leb 1 (length (drop 5 s)) && leb (length (drop 5 s)) 5 && all_digits (drop 5 s))

-- `name` is one of ours.
abbrev pub our_name : Options → List ℕ → Bool
our_name opt name = if opt.windows then iface_name_windows name else iface_name name

abbrev pub is_tun : Fields → Bool
is_tun m = same (text_field (codes "type") m) (codes "tun")

abbrev pub is_listener : Fields → Bool
is_listener m =
    is_listed (text_field (codes "type") m) (codes "mixed" ∷ codes "socks" ∷ codes "http" ∷ [])

unfoldable pub check_port : Options → Option ℤ → Option Refusal
check_port opt none = some port_required
check_port opt (some port) = if int_less port opt.min_listen_port then some port_too_low else none

-- One turn of the loop of `checkInbounds`.
unfoldable pub check_inbound : Options → Fields → Option Refusal
unfolding check_port number_field iface_name iface_name_windows
check_inbound opt m =
    if is_tun m
    then (if our_name opt (text_field (codes "interface_name") m)
        then none
        else some (bad_interface_name (text_field (codes "interface_name") m)))
    else if is_listener m
    then check_port opt (number_field m (codes "listen_port"))
    else some (unsupported_inbound (text_field (codes "type") m))

unfoldable pub check_each_inbound : Options → List Fields → ℕ → Option Refusal
unfolding check_inbound
check_each_inbound opt [] count = if count == 1 then none else some (tun_count count)
check_each_inbound opt (m ∷ ms) count =
    or_else_check (check_inbound opt m)
      (check_each_inbound opt ms (if is_tun m then suc count else count))

abbrev pub check_inbound_list : Options → Option (List Fields) → Option Refusal
check_inbound_list opt none = some inbounds_not_objects
check_inbound_list opt (some ms) = check_each_inbound opt ms 0

unfoldable pub check_inbounds : Option Json → Options → Option Refusal
unfolding check_each_inbound as_objects
check_inbounds none opt = some no_inbounds
check_inbounds (some raw) opt = check_inbound_list opt (as_objects raw)

unfoldable pub check_path : (ℕ → ℕ) → List ℕ → Options → Option Refusal
unfolding check_linux_path check_windows_path
check_path table p opt =
    if is_empty p
    then some empty_path
    else if opt.windows
    then check_windows_path table p opt
    else check_linux_path p opt

-- The key names a file.
abbrev pub names_file : List ℕ → Bool → Bool
names_file key in_rule_set =
    has_suffix key (codes "_path") || (same key (codes "path") && in_rule_set)

unfoldable mutual
  unfolding check_path

  pub check_paths : (ℕ → ℕ) → Options → Json → List ℕ → Bool → Option Refusal
  check_paths table opt (object m) key inside = check_fields table opt m inside
  check_paths table opt (array vs) key inside = check_items table opt vs key inside
  check_paths table opt (text s) key inside =
      if names_file key inside then check_path table s opt else none
  check_paths table opt (number n) key inside = none
  check_paths table opt (boolean b) key inside = none
  check_paths table opt null key inside = none

  pub check_items : (ℕ → ℕ) → Options → Items → List ℕ → Bool → Option Refusal
  check_items table opt no_items key inside = none
  check_items table opt (item v rest) key inside =
      or_else_check (check_paths table opt v key inside) (check_items table opt rest key inside)

  pub check_fields : (ℕ → ℕ) → Options → Fields → Bool → Option Refusal
  check_fields table opt no_fields inside = none
  check_fields table opt (field k v rest) inside =
      or_else_check (check_paths table opt v k (inside || same k (codes "rule_set")))
        (check_fields table opt rest inside)

unfoldable pub check_document : (ℕ → ℕ) → Options → Json → Fields → Option Refusal
unfolding check_keys check_log check_inbounds check_endpoints check_paths get
check_document table opt whole doc = or_else_check (check_keys doc) (
    or_else_check (check_log (get (codes "log") doc)) (
      or_else_check (check_inbounds (get (codes "inbounds") doc) opt) (
        or_else_check (check_endpoints (get (codes "endpoints") doc))
          (check_paths table opt whole [] false))))

-- A limit of 0 is the default one.
abbrev pub with_default : Options → Options
with_default opt = record opt {
  min_listen_port = elim opt.min_listen_port [ pos zero ↦ pos 1024 | n ↦ n ];
}

abbrev pub check_object : (ℕ → ℕ) → Options → Json → Option Fields → Option Refusal
check_object table opt whole none = some not_an_object
check_object table opt whole (some doc) = check_document table opt whole doc

abbrev pub check_decoded : (ℕ → ℕ) → Options → Option Json → Option Refusal
check_decoded table opt none = some not_json
check_decoded table opt (some whole) = check_object table opt whole (as_object whole)

unfoldable pub config : (List ℕ → Option Json) → (ℕ → ℕ) → List ℕ → Options → Option Refusal
unfolding check_document
config unmarshal table raw opt = check_decoded table (with_default opt) (unmarshal raw)
