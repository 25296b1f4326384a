-- ===== src/Helper.antt =====
-- The privileged helper's check of a configuration before it runs it (helper/validate): the
-- decoded JSON, the caller's limits and the reasons of a refusal.
-- A text is a list of code points; `encoding/json` makes every text valid UTF-8.
pub mod Paths
pub mod Windows
pub mod Config
pub use vair.Base.Json.{
  Json, null, boolean, number, text, array, object, Items, no_items, item, Fields, no_fields, field,
}
use vair.Base.{ℕ, ◌≡◌, ◌↔◌, refl, Bool, true, false, ◌&&◌, List, Option, none, some, ℤ, arith}

pub record Options : Type 0 where
  pub allowed_path_prefixes : List (List ℕ)
  pub min_listen_port : ℤ
  pub windows : Bool

-- The error returned; its text is left out.
pub data Refusal : Type 0 where
  not_json not_an_object log_not_an_object log_output endpoints_not_objects : Refusal
  unsupported_key : List ℕ → Refusal
  unsupported_endpoint unsupported_inbound bad_interface_name : List ℕ → Refusal
  no_inbounds inbounds_not_objects port_required port_too_low : Refusal
  tun_count : ℕ → Refusal
  empty_path not_absolute outside : Refusal
  not_plain not_a_drive_path data_stream bad_character short_name : Refusal
  empty_segment relative_segment trailing_dot device : Refusal

-- An error is returned at once.
abbrev pub or_else_check : Option Refusal → Option Refusal → Option Refusal
or_else_check (some r) next = some r
or_else_check none next = next

-- The caller's view of a check.
abbrev pub is_admitted : Option Refusal → Bool
is_admitted none = true
is_admitted (some r) = false

pub is_admitted-none : (o : Option Refusal) → (o ≡ none) ↔ (is_admitted o ≡ true)
is_admitted-none none = (λ h. refl, λ h. refl)
is_admitted-none (some r) = (λ h. absurd (ground (arith, h)), λ h. absurd (ground (arith, h)))

pub is_admitted-or_else_check :
    (a b : Option Refusal) → is_admitted (or_else_check a b) ≡ (is_admitted a && is_admitted b)
is_admitted-or_else_check none b = refl
is_admitted-or_else_check (some r) b = refl
