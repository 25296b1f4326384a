-- ===== src/View.antt =====
-- The table as it is shown (core/memstore.go, excludefilter.go): a tab's rows filtered, sorted and
-- cut to a window.
-- A text is a list of code points: Go compares valid UTF-8 by bytes, which is the same order.
pub mod ByRaw
pub mod Cache
pub mod Exclude
pub mod Filter
pub mod Firsts
pub mod Order
pub mod Sort
pub mod Window
use vair.Base.{
  ℕ, ◌≡◌, Bool, true, false, List, [], ◌∷◌, ◌++◌, Option, none, some, ◌&&◌, ◌||◌, if◌then◌else◌,
  ◌==◌, same, codes, is_empty, ℤ,
}
use vair.Base.Text.{has_prefix, to_lower}
use vair.Table.{Status, pending, testing_ping, testing_speed, succeeded, failed, skipped}

-- `ConfigEntry`. `delay` is 0 where the code has -1 or 0, which it never tells apart here; `speed`
-- counts in the smallest unit, since speeds are only compared.
pub record Entry : Type 0 where
  pub index : ℕ
  pub raw : List ℕ
  pub name : List ℕ
  pub host : List ℕ
  pub network : List ℕ
  pub security : List ℕ
  pub protocol : List ℕ
  pub ping : Status
  pub speed_status : Status
  pub delay : ℕ
  pub speed : ℕ

-- `sortKey`. `stab` is none for -1.
pub record Key : Type 0 where
  pub entry : Entry
  pub idx : ℕ
  pub delay : ℕ
  pub speed : ℕ
  pub stab : Option ℕ
  pub ping : Status
  pub speed_status : Status
  pub fav : Bool
  pub name : List ℕ
  pub name_search : List ℕ
  pub host : List ℕ
  pub network : List ℕ
  pub security : List ℕ
  pub protocol : List ℕ
  pub chip : List ℕ
  pub raw : List ℕ

pub record Query : Type 0 where
  pub sort : List ℕ
  pub filter : List ℕ
  pub proto : List (List ℕ)
  pub dedup_hide : Bool
  pub exclude : List (List ℕ)
  pub offset : ℤ
  pub limit : ℤ

-- What the table asks of the others: `nodeBody`, `dedupKey`, the trusted share of `statsFor`, the
-- answers of `unlockOpens`; and of the Unicode tables: the cases outside ASCII and the white space.
pub record Outside : Type 0 where
  pub node_body : List ℕ → List ℕ
  pub dedup_key : List ℕ → List ℕ
  pub stability : List ℕ → Option ℕ
  pub opens : List ℕ → List ℕ → Bool
  pub table : ℕ → ℕ
  pub is_space : ℕ → Bool

abbrev pub is_in : List ℕ → List (List ℕ) → Bool
is_in s [] = false
is_in s (t ∷ ts) = same s t || is_in s ts

-- `shownNetwork`.
unfoldable pub shown_network : (ℕ → ℕ) → List ℕ → List ℕ
shown_network table s =
    if same (to_lower table s) (codes "raw") then codes "tcp" else to_lower table s

unfoldable pub chip_proto_of : (ℕ → ℕ) → List ℕ → List ℕ → List ℕ
chip_proto_of table protocol security =
    if is_empty protocol
    then codes "none"
    else if same (to_lower table protocol) (codes "ss")
        && has_prefix (to_lower table security) (codes "2022-blake3-")
    then codes "ss2022"
    else to_lower table protocol
