-- ===== src/Table.antt =====
-- The configurations of the tabs as core holds them: `state.tabEntries` (core/state.go, types.go)
-- with the connection's row, the bulk test's tab and the last delete.
-- A `*ConfigEntry` is a number, and `cell` is what it points to, so that a tab's list and a list
-- kept for an undo share their entries as in the code. A tab is its id.
pub mod Move
pub mod Rows
pub mod Delete
use text.Mathlib.Text.{◌==◌ as text_eq}
use text.Mathlib.TextEquality.{eq_iff}
use vair.Base.{
  ℕ, suc, ◌≡◌, ◌↔◌, Bool, true, false, List, [], ◌∷◌, Option, String, if◌then◌else◌, ◌==◌,
}

pub data Status : Type 0 where
  pending testing_ping testing_speed succeeded failed skipped : Status

pub record Row : Type 0 where
  pub index : ℕ
  pub raw : String
  pub name : String
  pub ping : Status
  pub speed : Status

-- What is asked of the other parts of the program, in order.
pub data Effect : Type 0 where
  invalidate loaded save_order rewrite delete_rows : String → Effect
  loading : String → Effect
  delete_by_index : String → List ℕ → Effect
  update_name : String → ℕ → String → String → Effect
  conn_update entry_update save_tabs save_settings : Effect

pub record LastDelete : Type 0 where
  pub tab : String
  pub before : List ℕ
  pub before_index : List ℕ
  pub after : List ℕ
  pub after_index : List ℕ

pub record Table : Type 0 where
  pub cell : ℕ → Row
  pub tab_entries : String → List ℕ
  pub active_tab : String
  pub entries : List ℕ
  -- `cm.state.ConnTab` and `cm.state.EntryIndex`; `none` is -1.
  pub conn_tab : String
  pub entry_index : Option ℕ
  pub bulk_running : Bool
  pub testing_tab : String
  pub last_delete : LastDelete
  pub fetching : String → Bool
  -- `store != nil`.
  pub has_store : Bool
  pub effects : List Effect

infix 50 ◌===◌
abbrev pub ◌===◌ : String → String → Bool
◌===◌ = text_eq

pub ===_iff : (s t : String) → (s === t ≡ true) ↔ (s ≡ t)
===_iff s t = eq_iff s t

-- A write to a map, and one through a pointer.
abbrev pub update_tab {ℓ} : {A : Type ℓ} → (String → A) → String → A → String → A
update_tab f k v j = if j === k then v else f j

abbrev pub update_cell {ℓ} : {A : Type ℓ} → (ℕ → A) → ℕ → A → ℕ → A
update_cell f k v j = if j == k then v else f j

abbrev pub index_of : (ℕ → Row) → ℕ → ℕ
index_of cell e = (cell e).index
