-- ===== src/Table/Rows.antt =====
-- core/entry_undo.go: rows found again by their configuration, and core/memstore.go: `memEntry`.
pub mod Laws
pub mod Picks
pub mod Entry
use vair.Base.{
  ℕ, zero, suc, ◌≡◌, Bool, true, false, not, ◌&&◌, ◌||◌, List, [], ◌∷◌, Option, none, some, String,
  if◌then◌else◌, ◌==◌, get_elem?, member, select, map, ℤ, pos, negsuc,
}
use vair.Table.{Row, Table, index_of, update_tab, ◌===◌}

-- `byIdx`: the raw text by index. A later row overwrites an earlier one.
unfoldable pub by_index : (ℕ → Row) → List ℕ → ℕ → Option String
by_index cell [] k = none
by_index cell (e ∷ es) k = elim (by_index cell es k) [
  | some r ↦ some r
  | none ↦ if (cell e).index == k then some (cell e).raw else none
]

-- `cur, ok := byIdx[idx]; ok && (raw == "" || cur == raw)`.
abbrev pub agrees : Option String → String → Bool
agrees none raw = false
agrees (some cur) raw = raw === "" || cur === raw

abbrev pub has_raw : Option String → String → Bool
has_raw none raw = "" === raw
has_raw (some cur) raw = cur === raw

-- `byRaw[raw]`.
abbrev pub by_raw : (ℕ → Row) → List ℕ → String → List ℕ
by_raw cell src raw = select (λ k. has_raw (by_index cell src k) raw) (map (index_of cell) src)

unfoldable pub first_unused : List ℕ → List ℕ → Option ℕ
first_unused [] used = none
first_unused (c ∷ cs) used = if member c used then first_unused cs used else some c

-- One round of the loop: the index that the pair stands for now.
unfoldable pub choose : (ℕ → Row) → List ℕ → ℕ → String → List ℕ → Option ℕ
unfolding first_unused
choose cell src idx raw used =
    if agrees (by_index cell src idx) raw && not (member idx used)
    then some idx
    else if raw === ""
    then none
    else first_unused (by_raw cell src raw) used

abbrev pub head_or_empty : List String → String
head_or_empty [] = ""
head_or_empty (r ∷ rs) = r

abbrev pub tail : List String → List String
tail [] = []
tail (r ∷ rs) = rs

unfoldable pub resolve : (ℕ → Row) → List ℕ → List ℕ → List String → List ℕ → List ℕ
resolve cell src [] raws used = []
resolve cell src (idx ∷ rest) raws used = elim (choose cell src idx (head_or_empty raws) used) [
  | none ↦ resolve cell src rest (tail raws) used
  | some c ↦ c ∷ resolve cell src rest (tail raws) (c ∷ used)
]

unfoldable pub resolve_rows : Table → String → List ℕ → List String → List ℕ
unfolding resolve
resolve_rows s tab indices raws = resolve s.cell (s.tab_entries tab) indices raws []

unfoldable pub find_index : (ℕ → Row) → List ℕ → ℕ → Option ℕ
find_index cell [] idx = none
find_index cell (e ∷ es) idx = if (cell e).index == idx then some e else find_index cell es idx

-- By position, or else by a search.
unfoldable pub mem_entry : Table → String → ℕ → Option ℕ
unfolding find_index
mem_entry s tab idx = elim (get_elem? (s.tab_entries tab) idx) [
  | some e ↦ if (s.cell e).index == idx then some e else find_index s.cell (s.tab_entries tab) idx
  | none ↦ find_index s.cell (s.tab_entries tab) idx
]

abbrev first_entry : Table → String → List ℕ → Option ℕ
first_entry s tab [] = none
first_entry s tab (i ∷ is) = mem_entry s tab i

unfoldable pub entry_for : Table → String → ℕ → String → Option ℕ
unfolding resolve_rows mem_entry
entry_for s tab idx raw = first_entry s tab (resolve_rows s tab (idx ∷ []) (raw ∷ []))

-- `IndicesOf`. Here `byRaw` goes by the rows' own texts, and each text takes the first index left.
abbrev pub raw_indices : (ℕ → Row) → List ℕ → String → List ℕ
raw_indices cell src raw = map (index_of cell) (select (λ e. (cell e).raw === raw) src)

unfoldable pub take_indices : (String → List ℕ) → List String → List ℤ
take_indices left [] = []
take_indices left (raw ∷ raws) = elim (left raw) [
  | [] ↦ negsuc zero ∷ take_indices left raws
  | i ∷ is ↦ pos i ∷ take_indices (update_tab left raw is) raws
]

unfoldable pub indices_of : Table → String → List String → List ℤ
unfolding take_indices
indices_of s tab raws = take_indices (raw_indices s.cell (s.tab_entries tab)) raws
