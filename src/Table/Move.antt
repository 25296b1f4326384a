-- ===== src/Table/Move.antt =====
-- core/entry_move.go: `MoveEntries`, the drag-and-drop of rows.
pub mod Numbering
pub mod Following
pub mod Cases
pub mod Laws
pub mod Places
pub mod Done
use vair.Base.{
  ℕ, zero, suc, ◌+◌, ◌≡◌, Bool, true, false, not, ◌&&◌, ◌||◌, List, [], ◌∷◌, ◌++◌, Option, none,
  some, String, if◌then◌else◌, ◌==◌, length, take, drop, is_empty, member, select, range, same, ℤ,
  pos, negsuc,
}
use vair.Table.{
  Row, Table, Effect, invalidate, loaded, save_order, conn_update, update_tab, update_cell, ◌===◌,
}

-- The row of the target among those that stay: its place, or the one behind it.
unfoldable pub find_row : (ℕ → Row) → List ℕ → ℕ → Bool → ℕ → Option ℕ
find_row cell [] t after i = none
find_row cell (e ∷ es) t after i =
    if (cell e).index == t
    then some (if after then suc i else i)
    else find_row cell es t after (suc i)

-- `target` is a row's index, `MoveToEnd` (-1) or `MoveToStart` (-2).
unfoldable pub position : (ℕ → Row) → List ℕ → ℤ → Bool → Option ℕ
unfolding find_row
position cell rest (pos t) after = find_row cell rest t after 0
position cell rest (negsuc zero) after = some (length rest)
position cell rest (negsuc (suc zero)) after = some 0
position cell rest (negsuc (suc (suc n))) after = some (length rest)

-- `bulkTestOnTab`.
abbrev pub bulk_test_on_tab : Table → String → Bool
bulk_test_on_tab s tab = s.bulk_running && s.testing_tab === tab

-- `if e.Index != i { remap[e.Index] = i; e.Index = i }`.
unfoldable pub put_index : (ℕ → Row) → ℕ → ℕ → ℕ → Row
put_index cell e i =
    if (cell e).index == i then cell else update_cell cell e (record (cell e) { index = i })

unfoldable pub note_index : (ℕ → Row) → ℕ → ℕ → List (ℕ × ℕ) → List (ℕ × ℕ)
note_index cell e i remap = if (cell e).index == i then remap else ((cell e).index, i) ∷ remap

-- The new indices, and what index each renumbered row had, the latest first.
unfoldable pub renumber : (ℕ → Row) → List ℕ → ℕ → List (ℕ × ℕ) → (ℕ → Row) × List (ℕ × ℕ)
renumber cell [] i remap = (cell, remap)
renumber cell (e ∷ es) i remap =
    renumber (put_index cell e i) es (suc i) (note_index cell e i remap)

unfoldable pub lookup : ℕ → List (ℕ × ℕ) → Option ℕ
lookup k [] = none
lookup k ((j, v) ∷ m) = if j == k then some v else lookup k m

unfoldable pub follow : Option ℕ → List (ℕ × ℕ) → Option ℕ
unfolding lookup
follow none remap = none
follow (some k) remap = elim (lookup k remap) [ none ↦ some k | some v ↦ some v ]

unfoldable pub conn_moved : Option ℕ → List (ℕ × ℕ) → Bool
unfolding lookup
conn_moved none remap = false
conn_moved (some k) remap = elim (lookup k remap) [ none ↦ false | some v ↦ true ]

-- From the renumbering to the signals and the save.
unfoldable pub commit : Table → String → List ℕ → Table
unfolding renumber put_index note_index follow conn_moved
commit s tab out =
    let r = renumber s.cell out 0 [] in
    let ours = s.conn_tab === tab in
    record s {
      cell = r.0;
      tab_entries = update_tab s.tab_entries tab out;
      entries = if s.active_tab === tab then out else s.entries;
      entry_index = if ours then follow s.entry_index r.1 else s.entry_index;
      effects =
          s.effects
          ++ (invalidate tab
              ∷ loaded tab
              ∷ ((if ours && conn_moved s.entry_index r.1 then conn_update ∷ [] else [])
                  ++ save_order tab ∷ []));
    }

unfoldable pub place : Table → String → List ℕ → List ℕ → Option ℕ → Table × List ℕ
place s tab moved rest none = (s, [])
place s tab moved rest (some p) =
    let out = take p rest ++ (moved ++ drop p rest) in
    if same out (s.tab_entries tab) then (s, []) else (commit s tab out, range p (length moved))

-- Dropped onto one of the rows being moved.
abbrev pub onto_moving : ℤ → List ℕ → Bool
onto_moving (pos t) indices = member t indices
onto_moving (negsuc n) indices = false

abbrev pub moving_rows : Table → String → List ℕ → List ℕ
moving_rows s tab indices = select (λ e. member (s.cell e).index indices) (s.tab_entries tab)

abbrev pub staying_rows : Table → String → List ℕ → List ℕ
staying_rows s tab indices = select (λ e. not (member (s.cell e).index indices)) (s.tab_entries tab)

-- The new state and the moved rows' new indices; none where nothing moved.
unfoldable pub move_entries : Table → String → List ℕ → ℤ → Bool → Table × List ℕ
move_entries s tab indices target after =
    if tab === "" || tab === "main" || is_empty indices
    then (s, [])
    else if bulk_test_on_tab s tab
    then (s, [])
    else if onto_moving target indices
    then (s, [])
    else let moved = moving_rows s tab indices in
      let rest = staying_rows s tab indices in
      if is_empty moved then (s, []) else place s tab moved rest (position s.cell rest target after)
