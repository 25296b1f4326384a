-- ===== src/Table/Delete.antt =====
-- core/entry_api.go, core/select_api.go, core/entry_undo.go: rows deleted, and the delete undone.
pub mod Undo
use vair.Base.{
  ℕ, zero, suc, ◌+◌, ◌-◌, ◌≡◌, Bool, true, false, not, ◌&&◌, ◌||◌, List, [], ◌∷◌, ◌++◌, Option,
  none, some, String, if◌then◌else◌, ◌==◌, ltb, length, is_empty, member, select, same, map,
}
use vair.Table.{
  Row, Table, Status, LastDelete, Effect, invalidate, loaded, loading, rewrite, delete_rows,
  delete_by_index, save_tabs, index_of, update_tab, update_cell, ◌===◌,
}
use vair.Table.Rows.{resolve_rows}

-- `entryIndices`.
abbrev pub entry_indices : (ℕ → Row) → List ℕ → List ℕ
entry_indices cell = map (index_of cell)

-- The timer that `rememberDelete` starts is `forget_delete`, called when it likes.
abbrev pub remember_delete : Table → String → List ℕ → List ℕ → List ℕ → List ℕ → Table
remember_delete s tab before after before_index after_index = record s {
  last_delete = record {
    tab = tab;
    before = before;
    before_index = before_index;
    after = after;
    after_index = after_index;
  };
}

unfoldable pub forget_delete : Table → Table
forget_delete s = record s {
  last_delete = record { tab = ""; before = []; before_index = []; after = []; after_index = [] };
}

-- Survivors keep their indices.
abbrev survivors : Table → String → List ℕ → List ℕ
survivors s tab indices = select (λ e. not (member (s.cell e).index indices)) (s.tab_entries tab)

abbrev persist : Table → String → List ℕ → List ℕ → List Effect
persist s tab kept indices =
    if s.has_store
    then (if is_empty kept then delete_rows tab else delete_by_index tab indices) ∷ []
    else []

unfoldable pub remove_rows : Table → String → List ℕ → Table × ℕ
remove_rows s tab indices =
    let src = s.tab_entries tab in
    let kept = survivors s tab indices in
    let big = ltb 2000 (length indices) in
    (
      record (remember_delete s tab src kept (entry_indices s.cell src)
          (entry_indices s.cell kept)) {
            tab_entries = update_tab s.tab_entries tab kept;
            entries = if s.active_tab === tab then kept else s.entries;
            fetching = if big then update_tab s.fetching tab false else s.fetching;
            effects =
                s.effects
                ++ ((if big then loading tab ∷ [] else [])
                    ++ (invalidate tab
                        ∷ (persist s tab kept indices ++ (loaded tab ∷ save_tabs ∷ []))));
          },
      length src - length kept,
    )

unfoldable pub delete_entries : Table → List ℕ → List String → Table × ℕ
unfolding remove_rows
delete_entries s indices raws =
    if s.active_tab === "main" || is_empty indices
    then (s, 0)
    else let rows = resolve_rows s s.active_tab indices raws in
      if is_empty rows then (s, 0) else remove_rows s s.active_tab rows

abbrev pub is_failed : Status → Bool
is_failed Status.failed = true
is_failed Status.pending = false
is_failed Status.testing_ping = false
is_failed Status.testing_speed = false
is_failed Status.succeeded = false
is_failed Status.skipped = false

abbrev pub test_failed : Row → Bool
test_failed r = is_failed r.ping || is_failed r.speed

-- `for i, e := range kept { e.Index = i }`.
unfoldable pub number_from : (ℕ → Row) → List ℕ → ℕ → ℕ → Row
number_from cell [] i = cell
number_from cell (e ∷ es) i =
    number_from (update_cell cell e (record (cell e) { index = i })) es (suc i)

-- The survivors, numbered from 0, replace the tab's rows.
unfoldable pub replace_rows : Table → String → List ℕ → Table × ℕ
replace_rows s tab kept =
    let all = s.tab_entries tab in
    let cell = number_from s.cell kept 0 in
    (
      record (remember_delete s tab all kept (entry_indices s.cell all) (entry_indices cell kept)) {
        cell = cell;
        tab_entries = update_tab s.tab_entries tab kept;
        entries = if s.active_tab === tab then kept else s.entries;
        effects =
            s.effects
            ++ (invalidate tab
                ∷ ((if s.has_store then rewrite tab ∷ [] else [])
                    ++ (loaded tab ∷ save_tabs ∷ [])));
      },
      length all - length kept,
    )

unfoldable pub delete_failed : Table → String → Table × ℕ
unfolding replace_rows
delete_failed s tab =
    if tab === "" || tab === "main"
    then (s, 0)
    else let kept = select (λ e. not (test_failed (s.cell e))) (s.tab_entries tab) in
      if length kept == length (s.tab_entries tab) then (s, 0) else replace_rows s tab kept

-- `e.Index = bIdx[i]`.
unfoldable pub set_indices : (ℕ → Row) → List ℕ → List ℕ → ℕ → Row
set_indices cell [] is = cell
set_indices cell (e ∷ es) [] = cell
set_indices cell (e ∷ es) (i ∷ is) =
    set_indices (update_cell cell e (record (cell e) { index = i })) es is

pub data Reason : Type 0 where
  restored nothing changed : Reason

unfoldable pub restore : Table → LastDelete → Table
unfolding set_indices forget_delete
restore s d =
    let cell = set_indices s.cell d.before d.before_index in
    record (forget_delete s) {
      cell = cell;
      tab_entries = update_tab s.tab_entries d.tab d.before;
      entries = if s.active_tab === d.tab then d.before else s.entries;
      effects =
          s.effects
          ++ (invalidate d.tab
              ∷ loaded d.tab
              ∷ ((if s.has_store then rewrite d.tab ∷ [] else []) ++ (save_tabs ∷ [])));
    }

-- The tab is exactly what the delete left.
abbrev pub untouched : Table → LastDelete → Bool
untouched s d =
    same (s.tab_entries d.tab) d.after
    && same (entry_indices s.cell (s.tab_entries d.tab)) d.after_index

unfoldable pub undo_delete : Table → Table × ℕ × Reason
unfolding restore forget_delete
undo_delete s =
    let d = s.last_delete in
    if d.tab === ""
    then (s, 0, nothing)
    else if untouched s d
    then (restore s d, length d.before - length d.after, restored)
    else (forget_delete s, 0, changed)
