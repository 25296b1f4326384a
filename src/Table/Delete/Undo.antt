-- ===== src/Table/Delete/Undo.antt =====
-- An undo restores what the delete removed.
use mathlib.Core.List.{Nodup, Nodup-cons, Mem, mem-cons_self, mem-cons_of_mem}
use vair.Base.{
  ℕ, ◌-◌, ◌≡◌, ◌≢◌, inl, inr, refl, sym, ap, subst, ◌∙◌, true, false, not, ◌||◌, List, [], ◌∷◌,
  String, ◌==◌, arith, Bool-cases, length, is_empty, select, same, map,
}
use vair.Table.{Row, Table, LastDelete, index_of, update_cell, ◌===◌, ===_iff}
use vair.Table.Rows.{resolve_rows}
use vair.Table.Move.Numbering.{with_index}
use vair.Table.Delete.{
  entry_indices, delete_entries, remove_rows, delete_failed, replace_rows, set_indices, restore,
  untouched, undo_delete, forget_delete, restored, changed, test_failed,
}

same_refl : (xs : List ℕ) → same xs xs ≡ true
same_refl [] = refl
same_refl (x ∷ xs) = ground (arith, same_refl xs)

set_indices_outside :
    (cell : ℕ → Row) (es is : List ℕ) (e : ℕ) → ¬ Mem e es → set_indices cell es is e ≡ cell e
unfolding set_indices
set_indices_outside cell [] is e h = refl
set_indices_outside cell (x ∷ xs) [] e h = refl
set_indices_outside cell (x ∷ xs) (i ∷ is) e h =
    let other : e ≢ x = λ q. h (subst (λ y. Mem e (y ∷ xs)) q mem-cons_self) in
    set_indices_outside (update_cell cell x (record (cell x) { index = i })) xs is e
      (λ r. h (mem-cons_of_mem x r))
    ∙ ground arith

-- The entries of a list get back the indices that they are given.
set_indices_lem :
    (cell : ℕ → Row) (es is : List ℕ)
    → Nodup es
    → length es ≡ length is
    → map (index_of (set_indices cell es is)) es ≡ is
unfolding set_indices
set_indices_lem cell [] [] d n = refl
set_indices_lem cell [] (i ∷ is) d n = absurd (omega arith)
set_indices_lem cell (x ∷ xs) [] d n = absurd (omega arith)
set_indices_lem cell (x ∷ xs) (i ∷ is) d n =
    let (new, rest) = Nodup-cons.0 d in
    let next = update_cell cell x (record (cell x) { index = i }) in
    let at_x : set_indices next xs is x ≡ next x = set_indices_outside next xs is x new in
    let later = set_indices_lem next xs is rest (omega arith) in ground (arith, at_x, later)

set_indices_content :
    (cell : ℕ → Row) (es is : List ℕ) (e : ℕ)
    → set_indices cell es is e ≡ with_index (cell e) (index_of (set_indices cell es is) e)
unfolding set_indices
set_indices_content cell [] is e = refl
set_indices_content cell (x ∷ xs) [] e = refl
set_indices_content cell (x ∷ xs) (i ∷ is) e =
    let next = update_cell cell x (record (cell x) { index = i }) in
    let same_row : next e ≡ with_index (cell e) (index_of next e) = ground arith in
    set_indices_content next xs is e
    ∙ ap (λ r. with_index r (index_of (set_indices next xs is) e)) same_row

-- The tab of a delete as it was before it: the rows, their order and their indices, each with the
-- test results that it has by now.
pub record IsRestored (t : Table) (tab : String) (rows indices : List ℕ) (u : Table) : Type 0 where
  pub tab_rows : u.tab_entries tab ≡ rows
  pub tab_indices : map (index_of u.cell) rows ≡ indices
  pub content : (e : ℕ) → u.cell e ≡ with_index (t.cell e) (index_of u.cell e)

restore-IsRestored :
    (t : Table) (d : LastDelete)
    → Nodup d.before
    → length d.before ≡ length d.before_index
    → IsRestored t d.tab d.before d.before_index (restore t d)
unfolding restore
restore-IsRestored t d n len = record {
  tab_rows = rw ((===_iff d.tab d.tab).1 refl) refl;
  tab_indices = set_indices_lem t.cell d.before d.before_index n len;
  content = λ e. set_indices_content t.cell d.before d.before_index e;
}

undo_lem :
    (t : Table) (d : LastDelete)
    → t.last_delete ≡ d
    → d.tab ≢ ""
    → untouched t d ≡ true
    → undo_delete t ≡ (restore t d, length d.before - length d.after, restored)
unfolding undo_delete
undo_lem t d e named h =
    let open_ : d.tab === "" ≡ false = ground (arith, ===_iff d.tab "") in rw (e, open_, h) refl

length-map : (f : ℕ → ℕ) (xs : List ℕ) → length (map f xs) ≡ length xs
length-map f [] = refl
length-map f (x ∷ xs) = omega (arith, length-map f xs)

-- The tab as the delete left it, with whatever else has changed since.
abbrev pub Unchanged : Table → Table → String → Type 0
Unchanged s t tab =
    (t.last_delete ≡ s.last_delete)
    × (t.tab_entries tab ≡ s.tab_entries tab)
    × (entry_indices t.cell (t.tab_entries tab) ≡ entry_indices s.cell (s.tab_entries tab))

-- A delete that took `s` to `s'` remembers the tab's rows and indices before it and after it.
abbrev remembered : Table → Table → String → LastDelete
remembered s s' tab = record {
  tab = tab;
  before = s.tab_entries tab;
  before_index = entry_indices s.cell (s.tab_entries tab);
  after = s'.tab_entries tab;
  after_index = entry_indices s'.cell (s'.tab_entries tab);
}

abbrev Remembers : Table → String → Table × ℕ → Type 0
Remembers s tab (s', n) =
    (s'.last_delete ≡ remembered s s' tab)
    × (n ≡ length (s.tab_entries tab) - length (s'.tab_entries tab))

-- The undo puts back the rows, their order and their indices, and reports their number.
abbrev pub Undone : Table → Table → String → ℕ → Type 0
Undone s t tab n =
    IsRestored t tab (s.tab_entries tab) (entry_indices s.cell (s.tab_entries tab))
      (undo_delete t).0
    × ((undo_delete t).1 ≡ n)
    × ((undo_delete t).2 ≡ restored)

undo-Remembers :
    (s t : Table) (tab : String) (r : Table × ℕ)
    → Remembers s tab r
    → Nodup (s.tab_entries tab)
    → tab ≢ ""
    → Unchanged r.0 t tab
    → Undone s t tab r.1
undo-Remembers s t tab (s', n) (m, count) d named (kept, list, indices) =
    let old = remembered s s' tab in
    let here : untouched t old ≡ true =
      rw (indices, list, same_refl (s'.tab_entries tab))
        (same_refl (entry_indices s'.cell (s'.tab_entries tab))) in
    let undone = undo_lem t old (kept ∙ m) named here in
    let len = sym (length-map (index_of s.cell) (s.tab_entries tab)) in
    rw undone (restore-IsRestored t old d len, sym count, refl)

===_refl : (t : String) → t === t ≡ true
===_refl t = (===_iff t t).1 refl

remove_rows-Remembers :
    (s : Table) (tab : String) (rows : List ℕ) → Remembers s tab (remove_rows s tab rows)
unfolding remove_rows
remove_rows-Remembers s tab rows = rw (===_refl tab) (refl, refl)

replace_rows-Remembers :
    (s : Table) (tab : String) (kept : List ℕ) → Remembers s tab (replace_rows s tab kept)
unfolding replace_rows
replace_rows-Remembers s tab kept = rw (===_refl tab) (refl, refl)

delete_entries-Remembers :
    (s : Table) (indices : List ℕ) (raws : List String)
    → (delete_entries s indices raws).1 ≢ 0
    → Remembers s s.active_tab (delete_entries s indices raws)
unfolding delete_entries
delete_entries-Remembers s indices raws h =
    elim (Bool-cases (s.active_tab === "main" || is_empty indices)) [
      | inl e ↦ absurd (h (rw e refl))
      | inr e ↦ elim (Bool-cases (is_empty (resolve_rows s s.active_tab indices raws))) [
        | inl f ↦ absurd (h (rw (e, f) refl))
        | inr f ↦ rw (e, f) (remove_rows-Remembers s s.active_tab _)
      ]
    ]

delete_failed-Remembers :
    (s : Table) (tab : String) → (delete_failed s tab).1 ≢ 0 → Remembers s tab (delete_failed s tab)
unfolding delete_failed
delete_failed-Remembers s tab h = elim (Bool-cases (tab === "" || tab === "main")) [
  | inl e ↦ absurd (h (rw e refl))
  | inr e ↦
      elim (Bool-cases (
        length (select (λ e. not (test_failed (s.cell e))) (s.tab_entries tab))
        == length (s.tab_entries tab))) [
          | inl f ↦ absurd (h (rw (e, f) refl))
          | inr f ↦ rw (e, f) (replace_rows-Remembers s tab _)
        ]
]

-- A delete of selected rows that removed some is undone in full: the tab has the rows that it had
-- before the delete, in their order and under their indices, each with the test results that it
-- has by now, and the undo reports as many rows as the delete removed. That is so as long as the
-- tab's rows and indices are what the delete left and no later delete or timeout took its place.
pub undo-delete_entries :
    (s t : Table) (indices : List ℕ) (raws : List String)
    → Nodup (s.tab_entries s.active_tab)
    → s.active_tab ≢ ""
    → (delete_entries s indices raws).1 ≢ 0
    → Unchanged (delete_entries s indices raws).0 t s.active_tab
    → Undone s t s.active_tab (delete_entries s indices raws).1
undo-delete_entries s t indices raws d named some_gone u =
    undo-Remembers s t s.active_tab (delete_entries s indices raws)
      (delete_entries-Remembers s indices raws some_gone) d named u

-- A delete of the failed rows that removed some, and so numbered the others again, is undone in
-- full: the tab has the rows that it had before the delete, in their order and under their old
-- indices, each with the test results that it has by now, and the undo reports as many rows as the
-- delete removed, as long as the tab's rows and indices are what the delete left and no later
-- delete or timeout took its place.
pub undo-delete_failed :
    (s t : Table) (tab : String)
    → Nodup (s.tab_entries tab)
    → tab ≢ ""
    → (delete_failed s tab).1 ≢ 0
    → Unchanged (delete_failed s tab).0 t tab
    → Undone s t tab (delete_failed s tab).1
undo-delete_failed s t tab d named some_gone u =
    undo-Remembers s t tab (delete_failed s tab) (delete_failed-Remembers s tab some_gone) d named u

-- An undo of a tab that is not what the delete left puts nothing back: it forgets the delete and
-- leaves all else as it is.
pub undo_delete_changed :
    (t : Table)
    → t.last_delete.tab ≢ ""
    → untouched t t.last_delete ≡ false
    → undo_delete t ≡ (forget_delete t, 0, changed)
unfolding undo_delete
undo_delete_changed t named h =
    let open_ : t.last_delete.tab === "" ≡ false = ground (arith, ===_iff t.last_delete.tab "") in
    rw (open_, h) refl
