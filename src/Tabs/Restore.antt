-- ===== src/Tabs/Restore.antt =====
-- The undo of a tab's deletion.
use vair.Base.{
  ℕ, ◌≤◌, ◌≡◌, ◌≢◌, inl, inr, refl, sym, ap, ◌∙◌, false, List, [], some, Option-cases, String,
  if◌then◌else◌, arith, Bool-cases,
}
use vair.Table.{◌===◌, ===_iff, update_tab}
use vair.Tabs.{Tab, TabBar, find_tab, index_of_id, insert_at, delete_tab, undo_delete_tab, restored}
use vair.Tabs.Parts.{
  find_tab_lem, others, copies, others_all, index_of_id-none, index_of_id-some, pool_parts,
  tabs_parts,
}
use vair.Tabs.Same.{
  SameBar, closed, SameBar-trans, delete_tab-SameBar, undo_fields, into_pool, undo_pool,
}

-- The tab bar as it was: the tabs with their rows and their order, the focus, and the tabs that
-- AUTO may use.
pub record IsBack (s u : TabBar) : Type 0 where
  pub tabs : u.tabs ≡ s.tabs
  pub rows : (j : String) → u.tab_entries j ≡ s.tab_entries j
  pub entries : u.entries ≡ s.entries
  pub active : u.active_tab ≡ s.active_tab
  pub auto_tabs : u.auto_tabs ≡ s.auto_tabs

pool_back :
    (ts : List String) (id : String)
    → copies ts id ≤ 1
    → into_pool (others ts id) id (index_of_id ts id) ≡ ts
pool_back ts id once = elim (Option-cases (index_of_id ts id)) [
  | inl out ↦ rw out (others_all ts id (index_of_id-none ts id out))
  | inr (k, at_k) ↦
      let (front, back, parts, place, before) = index_of_id-some ts id k at_k in
      rw at_k (pool_parts front back ts id k parts place before once)
]

closed-IsBack :
    (s u : TabBar) (t : Tab) (pos : ℕ)
    → find_tab s.tabs t.id 0 ≡ some (t, pos)
    → t.id === "" ≡ false
    → s.entries ≡ s.tab_entries s.active_tab
    → copies s.auto_tabs t.id ≤ 1
    → SameBar u (closed s t pos t.id)
    → IsBack s (undo_delete_tab u).0
      × ((undo_delete_tab u).0.deleting t.id ≡ false)
      × ((undo_delete_tab u).1 ≡ restored t.name)
closed-IsBack s u t pos found named shown once same =
    let (front, back, parts, place, _) = find_tab_lem s.tabs t.id 0 pos t found in
    let (tabs', rows', entries', active', kept', answer) = undo_fields u _ same.last named in
    let auto' = undo_pool u _ same.last named in
    (
      record {
        tabs =
            tabs'
            ∙ ap (λ l. insert_at l pos t) same.tabs
            ∙ tabs_parts front back s.tabs t pos parts (omega arith);
        rows = λ j. ap (λ f. f j) rows' ∙ rw same.rows (row_back j);
        entries = entries' ∙ rw same.entries entries_back;
        active = active' ∙ rw same.active active_back;
        auto_tabs =
            auto'
            ∙ ap (λ ts. into_pool ts t.id (index_of_id s.auto_tabs t.id)) same.auto_tabs
            ∙ pool_back s.auto_tabs t.id once;
      },
      ap (λ f. f t.id) kept' ∙ rw ((===_iff t.id t.id).1 refl) refl,
      answer,
    )
  where
    row_back :
        (j : String)
        → update_tab (update_tab s.tab_entries t.id []) t.id (s.tab_entries t.id) j
          ≡ s.tab_entries j
    row_back j = elim (Bool-cases (j === t.id)) [
      | inl e ↦ rw e (ap s.tab_entries (sym ((===_iff j t.id).0 e)))
      | inr e ↦ rw e refl
    ]

    entries_back :
        (if s.active_tab === t.id then s.tab_entries t.id else (closed s t pos t.id).entries)
        ≡ s.entries
    entries_back = elim (Bool-cases (s.active_tab === t.id)) [
      | inl e ↦ rw e (ap s.tab_entries (sym ((===_iff s.active_tab t.id).0 e)) ∙ sym shown)
      | inr e ↦ rw e refl
    ]

    active_back :
        (if s.active_tab === t.id then t.id else (closed s t pos t.id).active_tab) ≡ s.active_tab
    active_back = elim (Bool-cases (s.active_tab === t.id)) [
      | inl e ↦ rw e (sym ((===_iff s.active_tab t.id).0 e))
      | inr e ↦ rw e refl
    ]

-- A deleted tab comes back whole, as long as the tabs, their rows, the focus, AUTO's tabs and the
-- record of the delete are what the delete left: it stands where it stood, with its settings and
-- its rows; it has the focus if it had it; its place among AUTO's tabs is the one it had; and its rows are not to be removed. The deletion
-- is of a tab that is listed and is not "main", the rows shown are those of the active tab, and
-- AUTO's tabs name it once at most.
pub undo_delete_tab-delete_tab :
    (s u : TabBar) (t : Tab) (pos : ℕ)
    → find_tab s.tabs t.id 0 ≡ some (t, pos)
    → t.id ≢ "main"
    → t.id ≢ ""
    → s.entries ≡ s.tab_entries s.active_tab
    → copies s.auto_tabs t.id ≤ 1
    → SameBar u (delete_tab s t.id)
    → IsBack s (undo_delete_tab u).0
      × ((undo_delete_tab u).0.deleting t.id ≡ false)
      × ((undo_delete_tab u).1 ≡ restored t.name)
undo_delete_tab-delete_tab s u t pos found other named shown once same =
    let not_main : t.id === "main" ≡ false = ground (arith, ===_iff t.id "main") in
    let open_ : t.id === "" ≡ false = ground (arith, ===_iff t.id "") in
    closed-IsBack s u t pos found open_ shown once
      (SameBar-trans same (delete_tab-SameBar s t.id t pos not_main found))
