-- ===== src/Tabs/Active.antt =====
-- The tab bar always has "main" and the tab that has the focus.
use vair.Base.{
  ℕ, suc, ◌+◌, ◌≡◌, inl, inr, refl, ap, ◌∙◌, Bool, true, false, not, ◌||◌, List, [], ◌∷◌, ◌++◌,
  Option-cases, String, if◌then◌else◌, ltb, arith, Bool-cases, length, take, drop, take-append-drop,
  subst,
}
use vair.Table.{◌===◌, ===_iff}
use vair.Tabs.Parts.{find_tab_lem, remove_parts}
use vair.Tabs.Same.{SameBar, delete_tab-SameBar, delete_tab-unlisted, undo_fields}
use vair.Tabs.{
  Tab, TabBar, is_listed, find_tab, insert_at, delete_tab, undo_delete_tab, expire_tab_delete,
  rows_removed, switch_tab, create_tab, rename_first, rename_tab, Step, deleting, undoing, expiring,
  removing, switching, creating, renaming, Reach, here, next, new_bar,
}

is_listed-append :
    (xs ys : List Tab) (id : String) → is_listed (xs ++ ys) id ≡ is_listed xs id || is_listed ys id
is_listed-append [] ys id = refl
is_listed-append (x ∷ xs) ys id = ground (arith, is_listed-append xs ys id)

-- A tab put in is listed, with all that was.
is_listed-insert_at :
    (ts : List Tab) (pos : ℕ) (t : Tab) (id : String)
    → is_listed (insert_at ts pos t) id ≡ t.id === id || is_listed ts id
is_listed-insert_at ts pos t id =
    let p = if ltb (length ts) pos then length ts else pos in
    let split = is_listed-append (take p ts) (drop p ts) id in
    let whole = ap (λ l. is_listed l id) (take-append-drop p ts) in
    ground (arith, is_listed-append (take p ts) (t ∷ drop p ts) id, split, whole)

-- Taking out the first tab of an id leaves the others.
is_listed-remove :
    (ts front back : List Tab) (gone id : String) (pos : ℕ) (t : Tab)
    → ts ≡ front ++ t ∷ back
    → pos ≡ 0 + length front
    → t.id ≡ gone
    → id === gone ≡ false
    → is_listed ts id ≡ true
    → is_listed (take pos ts ++ drop (suc pos) ts) id ≡ true
is_listed-remove ts front back gone id pos t parts place is_gone other l =
    let old : is_listed (front ++ t ∷ back) id ≡ true =
      subst (λ r. is_listed r id ≡ true) parts l in
    let differs : t.id === id ≡ false =
      ground (arith, is_gone, ===_iff t.id id, ===_iff id gone, other) in
    let new : is_listed (front ++ back) id ≡ true =
      ground (
        arith,
        is_listed-append front (t ∷ back) id,
        is_listed-append front back id,
        old,
        differs,
      ) in
    let here : pos ≡ length front = omega arith in rw (parts, here, remove_parts front t back) new

is_listed-rename_first :
    (ts : List Tab) (id name j : String) → is_listed (rename_first ts id name) j ≡ is_listed ts j
unfolding rename_first
is_listed-rename_first [] id name j = refl
is_listed-rename_first (t ∷ ts) id name j = ground (arith, is_listed-rename_first ts id name j)

abbrev pub IsListed : TabBar → Type 0
IsListed s = (is_listed s.tabs "main" ≡ true) × (is_listed s.tabs s.active_tab ≡ true)

SameBar-IsListed : {u v : TabBar} → SameBar u v → IsListed v → IsListed u
SameBar-IsListed p (m, a) = (rw p.tabs m, rw (p.tabs, p.active) a)

focus :
    (P : String → Type 0) (c : Bool) (x y : String)
    → P x
    → (c ≡ false → P y)
    → P (if c then x else y)
focus P true x y p q = p
focus P false x y p q = q refl

delete_tab-IsListed : (s : TabBar) (id : String) → IsListed s → IsListed (delete_tab s id)
delete_tab-IsListed s id (m, a) = elim (Bool-cases (id === "main")) [
  | inl same ↦ unfold delete_tab in rw same (m, a)
  | inr other ↦ elim (Option-cases (find_tab s.tabs id 0)) [
    | inl out ↦ SameBar-IsListed (delete_tab-unlisted s id other out) (
      m,
      focus (λ x. is_listed s.tabs x ≡ true) (s.active_tab === id) "main" s.active_tab m (λ _. a),
    )
    | inr ((t, pos), found) ↦
        let (front, back, parts, place, is_id) = find_tab_lem s.tabs id 0 pos t found in
        let kept = λ (x : String) (o : x === id ≡ false) (l : is_listed s.tabs x ≡ true).
          is_listed-remove s.tabs front back id x pos t parts place is_id o l in
        let main_kept =
          kept "main" (ground (arith, ===_iff "main" id, ===_iff id "main", other)) m in
        SameBar-IsListed (delete_tab-SameBar s id t pos other found) (
          main_kept,
          focus (λ x. is_listed (take pos s.tabs ++ drop (suc pos) s.tabs) x ≡ true)
              (s.active_tab === id) "main" s.active_tab main_kept (λ o. kept s.active_tab o a),
        )
  ]
]

insert_at-listed :
    (ts : List Tab) (pos : ℕ) (t : Tab) (id : String)
    → is_listed ts id ≡ true
    → is_listed (insert_at ts pos t) id ≡ true
insert_at-listed ts pos t id l = is_listed-insert_at ts pos t id ∙ ground (arith, l)

insert_at-new : (ts : List Tab) (pos : ℕ) (t : Tab) → is_listed (insert_at ts pos t) t.id ≡ true
insert_at-new ts pos t =
    is_listed-insert_at ts pos t t.id ∙ ground (arith, (===_iff t.id t.id).1 refl)

undo_delete_tab-IsListed : (s : TabBar) → IsListed s → IsListed (undo_delete_tab s).0
undo_delete_tab-IsListed s (m, a) = elim (Bool-cases (s.last.tab.id === "")) [
  | inl none_left ↦ unfold undo_delete_tab in rw none_left (m, a)
  | inr open_ ↦
      let (tabs, _, _, active, _, _) = undo_fields s s.last refl open_ in
      let kept = insert_at-listed s.tabs s.last.pos s.last.tab in
      let back = insert_at-new s.tabs s.last.pos s.last.tab in
      (
        rw tabs (kept "main" m),
        rw (tabs, active)
            (focus (λ x. is_listed (insert_at s.tabs s.last.pos s.last.tab) x ≡ true)
              s.last.was_active s.last.tab.id s.active_tab back (λ _. kept s.active_tab a)),
      )
]

create_tab-IsListed : (s : TabBar) (id name : String) → IsListed s → IsListed (create_tab s id name)
unfolding create_tab
create_tab-IsListed s id name (m, a) = (
  ground (
    arith,
    is_listed-append s.tabs
        (record { id = id; name = name; is_main = false; closable = true; settings = "" } ∷ [])
        "main",
    m,
  ),
  ground (
    arith,
    is_listed-append s.tabs
        (record { id = id; name = name; is_main = false; closable = true; settings = "" } ∷ [])
        s.active_tab,
    a,
  ),
)

rename_tab-IsListed : (s : TabBar) (id name : String) → IsListed s → IsListed (rename_tab s id name)
unfolding rename_tab
rename_tab-IsListed s id name (m, a) = elim (Bool-cases (name === "")) [
  | inl e ↦ rw e (m, a)
  | inr e ↦ rw e (
    is_listed-rename_first s.tabs id name "main" ∙ m,
    is_listed-rename_first s.tabs id name s.active_tab ∙ a,
  )
]

expire_tab_delete-IsListed : (s : TabBar) → IsListed s → IsListed (expire_tab_delete s)
unfolding expire_tab_delete
expire_tab_delete-IsListed s (m, a) = elim (Bool-cases (not (s.last.tab.id === ""))) [
  | inl e ↦ rw e (elim (Bool-cases s.has_store) [ inl d ↦ rw d (m, a) | inr d ↦ rw d (m, a) ])
  | inr e ↦ rw e (m, a)
]

rows_removed-IsListed :
    (s : TabBar) (id : String) (failed : Bool) → IsListed s → IsListed (rows_removed s id failed)
unfolding rows_removed
rows_removed-IsListed s id true h = h
rows_removed-IsListed s id false h = h

Step-IsListed : {s t : TabBar} → Step s t → IsListed s → IsListed t
Step-IsListed (deleting s id) h = delete_tab-IsListed s id h
Step-IsListed (undoing s) h = undo_delete_tab-IsListed s h
Step-IsListed (expiring s) h = expire_tab_delete-IsListed s h
Step-IsListed (removing s id failed) h = rows_removed-IsListed s id failed h
Step-IsListed (switching s id l) (m, a) = unfold switch_tab in (m, l)
Step-IsListed (creating s id name) h = create_tab-IsListed s id name h
Step-IsListed (renaming s id name) h = rename_tab-IsListed s id name h

Reach-IsListed : {s t : TabBar} → IsListed s → Reach s t → IsListed t
Reach-IsListed h here = h
Reach-IsListed h (next r st) = Step-IsListed st (Reach-IsListed h r)

-- Whatever tabs are made, renamed, deleted, brought back and switched to, in whatever order, and
-- whenever the minute of an undo ends and a deleted tab's rows are gone, the tab bar has the tab
-- "main" and the tab that has the focus.
pub bar-IsListed : (has_store : Bool) (t : TabBar) → Reach (new_bar has_store) t → IsListed t
bar-IsListed has_store t r = Reach-IsListed (refl, refl) r
