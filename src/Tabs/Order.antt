-- ===== src/Tabs/Order.antt =====
-- core/select_api.go: `ReorderTabs`, the drag of a tab in the tab bar.
pub mod Names
use mathlib.Core.List.{Perm, map-append}
use mathlib.Core.List.Perm
use vair.Base.{
  ℕ, ◌≡◌, inl, inr, refl, sym, ap, ◌∙◌, Bool, true, false, not, ◌&&◌, ◌||◌, List, [], ◌∷◌, ◌++◌,
  Option, none, some, Option-cases, String, if◌then◌else◌, arith, Bool-cases, select, subst, map,
  take, take_all, length,
}
use vair.Table.{◌===◌, ===_iff, update_tab}
use vair.Tabs.{Tab, TabBar, is_listed, call, tabs_update, save_tabs}

-- `tabMap`: a later tab of the same id takes the place of an earlier one.
unfoldable pub tab_map : List Tab → String → Option Tab
tab_map [] id = none
tab_map (t ∷ ts) id = elim (tab_map ts id) [
  | some later ↦ some later
  | none ↦ if t.id === id then some t else none
]

abbrev pub is_some : Option Tab → Bool
is_some none = false
is_some (some t) = true

-- The tabs named, in the order of the names, and what is left of the map.
unfoldable pub take_named : (String → Option Tab) → List String → List Tab × (String → Option Tab)
take_named m [] = ([], m)
take_named m (id ∷ ids) = elim (m id) [
  | none ↦ take_named m ids
  | some t ↦ let rest = take_named (update_tab m id none) ids in (t ∷ rest.0, rest.1)
]

abbrev pub unnamed : (String → Option Tab) → List Tab → List Tab
unnamed m ts = select (λ t. is_some (m t.id)) ts

unfoldable pub reorder_tabs : TabBar → List String → TabBar
unfolding take_named tab_map
reorder_tabs s ids =
    let named = take_named (tab_map s.tabs) ids in
    call (record s { tabs = named.0 ++ unnamed named.1 s.tabs }) (tabs_update ∷ save_tabs ∷ [])

-- No two tabs have one id.
abbrev pub distinct_ids : List Tab → Bool
distinct_ids [] = true
distinct_ids (t ∷ ts) = not (is_listed ts t.id) && distinct_ids ts

tab_map-none : (ts : List Tab) (id : String) → is_listed ts id ≡ false → tab_map ts id ≡ none
unfolding tab_map
tab_map-none [] id h = refl
tab_map-none (t ∷ ts) id h = ground (arith, h, tab_map-none ts id (ground (arith, h)))

tab_map_self :
    (ts : List Tab) (t : Tab) → is_listed ts t.id ≡ false → tab_map (t ∷ ts) t.id ≡ some t
unfolding tab_map
tab_map_self ts t h = rw (tab_map-none ts t.id h, (===_iff t.id t.id).1 refl) refl

-- The map without an id keeps the tabs of other ids.
unnamed_other :
    (m : String → Option Tab) (ts : List Tab) (id : String)
    → is_listed ts id ≡ false
    → unnamed (update_tab m id none) ts ≡ unnamed m ts
unnamed_other m [] id h = refl
unnamed_other m (t ∷ ts) id h =
    let later = unnamed_other m ts id (ground (arith, h)) in
    let other : t.id === id ≡ false = ground (arith, h) in rw (other, later) refl

found_first :
    (x : Tab) (ts : List Tab) (id : String) (t : Tab)
    → is_listed ts id ≡ false
    → x.id === id ≡ true
    → tab_map (x ∷ ts) id ≡ some t
    → t ≡ x
unfolding tab_map
found_first x ts id t unlisted hit found = ground (arith, tab_map-none ts id unlisted, hit, found)

found_later :
    (x : Tab) (ts : List Tab) (id : String) (t : Tab)
    → x.id === id ≡ false
    → tab_map (x ∷ ts) id ≡ some t
    → tab_map ts id ≡ some t
unfolding tab_map
found_later x ts id t miss found = elim (Option-cases (tab_map ts id)) [
  | inl out ↦ absurd (ground (arith, out, miss, found))
  | inr (u, e) ↦ ground (arith, e, found)
]

-- Taking a tab out of the map takes it out of those that are left.
taken-perm :
    (m : String → Option Tab) (ts : List Tab) (id : String) (t : Tab)
    → distinct_ids ts ≡ true
    → tab_map ts id ≡ some t
    → is_some (m id) ≡ true
    → Perm (t ∷ unnamed (update_tab m id none) ts) (unnamed m ts)
taken-perm m [] id t d found present = unfold tab_map in cc
taken-perm m (x ∷ ts) id t d found present = elim (Bool-cases (x.id === id)) [
  | inl hit ↦
      let same : x.id ≡ id = (===_iff x.id id).0 hit in
      let unlisted : is_listed ts id ≡ false = ground (arith, d, same) in
      let first : t ≡ x = found_first x ts id t unlisted hit found in
      let present' : is_some (m x.id) ≡ true = ap (λ k. is_some (m k)) same ∙ present in
      rw (hit, present', unnamed_other m ts id unlisted, first) (Perm.refl _)
  | inr miss ↦
      let later =
        taken-perm m ts id t (ground (arith, d)) (found_later x ts id t miss found) present in
      elim (Bool-cases (is_some (m x.id))) [
        | inl e ↦ rw (miss, e) (Perm.trans (Perm.swap x t _) (Perm.cons x later))
        | inr e ↦ rw (miss, e) later
      ]
]

take_named-none :
    (m : String → Option Tab) (id : String) (ids : List String)
    → m id ≡ none
    → take_named m (id ∷ ids) ≡ take_named m ids
unfolding take_named
take_named-none m id ids e = rw (e, take_named) refl

pub take_named-some :
    (m : String → Option Tab) (id : String) (ids : List String) (t : Tab)
    → m id ≡ some t
    → take_named m (id ∷ ids)
      ≡ (t ∷ (take_named (update_tab m id none) ids).0, (take_named (update_tab m id none) ids).1)
unfolding take_named
take_named-some m id ids t e = rw (e, take_named) refl

-- The tabs that go by the names and those left over are those of the map.
take_named-perm :
    (m : String → Option Tab) (ts : List Tab) (ids : List String)
    → distinct_ids ts ≡ true
    → ((id : String) (t : Tab) → m id ≡ some t → tab_map ts id ≡ some t)
    → Perm ((take_named m ids).0 ++ unnamed (take_named m ids).1 ts) (unnamed m ts)
take_named-perm m ts [] d of_tabs = unfold take_named in Perm.refl _
take_named-perm m ts (id ∷ ids) d of_tabs = elim (Option-cases (m id)) [
  | inl out ↦ rw (take_named-none m id ids out) (take_named-perm m ts ids d of_tabs)
  | inr (t, e) ↦ rw (take_named-some m id ids t e) (
      Perm.trans (Perm.cons t (take_named-perm (update_tab m id none) ts ids d (left id of_tabs)))
        (taken-perm m ts id t d (of_tabs id t e) (ap is_some e)))
]
  where
    left :
        (id : String)
        → ((j : String) (t : Tab) → m j ≡ some t → tab_map ts j ≡ some t)
        → (j : String) (t : Tab) → update_tab m id none j ≡ some t
        → tab_map ts j ≡ some t
    left id h j t e = elim (Bool-cases (j === id)) [
      | inl hit ↦ absurd (ground (arith, hit, e))
      | inr miss ↦ h j t (ground (arith, miss, e))
    ]

unnamed_all :
    (all ts : List Tab)
    → ((t : Tab) → is_listed ts t.id ≡ true → is_some (tab_map all t.id) ≡ true)
    → unnamed (tab_map all) ts ≡ ts
unnamed_all all [] h = refl
unnamed_all all (t ∷ ts) h =
    let own : is_some (tab_map all t.id) ≡ true =
      h t (ground (arith, (===_iff t.id t.id).1 refl)) in
    let later = unnamed_all all ts (λ u l. h u (ground (arith, l))) in rw (own, later) refl

pub listed_some :
    (ts : List Tab) (id : String) → is_listed ts id ≡ true → is_some (tab_map ts id) ≡ true
unfolding tab_map
listed_some [] id h = absurd (ground (arith, h))
listed_some (t ∷ ts) id h = elim (Option-cases (tab_map ts id)) [
  | inl out ↦ elim (Bool-cases (t.id === id)) [
    | inl hit ↦ rw (out, hit) refl
    | inr miss ↦
        let inside = listed_some ts id (ground (arith, h, miss)) in
        absurd (ground (arith, out, inside))
  ]
  | inr (u, e) ↦ rw e refl
]

-- A drag in the tab bar loses no tab and doubles none, whatever ids it is given: those that are no
-- tab's, given twice or left out change nothing but the order. No two tabs have one id.
pub reorder_tabs-perm :
    (s : TabBar) (ids : List String)
    → distinct_ids s.tabs ≡ true
    → Perm (reorder_tabs s ids).tabs s.tabs
unfolding reorder_tabs
reorder_tabs-perm s ids d =
    let all = unnamed_all s.tabs s.tabs (λ t l. listed_some s.tabs t.id l) in
    rw all at (take_named-perm (tab_map s.tabs) s.tabs ids d (λ id t e. e))
