-- ===== src/Tabs/Order/Names.antt =====
-- The order that `ReorderTabs` gives to the tabs named.
use mathlib.Core.List.{map-append}
use vair.Base.{
  ◌≡◌, inl, inr, refl, sym, ap, ◌∙◌, Bool, true, false, ◌||◌, List, [], ◌∷◌, Option, none, some,
  Option-cases, String, arith, Bool-cases, map, take, take_all, length,
}
use vair.Table.{◌===◌, ===_iff, update_tab}
use vair.Tabs.{Tab, TabBar, is_listed}
use vair.Tabs.Order.{
  tab_map, is_some, take_named, unnamed, reorder_tabs, listed_some, take_named-some,
}

abbrev pub repeated : String → List String → Bool
repeated id [] = false
repeated id (j ∷ js) = j === id || repeated id js

-- Each of the ids is a tab's, and none is given twice.
abbrev pub NamesTabs : List Tab → List String → Type 0
NamesTabs ts [] = Unit {0}
NamesTabs ts (id ∷ ids) = (is_listed ts id ≡ true) × (repeated id ids ≡ false) × NamesTabs ts ids

abbrev AllLeft : (String → Option Tab) → List String → Type 0
AllLeft m [] = Unit {0}
AllLeft m (id ∷ ids) = (is_some (m id) ≡ true) × (repeated id ids ≡ false) × AllLeft m ids

AllLeft-update_tab :
    (m : String → Option Tab) (id : String) (ids : List String)
    → repeated id ids ≡ false
    → AllLeft m ids
    → AllLeft (update_tab m id none) ids
AllLeft-update_tab m id [] r a = tt
AllLeft-update_tab m id (j ∷ ids) r (here_j, once, a) =
    let other : j === id ≡ false = ground (arith, r) in
    (rw other here_j, once, AllLeft-update_tab m id ids (ground (arith, r)) a)

AllLeft-tab_map : (ts : List Tab) (ids : List String) → NamesTabs ts ids → AllLeft (tab_map ts) ids
AllLeft-tab_map ts [] n = tt
AllLeft-tab_map ts (id ∷ ids) (l, once, n) = (listed_some ts id l, once, AllLeft-tab_map ts ids n)

tab_map_id : (ts : List Tab) (id : String) (t : Tab) → tab_map ts id ≡ some t → t.id ≡ id
unfolding tab_map
tab_map_id [] id t h = cc
tab_map_id (x ∷ ts) id t h = elim (Option-cases (tab_map ts id)) [
  | inr (u, e) ↦ tab_map_id ts id t (ground (arith, e, h))
  | inl out ↦ elim (Bool-cases (x.id === id)) [
    | inl hit ↦
        let same : x ≡ t = ground (arith, out, hit, h) in
        sym (ap (λ y. y.id) same) ∙ (===_iff x.id id).0 hit
    | inr miss ↦ absurd (ground (arith, out, miss, h))
  ]
]

take_named_ids :
    (m : String → Option Tab) (ids : List String)
    → ((id : String) (t : Tab) → m id ≡ some t → t.id ≡ id)
    → AllLeft m ids
    → map (λ t. t.id) (take_named m ids).0 ≡ ids
take_named_ids m [] own a = unfold take_named in refl
take_named_ids m (id ∷ ids) own (present, once, a) = elim (Option-cases (m id)) [
  | inl out ↦ absurd (ground (arith, out, present))
  | inr (t, e) ↦
      let rest =
        take_named_ids (update_tab m id none) ids (left id own)
          (AllLeft-update_tab m id ids once a) in
      rw (take_named-some m id ids t e, own id t e, rest) refl
]
  where
    left :
        (id : String)
        → ((j : String) (t : Tab) → m j ≡ some t → t.id ≡ j)
        → (j : String) (t : Tab) → update_tab m id none j ≡ some t
        → t.id ≡ j
    left id h j t e = elim (Bool-cases (j === id)) [
      | inl hit ↦ absurd (ground (arith, hit, e))
      | inr miss ↦ h j t (ground (arith, miss, e))
    ]

-- The tabs named come first, in the order of the names, if each id is a tab's and none is given
-- twice.
pub reorder_tabs_order :
    (s : TabBar) (ids : List String)
    → NamesTabs s.tabs ids
    → take (length ids) (map (λ t. t.id) (reorder_tabs s ids).tabs) ≡ ids
unfolding reorder_tabs
reorder_tabs_order s ids n =
    let m = tab_map s.tabs in
    let named = take_named_ids m ids (tab_map_id s.tabs) (AllLeft-tab_map s.tabs ids n) in
    rw (map-append (λ t. t.id) (take_named m ids).0 (unnamed (take_named m ids).1 s.tabs), named)
      (take_all ids _)
