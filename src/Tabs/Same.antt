-- ===== src/Tabs/Same.antt =====
-- What `DeleteTab` and `UndoDeleteTab` leave of the parts of the tab bar that they are about.
use vair.Base.{
  ℕ, suc, ◌≡◌, inl, inr, refl, sym, ap, ◌∙◌, Bool, true, false, not, ◌&&◌, List, [], ◌∷◌, ◌++◌,
  Option, none, some, Option-cases, String, if◌then◌else◌, ltb, Bool-cases, length, take, drop,
}
use vair.Table.{◌===◌, update_tab}
use vair.Tabs.{
  Tab, LastTabDelete, TabBar, Call, find_tab, index_of_id, insert_at, delete_tab, undo_delete_tab,
  restored, drop_from_auto_pool, close_tab, remove_deleted_tab_rows, remember_tab_delete, call,
  invalidate, loaded, active, tabs_update, save_tabs,
}
use vair.Tabs.Parts.{others, others_long}

-- The parts of the state that a deletion and its undo are about.
pub record SameBar (u v : TabBar) : Type 0 where
  pub tabs : u.tabs ≡ v.tabs
  pub rows : u.tab_entries ≡ v.tab_entries
  pub entries : u.entries ≡ v.entries
  pub active : u.active_tab ≡ v.active_tab
  pub auto_tabs : u.auto_tabs ≡ v.auto_tabs
  pub last : u.last ≡ v.last

-- What the deletion of a listed tab leaves of them.
abbrev pub closed : TabBar → Tab → ℕ → String → TabBar
closed s t pos id = record (close_tab s id) {
  tabs = take pos s.tabs ++ drop (suc pos) s.tabs;
  auto_tabs = others s.auto_tabs id;
  last = record {
    tab = t;
    pos = pos;
    rows = s.tab_entries id;
    was_active = s.active_tab === id;
    auto_pos = index_of_id s.auto_tabs t.id;
  };
}

pub dropped-SameBar :
    (s : TabBar) (id : String)
    → SameBar (drop_from_auto_pool s id) (record s { auto_tabs = others s.auto_tabs id })
dropped-SameBar s id =
    elim (Bool-cases (ltb (length (others s.auto_tabs id)) (length s.auto_tabs))) [
      | inl e ↦ rw e (record {
        tabs = refl;
        rows = refl;
        entries = refl;
        active = refl;
        auto_tabs = refl;
        last = refl;
      })
      | inr e ↦ rw e (record {
        tabs = refl;
        rows = refl;
        entries = refl;
        active = refl;
        auto_tabs = sym (others_long s.auto_tabs id e);
        last = refl;
      })
    ]

pub SameBar-trans : {u v w : TabBar} → SameBar u v → SameBar v w → SameBar u w
SameBar-trans p q = record {
  tabs = p.tabs ∙ q.tabs;
  rows = p.rows ∙ q.rows;
  entries = p.entries ∙ q.entries;
  active = p.active ∙ q.active;
  auto_tabs = p.auto_tabs ∙ q.auto_tabs;
  last = p.last ∙ q.last;
}

pub SameBar-others :
    {u v : TabBar} (id : String)
    → SameBar u v
    → SameBar
        (record u { auto_tabs = others u.auto_tabs id })
        (record v { auto_tabs = others v.auto_tabs id })
SameBar-others id p = record {
  tabs = p.tabs;
  rows = p.rows;
  entries = p.entries;
  active = p.active;
  auto_tabs = ap (λ ts. others ts id) p.auto_tabs;
  last = p.last;
}

pub SameBar-if :
    {u v w : TabBar} (c : Bool) → SameBar u w → SameBar v w → SameBar (if c then u else v) w
SameBar-if true p q = p
SameBar-if false p q = q

pub same_calls : {u v : TabBar} {cs : List Call} → SameBar u v → SameBar (record u { calls = cs }) v
same_calls p = record {
  tabs = p.tabs;
  rows = p.rows;
  entries = p.entries;
  active = p.active;
  auto_tabs = p.auto_tabs;
  last = p.last;
}

pub removed-SameBar : (s : TabBar) (id : String) → SameBar (remove_deleted_tab_rows s id) s
removed-SameBar s id =
    SameBar-if s.has_store
      (record {
        tabs = refl;
        rows = refl;
        entries = refl;
        active = refl;
        auto_tabs = refl;
        last = refl;
      })
      (record {
        tabs = refl;
        rows = refl;
        entries = refl;
        active = refl;
        auto_tabs = refl;
        last = refl;
      })

pub remembered-SameBar :
    (s : TabBar) (t : Tab) (pos : ℕ) (rows : List ℕ) (was_active : Bool)
    → SameBar (remember_tab_delete s t pos rows was_active) (record s {
      last = record {
        tab = t;
        pos = pos;
        rows = rows;
        was_active = was_active;
        auto_pos = index_of_id s.auto_tabs t.id;
      };
    })
remembered-SameBar s t pos rows was_active =
    SameBar-if (not (s.last.tab.id === "") && not (s.last.tab.id === t.id))
      (removed-SameBar _ s.last.tab.id)
      (record {
        tabs = refl;
        rows = refl;
        entries = refl;
        active = refl;
        auto_tabs = refl;
        last = refl;
      })

pub delete_tab-SameBar :
    (s : TabBar) (id : String) (t : Tab) (pos : ℕ)
    → id === "main" ≡ false
    → find_tab s.tabs id 0 ≡ some (t, pos)
    → SameBar (delete_tab s id) (closed s t pos id)
unfolding delete_tab
delete_tab-SameBar s id t pos other found =
    let unlisted = record (close_tab s id) { tabs = take pos s.tabs ++ drop (suc pos) s.tabs } in
    let s' = remember_tab_delete unlisted t pos (s.tab_entries id) (s.active_tab === id) in
    let told =
      call s'
        (invalidate id ∷ tabs_update ∷ active s'.active_tab ∷ loaded "main" ∷ save_tabs ∷ []) in
    rw (other, found)
      (SameBar-trans (dropped-SameBar told id) (
        SameBar-others {u = told} id (
          same_calls (remembered-SameBar unlisted t pos (s.tab_entries id) (s.active_tab === id)))))

-- The same of a tab that is not listed.
pub delete_tab-unlisted :
    (s : TabBar) (id : String)
    → id === "main" ≡ false
    → find_tab s.tabs id 0 ≡ none
    → SameBar (delete_tab s id) (record (close_tab s id) { auto_tabs = others s.auto_tabs id })
unfolding delete_tab
delete_tab-unlisted s id other out =
    let s' = remove_deleted_tab_rows (close_tab s id) id in
    let told =
      call s'
        (invalidate id ∷ tabs_update ∷ active s'.active_tab ∷ loaded "main" ∷ save_tabs ∷ []) in
    rw (other, out)
      (SameBar-trans (dropped-SameBar told id)
        (SameBar-others {u = told} id (same_calls (removed-SameBar (close_tab s id) id))))

pub undo_fields :
    (u : TabBar) (d : LastTabDelete)
    → u.last ≡ d
    → d.tab.id === "" ≡ false
    → ((undo_delete_tab u).0.tabs ≡ insert_at u.tabs d.pos d.tab)
      × ((undo_delete_tab u).0.tab_entries ≡ update_tab u.tab_entries d.tab.id d.rows)
      × ((undo_delete_tab u).0.entries ≡ (if d.was_active then d.rows else u.entries))
      × ((undo_delete_tab u).0.active_tab ≡ (if d.was_active then d.tab.id else u.active_tab))
      × ((undo_delete_tab u).0.deleting ≡ update_tab u.deleting d.tab.id false)
      × ((undo_delete_tab u).1 ≡ restored d.tab.name)
unfolding undo_delete_tab
undo_fields u d e named = elim (Option-cases d.auto_pos) [
  | inl out ↦ rw (e, named, out) (refl, refl, refl, refl, refl, refl)
  | inr (k, at_k) ↦ rw (e, named, at_k) (refl, refl, refl, refl, refl, refl)
]

abbrev pub into_pool : List String → String → Option ℕ → List String
into_pool ts id none = ts
into_pool ts id (some k) = insert_at ts k id

pub undo_pool :
    (u : TabBar) (d : LastTabDelete)
    → u.last ≡ d
    → d.tab.id === "" ≡ false
    → (undo_delete_tab u).0.auto_tabs ≡ into_pool u.auto_tabs d.tab.id d.auto_pos
unfolding undo_delete_tab
undo_pool u d e named = elim (Option-cases d.auto_pos) [
  | inl out ↦ rw (e, named, out) refl
  | inr (k, at_k) ↦ rw (e, named, at_k) refl
]
