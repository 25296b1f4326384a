-- ===== src/Tabs.antt =====
-- core/tab_api.go and core/tab_undo.go: the tabs, the deletion of one and its undo, and the order
-- of the tab bar of core/select_api.go. A key that a map lacks has its zero value.
pub mod Parts
pub mod Same
pub mod Restore
pub mod Active
pub mod Order
use vair.Base.{
  ℕ, zero, suc, ◌+◌, ◌≡◌, Bool, true, false, not, ◌&&◌, ◌||◌, List, [], ◌∷◌, ◌++◌, Option, none,
  some, String, if◌then◌else◌, ltb, length, take, drop, select,
}
use vair.Table.{◌===◌, update_tab}

pub record Tab : Type 0 where
  pub id : String
  pub name : String
  pub is_main : Bool
  pub closable : Bool
  -- The sources, filters and other settings, which go with the tab as they are.
  pub settings : String

abbrev pub no_tab : Tab
no_tab = record { id = ""; name = ""; is_main = false; closable = false; settings = "" }

-- What is asked of the other parts of the program, in order.
pub data Call : Type 0 where
  invalidate loaded drop_rows active loading : String → Call
  tabs_update save_tabs save_settings settings_update : Call

-- `lastTabDelete`; `none` is an `autoPos` of -1.
pub record LastTabDelete : Type 0 where
  pub tab : Tab
  pub pos : ℕ
  pub rows : List ℕ
  pub was_active : Bool
  pub auto_pos : Option ℕ

-- `deleting` is `pendingTabDeletes.ids`, `auto_tabs` is `appSettings.AutoTabs`.
pub record TabBar : Type 0 where
  pub tabs : List Tab
  pub tab_entries : String → List ℕ
  pub entries : List ℕ
  pub cancelled_tabs : String → Bool
  pub fetching : String → Bool
  pub active_tab : String
  pub deleting : String → Bool
  pub auto_tabs : List String
  pub last : LastTabDelete
  pub has_store : Bool
  pub calls : List Call

abbrev pub call : TabBar → List Call → TabBar
call s cs = record s { calls = s.calls ++ cs }

-- `markTabDeleting`.
abbrev pub mark_tab_deleting : TabBar → String → Bool → TabBar
mark_tab_deleting s id on = record s { deleting = update_tab s.deleting id on }

-- The rows go on a goroutine of their own: `rows_removed` is its end.
abbrev pub remove_deleted_tab_rows : TabBar → String → TabBar
remove_deleted_tab_rows s id =
    if s.has_store then call s (drop_rows id ∷ []) else mark_tab_deleting s id false

unfoldable pub rows_removed : TabBar → String → Bool → TabBar
rows_removed s id failed =
    if failed then s else call (mark_tab_deleting s id false) (save_tabs ∷ [])

unfoldable pub index_of_id : List String → String → Option ℕ
index_of_id [] id = none
index_of_id (t ∷ ts) id =
    let later = index_of_id ts id in
    if t === id then some 0 else elim later [ none ↦ none | some k ↦ some (suc k) ]

abbrev pub remember_tab_delete : TabBar → Tab → ℕ → List ℕ → Bool → TabBar
remember_tab_delete s t pos rows was_active =
    let prev = s.last.tab.id in
    let s' = record s {
      last = record {
        tab = t;
        pos = pos;
        rows = rows;
        was_active = was_active;
        auto_pos = index_of_id s.auto_tabs t.id;
      };
    } in
    if not (prev === "") && not (prev === t.id) then remove_deleted_tab_rows s' prev else s'

abbrev pub forget_tab : TabBar → TabBar
forget_tab s = record s { last = record s.last { tab = no_tab; rows = [] } }

-- The timer of a remembered delete.
unfoldable pub expire_tab_delete : TabBar → TabBar
expire_tab_delete s =
    let id = s.last.tab.id in
    if not (id === "") then remove_deleted_tab_rows (forget_tab s) id else forget_tab s

unfoldable pub find_tab : List Tab → String → ℕ → Option (Tab × ℕ)
find_tab [] id i = none
find_tab (t ∷ ts) id i = if t.id === id then some (t, i) else find_tab ts id (suc i)

abbrev pub drop_from_auto_pool : TabBar → String → TabBar
drop_from_auto_pool s id =
    let kept = select (λ t. not (t === id)) s.auto_tabs in
    if ltb (length kept) (length s.auto_tabs)
    then call (record s { auto_tabs = kept }) (save_settings ∷ settings_update ∷ [])
    else s

-- What is under the lock, apart from the tab list: the tab's rows and the focus.
abbrev pub close_tab : TabBar → String → TabBar
close_tab s id =
    let entries = update_tab s.tab_entries id [] in
    let was_active = s.active_tab === id in
    record s {
      cancelled_tabs = update_tab s.cancelled_tabs id true;
      tab_entries = entries;
      active_tab = if was_active then "main" else s.active_tab;
      entries = if was_active then entries "main" else s.entries;
      deleting = update_tab s.deleting id true;
    }

abbrev pub unlist_tab : TabBar → String → Option (Tab × ℕ) → TabBar
unlist_tab s id none = remove_deleted_tab_rows (close_tab s id) id
unlist_tab s id (some (t, pos)) =
    remember_tab_delete
      (record (close_tab s id) { tabs = take pos s.tabs ++ drop (suc pos) s.tabs }) t pos
      (s.tab_entries id) (s.active_tab === id)

unfoldable pub delete_tab : TabBar → String → TabBar
unfolding find_tab index_of_id
delete_tab s id =
    if id === "main"
    then s
    else let s' = unlist_tab s id (find_tab s.tabs id 0) in
      drop_from_auto_pool
        (call s'
          (invalidate id ∷ tabs_update ∷ active s'.active_tab ∷ loaded "main" ∷ save_tabs ∷ []))
        id

-- A position past the end is the end.
abbrev pub insert_at {ℓ} : {A : Type ℓ} → List A → ℕ → A → List A
insert_at xs pos x =
    let p = if ltb (length xs) pos then length xs else pos in take p xs ++ x ∷ drop p xs

abbrev pub to_auto_pool : TabBar → String → Option ℕ → TabBar
to_auto_pool s id none = s
to_auto_pool s id (some pos) =
    call (record s { auto_tabs = insert_at s.auto_tabs pos id })
      (save_settings ∷ settings_update ∷ [])

abbrev pub reopen_tab : TabBar → LastTabDelete → TabBar
reopen_tab s d = record s {
  tabs = insert_at s.tabs d.pos d.tab;
  tab_entries = update_tab s.tab_entries d.tab.id d.rows;
  cancelled_tabs = update_tab s.cancelled_tabs d.tab.id false;
  deleting = update_tab s.deleting d.tab.id false;
  active_tab = if d.was_active then d.tab.id else s.active_tab;
  entries = if d.was_active then d.rows else s.entries;
}

pub data TabUndo : Type 0 where
  restored : String → TabUndo
  nothing : TabUndo

unfoldable pub undo_delete_tab : TabBar → TabBar × TabUndo
undo_delete_tab s =
    let d = s.last in
    if d.tab.id === ""
    then (forget_tab s, nothing)
    else let s' =
        to_auto_pool (call (reopen_tab (forget_tab s) d) (invalidate d.tab.id ∷ [])) d.tab.id
          d.auto_pos in
      (
        call s' (
            save_tabs
            ∷ tabs_update
            ∷ ((if d.was_active then active s'.active_tab ∷ [] else []) ++ loaded d.tab.id ∷ [])),
        restored d.tab.name,
      )

unfoldable pub switch_tab : TabBar → String → TabBar × Bool
switch_tab s id = (
  call (record s { active_tab = id; entries = s.tab_entries id })
      (active id ∷ (if s.fetching id then loading id ∷ [] else [])),
  s.fetching id,
)

-- `id` and `name` are made of the next free number and the time.
unfoldable pub create_tab : TabBar → String → String → TabBar
create_tab s id name =
    call
      (record s {
        tabs =
            s.tabs
            ++ record { id = id; name = name; is_main = false; closable = true; settings = "" }
              ∷ [];
        cancelled_tabs = update_tab s.cancelled_tabs id false;
      })
      (tabs_update ∷ save_tabs ∷ [])

unfoldable pub rename_first : List Tab → String → String → List Tab
rename_first [] id name = []
rename_first (t ∷ ts) id name =
    let later = rename_first ts id name in
    if t.id === id then record t { name = name } ∷ ts else t ∷ later

unfoldable pub rename_tab : TabBar → String → String → TabBar
unfolding rename_first
rename_tab s id name =
    if name === ""
    then s
    else call (record s { tabs = rename_first s.tabs id name }) (tabs_update ∷ save_tabs ∷ [])

abbrev pub is_listed : List Tab → String → Bool
is_listed [] id = false
is_listed (t ∷ ts) id = t.id === id || is_listed ts id

-- What the window calls, and what ends on its own; a tab that it switches to is one of those listed.
pub data Step : TabBar → TabBar → Type 0 where
  deleting : (s : TabBar) (id : String) → Step s (delete_tab s id)
  undoing : (s : TabBar) → Step s (undo_delete_tab s).0
  expiring : (s : TabBar) → Step s (expire_tab_delete s)
  removing : (s : TabBar) (id : String) (failed : Bool) → Step s (rows_removed s id failed)
  switching : (s : TabBar) (id : String) → is_listed s.tabs id ≡ true → Step s (switch_tab s id).0
  creating : (s : TabBar) (id name : String) → Step s (create_tab s id name)
  renaming : (s : TabBar) (id name : String) → Step s (rename_tab s id name)

pub data Reach (s : TabBar) : TabBar → Type 0 where
  here : Reach s s
  next : {t u : TabBar} → Reach s t → Step t u → Reach s u

-- `state` as it is declared.
abbrev pub new_bar : Bool → TabBar
new_bar has_store = record {
  tabs =
      record { id = "main"; name = "Sources"; is_main = true; closable = false; settings = "" }
      ∷ [];
  tab_entries = λ id. [];
  entries = [];
  cancelled_tabs = λ id. false;
  fetching = λ id. false;
  active_tab = "main";
  deleting = λ id. false;
  auto_tabs = [];
  last = record { tab = no_tab; pos = 0; rows = []; was_active = false; auto_pos = none };
  has_store = has_store;
  calls = [];
}
