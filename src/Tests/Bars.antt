-- ===== src/Tests/Bars.antt =====
-- core/tab_api.go and tab_undo.go: a tab with two rows is deleted and brought back.
use vair.Base.{◌≡◌, ◌≢◌, refl, true, false, [], ◌∷◌, String, arith, if◌then◌else◌}
use vair.Table.{◌===◌, ===_iff}
use vair.Tabs.{
  Tab, TabBar, delete_tab, undo_delete_tab, restored, new_bar, Reach, here, next, creating,
  switching, deleting, is_listed, switch_tab, create_tab,
}
use vair.Tabs.Restore.{IsBack, undo_delete_tab-delete_tab}
use mathlib.Core.List.{Perm}
use vair.Tabs.Order.{reorder_tabs, reorder_tabs-perm}

abbrev main_tab : Tab
main_tab = record { id = "main"; name = "Sources"; is_main = true; closable = false; settings = "" }

abbrev own_tab : Tab
own_tab = record {
  id = "tab-1";
  name = "Tab 1";
  is_main = false;
  closable = true;
  settings = "dedup";
}

abbrev two_tabs : TabBar
two_tabs = record (new_bar true) {
  tabs = main_tab ∷ own_tab ∷ [];
  tab_entries = λ id. if id === "tab-1" then 3 ∷ 4 ∷ [] else [];
  entries = 3 ∷ 4 ∷ [];
  active_tab = "tab-1";
  auto_tabs = "main" ∷ "tab-1" ∷ [];
}

other_text : (a b : String) → a === b ≡ false → a ≢ b
other_text a b h e = absurd (ground (arith, (===_iff a b).1 e))

undo_delete_tab-delete_tab_example :
    IsBack two_tabs (undo_delete_tab (delete_tab two_tabs "tab-1")).0
    × ((undo_delete_tab (delete_tab two_tabs "tab-1")).0.deleting "tab-1" ≡ false)
    × ((undo_delete_tab (delete_tab two_tabs "tab-1")).1 ≡ restored "Tab 1")
unfolding vair.Tabs.find_tab
undo_delete_tab-delete_tab_example =
    undo_delete_tab-delete_tab two_tabs (delete_tab two_tabs "tab-1") own_tab 1 refl
      (other_text "tab-1" "main" refl) (other_text "tab-1" "" refl) refl (omega arith)
      (record {
        tabs = refl;
        rows = refl;
        entries = refl;
        active = refl;
        auto_tabs = refl;
        last = refl;
      })

made : Reach (new_bar true) (delete_tab (create_tab (new_bar true) "tab-1" "Tab 1") "tab-1")
made =
    next (next here (creating (new_bar true) "tab-1" "Tab 1"))
      (deleting (create_tab (new_bar true) "tab-1" "Tab 1") "tab-1")

-- An id that is no tab's and one given twice.
reorder_tabs-perm_example :
    Perm (reorder_tabs two_tabs ("tab-1" ∷ "gone" ∷ "tab-1" ∷ [])).tabs (main_tab ∷ own_tab ∷ [])
reorder_tabs-perm_example = reorder_tabs-perm two_tabs ("tab-1" ∷ "gone" ∷ "tab-1" ∷ []) refl
