-- ===== src/Tests/Rows.antt =====
-- core/entry_move.go, entry_undo.go, entry_api.go and select_api.go on a tab of three rows.
use mathlib.Core.List.{
  Nodup, Nodup-cons, Nodup-nil, Mem, mem-cons, mem-cons_self, mem-cons_of_mem, not-mem-nil,
}
use mathlib.Core.Logic.Or
use mathlib.Core.HLevel.{⊥_prop}
use vair.Base.{
  ℕ, suc, ◌≡◌, ◌≢◌, refl, ◌⊎◌, not, ◌&&◌, member, zero, ◌+◌, Bool, true, false, List, [], ◌∷◌, some,
  String, arith, pos, get_elem?, map,
}
use vair.Table.{Row, Table, Status, pending, failed, LastDelete, index_of, ◌===◌, ===_iff}
use vair.Table.Move.{move_entries, moving_rows}
use vair.Table.Move.Laws.{after_move, move_entries_conn}
use vair.Table.Move.Places.{Placed, move_entries-Placed}
use vair.Table.Rows.{entry_for, resolve_rows}
use vair.Table.Rows.Picks.{Follows, resolve_rows-Follows}
use vair.Table.Delete.{delete_entries}
use vair.Table.Delete.Undo.{Undone, undo-delete_entries}

abbrev rows : ℕ → Row
rows zero = record { index = 0; raw = "vless://a"; name = "a"; ping = pending; speed = pending }
rows (suc zero) = record {
  index = 1;
  raw = "vless://b";
  name = "b";
  ping = failed;
  speed = pending;
}
rows (suc (suc e)) = record {
  index = 2 + e;
  raw = "vless://c";
  name = "c";
  ping = pending;
  speed = pending;
}

abbrev no_delete : LastDelete
no_delete = record { tab = ""; before = []; before_index = []; after = []; after_index = [] }

abbrev tab_lists : String → List ℕ
tab_lists t = 0 ∷ 1 ∷ 2 ∷ []

abbrev three_rows : Table
three_rows = record {
  cell = rows;
  tab_entries = tab_lists;
  active_tab = "t";
  entries = 0 ∷ 1 ∷ 2 ∷ [];
  conn_tab = "t";
  entry_index = some 2;
  bulk_running = false;
  testing_tab = "";
  last_delete = no_delete;
  fetching = λ t. false;
  has_store = true;
  effects = [];
}

distinct : List ℕ → Bool
distinct [] = true
distinct (x ∷ xs) = not (member x xs) && distinct xs

not_member : (x : ℕ) (xs : List ℕ) → member x xs ≡ false → ¬ Mem x xs
not_member x [] h m = not-mem-nil m
not_member x (y ∷ ys) h m =
    Or.elim ⊥_prop (mem-cons.0 m) (λ here. ground (arith, here)) (not_member x ys (ground arith))

distinct-Nodup : (xs : List ℕ) → distinct xs ≡ true → Nodup xs
unfolding distinct
distinct-Nodup [] h = Nodup-nil
distinct-Nodup (x ∷ xs) h =
    Nodup-cons.1 (not_member x xs (ground arith), distinct-Nodup xs (ground arith))

three_Nodup : Nodup {A = ℕ} (0 ∷ 1 ∷ 2 ∷ [])
unfolding distinct
three_Nodup = distinct-Nodup (0 ∷ 1 ∷ 2 ∷ []) refl

differ : (a b : String) → a === b ≡ false → a ≢ b
differ a b h e = absurd (ground (arith, (===_iff a b).1 e))

move_entries_conn_example :
    (after_move three_rows "t" (2 ∷ []) (pos 0) false).entry_index
    ≡ some (index_of (after_move three_rows "t" (2 ∷ []) (pos 0) false).cell 2)
move_entries_conn_example =
    move_entries_conn three_rows "t" (2 ∷ []) (pos 0) false 2 three_Nodup three_Nodup
      (mem-cons_of_mem 0 (mem-cons_of_mem 1 mem-cons_self)) refl refl

move_entries-Placed_example :
    (((move_entries three_rows "t" (2 ∷ []) (pos 0) false).1 ≡ [])
      × (after_move three_rows "t" (2 ∷ []) (pos 0) false ≡ three_rows))
    ⊎ (Placed rows
          (2 ∷ [])
          (0 ∷ 1 ∷ [])
          (pos 0)
          false
          ((after_move three_rows "t" (2 ∷ []) (pos 0) false).tab_entries "t")
        × (map
              (get_elem? ((after_move three_rows "t" (2 ∷ []) (pos 0) false).tab_entries "t"))
              (move_entries three_rows "t" (2 ∷ []) (pos 0) false).1
            ≡ map some (2 ∷ []))
        × (moving_rows three_rows "t" (2 ∷ []) ≢ []))
move_entries-Placed_example = move_entries-Placed three_rows "t" (2 ∷ []) (pos 0) false

resolve_rows-Follows_example :
    Follows rows
      (0 ∷ 1 ∷ 2 ∷ [])
      (2 ∷ 0 ∷ [])
      ("vless://b" ∷ "vless://a" ∷ [])
      []
      (resolve_rows three_rows "t" (2 ∷ 0 ∷ []) ("vless://b" ∷ "vless://a" ∷ []))
resolve_rows-Follows_example =
    resolve_rows-Follows three_rows "t" (2 ∷ 0 ∷ []) ("vless://b" ∷ "vless://a" ∷ [])

one_removed : suc 0 ≢ 0
one_removed e = absurd (omega arith)

undo-delete_entries_example :
    Undone three_rows (delete_entries three_rows (1 ∷ []) ("vless://b" ∷ [])).0 "t" 1
unfolding delete_entries vair.Table.Rows.resolve vair.Table.Rows.choose vair.Table.Rows.by_index
    resolve_rows
undo-delete_entries_example =
    undo-delete_entries three_rows (delete_entries three_rows (1 ∷ []) ("vless://b" ∷ [])).0
      (1 ∷ []) ("vless://b" ∷ []) three_Nodup (differ "t" "" refl) one_removed (refl, refl, refl)

-- A delete is remembered, and a refresh has emptied the tab.
abbrev refreshed : Table
refreshed = record three_rows {
  last_delete = record {
    tab = "t";
    before = 0 ∷ 1 ∷ [];
    before_index = 0 ∷ 1 ∷ [];
    after = 0 ∷ [];
    after_index = 0 ∷ [];
  };
}
