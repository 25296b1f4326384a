-- ===== src/Tests/Views.antt =====
-- core/memstore.go: a table of three rows as it is shown, and a slot with a late reader.
use vair.Base.{
  ok, arith, length, true, ℕ, ◌≡◌, refl, true, false, List, [], ◌∷◌, none, String, codes, map, ◌==◌,
  pos, is_before, All, length,
}
use mathlib.Core.List.{Perm}
use vair.Table.{Status, pending, succeeded, failed, update_tab}
use vair.View.{Entry, Query, Outside}
use vair.View.Order.{less_key, column_of, split_sort}
use vair.View.Order.Laws.{view_order, less_key-order}
use vair.View.Sort.{InOrder}
use vair.View.Window.{
  key_of, collect, favorite_bodies, sorted_keys, compute_order, mem_indices, mem_window, Window,
}
use vair.View.Window.Shown.{sorted_keys-sorted, compute_order-shortcut}
use vair.View.Filter.{parse_filter_terms, term_hit_key, filter_terms_match}
use vair.View.Filter.Columns.{each_term, column_hit, filter_terms_match-columns}
use vair.View.Firsts.{Distinct, is_covered}
use vair.View.Window.Doubles.{left_keys, shown_entry, dedup_of, collect-doubles}
use vair.View.Window.Stretch.{from, up_to, mem_window-rows}
use vair.View.Cache.{
  Slot, looked, ordered, look_up, mem_invalidate, mem_cache_store, changing, invalidating, missing,
  ordering, storing, Reach, here, next, empty_slot,
}
use vair.View.Cache.Current.{look_up-current}

abbrev plain : Outside
plain = record {
  node_body = λ s. s;
  dedup_key = λ s. s;
  stability = λ s. none;
  opens = λ s t. false;
  table = λ c. c;
  is_space = λ c. c == 32;
}

abbrev row : ℕ → String → Status → ℕ → Entry
row i name status delay = record {
  index = i;
  raw = codes name;
  name = codes name;
  host = codes "example.org";
  network = codes "raw";
  security = codes "tls";
  protocol = codes "vless";
  ping = status;
  speed_status = pending;
  delay = delay;
  speed = 0;
}

abbrev slow : Entry
slow = row 0 "Berlin" succeeded 90

abbrev dead : Entry
dead = row 1 "Oslo" failed 0

abbrev fast : Entry
fast = row 2 "Warsaw" succeeded 40

abbrev tab : List Entry
tab = slow ∷ dead ∷ fast ∷ []

abbrev query : String → String → Query
query sort filter = record {
  sort = codes sort;
  filter = codes filter;
  proto = [];
  dedup_hide = false;
  exclude = [];
  offset = pos 0;
  limit = pos 0;
}

by_ping : mem_indices (compute_order plain (query "ping" "") [] tab) ≡ 2 ∷ 0 ∷ 1 ∷ []
unfolding mem_indices compute_order
by_ping = refl

by_ping_down : mem_indices (compute_order plain (query "ping:desc" "") [] tab) ≡ 0 ∷ 2 ∷ 1 ∷ []
unfolding mem_indices compute_order
by_ping_down = refl

found : mem_indices (compute_order plain (query "name" " oslo + Warsaw+ws") [] tab) ≡ []
unfolding mem_indices compute_order
found = refl

either : mem_indices (compute_order plain (query "name" " oslo + Warsaw+tcp") [] tab) ≡ 1 ∷ 2 ∷ []
unfolding mem_indices compute_order
either = refl

less_key-order_example :
    less_key (key_of plain [] fast) (key_of plain [] slow) (codes "ping")
    ≡ is_before (
        view_order
          (column_of (split_sort (codes "ping")).0)
          (split_sort (codes "ping")).1
          (key_of plain [] fast)
          (key_of plain [] slow))
less_key-order_example = less_key-order (key_of plain [] fast) (key_of plain [] slow) (codes "ping")

sorted_keys-sorted_example :
    InOrder
      (λ a b. less_key a b (codes "speed:desc"))
      (sorted_keys plain (query "speed:desc" "") (codes "Oslo" ∷ []) tab)
    × Perm
        (sorted_keys plain (query "speed:desc" "") (codes "Oslo" ∷ []) tab)
        (collect plain (query "speed:desc" "") (favorite_bodies plain (codes "Oslo" ∷ [])) tab [])
sorted_keys-sorted_example =
    sorted_keys-sorted plain (query "speed:desc" "") (codes "Oslo" ∷ []) tab

compute_order-shortcut_example :
    compute_order plain (query "idx" "") [] tab
    ≡ map (λ k. k.entry) (sorted_keys plain (query "idx" "") [] tab)
compute_order-shortcut_example =
    compute_order-shortcut plain (query "idx" "") [] tab refl
      ((refl, (refl, tt)), ((refl, tt), (tt, tt)))

-- The rows of a tab stand for their order.
abbrev shown : List ℕ → List ℕ → List ℕ
shown sig rows = rows

abbrev no_rows : String → List ℕ
no_rows t = []

abbrev start : Slot (List ℕ) (List ℕ)
start = empty_slot (List ℕ) (List ℕ) no_rows

abbrev sig : List ℕ
sig = 105 ∷ []

abbrev Kept : Type 0
Kept = Slot (List ℕ) (List ℕ)

-- A reader makes an order of the empty tab; rows come; its order is dropped; another reader.
abbrev read : Kept
read = record start { readers = ordered 0 "a" sig [] ∷ [] }

abbrev filled : Kept
filled = record read {
  rows = update_tab no_rows "a" (1 ∷ 2 ∷ []);
  changed = update_tab start.changed "a" true;
}

abbrev cleared : Kept
cleared =
    mem_invalidate (List ℕ) (List ℕ) "a"
      (record filled { changed = vair.View.Cache.announced (List ℕ) (List ℕ) "a" filled.changed })

abbrev dropped : Kept
dropped = mem_cache_store (List ℕ) (List ℕ) 0 "a" sig [] (record cleared { readers = [] })

abbrev read_again : Kept
read_again = record dropped { readers = ordered 1 "a" sig (1 ∷ 2 ∷ []) ∷ [] }

abbrev kept : Kept
kept = mem_cache_store (List ℕ) (List ℕ) 1 "a" sig (1 ∷ 2 ∷ []) (record read_again { readers = [] })

late_reader : Reach (List ℕ) (List ℕ) shown start kept
unfolding mem_invalidate mem_cache_store look_up
late_reader =
    next
      (next
        (next
          (next
            (next
              (next
                (next (next here (missing start "a" sig refl)) (
                  ordering (record start { readers = looked 0 "a" sig ∷ [] }) [] 0 "a" sig [] refl))
                (changing read "a" (1 ∷ 2 ∷ [])))
              (invalidating filled "a"))
            (storing cleared [] 0 "a" sig [] [] refl))
          (missing dropped "a" sig refl))
        (ordering (record dropped { readers = looked 1 "a" sig ∷ [] }) [] 1 "a" sig [] refl))
      (storing read_again [] 1 "a" sig (1 ∷ 2 ∷ []) [] refl)

look_up-current_example : ◌≡◌ {A = List ℕ} (1 ∷ 2 ∷ []) (shown sig (kept.rows "a"))
unfolding mem_invalidate mem_cache_store look_up
look_up-current_example =
    look_up-current (List ℕ) (List ℕ) shown no_rows kept "a" sig (1 ∷ 2 ∷ []) late_reader refl refl

filter_terms_match-columns_example :
    filter_terms_match plain
      (parse_filter_terms plain (codes "oslo+warsaw+tcp"))
      (key_of plain [] dead)
    ≡ each_term
        (λ t.
          column_hit
            (λ u. term_hit_key plain (key_of plain [] dead) u.key u.val)
            t.key
            (parse_filter_terms plain (codes "oslo+warsaw+tcp")))
        (parse_filter_terms plain (codes "oslo+warsaw+tcp"))
filter_terms_match-columns_example =
    filter_terms_match-columns plain (parse_filter_terms plain (codes "oslo+warsaw+tcp"))
      (key_of plain [] dead)

abbrev hiding : Query
hiding = record (query "" "") { dedup_hide = true }

collect-doubles_example :
    Distinct (left_keys plain hiding [] (slow ∷ dead ∷ slow ∷ []) [])
    × All
        (λ e.
          is_covered
            (shown_entry plain hiding [])
            (dedup_of plain hiding [])
            []
            (left_keys plain hiding [] (slow ∷ dead ∷ slow ∷ []) [])
            e
          ≡ true)
        (slow ∷ dead ∷ slow ∷ [])
collect-doubles_example = collect-doubles plain hiding [] (slow ∷ dead ∷ slow ∷ []) refl

abbrev second_page : Query
second_page = record (query "" "") { offset = pos 2; limit = pos 2 }

mem_window-rows_example :
    (w : Window) × (mem_window second_page tab true ≡ ok w)
    × (w.rows ≡ up_to second_page.limit (from second_page.offset tab))
    × (w.total ≡ length tab)
mem_window-rows_example = mem_window-rows second_page tab true (omega arith)
