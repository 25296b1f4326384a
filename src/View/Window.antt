-- ===== src/View/Window.antt =====
-- core/memstore.go: `memOrder` without its cache, and what is served from the order.
pub mod Shown
pub mod Doubles
pub mod Stretch
use vair.Base.{
  ℕ, zero, suc, ◌+◌, ◌≡◌, Bool, true, false, not, ◌&&◌, ◌||◌, List, [], ◌∷◌, Option, none, some,
  if◌then◌else◌, ◌==◌, ltb, leb, same, codes, is_empty, map, take, drop, length, get_elem?, ℤ, pos,
  negsuc, ◌-◌, ◌^◌, Outcome, ok, panic, ◌>>=◌,
}
use vair.Base.Text.{to_lower, trim_space}
use vair.Table.{Status, succeeded, failed}
use vair.View.{Entry, Key, Query, Outside, is_in, shown_network, chip_proto_of}
use vair.View.Exclude.{should_skip}
use vair.View.Filter.{Term, searchable_name, parse_filter_terms, filter_terms_match}
use vair.View.Order.{less_key, is_ok, is_failed}
use vair.View.Sort.{sort_stable}

-- The snapshot of one entry; `favs` are the favourites' bodies.
unfoldable pub key_of : Outside → List (List ℕ) → Entry → Key
unfolding searchable_name shown_network chip_proto_of trim_space
key_of outside favs e =
    let low = to_lower outside.table in
    record {
      entry = e;
      idx = e.index;
      delay = e.delay;
      speed = e.speed;
      stab = outside.stability e.raw;
      ping = e.ping;
      speed_status = e.speed_status;
      fav = is_in (outside.node_body (trim_space outside.is_space e.raw)) favs;
      name = low e.name;
      name_search = searchable_name (low e.name);
      host = low e.host;
      network = shown_network outside.table e.network;
      security = low e.security;
      protocol = low e.protocol;
      chip = chip_proto_of outside.table (low e.protocol) e.security;
      raw = e.raw;
    }

unfoldable pub proto_set : Outside → List (List ℕ) → List (List ℕ)
unfolding trim_space
proto_set outside protos = map (λ p. to_lower outside.table (trim_space outside.is_space p)) protos

-- The filter, the protocols and the tab's rules, each passed over where there are none.
unfoldable pub is_shown : Outside → Query → Key → Bool
unfolding parse_filter_terms filter_terms_match proto_set should_skip
is_shown outside q k =
    (is_empty (parse_filter_terms outside q.filter)
      || filter_terms_match outside (parse_filter_terms outside q.filter) k)
    && ((is_empty q.proto || is_in k.chip (proto_set outside q.proto))
        && (is_empty q.exclude
            || not (should_skip outside k.name k.protocol k.host k.network k.security q.exclude)))

abbrev pub if_kept : Bool → Key → List Key → List Key
if_kept true k ks = k ∷ ks
if_kept false k ks = ks

-- Not hidden as the double of one before.
abbrev pub is_first : Outside → Query → List (List ℕ) → Key → Bool
is_first outside q seen k = not q.dedup_hide || not (is_in (outside.dedup_key k.raw) seen)

-- The loop over the tab's entries.
unfoldable pub collect : Outside → Query → List (List ℕ) → List Entry → List (List ℕ) → List Key
unfolding key_of is_shown
collect outside q favs [] seen = []
collect outside q favs (e ∷ es) seen =
    let k = key_of outside favs e in
    let kept = is_shown outside q k && is_first outside q seen k in
    if_kept kept k (
      collect outside q favs es
        (if kept && q.dedup_hide then outside.dedup_key k.raw ∷ seen else seen))

abbrev pub favorite_bodies : Outside → List (List ℕ) → List (List ℕ)
favorite_bodies outside favorites = map outside.node_body favorites

unfoldable pub sorted_keys : Outside → Query → List (List ℕ) → List Entry → List Key
unfolding collect sort_stable less_key
sorted_keys outside q favorites es =
    sort_stable (λ a b. less_key a b q.sort)
      (collect outside q (favorite_bodies outside favorites) es [])

-- Nothing is asked but the tab's own order.
abbrev pub is_default : Query → List (List ℕ) → Bool
is_default q favorites =
    (same q.sort [] || same q.sort (codes "idx"))
    && (is_empty q.filter
        && (is_empty q.proto && (not q.dedup_hide && (is_empty q.exclude && is_empty favorites))))

unfoldable pub compute_order : Outside → Query → List (List ℕ) → List Entry → List Entry
unfolding sorted_keys
compute_order outside q favorites es =
    if is_default q favorites then es else map (λ k. k.entry) (sorted_keys outside q favorites es)

pub record Stats : Type 0 where
  pub total : ℕ
  pub ok : ℕ
  pub fail : ℕ
  pub min_ping : ℕ
  pub max_speed : ℕ

abbrev pub no_stats : Stats
no_stats = record { total = 0; ok = 0; fail = 0; min_ping = 0; max_speed = 0 }

-- One turn of the count.
unfoldable pub count_entry : Stats → Entry → Stats
count_entry st e = record {
  total = st.total;
  ok = if is_ok e.ping then suc st.ok else st.ok;
  fail = if not (is_ok e.ping) && is_failed e.ping then suc st.fail else st.fail;
  min_ping =
      if ltb 0 e.delay && (st.min_ping == 0 || ltb e.delay st.min_ping)
      then e.delay
      else st.min_ping;
  max_speed = if ltb 0 e.speed && ltb st.max_speed e.speed then e.speed else st.max_speed;
}

unfoldable pub count_entries : Stats → List Entry → Stats
unfolding count_entry
count_entries st [] = st
count_entries st (e ∷ es) = count_entries (count_entry st e) es

abbrev pub at_least_zero : ℤ → ℕ
at_least_zero (pos n) = n
at_least_zero (negsuc n) = 0

-- The bounds of the window.
unfoldable pub window_start : Query → ℕ → ℕ
window_start q total = if ltb total (at_least_zero q.offset) then total else at_least_zero q.offset

-- `off + q.limit` is a machine integer of 64 bits. Where it wraps it is negative, and no more than
-- `total`, so that the slice up to it panics.
unfoldable pub window_end : Query → ℕ → Outcome ℕ
unfolding window_start
window_end q total =
    let limit = at_least_zero q.limit in
    let end = window_start q total + limit in
    if limit == 0
    then ok total
    else if leb (2 ^ 63) end
    then panic
    else ok (if ltb total end then total else end)

pub record Window : Type 0 where
  pub rows : List Entry
  pub total : ℕ
  pub stats : Stats

-- The rows up to `end`, and the header's counters where they are asked for.
unfoldable pub window_of : Query → List Entry → Bool → ℕ → Window
unfolding window_start count_entries
window_of q ord with_stats end =
    let off = window_start q (length ord) in
    record {
      rows = take (end - off) (drop off ord);
      total = length ord;
      stats =
          if with_stats
          then count_entries (record no_stats { total = length ord }) ord
          else no_stats;
    }

unfoldable pub mem_window : Query → List Entry → Bool → Outcome Window
unfolding window_end window_of
mem_window q ord with_stats =
    window_end q (length ord) >>= λ end. ok (window_of q ord with_stats end)

unfoldable pub mem_indices : List Entry → List ℕ
mem_indices ord = map (λ e. e.index) ord

unfoldable pub mem_raws_ordered : List Entry → List ℕ × List (List ℕ)
unfolding mem_indices
mem_raws_ordered ord = (mem_indices ord, map (λ e. e.raw) ord)

-- The first entry that has an index.
unfoldable pub raw_at_index : List Entry → ℕ → List ℕ
raw_at_index [] ix = []
raw_at_index (e ∷ es) ix = if e.index == ix then e.raw else raw_at_index es ix

-- By position, or else by a search.
unfoldable pub raw_for_index : List Entry → ℕ → List ℕ
unfolding raw_at_index
raw_for_index src ix = elim (get_elem? src ix) [
  | some e ↦ if e.index == ix then e.raw else raw_at_index src ix
  | none ↦ raw_at_index src ix
]

unfoldable pub mem_raws_for_indices : List Entry → List ℕ → List (List ℕ)
unfolding raw_for_index
mem_raws_for_indices src idxs = map (raw_for_index src) idxs

unfoldable pub count_visible : Outside → List (List ℕ) → List Entry → ℕ
unfolding should_skip
count_visible outside excl [] = 0
count_visible outside excl (e ∷ es) =
    let n = count_visible outside excl es in
    if should_skip outside e.name e.protocol e.host e.network e.security excl then n else suc n

unfoldable pub mem_tab_visible_count : Outside → List (List ℕ) → List Entry → ℕ
unfolding count_visible
mem_tab_visible_count outside excl src =
    if is_empty excl then length src else count_visible outside excl src
