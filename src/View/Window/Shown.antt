-- ===== src/View/Window/Shown.antt =====
-- The order of the rows shown.
use vair.Base.{
  ℕ, ◌≡◌, refl, sym, ◌∙◌, ap, subst, inl, inr, arith, Bool, true, false, ◌&&◌, List, [], ◌∷◌, ltb,
  same, same_eq, codes, is_empty, map, Bool-cases, is_before_asym, is_before_trans,
}
use mathlib.Core.List.{Perm}
use vair.Base.Text.{trim_space}
use vair.View.{Entry, Key, Query, Outside}
use vair.View.Filter.{parse_filter_terms}
use vair.View.Order.{less_key, split_sort, column_of, less_column}
use vair.View.Order.Laws.{view_order-IsOrder, less_key-order}
use vair.View.Sort.{
  InOrder, InOrder-map, sort_stable, sort_stable-Perm, sort_stable-sorted, sort_stable-InOrder,
}
use vair.View.Window.{
  key_of, is_shown, is_first, collect, favorite_bodies, sorted_keys, is_default, compute_order,
}

less_key_asym : (mode : List ℕ) (a b : Key) → less_key a b mode ≡ true → less_key b a mode ≡ false
less_key_asym mode a b h =
    let o = view_order-IsOrder (column_of (split_sort mode).0) (split_sort mode).1 in
    less_key-order b a mode ∙ is_before_asym _ o a b (sym (less_key-order a b mode) ∙ h)

less_key_trans :
    (mode : List ℕ) (a b d : Key)
    → less_key b a mode ≡ false
    → less_key d b mode ≡ false
    → less_key d a mode ≡ false
less_key_trans mode a b d h k =
    let o = view_order-IsOrder (column_of (split_sort mode).0) (split_sort mode).1 in
    less_key-order d a mode
    ∙ is_before_trans _ o a b d (sym (less_key-order b a mode) ∙ h)
        (sym (less_key-order d b mode) ∙ k)

-- Whatever the sort mode, the rows are those that the filter, the rules and the hiding of doubles
-- leave, each as often as they leave it, and no row sorts before one that is shown above it.
pub sorted_keys-sorted :
    (outside : Outside) (q : Query) (favorites : List (List ℕ)) (es : List Entry)
    → InOrder (λ a b. less_key a b q.sort) (sorted_keys outside q favorites es)
      × Perm
          (sorted_keys outside q favorites es)
          (collect outside q (favorite_bodies outside favorites) es [])
unfolding sorted_keys
sorted_keys-sorted outside q favorites es =
    let less = λ (a b : Key). less_key a b q.sort in
    let keys = collect outside q (favorite_bodies outside favorites) es [] in
    (
      sort_stable-InOrder less (less_key_asym q.sort) (less_key_trans q.sort) keys,
      sort_stable-Perm less keys,
    )

-- Without a filter nothing is hidden.
parse_filter_terms-empty :
    (outside : Outside) (f : List ℕ) → is_empty f ≡ true → parse_filter_terms outside f ≡ []
unfolding parse_filter_terms trim_space
parse_filter_terms-empty outside [] h = refl
parse_filter_terms-empty outside (c ∷ f) h = absurd (ground (arith, h))

is_shown-default :
    (outside : Outside) (q : Query) (favorites : List (List ℕ)) (k : Key)
    → is_default q favorites ≡ true
    → is_shown outside q k ≡ true
unfolding is_shown
is_shown-default outside q favorites k h =
    let filter_empty : is_empty q.filter ≡ true = ground (arith, h) in
    let no_terms = parse_filter_terms-empty outside q.filter filter_empty in
    rw no_terms (ground (arith, h))

collect-default :
    (outside : Outside) (q : Query) (favorites : List (List ℕ)) (es : List Entry)
    (seen : List (List ℕ))
    → is_default q favorites ≡ true
    → collect outside q [] es seen ≡ map (key_of outside []) es
unfolding collect
collect-default outside q favorites [] seen h = refl
collect-default outside q favorites (e ∷ es) seen h =
    let k = key_of outside [] e in
    let shown = is_shown-default outside q favorites k h in
    let kept : (is_shown outside q k && is_first outside q seen k) ≡ true =
      ground (arith, shown, h) in
    rw kept (ap (λ ks. k ∷ ks) (collect-default outside q favorites es _ h))

less_key-unsorted :
    (outside : Outside) (a b : Entry)
    → less_key (key_of outside [] a) (key_of outside [] b) [] ≡ ltb a.index b.index
unfolding less_key split_sort column_of less_column key_of
less_key-unsorted outside a b = refl

less_key-idx :
    (outside : Outside) (a b : Entry)
    → less_key (key_of outside [] a) (key_of outside [] b) (codes "idx") ≡ ltb a.index b.index
unfolding less_key split_sort column_of less_column key_of
less_key-idx outside a b = refl

less_key-default :
    (outside : Outside) (q : Query) (favorites : List (List ℕ)) (a b : Entry)
    → is_default q favorites ≡ true
    → less_key (key_of outside [] a) (key_of outside [] b) q.sort ≡ ltb a.index b.index
less_key-default outside q favorites a b h = elim (Bool-cases (same q.sort [])) [
  | inl e ↦
      subst (λ m. less_key (key_of outside [] a) (key_of outside [] b) m ≡ ltb a.index b.index)
        (sym (same_eq q.sort [] e)) (less_key-unsorted outside a b)
  | inr e ↦
      let named : same q.sort (codes "idx") ≡ true = ground (arith, h, e) in
      subst (λ m. less_key (key_of outside [] a) (key_of outside [] b) m ≡ ltb a.index b.index)
        (sym (same_eq q.sort (codes "idx") named)) (less_key-idx outside a b)
]

abbrev pub lower_index : Entry → Entry → Bool
lower_index a b = ltb a.index b.index

entries-key_of :
    (outside : Outside) (es : List Entry) → map (λ k. k.entry) (map (key_of outside []) es) ≡ es
unfolding key_of
entries-key_of outside [] = refl
entries-key_of outside (e ∷ es) = ap (λ rest. e ∷ rest) (entries-key_of outside es)

-- The shortcut for the view that asks for nothing gives what the full computation gives, as long as
-- the tab's entries stand by their indices.
pub compute_order-shortcut :
    (outside : Outside) (q : Query) (favorites : List (List ℕ)) (es : List Entry)
    → is_default q favorites ≡ true
    → InOrder lower_index es
    → compute_order outside q favorites es ≡ map (λ k. k.entry) (sorted_keys outside q favorites es)
unfolding compute_order sorted_keys
compute_order-shortcut outside q favorites es h o =
    let less = λ (a b : Key). less_key a b q.sort in
    let keys = map (key_of outside []) es in
    let none_fav : favorite_bodies outside favorites ≡ [] =
      no_bodies favorites (ground (arith, h)) in
    let sorted : sort_stable less keys ≡ keys = sort_stable-sorted less keys (
      InOrder-map lower_index less (key_of outside [])
        (λ a b. less_key-default outside q favorites a b h) es o) in
    rw (h, none_fav, collect-default outside q favorites es [] h, sorted, entries-key_of outside es)
      refl
  where
    no_bodies : (favs : List (List ℕ)) → is_empty favs ≡ true → favorite_bodies outside favs ≡ []
    no_bodies [] e = refl
    no_bodies (f ∷ favs) e = absurd (ground (arith, e))
