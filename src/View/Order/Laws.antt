-- ===== src/View/Order/Laws.antt =====
-- The orders that the table's columns stand for.
use vair.Base.{
  ℕ, ◌≡◌, refl, inl, inr, arith, Bool, true, false, not, ◌&&◌, List, [], ◌∷◌, if◌then◌else◌, ◌==◌,
  ltb, same, Bool-cases, Comparison, equal, or_else, is_before, IsOrder, compare_nat, compare_true,
  compare_bytes, by, then_by, turned, by-IsOrder, then_by-IsOrder, turned-IsOrder,
  compare_nat-IsOrder, compare_true-IsOrder, compare_bytes-IsOrder,
}
use vair.View.{Key}
use vair.View.Order.{
  split_sort, speed_rank, text_below, differ, flip, by_text, less_ping, is_known, share, less_stab,
  less_speed, Column, ping, stab, speed, chip, name, host, network, security, original, column_of,
  less_column, less_key,
}

abbrev pub is_live : Key → Bool
is_live k = ltb 0 k.delay

abbrev pub measured_speed : Key → ℕ
measured_speed k = if speed_rank k == 0 then k.speed else 0

abbrev pub delay_alone : Key → ℕ
delay_alone k = if speed_rank k == 1 then k.delay else 0

-- A column's own order: live before dead and known before unknown in both directions, the fastest
-- and the steadiest first unless turned.
unfoldable pub column_order : Column → Bool → Key → Key → Comparison
column_order ping rev =
    then_by (by is_live compare_true) (turned rev (by (λ k. k.delay) compare_nat))
column_order stab rev = then_by (by is_known compare_true) (turned (not rev) (by share compare_nat))
column_order speed rev = then_by (by speed_rank compare_nat) (
    then_by (turned (not rev) (by measured_speed compare_nat))
      (turned rev (by delay_alone compare_nat)))
column_order chip rev = turned rev (by (λ k. k.chip) compare_bytes)
column_order name rev = turned rev (by (λ k. k.name) compare_bytes)
column_order host rev = turned rev (by (λ k. k.host) compare_bytes)
column_order network rev = turned rev (by (λ k. k.network) compare_bytes)
column_order security rev = turned rev (by (λ k. k.security) compare_bytes)
column_order original rev = by (λ k. 0) compare_nat

-- Favourites first, then the column, then the place in the tab.
unfoldable pub view_order : Column → Bool → Key → Key → Comparison
unfolding column_order
view_order column rev =
    then_by (by (λ k. k.fav) compare_true)
      (then_by (column_order column rev) (by (λ k. k.idx) compare_nat))

column_order-IsOrder : (column : Column) (rev : Bool) → IsOrder (column_order column rev)
unfolding column_order
column_order-IsOrder ping rev =
    then_by-IsOrder _ _ (by-IsOrder _ _ compare_true-IsOrder)
      (turned-IsOrder rev _ (by-IsOrder _ _ compare_nat-IsOrder))
column_order-IsOrder stab rev =
    then_by-IsOrder _ _ (by-IsOrder _ _ compare_true-IsOrder)
      (turned-IsOrder (not rev) _ (by-IsOrder _ _ compare_nat-IsOrder))
column_order-IsOrder speed rev = then_by-IsOrder _ _ (by-IsOrder _ _ compare_nat-IsOrder) (
    then_by-IsOrder _ _ (turned-IsOrder (not rev) _ (by-IsOrder _ _ compare_nat-IsOrder))
      (turned-IsOrder rev _ (by-IsOrder _ _ compare_nat-IsOrder)))
column_order-IsOrder chip rev = turned-IsOrder rev _ (by-IsOrder _ _ compare_bytes-IsOrder)
column_order-IsOrder name rev = turned-IsOrder rev _ (by-IsOrder _ _ compare_bytes-IsOrder)
column_order-IsOrder host rev = turned-IsOrder rev _ (by-IsOrder _ _ compare_bytes-IsOrder)
column_order-IsOrder network rev = turned-IsOrder rev _ (by-IsOrder _ _ compare_bytes-IsOrder)
column_order-IsOrder security rev = turned-IsOrder rev _ (by-IsOrder _ _ compare_bytes-IsOrder)
column_order-IsOrder original rev = by-IsOrder (λ k. 0) compare_nat compare_nat-IsOrder

pub view_order-IsOrder : (column : Column) (rev : Bool) → IsOrder (view_order column rev)
unfolding view_order
view_order-IsOrder column rev =
    then_by-IsOrder _ _ (by-IsOrder _ _ compare_true-IsOrder)
      (then_by-IsOrder _ _ (column_order-IsOrder column rev) (by-IsOrder _ _ compare_nat-IsOrder))

abbrev is_equal : Comparison → Bool
is_equal equal = true
is_equal _ = false

compare_bytes-text :
    (x y : List ℕ)
    → (is_before (compare_bytes x y) ≡ text_below x y) × (is_equal (compare_bytes x y) ≡ same x y)
unfolding compare_bytes text_below
compare_bytes-text [] [] = (refl, refl)
compare_bytes-text [] (b ∷ y) = (refl, refl)
compare_bytes-text (a ∷ x) [] = (refl, refl)
compare_bytes-text (a ∷ x) (b ∷ y) =
    let (e, f) = compare_bytes-text x y in (ground (arith, e, f), ground (arith, e, f))

by_text-order :
    (rev : Bool) (a b : Key) (x y : List ℕ)
    → by_text rev a b x y
      ≡ is_before (or_else (turned rev compare_bytes x y) (compare_nat a.idx b.idx))
unfolding by_text
by_text-order true a b x y = let (e, f) = compare_bytes-text x y in ground (arith, e, f)
by_text-order false a b x y = let (e, f) = compare_bytes-text x y in ground (arith, e, f)

less_ping-order :
    (rev : Bool) (a b : Key)
    → less_ping rev a b ≡ is_before (or_else (column_order ping rev a b) (compare_nat a.idx b.idx))
unfolding less_ping column_order
less_ping-order true a b = ground arith
less_ping-order false a b = ground arith

less_stab-order :
    (rev : Bool) (a b : Key)
    → less_stab rev a b ≡ is_before (or_else (column_order stab rev a b) (compare_nat a.idx b.idx))
unfolding less_stab column_order
less_stab-order true a b = ground arith
less_stab-order false a b = ground arith

abbrev numbers_order : Bool → ℕ → ℕ → ℕ → ℕ → ℕ → ℕ → Comparison
numbers_order rev r q s t d e = or_else (compare_nat r q) (
    or_else (turned (not rev) compare_nat (if r == 0 then s else 0) (if q == 0 then t else 0))
      (turned rev compare_nat (if r == 1 then d else 0) (if q == 1 then e else 0)))

speed_on_numbers :
    (rev : Bool) (r q s t d e i j : ℕ)
    → (if not (r == q)
        then ltb r q
        else if r == 0 && not (s == t)
        then flip rev (ltb t s)
        else if r == 1 && not (d == e)
        then flip rev (ltb d e)
        else ltb i j)
      ≡ is_before (or_else (numbers_order rev r q s t d e) (compare_nat i j))
speed_on_numbers rev r q s t d e i j = elim (Bool-cases (r == q)) [
  | inl same_rank ↦
      let eq : r ≡ q = ground (arith, same_rank) in
      rw eq (elim (Bool-cases (q == 0)) [
        | inl zero_rank ↦
            let z : q ≡ 0 = ground (arith, zero_rank) in
            rw z (elim rev [ true ↦ ground arith | false ↦ ground arith ])
        | inr other ↦ elim (Bool-cases (q == 1)) [
          | inl one_rank ↦
              let z : q ≡ 1 = ground (arith, one_rank) in
              rw z (elim rev [ true ↦ ground arith | false ↦ ground arith ])
          | inr none_of ↦ ground (arith, other, none_of)
        ]
      ])
  | inr other ↦ ground (arith, other)
]

less_speed-order :
    (rev : Bool) (a b : Key)
    → less_speed rev a b
      ≡ is_before (or_else (column_order speed rev a b) (compare_nat a.idx b.idx))
unfolding less_speed column_order
less_speed-order true a b =
    speed_on_numbers true (speed_rank a) (speed_rank b) a.speed b.speed a.delay b.delay a.idx b.idx
less_speed-order false a b =
    speed_on_numbers false (speed_rank a) (speed_rank b) a.speed b.speed a.delay b.delay a.idx b.idx

text_column :
    (rev : Bool) (f : Key → List ℕ) (a b : Key)
    → by_text rev a b (f a) (f b)
      ≡ is_before (or_else (turned rev (by f compare_bytes) a b) (compare_nat a.idx b.idx))
text_column true f a b = by_text-order true a b (f a) (f b)
text_column false f a b = by_text-order false a b (f a) (f b)

less_column-order :
    (column : Column) (rev : Bool) (a b : Key)
    → less_column column rev a b
      ≡ is_before (or_else (column_order column rev a b) (compare_nat a.idx b.idx))
unfolding less_column column_order
less_column-order ping rev a b = less_ping-order rev a b
less_column-order stab rev a b = less_stab-order rev a b
less_column-order speed rev a b = less_speed-order rev a b
less_column-order chip rev a b = text_column rev (λ k. k.chip) a b
less_column-order name rev a b = text_column rev (λ k. k.name) a b
less_column-order host rev a b = text_column rev (λ k. k.host) a b
less_column-order network rev a b = text_column rev (λ k. k.network) a b
less_column-order security rev a b = text_column rev (λ k. k.security) a b
less_column-order original rev a b = ground arith

-- The comparator is the lexicographic order of its mode: favourites first, then the column's order
-- (turned when the mode asks for it, except that live rows stay before dead ones, known before
-- unknown and better speed ranks before worse), then the place in the tab.
pub less_key-order :
    (a b : Key) (mode : List ℕ)
    → less_key a b mode
      ≡ is_before (view_order (column_of (split_sort mode).0) (split_sort mode).1 a b)
unfolding less_key view_order
less_key-order a b mode =
    let column = column_of (split_sort mode).0 in
    let rev : Bool = (split_sort mode).1 in
    rw (less_column-order column rev a b) (fav_first a.fav b.fav _)
  where
    fav_first :
        (f g : Bool) (c : Comparison)
        → (if differ f g then f else is_before c) ≡ is_before (or_else (compare_true f g) c)
    fav_first true true c = refl
    fav_first true false c = refl
    fav_first false true c = refl
    fav_first false false c = refl
