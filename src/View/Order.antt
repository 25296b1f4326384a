-- ===== src/View/Order.antt =====
-- core/memstore.go: the comparator of the table's rows.
pub mod Laws
use vair.Base.{
  ℕ, ◌≡◌, Bool, true, false, not, ◌&&◌, ◌||◌, List, [], ◌∷◌, Option, none, some, if◌then◌else◌,
  ◌==◌, ltb, same, codes,
}
use vair.Base.Text.{cut}
use vair.Table.{Status, pending, testing_ping, testing_speed, succeeded, failed, skipped}
use vair.View.{Key}

-- The field of a sort mode, and whether it is turned.
unfoldable pub split_sort : List ℕ → List ℕ × Bool
unfolding cut
split_sort mode = elim (cut 58 mode) [
  | none ↦ (mode, false)
  | some (field, direction) ↦ (field, same direction (codes "desc"))
]

abbrev pub is_ok : Status → Bool
is_ok succeeded = true
is_ok _ = false

abbrev pub is_failed : Status → Bool
is_failed failed = true
is_failed _ = false

abbrev pub is_testing_ping : Status → Bool
is_testing_ping testing_ping = true
is_testing_ping _ = false

abbrev pub is_testing_speed : Status → Bool
is_testing_speed testing_speed = true
is_testing_speed _ = false

unfoldable pub speed_rank : Key → ℕ
speed_rank k =
    if ltb 0 k.speed
    then 0
    else if is_ok k.ping && ltb 0 k.delay
    then 1
    else if is_testing_speed k.speed_status || is_testing_ping k.ping
    then 2
    else if is_failed k.ping
    then 3
    else 4

-- `x < y` on texts.
unfoldable pub text_below : List ℕ → List ℕ → Bool
text_below [] [] = false
text_below [] (b ∷ y) = true
text_below (a ∷ x) [] = false
text_below (a ∷ x) (b ∷ y) = if a == b then text_below x y else ltb a b

abbrev pub differ : Bool → Bool → Bool
differ true b = not b
differ false b = b

abbrev pub flip : Bool → Bool → Bool
flip rev less = if rev then not less else less

unfoldable pub by_text : Bool → Key → Key → List ℕ → List ℕ → Bool
unfolding text_below
by_text rev a b x y = if same x y then ltb a.idx b.idx else flip rev (text_below x y)

unfoldable pub less_ping : Bool → Key → Key → Bool
less_ping rev a b =
    if differ (ltb 0 a.delay) (ltb 0 b.delay)
    then ltb 0 a.delay
    else if ltb 0 a.delay && not (a.delay == b.delay)
    then flip rev (ltb a.delay b.delay)
    else ltb a.idx b.idx

abbrev pub is_known : Key → Bool
is_known k = elim k.stab [ none ↦ false | some s ↦ true ]

abbrev pub share : Key → ℕ
share k = elim k.stab [ none ↦ 0 | some s ↦ s ]

unfoldable pub less_stab : Bool → Key → Key → Bool
less_stab rev a b =
    if differ (is_known a) (is_known b)
    then is_known a
    else if is_known a && not (share a == share b)
    then flip rev (ltb (share b) (share a))
    else ltb a.idx b.idx

unfoldable pub less_speed : Bool → Key → Key → Bool
unfolding speed_rank
less_speed rev a b =
    if not (speed_rank a == speed_rank b)
    then ltb (speed_rank a) (speed_rank b)
    else if speed_rank a == 0 && not (a.speed == b.speed)
    then flip rev (ltb b.speed a.speed)
    else if speed_rank a == 1 && not (a.delay == b.delay)
    then flip rev (ltb a.delay b.delay)
    else ltb a.idx b.idx

pub data Column : Type 0 where
  ping stab speed chip name host network security original : Column

-- The cases of the switch.
unfoldable pub column_of : List ℕ → Column
column_of field =
    if same field (codes "ping")
    then ping
    else if same field (codes "stab")
    then stab
    else if same field (codes "speed")
    then speed
    else if same field (codes "type")
    then chip
    else if same field (codes "name")
    then name
    else if same field (codes "host")
    then host
    else if same field (codes "transport")
    then network
    else if same field (codes "security")
    then security
    else original

unfoldable pub less_column : Column → Bool → Key → Key → Bool
unfolding less_ping less_stab less_speed by_text
less_column ping rev a b = less_ping rev a b
less_column stab rev a b = less_stab rev a b
less_column speed rev a b = less_speed rev a b
less_column chip rev a b = by_text rev a b a.chip b.chip
less_column name rev a b = by_text rev a b a.name b.name
less_column host rev a b = by_text rev a b a.host b.host
less_column network rev a b = by_text rev a b a.network b.network
less_column security rev a b = by_text rev a b a.security b.security
less_column original rev a b = ltb a.idx b.idx

unfoldable pub less_key : Key → Key → List ℕ → Bool
unfolding split_sort column_of less_column
less_key a b mode =
    let (field, rev) = split_sort mode in
    if differ a.fav b.fav then a.fav else less_column (column_of field) rev a b
