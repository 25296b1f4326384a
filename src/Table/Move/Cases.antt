-- ===== src/Table/Move/Cases.antt =====
-- The two ways in which `MoveEntries` ends, and where the moved rows go.
use vair.Base.{
  ℕ, ◌≡◌, refl, Bool, true, false, ◌||◌, List, [], ◌++◌, Option, none, some, String, if◌then◌else◌,
  length, take, drop, is_empty, range, same, ℤ,
}
use vair.Table.{Table, ◌===◌}
use vair.Table.Move.{
  position, commit, place, bulk_test_on_tab, onto_moving, moving_rows, staying_rows, move_entries,
}

-- The list with the moved rows put in at `p`.
abbrev pub moved_to : ℕ → List ℕ → List ℕ → List ℕ
moved_to p moved rest = take p rest ++ (moved ++ drop p rest)

if_both {ℓ κ} :
    {A : Type ℓ} (P : A → Type κ) (t : Bool) {x y : A}
    → P x
    → (t ≡ false → P y)
    → P (if t then x else y)
if_both P true p q = p
if_both P false p q = q refl

-- Either nothing moves, or rows are put in at a place that `position` gives.
pub move_cases {ℓ} :
    (P : Table × List ℕ → Type ℓ) (s : Table) (tab : String) (indices : List ℕ) (target : ℤ)
    (after : Bool)
    → P (s, [])
    → ((p : ℕ)
        → position s.cell (staying_rows s tab indices) target after ≡ some p
        → is_empty (moving_rows s tab indices) ≡ false
        → P (
          commit s tab (moved_to p (moving_rows s tab indices) (staying_rows s tab indices)),
          range p (length (moving_rows s tab indices)),
        ))
    → P (move_entries s tab indices target after)
unfolding move_entries
move_cases P s tab indices target after stay moves =
    let moved = moving_rows s tab indices in
    let rest = staying_rows s tab indices in
    if_both P (tab === "" || tab === "main" || is_empty indices) stay λ _.
      if_both P (bulk_test_on_tab s tab) stay λ _. if_both P (onto_moving target indices) stay λ _.
        if_both P (is_empty moved) stay
          λ some_moved. placed (position s.cell rest target after) (λ p e. moves p e some_moved)
  where
    placed :
        (o : Option ℕ)
        → ((p : ℕ)
            → o ≡ some p
            → P (
              commit s tab (moved_to p (moving_rows s tab indices) (staying_rows s tab indices)),
              range p (length (moving_rows s tab indices)),
            ))
        → P (place s tab (moving_rows s tab indices) (staying_rows s tab indices) o)
    placed none f = unfold place in stay
    placed (some p) f =
        unfold place in
        if_both P
          (same (moved_to p (moving_rows s tab indices) (staying_rows s tab indices))
            (s.tab_entries tab))
          stay (λ _. f p refl)
