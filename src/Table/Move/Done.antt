-- ===== src/Table/Move/Done.antt =====
-- When `MoveEntries` moves rows.
use vair.Base.{
  ℕ, zero, suc, ◌≡◌, ◌≢◌, refl, sym, inl, inr, Bool, true, false, ◌||◌, List, [], ◌∷◌, some, String,
  ◌==◌, arith, Bool-cases, is_empty, same, same_eq, ℤ, pos, negsuc, select, member, map,
}
use vair.Table.{Table, Row, index_of, ◌===◌, ===_iff}
use vair.Table.Move.{
  find_row, position, place, bulk_test_on_tab, onto_moving, moving_rows, staying_rows, move_entries,
}
use vair.Table.Move.Cases.{moved_to}
use vair.Table.Move.Laws.{after_move, commit_list}
use vair.Table.Move.Places.{Placed, position-Placed}

select_none : (xs : List ℕ) → select (λ _. false) xs ≡ []
select_none [] = refl
select_none (x ∷ xs) = select_none xs

some_index :
    (s : Table) (tab : String) (indices : List ℕ)
    → is_empty (moving_rows s tab indices) ≡ false
    → is_empty indices ≡ false
some_index s tab [] h = absurd (ground (arith, h, select_none (s.tab_entries tab)))
some_index s tab (i ∷ is) h = refl

-- The target is a row that stays, or the tab's start or end.
abbrev pub TargetStays : (ℕ → Row) → List ℕ → ℤ → Type 0
TargetStays cell rest (pos t) = member t (map (index_of cell) rest) ≡ true
TargetStays cell rest (negsuc n) = Unit {0}

find_row-some :
    (cell : ℕ → Row) (rest : List ℕ) (t : ℕ) (after : Bool) (i : ℕ)
    → member t (map (index_of cell) rest) ≡ true
    → (p : ℕ) × (find_row cell rest t after i ≡ some p)
unfolding find_row
find_row-some cell [] t after i m = absurd (ground (arith, m))
find_row-some cell (x ∷ xs) t after i m = elim (Bool-cases (index_of cell x == t)) [
  | inl hit ↦ rw hit (_, refl)
  | inr miss ↦ rw miss (find_row-some cell xs t after (suc i) (ground arith))
]

position-some :
    (cell : ℕ → Row) (rest : List ℕ) (target : ℤ) (after : Bool)
    → TargetStays cell rest target
    → (p : ℕ) × (position cell rest target after ≡ some p)
unfolding position
position-some cell rest (pos t) after m = find_row-some cell rest t after 0 m
position-some cell rest (negsuc zero) after m = (_, refl)
position-some cell rest (negsuc (suc zero)) after m = (_, refl)
position-some cell rest (negsuc (suc (suc n))) after m = (_, refl)

place_list :
    (s : Table) (tab : String) (moved rest : List ℕ) (p : ℕ)
    → (place s tab moved rest (some p)).0.tab_entries tab ≡ moved_to p moved rest
unfolding place
place_list s tab moved rest p =
    elim (Bool-cases (same (moved_to p moved rest) (s.tab_entries tab))) [
      | inl e ↦ rw e (sym (same_eq (moved_to p moved rest) (s.tab_entries tab) e))
      | inr e ↦ rw e (commit_list s tab (moved_to p moved rest))
    ]

moved_list :
    (s : Table) (tab : String) (indices : List ℕ) (target : ℤ) (after : Bool) (p : ℕ)
    → tab === "" || tab === "main" || is_empty indices ≡ false
    → bulk_test_on_tab s tab ≡ false
    → onto_moving target indices ≡ false
    → is_empty (moving_rows s tab indices) ≡ false
    → position s.cell (staying_rows s tab indices) target after ≡ some p
    → (move_entries s tab indices target after).0.tab_entries tab
      ≡ moved_to p (moving_rows s tab indices) (staying_rows s tab indices)
unfolding move_entries
moved_list s tab indices target after p open_ idle away some_moved at_p =
    rw (open_, idle, away, some_moved, at_p)
      (place_list s tab (moving_rows s tab indices) (staying_rows s tab indices) p)

-- A drag of rows of which one is in the tab, to a row that stays or to the tab's start or end,
-- happens, unless a bulk test runs on the tab: behind it the tab's rows are those that stay with
-- the moved ones put in, in the order that they had, at the place asked for.
move_entries_done :
    (s : Table) (tab : String) (indices : List ℕ) (target : ℤ) (after : Bool)
    → tab ≢ ""
    → tab ≢ "main"
    → bulk_test_on_tab s tab ≡ false
    → onto_moving target indices ≡ false
    → is_empty (moving_rows s tab indices) ≡ false
    → TargetStays s.cell (staying_rows s tab indices) target
    → Placed s.cell
        (moving_rows s tab indices)
        (staying_rows s tab indices)
        target
        after
        ((after_move s tab indices target after).tab_entries tab)
move_entries_done s tab indices target after named other idle away some_moved stays =
    let moved = moving_rows s tab indices in
    let rest = staying_rows s tab indices in
    let (p, at_p) = position-some s.cell rest target after stays in
    let name : tab === "" ≡ false = ground (arith, ===_iff tab "") in
    let not_main : tab === "main" ≡ false = ground (arith, ===_iff tab "main") in
    let open_ : tab === "" || tab === "main" || is_empty indices ≡ false =
      ground (arith, name, not_main, some_index s tab indices some_moved) in
    let list = moved_list s tab indices target after p open_ idle away some_moved at_p in
    rw list (position-Placed s.cell moved rest target after p at_p)
