-- ===== src/Table/Move/Places.antt =====
-- Where `MoveEntries` puts the rows, and what it returns.
use vair.Base.{
  ℕ, zero, suc, ◌+◌, ◌≤◌, ◌≡◌, ◌≢◌, refl, ap, subst, inl, inr, Bool, true, false, List, [], ◌∷◌,
  ◌++◌, append_assoc, append-nil, some, ◌⊎◌, String, if◌then◌else◌, ◌==◌, ==_iff, arith, Bool-cases,
  length, length-append, length-take, take, drop, take_all, drop_all, range, ℤ, pos, negsuc,
  get_elem?, map,
}
use vair.Table.{Row, Table, index_of}
use vair.Table.Move.{find_row, position, moving_rows, staying_rows, move_entries}
use vair.Table.Move.Cases.{moved_to, move_cases}
use vair.Table.Move.Laws.{after_move, commit_list}

-- `rest` parted at the row that `find_row` finds.
abbrev Found : (ℕ → Row) → List ℕ → ℕ → Bool → ℕ → ℕ → Type 0
Found cell rest t after i p =
    (front : List ℕ) × (row : ℕ) × (back : List ℕ) × (rest ≡ front ++ row ∷ back)
    × (index_of cell row ≡ t)
    × (p ≡ i + length front + (if after then 1 else 0))

find_row_lem :
    (cell : ℕ → Row) (rest : List ℕ) (t i p : ℕ) (after : Bool)
    → find_row cell rest t after i ≡ some p
    → Found cell rest t after i p
unfolding find_row
find_row_lem cell [] t i p after h = cc
find_row_lem cell (e ∷ es) t i p after h = elim (Bool-cases ((cell e).index == t)) [
  | inl hit ↦ ([], e, es, refl, (==_iff _ t).0 hit, ground arith)
  | inr miss ↦
      let (front, row, back, parts, at_t, place) =
        find_row_lem cell es t (suc i) p after (ground arith) in
      (e ∷ front, row, back, ap (λ r. e ∷ r) parts, at_t, omega arith)
]

-- The rows that move, in the order that they had, between those that stay: just before the
-- target's row, or behind it, or at the tab's start or end.
abbrev pub Placed : (ℕ → Row) → List ℕ → List ℕ → ℤ → Bool → List ℕ → Type 0
Placed cell moved rest (pos t) after new =
    (front : List ℕ) × (row : ℕ) × (back : List ℕ) × (rest ≡ front ++ row ∷ back)
    × (index_of cell row ≡ t)
    × (new ≡ (if after then front ++ row ∷ (moved ++ back) else front ++ (moved ++ row ∷ back)))
Placed cell moved rest (negsuc zero) after new = new ≡ rest ++ moved
Placed cell moved rest (negsuc (suc zero)) after new = new ≡ moved ++ rest
Placed cell moved rest (negsuc (suc (suc n))) after new = new ≡ rest ++ moved

behind_front :
    (front : List ℕ) (row : ℕ) (back moved : List ℕ) (after : Bool) (p : ℕ)
    → p ≡ 0 + length front + (if after then 1 else 0)
    → moved_to p moved (front ++ row ∷ back)
      ≡ (if after then front ++ row ∷ (moved ++ back) else front ++ (moved ++ row ∷ back))
behind_front front row back moved false p e =
    let q : p ≡ length front = omega arith in
    rw (q, take_all front (row ∷ back), drop_all front (row ∷ back)) refl
behind_front front row back moved true p e =
    let q : p ≡ length (front ++ row ∷ []) = omega (arith, length-append front (row ∷ [])) in
    rw
      (
        q,
        ← append_assoc front (row ∷ []) back,
        take_all (front ++ row ∷ []) back,
        drop_all (front ++ row ∷ []) back,
        append_assoc front (row ∷ []) (moved ++ back),
      )
      refl

at_end : (moved rest : List ℕ) → moved_to (length rest) moved rest ≡ rest ++ moved
at_end moved rest =
    let t : take (length rest) rest ≡ rest = rw append-nil at (take_all rest []) in
    let d : drop (length rest) rest ≡ [] = rw append-nil at (drop_all rest []) in
    rw (t, d, append-nil) refl

pub position-Placed :
    (cell : ℕ → Row) (moved rest : List ℕ) (target : ℤ) (after : Bool) (p : ℕ)
    → position cell rest target after ≡ some p
    → Placed cell moved rest target after (moved_to p moved rest)
unfolding position
position-Placed cell moved rest (pos t) after p h =
    let (front, row, back, parts, at_t, place) = find_row_lem cell rest t 0 p after h in
    (front, row, back, parts, at_t, rw parts (behind_front front row back moved after p place))
position-Placed cell moved rest (negsuc zero) after p h =
    let q : length rest ≡ p = ground arith in
    subst (λ k. moved_to k moved rest ≡ rest ++ moved) q (at_end moved rest)
position-Placed cell moved rest (negsuc (suc zero)) after p h =
    let q : 0 ≡ p = ground arith in subst (λ k. moved_to k moved rest ≡ moved ++ rest) q refl
position-Placed cell moved rest (negsuc (suc (suc n))) after p h =
    let q : length rest ≡ p = ground arith in
    subst (λ k. moved_to k moved rest ≡ rest ++ moved) q (at_end moved rest)

position_le :
    (cell : ℕ → Row) (rest : List ℕ) (target : ℤ) (after : Bool) (p : ℕ)
    → position cell rest target after ≡ some p
    → p ≤ length rest
unfolding position
position_le cell rest (pos t) after p h =
    let (front, row, back, parts, at_t, place) = find_row_lem cell rest t 0 p after h in
    ground (arith, ap length parts, length-append front (row ∷ back))
position_le cell rest (negsuc zero) after p h = ground arith
position_le cell rest (negsuc (suc zero)) after p h = ground arith
position_le cell rest (negsuc (suc (suc n))) after p h = ground arith

get_behind : (xs : List ℕ) (m : ℕ) (ys : List ℕ) → get_elem? (xs ++ m ∷ ys) (length xs) ≡ some m
get_behind [] m ys = refl
get_behind (x ∷ xs) m ys = get_behind xs m ys

read_block :
    (xs ms ys : List ℕ)
    → map (get_elem? (xs ++ (ms ++ ys))) (range (length xs) (length ms)) ≡ map some ms
read_block xs [] ys = refl
read_block xs (m ∷ ms) ys =
    let next : suc (length xs) ≡ length (xs ++ m ∷ []) = omega (arith, length-append xs (m ∷ [])) in
    let rest = read_block (xs ++ m ∷ []) ms ys in
    rw (get_behind xs m (ms ++ ys), next)
      (ap (λ r. some m ∷ r) (rw (append_assoc xs (m ∷ []) (ms ++ ys)) at rest))

-- What a drag that moves something does: the rows named move together, in the order that they had,
-- to just before the target's row, or behind it, or to the start or the end of the tab; the other
-- rows keep their order; and the indices returned are the places at which the moved rows now
-- stand. A drag that moves nothing leaves the whole state as it was.
pub move_entries-Placed :
    (s : Table) (tab : String) (indices : List ℕ) (target : ℤ) (after : Bool)
    → let moved = moving_rows s tab indices in
      let new = (after_move s tab indices target after).tab_entries tab in
      let result = (move_entries s tab indices target after).1 in
      (((result ≡ []) × (after_move s tab indices target after ≡ s))
        ⊎ (Placed s.cell moved (staying_rows s tab indices) target after new
            × (map (get_elem? new) result ≡ map some moved)
            × (moved ≢ [])))
move_entries-Placed s tab indices target after =
    move_cases
      (λ r.
        ((r.1 ≡ []) × (r.0 ≡ s))
        ⊎ (Placed s.cell (moving_rows s tab indices) (staying_rows s tab indices) target after
              (r.0.tab_entries tab)
            × (map (get_elem? (r.0.tab_entries tab)) r.1 ≡ map some (moving_rows s tab indices))
            × (moving_rows s tab indices ≢ [])))
      s tab indices target after (inl (refl, refl))
      (λ p at_p some_moved.
        let moved = moving_rows s tab indices in
        let rest = staying_rows s tab indices in
        let front : length (take p rest) ≡ p =
          length-take p rest (position_le s.cell rest target after p at_p) in
        inr (
          rw (commit_list s tab (moved_to p moved rest))
              (position-Placed s.cell moved rest target after p at_p),
          rw (commit_list s tab (moved_to p moved rest))
              (rw front at (read_block (take p rest) moved (drop p rest))),
          (λ e. ground (arith)),
        ))
