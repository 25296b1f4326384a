-- ===== src/Table/Rows/Laws.antt =====
-- The rows found are the ones that were shown.
use vair.Base.{
  ℕ, ◌≡◌, ◌⊎◌, inl, inr, refl, subst, Bool, true, false, not, ◌&&◌, List, [], ◌∷◌, Option, none,
  some, String, ==_iff, arith, Bool-cases, Option-cases, member, select, map, All,
}
use vair.Table.{Row, Table, index_of, ◌===◌, ===_iff}
use vair.Table.Rows.{
  by_index, agrees, has_raw, by_raw, first_unused, choose, head_or_empty, tail, resolve,
  resolve_rows,
}

-- The index stands for the pair: its row has the pair's text, or the pair has none and it is the
-- pair's own index. It was not used before, and it is the pair's own where that still has the text.
abbrev pub StandsFor : (ℕ → Row) → List ℕ → ℕ → String → List ℕ → ℕ → Type 0
StandsFor cell src idx raw used c =
    ((r : String) × (by_index cell src c ≡ some r) × (((raw ≡ "") × (c ≡ idx)) ⊎ (r ≡ raw)))
    × (member c used ≡ false)
    × (by_index cell src idx ≡ some raw → member idx used ≡ false → c ≡ idx)

-- Nothing is left that the pair could stand for.
abbrev pub Gone : (ℕ → Row) → List ℕ → ℕ → String → List ℕ → Type 0
Gone cell src idx raw used =
    ((raw ≡ "") × ((by_index cell src idx ≡ none) ⊎ (member idx used ≡ true)))
    ⊎ All (λ c. member c used ≡ true) (by_raw cell src raw)

first_unused_lem :
    (cs used : List ℕ) (c : ℕ)
    → first_unused cs used ≡ some c
    → (member c cs ≡ true) × (member c used ≡ false)
unfolding first_unused
first_unused_lem [] used c h = cc
first_unused_lem (x ∷ xs) used c h = ground (arith, first_unused_lem xs used c)

pub first_unused-none :
    (cs used : List ℕ) → first_unused cs used ≡ none → All (λ c. member c used ≡ true) cs
unfolding first_unused
first_unused-none [] used h = tt
first_unused-none (x ∷ xs) used h = ground (arith, first_unused-none xs used)

member-select : (p : ℕ → Bool) (xs : List ℕ) (c : ℕ) → member c (select p xs) ≡ true → p c ≡ true
member-select p [] c h = cc
member-select p (x ∷ xs) c h = elim (Bool-cases (p x)) [
  | inl e ↦ ground (arith, member-select p xs c, ==_iff x c)
  | inr e ↦ ground (arith, member-select p xs c)
]

has_raw_row :
    (cell : ℕ → Row) (src : List ℕ) (raw : String) (c : ℕ)
    → raw === "" ≡ false
    → has_raw (by_index cell src c) raw ≡ true
    → (r : String) × (by_index cell src c ≡ some r) × (r ≡ raw)
has_raw_row cell src raw c named h = elim (Option-cases (by_index cell src c)) [
  | inl e ↦ absurd (ground (arith, ===_iff "" raw, ===_iff raw ""))
  | inr (r, e) ↦ (r, e, (===_iff r raw).0 (rw e at h))
]

agrees_row :
    (cell : ℕ → Row) (src : List ℕ) (raw : String) (c : ℕ)
    → agrees (by_index cell src c) raw ≡ true
    → (r : String) × (by_index cell src c ≡ some r) × ((raw ≡ "") ⊎ (r ≡ raw))
agrees_row cell src raw c h = elim (Option-cases (by_index cell src c)) [
  | inl e ↦ absurd (ground arith)
  | inr (r, e) ↦ (r, e, ground (arith, ===_iff r raw, ===_iff raw ""))
]

pub choose-StandsFor :
    (cell : ℕ → Row) (src : List ℕ) (idx : ℕ) (raw : String) (used : List ℕ) (c : ℕ)
    → choose cell src idx raw used ≡ some c
    → StandsFor cell src idx raw used c
unfolding choose
choose-StandsFor cell src idx raw used c h =
    elim (Bool-cases (agrees (by_index cell src idx) raw && not (member idx used))) [
      | inl e ↦
          let q : idx ≡ c = ground arith in
          let (r, row, text) = agrees_row cell src raw idx (ground arith) in
          subst (λ k. StandsFor cell src idx raw used k) q
            ((r, row, ground arith), ground arith, λ _ _. refl)
      | inr e ↦ elim (Bool-cases (raw === "")) [
        | inl n ↦ absurd (ground arith)
        | inr n ↦
            let (here, fresh) = first_unused_lem (by_raw cell src raw) used c (ground arith) in
            let passes =
              member-select (λ k. has_raw (by_index cell src k) raw) (map (index_of cell) src) c
                here in
            let (r, row, text) = has_raw_row cell src raw c n passes in
            ((r, row, inr text), fresh, λ still unused. absurd (ground (arith, ===_iff raw raw)))
      ]
    ]

index_gone :
    (cell : ℕ → Row) (src : List ℕ) (idx : ℕ) (raw : String) (used : List ℕ)
    → agrees (by_index cell src idx) raw && not (member idx used) ≡ false
    → raw === "" ≡ true
    → (by_index cell src idx ≡ none) ⊎ (member idx used ≡ true)
index_gone cell src idx raw used h n = elim (Option-cases (by_index cell src idx)) [
  | inl e ↦ inl e
  | inr (r, e) ↦ inr (ground arith)
]

choose-Gone :
    (cell : ℕ → Row) (src : List ℕ) (idx : ℕ) (raw : String) (used : List ℕ)
    → choose cell src idx raw used ≡ none
    → Gone cell src idx raw used
unfolding choose
choose-Gone cell src idx raw used h =
    elim (Bool-cases (agrees (by_index cell src idx) raw && not (member idx used))) [
      | inl e ↦ absurd (ground arith)
      | inr e ↦ elim (Bool-cases (raw === "")) [
        | inl n ↦ inl ((===_iff raw "").0 n, index_gone cell src idx raw used e n)
        | inr n ↦ inr (first_unused-none (by_raw cell src raw) used (ground arith))
      ]
    ]

-- What each pair became: an index that stands for it and was not used before, or nothing.
abbrev pub Picks : (ℕ → Row) → List ℕ → List ℕ → List String → List ℕ → List ℕ → Type 0
Picks cell src [] raws used result = result ≡ []
Picks cell src (i ∷ is) raws used result =
    (Gone cell src i (head_or_empty raws) used × Picks cell src is (tail raws) used result)
    ⊎ ((c : ℕ) × (rest : List ℕ) × (result ≡ c ∷ rest)
        × StandsFor cell src i (head_or_empty raws) used c
        × Picks cell src is (tail raws) (c ∷ used) rest)

resolve-Picks :
    (cell : ℕ → Row) (src is : List ℕ) (raws : List String) (used : List ℕ)
    → Picks cell src is raws used (resolve cell src is raws used)
unfolding resolve
resolve-Picks cell src [] raws used = refl
resolve-Picks cell src (i ∷ is) raws used =
    pick (choose cell src i (head_or_empty raws) used) refl
      (resolve-Picks cell src is (tail raws) used)
      (λ c. resolve-Picks cell src is (tail raws) (c ∷ used))
  where
    pick :
        (o : Option ℕ)
        → choose cell src i (head_or_empty raws) used ≡ o
        → Picks cell src is (tail raws) used (resolve cell src is (tail raws) used)
        → ((c : ℕ)
            → Picks cell src is (tail raws) (c ∷ used) (resolve cell src is (tail raws) (c ∷ used)))
        → Picks cell src (i ∷ is) raws used (elim o [
          | none ↦ resolve cell src is (tail raws) used
          | some c ↦ c ∷ resolve cell src is (tail raws) (c ∷ used)
        ])
    pick none e skipped taken = inl (choose-Gone cell src i (head_or_empty raws) used e, skipped)
    pick (some c) e skipped taken = inr (
      c,
      resolve cell src is (tail raws) (c ∷ used),
      refl,
      choose-StandsFor cell src i (head_or_empty raws) used c e,
      taken c,
    )

-- Every pair of an index and a text becomes, in order, an index of the tab whose row has that
-- text, not used for a pair before it, and the pair's own index where that row still has the
-- text and is unused; a pair with no text becomes its own index. A pair is dropped only if every
-- row with its text is used, or if it has no text and its index is gone or used.
pub resolve_rows-Picks :
    (s : Table) (tab : String) (indices : List ℕ) (raws : List String)
    → Picks s.cell (s.tab_entries tab) indices raws [] (resolve_rows s tab indices raws)
unfolding resolve_rows
resolve_rows-Picks s tab indices raws = resolve-Picks s.cell (s.tab_entries tab) indices raws []
