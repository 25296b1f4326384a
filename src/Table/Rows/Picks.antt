-- ===== src/Table/Rows/Picks.antt =====
-- What the rows found again are, by the rows themselves.
use vair.Base.{
  ℕ, ◌≡◌, ◌≢◌, ◌⊎◌, inl, inr, refl, ap, ◌∙◌, Bool, true, false, List, [], ◌∷◌, none, some, String,
  ◌==◌, arith, Bool-cases, Option-cases, member, select, map, All, subst,
}
use vair.Table.{Row, Table, index_of, ===_iff}
use vair.Table.Rows.{by_index, has_raw, head_or_empty, tail, resolve_rows}
use vair.Table.Rows.Laws.{StandsFor, Gone, Picks, resolve_rows-Picks}

module _ (cell : ℕ → Row) where
  -- The last row with the index has the text.
  abbrev pub IsTextAt : List ℕ → ℕ → String → Type 0
  IsTextAt [] c r = ⊥
  IsTextAt (e ∷ es) c r =
      IsTextAt es c r
      ⊎ (((cell e).index ≡ c) × ((cell e).raw ≡ r) × All (λ d. (cell d).index ≢ c) es)

  by_index-none :
      (es : List ℕ) (c : ℕ) → by_index cell es c ≡ none → All (λ d. (cell d).index ≢ c) es
  unfolding by_index
  by_index-none [] c h = tt
  by_index-none (e ∷ es) c h = elim (Option-cases (by_index cell es c)) [
    | inl k ↦ elim (Bool-cases ((cell e).index == c)) [
      | inl q ↦ absurd (ground (arith, h, k, q))
      | inr q ↦ (λ same_index. absurd (ground (arith, q, same_index)), by_index-none es c k)
    ]
    | inr (r, k) ↦ absurd (ground (arith, h, k))
  ]

  absent-by_index :
      (es : List ℕ) (c : ℕ) → All (λ d. (cell d).index ≢ c) es → by_index cell es c ≡ none
  unfolding by_index
  absent-by_index [] c h = refl
  absent-by_index (e ∷ es) c h =
      let other : (cell e).index == c ≡ false = elim (Bool-cases ((cell e).index == c)) [
        | inl q ↦ absurd (h.0 (ground (arith, q)))
        | inr q ↦ q
      ] in
      rw (absent-by_index es c h.1, other) refl

  text_at : (es : List ℕ) (c : ℕ) (r : String) → by_index cell es c ≡ some r → IsTextAt es c r
  unfolding by_index
  text_at [] c r h = absurd (ground (arith, h))
  text_at (e ∷ es) c r h = elim (Option-cases (by_index cell es c)) [
    | inl k ↦ elim (Bool-cases ((cell e).index == c)) [
      | inl q ↦ inr (ground (arith, q), ground (arith, h, k, q), by_index-none es c k)
      | inr q ↦ absurd (ground (arith, h, k, q))
    ]
    | inr (t, k) ↦ inl (text_at es c r (k ∙ ground (arith, h, k)))
  ]

  at_text : (es : List ℕ) (c : ℕ) (r : String) → IsTextAt es c r → by_index cell es c ≡ some r
  unfolding by_index
  at_text [] c r h = absurd h
  at_text (e ∷ es) c r (inl h) = rw (at_text es c r h) refl
  at_text (e ∷ es) c r (inr (index, raw, last)) =
      let hit : (cell e).index == c ≡ true = ground (arith, index) in
      rw (absent-by_index es c last, hit, raw) refl

  -- An index that a row has is among the rows' indices.
  at_index :
      (es : List ℕ) (c : ℕ) (r : String)
      → IsTextAt es c r
      → member c (map (index_of cell) es) ≡ true
  at_index [] c r h = absurd h
  at_index (e ∷ es) c r (inl h) = ground (arith, at_index es c r h)
  at_index (e ∷ es) c r (inr (index, raw, last)) = ground (arith, index)

  module _ (src : List ℕ) where
    -- The index stands for the pair: its row has the pair's text, or the pair has none and it is the
    -- pair's own index. It was not used before, and it is the pair's own where that still has the text.
    abbrev pub IsFound : ℕ → String → List ℕ → ℕ → Type 0
    IsFound idx raw used c =
        ((r : String) × IsTextAt src c r × (((raw ≡ "") × (c ≡ idx)) ⊎ (r ≡ raw)))
        × (member c used ≡ false)
        × (IsTextAt src idx raw → member idx used ≡ false → c ≡ idx)

    -- No index is left that the pair could stand for.
    abbrev pub IsLost : ℕ → String → List ℕ → Type 0
    IsLost idx raw used =
        ((raw ≡ "") × (((r : String) → ¬ IsTextAt src idx r) ⊎ (member idx used ≡ true)))
        ⊎ ((c : ℕ) → IsTextAt src c raw → member c used ≡ true)

    -- What the pairs became, in order.
    abbrev pub Follows : List ℕ → List String → List ℕ → List ℕ → Type 0
    Follows [] raws used result = result ≡ []
    Follows (i ∷ is) raws used result =
        (IsLost i (head_or_empty raws) used × Follows is (tail raws) used result)
        ⊎ ((c : ℕ) × (rest : List ℕ) × (result ≡ c ∷ rest)
            × IsFound i (head_or_empty raws) used c
            × Follows is (tail raws) (c ∷ used) rest)

    found :
        (idx : ℕ) (raw : String) (used : List ℕ) (c : ℕ)
        → StandsFor cell src idx raw used c
        → IsFound idx raw used c
    found idx raw used c ((r, row, why), fresh, own) =
        ((r, text_at src c r row, why), fresh, λ t. own (at_text src idx raw t))

    All-used :
        (p : ℕ → Bool) (used xs : List ℕ) (c : ℕ)
        → All (λ x. member x used ≡ true) (select p xs)
        → member c xs ≡ true
        → p c ≡ true
        → member c used ≡ true
    All-used p used [] c all h k = cc
    All-used p used (x ∷ xs) c all h k = elim (Bool-cases (x == c)) [
      | inl e ↦
          let q : x ≡ c = ground (arith, e) in
          let kept : p x ≡ true = rw q k in subst (λ y. member y used ≡ true) q (rw kept at all).0
      | inr e ↦
          let later : member c xs ≡ true = ground (arith, e, h) in
          elim (Bool-cases (p x)) [
            | inl kept ↦ All-used p used xs c (rw kept at all).1 later k
            | inr dropped ↦ All-used p used xs c (rw dropped at all) later k
          ]
    ]

    lost :
        (idx : ℕ) (raw : String) (used : List ℕ) → Gone cell src idx raw used → IsLost idx raw used
    lost idx raw used (inl (empty, inl gone)) =
        inl (empty, inl (λ r t. absurd (ground (arith, gone, at_text src idx r t))))
    lost idx raw used (inl (empty, inr taken)) = inl (empty, inr taken)
    lost idx raw used (inr all) = inr (λ c t.
        All-used (λ k. has_raw (by_index cell src k) raw) used (map (index_of cell) src) c all
          (at_index src c raw t)
          (ap (λ o. has_raw o raw) (at_text src c raw t) ∙ (===_iff raw raw).1 refl))

    follows :
        (is : List ℕ) (raws : List String) (used result : List ℕ)
        → Picks cell src is raws used result
        → Follows is raws used result
    follows [] raws used result h = h
    follows (i ∷ is) raws used result (inl (gone, rest)) =
        inl (lost i (head_or_empty raws) used gone, follows is (tail raws) used result rest)
    follows (i ∷ is) raws used result (inr (c, rest, equal, stands, more)) = inr (
      c,
      rest,
      equal,
      found i (head_or_empty raws) used c stands,
      follows is (tail raws) (c ∷ used) rest more,
    )

-- Every pair of an index and a text becomes, in order, an index of the tab whose row has that
-- text, not used for a pair before it, and the pair's own index where that row still has the
-- text and is unused; a pair with no text becomes its own index. A pair is dropped only if every
-- index whose row has its text is used, or if it has no text and its index is gone or used. Where
-- rows share an index, the last of them is its row.
pub resolve_rows-Follows :
    (s : Table) (tab : String) (indices : List ℕ) (raws : List String)
    → Follows s.cell (s.tab_entries tab) indices raws [] (resolve_rows s tab indices raws)
resolve_rows-Follows s tab indices raws =
    follows s.cell (s.tab_entries tab) indices raws [] (resolve_rows s tab indices raws)
      (resolve_rows-Picks s tab indices raws)
