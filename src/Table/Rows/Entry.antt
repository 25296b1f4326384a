-- ===== src/Table/Rows/Entry.antt =====
-- core/memstore.go and core/entry_undo.go: the entry that an index and a text lead to.
use mathlib.Core.List.{
  Nodup, Nodup-cons, Mem, mem-cons, mem-cons_self, mem-cons_of_mem, not-mem-nil,
}
use mathlib.Core.Logic.Or
use text.Mathlib.TextEquality.{IsScalar-prop}
use vair.Base.{
  ℕ, zero, suc, ◌≡◌, ◌≢◌, inl, inr, refl, subst, List, [], ◌∷◌, none, some, String, ◌==◌, ==_iff,
  arith, Bool-cases, Option-cases, get_elem?, map,
}
use vair.Table.{Row, Table, index_of}
use vair.Table.Rows.{by_index, choose, resolve, resolve_rows, find_index, mem_entry, entry_for}
use vair.Table.Rows.Laws.{choose-StandsFor}

get_elem?-Mem : (xs : List ℕ) (i e : ℕ) → get_elem? xs i ≡ some e → Mem e xs
get_elem?-Mem [] i e h = absurd (ground arith)
get_elem?-Mem (x ∷ xs) zero e h =
    let q : x ≡ e = ground arith in subst (λ y. Mem y (x ∷ xs)) q mem-cons_self
get_elem?-Mem (x ∷ xs) (suc i) e h = mem-cons_of_mem x (get_elem?-Mem xs i e h)

find_index_lem :
    (cell : ℕ → Row) (src : List ℕ) (idx e : ℕ)
    → find_index cell src idx ≡ some e
    → Mem e src × (index_of cell e ≡ idx)
unfolding find_index
find_index_lem cell [] idx e h = absurd (ground arith)
find_index_lem cell (x ∷ xs) idx e h = elim (Bool-cases ((cell x).index == idx)) [
  | inl hit ↦
      let q : x ≡ e = ground arith in
      subst (λ y. Mem y (x ∷ xs) × (index_of cell y ≡ idx)) q (mem-cons_self, (==_iff _ idx).0 hit)
  | inr miss ↦
      let (here, at_idx) = find_index_lem cell xs idx e (ground arith) in
      (mem-cons_of_mem x here, at_idx)
]

-- `memEntry` answers with an entry of the tab that has the index asked for.
mem_entry_lem :
    (s : Table) (tab : String) (idx e : ℕ)
    → mem_entry s tab idx ≡ some e
    → Mem e (s.tab_entries tab) × (index_of s.cell e ≡ idx)
unfolding mem_entry
mem_entry_lem s tab idx e h = elim (Option-cases (get_elem? (s.tab_entries tab) idx)) [
  | inl out ↦ find_index_lem s.cell (s.tab_entries tab) idx e (ground arith)
  | inr (x, here) ↦ elim (Bool-cases ((s.cell x).index == idx)) [
    | inl hit ↦
        let q : x ≡ e = ground arith in
        subst (λ y. Mem y (s.tab_entries tab) × (index_of s.cell y ≡ idx)) q
          (get_elem?-Mem (s.tab_entries tab) idx x here, (==_iff _ idx).0 hit)
    | inr miss ↦ find_index_lem s.cell (s.tab_entries tab) idx e (ground arith)
  ]
]

by_index-none :
    (cell : ℕ → Row) (src : List ℕ) (k : ℕ)
    → ¬ Mem k (map (index_of cell) src)
    → by_index cell src k ≡ none
unfolding by_index
by_index-none cell [] k h = refl
by_index-none cell (x ∷ xs) k h =
    let rest = by_index-none cell xs k (λ r. h (mem-cons_of_mem _ r)) in
    let other : index_of cell x ≢ k =
      λ q. h (subst (λ y. Mem y (map (index_of cell) (x ∷ xs))) q mem-cons_self) in
    rw rest (ground arith)

-- With different indices `byIdx` holds each entry's text under its index.
by_index_lem :
    (cell : ℕ → Row) (src : List ℕ) (e : ℕ)
    → Nodup (map (index_of cell) src)
    → Mem e src
    → by_index cell src (index_of cell e) ≡ some (cell e).raw
unfolding by_index
by_index_lem cell [] e d r = absurd (not-mem-nil r)
by_index_lem cell (x ∷ xs) e d r =
    let (new, rest) = Nodup-cons.0 d in
    Or.elim (hlevel IsScalar-prop) (mem-cons.0 r)
      (λ q. first_row q (by_index-none cell xs (index_of cell x) new))
      (λ q. by_index_later (by_index_lem cell xs e rest q))
  where
    first_row :
        e ≡ x
        → by_index cell xs (index_of cell x) ≡ none
        → by_index cell (x ∷ xs) (index_of cell e) ≡ some (cell e).raw
    first_row q none_later = ground arith

    by_index_later :
        by_index cell xs (index_of cell e) ≡ some (cell e).raw
        → by_index cell (x ∷ xs) (index_of cell e) ≡ some (cell e).raw
    by_index_later q = rw q refl

resolve_one :
    (cell : ℕ → Row) (src : List ℕ) (idx c : ℕ) (raw : String)
    → choose cell src idx raw [] ≡ some c
    → resolve cell src (idx ∷ []) (raw ∷ []) [] ≡ c ∷ []
unfolding resolve
resolve_one cell src idx c raw e = ground arith

resolve-none :
    (cell : ℕ → Row) (src : List ℕ) (idx : ℕ) (raw : String)
    → choose cell src idx raw [] ≡ none
    → resolve cell src (idx ∷ []) (raw ∷ []) [] ≡ []
unfolding resolve
resolve-none cell src idx raw e = ground arith

-- An action on a row acts on the configuration that the table showed, wherever a refresh has put
-- it since: the entry that `entryFor` answers with is of the tab and has that text, if the tab's
-- indices are different and the text is not empty.
pub entry_for_raw :
    (s : Table) (tab : String) (idx : ℕ) (raw : String) (e : ℕ)
    → Nodup (map (index_of s.cell) (s.tab_entries tab))
    → raw ≢ ""
    → entry_for s tab idx raw ≡ some e
    → Mem e (s.tab_entries tab) × ((s.cell e).raw ≡ raw)
unfolding entry_for resolve_rows
entry_for_raw s tab idx raw e d named h =
    elim (Option-cases (choose s.cell (s.tab_entries tab) idx raw [])) [
      | inl out ↦ absurd (ground (arith, resolve-none s.cell (s.tab_entries tab) idx raw out))
      | inr (c, chosen) ↦
          let (found, _, _) = choose-StandsFor s.cell (s.tab_entries tab) idx raw [] c chosen in
          let (r, row, text) = found in
          let entry : mem_entry s tab c ≡ some e =
            ground (arith, resolve_one s.cell (s.tab_entries tab) idx c raw chosen) in
          let (here, at_c) = mem_entry_lem s tab c e entry in
          let same = by_index_lem s.cell (s.tab_entries tab) e d here in
          (here, ground (arith, at_c, same, row, text))
    ]
