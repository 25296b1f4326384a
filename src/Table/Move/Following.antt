-- ===== src/Table/Move/Following.antt =====
-- How the connection's row follows its configuration when rows are numbered again.
use mathlib.Core.List.{
  Nodup, Nodup-cons, Mem, mem-cons_self, mem-cons_of_mem, not-mem-nil, mem-cons, mem-map_of_mem,
}
use mathlib.Core.Logic.Or
use vair.Base.{ℕ, suc, ◌≡◌, ◌≢◌, refl, sym, ap, subst, ◌∙◌, map, List, [], ◌∷◌, none, some, arith}
use vair.Table.{Row, index_of}
use vair.Table.Move.{put_index, note_index, renumber, lookup, follow}
use vair.Table.Move.Numbering.{put_index_self, put_index_other, renumber_outside}

map-put_index :
    (cell : ℕ → Row) (x i : ℕ) (es : List ℕ)
    → ¬ Mem x es
    → map (index_of (put_index cell x i)) es ≡ map (index_of cell) es
map-put_index cell x i [] h = refl
map-put_index cell x i (e ∷ es) h =
    let other : put_index cell x i e ≡ cell e =
      put_index_other cell x i e (λ q. h (subst (λ y. Mem x (y ∷ es)) (sym q) mem-cons_self)) in
    let rest = map-put_index cell x i es (λ r. h (mem-cons_of_mem e r)) in
    ground (arith, other, rest)

lookup-note_index :
    (cell : ℕ → Row) (x i k : ℕ) (m : List (ℕ × ℕ))
    → k ≢ index_of cell x
    → lookup k (note_index cell x i m) ≡ lookup k m
unfolding lookup note_index
lookup-note_index cell x i k m h = ground arith

lookup_outside :
    (cell : ℕ → Row) (es : List ℕ) (i k : ℕ) (m : List (ℕ × ℕ))
    → Nodup es
    → ¬ Mem k (map (index_of cell) es)
    → lookup k (renumber cell es i m).1 ≡ lookup k m
unfolding renumber
lookup_outside cell [] i k m d h = refl
lookup_outside cell (x ∷ xs) i k m d h =
    let (new, rest) = Nodup-cons.0 d in
    lookup_outside (put_index cell x i) xs (suc i) k (note_index cell x i m) rest
      (λ r. h (mem-cons_of_mem _ (rw (map-put_index cell x i xs new) at r)))
    ∙ lookup-note_index cell x i k m
        (λ q. h (subst (λ y. Mem k (y ∷ map (index_of cell) xs)) q mem-cons_self))

-- The first row of a list that is numbered again.
lookup_head :
    (cell : ℕ → Row) (x : ℕ) (xs : List ℕ) (i : ℕ) (m : List (ℕ × ℕ))
    → Nodup (x ∷ xs)
    → Nodup (map (index_of cell) (x ∷ xs))
    → lookup (index_of cell x) m ≡ none
    → follow (some (index_of cell x)) (renumber cell (x ∷ xs) i m).1
      ≡ some (index_of (renumber cell (x ∷ xs) i m).0 x)
unfolding renumber follow note_index
lookup_head cell x xs i m d di h =
    let (new, rest) = Nodup-cons.0 d in
    let (unlike, _) = Nodup-cons.0 di in
    let at_x : (renumber (put_index cell x i) xs (suc i) (note_index cell x i m)).0 x
        ≡ put_index cell x i x =
      renumber_outside (put_index cell x i) xs (suc i) (note_index cell x i m) x new in
    let noted =
      lookup_outside (put_index cell x i) xs (suc i) (index_of cell x) (note_index cell x i m) rest
        (λ r. unlike (rw (map-put_index cell x i xs new) at r)) in
    ground (arith, at_x, noted, put_index_self cell x i)

-- Any other row: what is shown for the rest of the list shows it for the whole.
module _ (cell : ℕ → Row) (e x : ℕ) (xs : List ℕ) (i : ℕ) (m : List (ℕ × ℕ)) (other : e ≢ x) where
  same_index : index_of (put_index cell x i) e ≡ index_of cell e
  same_index = ap (λ r. r.index) (put_index_other cell x i e other)

  noted_none :
      Nodup (map (index_of cell) (x ∷ xs))
      → Mem e xs
      → lookup (index_of cell e) m ≡ none
      → lookup (index_of (put_index cell x i) e) (note_index cell x i m) ≡ none
  noted_none di q h =
      let (unlike, _) = Nodup-cons.0 di in
      rw same_index (
        lookup-note_index cell x i (index_of cell e) m
          (λ z. unlike (subst (λ k. Mem k (map (index_of cell) xs)) z (mem-map_of_mem _ q)))
        ∙ h)

  follow_tail :
      follow
          (some (index_of (put_index cell x i) e))
          (renumber (put_index cell x i) xs (suc i) (note_index cell x i m)).1
        ≡ some (index_of (renumber (put_index cell x i) xs (suc i) (note_index cell x i m)).0 e)
      → follow (some (index_of cell e)) (renumber cell (x ∷ xs) i m).1
        ≡ some (index_of (renumber cell (x ∷ xs) i m).0 e)
  unfolding renumber
  follow_tail ih = rw same_index at ih

-- The index that a row had leads to the one that it has.
pub follow-renumber :
    (cell : ℕ → Row) (e : ℕ) (es : List ℕ) (i : ℕ) (m : List (ℕ × ℕ))
    → Nodup es
    → Nodup (map (index_of cell) es)
    → lookup (index_of cell e) m ≡ none
    → Mem e es
    → follow (some (index_of cell e)) (renumber cell es i m).1
      ≡ some (index_of (renumber cell es i m).0 e)
follow-renumber cell e [] i m d di h r = absurd (not-mem-nil r)
follow-renumber cell e (x ∷ xs) i m d di h r =
    let (new, rest) = Nodup-cons.0 d in
    Or.elim (hlevel) (mem-cons.0 r) (λ q. first_row q)
      (λ q.
        let other : e ≢ x = λ z. new (subst (λ y. Mem y xs) z q) in
        follow_tail cell e x xs i m other (
          follow-renumber (put_index cell x i) e xs (suc i) (note_index cell x i m) rest
            (rw (map-put_index cell x i xs new) (Nodup-cons.0 di).1)
            (noted_none cell e x xs i m other di q h) q))
  where
    first_row :
        e ≡ x
        → follow (some (index_of cell e)) (renumber cell (x ∷ xs) i m).1
          ≡ some (index_of (renumber cell (x ∷ xs) i m).0 e)
    first_row q = rw q (lookup_head cell x xs i m d di (rw q at h))
