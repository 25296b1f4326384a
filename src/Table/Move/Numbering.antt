-- ===== src/Table/Move/Numbering.antt =====
-- What `MoveEntries` does to the rows that it numbers again.
use mathlib.Core.List.{Nodup, Nodup-cons, Mem, mem-cons_self, mem-cons_of_mem}
use vair.Base.{ℕ, suc, ◌≡◌, ◌≢◌, refl, ap, subst, ◌∙◌, List, [], ◌∷◌, arith}
use vair.Table.{Row, index_of}
use vair.Table.Move.{put_index, note_index, renumber}

-- The rows of a list have the indices from `i` on, in order.
abbrev pub Numbers : (ℕ → Row) → List ℕ → ℕ → Type 0
Numbers cell [] i = Unit {0}
Numbers cell (e ∷ es) i = (index_of cell e ≡ i) × Numbers cell es (suc i)

pub put_index_self : (cell : ℕ → Row) (e i : ℕ) → index_of (put_index cell e i) e ≡ i
unfolding put_index
put_index_self cell e i = ground arith

pub put_index_other : (cell : ℕ → Row) (x i e : ℕ) → e ≢ x → put_index cell x i e ≡ cell e
unfolding put_index
put_index_other cell x i e h = ground arith

-- The content of a row, and another index.
abbrev pub with_index : Row → ℕ → Row
with_index r i = record r { index = i }

put_index_content :
    (cell : ℕ → Row) (x i e : ℕ)
    → put_index cell x i e ≡ with_index (cell e) (index_of (put_index cell x i) e)
unfolding put_index
put_index_content cell x i e = ground arith

pub renumber_outside :
    (cell : ℕ → Row) (es : List ℕ) (i : ℕ) (m : List (ℕ × ℕ)) (e : ℕ)
    → ¬ Mem e es
    → (renumber cell es i m).0 e ≡ cell e
unfolding renumber
renumber_outside cell [] i m e h = refl
renumber_outside cell (x ∷ xs) i m e h =
    renumber_outside (put_index cell x i) xs (suc i) (note_index cell x i m) e
      (λ r. h (mem-cons_of_mem x r))
    ∙ put_index_other cell x i e (λ q. h (subst (λ y. Mem e (y ∷ xs)) q mem-cons_self))

-- Only indices change.
pub renumber_content :
    (cell : ℕ → Row) (es : List ℕ) (i : ℕ) (m : List (ℕ × ℕ)) (e : ℕ)
    → (renumber cell es i m).0 e ≡ with_index (cell e) (index_of (renumber cell es i m).0 e)
unfolding renumber
renumber_content cell [] i m e = refl
renumber_content cell (x ∷ xs) i m e =
    let new = (renumber (put_index cell x i) xs (suc i) (note_index cell x i m)).0 in
    renumber_content (put_index cell x i) xs (suc i) (note_index cell x i m) e
    ∙ ap (λ r. with_index r (index_of new e)) (put_index_content cell x i e)

pub renumber-Numbers :
    (cell : ℕ → Row) (es : List ℕ) (i : ℕ) (m : List (ℕ × ℕ))
    → Nodup es
    → Numbers (renumber cell es i m).0 es i
unfolding renumber
renumber-Numbers cell [] i m d = tt
renumber-Numbers cell (x ∷ xs) i m d =
    let (new, rest) = Nodup-cons.0 d in
    (
      ap (λ r. r.index)
            (renumber_outside (put_index cell x i) xs (suc i) (note_index cell x i m) x new)
          ∙ put_index_self cell x i,
      renumber-Numbers (put_index cell x i) xs (suc i) (note_index cell x i m) rest,
    )
