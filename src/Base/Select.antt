-- ===== src/Base/Select.antt =====
-- Lists read by Boolean tests, and integers.
use Prim.Native.Nat.{ℕ, zero, suc}
use mathlib.Core.Path.{◌≡◌, refl}
use mathlib.Core.Bool.{Bool, true, false, not, ◌&&◌, ◌||◌}
use mathlib.Core.List.{List, [], ◌∷◌, ◌++◌, Perm, perm_middle, perm_append_comm, append_assoc}
use mathlib.Core.Logic.{◌⊎◌, inl, inr}
use native.Mathlib.Omega.{arith}
use mathlib.Core.Option.{Option, none, some}
use mathlib.Core.List.Perm
use vair.Base.Tests.{◌==◌, if◌then◌else◌, Bool-cases}

-- `negsuc n` is -(n + 1).
pub data ℤ : Type 0 where
  pos : ℕ → ℤ
  negsuc : ℕ → ℤ

module _ {ℓ} {A : Type ℓ} where
  abbrev pub is_empty : List A → Bool
  is_empty [] = true
  is_empty (x ∷ xs) = false

  -- The elements that pass a test, in order.
  abbrev pub select : (A → Bool) → List A → List A
  select p [] = []
  select p (x ∷ xs) = if p x then x ∷ select p xs else select p xs

  -- Those that pass and those that do not are together the list.
  pub select-perm :
      (p : A → Bool) (xs : List A) → Perm (select p xs ++ select (λ x. not (p x)) xs) xs
  select-perm p [] = Perm.refl []
  select-perm p (x ∷ xs) = elim (Bool-cases (p x)) [
    | inl e ↦ rw e (Perm.cons x (select-perm p xs))
    | inr e ↦ rw e (Perm.trans (perm_middle (select p xs) _) (Perm.cons x (select-perm p xs)))
  ]

  -- A block moved to the front.
  pub front-perm : (xs ys zs : List A) → Perm (xs ++ (ys ++ zs)) (ys ++ (xs ++ zs))
  front-perm xs ys zs =
      rw (← append_assoc xs ys zs, ← append_assoc ys xs zs)
        (Perm.append_right zs (perm_append_comm xs ys))

abbrev pub member : ℕ → List ℕ → Bool
member a [] = false
member a (x ∷ xs) = x == a || member a xs

abbrev pub same : List ℕ → List ℕ → Bool
same [] [] = true
same (x ∷ xs) (y ∷ ys) = x == y && same xs ys
same _ _ = false

-- `n` numbers from `i` on.
abbrev pub range : ℕ → ℕ → List ℕ
range i zero = []
range i (suc n) = i ∷ range (suc i) n

pub Option-cases {ℓ} : {A : Type ℓ} (o : Option A) → (o ≡ none) ⊎ ((a : A) × (o ≡ some a))
Option-cases none = inl refl
Option-cases (some a) = inr (a, refl)

pub same_eq : (s t : List ℕ) → same s t ≡ true → s ≡ t
same_eq [] [] h = refl
same_eq [] (d ∷ t) h = absurd (ground (arith, h))
same_eq (c ∷ s) [] h = absurd (ground (arith, h))
same_eq (c ∷ s) (d ∷ t) h =
    let head : c ≡ d = ground (arith, h) in
    let rest : same s t ≡ true = ground (arith, h) in rw (head, same_eq s t rest) refl

pub same_refl : (s : List ℕ) → same s s ≡ true
same_refl [] = refl
same_refl (c ∷ s) = ground (arith, same_refl s)

module _ {ℓ} {A : Type ℓ} where
  -- A result for each element, or none.
  abbrev pub cons_some : Option A → Option (List A) → Option (List A)
  cons_some none rest = none
  cons_some (some a) none = none
  cons_some (some a) (some rest) = some (a ∷ rest)

  pub cons_some_parts :
      (o : Option A) (rest : Option (List A)) (r : List A)
      → cons_some o rest ≡ some r
      → (a : A) × (xs : List A) × (o ≡ some a) × (rest ≡ some xs) × (r ≡ a ∷ xs)
  cons_some_parts none rest r h = absurd (none_some r h)
    where
      none_some : (x : List A) → none ≡ some x → ⊥
      none_some x e = cc
  cons_some_parts (some a) none r h = absurd (none_some r h)
    where
      none_some : (x : List A) → none ≡ some x → ⊥
      none_some x e = cc
  cons_some_parts (some a) (some xs) r h = (a, xs, refl, refl, cc)
