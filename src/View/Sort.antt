-- ===== src/View/Sort.antt =====
-- `sort.SliceStable` (core/memstore.go: `memOrder`): each element goes behind those that are less
-- than it and before all others, so equal ones keep their order.
use vair.Base.{
  ◌≡◌, refl, ◌∙◌, inl, inr, Bool, true, false, List, [], ◌∷◌, if◌then◌else◌, Bool-cases, All, map,
}
use mathlib.Core.List.{Perm}
use mathlib.Core.List.Perm

module _ {ℓ} {A : Type ℓ} (less : A → A → Bool) where
  unfoldable pub insert : A → List A → List A
  insert x [] = x ∷ []
  insert x (y ∷ ys) = let rest = insert x ys in if less y x then y ∷ rest else x ∷ y ∷ ys

  unfoldable pub sort_stable : List A → List A
  unfolding insert
  sort_stable [] = []
  sort_stable (x ∷ xs) = insert x (sort_stable xs)

  -- No element is less than one before it.
  abbrev pub InOrder : List A → Type 0
  InOrder [] = Unit {0}
  InOrder (x ∷ xs) = All (λ y. less y x ≡ false) xs × InOrder xs

  insert-Perm : (x : A) (xs : List A) → Perm (insert x xs) (x ∷ xs)
  unfolding insert
  insert-Perm x [] = Perm.refl (x ∷ [])
  insert-Perm x (y ∷ ys) = elim (Bool-cases (less y x)) [
    | inl e ↦ rw e (Perm.trans (Perm.cons y (insert-Perm x ys)) (Perm.swap x y ys))
    | inr e ↦ rw e (Perm.refl (x ∷ y ∷ ys))
  ]

  pub sort_stable-Perm : (xs : List A) → Perm (sort_stable xs) xs
  unfolding sort_stable
  sort_stable-Perm [] = Perm.refl []
  sort_stable-Perm (x ∷ xs) =
      Perm.trans (insert-Perm x (sort_stable xs)) (Perm.cons x (sort_stable-Perm xs))

  -- What is in order stays as it is.
  pub sort_stable-sorted : (xs : List A) → InOrder xs → sort_stable xs ≡ xs
  unfolding sort_stable insert
  sort_stable-sorted [] h = refl
  sort_stable-sorted (x ∷ []) h = refl
  sort_stable-sorted (x ∷ y ∷ ys) h = rw (sort_stable-sorted (y ∷ ys) h.1, h.0.0) refl

  insert-All : (P : A → Type 0) (x : A) (xs : List A) → P x → All P xs → All P (insert x xs)
  unfolding insert
  insert-All P x [] p h = (p, tt)
  insert-All P x (y ∷ ys) p h = elim (Bool-cases (less y x)) [
    | inl e ↦ rw e (h.0, insert-All P x ys p h.1)
    | inr e ↦ rw e (p, h)
  ]

  All-below :
      (trans : (x y z : A) → less y x ≡ false → less z y ≡ false → less z x ≡ false) (x y : A)
      (ys : List A)
      → less y x ≡ false
      → All (λ z. less z y ≡ false) ys
      → All (λ z. less z x ≡ false) ys
  All-below trans x y [] e h = tt
  All-below trans x y (z ∷ ys) e h = (trans x y z e h.0, All-below trans x y ys e h.1)

  insert-InOrder :
      (asym : (x y : A) → less x y ≡ true → less y x ≡ false)
      (trans : (x y z : A) → less y x ≡ false → less z y ≡ false → less z x ≡ false) (x : A)
      (xs : List A)
      → InOrder xs
      → InOrder (insert x xs)
  unfolding insert
  insert-InOrder asym trans x [] h = (tt, tt)
  insert-InOrder asym trans x (y ∷ ys) h = elim (Bool-cases (less y x)) [
    | inl e ↦ rw e (
      insert-All (λ z. less z y ≡ false) x ys (asym y x e) h.0,
      insert-InOrder asym trans x ys h.1,
    )
    | inr e ↦ rw e ((e, All-below trans x y ys e h.0), h)
  ]

  pub sort_stable-InOrder :
      (asym : (x y : A) → less x y ≡ true → less y x ≡ false)
      (trans : (x y z : A) → less y x ≡ false → less z y ≡ false → less z x ≡ false) (xs : List A)
      → InOrder (sort_stable xs)
  unfolding sort_stable
  sort_stable-InOrder asym trans [] = tt
  sort_stable-InOrder asym trans (x ∷ xs) =
      insert-InOrder asym trans x (sort_stable xs) (sort_stable-InOrder asym trans xs)

-- Two comparators that agree across a map.
module _ {ℓ κ} {A : Type ℓ} {B : Type κ} (less : A → A → Bool) (below : B → B → Bool) (f : A → B)
    (agree : (a b : A) → below (f a) (f b) ≡ less a b) where
  All-map :
      (x : A) (xs : List A)
      → All (λ y. less y x ≡ false) xs
      → All (λ y. below y (f x) ≡ false) (map f xs)
  All-map x [] h = tt
  All-map x (y ∷ xs) h = (agree y x ∙ h.0, All-map x xs h.1)

  pub InOrder-map : (xs : List A) → InOrder less xs → InOrder below (map f xs)
  InOrder-map [] h = tt
  InOrder-map (x ∷ xs) h = (All-map x xs h.0, InOrder-map xs h.1)
