-- ===== src/View/Firsts.antt =====
-- The keys of a list's elements that pass a test, each kept where it is met first: how both `memOrder`
-- and `autoCandidates` hide doubles.
use vair.Base.{
  ℕ, ◌≡◌, refl, sym, ap, subst, inl, inr, arith, Bool, true, false, not, ◌&&◌, ◌||◌, List, [], ◌∷◌,
  if◌then◌else◌, same, same_eq, same_refl, Bool-cases, All,
}
use vair.View.{is_in}

abbrev pub Distinct : List (List ℕ) → Type 0
Distinct [] = Unit {0}
Distinct (s ∷ rest) = (is_in s rest ≡ false) × Distinct rest

second_false : (a b : Bool) → (a && not b) ≡ true → b ≡ false
second_false a b h = ground (arith, h)

covered_by_left : (a b c : Bool) → c ≡ true → (not a || (b || c)) ≡ true
covered_by_left a b c h = ground (arith, h)

covered_before : (a b c : Bool) → (a && not b) ≡ false → (not a || (b || c)) ≡ true
covered_before a b c h = ground (arith, h)

seen_apart :
    (s t : List ℕ) (seen : List (List ℕ))
    → is_in s seen ≡ true
    → is_in t seen ≡ false
    → same s t ≡ false
seen_apart s t seen i j = elim (Bool-cases (same s t)) [
  | inl d ↦
      let both : is_in s seen ≡ is_in t seen = ap (λ x. is_in x seen) (same_eq s t d) in
      absurd (cc (i, j, both))
  | inr d ↦ d
]

module _ {ℓ} {A : Type ℓ} (passes : A → Bool) (key : A → List ℕ) where
  unfoldable pub firsts : List A → List (List ℕ) → List (List ℕ)
  firsts [] seen = []
  firsts (x ∷ xs) seen =
      let rest = firsts xs seen in
      let more = firsts xs (key x ∷ seen) in
      if passes x && not (is_in (key x) seen) then key x ∷ more else rest

  -- If it passes, its key is among the earlier ones or those kept.
  abbrev pub is_covered : List (List ℕ) → List (List ℕ) → A → Bool
  is_covered seen left x = not (passes x) || (is_in (key x) seen || is_in (key x) left)

  firsts-apart :
      (s : List ℕ) (xs : List A) (seen : List (List ℕ))
      → is_in s seen ≡ true
      → is_in s (firsts xs seen) ≡ false
  unfolding firsts
  firsts-apart s [] seen i = refl
  firsts-apart s (x ∷ xs) seen i = elim (Bool-cases (passes x && not (is_in (key x) seen))) [
    | inl p ↦
        let grown : is_in s (key x ∷ seen) ≡ true = ground (arith, i) in
        let apart = seen_apart s (key x) seen i (second_false (passes x) (is_in (key x) seen) p) in
        rw (p, firsts-apart s xs (key x ∷ seen) grown, apart) refl
    | inr p ↦ rw p (firsts-apart s xs seen i)
  ]

  pub firsts-Distinct : (xs : List A) (seen : List (List ℕ)) → Distinct (firsts xs seen)
  unfolding firsts
  firsts-Distinct [] seen = tt
  firsts-Distinct (x ∷ xs) seen = elim (Bool-cases (passes x && not (is_in (key x) seen))) [
    | inl p ↦
        let known : is_in (key x) (key x ∷ seen) ≡ true =
          ap (λ b. b || is_in (key x) seen) (same_refl (key x)) in
        rw p (firsts-apart (key x) xs (key x ∷ seen) known, firsts-Distinct xs (key x ∷ seen))
    | inr p ↦ rw p (firsts-Distinct xs seen)
  ]

  All-more :
      (k : List ℕ) (seen left : List (List ℕ)) (xs : List A)
      → All (λ x. is_covered (k ∷ seen) left x ≡ true) xs
      → All (λ x. is_covered seen (k ∷ left) x ≡ true) xs
  All-more k seen left [] h = tt
  All-more k seen left (x ∷ xs) h = (ground (arith, h.0), All-more k seen left xs h.1)

  pub firsts-All :
      (xs : List A) (seen : List (List ℕ)) → All (λ x. is_covered seen (firsts xs seen) x ≡ true) xs
  unfolding firsts
  firsts-All [] seen = tt
  firsts-All (x ∷ xs) seen = elim (Bool-cases (passes x && not (is_in (key x) seen))) [
    | inl p ↦
        let left = firsts xs (key x ∷ seen) in
        let step : firsts (x ∷ xs) seen ≡ key x ∷ left = rw p refl in
        let known : is_in (key x) (key x ∷ left) ≡ true =
          ap (λ b. b || is_in (key x) left) (same_refl (key x)) in
        subst (λ l. All (λ y. is_covered seen l y ≡ true) (x ∷ xs)) (sym step)
          (
            covered_by_left (passes x) (is_in (key x) seen) (is_in (key x) (key x ∷ left)) known,
            All-more (key x) seen left xs (firsts-All xs (key x ∷ seen)),
          )
    | inr p ↦
        let left = firsts xs seen in
        let step : firsts (x ∷ xs) seen ≡ left = rw p refl in
        subst (λ l. All (λ y. is_covered seen l y ≡ true) (x ∷ xs)) (sym step)
          (
            covered_before (passes x) (is_in (key x) seen) (is_in (key x) left) p,
            firsts-All xs seen,
          )
  ]
