-- ===== src/Base/Orders.antt =====
-- Three-way comparisons and how they are put together.
use Prim.Native.Nat.{ℕ, compare, Ordering}
use mathlib.Core.Path.{◌≡◌, refl, sym, ap, ◌∙◌}
use mathlib.Core.Bool.{Bool, true, false}
use mathlib.Core.List.{List, [], ◌∷◌}
use mathlib.Core.Logic.{◌⊎◌, inl, inr}
use native.Mathlib.Omega.{arith}

pub data Comparison : Type 0 where
  before equal after : Comparison

abbrev pub opposite : Comparison → Comparison
opposite before = after
opposite equal = equal
opposite after = before

-- The first that decides.
abbrev pub or_else : Comparison → Comparison → Comparison
or_else before y = before
or_else equal y = y
or_else after y = after

abbrev pub is_before : Comparison → Bool
is_before before = true
is_before equal = false
is_before after = false

-- A comparison of keys: what sorts before what is a strict weak order.
pub record IsOrder {ℓ} {A : Type ℓ} (c : A → A → Comparison) : Type ℓ where
  pub flips : (a b : A) → c b a ≡ opposite (c a b)
  pub same_left : (a b d : A) → c a b ≡ equal → c a d ≡ c b d
  pub chain : (a b d : A) → c a b ≡ before → c b d ≡ before → c a d ≡ before

abbrev pub compare_nat : ℕ → ℕ → Comparison
compare_nat a b = elim (compare a b) [
  | Ordering.lt ↦ before
  | Ordering.eq ↦ equal
  | Ordering.gt ↦ after
]

abbrev pub compare_true : Bool → Bool → Comparison
compare_true true true = equal
compare_true true false = before
compare_true false true = after
compare_true false false = equal

unfoldable pub compare_bytes : List ℕ → List ℕ → Comparison
compare_bytes [] [] = equal
compare_bytes [] (b ∷ ys) = before
compare_bytes (a ∷ xs) [] = after
compare_bytes (a ∷ xs) (b ∷ ys) = or_else (compare_nat a b) (compare_bytes xs ys)

module _ {ℓ κ} {A : Type ℓ} {B : Type κ} where
  abbrev pub by : (A → B) → (B → B → Comparison) → A → A → Comparison
  by f c a b = c (f a) (f b)

  pub by-IsOrder : (f : A → B) (c : B → B → Comparison) → IsOrder c → IsOrder (by f c)
  by-IsOrder f c o = record {
    flips = λ a b. o.flips (f a) (f b);
    same_left = λ a b d. o.same_left (f a) (f b) (f d);
    chain = λ a b d. o.chain (f a) (f b) (f d);
  }

Comparison-cases : (x : Comparison) → (x ≡ before) ⊎ ((x ≡ equal) ⊎ (x ≡ after))
Comparison-cases before = inl refl
Comparison-cases equal = inr (inl refl)
Comparison-cases after = inr (inr refl)

or_else_before :
    (x y : Comparison) → or_else x y ≡ before → (x ≡ before) ⊎ ((x ≡ equal) × (y ≡ before))
or_else_before before y h = inl refl
or_else_before equal y h = inr (refl, h)
or_else_before after y h = absurd (ground arith)

or_else_same : (x y : Comparison) → or_else x y ≡ equal → (x ≡ equal) × (y ≡ equal)
or_else_same before y h = absurd (ground arith)
or_else_same equal y h = (refl, h)
or_else_same after y h = absurd (ground arith)

opposite-or_else : (x y : Comparison) → opposite (or_else x y) ≡ or_else (opposite x) (opposite y)
opposite-or_else before y = refl
opposite-or_else equal y = refl
opposite-or_else after y = refl

opposite-opposite : (x : Comparison) → opposite (opposite x) ≡ x
opposite-opposite before = refl
opposite-opposite equal = refl
opposite-opposite after = refl

module _ {ℓ} {A : Type ℓ} where
  abbrev pub then_by : (A → A → Comparison) → (A → A → Comparison) → A → A → Comparison
  then_by c d a b = or_else (c a b) (d a b)

  abbrev pub turned : Bool → (A → A → Comparison) → A → A → Comparison
  turned true c a b = opposite (c a b)
  turned false c a b = c a b

  same_right : (c : A → A → Comparison) → IsOrder c → (a b d : A) → c b d ≡ equal → c a b ≡ c a d
  same_right c o a b d e =
      let back : c b a ≡ c d a = o.same_left b d a e in
      o.flips b a ∙ ap opposite back ∙ sym (o.flips d a)

  then_by-chain :
      (c d : A → A → Comparison)
      → IsOrder c
      → IsOrder d
      → (a b x : A) → then_by c d a b ≡ before
      → then_by c d b x ≡ before
      → then_by c d a x ≡ before
  then_by-chain c d o p a b x h k = elim (or_else_before (c a b) (d a b) h) [
    | inl e ↦ elim (or_else_before (c b x) (d b x) k) [
      | inl f ↦ rw (o.chain a b x e f) refl
      | inr f ↦ rw (← same_right c o a b x f.0, e) refl
    ]
    | inr e ↦ elim (or_else_before (c b x) (d b x) k) [
      | inl f ↦ rw (o.same_left a b x e.0, f) refl
      | inr f ↦ rw (o.same_left a b x e.0, f.0) (p.chain a b x e.1 f.1)
    ]
  ]

  pub then_by-IsOrder : (c d : A → A → Comparison) → IsOrder c → IsOrder d → IsOrder (then_by c d)
  then_by-IsOrder c d o p = record {
    flips = λ a b. rw (o.flips a b, p.flips a b) (sym (opposite-or_else (c a b) (d a b)));
    same_left = λ a b x h.
        let e = or_else_same (c a b) (d a b) h in
        rw (o.same_left a b x e.0, p.same_left a b x e.1) refl;
    chain = then_by-chain c d o p;
  }

  opposite-IsOrder : (c : A → A → Comparison) → IsOrder c → IsOrder (turned true c)
  opposite-IsOrder c o = record {
    flips = λ a b. ap opposite (o.flips a b);
    same_left = λ a b x h.
        ap opposite (o.same_left a b x (sym (opposite-opposite (c a b)) ∙ ap opposite h));
    chain = λ a b x h k.
        let f : c b a ≡ before = o.flips a b ∙ h in
        let g : c x b ≡ before = o.flips b x ∙ k in sym (o.flips a x) ∙ o.chain x b a g f;
  }

  pub turned-IsOrder : (rev : Bool) (c : A → A → Comparison) → IsOrder c → IsOrder (turned rev c)
  turned-IsOrder true c o = opposite-IsOrder c o
  turned-IsOrder false c o = o

pub compare_nat-IsOrder : IsOrder compare_nat
compare_nat-IsOrder = record {
  flips = λ a b. ground arith;
  same_left = λ a b d h. ground arith;
  chain = λ a b d h k. ground arith;
}

pub compare_true-IsOrder : IsOrder compare_true
compare_true-IsOrder = record {
  flips = λ a b. ground arith;
  same_left = λ a b d h. ground arith;
  chain = λ a b d h k. ground arith;
}

compare_bytes-flips : (a b : List ℕ) → compare_bytes b a ≡ opposite (compare_bytes a b)
unfolding compare_bytes
compare_bytes-flips [] [] = refl
compare_bytes-flips [] (b ∷ ys) = refl
compare_bytes-flips (a ∷ xs) [] = refl
compare_bytes-flips (a ∷ xs) (b ∷ ys) =
    rw (compare_nat-IsOrder.flips a b, compare_bytes-flips xs ys)
      (sym (opposite-or_else (compare_nat a b) (compare_bytes xs ys)))

pub compare_bytes_same : (a b : List ℕ) → compare_bytes a b ≡ equal → a ≡ b
unfolding compare_bytes
compare_bytes_same [] [] h = refl
compare_bytes_same [] (b ∷ ys) h = absurd (ground arith)
compare_bytes_same (a ∷ xs) [] h = absurd (ground arith)
compare_bytes_same (a ∷ xs) (b ∷ ys) h =
    let e = or_else_same (compare_nat a b) (compare_bytes xs ys) h in
    let f : a ≡ b = ground (arith, e.0) in rw (f, compare_bytes_same xs ys e.1) refl

compare_bytes-chain :
    (a b d : List ℕ)
    → compare_bytes a b ≡ before
    → compare_bytes b d ≡ before
    → compare_bytes a d ≡ before
unfolding compare_bytes
compare_bytes-chain [] [] d h k = absurd (ground arith)
compare_bytes-chain [] (b ∷ ys) [] h k = absurd (ground arith)
compare_bytes-chain [] (b ∷ ys) (d ∷ zs) h k = refl
compare_bytes-chain (a ∷ xs) [] d h k = absurd (ground arith)
compare_bytes-chain (a ∷ xs) (b ∷ ys) [] h k = absurd (ground arith)
compare_bytes-chain (a ∷ xs) (b ∷ ys) (d ∷ zs) h k =
    elim (or_else_before (compare_nat a b) (compare_bytes xs ys) h) [
      | inl e ↦ elim (or_else_before (compare_nat b d) (compare_bytes ys zs) k) [
        | inl f ↦ rw (compare_nat-IsOrder.chain a b d e f) refl
        | inr f ↦ rw (← same_right compare_nat compare_nat-IsOrder a b d f.0, e) refl
      ]
      | inr e ↦ elim (or_else_before (compare_nat b d) (compare_bytes ys zs) k) [
        | inl f ↦ rw (compare_nat-IsOrder.same_left a b d e.0, f) refl
        | inr f ↦
            rw (compare_nat-IsOrder.same_left a b d e.0, f.0) (compare_bytes-chain xs ys zs e.1 f.1)
      ]
    ]

pub compare_bytes-IsOrder : IsOrder compare_bytes
compare_bytes-IsOrder = record {
  flips = compare_bytes-flips;
  same_left = λ a b d h. ap (λ (x : List ℕ). compare_bytes x d) (compare_bytes_same a b h);
  chain = compare_bytes-chain;
}

module _ {ℓ} {A : Type ℓ} (c : A → A → Comparison) (o : IsOrder c) where
  pub is_before_asym : (x y : A) → is_before (c x y) ≡ true → is_before (c y x) ≡ false
  is_before_asym x y h = elim (Comparison-cases (c x y)) [
    | inl e ↦ rw (o.flips x y, e) refl
    | inr (inl e) ↦ rw (o.flips x y, e) refl
    | inr (inr e) ↦ absurd (ground (arith, h, e))
  ]

  -- What is not before a second that is not before a third is not before that third.
  pub is_before_trans :
      (x y z : A)
      → is_before (c y x) ≡ false
      → is_before (c z y) ≡ false
      → is_before (c z x) ≡ false
  is_before_trans x y z h k = elim (Comparison-cases (c z x)) [
    | inl e ↦ elim (Comparison-cases (c z y)) [
      | inl f ↦ absurd (ground (arith, k, f))
      | inr (inl f) ↦ absurd (ground (arith, h, e, o.same_left z y x f))
      | inr (inr f) ↦
          let yz : c y z ≡ before = o.flips z y ∙ ap opposite f in
          absurd (ground (arith, h, o.chain y z x yz e))
    ]
    | inr (inl e) ↦ rw e refl
    | inr (inr e) ↦ rw e refl
  ]
