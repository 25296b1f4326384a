-- ===== src/Base/Panic.antt =====
-- Go code that indexes a slice: a value, or the run-time panic of an index out of range.
use Prim.Native.Nat.{ℕ, zero, suc, ◌+◌, ◌*◌, ◌≤◌, ◌<◌}
use native.Mathlib.Nat.{zero-add, suc-add}
use mathlib.Core.Path.{◌≡◌, refl, ap, ◌∙◌}
use mathlib.Core.List.{List, [], ◌∷◌, ◌++◌}
use native.Mathlib.Omega.{arith}
use vair.Base.Tests.{ltb, le→ltb, if◌then◌else◌}
use mathlib.Core.Bool.{Bool, true, false}
use vair.Base.Lists.{length, take, drop, length-drop, length-append, take-append, drop-append}

pub data Outcome {ℓ} (A : Type ℓ) : Type ℓ where
  ok : A → Outcome A
  panic : Outcome A

infixl 5 ◌>>=◌
abbrev pub ◌>>=◌ {ℓ κ} : {A : Type ℓ} {B : Type κ} → Outcome A → (A → Outcome B) → Outcome B
ok a >>= f = f a
panic >>= f = panic

-- The code returns: it does not panic.
abbrev pub Returns {ℓ} : {A : Type ℓ} → Outcome A → Type ℓ
Returns {A = A} m = (a : A) × (m ≡ ok a)

abbrev pub Bytes : Type 0
Bytes = List ℕ

-- `b[i]`.
unfoldable pub at : Bytes → ℕ → Outcome ℕ
at [] i = panic
at (c ∷ b) zero = ok c
at (c ∷ b) (suc i) = at b i

-- An index in range yields a byte, whatever follows.
pub at_in_range :
    (b more : Bytes) (i : ℕ) → i < length b → (c : ℕ) × (at b i ≡ ok c) × (at (b ++ more) i ≡ ok c)
unfolding at
at_in_range [] more i h = absurd (omega arith)
at_in_range (c ∷ b) more zero h = (c, refl, refl)
at_in_range (c ∷ b) more (suc i) h = at_in_range b more i (omega arith)

-- `binary.BigEndian.Uint16(b[p:])`.
unfoldable pub uint16 : Bytes → ℕ → Outcome ℕ
uint16 b p = at b p >>= λ high. at b (p + 1) >>= λ low. ok (high * 256 + low)

pub uint16_in_range :
    (b more : Bytes) (p : ℕ)
    → p + 2 ≤ length b
    → (n : ℕ) × (uint16 b p ≡ ok n) × (uint16 (b ++ more) p ≡ ok n)
unfolding uint16
uint16_in_range b more p h =
    let (x, e, e') = at_in_range b more p (omega arith) in
    let (y, f, f') = at_in_range b more (p + 1) (omega arith) in
    (x * 256 + y, rw (e, f) refl, rw (e', f') refl)

-- `b[from : from+n]`.
unfoldable pub slice : Bytes → ℕ → ℕ → Outcome Bytes
slice b from n = if ltb (length b) (from + n) then panic else ok (take n (drop from b))

pub slice_lem :
    (b : Bytes) (from n : ℕ) → from + n ≤ length b → slice b from n ≡ ok (take n (drop from b))
unfolding slice
slice_lem b from n h = rw (le→ltb (length b) (from + n) h)

-- Bounds in range yield a slice, whatever follows.
pub slice_in_range :
    (b more : Bytes) (from n : ℕ)
    → from + n ≤ length b
    → (s : Bytes) × (slice b from n ≡ ok s) × (slice (b ++ more) from n ≡ ok s)
slice_in_range b more from n h = (
  take n (drop from b),
  slice_lem b from n h,
  slice_lem (b ++ more) from n (omega (arith, length-append b more))
      ∙ ap ok (
          rw (drop-append from b more (omega arith))
            (take-append n (drop from b) more (omega (arith, length-drop from b)))),
)

pub >>=-ok {ℓ} : {A : Type ℓ} (m : Outcome A) → (m >>= λ a. ok a) ≡ m
>>=-ok (ok a) = refl
>>=-ok panic = refl

pub >>=-assoc {ℓ} :
    {A B C : Type ℓ} (m : Outcome A) (f : A → Outcome B) (g : B → Outcome C)
    → ((m >>= f) >>= g) ≡ (m >>= λ a. f a >>= g)
>>=-assoc (ok a) f g = refl
>>=-assoc panic f g = refl

pub at-append : (pre b : Bytes) (i : ℕ) → at (pre ++ b) (length pre + i) ≡ at b i
unfolding at
at-append [] b i = rw zero-add
at-append (c ∷ pre) b i = rw suc-add (at-append pre b i)

pub ltb-append :
    (pre b : Bytes) (i : ℕ) → ltb (length (pre ++ b)) (length pre + i) ≡ ltb (length b) i
ltb-append pre b i = ground (arith, length-append pre b)

-- Two runs of the code return, and return the same.
abbrev pub Agrees {ℓ} : {A : Type ℓ} → Outcome A → Outcome A → Type ℓ
Agrees {A = A} m m' = (a : A) × (m ≡ ok a) × (m' ≡ ok a)

module _ {ℓ} {A : Type ℓ} where
  pub Returns-at :
      (b : Bytes) (i : ℕ) {f : ℕ → Outcome A}
      → i < length b
      → ((c : ℕ) → Returns (f c))
      → Returns (at b i >>= f)
  Returns-at b i h r = let (c, e, e') = at_in_range b [] i h in rw e (r c)

  pub Returns-if :
      (t : Bool) {x y : Outcome A} → Returns x → Returns y → Returns (if t then x else y)
  Returns-if true r s = r
  Returns-if false r s = s

  pub Agrees-at :
      (b more : Bytes) (i : ℕ) {f g : ℕ → Outcome A}
      → i < length b
      → ((c : ℕ) → Agrees (f c) (g c))
      → Agrees (at b i >>= f) (at (b ++ more) i >>= g)
  Agrees-at b more i h r = let (c, e, e') = at_in_range b more i h in rw (e, e') (r c)

  pub Agrees-if :
      (t : Bool) {x y x' y' : Outcome A}
      → Agrees x x'
      → Agrees y y'
      → Agrees (if t then x else y) (if t then x' else y')
  Agrees-if true r s = r
  Agrees-if false r s = s

pub >>=-cong {ℓ} :
    {A B : Type ℓ} (m : Outcome A) {f g : A → Outcome B}
    → ((a : A) → f a ≡ g a)
    → (m >>= f) ≡ (m >>= g)
>>=-cong (ok a) e = e a
>>=-cong panic e = refl
