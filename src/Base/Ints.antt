-- ===== src/Base/Ints.antt =====
-- The order of integers.
use Prim.Native.Nat.{ℕ, zero, suc}
use mathlib.Core.Path.{◌≡◌, refl}
use mathlib.Core.Bool.{Bool}
use native.Mathlib.Omega.{arith}
use vair.Base.Select.{ℤ, pos, negsuc}
use vair.Base.Orders

abbrev pub compare_int : ℤ → ℤ → Orders.Comparison
compare_int (pos a) (pos b) = Orders.compare_nat a b
compare_int (pos a) (negsuc b) = Orders.after
compare_int (negsuc a) (pos b) = Orders.before
compare_int (negsuc a) (negsuc b) = Orders.compare_nat b a

abbrev pub int_less : ℤ → ℤ → Bool
int_less a b = Orders.is_before (compare_int a b)

abbrev pub negate : ℕ → ℤ
negate zero = pos zero
negate (suc n) = negsuc n

flips : (a b : ℤ) → compare_int b a ≡ Orders.opposite (compare_int a b)
flips (pos a) (pos b) = ground arith
flips (pos a) (negsuc b) = refl
flips (negsuc a) (pos b) = refl
flips (negsuc a) (negsuc b) = ground arith

same_left : (a b d : ℤ) → compare_int a b ≡ Orders.equal → compare_int a d ≡ compare_int b d
same_left (pos a) (pos b) (pos d) h = ground arith
same_left (pos a) (pos b) (negsuc d) h = refl
same_left (pos a) (negsuc b) d h = absurd (ground (arith, h))
same_left (negsuc a) (pos b) d h = absurd (ground (arith, h))
same_left (negsuc a) (negsuc b) (pos d) h = refl
same_left (negsuc a) (negsuc b) (negsuc d) h = ground arith

chain :
    (a b d : ℤ)
    → compare_int a b ≡ Orders.before
    → compare_int b d ≡ Orders.before
    → compare_int a d ≡ Orders.before
chain (pos a) (pos b) (pos d) h k = ground arith
chain (pos a) (pos b) (negsuc d) h k = absurd (ground (arith, k))
chain (pos a) (negsuc b) d h k = absurd (ground (arith, h))
chain (negsuc a) (pos b) (pos d) h k = refl
chain (negsuc a) (pos b) (negsuc d) h k = absurd (ground (arith, k))
chain (negsuc a) (negsuc b) (pos d) h k = refl
chain (negsuc a) (negsuc b) (negsuc d) h k = ground arith

pub compare_int-IsOrder : Orders.IsOrder compare_int
compare_int-IsOrder = record { flips = flips; same_left = same_left; chain = chain }
