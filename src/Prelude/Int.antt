-- ===== src/Prelude/Int.antt =====
-- Go's `int`, which has 64 bits: a value is an integer, and `incr` and `sub` wrap round.
use Prim.Native.Nat.{ℕ, zero, suc, ◌+◌, ◌-◌}
use mathlib.Core.Path.{◌≡◌}
use mathlib.Core.Logic.{◌≢◌}
use mathlib.Core.Bool.{Bool, true, false}
use native.Mathlib.Omega.{arith}
use runfabric.Prelude.Tests.{leb, ◌==◌, if◌then◌else◌}

-- `negsuc n` is -(n + 1).
pub data ℤ : Type 0 where
  pos : ℕ → ℤ
  negsuc : ℕ → ℤ

abbrev pub max_int : ℕ
max_int = 9223372036854775807

unfoldable pub le_int : ℤ → ℤ → Bool
le_int (pos a) (pos b) = leb a b
le_int (pos a) (negsuc b) = false
le_int (negsuc a) (pos b) = true
le_int (negsuc a) (negsuc b) = leb b a

unfoldable pub incr : ℤ → ℤ
incr (pos n) = if n == max_int then negsuc max_int else pos (suc n)
incr (negsuc zero) = pos 0
incr (negsuc (suc n)) = negsuc n

pub lt-incr : (v : ℤ) → v ≢ pos max_int → le_int (incr v) v ≡ false
unfolding incr le_int
lt-incr (pos n) h = ground arith
lt-incr (negsuc zero) h = ground arith
lt-incr (negsuc (suc n)) h = ground arith

pub le_int_refl : (v : ℤ) → le_int v v ≡ true
unfolding le_int
le_int_refl (pos n) = ground arith
le_int_refl (negsuc n) = ground arith

unfoldable pub eq_int : ℤ → ℤ → Bool
eq_int (pos a) (pos b) = a == b
eq_int (negsuc a) (negsuc b) = a == b
eq_int a b = false

-- A difference of at most twice the range, wrapped.
unfoldable pub sub : ℤ → ℤ → ℤ
sub (pos a) (pos b) = if leb b a then pos (a - b) else negsuc (b - a - 1)
sub (negsuc a) (negsuc b) = if leb a b then pos (b - a) else negsuc (a - b - 1)
sub (pos a) (negsuc b) =
    let d = a + suc b in if leb d max_int then pos d else negsuc (18446744073709551615 - d)
sub (negsuc a) (pos b) =
    let d = a + b in if leb d max_int then negsuc d else pos (18446744073709551615 - d)
