-- ===== src/Common/Int.antt =====
-- Signed integers over the native numbers, for durations.
use Prim.Native.Nat.{ℕ, zero, suc, ◌/◌}

-- `negsuc n` is -(n + 1).
pub data ℤ : Type 0 where
  pos : ℕ → ℤ
  negsuc : ℕ → ℤ

-- -n
unfoldable pub negate : ℕ → ℤ
negate zero = pos 0
negate (suc n) = negsuc n

-- Go's division of an `int64` by a positive number, which rounds toward zero.
unfoldable pub trunc_div : ℤ → ℕ → ℤ
unfolding negate
trunc_div (pos n) d = pos (n / d)
trunc_div (negsuc n) d = negate (suc n / d)
