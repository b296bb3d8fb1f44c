-- ===== src/Base/Int.antt =====
-- Signed whole numbers, as far as the program's `Math.trunc` and `Math.max` read them.
use Prim.Native.Nat.{ℕ, max}

-- `negsuc n` is -(n + 1).
pub data ℤ : Type 0 where
  pos : ℕ → ℤ
  negsuc : ℕ → ℤ

-- `Math.max(k, z)` for a natural number `k`.
abbrev pub max_with : ℕ → ℤ → ℕ
max_with k (pos n) = max k n
max_with k (negsuc n) = k
