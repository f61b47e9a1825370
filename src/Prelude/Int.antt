-- ===== src/Prelude/Int.antt =====
-- The integers, as far as the plan table needs them: `negsuc n` is -(n + 1).
use Prim.Native.Nat.{ℕ}
use mathlib.Core.Bool.{Bool, true}
use corcy.Prelude.Tests.{leb}

pub data ℤ : Type 0 where
  pos : ℕ → ℤ
  negsuc : ℕ → ℤ

-- `count >= limit`.
abbrev pub reaches : ℕ → ℤ → Bool
reaches n (pos limit) = leb limit n
reaches n (negsuc _) = true
