-- ===== src/Prelude/Int.antt =====
-- Python's `int`: signed integers over the native numbers.
use Prim.Native.Nat.{ℕ}
use openradiusweb.Prelude.Tests.{◌==◌}
use mathlib.Core.Bool.{Bool, false}

-- `negsuc n` is -(n + 1).
pub data ℤ : Type 0 where
  pos : ℕ → ℤ
  negsuc : ℕ → ℤ

abbrev pub int_eq : ℤ → ℤ → Bool
int_eq (pos a) (pos b) = a == b
int_eq (negsuc a) (negsuc b) = a == b
int_eq (pos _) (negsuc _) = false
int_eq (negsuc _) (pos _) = false
