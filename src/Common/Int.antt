-- ===== src/Common/Int.antt =====
-- The C++ `int`: an integer with the comparisons that the code makes.
use Prim.Native.Nat.{ℕ}
use mathlib.Core.Path.{◌≡◌}
use mathlib.Core.Logic.{◌↔◌}
use native.Mathlib.Omega.{arith}
use mathlib.Core.Bool.{Bool, true, false}
use uwpx_push_server.Common.Tests.{ltb, nat_eq}

-- `negsuc n` is -(n + 1).
pub data ℤ : Type 0 where
  pos : ℕ → ℤ
  negsuc : ℕ → ℤ

abbrev pub ltℤ : ℤ → ℤ → Bool
ltℤ (pos a) (pos b) = ltb a b
ltℤ (pos a) (negsuc b) = false
ltℤ (negsuc a) (pos b) = true
ltℤ (negsuc a) (negsuc b) = ltb b a

abbrev pub eqℤ : ℤ → ℤ → Bool
eqℤ (pos a) (pos b) = nat_eq a b
eqℤ (negsuc a) (negsuc b) = nat_eq a b
eqℤ _ _ = false

pub eqℤ_iff : (a b : ℤ) → (eqℤ a b ≡ true) ↔ (a ≡ b)
eqℤ_iff (pos a) (pos b) = ground arith
eqℤ_iff (negsuc a) (negsuc b) = ground arith
eqℤ_iff (pos a) (negsuc b) = ground arith
eqℤ_iff (negsuc a) (pos b) = ground arith
