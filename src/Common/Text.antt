-- ===== src/Common/Text.antt =====
-- Characters of a text by position, and Boolean properties of the numbers below a bound.
use Prim.Native.Char.{Char}
use Prim.Native.String.{String}
use Prim.Native.Nat.{ℕ, zero, suc, ◌<◌}
use mathlib.Core.Path.{◌≡◌}
use mathlib.Core.Bool.{Bool, true, ◌&&◌}
use native.Mathlib.Omega.{arith}

-- s[i]. At the end of the text it is NUL; further on the code's behaviour is not defined, and the
-- model has NUL there too.
unfoldable pub char_at : String → ℕ → Char
char_at String.[] i = "\0"
char_at (String.◌∷◌ c s) zero = c
char_at (String.◌∷◌ c s) (suc i) = char_at s i

-- Whether a test holds throughout the numbers below a bound.
unfoldable pub throughout : ℕ → (ℕ → Bool) → Bool
throughout zero test = true
throughout (suc bound) test = throughout bound test && test bound

pub throughout_lem :
    (bound : ℕ) (test : ℕ → Bool) (i : ℕ) → throughout bound test ≡ true → i < bound → test i ≡ true
unfolding throughout
throughout_lem zero test i all small = absurd (omega arith)
throughout_lem (suc bound) test i all small = ground (throughout_lem bound test i, arith)
