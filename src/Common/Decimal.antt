-- ===== src/Common/Decimal.antt =====
-- std::to_string of an integer and std::strtoll in base 10.
pub mod Stoi
use Prim.Native.Nat.{ℕ, zero, suc, ◌+◌, ◌-◌, ◌*◌, ◌/◌, ◌%◌, ◌≤◌, ◌<◌, min}
use Prim.Native.Char.{Char, code}
use Prim.Native.String.{String, ◌++◌ as ◌&◌}
use mathlib.Core.Path.{◌≡◌, refl, ◌∙◌, sym, ap}
use mathlib.Core.Bool.{Bool, true, ◌&&◌, ◌||◌}
use mathlib.Core.Logic.{inl, inr}
use native.Mathlib.Omega.{arith}
use uwpx_push_server.Common.Tests.{ltb→lt, Bool-cases, ltb, leb, nat_eq, if◌then◌else◌}
use uwpx_push_server.Common.Text.{char_at, throughout, throughout_lem}
use uwpx_push_server.Common.Int.{ℤ, pos, negsuc}

-- the digit of a number below 10
abbrev digit : ℕ → Char
digit d = char_at "0123456789" d

-- The digits of `n` in front of `rest`; the first argument is fuel.
print : ℕ → ℕ → String → String
print zero n rest = rest
print (suc f) n rest =
    let more = print f (n / 10) (String.◌∷◌ (digit (n % 10)) rest) in
    if ltb n 10 then String.◌∷◌ (digit n) rest else more

unfoldable pub to_string_nat : ℕ → String
unfolding print
to_string_nat n = print (suc n) n ""

unfoldable pub to_string : ℤ → String
unfolding to_string_nat
to_string (pos n) = to_string_nat n
to_string (negsuc n) = String.◌∷◌ "-" (to_string_nat (suc n))

abbrev is_digit : Char → Bool
is_digit c = leb 48 (code c) && leb (code c) 57

-- the digits that a text begins with, behind the digits of `v`
read : ℕ → String → ℕ
read v String.[] = v
read v (String.◌∷◌ c s) =
    let more = read (v * 10 + (code c - 48)) s in if is_digit c then more else v

abbrev is_space : Char → Bool
is_space c = nat_eq (code c) 32 || (leb 9 (code c) && leb (code c) 13)

-- LLONG_MAX
abbrev pub long_long_max : ℕ
long_long_max = 9223372036854775807

abbrev clamped : ℕ → ℤ
clamped n = pos (min n long_long_max)

-- a negative result, from LLONG_MIN on
abbrev negated : ℕ → ℤ
negated zero = pos 0
negated (suc n) = negsuc (min n long_long_max)

signed : String → ℤ
signed String.[] = pos 0
signed (String.◌∷◌ c s) =
    if nat_eq (code c) 45
    then negated (read 0 s)
    else if nat_eq (code c) 43
    then clamped (read 0 s)
    else clamped (read 0 (String.◌∷◌ c s))

unfoldable pub strtoll : String → ℤ
unfolding signed read
strtoll String.[] = pos 0
strtoll (String.◌∷◌ c s) =
    let rest = strtoll s in if is_space c then rest else signed (String.◌∷◌ c s)

digits_in_order : throughout 10 (λ d. nat_eq (code (char_at "0123456789" d)) (48 + d)) ≡ true
unfolding throughout char_at
digits_in_order = refl

code-digit : (d : ℕ) → d < 10 → code (digit d) ≡ 48 + d
code-digit d h =
    let e =
      throughout_lem 10 (λ d. nat_eq (code (char_at "0123456789" d)) (48 + d)) d digits_in_order
        h in
    ground (arith, e)

digit-is_digit : (c : Char) (d : ℕ) → code c ≡ 48 + d → d < 10 → is_digit c ≡ true
digit-is_digit c d e h = ground arith

read-digit : (v d : ℕ) (s : String) → d < 10 → read v (String.◌∷◌ (digit d) s) ≡ read (v * 10 + d) s
unfolding read
read-digit v d s h =
    let e : code (digit d) - 48 ≡ d = omega (arith, code-digit d h) in
    rw (digit-is_digit (digit d) d (code-digit d h) h, e)

read-print : (f n : ℕ) (s : String) → n < f → read 0 (print f n s) ≡ read n s
unfolding print
read-print zero n s h = absurd (omega arith)
read-print (suc f) n s h = elim (Bool-cases (ltb n 10)) [
  | inl small ↦
      rw small (read-digit 0 n s (ltb→lt n 10 small) ∙ ap (λ (v : ℕ). read v s) (omega arith))
  | inr large ↦
      let e : n / 10 * 10 + n % 10 ≡ n = omega arith in
      rw large (
        read-print f (n / 10) (String.◌∷◌ (digit (n % 10)) s) (ground arith)
        ∙ read-digit (n / 10) (n % 10) s (omega arith)
        ∙ ap (λ (v : ℕ). read v s) e)
]

read_end : (v : ℕ) → read v "" ≡ v
unfolding read
read_end v = refl

-- What is printed begins with a digit.
print_first :
    (f n : ℕ) (s : String)
    → n < f
    → (d : ℕ) × (rest : String) × (d < 10) × (print f n s ≡ String.◌∷◌ (digit d) rest)
unfolding print
print_first zero n s h = absurd (omega arith)
print_first (suc f) n s h = elim (Bool-cases (ltb n 10)) [
  | inl small ↦ (n, s, ltb→lt n 10 small, rw small)
  | inr large ↦
      let (d, rest, p, e) = print_first f (n / 10) (String.◌∷◌ (digit (n % 10)) s) (ground arith) in
      (d, rest, p, rw large e)
]

signed-digit :
    (c : Char) (d : ℕ) (s : String)
    → code c ≡ 48 + d
    → d < 10
    → strtoll (String.◌∷◌ c s) ≡ clamped (read 0 (String.◌∷◌ c s))
unfolding strtoll
signed-digit c d s e h = ground arith

-- A number of 63 bits, printed and read, is the number.
pub strtoll-to_string : (n : ℕ) → n ≤ long_long_max → strtoll (to_string (pos n)) ≡ pos n
unfolding to_string
strtoll-to_string n h =
    let (d, rest, p, e) = print_first (suc n) n "" (omega arith) in
    let value : read 0 (print (suc n) n "") ≡ n =
      read-print (suc n) n "" (omega arith) ∙ read_end n in
    let small : min n long_long_max ≡ n = omega arith in
    let back : clamped (read 0 (String.◌∷◌ (digit d) rest)) ≡ pos n =
      rw (sym e, value) (ap pos small) in
    rw e (signed-digit (digit d) d rest (code-digit d p) p ∙ back)
