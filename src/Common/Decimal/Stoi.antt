-- ===== src/Common/Decimal/Stoi.antt =====
-- std::stoi in base 10.
use Prim.Native.Nat.{ℕ, zero, suc, ◌≤◌, ◌<◌}
use Prim.Native.Char.{code}
use Prim.Native.String.{String}
use mathlib.Core.Path.{◌≡◌, refl, ◌∙◌}
use mathlib.Core.Bool.{Bool, true, false}
use native.Mathlib.Omega.{arith}
use uwpx_push_server.Common.Tests.{leb, nat_eq, if◌then◌else◌}
use uwpx_push_server.Common.Int.{ℤ, pos, negsuc}
use uwpx_push_server.Common.Outcome.{Result, ok, err, out_of_range, invalid_argument}
use uwpx_push_server.Common.Decimal.{
  read, is_digit, is_space, digit, print, print_first, read-print, read_end, to_string,
  to_string_nat, code-digit, digit-is_digit,
}

-- INT_MAX
abbrev pub int_max : ℕ
int_max = 2147483647

-- What an `int` can hold.
abbrev pub IsInt : ℤ → Type 0
IsInt (pos n) = n ≤ int_max
IsInt (negsuc n) = n ≤ int_max

abbrev positive : ℕ → Result ℤ
positive n = if leb n int_max then ok (pos n) else err out_of_range

abbrev negative : ℕ → Result ℤ
negative zero = ok (pos 0)
negative (suc n) = if leb n int_max then ok (negsuc n) else err out_of_range

abbrev begins_with_digit : String → Bool
begins_with_digit String.[] = false
begins_with_digit (String.◌∷◌ c s) = is_digit c

-- The digits, of which there has to be one, behind an optional sign.
digits : (ℕ → Result ℤ) → String → Result ℤ
unfolding read
digits bounded s = if begins_with_digit s then bounded (read 0 s) else err invalid_argument

signed_int : String → Result ℤ
unfolding digits
signed_int String.[] = err invalid_argument
signed_int (String.◌∷◌ c s) =
    if nat_eq (code c) 45
    then digits negative s
    else if nat_eq (code c) 43
    then digits positive s
    else digits positive (String.◌∷◌ c s)

unfoldable pub stoi : String → Result ℤ
unfolding signed_int digits read
stoi String.[] = err invalid_argument
stoi (String.◌∷◌ c s) =
    let rest = stoi s in if is_space c then rest else signed_int (String.◌∷◌ c s)

-- A printed number is read as the number, whatever bounds it.
digits-print : (bounded : ℕ → Result ℤ) (n : ℕ) → digits bounded (print (suc n) n "") ≡ bounded n
unfolding digits
digits-print bounded n =
    let (d, rest, p, e) = print_first (suc n) n "" (omega arith) in
    let value : read 0 (print (suc n) n "") ≡ n =
      read-print (suc n) n "" (omega arith) ∙ read_end n in
    let first : begins_with_digit (print (suc n) n "") ≡ true =
      rw e (digit-is_digit (digit d) d (code-digit d p) p) in
    rw (first, value)

stoi_first :
    (n d : ℕ) (rest : String)
    → print (suc n) n "" ≡ String.◌∷◌ (digit d) rest
    → d < 10
    → stoi (print (suc n) n "") ≡ digits positive (print (suc n) n "")
unfolding stoi
stoi_first n d rest e p = let c = code-digit d p in rw e (ground (arith, c))

stoi_minus : (s : String) → stoi (String.◌∷◌ "-" s) ≡ digits negative s
unfolding stoi
stoi_minus s = refl

-- An `int` that is printed is read back.
pub stoi-to_string : (z : ℤ) → IsInt z → stoi (to_string z) ≡ ok z
unfolding to_string to_string_nat
stoi-to_string (pos n) h =
    let (d, rest, p, e) = print_first (suc n) n "" (omega arith) in
    stoi_first n d rest e p ∙ digits-print positive n ∙ ground arith
stoi-to_string (negsuc n) h = stoi_minus _ ∙ digits-print negative (suc n) ∙ ground arith
