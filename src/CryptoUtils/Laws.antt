-- ===== src/CryptoUtils/Laws.antt =====
-- Length and alphabet of the random texts.
use Prim.Native.Char.{code}
use Prim.Native.String.{String}
use mathlib.Core.Bool.{Bool, true, ◌&&◌, ◌||◌, not}
use uwpx_push_server.Common.Text.{char_at, throughout, throughout_lem}
use uwpx_push_server.Common.{ltb, ok, ℕ, zero, suc, ◌<◌, ◌≡◌, refl, arith, leb, nat_eq}
use uwpx_push_server.CryptoUtils.{
  checked, alphanum, filled, url_safe_random_token, secure_random_password,
}

abbrev pub text_length : String → ℕ
text_length String.[] = 0
text_length (String.◌∷◌ c s) = suc (text_length s)

-- std::isalnum, in the C locale
abbrev pub is_alnum : ℕ → Bool
is_alnum c = (leb 48 c && leb c 57) || (leb 65 c && leb c 90) || (leb 97 c && leb c 122)

abbrev pub all_chars : (ℕ → Bool) → String → Bool
all_chars p String.[] = true
all_chars p (String.◌∷◌ c s) = p (code c) && all_chars p s

alphanum_alnum : throughout 62 (λ i. is_alnum (code (char_at alphanum i))) ≡ true
unfolding throughout char_at
alphanum_alnum = refl

alphanum_visible : throughout 62 (λ i. ltb 0 (code (char_at alphanum i))) ≡ true
unfolding throughout char_at
alphanum_visible = refl

-- The last character of the alphabet is `Z`, 90.
alphanum_before_last : throughout 61 (λ i. not (nat_eq (code (char_at alphanum i)) 90)) ≡ true
unfolding throughout char_at
alphanum_before_last = refl

module _ (draw : ℕ → ℕ → ℕ) (in_range : (bound i : ℕ) → 0 < bound → draw bound i < bound) where
  filled_length : (bound first length : ℕ) → text_length (filled draw bound first length) ≡ length
  unfolding filled
  filled_length bound first zero = refl
  filled_length bound first (suc n) = omega (arith, filled_length bound (suc first) n)

  filled_all :
      (p : ℕ → Bool) (bound : ℕ)
      → 0 < bound
      → ((i : ℕ) → i < bound → p (code (char_at alphanum i)) ≡ true)
      → (first length : ℕ) → all_chars p (filled draw bound first length) ≡ true
  unfolding filled
  filled_all p bound pos h first zero = refl
  filled_all p bound pos h first (suc n) = ground (
    arith,
    h (draw bound first) (in_range bound first pos),
    filled_all p bound pos h (suc first) n,
  )

  -- No character of the alphabet is NUL, so the loop of a token never fails its assertion.
  checked_lem :
      (ndebug : Bool) (first length : ℕ)
      → checked draw ndebug first length ≡ ok (filled draw 62 first length)
  unfolding checked filled
  checked_lem ndebug first zero = refl
  checked_lem ndebug first (suc n) =
      rw
        (
          checked_lem ndebug (suc first) n,
          throughout_lem 62 (λ i. ltb 0 (code (char_at alphanum i))) (draw 62 first)
              alphanum_visible (in_range 62 first (omega arith)),
        )
        refl

  -- When every draw is below its bound: a token of at least one character is made, with assertions
  -- and without, and it has the length that was asked for and only letters and digits.
  pub url_safe_random_token_lem :
      (ndebug : Bool) (first length : ℕ)
      → 0 < length
      → (s : String) × (url_safe_random_token draw ndebug first length ≡ ok s)
        × (text_length s ≡ length)
        × (all_chars is_alnum s ≡ true)
  unfolding url_safe_random_token
  url_safe_random_token_lem ndebug first length h = (
    filled draw 62 first length,
    ground (arith, checked_lem ndebug first length),
    filled_length 62 first length,
    filled_all is_alnum 62 (omega arith)
        (λ i. throughout_lem 62 (λ i. is_alnum (code (char_at alphanum i))) i alphanum_alnum) first
        length,
  )

  -- When every draw is below its bound: a password of at least one character is made, with
  -- assertions and without; it has the length that was asked for, only letters and digits, and
  -- never the last letter of the alphabet, `Z`.
  pub secure_random_password_lem :
      (ndebug : Bool) (first length : ℕ)
      → 0 < length
      → (s : String) × (secure_random_password draw ndebug first length ≡ ok s)
        × (text_length s ≡ length)
        × (all_chars is_alnum s ≡ true)
        × (all_chars (λ c. not (nat_eq c 90)) s ≡ true)
  unfolding secure_random_password
  secure_random_password_lem ndebug first length h = (
    filled draw 61 first length,
    ground arith,
    filled_length 61 first length,
    filled_all is_alnum 61 (omega arith)
        (λ i h.
          throughout_lem 62 (λ i. is_alnum (code (char_at alphanum i))) i alphanum_alnum
            (omega arith))
        first length,
    filled_all (λ c. not (nat_eq c 90)) 61 (omega arith)
        (λ i.
          throughout_lem 61 (λ i. not (nat_eq (code (char_at alphanum i)) 90)) i
            alphanum_before_last)
        first length,
  )
