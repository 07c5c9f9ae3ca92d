-- ===== src/CryptoUtils.antt =====
-- utils/CryptoUtils.{hpp,cpp}: random tokens and passwords. The random numbers are those of the
-- standard library and of libsodium: `draw bound i` is the i-th number, asked for below `bound`.
pub mod Laws
use Prim.Native.Char.{Char, code}
use Prim.Native.String.{String}
use uwpx_push_server.Common.Text.{char_at}
use uwpx_push_server.Common.{
  Bool, Result, ok, and_then, assert_then, ltb, leb, ℕ, zero, suc, ◌+◌, ◌-◌,
}

abbrev pub alphanum : String
alphanum = "0123456789abcdefghijklmnopqrstuvwxyzABCDEFGHIJKLMNOPQRSTUVWXYZ"

-- alphanum.length()
abbrev pub alphanum_length : ℕ
alphanum_length = 62

module _ (draw : ℕ → ℕ → ℕ) where
  -- the loop of secure_random_password, from the draw `first` on
  unfoldable pub filled : ℕ → ℕ → ℕ → String
  filled bound first zero = ""
  filled bound first (suc length) =
      String.◌∷◌ (char_at alphanum (draw bound first)) (filled bound (suc first) length)

  -- the loop of url_safe_random_token, with its assert(result[i])
  unfoldable pub checked : Bool → ℕ → ℕ → Result String
  checked ndebug first zero = ok ""
  checked ndebug first (suc length) =
      let c = char_at alphanum (draw alphanum_length first) in
      let rest = checked ndebug (suc first) length in
      assert_then (ltb 0 (code c)) ndebug (and_then rest λ text. ok (String.◌∷◌ c text))

  -- uniform_int_distribution(0, alphanum.length() - 1): both ends are drawn
  unfoldable pub url_safe_random_token : Bool → ℕ → ℕ → Result String
  unfolding checked
  url_safe_random_token ndebug first length =
      assert_then (leb 1 length) ndebug (checked ndebug first length)

  -- randombytes_uniform(alphanum.length() - 1): its upper bound is not drawn
  unfoldable pub secure_random_password : Bool → ℕ → ℕ → Result String
  unfolding filled
  secure_random_password ndebug first length =
      assert_then (leb 1 length) ndebug (ok (filled (alphanum_length - 1) first length))
