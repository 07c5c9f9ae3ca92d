-- ===== src/Wns/Token.antt =====
-- wns/WnsToken.{hpp,cpp}. Dates are whole seconds since 1970; that a date of expiry can be too
-- large for the clock is left out.
use uwpx_push_server.Common.{
  ℕ, ◌+◌, ◌&◌, Bool, String, Option, none, some, Result, ok, or_throw, and_then, type_error, ℤ, pos,
  ltℤ, if◌then◌else◌,
}
use uwpx_push_server.Json.{JsonLib}
use uwpx_push_server.Messages.Header.{json_at, string_at}

pub record WnsToken : Type 0 where
  pub type : String
  pub token : String
  pub expires : ℤ

abbrev pub is_valid : ℕ → WnsToken → Bool
is_valid now t = ltℤ (pos now) t.expires

abbrev pub to_auth_string : WnsToken → String
to_auth_string t = (t.type & " ") & t.token

abbrev pub get_expires_date : ℕ → ℕ → ℤ
get_expires_date now expires_in_seconds = pos (now + expires_in_seconds)

module _ (json : JsonLib) (now : ℕ) where
  open json use {contains, get_size}

  abbrev pub size_at : json.Json → String → Result ℕ
  size_at j k = and_then (json_at json j k) λ v. or_throw type_error (get_size v)

  -- from_response, once the text is parsed
  unfoldable pub from_json : json.Json → Result (Option WnsToken)
  from_json js =
      if contains js "token_type"
      then (and_then (string_at json js "token_type") λ type.
          if contains js "access_token"
          then (and_then (string_at json js "access_token") λ token.
              if contains js "expires_in"
              then (and_then (size_at js "expires_in") λ expires_in_seconds. ok (
                  some (record {
                    type = type;
                    token = token;
                    expires = get_expires_date now expires_in_seconds;
                  })))
              else ok none)
          else ok none)
      else ok none

  abbrev pub parsed : Option json.Json → Result (Option WnsToken)
  parsed none = ok none
  parsed (some js) = from_json js

  -- Only parse_error is caught: the exceptions of from_json leave the function.
  unfoldable pub from_response : String → Result (Option WnsToken)
  from_response response = parsed (json.parse response)
