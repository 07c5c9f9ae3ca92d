-- ===== src/Messages/Header.antt =====
-- tcp/messages/AbstractMessage.{hpp,cpp}: the part that every message has.
use uwpx_push_server.Common.{
  type_error, out_of_range, or_throw, arith, ◌≡◌, Bool, true, false, not, ◌||◌, String, Result, ok,
  Reader, Option, is_some, ◌>>=◌, ◌>>◌, require, assign, and_then, assert_then, ℤ, pos, negsuc, ltℤ,
  is_empty,
}
use uwpx_push_server.Json.{JsonLib}

pub data MessageType : Type 0 where
  abstract_message abstract_response_message error_response_message : MessageType
  request_test_push_message set_channel_uri_message set_push_account_message : MessageType
  success_response_message success_set_push_account_message push test_push : MessageType

abbrev pub version : ℤ
version = pos 2

pub record AbstractMessage : Type 0 where
  pub is_valid : Bool
  pub version : ℤ
  pub action : String

-- AbstractMessage()
abbrev pub blank : AbstractMessage
blank = record { is_valid = true; version = negsuc 0; action = "" }

-- AbstractMessage(action)
abbrev pub create : String → AbstractMessage
create a = record { is_valid = true; version = version; action = a }

abbrev pub set_valid : Bool → AbstractMessage → AbstractMessage
set_valid b m = record m { is_valid = b }

-- `!(version < 1 || version > VERSION)`
unfoldable pub is_supported : ℤ → Bool
is_supported v = not (ltℤ v (pos 1) || ltℤ version v)

module _ (lib : JsonLib) where
  open lib use {contains, at, get_string, get_int, get_bool, put, of_string, of_int}

  abbrev pub json_at : lib.Json → String → Result lib.Json
  json_at j k = or_throw out_of_range (at j k)

  -- `std::string s = j[key]`, `j.at(key).get_to(s)`
  abbrev pub string_at : lib.Json → String → Result String
  string_at j k = and_then (json_at j k) λ v. or_throw type_error (get_string v)

  abbrev pub int_at : lib.Json → String → Result ℤ
  int_at j k = and_then (json_at j k) λ v. or_throw type_error (get_int v)

  abbrev pub bool_at : lib.Json → String → Result Bool
  bool_at j k = and_then (json_at j k) λ v. or_throw type_error (get_bool v)

  unfoldable pub from_json : lib.Json → Reader AbstractMessage (Unit {0})
  from_json j = do
    require (contains j "version")
    v ← assign (int_at j "version") (λ v m. record m { version = v })
    require (is_supported v)
    require (contains j "action")
    a ← assign (string_at j "action") (λ a m. record m { action = a })
    require (not (is_empty a))

  unfoldable pub to_json : Bool → AbstractMessage → lib.Object → Result lib.Object
  to_json ndebug m j =
      assert_then m.is_valid ndebug
        (ok (put (put j "version" (of_int m.version)) "action" (of_string m.action)))

-- What from_json has checked of the part that every message has.
pub record IsHeader (m : AbstractMessage) : Type 0 where
  pub valid : m.is_valid ≡ true
  pub supported : is_supported m.version ≡ true
  pub named : is_empty m.action ≡ false

module _ (lib : JsonLib) where
  -- A successful from_json has checked the version and the action.
  module _ (j : lib.Json) (m : AbstractMessage) {r : Option (Unit {0}) × AbstractMessage} where
    pub from_json_supported :
        from_json lib j m ≡ ok r → is_some r.0 ≡ true → is_supported r.1.version ≡ true
    unfolding from_json
    from_json_supported h a = ground arith

    pub from_json_named :
        from_json lib j m ≡ ok r → is_some r.0 ≡ true → is_empty r.1.action ≡ false
    unfolding from_json
    from_json_named h a = ground arith

    pub from_json_action :
        from_json lib j m ≡ ok r → is_some r.0 ≡ true → string_at lib j "action" ≡ ok r.1.action
    unfolding from_json
    from_json_action h a = ground arith
