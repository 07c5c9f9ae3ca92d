-- ===== src/Messages/Response.antt =====
-- tcp/messages/AbstractResponseMessage.{hpp,cpp}, SuccessResponseMessage.{hpp,cpp} and
-- ErrorResponseMessage.{hpp,cpp}
pub mod Success
pub mod Failure
use uwpx_push_server.Common.{
  ◌≡◌, Option, is_some, is_empty, arith, Bool, true, false, not, String, Result, ok, Reader, ◌>>=◌,
  ◌>>◌, require, assign, inherit, and_then, ℤ, pos, negsuc, eqℤ,
}
use uwpx_push_server.Json.{JsonLib}
use uwpx_push_server.Messages.Header
use uwpx_push_server.Messages.Header.{
  string_at, AbstractMessage, MessageType, IsHeader, int_at, is_supported,
}

abbrev pub action : String
action = "response"

pub record AbstractResponseMessage : Type 0 where
  pub base : AbstractMessage
  pub status : ℤ

-- AbstractResponseMessage(status)
abbrev pub create : ℤ → AbstractResponseMessage
create s = record { base = Header.create action; status = s }

abbrev pub blank : AbstractResponseMessage
blank = record { base = Header.blank; status = negsuc 0 }

abbrev pub set_base : AbstractMessage → AbstractResponseMessage → AbstractResponseMessage
set_base b m = record m { base = b }

abbrev pub set_valid : Bool → AbstractResponseMessage → AbstractResponseMessage
set_valid b m = record m { base = Header.set_valid b m.base }

abbrev pub get_type : AbstractResponseMessage → MessageType
get_type m = MessageType.abstract_response_message

module _ (lib : JsonLib) where
  open lib use {contains, put, of_int}

  unfoldable pub from_json : lib.Json → Reader AbstractResponseMessage (Unit {0})
  from_json j = do
    inherit (λ m. m.base) set_base (Header.from_json lib j)
    require (contains j "status")
    s ← assign (int_at lib j "status") (λ s m. record m { status = s })
    require (not (eqℤ s (negsuc 0)))

  unfoldable pub to_json : Bool → AbstractResponseMessage → lib.Object → Result lib.Object
  unfolding Header.to_json
  to_json ndebug m j =
      and_then (Header.to_json lib ndebug m.base j) λ j. ok (put j "status" (of_int m.status))

-- What from_json has checked of a response.
pub record IsResponse (m : AbstractResponseMessage) : Type 0 where
  pub header : IsHeader m.base
  pub known : eqℤ m.status (negsuc 0) ≡ false

module _ (lib : JsonLib) where
  -- A successful from_json has checked the version, the action and the status.
  module _ (j : lib.Json) (m : AbstractResponseMessage)
      {r : Option (Unit {0}) × AbstractResponseMessage} where
    pub from_json_supported :
        from_json lib j m ≡ ok r → is_some r.0 ≡ true → is_supported r.1.base.version ≡ true
    unfolding from_json Header.from_json
    from_json_supported h a = ground arith

    pub from_json_named :
        from_json lib j m ≡ ok r → is_some r.0 ≡ true → is_empty r.1.base.action ≡ false
    unfolding from_json Header.from_json
    from_json_named h a = ground arith

    pub from_json_known :
        from_json lib j m ≡ ok r → is_some r.0 ≡ true → eqℤ r.1.status (negsuc 0) ≡ false
    unfolding from_json Header.from_json
    from_json_known h a = ground arith

    pub from_json_action :
        from_json lib j m ≡ ok r
        → is_some r.0 ≡ true
        → string_at lib j "action" ≡ ok r.1.base.action
    unfolding from_json Header.from_json
    from_json_action h a = ground arith

    pub from_json_status :
        from_json lib j m ≡ ok r → is_some r.0 ≡ true → int_at lib j "status" ≡ ok r.1.status
    unfolding from_json Header.from_json
    from_json_status h a = ground arith
