-- ===== src/Messages/Response/Failure.antt =====
-- tcp/messages/ErrorResponseMessage.{hpp,cpp}
use uwpx_push_server.Common.{
  assertion_failed, err, ◌≢◌, ◌≡◌, Bool, true, String, Result, ok, construct, and_then, ℤ, pos,
  arith, Reader, ◌>>◌, inherit, require, assign, accept,
}
use uwpx_push_server.Json.{JsonLib, JsonLaws}
use uwpx_push_server.Messages.Header
use uwpx_push_server.Messages.Header.{int_at, MessageType, string_at}
use uwpx_push_server.Messages.Response
use uwpx_push_server.Messages.Response.{AbstractResponseMessage, IsResponse}

abbrev pub error_status : ℤ
error_status = pos 0

pub record ErrorResponseMessage : Type 0 where
  pub base : AbstractResponseMessage
  pub error : String

-- ErrorResponseMessage(error)
abbrev pub create : String → ErrorResponseMessage
create e = record { base = Response.create error_status; error = e }

abbrev pub blank : ErrorResponseMessage
blank = record { base = Response.blank; error = "" }

abbrev set_base : AbstractResponseMessage → ErrorResponseMessage → ErrorResponseMessage
set_base b m = record m { base = b }

abbrev set_valid : Bool → ErrorResponseMessage → ErrorResponseMessage
set_valid b m = record m { base = Response.set_valid b m.base }

abbrev pub get_type : ErrorResponseMessage → MessageType
get_type m = MessageType.error_response_message

module _ (lib : JsonLib) where
  open lib use {contains, put, of_string}

  unfoldable pub from_json : lib.Json → Reader ErrorResponseMessage (Unit {0})
  unfolding Response.from_json
  from_json j = do
    inherit (λ m. m.base) set_base (Response.from_json lib j)
    require (contains j "error")
    assign (string_at lib j "error") (λ e m. record m { error = e })
    accept

  -- ErrorResponseMessage(j)
  unfoldable pub of_json : lib.Json → Result ErrorResponseMessage
  unfolding from_json
  of_json j = construct set_valid (from_json j) blank

  unfoldable pub to_json : Bool → ErrorResponseMessage → lib.Object → Result lib.Object
  unfolding Response.to_json
  to_json ndebug m j =
      and_then (Response.to_json lib ndebug m.base j) λ j. ok (put j "error" (of_string m.error))

  pub of_json-IsResponse :
      (j : lib.Json) (m : ErrorResponseMessage)
      → of_json j ≡ ok m
      → m.base.base.is_valid ≡ true
      → IsResponse m.base
  unfolding of_json Header.from_json
  of_json-IsResponse j m h v = ground arith

  pub of_json-header :
      (j : lib.Json) (m : ErrorResponseMessage)
      → of_json j ≡ ok m
      → m.base.base.is_valid ≡ true
      → (string_at lib j "action" ≡ ok m.base.base.action)
        × (int_at lib j "status" ≡ ok m.base.status)
  unfolding of_json Header.from_json
  of_json-header j m h v = ground arith

  pub of_json-ne-assertion : (j : lib.Json) → of_json j ≢ err assertion_failed
  unfolding of_json Header.from_json
  of_json-ne-assertion j h = ground arith

  module _ (laws : JsonLaws lib) (ndebug : Bool) where
    open laws use {contains_put, at_put, get_of_string, get_of_int}

    pub of_json-to_json :
        (m : ErrorResponseMessage)
        → IsResponse m.base
        → and_then (to_json ndebug m lib.empty) (λ o. of_json (lib.json o)) ≡ ok m
    unfolding of_json to_json Header.from_json
    of_json-to_json m w =
        simp
          (
            contains_put, at_put, get_of_string, get_of_int, w.header.valid, w.header.supported,
            w.header.named, w.known,
          )
          (ground arith)
