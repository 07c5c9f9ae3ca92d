-- ===== src/Messages/Response/Success.antt =====
-- tcp/messages/SuccessResponseMessage.{hpp,cpp}
use uwpx_push_server.Common.{
  assertion_failed, err, ◌≢◌, true, ◌≡◌, Bool, Result, ok, construct, and_then, ℤ, pos, arith,
  Reader,
}
use uwpx_push_server.Json.{JsonLib, JsonLaws}
use uwpx_push_server.Messages.Header
use uwpx_push_server.Messages.Header.{int_at, string_at, MessageType}
use uwpx_push_server.Messages.Response
use uwpx_push_server.Messages.Response.{AbstractResponseMessage, IsResponse}

abbrev pub success_status : ℤ
success_status = pos 1

-- The class adds no field and does not override from_json and to_json.
abbrev pub SuccessResponseMessage : Type 0
SuccessResponseMessage = AbstractResponseMessage

-- SuccessResponseMessage()
abbrev pub create : SuccessResponseMessage
create = Response.create success_status

abbrev pub get_type : SuccessResponseMessage → MessageType
get_type m = MessageType.success_response_message

module _ (lib : JsonLib) where
  abbrev pub from_json : lib.Json → Reader SuccessResponseMessage (Unit {0})
  from_json = Response.from_json lib

  abbrev pub to_json : Bool → SuccessResponseMessage → lib.Object → Result lib.Object
  to_json = Response.to_json lib

  -- SuccessResponseMessage(j)
  unfoldable pub of_json : lib.Json → Result SuccessResponseMessage
  unfolding Response.from_json
  of_json j = construct Response.set_valid (from_json j) Response.blank

  pub of_json-IsResponse :
      (j : lib.Json) (m : SuccessResponseMessage)
      → of_json j ≡ ok m
      → m.base.is_valid ≡ true
      → IsResponse m
  unfolding of_json Header.from_json
  of_json-IsResponse j m h v = ground arith

  pub of_json-header :
      (j : lib.Json) (m : SuccessResponseMessage)
      → of_json j ≡ ok m
      → m.base.is_valid ≡ true
      → (string_at lib j "action" ≡ ok m.base.action) × (int_at lib j "status" ≡ ok m.status)
  unfolding of_json Header.from_json
  of_json-header j m h v = ground arith

  pub of_json-ne-assertion : (j : lib.Json) → of_json j ≢ err assertion_failed
  unfolding of_json Header.from_json
  of_json-ne-assertion j h = ground arith

  module _ (laws : JsonLaws lib) (ndebug : Bool) where
    open laws use {contains_put, at_put, get_of_string, get_of_int}

    pub of_json-to_json :
        (m : SuccessResponseMessage)
        → IsResponse m
        → and_then (to_json ndebug m lib.empty) (λ o. of_json (lib.json o)) ≡ ok m
    unfolding of_json Response.to_json Header.from_json
    of_json-to_json m w =
        simp
          (
            contains_put, at_put, get_of_string, get_of_int, w.header.valid, w.header.supported,
            w.header.named, w.known,
          )
          (ground arith)
