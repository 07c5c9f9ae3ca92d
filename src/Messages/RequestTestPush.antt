-- ===== src/Messages/RequestTestPush.antt =====
-- tcp/messages/RequestTestPushMessage.{hpp,cpp}
use uwpx_push_server.Common.{
  assertion_failed, err, ◌≢◌, ◌≡◌, Bool, true, false, not, String, Result, ok, Reader, ◌>>=◌, ◌>>◌,
  require, assign, inherit, construct, and_then, is_empty, arith,
}
use uwpx_push_server.Json.{JsonLib, JsonLaws}
use uwpx_push_server.Messages.Header
use uwpx_push_server.Messages.Header.{AbstractMessage, MessageType, IsHeader, string_at}

abbrev pub action : String
action = "request_test_push"

pub record RequestTestPushMessage : Type 0 where
  pub base : AbstractMessage
  pub device_id : String

abbrev pub create : String → RequestTestPushMessage
create device = record { base = Header.create action; device_id = device }

abbrev pub blank : RequestTestPushMessage
blank = record { base = Header.blank; device_id = "" }

abbrev set_base : AbstractMessage → RequestTestPushMessage → RequestTestPushMessage
set_base b m = record m { base = b }

abbrev set_valid : Bool → RequestTestPushMessage → RequestTestPushMessage
set_valid b m = record m { base = Header.set_valid b m.base }

abbrev pub get_type : RequestTestPushMessage → MessageType
get_type m = MessageType.request_test_push_message

module _ (lib : JsonLib) where
  open lib use {contains, put, of_string, json, empty}

  unfoldable pub from_json : lib.Json → Reader RequestTestPushMessage (Unit {0})
  from_json j = do
    inherit (λ m. m.base) set_base (Header.from_json lib j)
    require (contains j "device_id")
    d ← assign (string_at lib j "device_id") (λ d m. record m { device_id = d })
    require (not (is_empty d))

  -- RequestTestPushMessage(j)
  unfoldable pub of_json : lib.Json → Result RequestTestPushMessage
  unfolding from_json
  of_json j = construct set_valid (from_json j) blank

  unfoldable pub to_json : Bool → RequestTestPushMessage → lib.Object → Result lib.Object
  unfolding Header.to_json
  to_json ndebug m j =
      and_then (Header.to_json lib ndebug m.base j)
        λ j. ok (put j "device_id" (of_string m.device_id))

pub record IsWellFormed (m : RequestTestPushMessage) : Type 0 where
  pub header : IsHeader m.base
  pub device : is_empty m.device_id ≡ false

module _ (lib : JsonLib) where
  pub of_json-IsWellFormed :
      (j : lib.Json) (m : RequestTestPushMessage)
      → of_json lib j ≡ ok m
      → m.base.is_valid ≡ true
      → IsWellFormed m
  unfolding of_json Header.from_json
  of_json-IsWellFormed j m h v = ground arith

  pub of_json-action :
      (j : lib.Json) (m : RequestTestPushMessage)
      → of_json lib j ≡ ok m
      → m.base.is_valid ≡ true
      → string_at lib j "action" ≡ ok m.base.action
  unfolding of_json Header.from_json
  of_json-action j m h v = ground arith

  pub of_json-ne-assertion : (j : lib.Json) → of_json lib j ≢ err assertion_failed
  unfolding of_json Header.from_json
  of_json-ne-assertion j h = ground arith

  module _ (laws : JsonLaws lib) (ndebug : Bool) where
    open laws use {contains_empty, contains_put, at_put, get_of_string, get_of_int}

    pub of_json-to_json :
        (m : RequestTestPushMessage)
        → IsWellFormed m
        → and_then (to_json lib ndebug m lib.empty) (λ o. of_json lib (lib.json o)) ≡ ok m
    unfolding of_json to_json Header.from_json
    of_json-to_json m w =
        simp
          (
            contains_put, at_put, get_of_string, get_of_int, w.header.valid, w.header.supported,
            w.header.named, w.device,
          )
          (ground arith)
