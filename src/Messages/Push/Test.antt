-- ===== src/Messages/Push/Test.antt =====
-- tcp/messages/TestPushMessage.{hpp,cpp}
use uwpx_push_server.Common.{◌≡◌, Bool, String, Result, ok, construct, and_then, arith}
use uwpx_push_server.Json.{JsonLib, JsonLaws}
use uwpx_push_server.Messages.Header
use uwpx_push_server.Messages.Header.{AbstractMessage, MessageType, IsHeader}

abbrev pub action : String
action = "test_push"

-- The class adds no field and does not override from_json and to_json.
abbrev pub TestPushMessage : Type 0
TestPushMessage = AbstractMessage

-- TestPushMessage()
abbrev pub create : TestPushMessage
create = Header.create action

abbrev pub get_type : TestPushMessage → MessageType
get_type m = MessageType.test_push

module _ (lib : JsonLib) where
  -- TestPushMessage(j)
  unfoldable pub of_json : lib.Json → Result TestPushMessage
  unfolding Header.from_json
  of_json j = construct Header.set_valid (Header.from_json lib j) Header.blank

  abbrev pub to_json : Bool → TestPushMessage → lib.Object → Result lib.Object
  to_json = Header.to_json lib

  module _ (laws : JsonLaws lib) (ndebug : Bool) where
    open laws use {contains_put, at_put, get_of_string, get_of_int}

    pub of_json-to_json :
        (m : TestPushMessage)
        → IsHeader m
        → and_then (to_json ndebug m lib.empty) (λ o. of_json (lib.json o)) ≡ ok m
    unfolding of_json Header.to_json
    of_json-to_json m w =
        simp (contains_put, at_put, get_of_string, get_of_int, w.valid, w.supported, w.named)
          (ground arith)
