-- ===== src/Messages/Parser.antt =====
-- tcp/messages/Parser.{hpp,cpp}
pub mod Classes
pub mod Returns
pub mod RoundTrip
pub mod Malformed
use uwpx_push_server.Common.{
  ℤ, Bool, true, false, String, Option, none, some, Result, ok, and_then, assert_then, catch,
  is_empty, ◌==◌, if◌then◌else◌, eqℤ,
}
use uwpx_push_server.Json.{JsonLib}
use uwpx_push_server.Messages.Header.{AbstractMessage, MessageType, string_at, int_at}
use uwpx_push_server.Messages.SetChannelUri
use uwpx_push_server.Messages.SetChannelUri.{SetChannelUriMessage}
use uwpx_push_server.Messages.SetPushAccounts
use uwpx_push_server.Messages.SetPushAccounts.{SetPushAccountsMessage}
use uwpx_push_server.Messages.RequestTestPush
use uwpx_push_server.Messages.RequestTestPush.{RequestTestPushMessage}
use uwpx_push_server.Messages.Response
use uwpx_push_server.Messages.Response.Success
use uwpx_push_server.Messages.Response.Success.{SuccessResponseMessage, success_status}
use uwpx_push_server.Messages.Response.Failure
use uwpx_push_server.Messages.Response.Failure.{ErrorResponseMessage, error_status}
use uwpx_push_server.Messages.SuccessSetPushAccounts
use uwpx_push_server.Messages.SuccessSetPushAccounts.{SuccessSetPushAccountsMessage}

-- What the shared pointer that parse returns can point to.
pub data Message : Type 0 where
  set_channel_uri : SetChannelUriMessage → Message
  set_push_accounts : SetPushAccountsMessage → Message
  request_test_push : RequestTestPushMessage → Message
  success : SuccessResponseMessage → Message
  success_set_push_accounts : SuccessSetPushAccountsMessage → Message
  failure : ErrorResponseMessage → Message

abbrev pub header : Message → AbstractMessage
header (set_channel_uri m) = m.base
header (set_push_accounts m) = m.base
header (request_test_push m) = m.base
header (success m) = m.base
header (success_set_push_accounts m) = m.base.base
header (failure m) = m.base.base

-- the virtual get_type
abbrev pub get_type : Message → MessageType
get_type (set_channel_uri m) = SetChannelUri.get_type m
get_type (set_push_accounts m) = SetPushAccounts.get_type m
get_type (request_test_push m) = RequestTestPush.get_type m
get_type (success m) = Success.get_type m
get_type (success_set_push_accounts m) = SuccessSetPushAccounts.get_type m
get_type (failure m) = Failure.get_type m

-- std::make_shared<C>(j)
abbrev made {ℓ} : {C : Type ℓ} → (C → Message) → Result C → Result (Option Message)
made wrap r = and_then r λ m. ok (some (wrap m))

-- !result || result->is_valid()
abbrev pub null_or_valid : Option Message → Bool
null_or_valid none = true
null_or_valid (some m) = (header m).is_valid

module _ (lib : JsonLib) where
  open lib use {contains}

  -- the response messages, by their status
  unfoldable pub respond : lib.Json → ℤ → Result (Option Message)
  respond j status =
      if eqℤ status success_status
      then (if contains j "accounts"
          then made success_set_push_accounts (SuccessSetPushAccounts.of_json lib j)
          else made success (Success.of_json lib j))
      else if eqℤ status error_status
      then made failure (Failure.of_json lib j)
      else ok none

  unfoldable pub response : lib.Json → Result (Option Message)
  response j = if contains j "status" then and_then (int_at lib j "status") (respond j) else ok none

  -- the message that parse_json makes of the object, before it looks at its validity
  unfoldable pub dispatch : lib.Json → String → Result (Option Message)
  dispatch j action =
      if action == SetChannelUri.action
      then made set_channel_uri (SetChannelUri.of_json lib j)
      else if action == SetPushAccounts.action
      then made set_push_accounts (SetPushAccounts.of_json lib j)
      else if action == RequestTestPush.action
      then made request_test_push (RequestTestPush.of_json lib j)
      else if action == Response.action
      then response j
      else ok none

  -- the rest of parse_json, once the action is known
  unfoldable pub parse_action : Bool → lib.Json → String → Result (Option Message)
  parse_action ndebug j action =
      if is_empty action
      then ok none
      else (and_then (dispatch j action)
          λ result. assert_then (null_or_valid result) ndebug (ok result))

  unfoldable pub parse_json : Bool → lib.Json → Result (Option Message)
  parse_json ndebug j =
      if contains j "action"
      then and_then (string_at lib j "action") (parse_action ndebug j)
      else ok none

  abbrev parsed : Bool → Option lib.Json → Result (Option Message)
  parsed ndebug none = ok none
  parsed ndebug (some j) = parse_json ndebug j

  unfoldable pub parse : Bool → String → Result (Option Message)
  parse ndebug s = catch (parsed ndebug (lib.parse s)) (ok none)

-- the virtual to_json
unfoldable pub to_json : (lib : JsonLib) → Bool → Message → lib.Object → Result lib.Object
to_json lib ndebug (set_channel_uri m) = SetChannelUri.to_json lib ndebug m
to_json lib ndebug (set_push_accounts m) = SetPushAccounts.to_json lib ndebug m
to_json lib ndebug (request_test_push m) = RequestTestPush.to_json lib ndebug m
to_json lib ndebug (success m) = Success.to_json lib ndebug m
to_json lib ndebug (success_set_push_accounts m) = SuccessSetPushAccounts.to_json lib ndebug m
to_json lib ndebug (failure m) = Failure.to_json lib ndebug m
