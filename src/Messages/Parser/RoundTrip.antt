-- ===== src/Messages/Parser/RoundTrip.antt =====
-- What to_json writes, parse_json reads back.
use uwpx_push_server.Common.{arith, is_empty, ◌≡◌, Bool, ok, some, and_then}
use uwpx_push_server.Json.{JsonLib, JsonLaws}
use uwpx_push_server.Messages.SetChannelUri
use uwpx_push_server.Messages.SetPushAccounts
use uwpx_push_server.Messages.RequestTestPush
use uwpx_push_server.Messages.Response
use uwpx_push_server.Messages.Response.Success
use uwpx_push_server.Messages.Response.Failure
use uwpx_push_server.Messages.SuccessSetPushAccounts
use uwpx_push_server.Messages.SuccessSetPushAccounts.Laws as SuccessSetLaws
use uwpx_push_server.Messages.Parser.{
  Message, set_channel_uri, set_push_accounts, request_test_push, success,
  success_set_push_accounts, failure, parse_json, parse_action, dispatch, response, respond,
  to_json,
}
use uwpx_push_server.Messages.Parser.Classes.{IsSendable}

module _ (lib : JsonLib) (laws : JsonLaws lib) (ndebug : Bool) where
  open laws use {contains_empty, contains_put, at_put, get_of_string, get_of_int}

  abbrev Back : Message → Type 0
  Back m =
      and_then (to_json lib ndebug m lib.empty) (λ o. parse_json lib ndebug (lib.json o))
      ≡ ok (some m)

  set_channel_uri-Back :
      (m : SetChannelUri.SetChannelUriMessage)
      → IsSendable (set_channel_uri m)
      → Back (set_channel_uri m)
  unfolding to_json SetChannelUri.to_json parse_json parse_action dispatch is_empty
  set_channel_uri-Back m (w, a) =
      let back = simp (w.header.valid, a) at (SetChannelUri.of_json-to_json lib laws ndebug m w) in
      simp (contains_put, at_put, get_of_string, w.header.valid, a, back) (ground arith)

  set_push_accounts-Back :
      (m : SetPushAccounts.SetPushAccountsMessage)
      → IsSendable (set_push_accounts m)
      → Back (set_push_accounts m)
  unfolding to_json SetPushAccounts.to_json parse_json parse_action dispatch is_empty
  set_push_accounts-Back m (w, a) =
      let back =
        simp (w.header.valid, a) at (SetPushAccounts.of_json-to_json lib laws ndebug m w) in
      simp (contains_put, at_put, get_of_string, w.header.valid, a, back) (ground arith)

  request_test_push-Back :
      (m : RequestTestPush.RequestTestPushMessage)
      → IsSendable (request_test_push m)
      → Back (request_test_push m)
  unfolding to_json RequestTestPush.to_json parse_json parse_action dispatch is_empty
  request_test_push-Back m (w, a) =
      let back =
        simp (w.header.valid, a) at (RequestTestPush.of_json-to_json lib laws ndebug m w) in
      simp (contains_put, at_put, get_of_string, w.header.valid, a, back) (ground arith)

  success-Back : (m : Success.SuccessResponseMessage) → IsSendable (success m) → Back (success m)
  unfolding to_json Response.to_json parse_json parse_action dispatch response respond is_empty
  success-Back m (w, a, st) =
      let back = simp (w.header.valid, a, st) at (Success.of_json-to_json lib laws ndebug m w) in
      simp
        (
          contains_empty, contains_put, at_put, get_of_string, get_of_int, w.header.valid, a, st,
          back,
        )
        (ground arith)

  success_set_push_accounts-Back :
      (m : SuccessSetPushAccounts.SuccessSetPushAccountsMessage)
      → IsSendable (success_set_push_accounts m)
      → Back (success_set_push_accounts m)
  unfolding to_json SuccessSetPushAccounts.to_json parse_json parse_action dispatch response respond
      is_empty
  success_set_push_accounts-Back m (w, a, st) =
      let back =
        simp (w.response.header.valid, a, st) at
          (SuccessSetLaws.of_json-to_json lib laws ndebug m w) in
      simp (contains_put, at_put, get_of_string, get_of_int, w.response.header.valid, a, st, back)
        (ground arith)

  failure-Back : (m : Failure.ErrorResponseMessage) → IsSendable (failure m) → Back (failure m)
  unfolding to_json Failure.to_json parse_json parse_action dispatch response respond is_empty
  failure-Back m (w, a, st) =
      let back = simp (w.header.valid, a, st) at (Failure.of_json-to_json lib laws ndebug m w) in
      simp (contains_put, at_put, get_of_string, get_of_int, w.header.valid, a, st, back)
        (ground arith)

  -- A well-formed message that carries the action and the status of its class, written as JSON and
  -- parsed, is the message.
  pub parse_json-to_json :
      (m : Message)
      → IsSendable m
      → and_then (to_json lib ndebug m lib.empty) (λ o. parse_json lib ndebug (lib.json o))
        ≡ ok (some m)
  parse_json-to_json (set_channel_uri m) s = set_channel_uri-Back m s
  parse_json-to_json (set_push_accounts m) s = set_push_accounts-Back m s
  parse_json-to_json (request_test_push m) s = request_test_push-Back m s
  parse_json-to_json (success m) s = success-Back m s
  parse_json-to_json (success_set_push_accounts m) s = success_set_push_accounts-Back m s
  parse_json-to_json (failure m) s = failure-Back m s
