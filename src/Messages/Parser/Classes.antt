-- ===== src/Messages/Parser/Classes.antt =====
-- Which message parse_json makes of an object, and what that message satisfies.
use uwpx_push_server.Common.{
  false, if◌then◌else◌, none, Option, Result, and_then, and_then-eq-ok, ◌≡◌, Bool, true, String,
  some, ok, arith, ℤ, eqℤ_iff, eq_iff, ap, ◌∙◌,
}
use uwpx_push_server.Json.{JsonLib}
use uwpx_push_server.Messages.Header.{string_at, int_at}
use uwpx_push_server.Messages.SetChannelUri
use uwpx_push_server.Messages.SetPushAccounts
use uwpx_push_server.Messages.RequestTestPush
use uwpx_push_server.Messages.Response
use uwpx_push_server.Messages.Response.{IsResponse}
use uwpx_push_server.Messages.Response.Success
use uwpx_push_server.Messages.Response.Success.{success_status}
use uwpx_push_server.Messages.Response.Failure
use uwpx_push_server.Messages.Response.Failure.{error_status}
use uwpx_push_server.Messages.SuccessSetPushAccounts.Laws as SuccessSetLaws
use uwpx_push_server.Messages.Parser.{
  Message, set_channel_uri, set_push_accounts, request_test_push, success,
  success_set_push_accounts, failure, header, respond, response, dispatch, parse_json, parse_action,
}

-- A message that is well-formed and carries the action and the status of its class.
abbrev pub IsSendable : Message → Type 0
IsSendable (set_channel_uri m) =
    SetChannelUri.IsWellFormed m × (m.base.action ≡ SetChannelUri.action)
IsSendable (set_push_accounts m) =
    SetPushAccounts.IsWellFormed m × (m.base.action ≡ SetPushAccounts.action)
IsSendable (request_test_push m) =
    RequestTestPush.IsWellFormed m × (m.base.action ≡ RequestTestPush.action)
IsSendable (success m) =
    IsResponse m × (m.base.action ≡ Response.action) × (m.status ≡ success_status)
IsSendable (success_set_push_accounts m) =
    SuccessSetLaws.IsWellFormed m
    × (m.base.base.action ≡ Response.action)
    × (m.base.status ≡ success_status)
IsSendable (failure m) =
    IsResponse m.base × (m.base.base.action ≡ Response.action) × (m.base.status ≡ error_status)

abbrev IsResponseClass : Message → Type 0
IsResponseClass (success m) = Unit
IsResponseClass (success_set_push_accounts m) = Unit
IsResponseClass (failure m) = Unit
IsResponseClass _ = ⊥

if-eq-some :
    (b : Bool) (r : Result (Option Message)) {m : Message}
    → (if b then r else ok none) ≡ ok (some m)
    → r ≡ ok (some m)
if-eq-some true r h = h
if-eq-some false r h = cc

module _ (lib : JsonLib) where
  module _ (j : lib.Json) (acted : string_at lib j "action" ≡ ok Response.action) where
    answered :
        (m : Message)
        → response lib j ≡ ok (some m)
        → and_then (int_at lib j "status") (respond lib j) ≡ ok (some m)
    unfolding response
    answered m h = ground arith

    respond-IsSendable :
        (s : ℤ) (m : Message)
        → int_at lib j "status" ≡ ok s
        → respond lib j s ≡ ok (some m)
        → (header m).is_valid ≡ true
        → IsSendable m
    unfolding respond
    respond-IsSendable s (success m) e h v = ground (
      arith,
      Success.of_json-IsResponse lib j m,
      Success.of_json-header lib j m,
      eqℤ_iff s success_status,
    )
    respond-IsSendable s (success_set_push_accounts m) e h v = ground (
      arith,
      SuccessSetLaws.of_json-IsWellFormed lib j m,
      SuccessSetLaws.of_json-header lib j m,
      eqℤ_iff s success_status,
    )
    respond-IsSendable s (failure m) e h v = ground (
      arith,
      Failure.of_json-IsResponse lib j m,
      Failure.of_json-header lib j m,
      eqℤ_iff s error_status,
    )
    respond-IsSendable s m e h v = ground arith

    response-IsSendable :
        (m : Message) → response lib j ≡ ok (some m) → (header m).is_valid ≡ true → IsSendable m
    response-IsSendable m h v =
        let (s, e, r) = and_then-eq-ok (int_at lib j "status") (respond lib j) (answered m h) in
        respond-IsSendable s m e r v

  response-class : (j : lib.Json) (m : Message) → response lib j ≡ ok (some m) → IsResponseClass m
  unfolding response respond
  response-class j (success m) h = tt
  response-class j (success_set_push_accounts m) h = tt
  response-class j (failure m) h = tt
  response-class j m h = ground arith

  -- What dispatch has made of the object, by the class that it has chosen.
  abbrev Chosen : lib.Json → String → Message → Type 0
  Chosen j a (set_channel_uri m) = (a ≡ SetChannelUri.action) × (SetChannelUri.of_json lib j ≡ ok m)
  Chosen j a (set_push_accounts m) =
      (a ≡ SetPushAccounts.action) × (SetPushAccounts.of_json lib j ≡ ok m)
  Chosen j a (request_test_push m) =
      (a ≡ RequestTestPush.action) × (RequestTestPush.of_json lib j ≡ ok m)
  Chosen j a m = (a ≡ Response.action) × (response lib j ≡ ok (some m))

  dispatch-Chosen :
      (j : lib.Json) (a : String) (m : Message) → dispatch lib j a ≡ ok (some m) → Chosen j a m
  unfolding dispatch
  dispatch-Chosen j a (set_channel_uri m) h = ground (
    arith,
    eq_iff a SetChannelUri.action,
    eq_iff a SetPushAccounts.action,
    eq_iff a RequestTestPush.action,
    eq_iff a Response.action,
    response-class j (set_channel_uri m),
  )
  dispatch-Chosen j a m h = ground (
    arith,
    eq_iff a SetChannelUri.action,
    eq_iff a SetPushAccounts.action,
    eq_iff a RequestTestPush.action,
    eq_iff a Response.action,
    response-class j m,
  )

  Chosen-IsSendable :
      (j : lib.Json) (a : String) (m : Message)
      → string_at lib j "action" ≡ ok a
      → Chosen j a m
      → (header m).is_valid ≡ true
      → IsSendable m
  Chosen-IsSendable j a (set_channel_uri m) e (c, h) v = (
    SetChannelUri.of_json-IsWellFormed lib j m h v,
    cc (SetChannelUri.of_json-action lib j m h v),
  )
  Chosen-IsSendable j a (set_push_accounts m) e (c, h) v = (
    SetPushAccounts.of_json-IsWellFormed lib j m h v,
    cc (SetPushAccounts.of_json-action lib j m h v),
  )
  Chosen-IsSendable j a (request_test_push m) e (c, h) v = (
    RequestTestPush.of_json-IsWellFormed lib j m h v,
    cc (RequestTestPush.of_json-action lib j m h v),
  )
  Chosen-IsSendable j a (success m) e (c, h) v = response-IsSendable j (e ∙ ap ok c) (success m) h v
  Chosen-IsSendable j a (success_set_push_accounts m) e (c, h) v =
      response-IsSendable j (e ∙ ap ok c) (success_set_push_accounts m) h v
  Chosen-IsSendable j a (failure m) e (c, h) v = response-IsSendable j (e ∙ ap ok c) (failure m) h v

  parse_json_acted :
      (ndebug : Bool) (j : lib.Json) (m : Message)
      → parse_json lib ndebug j ≡ ok (some m)
      → and_then (string_at lib j "action") (parse_action lib ndebug j) ≡ ok (some m)
  unfolding parse_json parse_action
  parse_json_acted ndebug j m = if-eq-some (lib.contains j "action") _

  parse_action_dispatched :
      (ndebug : Bool) (j : lib.Json) (a : String) (m : Message)
      → parse_action lib ndebug j a ≡ ok (some m)
      → dispatch lib j a ≡ ok (some m)
  unfolding parse_action
  parse_action_dispatched ndebug j a m h = ground arith

  -- A message that parse_json returns as valid satisfies all that its class demands, and it is of
  -- the class that its action and its status name.
  pub parse_json-IsSendable :
      (ndebug : Bool) (j : lib.Json) (m : Message)
      → parse_json lib ndebug j ≡ ok (some m)
      → (header m).is_valid ≡ true
      → IsSendable m
  parse_json-IsSendable ndebug j m h v =
      let (a, e, r) =
        and_then-eq-ok (string_at lib j "action") (parse_action lib ndebug j)
          (parse_json_acted ndebug j m h) in
      Chosen-IsSendable j a m e (dispatch-Chosen j a m (parse_action_dispatched ndebug j a m r)) v
