-- ===== src/Messages/Parser/Returns.antt =====
-- What parse returns, on every input, with assertions and without.
use uwpx_push_server.Common.{
  Error, refl, if◌then◌else◌, ◌==◌, inr, eqℤ, inl, ℤ, ◌⊎◌, ◌≡◌, ◌≢◌, Bool, true, false, String,
  Option, none, some, Result, ok, err, assertion_failed, arith, catch,
}
use uwpx_push_server.Messages.Response
use uwpx_push_server.Json.{JsonLib}
use uwpx_push_server.Messages.SetChannelUri
use uwpx_push_server.Messages.SetPushAccounts
use uwpx_push_server.Messages.RequestTestPush
use uwpx_push_server.Messages.Response.Success
use uwpx_push_server.Messages.Response.Failure
use uwpx_push_server.Messages.SuccessSetPushAccounts.Laws as SuccessSetLaws
use uwpx_push_server.Messages.Parser.{
  error_status, success_status, made, Message, set_channel_uri, set_push_accounts,
  request_test_push, success, success_set_push_accounts, failure, null_or_valid, respond, response,
  dispatch, parse_action, parse_json, parsed, parse,
}

abbrev returned : Result (Option Message) → Option Message
returned (ok r) = r
returned (err e) = none

catch_returns :
    (r : Result (Option Message)) → r ≢ err assertion_failed → catch r (ok none) ≡ ok (returned r)
catch_returns r h = ground arith

if-ne {ℓ} : {A : Type ℓ} (b : Bool) {x y e : A} → x ≢ e → y ≢ e → (if b then x else y) ≢ e
if-ne true p q = p
if-ne false p q = q

made-ne-assertion {ℓ} :
    {C : Type ℓ} (wrap : C → Message) (r : Result C)
    → r ≢ err assertion_failed
    → made wrap r ≢ err assertion_failed
made-ne-assertion wrap r h q = ground arith

catch-eq-ok :
    (x : Result (Option Message)) (r : Option Message)
    → catch x (ok none) ≡ ok r
    → (r ≡ none) ⊎ (x ≡ ok r)
catch-eq-ok x r h = ground arith

module _ (lib : JsonLib) where
  respond-ne-assertion : (j : lib.Json) (status : ℤ) → respond lib j status ≢ err assertion_failed
  unfolding respond
  respond-ne-assertion j status =
      if-ne (eqℤ status success_status)
        (if-ne (lib.contains j "accounts")
          (made-ne-assertion success_set_push_accounts _
            (SuccessSetLaws.of_json-ne-assertion lib j))
          (made-ne-assertion success _ (Success.of_json-ne-assertion lib j)))
        (if-ne (eqℤ status error_status)
          (made-ne-assertion failure _ (Failure.of_json-ne-assertion lib j)) (λ h. cc))

  response-ne-assertion : (j : lib.Json) → response lib j ≢ err assertion_failed
  unfolding response
  response-ne-assertion j h = grind (arith, respond-ne-assertion j)

  dispatch-ne-assertion : (j : lib.Json) (a : String) → dispatch lib j a ≢ err assertion_failed
  unfolding dispatch
  dispatch-ne-assertion j a =
      if-ne (a == SetChannelUri.action)
        (made-ne-assertion set_channel_uri _ (SetChannelUri.of_json-ne-assertion lib j))
        (if-ne (a == SetPushAccounts.action)
          (made-ne-assertion set_push_accounts _ (SetPushAccounts.of_json-ne-assertion lib j))
          (if-ne (a == RequestTestPush.action)
            (made-ne-assertion request_test_push _ (RequestTestPush.of_json-ne-assertion lib j))
            (if-ne (a == Response.action) (response-ne-assertion j) (λ h. cc))))

  parse_json-ne-assertion : (j : lib.Json) → parse_json lib true j ≢ err assertion_failed
  unfolding parse_json parse_action
  parse_json-ne-assertion j h = grind (arith, dispatch-ne-assertion)

  parsed-ne-assertion : (o : Option lib.Json) → parsed lib true o ≢ err assertion_failed
  parsed-ne-assertion none h = cc
  parsed-ne-assertion (some j) h = parse_json-ne-assertion j h

  -- What the null pointer or message `r` that parse returns for a text is, by what the JSON library
  -- and parse_json make of the text.
  pub record Parsed (s : String) (r : Option Message) : Type 0 where
    pub returns : parse lib true s ≡ ok r
    pub unread : lib.parse s ≡ none → r ≡ none
    pub thrown :
        (j : lib.Json) (e : Error) → lib.parse s ≡ some j → parse_json lib true j ≡ err e → r ≡ none
    pub handed_on :
        (j : lib.Json) (q : Option Message)
        → lib.parse s ≡ some j
        → parse_json lib true j ≡ ok q
        → r ≡ q

  -- Without assertions parse returns, whatever it is given: a null pointer where the text is no
  -- JSON and where parse_json throws, and what parse_json returns where it returns.
  pub parse_total : (s : String) → (r : Option Message) × Parsed s r
  unfolding parse
  parse_total s = (
    returned (parsed lib true (lib.parse s)),
    record {
      returns = catch_returns (parsed lib true (lib.parse s)) (parsed-ne-assertion (lib.parse s));
      unread = λ h. rw h refl;
      thrown = λ j e h k. rw (h, k) refl;
      handed_on = λ j q h k. rw (h, k) refl;
    },
  )

  parse_json_checked :
      (j : lib.Json) (r : Option Message) → parse_json lib false j ≡ ok r → null_or_valid r ≡ true
  unfolding parse_json parse_action
  parse_json_checked j r h = ground arith

  parsed_checked :
      (o : Option lib.Json) (r : Option Message)
      → parsed lib false o ≡ ok r
      → null_or_valid r ≡ true
  parsed_checked none r h = ground arith
  parsed_checked (some j) r h = parse_json_checked j r h

  -- With assertions, parse returns a null pointer or a valid message, or the process ends.
  pub parse_checked :
      (s : String) (r : Option Message) → parse lib false s ≡ ok r → null_or_valid r ≡ true
  unfolding parse
  parse_checked s r h = elim (catch-eq-ok (parsed lib false (lib.parse s)) r h) [
    | inl e ↦ rw e
    | inr e ↦ parsed_checked (lib.parse s) r e
  ]
