-- ===== src/Messages/Parser/Malformed.antt =====
-- What becomes of the requests that parse_json cannot make a valid message of.
use uwpx_push_server.Common.{
  ◌≡◌, Bool, true, false, ok, err, some, none, arith, and_then, assertion_failed, is_empty,
}
use uwpx_push_server.Json.{JsonLib, JsonLaws}
use uwpx_push_server.Messages.Push
use uwpx_push_server.Messages.Parser.{
  Message, header, null_or_valid, parse_json, parse_action, dispatch,
}

module _ (lib : JsonLib) where
  -- Where the release build returns a message that is marked invalid, the debug build, which parses
  -- the same object with assertions, ends the process.
  pub parse_json_malformed :
      (j : lib.Json) (m : Message)
      → parse_json lib true j ≡ ok (some m)
      → (header m).is_valid ≡ false
      → parse_json lib false j ≡ err assertion_failed
  unfolding parse_json parse_action
  parse_json_malformed j m h v = ground arith

  -- Where the release build returns a valid message or a null pointer, the debug build returns the
  -- same.
  pub parse_json_well_formed :
      (j : lib.Json) (r : _)
      → parse_json lib true j ≡ ok r
      → null_or_valid r ≡ true
      → parse_json lib false j ≡ ok r
  unfolding parse_json parse_action
  parse_json_well_formed j r h v = ground arith

  module _ (laws : JsonLaws lib) (ndebug : Bool) where
    open laws use {contains_put, at_put, get_of_string}

    -- A well-formed push message that carries its action, written as JSON, is parsed as a null
    -- pointer: parse_json does not know what the server sends to a device.
    pub parse_json-push :
        (m : Push.PushMessage)
        → Push.IsWellFormed m
        → m.base.action ≡ Push.action
        → and_then (Push.to_json lib ndebug m lib.empty) (λ o. parse_json lib ndebug (lib.json o))
          ≡ ok none
    unfolding Push.to_json parse_json parse_action dispatch is_empty
    parse_json-push m w a = simp (contains_put, at_put, get_of_string, w.header.valid, a)
