-- ===== src/Tests/Messages.antt =====
-- The theorems on messages, over the JSON trees of Json/Tree.
use uwpx_push_server.Common.{
  ◌≡◌, refl, true, false, Option, none, some, [], ◌∷◌, ok, err, pos, and_then, assertion_failed,
  is_empty,
}
use uwpx_push_server.Json.Tree.{tree, tree_laws, obj, field, end, text, number}
use uwpx_push_server.Messages.Header
use uwpx_push_server.Messages.SetChannelUri
use uwpx_push_server.Messages.SetPushAccounts
use uwpx_push_server.Messages.Push
use uwpx_push_server.Messages.Parser.{
  Message, set_channel_uri, set_push_accounts, parse_json, parse_action, dispatch, parse, to_json,
}
use uwpx_push_server.Messages.Parser.Classes.{IsSendable, parse_json-IsSendable}
use uwpx_push_server.Messages.Parser.Returns.{parse_total, Parsed}
use uwpx_push_server.Messages.Parser.RoundTrip.{parse_json-to_json}
use uwpx_push_server.Messages.Parser.Malformed.{parse_json_malformed, parse_json_well_formed}

-- a request with two accounts
abbrev two_accounts : Message
two_accounts = set_push_accounts (SetPushAccounts.create ("a" ∷ "b" ∷ []) "device")

two_accounts-IsSendable : IsSendable two_accounts
unfolding Header.is_supported is_empty
two_accounts-IsSendable = (
  record {
    header = record { valid = refl; supported = refl; named = refl };
    named = (refl, (refl, tt));
    device = refl;
  },
  refl,
)

parse_json-to_json_example :
    and_then (to_json tree false two_accounts tree.empty) (λ o. parse_json tree false (tree.json o))
    ≡ ok (some two_accounts)
parse_json-to_json_example =
    parse_json-to_json tree tree_laws false two_accounts two_accounts-IsSendable

-- what a device sends to register its channel
registration : tree.Json
unfolding tree
registration = obj (
    field "version" (number (pos 1)) (
      field "action" (text "set_channel_uri")
        (field "device_id" (text "device") (field "channel_uri" (text "uri") end))))

abbrev registered : Message
registered = set_channel_uri (record {
  base = record { is_valid = true; version = pos 1; action = "set_channel_uri" };
  channel_uri = "uri";
  device_id = "device";
})

registration_parsed : parse_json tree true registration ≡ ok (some registered)
unfolding tree parse_json parse_action dispatch SetChannelUri.of_json SetChannelUri.from_json
    Header.from_json Header.is_supported is_empty registration
registration_parsed = refl

parse_json-IsSendable_example : IsSendable registered
parse_json-IsSendable_example =
    parse_json-IsSendable tree true registration registered registration_parsed refl

parse_json_well_formed_example : parse_json tree false registration ≡ ok (some registered)
parse_json_well_formed_example =
    parse_json_well_formed tree registration (some registered) registration_parsed refl

-- the same of an unknown version
unknown_version : tree.Json
unfolding tree
unknown_version =
    obj (field "version" (number (pos 3)) (field "action" (text "set_channel_uri") end))

abbrev rejected : Message
rejected = set_channel_uri (record {
  base = record { is_valid = false; version = pos 3; action = "" };
  channel_uri = "";
  device_id = "";
})

unknown_version_parsed : parse_json tree true unknown_version ≡ ok (some rejected)
unfolding tree parse_json parse_action dispatch SetChannelUri.of_json SetChannelUri.from_json
    Header.from_json Header.is_supported is_empty unknown_version
unknown_version_parsed = refl

parse_json_malformed_example : parse_json tree false unknown_version ≡ err assertion_failed
parse_json_malformed_example =
    parse_json_malformed tree unknown_version rejected unknown_version_parsed refl

parse_total_example : (r : Option Message) × Parsed tree "{}" r
parse_total_example = parse_total tree "{}"

empty_parsed : parse tree false "{}" ≡ ok none
unfolding tree parse parse_json
empty_parsed = refl

abbrev one_message : Push.PushMessage
one_message = Push.create "a" (pos 1) (pos 0)

one_message-IsWellFormed : Push.IsWellFormed one_message
unfolding Header.is_supported is_empty
one_message-IsWellFormed = record {
  header = record { valid = refl; supported = refl; named = refl };
  account = refl;
}
