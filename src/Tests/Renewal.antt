-- ===== src/Tests/Renewal.antt =====
-- The theorems on set_channel_uri on the server: a device that calls itself WNS registers a
-- channel.
use uwpx_push_server.Common.{
  ◌≡◌, refl, true, false, String, Option, none, some, [], ◌∷◌, ◌==◌, if◌then◌else◌, arith, ok, pos,
  is_empty,
}
use uwpx_push_server.Common.Action.{Ends, done}
use uwpx_push_server.Json.{JsonLib}
use uwpx_push_server.Json.Tree.{Value, tree_with, obj, field, end, number}
use uwpx_push_server.Json.Tree as Tree
use uwpx_push_server.Redis.{Entry, items}
use uwpx_push_server.Redis.Memory.{memory, memory_laws}
use uwpx_push_server.RedisClient.Typed.{IsTyped, held, holds_text, holds_items}
use uwpx_push_server.RedisClient.Channel.{Updated}
use uwpx_push_server.RedisClient.WnsToken.{get_wns_token, wns_token_key}
use uwpx_push_server.Messages.Header
use uwpx_push_server.Messages.SetChannelUri
use uwpx_push_server.Messages.SetChannelUri.{SetChannelUriMessage}
use uwpx_push_server.Messages.Parser.{set_channel_uri, parse_json, parse_action, dispatch, parse}
use uwpx_push_server.PushServer.{PushServer}
use uwpx_push_server.PushServer.Handlers.{on_message_received}
use uwpx_push_server.PushServer.Renewal.{
  Succeeded, on_message_received-Updated, on_message_received-wns_token_key,
}
use uwpx_push_server.Tests.Delivery.{environment}
use uwpx_push_server.Tests.RedisClient.{is_key, key_elsewhere}

abbrev token_entries : String → Option Entry
token_entries k = if k == "WNS" then some (items ("token" ∷ "bearer" ∷ "2000" ∷ [])) else none

token_db : memory.Db
unfolding memory
token_db = record { entries = token_entries; timeouts = λ _. none; clock = 1000 }

abbrev server : PushServer memory
server = record {
  wns = record { token = none; db = token_db; posts = [] };
  stanzas = [];
  sent = [];
  tokens = 0;
  passwords = 0;
}

looked : (k : String) → memory.look token_db k ≡ token_entries k
unfolding memory token_db
looked k = refl

token_lists : (n : String) → holds_text (token_entries n) ≡ false
token_lists n = ground arith

token_strings : (k : String) → is_key k ≡ true → holds_items (token_entries k) ≡ false
token_strings k h = rw (key_elsewhere k "WNS" refl h) refl

token_db-IsTyped : IsTyped memory is_key token_db
token_db-IsTyped = record {
  lists = λ n h. rw (looked n) (token_lists n);
  strings = λ k h. rw (looked k) (token_strings k h);
}

abbrev renewing : Value
renewing = obj (
    field "version" (number (pos 1)) (
      field "action" (Tree.text "set_channel_uri")
        (field "device_id" (Tree.text "WNS") (field "channel_uri" (Tree.text "uri") end))))

abbrev json : JsonLib
json = tree_with (λ s. if s == "renewing" then some renewing else none)

abbrev renewal : SetChannelUriMessage
renewal = record {
  base = record { is_valid = true; version = pos 1; action = "set_channel_uri" };
  channel_uri = "uri";
  device_id = "WNS";
}

renewing_parsed : parse json false "renewing" ≡ ok (some (set_channel_uri renewal))
unfolding tree_with parse parse_json parse_action dispatch SetChannelUri.of_json
    SetChannelUri.from_json Header.from_json Header.is_supported is_empty
renewing_parsed = refl

token_held : held (memory.look token_db wns_token_key) ≡ "token" ∷ "bearer" ∷ "2000" ∷ []
unfolding memory token_db
token_held = refl

on_message_received-Updated_example :
    Ends (on_message_received json memory false environment "renewing") server (λ _ s'.
      Updated memory is_key "WNS" "uri" token_db s'.wns.db
      × Succeeded json memory false server s'
      × (s'.stanzas ≡ [])
      × (s'.wns.posts ≡ []))
on_message_received-Updated_example =
    on_message_received-Updated json memory false environment is_key memory_laws server
      token_db-IsTyped renewal refl refl "renewing" renewing_parsed refl

on_message_received-wns_token_key_example :
    Ends
      (on_message_received json memory false environment "renewing")
      server
      (λ _ s'. get_wns_token memory s'.wns.db ≡ done (some "uri", s'.wns.db))
on_message_received-wns_token_key_example =
    on_message_received-wns_token_key json memory false environment is_key memory_laws server
      token_db-IsTyped renewal refl refl "renewing" renewing_parsed refl "token" "bearer" "2000"
      refl token_held
