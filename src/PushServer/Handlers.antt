-- ===== src/PushServer/Handlers.antt =====
-- server/PushServer.cpp: the messages of devices and the notifications of the XMPP server.
use uwpx_push_server.Common.{true, Bool, false, String, Option, none, some, ◌==◌, if◌then◌else◌, ℤ}
use uwpx_push_server.Common.Decimal.{to_string}
use uwpx_push_server.Common.Action.{Action, pure, ask, try_catch, ◌>>=◌, ◌>>◌}
use uwpx_push_server.Json.{JsonLib}
use uwpx_push_server.Redis.{RedisLib}
use uwpx_push_server.RedisClient.{get_channel_uri, get_version, get_device_id}
use uwpx_push_server.RedisClient
use uwpx_push_server.Wns.{send_raw_notification}
use uwpx_push_server.Messages.Push
use uwpx_push_server.Messages.Push.Test
use uwpx_push_server.Messages.Parser
use uwpx_push_server.Messages.Parser.{
  Message, set_channel_uri, set_push_accounts, request_test_push, success,
  success_set_push_accounts, failure, header,
}
use uwpx_push_server.PushServer.{
  Environment, PushServer, in_db, in_wns, respond_with_success, respond_with_error,
}
use uwpx_push_server.PushServer.Accounts as Accounts

abbrev pub channel_uri_pattern : String
channel_uri_pattern =
    "https:\\/\\/([A-Za-z0-9](?:[A-Za-z0-9\\-]{0,61}[A-Za-z0-9])?)\\.notify\\.windows\\.com\\/\\?token=[\\w%]+"

abbrev pub is_valid_channel_uri : Environment → String → Bool
is_valid_channel_uri env uri = env.matches channel_uri_pattern uri

module _ (json : JsonLib) (lib : RedisLib) (ndebug : Bool) (env : Environment) where
  abbrev Handler : Type 0
  Handler = Action (PushServer lib) (Unit {0})

  abbrev pub notify : String → String → Action (PushServer lib) Bool
  notify channel_uri content =
      in_wns lib
        (send_raw_notification json lib env.config env.answer env.clock channel_uri content)

  -- PushServer::set_channel_uri
  unfoldable pub set_channel : String → String → Handler
  set_channel device_id channel_uri =
      if is_valid_channel_uri env channel_uri
      then (do
        in_db lib (RedisClient.set_channel_uri lib device_id channel_uri)
        respond_with_success json lib ndebug)
      else respond_with_error json lib ndebug
          "Invalid channel URI. Has to use the domain 'notify.windows.com'."

  abbrev pub is_second : Option String → Bool
  is_second none = false
  is_second (some version) = version == "2"

  -- the text of a test push, by the version of the device
  unfoldable pub test_text : Option String → Action (PushServer lib) String
  test_text version =
      if is_second version
      then (do
        j ← ask λ _. Test.to_json json ndebug Test.create json.empty
        pure (json.dump (json.json j)))
      else pure "<test/>"

  abbrev pub tested : Bool → Handler
  tested true = respond_with_success json lib ndebug
  tested false =
      respond_with_error json lib ndebug "Failed to send test push. Something went wrong..."

  abbrev pub test_known : String → Option String → Handler
  test_known device_id none = respond_with_error json lib ndebug "Device id unknown."
  test_known device_id (some channel_uri) = do
    version ← in_db lib (get_version lib device_id)
    msg ← test_text version
    result ← notify channel_uri msg
    tested result

  unfoldable pub send_test_push : String → Handler
  send_test_push device_id = do
    channel_uri ← in_db lib (get_channel_uri lib device_id)
    test_known device_id channel_uri

  -- on_message_received(msg, session)
  unfoldable pub handle : Message → Handler
  handle (set_channel_uri m) = set_channel m.device_id m.channel_uri
  handle (set_push_accounts m) =
      Accounts.set_push_accounts json lib ndebug env m.device_id (to_string m.base.version)
        m.accounts
  handle (request_test_push m) = send_test_push m.device_id
  handle (success m) = respond_with_error json lib ndebug "Unsupported message type."
  handle (success_set_push_accounts m) =
      respond_with_error json lib ndebug "Unsupported message type."
  handle (failure m) = respond_with_error json lib ndebug "Unsupported message type."

  abbrev pub received : Option Message → Handler
  received none = respond_with_error json lib ndebug "Malformed JSON."
  received (some m) =
      if (header m).is_valid
      then try_catch (handle m) (
          respond_with_error json lib ndebug
            "Internal server error... Failed to process received JSON message.")
      else respond_with_error json lib ndebug "Invalid JSON message."

  -- on_message_received(s, session)
  unfoldable pub on_message_received : String → Handler
  on_message_received s = do msg ← ask λ _. Parser.parse json ndebug s; received msg

  -- The end of both handlers of notifications: what is sent is the text that `content` makes.
  abbrev pub forwarded : Action (PushServer lib) String → Option String → Handler
  forwarded content none = pure tt
  forwarded content (some channel_uri) = do msg ← content; notify channel_uri msg; pure tt

  abbrev pub on_device : Action (PushServer lib) String → Option String → Handler
  on_device content none = pure tt
  on_device content (some device_id) = do
    channel_uri ← in_db lib (get_channel_uri lib device_id)
    forwarded content channel_uri

  unfoldable pub on_v1_message_for_node : String → String → Handler
  on_v1_message_for_node node msg = do
    device_id ← in_db lib (get_device_id lib node)
    on_device (pure msg) device_id

  abbrev pub push_text : String → ℤ → ℤ → Action (PushServer lib) String
  push_text account_id message_count pending_subscription_count = do
    j ← ask λ _.
        Push.to_json json ndebug (Push.create account_id message_count pending_subscription_count)
          json.empty
    pure (json.dump (json.json j))

  unfoldable pub on_v2_message_for_node : String → String → ℤ → ℤ → Handler
  on_v2_message_for_node node account_id message_count pending_subscription_count = do
    device_id ← in_db lib (get_device_id lib node)
    on_device (push_text account_id message_count pending_subscription_count) device_id
