-- ===== src/PushServer/Available.antt =====
-- server/PushServer.cpp: how the handlers of the messages set_channel_uri and request_test_push
-- end, on a database that they can work on.
pub mod Messages
pub mod Threads
use uwpx_push_server.Common.{
  length, ◌+◌, ◌≡◌, refl, sym, ap, ◌∙◌, ℕ, Bool, true, false, Bool-cases, inl, inr, String, Option,
  none, some, List, [], ◌∷◌, drop, All, Result, ok, err, or_throw, reply_error, if◌then◌else◌,
  arith,
}
use uwpx_push_server.Common.Action.{
  for_each, Ran, Action, done, go_on, answered, put_back, pure, ◌>>=◌, ◌>>◌, Ends, done_unique,
}
use uwpx_push_server.Common.Sound.{
  is_assertion, Sound, returned, thrown, go_on-Sound, Ends-Sound, put_back-Sound, handled-Sound,
}
use uwpx_push_server.PushServer.Errors.{Contained, on_message_received-Contained}
use uwpx_push_server.PushServer.Session.{converse, on_received, length-converse}
use uwpx_push_server.RedisClient.Healthy.Registration.{set_push_accounts-Healthy}
use Prim.Native.Nat.{◌<◌}
use mathlib.Core.Path.{subst}
use uwpx_push_server.Common.Decimal.{to_string}
use uwpx_push_server.CryptoUtils.{url_safe_random_token}
use uwpx_push_server.Json.{JsonLib}
use uwpx_push_server.Redis.{RedisLib, RedisLaws, Entry, text, items}
use uwpx_push_server.RedisClient
use uwpx_push_server.RedisClient.{gen_account, get_channel_uri, get_version}
use uwpx_push_server.RedisClient.WnsToken.{wns_token_key}
use uwpx_push_server.RedisClient.Typed.{held, holds_text}
use uwpx_push_server.RedisClient.Storing.{All-map}
use uwpx_push_server.RedisClient.Loading.{HoldsNode}
use uwpx_push_server.RedisClient.Registry.{Kind, account_key, node, device, is_key}
use uwpx_push_server.RedisClient.Registry.Refines.{device-not-key, node-not-key, hashed_key}
use uwpx_push_server.RedisClient.Healthy.{Healthy, set_channel_uri-Healthy}
use uwpx_push_server.Xmpp.{connected}
use uwpx_push_server.Wns.Sound.{send_raw_notification-Sound}
use uwpx_push_server.Messages.Header
use uwpx_push_server.Messages.Response
use uwpx_push_server.Messages.Response.Success
use uwpx_push_server.Messages.Response.Failure
use uwpx_push_server.Messages.Push.Test
use uwpx_push_server.Messages.Parser
use uwpx_push_server.Messages.Parser.{
  Message, set_channel_uri, set_push_accounts, request_test_push, success,
  success_set_push_accounts, failure, header,
}
use uwpx_push_server.Messages.Parser.Returns.{parse_total}
use uwpx_push_server.PushServer.{
  Environment, PushServer, in_db, send, respond_with_success, respond_with_error,
}
use uwpx_push_server.PushServer.Handlers.{
  on_message_received, received, handle, set_channel, is_valid_channel_uri, send_test_push,
  test_known, test_text, tested, notify, is_second,
}
use uwpx_push_server.PushServer.Accounts as Accounts
use uwpx_push_server.PushServer.Accounts.{store_accounts, known}
use uwpx_push_server.PushServer.Accounts.Returns.{store_accounts_returns}

module _ (json : JsonLib) (lib : RedisLib) (ndebug : Bool) (env : Environment)
    (kind : String → Kind) (laws : RedisLaws lib) (token_node : kind wns_token_key ≡ node) where
  abbrev pub IsHealthy : PushServer lib → Type 0
  IsHealthy s = Healthy lib kind s.wns.db

  abbrev pub Kept : {A : Type 0} → A → PushServer lib → Type 0
  Kept a s = IsHealthy s

  abbrev pub IsSound : {A : Type 0} → Ran (PushServer lib) A → Type 0
  IsSound = Sound Kept IsHealthy

  pub error-Sound :
      (msg : String) (s : PushServer lib)
      → IsHealthy s
      → IsSound (respond_with_error json lib ndebug msg s)
  unfolding respond_with_error send Failure.to_json Response.to_json Header.to_json
  error-Sound msg s h = returned h

  success-Sound :
      (s : PushServer lib) → IsHealthy s → IsSound (respond_with_success json lib ndebug s)
  unfolding respond_with_success send Response.to_json Header.to_json
  success-Sound s h = returned h

  -- what reads one list
  pub reading-Sound :
      {A : Type 0} (r : Option (List String)) (f : List String → A) (s : PushServer lib)
      → IsHealthy s
      → IsSound
          (in_db lib (λ d. go_on (answered d (or_throw reply_error r)) (λ keys. pure (f keys))) s)
  reading-Sound none f s h = thrown refl h
  reading-Sound (some keys) f s h = returned h

  pub set_channel-Sound :
      (device_id uri : String) (s : PushServer lib)
      → kind device_id ≡ device
      → IsHealthy s
      → IsSound (set_channel json lib ndebug env device_id uri s)
  unfolding set_channel
  set_channel-Sound device_id uri s p h = elim (Bool-cases (is_valid_channel_uri env uri)) [
    | inl v ↦
        let e = set_channel_uri-Healthy lib kind laws s.wns.db h device_id uri p in
        rw (v, e.returns) (success-Sound _ e.holds)
    | inr v ↦ rw v (error-Sound _ s h)
  ]

  pub notify-Sound :
      (uri content : String) (s : PushServer lib)
      → IsHealthy s
      → IsSound (notify json lib ndebug env uri content s)
  notify-Sound uri content s h =
      put_back-Sound Kept IsHealthy (λ w s. record s { wns = w }) s _
        (send_raw_notification-Sound json lib env.config env.answer env.clock kind laws token_node
          uri content s.wns h)
        (λ b w k. k) (λ w k. k)

  test_text-Sound :
      (version : Option String) (s : PushServer lib)
      → IsHealthy s
      → IsSound (test_text json lib ndebug env version s)
  unfolding test_text Header.to_json
  test_text-Sound version s h = elim (Bool-cases (is_second json lib ndebug env version)) [
    | inl e ↦ simp e (returned h)
    | inr e ↦ simp e (returned h)
  ]

  tested-Sound :
      (b : Bool) (s : PushServer lib) → IsHealthy s → IsSound (tested json lib ndebug env b s)
  tested-Sound true s h = success-Sound s h
  tested-Sound false s h = error-Sound _ s h

  test_known-Sound :
      (device_id : String) (uri : Option String) (s : PushServer lib)
      → IsHealthy s
      → IsSound (test_known json lib ndebug env device_id uri s)
  unfolding get_version
  test_known-Sound device_id none s h = error-Sound _ s h
  test_known-Sound device_id (some uri) s h =
      go_on-Sound (in_db lib (get_version lib device_id) s) _
        (reading-Sound (lib.lrange s.wns.db device_id) _ s h)
        (λ version s1 h1.
          go_on-Sound (test_text json lib ndebug env version s1) _ (test_text-Sound version s1 h1)
            (λ msg s2 h2.
              go_on-Sound (notify json lib ndebug env uri msg s2) _ (notify-Sound uri msg s2 h2)
                (tested-Sound)))

  pub send_test_push-Sound :
      (device_id : String) (s : PushServer lib)
      → IsHealthy s
      → IsSound (send_test_push json lib ndebug env device_id s)
  unfolding send_test_push get_channel_uri
  send_test_push-Sound device_id s h =
      go_on-Sound (in_db lib (get_channel_uri lib device_id) s) _
        (reading-Sound (lib.lrange s.wns.db device_id) _ s h) (test_known-Sound device_id)
