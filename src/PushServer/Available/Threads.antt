-- ===== src/PushServer/Available/Threads.antt =====
-- server/PushServer.cpp: how the handlers of notifications and check_setup_wns end, on a database
-- that they can work on.
use uwpx_push_server.Common.{◌≡◌, Bool, true, false, String, Option, none, some, ℤ}
use uwpx_push_server.Common.Action.{Ran, Action, go_on, pure}
use uwpx_push_server.Common.Sound.{Sound, returned, go_on-Sound, put_back-Sound}
use uwpx_push_server.Json.{JsonLib}
use uwpx_push_server.Redis.{RedisLib, RedisLaws}
use uwpx_push_server.RedisClient.{get_device_id, get_channel_uri}
use uwpx_push_server.RedisClient.WnsToken.{wns_token_key}
use uwpx_push_server.RedisClient.Registry.{Kind, node}
use uwpx_push_server.RedisClient.Healthy.{Healthy}
use uwpx_push_server.Wns.{is_token_valid}
use uwpx_push_server.Wns.Sound.{request_new_token-Sound}
use uwpx_push_server.Messages.Push
use uwpx_push_server.Messages.Header
use uwpx_push_server.PushServer.{Environment, PushServer, in_db}
use uwpx_push_server.PushServer.Setup.{check_setup_wns, setup_unless, again_unless, request}
use uwpx_push_server.PushServer.Handlers.{
  on_v1_message_for_node, on_v2_message_for_node, on_device, forwarded, push_text, notify,
}
use uwpx_push_server.PushServer.Available.{reading-Sound, notify-Sound}

module _ (json : JsonLib) (lib : RedisLib) (env : Environment) (kind : String → Kind)
    (laws : RedisLaws lib) (token_node : kind wns_token_key ≡ node) (ndebug : Bool) where
  abbrev IsHealthy : PushServer lib → Type 0
  IsHealthy s = Healthy lib kind s.wns.db

  abbrev IsSound : {A : Type 0} → Ran (PushServer lib) A → Type 0
  IsSound = Sound (λ _. IsHealthy) IsHealthy

  request-Sound : (s : PushServer lib) → IsHealthy s → IsSound (request json lib env s)
  request-Sound s h =
      put_back-Sound (λ _. IsHealthy) IsHealthy (λ w s. record s { wns = w }) s _
        (request_new_token-Sound json lib env.config env.answer env.clock kind laws token_node s.wns
          h)
        (λ b w k. k.0) (λ w k. k)

  again-Sound :
      (b : Bool) (s : PushServer lib) → IsHealthy s → IsSound (again_unless json lib env b s)
  again-Sound true s h = returned h
  again-Sound false s h =
      go_on-Sound (request json lib env s) _ (request-Sound s h) (λ b s' k. returned k)

  setup-Sound :
      (b : Bool) (s : PushServer lib) → IsHealthy s → IsSound (setup_unless json lib env b s)
  setup-Sound true s h = returned h
  setup-Sound false s h =
      go_on-Sound (request json lib env s) (again_unless json lib env) (request-Sound s h)
        again-Sound

  pub check_setup_wns-Sound :
      (s : PushServer lib) → IsHealthy s → IsSound (check_setup_wns json lib env s)
  unfolding check_setup_wns is_token_valid
  check_setup_wns-Sound s h = setup-Sound _ s h

  module _ (content : Action (PushServer lib) String)
      (content-Sound : (s : PushServer lib) → IsHealthy s → IsSound (content s)) where
    forwarded-Sound :
        (uri : Option String) (s : PushServer lib)
        → IsHealthy s
        → IsSound (forwarded json lib ndebug env content uri s)
    forwarded-Sound none s h = returned h
    forwarded-Sound (some uri) s h = go_on-Sound (content s) _ (content-Sound s h) (λ msg s1 h1.
        go_on-Sound (notify json lib ndebug env uri msg s1) _
          (notify-Sound json lib ndebug env kind laws token_node uri msg s1 h1)
          (λ b s2 h2. returned h2))

    on_device-Sound :
        (device_id : Option String) (s : PushServer lib)
        → IsHealthy s
        → IsSound (on_device json lib ndebug env content device_id s)
    unfolding get_channel_uri
    on_device-Sound none s h = returned h
    on_device-Sound (some device_id) s h =
        go_on-Sound (in_db lib (get_channel_uri lib device_id) s) _
          (reading-Sound json lib ndebug env kind laws token_node (lib.lrange s.wns.db device_id) _
            s h)
          forwarded-Sound

    found-Sound :
        (n : String) (s : PushServer lib)
        → IsHealthy s
        → IsSound
            (go_on (in_db lib (get_device_id lib n) s) (on_device json lib ndebug env content))
    unfolding get_device_id
    found-Sound n s h =
        go_on-Sound (in_db lib (get_device_id lib n) s) _
          (reading-Sound json lib ndebug env kind laws token_node (lib.lrange s.wns.db n) _ s h)
          on_device-Sound

  push_text-Sound :
      (account_id : String) (messages pending : ℤ) (s : PushServer lib)
      → IsHealthy s
      → IsSound (push_text json lib ndebug env account_id messages pending s)
  unfolding Push.to_json Header.to_json
  push_text-Sound account_id messages pending s h = returned h

  pub on_v1-Sound :
      (n msg : String) (s : PushServer lib)
      → IsHealthy s
      → IsSound (on_v1_message_for_node json lib ndebug env n msg s)
  unfolding on_v1_message_for_node
  on_v1-Sound n msg s h = found-Sound (pure msg) (λ s' k. returned k) n s h

  pub on_v2-Sound :
      (n account_id : String) (messages pending : ℤ) (s : PushServer lib)
      → IsHealthy s
      → IsSound (on_v2_message_for_node json lib ndebug env n account_id messages pending s)
  unfolding on_v2_message_for_node
  on_v2-Sound n account_id messages pending s h =
      found-Sound (push_text json lib ndebug env account_id messages pending)
        (push_text-Sound account_id messages pending) n s h
