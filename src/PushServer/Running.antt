-- ===== src/PushServer/Running.antt =====
-- server/PushServer.cpp and storage/redis/RedisClient.cpp: what thread_run does before its loop,
-- and the server while it runs: what devices, the XMPP server and the loop of thread_run bring
-- about, each handled on its own, in any order.
pub mod Orderly
use uwpx_push_server.Common.{
  ℕ, ◌≡◌, refl, ℤ, Bool, true, false, not, String, List, [], ◌∷◌, ok, err, assert_then,
  assertion_failed,
}
use uwpx_push_server.Common.Action.{
  Action, ask, change, on_part, for_each, done, threw, ◌>>=◌, ◌>>◌,
}
use uwpx_push_server.Json.{JsonLib}
use uwpx_push_server.Redis.{RedisLib, Clock}
use uwpx_push_server.Wns.{load_token_from_db}
use uwpx_push_server.PushServer.{Environment, PushServer, in_wns, in_db}
use uwpx_push_server.PushServer.Handlers.{
  on_message_received, on_v1_message_for_node, on_v2_message_for_node,
}
use uwpx_push_server.PushServer.Setup.{check_setup_wns}

-- What a thread of the server is given to do: the text that a device has sent, a notification of
-- either version, or a round of the loop of thread_run; and that some seconds pass, in which keys
-- of the database may expire.
pub data Event : Type 0 where
  message : (msg : String) → Event
  v1_notification : (node msg : String) → Event
  v2_notification : (node account_id : String) (messages pending : ℤ) → Event
  round : Event
  passed : (seconds : ℕ) → Event

module _ (lib : RedisLib) where
  -- The server, and whether the member `redis` of its database client is set.
  pub record Running : Type 0 where
    pub redis : Bool
    pub server : PushServer lib

  abbrev pub in_server {ℓ} : {A : Type ℓ} → Action (PushServer lib) A → Action Running A
  in_server = on_part (λ r. r.server) (λ s r. record r { server = s })

  -- RedisClient::init, on a server that can be reached
  unfoldable pub init : Bool → Action Running (Unit {0})
  init ndebug = do
    ask λ r. assert_then {A = Unit {0}} (not r.redis) ndebug (ok tt)
    change λ r. ok (record r { redis = true })

module _ (json : JsonLib) (lib : RedisLib) (ndebug : Bool) (env : Environment) where
  -- thread_run, before its loop
  unfoldable pub set_up_clients : Action (Running lib) (Unit {0})
  set_up_clients = do
    init lib ndebug
    in_server lib (in_wns lib (load_token_from_db json lib env.config env.answer env.clock))

module _ (json : JsonLib) (lib : RedisLib) (clock : Clock lib) (ndebug : Bool)
    (env : Environment) where
  abbrev pub on_event : Event → Action (PushServer lib) (Unit {0})
  on_event (message msg) = on_message_received json lib ndebug env msg
  on_event (v1_notification node msg) = on_v1_message_for_node json lib ndebug env node msg
  on_event (v2_notification node account_id messages pending) =
      on_v2_message_for_node json lib ndebug env node account_id messages pending
  on_event round = check_setup_wns json lib env
  on_event (passed seconds) = in_db lib (change λ d. ok (clock.wait d seconds))

  unfoldable pub serve : List Event → Action (Running lib) (Unit {0})
  serve events = do
    set_up_clients json lib ndebug env
    for_each (λ e. in_server lib (on_event e)) events
