-- ===== src/PushServer/Running/Orderly.antt =====
-- server/PushServer.cpp: how a server ends that runs.
use uwpx_push_server.Common.{
  none, drop, ap, ◌∙◌, some, String, ℕ, true, Bool, ◌≡◌, refl, false, List, [], ◌∷◌, All, ok,
  assertion_failed, arith,
}
use uwpx_push_server.Common.Sound.{
  Excused, sound, go_on-Excused, put_back-Excused, returned, Sound, put_back-Sound,
}
use uwpx_push_server.Redis.{Clock, RedisLib, RedisLaws}
use uwpx_push_server.RedisClient.Removal.{has_key}
use uwpx_push_server.RedisClient.Typed.{held}
use uwpx_push_server.RedisClient.Registry.{device, Kind, account_key, node}
use uwpx_push_server.RedisClient.Healthy.{wait-Healthy, Healthy}
use uwpx_push_server.Messages.Parser
use uwpx_push_server.Messages.Parser.{Message}
use uwpx_push_server.Messages.Parser.Returns.{parse_total}
use uwpx_push_server.PushServer.Handlers.{on_message_received}
use uwpx_push_server.PushServer.Available.Messages.{IsFromDevice, received-Excused}
use uwpx_push_server.PushServer.Running.{
  passed, Event, message, v1_notification, v2_notification, round, Running, in_server, init,
  set_up_clients, on_event, serve,
}
use uwpx_push_server.PushServer.Available.Threads.{check_setup_wns-Sound, on_v1-Sound, on_v2-Sound}
use Prim.Native.Nat.{◌<◌}
use uwpx_push_server.Common.Action.{Ran, done, threw, for_each}
use uwpx_push_server.CryptoUtils.{url_safe_random_token}
use uwpx_push_server.Json.{JsonLib}
use uwpx_push_server.RedisClient.WnsToken.{wns_token_key}
use uwpx_push_server.Xmpp.{connected}
use uwpx_push_server.Wns.Sound.Loading.{load_token_from_db-Sound}
use uwpx_push_server.PushServer.{Environment, PushServer}

init_returns :
    (lib : RedisLib) (b : Bool) (s : PushServer lib)
    → init lib true (record { redis = b; server = s })
      ≡ done (tt, record { redis = true; server = s })
unfolding init
init_returns lib true s = refl
init_returns lib false s = refl

-- A server that has been stopped is not to be started again in a build with assertions: the member
-- `redis` is still set, so init fails its assertion.
init_again :
    (lib : RedisLib) (ndebug : Bool) (r r' : Running lib)
    → init lib ndebug r ≡ done (tt, r')
    → init lib false r' ≡ threw assertion_failed r'
unfolding init
init_again lib ndebug r r' h = ground arith

module _ (json : JsonLib) (kind : String → Kind) where
  -- If the text is a message, the device that it names is one.
  abbrev pub NamesDevice : String → Type 0
  NamesDevice msg = (m : Message) → Parser.parse json true msg ≡ ok (some m) → IsFromDevice kind m

module _ (json : JsonLib) (kind : String → Kind) where
  -- A text that a device sends names a device, if it is a message.
  abbrev pub IsFromDevices : Event → Type 0
  IsFromDevices (message msg) = NamesDevice json kind msg
  IsFromDevices _ = Unit

module _ (json : JsonLib) (lib : RedisLib) (clock : Clock lib) (env : Environment)
    (kind : String → Kind) (laws : RedisLaws lib)
    (hashed : (s : String) → kind (env.hash_sha256 s) ≡ account_key)
    (token_node : kind wns_token_key ≡ node)
    (tokens : (bound i : ℕ) → 0 < bound → env.token_draw bound i < bound)
    (passwords : (bound i : ℕ) → 0 < bound → env.password_draw bound i < bound)
    (plain : (first : ℕ) (t : String)
      → url_safe_random_token env.token_draw true first 15 ≡ ok t
      → kind t ≡ node)
    (up : env.connection ≡ connected) where
  abbrev IsInOrder : PushServer lib → Type 0
  IsInOrder s = Healthy lib kind s.wns.db

  -- The list of a device names an account key at which there is nothing, as when it has expired.
  abbrev pub Lacks : PushServer lib → Type 0
  Lacks s =
      (device_id : String) × (kind device_id ≡ device)
      × (key : String) × (has_key (drop 2 (held (lib.look s.wns.db device_id))) key ≡ true)
      × (lib.look s.wns.db key ≡ none)

  abbrev IsExcused : Ran (PushServer lib) (Unit {0}) → Type 0
  IsExcused = Excused (λ _. IsInOrder) IsInOrder Lacks

  on_message_received-Excused :
      (msg : String) (s : PushServer lib)
      → NamesDevice json kind msg
      → IsInOrder s
      → IsExcused (on_message_received json lib true env msg s)
  unfolding on_message_received
  on_message_received-Excused msg s p h =
      let (r, parsed) = parse_total json msg in
      let e = parsed.returns in
      rw e (
        received-Excused json lib true env kind laws hashed token_node tokens passwords plain up r s
          (λ m q. p m (e ∙ ap ok q)) h)

  on_event-Excused :
      (e : Event) (s : PushServer lib)
      → IsFromDevices json kind e
      → IsInOrder s
      → IsExcused (on_event json lib clock true env e s)
  on_event-Excused (message msg) s p h = on_message_received-Excused msg s p h
  on_event-Excused (v1_notification n msg) s p h =
      sound (on_v1-Sound json lib env kind laws token_node true n msg s h)
  on_event-Excused (v2_notification n account_id messages pending) s p h =
      sound (on_v2-Sound json lib env kind laws token_node true n account_id messages pending s h)
  on_event-Excused round s p h =
      sound (check_setup_wns-Sound json lib env kind laws token_node true s h)
  on_event-Excused (passed seconds) s p h =
      sound (returned (wait-Healthy lib kind clock s.wns.db seconds h))

  abbrev HasHealthy : Running lib → Type 0
  HasHealthy r = IsInOrder r.server

  abbrev HasLack : Running lib → Type 0
  HasLack r = Lacks r.server

  abbrev Goes : Ran (Running lib) (Unit {0}) → Type 0
  Goes = Excused (λ _. HasHealthy) HasHealthy HasLack

  events-Excused :
      (events : List Event) (r : Running lib)
      → All (IsFromDevices json kind) events
      → HasHealthy r
      → Goes (for_each (λ e. in_server lib (on_event json lib clock true env e)) events r)
  unfolding for_each
  events-Excused [] r p h = sound (returned h)
  events-Excused (e ∷ events) r p h =
      go_on-Excused (in_server lib (on_event json lib clock true env e) r)
        (λ _. for_each (λ e. in_server lib (on_event json lib clock true env e)) events)
        (put_back-Excused (λ _. HasHealthy) HasHealthy HasLack (λ s r. record r { server = s }) r
          (on_event json lib clock true env e r.server) (on_event-Excused e r.server p.0 h)
          (λ a s k. k) (λ s k. k) (λ s k. k))
        (λ a r' k. events-Excused events r' p.1 k)

  set_up_clients-Sound :
      (r : Running lib)
      → HasHealthy r
      → Sound (λ _. HasHealthy) HasHealthy (set_up_clients json lib true env r)
  unfolding set_up_clients
  set_up_clients-Sound r h = rw (init_returns lib r.redis r.server) (
      put_back-Sound (λ _. HasHealthy) HasHealthy (λ s t. record t { server = s })
        (record { redis = true; server = r.server }) _
        (put_back-Sound (λ _. IsInOrder) IsInOrder (λ w s. record s { wns = w }) r.server _
          (load_token_from_db-Sound json lib env.config env.answer env.clock (Healthy lib kind)
            r.server.wns h)
          (λ a w k. k) (λ w k. k))
        (λ a s k. k) (λ s k. k))

  -- In a release build, and on a connection to the XMPP server: a server that is started on a
  -- healthy database, and is then given any texts of devices, notifications and rounds of its loop
  -- in any order, while time passes and keys expire, handles them all, or an exception ends the
  -- process, or a node that is not there is used, which is what `assertion_failed` stands for in
  -- such a build. The last happens only where the list of a device names an account key at which
  -- there is nothing. In each case the database is healthy at the end: account keys hold strings,
  -- which are nodes, other keys hold lists, and what the list of a device names are account keys.
  -- The devices that messages name are no nodes and no account keys, the key of the token of the
  -- notification service counts as a node, random tokens are nodes, and the random numbers are
  -- below their bounds.
  pub serve-Excused :
      (events : List Event) (r : Running lib)
      → All (IsFromDevices json kind) events
      → Healthy lib kind r.server.wns.db
      → Excused
          (λ _ (r' : Running lib). Healthy lib kind r'.server.wns.db)
          (λ r'. Healthy lib kind r'.server.wns.db)
          (λ r'. Lacks r'.server)
          (serve json lib clock true env events r)
  unfolding serve
  serve-Excused events r p h =
      go_on-Excused (set_up_clients json lib true env r) _ (sound (set_up_clients-Sound r h))
        (λ a r' k. events-Excused events r' p k)
