-- ===== src/PushServer/Available/Messages.antt =====
-- server/PushServer.cpp: how the handler of a message ends, on a database that it can work on.
use uwpx_push_server.Common.{
  assertion_failed, drop, ◌≡◌, refl, sym, ℕ, Bool, true, Bool-cases, inl, inr, String, Option, none,
  some, List, All, ok,
}
use uwpx_push_server.Common.Action.{threw, Ran, done_unique}
use uwpx_push_server.Common.Sound.{
  Excused, sound, excused, go_on-Excused, handled-Excused, Sound, returned,
}
use uwpx_push_server.RedisClient.{get_push_nodes, gen_account, get_channel_uri, get_version}
use uwpx_push_server.RedisClient.Removal.{has_key}
use uwpx_push_server.RedisClient.Loading.{nodes_held_or_lacking, get_push_nodes_fails, HoldsNode}
use uwpx_push_server.RedisClient.Healthy.Registration.{set_push_accounts-Healthy}
use Prim.Native.Nat.{◌<◌}
use mathlib.Core.Path.{subst}
use uwpx_push_server.Common.Decimal.{to_string}
use uwpx_push_server.CryptoUtils.{url_safe_random_token}
use uwpx_push_server.Json.{JsonLib}
use uwpx_push_server.Redis.{RedisLib, RedisLaws}
use uwpx_push_server.RedisClient
use uwpx_push_server.RedisClient.WnsToken.{wns_token_key}
use uwpx_push_server.RedisClient.Registry.{Kind, account_key, node, device, is_key}
use uwpx_push_server.RedisClient.Registry.Refines.{device-not-key, node-not-key, hashed_key}
use uwpx_push_server.RedisClient.Healthy.{Healthy}
use uwpx_push_server.Xmpp.{connected}
use uwpx_push_server.Messages.Parser.{
  Message, set_channel_uri, set_push_accounts, request_test_push, success,
  success_set_push_accounts, failure, header,
}
use uwpx_push_server.PushServer.{Environment, PushServer, in_db}
use uwpx_push_server.PushServer.Handlers.{received, handle}
use uwpx_push_server.PushServer.Accounts as Accounts
use uwpx_push_server.PushServer.Accounts.{store_accounts, known}
use uwpx_push_server.PushServer.Accounts.Returns.{store_accounts_returns}
use uwpx_push_server.PushServer.Available.{
  held, error-Sound, set_channel-Sound, send_test_push-Sound, reading-Sound,
}

-- The device that a message of a device names is one.
abbrev pub IsFromDevice : (String → Kind) → Message → Type 0
IsFromDevice kind (set_channel_uri m) = kind m.device_id ≡ device
IsFromDevice kind (set_push_accounts m) = kind m.device_id ≡ device
IsFromDevice kind (request_test_push m) = kind m.device_id ≡ device
IsFromDevice kind _ = Unit

module _ (json : JsonLib) (lib : RedisLib) (ndebug : Bool) (env : Environment)
    (kind : String → Kind) (laws : RedisLaws lib)
    (hashed : (s : String) → kind (env.hash_sha256 s) ≡ account_key)
    (token_node : kind wns_token_key ≡ node) where
  abbrev IsHealthy : PushServer lib → Type 0
  IsHealthy s = Healthy lib kind s.wns.db

  abbrev IsSound : {A : Type 0} → Ran (PushServer lib) A → Type 0
  IsSound = Sound (λ _. IsHealthy) IsHealthy

  module _ (tokens : (bound i : ℕ) → 0 < bound → env.token_draw bound i < bound)
      (passwords : (bound i : ℕ) → 0 < bound → env.password_draw bound i < bound)
      (plain : (first : ℕ) (t : String)
        → url_safe_random_token env.token_draw ndebug first 15 ≡ ok t
        → kind t ≡ node)
      (up : env.connection ≡ connected) where
    -- The list of a device names an account key at which there is nothing, as when it has expired.
    abbrev pub LacksAccount : PushServer lib → Type 0
    LacksAccount s =
        (device_id : String) × (kind device_id ≡ device)
        × (key : String) × (has_key (drop 2 (held (lib.look s.wns.db device_id))) key ≡ true)
        × (lib.look s.wns.db key ≡ none)

    abbrev IsExcused : Ran (PushServer lib) (Unit {0}) → Type 0
    IsExcused = Excused (λ _. IsHealthy) IsHealthy LacksAccount

    held-Sound :
        (device_id version : String) (ids : List String) (uri : String) (s : PushServer lib)
        → kind device_id ≡ device
        → IsHealthy s
        → All (HoldsNode lib s.wns.db) (drop 2 (held (lib.look s.wns.db device_id)))
        → IsSound (store_accounts json lib ndebug env device_id version ids uri s)
    held-Sound device_id version ids uri s p h nodes =
        let (s', e, st) =
          store_accounts_returns json lib ndebug env (is_key lib kind) laws
            (hashed_key lib kind laws env.hash_sha256 hashed) tokens passwords (λ v. kind v ≡ node)
            (node-not-key lib kind) plain s.wns h.typed h.refers up device_id version ids uri
            (device-not-key lib kind device_id p) (h.accounts device_id p) nodes s in
        let stored =
          set_push_accounts-Healthy lib kind env.hash_sha256 laws hashed s.wns.db h device_id p uri
            version st.accounts st.placed in
        let same =
          done_unique
            (RedisClient.set_push_accounts lib env.hash_sha256 device_id uri version st.accounts
              s.wns.db)
            stored.returns st.stored in
        subst IsSound (sym e)
          (returned (subst (λ (r : Unit {0} × lib.Db). Healthy lib kind r.1) same stored.holds))

    missing_fails :
        (device_id version : String) (ids : List String) (uri : String) (s : PushServer lib)
        → get_push_nodes lib device_id s.wns.db ≡ threw assertion_failed s.wns.db
        → store_accounts json lib ndebug env device_id version ids uri s ≡ threw assertion_failed s
    unfolding store_accounts
    missing_fails device_id version ids uri s h = rw h refl

    store_accounts-Excused :
        (device_id version : String) (ids : List String) (uri : String) (s : PushServer lib)
        → kind device_id ≡ device
        → IsHealthy s
        → IsExcused (store_accounts json lib ndebug env device_id version ids uri s)
    store_accounts-Excused device_id version ids uri s p h =
        elim (nodes_held_or_lacking lib (is_key lib kind) laws s.wns.db h.typed
          (drop 2 (held (lib.look s.wns.db device_id))) (h.accounts device_id p)) [
            | inl nodes ↦ sound (held-Sound device_id version ids uri s p h nodes)
            | inr (key, m, n, f) ↦
                subst IsExcused
                  (sym (
                    missing_fails device_id version ids uri s (
                      get_push_nodes_fails lib (is_key lib kind) laws s.wns.db h.typed device_id
                        (device-not-key lib kind device_id p) f)))
                  (excused h (device_id, p, key, m, n))
          ]

    known-Excused :
        (device_id version : String) (ids : List String) (uri : Option String) (s : PushServer lib)
        → kind device_id ≡ device
        → IsHealthy s
        → IsExcused (
            known json lib ndebug env
              (store_accounts json lib ndebug env device_id version ids)
              uri
              s)
    known-Excused device_id version ids none s p h =
        sound (error-Sound json lib ndebug env kind laws token_node _ s h)
    known-Excused device_id version ids (some uri) s p h =
        store_accounts-Excused device_id version ids uri s p h

    set_push_accounts-Excused :
        (device_id version : String) (ids : List String) (s : PushServer lib)
        → kind device_id ≡ device
        → IsHealthy s
        → IsExcused (Accounts.set_push_accounts json lib ndebug env device_id version ids s)
    unfolding Accounts.set_push_accounts get_channel_uri
    set_push_accounts-Excused device_id version ids s p h =
        go_on-Excused (in_db lib (get_channel_uri lib device_id) s) _
          (sound (
            reading-Sound json lib ndebug env kind laws token_node (lib.lrange s.wns.db device_id) _
              s h))
          (λ uri s' k. known-Excused device_id version ids uri s' p k)

    handle-Excused :
        (m : Message) (s : PushServer lib)
        → IsFromDevice kind m
        → IsHealthy s
        → IsExcused (handle json lib ndebug env m s)
    unfolding handle
    handle-Excused (set_channel_uri m) s p h =
        sound (
          set_channel-Sound json lib ndebug env kind laws token_node m.device_id m.channel_uri s p
            h)
    handle-Excused (set_push_accounts m) s p h =
        set_push_accounts-Excused m.device_id (to_string m.base.version) m.accounts s p h
    handle-Excused (request_test_push m) s p h =
        sound (send_test_push-Sound json lib ndebug env kind laws token_node m.device_id s h)
    handle-Excused (success m) s p h =
        sound (error-Sound json lib ndebug env kind laws token_node _ s h)
    handle-Excused (success_set_push_accounts m) s p h =
        sound (error-Sound json lib ndebug env kind laws token_node _ s h)
    handle-Excused (failure m) s p h =
        sound (error-Sound json lib ndebug env kind laws token_node _ s h)

    -- What comes of a message keeps the database healthy, and fails an assertion only where an
    -- account key of a device holds nothing.
    pub received-Excused :
        (m : Option Message) (s : PushServer lib)
        → ((n : Message) → m ≡ some n → IsFromDevice kind n)
        → IsHealthy s
        → IsExcused (received json lib ndebug env m s)
    received-Excused none s p h = sound (error-Sound json lib ndebug env kind laws token_node _ s h)
    received-Excused (some m) s p h = elim (Bool-cases (header m).is_valid) [
      | inl v ↦ simp v (
          handled-Excused (handle json lib ndebug env m s) _ (handle-Excused m s (p m refl) h)
            (error-Sound json lib ndebug env kind laws token_node _))
      | inr v ↦ simp v (sound (error-Sound json lib ndebug env kind laws token_node _ s h))
    ]
