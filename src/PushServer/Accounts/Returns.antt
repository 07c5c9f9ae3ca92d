-- ===== src/PushServer/Accounts/Returns.antt =====
-- server/PushServer.cpp: that set_push_accounts, once the channel of the device is known, returns
-- on a connection to the XMPP server and in a database that is in order.
use Prim.Native.Nat.{◌<◌}
use uwpx_push_server.Common.{
  ◌≡◌, refl, Bool, true, false, ℕ, String, some, List, [], ◌∷◌, All, drop, ok,
}
use uwpx_push_server.Common.Action.{done, Ends}
use uwpx_push_server.CryptoUtils.{url_safe_random_token}
use uwpx_push_server.Json.{JsonLib}
use uwpx_push_server.Redis.{RedisLib, RedisLaws, text}
use uwpx_push_server.RedisClient.Typed.{IsTyped, held}
use uwpx_push_server.RedisClient.Storing.{IsNode, IsKey, All-map}
use uwpx_push_server.RedisClient.Accounts.{set_push_accounts_lem}
use uwpx_push_server.RedisClient.Loading.{HoldsNode, get_push_nodes_lem}
use uwpx_push_server.Wns.{WnsClient}
use uwpx_push_server.Xmpp.{connected}
use uwpx_push_server.Messages.Header
use uwpx_push_server.Messages.Response
use uwpx_push_server.Messages.SuccessSetPushAccounts
use uwpx_push_server.Messages.SuccessSetPushAccounts.Account.{PushAccount}
use uwpx_push_server.PushServer.{Environment, PushServer, send}
use uwpx_push_server.PushServer.Accounts.{set_contains, set_insert, store_accounts}
use uwpx_push_server.PushServer.Accounts.Placing.{map_has}
use uwpx_push_server.PushServer.Accounts.Synchronised.{after_delete, after_set_up, marked}
use uwpx_push_server.PushServer.Accounts.Collected.{at_w, collect_returns, marked-All, IsPlaced}
use uwpx_push_server.PushServer.Accounts.Runs.{delete_all_lem, set_up_lem}
use uwpx_push_server.PushServer.Accounts.Stored.{Stored, store_accounts-Stored}
use uwpx_push_server.RedisClient

module _ (json : JsonLib) (lib : RedisLib) (ndebug : Bool) (env : Environment)
    (is_key : String → Bool) (laws : RedisLaws lib)
    (hashed : (s : String) → is_key (env.hash_sha256 s) ≡ true)
    (tokens : (bound i : ℕ) → 0 < bound → env.token_draw bound i < bound)
    (passwords : (bound i : ℕ) → 0 < bound → env.password_draw bound i < bound)
    (IsGood : String → Type 0) (good_list : (v : String) → IsGood v → is_key v ≡ false)
    (plain : (first : ℕ) (t : String)
      → url_safe_random_token env.token_draw ndebug first 15 ≡ ok t
      → IsGood t) where
  -- Accounts have been stored in the database of `w`, at nodes that are good.
  pub record Storing (device_id channel_uri version : String) (w : WnsClient lib)
      (s' : PushServer lib) : Type 0 where
    pub accounts : List PushAccount
    pub placed : All (IsPlaced IsGood) accounts
    pub stored :
        RedisClient.set_push_accounts lib env.hash_sha256 device_id channel_uri version accounts
          w.db
        ≡ done (tt, s'.wns.db)

  good_IsNode :
      (accounts : List PushAccount)
      → All (IsPlaced IsGood) accounts
      → All (IsNode lib is_key) accounts
  good_IsNode accounts h =
      All-map (IsPlaced IsGood) (IsNode lib is_key) accounts (λ a. good_list a.node) h

  module _ (w : WnsClient lib) (typed : IsTyped lib is_key w.db)
      (refers : (k v : String) → lib.look w.db k ≡ some (text v) → IsGood v) where
    module _ (up : env.connection ≡ connected) (device_id version : String) (ids : List String)
        (channel_uri : String) (device_list : is_key device_id ≡ false)
        (registered : All (IsKey lib is_key) (drop 2 (held (lib.look w.db device_id))))
        (nodes_held : All (HoldsNode lib w.db) (drop 2 (held (lib.look w.db device_id)))) where
      told :
          (accounts : List PushAccount)
          → (j : json.Object) × (SuccessSetPushAccounts.to_json json ndebug
                (SuccessSetPushAccounts.create accounts env.jid)
                json.empty
              ≡ ok j)
      unfolding SuccessSetPushAccounts.to_json Response.to_json Header.to_json
      told accounts = (_, refl)

      pub store_accounts_returns :
          (s : PushServer lib)
          → (s' : PushServer lib) × (store_accounts json lib ndebug env device_id version ids
                channel_uri
                (at_w lib w s)
              ≡ done (tt, s'))
            × Storing device_id channel_uri version w s'
      unfolding store_accounts send
      store_accounts_returns s =
          let (old, e) =
            get_push_nodes_lem lib is_key laws w.db typed device_id device_list nodes_held in
          let (n, s1, f, placed) =
            collect_returns json lib ndebug env is_key laws hashed tokens passwords IsGood good_list
              plain w typed refers device_id ids
              (record { delete_nodes = set_insert old []; add_nodes = []; push_accounts = [] }) s
              tt in
          let s2 = record s1 { stanzas = after_delete (env.set_order n.delete_nodes) s1.stanzas } in
          let accounts = marked (env.map_order n.add_nodes) n.push_accounts in
          let all = marked-All IsGood (env.map_order n.add_nodes) n.push_accounts placed in
          let stored =
            set_push_accounts_lem lib is_key laws env.hash_sha256 hashed device_id channel_uri
              version accounts w.db typed device_list registered (good_IsNode accounts all) in
          let (j, t) = told accounts in
          (
            record s2 {
              wns = record w { db = stored.state };
              stanzas = after_set_up (env.map_order n.add_nodes) s2.stanzas;
              sent = json.dump (json.json j) ∷ s1.sent;
            },
            rw (
              e,
              f,
              delete_all_lem json lib ndebug env up (env.set_order n.delete_nodes) (at_w lib w s1),
              set_up_lem json lib ndebug env up (env.map_order n.add_nodes) n.push_accounts
                  (at_w lib w s2),
              stored.returns,
              t,
            ),
            record { accounts = accounts; placed = all; stored = stored.returns },
          )

module _ (json : JsonLib) (lib : RedisLib) (ndebug : Bool) (env : Environment)
    (is_key : String → Bool) (laws : RedisLaws lib)
    (hashed : (s : String) → is_key (env.hash_sha256 s) ≡ true)
    (tokens : (bound i : ℕ) → 0 < bound → env.token_draw bound i < bound)
    (passwords : (bound i : ℕ) → 0 < bound → env.password_draw bound i < bound)
    (plain : (first : ℕ) (t : String)
      → url_safe_random_token env.token_draw ndebug first 15 ≡ ok t
      → is_key t ≡ false) where
  module _ (up : env.connection ≡ connected)
      (same_set : (x : String) (set : List String)
        → set_contains x (env.set_order set) ≡ set_contains x set)
      (same_map : (x : String) (map : List (String × ℕ))
        → map_has x (env.map_order map) ≡ map_has x map)
      (device_id version : String) (ids : List String) (channel_uri : String) (s : PushServer lib)
      (typed : IsTyped lib is_key s.wns.db) (device_list : is_key device_id ≡ false)
      (refers : (k v : String) → lib.look s.wns.db k ≡ some (text v) → is_key v ≡ false)
      (registered : All (IsKey lib is_key) (drop 2 (held (lib.look s.wns.db device_id))))
      (nodes_held : All
        (HoldsNode lib s.wns.db)
        (drop 2 (held (lib.look s.wns.db device_id)))) where
    -- On a connection to the XMPP server, set_push_accounts, from where the channel of the device
    -- is known, returns. Then each old node of the device at which no account is any more has been
    -- unsubscribed from and deleted, and no other has; each node of an account that is not an old
    -- one has been made and subscribed to, and no node has been made that is not an account's; and
    -- the accounts are those of the ids, and are stored in the database and told to the device. In
    -- the database account keys hold strings, which are nodes, and other keys hold lists; the
    -- device's list is not at an account key, and what it names are account keys that hold nodes.
    -- The random numbers are below their bounds, no random text is an account key, and the orders
    -- of iteration over a set and a map keep what is in them.
    pub store_accounts_lem :
        Ends
          (store_accounts json lib ndebug env device_id version ids channel_uri)
          s
          (λ _ s'. Stored json lib ndebug env device_id version channel_uri ids s s')
    store_accounts_lem =
        let (s', e, _) =
          store_accounts_returns json lib ndebug env is_key laws hashed tokens passwords
            (λ v. is_key v ≡ false) (λ v p. p) plain s.wns typed refers up device_id version ids
            channel_uri device_list registered nodes_held s in
        record {
          result = tt;
          state = s';
          returns = e;
          holds =
              store_accounts-Stored json lib ndebug env up same_set same_map device_id version ids
                channel_uri s s' e;
        }
