-- ===== src/PushServer/Delivery.antt =====
-- Where a notification for a node goes, after the device has registered its accounts.
use uwpx_push_server.Common.{
  ◌≡◌, Bool, true, false, String, none, some, List, [], ◌∷◌, ◌==◌, ℤ, All, drop, null,
}
use uwpx_push_server.Common.Action.{Ends, done, pure, ◌>>=◌, ◌>>◌}
use uwpx_push_server.Json.{JsonLib}
use uwpx_push_server.Redis.{RedisLib, RedisLaws}
use uwpx_push_server.RedisClient.{set_push_accounts, get_device_id, get_channel_uri}
use uwpx_push_server.RedisClient.Typed.{IsTyped, held}
use uwpx_push_server.RedisClient.Storing.{IsNode, IsKey}
use uwpx_push_server.RedisClient.Nodes.{at_node, new_node_found, reused_node_lost}
use uwpx_push_server.Messages.SuccessSetPushAccounts.Account.{PushAccount}
use uwpx_push_server.PushServer.{Environment, PushServer}
use uwpx_push_server.PushServer.Handlers.{
  on_v1_message_for_node, on_v2_message_for_node, notify, push_text,
}

-- the server with another database
abbrev pub with_db : (lib : RedisLib) → PushServer lib → lib.Db → PushServer lib
with_db lib s d = record s { wns = record s.wns { db = d } }

module _ (json : JsonLib) (lib : RedisLib) (ndebug : Bool) (env : Environment) where
  -- Both kinds of notification for the node leave for the channel.
  pub record Forwards (node channel_uri : String) (s : PushServer lib) : Type 0 where
    pub v1 :
        (msg : String)
        → on_v1_message_for_node json lib ndebug env node msg s
          ≡ (notify json lib ndebug env channel_uri msg >> pure tt) s
    pub v2 :
        (account_id : String) (messages pending : ℤ)
        → on_v2_message_for_node json lib ndebug env node account_id messages pending s
          ≡ (push_text json lib ndebug env account_id messages pending >>= λ msg.
                notify json lib ndebug env channel_uri msg >> pure tt)
              s

  -- Both kinds of notification for the node are dropped: nothing is changed and nothing sent.
  pub record Drops (node : String) (s : PushServer lib) : Type 0 where
    pub v1 : (msg : String) → on_v1_message_for_node json lib ndebug env node msg s ≡ done (tt, s)
    pub v2 :
        (account_id : String) (messages pending : ℤ)
        → on_v2_message_for_node json lib ndebug env node account_id messages pending s
          ≡ done (tt, s)

  pub found-Forwards :
      (node device_id channel_uri : String) (s : PushServer lib)
      → get_device_id lib node s.wns.db ≡ done (some device_id, s.wns.db)
      → get_channel_uri lib device_id s.wns.db ≡ done (some channel_uri, s.wns.db)
      → Forwards node channel_uri s
  unfolding on_v1_message_for_node on_v2_message_for_node
  found-Forwards node device_id channel_uri s n d = record {
    v1 = λ msg. rw (n, d);
    v2 = λ account_id messages pending. rw (n, d);
  }

  lost-Drops :
      (node : String) (s : PushServer lib)
      → get_device_id lib node s.wns.db ≡ done (none, s.wns.db)
      → Drops node s
  unfolding on_v1_message_for_node on_v2_message_for_node
  lost-Drops node s n = record { v1 = λ msg. rw n; v2 = λ account_id messages pending. rw n }

  module _ (is_key : String → Bool) (laws : RedisLaws lib)
      (hashed : (s : String) → is_key (env.hash_sha256 s) ≡ true)
      (device_id channel_uri version : String) (accounts : List PushAccount) (s : PushServer lib)
      (typed : IsTyped lib is_key s.wns.db) (device_list : is_key device_id ≡ false)
      (registered : All (IsKey lib is_key) (drop 2 (held (lib.look s.wns.db device_id))))
      (placed : All (IsNode lib is_key) accounts) (n : String) (node_list : is_key n ≡ false)
      (other : (device_id == n) ≡ false) where
    -- In a database whose account keys hold strings and whose other keys hold lists, once a device
    -- has registered its accounts, every notification for a new node of exactly one of them is sent
    -- to the device's channel: a v1 message as it is, a v2 message as the push message that is made
    -- of it. Neither the device's list nor the nodes of the accounts are account keys, what the
    -- device's list named before are account keys, and the node is not the device's list.
    pub set_push_accounts-Forwards :
        (a : PushAccount)
        → held (lib.look s.wns.db n) ≡ []
        → at_node n accounts ≡ a ∷ []
        → Ends
            (set_push_accounts lib env.hash_sha256 device_id channel_uri version accounts)
            s.wns.db
            (λ _ d. Forwards n channel_uri (with_db lib s d))
    set_push_accounts-Forwards a fresh only =
        let e =
          new_node_found lib is_key laws env.hash_sha256 hashed device_id channel_uri version
            accounts s.wns.db typed device_list registered placed n node_list other a fresh only in
        record {
          result = e.result;
          state = e.state;
          returns = e.returns;
          holds =
              found-Forwards n device_id channel_uri (with_db lib s e.state) e.holds.0.device
                e.holds.1;
        }

    -- In a database whose account keys hold strings and whose other keys hold lists, once a device
    -- has registered an account again at a node that has the list of three entries of an earlier
    -- registration, every notification for that node is dropped: the handlers return, nothing is
    -- changed and nothing is sent. Neither the device's list nor the nodes of the accounts are
    -- account keys, what the device's list named before are account keys, and the node is not the
    -- device's list.
    pub set_push_accounts-Drops :
        (x y z : String)
        → held (lib.look s.wns.db n) ≡ x ∷ y ∷ z ∷ []
        → null (at_node n accounts) ≡ false
        → Ends
            (set_push_accounts lib env.hash_sha256 device_id channel_uri version accounts)
            s.wns.db
            (λ _ d. Drops n (with_db lib s d))
    set_push_accounts-Drops x y z known again =
        let e =
          reused_node_lost lib is_key laws env.hash_sha256 hashed device_id channel_uri version
            accounts s.wns.db typed device_list registered placed n node_list other x y z known
            again in
        record {
          result = e.result;
          state = e.state;
          returns = e.returns;
          holds = lost-Drops n (with_db lib s e.state) e.holds.device;
        }
