-- ===== src/PushServer/Notifications.antt =====
-- server/PushServer.cpp and xmpp/XmppClient.cpp together: from a message of the XMPP server to the
-- channel of the device.
use uwpx_push_server.Common.{
  ◌≡◌, refl, ◌∙◌, Bool, true, false, String, some, List, [], ◌∷◌, ◌==◌, All, drop, ℕ, ok,
}
use uwpx_push_server.Common.Action.{Action, Ends, done, pure, ◌>>=◌, ◌>>◌}
use uwpx_push_server.Json.{JsonLib}
use uwpx_push_server.Redis.{RedisLib, RedisLaws}
use uwpx_push_server.RedisClient.{
  set_push_accounts, get_account_id, get_device_id, get_channel_uri, get_version,
}
use uwpx_push_server.RedisClient.Typed.{IsTyped, held}
use uwpx_push_server.RedisClient.Storing.{IsNode, IsKey}
use uwpx_push_server.RedisClient.Nodes.{at_node, new_node_known}
use uwpx_push_server.Messages.SuccessSetPushAccounts.Account.{PushAccount}
use uwpx_push_server.Xmpp.Strophe.{StropheLib}
use uwpx_push_server.Xmpp.Handler.{
  XmppClient, Counts, read_counts, message_handler, deliver, with_account, v1_text, is_second, push,
  send_v1_push, send_v2_push, on_v1_node_message, on_v2_node_message,
}
use uwpx_push_server.Xmpp.Handler.Event.{IsEvent, message_handler_lem}
use uwpx_push_server.PushServer.{Environment, PushServer}
use uwpx_push_server.PushServer.Handlers.{
  on_v1_message_for_node, on_v2_message_for_node, notify, push_text,
}
use uwpx_push_server.PushServer.Delivery.{with_db, Forwards, found-Forwards}

module _ (json : JsonLib) (lib : RedisLib) (ndebug : Bool) (env : Environment) where
  -- a push message with the counts, sent to the channel
  abbrev pub v2_push : String → String → Counts → Action (PushServer lib) (Unit {0})
  v2_push account_id channel_uri c = do
    msg ← push_text json lib ndebug env account_id c.messages c.pending
    notify json lib ndebug env channel_uri msg
    pure tt

  -- a text, sent to the channel
  abbrev pub v1_push : String → String → Action (PushServer lib) (Unit {0})
  v1_push channel_uri msg = do notify json lib ndebug env channel_uri msg; pure tt

module _ (strophe : StropheLib) (json : JsonLib) (lib : RedisLib) (ndebug : Bool)
    (env : Environment) where
  abbrev read_db : PushServer lib → lib.Db
  read_db s = s.wns.db

  abbrev write_db : lib.Db → PushServer lib → PushServer lib
  write_db d s = with_db lib s d

  -- the XMPP client, as the constructor of the server makes it
  unfoldable pub xmpp_client : XmppClient strophe lib (PushServer lib)
  xmpp_client = record {
    jid = env.jid;
    redis_client = some (read_db, write_db);
    v1_message_handler = some (on_v1_message_for_node json lib ndebug env);
    v2_message_handler = some (on_v2_message_for_node json lib ndebug env);
  }

  -- what the server does when a message arrives
  abbrev pub on_message : strophe.Stanza → Action (PushServer lib) ℕ
  on_message stanza = message_handler strophe lib xmpp_client stanza

  -- What the database knows of a node.
  record Known (node account_id device_id channel_uri version : String) (s : PushServer lib)
      : Type 0 where
    pub account : get_account_id lib node s.wns.db ≡ done (some account_id, s.wns.db)
    pub device : get_device_id lib node s.wns.db ≡ done (some device_id, s.wns.db)
    pub channel : get_channel_uri lib device_id s.wns.db ≡ done (some channel_uri, s.wns.db)
    pub read_version : get_version lib device_id s.wns.db ≡ done (some version, s.wns.db)

  module _ {node account_id device_id channel_uri version : String} {s : PushServer lib}
      (known : Known node account_id device_id channel_uri version s)
      {notification stanza : strophe.Stanza}
      (event : IsEvent strophe env.jid node notification stanza) where
    pushed :
        on_message stanza s
        ≡ (push strophe lib xmpp_client (some version) account_id node notification >> pure 1) s
    unfolding xmpp_client deliver
    pushed =
        message_handler_lem strophe lib xmpp_client read_db write_db refl event s
        ∙ rw (known.account, known.device, known.read_version)

    forwards : Forwards json lib ndebug env node channel_uri s
    forwards =
        found-Forwards json lib ndebug env node device_id channel_uri s known.device known.channel

    second_pushed :
        (c : Counts)
        → is_second (some version) ≡ true
        → read_counts strophe notification ≡ ok c
        → on_message stanza s ≡ (v2_push json lib ndebug env account_id channel_uri c >> pure 1) s
    unfolding send_v2_push on_v2_node_message xmpp_client
    second_pushed c v r = pushed ∙ rw (v, r, forwards.v2 account_id c.messages c.pending)

    first_pushed :
        (msg : String) (len : ℕ)
        → is_second (some version) ≡ false
        → strophe.to_text (with_account strophe account_id notification) ≡ some (msg, len)
        → on_message stanza s
          ≡ (v1_push json lib ndebug env channel_uri (v1_text msg len) >> pure 1) s
    unfolding send_v1_push on_v1_node_message xmpp_client
    first_pushed msg len v t = pushed ∙ rw (v, t, forwards.v1 (v1_text msg len))

  module _ (is_key : String → Bool) (laws : RedisLaws lib)
      (hashed : (s : String) → is_key (env.hash_sha256 s) ≡ true)
      (device_id channel_uri version : String) (accounts : List PushAccount) (s : PushServer lib)
      (typed : IsTyped lib is_key s.wns.db) (device_list : is_key device_id ≡ false)
      (registered : All (IsKey lib is_key) (drop 2 (held (lib.look s.wns.db device_id))))
      (placed : All (IsNode lib is_key) accounts) (n : String) (node_list : is_key n ≡ false)
      (other : (device_id == n) ≡ false) (a : PushAccount) (fresh : held (lib.look s.wns.db n) ≡ [])
      (only : at_node n accounts ≡ a ∷ []) where
    registered-Known :
        Ends
          (set_push_accounts lib env.hash_sha256 device_id channel_uri version accounts)
          s.wns.db
          (λ _ d. Known n a.account_id device_id channel_uri version (with_db lib s d))
    registered-Known =
        let e =
          new_node_known lib is_key laws env.hash_sha256 hashed device_id channel_uri version
            accounts s.wns.db typed device_list registered placed n node_list other a fresh only in
        record {
          result = e.result;
          state = e.state;
          returns = e.returns;
          holds = record {
            account = e.holds.0.account;
            device = e.holds.0.device;
            channel = e.holds.1;
            read_version = e.holds.2;
          };
        }

    module _ (notification stanza : strophe.Stanza)
        (event : IsEvent strophe env.jid n notification stanza) where
      -- After a device of version 2 has registered its accounts, a notification for a new node of
      -- exactly one of them, that comes from the account of the server itself, is sent to the
      -- device's channel as a push message of the account with the counts of the notification's
      -- form, and the handler stays registered. In the database account keys hold strings and other
      -- keys lists, neither the device's list nor the nodes of the accounts are account keys, what
      -- the device's list named before are account keys, and the node is not the device's list.
      pub on_message-v2_push :
          (c : Counts)
          → (version == "2") ≡ true
          → read_counts strophe notification ≡ ok c
          → Ends
              (set_push_accounts lib env.hash_sha256 device_id channel_uri version accounts)
              s.wns.db
              (λ _ d.
                on_message stanza (with_db lib s d)
                ≡ (v2_push json lib ndebug env a.account_id channel_uri c >> pure 1)
                    (with_db lib s d))
      on_message-v2_push c v r =
          let e = registered-Known in
          record {
            result = e.result;
            state = e.state;
            returns = e.returns;
            holds = second_pushed e.holds event c v r;
          }

      -- After a device of another version has registered its accounts, such a notification is sent
      -- to the device's channel as the text of the notification with the account below it, or as a
      -- fixed text where it is longer than 4096 bytes. The conditions are those of
      -- on_message-v2_push.
      pub on_message-v1_push :
          (msg : String) (len : ℕ)
          → (version == "2") ≡ false
          → strophe.to_text (with_account strophe a.account_id notification) ≡ some (msg, len)
          → Ends
              (set_push_accounts lib env.hash_sha256 device_id channel_uri version accounts)
              s.wns.db
              (λ _ d.
                on_message stanza (with_db lib s d)
                ≡ (v1_push json lib ndebug env channel_uri (v1_text msg len) >> pure 1)
                    (with_db lib s d))
      on_message-v1_push msg len v t =
          let e = registered-Known in
          record {
            result = e.result;
            state = e.state;
            returns = e.returns;
            holds = first_pushed e.holds event msg len v t;
          }
