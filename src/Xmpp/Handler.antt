-- ===== src/Xmpp/Handler.antt =====
-- xmpp/XmppClient.cpp: message_handler, what it reads of a message, and the two pushes; iq_handler
-- and conn_handler. The use of a null pointer where the code expects a text is `assertion_failed`.
-- The texts hold no NUL, so strcmp compares them whole.
pub mod Form
pub mod Counted
pub mod Event
use uwpx_push_server.Common.{
  ℕ, Bool, true, false, String, Option, none, some, List, [], ◌∷◌, ◌==◌, if◌then◌else◌, ltb, Result,
  ok, err, assertion_failed, invalid_argument, or_throw, and_then, ℤ, pos,
}
use uwpx_push_server.Common.Action.{Action, pure, ask, on_part, done, ◌>>=◌, ◌>>◌}
use uwpx_push_server.Common.Decimal.Stoi.{stoi}
use uwpx_push_server.Redis.{RedisLib}
use uwpx_push_server.RedisClient.{get_account_id, get_device_id, get_version}
use uwpx_push_server.Xmpp.Strophe.{StropheLib}
use uwpx_push_server.Xmpp.Build.{named, send_presence_online}

abbrev pub event_ns : String
event_ns = "http://jabber.org/protocol/pubsub#event"

abbrev pub push_ns : String
push_ns = "urn:xmpp:push:0"

-- messageCount and pendingSubscriptionCount
pub record Counts : Type 0 where
  pub messages : ℤ
  pub pending : ℤ

abbrev pub no_counts : Counts
no_counts = record { messages = pos 0; pending = pos 0 }

abbrev pub v1_text : String → ℕ → String
v1_text msg len = if ltb 4096 len then "New message received!" else msg

abbrev pub is_second : Option String → Bool
is_second none = false
is_second (some version) = version == "2"

-- try { n = stoi(text); } catch (const std::invalid_argument&) {}
abbrev pub kept : ℤ → Result ℤ → Result ℤ
kept n (err invalid_argument) = ok n
kept n r = r

abbrev non_null {ℓ} : {A : Type ℓ} → Option A → Result A
non_null = or_throw assertion_failed

module _ (lib : StropheLib) where
  open lib use {Stanza, get_name, get_attribute, get_ns, get_child_by_name, children, get_text}

  abbrev in_child {ℓ} : {A : Type ℓ} → Result A → (Stanza → Result A) → Option Stanza → Result A
  in_child without go none = without
  in_child without go (some c) = go c

  -- what a child that may be missing gives
  abbrev pub under {ℓ} : {A : Type ℓ} → Stanza → String → Result A → (Stanza → Result A) → Result A
  under s n without go = in_child without go (get_child_by_name s n)

  unfoldable pub get_items_node : Stanza → Result (Option Stanza)
  get_items_node stanza = under stanza "event" (ok none) λ event.
      and_then (non_null (get_ns event))
        λ ns. ok (if ns == event_ns then get_child_by_name event "items" else none)

  abbrev notification_of : Stanza → Result (Option Stanza)
  notification_of item = under item "notification" (ok none) λ notification.
      and_then (non_null (get_ns notification))
        λ ns. ok (if ns == push_ns then some notification else none)

  unfoldable pub get_notification_node : Stanza → Result (Option Stanza)
  get_notification_node items = under items "item" (ok none) notification_of

  abbrev number_in : ℤ → Option String → Result ℤ
  number_in n none = ok n
  number_in n (some text) = kept n (stoi text)

  -- the number in the `value` of a field, over the number so far
  unfoldable pub read_value : Stanza → ℤ → Result ℤ
  read_value field n = under field "value" (ok n) λ value. number_in n (get_text value)

  abbrev pub read_var : Stanza → Counts → Option String → Result Counts
  read_var field c none = ok c
  read_var field c (some var) =
      if var == "message-count"
      then and_then (read_value field c.messages) (λ n. ok (record c { messages = n }))
      else if var == "pending-subscription-count"
      then and_then (read_value field c.pending) (λ n. ok (record c { pending = n }))
      else ok c

  -- the body of the loop of send_v2_push
  unfoldable pub read_field : Stanza → Counts → Result Counts
  unfolding read_value
  read_field field c =
      and_then (non_null (get_name field))
        λ name. if name == "field" then read_var field c (get_attribute field "var") else ok c

  unfoldable pub read_fields : List Stanza → Counts → Result Counts
  read_fields [] c = ok c
  read_fields (field ∷ rest) c = and_then (read_field field c) (λ c'. read_fields rest c')

  unfoldable pub read_counts : Stanza → Result Counts
  read_counts notification =
      under notification "x" (ok no_counts) (λ x. read_fields (children x) no_counts)

  -- the notification with the account below it
  abbrev pub with_account : String → Stanza → Stanza
  with_account account_id notification =
      lib.add_child notification (lib.set_attribute (named lib "account") "id" account_id)

  -- What the client has of the rest of the server: the database behind the pointer to the Redis
  -- client, which may be null, and the two handlers, which may be empty.
  pub record XmppClient (db : RedisLib) (S : Type 0) : Type 0 where
    pub jid : String
    pub redis_client : Option ((S → db.Db) × (db.Db → S → S))
    pub v1_message_handler : Option (String → String → Action S (Unit {0}))
    pub v2_message_handler : Option (String → String → ℤ → ℤ → Action S (Unit {0}))

  module _ (db : RedisLib) {S : Type 0} (client : XmppClient db S) where
    unfoldable pub on_v1_node_message : String → String → Action S (Unit {0})
    on_v1_node_message node msg = do
      handler ← ask λ _. non_null client.v1_message_handler
      handler node msg

    unfoldable pub on_v2_node_message : String → String → ℤ → ℤ → Action S (Unit {0})
    on_v2_node_message node account_id messages pending = do
      handler ← ask λ _. non_null client.v2_message_handler
      handler node account_id messages pending

    unfoldable pub send_v2_push : String → String → Stanza → Action S (Unit {0})
    send_v2_push account_id node notification = do
      c ← ask λ _. read_counts notification
      on_v2_node_message node account_id c.messages c.pending

    abbrev send_text : String → Option (String × ℕ) → Action S (Unit {0})
    send_text node none = pure tt
    send_text node (some (msg, len)) = on_v1_node_message node (v1_text msg len)

    unfoldable pub send_v1_push : String → String → Stanza → Action S (Unit {0})
    send_v1_push account_id node notification =
        send_text node (lib.to_text (with_account account_id notification))

    abbrev pub push : Option String → String → String → Stanza → Action S (Unit {0})
    push version account_id node notification =
        if is_second version
        then send_v2_push account_id node notification
        else send_v1_push account_id node notification

    -- the calls of the Redis client
    module _ (read : S → db.Db) (write : db.Db → S → S) where
      abbrev version_of : Option String → Action S (Option String)
      version_of none = pure none
      version_of (some device_id) = on_part read write (get_version db device_id)

      abbrev known : String → Stanza → Option String → Action S (Unit {0})
      known node notification none = pure tt
      known node notification (some account_id) = do
        device_id ← on_part read write (get_device_id db node)
        version ← version_of device_id
        push version account_id node notification

      unfoldable pub deliver : String → Stanza → Action S (Unit {0})
      deliver node notification = do
        account_id ← on_part read write (get_account_id db node)
        known node notification account_id

    abbrev with_redis :
        Option ((S → db.Db) × (db.Db → S → S)) → String → Stanza → Action S (Unit {0})
    with_redis none node notification = ask λ _. err assertion_failed
    with_redis (some (read, write)) node notification = deliver read write node notification

    abbrev on_notification : Stanza → Option Stanza → Action S (Unit {0})
    on_notification items none = pure tt
    on_notification items (some notification) = do
      node ← ask λ _. non_null (get_attribute items "node")
      with_redis client.redis_client node notification

    abbrev on_items : Option Stanza → Action S (Unit {0})
    on_items none = pure tt
    on_items (some items) = do
      notification ← ask λ _. get_notification_node items
      on_notification items notification

    -- Every message is answered by 1, which keeps the handler registered.
    unfoldable pub message_handler : Stanza → Action S ℕ
    message_handler stanza = do
      from ← ask λ _. non_null (get_attribute stanza "from")
      (if from == client.jid
          then (do items ← ask λ _. get_items_node stanza; on_items items)
          else pure tt)
      pure 1

-- xmpp_conn_event_t
pub data ConnEvent : Type 0 where
  raw_connect connect disconnect fail : ConnEvent

module _ (lib : StropheLib) where
  -- What has been sent on the connection, newest first, and whether the event loop has been told to
  -- end.
  pub record Stream : Type 0 where
    pub sent : List lib.Stanza
    pub stopped : Bool

  unfoldable pub conn_handler : String → ConnEvent → Stream → Stream
  conn_handler bound_jid connect s = record s { sent = send_presence_online lib bound_jid ∷ s.sent }
  conn_handler bound_jid _ s = record s { stopped = true }
