-- ===== src/Xmpp/Handler/Event.antt =====
-- xmpp/XmppClient.cpp: the messages that message_handler acts on.
use uwpx_push_server.Common.{
  ◌≡◌, ◌≢◌, ◌∙◌, String, none, some, ◌==◌, ok, arith, eq_iff, Bool-cases, Option-cases,
  Result-cases, eq_refl, sym, inl, inr, ap,
}
use uwpx_push_server.Common.Action.{left, ◌>>◌, pure}
use uwpx_push_server.Redis.{RedisLib}
use uwpx_push_server.Xmpp.Strophe.{StropheLib}
use uwpx_push_server.Xmpp.Handler.{
  XmppClient, event_ns, push_ns, get_items_node, get_notification_node, message_handler, deliver,
}

module _ (lib : StropheLib) where
  open lib use {Stanza, get_attribute, get_ns, get_child_by_name}

  -- A notification for a node, as the publish-subscribe service of the account itself sends it.
  pub record IsEvent (jid node : String) (notification stanza : Stanza) : Type 0 where
    pub event : Stanza
    pub items : Stanza
    pub item : Stanza
    pub from : get_attribute stanza "from" ≡ some jid
    pub under_message : get_child_by_name stanza "event" ≡ some event
    pub namespace : get_ns event ≡ some event_ns
    pub under_event : get_child_by_name event "items" ≡ some items
    pub under_items : get_child_by_name items "item" ≡ some item
    pub under_item : get_child_by_name item "notification" ≡ some notification
    pub push : get_ns notification ≡ some push_ns
    pub of_node : get_attribute items "node" ≡ some node

  pub items_found :
      (stanza items : Stanza)
      → get_items_node lib stanza ≡ ok (some items)
      → (event : Stanza) × (get_child_by_name stanza "event" ≡ some event)
        × (get_ns event ≡ some event_ns)
        × (get_child_by_name event "items" ≡ some items)
  unfolding get_items_node
  items_found stanza items h = elim (Option-cases (get_child_by_name stanza "event")) [
    | inl e ↦ absurd (ground arith)
    | inr (event, e) ↦ elim (Option-cases (get_ns event)) [
      | inl n ↦ absurd (ground arith)
      | inr (ns, n) ↦ elim (Bool-cases (ns == event_ns)) [
        | inl t ↦ (event, e, n ∙ ap some ((eq_iff ns event_ns).0 t), ground arith)
        | inr f ↦ absurd (ground arith)
      ]
    ]
  ]

  pub notification_found :
      (items notification : Stanza)
      → get_notification_node lib items ≡ ok (some notification)
      → (item : Stanza) × (get_child_by_name items "item" ≡ some item)
        × (get_child_by_name item "notification" ≡ some notification)
        × (get_ns notification ≡ some push_ns)
  unfolding get_notification_node
  notification_found items notification h = elim (Option-cases (get_child_by_name items "item")) [
    | inl e ↦ absurd (ground arith)
    | inr (item, e) ↦ elim (Option-cases (get_child_by_name item "notification")) [
      | inl n ↦ absurd (ground arith)
      | inr (found, n) ↦ elim (Option-cases (get_ns found)) [
        | inl x ↦ absurd (ground arith)
        | inr (ns, x) ↦ elim (Bool-cases (ns == push_ns)) [
          | inl t ↦
              let same : found ≡ notification = ground arith in
              (
                item,
                e,
                n ∙ ap some same,
                ap get_ns (sym same) ∙ x ∙ ap some ((eq_iff ns push_ns).0 t),
              )
          | inr f ↦ absurd (ground arith)
        ]
      ]
    ]
  ]

  genuine :
      {jid node : String} {items notification : Stanza} (stanza : Stanza)
      → get_attribute stanza "from" ≡ some jid
      → get_items_node lib stanza ≡ ok (some items)
      → get_notification_node lib items ≡ ok (some notification)
      → get_attribute items "node" ≡ some node
      → IsEvent jid node notification stanza
  genuine {items} {notification} stanza f i n a =
      let (event, e, ns, c) = items_found stanza items i in
      let (item, e', c', ns') = notification_found items notification n in
      record {
        event = event;
        items = items;
        item = item;
        from = f;
        under_message = e;
        namespace = ns;
        under_event = c;
        under_items = e';
        under_item = c';
        push = ns';
        of_node = a;
      }

  module _ (db : RedisLib) {S : Type 0} (client : XmppClient lib db S) where
    -- A run of message_handler that leaves the server in another state has been on a notification
    -- for some node from the account itself, in the namespaces of events and of push notifications.
    pub message_handler-IsEvent :
        (stanza : Stanza) (s : S)
        → left (message_handler lib db client stanza s) ≢ s
        → (node : String) × (notification : Stanza) × IsEvent client.jid node notification stanza
    unfolding message_handler
    message_handler-IsEvent stanza s h = elim (Option-cases (get_attribute stanza "from")) [
      | inl f ↦ absurd (h (rw f))
      | inr (from, f) ↦ elim (Bool-cases (from == client.jid)) [
        | inr no_match ↦ absurd (h (rw (f, no_match)))
        | inl match ↦ elim (Result-cases (get_items_node lib stanza)) [
          | inr (x, i) ↦ absurd (h (rw (f, match, i)))
          | inl (none, i) ↦ absurd (h (rw (f, match, i)))
          | inl (some items, i) ↦ elim (Result-cases (get_notification_node lib items)) [
            | inr (x, n) ↦ absurd (h (rw (f, match, i, n)))
            | inl (none, n) ↦ absurd (h (rw (f, match, i, n)))
            | inl (some notification, n) ↦ elim (Option-cases (get_attribute items "node")) [
              | inl a ↦ absurd (h (rw (f, match, i, n, a)))
              | inr (node, a) ↦ (
                node,
                notification,
                genuine stanza (f ∙ ap some ((eq_iff from client.jid).0 match)) i n a,
              )
            ]
          ]
        ]
      ]
    ]

    -- A notification of the account itself for a node is handed on, once.
    pub message_handler_lem :
        (read : S → db.Db) (write : db.Db → S → S)
        → client.redis_client ≡ some (read, write)
        → {node : String} {notification stanza : Stanza}
        → IsEvent client.jid node notification stanza
        → (s : S)
        → message_handler lib db client stanza s
          ≡ (deliver lib db client read write node notification >> pure 1) s
    unfolding message_handler get_items_node get_notification_node
    message_handler_lem read write r e s = rw (
      e.from,
      eq_refl client.jid,
      e.under_message,
      e.namespace,
      e.under_event,
      e.under_items,
      e.under_item,
      e.push,
      e.of_node,
      r,
    )
