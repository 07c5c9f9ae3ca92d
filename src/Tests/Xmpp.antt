-- ===== src/Tests/Xmpp.antt =====
-- The theorems on stanzas, over the trees of Xmpp/Strophe/Tree.
use uwpx_push_server.Redis.{items as entry_items}
use uwpx_push_server.Common.Action.{Ends, done, left, ◌>>◌, pure}
use uwpx_push_server.Common.{
  ap, sym, ◌∙◌, false, ◌≢◌, none, pos, if◌then◌else◌, ◌==◌, ok, All, is_empty, map, ◌≡◌, refl,
  String, some, List, [], ◌∷◌,
}
use uwpx_push_server.Redis.Memory.{memory, memory_laws}
use uwpx_push_server.RedisClient.{set_push_accounts, get_account_id, get_device_id, get_version}
use uwpx_push_server.Json.Tree as Json
use uwpx_push_server.PushServer.Delivery.{with_db}
use uwpx_push_server.PushServer.Notifications.{on_message, v2_push, on_message-v2_push}
use uwpx_push_server.Tests.Delivery.{environment, fresh_server}
use uwpx_push_server.Tests.RedisClient.{
  hash, accounts, account, empty, is_key, hash-is_key, empty-IsTyped, no-IsKey, nothing_held,
}
use uwpx_push_server.Xmpp.Handler.{
  Counts, XmppClient, message_handler, get_items_node, get_notification_node, deliver, send_v1_push,
  on_v1_node_message, read_counts, event_ns, push_ns,
}
use uwpx_push_server.Xmpp.Handler.Counted.{read_counts_lem}
use uwpx_push_server.Xmpp.Handler.Event.{message_handler-IsEvent, IsEvent}
use uwpx_push_server.Xmpp.{pep_publish_empty}
use uwpx_push_server.Xmpp.Strophe.Tree.{tree, tree_laws}
use uwpx_push_server.Xmpp.Build.{option_field, xmpp_field_new, made, add_fields}
use uwpx_push_server.Common.Decimal.Stoi.{stoi}
use uwpx_push_server.Xmpp.Handler.Form.{InRange, Field}
use uwpx_push_server.Xmpp.Build.Addressed.{Asks, made-Asks}

made-Asks_example :
    Asks tree "publish" "node" "push@example.org/a"
      (made tree "push@example.org" "push@example.org/a" (pep_publish_empty "node"))
made-Asks_example =
    made-Asks tree tree_laws "push@example.org" "push@example.org/a" (pep_publish_empty "node")

abbrev fields : List Field
fields =
    ("FORM_TYPE", "hidden", "urn:xmpp:push:summary")
    ∷ ("message-count", "text-single", "3")
    ∷ ("pending-subscription-count", "text-single", "none")
    ∷ ("message-count", "text-single", "4")
    ∷ []

abbrev element : String → tree.Stanza
element name = tree.set_name tree.blank name

abbrev form : tree.Stanza
form = add_fields tree fields (element "x")

abbrev notification : tree.Stanza
notification = tree.add_child (tree.set_ns (element "notification") push_ns) form

form_found : tree.get_child_by_name notification "x" ≡ some form
unfolding tree
form_found = refl

form_children : tree.children form ≡ map (option_field tree) fields
unfolding tree xmpp_field_new
form_children = refl

fields-InRange : All InRange fields
unfolding stoi is_empty
fields-InRange = ((refl, tt), ((refl, tt), ((refl, tt), ((refl, tt), tt))))

abbrev counts : Counts
counts = record { messages = pos 4; pending = pos 0 }

read_counts_lem_example : read_counts tree notification ≡ ok counts
unfolding stoi
read_counts_lem_example =
    read_counts_lem tree tree_laws notification form form_found fields form_children fields-InRange

-- a notification of the server's own account
abbrev item : tree.Stanza
item = tree.add_child (element "item") notification

abbrev items : tree.Stanza
items = tree.add_child (tree.set_attribute (element "items") "node" "node") item

abbrev event : tree.Stanza
event = tree.add_child (tree.set_ns (element "event") event_ns) items

abbrev message : tree.Stanza
message = tree.set_attribute (tree.add_child (element "message") event) "from" "push@example.org"

message-IsEvent : IsEvent tree "push@example.org" "node" notification message
unfolding tree
message-IsEvent = record {
  event = event;
  items = items;
  item = item;
  from = refl;
  under_message = refl;
  namespace = refl;
  under_event = refl;
  under_items = refl;
  under_item = refl;
  push = refl;
  of_node = refl;
}

on_message-v2_push_example :
    Ends (set_push_accounts memory hash "device" "uri" "2" accounts) empty (λ _ d.
      on_message tree Json.tree memory false environment message (with_db memory fresh_server d)
      ≡ (v2_push Json.tree memory false environment "a" "uri" counts >> pure 1)
          (with_db memory fresh_server d))
on_message-v2_push_example =
    on_message-v2_push tree Json.tree memory false environment is_key memory_laws hash-is_key
      "device" "uri" "2" accounts fresh_server empty-IsTyped refl no-IsKey (refl, tt) "node" refl
      refl account nothing_held refl notification message message-IsEvent counts refl
      read_counts_lem_example

-- a client that keeps the nodes it is handed messages for, over a database in which the node is
-- registered
abbrev State : Type 0
State = memory.Db × List String

stored : memory.Db
unfolding memory
stored = record {
  entries = λ k.
      if k == "node"
      then some (entry_items ("a" ∷ "device" ∷ "secret" ∷ []))
      else if k == "device"
      then some (entry_items ("uri" ∷ "1" ∷ "a" ∷ []))
      else none;
  timeouts = λ _. none;
  clock = 1000;
}

abbrev client : XmppClient tree memory State
client = record {
  jid = "push@example.org";
  redis_client = some (λ s. s.0, λ d s. (d, s.1));
  v1_message_handler = some (λ node msg s. done (tt, (s.0, node ∷ s.1)));
  v2_message_handler = some (λ node account_id messages pending s. done (tt, (s.0, node ∷ s.1)));
}

message_handled :
    left (message_handler tree memory client message (stored, [])) ≡ (stored, "node" ∷ [])
unfolding message_handler tree memory stored get_items_node get_notification_node deliver
    send_v1_push on_v1_node_message get_account_id get_device_id get_version
message_handled = refl

handed_on : left (message_handler tree memory client message (stored, [])) ≢ (stored, [])
handed_on e = cc (ap (λ (s : State). s.1) (sym message_handled ∙ e))

message_handler-IsEvent_example :
    (node : String) × (n : tree.Stanza) × IsEvent tree "push@example.org" node n message
message_handler-IsEvent_example =
    message_handler-IsEvent tree memory client message (stored, []) handed_on
