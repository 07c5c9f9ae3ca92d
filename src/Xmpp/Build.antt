-- ===== src/Xmpp/Build.antt =====
-- xmpp/XmppClient.cpp: the stanzas that are sent. The client's context is not null here: the
-- functions are called where there is a connection. What is never released is not modelled.
pub mod Addressed
use uwpx_push_server.Common.{String, Option, none, some, List, [], ◌∷◌}
use uwpx_push_server.Xmpp.{Stanza, pep_publish_empty, pep_subscribe, pep_unsubscribe, pep_delete}
use uwpx_push_server.Xmpp.Strophe.{StropheLib}

abbrev pub pubsub_ns : String
pubsub_ns = "http://jabber.org/protocol/pubsub"

module _ (lib : StropheLib) where
  open lib use {blank, iq_new, presence_new, set_name, set_attribute, set_ns, set_text, add_child}

  -- xmpp_stanza_new and xmpp_stanza_set_name
  abbrev pub named : String → lib.Stanza
  named n = set_name blank n

  abbrev with_type : Option String → lib.Stanza → lib.Stanza
  with_type none s = s
  with_type (some t) s = set_attribute s "type" t

  unfoldable pub xmpp_field_new : String → Option String → String → lib.Stanza
  xmpp_field_new var type value =
      add_child (with_type type (set_attribute (named "field") "var" var))
        (add_child (named "value") (set_text blank value))

  -- the field of a form of which the var and the value are given
  abbrev pub option_field : String × String × String → lib.Stanza
  option_field (var, type, value) = xmpp_field_new var (some type) value

  abbrev pub add_fields : List (String × String × String) → lib.Stanza → lib.Stanza
  add_fields [] x = x
  add_fields (f ∷ fs) x = add_fields fs (add_child x (option_field f))

  abbrev pub publish_options : List (String × String × String)
  publish_options =
      ("FORM_TYPE", "hidden", "http://jabber.org/protocol/pubsub#publish-options")
      ∷ ("pubsub#access_model", "list-single", "open")
      ∷ ("pubsub#publish_model", "list-single", "open")
      ∷ ("pubsub#deliver_notifications", "boolean", "1")
      ∷ ("pubsub#deliver_payloads", "boolean", "1")
      ∷ ("pubsub#persist_items", "boolean", "1")
      ∷ ("pubsub#subscribe", "boolean", "1")
      ∷ ("pubsub#presence_based_delivery", "boolean", "0")
      ∷ ("pubsub#notification_type", "list-single", "normal")
      ∷ []

  unfoldable pub xmpp_pep_publish_options_new : lib.Stanza
  xmpp_pep_publish_options_new = add_child (named "publish-options") (
      add_fields publish_options
        (set_attribute (set_ns (named "x") "jabber:x:data") "type" "submit"))

  unfoldable pub send_presence_online : String → lib.Stanza
  send_presence_online bound_jid = set_attribute presence_new "from" bound_jid

  module _ (jid bound_jid : String) where
    -- xmpp_iq_new and xmpp_stanza_set_from
    abbrev pub iq_from : String → lib.Stanza
    iq_from id = set_attribute (iq_new "set" id) "from" bound_jid

    abbrev pub pubsub : lib.Stanza
    pubsub = set_ns (named "pubsub") pubsub_ns

    unfoldable pub xmpp_pep_delete_new : String → String → lib.Stanza
    xmpp_pep_delete_new node id =
        add_child (iq_from id) (add_child pubsub (set_attribute (named "delete") "node" node))

    unfoldable pub xmpp_pep_subscribe_new : String → String → lib.Stanza
    xmpp_pep_subscribe_new node id =
        add_child (iq_from id) (
          add_child pubsub
            (set_attribute (set_attribute (named "subscribe") "node" node) "jid" jid))

    unfoldable pub xmpp_pep_unsubscribe_new : String → String → lib.Stanza
    xmpp_pep_unsubscribe_new node id = add_child (iq_from id) (
        add_child pubsub
          (set_attribute (set_attribute (named "unsubscribe") "node" node) "jid" jid))

    unfoldable pub xmpp_pep_publish_empty_new : String → String → lib.Stanza
    unfolding xmpp_pep_publish_options_new
    xmpp_pep_publish_empty_new node id = add_child (iq_from id) (
        add_child
          (add_child pubsub (
            add_child (set_attribute (named "publish") "node" node)
              (add_child (named "item") (set_ns (named "notification") "urn:xmpp:push:0"))))
          xmpp_pep_publish_options_new)

    -- what setup_push_node and delete_push_node give to xmpp_send
    unfoldable pub made : Stanza → lib.Stanza
    unfolding xmpp_pep_delete_new xmpp_pep_subscribe_new xmpp_pep_unsubscribe_new
        xmpp_pep_publish_empty_new
    made (pep_publish_empty node) = xmpp_pep_publish_empty_new node "somePepCreateId"
    made (pep_subscribe node) = xmpp_pep_subscribe_new node "someSubscribeId"
    made (pep_unsubscribe node) = xmpp_pep_unsubscribe_new node "someUnsubscribeId"
    made (pep_delete node) = xmpp_pep_delete_new node "someDeleteId"
