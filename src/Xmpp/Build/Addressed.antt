-- ===== src/Xmpp/Build/Addressed.antt =====
-- What the stanzas that are sent ask of the server, read with libstrophe's own functions.
use uwpx_push_server.Common.{◌∙◌, sym, eq_refl, ◌≡◌, String, some, []}
use uwpx_push_server.Xmpp.{
  Stanza as Request, pep_publish_empty, pep_subscribe, pep_unsubscribe, pep_delete,
}
use uwpx_push_server.Xmpp.Strophe.{StropheLib, StropheLaws, first_named-append}
use uwpx_push_server.Xmpp.Build.{
  iq_from, pubsub_ns, named, pubsub, made, xmpp_pep_publish_empty_new, xmpp_pep_subscribe_new,
  xmpp_pep_unsubscribe_new, xmpp_pep_delete_new, xmpp_pep_publish_options_new,
}

-- the element of the request that names the node
abbrev pub verb : Request → String
verb (pep_publish_empty node) = "publish"
verb (pep_subscribe node) = "subscribe"
verb (pep_unsubscribe node) = "unsubscribe"
verb (pep_delete node) = "delete"

abbrev pub node_of : Request → String
node_of (pep_publish_empty node) = node
node_of (pep_subscribe node) = node
node_of (pep_unsubscribe node) = node
node_of (pep_delete node) = node

module _ (lib : StropheLib) where
  -- A request to the node `n` by the verb `v`, from `bound_jid`.
  pub record Asks (v n bound_jid : String) (iq : lib.Stanza) : Type 0 where
    pub type : lib.get_attribute iq "type" ≡ some "set"
    pub from : lib.get_attribute iq "from" ≡ some bound_jid
    pub pubsub : lib.Stanza
    pub body : lib.Stanza
    pub under_iq : lib.get_child_by_name iq "pubsub" ≡ some pubsub
    pub namespace : lib.get_ns pubsub ≡ some pubsub_ns
    pub under_pubsub : lib.get_child_by_name pubsub v ≡ some body
    pub node : lib.get_attribute body "node" ≡ some n

  module _ (laws : StropheLaws lib) (jid bound_jid : String) where
    open laws use {
      iq_new_set, set_ns_attribute, get_ns_attribute, child_named, name_set_name,
      name_set_attribute, name_add_child, attribute_set_name, attribute_set_attribute,
      attribute_add_child, children_blank, children_set_name, children_set_attribute,
      children_add_child,
    }
    open lib use {
      Stanza, children, get_name, get_child_by_name, get_attribute, get_ns, add_child,
      set_attribute, set_ns,
    }

    -- the only child
    only_child :
        (s c : Stanza) (n : String)
        → children s ≡ []
        → get_name c ≡ some n
        → get_child_by_name (add_child s c) n ≡ some c
    only_child s c n e h =
        rw (child_named (add_child s c) n, children_add_child s c, e, h, eq_refl n)

    -- a child stays found when another is added
    child-add_child :
        (s c d : Stanza) (n : String)
        → get_child_by_name s n ≡ some c
        → get_child_by_name (add_child s d) n ≡ some c
    child-add_child s c d n h =
        rw (child_named (add_child s d) n, children_add_child s d)
          (first_named-append get_name n (children s) c d (sym (child_named s n) ∙ h))

    childless_named : (n : String) → children (named lib n) ≡ []
    childless_named n = rw (children_set_name lib.blank n, children_blank)

    childless_pubsub : children (pubsub lib jid bound_jid) ≡ []
    childless_pubsub = rw (
      set_ns_attribute (named lib "pubsub") pubsub_ns,
      children_set_attribute (named lib "pubsub") "xmlns" pubsub_ns,
      childless_named "pubsub",
    )

    childless_iq : (id : String) → children (iq_from lib jid bound_jid id) ≡ []
    childless_iq id = simp (iq_new_set, children_set_attribute, children_set_name, children_blank)

    -- The request that carries `p`, where `p` has the body.
    request :
        (v n id : String) (p body : Stanza)
        → get_name p ≡ some "pubsub"
        → get_ns p ≡ some pubsub_ns
        → get_child_by_name p v ≡ some body
        → get_attribute body "node" ≡ some n
        → Asks v n bound_jid (add_child (iq_from lib jid bound_jid id) p)
    request v n id p body name ns child node = record {
      type = simp (iq_new_set, attribute_add_child, attribute_set_attribute);
      from = simp (attribute_add_child, attribute_set_attribute);
      pubsub = p;
      body = body;
      under_iq = only_child (iq_from lib jid bound_jid id) p "pubsub" (childless_iq id) name;
      namespace = ns;
      under_pubsub = child;
      node = node;
    }

    -- a request with one element, which names the node
    request_one :
        (v n id : String) (body : Stanza)
        → get_name body ≡ some v
        → get_attribute body "node" ≡ some n
        → Asks v n bound_jid
            (add_child (iq_from lib jid bound_jid id) (add_child (pubsub lib jid bound_jid) body))
    request_one v n id body name node =
        request v n id (add_child (pubsub lib jid bound_jid) body) body
          (simp (set_ns_attribute, name_add_child, name_set_attribute, name_set_name))
          (simp (get_ns_attribute, set_ns_attribute, attribute_add_child, attribute_set_attribute))
          (only_child (pubsub lib jid bound_jid) body v childless_pubsub name) node

    -- Each of the stanzas that setting up and deleting a node sends is a request from the client's
    -- own address, in the namespace of publish-subscribe, to the node that is set up or deleted.
    pub made-Asks : (s : Request) → Asks (verb s) (node_of s) bound_jid (made lib jid bound_jid s)
    unfolding made xmpp_pep_delete_new xmpp_pep_subscribe_new xmpp_pep_unsubscribe_new
        xmpp_pep_publish_empty_new
    made-Asks (pep_delete node) =
        request_one "delete" node "someDeleteId" (set_attribute (named lib "delete") "node" node)
          (simp (name_set_attribute, name_set_name)) (simp (attribute_set_attribute))
    made-Asks (pep_subscribe node) =
        request_one "subscribe" node "someSubscribeId"
          (set_attribute (set_attribute (named lib "subscribe") "node" node) "jid" jid)
          (simp (name_set_attribute, name_set_name)) (simp (attribute_set_attribute))
    made-Asks (pep_unsubscribe node) =
        request_one "unsubscribe" node "someUnsubscribeId"
          (set_attribute (set_attribute (named lib "unsubscribe") "node" node) "jid" jid)
          (simp (name_set_attribute, name_set_name)) (simp (attribute_set_attribute))
    made-Asks (pep_publish_empty node) =
        let body =
          add_child (set_attribute (named lib "publish") "node" node)
            (add_child (named lib "item") (set_ns (named lib "notification") "urn:xmpp:push:0")) in
        request "publish" node "somePepCreateId"
          (add_child (add_child (pubsub lib jid bound_jid) body) (xmpp_pep_publish_options_new lib))
          body (simp (set_ns_attribute, name_add_child, name_set_attribute, name_set_name))
          (simp (get_ns_attribute, set_ns_attribute, attribute_add_child, attribute_set_attribute))
          (child-add_child (add_child (pubsub lib jid bound_jid) body) body
            (xmpp_pep_publish_options_new lib) "publish"
            (only_child (pubsub lib jid bound_jid) body "publish" childless_pubsub
              (simp (set_ns_attribute, name_add_child, name_set_attribute, name_set_name))))
          (simp (set_ns_attribute, attribute_add_child, attribute_set_attribute))
