-- ===== src/Xmpp.antt =====
-- xmpp/XmppClient.{hpp,cpp}: setting up and deleting the nodes of push accounts. libstrophe, which
-- sends the stanzas, is not part of the repository.
pub mod Strophe
pub mod Build
pub mod Handler
pub mod Lifecycle
use uwpx_push_server.Common.{Bool, true, false, String, List, ◌∷◌, err, assertion_failed}
use uwpx_push_server.Common.Action.{Action, pure, ask, done, ◌>>◌}

-- The connection of the client: null until the thread of the client has made it.
pub data Connection : Type 0 where
  null_connection disconnected connected : Connection

-- What is sent, by the functions that make it.
pub data Stanza : Type 0 where
  pep_publish_empty pep_subscribe pep_unsubscribe pep_delete : String → Stanza

-- xmpp_send, on the stanzas that have been sent, newest first
abbrev pub xmpp_send : Stanza → Action (List Stanza) (Unit {0})
xmpp_send stanza sent = done (tt, stanza ∷ sent)

-- A null connection fails assert(conn); without assertions the behaviour is not defined then.
unfoldable pub setup_push_node : Connection → String → Action (List Stanza) Bool
setup_push_node null_connection node = ask λ _. err assertion_failed
setup_push_node disconnected node = pure false
setup_push_node connected node = do
  xmpp_send (pep_publish_empty node)
  xmpp_send (pep_subscribe node)
  pure true

unfoldable pub delete_push_node : Connection → String → Action (List Stanza) (Unit {0})
delete_push_node null_connection node = ask λ _. err assertion_failed
delete_push_node disconnected node = pure tt
delete_push_node connected node = do xmpp_send (pep_unsubscribe node); xmpp_send (pep_delete node)
