-- ===== src/PushServer/Accounts/Synchronised.antt =====
-- server/PushServer.cpp: the stanzas that set_push_accounts sends.
use uwpx_push_server.Common.{
  not, ◌&&◌, ◌≡◌, refl, ◌∙◌, Bool, true, false, ◌||◌, ℕ, String, List, [], ◌∷◌, ◌==◌, arith,
}
use uwpx_push_server.Xmpp.{Stanza, pep_publish_empty, pep_subscribe, pep_unsubscribe, pep_delete}
use uwpx_push_server.Messages.SuccessSetPushAccounts.Account.{PushAccount}
use uwpx_push_server.PushServer.Accounts.{Nodes, set_contains, set_success}
use uwpx_push_server.PushServer.Accounts.Placing.{Placed, has_node, map_has, has_node-set_success}

abbrev same_stanza : Stanza → Stanza → Bool
same_stanza (pep_publish_empty a) (pep_publish_empty b) = a == b
same_stanza (pep_subscribe a) (pep_subscribe b) = a == b
same_stanza (pep_unsubscribe a) (pep_unsubscribe b) = a == b
same_stanza (pep_delete a) (pep_delete b) = a == b
same_stanza _ _ = false

-- whether a stanza is among those that have been sent
abbrev pub is_sent : Stanza → List Stanza → Bool
is_sent t [] = false
is_sent t (s ∷ rest) = same_stanza s t || is_sent t rest

-- The stanzas that delete the nodes of a set, and those that make the nodes of a map.
abbrev pub deletes : Stanza → List String → Bool
deletes (pep_unsubscribe x) nodes = set_contains x nodes
deletes (pep_delete x) nodes = set_contains x nodes
deletes _ nodes = false

abbrev pub creates : Stanza → List (String × ℕ) → Bool
creates (pep_publish_empty x) nodes = map_has x nodes
creates (pep_subscribe x) nodes = map_has x nodes
creates _ nodes = false

abbrev pub after_delete : List String → List Stanza → List Stanza
after_delete [] sent = sent
after_delete (x ∷ rest) sent = after_delete rest (pep_delete x ∷ pep_unsubscribe x ∷ sent)

abbrev pub after_set_up : List (String × ℕ) → List Stanza → List Stanza
after_set_up [] sent = sent
after_set_up ((x, i) ∷ rest) sent = after_set_up rest (pep_subscribe x ∷ pep_publish_empty x ∷ sent)

abbrev pub marked : List (String × ℕ) → List PushAccount → List PushAccount
marked [] accounts = accounts
marked ((x, i) ∷ rest) accounts = marked rest (set_success i true accounts)

is_sent-after_delete :
    (t : Stanza) (nodes : List String) (sent : List Stanza)
    → is_sent t (after_delete nodes sent) ≡ (is_sent t sent || deletes t nodes)
is_sent-after_delete t [] sent = ground arith
is_sent-after_delete t (x ∷ rest) sent =
    ground (arith, is_sent-after_delete t rest (pep_delete x ∷ pep_unsubscribe x ∷ sent))

is_sent-after_set_up :
    (t : Stanza) (nodes : List (String × ℕ)) (sent : List Stanza)
    → is_sent t (after_set_up nodes sent) ≡ (is_sent t sent || creates t nodes)
is_sent-after_set_up t [] sent = ground arith
is_sent-after_set_up t ((x, i) ∷ rest) sent =
    ground (arith, is_sent-after_set_up t rest (pep_subscribe x ∷ pep_publish_empty x ∷ sent))

has_node-marked :
    (x : String) (nodes : List (String × ℕ)) (accounts : List PushAccount)
    → has_node x (marked nodes accounts) ≡ has_node x accounts
has_node-marked x [] accounts = refl
has_node-marked x ((k, i) ∷ rest) accounts =
    has_node-marked x rest (set_success i true accounts) ∙ has_node-set_success x i true accounts

-- What has been sent, from `before` to `after`, when the nodes of a device were `old` and its
-- accounts are those of a list now.
pub record Synchronised (old : List String) (accounts : List PushAccount)
    (before after : List Stanza) : Type 0 where
  -- an old node is deleted and unsubscribed from exactly when no account is at it any more
  pub deleted :
      (x : String)
      → is_sent (pep_delete x) after
        ≡ (is_sent (pep_delete x) before || (set_contains x old && not (has_node x accounts)))
  pub unsubscribed :
      (x : String)
      → is_sent (pep_unsubscribe x) after
        ≡ (is_sent (pep_unsubscribe x) before || (set_contains x old && not (has_node x accounts)))
  -- a node of an account that is not an old one has been made and subscribed to
  pub made :
      (x : String)
      → (not (has_node x accounts) || (set_contains x old || is_sent (pep_publish_empty x) after))
        ≡ true
  pub subscribed :
      (x : String)
      → (not (has_node x accounts) || (set_contains x old || is_sent (pep_subscribe x) after))
        ≡ true
  -- and no other
  pub needed :
      (x : String)
      → (not (is_sent (pep_publish_empty x) after)
          || (is_sent (pep_publish_empty x) before || has_node x accounts))
        ≡ true

module _ (set_order : List String → List String) (map_order : List (String × ℕ) → List (String × ℕ))
    (same_set : (x : String) (set : List String)
      → set_contains x (set_order set) ≡ set_contains x set)
    (same_map : (x : String) (map : List (String × ℕ))
      → map_has x (map_order map) ≡ map_has x map) where
  pub sent-Synchronised :
      (old : List String) (n : Nodes) (before : List Stanza)
      → Placed old n
      → Synchronised old
          (marked (map_order n.add_nodes) n.push_accounts)
          before
          (after_set_up (map_order n.add_nodes) (after_delete (set_order n.delete_nodes) before))
  sent-Synchronised old n before p = record {
    deleted = λ x. ground (
      arith,
      is_sent-after_set_up (pep_delete x) (map_order n.add_nodes)
          (after_delete (set_order n.delete_nodes) before),
      is_sent-after_delete (pep_delete x) (set_order n.delete_nodes) before,
      has_node-marked x (map_order n.add_nodes) n.push_accounts,
      same_set x n.delete_nodes,
      same_map x n.add_nodes,
      p.deleted x,
    );
    unsubscribed = λ x. ground (
      arith,
      is_sent-after_set_up (pep_unsubscribe x) (map_order n.add_nodes)
          (after_delete (set_order n.delete_nodes) before),
      is_sent-after_delete (pep_unsubscribe x) (set_order n.delete_nodes) before,
      has_node-marked x (map_order n.add_nodes) n.push_accounts,
      same_set x n.delete_nodes,
      same_map x n.add_nodes,
      p.deleted x,
    );
    made = λ x. ground (
      arith,
      is_sent-after_set_up (pep_publish_empty x) (map_order n.add_nodes)
          (after_delete (set_order n.delete_nodes) before),
      is_sent-after_delete (pep_publish_empty x) (set_order n.delete_nodes) before,
      has_node-marked x (map_order n.add_nodes) n.push_accounts,
      same_set x n.delete_nodes,
      same_map x n.add_nodes,
      p.covered x,
    );
    subscribed = λ x. ground (
      arith,
      is_sent-after_set_up (pep_subscribe x) (map_order n.add_nodes)
          (after_delete (set_order n.delete_nodes) before),
      is_sent-after_delete (pep_subscribe x) (set_order n.delete_nodes) before,
      has_node-marked x (map_order n.add_nodes) n.push_accounts,
      same_set x n.delete_nodes,
      same_map x n.add_nodes,
      p.covered x,
    );
    needed = λ x. ground (
      arith,
      is_sent-after_set_up (pep_publish_empty x) (map_order n.add_nodes)
          (after_delete (set_order n.delete_nodes) before),
      is_sent-after_delete (pep_publish_empty x) (set_order n.delete_nodes) before,
      has_node-marked x (map_order n.add_nodes) n.push_accounts,
      same_set x n.delete_nodes,
      same_map x n.add_nodes,
      p.needed x,
    );
  }
