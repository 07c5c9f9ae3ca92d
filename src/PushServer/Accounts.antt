-- ===== src/PushServer/Accounts.antt =====
-- server/PushServer.cpp: set_push_accounts.
pub mod Placing
pub mod Synchronised
pub mod Runs
pub mod Named
pub mod Stored
pub mod Collected
pub mod Returns
use uwpx_push_server.Common.{
  ℕ, zero, suc, ◌+◌, Bool, false, String, Option, none, some, List, [], ◌∷◌, ◌++◌, ok, ◌==◌,
  if◌then◌else◌, length, ◌||◌,
}
use uwpx_push_server.Common.Action.{Action, pure, ask, change, for_each, ◌>>=◌, ◌>>◌}
use uwpx_push_server.Json.{JsonLib}
use uwpx_push_server.Redis.{RedisLib}
use uwpx_push_server.RedisClient.{get_channel_uri, get_push_nodes, load_push_account}
use uwpx_push_server.RedisClient
use uwpx_push_server.CryptoUtils.{url_safe_random_token, secure_random_password}
use uwpx_push_server.Xmpp.{setup_push_node, delete_push_node}
use uwpx_push_server.Messages.SuccessSetPushAccounts
use uwpx_push_server.Messages.SuccessSetPushAccounts.Account.{PushAccount}
use uwpx_push_server.PushServer.{Environment, PushServer, in_db, in_xmpp, send, respond_with_error}

-- std::unordered_set: a list without duplicates
abbrev pub set_contains : String → List String → Bool
set_contains node [] = false
set_contains node (x ∷ xs) = x == node || set_contains node xs

abbrev pub set_erase : String → List String → List String
set_erase node [] = []
set_erase node (x ∷ xs) = let rest = set_erase node xs in if x == node then rest else x ∷ rest

abbrev pub set_insert : List String → List String → List String
set_insert [] set = set
set_insert (x ∷ xs) set = set_insert xs (if set_contains x set then set else x ∷ set)

-- std::unordered_map from a node to an account, which is its position in the vector
abbrev pub map_assign : String → ℕ → List (String × ℕ) → List (String × ℕ)
map_assign node i [] = (node, i) ∷ []
map_assign node i ((k, j) ∷ rest) =
    let later = map_assign node i rest in if k == node then (k, i) ∷ rest else (k, j) ∷ later

abbrev pub set_success : ℕ → Bool → List PushAccount → List PushAccount
set_success i b [] = []
set_success zero b (a ∷ rest) = record a { success = b } ∷ rest
set_success (suc i) b (a ∷ rest) = a ∷ set_success i b rest

-- deleteNodes, addNodes and pushAccounts
pub record Nodes : Type 0 where
  pub delete_nodes : List String
  pub add_nodes : List (String × ℕ)
  pub push_accounts : List PushAccount

abbrev pub with_account : PushAccount → Nodes → Nodes
with_account account nodes =
    if set_contains account.node nodes.delete_nodes
    then record nodes {
      delete_nodes = set_erase account.node nodes.delete_nodes;
      push_accounts = nodes.push_accounts ++ account ∷ [];
    }
    else record nodes {
      add_nodes = map_assign account.node (length nodes.push_accounts) nodes.add_nodes;
      push_accounts = nodes.push_accounts ++ account ∷ [];
    }

module _ (json : JsonLib) (lib : RedisLib) (ndebug : Bool) (env : Environment) where
  abbrev pub drawn : ℕ → ℕ → Action (PushServer lib) (Unit {0})
  drawn t p = change λ s. ok (record s { tokens = s.tokens + t; passwords = s.passwords + p })

  -- PushAccount::create
  unfoldable pub create_account : String → Action (PushServer lib) PushAccount
  create_account account_id = do
    node ← ask λ s. url_safe_random_token env.token_draw ndebug s.tokens 15
    drawn 15 0
    secret ← ask λ s. secure_random_password env.password_draw ndebug s.passwords 15
    drawn 0 15
    pure (record { account_id = account_id; node = node; secret = secret; success = false })

  -- the loop over the account ids
  unfoldable pub collect : String → List String → Nodes → Action (PushServer lib) Nodes
  collect device_id [] nodes = pure nodes
  collect device_id (account_id ∷ rest) nodes = do
    account ← create_account account_id
    loaded ← in_db lib (load_push_account lib env.hash_sha256 device_id account)
    collect device_id rest (with_account loaded nodes)

  -- the loop over addNodes
  unfoldable pub set_up :
      List (String × ℕ) → List PushAccount → Action (PushServer lib) (List PushAccount)
  set_up [] accounts = pure accounts
  set_up ((node, i) ∷ rest) accounts = do
    success ← in_xmpp lib (setup_push_node env.connection node)
    set_up rest (set_success i success accounts)

  abbrev pub delete_all : List String → Action (PushServer lib) (Unit {0})
  delete_all = for_each (λ node. in_xmpp lib (delete_push_node env.connection node))

  -- once the channel is known
  unfoldable pub store_accounts :
      String → String → List String → String → Action (PushServer lib) (Unit {0})
  store_accounts device_id version accounts channel_uri = do
    old_push_nodes ← in_db lib (get_push_nodes lib device_id)
    nodes ←
        collect device_id accounts (record {
          delete_nodes = set_insert old_push_nodes [];
          add_nodes = [];
          push_accounts = [];
        })
    delete_all (env.set_order nodes.delete_nodes)
    push_accounts ← set_up (env.map_order nodes.add_nodes) nodes.push_accounts
    in_db lib (
        RedisClient.set_push_accounts lib env.hash_sha256 device_id channel_uri version
          push_accounts)
    j ← ask λ _.
        SuccessSetPushAccounts.to_json json ndebug
          (SuccessSetPushAccounts.create push_accounts env.jid) json.empty
    send json lib ndebug j

  abbrev pub known :
      (String → Action (PushServer lib) (Unit {0}))
      → Option String
      → Action (PushServer lib) (Unit {0})
  known go none = respond_with_error json lib ndebug "Device id unknown."
  known go (some channel_uri) = go channel_uri

  unfoldable pub set_push_accounts :
      String → String → List String → Action (PushServer lib) (Unit {0})
  set_push_accounts device_id version accounts = do
    channel_uri ← in_db lib (get_channel_uri lib device_id)
    known (store_accounts device_id version accounts) channel_uri
