-- ===== src/RedisClient.antt =====
-- storage/redis/RedisClient.{hpp,cpp}: the client of the database, over any Redis server.
pub mod Removal
pub mod Typed
pub mod Storing
pub mod Accounts
pub mod Nodes
pub mod Channel
pub mod WnsToken
pub mod Loading
pub mod Expiry
pub mod Program
pub mod Registry
pub mod Healthy
use mathlib.Core.List.{head?}
use uwpx_push_server.Common.{
  ℕ, ◌*◌, true, String, ◌&◌, Option, none, some, List, [], ◌∷◌, map, ok, err, Result, or_throw,
  reply_error, assertion_failed, if◌then◌else◌, length, nat_eq, ltb, get_elem?, drop,
}
use uwpx_push_server.Common.Action.{Action, pure, ask, change, for_each, ◌>>=◌, ◌>>◌}
use uwpx_push_server.Redis.{RedisLib}
use uwpx_push_server.Messages.SuccessSetPushAccounts.Account.{PushAccount}

-- DEFAULT_ENTRY_TIMEOUT, in seconds
abbrev pub default_entry_timeout : ℕ
default_entry_timeout = 30 * 7 * 24 * 60 * 60

-- The hash of a device and an account, over the SHA-256 of libsodium in hexadecimal.
unfoldable pub gen_account : (String → String) → String → String → String
gen_account hash_sha256 device_id account_id = hash_sha256 ((device_id & "_") & account_id)

module _ (lib : RedisLib) where
  open lib use {Db}

  -- the commands, each of which may throw
  abbrev pub lrange : String → Action Db (List String)
  lrange k = ask λ d. or_throw reply_error (lib.lrange d k)

  abbrev pub get : String → Action Db (Option String)
  get k = ask λ d. or_throw reply_error (lib.get d k)

  abbrev pub set : String → String → Action Db (Unit {0})
  set k v = change λ d. ok (lib.set d k v)

  abbrev pub del : String → Action Db (Unit {0})
  del k = change λ d. ok (lib.del d k)

  abbrev pub rpush : String → List String → Action Db (Unit {0})
  rpush k xs = change λ d. or_throw reply_error (lib.rpush d k xs)

  abbrev pub expire : String → ℕ → Action Db (Unit {0})
  expire k n = change λ d. ok (lib.expire d k n)

  unfoldable pub get_channel_uri : String → Action Db (Option String)
  get_channel_uri device_id = do keys ← lrange device_id; pure (head? keys)

  -- `keys.size() != 3`, then `keys[i]`
  abbrev pub of_three : ℕ → List String → Option String
  of_three i keys = if nat_eq (length keys) 3 then get_elem? keys i else none

  unfoldable pub get_account_id : String → Action Db (Option String)
  get_account_id node = do keys ← lrange node; pure (of_three 0 keys)

  unfoldable pub get_device_id : String → Action Db (Option String)
  get_device_id node = do keys ← lrange node; pure (of_three 1 keys)

  unfoldable pub get_node_secret : String → Action Db (Option String)
  get_node_secret node = do keys ← lrange node; pure (of_three 2 keys)

  unfoldable pub get_version : String → Action Db (Option String)
  get_version device_id = do
    keys ← lrange device_id
    pure (if ltb (length keys) 2 then none else get_elem? keys 1)

  -- assert(node), then *node: with no node the process ends, or under NDEBUG its behaviour is not
  -- defined. Both are `assertion_failed`.
  abbrev pub assert_node : Option String → Result String
  assert_node none = err assertion_failed
  assert_node (some node) = ok node

  -- the loop of get_push_nodes
  unfoldable pub nodes_of : List String → Action Db (List String)
  nodes_of [] = pure []
  nodes_of (account ∷ rest) = do
    found ← get account
    node ← ask λ _. assert_node found
    nodes ← nodes_of rest
    pure (node ∷ nodes)

  unfoldable pub get_push_nodes : String → Action Db (List String)
  get_push_nodes device_id = do keys ← lrange device_id; nodes_of (drop 2 keys)

  abbrev pub del_node : Option String → Action Db (Unit {0})
  del_node none = pure tt
  del_node (some node) = del node

  -- the body of the first loop of set_push_accounts
  unfoldable pub remove_account : String → Action Db (Unit {0})
  remove_account account = do del account; node ← get account; del_node node

  unfoldable pub remove_old : String → List String → Action Db (Unit {0})
  remove_old device_id [] = pure tt
  remove_old device_id (uri ∷ rest) = do for_each remove_account (drop 1 rest); del device_id

  -- set_channel_uri
  abbrev pub replaced : String → String → List String → Action Db (List String)
  replaced device_id uri [] = pure (uri ∷ [])
  replaced device_id uri (_ ∷ rest) = do del device_id; pure (uri ∷ rest)

  unfoldable pub set_channel_uri : String → String → Action Db (Unit {0})
  set_channel_uri device_id uri = do
    old ← lrange device_id
    keys ← replaced device_id uri old
    rpush device_id keys
    expire device_id default_entry_timeout

  module _ (hash_sha256 : String → String) where
    -- the body of the second loop of set_push_accounts
    unfoldable pub store_account : String → PushAccount → Action Db (Unit {0})
    store_account device_id account = do
      set (gen_account hash_sha256 device_id account.account_id) account.node
      expire (gen_account hash_sha256 device_id account.account_id) default_entry_timeout
      rpush account.node (account.account_id ∷ device_id ∷ account.secret ∷ [])
      expire account.node default_entry_timeout

    abbrev pub account_keys : String → List PushAccount → List String
    account_keys device_id = map (λ a. gen_account hash_sha256 device_id a.account_id)

    unfoldable pub set_push_accounts :
        String → String → String → List PushAccount → Action Db (Unit {0})
    set_push_accounts device_id channel_uri version accounts = do
      keys ← lrange device_id
      remove_old device_id keys
      for_each (store_account device_id) accounts
      del device_id
      rpush device_id (channel_uri ∷ version ∷ account_keys device_id accounts)
      expire device_id default_entry_timeout

    abbrev pub reused : PushAccount → String → Option String → PushAccount
    reused account node none = account
    reused account node (some secret) = record account {
      node = node;
      secret = secret;
      success = true;
    }

    abbrev pub reuse : PushAccount → Option String → Action Db PushAccount
    reuse account none = pure account
    reuse account (some node) = do secret ← get_node_secret node; pure (reused account node secret)

    unfoldable pub load_push_account : String → PushAccount → Action Db PushAccount
    load_push_account device_id account = do
      node ← get (gen_account hash_sha256 device_id account.account_id)
      reuse account node
