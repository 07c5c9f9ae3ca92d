-- ===== src/RedisClient/Registry.antt =====
-- What storage/redis/RedisClient.cpp promises: a registry of devices and nodes, without keys,
-- lists, timeouts and commands.
pub mod Refines
pub mod History
use mathlib.Core.List.{head?}
use uwpx_push_server.Common.{
  ◌≡◌, ℕ, Bool, true, false, String, Option, none, some, List, [], ◌∷◌, ◌++◌, map, drop, All,
  if◌then◌else◌, ◌==◌,
}
use uwpx_push_server.Common.Action.{Action, ◌>>=◌, for_each}
use uwpx_push_server.Common.Action as Action
use uwpx_push_server.Redis.{RedisLib}
use uwpx_push_server.RedisClient
use uwpx_push_server.RedisClient.{gen_account}
use uwpx_push_server.RedisClient.Typed.{IsTyped, held}
use uwpx_push_server.RedisClient.Storing.{IsKey}
use uwpx_push_server.RedisClient.Nodes.{at_node}
use uwpx_push_server.RedisClient.Program.Operations.{looked_up}
use uwpx_push_server.Messages.SuccessSetPushAccounts.Account.{PushAccount}

-- an account at a node, and the device that it belongs to
pub record Subscription : Type 0 where
  pub account_id : String
  pub device_id : String
  pub secret : String

-- the channel of each device, and what has ever been registered at each node
pub record Registry : Type 0 where
  pub channel : String → Option String
  pub subscriptions : String → List Subscription

abbrev pub no_entries : Registry
no_entries = record { channel = λ _. none; subscriptions = λ _. [] }

pub data Request : Type 0 where
  renew : (device_id channel_uri : String) → Request
  register : (device_id channel_uri version : String) → List PushAccount → Request

abbrev subscription : String → PushAccount → Subscription
subscription device_id a = record {
  account_id = a.account_id;
  device_id = device_id;
  secret = a.secret;
}

abbrev pub subscribed : String → String → List PushAccount → List Subscription
subscribed device_id n accounts = map (subscription device_id) (at_node n accounts)

abbrev with_channel : String → String → Registry → Registry
with_channel device_id uri r = record r {
  channel = λ k. if device_id == k then some uri else r.channel k;
}

abbrev pub apply : Request → Registry → Registry
apply (renew device_id uri) r = with_channel device_id uri r
apply (register device_id uri version accounts) r = record {
  channel = (with_channel device_id uri r).channel;
  subscriptions = λ n. r.subscriptions n ++ subscribed device_id n accounts;
}

unfoldable pub history : List Request → Registry → Registry
history [] r = r
history (q ∷ rest) r = history rest (apply q r)

abbrev only_channel : Registry → List Subscription → Option String
only_channel r (s ∷ []) = r.channel s.device_id
only_channel r _ = none

-- Where a notification at a node goes: to the channel of the device, if the node has been
-- registered exactly once.
abbrev pub notify : Registry → String → Option String
notify r n = only_channel r (r.subscriptions n)

-- What a key of the database is for.
pub data Kind : Type 0 where
  account_key node device : Kind

abbrev pub is_account_key : Kind → Bool
is_account_key account_key = true
is_account_key _ = false

abbrev pub flat : List Subscription → List String
flat [] = []
flat (s ∷ rest) = s.account_id ∷ s.device_id ∷ s.secret ∷ flat rest

module _ (lib : RedisLib) (kind : String → Kind) where
  abbrev pub is_key : String → Bool
  is_key k = is_account_key (kind k)

  abbrev pub IsDevice : Subscription → Type 0
  IsDevice s = kind s.device_id ≡ device

  -- The database holds the registry.
  pub record Represents (d : lib.Db) (r : Registry) : Type 0 where
    pub typed : IsTyped lib is_key d
    pub channels : (k : String) → kind k ≡ device → head? (held (lib.look d k)) ≡ r.channel k
    pub accounts :
        (k : String) → kind k ≡ device → All (IsKey lib is_key) (drop 2 (held (lib.look d k)))
    pub nodes : (n : String) → kind n ≡ node → held (lib.look d n) ≡ flat (r.subscriptions n)
    pub owners : (n : String) → kind n ≡ node → All IsDevice (r.subscriptions n)

  abbrev pub IsPlaced : PushAccount → Type 0
  IsPlaced a = kind a.node ≡ node

  -- A request names devices and nodes by keys for them.
  abbrev pub Fits : Request → Type 0
  Fits (renew device_id uri) = kind device_id ≡ device
  Fits (register device_id uri version accounts) = (kind device_id ≡ device) × All IsPlaced accounts

module _ (lib : RedisLib) (hash_sha256 : String → String) where
  -- what the push server does with the database
  abbrev pub perform : Request → Action lib.Db (Unit {0})
  perform (renew device_id uri) = RedisClient.set_channel_uri lib device_id uri
  perform (register device_id uri version accounts) =
      RedisClient.set_push_accounts lib hash_sha256 device_id uri version accounts

module _ (lib : RedisLib) where
  -- the lookups of a notification
  abbrev pub find : String → Action lib.Db (Option String)
  find n = RedisClient.get_device_id lib n >>= looked_up lib
