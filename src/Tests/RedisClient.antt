-- ===== src/Tests/RedisClient.antt =====
-- The theorems on the database client, over the server in memory of Redis/Memory. Account keys
-- begin with `#` here.
use Prim.Native.Char.{code}
use uwpx_push_server.Common.{
  ◌≡◌, refl, Bool, true, false, String, Option, none, some, List, [], ◌∷◌, ◌==◌, if◌then◌else◌,
  arith, All, drop, nat_eq, eq_iff,
}
use uwpx_push_server.Redis.{Entry, items}
use uwpx_push_server.Redis.Memory.{memory, no_entries}
use uwpx_push_server.RedisClient.Typed.{IsTyped, held}
use uwpx_push_server.RedisClient.Storing.{IsKey}
use uwpx_push_server.Messages.SuccessSetPushAccounts.Account.{PushAccount}

abbrev pub is_key : String → Bool
is_key String.[] = false
is_key (String.◌∷◌ c s) = nat_eq (code c) 35

abbrev pub hash : String → String
hash s = String.◌∷◌ "#" s

pub hash-is_key : (s : String) → is_key (hash s) ≡ true
hash-is_key s = refl

abbrev pub account : PushAccount
account = record { account_id = "a"; node = "node"; secret = "secret"; success = true }

abbrev pub accounts : List PushAccount
accounts = account ∷ []

abbrev entry : Bool → List String → Option Entry
entry b xs = if b then some (items xs) else none

-- a database with the device's list and the node of its one account
abbrev entries : String → Option Entry
entries k =
    if k == "device"
    then some (items ("uri" ∷ "2" ∷ "#device_a" ∷ []))
    else if k == "node"
    then some (items ("a" ∷ "device" ∷ "secret" ∷ []))
    else none

pub server : memory.Db
unfolding memory
server = record { entries = entries; timeouts = λ _. none; clock = 1000 }

pub empty : memory.Db
unfolding memory
empty = no_entries 0

pub key_elsewhere : (k s : String) → is_key s ≡ false → is_key k ≡ true → (k == s) ≡ false
key_elsewhere k s h p = ground (arith, eq_iff k s)

pub server-IsTyped : IsTyped memory is_key server
unfolding memory server
server-IsTyped = record {
  lists = λ n h. ground arith;
  strings = λ k h. rw (key_elsewhere k "device" refl h, key_elsewhere k "node" refl h);
}

pub empty-IsTyped : IsTyped memory is_key empty
unfolding memory empty
empty-IsTyped = record { lists = λ n h. refl; strings = λ k h. refl }

pub old-IsKey : All (IsKey memory is_key) (drop 2 (held (memory.look server "device")))
unfolding memory server
old-IsKey = (refl, tt)

pub no-IsKey : All (IsKey memory is_key) (drop 2 (held (memory.look empty "device")))
unfolding memory empty
no-IsKey = tt

pub nothing_held : held (memory.look empty "node") ≡ []
unfolding memory empty
nothing_held = refl

pub three_held : held (memory.look server "node") ≡ "a" ∷ "device" ∷ "secret" ∷ []
unfolding memory server
three_held = refl
