-- ===== src/RedisClient/Program/Undisturbed.antt =====
-- A notification of the XMPP server that arrives while another device registers its accounts.
use uwpx_push_server.Common.{
  ◌≡◌, ◌∙◌, refl, sym, String, Option, some, List, [], ◌∷◌, arith, not, ◌||◌, ◌==◌, All, drop,
  eq_refl,
}
use uwpx_push_server.Common.Action.{done}
use uwpx_push_server.Redis.{RedisLib, RedisLaws, items}
use uwpx_push_server.RedisClient.Program.{Program, return, throw, call, run}
use uwpx_push_server.RedisClient.Program.Operations.{set_push_accounts, find_channel}
use uwpx_push_server.RedisClient.Program.Interleaving.{
  Keys, Threads, Steps, Apart, Steps-Apart, Alone,
}
use uwpx_push_server.RedisClient.Program.Footprint.{
  In, Placed, Within-set_push_accounts, Within-find_channel,
}
use uwpx_push_server.RedisClient.Program.Renewal.{Finds, read_list}
use uwpx_push_server.Messages.SuccessSetPushAccounts.Account.{PushAccount}

Finds-ended :
    (lib : RedisLib) (p : Program (Option String)) (uri : String) (d e : lib.Db)
    → done (some uri, d) ≡ run lib p e
    → Finds (λ o. o ≡ some uri) p
unfolding run
Finds-ended lib (return o) uri d e h = ground arith
Finds-ended lib (throw x) uri d e h = absurd (ground arith)
Finds-ended lib (call c next) uri d e h = tt

abbrev pub registration :
    (lib : RedisLib)
    → (String → String)
    → String
    → String
    → String
    → List PushAccount
    → String
    → lib.Db
    → Threads lib (Unit {0}) (Option String)
registration lib hash_sha256 device_id channel_uri version accounts node d = record {
  first = set_push_accounts hash_sha256 lib device_id channel_uri version accounts;
  second = find_channel lib node;
  db = d;
}

-- the keys of a node and of the device that it belongs to, and all others
abbrev pub own_keys : String → String → Keys
own_keys node owner j = (node == j) || (owner == j)

abbrev pub other_keys : String → String → Keys
other_keys node owner j = not (own_keys node owner j)

module _ (lib : RedisLib) (laws : RedisLaws lib) (hash_sha256 : String → String) (d : lib.Db)
    (node owner account secret uri : String) (rest : List String)
    (subscribed : lib.look d node ≡ some (items (account ∷ owner ∷ secret ∷ [])))
    (known : lib.look d owner ≡ some (items (uri ∷ rest))) (device_id channel_uri version : String)
    (list : List String) (listed : lib.look d device_id ≡ some (items list))
    (accounts : List PushAccount) (device : In lib (other_keys node owner) device_id)
    (old : All (In lib (other_keys node owner)) (drop 2 list))
    (new : All (Placed lib (other_keys node owner) laws hash_sha256 device_id) accounts) where
  abbrev start : Threads lib (Unit {0}) (Option String)
  start = registration lib hash_sha256 device_id channel_uri version accounts node d

  apart :
      (t : Threads lib (Unit {0}) (Option String))
      → Steps lib start t
      → Apart lib laws (other_keys node owner) (own_keys node owner) start t
  apart t steps =
      Steps-Apart lib laws (other_keys node owner) (own_keys node owner) (λ j h. ground arith) start
        t
        (Within-set_push_accounts lib (other_keys node owner) laws hash_sha256 device_id channel_uri
          version accounts d list (read_list lib laws device_id d _ list listed refl) device old
          new)
        (Within-find_channel lib (own_keys node owner) laws node owner account secret (uri ∷ rest) d
          (read_list lib laws node d _ _ subscribed refl)
          (read_list lib laws owner d _ _ known refl) (rw (eq_refl node) refl)
          (rw (eq_refl owner) (ground arith)))
        steps

  alone : run lib (find_channel lib node) d ≡ done (some uri, d)
  unfolding run find_channel
  alone =
      rw (read_list lib laws node d _ _ subscribed refl, read_list lib laws owner d _ _ known refl)
        refl

  -- While a thread registers the accounts of a device with set_push_accounts, and their commands
  -- are mixed in any way, a notification at a node of another device that is known finds the
  -- channel of its device where its lookups have ended; and the registration comes to what it comes
  -- to alone. Neither the device that registers, nor the accounts and nodes that it had or gets,
  -- are the node or the other device.
  pub find_channel-Undisturbed :
      (t : Threads lib (Unit {0}) (Option String))
      → Steps lib start t
      → Finds (λ o. o ≡ some uri) t.second
        × Alone lib laws (other_keys node owner) start.first t.first d t.db
  find_channel-Undisturbed t steps =
      let a = apart t steps in
      (Finds-ended lib t.second uri d a.second.own (sym alone ∙ a.second.ends), a.first)
