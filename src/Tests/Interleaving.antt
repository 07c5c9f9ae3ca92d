-- ===== src/Tests/Interleaving.antt =====
-- The theorems on threads that share the database: the XMPP server notifies a node while a device
-- renews its channel, or another one registers an account.
use uwpx_push_server.Common.{
  ◌≡◌, refl, true, false, Bool, String, Option, none, some, List, [], ◌∷◌, ◌==◌, if◌then◌else◌,
  eq_iff,
}
use uwpx_push_server.Redis.{Entry, items}
use uwpx_push_server.Redis.Memory.{memory, memory_laws}
use uwpx_push_server.RedisClient.{gen_account}
use uwpx_push_server.RedisClient.Program.{return}
use uwpx_push_server.RedisClient.Program.Interleaving.{Threads, Steps, Alone}
use uwpx_push_server.RedisClient.Program.Renewal.{
  Finds, OldOrNew, renewal, find_channel-OldOrNew, find_channel_lost,
}
use uwpx_push_server.RedisClient.Program.Undisturbed.{
  registration, other_keys, find_channel-Undisturbed,
}
use uwpx_push_server.RedisClient.Program.Operations.{set_channel_uri}
use uwpx_push_server.RedisClient.Program.Schedule.{schedule, schedule-Steps}
use uwpx_push_server.Messages.SuccessSetPushAccounts.Account.{PushAccount}

abbrev entries : String → Option Entry
entries k =
    if k == "device"
    then some (items ("uri" ∷ "2" ∷ "#device_a" ∷ []))
    else if k == "node"
    then some (items ("a" ∷ "device" ∷ "secret" ∷ []))
    else if k == "other"
    then some (items ("other uri" ∷ []))
    else none

shared_db : memory.Db
unfolding memory
shared_db = record { entries = entries; timeouts = λ _. none; clock = 1000 }

abbrev renewing : Threads memory (Unit {0}) (Option String)
renewing = renewal memory "device" "new uri" "node" shared_db

find_channel-OldOrNew_example :
    Finds
      (OldOrNew "uri" "new uri")
      (schedule memory (true ∷ true ∷ false ∷ true ∷ false ∷ []) renewing).second
unfolding memory shared_db
find_channel-OldOrNew_example =
    find_channel-OldOrNew memory memory_laws shared_db "device" "node" "new uri" refl "a" "secret"
      refl "uri" ("2" ∷ "#device_a" ∷ []) refl
      (schedule memory (true ∷ true ∷ false ∷ true ∷ false ∷ []) renewing)
      (schedule-Steps memory (true ∷ true ∷ false ∷ true ∷ false ∷ []) renewing)

find_channel_lost_example :
    (t : Threads memory (Unit {0}) (Option String)) × Steps memory renewing t
    × (t.second ≡ return none)
    × (t.first ≡ return tt)
    × (memory.look t.db "device" ≡ some (items ("new uri" ∷ "2" ∷ "#device_a" ∷ [])))
    × (memory.look t.db "node" ≡ some (items ("a" ∷ "device" ∷ "secret" ∷ [])))
unfolding memory shared_db
find_channel_lost_example =
    find_channel_lost memory memory_laws shared_db "device" "node" "new uri" refl "a" "secret" refl
      "uri" ("2" ∷ "#device_a" ∷ []) refl

abbrev new_account : PushAccount
new_account = record { account_id = "b"; node = "new node"; secret = "s"; success = true }

abbrev order : List Bool
order = true ∷ true ∷ true ∷ false ∷ true ∷ true ∷ false ∷ true ∷ []

abbrev registering : Threads memory (Unit {0}) (Option String)
registering =
    registration memory (λ s. s) "other" "other uri" "2" (new_account ∷ []) "node" shared_db

find_channel-Undisturbed_example :
    Finds (λ o. o ≡ some "uri") (schedule memory order registering).second
    × Alone memory memory_laws
        (other_keys "node" "device")
        registering.first
        (schedule memory order registering).first
        shared_db
        (schedule memory order registering).db
unfolding memory shared_db gen_account
find_channel-Undisturbed_example =
    find_channel-Undisturbed memory memory_laws (λ s. s) shared_db "node" "device" "a" "secret"
      "uri" ("2" ∷ "#device_a" ∷ []) refl refl "other" "other uri" "2" ("other uri" ∷ []) refl
      (new_account ∷ []) refl tt ((refl, refl), tt) (schedule memory order registering)
      (schedule-Steps memory order registering)

-- two devices that renew their channels at once
abbrev both_renewing : Threads memory (Unit {0}) (Unit {0})
both_renewing = record {
  first = set_channel_uri "other" "first uri";
  second = set_channel_uri "device" "second uri";
  db = shared_db;
}

different_keys : (j : String) → (j == "other") ≡ true → (j == "device") ≡ false
different_keys j h = rw ((eq_iff j "other").0 h) refl
