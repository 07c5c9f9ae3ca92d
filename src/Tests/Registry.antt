-- ===== src/Tests/Registry.antt =====
-- The theorem on the registry: a device that registers a node and then renews its channel.
use uwpx_push_server.Common.{
  ◌≡◌, refl, true, String, none, some, List, [], ◌∷◌, ◌==◌, if◌then◌else◌,
}
use uwpx_push_server.Common.Action.{Ends, for_each, ◌>>=◌}
use uwpx_push_server.Redis.Memory.{memory, memory_laws, no_entries}
use uwpx_push_server.RedisClient.Registry as Registry
use uwpx_push_server.RedisClient.Registry.{
  Request, renew, register, history, notify, Kind, account_key, node, device, Represents, perform,
  find, Fits,
}
use uwpx_push_server.RedisClient.Registry.History.{Represents-no_entries, find-history}
use uwpx_push_server.Tests.RedisClient.{is_key, hash}

abbrev kind : String → Kind
kind k = if is_key k then account_key else if k == "node" then node else device

abbrev requests : List Request
requests =
    renew "device" "uri"
    ∷ register "device" "uri" "2"
        (record { account_id = "a"; node = "node"; secret = "s"; success = true } ∷ [])
    ∷ renew "device" "new uri"
    ∷ []

new_db : memory.Db
unfolding memory
new_db = no_entries 1000

new_db_empty : (k : String) → memory.look new_db k ≡ none
unfolding memory new_db
new_db_empty k = refl

hashed : (s : String) → kind (hash s) ≡ account_key
hashed s = refl

renewed : notify (history requests Registry.no_entries) "node" ≡ some "new uri"
unfolding history
renewed = refl

find-history_example :
    Ends (for_each (perform memory hash) requests >>= λ _. find memory "node") new_db (λ o d.
      (o ≡ notify (history requests Registry.no_entries) "node")
      × Represents memory kind d (history requests Registry.no_entries))
find-history_example =
    find-history memory kind memory_laws hash hashed requests new_db Registry.no_entries "node"
      (Represents-no_entries memory kind new_db new_db_empty)
      (refl, ((refl, (refl, tt)), (refl, tt))) refl
