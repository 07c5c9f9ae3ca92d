-- ===== src/Tests/Expiry.antt =====
-- The theorems on account keys that expire: a device renews its channel after 10,000,000 seconds,
-- and gives accounts again after as many more, or after 8,000,000.
use uwpx_push_server.Common.{List, String, ◌≡◌, refl, some, [], assertion_failed, arith}
use uwpx_push_server.Common.Action.{◌>>=◌, done, threw}
use uwpx_push_server.Redis.Memory.{memory, memory_laws, memory_clock}
use uwpx_push_server.RedisClient.{
  set_push_accounts, set_channel_uri, get_push_nodes, get_channel_uri,
}
use uwpx_push_server.RedisClient.Expiry.{waited, get_push_nodes_expired}
use uwpx_push_server.RedisClient.Expiry.Kept.{get_push_nodes_kept}
use uwpx_push_server.Tests.RedisClient.{
  is_key, hash, hash-is_key, account, accounts, empty, empty-IsTyped, no-IsKey,
}

get_push_nodes_expired_example :
    (final : memory.Db) × ((set_push_accounts memory hash "device" "uri" "2" accounts >>= λ _.
    waited memory memory_clock 10000000 >>= λ _. set_channel_uri memory "device" "new" >>= λ _.
    waited memory memory_clock 10000000 >>= λ _. get_push_nodes memory "device")
        empty
      ≡ threw assertion_failed final)
    × (get_channel_uri memory "device" final ≡ done (some "new", final))
get_push_nodes_expired_example =
    get_push_nodes_expired memory is_key memory_laws memory_clock hash hash-is_key "device" "uri"
      "2" "new" account [] empty empty-IsTyped refl no-IsKey (refl, tt) 10000000 10000000
      (omega arith) (omega arith) (omega arith)

get_push_nodes_kept_example :
    (nodes : List String) × (final : memory.Db) × (after : memory.Db) × ((set_push_accounts memory
            hash "device" "uri" "2" accounts
          >>= λ _. get_push_nodes memory "device")
        empty
      ≡ done (nodes, after))
    × ((set_push_accounts memory hash "device" "uri" "2" accounts >>= λ _.
            waited memory memory_clock 10000000 >>= λ _.
            set_channel_uri memory "device" "new" >>= λ _.
            waited memory memory_clock 8000000 >>= λ _. get_push_nodes memory "device")
          empty
        ≡ done (nodes, final))
get_push_nodes_kept_example =
    get_push_nodes_kept memory is_key memory_laws memory_clock hash hash-is_key "device" "uri" "2"
      "new" account [] empty empty-IsTyped refl no-IsKey (refl, tt) 10000000 8000000 (omega arith)
