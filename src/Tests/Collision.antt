-- ===== src/Tests/Collision.antt =====
-- The theorem on the keys of accounts: the device `dev` takes what `dev_ice` has stored.
use uwpx_push_server.Common.{◌≡◌, refl, false}
use uwpx_push_server.Common.Action.{Ends, ◌>>=◌}
use uwpx_push_server.Redis.Memory.{memory, memory_laws}
use uwpx_push_server.RedisClient.{store_account, load_push_account}
use uwpx_push_server.RedisClient.Typed.Collision.{load_push_account-store_account}
use uwpx_push_server.Messages.SuccessSetPushAccounts.Account.{PushAccount}
use uwpx_push_server.Tests.RedisClient.{
  is_key, hash, hash-is_key, account, empty, empty-IsTyped, nothing_held,
}

abbrev asked : PushAccount
asked = record { account_id = "ice_a"; node = "new"; secret = "new secret"; success = false }

load_push_account-store_account_example :
    Ends
      (store_account memory hash "dev_ice" account >>= λ _.
        load_push_account memory hash "dev" asked)
      empty
      (λ r _. (r.node ≡ "node") × (r.secret ≡ "secret"))
load_push_account-store_account_example =
    load_push_account-store_account memory is_key memory_laws hash hash-is_key "dev" "ice" account
      asked empty empty-IsTyped refl nothing_held refl
