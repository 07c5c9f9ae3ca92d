-- ===== src/Tests/Delivery.antt =====
-- The theorems on notifications after a registration, over the databases of Tests/RedisClient.
use uwpx_push_server.Common.{refl, true, false, none, []}
use uwpx_push_server.Common.Action.{Ends}
use uwpx_push_server.Json.Tree.{tree}
use uwpx_push_server.Redis.Memory.{memory, memory_laws}
use uwpx_push_server.RedisClient.{set_push_accounts}
use uwpx_push_server.Xmpp.{connected}
use uwpx_push_server.PushServer.{Environment, PushServer}
use uwpx_push_server.PushServer.Delivery.{
  Forwards, Drops, with_db, set_push_accounts-Forwards, set_push_accounts-Drops,
}
use uwpx_push_server.Tests.RedisClient.{
  is_key, hash, hash-is_key, account, accounts, server, empty, server-IsTyped, empty-IsTyped,
  old-IsKey, no-IsKey, nothing_held, three_held,
}

abbrev pub environment : Environment
environment = record {
  config = record { packet_id = "id"; client_secret = "secret" };
  jid = "push@example.org";
  answer = λ posts. record { failed = false; status_code = 200; text = "" };
  clock = λ posts. 1000;
  hash_sha256 = hash;
  matches = λ pattern uri. true;
  connection = connected;
  token_draw = λ bound i. 0;
  password_draw = λ bound i. 0;
  set_order = λ set. set;
  map_order = λ map. map;
}

-- a server on an empty database, and one on a database in which the device is registered
abbrev pub fresh_server : PushServer memory
fresh_server = record {
  wns = record { token = none; db = empty; posts = [] };
  stanzas = [];
  sent = [];
  tokens = 0;
  passwords = 0;
}

abbrev used_server : PushServer memory
used_server = with_db memory fresh_server server

set_push_accounts-Forwards_example :
    Ends
      (set_push_accounts memory hash "device" "uri" "2" accounts)
      empty
      (λ _ d. Forwards tree memory false environment "node" "uri" (with_db memory fresh_server d))
set_push_accounts-Forwards_example =
    set_push_accounts-Forwards tree memory false environment is_key memory_laws hash-is_key "device"
      "uri" "2" accounts fresh_server empty-IsTyped refl no-IsKey (refl, tt) "node" refl refl
      account nothing_held refl

set_push_accounts-Drops_example :
    Ends
      (set_push_accounts memory hash "device" "uri" "2" accounts)
      server
      (λ _ d. Drops tree memory false environment "node" (with_db memory used_server d))
set_push_accounts-Drops_example =
    set_push_accounts-Drops tree memory false environment is_key memory_laws hash-is_key "device"
      "uri" "2" accounts used_server server-IsTyped refl old-IsKey (refl, tt) "node" refl refl "a"
      "device" "secret" three_held refl
