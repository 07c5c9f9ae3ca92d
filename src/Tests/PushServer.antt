-- ===== src/Tests/PushServer.antt =====
-- The theorems on the push server and the client of the notification service, over the JSON trees
-- of Json/Tree and the server in memory of Redis/Memory.
use uwpx_push_server.Common.{
  ◌<◌, ◌≡◌, refl, ℕ, true, false, String, Option, some, List, [], ◌∷◌, pos, arith,
}
use uwpx_push_server.Common.Action.{Ends, done, left}
use uwpx_push_server.Json.Tree.{tree}
use uwpx_push_server.Redis.Memory.{memory, memory_laws, no_entries}
use uwpx_push_server.Configuration.{WnsConfiguration}
use uwpx_push_server.Wns.Token.{WnsToken}
use uwpx_push_server.Wns.{
  valid_at, Response, Post, token_request, notification, WnsClient, send_raw_notification,
  store_token_in_db, load_token_from_db, is_token_valid, attempts, handle_response_code,
}
use uwpx_push_server.Wns.Requests.{
  Sent, Accepted, send_raw_notification-Sent, send_raw_notification-Accepted,
}
use uwpx_push_server.Wns.Restore.{load_token_from_db-store_token_in_db}
use uwpx_push_server.Xmpp.{connected}
use uwpx_push_server.PushServer.{Environment, PushServer}
use uwpx_push_server.PushServer.Setup.{Renewed, check_setup_wns, check_setup_wns-Renewed}
use uwpx_push_server.PushServer.Session.{converse}
use uwpx_push_server.PushServer.Session.Wire.{nul_free, NulFree, Answered, converse-Answered}

abbrev config : WnsConfiguration
config = record { packet_id = "id"; client_secret = "secret" }

-- a service that accepts whatever it is sent, and a clock that stands still
abbrev accepting : List Post → Response
accepting posts = record { failed = false; status_code = 200; text = "" }

abbrev noon : List Post → ℕ
noon posts = 1000

empty_db : memory.Db
unfolding memory
empty_db = no_entries 1000

abbrev token : WnsToken
token = record { type = "bearer"; token = "t"; expires = pos 2000 }

abbrev client : WnsClient memory
client = record { token = some token; db = empty_db; posts = [] }

abbrev after_sending : WnsClient memory
after_sending = record client { posts = notification "uri" "bearer t" "hello" ∷ [] }

sent_once :
    send_raw_notification tree memory config accepting noon "uri" "hello" client
    ≡ done (true, after_sending)
unfolding send_raw_notification is_token_valid attempts handle_response_code
sent_once = refl

send_raw_notification-Accepted_example :
    (auth : String) × Accepted tree memory config accepting noon
      (notification "uri" auth "hello")
      after_sending
send_raw_notification-Accepted_example =
    send_raw_notification-Accepted tree memory config accepting noon "uri" "hello" client
      after_sending sent_once

send_raw_notification-Sent_example :
    Sent
      (token_request "id" "secret")
      "uri"
      "hello"
      []
      (left (send_raw_notification tree memory config accepting noon "uri" "hello" client)).posts
send_raw_notification-Sent_example =
    send_raw_notification-Sent tree memory config accepting noon "uri" "hello" client

noon_before : memory.now client.db < 2000
unfolding memory empty_db
noon_before = omega arith

load_token_from_db-store_token_in_db_example :
    Ends (store_token_in_db tree memory config accepting noon token) client (λ _ s'.
      (forgotten : Option WnsToken)
      → load_token_from_db tree memory config accepting noon (record s' { token = forgotten })
        ≡ done (tt, record s' { token = some token }))
load_token_from_db-store_token_in_db_example =
    load_token_from_db-store_token_in_db tree memory memory_laws config accepting noon client
      "bearer" "t" 2000 (omega arith) noon_before

abbrev environment : Environment
environment = record {
  config = config;
  jid = "push@example.org";
  answer = accepting;
  clock = noon;
  hash_sha256 = λ s. s;
  matches = λ pattern uri. true;
  connection = connected;
  token_draw = λ bound i. 0;
  password_draw = λ bound i. 0;
  set_order = λ set. set;
  map_order = λ map. map;
}

abbrev server : PushServer memory
server = record { wns = client; stanzas = []; sent = []; tokens = 0; passwords = 0 }

printed-NulFree : (j : tree.Json) → NulFree (tree.dump j)
unfolding tree nul_free
printed-NulFree j = refl

converse-Answered_example :
    Answered tree 2 (converse tree memory false environment ("{}" ∷ "?" ∷ []) server)
converse-Answered_example =
    converse-Answered tree memory false environment printed-NulFree ("{}" ∷ "?" ∷ []) server refl

check_setup_wns-Renewed_example :
    Renewed tree memory environment []
      (valid_at tree memory config accepting noon 1000 (some token))
      (left (check_setup_wns tree memory environment server)).wns.posts
check_setup_wns-Renewed_example = check_setup_wns-Renewed tree memory environment server
