-- ===== src/Tests/Utils.antt =====
-- The theorems on numbers in decimal, on random texts and on the configuration.
use uwpx_push_server.Common.Action.{Action, ◌>>◌, Ends}
use uwpx_push_server.Configuration.Serializer.{Serializer, create, set_data, get_data}
use uwpx_push_server.Json.Tree.{tree, tree_with, tree_laws}
use uwpx_push_server.Common.{
  ◌≡◌, refl, ok, some, String, false, arith, not, nat_eq, ℕ, ◌<◌, true, pos,
}
use uwpx_push_server.Common.Decimal.{to_string, strtoll, strtoll-to_string}
use uwpx_push_server.Configuration
use uwpx_push_server.Configuration.{Configuration}
use uwpx_push_server.Configuration.RoundTrip.{IsConfiguration, from_json-to_json}
use uwpx_push_server.CryptoUtils.{url_safe_random_token, secure_random_password}
use uwpx_push_server.CryptoUtils.Laws.{
  text_length, is_alnum, all_chars, url_safe_random_token_lem, secure_random_password_lem,
}

strtoll-to_string_example : strtoll (to_string (pos 1700000000)) ≡ pos 1700000000
strtoll-to_string_example = strtoll-to_string 1700000000 (omega arith)

-- draws that are all zero
abbrev zeros : ℕ → ℕ → ℕ
zeros bound i = 0

zeros_in_range : (bound i : ℕ) → 0 < bound → zeros bound i < bound
zeros_in_range bound i h = h

url_safe_random_token_example :
    (s : String) × (url_safe_random_token zeros false 0 15 ≡ ok s)
    × (text_length s ≡ 15)
    × (all_chars is_alnum s ≡ true)
url_safe_random_token_example =
    url_safe_random_token_lem zeros zeros_in_range false 0 15 (omega arith)

secure_random_password_example :
    (s : String) × (secure_random_password zeros false 0 15 ≡ ok s)
    × (text_length s ≡ 15)
    × (all_chars is_alnum s ≡ true)
    × (all_chars (λ c. not (nat_eq c 90)) s ≡ true)
secure_random_password_example =
    secure_random_password_lem zeros zeros_in_range false 0 15 (omega arith)

abbrev configuration : Configuration
configuration = record {
  wns = record { packet_id = "ms-app://id"; client_secret = "secret" };
  xmpp = record {
    bare_jid = "push@example.org";
    password = "pw";
    port = 5222;
    host = "example.org";
  };
  tcp = record { port = 1997; tls = record { server_key_path = "key"; server_cert_path = "cert" } };
  db = record { url = "tcp://127.0.0.1" };
}

configuration-IsConfiguration : IsConfiguration configuration
configuration-IsConfiguration = record { xmpp_port = omega arith; tcp_port = omega arith }

from_json-to_json_example :
    Configuration.from_json tree (Configuration.to_json tree configuration) ≡ ok configuration
from_json-to_json_example =
    from_json-to_json tree tree_laws configuration configuration-IsConfiguration

-- a key is given twice, and keeps what it is given first
abbrev given_twice : Action (Serializer tree) (Unit {0})
given_twice = set_data tree tree.of_string "a" "first" >> set_data tree tree.of_string "a" "second"

given_twice_keeps :
    Ends given_twice
      (create tree "file")
      (λ _ r. get_data tree tree.get_string "a" r ≡ ok (some "first"))
unfolding tree tree_with set_data get_data
given_twice_keeps = record { result = tt; state = _; returns = refl; holds = refl }
