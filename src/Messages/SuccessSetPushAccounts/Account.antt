-- ===== src/Messages/SuccessSetPushAccounts/Account.antt =====
-- SuccessSetPushAccountsMessage::PushAccount
use uwpx_push_server.Common.{
  Option, arith, some, ok, ◌≡◌, Bool, false, not, String, Reader, ◌>>=◌, ◌>>◌, require, fetch, give,
  is_empty,
}
use uwpx_push_server.Json.{JsonLib, JsonLaws}
use uwpx_push_server.Messages.Header.{string_at, bool_at}

pub record PushAccount : Type 0 where
  pub account_id : String
  pub node : String
  pub secret : String
  pub success : Bool

module _ (lib : JsonLib) where
  open lib use {contains, put, of_string, of_bool}

  -- `std::nullopt` is the early return. A value of 'success' that is no bool is only logged, and
  -- the conversion then throws.
  unfoldable pub from_json {ℓ} : {S : Type ℓ} → lib.Json → Reader S PushAccount
  from_json j = do
    require (contains j "account_id")
    bare_jid ← fetch (string_at lib j "account_id")
    require (not (is_empty bare_jid))
    require (contains j "node")
    node ← fetch (string_at lib j "node")
    require (not (is_empty node))
    require (contains j "secret")
    secret ← fetch (string_at lib j "secret")
    require (not (is_empty secret))
    require (contains j "success")
    success ← fetch (bool_at lib j "success")
    give (record { account_id = bare_jid; node = node; secret = secret; success = success })

  unfoldable pub to_json : PushAccount → lib.Object → lib.Object
  to_json account j =
      put
        (put
          (put (put j "account_id" (of_string account.account_id)) "node" (of_string account.node))
          "secret" (of_string account.secret))
        "success" (of_bool account.success)

pub record IsWellFormed (account : PushAccount) : Type 0 where
  pub named : is_empty account.account_id ≡ false
  pub placed : is_empty account.node ≡ false
  pub secured : is_empty account.secret ≡ false

module _ (lib : JsonLib) (laws : JsonLaws lib) where
  open laws use {contains_put, at_put, get_of_string, get_of_bool}

  -- An account that has been written is read back, whatever object is being read into.
  pub from_json-to_json {ℓ} :
      {S : Type ℓ} (account : PushAccount) (s : S)
      → IsWellFormed account
      → from_json lib (lib.json (to_json lib account lib.empty)) s ≡ ok (some account, s)
  unfolding from_json to_json
  from_json-to_json account s w =
      simp (contains_put, at_put, get_of_string, get_of_bool, w.named, w.placed, w.secured)

module _ (lib : JsonLib) where
  -- Reading an account leaves the object that is being read into as it was.
  pub from_json_unchanged {ℓ} :
      {S : Type ℓ} (j : lib.Json) (s : S) {r : Option PushAccount × S}
      → from_json lib j s ≡ ok r
      → r.1 ≡ s
  unfolding from_json
  from_json_unchanged j s h = ground arith

  pub from_json-IsWellFormed {ℓ} :
      {S : Type ℓ} (j : lib.Json) (s : S) {r : Option PushAccount × S} {account : PushAccount}
      → from_json lib j s ≡ ok r
      → r.0 ≡ some account
      → IsWellFormed account
  unfolding from_json
  from_json-IsWellFormed j s h a = ground arith
