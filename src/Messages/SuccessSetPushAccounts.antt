-- ===== src/Messages/SuccessSetPushAccounts.antt =====
-- tcp/messages/SuccessSetPushAccountsMessage.{hpp,cpp}
pub mod Account
pub mod Laws
use uwpx_push_server.Common.{
  some, ◌≡◌, Bool, true, false, not, String, Result, ok, Reader, ◌>>=◌, ◌>>◌, require, assign,
  inherit, construct, and_then, is_empty, List, [], ◌∷◌, ◌++◌, ℤ, fetch, modify, accept, map, null,
}
use uwpx_push_server.Json.{JsonLib}
use uwpx_push_server.Messages.Header.{MessageType, json_at, string_at}
use uwpx_push_server.Messages.Response
use uwpx_push_server.Messages.Response.{AbstractResponseMessage}
use uwpx_push_server.Messages.Response.Success
use Account.{PushAccount}

pub record SuccessSetPushAccountsMessage : Type 0 where
  pub base : AbstractResponseMessage
  pub accounts : List PushAccount
  pub push_bare_jid : String

-- SuccessSetPushAccountsMessage(accounts, pushBareJid)
abbrev pub create : List PushAccount → String → SuccessSetPushAccountsMessage
create list jid = record { base = Success.create; accounts = list; push_bare_jid = jid }

abbrev pub blank : SuccessSetPushAccountsMessage
blank = record { base = Response.blank; accounts = []; push_bare_jid = "" }

abbrev set_base :
    AbstractResponseMessage → SuccessSetPushAccountsMessage → SuccessSetPushAccountsMessage
set_base b m = record m { base = b }

abbrev set_valid : Bool → SuccessSetPushAccountsMessage → SuccessSetPushAccountsMessage
set_valid b m = record m { base = Response.set_valid b m.base }

abbrev pub get_type : SuccessSetPushAccountsMessage → MessageType
get_type m = MessageType.success_set_push_account_message

-- accounts.push_back(*account)
abbrev pub push_back : PushAccount → SuccessSetPushAccountsMessage → SuccessSetPushAccountsMessage
push_back account m = record m { accounts = m.accounts ++ account ∷ [] }

module _ (lib : JsonLib) where
  open lib use {contains, elements, put, of_string, array, json, empty}

  -- the loop over j["accounts"] in from_json
  unfoldable pub read_accounts : List lib.Json → Reader SuccessSetPushAccountsMessage (Unit {0})
  read_accounts [] = accept
  read_accounts (account_json ∷ rest) = do
    account ← Account.from_json lib account_json
    modify (push_back account)
    read_accounts rest

  -- `accounts.empty()` is tested on the object
  abbrev require_accounts : Reader SuccessSetPushAccountsMessage (Unit {0})
  require_accounts m = require (not (null m.accounts)) m

  unfoldable pub from_json : lib.Json → Reader SuccessSetPushAccountsMessage (Unit {0})
  from_json j = do
    inherit (λ m. m.base) set_base (Success.from_json lib j)
    require (contains j "accounts")
    accounts_json ← fetch (json_at lib j "accounts")
    read_accounts (elements accounts_json)
    require_accounts
    require (contains j "push_bare_jid")
    b ← assign (string_at lib j "push_bare_jid") (λ b m. record m { push_bare_jid = b })
    require (not (is_empty b))

  -- SuccessSetPushAccountsMessage(j)
  unfoldable pub of_json : lib.Json → Result SuccessSetPushAccountsMessage
  unfolding from_json
  of_json j = construct set_valid (from_json j) blank

  abbrev pub account_json : PushAccount → lib.Json
  account_json account = json (Account.to_json lib account empty)

  unfoldable pub to_json : Bool → SuccessSetPushAccountsMessage → lib.Object → Result lib.Object
  unfolding Response.to_json
  to_json ndebug m j = and_then (Success.to_json lib ndebug m.base j) λ j. ok (
      put (put j "push_bare_jid" (of_string m.push_bare_jid)) "accounts"
        (array (map account_json m.accounts)))
