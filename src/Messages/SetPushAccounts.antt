-- ===== src/Messages/SetPushAccounts.antt =====
-- tcp/messages/SetPushAccountsMessage.{hpp,cpp}
use uwpx_push_server.Common.{
  assertion_failed, ◌≢◌, none, refl, err, true, ◌≡◌, Bool, false, not, String, Option, Result, ok,
  Reader, ◌>>=◌, ◌>>◌, require, assign, inherit, construct, and_then, is_empty, arith, List, [],
  ◌∷◌, ◌++◌, fetch, modify, accept, map, All, some,
}
use mathlib.Core.List.{append_assoc, append-nil}
use uwpx_push_server.Json.{JsonLib, JsonLaws}
use uwpx_push_server.Messages.Header
use uwpx_push_server.Messages.Header.{AbstractMessage, MessageType, IsHeader, json_at, string_at}

abbrev pub action : String
action = "set_push_accounts"

pub record SetPushAccountsMessage : Type 0 where
  pub base : AbstractMessage
  pub accounts : List String
  pub device_id : String

abbrev pub create : List String → String → SetPushAccountsMessage
create ids device = record { base = Header.create action; accounts = ids; device_id = device }

abbrev pub blank : SetPushAccountsMessage
blank = record { base = Header.blank; accounts = []; device_id = "" }

abbrev set_base : AbstractMessage → SetPushAccountsMessage → SetPushAccountsMessage
set_base b m = record m { base = b }

abbrev set_valid : Bool → SetPushAccountsMessage → SetPushAccountsMessage
set_valid b m = record m { base = Header.set_valid b m.base }

abbrev pub get_type : SetPushAccountsMessage → MessageType
get_type m = MessageType.set_push_account_message

-- accounts.push_back(jid)
abbrev push_back : String → SetPushAccountsMessage → SetPushAccountsMessage
push_back jid m = record m { accounts = m.accounts ++ jid ∷ [] }

module _ (lib : JsonLib) where
  open lib use {contains, elements, put, of_string, array, json, empty}

  -- the loop over j["accounts"] in from_json
  unfoldable pub read_accounts : List lib.Json → Reader SetPushAccountsMessage (Unit {0})
  read_accounts [] = accept
  read_accounts (account_json ∷ rest) = do
    require (contains account_json "account_id")
    jid ← fetch (string_at lib account_json "account_id")
    require (not (is_empty jid))
    modify (push_back jid)
    read_accounts rest

  unfoldable pub from_json : lib.Json → Reader SetPushAccountsMessage (Unit {0})
  from_json j = do
    inherit (λ m. m.base) set_base (Header.from_json lib j)
    require (contains j "accounts")
    accounts_json ← fetch (json_at lib j "accounts")
    read_accounts (elements accounts_json)
    require (contains j "device_id")
    d ← assign (string_at lib j "device_id") (λ d m. record m { device_id = d })
    require (not (is_empty d))

  -- SetPushAccountsMessage(j)
  unfoldable pub of_json : lib.Json → Result SetPushAccountsMessage
  unfolding from_json
  of_json j = construct set_valid (from_json j) blank

  abbrev pub account_json : String → lib.Json
  account_json account = json (put empty "account_id" (of_string account))

  unfoldable pub to_json : Bool → SetPushAccountsMessage → lib.Object → Result lib.Object
  unfolding Header.to_json
  to_json ndebug m j = and_then (Header.to_json lib ndebug m.base j) λ j. ok (
      put (put j "device_id" (of_string m.device_id)) "accounts"
        (array (map account_json m.accounts)))

abbrev pub NonEmpty : String → Type 0
NonEmpty s = is_empty s ≡ false

pub record IsWellFormed (m : SetPushAccountsMessage) : Type 0 where
  pub header : IsHeader m.base
  pub named : All NonEmpty m.accounts
  pub device : is_empty m.device_id ≡ false

All-append_one :
    (xs : List String) (x : String) → All NonEmpty xs → NonEmpty x → All NonEmpty (xs ++ x ∷ [])
All-append_one [] x h e = (e, tt)
All-append_one (y ∷ ys) x h e = (h.0, All-append_one ys x h.1 e)

module _ (lib : JsonLib) where
  -- The loop keeps the account ids that it collects non-empty, and touches no other field.
  read_accounts-All :
      (js : List lib.Json) (m : SetPushAccountsMessage)
      {r : Option (Unit {0}) × SetPushAccountsMessage}
      → read_accounts lib js m ≡ ok r
      → All NonEmpty m.accounts
      → All NonEmpty r.1.accounts × (r.1.base ≡ m.base) × (r.1.device_id ≡ m.device_id)
  unfolding read_accounts
  read_accounts-All [] m e h = ground arith
  read_accounts-All (j ∷ js) m e h = grind (arith, read_accounts-All js, All-append_one)

  pub of_json-IsWellFormed :
      (j : lib.Json) (m : SetPushAccountsMessage)
      → of_json lib j ≡ ok m
      → m.base.is_valid ≡ true
      → IsWellFormed m
  unfolding of_json
  of_json-IsWellFormed j m h v =
      grind (arith, Header.from_json_supported, Header.from_json_named, read_accounts-All)

  -- by the result of the base class's from_json
  of_json-action_by :
      (j : lib.Json) (m : SetPushAccountsMessage) (h : Result (Option (Unit {0}) × AbstractMessage))
      → Header.from_json lib j blank.base ≡ h
      → of_json lib j ≡ ok m
      → m.base.is_valid ≡ true
      → string_at lib j "action" ≡ ok m.base.action
  unfolding of_json
  of_json-action_by j m (err e) q h v = ground arith
  of_json-action_by j m (ok (none, b)) q h v = ground arith
  of_json-action_by j m (ok (some u, b)) q h v =
      grind (arith, Header.from_json_action lib j blank.base q refl, read_accounts-All)

  pub of_json-action :
      (j : lib.Json) (m : SetPushAccountsMessage)
      → of_json lib j ≡ ok m
      → m.base.is_valid ≡ true
      → string_at lib j "action" ≡ ok m.base.action
  of_json-action j m = of_json-action_by j m (Header.from_json lib j blank.base) refl

  read_accounts-ne-assertion :
      (js : List lib.Json) (m : SetPushAccountsMessage)
      → read_accounts lib js m ≢ err assertion_failed
  unfolding read_accounts
  read_accounts-ne-assertion [] m h = ground arith
  read_accounts-ne-assertion (j ∷ js) m h = grind (arith, read_accounts-ne-assertion js)

  pub of_json-ne-assertion : (j : lib.Json) → of_json lib j ≢ err assertion_failed
  unfolding of_json Header.from_json
  of_json-ne-assertion j h = grind (arith, read_accounts-ne-assertion)

  module _ (laws : JsonLaws lib) (ndebug : Bool) where
    open laws use {contains_put, at_put, get_of_string, get_of_int, elements_array}

    read_accounts-map :
        (ids : List String) (m : SetPushAccountsMessage)
        → All NonEmpty ids
        → read_accounts lib (map (account_json lib) ids) m
          ≡ ok (some tt, record m { accounts = m.accounts ++ ids })
    unfolding read_accounts
    read_accounts-map [] m h = simp append-nil
    read_accounts-map (a ∷ ids) m h = simp (
      contains_put,
      at_put,
      get_of_string,
      h.0,
      read_accounts-map ids (push_back a m) h.1,
      append_assoc,
    )

    pub of_json-to_json :
        (m : SetPushAccountsMessage)
        → IsWellFormed m
        → and_then (to_json lib ndebug m lib.empty) (λ o. of_json lib (lib.json o)) ≡ ok m
    unfolding of_json to_json Header.from_json
    of_json-to_json m w =
        simp
          (
            contains_put, at_put, get_of_string, get_of_int, elements_array, w.header.valid,
            w.header.supported, w.header.named,
          )
          (rw (read_accounts-map m.accounts _ w.named) (ground arith))
