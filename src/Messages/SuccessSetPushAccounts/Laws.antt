-- ===== src/Messages/SuccessSetPushAccounts/Laws.antt =====
-- What reading and writing SuccessSetPushAccountsMessage establishes.
use uwpx_push_server.Messages.Header.{int_at, string_at}
use uwpx_push_server.Common.{
  assertion_failed, ◌≢◌, refl, none, err, Result, some, ◌≡◌, Bool, true, false, Option, ok,
  and_then, is_empty, null, List, [], ◌∷◌, ◌++◌, All, map, arith,
}
use mathlib.Core.List.{append_assoc, append-nil}
use uwpx_push_server.Json.{JsonLib, JsonLaws}
use uwpx_push_server.Messages.Header
use uwpx_push_server.Messages.Response
use uwpx_push_server.Messages.Response.{AbstractResponseMessage, IsResponse}
use uwpx_push_server.Messages.SuccessSetPushAccounts.Account
use uwpx_push_server.Messages.SuccessSetPushAccounts.Account.{PushAccount}
use uwpx_push_server.Messages.SuccessSetPushAccounts.{
  SuccessSetPushAccountsMessage, read_accounts, of_json, to_json, push_back, account_json,
}

pub record IsWellFormed (m : SuccessSetPushAccountsMessage) : Type 0 where
  pub response : IsResponse m.base
  pub placed : All Account.IsWellFormed m.accounts
  pub some_account : null m.accounts ≡ false
  pub jid : is_empty m.push_bare_jid ≡ false

All-append_one :
    (xs : List PushAccount) (x : PushAccount)
    → All Account.IsWellFormed xs
    → Account.IsWellFormed x
    → All Account.IsWellFormed (xs ++ x ∷ [])
All-append_one [] x h e = (e, tt)
All-append_one (y ∷ ys) x h e = (h.0, All-append_one ys x h.1 e)

module _ (lib : JsonLib) where
  -- The loop collects well-formed accounts, and touches no other field.
  read_accounts-All :
      (js : List lib.Json) (m : SuccessSetPushAccountsMessage)
      {r : Option (Unit {0}) × SuccessSetPushAccountsMessage}
      → read_accounts lib js m ≡ ok r
      → All Account.IsWellFormed m.accounts
      → All Account.IsWellFormed r.1.accounts × (r.1.base ≡ m.base)
  unfolding read_accounts
  read_accounts-All [] m e h = ground arith
  read_accounts-All (j ∷ js) m e h = grind (
    arith,
    read_accounts-All js,
    All-append_one,
    Account.from_json-IsWellFormed,
    Account.from_json_unchanged {0},
  )

  pub of_json-IsWellFormed :
      (j : lib.Json) (m : SuccessSetPushAccountsMessage)
      → of_json lib j ≡ ok m
      → m.base.base.is_valid ≡ true
      → IsWellFormed m
  unfolding of_json
  of_json-IsWellFormed j m h v = grind (
    arith, Response.from_json_supported, Response.from_json_named, Response.from_json_known,
    read_accounts-All,
  )

  -- by the result of the base class's from_json
  of_json-header_by :
      (j : lib.Json) (m : SuccessSetPushAccountsMessage)
      (h : Result (Option (Unit {0}) × AbstractResponseMessage))
      → Response.from_json lib j Response.blank ≡ h
      → of_json lib j ≡ ok m
      → m.base.base.is_valid ≡ true
      → (string_at lib j "action" ≡ ok m.base.base.action)
        × (int_at lib j "status" ≡ ok m.base.status)
  unfolding of_json
  of_json-header_by j m (err e) q h v = ground arith
  of_json-header_by j m (ok (none, b)) q h v = ground arith
  of_json-header_by j m (ok (some u, b)) q h v = grind (
    arith,
    Response.from_json_action lib j Response.blank q refl,
    Response.from_json_status lib j Response.blank q refl,
    read_accounts-All,
  )

  pub of_json-header :
      (j : lib.Json) (m : SuccessSetPushAccountsMessage)
      → of_json lib j ≡ ok m
      → m.base.base.is_valid ≡ true
      → (string_at lib j "action" ≡ ok m.base.base.action)
        × (int_at lib j "status" ≡ ok m.base.status)
  of_json-header j m = of_json-header_by j m (Response.from_json lib j Response.blank) refl

  read_accounts-ne-assertion :
      (js : List lib.Json) (m : SuccessSetPushAccountsMessage)
      → read_accounts lib js m ≢ err assertion_failed
  unfolding read_accounts Account.from_json
  read_accounts-ne-assertion [] m h = ground arith
  read_accounts-ne-assertion (j ∷ js) m h = grind (arith, read_accounts-ne-assertion js)

  pub of_json-ne-assertion : (j : lib.Json) → of_json lib j ≢ err assertion_failed
  unfolding of_json Response.from_json Header.from_json
  of_json-ne-assertion j h = grind (arith, read_accounts-ne-assertion)

  module _ (laws : JsonLaws lib) (ndebug : Bool) where
    open laws use {contains_put, at_put, get_of_string, get_of_int, elements_array}

    read_accounts-map :
        (accounts : List PushAccount) (m : SuccessSetPushAccountsMessage)
        → All Account.IsWellFormed accounts
        → read_accounts lib (map (account_json lib) accounts) m
          ≡ ok (some tt, record m { accounts = m.accounts ++ accounts })
    unfolding read_accounts
    read_accounts-map [] m h = simp append-nil
    read_accounts-map (a ∷ rest) m h =
        rw (Account.from_json-to_json lib laws a m h.0)
          (simp (read_accounts-map rest (push_back a m) h.1, append_assoc))

    pub of_json-to_json :
        (m : SuccessSetPushAccountsMessage)
        → IsWellFormed m
        → and_then (to_json lib ndebug m lib.empty) (λ o. of_json lib (lib.json o)) ≡ ok m
    unfolding of_json to_json Response.from_json Header.from_json
    of_json-to_json m w =
        simp
          (
            contains_put, at_put, get_of_string, get_of_int, elements_array,
            w.response.header.valid, w.response.header.supported, w.response.header.named,
            w.response.known,
          )
          (rw (read_accounts-map m.accounts _ w.placed) (ground arith))
