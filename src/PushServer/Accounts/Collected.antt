-- ===== src/PushServer/Accounts/Collected.antt =====
-- server/PushServer.cpp: the loop over the account ids, and how the nodes of the accounts are.
use mathlib.Core.Path.{subst}
use Prim.Native.Nat.{◌<◌}
use uwpx_push_server.Common.{
  ◌≡◌, refl, sym, Bool, true, false, ℕ, zero, suc, ◌+◌, String, some, List, [], ◌∷◌, ◌++◌, All,
  arith, ok,
}
use uwpx_push_server.Common.Action.{done}
use uwpx_push_server.CryptoUtils.{url_safe_random_token}
use uwpx_push_server.CryptoUtils.Laws.{url_safe_random_token_lem, secure_random_password_lem}
use uwpx_push_server.Json.{JsonLib}
use uwpx_push_server.Redis.{RedisLib, RedisLaws, text}
use uwpx_push_server.RedisClient.Typed.{IsTyped}
use uwpx_push_server.RedisClient.Loading.{load_push_account_lem}
use uwpx_push_server.Wns.{WnsClient}
use uwpx_push_server.Messages.SuccessSetPushAccounts.Account.{PushAccount}
use uwpx_push_server.PushServer.{Environment, PushServer}
use uwpx_push_server.PushServer.Accounts.{Nodes, with_account, set_success, create_account, collect}
use uwpx_push_server.PushServer.Accounts.Synchronised.{marked}

module _ (IsGood : String → Type 0) where
  abbrev pub IsPlaced : PushAccount → Type 0
  IsPlaced a = IsGood a.node

  append-All :
      (accounts : List PushAccount) (a : PushAccount)
      → All IsPlaced accounts
      → IsGood a.node
      → All IsPlaced (accounts ++ a ∷ [])
  append-All [] a h p = (p, tt)
  append-All (b ∷ rest) a h p = (h.0, append-All rest a h.1 p)

  set_success-All :
      (i : ℕ) (b : Bool) (accounts : List PushAccount)
      → All IsPlaced accounts
      → All IsPlaced (set_success i b accounts)
  set_success-All i b [] h = tt
  set_success-All zero b (a ∷ rest) h = h
  set_success-All (suc i) b (a ∷ rest) h = (h.0, set_success-All i b rest h.1)

  pub marked-All :
      (nodes : List (String × ℕ)) (accounts : List PushAccount)
      → All IsPlaced accounts
      → All IsPlaced (marked nodes accounts)
  marked-All [] accounts h = h
  marked-All ((x, i) ∷ rest) accounts h =
      marked-All rest (set_success i true accounts) (set_success-All i true accounts h)

push_accounts-with_account :
    (a : PushAccount) (n : Nodes) → (with_account a n).push_accounts ≡ n.push_accounts ++ a ∷ []
push_accounts-with_account a n = ground arith

-- a server whose database is that of `w`
abbrev pub at_w : (lib : RedisLib) → WnsClient lib → PushServer lib → PushServer lib
at_w lib w s = record s { wns = w }

module _ (json : JsonLib) (lib : RedisLib) (ndebug : Bool) (env : Environment)
    (is_key : String → Bool) (laws : RedisLaws lib)
    (hashed : (s : String) → is_key (env.hash_sha256 s) ≡ true)
    (tokens : (bound i : ℕ) → 0 < bound → env.token_draw bound i < bound)
    (passwords : (bound i : ℕ) → 0 < bound → env.password_draw bound i < bound)
    (IsGood : String → Type 0) (good_list : (v : String) → IsGood v → is_key v ≡ false)
    (plain : (first : ℕ) (t : String)
      → url_safe_random_token env.token_draw ndebug first 15 ≡ ok t
      → IsGood t)
    (w : WnsClient lib) (typed : IsTyped lib is_key w.db)
    (refers : (k v : String) → lib.look w.db k ≡ some (text v) → IsGood v) where
  create_account_lem :
      (account_id : String) (s : PushServer lib)
      → (a : PushAccount) × (s' : PushServer lib) × (create_account json lib ndebug env account_id
            (at_w lib w s)
          ≡ done (a, at_w lib w s'))
        × IsGood a.node
  unfolding create_account
  create_account_lem account_id s =
      let (t, e, _, _) =
        url_safe_random_token_lem env.token_draw tokens ndebug s.tokens 15 (omega arith) in
      let (p, f, _, _, _) =
        secure_random_password_lem env.password_draw passwords ndebug (s.passwords + 0) 15
          (omega arith) in
      (
        record { account_id = account_id; node = t; secret = p; success = false },
        record s { tokens = s.tokens + 15 + 0; passwords = s.passwords + 0 + 15 },
        rw (e, f),
        plain s.tokens t e,
      )

  -- The accounts are collected from a database that stays as it is.
  pub collect_returns :
      (device_id : String) (ids : List String) (n : Nodes) (s : PushServer lib)
      → All (IsPlaced IsGood) n.push_accounts
      → (n' : Nodes) × (s' : PushServer lib) × (collect json lib ndebug env device_id ids n
            (at_w lib w s)
          ≡ done (n', at_w lib w s'))
        × All (IsPlaced IsGood) n'.push_accounts
  unfolding collect
  collect_returns device_id [] n s h = (n, s, refl, h)
  collect_returns device_id (account_id ∷ rest) n s h =
      let (a, s1, e, p) = create_account_lem account_id s in
      let (l, f, q) =
        load_push_account_lem lib is_key laws w.db typed env.hash_sha256 hashed IsGood good_list
          refers device_id a p in
      let (n', s', g, r) = collect_returns device_id rest (with_account l n) s1 (
        subst (λ accounts. All (IsPlaced IsGood) accounts) (sym (push_accounts-with_account l n))
          (append-All IsGood n.push_accounts l h q)) in
      (n', s', rw (e, f) g, r)
