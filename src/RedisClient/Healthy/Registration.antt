-- ===== src/RedisClient/Healthy/Registration.antt =====
-- set_push_accounts, in a database that the handlers of the push server can work on.
use mathlib.Core.List.{append-nil}
use mathlib.Core.Path.{subst}
use uwpx_push_server.Common.{
  ◌≡◌, true, String, List, [], ◌∷◌, drop, All, ◌==◌, arith, Bool-cases, inl, inr, eq_iff,
}
use uwpx_push_server.Common.Action.{Ends}
use uwpx_push_server.Redis.{RedisLib, RedisLaws}
use uwpx_push_server.RedisClient.{account_keys, set_push_accounts}
use uwpx_push_server.RedisClient.Typed.{held, has_node}
use uwpx_push_server.RedisClient.Accounts.{
  set_push_accounts_lem, set_push_accounts-Texts, Registered, Texts,
}
use uwpx_push_server.RedisClient.Registry.{Kind, account_key, node, device, is_key, IsPlaced}
use uwpx_push_server.RedisClient.Registry.Refines.{
  placed-IsNode, device-not-key, hashed_key, added-device, account_keys-IsKey,
}
use uwpx_push_server.Messages.SuccessSetPushAccounts.Account.{PushAccount}
use uwpx_push_server.RedisClient.Healthy.{Healthy}
use uwpx_push_server.RedisClient.Storing.{IsKey}

module _ (lib : RedisLib) (kind : String → Kind) where
  node_of_account :
      (accounts : List PushAccount) (v : String)
      → All (IsPlaced lib kind) accounts
      → has_node v accounts ≡ true
      → kind v ≡ node
  node_of_account [] v all h = absurd (ground arith)
  node_of_account (a ∷ rest) v all h = elim (Bool-cases (a.node == v)) [
    | inl e ↦ subst (λ (x : String). kind x ≡ node) ((eq_iff a.node v).0 e) all.0
    | inr e ↦ node_of_account rest v all.1 (ground arith)
  ]

module _ (lib : RedisLib) (kind : String → Kind) (hash_sha256 : String → String)
    (laws : RedisLaws lib) (hashed : (s : String) → kind (hash_sha256 s) ≡ account_key) (d : lib.Db)
    (h : Healthy lib kind d) (device_id : String) (is_device : kind device_id ≡ device) where
  module _ (uri version : String) (accounts : List PushAccount)
      (placed : All (IsPlaced lib kind) accounts) (d' : lib.Db)
      (u : Registered lib
        (is_key lib kind)
        device_id
        uri
        version
        (account_keys lib hash_sha256 device_id accounts)
        accounts
        d
        d')
      (t : Texts lib (is_key lib kind) hash_sha256 device_id accounts d d') where
    registered_accounts :
        (k : String)
        → kind k ≡ device
        → All (IsKey lib (is_key lib kind)) (drop 2 (held (lib.look d' k)))
    registered_accounts k p = elim (Bool-cases (device_id == k)) [
      | inl e ↦
          subst (λ (x : String). All (IsKey lib (is_key lib kind)) (drop 2 (held (lib.look d' x))))
            ((eq_iff device_id k).0 e)
            (rw u.device (account_keys-IsKey lib kind laws hash_sha256 hashed device_id accounts))
      | inr e ↦
          rw
            (
              u.nodes k (device-not-key lib kind k p) e,
              added-device lib kind device_id k accounts p placed,
              append-nil (held (lib.look d k)),
            )
            (h.accounts k p)
    ]

    registered-Healthy : Healthy lib kind d'
    registered-Healthy = record {
      typed = u.typed;
      refers = λ k v e. elim (t.texts k v e) [
        | inl old ↦ h.refers k v old
        | inr new ↦ node_of_account lib kind accounts v placed new
      ];
      accounts = registered_accounts;
    }

  -- set_push_accounts returns, for a device and accounts at nodes, and keeps the database healthy.
  pub set_push_accounts-Healthy :
      (uri version : String) (accounts : List PushAccount)
      → All (IsPlaced lib kind) accounts
      → Ends
          (set_push_accounts lib hash_sha256 device_id uri version accounts)
          d
          (λ _. Healthy lib kind)
  set_push_accounts-Healthy uri version accounts placed =
      let device_list = device-not-key lib kind device_id is_device in
      let keys = h.accounts device_id is_device in
      let nodes = placed-IsNode lib kind accounts placed in
      let keyed = hashed_key lib kind laws hash_sha256 hashed in
      let e =
        set_push_accounts_lem lib (is_key lib kind) laws hash_sha256 keyed device_id uri version
          accounts d h.typed device_list keys nodes in
      let t =
        set_push_accounts-Texts lib (is_key lib kind) laws hash_sha256 keyed device_id uri version
          accounts d h.typed device_list keys nodes in
      record {
        result = e.result;
        state = e.state;
        returns = e.returns;
        holds = registered-Healthy uri version accounts placed e.state e.holds t;
      }
