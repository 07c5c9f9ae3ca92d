-- ===== src/RedisClient/Registry/Refines.antt =====
-- The client of the database implements the registry.
use mathlib.Core.List.{head?, append-nil}
use mathlib.Core.Path.{subst}
use uwpx_push_server.Common.{
  ◌≡◌, refl, sym, ◌∙◌, ap, true, false, String, some, List, [], ◌∷◌, ◌++◌, drop, All, if◌then◌else◌,
  ◌==◌, arith, Bool-cases, inl, inr, eq_iff,
}
use uwpx_push_server.Redis.{RedisLib, RedisLaws}
use uwpx_push_server.RedisClient.{gen_account, account_keys}
use uwpx_push_server.RedisClient.Typed.{held, added}
use uwpx_push_server.RedisClient.Storing.{IsKey, IsNode}
use uwpx_push_server.RedisClient.Accounts.{Registered}
use uwpx_push_server.RedisClient.Channel.{Updated}
use uwpx_push_server.RedisClient.Registry.{
  Subscription, Registry, renew, register, subscribed, apply, Kind, account_key, node, device, flat,
  is_key, IsDevice, Represents, IsPlaced,
}
use uwpx_push_server.Messages.SuccessSetPushAccounts.Account.{PushAccount}

flat-append : (xs ys : List Subscription) → flat (xs ++ ys) ≡ flat xs ++ flat ys
flat-append [] ys = refl
flat-append (s ∷ xs) ys = rw (flat-append xs ys) refl

added-flat :
    (device_id n : String) (accounts : List PushAccount)
    → added device_id n accounts ≡ flat (subscribed device_id n accounts)
added-flat device_id n [] = refl
added-flat device_id n (a ∷ rest) = ground (arith, added-flat device_id n rest)

pub drop-replaced : (uri : String) (xs : List String) → drop 2 (uri ∷ drop 1 xs) ≡ drop 2 xs
drop-replaced uri [] = refl
drop-replaced uri (x ∷ xs) = refl

All-append {ℓ} :
    {A : Type 0} (P : A → Type ℓ) (xs ys : List A) → All P xs → All P ys → All P (xs ++ ys)
All-append P [] ys h k = k
All-append P (x ∷ xs) ys h k = (h.0, All-append P xs ys h.1 k)

module _ (lib : RedisLib) (kind : String → Kind) where
  ne_of_kind : (k n : String) → kind k ≡ device → kind n ≡ node → (k == n) ≡ false
  ne_of_kind k n p q = elim (Bool-cases (k == n)) [
    | inl e ↦ let same : kind k ≡ kind n = ap kind ((eq_iff k n).0 e) in absurd (ground arith)
    | inr e ↦ e
  ]

  pub device-not-key : (k : String) → kind k ≡ device → is_key lib kind k ≡ false
  device-not-key k h = rw h refl

  pub node-not-key : (n : String) → kind n ≡ node → is_key lib kind n ≡ false
  node-not-key n h = rw h refl

  subscribed-owners :
      (device_id n : String) (accounts : List PushAccount)
      → kind device_id ≡ device
      → All (IsDevice lib kind) (subscribed device_id n accounts)
  subscribed-owners device_id n [] h = tt
  subscribed-owners device_id n (a ∷ rest) h = ground (arith, subscribed-owners device_id n rest h)

  pub added-device :
      (device_id k : String) (accounts : List PushAccount)
      → kind k ≡ device
      → All (IsPlaced lib kind) accounts
      → added device_id k accounts ≡ []
  added-device device_id k [] h all = refl
  added-device device_id k (a ∷ rest) h all =
      let other : (k == a.node) ≡ false = ne_of_kind k a.node h all.0 in
      ground (arith, added-device device_id k rest h all.1, eq_iff a.node k, eq_iff k a.node)

  pub placed-IsNode :
      (accounts : List PushAccount)
      → All (IsPlaced lib kind) accounts
      → All (IsNode lib (is_key lib kind)) accounts
  placed-IsNode [] h = tt
  placed-IsNode (a ∷ rest) h = (node-not-key a.node h.0, placed-IsNode rest h.1)

  module _ (laws : RedisLaws lib) (hash_sha256 : String → String)
      (hashed : (s : String) → kind (hash_sha256 s) ≡ account_key) where
    pub hashed_key : (s : String) → is_key lib kind (hash_sha256 s) ≡ true
    hashed_key s = rw (hashed s) refl

    pub account_keys-IsKey :
        (device_id : String) (accounts : List PushAccount)
        → All (IsKey lib (is_key lib kind)) (account_keys lib hash_sha256 device_id accounts)
    unfolding gen_account
    account_keys-IsKey device_id [] = tt
    account_keys-IsKey device_id (a ∷ rest) = (hashed_key _, account_keys-IsKey device_id rest)

    module _ (d : lib.Db) (r : Registry) (rep : Represents lib kind d r) where
      abbrev IsKeyed : String → Type 0
      IsKeyed = IsKey lib (is_key lib kind)

      renew_channels :
          (device_id uri k : String) (d' : lib.Db)
          → Updated lib (is_key lib kind) device_id uri d d'
          → kind k ≡ device
          → head? (held (lib.look d' k)) ≡ (if device_id == k then some uri else r.channel k)
      renew_channels device_id uri k d' u h = elim (Bool-cases (device_id == k)) [
        | inl e ↦ rw e (
            subst (λ (x : String). head? (held (lib.look d' x)) ≡ some uri)
              ((eq_iff device_id k).0 e) (ap head? u.device))
        | inr e ↦ rw (e, u.others k e) (rep.channels k h)
      ]

      renew_accounts :
          (device_id uri k : String) (d' : lib.Db)
          → Updated lib (is_key lib kind) device_id uri d d'
          → kind k ≡ device
          → All (IsKey lib (is_key lib kind)) (drop 2 (held (lib.look d' k)))
      renew_accounts device_id uri k d' u h = elim (Bool-cases (device_id == k)) [
        | inl e ↦
            let same : device_id ≡ k = (eq_iff device_id k).0 e in
            subst (λ (x : String). All IsKeyed (drop 2 (held (lib.look d' x)))) same
              (rw (u.device, drop-replaced uri (held (lib.look d device_id)))
                (rep.accounts device_id (ap kind same ∙ h)))
        | inr e ↦ rw (u.others k e) (rep.accounts k h)
      ]

      pub renew-Represents :
          (device_id uri : String) (d' : lib.Db)
          → kind device_id ≡ device
          → Updated lib (is_key lib kind) device_id uri d d'
          → Represents lib kind d' (apply (renew device_id uri) r)
      renew-Represents device_id uri d' p u = record {
        typed = u.typed;
        channels = λ k h. renew_channels device_id uri k d' u h;
        accounts = λ k h. renew_accounts device_id uri k d' u h;
        nodes = λ n h. rw (u.others n (ne_of_kind device_id n p h)) (rep.nodes n h);
        owners = rep.owners;
      }

      module _ (device_id uri version : String) (accounts : List PushAccount) (d' : lib.Db)
          (placed : All (IsPlaced lib kind) accounts)
          (u : Registered lib
            (is_key lib kind)
            device_id
            uri
            version
            (account_keys lib hash_sha256 device_id accounts)
            accounts
            d
            d') where
        -- another device
        other_device :
            (k : String)
            → kind k ≡ device
            → (device_id == k) ≡ false
            → held (lib.look d' k) ≡ held (lib.look d k)
        other_device k h e =
            u.nodes k (device-not-key k h) e
            ∙ rw (added-device device_id k accounts h placed) (append-nil _)

        register_channels :
            (k : String)
            → kind k ≡ device
            → head? (held (lib.look d' k)) ≡ (if device_id == k then some uri else r.channel k)
        register_channels k h = elim (Bool-cases (device_id == k)) [
          | inl e ↦ rw e (
              subst (λ (x : String). head? (held (lib.look d' x)) ≡ some uri)
                ((eq_iff device_id k).0 e) (ap head? u.device))
          | inr e ↦ rw (e, other_device k h e) (rep.channels k h)
        ]

        register_accounts :
            (k : String) → kind k ≡ device → All IsKeyed (drop 2 (held (lib.look d' k)))
        register_accounts k h = elim (Bool-cases (device_id == k)) [
          | inl e ↦
              subst (λ (x : String). All IsKeyed (drop 2 (held (lib.look d' x))))
                ((eq_iff device_id k).0 e) (rw u.device (account_keys-IsKey device_id accounts))
          | inr e ↦ rw (other_device k h e) (rep.accounts k h)
        ]

      pub register-Represents :
          (device_id uri version : String) (accounts : List PushAccount) (d' : lib.Db)
          → kind device_id ≡ device
          → All (IsPlaced lib kind) accounts
          → Registered lib
              (is_key lib kind)
              device_id
              uri
              version
              (account_keys lib hash_sha256 device_id accounts)
              accounts
              d
              d'
          → Represents lib kind d' (apply (register device_id uri version accounts) r)
      register-Represents device_id uri version accounts d' p placed u = record {
        typed = u.typed;
        channels = λ k h. register_channels device_id uri version accounts d' placed u k h;
        accounts = λ k h. register_accounts device_id uri version accounts d' placed u k h;
        nodes = λ n h.
            u.nodes n (node-not-key n h) (ne_of_kind device_id n p h)
            ∙ rw (rep.nodes n h, added-flat device_id n accounts)
                (sym (flat-append (r.subscriptions n) (subscribed device_id n accounts)));
        owners = λ n h.
            All-append (IsDevice lib kind) (r.subscriptions n) (subscribed device_id n accounts)
              (rep.owners n h) (subscribed-owners device_id n accounts p);
      }
