-- ===== src/RedisClient/Accounts.antt =====
-- set_push_accounts, from a database in which account keys hold strings and other keys hold lists.
use uwpx_push_server.Common.{
  ◌⊎◌, inl, inr, eq_refl, ◌≡◌, refl, ◌∙◌, Bool, true, false, String, some, List, [], ◌∷◌, ◌++◌,
  if◌then◌else◌, ◌==◌, arith, drop, eq_iff, All,
}
use uwpx_push_server.Common.Action.{for_each, Ends}
use uwpx_push_server.Redis.{text, items, Pushed, RedisLib, RedisLaws}
use uwpx_push_server.RedisClient.{
  gen_account, set_push_accounts, default_entry_timeout, account_keys, store_account,
}
use uwpx_push_server.RedisClient.Removal.{remove_old_lem, has_key, without_old, look-without_old}
use uwpx_push_server.RedisClient.Typed.{
  has_node, holds_items, holds_text, IsTyped, Stored, held, added, items_of-held,
}
use uwpx_push_server.Messages.SuccessSetPushAccounts.Account.{PushAccount}
use uwpx_push_server.RedisClient.Storing.{All-map, hashed_key, IsNode, IsKey, store_all}

module _ (lib : RedisLib) (is_key : String → Bool) where
  -- What the whole of set_push_accounts leaves.
  pub record Registered (device_id channel_uri version : String) (keys : List String)
      (accounts : List PushAccount) (d d' : lib.Db) : Type 0 where
    pub typed : IsTyped lib is_key d'
    pub device : held (lib.look d' device_id) ≡ channel_uri ∷ version ∷ keys
    pub nodes :
        (n : String)
        → is_key n ≡ false
        → (device_id == n) ≡ false
        → held (lib.look d' n) ≡ held (lib.look d n) ++ added device_id n accounts

  pub record Texts (hash_sha256 : String → String) (device_id : String)
      (accounts : List PushAccount) (d d' : lib.Db) : Type 0 where
    pub texts :
        (j v : String)
        → lib.look d' j ≡ some (text v)
        → (lib.look d j ≡ some (text v)) ⊎ (has_node v accounts ≡ true)
    pub keeps :
        (k : String)
        → is_key k ≡ true
        → has_key (drop 2 (held (lib.look d device_id))) k ≡ false
        → holds_text (lib.look d k) ≡ true
        → holds_text (lib.look d' k) ≡ true
    pub keyed :
        All
          (λ a. holds_text (lib.look d' (gen_account hash_sha256 device_id a.account_id)) ≡ true)
          accounts
    pub timed :
        All
          (λ a.
            lib.ttl d' (gen_account hash_sha256 device_id a.account_id)
            ≡ some default_entry_timeout)
          accounts
    pub lifetime : lib.ttl d' device_id ≡ some default_entry_timeout

  module _ (laws : RedisLaws lib) (hash_sha256 : String → String)
      (hashed : (s : String) → is_key (hash_sha256 s) ≡ true) where
    open laws use {ttl_expire, ttl_del, lrange_look, look_del, look_expire, rpush_items}

    has_key-of_keys :
        (ks : List String) (n : String)
        → All (IsKey lib is_key) ks
        → is_key n ≡ false
        → has_key ks n ≡ false
    has_key-of_keys [] n h p = refl
    has_key-of_keys (k ∷ ks) n h p = ground (arith, eq_iff k n, has_key-of_keys ks n h.1 p)

    module _ (device_id channel_uri version : String) (accounts : List PushAccount) (d : lib.Db)
        (typed : IsTyped lib is_key d) (device_list : is_key device_id ≡ false)
        (registered : All (IsKey lib is_key) (drop 2 (held (lib.look d device_id)))) where
      abbrev old : List String
      old = held (lib.look d device_id)

      old_read : lib.lrange d device_id ≡ some old
      old_read =
          lrange_look d device_id
          ∙ items_of-held (lib.look d device_id) (typed.lists device_id device_list)

      -- the database once the old accounts are removed
      look_cleared_by :
          (keys : List String) (n : String)
          → held (lib.look d device_id) ≡ keys
          → All (IsKey lib is_key) (drop 2 keys)
          → is_key n ≡ false
          → held (lib.look (without_old lib d device_id keys) n)
            ≡ (if device_id == n then [] else held (lib.look d n))
      look_cleared_by [] n e ks h = ground (arith, eq_iff device_id n)
      look_cleared_by (uri ∷ rest) n e ks h = ground (
        arith,
        look-without_old lib laws device_id uri rest d n,
        has_key-of_keys (drop 1 rest) n ks h,
      )

      cleared_lists_by :
          (keys : List String) (n : String)
          → is_key n ≡ false
          → holds_text (lib.look (without_old lib d device_id keys) n) ≡ false
      cleared_lists_by [] n h = typed.lists n h
      cleared_lists_by (uri ∷ rest) n h =
          ground (arith, look-without_old lib laws device_id uri rest d n, typed.lists n h)

      cleared_strings_by :
          (keys : List String) (k : String)
          → is_key k ≡ true
          → holds_items (lib.look (without_old lib d device_id keys) k) ≡ false
      cleared_strings_by [] k h = typed.strings k h
      cleared_strings_by (uri ∷ rest) k h =
          ground (arith, look-without_old lib laws device_id uri rest d k, typed.strings k h)

      abbrev cleared : lib.Db
      cleared = without_old lib d device_id old

      cleared-IsTyped : IsTyped lib is_key cleared
      cleared-IsTyped = record { lists = cleared_lists_by old; strings = cleared_strings_by old }

      module _ (placed : All (IsNode lib is_key) accounts) where
        abbrev keys : List String
        keys = account_keys lib hash_sha256 device_id accounts

        all_stored :
            Ends
              (for_each (store_account lib hash_sha256 device_id) accounts)
              cleared
              (λ _. Stored lib is_key hash_sha256 device_id accounts cleared)
        all_stored =
            store_all lib is_key laws hash_sha256 hashed device_id accounts cleared placed
              cleared-IsTyped

        abbrev emptied : lib.Db
        emptied = lib.del all_stored.state device_id

        pushed : Pushed lib emptied device_id (channel_uri ∷ version ∷ keys) []
        pushed =
            rpush_items emptied device_id (channel_uri ∷ version ∷ keys) []
              (rw (look_del all_stored.state device_id device_id, eq_refl device_id))

        abbrev final : lib.Db
        final = lib.expire pushed.db device_id default_entry_timeout

        look_final :
            (j : String)
            → lib.look final j ≡ (
                if device_id == j
                then some (items (channel_uri ∷ version ∷ keys))
                else lib.look all_stored.state j)
        look_final j = ground (
          arith,
          look_expire pushed.db device_id j default_entry_timeout (omega arith),
          pushed.look_pushed j,
          look_del all_stored.state device_id j,
        )

        final_nodes :
            (n : String)
            → is_key n ≡ false
            → (device_id == n) ≡ false
            → held (lib.look final n) ≡ held (lib.look d n) ++ added device_id n accounts
        final_nodes n h ne = ground (
          arith,
          look_final n,
          all_stored.holds.extended n h,
          look_cleared_by old n refl registered h,
        )

        -- From a database in which account keys hold strings and other keys lists, for a device
        -- whose id is no account key and whose list, if any, names account keys, and for accounts
        -- whose nodes are none: set_push_accounts returns and keeps that division of the keys, it
        -- leaves the device's list with the channel, the version and the account keys, and it
        -- appends the accounts to the lists at their nodes, of which it removes nothing.
        pub set_push_accounts_lem :
            Ends
              (set_push_accounts lib hash_sha256 device_id channel_uri version accounts)
              d
              (λ _. Registered device_id channel_uri version keys accounts d)
        unfolding set_push_accounts
        set_push_accounts_lem = record {
          result = tt;
          state = final;
          returns = rw (
            old_read,
            remove_old_lem lib laws device_id old d,
            all_stored.returns,
            pushed.accepted,
          );
          holds = record {
            typed = record {
              lists = λ n h. ground (arith, look_final n, all_stored.holds.typed.lists n h);
              strings = λ k h.
                  ground
                    (arith, look_final k, all_stored.holds.typed.strings k h, eq_iff device_id k);
            };
            device = rw (look_final device_id, eq_refl device_id);
            nodes = final_nodes;
          };
        }

        cleared_texts_by :
            (ks : List String) (j v : String)
            → lib.look (without_old lib d device_id ks) j ≡ some (text v)
            → lib.look d j ≡ some (text v)
        cleared_texts_by [] j v h = h
        cleared_texts_by (uri ∷ rest) j v h =
            ground (arith, look-without_old lib laws device_id uri rest d j)

        cleared_keeps_by :
            (ks : List String) (k : String)
            → is_key k ≡ true
            → has_key (drop 2 ks) k ≡ false
            → holds_text (lib.look d k) ≡ true
            → holds_text (lib.look (without_old lib d device_id ks) k) ≡ true
        cleared_keeps_by [] k p n h = h
        cleared_keeps_by (uri ∷ rest) k p n h =
            ground (arith, look-without_old lib laws device_id uri rest d k, eq_iff device_id k)

        final_text :
            (j v : String)
            → lib.look final j ≡ some (text v)
            → lib.look all_stored.state j ≡ some (text v)
        final_text j v h = ground (arith, look_final j)

        final_keeps :
            (k : String)
            → is_key k ≡ true
            → holds_text (lib.look all_stored.state k) ≡ true
            → holds_text (lib.look final k) ≡ true
        final_keeps k p h = ground (arith, look_final k, eq_iff device_id k)

        final_timed :
            (k : String)
            → is_key k ≡ true
            → lib.ttl all_stored.state k ≡ some default_entry_timeout
            → lib.ttl final k ≡ some default_entry_timeout
        final_timed k p h =
            let other : (device_id == k) ≡ false = ground (arith, eq_iff device_id k) in
            rw
              (
                ttl_expire pushed.db device_id k default_entry_timeout (omega arith),
                pushed.ttl_pushed k,
                ttl_del all_stored.state device_id k,
                other,
              )
              h

        final_lifetime : lib.ttl final device_id ≡ some default_entry_timeout
        final_lifetime = rw (
          ttl_expire pushed.db device_id device_id default_entry_timeout (omega arith),
          eq_refl device_id,
          pushed.look_pushed device_id,
          eq_refl device_id,
        )

        -- What set_push_accounts leaves at the keys that hold strings: each such string was there,
        -- or is the node of an account; a string that is no old account of the device is there
        -- still, at an account key; the key of each account holds one, for the whole timeout, as
        -- the device's list lives.
        pub set_push_accounts-Texts :
            Texts hash_sha256 device_id accounts d set_push_accounts_lem.state
        unfolding set_push_accounts_lem
        set_push_accounts-Texts = record {
          texts = λ j v h. elim (all_stored.holds.texts j v (final_text j v h)) [
            | inl e ↦ inl (cleared_texts_by old j v e)
            | inr e ↦ inr e
          ];
          keeps = λ k p n h.
              final_keeps k p (all_stored.holds.keeps k p (cleared_keeps_by old k p n h));
          keyed =
              All-map
                (λ a.
                  holds_text
                    (lib.look all_stored.state (gen_account hash_sha256 device_id a.account_id))
                  ≡ true)
                (λ a.
                  holds_text (lib.look final (gen_account hash_sha256 device_id a.account_id))
                  ≡ true)
                accounts (λ a. final_keeps _ (hashed_key lib is_key hash_sha256 hashed device_id a))
                all_stored.holds.keyed;
          timed =
              All-map
                (λ a.
                  lib.ttl all_stored.state (gen_account hash_sha256 device_id a.account_id)
                  ≡ some default_entry_timeout)
                (λ a.
                  lib.ttl final (gen_account hash_sha256 device_id a.account_id)
                  ≡ some default_entry_timeout)
                accounts (λ a. final_timed _ (hashed_key lib is_key hash_sha256 hashed device_id a))
                all_stored.holds.timed;
          lifetime = final_lifetime;
        }
