-- ===== src/RedisClient/Typed.antt =====
-- Which keys of the database hold strings and which hold lists, and how set_push_accounts stores an
-- account.
pub mod Collision
use mathlib.Core.List.{append-nil}
use uwpx_push_server.Common.{
  ◌≡◌, refl, ◌∙◌, sym, ap, Bool, true, false, String, Option, none, some, List, [], ◌∷◌, ◌++◌,
  if◌then◌else◌, ◌==◌, arith, eq_iff, eq_refl, ◌⊎◌, inl, inr, All, ◌||◌,
}
use uwpx_push_server.Common.Action.{Ends}
use uwpx_push_server.Redis.{RedisLib, RedisLaws, Entry, text, items, items_of, Pushed}
use uwpx_push_server.RedisClient.{default_entry_timeout, gen_account, store_account}
use uwpx_push_server.Messages.SuccessSetPushAccounts.Account.{PushAccount}

abbrev pub holds_text : Option Entry → Bool
holds_text (some (text s)) = true
holds_text _ = false

abbrev pub holds_items : Option Entry → Bool
holds_items (some (items xs)) = true
holds_items _ = false

-- The list at a key, empty if there is none.
abbrev pub held : Option Entry → List String
held (some (items xs)) = xs
held _ = []

pub items_of-held : (e : Option Entry) → holds_text e ≡ false → items_of e ≡ some (held e)
items_of-held none h = refl
items_of-held (some (text s)) h = ground arith
items_of-held (some (items xs)) h = refl

-- What storing the accounts adds to the list at the node `n`.
abbrev pub added : String → String → List PushAccount → List String
added device_id n [] = []
added device_id n (a ∷ rest) =
    let later = added device_id n rest in
    if a.node == n then a.account_id ∷ device_id ∷ a.secret ∷ later else later

-- Whether one of the accounts is at the node `v`.
abbrev pub has_node : String → List PushAccount → Bool
has_node v [] = false
has_node v (a ∷ rest) = a.node == v || has_node v rest

-- what holds a text once an account is stored
texts_by :
    (b c : Bool) (xs : List String) (a : PushAccount) (e : Option Entry) (v : String)
    → (if b then some (items xs) else (if c then some (text a.node) else e)) ≡ some (text v)
    → (e ≡ some (text v)) ⊎ (has_node v (a ∷ []) ≡ true)
texts_by true c xs a e v h = absurd (ground arith)
texts_by false true xs a e v h =
    let same : a.node ≡ v = ground arith in inr (rw (same, eq_refl v) refl)
texts_by false false xs a e v h = inl h

module _ (lib : RedisLib) (is_key : String → Bool) where
  -- Account keys hold strings, all other keys hold lists.
  pub record IsTyped (d : lib.Db) : Type 0 where
    pub lists : (n : String) → is_key n ≡ false → holds_text (lib.look d n) ≡ false
    pub strings : (k : String) → is_key k ≡ true → holds_items (lib.look d k) ≡ false

  pub record Stored (hash_sha256 : String → String) (device_id : String)
      (accounts : List PushAccount) (d d' : lib.Db) : Type 0 where
    pub typed : IsTyped d'
    pub extended :
        (n : String)
        → is_key n ≡ false
        → held (lib.look d' n) ≡ held (lib.look d n) ++ added device_id n accounts
    pub texts :
        (j v : String)
        → lib.look d' j ≡ some (text v)
        → (lib.look d j ≡ some (text v)) ⊎ (has_node v accounts ≡ true)
    pub keeps :
        (k : String)
        → is_key k ≡ true
        → holds_text (lib.look d k) ≡ true
        → holds_text (lib.look d' k) ≡ true
    pub keyed :
        All
          (λ a. holds_text (lib.look d' (gen_account hash_sha256 device_id a.account_id)) ≡ true)
          accounts
    pub lifetimes :
        (k : String)
        → is_key k ≡ true
        → lib.ttl d k ≡ some default_entry_timeout
        → lib.ttl d' k ≡ some default_entry_timeout
    pub timed :
        All
          (λ a.
            lib.ttl d' (gen_account hash_sha256 device_id a.account_id)
            ≡ some default_entry_timeout)
          accounts

  module _ (laws : RedisLaws lib) (hash_sha256 : String → String)
      (hashed : (s : String) → is_key (hash_sha256 s) ≡ true) where
    open laws use {look_set, look_expire, rpush_items, ttl_set, ttl_expire}

    key_is_key :
        (device_id account_id : String)
        → is_key (gen_account hash_sha256 device_id account_id) ≡ true
    unfolding gen_account
    key_is_key device_id account_id = hashed _

    ne_of_is_key : (k n : String) → is_key k ≡ true → is_key n ≡ false → (k == n) ≡ false
    ne_of_is_key k n p q = ground (arith, eq_iff k n)

    module _ (device_id : String) (a : PushAccount) (d : lib.Db) where
      abbrev key : String
      key = gen_account hash_sha256 device_id a.account_id

      abbrev triple : List String
      triple = a.account_id ∷ device_id ∷ a.secret ∷ []

      -- the database once the account's key is set
      abbrev keyed : lib.Db
      keyed = lib.expire (lib.set d key a.node) key default_entry_timeout

      look_keyed :
          (j : String) → lib.look keyed j ≡ (if key == j then some (text a.node) else lib.look d j)
      look_keyed j =
          look_expire (lib.set d key a.node) key j default_entry_timeout (omega arith)
          ∙ look_set d key j a.node

      module _ (node_list : is_key a.node ≡ false) (typed : IsTyped d) where
        key-ne-node : (key == a.node) ≡ false
        key-ne-node = ne_of_is_key key a.node (key_is_key device_id a.account_id) node_list

        ne_of_node_key : (a.node == key) ≡ false
        ne_of_node_key = ground (arith, eq_iff a.node key, key_is_key device_id a.account_id)

        node_listed : items_of (lib.look keyed a.node) ≡ some (held (lib.look d a.node))
        node_listed =
            rw (look_keyed a.node, key-ne-node)
              (items_of-held (lib.look d a.node) (typed.lists a.node node_list))

        pushed : Pushed lib keyed a.node triple (held (lib.look d a.node))
        pushed = rpush_items keyed a.node triple (held (lib.look d a.node)) node_listed

        -- the database once the account is stored
        abbrev stored : lib.Db
        stored = lib.expire pushed.db a.node default_entry_timeout

        look_stored :
            (j : String)
            → lib.look stored j ≡ (
                if a.node == j
                then some (items (held (lib.look d a.node) ++ triple))
                else (if key == j then some (text a.node) else lib.look d j))
        look_stored j =
            look_expire pushed.db a.node j default_entry_timeout (omega arith)
            ∙ pushed.look_pushed j
            ∙ ap
                (λ (e : Option Entry).
                  if a.node == j then some (items (held (lib.look d a.node) ++ triple)) else e)
                (look_keyed j)

        stored_lists : (n : String) → is_key n ≡ false → holds_text (lib.look stored n) ≡ false
        stored_lists n h = ground (
          arith,
          look_stored n,
          typed.lists n h,
          ne_of_is_key key n (key_is_key device_id a.account_id) h,
        )

        stored_strings : (k : String) → is_key k ≡ true → holds_items (lib.look stored k) ≡ false
        stored_strings k h = ground (arith, look_stored k, typed.strings k h, eq_iff a.node k)

        stored_extended :
            (n : String)
            → is_key n ≡ false
            → held (lib.look stored n) ≡ held (lib.look d n) ++ added device_id n (a ∷ [])
        stored_extended n h = ground (
          arith,
          look_stored n,
          eq_iff a.node n,
          append-nil (held (lib.look d n)),
          ne_of_is_key key n (key_is_key device_id a.account_id) h,
        )

        stored_texts :
            (j v : String)
            → lib.look stored j ≡ some (text v)
            → (lib.look d j ≡ some (text v)) ⊎ (has_node v (a ∷ []) ≡ true)
        stored_texts j v h =
            texts_by (a.node == j) (key == j) (held (lib.look d a.node) ++ triple) a (lib.look d j)
              v (sym (look_stored j) ∙ h)

        stored_keeps :
            (k : String)
            → is_key k ≡ true
            → holds_text (lib.look d k) ≡ true
            → holds_text (lib.look stored k) ≡ true
        stored_keeps k p h = ground (arith, look_stored k, eq_iff a.node k)

        stored_keyed : holds_text (lib.look stored key) ≡ true
        stored_keyed = rw (look_stored key, ne_of_node_key, eq_refl key)

        ttl_keyed :
            (j : String)
            → lib.ttl keyed j ≡ (if key == j then some default_entry_timeout else lib.ttl d j)
        ttl_keyed j = ground (
          arith,
          ttl_expire (lib.set d key a.node) key j default_entry_timeout (omega arith),
          look_set d key key a.node,
          eq_refl key,
          ttl_set d key j a.node,
        )

        ttl_stored :
            (j : String)
            → is_key j ≡ true
            → lib.ttl stored j ≡ (if key == j then some default_entry_timeout else lib.ttl d j)
        ttl_stored j p =
            let other : (a.node == j) ≡ false = ground (arith, eq_iff a.node j) in
            ttl_expire pushed.db a.node j default_entry_timeout (omega arith)
            ∙ rw (other, pushed.ttl_pushed j) (ttl_keyed j)

        stored_lifetimes :
            (k : String)
            → is_key k ≡ true
            → lib.ttl d k ≡ some default_entry_timeout
            → lib.ttl stored k ≡ some default_entry_timeout
        stored_lifetimes k p h = ground (arith, ttl_stored k p)

        stored_timed : lib.ttl stored key ≡ some default_entry_timeout
        stored_timed = rw (ttl_stored key (key_is_key device_id a.account_id), eq_refl key) refl

        pub store_account_lem :
            Ends
              (store_account lib hash_sha256 device_id a)
              d
              (λ _. Stored hash_sha256 device_id (a ∷ []) d)
        unfolding store_account
        store_account_lem = record {
          result = tt;
          state = stored;
          returns = rw pushed.accepted;
          holds = record {
            typed = record { lists = stored_lists; strings = stored_strings };
            extended = stored_extended;
            texts = stored_texts;
            keeps = stored_keeps;
            keyed = (stored_keyed, tt);
            lifetimes = stored_lifetimes;
            timed = (stored_timed, tt);
          };
        }
