-- ===== src/RedisClient/Expiry/Kept.antt =====
-- storage/redis/RedisClient.cpp: what a device that registers again in time finds of its accounts.
use uwpx_push_server.Common.{
  [], ◌≡◌, refl, ◌∙◌, ap, ℕ, ◌+◌, ◌-◌, ◌<◌, Bool, true, false, String, Option, none, some, List,
  ◌∷◌, ◌==◌, All, drop, arith, eq_iff,
}
use uwpx_push_server.Common.Action.{Ends, done, ◌>>=◌}
use uwpx_push_server.Redis.{items, text, RedisLib, RedisLaws, Clock, Entry}
use uwpx_push_server.RedisClient.{
  default_entry_timeout, gen_account, account_keys, set_push_accounts, set_channel_uri,
  get_push_nodes, nodes_of,
}
use uwpx_push_server.RedisClient.Typed.{items_of-held, IsTyped, held, holds_text}
use uwpx_push_server.RedisClient.Storing.{IsKey, IsNode, hashed_key}
use uwpx_push_server.RedisClient.Accounts.{set_push_accounts_lem, set_push_accounts-Texts}
use uwpx_push_server.RedisClient.Channel.{Updated, set_channel_uri_lem}
use uwpx_push_server.RedisClient.Loading.{HoldsNode}
use uwpx_push_server.Messages.SuccessSetPushAccounts.Account.{PushAccount}
use uwpx_push_server.RedisClient.Expiry.{waited, outlived, left_over, wait-IsTyped}

text_held : (e : Option Entry) → holds_text e ≡ true → (v : String) × (e ≡ some (text v))
text_held none h = absurd (ground arith)
text_held (some (text v)) h = (v, refl)
text_held (some (items xs)) h = absurd (ground arith)

module _ (lib : RedisLib) (laws : RedisLaws lib) (d e : lib.Db) where
  -- At the key there is the same node in both databases.
  abbrev HoldsSame : String → Type 0
  HoldsSame k = HoldsNode lib d k × (lib.look e k ≡ lib.look d k)

  -- the same nodes are found
  same_nodes :
      (keys : List String)
      → All HoldsSame keys
      → (nodes : List String) × (nodes_of lib keys d ≡ done (nodes, d))
        × (nodes_of lib keys e ≡ done (nodes, e))
  unfolding nodes_of
  same_nodes [] h = ([], refl, refl)
  same_nodes (k ∷ keys) (((v, p), q), h) =
      let (nodes, x, y) = same_nodes keys h in
      (v ∷ nodes, rw (laws.get_look d k, p, x) refl, rw (laws.get_look e k, q ∙ p, y) refl)

module _ (lib : RedisLib) (is_key : String → Bool) (laws : RedisLaws lib) (d : lib.Db)
    (typed : IsTyped lib is_key d) (device_id : String)
    (device_list : is_key device_id ≡ false) where
  get_push_nodes_at :
      (keys nodes : List String)
      → drop 2 (held (lib.look d device_id)) ≡ keys
      → nodes_of lib keys d ≡ done (nodes, d)
      → get_push_nodes lib device_id d ≡ done (nodes, d)
  unfolding get_push_nodes
  get_push_nodes_at keys nodes k h =
      rw
        (
          laws.lrange_look d device_id,
          items_of-held (lib.look d device_id) (typed.lists device_id device_list),
          k,
          h,
        )
        refl

module _ (lib : RedisLib) (is_key : String → Bool) (laws : RedisLaws lib) (clock : Clock lib)
    (hash_sha256 : String → String) (hashed : (s : String) → is_key (hash_sha256 s) ≡ true)
    (device_id uri version new_uri : String) (a : PushAccount) (rest : List PushAccount)
    (d : lib.Db) (typed : IsTyped lib is_key d) (device_list : is_key device_id ≡ false)
    (registered : All (IsKey lib is_key) (drop 2 (held (lib.look d device_id))))
    (placed : All (IsNode lib is_key) (a ∷ rest)) where
  abbrev d1 : lib.Db
  d1 =
      (set_push_accounts_lem lib is_key laws hash_sha256 hashed device_id uri version (a ∷ rest) d
        typed device_list registered placed).state

  module _ (t u : ℕ) (in_time : t + u < default_entry_timeout) where
    d2-IsTyped : IsTyped lib is_key (clock.wait d1 t)
    d2-IsTyped =
        wait-IsTyped lib is_key clock d1 t
          (set_push_accounts_lem lib is_key laws hash_sha256 hashed device_id uri version (a ∷ rest)
            d typed device_list registered placed).holds.typed

    renewed :
        Ends
          (set_channel_uri lib device_id new_uri)
          (clock.wait d1 t)
          (λ _ d3. Updated lib is_key device_id new_uri (clock.wait d1 t) d3)
    renewed =
        set_channel_uri_lem lib is_key laws (clock.wait d1 t) d2-IsTyped device_id device_list
          new_uri

    abbrev d4 : lib.Db
    d4 = clock.wait renewed.state u

    outlasts :
        (k : String)
        → is_key k ≡ true
        → lib.ttl d1 k ≡ some default_entry_timeout
        → lib.look d4 k ≡ lib.look d1 k
    outlasts k p l =
        let other : (device_id == k) ≡ false = ground (arith, eq_iff device_id k) in
        let left =
          renewed.holds.other_lifetimes k other
          ∙ left_over lib is_key clock d1 t default_entry_timeout k l (omega arith) in
        outlived lib is_key clock renewed.state u (default_entry_timeout - t) k left (omega arith)
        ∙ renewed.holds.others k other
        ∙ outlived lib is_key clock d1 t default_entry_timeout k l (omega arith)

    abbrev keys : List String
    keys = account_keys lib hash_sha256 device_id (a ∷ rest)

    keys_kept :
        (accounts : List PushAccount)
        → All
            (λ b. holds_text (lib.look d1 (gen_account hash_sha256 device_id b.account_id)) ≡ true)
            accounts
        → All
            (λ b.
              lib.ttl d1 (gen_account hash_sha256 device_id b.account_id)
              ≡ some default_entry_timeout)
            accounts
        → All (HoldsSame lib laws d1 d4) (account_keys lib hash_sha256 device_id accounts)
    keys_kept [] h l = tt
    keys_kept (b ∷ accounts) h l = (
      (text_held _ h.0, outlasts _ (hashed_key lib is_key hash_sha256 hashed device_id b) l.0),
      keys_kept accounts h.1 l.1,
    )

    -- A device registers one account or more, renews its channel, and gives accounts again, all
    -- within the timeout of the database: get_push_nodes then answers the nodes that it would have
    -- answered right after the registration. From a database in which account keys hold strings and
    -- other keys lists, for a device whose id is no account key and whose list, if any, names
    -- account keys, and for accounts whose nodes are none.
    pub get_push_nodes_kept :
        (nodes : List String) × (final : lib.Db) × (after : lib.Db) × ((set_push_accounts lib
                hash_sha256 device_id uri version
                (a ∷ rest)
              >>= λ _. get_push_nodes lib device_id)
            d
          ≡ done (nodes, after))
        × ((set_push_accounts lib hash_sha256 device_id uri version (a ∷ rest) >>= λ _.
                waited lib clock t >>= λ _. set_channel_uri lib device_id new_uri >>= λ _.
                waited lib clock u >>= λ _. get_push_nodes lib device_id)
              d
            ≡ done (nodes, final))
    get_push_nodes_kept =
        let e =
          set_push_accounts_lem lib is_key laws hash_sha256 hashed device_id uri version (a ∷ rest)
            d typed device_list registered placed in
        let texts =
          set_push_accounts-Texts lib is_key laws hash_sha256 hashed device_id uri version
            (a ∷ rest) d typed device_list registered placed in
        let (nodes, x, y) =
          same_nodes lib laws d1 d4 keys (keys_kept (a ∷ rest) texts.keyed texts.timed) in
        let list1 : drop 2 (held (lib.look d1 device_id)) ≡ keys = ap (drop 2) e.holds.device in
        let same4 : lib.look d4 device_id ≡ lib.look renewed.state device_id =
          outlived lib is_key clock renewed.state u default_entry_timeout device_id
            renewed.holds.lifetime (omega arith) in
        let same2 : lib.look (clock.wait d1 t) device_id ≡ lib.look d1 device_id =
          outlived lib is_key clock d1 t default_entry_timeout device_id texts.lifetime
            (omega arith) in
        let list4 : drop 2 (held (lib.look d4 device_id)) ≡ keys =
          ap (λ x. drop 2 (held x)) same4
          ∙ ap (drop 2) renewed.holds.device
          ∙ ap (λ x. drop 2 (new_uri ∷ drop 1 (held x))) same2
          ∙ ap (λ (xs : List String). drop 2 (new_uri ∷ drop 1 xs)) e.holds.device in
        let typed4 = wait-IsTyped lib is_key clock renewed.state u renewed.holds.typed in
        (
          nodes,
          d4,
          d1,
          rw
              (
                e.returns,
                get_push_nodes_at lib is_key laws d1 e.holds.typed device_id device_list keys nodes
                    list1 x,
              )
              refl,
          rw
              (
                e.returns,
                renewed.returns,
                get_push_nodes_at lib is_key laws d4 typed4 device_id device_list keys nodes list4
                    y,
              )
              refl,
        )
