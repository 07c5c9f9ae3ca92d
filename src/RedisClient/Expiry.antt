-- ===== src/RedisClient/Expiry.antt =====
-- storage/redis/RedisClient.cpp: what the timeouts of the database do to a device that renews its
-- channel, and does not register its accounts again.
pub mod Kept
use uwpx_push_server.Common.{
  [], ◌≡◌, refl, ◌∙◌, ap, ℕ, ◌+◌, ◌-◌, ◌≤◌, ◌<◌, Bool, true, false, String, Option, none, some,
  List, ◌∷◌, ◌==◌, All, drop, ltb, ok, if◌then◌else◌, arith, eq_iff, assertion_failed,
}
use uwpx_push_server.Common.Action.{Ends, Action, change, done, threw, ◌>>=◌}
use uwpx_push_server.Redis.{items, text, RedisLib, RedisLaws, Clock, Entry}
use uwpx_push_server.RedisClient.{
  default_entry_timeout, gen_account, account_keys, set_push_accounts, set_channel_uri,
  get_push_nodes, nodes_of, get_channel_uri,
}
use uwpx_push_server.RedisClient.Typed.{items_of-held, IsTyped, held, holds_text, holds_items}
use uwpx_push_server.RedisClient.Storing.{IsKey, IsNode, hashed_key}
use uwpx_push_server.RedisClient.Accounts.{set_push_accounts_lem, set_push_accounts-Texts}
use uwpx_push_server.RedisClient.Channel.{Updated, set_channel_uri_lem, get_channel_uri_lem}
use uwpx_push_server.RedisClient.Loading.{HoldsNode, get_push_nodes_fails}
use uwpx_push_server.Messages.SuccessSetPushAccounts.Account.{PushAccount}

kept_list :
    (b : Bool) (e : Option Entry)
    → holds_text e ≡ false
    → holds_text (if b then e else none) ≡ false
kept_list b e h = ground arith

kept_string :
    (b : Bool) (e : Option Entry)
    → holds_items e ≡ false
    → holds_items (if b then e else none) ≡ false
kept_string b e h = ground arith

module _ (lib : RedisLib) (is_key : String → Bool) (clock : Clock lib) where
  pub wait-IsTyped :
      (d : lib.Db) (seconds : ℕ) → IsTyped lib is_key d → IsTyped lib is_key (clock.wait d seconds)
  wait-IsTyped d seconds typed = record {
    lists = λ n p. rw (clock.look_wait d seconds n) (kept_list _ _ (typed.lists n p));
    strings = λ k p. rw (clock.look_wait d seconds k) (kept_string _ _ (typed.strings k p));
  }

  pub outlived :
      (d : lib.Db) (seconds n : ℕ) (k : String)
      → lib.ttl d k ≡ some n
      → seconds < n
      → lib.look (clock.wait d seconds) k ≡ lib.look d k
  outlived d seconds n k h p =
      let alive : ltb seconds n ≡ true = ground arith in
      rw (clock.look_wait d seconds k, h, alive) refl

  expired :
      (d : lib.Db) (seconds n : ℕ) (k : String)
      → lib.ttl d k ≡ some n
      → n ≤ seconds
      → lib.look (clock.wait d seconds) k ≡ none
  expired d seconds n k h p =
      let over : ltb seconds n ≡ false = ground arith in
      rw (clock.look_wait d seconds k, h, over) refl

  pub left_over :
      (d : lib.Db) (seconds n : ℕ) (k : String)
      → lib.ttl d k ≡ some n
      → seconds < n
      → lib.ttl (clock.wait d seconds) k ≡ some (n - seconds)
  left_over d seconds n k h p =
      let alive : ltb seconds n ≡ true = ground arith in
      rw (clock.ttl_wait d seconds k, h, alive) refl

abbrev pub waited : (lib : RedisLib) → Clock lib → ℕ → Action lib.Db (Unit {0})
waited lib clock seconds = change λ d. ok (clock.wait d seconds)

module _ (lib : RedisLib) (is_key : String → Bool) (laws : RedisLaws lib) (clock : Clock lib)
    (hash_sha256 : String → String) (hashed : (s : String) → is_key (hash_sha256 s) ≡ true)
    (device_id uri version new_uri : String) (a : PushAccount) (rest : List PushAccount)
    (d : lib.Db) (typed : IsTyped lib is_key d) (device_list : is_key device_id ≡ false)
    (registered : All (IsKey lib is_key) (drop 2 (held (lib.look d device_id))))
    (placed : All (IsNode lib is_key) (a ∷ rest)) where
  abbrev key : String
  key = gen_account hash_sha256 device_id a.account_id

  device-ne-key : (device_id == key) ≡ false
  device-ne-key =
      ground (arith, eq_iff device_id key, hashed_key lib is_key hash_sha256 hashed device_id a)

  missing_node :
      (keys : List String) (e : lib.Db)
      → lib.look e key ≡ none
      → nodes_of lib (key ∷ keys) e ≡ threw assertion_failed e
  unfolding nodes_of
  missing_node keys e h = rw (laws.get_look e key, h) refl

  module _ (t u : ℕ) (early : t < default_entry_timeout) (soon : u < default_entry_timeout)
      (late : default_entry_timeout ≤ t + u) where
    -- A device registers one account or more, renews its channel before the timeout of the database
    -- is over, and gives accounts again within the timeout from then on, but when that from the
    -- registration is over: get_push_nodes fails its assertion, or uses a node that is not there,
    -- though the device is known by its new channel. From a database in which account keys hold
    -- strings and other keys lists, for a device whose id is no account key and whose list, if any,
    -- names account keys, and for accounts whose nodes are none.
    pub get_push_nodes_expired :
        (final : lib.Db) × ((set_push_accounts lib hash_sha256 device_id uri version (a ∷ rest)
              >>= λ _. waited lib clock t >>= λ _. set_channel_uri lib device_id new_uri >>= λ _.
                  waited lib clock u >>= λ _. get_push_nodes lib device_id)
            d
          ≡ threw assertion_failed final)
        × (get_channel_uri lib device_id final ≡ done (some new_uri, final))
    get_push_nodes_expired =
        let e =
          set_push_accounts_lem lib is_key laws hash_sha256 hashed device_id uri version (a ∷ rest)
            d typed device_list registered placed in
        let texts =
          set_push_accounts-Texts lib is_key laws hash_sha256 hashed device_id uri version
            (a ∷ rest) d typed device_list registered placed in
        let d2 = clock.wait e.state t in
        let typed2 = wait-IsTyped lib is_key clock e.state t e.holds.typed in
        let list2 : held (lib.look d2 device_id)
            ≡ uri ∷ version ∷ account_keys lib hash_sha256 device_id (a ∷ rest) =
          ap held (
            outlived lib is_key clock e.state t default_entry_timeout device_id texts.lifetime
              early)
          ∙ e.holds.device in
        let r = set_channel_uri_lem lib is_key laws d2 typed2 device_id device_list new_uri in
        let d4 = clock.wait r.state u in
        let typed4 = wait-IsTyped lib is_key clock r.state u r.holds.typed in
        let same4 : lib.look d4 device_id ≡ lib.look r.state device_id =
          outlived lib is_key clock r.state u default_entry_timeout device_id r.holds.lifetime
            soon in
        let list4 : held (lib.look d4 device_id)
            ≡ new_uri ∷ version ∷ account_keys lib hash_sha256 device_id (a ∷ rest) =
          ap held same4 ∙ r.holds.device ∙ ap (λ (xs : List String). new_uri ∷ drop 1 xs) list2 in
        let short : lib.ttl r.state key ≡ some (default_entry_timeout - t) =
          r.holds.other_lifetimes key device-ne-key
          ∙ left_over lib is_key clock e.state t default_entry_timeout key texts.timed.0 early in
        let gone : lib.look d4 key ≡ none =
          expired lib is_key clock r.state u (default_entry_timeout - t) key short (omega arith) in
        (
          d4,
          rw
              (
                e.returns,
                r.returns,
                get_push_nodes_fails lib is_key laws d4 typed4 device_id device_list
                    (rw list4 (missing_node (account_keys lib hash_sha256 device_id rest) d4 gone)),
              )
              refl,
          get_channel_uri_lem lib is_key laws d4 typed4 device_id device_list ∙ rw list4 refl,
        )
