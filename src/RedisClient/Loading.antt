-- ===== src/RedisClient/Loading.antt =====
-- get_push_nodes and load_push_account, in a database in which account keys hold strings and other
-- keys hold lists.
use uwpx_push_server.RedisClient.Storing.{IsKey}
use uwpx_push_server.RedisClient.Removal.{has_key}
use uwpx_push_server.Common.{
  assertion_failed, ◌⊎◌, inl, inr, eq_refl, ◌≡◌, refl, Bool, true, false, String, Option, none,
  some, List, [], ◌∷◌, All, drop, arith,
}
use uwpx_push_server.Common.Action.{threw, done}
use uwpx_push_server.Redis.{RedisLib, RedisLaws, Entry, text, items, text_of}
use uwpx_push_server.RedisClient.{
  gen_account, nodes_of, get_push_nodes, load_push_account, of_three, reused,
}
use uwpx_push_server.RedisClient.Typed.{IsTyped, held, holds_items, items_of-held}
use uwpx_push_server.RedisClient.Nodes.{getters_lem}
use uwpx_push_server.Messages.SuccessSetPushAccounts.Account.{PushAccount}

-- The key holds a node.
abbrev pub HoldsNode : (lib : RedisLib) → lib.Db → String → Type 0
HoldsNode lib d k = (v : String) × (lib.look d k ≡ some (text v))

module _ (lib : RedisLib) (is_key : String → Bool) (laws : RedisLaws lib) (d : lib.Db)
    (typed : IsTyped lib is_key d) where
  open laws use {get_look, lrange_look}

  nodes_of_lem :
      (keys : List String)
      → All (HoldsNode lib d) keys
      → (nodes : List String) × (nodes_of lib keys d ≡ done (nodes, d))
  unfolding nodes_of
  nodes_of_lem [] h = ([], refl)
  nodes_of_lem (k ∷ keys) h =
      let (nodes, e) = nodes_of_lem keys h.1 in (h.0.0 ∷ nodes, rw (get_look d k, h.0.1, e))

  -- Where the keys that the list of a device names hold nodes, get_push_nodes returns.
  pub get_push_nodes_lem :
      (device_id : String)
      → is_key device_id ≡ false
      → All (HoldsNode lib d) (drop 2 (held (lib.look d device_id)))
      → (nodes : List String) × (get_push_nodes lib device_id d ≡ done (nodes, d))
  unfolding get_push_nodes
  get_push_nodes_lem device_id l h =
      let (nodes, e) = nodes_of_lem (drop 2 (held (lib.look d device_id))) h in
      (
        nodes,
        rw (
          lrange_look d device_id,
          items_of-held (lib.look d device_id) (typed.lists device_id l),
          e,
        ),
      )

  -- One of the keys holds nothing, and the loop of get_push_nodes fails its assertion.
  abbrev pub Missing : List String → Type 0
  Missing keys =
      (key : String) × (has_key keys key ≡ true)
      × (lib.look d key ≡ none)
      × (nodes_of lib keys d ≡ threw assertion_failed d)

  abbrev AllOrMissing : List String → Type 0
  AllOrMissing keys = All (HoldsNode lib d) keys ⊎ Missing keys

  AllOrMissing-cons :
      (k : String) (keys : List String) (e : Option Entry)
      → lib.look d k ≡ e
      → holds_items e ≡ false
      → AllOrMissing keys
      → AllOrMissing (k ∷ keys)
  unfolding nodes_of
  AllOrMissing-cons k keys none q t w = inr (k, rw (eq_refl k) refl, q, rw (get_look d k, q) refl)
  AllOrMissing-cons k keys (some (text v)) q t (inl h) = inl ((v, q), h)
  AllOrMissing-cons k keys (some (text v)) q t (inr (key, m, n, f)) =
      inr (key, ground arith, n, rw (get_look d k, q, f) refl)
  AllOrMissing-cons k keys (some (items xs)) q t w = absurd (ground arith)

  -- Each of the keys that the list of a device names holds a node, or one holds nothing.
  pub nodes_held_or_lacking :
      (keys : List String) → All (IsKey lib is_key) keys → All (HoldsNode lib d) keys ⊎ Missing keys
  nodes_held_or_lacking [] h = inl tt
  nodes_held_or_lacking (k ∷ keys) h =
      AllOrMissing-cons k keys (lib.look d k) refl (typed.strings k h.0)
        (nodes_held_or_lacking keys h.1)

  pub get_push_nodes_fails :
      (device_id : String)
      → is_key device_id ≡ false
      → nodes_of lib (drop 2 (held (lib.look d device_id))) d ≡ threw assertion_failed d
      → get_push_nodes lib device_id d ≡ threw assertion_failed d
  unfolding get_push_nodes
  get_push_nodes_fails device_id l h =
      rw
        (lrange_look d device_id, items_of-held (lib.look d device_id) (typed.lists device_id l), h)
        refl

  module _ (hash_sha256 : String → String) (hashed : (s : String) → is_key (hash_sha256 s) ≡ true)
      (IsGood : String → Type 0) (good_list : (v : String) → IsGood v → is_key v ≡ false)
      (refers : (k v : String) → lib.look d k ≡ some (text v) → IsGood v) (device_id : String)
      (account : PushAccount) (node_good : IsGood account.node) where
    abbrev key : String
    key = gen_account hash_sha256 device_id account.account_id

    key-IsKey : is_key key ≡ true
    unfolding gen_account
    key-IsKey = hashed _

    -- the account with what is found at its key
    abbrev Loads : Option (Option String) → Type 0
    Loads found =
        lib.get d key ≡ found
        → (a : PushAccount) × (load_push_account lib hash_sha256 device_id account d ≡ done (a, d))
          × IsGood a.node

    reused_node :
        (node : String) (secret : Option String)
        → IsGood node
        → IsGood (reused lib hash_sha256 account node secret).node
    reused_node node none h = node_good
    reused_node node (some secret) h = h

    Loads-from : (e : Option Entry) → lib.look d key ≡ e → holds_items e ≡ false → Loads (text_of e)
    unfolding load_push_account
    Loads-from none e t g = (account, rw g, node_good)
    Loads-from (some (text node)) e t g =
        let l = refers key node e in
        let secret = of_three lib 2 (held (lib.look d node)) in
        (
          reused lib hash_sha256 account node secret,
          rw (g, (getters_lem lib is_key laws d typed node (good_list node l)).2),
          reused_node node secret l,
        )
    Loads-from (some (items xs)) e t g = absurd (ground arith)

    -- An account is loaded from a database that stays as it is, and its node is as the old ones and
    -- the new one are.
    pub load_push_account_lem :
        (a : PushAccount) × (load_push_account lib hash_sha256 device_id account d ≡ done (a, d))
        × IsGood a.node
    load_push_account_lem =
        Loads-from (lib.look d key) refl (typed.strings key key-IsKey) (get_look d key)
