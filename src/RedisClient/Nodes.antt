-- ===== src/RedisClient/Nodes.antt =====
-- What the getters find at a node after set_push_accounts.
use mathlib.Core.List.{head?}
use uwpx_push_server.RedisClient.Channel.{get_channel_uri_lem, get_version_lem}
use uwpx_push_server.Common.{
  ap, ℕ, ◌≡◌, refl, ◌∙◌, Bool, true, false, String, Option, none, some, List, [], ◌∷◌,
  if◌then◌else◌, ◌==◌, arith, drop, All, null,
}
use uwpx_push_server.Common.Action.{done, Ends}
use uwpx_push_server.Redis.{RedisLib, RedisLaws}
use uwpx_push_server.RedisClient.{
  get_version, get_channel_uri, account_keys, set_push_accounts, get_account_id, get_device_id,
  get_node_secret, of_three,
}
use uwpx_push_server.RedisClient.Typed.{IsTyped, held, added, items_of-held}
use uwpx_push_server.RedisClient.Storing.{IsNode, IsKey}
use uwpx_push_server.RedisClient.Accounts.{Registered, set_push_accounts_lem}
use uwpx_push_server.Messages.SuccessSetPushAccounts.Account.{PushAccount}

-- the accounts of a list that are at a node
abbrev pub at_node : String → List PushAccount → List PushAccount
at_node n [] = []
at_node n (a ∷ rest) = let later = at_node n rest in if a.node == n then a ∷ later else later

added-at_node-nil :
    (device_id n : String) (accounts : List PushAccount)
    → at_node n accounts ≡ []
    → added device_id n accounts ≡ []
added-at_node-nil device_id n [] h = refl
added-at_node-nil device_id n (a ∷ rest) h = ground (arith, added-at_node-nil device_id n rest)

added-at_node_one :
    (device_id n : String) (accounts : List PushAccount) (a : PushAccount)
    → at_node n accounts ≡ a ∷ []
    → added device_id n accounts ≡ a.account_id ∷ device_id ∷ a.secret ∷ []
added-at_node_one device_id n [] a h = cc
added-at_node_one device_id n (b ∷ rest) a h =
    ground (arith, added-at_node_one device_id n rest a, added-at_node-nil device_id n rest)

length-added :
    (device_id n : String) (accounts : List PushAccount)
    → null (at_node n accounts) ≡ false
    → null (added device_id n accounts) ≡ false
length-added device_id n [] h = cc
length-added device_id n (b ∷ rest) h = ground (arith, length-added device_id n rest)

null-cons : (xs : List String) → null xs ≡ false → (y : String) × (ys : List String) × (xs ≡ y ∷ ys)
null-cons [] h = absurd (ground arith)
null-cons (y ∷ ys) h = (y, ys, refl)

pub of_three_long :
    (lib : RedisLib) (i : ℕ) (x y z w : String) (ws : List String)
    → of_three lib i (x ∷ y ∷ z ∷ w ∷ ws) ≡ none
of_three_long lib i x y z w ws = ground arith

module _ (lib : RedisLib) (is_key : String → Bool) (laws : RedisLaws lib) where
  open laws use {lrange_look}

  module _ (d : lib.Db) (typed : IsTyped lib is_key d) (n : String)
      (node_list : is_key n ≡ false) where
    node_read : lib.lrange d n ≡ some (held (lib.look d n))
    node_read = lrange_look d n ∙ items_of-held (lib.look d n) (typed.lists n node_list)

    -- The getters of a node answer from the list that is held there.
    pub getters_lem :
        (get_account_id lib n d ≡ done (of_three lib 0 (held (lib.look d n)), d))
        × (get_device_id lib n d ≡ done (of_three lib 1 (held (lib.look d n)), d))
        × (get_node_secret lib n d ≡ done (of_three lib 2 (held (lib.look d n)), d))
    unfolding get_account_id get_device_id get_node_secret
    getters_lem = (rw node_read, rw node_read, rw node_read)

  -- What the three getters answer.
  pub record Answers (n : String) (d : lib.Db) (account_id device_id secret : Option String)
      : Type 0 where
    pub account : get_account_id lib n d ≡ done (account_id, d)
    pub device : get_device_id lib n d ≡ done (device_id, d)
    pub password : get_node_secret lib n d ≡ done (secret, d)

  module _ (hash_sha256 : String → String) (hashed : (s : String) → is_key (hash_sha256 s) ≡ true)
      (device_id channel_uri version : String) (accounts : List PushAccount) (d : lib.Db)
      (typed : IsTyped lib is_key d) (device_list : is_key device_id ≡ false)
      (registered : All (IsKey lib is_key) (drop 2 (held (lib.look d device_id))))
      (placed : All (IsNode lib is_key) accounts) (n : String) (node_list : is_key n ≡ false)
      (other : (device_id == n) ≡ false) where
    Answers-from :
        (d' : lib.Db) (xs : List String)
        → IsTyped lib is_key d'
        → held (lib.look d' n) ≡ xs
        → Answers n d' (of_three lib 0 xs) (of_three lib 1 xs) (of_three lib 2 xs)
    Answers-from d' xs t e =
        let (a, b, c) = getters_lem d' t n node_list in
        record { account = rw e at a; device = rw e at b; password = rw e at c }

    abbrev left :
        Ends (set_push_accounts lib hash_sha256 device_id channel_uri version accounts) d (λ _.
          Registered lib is_key device_id channel_uri version
            (account_keys lib hash_sha256 device_id accounts)
            accounts
            d)
    left =
        set_push_accounts_lem lib is_key laws hash_sha256 hashed device_id channel_uri version
          accounts d typed device_list registered placed

    -- as new_node_found, with the version
    pub new_node_known :
        (a : PushAccount)
        → held (lib.look d n) ≡ []
        → at_node n accounts ≡ a ∷ []
        → Ends (set_push_accounts lib hash_sha256 device_id channel_uri version accounts) d (λ _ d'.
          Answers n d' (some a.account_id) (some device_id) (some a.secret)
          × (get_channel_uri lib device_id d' ≡ done (some channel_uri, d'))
          × (get_version lib device_id d' ≡ done (some version, d')))
    new_node_known a fresh only = record {
      result = tt;
      state = left.state;
      returns = left.returns;
      holds = (
        Answers-from left.state (a.account_id ∷ device_id ∷ a.secret ∷ []) left.holds.typed (
            left.holds.nodes n node_list other
            ∙ rw (fresh, added-at_node_one device_id n accounts a only)),
        get_channel_uri_lem lib is_key laws left.state left.holds.typed device_id device_list
            ∙ ap (λ (xs : List String). done (head? xs, left.state)) left.holds.device,
        get_version_lem lib is_key laws left.state left.holds.typed device_id device_list
            channel_uri version (account_keys lib hash_sha256 device_id accounts) left.holds.device,
      );
    }

    -- In a database whose account keys hold strings and whose other keys hold lists,
    -- set_push_accounts returns; and a node that held no list before, that is neither the device's
    -- list nor an account key, and that is the node of exactly one of the accounts, then answers
    -- with that account's id, the device and the account's secret, and the device with the channel.
    -- The nodes of the accounts are no account keys, and what the device's list names are account
    -- keys.
    pub new_node_found :
        (a : PushAccount)
        → held (lib.look d n) ≡ []
        → at_node n accounts ≡ a ∷ []
        → Ends (set_push_accounts lib hash_sha256 device_id channel_uri version accounts) d (λ _ d'.
          Answers n d' (some a.account_id) (some device_id) (some a.secret)
          × (get_channel_uri lib device_id d' ≡ done (some channel_uri, d')))
    new_node_found a fresh only =
        let e = new_node_known a fresh only in
        record {
          result = e.result;
          state = e.state;
          returns = e.returns;
          holds = (e.holds.0, e.holds.1);
        }

    -- In a database whose account keys hold strings and whose other keys hold lists, a node that is
    -- registered already, with a list of three entries, is lost when at least one of the accounts
    -- is stored at it again: set_push_accounts returns, but the three getters of the node then
    -- answer that there is none. Neither the device's list nor the nodes of the accounts are
    -- account keys, what the device's list names are account keys, and the node is not the device's
    -- list.
    pub reused_node_lost :
        (x y z : String)
        → held (lib.look d n) ≡ x ∷ y ∷ z ∷ []
        → null (at_node n accounts) ≡ false
        → Ends
            (set_push_accounts lib hash_sha256 device_id channel_uri version accounts)
            d
            (λ _ d'. Answers n d' none none none)
    reused_node_lost x y z known again =
        let (w, ws, e) =
          null-cons (added device_id n accounts) (length-added device_id n accounts again) in
        let longer : held (lib.look left.state n) ≡ x ∷ y ∷ z ∷ w ∷ ws =
          left.holds.nodes n node_list other ∙ rw (known, e) in
        record {
          result = tt;
          state = left.state;
          returns = left.returns;
          holds =
              rw
                (
                  of_three_long lib 0 x y z w ws,
                  of_three_long lib 1 x y z w ws,
                  of_three_long lib 2 x y z w ws,
                )
                at (Answers-from left.state (x ∷ y ∷ z ∷ w ∷ ws) left.holds.typed longer);
        }
