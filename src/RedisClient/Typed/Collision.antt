-- ===== src/RedisClient/Typed/Collision.antt =====
-- storage/redis/RedisClient.cpp: the keys of the accounts of two devices.
use package.text.Mathlib.TextLemmas.{append_assoc}
use uwpx_push_server.Common.{
  ◌≡◌, refl, sym, ◌∙◌, ap, Bool, true, false, String, ◌&◌, some, [], ◌∷◌, eq_refl,
}
use uwpx_push_server.Common.Action.{Ends, ◌>>=◌}
use uwpx_push_server.Redis.{RedisLib, RedisLaws, items, text}
use uwpx_push_server.RedisClient.{
  gen_account, store_account, load_push_account, get_node_secret, reused,
}
use uwpx_push_server.RedisClient.Typed.{
  IsTyped, held, stored, look_stored, ne_of_node_key, store_account_lem, key,
}
use uwpx_push_server.Messages.SuccessSetPushAccounts.Account.{PushAccount}

shared_key :
    (hash_sha256 : String → String) (device_id x account_id : String)
    → gen_account hash_sha256 ((device_id & "_") & x) account_id
      ≡ gen_account hash_sha256 device_id ((x & "_") & account_id)
unfolding gen_account
shared_key hash_sha256 device_id x account_id = simp append_assoc

module _ (lib : RedisLib) (is_key : String → Bool) (laws : RedisLaws lib)
    (hash_sha256 : String → String) (hashed : (s : String) → is_key (hash_sha256 s) ≡ true)
    (device_id x : String) (a b : PushAccount) (d : lib.Db) (typed : IsTyped lib is_key d)
    (node_list : is_key a.node ≡ false) (unused : held (lib.look d a.node) ≡ [])
    (same : b.account_id ≡ (x & "_") & a.account_id) where
  open laws use {get_look, lrange_look}

  abbrev owner : String
  owner = (device_id & "_") & x

  abbrev after : lib.Db
  after = stored lib is_key laws hash_sha256 hashed owner a d node_list typed

  own_key :
      gen_account hash_sha256 device_id b.account_id
      ≡ key lib is_key laws hash_sha256 hashed owner a d
  own_key =
      ap (λ (s : String). gen_account hash_sha256 device_id s) same
      ∙ sym (shared_key hash_sha256 device_id x a.account_id)

  at_key : lib.look after (key lib is_key laws hash_sha256 hashed owner a d) ≡ some (text a.node)
  at_key =
      rw
        (
          look_stored lib is_key laws hash_sha256 hashed owner a d node_list typed
              (key lib is_key laws hash_sha256 hashed owner a d),
          ne_of_node_key lib is_key laws hash_sha256 hashed owner a d node_list typed,
          eq_refl (key lib is_key laws hash_sha256 hashed owner a d),
        )
        refl

  at_node : lib.look after a.node ≡ some (items (a.account_id ∷ owner ∷ a.secret ∷ []))
  at_node =
      rw
        (
          look_stored lib is_key laws hash_sha256 hashed owner a d node_list typed a.node,
          eq_refl a.node,
          unused,
        )
        refl

  -- Once a device has stored an account at an unused node, another device whose id is the beginning
  -- of the id of the first, up to an underscore, is given the node and the secret of that account:
  -- it only has to ask for the account whose id is the rest of the id of the first, an underscore
  -- and the id of the account. In the database account keys hold strings and other keys lists, and
  -- the node is no account key.
  pub load_push_account-store_account :
      Ends
        (store_account lib hash_sha256 owner a >>= λ _.
          load_push_account lib hash_sha256 device_id b)
        d
        (λ r _. (r.node ≡ a.node) × (r.secret ≡ a.secret))
  unfolding store_account_lem load_push_account get_node_secret
  load_push_account-store_account =
      let e = store_account_lem lib is_key laws hash_sha256 hashed owner a d node_list typed in
      record {
        result = reused lib hash_sha256 b a.node (some a.secret);
        state = after;
        returns = rw (e.returns, own_key, get_look after, at_key, lrange_look after, at_node) refl;
        holds = (refl, refl);
      }
