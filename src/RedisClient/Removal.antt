-- ===== src/RedisClient/Removal.antt =====
-- What set_push_accounts deletes.
use uwpx_push_server.Common.{
  ◌≡◌, refl, Bool, false, String, none, List, [], ◌∷◌, if◌then◌else◌, ◌==◌, ◌||◌, arith, eq_refl,
  drop,
}
use uwpx_push_server.Common.Action.{done, for_each}
use uwpx_push_server.Redis.{RedisLib, RedisLaws}
use uwpx_push_server.RedisClient.{remove_account, remove_old}

-- Whether a key is in a list of keys.
abbrev pub has_key : List String → String → Bool
has_key [] j = false
has_key (k ∷ ks) j = k == j || has_key ks j

module _ (lib : RedisLib) where
  abbrev pub del_all : lib.Db → List String → lib.Db
  del_all d [] = d
  del_all d (k ∷ ks) = del_all (lib.del d k) ks

  abbrev pub without_old : lib.Db → String → List String → lib.Db
  without_old d device_id [] = d
  without_old d device_id (uri ∷ rest) = lib.del (del_all d (drop 1 rest)) device_id

  module _ (laws : RedisLaws lib) where
    open laws use {get_look, look_del}

    -- Removing an account deletes the account's key and nothing else: the node is asked for when
    -- the key is gone already, so it is never found.
    pub remove_account_lem :
        (account : String) (d : lib.Db)
        → remove_account lib account d ≡ done (tt, lib.del d account)
    unfolding remove_account
    remove_account_lem account d = simp (get_look, look_del, eq_refl)

    remove_accounts_lem :
        (accounts : List String) (d : lib.Db)
        → for_each (remove_account lib) accounts d ≡ done (tt, del_all d accounts)
    unfolding for_each
    remove_accounts_lem [] d = refl
    remove_accounts_lem (a ∷ rest) d =
        rw (remove_account_lem a d) (remove_accounts_lem rest (lib.del d a))

    pub remove_old_lem :
        (device_id : String) (keys : List String) (d : lib.Db)
        → remove_old lib device_id keys d ≡ done (tt, without_old d device_id keys)
    unfolding remove_old
    remove_old_lem device_id [] d = refl
    remove_old_lem device_id (uri ∷ rest) d = rw (remove_accounts_lem (drop 1 rest) d)

    pub look-del_all :
        (ks : List String) (d : lib.Db) (j : String)
        → lib.look (del_all d ks) j ≡ (if has_key ks j then none else lib.look d j)
    look-del_all [] d j = refl
    look-del_all (k ∷ ks) d j = ground (arith, look-del_all ks (lib.del d k) j, look_del d k j)

    -- What is left is what no old key names.
    pub look-without_old :
        (device_id uri : String) (rest : List String) (d : lib.Db) (j : String)
        → lib.look (without_old d device_id (uri ∷ rest)) j
          ≡ (if device_id == j || has_key (drop 1 rest) j then none else lib.look d j)
    look-without_old device_id uri rest d j =
        ground
          (arith, look-del_all (drop 1 rest) d j, look_del (del_all d (drop 1 rest)) device_id j)
