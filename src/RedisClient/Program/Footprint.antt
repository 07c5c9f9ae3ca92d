-- ===== src/RedisClient/Program/Footprint.antt =====
-- The keys on which set_push_accounts and the lookups of a notification send commands.
use mathlib.Core.List.{head?}
use mathlib.Core.Path.{subst}
use uwpx_push_server.Common.{◌≡◌, refl, String, none, List, [], ◌∷◌, true, eq_refl, All, drop}
use uwpx_push_server.Common.Action.{done_unique, done}
use uwpx_push_server.Redis.{RedisLib, RedisLaws}
use uwpx_push_server.RedisClient.{gen_account, of_three}
use uwpx_push_server.RedisClient.Program.{
  Program, return, throw, call, lrange, get, del, Answer, Command, key, execute, ◌>>=◌,
}
use uwpx_push_server.RedisClient.Program.Operations.{
  set_channel_uri, set_push_accounts, find_channel, channel_of, replace, push, for_each,
  remove_account, remove_old, del_node, store_account,
}
use uwpx_push_server.RedisClient.Program.Interleaving.{Keys, Within}
use uwpx_push_server.Messages.SuccessSetPushAccounts.Account.{PushAccount}

module _ (lib : RedisLib) (keys : Keys) where
  Within-bind :
      {A B : Type 0} (p : Program A) (k : A → Program B) (d : lib.Db)
      → Within lib keys p d
      → ((a : A) (e : lib.Db) → Within lib keys (k a) e)
      → Within lib keys (p >>= k) d
  unfolding ◌>>=◌
  Within-bind (return a) k d w h = h a d
  Within-bind (throw e) k d w h = tt
  Within-bind (call c next) k d w h = (w.0, λ r e f. Within-bind (next r) k e (w.1 r e f) h)

  Within-for_each :
      {A : Type 0} (body : A → Program (Unit {0})) (P : A → Type 0) (list : List A) (d : lib.Db)
      → ((a : A) (e : lib.Db) → P a → Within lib keys (body a) e)
      → All P list
      → Within lib keys (for_each body list) d
  unfolding for_each
  Within-for_each body P [] d h all = tt
  Within-for_each body P (a ∷ rest) d h all =
      Within-bind (body a) (λ _. for_each body rest) d (h a d all.0)
        (λ _ e. Within-for_each body P rest e h all.1)

  abbrev pub In : String → Type 0
  In k = keys k ≡ true

  Within-push : (k : String) (xs : List String) (d : lib.Db) → In k → Within lib keys (push k xs) d
  Within-push k xs d h = (h, λ _ _ _. (h, λ _ _ _. tt))

  Within-replace :
      (device_id uri : String) (list : List String) (d : lib.Db)
      → In device_id
      → Within lib keys (replace device_id uri list) d
  Within-replace device_id uri [] d h = Within-push device_id (uri ∷ []) d h
  Within-replace device_id uri (_ ∷ rest) d h = (h, λ _ e _. Within-push device_id (uri ∷ rest) e h)

  pub Within-set_channel_uri :
      (device_id uri : String) (d : lib.Db)
      → In device_id
      → Within lib keys (set_channel_uri device_id uri) d
  unfolding set_channel_uri
  Within-set_channel_uri device_id uri d h = (h, λ list e _. Within-replace device_id uri list e h)

  Within-call :
      {A : Type 0} (c : Command) (next : Answer c → Program A) (d e : lib.Db) (r : Answer c)
      → In (key c)
      → execute lib c d ≡ done (r, e)
      → Within lib keys (next r) e
      → Within lib keys (call c next) d
  Within-call c next d e r p h w = (
    p,
    λ r' e' h'.
        subst (λ (x : Answer c × lib.Db). Within lib keys (next x.0) x.1)
          (done_unique (execute lib c d) h h') w,
  )

  module _ (laws : RedisLaws lib) where
    open laws use {get_look, look_del, lrange_look}

    -- after DEL of the key of an account, GET finds no node
    Within-remove_account :
        (account : String) (d : lib.Db) → In account → Within lib keys (remove_account account) d
    Within-remove_account account d h =
        Within-call (del account) (λ _. call (get account) del_node) d (lib.del d account) tt h refl
          (Within-call (get account) del_node (lib.del d account) (lib.del d account) none h
            (rw (get_look (lib.del d account) account, look_del d account account, eq_refl account)
              refl)
            tt)

    Within-remove_old :
        (device_id : String) (list : List String) (d : lib.Db)
        → In device_id
        → All In (drop 2 list)
        → Within lib keys (remove_old device_id list) d
    Within-remove_old device_id [] d h all = tt
    Within-remove_old device_id (uri ∷ rest) d h all =
        Within-bind (for_each remove_account (drop 1 rest)) (λ _. call (del device_id) return) d
          (Within-for_each remove_account In (drop 1 rest) d Within-remove_account all)
          (λ _ _. (h, λ _ _ _. tt))

    module _ (hash_sha256 : String → String) (device_id : String) where
      abbrev pub Placed : PushAccount → Type 0
      Placed a = In (gen_account hash_sha256 device_id a.account_id) × In a.node

      Within-store_account :
          (a : PushAccount) (d : lib.Db)
          → Placed a
          → Within lib keys (store_account hash_sha256 device_id a) d
      Within-store_account a d h = (h.0, λ _ _ _. (h.0, λ _ e _. Within-push a.node _ e h.1))

      pub Within-set_push_accounts :
          (uri version : String) (accounts : List PushAccount) (d : lib.Db) (list : List String)
          → execute lib (lrange device_id) d ≡ done (list, d)
          → In device_id
          → All In (drop 2 list)
          → All Placed accounts
          → Within lib keys (set_push_accounts hash_sha256 lib device_id uri version accounts) d
      unfolding set_push_accounts
      Within-set_push_accounts uri version accounts d list read h old new =
          Within-call (lrange device_id) _ d d list h read (
            Within-bind (remove_old device_id list) _ d (Within-remove_old device_id list d h old)
              λ _ e.
                Within-bind (for_each (store_account hash_sha256 device_id) accounts) _ e
                  (Within-for_each (store_account hash_sha256 device_id) Placed accounts e
                    Within-store_account new)
                  (λ _ e'. (h, λ _ e'' _. Within-push device_id _ e'' h)))

    pub Within-find_channel :
        (node owner account secret : String) (list : List String) (d : lib.Db)
        → execute lib (lrange node) d ≡ done (account ∷ owner ∷ secret ∷ [], d)
        → execute lib (lrange owner) d ≡ done (list, d)
        → In node
        → In owner
        → Within lib keys (find_channel lib node) d
    unfolding find_channel
    Within-find_channel node owner account secret list d at_node at_owner h k =
        Within-call (lrange node) (λ keys. channel_of (of_three lib 1 keys)) d d _ h at_node
          (Within-call (lrange owner) (λ keys. return (head? keys)) d d list k at_owner tt)
