-- ===== src/RedisClient/Program/Operations.antt =====
-- storage/redis/RedisClient.cpp and the lookups of server/PushServer.cpp, command by command. Each
-- thread alone is the operation of RedisClient.
use mathlib.Core.List.{head?}
use uwpx_push_server.Common.{◌≡◌, refl, ◌∙◌, String, Option, none, some, List, [], ◌∷◌, drop}
use uwpx_push_server.Common.Action.{Action, Ran, done, threw, go_on}
use uwpx_push_server.Common.Action as Action
use uwpx_push_server.Redis.{RedisLib}
use uwpx_push_server.RedisClient
use uwpx_push_server.RedisClient.{gen_account, account_keys}
use uwpx_push_server.RedisClient.Program.{
  Program, return, throw, call, lrange, get, del, expire, set, rpush, ◌>>=◌, run, execute,
}
use uwpx_push_server.Messages.SuccessSetPushAccounts.Account.{PushAccount}

abbrev pub get_channel_uri : String → Program (Option String)
get_channel_uri device_id = call (lrange device_id) (λ keys. return (head? keys))

abbrev pub get_device_id : RedisLib → String → Program (Option String)
get_device_id lib node = call (lrange node) (λ keys. return (RedisClient.of_three lib 1 keys))

abbrev pub channel_of : Option String → Program (Option String)
channel_of none = return none
channel_of (some device_id) = get_channel_uri device_id

-- what on_v1_message_for_node and on_v2_message_for_node ask before they send
unfoldable pub find_channel : RedisLib → String → Program (Option String)
find_channel lib node = call (lrange node) (λ keys. channel_of (RedisClient.of_three lib 1 keys))

-- RPUSH and EXPIRE at the end of set_channel_uri and set_push_accounts
abbrev pub push : String → List String → Program (Unit {0})
push k xs = call (rpush k xs) (λ _. call (expire k) (λ _. return tt))

abbrev pub replace : String → String → List String → Program (Unit {0})
replace device_id uri [] = push device_id (uri ∷ [])
replace device_id uri (_ ∷ rest) = call (del device_id) (λ _. push device_id (uri ∷ rest))

unfoldable pub set_channel_uri : String → String → Program (Unit {0})
set_channel_uri device_id uri = call (lrange device_id) (replace device_id uri)

unfoldable pub for_each : {A : Type 0} → (A → Program (Unit {0})) → List A → Program (Unit {0})
for_each body [] = return tt
for_each body (a ∷ rest) = body a >>= λ _. for_each body rest

abbrev pub del_node : Option String → Program (Unit {0})
del_node none = return tt
del_node (some node) = call (del node) return

abbrev pub remove_account : String → Program (Unit {0})
remove_account account = call (del account) (λ _. call (get account) del_node)

abbrev pub remove_old : String → List String → Program (Unit {0})
remove_old device_id [] = return tt
remove_old device_id (uri ∷ rest) =
    for_each remove_account (drop 1 rest) >>= λ _. call (del device_id) return

module _ (hash_sha256 : String → String) where
  abbrev pub store_account : String → PushAccount → Program (Unit {0})
  store_account device_id account =
      call (set (gen_account hash_sha256 device_id account.account_id) account.node) λ _.
        call (expire (gen_account hash_sha256 device_id account.account_id))
          λ _. push account.node (account.account_id ∷ device_id ∷ account.secret ∷ [])

  abbrev pub register : RedisLib → String → String → String → List PushAccount → Program (Unit {0})
  register lib device_id channel_uri version accounts =
      call (del device_id) λ _.
        push device_id (channel_uri ∷ version ∷ account_keys lib hash_sha256 device_id accounts)

  unfoldable pub set_push_accounts :
      RedisLib → String → String → String → List PushAccount → Program (Unit {0})
  set_push_accounts lib device_id channel_uri version accounts = call (lrange device_id) λ keys.
      remove_old device_id keys >>= λ _. for_each (store_account device_id) accounts >>= λ _.
      register lib device_id channel_uri version accounts

module _ (lib : RedisLib) where
  go_on-same :
      {A B : Type 0} (x : Ran lib.Db A) (k l : A → Action lib.Db B)
      → ((a : A) (d : lib.Db) → k a d ≡ l a d)
      → go_on x k ≡ go_on x l
  go_on-same (done r) k l h = h r.0 r.1
  go_on-same (threw e d) k l h = refl

  go_on-bind :
      {A B R : Type 0} (k : A → Program B) (next : R → Program A) (x : Ran lib.Db R)
      → ((r : R) (d : lib.Db)
          → run lib (next r >>= k) d ≡ go_on (run lib (next r) d) (λ a. run lib (k a)))
      → go_on x (λ r. run lib (next r >>= k))
        ≡ go_on (go_on x (λ r. run lib (next r))) (λ a. run lib (k a))
  go_on-bind k next (done r) h = h r.0 r.1
  go_on-bind k next (threw e d) h = refl

  run-bind :
      {A B : Type 0} (p : Program A) (k : A → Program B) (d : lib.Db)
      → run lib (p >>= k) d ≡ go_on (run lib p d) (λ a. run lib (k a))
  unfolding run ◌>>=◌
  run-bind (return a) k d = refl
  run-bind (throw e) k d = refl
  run-bind (call c next) k d = go_on-bind k next (execute lib c d) (λ r e. run-bind (next r) k e)

  run-bind_same :
      {A B : Type 0} (p : Program A) (k : A → Program B) (m : Action lib.Db A)
      (l : A → Action lib.Db B) (d : lib.Db)
      → run lib p d ≡ m d
      → ((a : A) (e : lib.Db) → run lib (k a) e ≡ l a e)
      → run lib (p >>= k) d ≡ go_on (m d) l
  run-bind_same p k m l d h f = run-bind p k d ∙ rw h (go_on-same (m d) (λ a. run lib (k a)) l f)

  run-for_each :
      {A : Type 0} (body : A → Program (Unit {0})) (action : A → Action lib.Db (Unit {0}))
      (list : List A) (d : lib.Db)
      → ((a : A) (e : lib.Db) → run lib (body a) e ≡ action a e)
      → run lib (for_each body list) d ≡ Action.for_each action list d
  unfolding run for_each Action.for_each
  run-for_each body action [] d h = refl
  run-for_each body action (a ∷ rest) d h =
      run-bind (body a) (λ _. for_each body rest) d
      ∙ rw (h a d) (
          go_on-same (action a d) (λ _. run lib (for_each body rest))
            (λ _. Action.for_each action rest) (λ _ e. run-for_each body action rest e h))

  -- the lookups of on_v1_message_for_node and on_v2_message_for_node
  abbrev pub looked_up : Option String → Action lib.Db (Option String)
  looked_up none = Action.pure none
  looked_up (some device_id) = RedisClient.get_channel_uri lib device_id

  run-channel_of : (o : Option String) (d : lib.Db) → run lib (channel_of o) d ≡ looked_up o d
  unfolding run RedisClient.get_channel_uri
  run-channel_of none d = refl
  run-channel_of (some device_id) d = refl

  found_after :
      (node : String) (x : Ran lib.Db (List String))
      → go_on x (λ keys. run lib (channel_of (RedisClient.of_three lib 1 keys)))
        ≡ go_on (go_on x (λ keys. Action.pure (RedisClient.of_three lib 1 keys))) looked_up
  found_after node (done r) = run-channel_of (RedisClient.of_three lib 1 r.0) r.1
  found_after node (threw e d) = refl

  pub run-find_channel :
      (node : String) (d : lib.Db)
      → run lib (find_channel lib node) d ≡ go_on (RedisClient.get_device_id lib node d) looked_up
  unfolding run find_channel RedisClient.get_device_id
  run-find_channel node d = found_after node (RedisClient.lrange lib node d)

  abbrev pushed : String → List String → Action lib.Db (Unit {0})
  pushed k xs =
      Action.◌>>◌ (RedisClient.rpush lib k xs)
        (RedisClient.expire lib k RedisClient.default_entry_timeout)

  run-replace :
      (device_id uri : String) (keys : List String) (d : lib.Db)
      → run lib (replace device_id uri keys) d
        ≡ go_on (RedisClient.replaced lib device_id uri keys d) (pushed device_id)
  unfolding run
  run-replace device_id uri [] d = refl
  run-replace device_id uri (_ ∷ rest) d = refl

  -- A thread that sends the commands of set_channel_uri with no other thread between them does what
  -- set_channel_uri does.
  pub run-set_channel_uri :
      (device_id uri : String) (d : lib.Db)
      → run lib (set_channel_uri device_id uri) d ≡ RedisClient.set_channel_uri lib device_id uri d
  unfolding run set_channel_uri RedisClient.set_channel_uri
  run-set_channel_uri device_id uri d =
      go_on-same (RedisClient.lrange lib device_id d) (λ keys. run lib (replace device_id uri keys))
        (λ keys e. go_on (RedisClient.replaced lib device_id uri keys e) (pushed device_id))
        (run-replace device_id uri)

  run-del_node :
      (node : Option String) (d : lib.Db)
      → run lib (del_node node) d ≡ RedisClient.del_node lib node d
  unfolding run
  run-del_node none d = refl
  run-del_node (some node) d = refl

  run-remove_account :
      (account : String) (d : lib.Db)
      → run lib (remove_account account) d ≡ RedisClient.remove_account lib account d
  unfolding run RedisClient.remove_account
  run-remove_account account d =
      go_on-same (RedisClient.get lib account (lib.del d account)) (λ node. run lib (del_node node))
        (RedisClient.del_node lib) run-del_node

  run-remove_old :
      (device_id : String) (keys : List String) (d : lib.Db)
      → run lib (remove_old device_id keys) d ≡ RedisClient.remove_old lib device_id keys d
  unfolding run RedisClient.remove_old
  run-remove_old device_id [] d = refl
  run-remove_old device_id (uri ∷ rest) d =
      run-bind_same (for_each remove_account (drop 1 rest)) (λ _. call (del device_id) return)
        (Action.for_each (RedisClient.remove_account lib) (drop 1 rest))
        (λ _. RedisClient.del lib device_id) d
        (run-for_each remove_account (RedisClient.remove_account lib) (drop 1 rest) d
          run-remove_account)
        (λ _ e. refl)

  module _ (hash_sha256 : String → String) where
    run-store_account :
        (device_id : String) (account : PushAccount) (d : lib.Db)
        → run lib (store_account hash_sha256 device_id account) d
          ≡ RedisClient.store_account lib hash_sha256 device_id account d
    unfolding run RedisClient.store_account
    run-store_account device_id account d = refl

    -- the same of set_push_accounts
    pub run-set_push_accounts :
        (device_id channel_uri version : String) (accounts : List PushAccount) (d : lib.Db)
        → run lib (set_push_accounts hash_sha256 lib device_id channel_uri version accounts) d
          ≡ RedisClient.set_push_accounts lib hash_sha256 device_id channel_uri version accounts d
    unfolding run set_push_accounts RedisClient.set_push_accounts
    run-set_push_accounts device_id channel_uri version accounts d =
        go_on-same (RedisClient.lrange lib device_id d) _ _ λ keys e.
          run-bind_same (remove_old device_id keys) _ (RedisClient.remove_old lib device_id keys) _
            e (run-remove_old device_id keys e)
            λ _ e'.
              run-bind_same (for_each (store_account hash_sha256 device_id) accounts) _
                (Action.for_each (RedisClient.store_account lib hash_sha256 device_id) accounts) _
                e'
                (run-for_each (store_account hash_sha256 device_id)
                  (RedisClient.store_account lib hash_sha256 device_id) accounts e'
                  (run-store_account device_id))
                (λ _ _. refl)
