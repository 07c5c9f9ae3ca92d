-- ===== src/PushServer/Accounts/Named.antt =====
-- server/PushServer.cpp: which accounts set_push_accounts collects for the account ids of a
-- message.
use mathlib.Core.Path.{subst, ap}
use mathlib.Core.List.{append-nil, append_assoc}
use uwpx_push_server.Common.{
  refl, ◌∙◌, sym, Result, ok, err, drop, or_throw, reply_error, Option, ◌≡◌, Bool, true, ℕ, zero,
  suc, String, List, [], ◌∷◌, ◌++◌, arith,
}
use uwpx_push_server.Common.Action.{go_on, go_on-done, answered, done}
use uwpx_push_server.Json.{JsonLib}
use uwpx_push_server.Redis.{RedisLib}
use uwpx_push_server.RedisClient.{
  get_push_nodes, nodes_of, assert_node, load_push_account, get_node_secret, reuse,
}
use uwpx_push_server.Messages.SuccessSetPushAccounts.Account.{PushAccount}
use uwpx_push_server.PushServer.{in_db, Environment, PushServer}
use uwpx_push_server.PushServer.Accounts.{collect, with_account, Nodes, create_account, set_success}
use uwpx_push_server.PushServer.Accounts.Synchronised.{marked}
use uwpx_push_server.PushServer.Accounts.Runs.{in_db-done}

module _ (lib : RedisLib) (hash_sha256 : String → String) (device_id : String) (d : lib.Db) where
  -- The account of an id: with the node and the secret that load_push_account answers, from the
  -- database `d`, when it is given a new account of the id.
  pub record IsLoaded (account_id : String) (a : PushAccount) : Type 0 where
    pub fresh : PushAccount
    pub asked : fresh.account_id ≡ account_id
    pub loaded : PushAccount
    pub answered : load_push_account lib hash_sha256 device_id fresh d ≡ done (loaded, d)
    pub named : a.account_id ≡ account_id
    pub node : a.node ≡ loaded.node
    pub secret : a.secret ≡ loaded.secret

  -- One account for each id, in their order.
  abbrev pub AreLoaded : List String → List PushAccount → Type 0
  AreLoaded [] [] = Unit
  AreLoaded (account_id ∷ ids) (a ∷ accounts) = IsLoaded account_id a × AreLoaded ids accounts
  AreLoaded _ _ = ⊥

  append-AreLoaded :
      (ids : List String) (accounts : List PushAccount) (account_id : String) (a : PushAccount)
      → AreLoaded ids accounts
      → IsLoaded account_id a
      → AreLoaded (ids ++ account_id ∷ []) (accounts ++ a ∷ [])
  append-AreLoaded [] [] account_id a h l = (l, tt)
  append-AreLoaded [] (b ∷ accounts) account_id a h l = absurd h
  append-AreLoaded (i ∷ ids) [] account_id a h l = absurd h
  append-AreLoaded (i ∷ ids) (b ∷ accounts) account_id a h l =
      (h.0, append-AreLoaded ids accounts account_id a h.1 l)

  set_success-AreLoaded :
      (i : ℕ) (b : Bool) (ids : List String) (accounts : List PushAccount)
      → AreLoaded ids accounts
      → AreLoaded ids (set_success i b accounts)
  set_success-AreLoaded i b ids [] h = h
  set_success-AreLoaded i b [] (a ∷ accounts) h = absurd h
  set_success-AreLoaded zero b (j ∷ ids) (a ∷ accounts) h = (
    record {
      fresh = h.0.fresh;
      asked = h.0.asked;
      loaded = h.0.loaded;
      answered = h.0.answered;
      named = h.0.named;
      node = h.0.node;
      secret = h.0.secret;
    },
    h.1,
  )
  set_success-AreLoaded (suc i) b (j ∷ ids) (a ∷ accounts) h =
      (h.0, set_success-AreLoaded i b ids accounts h.1)

  pub marked-AreLoaded :
      (nodes : List (String × ℕ)) (ids : List String) (accounts : List PushAccount)
      → AreLoaded ids accounts
      → AreLoaded ids (marked nodes accounts)
  marked-AreLoaded [] ids accounts h = h
  marked-AreLoaded ((x, i) ∷ rest) ids accounts h =
      marked-AreLoaded rest ids (set_success i true accounts)
        (set_success-AreLoaded i true ids accounts h)

module _ (lib : RedisLib) (hash_sha256 : String → String) (device_id : String) where
  reuse_reads :
      (account a : PushAccount) (o : Option String) (d d' : lib.Db)
      → reuse lib hash_sha256 account o d ≡ done (a, d')
      → (d' ≡ d) × (a.account_id ≡ account.account_id)
  unfolding get_node_secret
  reuse_reads account a o d d' h = (ground arith, ground arith)

  load_push_account_reads :
      (account a : PushAccount) (d d' : lib.Db)
      → load_push_account lib hash_sha256 device_id account d ≡ done (a, d')
      → (d' ≡ d) × (a.account_id ≡ account.account_id)
  unfolding load_push_account get_node_secret
  load_push_account_reads account a d d' h = (ground arith, ground arith)

answered_reads :
    {S A : Type 0} (s s' : S) (r : Result A) (a : A) → answered s r ≡ done (a, s') → s' ≡ s
answered_reads s s' (ok b) a h = ground arith
answered_reads s s' (err e) a h = absurd (ground arith)

module _ (lib : RedisLib) where
  nodes_of_reads :
      (keys nodes : List String) (d d' : lib.Db) → nodes_of lib keys d ≡ done (nodes, d') → d' ≡ d
  unfolding nodes_of
  nodes_of_reads [] nodes d d' h = ground arith
  nodes_of_reads (k ∷ keys) nodes d d' h =
      let (found, d1, e1, k1) = go_on-done (answered d (or_throw reply_error (lib.get d k))) _ h in
      let (node, d2, e2, k2) = go_on-done (answered d1 (assert_node lib found)) _ k1 in
      let (later, d3, e3, k3) = go_on-done (nodes_of lib keys d2) _ k2 in
      let same : d3 ≡ d' = ground arith in
      sym same
      ∙ nodes_of_reads keys later d2 d3 e3
      ∙ answered_reads d1 d2 (assert_node lib found) node e2
      ∙ answered_reads d d1 (or_throw reply_error (lib.get d k)) found e1

  -- get_push_nodes leaves the database as it is.
  pub get_push_nodes_reads :
      (device_id : String) (old : List String) (d d' : lib.Db)
      → get_push_nodes lib device_id d ≡ done (old, d')
      → d' ≡ d
  unfolding get_push_nodes
  get_push_nodes_reads device_id old d d' h =
      let (keys, d1, e1, k1) =
        go_on-done (answered d (or_throw reply_error (lib.lrange d device_id))) _ h in
      nodes_of_reads (drop 2 keys) old d1 d' k1
      ∙ answered_reads d d1 (or_throw reply_error (lib.lrange d device_id)) keys e1

module _ (json : JsonLib) (lib : RedisLib) (ndebug : Bool) (env : Environment) where
  create_account_named :
      (account_id : String) (s : PushServer lib) (a : PushAccount) (s' : PushServer lib)
      → create_account json lib ndebug env account_id s ≡ done (a, s')
      → (a.account_id ≡ account_id) × (s'.wns.db ≡ s.wns.db)
  unfolding create_account
  create_account_named account_id s a s' h = (ground arith, ground arith)

  push_accounts-with_account :
      (a : PushAccount) (n : Nodes) → (with_account a n).push_accounts ≡ n.push_accounts ++ a ∷ []
  push_accounts-with_account a n = ground arith

  module _ (device_id : String) (d : lib.Db) where
    abbrev Loaded : List String → List PushAccount → Type 0
    Loaded = AreLoaded lib env.hash_sha256 device_id d

    -- The accounts that are collected are those of the ids, and the database is as it was.
    pub collect-AreLoaded :
        (before ids : List String) (n n' : Nodes) (s s' : PushServer lib)
        → s.wns.db ≡ d
        → Loaded before n.push_accounts
        → collect json lib ndebug env device_id ids n s ≡ done (n', s')
        → Loaded (before ++ ids) n'.push_accounts × (s'.wns.db ≡ d)
    unfolding collect
    collect-AreLoaded before [] n n' s s' q p h =
        let same_nodes : n ≡ n' = cc h in
        let same : s ≡ s' = cc h in
        (
          rw (append-nil before)
              (subst (λ (m : Nodes). Loaded before m.push_accounts) same_nodes p),
          sym (ap (λ (t : PushServer lib). t.wns.db) same) ∙ q,
        )
    collect-AreLoaded before (account_id ∷ rest) n n' s s' q p h =
        let (account, s1, e1, k1) =
          go_on-done (create_account json lib ndebug env account_id s)
            (λ account s1.
              go_on (in_db lib (load_push_account lib env.hash_sha256 device_id account) s1)
                λ loaded. collect json lib ndebug env device_id rest (with_account loaded n))
            h in
        let (loaded, s2, e2, k2) =
          go_on-done (in_db lib (load_push_account lib env.hash_sha256 device_id account) s1)
            (λ loaded. collect json lib ndebug env device_id rest (with_account loaded n)) k1 in
        let (asked, at1) = create_account_named account_id s account s1 e1 in
        let read =
          in_db-done lib (load_push_account lib env.hash_sha256 device_id account) s1 loaded s2
            e2 in
        let (same2, named) =
          load_push_account_reads lib env.hash_sha256 device_id account loaded s1.wns.db s2.wns.db
            read in
        let at_d : s1.wns.db ≡ d = at1 ∙ q in
        let answer : load_push_account lib env.hash_sha256 device_id account d ≡ done (loaded, d) =
          subst
            (λ (x : lib.Db).
              load_push_account lib env.hash_sha256 device_id account x ≡ done (loaded, x))
            at_d (read ∙ ap (λ (x : lib.Db). done (loaded, x)) same2) in
        let next : Loaded (before ++ account_id ∷ []) (with_account loaded n).push_accounts =
          rw (push_accounts-with_account loaded n) (
            append-AreLoaded lib env.hash_sha256 device_id d before n.push_accounts account_id
              loaded p
              (record {
                fresh = account;
                asked = asked;
                loaded = loaded;
                answered = answer;
                named = named ∙ asked;
                node = refl;
                secret = refl;
              })) in
        let (all, final) =
          collect-AreLoaded (before ++ account_id ∷ []) rest (with_account loaded n) n' s2 s'
            (same2 ∙ at_d) next k2 in
        (
          subst (λ (xs : List String). Loaded xs n'.push_accounts)
              (append_assoc before (account_id ∷ []) rest) all,
          final,
        )
