-- ===== src/PushServer/Accounts/Runs.antt =====
-- server/PushServer.cpp: the loops of set_push_accounts, run on a connection to the XMPP server.
use mathlib.Core.Path.{subst}
use uwpx_push_server.RedisClient.{load_push_account}
use uwpx_push_server.Common.{◌≡◌, refl, ◌∙◌, Bool, true, ℕ, String, List, [], ◌∷◌, arith}
use uwpx_push_server.Common.Action.{go_on-done, go_on, for_each, Ran, Action, done, threw, put_back}
use uwpx_push_server.Json.{JsonLib}
use uwpx_push_server.Redis.{RedisLib}
use uwpx_push_server.Xmpp.{
  connected, setup_push_node, delete_push_node, Stanza, pep_publish_empty, pep_subscribe,
  pep_unsubscribe, pep_delete,
}
use uwpx_push_server.Messages.SuccessSetPushAccounts.Account.{PushAccount}
use uwpx_push_server.PushServer.{Environment, PushServer, in_db}
use uwpx_push_server.PushServer.Accounts.{
  with_account, Nodes, set_up, delete_all, collect, create_account, set_success,
}
use uwpx_push_server.PushServer.Accounts.Placing.{with_account-Placed, Placed}
use uwpx_push_server.PushServer.Accounts.Synchronised.{after_delete, after_set_up, marked}

module _ (lib : RedisLib) where
  in_part :
      {A : Type 0} (r : Ran lib.Db A) (s : PushServer lib) (a : A) (s' : PushServer lib)
      → put_back (λ w s. record s { wns = w }) s (put_back (λ d w. record w { db = d }) s.wns r)
        ≡ done (a, s')
      → r ≡ done (a, s'.wns.db)
  in_part (done r) s a s' h = ground arith
  in_part (threw e d) s a s' h = absurd (ground arith)

  -- what has been done in the database
  pub in_db-done :
      {A : Type 0} (m : Action lib.Db A) (s : PushServer lib) (a : A) (s' : PushServer lib)
      → in_db lib m s ≡ done (a, s')
      → m s.wns.db ≡ done (a, s'.wns.db)
  in_db-done m s a s' h = in_part (m s.wns.db) s a s' h

  quiet_ran :
      {A : Type 0} (r : Ran lib.Db A) (s : PushServer lib) (a : A) (s' : PushServer lib)
      → put_back (λ w s. record s { wns = w }) s (put_back (λ d w. record w { db = d }) s.wns r)
        ≡ done (a, s')
      → s'.stanzas ≡ s.stanzas
  quiet_ran (done r) s a s' h = ground arith
  quiet_ran (threw e d) s a s' h = absurd (ground arith)

  -- an action on a part that is not the stanzas leaves them as they are
  pub quiet :
      {A : Type 0} (m : Action lib.Db A) (s : PushServer lib) (a : A) (s' : PushServer lib)
      → in_db lib m s ≡ done (a, s')
      → s'.stanzas ≡ s.stanzas
  quiet m s a s' h = quiet_ran (m s.wns.db) s a s' h

module _ (json : JsonLib) (lib : RedisLib) (ndebug : Bool) (env : Environment)
    (up : env.connection ≡ connected) where
  abbrev pub with_stanzas : PushServer lib → List Stanza → PushServer lib
  with_stanzas s sent = record s { stanzas = sent }

  pub delete_all_lem :
      (nodes : List String) (s : PushServer lib)
      → delete_all json lib ndebug env nodes s
        ≡ done (tt, with_stanzas s (after_delete nodes s.stanzas))
  unfolding for_each delete_push_node
  delete_all_lem [] s = refl
  delete_all_lem (x ∷ rest) s =
      simp (up, delete_all_lem rest (with_stanzas s (pep_delete x ∷ pep_unsubscribe x ∷ s.stanzas)))

  pub set_up_lem :
      (nodes : List (String × ℕ)) (accounts : List PushAccount) (s : PushServer lib)
      → set_up json lib ndebug env nodes accounts s
        ≡ done (marked nodes accounts, with_stanzas s (after_set_up nodes s.stanzas))
  unfolding set_up setup_push_node
  set_up_lem [] accounts s = refl
  set_up_lem ((x, i) ∷ rest) accounts s = simp (
    up,
    set_up_lem rest (set_success i true accounts)
        (with_stanzas s (pep_subscribe x ∷ pep_publish_empty x ∷ s.stanzas)),
  )

  create_account_quiet :
      (account_id : String) (s : PushServer lib) (a : PushAccount) (s' : PushServer lib)
      → create_account json lib ndebug env account_id s ≡ done (a, s')
      → s'.stanzas ≡ s.stanzas
  unfolding create_account
  create_account_quiet account_id s a s' h = ground arith

  pub collect_lem :
      (old : List String) (device_id : String) (ids : List String) (n n' : Nodes)
      (s s' : PushServer lib)
      → Placed old n
      → collect json lib ndebug env device_id ids n s ≡ done (n', s')
      → Placed old n' × (s'.stanzas ≡ s.stanzas)
  unfolding collect
  collect_lem old device_id [] n n' s s' p h = (subst (λ m. Placed old m) (cc h) p, cc h)
  collect_lem old device_id (account_id ∷ rest) n n' s s' p h =
      let (account, s1, e1, k1) =
        go_on-done (create_account json lib ndebug env account_id s)
          (λ account s1.
            go_on (in_db lib (load_push_account lib env.hash_sha256 device_id account) s1)
              λ loaded. collect json lib ndebug env device_id rest (with_account loaded n))
          h in
      let (loaded, s2, e2, k2) =
        go_on-done (in_db lib (load_push_account lib env.hash_sha256 device_id account) s1)
          (λ loaded. collect json lib ndebug env device_id rest (with_account loaded n)) k1 in
      let (placed, same) =
        collect_lem old device_id rest (with_account loaded n) n' s2 s'
          (with_account-Placed old loaded n p) k2 in
      (
        placed,
        same
            ∙ quiet lib (load_push_account lib env.hash_sha256 device_id account) s1 loaded s2 e2
            ∙ create_account_quiet account_id s account s1 e1,
      )
