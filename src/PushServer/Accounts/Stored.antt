-- ===== src/PushServer/Accounts/Stored.antt =====
-- server/PushServer.cpp: set_push_accounts, once the channel of the device is known, on a
-- connection to the XMPP server.
use uwpx_push_server.PushServer.Accounts.Named.{
  AreLoaded, collect-AreLoaded, marked-AreLoaded, get_push_nodes_reads,
}
use mathlib.Core.List.{head?}
use mathlib.Core.Path.{subst}
use uwpx_push_server.Xmpp.{Stanza, connected}
use uwpx_push_server.Common.{
  String, ◌∙◌, sym, ap, ℕ, err, Result, ◌≡◌, refl, Bool, some, List, [], ok, arith,
}
use uwpx_push_server.RedisClient.{get_push_nodes}
use uwpx_push_server.PushServer.{in_db, send, Environment, PushServer}
use uwpx_push_server.PushServer.Accounts.{set_contains, store_accounts, collect, Nodes, set_insert}
use uwpx_push_server.PushServer.Accounts.Placing.{map_has, Placed, set_contains-set_insert}
use uwpx_push_server.PushServer.Accounts.Synchronised.{
  sent-Synchronised, after_delete, after_set_up, marked, Synchronised,
}
use uwpx_push_server.PushServer.Accounts.Runs.{
  in_db-done, quiet, delete_all_lem, set_up_lem, collect_lem, with_stanzas,
}
use uwpx_push_server.Common.Action.{go_on-done, answered, go_on, done}
use uwpx_push_server.Json.{JsonLib}
use uwpx_push_server.Redis.{RedisLib}
use uwpx_push_server.RedisClient
use uwpx_push_server.Messages.SuccessSetPushAccounts
use uwpx_push_server.Messages.SuccessSetPushAccounts.Account.{PushAccount}

module _ (json : JsonLib) (lib : RedisLib) (ndebug : Bool) (env : Environment) where
  -- What a run for some account ids has come to that has returned: the accounts, which are those of
  -- the ids in their order, that were stored in the database and sent in the answer, and the
  -- stanzas that make the nodes of the XMPP server those of the accounts.
  pub record Stored (device_id version channel_uri : String) (ids : List String)
      (s s' : PushServer lib) : Type 0 where
    pub old : List String
    pub accounts : List PushAccount
    pub known : get_push_nodes lib device_id s.wns.db ≡ done (old, s.wns.db)
    pub loaded : AreLoaded lib env.hash_sha256 device_id s.wns.db ids accounts
    pub synchronised : Synchronised old accounts s.stanzas s'.stanzas
    pub stored :
        RedisClient.set_push_accounts lib env.hash_sha256 device_id channel_uri version accounts
          s.wns.db
        ≡ done (tt, s'.wns.db)
    pub message : json.Object
    pub made :
        SuccessSetPushAccounts.to_json json ndebug
          (SuccessSetPushAccounts.create accounts env.jid)
          json.empty
        ≡ ok message
    pub answer : head? s'.sent ≡ some (json.dump (json.json message))

  blank_nodes : List String → Nodes
  blank_nodes old = record { delete_nodes = set_insert old []; add_nodes = []; push_accounts = [] }

  blank-Placed : (old : List String) → Placed old (blank_nodes old)
  unfolding blank_nodes
  blank-Placed old = record {
    deleted = λ x. ground (arith, set_contains-set_insert x old []);
    covered = λ x. refl;
    needed = λ x. refl;
  }

  answered-done :
      (r : Result json.Object) (s s' : PushServer lib) (t : Unit {0})
      → go_on (answered s r) (λ j. send json lib ndebug j) ≡ done (t, s')
      → (j : json.Object) × (r ≡ ok j)
        × (head? s'.sent ≡ some (json.dump (json.json j)))
        × (s'.stanzas ≡ s.stanzas)
        × (s'.wns.db ≡ s.wns.db)
  unfolding send
  answered-done (ok j) s s' t h = (j, refl, ground arith, ground arith, ground arith)
  answered-done (err e) s s' t h = absurd (ground arith)

  module _ (up : env.connection ≡ connected)
      (same_set : (x : String) (set : List String)
        → set_contains x (env.set_order set) ≡ set_contains x set)
      (same_map : (x : String) (map : List (String × ℕ))
        → map_has x (env.map_order map) ≡ map_has x map) where
    -- On a connection to the XMPP server, whenever a run of set_push_accounts from where the
    -- channel is known returns: each old node of the device at which no account is any more has
    -- been unsubscribed from and deleted, and no other has; each node of an account that is not an
    -- old one has been made and subscribed to, and no node has been made that is not an account's;
    -- and the accounts are those of the ids, and are stored in the database and told to the device.
    -- The orders of iteration over a set and a map keep what is in them.
    pub store_accounts-Stored :
        (device_id version : String) (ids : List String) (channel_uri : String)
        (s s' : PushServer lib)
        → store_accounts json lib ndebug env device_id version ids channel_uri s ≡ done (tt, s')
        → Stored device_id version channel_uri ids s s'
    unfolding store_accounts blank_nodes
    store_accounts-Stored device_id version ids channel_uri s s' h =
        let (old, s1, e1, k1) = go_on-done (in_db lib (get_push_nodes lib device_id) s) _ h in
        let (n, s2, e2, k2) =
          go_on-done (collect json lib ndebug env device_id ids (blank_nodes old) s1) _ k1 in
        let (placed, same) =
          collect_lem json lib ndebug env up old device_id ids (blank_nodes old) n s1 s2
            (blank-Placed old) e2 in
        let s3 =
          with_stanzas json lib ndebug env up s2
            (after_delete (env.set_order n.delete_nodes) s2.stanzas) in
        let accounts = marked (env.map_order n.add_nodes) n.push_accounts in
        let s4 =
          with_stanzas json lib ndebug env up s3
            (after_set_up (env.map_order n.add_nodes) s3.stanzas) in
        let k3 =
          rw
            (
              delete_all_lem json lib ndebug env up (env.set_order n.delete_nodes) s2,
              set_up_lem json lib ndebug env up (env.map_order n.add_nodes) n.push_accounts s3,
            )
            at k2 in
        let (u, s5, e5, k5) =
          go_on-done
            (in_db lib
              (RedisClient.set_push_accounts lib env.hash_sha256 device_id channel_uri version
                accounts)
              s4)
            _ k3 in
        let (j, m, a, q, d) =
          answered-done
            (SuccessSetPushAccounts.to_json json ndebug
              (SuccessSetPushAccounts.create accounts env.jid) json.empty)
            s5 s' tt k5 in
        let read = in_db-done lib (get_push_nodes lib device_id) s old s1 e1 in
        let at1 : s1.wns.db ≡ s.wns.db =
          get_push_nodes_reads lib device_id old s.wns.db s1.wns.db read in
        let (loaded, at2) =
          collect-AreLoaded json lib ndebug env device_id s.wns.db [] ids (blank_nodes old) n s1 s2
            at1 tt e2 in
        let unchanged : s2.stanzas ≡ s.stanzas =
          same ∙ quiet lib (get_push_nodes lib device_id) s old s1 e1 in
        let final : s'.stanzas
            ≡ after_set_up (env.map_order n.add_nodes)
                (after_delete (env.set_order n.delete_nodes) s.stanzas) =
          q
          ∙ quiet lib
              (RedisClient.set_push_accounts lib env.hash_sha256 device_id channel_uri version
                accounts)
              s4 u s5 e5
          ∙ ap
              (λ (x : List Stanza).
                after_set_up (env.map_order n.add_nodes)
                  (after_delete (env.set_order n.delete_nodes) x))
              unchanged in
        record {
          old = old;
          accounts = accounts;
          known = read ∙ ap (λ (x : lib.Db). done (old, x)) at1;
          loaded =
              marked-AreLoaded lib env.hash_sha256 device_id s.wns.db (env.map_order n.add_nodes)
                ids n.push_accounts loaded;
          synchronised =
              subst (λ x. Synchronised old accounts s.stanzas x) (sym final)
                (sent-Synchronised env.set_order env.map_order same_set same_map old n s.stanzas
                  placed);
          stored =
              ap
                (RedisClient.set_push_accounts lib env.hash_sha256 device_id channel_uri version
                  accounts)
                (sym at2)
              ∙ in_db-done lib
                  (RedisClient.set_push_accounts lib env.hash_sha256 device_id channel_uri version
                    accounts)
                  s4 u s5 e5
              ∙ ap (λ (x : lib.Db). done (u, x)) (sym d);
          message = j;
          made = m;
          answer = a;
        }
