-- ===== src/PushServer/Replies.antt =====
-- Every message of a device is answered exactly once.
use mathlib.Core.Path.{subst}
use uwpx_push_server.Common.{
  ℕ, assertion_failed, type_error, out_of_range, reply_error, invalid_argument, ◌≡◌, refl, ◌∙◌,
  Bool, true, false, String, Option, none, some, List, [], ◌∷◌, Result, ok, err, arith, Bool-cases,
  inl, inr,
}
use uwpx_push_server.Common.Action.{
  handled, on_part, Ran, Action, answered, done, threw, left, go_on, for_each, put_back,
}
use uwpx_push_server.Json.{JsonLib}
use uwpx_push_server.Redis.{RedisLib}
use uwpx_push_server.PushServer.{
  Environment, PushServer, send, respond_with_success, respond_with_error, in_db, in_wns, in_xmpp,
}
use uwpx_push_server.RedisClient.{get_push_nodes, load_push_account, get_version, get_channel_uri}
use uwpx_push_server.RedisClient
use uwpx_push_server.Wns.{WnsClient, send_raw_notification}
use uwpx_push_server.Xmpp.{Stanza, setup_push_node, delete_push_node}
use uwpx_push_server.PushServer.Handlers.{
  received, on_message_received, handle, tested, is_valid_channel_uri, test_known, set_channel,
  send_test_push, notify, test_text,
}
use uwpx_push_server.PushServer.Accounts as Accounts
use uwpx_push_server.PushServer.Accounts.{
  Nodes, with_account, set_success, create_account, collect, set_up, delete_all, store_accounts,
  known,
}
use uwpx_push_server.Messages.SuccessSetPushAccounts.Account.{PushAccount}
use uwpx_push_server.Messages.Parser
use uwpx_push_server.Messages.Parser.{
  Message, set_channel_uri, set_push_accounts, request_test_push, success,
  success_set_push_accounts, failure, header,
}

module _ {lib : RedisLib} where
  -- A run that has sent nothing to the session.
  abbrev Silent {ℓ} : {A : Type ℓ} → List String → Ran (PushServer lib) A → Type 0
  Silent old x = (left x).sent ≡ old

  Silent-go_on {ℓ κ} :
      {A : Type ℓ} {B : Type κ} (old : List String) (x : Ran (PushServer lib) A)
      (k : A → Action (PushServer lib) B)
      → Silent old x
      → ((a : A) (s : PushServer lib) → Silent s.sent (k a s))
      → Silent old (go_on x k)
  Silent-go_on old (done (a, s)) k h f = f a s ∙ h
  Silent-go_on old (threw e s) k h f = h

  answered-Silent {ℓ} :
      {A : Type ℓ} (s : PushServer lib) (r : Result A) → Silent s.sent (answered s r)
  answered-Silent s (ok a) = refl
  answered-Silent s (err e) = refl

  put_back-Silent {ℓ κ} :
      {T : Type ℓ} {A : Type κ} (write : T → PushServer lib → PushServer lib) (s : PushServer lib)
      (r : Ran T A)
      → ((t : T) → (write t s).sent ≡ s.sent)
      → Silent s.sent (put_back write s r)
  put_back-Silent write s (done r) h = h r.1
  put_back-Silent write s (threw e t) h = h t

  in_wns-Silent {ℓ} :
      {A : Type ℓ} (m : Action (WnsClient lib) A) (s : PushServer lib)
      → Silent s.sent (in_wns lib m s)
  in_wns-Silent m s = put_back-Silent (λ w s. record s { wns = w }) s (m s.wns) (λ w. refl)

  in_xmpp-Silent {ℓ} :
      {A : Type ℓ} (m : Action (List Stanza) A) (s : PushServer lib)
      → Silent s.sent (in_xmpp lib m s)
  in_xmpp-Silent m s = put_back-Silent (λ x s. record s { stanzas = x }) s (m s.stanzas) (λ x. refl)

  in_db-Silent {ℓ} :
      {A : Type ℓ} (m : Action lib.Db A) (s : PushServer lib) → Silent s.sent (in_db lib m s)
  in_db-Silent m s = in_wns-Silent (on_part (λ w. w.db) (λ d w. record w { db = d }) m) s

  for_each-Silent {ℓ} :
      {A : Type ℓ} (body : A → Action (PushServer lib) (Unit {0})) (list : List A)
      (s : PushServer lib)
      → ((a : A) (s : PushServer lib) → Silent s.sent (body a s))
      → Silent s.sent (for_each body list s)
  unfolding for_each
  for_each-Silent body [] s h = refl
  for_each-Silent body (a ∷ rest) s h =
      Silent-go_on s.sent (body a s) (λ _. for_each body rest) (h a s)
        (λ _ s'. for_each-Silent body rest s' h)
  -- A call of the database, and then what replies.

module _ (json : JsonLib) {lib : RedisLib} where
  -- A run that has sent exactly one message to the session, a JSON text, if it has returned, and
  -- none if it has thrown.
  abbrev pub Replied {ℓ} : {A : Type ℓ} → List String → Ran (PushServer lib) A → Type 0
  Replied old (done r) = (answer : json.Json) × (r.1.sent ≡ json.dump answer ∷ old)
  Replied old (threw e s) = s.sent ≡ old

  Replied-go_on {ℓ κ} :
      {A : Type ℓ} {B : Type κ} (old : List String) (x : Ran (PushServer lib) A)
      (k : A → Action (PushServer lib) B)
      → Silent old x
      → ((a : A) (s : PushServer lib) → Replied s.sent (k a s))
      → Replied old (go_on x k)
  Replied-go_on old (done (a, s)) k h f = subst (λ o. Replied o (k a s)) h (f a s)
  Replied-go_on old (threw e s) k h f = h

  db-Replied {ℓ κ} :
      {A : Type ℓ} {B : Type κ} (m : Action lib.Db A) (k : A → Action (PushServer lib) B)
      (s : PushServer lib)
      → ((a : A) (s' : PushServer lib) → Replied s'.sent (k a s'))
      → Replied s.sent (go_on (in_db lib m s) k)
  db-Replied m k s h = Replied-go_on s.sent (in_db lib m s) k (in_db-Silent m s) h

module _ (json : JsonLib) (lib : RedisLib) (ndebug : Bool) (env : Environment) where
  written-Replied :
      (r : Result json.Object) (s : PushServer lib)
      → Replied json s.sent (go_on (answered s r) (send json lib ndebug))
  unfolding send
  written-Replied (ok j) s = (_, refl)
  written-Replied (err e) s = refl

  success-Replied :
      (s : PushServer lib) → Replied json s.sent (respond_with_success json lib ndebug s)
  unfolding respond_with_success
  success-Replied s = written-Replied _ s

  error-Replied :
      (msg : String) (s : PushServer lib)
      → Replied json s.sent (respond_with_error json lib ndebug msg s)
  unfolding respond_with_error
  error-Replied msg s = written-Replied _ s

  set_channel-Replied :
      (device_id uri : String) (s : PushServer lib)
      → Replied json s.sent (set_channel json lib ndebug env device_id uri s)
  unfolding set_channel
  set_channel-Replied device_id uri s = elim (Bool-cases (is_valid_channel_uri env uri)) [
    | inl v ↦ rw v (
        db-Replied json (RedisClient.set_channel_uri lib device_id uri)
          (λ _. respond_with_success json lib ndebug) s (λ _ s'. success-Replied s'))
    | inr v ↦ rw v (error-Replied _ s)
  ]

  test_text-Silent :
      (version : Option String) (s : PushServer lib)
      → Silent s.sent (test_text json lib ndebug env version s)
  unfolding test_text
  test_text-Silent version s = ground arith

  tested-Replied :
      (result : Bool) (s : PushServer lib)
      → Replied json s.sent (tested json lib ndebug env result s)
  tested-Replied true s = success-Replied s
  tested-Replied false s = error-Replied _ s

  test_known-Replied :
      (device_id : String) (uri : Option String) (s : PushServer lib)
      → Replied json s.sent (test_known json lib ndebug env device_id uri s)
  test_known-Replied device_id none s = error-Replied _ s
  test_known-Replied device_id (some uri) s =
      db-Replied json (get_version lib device_id) _ s λ version s₁.
        Replied-go_on json s₁.sent (test_text json lib ndebug env version s₁) _
          (test_text-Silent version s₁)
          λ msg s₂.
            Replied-go_on json s₂.sent (notify json lib ndebug env uri msg s₂) _
              (in_wns-Silent
                (send_raw_notification json lib env.config env.answer env.clock uri msg) s₂)
              tested-Replied

  send_test_push-Replied :
      (device_id : String) (s : PushServer lib)
      → Replied json s.sent (send_test_push json lib ndebug env device_id s)
  unfolding send_test_push
  send_test_push-Replied device_id s =
      db-Replied json (get_channel_uri lib device_id) _ s (test_known-Replied device_id)

  create_account-Silent :
      (account_id : String) (s : PushServer lib)
      → Silent s.sent (create_account json lib ndebug env account_id s)
  unfolding create_account
  create_account-Silent account_id s = ground arith

  collect-Silent :
      (device_id : String) (accounts : List String) (nodes : Nodes) (s : PushServer lib)
      → Silent s.sent (collect json lib ndebug env device_id accounts nodes s)
  unfolding collect
  collect-Silent device_id [] nodes s = refl
  collect-Silent device_id (a ∷ rest) nodes s =
      Silent-go_on s.sent (create_account json lib ndebug env a s) _ (create_account-Silent a s)
        λ account s₁.
          Silent-go_on s₁.sent
            (in_db lib (load_push_account lib env.hash_sha256 device_id account) s₁) _
            (in_db-Silent (load_push_account lib env.hash_sha256 device_id account) s₁)
            λ loaded s₂. collect-Silent device_id rest (with_account loaded nodes) s₂

  set_up-Silent :
      (nodes : List (String × ℕ)) (accounts : List PushAccount) (s : PushServer lib)
      → Silent s.sent (set_up json lib ndebug env nodes accounts s)
  unfolding set_up
  set_up-Silent [] accounts s = refl
  set_up-Silent ((node, i) ∷ rest) accounts s =
      Silent-go_on s.sent (in_xmpp lib (setup_push_node env.connection node) s) _
        (in_xmpp-Silent (setup_push_node env.connection node) s)
        λ success s₁. set_up-Silent rest (set_success i success accounts) s₁

  store_accounts-Replied :
      (device_id version : String) (accounts : List String) (uri : String) (s : PushServer lib)
      → Replied json s.sent (store_accounts json lib ndebug env device_id version accounts uri s)
  unfolding store_accounts
  store_accounts-Replied device_id version accounts uri s =
      db-Replied json (get_push_nodes lib device_id) _ s λ old s₁.
        Replied-go_on json s₁.sent (collect json lib ndebug env device_id accounts _ s₁) _
          (collect-Silent device_id accounts _ s₁)
          λ nodes s₂.
            Replied-go_on json s₂.sent
              (delete_all json lib ndebug env (env.set_order nodes.delete_nodes) s₂) _
              (for_each-Silent (λ node. in_xmpp lib (delete_push_node env.connection node))
                (env.set_order nodes.delete_nodes) s₂
                (λ node. in_xmpp-Silent (delete_push_node env.connection node)))
              λ _ s₃.
                Replied-go_on json s₃.sent
                  (set_up json lib ndebug env (env.map_order nodes.add_nodes) nodes.push_accounts
                    s₃)
                  _ (set_up-Silent (env.map_order nodes.add_nodes) nodes.push_accounts s₃)
                  λ stored s₄.
                    db-Replied json
                      (RedisClient.set_push_accounts lib env.hash_sha256 device_id uri version
                        stored)
                      _ s₄ λ _ s₅. written-Replied _ s₅

  known-Replied :
      (go : String → Action (PushServer lib) (Unit {0})) (uri : Option String) (s : PushServer lib)
      → ((uri : String) → Replied json s.sent (go uri s))
      → Replied json s.sent (known json lib ndebug env go uri s)
  known-Replied go none s h = error-Replied _ s
  known-Replied go (some uri) s h = h uri

  set_push_accounts-Replied :
      (device_id version : String) (accounts : List String) (s : PushServer lib)
      → Replied json s.sent
          (Accounts.set_push_accounts json lib ndebug env device_id version accounts s)
  unfolding Accounts.set_push_accounts
  set_push_accounts-Replied device_id version accounts s =
      db-Replied json (get_channel_uri lib device_id) _ s λ uri s₁.
        known-Replied (store_accounts json lib ndebug env device_id version accounts) uri s₁
          (λ uri. store_accounts-Replied device_id version accounts uri s₁)

  handle-Replied :
      (m : Message) (s : PushServer lib) → Replied json s.sent (handle json lib ndebug env m s)
  unfolding handle
  handle-Replied (set_channel_uri m) s = set_channel-Replied m.device_id m.channel_uri s
  handle-Replied (set_push_accounts m) s = set_push_accounts-Replied m.device_id _ m.accounts s
  handle-Replied (request_test_push m) s = send_test_push-Replied m.device_id s
  handle-Replied (success m) s = error-Replied _ s
  handle-Replied (success_set_push_accounts m) s = error-Replied _ s
  handle-Replied (failure m) s = error-Replied _ s

  handled-Replied :
      (old : List String) (x : Ran (PushServer lib) (Unit {0})) (msg : String)
      → Replied json old x
      → Replied json old (handled x (respond_with_error json lib ndebug msg))
  handled-Replied old (done r) msg h = h
  handled-Replied old (threw type_error s) msg h =
      subst (λ o. Replied json o (respond_with_error json lib ndebug msg s)) h (error-Replied msg s)
  handled-Replied old (threw out_of_range s) msg h =
      subst (λ o. Replied json o (respond_with_error json lib ndebug msg s)) h (error-Replied msg s)
  handled-Replied old (threw invalid_argument s) msg h =
      subst (λ o. Replied json o (respond_with_error json lib ndebug msg s)) h (error-Replied msg s)
  handled-Replied old (threw reply_error s) msg h =
      subst (λ o. Replied json o (respond_with_error json lib ndebug msg s)) h (error-Replied msg s)
  handled-Replied old (threw assertion_failed s) msg h = h

  received-Replied :
      (m : Option Message) (s : PushServer lib)
      → Replied json s.sent (received json lib ndebug env m s)
  received-Replied none s = error-Replied _ s
  received-Replied (some m) s = elim (Bool-cases (header m).is_valid) [
    | inl v ↦
        simp v (handled-Replied s.sent (handle json lib ndebug env m s) _ (handle-Replied m s))
    | inr v ↦ simp v (error-Replied _ s)
  ]

  -- Whatever a device sends, it is sent exactly one message back, a JSON text, if the handler
  -- returns, and none if the handler throws.
  pub on_message_received-Replied :
      (text : String) (s : PushServer lib)
      → Replied json s.sent (on_message_received json lib ndebug env text s)
  unfolding on_message_received
  on_message_received-Replied text s =
      Replied-go_on json s.sent (answered s (Parser.parse json ndebug text)) _
        (answered-Silent s (Parser.parse json ndebug text)) received-Replied
