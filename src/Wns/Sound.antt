-- ===== src/Wns/Sound.antt =====
-- wns/WnsClient.cpp: how the operations of the client end, over a database that the handlers of the
-- push server can work on.
pub mod Loading
use uwpx_push_server.Common.{
  ◌≡◌, refl, ℕ, zero, suc, Bool, Bool-cases, inl, inr, true, false, String, Option, none, some,
  List, ◌∷◌, err, Error, nat_eq, if◌then◌else◌, arith, is_some,
}
use uwpx_push_server.Common.Action.{Action, pure, answered, ◌>>◌}
use uwpx_push_server.Common.Sound.{
  is_assertion, Sound, returned, go_on-Sound, Ends-Sound, answered-Sound, put_back-Sound,
}
use uwpx_push_server.Json.{JsonLib}
use uwpx_push_server.Redis.{RedisLib, RedisLaws}
use uwpx_push_server.Configuration.{WnsConfiguration}
use uwpx_push_server.RedisClient.WnsToken.{wns_token_key, set_wns_token}
use uwpx_push_server.RedisClient.Registry.{Kind, account_key, node}
use uwpx_push_server.RedisClient.Healthy.{Healthy}
use uwpx_push_server.RedisClient.Healthy.Token.{set_wns_token-Healthy}
use uwpx_push_server.Wns.Token.{parsed, WnsToken, from_json, from_response}
use uwpx_push_server.Wns.{
  notification, token_request, Response, Post, WnsClient, retry, error, success, ResponseCodeAction,
  request_new_token, store_token_in_db, set_token, stored, handle_response_code, attempts, judged,
  decided, auth_of, send_with, valid_at, is_token_valid, send_raw_notification,
}

module _ (json : JsonLib) (now : ℕ) where
  from_json-eq-err :
      (j : json.Json) (e : Error) → from_json json now j ≡ err e → is_assertion e ≡ false
  unfolding from_json
  from_json-eq-err j e h = ground arith

  parsed-eq-err :
      (o : Option json.Json) (e : Error) → parsed json now o ≡ err e → is_assertion e ≡ false
  parsed-eq-err none e h = ground arith
  parsed-eq-err (some j) e h = from_json-eq-err j e h

  from_response-eq-err :
      (text : String) (e : Error) → from_response json now text ≡ err e → is_assertion e ≡ false
  unfolding from_response
  from_response-eq-err text e h = parsed-eq-err (json.parse text) e h

module _ (json : JsonLib) (lib : RedisLib) (config : WnsConfiguration)
    (answer : List Post → Response) (clock : List Post → ℕ) (kind : String → Kind)
    (laws : RedisLaws lib) (token_node : kind wns_token_key ≡ node) where
  abbrev pub IsHealthy : WnsClient lib → Type 0
  IsHealthy w = Healthy lib kind w.db

  abbrev Kept : {A : Type 0} → A → WnsClient lib → Type 0
  Kept a w = IsHealthy w

  -- Where the answer is true there is a token.
  abbrev IsReady : Bool → WnsClient lib → Type 0
  IsReady b w = IsHealthy w × (b ≡ true → is_some w.token ≡ true)

  stored-Sound :
      (t : Option WnsToken) (s : WnsClient lib)
      → IsHealthy s
      → s.token ≡ t
      → Sound IsReady IsHealthy (stored json lib config answer clock t s)
  unfolding store_token_in_db
  stored-Sound none s h e = returned (h, λ f. ground arith)
  stored-Sound (some t) s h e =
      go_on-Sound _ (λ _. pure true)
        (put_back-Sound (λ _ w. IsHealthy w × (is_some w.token ≡ true)) IsHealthy
          (λ d w. record w { db = d }) s (set_wns_token lib t.token t.type t.expires s.db)
          (Ends-Sound (λ _. Healthy lib kind) (Healthy lib kind)
            (set_wns_token lib t.token t.type t.expires) s.db
            (set_wns_token-Healthy lib kind laws token_node s.db h t.token t.type t.expires))
          (λ a d q. (q, ground arith)) (λ d q. q))
        (λ a w p. returned (p.0, λ _. p.1))

  pub request_new_token-Sound :
      (s : WnsClient lib)
      → IsHealthy s
      → Sound IsReady IsHealthy (request_new_token json lib config answer clock s)
  unfolding request_new_token
  request_new_token-Sound s h =
      let p = token_request config.packet_id config.client_secret in
      let s' : WnsClient lib = record s { posts = p ∷ s.posts } in
      let r = answer s'.posts in
      elim (Bool-cases (nat_eq r.status_code 200)) [
        | inl e ↦ simp e (
            go_on-Sound (answered s' (from_response json (clock s'.posts) r.text))
              (λ t.
                set_token json lib config answer clock t >> stored json lib config answer clock t)
              (answered-Sound Kept IsHealthy s' (from_response json (clock s'.posts) r.text)
                (from_response-eq-err json (clock s'.posts) r.text) h (λ _ _. h))
              (λ t w k. stored-Sound t (record w { token = t }) k refl))
        | inr e ↦ simp e (returned (h, λ f. ground arith))
      ]

  handle_response_code-Sound :
      (code : ℕ) (s : WnsClient lib)
      → IsHealthy s
      → Sound Kept IsHealthy (handle_response_code json lib config answer clock code s)
  unfolding handle_response_code
  handle_response_code-Sound code s h = elim (Bool-cases (nat_eq code 200)) [
    | inl c ↦ simp c (returned h)
    | inr c ↦ elim (Bool-cases (nat_eq code 401)) [
      | inl d ↦
          simp (c, d)
            (go_on-Sound (request_new_token json lib config answer clock s)
              (λ new. pure (if new then retry else error)) (request_new_token-Sound s h)
              (λ new w k. returned k.0))
      | inr d ↦ elim (Bool-cases (nat_eq code 503)) [
        | inl f ↦ simp (c, d, f) (returned h)
        | inr f ↦ simp (c, d, f) (returned h)
      ]
    ]
  ]

  module _ (again : Action (WnsClient lib) Bool)
      (again-Sound : (s : WnsClient lib) → IsHealthy s → Sound Kept IsHealthy (again s)) where
    decided-Sound :
        (a : ResponseCodeAction) (s : WnsClient lib)
        → IsHealthy s
        → Sound Kept IsHealthy (decided json lib config answer clock a again s)
    decided-Sound success s h = returned h
    decided-Sound retry s h = again-Sound s h
    decided-Sound error s h = returned h

    judged-Sound :
        (r : Response) (s : WnsClient lib)
        → IsHealthy s
        → Sound Kept IsHealthy (judged json lib config answer clock r again s)
    judged-Sound r s h = elim (Bool-cases r.failed) [
      | inl e ↦ simp e (again-Sound s h)
      | inr e ↦ simp e (
          go_on-Sound (handle_response_code json lib config answer clock r.status_code s)
            (λ a. decided json lib config answer clock a again)
            (handle_response_code-Sound r.status_code s h) decided-Sound)
    ]

  attempts-Sound :
      (n : ℕ) (p : Post) (s : WnsClient lib)
      → IsHealthy s
      → Sound Kept IsHealthy (attempts json lib config answer clock n p s)
  unfolding attempts
  attempts-Sound zero p s h = returned h
  attempts-Sound (suc n) p s h =
      judged-Sound (attempts json lib config answer clock n p) (attempts-Sound n p)
        (answer (p ∷ s.posts)) (record s { posts = p ∷ s.posts }) h

  auth_of-Sound :
      (t : Option WnsToken) (s : WnsClient lib)
      → is_some t ≡ true
      → IsHealthy s
      → Sound Kept IsHealthy (answered s (auth_of json lib config answer clock t))
  auth_of-Sound none s e h = absurd (ground arith)
  auth_of-Sound (some t) s e h = returned h

  module _ (channel_uri content : String) where
    send_with-Sound :
        (ready : Bool) (s : WnsClient lib)
        → IsReady ready s
        → Sound Kept IsHealthy (send_with json lib config answer clock ready channel_uri content s)
    send_with-Sound false s h = returned h.0
    send_with-Sound true s h =
        go_on-Sound (answered s (auth_of json lib config answer clock s.token))
          (λ auth. attempts json lib config answer clock 3 (notification channel_uri auth content))
          (auth_of-Sound s.token s (h.1 refl) h.0) (λ auth w k. attempts-Sound 3 _ w k)

    valid_token :
        (now : ℕ) (t : Option WnsToken)
        → valid_at json lib config answer clock now t ≡ true
        → is_some t ≡ true
    valid_token now none h = h
    valid_token now (some t) h = refl

    -- send_raw_notification returns or throws an exception, whatever the service answers, and the
    -- database stays healthy.
    pub send_raw_notification-Sound :
        (s : WnsClient lib)
        → IsHealthy s
        → Sound Kept IsHealthy
            (send_raw_notification json lib config answer clock channel_uri content s)
    unfolding send_raw_notification is_token_valid
    send_raw_notification-Sound s h =
        elim (Bool-cases (valid_at json lib config answer clock (clock s.posts) s.token)) [
          | inl v ↦ simp v (send_with-Sound true s (h, λ _. valid_token (clock s.posts) s.token v))
          | inr v ↦ simp v (
              go_on-Sound (request_new_token json lib config answer clock s)
                (λ ready. send_with json lib config answer clock ready channel_uri content)
                (request_new_token-Sound s h) send_with-Sound)
        ]
