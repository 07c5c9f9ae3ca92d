-- ===== src/PushServer/Setup.antt =====
-- server/PushServer.cpp: check_setup_wns, which the loop of thread_run calls once a second.
use uwpx_push_server.Common.{◌≡◌, refl, ◌∙◌, Bool, true, false, List, ◌∷◌, Bool-cases, inl, inr}
use uwpx_push_server.Common.Action.{
  Ran, Action, pure, done, threw, left, go_on, put_back, ◌>>=◌, ◌>>◌,
}
use uwpx_push_server.Json.{JsonLib}
use uwpx_push_server.Redis.{RedisLib}
use uwpx_push_server.Wns.{WnsClient, Post, is_token_valid, request_new_token, valid_at}
use uwpx_push_server.Wns.Requests.{ask, request_new_token_lem}
use uwpx_push_server.PushServer.{Environment, PushServer, in_wns}

module _ (json : JsonLib) (lib : RedisLib) (env : Environment) where
  abbrev pub request : Action (PushServer lib) Bool
  request = in_wns lib (request_new_token json lib env.config env.answer env.clock)

  -- the second request, ten seconds later; a failure is only logged
  abbrev pub again_unless : Bool → Action (PushServer lib) (Unit {0})
  again_unless true = pure tt
  again_unless false = do request; pure tt

  abbrev pub setup_unless : Bool → Action (PushServer lib) (Unit {0})
  setup_unless true = pure tt
  setup_unless false = do first ← request; again_unless first

  unfoldable pub check_setup_wns : Action (PushServer lib) (Unit {0})
  check_setup_wns = do
    valid ← in_wns lib (is_token_valid json lib env.config env.answer env.clock)
    setup_unless valid

  -- The requests that are made, by whether the token was valid.
  pub data Renewed (old : List Post) : Bool → List Post → Type 0 where
    untouched : Renewed old true old
    once : Renewed old false (ask json lib env.config env.answer env.clock ∷ old)
    twice : Renewed old false (
        ask json lib env.config env.answer env.clock
        ∷ ask json lib env.config env.answer env.clock
        ∷ old)

  put_back_posts :
      {A : Type 0} (s : PushServer lib) (r : Ran (WnsClient lib) A)
      → (left (put_back (λ w s. record s { wns = w }) s r)).wns.posts ≡ (left r).posts
  put_back_posts s (done r) = refl
  put_back_posts s (threw e w) = refl

  request_posts :
      (s : PushServer lib)
      → (left (request s)).wns.posts ≡ ask json lib env.config env.answer env.clock ∷ s.wns.posts
  request_posts s =
      put_back_posts s (request_new_token json lib env.config env.answer env.clock s.wns)
      ∙ request_new_token_lem json lib env.config env.answer env.clock s.wns

  pure_posts :
      (x : Ran (PushServer lib) Bool)
      → (left (go_on x (λ _. pure {A = Unit {0}} tt))).wns.posts ≡ (left x).wns.posts
  pure_posts (done r) = refl
  pure_posts (threw e s) = refl

  again-Renewed :
      (old : List Post) (x : Ran (PushServer lib) Bool)
      → (left x).wns.posts ≡ ask json lib env.config env.answer env.clock ∷ old
      → Renewed old false (left (go_on x again_unless)).wns.posts
  again-Renewed old (threw e s) h = rw h once
  again-Renewed old (done (true, s)) h = rw h once
  again-Renewed old (done (false, s)) h = rw (pure_posts (request s), request_posts s, h) twice

  -- check_setup_wns makes no request where the token is valid, and one or two requests for a token,
  -- and no others, where there is no valid token.
  pub check_setup_wns-Renewed :
      (s : PushServer lib)
      → Renewed s.wns.posts
          (valid_at json lib env.config env.answer env.clock (env.clock s.wns.posts) s.wns.token)
          (left (check_setup_wns s)).wns.posts
  unfolding check_setup_wns is_token_valid
  check_setup_wns-Renewed s =
      elim (Bool-cases
        (valid_at json lib env.config env.answer env.clock (env.clock s.wns.posts) s.wns.token)) [
          | inl v ↦ rw v untouched
          | inr v ↦ rw v (again-Renewed s.wns.posts (request s) (request_posts s))
        ]
