-- ===== src/Wns/Requests.antt =====
-- Which requests send_raw_notification makes, and what it takes for a success.
use mathlib.Core.List.{head?}
use uwpx_push_server.Common.{
  ap, Error, inl, inr, Bool-cases, sym, ◌≡◌, refl, ℕ, zero, suc, Bool, true, false, String, Option,
  none, some, List, ◌∷◌, nat_eq, if◌then◌else◌, arith,
}
use uwpx_push_server.Common.Action.{
  answered, go_on-done, pure, go_on, Ran, Action, done, threw, left,
}
use uwpx_push_server.Json.{JsonLib}
use uwpx_push_server.Redis.{RedisLib}
use uwpx_push_server.Configuration.{WnsConfiguration}
use uwpx_push_server.Wns.Token.{WnsToken, to_auth_string}
use uwpx_push_server.Wns.{
  auth_of, valid_at, send_with, decided, retry, error, Response, Post, token_request, notification,
  WnsClient, request_new_token, store_token_in_db, handle_response_code, attempts,
  send_raw_notification, is_token_valid, judged,
}

-- The requests from `old` to `new`, newest first, of at most `n` attempts to send `p`: a token may
-- be asked for after each attempt, by the request `ask`, and `p` is the same each time.
pub data Attempted (ask p : Post) : ℕ → List Post → List Post → Type 0 where
  stopped : {n : ℕ} {old : List Post} → Attempted ask p n old old
  tried :
      {n : ℕ} {old new : List Post}
      → Attempted ask p n (p ∷ old) new
      → Attempted ask p (suc n) old new
  refreshed :
      {n : ℕ} {old new : List Post}
      → Attempted ask p n (ask ∷ p ∷ old) new
      → Attempted ask p (suc n) old new

-- The requests of send_raw_notification: at most one for a token, then at most three attempts with
-- one and the same Authorization header.
pub data Sent (ask : Post) (channel_uri content : String) (old new : List Post) : Type 0 where
  directly :
      (auth : String)
      → Attempted ask (notification channel_uri auth content) 3 old new
      → Sent ask channel_uri content old new
  renewed_first :
      (auth : String)
      → Attempted ask (notification channel_uri auth content) 3 (ask ∷ old) new
      → Sent ask channel_uri content old new

module _ (json : JsonLib) (lib : RedisLib) (config : WnsConfiguration)
    (answer : List Post → Response) (clock : List Post → ℕ) where
  abbrev pub ask : Post
  ask = token_request config.packet_id config.client_secret

  -- One request is made for a token, whatever the answer to it is.
  pub request_new_token_lem :
      (s : WnsClient lib)
      → (left (request_new_token json lib config answer clock s)).posts ≡ ask ∷ s.posts
  unfolding request_new_token store_token_in_db
  request_new_token_lem s = ground arith

  -- The last request is `p`, and the service has accepted it.
  abbrev pub Accepted : Post → WnsClient lib → Type 0
  Accepted p s =
      (head? s.posts ≡ some p)
      × ((answer s.posts).failed ≡ false)
      × (nat_eq (answer s.posts).status_code 200 ≡ true)

  module _ (again : Action (WnsClient lib) Bool) where
    -- How an attempt ends, from the state `s` after its request.
    data Judged (r : Response) (s : WnsClient lib) : Ran (WnsClient lib) Bool → Type 0 where
      accepted : r.failed ≡ false → nat_eq r.status_code 200 ≡ true → Judged r s (done (true, s))
      refused : Judged r s (done (false, s))
      repeated : Judged r s (again s)
      asked : {s' : WnsClient lib} → s'.posts ≡ ask ∷ s.posts → Judged r s (done (false, s'))
      failed : {e : Error} {s' : WnsClient lib} → s'.posts ≡ ask ∷ s.posts → Judged r s (threw e s')
      asked_repeated : {s' : WnsClient lib} → s'.posts ≡ ask ∷ s.posts → Judged r s (again s')

    renewed-Judged :
        (r : Response) (s : WnsClient lib) (x : Ran (WnsClient lib) Bool)
        → (left x).posts ≡ ask ∷ s.posts
        → Judged r s (
            go_on
              (go_on x (λ new. pure (if new then retry else error)))
              (λ result. decided json lib config answer clock result again))
    renewed-Judged r s (done (true, s')) h = asked_repeated h
    renewed-Judged r s (done (false, s')) h = asked h
    renewed-Judged r s (threw e s') h = failed h

    judged-Judged :
        (r : Response) (s : WnsClient lib)
        → Judged r s (judged json lib config answer clock r again s)
    unfolding handle_response_code
    judged-Judged r s = elim (Bool-cases r.failed) [
      | inl e ↦ simp e repeated
      | inr e ↦ elim (Bool-cases (nat_eq r.status_code 200)) [
        | inl c ↦ simp (e, c) (accepted e c)
        | inr c ↦ elim (Bool-cases (nat_eq r.status_code 401)) [
          | inl d ↦
              simp (e, c, d)
                (renewed-Judged r s (request_new_token json lib config answer clock s)
                  (request_new_token_lem s))
          | inr d ↦ elim (Bool-cases (nat_eq r.status_code 503)) [
            | inl f ↦ simp (e, c, d, f) repeated
            | inr f ↦ simp (e, c, d, f) refused
          ]
        ]
      ]
    ]

  module _ (p : Post) (n : ℕ) (s : WnsClient lib) where
    abbrev Outcome : Ran (WnsClient lib) Bool → Type 0
    Outcome =
        Judged (attempts json lib config answer clock n p) (answer (p ∷ s.posts))
          (record s { posts = p ∷ s.posts })

    Outcome-Accepted :
        (x : Ran (WnsClient lib) Bool) (s' : WnsClient lib)
        → ((s₁ s₂ : WnsClient lib)
            → attempts json lib config answer clock n p s₁ ≡ done (true, s₂)
            → Accepted p s₂)
        → Outcome x
        → x ≡ done (true, s')
        → Accepted p s'
    Outcome-Accepted x s' later (accepted f c) h = rw (sym (ap left h)) (refl, f, c)
    Outcome-Accepted x s' later refused h = ground arith
    Outcome-Accepted x s' later repeated h = later _ s' h
    Outcome-Accepted x s' later (asked e) h = ground arith
    Outcome-Accepted x s' later (failed e) h = ground arith
    Outcome-Accepted x s' later (asked_repeated e) h = later _ s' h

    Outcome-Attempted :
        (x : Ran (WnsClient lib) Bool)
        → ((s' : WnsClient lib)
            → Attempted ask p n s'.posts
                (left (attempts json lib config answer clock n p s')).posts)
        → Outcome x
        → Attempted ask p (suc n) s.posts (left x).posts
    Outcome-Attempted x later (accepted f c) = tried stopped
    Outcome-Attempted x later refused = tried stopped
    Outcome-Attempted x later repeated = tried (later _)
    Outcome-Attempted x later (asked e) = refreshed (rw e stopped)
    Outcome-Attempted x later (failed e) = refreshed (rw e stopped)
    Outcome-Attempted x later (asked_repeated {s'} e) = refreshed (rw (sym e) (later s'))

  attempts-Accepted :
      (n : ℕ) (p : Post) (s s' : WnsClient lib)
      → attempts json lib config answer clock n p s ≡ done (true, s')
      → Accepted p s'
  unfolding attempts
  attempts-Accepted zero p s s' h = ground arith
  attempts-Accepted (suc n) p s s' h =
      Outcome-Accepted p n s _ s' (attempts-Accepted n p)
        (judged-Judged (attempts json lib config answer clock n p) (answer (p ∷ s.posts))
          (record s { posts = p ∷ s.posts }))
        h

  attempts-Attempted :
      (n : ℕ) (p : Post) (s : WnsClient lib)
      → Attempted ask p n s.posts (left (attempts json lib config answer clock n p s)).posts
  unfolding attempts
  attempts-Attempted zero p s = stopped
  attempts-Attempted (suc n) p s = Outcome-Attempted p n s _ (attempts-Attempted n p) (
      judged-Judged (attempts json lib config answer clock n p) (answer (p ∷ s.posts))
        (record s { posts = p ∷ s.posts }))

  module _ (channel_uri content : String) where
    abbrev Delivery : String → WnsClient lib → Ran (WnsClient lib) Bool → Type 0
    Delivery auth s x =
        Attempted ask (notification channel_uri auth content) 3 s.posts (left x).posts

    abbrev authorized : Option WnsToken → Action (WnsClient lib) Bool
    authorized t s =
        go_on (answered s (auth_of json lib config answer clock t))
          (λ auth. attempts json lib config answer clock 3 (notification channel_uri auth content))

    authorized-Delivery :
        (t : Option WnsToken) (s : WnsClient lib)
        → (auth : String) × Delivery auth s (authorized t s)
    authorized-Delivery none s = ("", stopped)
    authorized-Delivery (some t) s = (to_auth_string t, attempts-Attempted 3 _ s)

    send_with-Delivery :
        (ready : Bool) (s : WnsClient lib)
        → (auth : String) × Delivery auth s
            (send_with json lib config answer clock ready channel_uri content s)
    send_with-Delivery false s = ("", stopped)
    send_with-Delivery true s = authorized-Delivery s.token s

    -- once the answer to the request for a token is there
    renewed-Sent :
        (s : WnsClient lib) (x : Ran (WnsClient lib) Bool)
        → (left x).posts ≡ ask ∷ s.posts
        → Sent ask channel_uri content s.posts
            (left (
              go_on x
                (λ ready. send_with json lib config answer clock ready channel_uri content))).posts
    renewed-Sent s (threw e s') h = renewed_first "" (rw h stopped)
    renewed-Sent s (done (ready, s')) h =
        let (auth, d) = send_with-Delivery ready s' in renewed_first auth (rw (sym h) d)

    authorized-Accepted :
        (t : Option WnsToken) (s s' : WnsClient lib)
        → authorized t s ≡ done (true, s')
        → (auth : String) × Accepted (notification channel_uri auth content) s'
    authorized-Accepted none s s' h = absurd (ground arith)
    authorized-Accepted (some t) s s' h = (to_auth_string t, attempts-Accepted 3 _ s s' h)

    send_with-Accepted :
        (ready : Bool) (s s' : WnsClient lib)
        → send_with json lib config answer clock ready channel_uri content s ≡ done (true, s')
        → (auth : String) × Accepted (notification channel_uri auth content) s'
    send_with-Accepted false s s' h = absurd (ground arith)
    send_with-Accepted true s s' h = authorized-Accepted s.token s s' h

    -- send_raw_notification makes at most one request for a token and then at most three attempts
    -- with one and the same notification, each followed by at most one request for a token,
    -- whatever the answers are and even when it throws. The Authorization header is part of the
    -- notification, so it stays the same when a token is requested between two attempts.
    pub send_raw_notification-Sent :
        (s : WnsClient lib)
        → Sent ask channel_uri content s.posts
            (left (send_raw_notification json lib config answer clock channel_uri content s)).posts
    unfolding send_raw_notification is_token_valid
    send_raw_notification-Sent s =
        elim (Bool-cases (valid_at json lib config answer clock (clock s.posts) s.token)) [
          | inl v ↦ let (auth, d) = send_with-Delivery true s in rw v (directly auth d)
          | inr v ↦ rw v (
              renewed-Sent s (request_new_token json lib config answer clock s)
                (request_new_token_lem s))
        ]

    -- Where send_raw_notification returns true, its last request was the notification, for that
    -- channel and with that content, and the service has answered this very request with 200.
    pub send_raw_notification-Accepted :
        (s s' : WnsClient lib)
        → send_raw_notification json lib config answer clock channel_uri content s ≡ done (true, s')
        → (auth : String) × Accepted (notification channel_uri auth content) s'
    unfolding send_raw_notification is_token_valid
    send_raw_notification-Accepted s s' h =
        let (ready, s₁, _, sent) =
          go_on-done
            ((if valid_at json lib config answer clock (clock s.posts) s.token
                then pure true
                else request_new_token json lib config answer clock)
              s)
            (λ ready. send_with json lib config answer clock ready channel_uri content) h in
        send_with-Accepted ready s₁ s' sent
