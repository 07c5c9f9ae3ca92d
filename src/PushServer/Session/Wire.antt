-- ===== src/PushServer/Session/Wire.antt =====
-- tcp/ClientSslSession.cpp: the bytes that a session writes, and how a reader takes messages from
-- them.
use Prim.Native.Char.{Char, code}
use mathlib.Core.Path.{subst}
use text.Mathlib.TextLemmas.{append_assoc, nil-append, cons-append, append-nil}
use uwpx_push_server.Common.{
  ℕ, suc, ◌<◌, ◌≡◌, refl, sym, ap, ◌∙◌, ◌&◌, ◌&&◌, ◌+◌, Bool, true, false, not, String, List, [],
  ◌∷◌, length, arith, All, nat_eq, if◌then◌else◌, assertion_failed,
}
use uwpx_push_server.Common.Action.{Ran, Action, done, threw, go_on, for_each}
use uwpx_push_server.Json.{JsonLib}
use uwpx_push_server.Redis.{RedisLib}
use uwpx_push_server.PushServer.{Environment, PushServer}
use uwpx_push_server.PushServer.Handlers.{on_message_received}
use uwpx_push_server.PushServer.Session.{converse, on_received}
use uwpx_push_server.PushServer.Replies.{Replied, on_message_received-Replied}
use uwpx_push_server.PushServer.Errors.{Contained, on_message_received-Contained}

-- Send(msg.c_str(), msg.size() + 1): the characters of the message and the NUL behind them
unfoldable pub written : String → String
written msg = msg & "\0"

-- what has been written for some messages, the newest first
unfoldable pub stream : List String → String
unfolding written
stream [] = ""
stream (msg ∷ older) = stream older & written msg

-- What a reader has found: whole messages, the newest first, and the characters behind the last
-- NUL.
pub record Reader : Type 0 where
  pub messages : List String
  pub buffer : String

abbrev pub fresh : Reader
fresh = record { messages = []; buffer = "" }

unfoldable is_nul : Char → Bool
is_nul c = nat_eq (code c) 0

unfoldable take : Char → Reader → Reader
unfolding is_nul
take c r =
    if is_nul c
    then record { messages = r.buffer ∷ r.messages; buffer = "" }
    else record r { buffer = r.buffer & String.◌∷◌ c "" }

unfoldable pub receive : Reader → String → Reader
unfolding take
receive r String.[] = r
receive r (String.◌∷◌ c s) = receive (take c r) s

unfoldable pub nul_free : String → Bool
unfolding is_nul
nul_free String.[] = true
nul_free (String.◌∷◌ c s) = not (is_nul c) && nul_free s

abbrev pub NulFree : String → Type 0
NulFree s = nul_free s ≡ true

-- It does not matter in which parts the bytes arrive.
receive-append : (s t : String) (r : Reader) → receive r (s & t) ≡ receive (receive r s) t
unfolding receive
receive-append String.[] t r = rw (nil-append t) refl
receive-append (String.◌∷◌ c s) t r = rw (cons-append c s t) (receive-append s t (take c r))

append_one : (b s : String) (c : Char) → (b & String.◌∷◌ c "") & s ≡ b & String.◌∷◌ c s
append_one b s c = simp (append_assoc, cons-append, nil-append)

receive-text :
    (msg : String) (r : Reader) → NulFree msg → receive r msg ≡ record r { buffer = r.buffer & msg }
unfolding receive take nul_free
receive-text String.[] r h = rw (append-nil r.buffer) refl
receive-text (String.◌∷◌ c s) r h =
    let (p, q) : (is_nul c ≡ false) × NulFree s = (ground arith, ground arith) in
    rw p (
      receive-text s (record r { buffer = r.buffer & String.◌∷◌ c "" }) q
      ∙ ap (λ (b : String). record r { buffer = b }) (append_one r.buffer s c))

receive-written :
    (msg : String) (r : Reader)
    → NulFree msg
    → receive r (written msg) ≡ record { messages = (r.buffer & msg) ∷ r.messages; buffer = "" }
unfolding receive written take is_nul
receive-written msg r h =
    receive-append msg "\0" r ∙ ap (λ (x : Reader). receive x "\0") (receive-text msg r h)

receive-stream :
    (sent : List String)
    → All NulFree sent
    → receive fresh (stream sent) ≡ record { messages = sent; buffer = "" }
unfolding stream receive
receive-stream [] h = refl
receive-stream (msg ∷ older) h =
    receive-append (stream older) (written msg) fresh
    ∙ rw (receive-stream older h.1) (receive-written msg _ h.0)
    ∙ ap (λ (m : String). record { messages = m ∷ older; buffer = "" }) (nil-append msg)

module _ (json : JsonLib) where
  abbrev pub IsJsonText : String → Type 0
  IsJsonText text = (j : json.Json) × (text ≡ json.dump j)

  -- A reader has got `n` JSON texts, and nothing but them.
  abbrev pub Got : ℕ → Reader → Type 0
  Got n r = (length r.messages ≡ n) × (r.buffer ≡ "") × All IsJsonText r.messages

  module _ (printed : (j : json.Json) → NulFree (json.dump j)) where
    All-NulFree : (sent : List String) → All IsJsonText sent → All NulFree sent
    All-NulFree [] h = tt
    All-NulFree (t ∷ rest) h = (rw (h.0.1) (printed h.0.0), All-NulFree rest h.1)

    Got-sent :
        (n : ℕ) (sent : List String)
        → length sent ≡ n
        → All IsJsonText sent
        → Got n (receive fresh (stream sent))
    Got-sent n sent l h = rw (receive-stream sent (All-NulFree sent h)) (l, refl, h)

module _ (json : JsonLib) {lib : RedisLib} where
  -- If a run has returned, the reader of what it has written has got `n` JSON texts; if it has
  -- thrown, an assertion has failed, and the reader has got fewer.
  abbrev pub Answered : ℕ → Ran (PushServer lib) (Unit {0}) → Type 0
  Answered n (done r) = Got json n (receive fresh (stream r.1.sent))
  Answered n (threw e s) =
      (e ≡ assertion_failed) × (k : ℕ) × (k < n) × Got json k (receive fresh (stream s.sent))

  -- the same of the list of what has been sent
  abbrev Told : ℕ → Ran (PushServer lib) (Unit {0}) → Type 0
  Told n (done r) = (length r.1.sent ≡ n) × All (IsJsonText json) r.1.sent
  Told n (threw e s) =
      (e ≡ assertion_failed)
      × (k : ℕ) × (k < n)
      × (length s.sent ≡ k)
      × All (IsJsonText json) s.sent

  go_on-Told :
      (n : ℕ) (s : PushServer lib) (x : Ran (PushServer lib) (Unit {0}))
      (k : Unit {0} → Action (PushServer lib) (Unit {0}))
      → Replied json s.sent x
      → Contained x
      → All (IsJsonText json) s.sent
      → ((s' : PushServer lib)
          → All (IsJsonText json) s'.sent
          → Told (n + length s'.sent) (k tt s'))
      → Told (suc n + length s.sent) (go_on x k)
  go_on-Told n s (done (u, s')) k (answer, e) c h f =
      subst (λ (m : ℕ). Told m (k tt s')) (omega (arith, ap (λ (xs : List String). length xs) e))
        (f s' (subst (λ (xs : List String). All (IsJsonText json) xs) (sym e) ((answer, refl), h)))
  go_on-Told n s (threw e s') k r c h f = (
    c,
    length s.sent,
    omega arith,
    ap (λ (xs : List String). length xs) r,
    subst (λ (xs : List String). All (IsJsonText json) xs) (sym r) h,
  )

  module _ (printed : (j : json.Json) → NulFree (json.dump j)) where
    Told-Answered : (n : ℕ) (x : Ran (PushServer lib) (Unit {0})) → Told n x → Answered n x
    Told-Answered n (done r) (l, h) = Got-sent json printed n r.1.sent l h
    Told-Answered n (threw e s) (a, k, b, l, h) = (a, k, b, Got-sent json printed k s.sent l h)

module _ (json : JsonLib) (lib : RedisLib) (ndebug : Bool) (env : Environment)
    (printed : (j : json.Json) → NulFree (json.dump j)) where
  converse-Told :
      (texts : List String) (s : PushServer lib)
      → All (IsJsonText json) s.sent
      → Told json (length texts + length s.sent) (converse json lib ndebug env texts s)
  unfolding converse on_received for_each
  converse-Told [] s h = (omega arith, h)
  converse-Told (t ∷ texts) s h =
      go_on-Told json (length texts) s (on_message_received json lib ndebug env t s)
        (λ _. converse json lib ndebug env texts)
        (on_message_received-Replied json lib ndebug env t s)
        (on_message_received-Contained json lib ndebug env t s) h (converse-Told texts)

  -- Where no JSON text has a NUL in it: a reader that takes the bytes which a new session writes up
  -- to each NUL for a message gets one JSON text for each text that the session has received, and
  -- nothing else, if the session goes through all of them. If not, an assertion has failed, and the
  -- reader has got fewer JSON texts, each of them whole.
  pub converse-Answered :
      (texts : List String) (s : PushServer lib)
      → s.sent ≡ []
      → Answered json (length texts) (converse json lib ndebug env texts s)
  converse-Answered texts s h =
      Told-Answered json printed (length texts) (converse json lib ndebug env texts s) (
        subst (λ (m : ℕ). Told json m (converse json lib ndebug env texts s))
          (omega (arith, ap (λ (xs : List String). length xs) h))
          (converse-Told texts s
            (subst (λ (xs : List String). All (IsJsonText json) xs) (sym h) tt)))
