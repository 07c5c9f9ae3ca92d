-- ===== src/PushServer/Errors.antt =====
-- No exception leaves the handler of messages.
use uwpx_push_server.Common.{
  ◌≡◌, refl, String, Option, none, some, Result, ok, err, Error, assertion_failed, type_error,
  out_of_range, reply_error, invalid_argument, Bool, Bool-cases, inl, inr, arith, catch,
}
use uwpx_push_server.Common.Action.{Ran, done, threw, answered, go_on, handled, Action}
use uwpx_push_server.Json.{JsonLib}
use uwpx_push_server.Redis.{RedisLib}
use uwpx_push_server.Messages.Header
use uwpx_push_server.Messages.Response
use uwpx_push_server.Messages.Response.Failure
use uwpx_push_server.Messages.Parser
use uwpx_push_server.Messages.Parser.{Message, header}
use uwpx_push_server.PushServer.{Environment, PushServer, send, respond_with_error}
use uwpx_push_server.PushServer.Handlers.{handle, received, on_message_received}

-- A run that has returned, or has ended the process by a failed assertion.
abbrev pub Contained {ℓ κ} : {S : Type ℓ} {A : Type κ} → Ran S A → Type 0
Contained (done r) = Unit
Contained (threw e s) = e ≡ assertion_failed

go_on-Contained {ℓ κ μ} :
    {S : Type ℓ} {A : Type κ} {B : Type μ} (x : Ran S A) (k : A → Action S B)
    → Contained x
    → ((a : A) (s : S) → Contained (k a s))
    → Contained (go_on x k)
go_on-Contained (done (a, s)) k h f = f a s
go_on-Contained (threw e s) k h f = h

catch-eq-err :
    (r : Result (Option Message)) (e : Error) → catch r (ok none) ≡ err e → e ≡ assertion_failed
catch-eq-err r e h = ground arith

answered-Contained {ℓ κ} :
    {S : Type ℓ} {A : Type κ} (s : S) (r : Result A)
    → ((e : Error) → r ≡ err e → e ≡ assertion_failed)
    → Contained (answered s r)
answered-Contained s (ok a) h = tt
answered-Contained s (err e) h = h e refl

module _ (json : JsonLib) (lib : RedisLib) (ndebug : Bool) (env : Environment) where
  parse-eq-err :
      (text : String) (e : Error) → Parser.parse json ndebug text ≡ err e → e ≡ assertion_failed
  unfolding Parser.parse
  parse-eq-err text e h = catch-eq-err _ e h

  error-Contained :
      (msg : String) (s : PushServer lib) → Contained (respond_with_error json lib ndebug msg s)
  unfolding respond_with_error send Failure.to_json Response.to_json Header.to_json
  error-Contained msg s = tt

  handled-Contained :
      (x : Ran (PushServer lib) (Unit {0})) (msg : String)
      → Contained (handled x (respond_with_error json lib ndebug msg))
  handled-Contained (done r) msg = tt
  handled-Contained (threw type_error s) msg = error-Contained msg s
  handled-Contained (threw out_of_range s) msg = error-Contained msg s
  handled-Contained (threw invalid_argument s) msg = error-Contained msg s
  handled-Contained (threw reply_error s) msg = error-Contained msg s
  handled-Contained (threw assertion_failed s) msg = refl

  received-Contained :
      (m : Option Message) (s : PushServer lib) → Contained (received json lib ndebug env m s)
  received-Contained none s = error-Contained _ s
  received-Contained (some m) s = elim (Bool-cases (header m).is_valid) [
    | inl v ↦ simp v (handled-Contained (handle json lib ndebug env m s) _)
    | inr v ↦ simp v (error-Contained _ s)
  ]

  -- Whatever a device sends, on_message_received returns, or the process ends by a failed
  -- assertion: every exception of the parser, the database and the notification service is
  -- answered.
  pub on_message_received-Contained :
      (text : String) (s : PushServer lib)
      → Contained (on_message_received json lib ndebug env text s)
  unfolding on_message_received
  on_message_received-Contained text s =
      go_on-Contained (answered s (Parser.parse json ndebug text)) _
        (answered-Contained s (Parser.parse json ndebug text) (parse-eq-err text))
        received-Contained
