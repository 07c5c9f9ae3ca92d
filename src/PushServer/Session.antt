-- ===== src/PushServer/Session.antt =====
-- tcp/ClientSslSession.cpp and tcp/SslServer.cpp: what a session does with what it receives. What
-- arrives at once is taken for one message.
pub mod Wire
use uwpx_push_server.Common.{
  ◌≡◌, ap, ◌+◌, Bool, String, Option, some, List, [], ◌∷◌, or_throw, assertion_failed, length,
  arith,
}
use uwpx_push_server.Common.Action.{Ran, Action, ask, done, threw, go_on-done, for_each, ◌>>=◌}
use uwpx_push_server.Json.{JsonLib}
use uwpx_push_server.Redis.{RedisLib}
use uwpx_push_server.PushServer.{Environment, PushServer}
use uwpx_push_server.PushServer.Handlers.{on_message_received}
use uwpx_push_server.PushServer.Replies.{Replied, on_message_received-Replied}

-- A server of sessions and a session: the handler of messages, which may be empty.
pub record SslServer (S : Type 0) : Type 0 where
  pub message_handler : Option (String → Action S (Unit {0}))

pub record ClientSslSession (S : Type 0) : Type 0 where
  pub message_handler : Option (String → Action S (Unit {0}))

abbrev pub create_session : {S : Type 0} → SslServer S → ClientSslSession S
create_session server = record { message_handler = server.message_handler }

unfoldable pub on_received : {S : Type 0} → ClientSslSession S → String → Action S (Unit {0})
on_received session msg = do
  handler ← ask λ _. or_throw assertion_failed session.message_handler
  handler msg

module _ (json : JsonLib) (lib : RedisLib) (ndebug : Bool) (env : Environment) where
  -- the server of sessions, as the constructor of the push server makes it
  abbrev pub ssl_server : SslServer (PushServer lib)
  ssl_server = record { message_handler = some (on_message_received json lib ndebug env) }

  -- a session that receives some texts, one after the other
  unfoldable pub converse : List String → Action (PushServer lib) (Unit {0})
  converse = for_each (on_received (create_session ssl_server))

  Replied-once :
      (old : List String) (x : Ran (PushServer lib) (Unit {0})) (s' : PushServer lib)
      → Replied json old x
      → x ≡ done (tt, s')
      → length s'.sent ≡ 1 + length old
  Replied-once old (done r) s' h e =
      let same : r.1 ≡ s' = ground arith in
      omega (arith, ap (λ (x : PushServer lib). length x.sent) same, ap length h.1)
  Replied-once old (threw x s) s' h e = absurd (ground arith)

  -- A session that receives some texts, and goes through all of them, sends one message for each.
  pub length-converse :
      (texts : List String) (s s' : PushServer lib)
      → converse texts s ≡ done (tt, s')
      → length s'.sent ≡ length texts + length s.sent
  unfolding converse on_received for_each
  length-converse [] s s' h = ground arith
  length-converse (t ∷ texts) s s' h =
      let (u, s1, e, k) =
        go_on-done (on_message_received json lib ndebug env t s) (λ _. converse texts) h in
      omega (
        arith,
        length-converse texts s1 s' k,
        Replied-once s.sent (on_message_received json lib ndebug env t s) s1
            (on_message_received-Replied json lib ndebug env t s) e,
      )
