-- ===== src/PushServer.antt =====
-- server/PushServer.{hpp,cpp} and the answers of tcp/ClientSslSession.cpp: what the server keeps,
-- what it depends on, and its calls of the components.
pub mod Accounts
pub mod Handlers
pub mod Replies
pub mod Errors
pub mod Delivery
pub mod Lifecycle
pub mod Setup
pub mod Notifications
pub mod Session
pub mod Registration
pub mod Renewal
pub mod Available
pub mod Running
use uwpx_push_server.Common.{
  ℕ, ◌+◌, Bool, true, false, String, Option, none, some, List, [], ◌∷◌, Result, ok, Error,
}
use uwpx_push_server.Common.Action.{Action, pure, ask, change, on_part, done, ◌>>=◌, ◌>>◌}
use uwpx_push_server.Json.{JsonLib}
use uwpx_push_server.Redis.{RedisLib}
use uwpx_push_server.Configuration.{WnsConfiguration}
use uwpx_push_server.Wns.{WnsClient, Response, Post}
use uwpx_push_server.Xmpp.{Connection, Stanza}
use uwpx_push_server.Messages.Response.Success
use uwpx_push_server.Messages.Response.Failure

-- The configuration, and what the repository has no code for: the notification service and the
-- clock (as in Wns), SHA-256, ctre::match of a pattern, the connection to the XMPP server, the
-- random numbers, and the orders in which the standard library iterates over a set and over a map.
pub record Environment : Type 0 where
  pub config : WnsConfiguration
  pub jid : String
  pub answer : List Post → Response
  pub clock : List Post → ℕ
  pub hash_sha256 : String → String
  pub matches : String → String → Bool
  pub connection : Connection
  pub token_draw : ℕ → ℕ → ℕ
  pub password_draw : ℕ → ℕ → ℕ
  pub set_order : List String → List String
  pub map_order : List (String × ℕ) → List (String × ℕ)

module _ (lib : RedisLib) where
  -- The components that change, what has been sent to the session, newest first, and how many
  -- random numbers have been drawn.
  pub record PushServer : Type 0 where
    pub wns : WnsClient lib
    pub stanzas : List Stanza
    pub sent : List String
    pub tokens : ℕ
    pub passwords : ℕ

  abbrev pub in_wns {ℓ} : {A : Type ℓ} → Action (WnsClient lib) A → Action PushServer A
  in_wns = on_part (λ s. s.wns) (λ w s. record s { wns = w })

  -- the database is part of the state of the WNS client, which has a pointer to it
  abbrev pub in_db {ℓ} : {A : Type ℓ} → Action lib.Db A → Action PushServer A
  in_db m = in_wns (on_part (λ w. w.db) (λ d w. record w { db = d }) m)

  abbrev pub in_xmpp {ℓ} : {A : Type ℓ} → Action (List Stanza) A → Action PushServer A
  in_xmpp = on_part (λ s. s.stanzas) (λ x s. record s { stanzas = x })

module _ (json : JsonLib) (lib : RedisLib) (ndebug : Bool) where
  -- ClientSslSession::send
  unfoldable pub send : json.Object → Action (PushServer lib) (Unit {0})
  send j s = done (tt, record s { sent = json.dump (json.json j) ∷ s.sent })

  unfoldable pub respond_with_success : Action (PushServer lib) (Unit {0})
  respond_with_success = do
    j ← ask λ _. Success.to_json json ndebug Success.create json.empty
    send j

  unfoldable pub respond_with_error : String → Action (PushServer lib) (Unit {0})
  respond_with_error msg = do
    j ← ask λ _. Failure.to_json json ndebug (Failure.create msg) json.empty
    send j
