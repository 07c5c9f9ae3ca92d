-- ===== src/RedisClient/Program.antt =====
-- The commands of storage/redis/RedisClient.cpp one by one: what a thread has still to send to the
-- server, so that other threads can send theirs in between. redis-plus-plus is called by several
-- threads at once here, and the server runs one command at a time.
pub mod Operations
pub mod Local
pub mod Interleaving
pub mod Footprint
pub mod Undisturbed
pub mod Schedule
pub mod Renewal
pub mod Rely
use uwpx_push_server.Common.{
  ◌≡◌, refl, String, Option, none, some, List, Result, Error, ok, err, arith, ap, ◌∙◌,
}
use uwpx_push_server.Common.Action.{Ran, Action, pure, done, threw, go_on}
use uwpx_push_server.Redis.{RedisLib}
use uwpx_push_server.RedisClient
use uwpx_push_server.RedisClient.{default_entry_timeout}

-- LRANGE k 0 -1, GET k, DEL k, SET k v, RPUSH k xs, and EXPIRE k with DEFAULT_ENTRY_TIMEOUT
pub data Command : Type 0 where
  lrange get del expire : String → Command
  set : String → String → Command
  rpush : String → List String → Command

abbrev pub key : Command → String
key (lrange k) = k
key (get k) = k
key (del k) = k
key (expire k) = k
key (set k v) = k
key (rpush k xs) = k

abbrev pub Answer : Command → Type 0
Answer (lrange k) = List String
Answer (get k) = Option String
Answer _ = Unit

-- What a thread still does: it has returned, it has thrown, or it sends a command and goes on with
-- the answer.
pub data Program (A : Type 0) : Type 0 where
  return : A → Program A
  throw : Error → Program A
  call : (c : Command) → (Answer c → Program A) → Program A

module _ {A B : Type 0} where
  infixl 5 ◌>>=◌
  unfoldable pub ◌>>=◌ : Program A → (A → Program B) → Program B
  return a >>= k = k a
  throw e >>= k = throw e
  call c next >>= k = call c (λ answer. next answer >>= k)

module _ (lib : RedisLib) where
  abbrev pub execute : (c : Command) → Action lib.Db (Answer c)
  execute (lrange k) = RedisClient.lrange lib k
  execute (get k) = RedisClient.get lib k
  execute (del k) = RedisClient.del lib k
  execute (expire k) = RedisClient.expire lib k default_entry_timeout
  execute (set k v) = RedisClient.set lib k v
  execute (rpush k xs) = RedisClient.rpush lib k xs

  module _ {A : Type 0} where
    -- a thread alone
    unfoldable pub run : Program A → Action lib.Db A
    run (return a) d = done (a, d)
    run (throw e) d = threw e d
    run (call c next) d = go_on (execute c d) (λ answer. run (next answer))

    abbrev pub resume : {R : Type 0} → (R → Program A) → Ran lib.Db R → Program A × lib.Db
    resume next (done r) = (next r.0, r.1)
    resume next (threw e d) = (throw e, d)

    -- one command of a thread
    unfoldable pub step : Program A → lib.Db → Option (Program A × lib.Db)
    step (return a) d = none
    step (throw e) d = none
    step (call c next) d = some (resume next (execute c d))

    run-resume :
        {R : Type 0} (next : R → Program A) (r : Ran lib.Db R)
        → go_on r (λ answer. run (next answer)) ≡ run (resume next r).0 (resume next r).1
    unfolding run
    run-resume next (done r) = refl
    run-resume next (threw e d) = refl

    -- A command of a thread leaves the end of the thread, if it goes on alone, as it was.
    pub step-run :
        (p p' : Program A) (d d' : lib.Db) → step p d ≡ some (p', d') → run p d ≡ run p' d'
    unfolding run step
    step-run (return a) p' d d' h = absurd (ground arith)
    step-run (throw e) p' d d' h = absurd (ground arith)
    step-run (call c next) p' d d' h =
        let e : resume next (execute c d) ≡ (p', d') = ground arith in
        run-resume next (execute c d) ∙ ap (λ (r : Program A × lib.Db). run r.0 r.1) e

    pub step-call :
        (c : Command) (next : Answer c → Program A) (d e : lib.Db) (r : Answer c)
        → execute c d ≡ done (r, e)
        → step (call c next) d ≡ some (next r, e)
    unfolding step
    step-call c next d e r h = ap (λ (x : Ran lib.Db (Answer c)). some (resume next x)) h
