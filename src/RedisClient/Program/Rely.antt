-- ===== src/RedisClient/Program/Rely.antt =====
-- Two threads, one of which only reads: what the reader may rely on while the other one writes.
use mathlib.Core.Path.{subst}
use uwpx_push_server.Common.{Error, ◌≡◌, ◌∙◌, refl, sym, ap, some, arith}
use uwpx_push_server.Common.Action.{Ran, done, threw, done_unique}
use uwpx_push_server.Redis.{RedisLib}
use uwpx_push_server.RedisClient.Program.{
  Command, Program, return, throw, call, lrange, get, del, expire, set, rpush, Answer, execute,
  step, resume,
}
use uwpx_push_server.RedisClient.Program.Interleaving.{
  Threads, Steps, here, first_step, second_step,
}

module _ (lib : RedisLib) (P : lib.Db → Type 0) where
  -- The databases that the thread leaves, from one database on, all satisfy `P`.
  abbrev pub Guarantees : {A : Type 0} → Program A → lib.Db → Type 0
  Guarantees (return a) d = P d
  Guarantees (throw e) d = P d
  Guarantees (call c next) d =
      P d × ((r : Answer c) (d' : lib.Db) → execute lib c d ≡ done (r, d') → Guarantees (next r) d')

  -- Whatever databases with `P` its commands are answered from, the thread only reads, throws
  -- nothing, and returns an answer with `Q`.
  abbrev pub Relies : {A : Type 0} → (A → Type 0) → Program A → Type 0
  Relies Q (return a) = Q a
  Relies Q (throw e) = ⊥
  Relies Q (call c next) =
      (d : lib.Db) → P d → (r : Answer c) × (execute lib c d ≡ done (r, d)) × Relies Q (next r)

  -- by how a command is answered
  pub Guarantees-call :
      {A : Type 0} (c : Command) (next : Answer c → Program A) (d e : lib.Db) (r : Answer c)
      → P d
      → execute lib c d ≡ done (r, e)
      → Guarantees (next r) e
      → Guarantees (call c next) d
  Guarantees-call c next d e r p h w = (
    p,
    λ r' e' h'.
        subst (λ (x : Answer c × lib.Db). Guarantees (next x.0) x.1)
          (done_unique (execute lib c d) h h') w,
  )

  execute-threw : (c : Command) (d d' : lib.Db) (e : Error) → execute lib c d ≡ threw e d' → d ≡ d'
  execute-threw (lrange k) d d' e h = ground arith
  execute-threw (get k) d d' e h = ground arith
  execute-threw (del k) d d' e h = ground arith
  execute-threw (expire k) d d' e h = ground arith
  execute-threw (set k v) d d' e h = ground arith
  execute-threw (rpush k xs) d d' e h = ground arith

  Guarantees-db : {A : Type 0} (p : Program A) (d : lib.Db) → Guarantees p d → P d
  Guarantees-db (return a) d w = w
  Guarantees-db (throw e) d w = w
  Guarantees-db (call c next) d w = w.0

  Guarantees-resume :
      {A : Type 0} (c : Command) (next : Answer c → Program A) (d : lib.Db)
      (x : Ran lib.Db (Answer c))
      → execute lib c d ≡ x
      → Guarantees (call c next) d
      → Guarantees (resume lib next x).0 (resume lib next x).1
  Guarantees-resume c next d (done r) h w = w.1 r.0 r.1 h
  Guarantees-resume c next d (threw e d') h w = subst P (execute-threw c d d' e h) w.0

  Guarantees-step :
      {A : Type 0} (p p' : Program A) (d d' : lib.Db)
      → Guarantees p d
      → step lib p d ≡ some (p', d')
      → Guarantees p' d'
  unfolding step
  Guarantees-step (return a) p' d d' w h = absurd (ground arith)
  Guarantees-step (throw e) p' d d' w h = absurd (ground arith)
  Guarantees-step {A} (call c next) p' d d' w h =
      let e : resume lib next (execute lib c d) ≡ (p', d') = ground arith in
      subst (λ (x : Program A × lib.Db). Guarantees x.0 x.1) e
        (Guarantees-resume c next d (execute lib c d) refl w)

  Relies-step :
      {A : Type 0} (Q : A → Type 0) (q q' : Program A) (d d' : lib.Db)
      → P d
      → Relies Q q
      → step lib q d ≡ some (q', d')
      → Relies Q q' × (d ≡ d')
  unfolding step
  Relies-step Q (return a) q' d d' g w h = absurd (ground arith)
  Relies-step Q (throw e) q' d d' g w h = absurd w
  Relies-step {A} Q (call c next) q' d d' g w h =
      let (r, e, v) = w d g in
      let f : (next r, d) ≡ (q', d') =
        ap (λ (x : Ran lib.Db (Answer c)). resume lib next x) (sym e) ∙ ground arith in
      (subst (λ (x : Program A × lib.Db). Relies Q x.0) f v, ap (λ (x : Program A × lib.Db). x.1) f)

  -- However the commands of the two threads are mixed: if the databases that the first one leaves
  -- alone have `P`, and the second one only reads and finds `Q` in databases with `P`, then so it
  -- is at each point.
  pub Steps-Guaranteed :
      {A B : Type 0} (Q : B → Type 0) (s t : Threads lib A B)
      → Guarantees s.first s.db
      → Relies Q s.second
      → Steps lib s t
      → Guarantees t.first t.db × Relies Q t.second
  Steps-Guaranteed Q s t g w here = (g, w)
  Steps-Guaranteed Q s t g w (first_step {t = t0} {p} {d} steps e) =
      let (g', w') = Steps-Guaranteed Q s t0 g w steps in
      (Guarantees-step t0.first p t0.db d g' e, w')
  Steps-Guaranteed Q s t g w (second_step {t = t0} {q} {d} steps e) =
      let (g', w') = Steps-Guaranteed Q s t0 g w steps in
      let (w'', same) = Relies-step Q t0.second q t0.db d (Guarantees-db t0.first t0.db g') w' e in
      (subst (λ (x : lib.Db). Guarantees t0.first x) same g', w'')
