-- ===== src/RedisClient/Program/Interleaving.antt =====
-- Two threads that send their commands to one server, in any order. Threads on keys of their own do
-- not notice each other.
use uwpx_push_server.Common.{
  ◌≡◌, refl, sym, ◌∙◌, ap, Bool, true, false, String, Option, none, some, arith, if◌then◌else◌,
  ◌==◌, Bool-cases, inl, inr, eq_iff,
}
use mathlib.Core.Path.{subst}
use uwpx_push_server.Common.Action.{done}
use uwpx_push_server.Redis.{RedisLib, RedisLaws}
use uwpx_push_server.RedisClient.Program.{
  Command, Program, return, throw, call, key, Answer, execute, run, step, resume, step-run,
}
use uwpx_push_server.RedisClient.Program.Local.{view, View, outcome, Executed, execute_lem}

pub record Threads (lib : RedisLib) (A B : Type 0) : Type 0 where
  pub first : Program A
  pub second : Program B
  pub db : lib.Db

-- from one state of the threads to another
pub data Steps {A B : Type 0} (lib : RedisLib) (s : Threads lib A B)
    : Threads lib A B → Type 0 where
  here : Steps lib s s
  first_step :
      {t : Threads lib A B} {p : Program A} {d : lib.Db}
      → Steps lib s t
      → step lib t.first t.db ≡ some (p, d)
      → Steps lib s (record t { first = p; db = d })
  second_step :
      {t : Threads lib A B} {q : Program B} {d : lib.Db}
      → Steps lib s t
      → step lib t.second t.db ≡ some (q, d)
      → Steps lib s (record t { second = q; db = d })

-- a set of keys
abbrev pub Keys : Type 0
Keys = String → Bool

other_key :
    (keys : Keys) (k j : String) (v w : View)
    → keys k ≡ true
    → keys j ≡ false
    → (if k == j then v else w) ≡ w
other_key keys k j v w p q = elim (Bool-cases (k == j)) [
  | inl e ↦ let same : keys k ≡ keys j = ap keys ((eq_iff k j).0 e) in absurd (ground arith)
  | inr e ↦ rw e refl
]

disjoint_back :
    (mine theirs : Keys)
    → ((j : String) → mine j ≡ true → theirs j ≡ false)
    → (j : String) → theirs j ≡ true
    → mine j ≡ false
disjoint_back mine theirs disjoint j h = elim (Bool-cases (mine j)) [
  | inl e ↦ absurd (let no : theirs j ≡ false = disjoint j e in ground arith)
  | inr e ↦ e
]

module _ (lib : RedisLib) where
  -- The keys of a set hold the same, and live as long.
  abbrev pub Agree : Keys → lib.Db → lib.Db → Type 0
  Agree keys d e = (j : String) → keys j ≡ true → view lib d j ≡ view lib e j

  module _ {A : Type 0} where
    -- A thread alone, from a database on, sends commands on the keys of a set only.
    abbrev pub Within : Keys → Program A → lib.Db → Type 0
    Within keys (return a) d = Unit
    Within keys (throw e) d = Unit
    Within keys (call c next) d =
        (keys (key c) ≡ true)
        × ((r : Answer c) (d' : lib.Db) → execute lib c d ≡ done (r, d') → Within keys (next r) d')

  module _ (laws : RedisLaws lib) {A : Type 0} (keys : Keys) where
    -- After one command, at a database and at one that agrees with it on the keys of the thread.
    record Kept (d : lib.Db) (x y : Program A × lib.Db) : Type 0 where
      same : x.0 ≡ y.0
      agrees : Agree keys x.1 y.1
      within : Within keys y.0 y.1
      others : (j : String) → keys j ≡ false → view lib x.1 j ≡ view lib d j

    Kept-outcome :
        (c : Command) (next : Answer c → Program A) (d e : lib.Db) (o : Option (Answer c × View))
        → Executed lib c d o
        → Executed lib c e o
        → Agree keys d e
        → Within keys (call c next) e
        → Kept d (resume lib next (execute lib c d)) (resume lib next (execute lib c e))
    Kept-outcome c next d e none x y agree w =
        rw (x, y) record { same = refl; agrees = agree; within = tt; others = λ j _. refl }
    Kept-outcome c next d e (some r) (d', x, f) (e', y, g) agree w =
        rw (x, y)
          record {
            same = refl;
            agrees = λ j h.
                f j ∙ ap (λ (v : View). if key c == j then r.1 else v) (agree j h) ∙ sym (g j);
            within = w.1 r.0 e' y;
            others = λ j h. f j ∙ other_key keys (key c) j r.1 (view lib d j) w.0 h;
          }

    Kept-call :
        (c : Command) (next : Answer c → Program A) (d e : lib.Db)
        → Agree keys d e
        → Within keys (call c next) e
        → Kept d (resume lib next (execute lib c d)) (resume lib next (execute lib c e))
    Kept-call c next d e agree w =
        let at_e =
          subst (Executed lib c e) (ap (outcome c) (sym (agree (key c) w.0)))
            (execute_lem lib laws c e) in
        Kept-outcome c next d e _ (execute_lem lib laws c d) at_e agree w

    -- A thread `p` that started as `start` on the database `d₀` and is at the database `d`: alone
    -- it has got as far on the database `own`, which `d` agrees with on the keys of the thread.
    pub record Alone (start p : Program A) (d₀ d : lib.Db) : Type 0 where
      pub own : lib.Db
      pub ends : run lib start d₀ ≡ run lib p own
      pub agrees : Agree keys d own
      pub within : Within keys p own

    -- what a step of the thread does
    record Stepped (start p : Program A) (d₀ d d' : lib.Db) : Type 0 where
      alone : Alone start p d₀ d'
      others : (j : String) → keys j ≡ false → view lib d' j ≡ view lib d j

    Alone-step :
        (start p p' : Program A) (d₀ d d' : lib.Db)
        → Alone start p d₀ d
        → step lib p d ≡ some (p', d')
        → Stepped start p' d₀ d d'
    unfolding step
    Alone-step start (return a) p' d₀ d d' w h = absurd (ground arith)
    Alone-step start (throw e) p' d₀ d d' w h = absurd (ground arith)
    Alone-step start (call c next) p' d₀ d d' w h =
        let at_d : resume lib next (execute lib c d) ≡ (p', d') = ground arith in
        let k =
          subst (λ (x : Program A × lib.Db). Kept d x (resume lib next (execute lib c w.own))) at_d
            (Kept-call c next d w.own w.agrees w.within) in
        record {
          alone = record {
            own = (resume lib next (execute lib c w.own)).1;
            ends =
                w.ends
                ∙ step-run lib (call c next) p' w.own (resume lib next (execute lib c w.own)).1 (
                    ap (λ (x : Program A). some (x, (resume lib next (execute lib c w.own)).1))
                      (sym k.same));
            agrees = k.agrees;
            within = rw k.same k.within;
          };
          others = k.others;
        }

    -- a step of the other thread
    Alone-other :
        (start p : Program A) (d₀ d d' : lib.Db)
        → Alone start p d₀ d
        → ((j : String) → keys j ≡ true → view lib d' j ≡ view lib d j)
        → Alone start p d₀ d'
    Alone-other start p d₀ d d' w h = record {
      own = w.own;
      ends = w.ends;
      agrees = λ j q. h j q ∙ w.agrees j q;
      within = w.within;
    }

  module _ (laws : RedisLaws lib) {A B : Type 0} (mine theirs : Keys) where
    -- What two threads have come to from `s`: each is where it is alone, and what is on the keys of
    -- neither is as it was.
    pub record Apart (s t : Threads lib A B) : Type 0 where
      pub first : Alone laws mine s.first t.first s.db t.db
      pub second : Alone laws theirs s.second t.second s.db t.db
      pub rest :
          (j : String) → mine j ≡ false → theirs j ≡ false → view lib t.db j ≡ view lib s.db j

    module _ (disjoint : (j : String) → mine j ≡ true → theirs j ≡ false) where
      -- Two threads that alone send commands on keys of their own only do not notice each other: in
      -- whatever order their commands are sent, each gets the answers that it gets alone, so what
      -- it still has to do ends as the whole thread alone does; its keys hold what they hold alone,
      -- and live as long; and the keys of neither are as they were.
      pub Steps-Apart :
          (s t : Threads lib A B)
          → Within mine s.first s.db
          → Within theirs s.second s.db
          → Steps lib s t
          → Apart s t
      Steps-Apart s t p q here = record {
        first = record { own = s.db; ends = refl; agrees = λ j _. refl; within = p };
        second = record { own = s.db; ends = refl; agrees = λ j _. refl; within = q };
        rest = λ j _ _. refl;
      }
      Steps-Apart s t p q (first_step {t = t0} {p = p'} {d} steps e) =
          let before = Steps-Apart s t0 p q steps in
          let moved = Alone-step laws mine s.first t0.first p' s.db t0.db d before.first e in
          record {
            first = moved.alone;
            second =
                Alone-other laws theirs s.second t0.second s.db t0.db d before.second
                  (λ j h. moved.others j (disjoint_back mine theirs disjoint j h));
            rest = λ j h k. moved.others j h ∙ before.rest j h k;
          }
      Steps-Apart s t p q (second_step {t = t0} {q = q'} {d} steps e) =
          let before = Steps-Apart s t0 p q steps in
          let moved = Alone-step laws theirs s.second t0.second q' s.db t0.db d before.second e in
          record {
            first =
                Alone-other laws mine s.first t0.first s.db t0.db d before.first
                  (λ j h. moved.others j (disjoint j h));
            second = moved.alone;
            rest = λ j h k. moved.others j k ∙ before.rest j h k;
          }
