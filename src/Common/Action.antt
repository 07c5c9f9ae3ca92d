-- ===== src/Common/Action.antt =====
-- Code that changes a state, and may throw: what it changed before it threw stays changed.
use mathlib.Core.Path.{◌≡◌, refl, ap, ◌∙◌}
use mathlib.Core.List.{List, [], ◌∷◌}
use native.Mathlib.Omega.{arith}
use uwpx_push_server.Common.Outcome.{Error, Result, ok, err, assertion_failed}

-- How a run has ended: with a result or with an error, and in which state.
pub data Ran {ℓ κ} (S : Type ℓ) (A : Type κ) : Type (ℓ ⊔ κ) where
  done : A × S → Ran S A
  threw : Error → S → Ran S A

-- the state at the end
abbrev pub left {ℓ κ} : {S : Type ℓ} {A : Type κ} → Ran S A → S
left (done r) = r.1
left (threw e s) = s

abbrev pub Action {ℓ κ} : Type ℓ → Type κ → Type (ℓ ⊔ κ)
Action S A = S → Ran S A

module _ {ℓ κ} {S : Type ℓ} {A : Type κ} where
  abbrev pub pure : A → Action S A
  pure a s = done (a, s)

  -- what a call has answered that leaves the state as it is
  abbrev pub answered : S → Result A → Ran S A
  answered s (ok a) = done (a, s)
  answered s (err e) = threw e s

  -- a call that reads the state
  abbrev pub ask : (S → Result A) → Action S A
  ask call s = answered s (call s)

module _ {ℓ} {S : Type ℓ} where
  abbrev pub changed : S → Result S → Ran S (Unit {0})
  changed s (ok s') = done (tt, s')
  changed s (err e) = threw e s

  -- a call that changes the state, or throws and leaves it as it was
  abbrev pub change : (S → Result S) → Action S (Unit {0})
  change call s = changed s (call s)

module _ {ℓ κ μ} {S : Type ℓ} {A : Type κ} {B : Type μ} where
  abbrev pub go_on : Ran S A → (A → Action S B) → Ran S B
  go_on (done r) k = k r.0 r.1
  go_on (threw e s) k = threw e s

  infixl 5 ◌>>=◌ ◌>>◌
  abbrev pub ◌>>=◌ : Action S A → (A → Action S B) → Action S B
  ◌>>=◌ m k s = go_on (m s) k

  abbrev pub ◌>>◌ : Action S A → Action S B → Action S B
  m >> k = m >>= λ _. k

  -- Code that has returned has returned at each link.
  pub go_on-done :
      (x : Ran S A) (k : A → Action S B) {r : B × S}
      → go_on x k ≡ done r
      → (a : A) × (s : S) × (x ≡ done (a, s)) × (k a s ≡ done r)
  go_on-done (done (a, s)) k h = (a, s, refl, h)
  go_on-done (threw e s) k h = absurd (ground arith)

module _ {ℓ κ} {S : Type ℓ} {A : Type κ} where
  pub done_unique : (x : Ran S A) {r r' : A × S} → x ≡ done r → x ≡ done r' → r ≡ r'
  done_unique (done r) h k = ground arith
  done_unique (threw e s) h k = absurd (ground arith)

  -- `catch (const std::exception&)`: a failed assert is not caught.
  abbrev pub handled : Ran S A → Action S A → Ran S A
  handled (done r) handler = done r
  handled (threw assertion_failed s) handler = threw assertion_failed s
  handled (threw e s) handler = handler s

  abbrev pub try_catch : Action S A → Action S A → Action S A
  try_catch body handler s = handled (body s) handler

module _ {ℓ κ μ} {S : Type ℓ} {T : Type κ} {A : Type μ} where
  abbrev pub put_back : (T → S → S) → S → Ran T A → Ran S A
  put_back write s (done r) = done (r.0, write r.1 s)
  put_back write s (threw e t) = threw e (write t s)

  -- code that works on a part `T` of the state
  abbrev pub on_part : (S → T) → (T → S → S) → Action T A → Action S A
  on_part read write m s = put_back write s (m (read s))

module _ {ℓ κ} {S : Type ℓ} {A : Type κ} where
  -- for (const A& a : list) { body(a); }
  unfoldable pub for_each : (A → Action S (Unit {0})) → List A → Action S (Unit {0})
  for_each body [] s = done (tt, s)
  for_each body (a ∷ rest) s = go_on (body a s) λ _. for_each body rest

-- `m` returns from the state `s`, and what it returns and leaves satisfies `P`.
pub record Ends {ℓ κ μ} {S : Type ℓ} {A : Type κ} (m : Action S A) (s : S) (P : A → S → Type μ)
    : Type (ℓ ⊔ κ ⊔ μ) where
  pub result : A
  pub state : S
  pub returns : m s ≡ done (result, state)
  pub holds : P result state

module _ {ℓ κ μ ν ο} {S : Type ℓ} {A : Type κ} {B : Type μ} where
  pub Ends-bind :
      {m : Action S A} {k : A → Action S B} {s : S} {P : A → S → Type ν} {Q : B → S → Type ο}
      → Ends m s P
      → ((a : A) (s' : S) → P a s' → Ends (k a) s' Q)
      → Ends (m >>= k) s Q
  Ends-bind {k} e f =
      let rest = f e.result e.state e.holds in
      record {
        result = rest.result;
        state = rest.state;
        returns = ap (λ r. go_on r k) e.returns ∙ rest.returns;
        holds = rest.holds;
      }

module _ {ℓ κ μ} {S : Type ℓ} {A : Type κ} where
  -- The rule of a loop: what its body keeps, the loop keeps.
  pub Ends-for_each :
      {body : A → Action S (Unit {0})} {I : S → Type μ} (list : List A) (s : S)
      → ((a : A) (s' : S) → I s' → Ends (body a) s' (λ _. I))
      → I s
      → Ends (for_each body list) s (λ _. I)
  unfolding for_each
  Ends-for_each [] s keep h = record { result = tt; state = s; returns = refl; holds = h }
  Ends-for_each {body} (a ∷ rest) s keep h =
      let first = keep a s h in
      let later = Ends-for_each rest first.state keep first.holds in
      record {
        result = later.result;
        state = later.state;
        returns = ap (λ r. go_on r (λ _. for_each body rest)) first.returns ∙ later.returns;
        holds = later.holds;
      }
