-- ===== src/Common/Sound.antt =====
-- How code ends that may throw: what it returns and leaves, and what it leaves where it throws.
use mathlib.Core.Path.{◌≡◌, refl, sym, subst}
use mathlib.Core.Bool.{Bool, true, false}
use native.Mathlib.Omega.{arith}
use uwpx_push_server.Common.Outcome.{
  Error, Result, ok, err, type_error, out_of_range, invalid_argument, reply_error, assertion_failed,
}
use uwpx_push_server.Common.Action.{
  Ran, done, threw, Action, go_on, answered, handled, put_back, Ends,
}

abbrev pub is_assertion : Error → Bool
is_assertion assertion_failed = true
is_assertion _ = false

-- What a run returns and leaves satisfies `P`; what it leaves where it throws satisfies `I`, and it
-- throws an exception, which can be caught.
pub data Sound {ℓ κ μ} {S : Type ℓ} {A : Type κ} (P : A → S → Type μ) (I : S → Type μ)
    : Ran S A → Type (ℓ ⊔ κ ⊔ μ) where
  returned : {a : A} {s : S} → P a s → Sound P I (done (a, s))
  thrown : {e : Error} {s : S} → is_assertion e ≡ false → I s → Sound P I (threw e s)

pub go_on-Sound {ℓ κ ν μ} :
    {S : Type ℓ} {A : Type κ} {B : Type ν} {I : S → Type μ} {P : A → S → Type μ}
    {Q : B → S → Type μ} (x : Ran S A) (k : A → Action S B)
    → Sound P I x
    → ((a : A) (s : S) → P a s → Sound Q I (k a s))
    → Sound Q I (go_on x k)
go_on-Sound x k (returned h) f = f _ _ h
go_on-Sound x k (thrown n h) f = thrown n h

module _ {ℓ κ μ} {S : Type ℓ} {A : Type κ} (P : A → S → Type μ) (I : S → Type μ) where
  pub Ends-Sound : (m : Action S A) (s : S) → Ends m s P → Sound P I (m s)
  Ends-Sound m s e = subst (Sound P I) (sym e.returns) (returned e.holds)

  pub answered-Sound :
      (s : S) (r : Result A)
      → ((e : Error) → r ≡ err e → is_assertion e ≡ false)
      → I s
      → ((a : A) → r ≡ ok a → P a s)
      → Sound P I (answered s r)
  answered-Sound s (ok a) n h f = returned (f a refl)
  answered-Sound s (err e) n h f = thrown (n e refl) h

module _ {ℓ κ μ} {S : Type ℓ} {A : Type κ} {P : A → S → Type μ} {I : S → Type μ} where
  caught :
      (e : Error) (s : S) (handler : Action S A)
      → is_assertion e ≡ false
      → Sound P I (handler s)
      → Sound P I (handled (threw e s) handler)
  caught type_error s handler n h = h
  caught out_of_range s handler n h = h
  caught invalid_argument s handler n h = h
  caught reply_error s handler n h = h
  caught assertion_failed s handler n h = absurd (ground arith)

  -- the handler of an exception runs where the exception has left the state
  pub handled-Sound :
      (x : Ran S A) (handler : Action S A)
      → Sound P I x
      → ((s : S) → I s → Sound P I (handler s))
      → Sound P I (handled x handler)
  handled-Sound x handler (returned h) f = returned h
  handled-Sound x handler (thrown {e} {s} n h) f = caught e s handler n (f s h)

-- code on a part of the state
pub put_back-Sound {ℓ κ ν μ} :
    {S : Type ℓ} {T : Type κ} {A : Type ν} (P : A → S → Type μ) (I : S → Type μ)
    {Q : A → T → Type μ} {J : T → Type μ} (write : T → S → S) (s : S) (x : Ran T A)
    → Sound Q J x
    → ((a : A) (t : T) → Q a t → P a (write t s))
    → ((t : T) → J t → I (write t s))
    → Sound P I (put_back write s x)
put_back-Sound P I write s x (returned h) f g = returned (f _ _ h)
put_back-Sound P I write s x (thrown n h) f g = thrown n (g _ h)

-- The same, but that an assertion may fail, where `M` holds of what is left.
pub data Excused {ℓ κ μ} {S : Type ℓ} {A : Type κ} (P : A → S → Type μ) (I M : S → Type μ)
    : Ran S A → Type (ℓ ⊔ κ ⊔ μ) where
  sound : {x : Ran S A} → Sound P I x → Excused P I M x
  excused : {s : S} → I s → M s → Excused P I M (threw assertion_failed s)

pub go_on-Excused {ℓ κ ν μ} :
    {S : Type ℓ} {A : Type κ} {B : Type ν} {I M : S → Type μ} {P : A → S → Type μ}
    {Q : B → S → Type μ} (x : Ran S A) (k : A → Action S B)
    → Excused P I M x
    → ((a : A) (s : S) → P a s → Excused Q I M (k a s))
    → Excused Q I M (go_on x k)
go_on-Excused x k (sound (returned h)) f = f _ _ h
go_on-Excused x k (sound (thrown n h)) f = sound (thrown n h)
go_on-Excused x k (excused h m) f = excused h m

-- a failed assertion is not caught
pub handled-Excused {ℓ κ μ} :
    {S : Type ℓ} {A : Type κ} {P : A → S → Type μ} {I M : S → Type μ} (x : Ran S A)
    (handler : Action S A)
    → Excused P I M x
    → ((s : S) → I s → Sound P I (handler s))
    → Excused P I M (handled x handler)
handled-Excused x handler (sound h) f = sound (handled-Sound x handler h f)
handled-Excused x handler (excused h m) f = excused h m

pub put_back-Excused {ℓ κ ν μ} :
    {S : Type ℓ} {T : Type κ} {A : Type ν} (P : A → S → Type μ) (I M : S → Type μ)
    {Q : A → T → Type μ} {J N : T → Type μ} (write : T → S → S) (s : S) (x : Ran T A)
    → Excused Q J N x
    → ((a : A) (t : T) → Q a t → P a (write t s))
    → ((t : T) → J t → I (write t s))
    → ((t : T) → N t → M (write t s))
    → Excused P I M (put_back write s x)
put_back-Excused P I M write s x (sound h) f g n = sound (put_back-Sound P I write s x h f g)
put_back-Excused P I M write s x (excused h m) f g n = excused (g _ h) (n _ m)
