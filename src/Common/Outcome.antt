-- ===== src/Common/Outcome.antt =====
-- C++ exceptions as values, and methods that mutate an object, may return early and may throw.
use mathlib.Core.Path.{◌≡◌, refl}
use mathlib.Core.Logic.{◌⊎◌, inl, inr}
use mathlib.Core.Bool.{Bool, true, false}
use uwpx_push_server.Common.Tests.{is_some}
use mathlib.Core.Option.{Option, none, some}

-- `type_error` and `out_of_range` are those of the JSON library, `reply_error` that of the Redis
-- library; the standard library has an `out_of_range` of its own, and `invalid_argument`. Each is a
-- std::exception. `assertion_failed` is a failed assert, or, where a definition says so, the use of
-- a null pointer: it ends the process and is no exception.
pub data Error : Type 0 where
  type_error out_of_range invalid_argument reply_error assertion_failed : Error

pub data Result {ℓ} (A : Type ℓ) : Type ℓ where
  ok : A → Result A
  err : Error → Result A

-- A call of a library that has thrown, if there is no value.
abbrev pub or_throw {ℓ} : {A : Type ℓ} → Error → Option A → Result A
or_throw e none = err e
or_throw e (some a) = ok a

-- A call whose result feeds the rest.
abbrev pub and_then {ℓ κ} : {A : Type ℓ} {B : Type κ} → Result A → (A → Result B) → Result B
and_then (ok a) f = f a
and_then (err e) f = err e

-- A call chain that has returned has returned at each link.
pub and_then-eq-ok {ℓ κ} :
    {A : Type ℓ} {B : Type κ} (r : Result A) (f : A → Result B) {b : B}
    → and_then r f ≡ ok b
    → (a : A) × (r ≡ ok a) × (f a ≡ ok b)
and_then-eq-ok (ok a) f h = (a, refl, h)
and_then-eq-ok (err e) f h = cc

pub Result-cases {ℓ} :
    {A : Type ℓ} (r : Result A) → ((a : A) × (r ≡ ok a)) ⊎ ((e : Error) × (r ≡ err e))
Result-cases (ok a) = inl (a, refl)
Result-cases (err e) = inr (e, refl)

-- assert(b), in a build with or without NDEBUG
abbrev pub assert_then {ℓ} : {A : Type ℓ} → Bool → Bool → Result A → Result A
assert_then true ndebug r = r
assert_then false true r = r
assert_then false false r = err assertion_failed

-- A method `bool from_json(j)` of an object `S`: it may throw, and otherwise leaves the object
-- changed, with `none` where it has returned false and `some` where it goes on.
abbrev pub Reader {ℓ κ} : Type ℓ → Type κ → Type (ℓ ⊔ κ)
Reader S A = S → Result (Option A × S)

infixl 5 ◌>>=◌ ◌>>◌
abbrev pub resume {ℓ κ μ} :
    {S : Type ℓ} {A : Type κ} {B : Type μ}
    → (A → Reader S B)
    → Result (Option A × S)
    → Result (Option B × S)
resume k (ok (none, s)) = ok (none, s)
resume k (ok (some a, s)) = k a s
resume k (err e) = err e

abbrev pub ◌>>=◌ {ℓ κ μ} :
    {S : Type ℓ} {A : Type κ} {B : Type μ} → Reader S A → (A → Reader S B) → Reader S B
◌>>=◌ m k s = resume k (m s)

abbrev pub ◌>>◌ {ℓ κ μ} :
    {S : Type ℓ} {A : Type κ} {B : Type μ} → Reader S A → Reader S B → Reader S B
m >> k = m >>= λ _. k

-- `if (!b) { return false; }`
abbrev pub require {ℓ} : {S : Type ℓ} → Bool → Reader S (Unit {0})
require true s = ok (some tt, s)
require false s = ok (none, s)

-- `field = call;`, where the call may throw
abbrev pub assign {ℓ κ} : {S : Type ℓ} {A : Type κ} → Result A → (A → S → S) → Reader S A
assign (ok a) write s = ok (some a, write a s)
assign (err e) write s = err e

-- a call that may throw and changes nothing of the object
abbrev pub fetch {ℓ κ} : {S : Type ℓ} {A : Type κ} → Result A → Reader S A
fetch (ok a) s = ok (some a, s)
fetch (err e) s = err e

-- a statement that changes the object
abbrev pub modify {ℓ} : {S : Type ℓ} → (S → S) → Reader S (Unit {0})
modify write s = ok (some tt, write s)

-- `return a;`
abbrev pub give {ℓ κ} : {S : Type ℓ} {A : Type κ} → A → Reader S A
give a s = ok (some a, s)

-- `return true;`
abbrev pub accept {ℓ} : {S : Type ℓ} → Reader S (Unit {0})
accept s = ok (some tt, s)

-- `if (!Base::from_json(j)) { return false; }`, where `S` inherits from `B`
abbrev pub inherit {ℓ κ μ} :
    {S : Type ℓ} {B : Type κ} {A : Type μ} → (S → B) → (B → S → S) → Reader B A → Reader S A
inherit base write m s = and_then (m (base s)) (λ r. ok (r.0, write r.1 s))

-- `isValid = from_json(j);`, in a constructor
abbrev pub construct {ℓ κ} : {S : Type ℓ} {A : Type κ} → (Bool → S → S) → Reader S A → S → Result S
construct write m blank = and_then (m blank) λ r. ok (write (is_some r.0) r.1)

-- `catch (const std::exception&)`: a failed assert is not caught.
abbrev pub catch {ℓ} : {A : Type ℓ} → Result A → Result A → Result A
catch (ok a) handler = ok a
catch (err assertion_failed) handler = err assertion_failed
catch (err _) handler = handler
