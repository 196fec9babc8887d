-- ===== src/Base/Outcome.antt =====
-- Operations that can stop the process. glog's LOG(FATAL) aborts, an exception that nobody
-- catches ends the process too, and an undefined operation has no result to speak of.
use mathlib.Core.Path.{◌≡◌, refl}
use mathlib.Core.Bool.{Bool, true, false}
use mathlib.Core.Logic.{◌⊎◌, inl, inr}
use mathlib.Core.Option.{Option, none, some}

-- `fatal` is LOG(FATAL), `out_of_range` the exception of `at`, `invalid_argument` another
-- exception, `undefined` undefined behaviour. `no_fuel` is no fault of the program: it says that
-- a loop of the model was given too few rounds.
pub data Fault : Type 0 where
  fatal out_of_range invalid_argument undefined no_fuel : Fault

pub data Result {ℓ} (A : Type ℓ) : Type ℓ where
  ok : A → Result A
  err : Fault → Result A

infixl 5 ◌>>=◌ ◌>>◌
abbrev pub ◌>>=◌ {ℓ κ} : {A : Type ℓ} {B : Type κ} → Result A → (A → Result B) → Result B
err fault >>= next = err fault
ok value >>= next = next value

-- `if (!test) LOG(FATAL)`, and the like for the other faults.
abbrev pub require : Bool → Fault → Result (Unit {0})
require true e = ok tt
require false e = err e

abbrev pub or_fault {ℓ} : {A : Type ℓ} → Option A → Fault → Result A
or_fault none e = err e
or_fault (some a) e = ok a

abbrev pub ◌>>◌ {κ} : {B : Type κ} → Result (Unit {0}) → Result B → Result B
check >> next = check >>= λ _. next

pub Result-cases {ℓ} :
    {A : Type ℓ} (r : Result A) → ((a : A) × (r ≡ ok a)) ⊎ ((e : Fault) × (r ≡ err e))
Result-cases (ok a) = inl (a, refl)
Result-cases (err e) = inr (e, refl)

pub >>=-eq-ok {ℓ κ} :
    {A : Type ℓ} {B : Type κ} (run : Result A) (next : A → Result B) {b : B}
    → (run >>= next) ≡ ok b
    → (a : A) × (run ≡ ok a) × (next a ≡ ok b)
>>=-eq-ok (err fault) next h = cc
>>=-eq-ok (ok value) next h = (value, refl, h)

-- A check that was passed.
pub require-ok {κ} :
    {B : Type κ} (test : Bool) (e : Fault) (next : Result B) {b : B}
    → (require test e >> next) ≡ ok b
    → (test ≡ true) × (next ≡ ok b)
require-ok true e next h = (refl, h)
require-ok false e next h = cc

pub require-true : (test : Bool) (e : Fault) {u : Unit {0}} → require test e ≡ ok u → test ≡ true
require-true true e h = refl
require-true false e h = cc

pub ok_inj {ℓ} : {A : Type ℓ} {a b : A} → ok a ≡ ok b → a ≡ b
ok_inj h = cc

pub ok_ne_err {ℓ} : {A : Type ℓ} {a : A} {e : Fault} → ok a ≡ err e → ⊥
ok_ne_err h = cc

pub some_inj {ℓ} : {A : Type ℓ} {a b : A} → some a ≡ some b → a ≡ b
some_inj e = cc

pub or_fault-some {ℓ} :
    {A : Type ℓ} (o : Option A) (e : Fault) {a : A} → or_fault o e ≡ ok a → o ≡ some a
or_fault-some none e h = cc
or_fault-some (some b) e h = cc
