-- ===== src/Prelude/Results.antt =====
-- Exceptions as values. The constructors are the exception types that the modelled code raises.
use mathlib.Core.Bool.{Bool, true, false}
use mathlib.Core.Logic.{◌⊎◌, inl, inr}
use mathlib.Core.Option.{Option, none, some}
use mathlib.Core.Path.{◌≡◌, refl, ap, subst}

pub data Fault : Type 0 where
  value_error revision_conflict queue_store_error : Fault
  stop_iteration assertion_error : Fault

pub data Result {ℓ} (A : Type ℓ) : Type ℓ where
  ok : A → Result A
  err : Fault → Result A

-- `if test: raise fault`
abbrev pub raise_if : (test : Bool) (fault : Fault) → Result (Unit {0})
raise_if false fault = ok tt
raise_if true fault = err fault

infixl 5 ◌>>=◌ ◌>>◌
-- What follows on a statement that returned.
abbrev pub ◌>>=◌ {ℓ κ} : {X : Type ℓ} {Y : Type κ} → Result X → (next : X → Result Y) → Result Y
err fault >>= next = err fault
ok x >>= next = next x

abbrev pub ◌>>◌ {κ} : {Y : Type κ} → Result (Unit {0}) → (rest : Result Y) → Result Y
statement >> rest = statement >>= (λ done. rest)

-- `next(…)` with no default, and a lookup that raises when nothing is found
abbrev pub require {ℓ} : {A : Type ℓ} → Option A → Fault → Result A
require none e = err e
require (some a) e = ok a

pub >>=-eq-ok {ℓ κ} :
    {X : Type ℓ} {Y : Type κ} (statement : Result X) (next : X → Result Y) {y : Y}
    → (statement >>= next) ≡ ok y
    → (x : X) × (statement ≡ ok x) × (next x ≡ ok y)
>>=-eq-ok (err fault) next returned = cc
>>=-eq-ok (ok x) next returned = (x, refl, returned)

pub ok-injective {ℓ} : {A : Type ℓ} {a b : A} → ok a ≡ ok b → a ≡ b
ok-injective h = cc

pub Result-cases {ℓ} :
    {A : Type ℓ} (r : Result A) → ((a : A) × (r ≡ ok a)) ⊎ ((e : Fault) × (r ≡ err e))
Result-cases (ok a) = inl (a, refl)
Result-cases (err e) = inr (e, refl)

-- The computation raises nothing.
abbrev pub Returns {ℓ} : {A : Type ℓ} → Result A → Type ℓ
Returns {A} r = (a : A) × (r ≡ ok a)

pub Returns-bind {ℓ κ} :
    {A : Type ℓ} {B : Type κ} (r : Result A) (f : A → Result B)
    → Returns r
    → ((a : A) → r ≡ ok a → Returns (f a))
    → Returns (r >>= f)
Returns-bind (ok a) f h k = k a refl
Returns-bind (err e) f h k = cc (h.1)

-- The computation raises nothing, and what it returns has the property.
abbrev pub Attains {ℓ} : {A : Type ℓ} → (A → Type 0) → Result A → Type 0
Attains P (ok a) = P a
Attains P (err e) = ⊥

pub Attains-of_ok {ℓ} :
    {A : Type ℓ} (P : A → Type 0) (m : Result A) {a : A} → Attains P m → m ≡ ok a → P a
Attains-of_ok P (ok b) h e = subst P (ok-injective e) h
Attains-of_ok P (err f) h e = cc

pub Returns-of_attained {ℓ} : {A : Type ℓ} (P : A → Type 0) (m : Result A) → Attains P m → Returns m
Returns-of_attained P (ok a) h = (a, refl)
Returns-of_attained P (err e) h = absurd h

-- What holds of a result where there is one.
abbrev pub Yields {ℓ κ} : {A : Type ℓ} → (A → Type κ) → Result A → Type κ
Yields P (ok a) = P a
Yields P (err e) = Unit

pub Yields-bind {ℓ κ μ} :
    {A : Type ℓ} {B : Type κ} (P : B → Type μ) (m : Result A) (f : A → Result B)
    → ((a : A) → m ≡ ok a → Yields P (f a))
    → Yields P (m >>= f)
Yields-bind P (ok a) f k = k a refl
Yields-bind P (err e) f k = tt

pub Yields-raise_if {ℓ κ} :
    {B : Type ℓ} (P : B → Type κ) (test : Bool) (e : Fault) (k : Result B)
    → (test ≡ false → Yields P k)
    → Yields P (raise_if test e >> k)
Yields-raise_if P true e k h = tt
Yields-raise_if P false e k h = h refl

pub Yields-of_ok {ℓ κ} :
    {A : Type ℓ} (P : A → Type κ) (m : Result A) {a : A} → Yields P m → m ≡ ok a → P a
Yields-of_ok P (ok b) h e = subst P (ok-injective e) h
Yields-of_ok P (err f) h e = cc

pub raise_if-ok {ℓ} :
    {B : Type ℓ} (test : Bool) (e : Fault) (k : Result B) {b : B}
    → (raise_if test e >> k) ≡ ok b
    → (test ≡ false) × (k ≡ ok b)
raise_if-ok true e k h = cc
raise_if-ok false e k h = (refl, h)

pub raise_if-pass {ℓ} :
    {B : Type ℓ} (test : Bool) (e : Fault) (k : Result B) {b : B}
    → test ≡ false
    → k ≡ ok b
    → (raise_if test e >> k) ≡ ok b
raise_if-pass true e k t h = cc
raise_if-pass false e k t h = h

pub require-ok {ℓ} :
    {A : Type ℓ} (o : Option A) (e : Fault) {a : A} → require o e ≡ ok a → o ≡ some a
require-ok none e h = cc
require-ok (some b) e h = ap some (ok-injective h)

pub Yields-weaken {ℓ κ μ} :
    {A : Type ℓ} (P : A → Type κ) (Q : A → Type μ) (m : Result A)
    → Yields P m
    → ((a : A) → m ≡ ok a → P a → Q a)
    → Yields Q m
Yields-weaken P Q (ok a) h k = k a refl h
Yields-weaken P Q (err e) h k = tt

pub Yields-last {κ} :
    (P : Unit {0} → Type κ) (test : Bool) (e : Fault)
    → (test ≡ false → P tt)
    → Yields P (raise_if test e)
Yields-last P true e h = tt
Yields-last P false e h = h refl
