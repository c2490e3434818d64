-- ===== src/Prelude/Outcome.antt =====
-- Fallible handlers: the exceptions of NestJS, by kind, each with the reason it is thrown
-- for. `failed` is an error of the database, which the client sees as an internal one.
use mathlib.Core.Path.{◌≡◌, refl, ap, subst}
use mathlib.Core.Logic.{◌⊎◌, inl, inr}
use mathlib.Core.Bool.{Bool, true, false}
use mathlib.Core.Option.{Option, none, some}

-- `E` is the component's type of reasons.
pub data Refusal {ℓ} (E : Type ℓ) : Type ℓ where
  bad_request : E → Refusal E
  forbidden : E → Refusal E
  not_found : E → Refusal E
  unavailable : E → Refusal E
  failed : E → Refusal E
  conflict : E → Refusal E

pub data Result {ℓ} (E A : Type ℓ) : Type ℓ where
  ok : A → Result E A
  err : Refusal E → Result E A

-- `if (!b) throw e`
abbrev pub guard {ℓ} : {E : Type ℓ} → Bool → Refusal E → Result E (Unit {ℓ})
guard true refused = ok tt
guard false refused = err refused

-- `if (!row) throw e`
abbrev pub or_throw {ℓ} : {E A : Type ℓ} → Option A → Refusal E → Result E A
or_throw none refused = err refused
or_throw (some row) refused = ok row

-- A handler goes on with what a call returned, and passes its refusal on.
infixl 5 ◌>>=◌
abbrev pub ◌>>=◌ {ℓ} : {E A B : Type ℓ} → Result E A → (A → Result E B) → Result E B
ok found >>= next = next found
err refused >>= next = err refused

infixl 5 ◌>>◌
abbrev pub ◌>>◌ {ℓ} : {E B : Type ℓ} → Result E (Unit {ℓ}) → Result E B → Result E B
check >> rest = check >>= λ _. rest

pub ok_eq {ℓ} : {E A : Type ℓ} (a b : A) → ◌≡◌ {A = Result E A} (ok a) (ok b) → a ≡ b
ok_eq a b e = cc

pub or_throw-some {ℓ} :
    {E A : Type ℓ} (m : Option A) (e : Refusal E) {a : A} → or_throw m e ≡ ok a → m ≡ some a
or_throw-some none e h = cc
or_throw-some (some b) e h = ap some (ok_eq b _ h)

pub guard-true {ℓ} :
    {E : Type ℓ} (b : Bool) (e : Refusal E) {u : Unit} → guard b e ≡ ok u → b ≡ true
guard-true true e h = refl
guard-true false e h = cc

-- What a chain of calls that succeeded went through: its first call, and the rest of it.
pub >>=-eq-ok {ℓ} :
    {E A B : Type ℓ} (call : Result E A) (next : A → Result E B) {last : B}
    → (call >>= next) ≡ ok last
    → (found : A) × (call ≡ ok found) × (next found ≡ ok last)
>>=-eq-ok (err refused) next e = cc
>>=-eq-ok (ok found) next e = (found, refl, e)

-- Every value that is returned satisfies `P`; a refusal satisfies anything.
abbrev pub Returns {ℓ} : {E A : Type ℓ} → (A → Type ℓ) → Result E A → Type ℓ
Returns P (ok a) = P a
Returns P (err e) = Unit

pub Returns-ok {ℓ} :
    {E A : Type ℓ} (P : A → Type ℓ) (m : Result E A) {a : A} → Returns P m → m ≡ ok a → P a
Returns-ok P (ok b) h e = subst P (ok_eq b _ e) h
Returns-ok P (err x) h e = cc

-- A check that let the call through: what follows it returned.
pub >>-eq-ok {ℓ} :
    {E B : Type ℓ} (check : Result E Unit) (rest : Result E B) {last : B}
    → (check >> rest) ≡ ok last
    → rest ≡ ok last
>>-eq-ok (err refused) rest e = cc
>>-eq-ok (ok found) rest e = e

pub guard-eq-ok {ℓ} :
    {E B : Type ℓ} (b : Bool) (refused : Refusal E) (rest : Result E B) {last : B}
    → (guard b refused >> rest) ≡ ok last
    → (b ≡ true) × (rest ≡ ok last)
guard-eq-ok true refused rest e = (refl, e)
guard-eq-ok false refused rest e = cc

-- To split on what a call returned and keep the equation.
pub Result-cases {ℓ} :
    {E A : Type ℓ} (m : Result E A) → ((a : A) × (m ≡ ok a)) ⊎ ((e : Refusal E) × (m ≡ err e))
Result-cases (ok a) = inl (a, refl)
Result-cases (err e) = inr (e, refl)
