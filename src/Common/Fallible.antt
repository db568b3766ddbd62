-- ===== src/Common/Fallible.antt =====
-- Results of functions that return an `error`: the error is its text.
use Prim.Native.String.{String}
use mathlib.Core.Bool.{Bool, true, false}
use mathlib.Core.Logic.{◌⊎◌, inl, inr}
use mathlib.Core.Path.{◌≡◌, refl, ap}
use mathlib.Core.Option.{Option, none, some}

pub data Outcome {ℓ} (A : Type ℓ) : Type ℓ where
  ok : A → Outcome A
  err : String → Outcome A

infixl 5 ◌>>=◌
-- `v, err := m; if err != nil { return err }`, and then `next v`
abbrev pub ◌>>=◌ {ℓ κ} : {S : Type ℓ} {T : Type κ} → Outcome S → (S → Outcome T) → Outcome T
err text >>= next = err text
ok value >>= next = next value

infixl 5 ◌>>◌
-- `if err := m; err != nil { return err }`, and then the rest
abbrev pub ◌>>◌ {κ} : {T : Type κ} → Outcome (Unit {0}) → Outcome T → Outcome T
check >> rest = check >>= (λ done. rest)

-- `if c { return fmt.Errorf(e) }`
abbrev pub fail_if : Bool → String → Outcome (Unit {0})
fail_if true e = err e
fail_if false e = ok tt

pub ok-injective {ℓ} : {A : Type ℓ} {a b : A} → ok a ≡ ok b → a ≡ b
ok-injective h = cc

-- a missing value is an error
abbrev pub or_fail {ℓ} : {A : Type ℓ} → Option A → String → Outcome A
or_fail none e = err e
or_fail (some a) e = ok a

pub or_fail-eq-ok {ℓ} :
    {A : Type ℓ} (o : Option A) (e : String) {a : A} → or_fail o e ≡ ok a → o ≡ some a
or_fail-eq-ok none e h = cc
or_fail-eq-ok (some a) e h = ap some (ok-injective h)

pub >>=-eq-ok {ℓ κ} :
    {S : Type ℓ} {T : Type κ} (first : Outcome S) (next : S → Outcome T) {result : T}
    → (first >>= next) ≡ ok result
    → (value : S) × (first ≡ ok value) × (next value ≡ ok result)
>>=-eq-ok (err text) next h = cc
>>=-eq-ok (ok value) next h = (value, refl, h)

-- A guarded block that succeeds has passed its guard.
pub fail_if-eq-ok {ℓ} :
    {B : Type ℓ} (c : Bool) (e : String) (k : Outcome B) {b : B}
    → (fail_if c e >> k) ≡ ok b
    → (c ≡ false) × (k ≡ ok b)
fail_if-eq-ok true e k h = cc
fail_if-eq-ok false e k h = (refl, h)

pub Outcome-cases {ℓ} :
    {A : Type ℓ} (m : Outcome A) → ((a : A) × (m ≡ ok a)) ⊎ ((e : String) × (m ≡ err e))
Outcome-cases (ok a) = inl (a, refl)
Outcome-cases (err e) = inr (e, refl)
