-- ===== src/Common/Results.antt =====
-- Go's (value, error) results, for any type of errors.
use mathlib.Core.Path.{◌≡◌, refl}
use mathlib.Core.Bool.{Bool, true, false}
use mathlib.Core.Option.{Option, none, some}
use mathlib.Core.Logic.{◌⊎◌, inl, inr}

-- An error or a value.
pub data Fallible {ℓ} (E : Type 0) (A : Type ℓ) : Type ℓ where
  err : (why : E) → Fallible E A
  ok : (value : A) → Fallible E A

-- `if cond { return err }`
abbrev pub fail_if : {E : Type 0} → Bool → E → Fallible E (Unit {0})
fail_if false why = ok tt
fail_if true why = err why

-- `if !ok { return err }` for a value that may be missing.
abbrev pub or_fail {ℓ} : {E : Type 0} {A : Type ℓ} → Option A → E → Fallible E A
or_fail (some found) why = ok found
or_fail none why = err why

infixl 5 ◌>>=◌ ◌>>◌
-- `if err != nil { return err }` before the rest.
abbrev pub ◌>>=◌ {ℓ κ} :
    {E : Type 0} {A : Type ℓ} {B : Type κ} → Fallible E A → (A → Fallible E B) → Fallible E B
err why >>= rest = err why
ok value >>= rest = rest value

abbrev pub ◌>>◌ {κ} :
    {E : Type 0} {B : Type κ} → Fallible E (Unit {0}) → Fallible E B → Fallible E B
err why >> rest = err why
ok _ >> rest = rest

pub >>=-eq-ok {ℓ κ} :
    {E : Type 0} {A : Type ℓ} {B : Type κ} (first : Fallible E A) (rest : A → Fallible E B) {b : B}
    → (first >>= rest) ≡ ok b
    → (value : A) × (first ≡ ok value) × (rest value ≡ ok b)
>>=-eq-ok (err why) rest h = cc
>>=-eq-ok (ok value) rest h = (value, refl, h)

pub >>-eq-ok {κ} :
    {E : Type 0} {B : Type κ} (first : Fallible E (Unit {0})) (rest : Fallible E B) {b : B}
    → (first >> rest) ≡ ok b
    → (first ≡ ok tt) × (rest ≡ ok b)
>>-eq-ok (err why) rest h = cc
>>-eq-ok (ok tt) rest h = (refl, h)

-- To split on a computed result and keep the equation.
pub Fallible-cases {ℓ} :
    {E : Type 0} {A : Type ℓ} (r : Fallible E A)
    → ((why : E) × (r ≡ err why)) ⊎ ((value : A) × (r ≡ ok value))
Fallible-cases (err why) = inl (why, refl)
Fallible-cases (ok value) = inr (value, refl)
