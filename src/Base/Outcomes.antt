-- ===== src/Base/Outcomes.antt =====
-- What a C function does: it returns a value, it takes its error return, it stops in an assert, or
-- it reads or writes outside an object.
use mathlib.Core.Path.{◌≡◌, refl, ap}
use mathlib.Core.Bool.{Bool, true, false}

pub data Outcome {ℓ} (A : Type ℓ) : Type ℓ where
  ok : A → Outcome A
  -- the error return, after the function's own cleanup
  err : Outcome A
  -- a failed `assert`
  abort : Outcome A
  -- undefined behaviour: an access outside the object
  fault : Outcome A

infixl 5 ◌>>=◌ ◌>>◌
-- The rest of the function runs only where the first part returned.
abbrev pub ◌>>=◌ {ℓ κ} : {S : Type ℓ} {T : Type κ} → Outcome S → (S → Outcome T) → Outcome T
ok value >>= rest = rest value
err >>= rest = err
abort >>= rest = abort
fault >>= rest = fault

abbrev pub ◌>>◌ {ℓ} : {T : Type ℓ} → Outcome (Unit {0}) → Outcome T → Outcome T
first >> rest = first >>= λ _. rest

-- `if(bad) goto label_error;`
abbrev pub reject_if : Bool → Outcome (Unit {0})
reject_if true = err
reject_if false = ok tt

-- `assert(b);`
abbrev pub assert : Bool → Outcome (Unit {0})
assert true = ok tt
assert false = abort

pub ok-injective {ℓ} : {A : Type ℓ} {a b : A} → ok a ≡ ok b → a ≡ b
ok-injective {a = a} h = ap (λ m. elim m [ ok x ↦ x | _ ↦ a ]) h

pub >>=-eq-ok {ℓ κ} :
    {S : Type ℓ} {T : Type κ} (first : Outcome S) (rest : S → Outcome T) {result : T}
    → (first >>= rest) ≡ ok result
    → (value : S) × (first ≡ ok value) × (rest value ≡ ok result)
>>=-eq-ok (ok value) rest h = (value, refl, h)
>>=-eq-ok err rest h = cc
>>=-eq-ok abort rest h = cc
>>=-eq-ok fault rest h = cc

pub reject_if-eq-ok {ℓ} :
    {B : Type ℓ} (b : Bool) (m : Outcome B) {r : B}
    → (reject_if b >> m) ≡ ok r
    → (b ≡ false) × (m ≡ ok r)
reject_if-eq-ok true m h = cc
reject_if-eq-ok false m h = (refl, h)

pub assert-eq-ok {ℓ} :
    {B : Type ℓ} (b : Bool) (m : Outcome B) {r : B}
    → (assert b >> m) ≡ ok r
    → (b ≡ true) × (m ≡ ok r)
assert-eq-ok true m h = (refl, h)
assert-eq-ok false m h = cc
