-- ===== src/Prelude/Results.antt =====
-- Python's exceptions as values: a call returns, or raises an exception of one of these classes.
use mathlib.Core.Path.{◌≡◌, refl, ap}
use mathlib.Core.Bool.{Bool, true, false}
use mathlib.Core.List.{List, [], ◌∷◌}

-- `serialization_error` is what the RLP library raises on an object that it cannot encode.
pub data Exception : Type 0 where
  value_error type_error overflow_error serialization_error runtime_error key_error index_error
        not_implemented_error os_error duplicate_section_error fault system_exit attribute_error :
      Exception

-- What a call comes to.
pub data Result {κ} (R : Type κ) : Type κ where
  err : Exception → Result R
  ok : R → Result R

module _ {κ ℓ} {R : Type κ} {S : Type ℓ} where
  infixl 5 ◌>>=◌
  -- The next statement sees the value of the one before it; an exception ends the call.
  abbrev pub ◌>>=◌ : Result R → (R → Result S) → Result S
  err raised >>= next = err raised
  ok value >>= next = next value

  -- A sequence of two that returns has a first that returned.
  pub >>=-eq-ok :
      (first : Result R) (next : R → Result S) {out : S}
      → (first >>= next) ≡ ok out
      → (mid : R) × (first ≡ ok mid) × (next mid ≡ ok out)
  >>=-eq-ok (err raised) next returned = cc
  >>=-eq-ok (ok mid) next returned = (mid, refl, returned)

-- `if not test: raise exception`
abbrev pub require : Bool → Exception → Result (Unit {0})
require false exception = err exception
require true exception = ok tt

infixl 5 ◌>>◌
abbrev pub ◌>>◌ {ℓ} : {S : Type ℓ} → Result (Unit {0}) → Result S → Result S
check >> next = check >>= λ _. next

pub require-eq-ok {ℓ} :
    {B : Type ℓ} (t : Bool) (e : Exception) (k : Result B) {b : B}
    → (require t e >> k) ≡ ok b
    → (t ≡ true) × (k ≡ ok b)
require-eq-ok true e k h = (refl, h)
require-eq-ok false e k h = cc

-- A comprehension whose body may raise.
module _ {ℓ κ} {A : Type ℓ} {B : Type κ} where
  abbrev pub traverse : (A → Result B) → List A → Result (List B)
  traverse f [] = ok []
  traverse f (x ∷ xs) = f x >>= λ y. traverse f xs >>= λ ys. ok (y ∷ ys)

pub ok-injective {ℓ} : {A : Type ℓ} {a b : A} → ok a ≡ ok b → a ≡ b
ok-injective {A} {a} h = ap value h
  where
    value : Result A → A
    value (ok x) = x
    value (err e) = a

pub ok-ne-err {ℓ} : {A : Type ℓ} {a : A} {e : Exception} → ¬ ◌≡◌ {A = Result A} (ok a) (err e)
ok-ne-err h = cc
