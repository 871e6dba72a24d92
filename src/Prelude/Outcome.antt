-- ===== src/Prelude/Outcome.antt =====
-- How a call of the program can end: it returns, it calls exit(1), or it does what C++ leaves
-- undefined (an access outside an array, a signed division that overflows).
use simctty.Prelude.Tests.{if◌then◌else◌}
use mathlib.Core.Option.{Option, none, some}
use mathlib.Core.Path.{◌≡◌, refl, subst}
use mathlib.Core.Bool.{Bool, true, false, false≢true}

pub data Result {ℓ} (A : Type ℓ) : Type ℓ where
  ok : A → Result A
  exited : Result A
  fault : Result A

infixl 5 ◌>>=◌
abbrev pub ◌>>=◌ {ℓ κ} : {A : Type ℓ} {B : Type κ} → Result A → (A → Result B) → Result B
ok a >>= f = f a
exited >>= f = exited
fault >>= f = fault

-- An array access: `none` is an index out of range.
abbrev pub checked {ℓ} : {A : Type ℓ} → Option A → Result A
checked none = fault
checked (some a) = ok a

-- If the call returns, `P` holds of its value.
abbrev pub Ensures {ℓ κ} : {A : Type ℓ} → (A → Type κ) → Result A → Type κ
Ensures P (ok a) = P a
Ensures P exited = Unit
Ensures P fault = Unit

abbrev pub is_ok {ℓ} : {A : Type ℓ} → Result A → Bool
is_ok (ok a) = true
is_ok exited = false
is_ok fault = false

-- The call returns, and `P` holds of its value.
pub record Returns {ℓ κ} {A : Type ℓ} (P : A → Type κ) (result : Result A) : Type (ℓ ⊔ κ) where
  pub value : A
  pub returns : result ≡ ok value
  pub holds : P value

-- A test and its branches, as a chain.
infixr 2 ◌or_else◌
pub ◌or_else◌ {ℓ κ} :
    {A : Type ℓ} {P : A → Type κ} {test : Bool} {x y : Result A}
    → (test ≡ true → Returns P x)
    → Returns P y
    → Returns P (if test then x else y)
◌or_else◌ {test = true} p q = p refl
◌or_else◌ {test = false} p q = q

module _ {ℓ κ} {A : Type ℓ} (P : A → Type κ) where
  pub Returns-ok : (a : A) → P a → Returns P (ok a)
  Returns-ok a h = record { value = a; returns = refl; holds = h }

  -- A call that is known to return.
  pub Ensures-ok : (r : Result A) {a : A} → r ≡ ok a → Ensures P r → P a
  Ensures-ok r e h = subst (Ensures P) e h

  pub Ensures-of : (r : Result A) → ((a : A) → r ≡ ok a → P a) → Ensures P r
  Ensures-of (ok a) h = h a refl
  Ensures-of exited h = tt
  Ensures-of fault h = tt

  pub Returns-of : (r : Result A) → Ensures P r → is_ok r ≡ true → Returns P r
  Returns-of (ok a) h e = Returns-ok a h
  Returns-of exited h e = absurd (false≢true e)
  Returns-of fault h e = absurd (false≢true e)

  pub Ensures-map {κ'} :
      (Q : A → Type κ') (r : Result A) → Ensures P r → ((a : A) → P a → Q a) → Ensures Q r
  Ensures-map Q (ok a) h k = k a h
  Ensures-map Q exited h k = tt
  Ensures-map Q fault h k = tt

  -- What a call returns is what it is known to return.
  pub Returns-at : (r : Result A) {a : A} → Returns P r → r ≡ ok a → P a
  Returns-at r {a} h e = let same : h.value ≡ a = cc (h.returns, e) in subst P same h.holds

  pub Returns-if :
      (test : Bool) (x y : Result A)
      → (test ≡ true → Returns P x)
      → (test ≡ false → Returns P y)
      → Returns P (if test then x else y)
  Returns-if true x y p q = p refl
  Returns-if false x y p q = q refl

  module _ {ℓ' κ'} {B : Type ℓ'} (Q : B → Type κ') where
    pub Ensures-bind :
        (r : Result A) (f : A → Result B)
        → Ensures P r
        → ((a : A) → P a → Ensures Q (f a))
        → Ensures Q (r >>= f)
    Ensures-bind (ok a) f h k = k a h
    Ensures-bind exited f h k = tt
    Ensures-bind fault f h k = tt

    pub Returns-bind :
        (r : Result A) (f : A → Result B)
        → Returns P r
        → ((a : A) → P a → Returns Q (f a))
        → Returns Q (r >>= f)
    Returns-bind r f h k = rw h.returns (k h.value h.holds)
