-- ===== src/Base/Results.antt =====
-- Results of fallible code.
use mathlib.Core.Path.{◌≡◌, refl}
use mathlib.Core.Logic.{◌⊎◌, inl, inr}
use mathlib.Core.Bool.{Bool, true, false}

pub data Result {ℓ κ} (E : Type ℓ) (A : Type κ) : Type (ℓ ⊔ κ) where
  ok : A → Result E A
  err : E → Result E A

-- Goes on with the value; an error ends the computation.
infixl 5 ◌>>=◌
abbrev pub ◌>>=◌ {ℓ κ μ} :
    {E : Type ℓ} {A : Type κ} {B : Type μ} → Result E A → (A → Result E B) → Result E B
err failure >>= next = err failure
ok value >>= next = next value

infixl 5 ◌>>◌
abbrev pub ◌>>◌ {ℓ κ} : {E : Type ℓ} {B : Type κ} → Result E (Unit {0}) → Result E B → Result E B
first >> second = first >>= λ _. second

-- `if test { return err }`: the error where the test holds.
abbrev pub reject_if {ℓ} : {E : Type ℓ} → Bool → E → Result E (Unit {0})
reject_if true e = err e
reject_if false e = ok tt

module _ {ℓ κ} {E : Type ℓ} {A : Type κ} where
  pub ok-injective : {a b : A} → (let r : Result E A = ok a in r) ≡ ok b → a ≡ b
  ok-injective h = cc

  pub err-injective : {e f : E} → (let r : Result E A = err e in r) ≡ err f → e ≡ f
  err-injective h = cc

  pub Result-cases : (r : Result E A) → ((a : A) × (r ≡ ok a)) ⊎ ((e : E) × (r ≡ err e))
  Result-cases (ok a) = inl (a, refl)
  Result-cases (err e) = inr (e, refl)

  -- A computation with a value has one at its first step.
  pub >>=-eq-ok {μ} :
      {B : Type μ} (first : Result E A) (next : A → Result E B) {result : B}
      → first >>= next ≡ ok result
      → (value : A) × (first ≡ ok value) × (next value ≡ ok result)
  >>=-eq-ok (err failure) next e = absurd (cc e)
  >>=-eq-ok (ok value) next e = (value, refl, e)

  -- Wraps an error as `errors.Wrap` does.
  abbrev pub wrap {μ} : {F : Type μ} → (E → F) → Result E A → Result F A
  wrap f (ok a) = ok a
  wrap f (err e) = err (f e)

  -- What a wrapped result holds, the result holds.
  pub wrap-eq-ok {μ} :
      {F : Type μ} (f : E → F) (r : Result E A) {value : A} → wrap f r ≡ ok value → r ≡ ok value
  wrap-eq-ok f (ok value) e = cc
  wrap-eq-ok f (err failure) e = absurd (cc e)
