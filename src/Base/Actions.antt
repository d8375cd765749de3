-- ===== src/Base/Actions.antt =====
-- Fallible code over a state that stays as it is left when an error ends the code.
use mathlib.Core.Path.{◌≡◌, refl}
use vault_secrets_webhook.Base.Results.{Result, ok, err}

abbrev pub Action {ℓ κ μ} : Type ℓ → Type κ → Type μ → Type (ℓ ⊔ κ ⊔ μ)
Action S E A = S → Result E A × S

-- What follows a computation: it goes on from the state left behind, or the error stands.
abbrev pub continue {ℓ κ μ ν} :
    {S : Type ℓ} {E : Type κ} {A : Type μ} {B : Type ν}
    → (A → Action S E B)
    → Result E A × S
    → Result E B × S
continue next (ok a, s) = next a s
continue next (err e, s) = (err e, s)

infixl 5 ◌>>=◌ ◌>>◌
abbrev pub ◌>>=◌ {ℓ κ μ ν} :
    {S : Type ℓ} {E : Type κ} {A : Type μ} {B : Type ν}
    → Action S E A
    → (A → Action S E B)
    → Action S E B
◌>>=◌ first next s = continue next (first s)

abbrev pub ◌>>◌ {ℓ κ μ} :
    {S : Type ℓ} {E : Type κ} {B : Type μ} → Action S E (Unit {0}) → Action S E B → Action S E B
first >> second = first >>= λ _. second

module _ {ℓ κ μ} {S : Type ℓ} {E : Type κ} {A : Type μ} where
  abbrev pub pure : A → Action S E A
  pure a s = (ok a, s)

  abbrev pub raise : E → Action S E A
  raise e s = (err e, s)

  -- A computation with a value has one at its first step.
  pub >>=-eq-ok {ν} :
      {B : Type ν} (first : Action S E A) (next : A → Action S E B) (s : S) {b : B} {u : S}
      → (first >>= next) s ≡ (ok b, u)
      → (a : A) × (t : S) × (first s ≡ (ok a, t)) × (next a t ≡ (ok b, u))
  >>=-eq-ok {B = B} first next s {b = b} {u = u} h = inverted (first s) h
    where
      inverted :
          (step : Result E A × S)
          → continue next step ≡ (ok b, u)
          → (a : A) × (t : S) × (step ≡ (ok a, t)) × (next a t ≡ (ok b, u))
      inverted (ok a, t) e = (a, t, refl, e)
      inverted (err f, t) e = absurd (cc e)
