-- ===== src/Base/Maps.antt =====
-- Maps as association lists, in the order in which a `range` loop visits them.
use Prim.Native.String.{String}
use mathlib.Core.Path.{◌≡◌, refl}
use mathlib.Core.Option.{Option, none, some}
use mathlib.Core.List.{List, [], ◌∷◌, map}
use native.Mathlib.Omega.{arith}
use text.Mathlib.Text.{◌==◌}
use text.Mathlib.TextEquality.{eq_iff}
use vault_secrets_webhook.Base.Tests.{if◌then◌else◌}

abbrev pub Assoc {ℓ} : Type ℓ → Type ℓ
Assoc V = List (String × V)

-- The keys, in order.
abbrev pub keys {ℓ} : {V : Type ℓ} → Assoc V → List String
keys = map (λ (key, _). key)

-- `v, ok := m[key]`
unfoldable pub lookup {ℓ} : {V : Type ℓ} → String → Assoc V → Option V
lookup key ((name, value) ∷ entries) = if name == key then some value else lookup key entries
lookup key [] = none

-- `m[key] = value`: in place where the key is there, else at the end.
unfoldable pub insert {ℓ} : {V : Type ℓ} → String → V → Assoc V → Assoc V
insert key value ((name, old) ∷ entries) =
    let rest = insert key value entries in
    if name == key then (key, value) ∷ entries else (name, old) ∷ rest
insert key value [] = (key, value) ∷ []

-- The value just stored, under the key; the others are as before.
pub lookup-insert {ℓ} :
    {V : Type ℓ} (key other : String) (value : V) (entries : Assoc V)
    → lookup other (insert key value entries)
      ≡ (if key == other then some value else lookup other entries)
unfolding lookup insert
lookup-insert key other value ((name, old) ∷ entries) = ground (
  arith,
  lookup-insert key other value entries,
  eq_iff name other,
  eq_iff key other,
  eq_iff name key,
)
lookup-insert key other value [] = refl
