-- ===== src/Base/Text/Trim.antt =====
-- strings.TrimSpace trims once and for all.
use Prim.Native.String.{String}
use mathlib.Core.Path.{◌≡◌, refl}
use mathlib.Core.Logic.{inl, inr}
use mathlib.Core.Bool.{false, ◌&&◌}
use text.Mathlib.Text.{◌==◌}
use vault_secrets_webhook.Base.Tests.{Bool-cases}
use vault_secrets_webhook.Base.Text.{is_space, trim_left, trim_right, trim_space}

-- The text does not begin with white space.
abbrev NoLead : String → Type 0
NoLead String.[] = Unit
NoLead (String.◌∷◌ c s) = is_space c ≡ false

trim_left-NoLead : (s : String) → NoLead (trim_left s)
unfolding trim_left
trim_left-NoLead String.[] = tt
trim_left-NoLead (String.◌∷◌ c s) = elim (Bool-cases (is_space c)) [
  | inl space ↦ rw space (trim_left-NoLead s)
  | inr other ↦ rw other other
]

trim_left_of_NoLead : (s : String) → NoLead s → trim_left s ≡ s
unfolding trim_left
trim_left_of_NoLead String.[] h = refl
trim_left_of_NoLead (String.◌∷◌ c s) h = rw h

trim_right-NoLead : (s : String) → NoLead s → NoLead (trim_right s)
unfolding trim_right
trim_right-NoLead String.[] h = tt
trim_right-NoLead (String.◌∷◌ c s) h = rw h h

trim_right_idem : (s : String) → trim_right (trim_right s) ≡ trim_right s
unfolding trim_right
trim_right_idem String.[] = refl
trim_right_idem (String.◌∷◌ c s) = elim (Bool-cases (is_space c && trim_right s == "")) [
  | inl gone ↦ rw gone
  | inr kept ↦ rw (kept, trim_right_idem s, kept)
]

pub trim_space_idem : (s : String) → trim_space (trim_space s) ≡ trim_space s
unfolding trim_space
trim_space_idem s =
    rw (trim_left_of_NoLead _ (trim_right-NoLead _ (trim_left-NoLead s)))
      (trim_right_idem (trim_left s))
