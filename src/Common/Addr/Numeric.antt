-- ===== src/Common/Addr/Numeric.antt =====
-- pkg/common/addr.go: looksLikeNumericIP against a description of the hosts that it catches.
use Prim.Native.Char.{code}
use vault_secrets_webhook.Base.{
  ◌≤◌, String, ◌≡◌, ◌↔◌, ◌⊎◌, inl, inr, refl, Bool, true, false, arith, starts_with, Bool-cases,
}
use vault_secrets_webhook.Common.Addr.{Net, to_lower, digits_and_dots, looks_like_numeric_ip}

-- Every character is a digit or a dot.
abbrev pub IsNumeric : String → Type 0
IsNumeric String.[] = Unit
IsNumeric (String.◌∷◌ c s) = (((b'0' ≤ code c) × (code c ≤ b'9')) ⊎ (code c ≡ b'.')) × IsNumeric s

-- Some character is a digit.
abbrev pub HasDigit : String → Type 0
HasDigit String.[] = ⊥
HasDigit (String.◌∷◌ c s) = ((b'0' ≤ code c) × (code c ≤ b'9')) ⊎ HasDigit s

digits_and_dots_sound :
    (host : String) (seen : Bool)
    → digits_and_dots host seen ≡ true
    → IsNumeric host × ((seen ≡ true) ⊎ HasDigit host)
unfolding digits_and_dots
digits_and_dots_sound String.[] seen h = (tt, inl h)
digits_and_dots_sound (String.◌∷◌ c s) seen h =
    ground (arith, digits_and_dots_sound s true, digits_and_dots_sound s seen)

digits_and_dots_complete :
    (host : String) (seen : Bool)
    → IsNumeric host
    → (seen ≡ true) ⊎ HasDigit host
    → digits_and_dots host seen ≡ true
unfolding digits_and_dots
digits_and_dots_complete String.[] seen n (inl d) = d
digits_and_dots_complete String.[] seen n (inr d) = absurd d
digits_and_dots_complete (String.◌∷◌ c s) seen n d =
    ground (arith, digits_and_dots_complete s true, digits_and_dots_complete s seen)

-- A host is taken for a numeric address exactly when it begins with 0x in any letter case, or has
-- digits and dots alone and at least one digit.
pub looks_like_numeric_ip_iff :
    (net : Net) (host : String)
    → (looks_like_numeric_ip net host ≡ true)
      ↔ ((starts_with (to_lower net host) "0x" ≡ true) ⊎ (IsNumeric host × HasDigit host))
unfolding looks_like_numeric_ip
looks_like_numeric_ip_iff net host = elim (Bool-cases (starts_with (to_lower net host) "0x")) [
  | inl hex ↦ rw hex (λ _. inl refl, λ _. refl)
  | inr plain ↦ (
    λ h.
        let (numeric, digit) = digits_and_dots_sound host false (rw plain at h) in
        inr (numeric, elim digit [ inl never ↦ cc | inr d ↦ d ]),
    λ h. rw plain (elim h [
      | inl never ↦ absurd (ground arith)
      | inr (numeric, digit) ↦ digits_and_dots_complete host false numeric (inr digit)
    ]),
  )
]
