-- ===== src/Base/Int.antt =====
-- Signed integers, as Go's `int64` values: `negsuc n` is -(n + 1).
pub mod Parse
pub mod Digits
use Prim.Native.Nat.{ℕ, zero, suc, ◌/◌, ◌%◌}
use Prim.Native.String
use Prim.Native.String.{String}
use mathlib.Core.Bool.{Bool, true, false}
use vault_secrets_webhook.Base.Tests.{ltb, if◌then◌else◌}

pub data ℤ : Type 0 where
  pos : ℕ → ℤ
  negsuc : ℕ → ℤ

-- `n > 0`
abbrev pub is_positive : ℤ → Bool
is_positive (pos zero) = false
is_positive (pos (suc _)) = true
is_positive (negsuc _) = false

-- The decimal digits of a number below 10 ^ fuel.
digits : ℕ → ℕ → String
digits zero n = ""
digits (suc fuel) n =
    let last = String.◌∷◌ (String.char_at "0123456789" (n % 10)) "" in
    let longer = String.◌++◌ (digits fuel (n / 10)) last in if ltb n 10 then last else longer

-- `strconv.Itoa`; an `int64` has at most 19 digits.
unfoldable pub itoa : ℤ → String
unfolding digits
itoa (pos n) = digits 20 n
itoa (negsuc n) = String.◌++◌ "-" (digits 20 (suc n))
