-- ===== src/Base/Int/Digits.antt =====
-- The digits of numbers of up to three places.
use Prim.Native.Nat.{ℕ, zero, suc, ◌+◌, ◌/◌, ◌%◌, ◌<◌, ◌≤◌}
use Prim.Native.Char.{Char, code}
use Prim.Native.String
use Prim.Native.String.{String}
use mathlib.Core.Path.{◌≡◌, refl}
use mathlib.Core.Bool.{true, false}
use native.Mathlib.Omega.{arith}
use text.Mathlib.TextLemmas.{nil-append, cons-append}
use vault_secrets_webhook.Base.Tests.{ltb}
use vault_secrets_webhook.Base.Int.{pos, digits, itoa}

-- The digit of a number below ten.
abbrev pub digit : ℕ → Char
digit m = String.char_at "0123456789" m

pub code-digit : (m : ℕ) → m < 10 → code (digit m) ≡ 48 + m
code-digit zero h = refl
code-digit (suc zero) h = refl
code-digit (suc (suc zero)) h = refl
code-digit (suc (suc (suc zero))) h = refl
code-digit (suc (suc (suc (suc zero)))) h = refl
code-digit (suc (suc (suc (suc (suc zero))))) h = refl
code-digit (suc (suc (suc (suc (suc (suc zero)))))) h = refl
code-digit (suc (suc (suc (suc (suc (suc (suc zero))))))) h = refl
code-digit (suc (suc (suc (suc (suc (suc (suc (suc zero)))))))) h = refl
code-digit (suc (suc (suc (suc (suc (suc (suc (suc (suc zero))))))))) h = refl
code-digit (suc (suc (suc (suc (suc (suc (suc (suc (suc (suc m)))))))))) h = absurd (omega arith)

digits_last : (fuel n : ℕ) → n < 10 → digits (suc fuel) n ≡ String.◌∷◌ (digit n) ""
unfolding digits
digits_last fuel n h =
    let short : ltb n 10 ≡ true = ground arith in
    let same : n % 10 ≡ n = omega arith in rw (short, same) refl

digits_more :
    (fuel n : ℕ)
    → 10 ≤ n
    → digits (suc fuel) n ≡ String.◌++◌ (digits fuel (n / 10)) (String.◌∷◌ (digit (n % 10)) "")
unfolding digits
digits_more fuel n h = let long : ltb n 10 ≡ false = ground arith in rw long refl

-- The texts of numbers of one, two and three digits.
pub itoa_one : (n : ℕ) → n < 10 → itoa (pos n) ≡ String.◌∷◌ (digit n) ""
unfolding itoa
itoa_one n h = digits_last 19 n h

pub itoa_two :
    (n : ℕ)
    → 10 ≤ n
    → n < 100
    → itoa (pos n) ≡ String.◌∷◌ (digit (n / 10)) (String.◌∷◌ (digit (n % 10)) "")
unfolding itoa
itoa_two n l h =
    rw (digits_more 19 n l, digits_last 18 (n / 10) (omega arith)) (simp (cons-append, nil-append))

pub itoa_three :
    (n : ℕ)
    → 100 ≤ n
    → n < 1000
    → itoa (pos n)
      ≡ String.◌∷◌
          (digit (n / 10 / 10))
          (String.◌∷◌ (digit (n / 10 % 10)) (String.◌∷◌ (digit (n % 10)) ""))
unfolding itoa
itoa_three n l h =
    rw
      (
        digits_more 19 n (omega arith),
        digits_more 18 (n / 10) (omega arith),
        digits_last 17 (n / 10 / 10) (omega arith),
      )
      (simp (cons-append, nil-append))
