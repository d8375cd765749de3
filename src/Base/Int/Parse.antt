-- ===== src/Base/Int/Parse.antt =====
-- Go's `strconv.ParseInt`, as its callers use it that drop the error.
use Prim.Native.Nat.{ℕ, zero, suc, ◌+◌, ◌-◌, ◌*◌, ◌^◌, ◌≤◌, ◌<◌}
use Prim.Native.Char.{Char, code}
use Prim.Native.String.{String, [], ◌∷◌}
use mathlib.Core.Bool.{Bool, true, false, ◌&&◌, ◌||◌}
use mathlib.Core.Option.{Option, none, some}
use native.Mathlib.Omega.{arith}
use text.Mathlib.Text.{◌==◌}
use vault_secrets_webhook.Base.Tests.{ltb, leb, eqb, if◌then◌else◌, Bool-cases}
use mathlib.Core.Logic.{inl, inr}
use vault_secrets_webhook.Base.Int.{ℤ, pos, negsuc}

-- What `ParseUint` returns: a number, or that it is out of range, or a syntax error.
pub data Parsed : Type 0 where
  number : ℕ → Parsed
  out_of_range syntax_error : Parsed

-- `lower(c)`: sets the bit of lower case.
abbrev lower_code : Char → ℕ
lower_code c = if leb 65 (code c) && leb (code c) 90 then code c + 32 else code c

-- The value of a digit or a letter.
digit_value : Char → Option ℕ
digit_value c =
    if leb b'0' (code c) && leb (code c) b'9'
    then some (code c - b'0')
    else if leb b'a' (lower_code c) && leb (lower_code c) b'z'
    then some (lower_code c - b'a' + 10)
    else none

-- The loop of `ParseUint`: the base, whether underscores are allowed, the limit, what is left, the
-- number so far, and whether there was an underscore.
read_digits : ℕ → Bool → ℕ → String → ℕ → Bool → Parsed × Bool
unfolding digit_value
read_digits base any_base limit [] n seen = (number n, seen)
read_digits base any_base limit (c ∷ s) n seen = elim (any_base && eqb (code c) b'_') [
  | true ↦ read_digits base any_base limit s n true
  | false ↦ elim (digit_value c) [
    | none ↦ (syntax_error, seen)
    | some d ↦ elim (ltb d base) [
      | false ↦ (syntax_error, seen)
      | true ↦ elim (leb (n * base + d) limit) [
        | true ↦ read_digits base any_base limit s (n * base + d) seen
        | false ↦ (out_of_range, seen)
      ]
    ]
  ]
]

-- What stood last, in `underscoreOK`.
pub data Last : Type 0 where
  at_start after_digit after_underscore after_other : Last

abbrev is_digit_for : Bool → Char → Bool
is_digit_for hex c =
    (leb b'0' (code c) && leb (code c) b'9')
    || (hex && leb b'a' (lower_code c) && leb (lower_code c) b'f')

-- The loop of `underscoreOK`.
underscores_from : Bool → String → Last → Bool
underscores_from hex [] after_underscore = false
underscores_from hex [] last = true
underscores_from hex (c ∷ s) last = elim (is_digit_for hex c) [
  | true ↦ underscores_from hex s after_digit
  | false ↦ elim (eqb (code c) b'_') [
    | true ↦ elim last [ after_digit ↦ underscores_from hex s after_underscore | _ ↦ false ]
    | false ↦ elim last [ after_underscore ↦ false | _ ↦ underscores_from hex s after_other ]
  ]
]

-- The base that the letter of a prefix names.
prefix_base : Char → Option ℕ
prefix_base c =
    if eqb (lower_code c) b'b'
    then some 2
    else if eqb (lower_code c) b'o'
    then some 8
    else if eqb (lower_code c) b'x'
    then some 16
    else none

-- `underscoreOK` of a text without a sign.
underscore_ok : String → Bool
unfolding underscores_from prefix_base
underscore_ok [] = true
underscore_ok (z ∷ []) = underscores_from false (z ∷ []) at_start
underscore_ok (z ∷ c ∷ s) = elim (prefix_base c) [
  | none ↦ underscores_from false (z ∷ c ∷ s) at_start
  | some base ↦ elim (eqb (code z) b'0') [
    | true ↦ underscores_from (eqb base 16) s after_digit
    | false ↦ underscores_from false (z ∷ c ∷ s) at_start
  ]
]

-- The base of a text whose base is not given, and what is left of it.
based : String → ℕ × String
unfolding prefix_base
based [] = (10, [])
based (z ∷ []) = if eqb (code z) b'0' then (8, []) else (10, z ∷ [])
based (z ∷ c ∷ s) =
    if eqb (code z) b'0'
    then elim (prefix_base c) [
      | none ↦ (8, c ∷ s)
      | some base ↦ if s == "" then (8, c ∷ s) else (base, s)
    ]
    else (10, z ∷ c ∷ s)

-- A number with an underscore out of place is none.
checked : String → Parsed × Bool → Parsed
unfolding underscore_ok
checked s (number n, true) = if underscore_ok s then number n else syntax_error
checked s (parsed, seen) = parsed

-- `ParseUint`
parse_uint : String → ℕ → ℕ → Parsed
unfolding read_digits based checked
parse_uint s base bit_size =
    let limit = 2 ^ bit_size - 1 in
    if s == ""
    then syntax_error
    else if eqb base 0
    then (let (found, rest) = based s in checked s (read_digits found true limit rest 0 false))
    else (read_digits base false limit s 0 false).0

-- The negative of a number.
abbrev negated : ℕ → ℤ
negated zero = pos zero
negated (suc n) = negsuc n

-- What `ParseInt` makes of the number: out of range, it is the nearest number in range.
signed : Bool → ℕ → Parsed → ℤ
signed negative cutoff syntax_error = pos 0
signed negative cutoff out_of_range = if negative then negated cutoff else pos (cutoff - 1)
signed true cutoff (number n) = if ltb cutoff n then negated cutoff else negated n
signed false cutoff (number n) = if leb cutoff n then pos (cutoff - 1) else pos n

-- `ParseInt`, its value: 0 after a syntax error.
unfoldable pub parse_int : String → ℕ → ℕ → ℤ
unfolding parse_uint signed
parse_int [] base bit_size = pos 0
parse_int (c ∷ s) base bit_size =
    let cutoff = 2 ^ (bit_size - 1) in
    if eqb (code c) b'+'
    then signed false cutoff (parse_uint s base bit_size)
    else if eqb (code c) b'-'
    then signed true cutoff (parse_uint s base bit_size)
    else signed false cutoff (parse_uint (c ∷ s) base bit_size)

-- The number fits a signed integer with this cutoff.
abbrev pub IsWithin : ℕ → ℤ → Type 0
IsWithin cutoff (pos n) = n < cutoff
IsWithin cutoff (negsuc n) = n < cutoff

negated-IsWithin : (cutoff n : ℕ) → 0 < cutoff → n ≤ cutoff → IsWithin cutoff (negated n)
negated-IsWithin cutoff zero some' le = some'
negated-IsWithin cutoff (suc n) some' le = omega arith

signed-IsWithin :
    (negative : Bool) (cutoff : ℕ) (parsed : Parsed)
    → 0 < cutoff
    → IsWithin cutoff (signed negative cutoff parsed)
unfolding signed
signed-IsWithin negative cutoff syntax_error some' = some'
signed-IsWithin true cutoff out_of_range some' = negated-IsWithin cutoff cutoff some' (omega arith)
signed-IsWithin false cutoff out_of_range some' = omega arith
signed-IsWithin true cutoff (number n) some' = elim (Bool-cases (ltb cutoff n)) [
  | inl over ↦ rw over (negated-IsWithin cutoff cutoff some' (omega arith))
  | inr fits ↦ rw fits (negated-IsWithin cutoff n some' (ground arith))
]
signed-IsWithin false cutoff (number n) some' = elim (Bool-cases (leb cutoff n)) [
  | inl over ↦ rw over (omega arith)
  | inr fits ↦ rw fits (ground arith)
]

-- Whatever the text, the value fits the size.
pub parse_int-IsWithin :
    (s : String) (base bit_size : ℕ)
    → 0 < 2 ^ (bit_size - 1)
    → IsWithin (2 ^ (bit_size - 1)) (parse_int s base bit_size)
unfolding parse_int
parse_int-IsWithin [] base bit_size some' = some'
parse_int-IsWithin (c ∷ s) base bit_size some' = elim (Bool-cases (eqb (code c) b'+')) [
  | inl plus ↦ rw plus (signed-IsWithin false _ _ some')
  | inr unsigned ↦ elim (Bool-cases (eqb (code c) b'-')) [
    | inl minus ↦ rw (unsigned, minus) (signed-IsWithin true _ _ some')
    | inr digits ↦ rw (unsigned, digits) (signed-IsWithin false _ _ some')
  ]
]
