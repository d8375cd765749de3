-- ===== src/Common/Addr/ParseIp/Dotted.antt =====
-- Reading the dotted form of an IPv4 address, and the guard on a host in that form.
use Prim.Native.Char.{Char, code}
use mathlib.Core.Path.{subst}
use native.Mathlib.Decide.{dec_lt}
use text.Mathlib.TextLemmas.{nil-append, cons-append, append-nil}
use vault_secrets_webhook.Base.{
  ℕ, suc, ◌+◌, ◌-◌, ◌*◌, ◌/◌, ◌%◌, ◌<◌, ◌≤◌, pos, itoa, String, ◌<>◌, ◌≡◌, refl, ◌∙◌, sym, true,
  false, Bool-cases, inl, inr, ◌&&◌, ◌==◌, eq_iff, Option, some, List, [], ◌∷◌, ◌++◌, length, eqb,
  ltb, arith,
}
use vault_secrets_webhook.Base.Int.Digits.{digit, code-digit, itoa_one, itoa_two, itoa_three}
use vault_secrets_webhook.Common.Addr.Ip.{IpAddr, mapped_prefix}
use vault_secrets_webhook.Common.Addr.ParseIp.{parse_fields, form_of, ipv4, parse_ip, is_digit}

-- `IP.String` of an IPv4 address.
abbrev pub dotted : ℕ → ℕ → ℕ → ℕ → String
dotted a b c d =
    itoa (pos a)
    <> String.◌∷◌ "."
        (itoa (pos b) <> String.◌∷◌ "." (itoa (pos c) <> String.◌∷◌ "." (itoa (pos d))))

-- The three shapes of a byte's text.
byte_cases {ℓ} :
    (P : String → Type ℓ) (n : ℕ)
    → n < 256
    → (n < 10 → P (String.◌∷◌ (digit n) ""))
    → (10 ≤ n → n < 100 → P (String.◌∷◌ (digit (n / 10)) (String.◌∷◌ (digit (n % 10)) "")))
    → (100 ≤ n
        → P (
            String.◌∷◌
              (digit (n / 10 / 10))
              (String.◌∷◌ (digit (n / 10 % 10)) (String.◌∷◌ (digit (n % 10)) ""))))
    → P (itoa (pos n))
byte_cases P n h one two three = elim (dec_lt n 10) [
  | yes small ↦ subst P (sym (itoa_one n small)) (one small)
  | no large ↦ elim (dec_lt n 100) [
    | yes below ↦ subst P (sym (itoa_two n (omega arith) below)) (two (omega arith) below)
    | no above ↦ subst P (sym (itoa_three n (omega arith) (omega arith))) (three (omega arith))
  ]
]

module _ (m : ℕ) (h : m < 10) (s : String) where
  read_digit :
      (val new dig_len : ℕ) (fields : List ℕ)
      → (eqb dig_len 1 && eqb val 0) ≡ false
      → val * 10 + m ≡ new
      → new ≤ 255
      → parse_fields (String.◌∷◌ (digit m) s) val dig_len fields
        ≡ parse_fields s new (suc dig_len) fields
  unfolding parse_fields
  read_digit val new dig_len fields fresh value small =
      let e = code-digit m h in
      let found : is_digit (digit m) ≡ true = ground (arith, e) in
      let same : val * 10 + (code (digit m) - 48) ≡ new = omega (arith, e) in
      let fits : ltb 255 new ≡ false = ground arith in
      let longer : dig_len + 1 ≡ suc dig_len = omega arith in
      rw (found, same, fits, fresh, longer) refl

  form_of-digit : form_of (String.◌∷◌ (digit m) s) ≡ form_of s
  unfolding form_of
  form_of-digit = ground (arith, code-digit m h)

-- A byte's text is read to its number.
read_byte :
    (n : ℕ)
    → n < 256
    → (s : String) (fields : List ℕ)
    → (more : ℕ) × (parse_fields (itoa (pos n) <> s) 0 0 fields
        ≡ parse_fields s n (suc more) fields)
read_byte n h =
    byte_cases
      (λ text.
        (s : String) (fields : List ℕ)
        → (more : ℕ) × (parse_fields (text <> s) 0 0 fields ≡ parse_fields s n (suc more) fields))
      n h
      (λ small s fields. (
        0,
        rw (cons-append, nil-append)
            (read_digit n small s 0 n 0 fields refl (omega arith) (omega arith)),
      ))
      (λ large below s fields. (
        1,
        let tens = n / 10 in
            rw (cons-append, cons-append, nil-append)
              (read_digit tens (omega arith) (String.◌∷◌ (digit (n % 10)) s) 0 tens 0 fields refl
                  (omega arith) (omega arith)
                ∙ read_digit (n % 10) (omega arith) s tens n 1 fields (ground arith) (omega arith)
                    (omega arith)),
      ))
      (λ large s fields. (
        2,
        let hundreds = n / 10 / 10 in
            let tens = n / 10 % 10 in
            let rest = String.◌∷◌ (digit (n % 10)) s in
            rw (cons-append, cons-append, cons-append, nil-append)
              (read_digit hundreds (omega arith) (String.◌∷◌ (digit tens) rest) 0 hundreds 0 fields
                  refl (omega arith) (omega arith)
                ∙ read_digit tens (omega arith) rest hundreds (n / 10) 1 fields (ground arith)
                    (omega arith) (omega arith)
                ∙ read_digit (n % 10) (omega arith) s (n / 10) n 2 fields refl (omega arith)
                    (omega arith)),
      ))

-- A byte's text does not tell the forms of an address apart.
form_of-byte : (n : ℕ) → n < 256 → (s : String) → form_of (itoa (pos n) <> s) ≡ form_of s
form_of-byte n h =
    byte_cases (λ text. (s : String) → form_of (text <> s) ≡ form_of s) n h
      (λ small s. rw (cons-append, nil-append) (form_of-digit n small s))
      (λ large below s.
        rw (cons-append, cons-append, nil-append)
          (form_of-digit (n / 10) (omega arith) _ ∙ form_of-digit (n % 10) (omega arith) s))
      (λ large s.
        rw (cons-append, cons-append, cons-append, nil-append)
          (form_of-digit (n / 10 / 10) (omega arith) _
            ∙ form_of-digit (n / 10 % 10) (omega arith) _
            ∙ form_of-digit (n % 10) (omega arith) s))

cons_nonempty : (c : Char) (s : String) → (String.◌∷◌ c s == "") ≡ false
cons_nonempty c s = elim (Bool-cases (String.◌∷◌ c s == "")) [
  | inl same ↦ absurd (cc ((eq_iff (String.◌∷◌ c s) "").0 same))
  | inr other ↦ other
]

nonempty-byte : (n : ℕ) → n < 256 → (s : String) → (itoa (pos n) <> s == "") ≡ false
nonempty-byte n h =
    byte_cases (λ text. (s : String) → (text <> s == "") ≡ false) n h
      (λ small s. rw cons-append (cons_nonempty _ _))
      (λ large below s. rw cons-append (cons_nonempty _ _))
      (λ large s. rw cons-append (cons_nonempty _ _))

read_dot :
    (s : String) (n more : ℕ) (fields : List ℕ)
    → (s == "") ≡ false
    → eqb (length fields) 3 ≡ false
    → parse_fields (String.◌∷◌ "." s) n (suc more) fields ≡ parse_fields s 0 0 (fields ++ n ∷ [])
unfolding parse_fields
read_dot s n more fields some' room =
    let begun : eqb (suc more) 0 ≡ false = ground arith in rw (begun, some', room) refl

form_of-dot : (s : String) → form_of (String.◌∷◌ "." s) ≡ ipv4
unfolding form_of
form_of-dot s = refl

-- A field before a dot, and the last field.
read_field :
    (n : ℕ)
    → n < 256
    → (s : String) (fields : List ℕ) → (s == "") ≡ false
    → eqb (length fields) 3 ≡ false
    → parse_fields (itoa (pos n) <> String.◌∷◌ "." s) 0 0 fields
      ≡ parse_fields s 0 0 (fields ++ n ∷ [])
read_field n h s fields some' room =
    let (more, read) = read_byte n h (String.◌∷◌ "." s) fields in
    read ∙ read_dot s n more fields some' room

read_last :
    (n : ℕ)
    → n < 256
    → (x y z : ℕ) → parse_fields (itoa (pos n)) 0 0 (x ∷ y ∷ z ∷ []) ≡ some (x ∷ y ∷ z ∷ n ∷ [])
unfolding parse_fields
read_last n h x y z = let (more, read) = read_byte n h "" (x ∷ y ∷ z ∷ []) in rw append-nil at read

module _ (a b c d : ℕ) (pa : a < 256) (pb : b < 256) (pc : c < 256) (pd : d < 256)
    (parse_ipv6 : String → Option IpAddr) where
  dotted-fields : parse_fields (dotted a b c d) 0 0 [] ≡ some (a ∷ b ∷ c ∷ d ∷ [])
  dotted-fields =
      let last = itoa (pos d) in
      let third = itoa (pos c) <> String.◌∷◌ "." last in
      let second = itoa (pos b) <> String.◌∷◌ "." third in
      read_field a pa second [] (nonempty-byte b pb (String.◌∷◌ "." third)) refl
      ∙ read_field b pb third (a ∷ []) (nonempty-byte c pc (String.◌∷◌ "." last)) refl
      ∙ read_field c pc last (a ∷ b ∷ []) (rw append-nil at (nonempty-byte d pd "")) refl
      ∙ read_last d pd a b c

  -- The dotted form of four bytes parses to the IPv4 address of these bytes.
  pub parse_ip-dotted :
      parse_ip parse_ipv6 (dotted a b c d) ≡ some (mapped_prefix ++ a ∷ b ∷ c ∷ d ∷ [])
  unfolding parse_ip
  parse_ip-dotted =
      let second = itoa (pos b) <> String.◌∷◌ "." (itoa (pos c) <> String.◌∷◌ "." (itoa (pos d))) in
      let form = form_of-byte a pa (String.◌∷◌ "." second) ∙ form_of-dot second in
      rw (form, dotted-fields, parse_ip) refl
