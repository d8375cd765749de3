-- ===== src/Common/Addr/ParseIp.antt =====
-- Go's `net.ParseIP`, as pkg/common/addr.go calls it, with the reading of IPv4 addresses of
-- `net/netip` written out.
pub mod Dotted
use Prim.Native.Char.{Char, code}
use Prim.Native.String
use vault_secrets_webhook.Base.{
  ℕ, zero, ◌+◌, ◌-◌, ◌*◌, String, Bool, true, false, ◌&&◌, ◌||◌, ◌==◌, Option, none, some, List, [],
  ◌∷◌, ◌++◌, length, eqb, leb, ltb, if◌then◌else◌,
}
use vault_secrets_webhook.Common.Addr.Ip.{IpAddr, mapped_prefix}

abbrev pub is_digit : Char → Bool
is_digit c = leb b'0' (code c) && leb (code c) b'9'

-- `parseIPv4Fields` from the value and the number of digits of the field being read, with the fields
-- read before it; a character after a dot is known by there being no digit yet.
unfoldable pub parse_fields : String → ℕ → ℕ → List ℕ → Option (List ℕ)
parse_fields String.[] val dig_len fields =
    if ltb (length fields) 3 then none else some (fields ++ val ∷ [])
parse_fields (String.◌∷◌ c s) val dig_len fields =
    let new = val * 10 + (code c - b'0') in
    let digit_read = parse_fields s new (dig_len + 1) fields in
    let field_read = parse_fields s 0 0 (fields ++ val ∷ []) in
    if is_digit c
    then if (eqb dig_len 1 && eqb val 0) || ltb 255 new then none else digit_read
    else if eqb (code c) b'.'
    then if eqb dig_len 0 || s == "" || eqb (length fields) 3 then none else field_read
    else none

-- The first of the characters that tell the forms of an address apart.
pub data Form : Type 0 where
  ipv4 ipv6 no_form : Form

form_of : String → Form
form_of String.[] = no_form
form_of (String.◌∷◌ c s) =
    let rest = form_of s in
    if eqb (code c) b'.'
    then ipv4
    else if eqb (code c) b':'
    then ipv6
    else if eqb (code c) b'%'
    then no_form
    else rest

-- `As16` of an IPv4 address.
abbrev as16 : Option (List ℕ) → Option IpAddr
as16 none = none
as16 (some fields) = some (mapped_prefix ++ fields)

-- `net.ParseIP`, from the reading of IPv6 addresses.
unfoldable pub parse_ip : (String → Option IpAddr) → String → Option IpAddr
unfolding form_of parse_fields
parse_ip parse_ipv6 s = elim (form_of s) [
  | ipv4 ↦ as16 (parse_fields s 0 0 [])
  | ipv6 ↦ parse_ipv6 s
  | no_form ↦ none
]
