-- ===== src/Common/Addr.antt =====
-- pkg/common/addr.go: the policy on addresses that an object's annotation names.
pub mod Ip
pub mod ParseIp
pub mod Allowlist
pub mod Numeric
pub mod Guard
pub mod Literal
use Prim.Native.Char.{Char, code}
use Prim.Native.String
use vault_secrets_webhook.Base.{
  ℕ, ◌-◌, String, ◌<>◌, ◌≡◌, Bool, true, false, not, ◌&&◌, ◌||◌, Option, none, some, List, [], ◌∷◌,
  ◌==◌, starts_with, ltb, leb, eqb, if◌then◌else◌, Result, ok, err, ◌>>=◌, ◌>>◌, reject_if, is_some,
}
use vault_secrets_webhook.Base.Text.{trim_space, trim_suffix, lower_ascii}
use vault_secrets_webhook.Common.Addr.Ip.{IpAddr, is_unsafe_ip}

-- The fields of `url.URL` that the guard reads; `user` is nil or the text of the credentials.
pub record Url : Type 0 where
  pub scheme : String
  pub user : Option String
  pub host : String
  pub path : String
  pub raw_query : String
  pub force_query : Bool
  pub fragment : String

-- What the guard calls of Go's `net`, `net/url` and `unicode`: `url.Parse` (none is an error),
-- `net.ParseIP` (none is nil) and `unicode.ToLower` outside ASCII.
pub record Net : Type 0 where
  pub parse_url : String → Option Url
  pub parse_ip : String → Option IpAddr
  pub wide_lower : Char → Char

pub record AddrPolicy : Type 0 where
  pub allowlist : List String
  pub allow_private : Bool

-- The errors of `ValidateObjectAddr`, by message.
pub data AddrError : Type 0 where
  empty_address malformed unsupported_scheme no_host has_credentials has_query : AddrError
  not_allowlisted metadata_host ambiguous_literal unsafe_target : AddrError

all_digits : String → Bool
all_digits String.[] = true
all_digits (String.◌∷◌ c s) = leb b'0' (code c) && leb (code c) b'9' && all_digits s

-- Cuts a port, which is empty or all digits, and the colon before it.
strip_port : String → String
unfolding all_digits
strip_port String.[] = ""
strip_port (String.◌∷◌ c s) =
    let rest = strip_port s in if eqb (code c) b':' && all_digits s then "" else String.◌∷◌ c rest

ends_with_bracket : String → Bool
ends_with_bracket String.[] = false
ends_with_bracket (String.◌∷◌ c s) = (s == "" && eqb (code c) b']') || ends_with_bracket s

strip_brackets : String → String
unfolding ends_with_bracket
strip_brackets String.[] = ""
strip_brackets (String.◌∷◌ c s) =
    if eqb (code c) b'[' && ends_with_bracket s then trim_suffix s "]" else String.◌∷◌ c s

-- `URL.Hostname`
unfoldable pub hostname : Url → String
unfolding strip_port strip_brackets
hostname u = strip_brackets (strip_port u.host)

-- `cgnatRange` and the methods of `net.IP` stand in `Ip`.

-- The keys of `metadataHosts`.
abbrev pub is_metadata_host : String → Bool
is_metadata_host host = host == "localhost" || host == "metadata.google.internal"

abbrev pub is_http : String → Bool
is_http scheme = scheme == "http" || scheme == "https"

-- The loop of `looksLikeNumericIP` over the rest of the host, with `hasDigit`.
digits_and_dots : String → Bool → Bool
digits_and_dots String.[] has_digit = has_digit
digits_and_dots (String.◌∷◌ r host) has_digit =
    let digit = leb b'0' (code r) && leb (code r) b'9' in
    let rest = digits_and_dots host (has_digit || digit) in
    if digit || eqb (code r) b'.' then rest else false

module _ (net : Net) where
  lower_char : Char → Char
  lower_char c = if ltb (code c) 128 then lower_ascii c else net.wide_lower c

  -- `strings.ToLower`
  unfoldable pub to_lower : String → String
  unfolding lower_char
  to_lower String.[] = ""
  to_lower (String.◌∷◌ c s) = String.◌∷◌ (lower_char c) (to_lower s)

  -- `looksLikeNumericIP`
  unfoldable pub looks_like_numeric_ip : String → Bool
  unfolding digits_and_dots
  looks_like_numeric_ip host =
      if starts_with (to_lower host) "0x" then true else digits_and_dots host false

  -- `checkHostIPSafety`
  unfoldable pub check_host_ip_safety : String → Result AddrError (Unit {0})
  check_host_ip_safety host = elim (net.parse_ip host) [
    | none ↦ if looks_like_numeric_ip host then err ambiguous_literal else ok tt
    | some ip ↦ if is_unsafe_ip ip then err unsafe_target else ok tt
  ]

  -- `normalizeAddr` of a trimmed address.
  normalized : String → String
  normalized addr = elim (net.parse_url addr) [
    | none ↦ to_lower addr
    | some u ↦ to_lower u.scheme <> "://" <> to_lower u.host <> trim_suffix u.path "/"
  ]

  -- `normalizeAddr`
  unfoldable pub normalize_addr : String → String
  unfolding normalized
  normalize_addr addr = normalized (trim_space addr)

  -- The loop of `addrInAllowlist`.
  some_entry_matches : String → List String → Bool
  some_entry_matches target [] = false
  some_entry_matches target (entry ∷ allowlist) =
      let rest = some_entry_matches target allowlist in
      if trim_space entry == "" then rest else if normalize_addr entry == target then true else rest

  -- `addrInAllowlist`
  unfoldable pub addr_in_allowlist : String → List String → Bool
  unfolding some_entry_matches
  addr_in_allowlist addr allowlist = some_entry_matches (normalize_addr addr) allowlist

  -- `ValidateObjectAddr` from the parsed address on.
  check_url : String → Url → AddrPolicy → Result AddrError (Unit {0})
  check_url addr u policy = do
    reject_if (not (is_http (to_lower u.scheme))) unsupported_scheme
    reject_if (hostname u == "") no_host
    reject_if (is_some u.user) has_credentials
    reject_if (not (u.raw_query == "") || u.force_query || not (u.fragment == "")) has_query
    reject_if (not (addr_in_allowlist addr policy.allowlist)) not_allowlisted
    reject_if (is_metadata_host (to_lower (hostname u))) metadata_host
    if policy.allow_private then ok tt else check_host_ip_safety (hostname u)

  -- `ValidateObjectAddr`
  unfoldable pub validate_object_addr : String → AddrPolicy → Result AddrError (Unit {0})
  unfolding check_url
  validate_object_addr raw policy = do
    reject_if (trim_space raw == "") empty_address
    elim (net.parse_url (trim_space raw)) [
      | none ↦ err malformed
      | some u ↦ check_url (trim_space raw) u policy
    ]
