-- ===== src/Common/Addr/Guard.antt =====
-- pkg/common/addr.go: which addresses ValidateObjectAddr lets through.
use vault_secrets_webhook.Base.{
  String, ◌≡◌, ◌≢◌, ◌↔◌, ◌⊎◌, ◌∙◌, sym, true, false, none, some, inl, inr, arith, eq_iff,
  Option-cases, ok, err,
}
use vault_secrets_webhook.Base.Text.{trim_space}
use vault_secrets_webhook.Common.Addr.Ip.{is_unsafe_ip}
use vault_secrets_webhook.Common.Addr.{
  Net, Url, AddrPolicy, hostname, to_lower, looks_like_numeric_ip, check_host_ip_safety, check_url,
  validate_object_addr, not_allowlisted,
}
use vault_secrets_webhook.Common.Addr.Allowlist.{Listed, addr_in_allowlist_iff}

module _ (net : Net) where
  -- A host that is no address in an unsafe block and no number in another notation.
  abbrev pub IsSafeHost : String → Type 0
  IsSafeHost host = elim (net.parse_ip host) [
    | none ↦ looks_like_numeric_ip net host ≡ false
    | some ip ↦ is_unsafe_ip ip ≡ false
  ]

  check_host_ip_safety_iff :
      (host : String) → (check_host_ip_safety net host ≡ ok tt) ↔ IsSafeHost host
  unfolding check_host_ip_safety
  check_host_ip_safety_iff host = elim (Option-cases (net.parse_ip host)) [
    | inl e ↦ rw (e, check_host_ip_safety) (ground arith)
    | inr (ip, e) ↦ rw (e, check_host_ip_safety) (ground arith)
  ]

  -- What the guard requires of the parsed address.
  pub record IsVetted (addr : String) (u : Url) (policy : AddrPolicy) : Type 0 where
    pub scheme : (to_lower net u.scheme ≡ "http") ⊎ (to_lower net u.scheme ≡ "https")
    pub has_host : hostname u ≢ ""
    pub no_credentials : u.user ≡ none
    pub no_query : u.raw_query ≡ ""
    pub not_forced : u.force_query ≡ false
    pub no_fragment : u.fragment ≡ ""
    pub listed : Listed net addr policy.allowlist
    pub not_localhost : to_lower net (hostname u) ≢ "localhost"
    pub not_metadata : to_lower net (hostname u) ≢ "metadata.google.internal"
    pub safe : (policy.allow_private ≡ true) ⊎ IsSafeHost (hostname u)

  check_url-IsVetted :
      (addr : String) (u : Url) (policy : AddrPolicy)
      → check_url net addr u policy ≡ ok tt
      → IsVetted addr u policy
  unfolding check_url
  check_url-IsVetted addr u policy h = record {
    scheme =
        ground
          (arith, eq_iff (to_lower net u.scheme) "http", eq_iff (to_lower net u.scheme) "https");
    has_host = ground (arith, eq_iff (hostname u) "");
    no_credentials = ground arith;
    no_query = ground (arith, eq_iff u.raw_query "");
    not_forced = ground arith;
    no_fragment = ground (arith, eq_iff u.fragment "");
    listed = (addr_in_allowlist_iff net addr policy.allowlist).0 (ground arith);
    not_localhost = ground (arith, eq_iff (to_lower net (hostname u)) "localhost");
    not_metadata = ground (arith, eq_iff (to_lower net (hostname u)) "metadata.google.internal");
    safe = ground (arith, check_host_ip_safety_iff (hostname u));
  }

  IsVetted-check_url :
      (addr : String) (u : Url) (policy : AddrPolicy)
      → IsVetted addr u policy
      → check_url net addr u policy ≡ ok tt
  unfolding check_url
  IsVetted-check_url addr u policy v = ground (
    arith,
    eq_iff (to_lower net u.scheme) "http",
    eq_iff (to_lower net u.scheme) "https",
    eq_iff (hostname u) "",
    eq_iff u.raw_query "",
    eq_iff u.fragment "",
    (addr_in_allowlist_iff net addr policy.allowlist).1 v.listed,
    eq_iff (to_lower net (hostname u)) "localhost",
    eq_iff (to_lower net (hostname u)) "metadata.google.internal",
    check_host_ip_safety_iff (hostname u),
  )

  after_parse :
      (raw : String) (policy : AddrPolicy)
      → trim_space raw ≢ ""
      → {u : Url} → net.parse_url (trim_space raw) ≡ some u
      → validate_object_addr net raw policy ≡ check_url net (trim_space raw) u policy
  unfolding validate_object_addr
  after_parse raw policy filled {u} parsed = ground (arith, eq_iff (trim_space raw) "")

  parse_of_ok :
      (raw : String) (policy : AddrPolicy)
      → validate_object_addr net raw policy ≡ ok tt
      → (trim_space raw ≢ "") × ((u : Url) × (net.parse_url (trim_space raw) ≡ some u))
  unfolding validate_object_addr
  parse_of_ok raw policy h = elim (Option-cases (net.parse_url (trim_space raw))) [
    | inl e ↦ absurd (ground (arith, eq_iff (trim_space raw) ""))
    | inr (u, e) ↦ (ground (arith, eq_iff (trim_space raw) ""), (u, e))
  ]

  -- ValidateObjectAddr accepts an address exactly when, trimmed, it is not empty and parses to a
  -- URL that is vetted: scheme http or https in any letter case, a host, no credentials, query or
  -- fragment, listed by its normal form, no metadata host, and safe unless private is allowed.
  pub validate_object_addr_iff :
      (raw : String) (policy : AddrPolicy)
      → (validate_object_addr net raw policy ≡ ok tt) ↔ (
          (trim_space raw ≢ "")
          × ((u : Url) × (net.parse_url (trim_space raw) ≡ some u)
              × IsVetted (trim_space raw) u policy))
  validate_object_addr_iff raw policy = (
    λ h.
        let (filled, (u, parsed)) = parse_of_ok raw policy h in
        (
          filled,
          (
            u,
            parsed,
            check_url-IsVetted _ u policy (sym (after_parse raw policy filled parsed) ∙ h),
          ),
        ),
    λ (filled, (u, parsed, v)).
        after_parse raw policy filled parsed ∙ IsVetted-check_url _ u policy v,
  )

  -- A listed address is not refused as unlisted.
  pub validate_object_addr-ne-not_allowlisted :
      (raw : String) (policy : AddrPolicy)
      → Listed net (trim_space raw) policy.allowlist
      → validate_object_addr net raw policy ≢ err not_allowlisted
  unfolding validate_object_addr check_host_ip_safety
  validate_object_addr-ne-not_allowlisted raw policy l =
      ground (arith, (addr_in_allowlist_iff net (trim_space raw) policy.allowlist).1 l)
