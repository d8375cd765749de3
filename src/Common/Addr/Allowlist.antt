-- ===== src/Common/Addr/Allowlist.antt =====
-- pkg/common/addr.go: addrInAllowlist against membership.
use mathlib.Core.List.{Memᴰ}
use vault_secrets_webhook.Base.{
  String, ◌≡◌, ◌≢◌, ◌↔◌, refl, ap, true, List, [], ◌∷◌, inl, inr, arith, ◌==◌, eq_iff, Bool-cases,
}
use vault_secrets_webhook.Base.Text.{trim_space}
use vault_secrets_webhook.Base.Text.Trim.{trim_space_idem}
use vault_secrets_webhook.Common.Addr.{
  Net, normalized, normalize_addr, some_entry_matches, addr_in_allowlist,
}

module _ (net : Net) where
  -- An entry of the allowlist that is not blank and has the address's normal form.
  pub record Listed (addr : String) (allowlist : List String) : Type 0 where
    pub entry : String
    pub member : Memᴰ entry allowlist
    pub filled : trim_space entry ≢ ""
    pub same : normalize_addr net entry ≡ normalize_addr net addr

  Listed-cons : (addr x : String) (xs : List String) → Listed addr xs → Listed addr (x ∷ xs)
  Listed-cons addr x xs l = record {
    entry = l.entry;
    member = Memᴰ.tail l.member;
    filled = l.filled;
    same = l.same;
  }

  matches_sound :
      (addr : String) (xs : List String)
      → some_entry_matches net (normalize_addr net addr) xs ≡ true
      → Listed addr xs
  unfolding some_entry_matches
  matches_sound addr [] h = cc
  matches_sound addr (x ∷ xs) h = elim (Bool-cases (trim_space x == "")) [
    | inl blank ↦ Listed-cons addr x xs (matches_sound addr xs (ground arith))
    | inr filled ↦ elim (Bool-cases (normalize_addr net x == normalize_addr net addr)) [
      | inl same ↦ record {
        entry = x;
        member = Memᴰ.head refl;
        filled = ground (arith, eq_iff (trim_space x) "");
        same = (eq_iff _ _).0 same;
      }
      | inr other ↦ Listed-cons addr x xs (matches_sound addr xs (ground arith))
    ]
  ]

  matches_complete :
      (addr entry : String) {xs : List String}
      → Memᴰ entry xs
      → trim_space entry ≢ ""
      → normalize_addr net entry ≡ normalize_addr net addr
      → some_entry_matches net (normalize_addr net addr) xs ≡ true
  unfolding some_entry_matches
  matches_complete addr entry (Memᴰ.head {x} e) filled same =
      ground
        (arith, eq_iff (trim_space x) "", eq_iff (normalize_addr net x) (normalize_addr net addr))
  matches_complete addr entry (Memᴰ.tail m) filled same =
      ground (arith, matches_complete addr entry m filled same)

  pub normalize_addr-trim_space :
      (addr : String) → normalize_addr net (trim_space addr) ≡ normalize_addr net addr
  unfolding normalize_addr
  normalize_addr-trim_space addr = ap (normalized net) (trim_space_idem addr)

  -- An address is in the allowlist exactly when some entry that is not blank has its normal form.
  pub addr_in_allowlist_iff :
      (addr : String) (allowlist : List String)
      → (addr_in_allowlist net addr allowlist ≡ true) ↔ Listed addr allowlist
  unfolding addr_in_allowlist
  addr_in_allowlist_iff addr allowlist =
      (matches_sound addr allowlist, λ l. matches_complete addr l.entry l.member l.filled l.same)
