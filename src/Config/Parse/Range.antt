-- ===== src/Config/Parse/Range.antt =====
-- pkg/webhook/config.go: the numbers among the options.
use vault_secrets_webhook.Base.{
  ℕ, ℤ, ◌^◌, String, ◌≡◌, ◌⊎◌, inl, inr, refl, false, Option, none, some, arith, lookup, ok,
}
use vault_secrets_webhook.Base.Int.Parse.{parse_int, IsWithin, parse_int-IsWithin}
use vault_secrets_webhook.Common.Annotations
use vault_secrets_webhook.Common.Policy.{Viper}
use vault_secrets_webhook.Common.Addr.{Net}
use vault_secrets_webhook.Config.{VaultConfig}
use vault_secrets_webhook.Config.Parse.{
  Parsers, Subject, security_of, images_of, options_of, parse_vault_config,
}
use vault_secrets_webhook.Config.Parse.Trust.{parse_inversion}

module _ (net : Net) (parsers : Parsers) (viper : Viper) where
  -- The user and the group fit 64 bits; the batch size that an object names fits 32.
  pub record IsInRange (subject : Subject) (c : VaultConfig) : Type 0 where
    pub user : IsWithin (2 ^ 63) c.run_as_user
    pub group : IsWithin (2 ^ 63) c.run_as_group
    pub batch_size :
        (lookup Annotations.transit_batch_size_annotation subject.annotations ≡ none)
        ⊎ IsWithin (2 ^ 31) c.transit_batch_size

  fits_64 : (s : String) (base : ℕ) → IsWithin (2 ^ 63) (parse_int s base 64)
  fits_64 s base = parse_int-IsWithin s base 64 (omega arith)

  fits_32 : (s : String) (base : ℕ) → IsWithin (2 ^ 31) (parse_int s base 32)
  fits_32 s base = parse_int-IsWithin s base 32 (omega arith)

  chosen_fits :
      (annotation : Option String) (setting : String)
      → IsWithin
          (2 ^ 63)
          (elim annotation [ some val ↦ parse_int val 10 64 | none ↦ parse_int setting 0 64 ])
  chosen_fits none setting = fits_64 setting 0
  chosen_fits (some val) setting = fits_64 val 10

  batch_fits :
      (annotation : Option String) (setting : ℤ)
      → (annotation ≡ none)
        ⊎ IsWithin (2 ^ 31) (elim annotation [ some val ↦ parse_int val 10 32 | none ↦ setting ])
  batch_fits none setting = inl refl
  batch_fits (some val) setting = inr (fits_32 val 10)

  options_of-IsInRange :
      (subject : Subject) (ns : String)
      → IsInRange subject (options_of net parsers viper subject ns)
  unfolding options_of security_of images_of
  options_of-IsInRange subject ns = record {
    user = chosen_fits (lookup Annotations.run_as_user_annotation subject.annotations) _;
    group = chosen_fits (lookup Annotations.run_as_group_annotation subject.annotations) _;
    batch_size =
        batch_fits (lookup Annotations.transit_batch_size_annotation subject.annotations) _;
  }

  -- Whatever texts an object and the operator give, the user and the group of options that are not
  -- skipped fit 64 bits, and a batch size that the object gives fits 32.
  pub parse_vault_config-IsInRange :
      (subject : Subject) (ns : String) (c : VaultConfig)
      → parse_vault_config net parsers viper subject ns ≡ ok c
      → c.skip ≡ false
      → IsInRange subject c
  parse_vault_config-IsInRange subject ns c e live =
      let (_, same) = parse_inversion net parsers viper subject ns c e live in
      rw same at (options_of-IsInRange subject ns)
