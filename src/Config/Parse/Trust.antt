-- ===== src/Config/Parse/Trust.antt =====
-- What an object under admission can and cannot decide about its options.
use vault_secrets_webhook.Base.{
  String, ◌≡◌, ◌≢◌, ◌⊎◌, ◌↔◌, refl, sym, ap, ◌∙◌, List, [], ◌∷◌, true, false, Option, none, some,
  arith, eq_iff, ◌==◌, lookup, get_or_else, ok, err,
}
use vault_secrets_webhook.Common.Annotations
use vault_secrets_webhook.Common.Policy.{Viper, resolve_object_skip_verify}
use vault_secrets_webhook.Common.Addr.{Net, AddrError, validate_object_addr}
use vault_secrets_webhook.Config.{VaultConfig}
use vault_secrets_webhook.Config.Parse.{
  Parsers, Subject, vault_addr_policy, check_addr, connection_of, options_of, parse_vault_config,
}

module _ (net : Net) (parsers : Parsers) (viper : Viper) where
  -- Where the object names Vault's address, the address passed the guard; else the options hold
  -- the operator's. Certificates go unverified only by the operator's default or with the
  -- operator's permission.
  pub record IsTrusted (subject : Subject) (c : VaultConfig) : Type 0 where
    pub address :
        ((lookup Annotations.vault_addr_annotation subject.annotations ≡ none)
          × (c.addr ≡ viper.get_string "vault_addr"))
        ⊎ ((lookup Annotations.vault_addr_annotation subject.annotations ≡ some c.addr)
            × (validate_object_addr net c.addr (vault_addr_policy viper) ≡ ok tt))
    pub verification :
        c.skip_verify ≡ true
        → (viper.get_bool "vault_skip_verify" ≡ true)
          ⊎ (viper.get_bool "vault_allow_object_skip_verify" ≡ true)

  pub parse_inversion :
      (subject : Subject) (ns : String) (c : VaultConfig)
      → parse_vault_config net parsers viper subject ns ≡ ok c
      → c.skip ≡ false
      → (check_addr net parsers viper subject ≡ ok tt)
        × (options_of net parsers viper subject ns ≡ c)
  unfolding parse_vault_config
  parse_inversion subject ns c e live = ground (
    arith,
    eq_iff (get_or_else (lookup Annotations.mutate_annotation subject.annotations) "") "skip",
  )

  options_of-IsTrusted :
      (subject : Subject) (ns : String)
      → check_addr net parsers viper subject ≡ ok tt
      → IsTrusted subject (options_of net parsers viper subject ns)
  unfolding check_addr connection_of options_of resolve_object_skip_verify
  options_of-IsTrusted subject ns checked = record {
    address = ground arith;
    verification = ground arith;
  }

  -- Options parsed without skip hold an address that is the operator's, where the object names none, or the object's
  -- with the guard passed, and skip the verification of certificates only by the operator's default or permission.
  pub parse_vault_config-IsTrusted :
      (subject : Subject) (ns : String) (c : VaultConfig)
      → parse_vault_config net parsers viper subject ns ≡ ok c
      → c.skip ≡ false
      → IsTrusted subject c
  parse_vault_config-IsTrusted subject ns c e live =
      let (checked, same) = parse_inversion subject ns c e live in
      rw same at (options_of-IsTrusted subject ns checked)

  -- The settings of the operator's own, as one value.
  abbrev operator_settings : VaultConfig → List String
  operator_settings c =
      c.token ∷ c.env_log_server ∷ c.env_cpu_request ∷ c.env_memory_request ∷ c.env_cpu_limit
      ∷ c.env_memory_limit ∷ []

  operator_settings-options_of :
      (subject other : Subject) (ns : String)
      → operator_settings (options_of net parsers viper subject ns)
        ≡ operator_settings (options_of net parsers viper other ns)
  unfolding options_of
  operator_settings-options_of subject other ns = refl

  -- Two objects that are not skipped, with any annotations, get the same values of the settings that belong to the
  -- operator alone: the Vault token, the log server and the resources of vault-env.
  parse_vault_config-operator_settings :
      (subject other : Subject) (ns : String) (c d : VaultConfig)
      → parse_vault_config net parsers viper subject ns ≡ ok c
      → parse_vault_config net parsers viper other ns ≡ ok d
      → c.skip ≡ false
      → d.skip ≡ false
      → operator_settings c ≡ operator_settings d
  parse_vault_config-operator_settings subject other ns c d e f live live' =
      let (_, same) = parse_inversion subject ns c e live in
      let (_, same') = parse_inversion other ns d f live' in
      ap operator_settings (sym same)
      ∙ operator_settings-options_of subject other ns
      ∙ ap operator_settings same'

  is_skipped_iff : (o : Option String) → ((get_or_else o "" == "skip") ≡ true) ↔ (o ≡ some "skip")
  is_skipped_iff none = (λ h. cc, λ h. cc)
  is_skipped_iff (some val) =
      (λ h. ap some ((eq_iff val "skip").0 h), λ h. (eq_iff val "skip").1 (ground arith))

  -- Parsing fails exactly with the guard's error on the address that the object names, at an object that is not
  -- skipped.
  pub parse_vault_config-eq-err_iff :
      (subject : Subject) (ns : String) (e : AddrError)
      → (parse_vault_config net parsers viper subject ns ≡ err e) ↔ (
          (lookup Annotations.mutate_annotation subject.annotations ≢ some "skip")
          × ((addr : String) × (lookup Annotations.vault_addr_annotation subject.annotations
                ≡ some addr)
              × (validate_object_addr net addr (vault_addr_policy viper) ≡ err e)))
  unfolding parse_vault_config
  parse_vault_config-eq-err_iff subject ns e =
      ground (arith, is_skipped_iff (lookup Annotations.mutate_annotation subject.annotations))
