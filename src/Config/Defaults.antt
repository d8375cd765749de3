-- ===== src/Config/Defaults.antt =====
-- pkg/webhook/config.go: SetConfigDefaults, and what an operator who overrides nothing gets.
use mathlib.Core.List.{Memᴰ}
use vault_secrets_webhook.Base.{
  ℤ, pos, zero, itoa, String, Bool, true, ◌≡◌, ◌∙◌, refl, sym, ap, inl, inr, false, some, [], ◌∷◌,
  Assoc, lookup, ok, Bool-cases,
}
use vault_secrets_webhook.Base.Text.{parse_bool, trim_space}
use vault_secrets_webhook.Common.Policy.{Viper, split_and_trim}
use vault_secrets_webhook.Common.Addr.{Net, normalize_addr}
use vault_secrets_webhook.Common.Addr.Allowlist.{normalize_addr-trim_space}
use vault_secrets_webhook.Common.Addr.Guard.{validate_object_addr_iff}
use vault_secrets_webhook.Config.{VaultConfig}
use vault_secrets_webhook.Config.Parse.{Parsers, Subject, vault_addr_policy, parse_vault_config}
use vault_secrets_webhook.Config.Parse.Trust.{parse_vault_config-IsTrusted}

-- A value that is given to `viper.SetDefault`.
pub data Setting : Type 0 where
  text_setting : String → Setting
  int_setting : ℤ → Setting

-- What viper reads a value as: `GetString`, and `GetBool`, by which an int is true unless it is 0.
abbrev pub string_of : Setting → String
string_of (text_setting value) = value
string_of (int_setting value) = itoa value

abbrev pub bool_of : Setting → Bool
bool_of (text_setting value) = parse_bool value
bool_of (int_setting (pos zero)) = false
bool_of (int_setting _) = true

-- `SetConfigDefaults`
abbrev pub set_config_defaults : Assoc Setting
set_config_defaults =
    ("vault_image", text_setting "hashicorp/vault:latest")
    ∷ ("vault_image_pull_policy", text_setting "IfNotPresent")
    ∷ ("vault_env_image", text_setting "ghcr.io/bank-vaults/vault-env:latest")
    ∷ ("vault_env_pull_policy", text_setting "IfNotPresent")
    ∷ ("vault_ct_image", text_setting "hashicorp/consul-template:0.32.0")
    ∷ ("vault_ct_pull_policy", text_setting "IfNotPresent")
    ∷ ("vault_addr", text_setting "https://vault:8200")
    ∷ ("vault_skip_verify", text_setting "false")
    ∷ ("vault_addr_allowlist", text_setting "")
    ∷ ("vault_allow_object_skip_verify", text_setting "false")
    ∷ ("vault_allow_private_addr", text_setting "false")
    ∷ ("vault_path", text_setting "kubernetes")
    ∷ ("vault_auth_method", text_setting "jwt")
    ∷ ("vault_role", text_setting "")
    ∷ ("vault_tls_secret", text_setting "")
    ∷ ("vault_client_timeout", text_setting "10s")
    ∷ ("vault_agent", text_setting "false")
    ∷ ("vault_env_daemon", text_setting "false")
    ∷ ("vault_ct_share_process_namespace", text_setting "")
    ∷ ("psp_allow_privilege_escalation", text_setting "false")
    ∷ ("run_as_non_root", text_setting "false")
    ∷ ("run_as_user", text_setting "0")
    ∷ ("run_as_group", text_setting "0")
    ∷ ("readonly_root_fs", text_setting "false")
    ∷ ("vault_ignore_missing_secrets", text_setting "false")
    ∷ ("vault_env_passthrough", text_setting "")
    ∷ ("mutate_configmap", text_setting "false")
    ∷ ("tls_cert_file", text_setting "")
    ∷ ("tls_private_key_file", text_setting "")
    ∷ ("listen_address", text_setting ":8443")
    ∷ ("telemetry_listen_address", text_setting "")
    ∷ ("transit_key_id", text_setting "")
    ∷ ("transit_path", text_setting "")
    ∷ ("transit_batch_size", int_setting (pos 25))
    ∷ ("default_image_pull_secret", text_setting "")
    ∷ ("default_image_pull_secret_service_account", text_setting "")
    ∷ ("default_image_pull_secret_namespace", text_setting "")
    ∷ ("registry_skip_verify", text_setting "false")
    ∷ ("enable_json_log", text_setting "false")
    ∷ ("log_level", text_setting "info")
    ∷ ("vault_agent_share_process_namespace", text_setting "")
    ∷ ("VAULT_ENV_CPU_REQUEST", text_setting "")
    ∷ ("VAULT_ENV_MEMORY_REQUEST", text_setting "")
    ∷ ("VAULT_ENV_CPU_LIMIT", text_setting "")
    ∷ ("VAULT_ENV_MEMORY_LIMIT", text_setting "")
    ∷ ("VAULT_ENV_LOG_SERVER", text_setting "")
    ∷ ("VAULT_NAMESPACE", text_setting "")
    ∷ []

-- No setting is overridden: viper answers with the defaults.
abbrev pub IsDefault : Viper → Type 0
IsDefault viper =
    (key : String) (value : Setting)
    → lookup key set_config_defaults ≡ some value
    → (viper.get_string key ≡ string_of value) × (viper.get_bool key ≡ bool_of value)

module _ (net : Net) (parsers : Parsers) (viper : Viper) (defaults : IsDefault viper) where
  default_addr : viper.get_string "vault_addr" ≡ "https://vault:8200"
  unfolding lookup
  default_addr = (defaults "vault_addr" (text_setting "https://vault:8200") refl).0

  no_allowlist : viper.get_string "vault_addr_allowlist" ≡ ""
  unfolding lookup
  no_allowlist = (defaults "vault_addr_allowlist" (text_setting "") refl).0

  verifies : viper.get_bool "vault_skip_verify" ≡ false
  unfolding lookup parse_bool
  verifies = (defaults "vault_skip_verify" (text_setting "false") refl).1

  objects_verify : viper.get_bool "vault_allow_object_skip_verify" ≡ false
  unfolding lookup parse_bool
  objects_verify = (defaults "vault_allow_object_skip_verify" (text_setting "false") refl).1

  only_default : (vault_addr_policy viper).allowlist ≡ "https://vault:8200" ∷ []
  unfolding vault_addr_policy split_and_trim trim_space
  only_default = rw (default_addr, no_allowlist) refl

  only_entry : {x y : String} → Memᴰ x (y ∷ []) → x ≡ y
  only_entry (Memᴰ.head e) = cc
  only_entry (Memᴰ.tail m) = elim m [ ]

  -- With the defaults, whatever an object says, options that are not skipped verify certificates and
  -- hold the default address, or one that differs from it only in white space, in the letter case of
  -- scheme and host and in a last slash.
  pub parse_vault_config-IsDefault :
      (subject : Subject) (ns : String) (c : VaultConfig)
      → parse_vault_config net parsers viper subject ns ≡ ok c
      → c.skip ≡ false
      → (c.skip_verify ≡ false)
        × (normalize_addr net c.addr ≡ normalize_addr net "https://vault:8200")
  parse_vault_config-IsDefault subject ns c e live =
      let trusted = parse_vault_config-IsTrusted net parsers viper subject ns c e live in
      (
        elim (Bool-cases c.skip_verify) [
          | inr checked ↦ checked
          | inl skipped ↦ elim (trusted.verification skipped) [
            | inl operator ↦ absurd (cc (operator, verifies))
            | inr permitted ↦ absurd (cc (permitted, objects_verify))
          ]
        ],
        elim trusted.address [
          | inl (_, own) ↦ ap (normalize_addr net) (own ∙ default_addr)
          | inr (_, passed) ↦
              let (_, (u, _, vetted)) =
                (validate_object_addr_iff net c.addr (vault_addr_policy viper)).0 passed in
              let entry_lem = only_entry (rw only_default at vetted.listed.member) in
              sym (normalize_addr-trim_space net c.addr)
              ∙ sym vetted.listed.same
              ∙ ap (normalize_addr net) entry_lem
        ],
      )
