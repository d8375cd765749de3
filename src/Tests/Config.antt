-- ===== src/Tests/Config.antt =====
-- The options of concrete objects.
use vault_secrets_webhook.Base.{String, ◌≡◌, ◌≢◌, ◌↔◌, refl, none, some, [], ◌∷◌, lookup, ok, err}
use vault_secrets_webhook.Base.Text.{trim_space, trim_suffix}
use vault_secrets_webhook.Common.Annotations
use vault_secrets_webhook.Common.Addr.{
  not_allowlisted, validate_object_addr, to_lower, hostname, normalize_addr, check_host_ip_safety,
  looks_like_numeric_ip, addr_in_allowlist,
}
use vault_secrets_webhook.Common.Policy.{split_and_trim}
use vault_secrets_webhook.Base.{pos, itoa, get_or_else, true, false, ◌==◌, if◌then◌else◌}
use vault_secrets_webhook.Common.Policy.{Viper}
use vault_secrets_webhook.Config.Defaults.{
  Setting, text_setting, string_of, bool_of, set_config_defaults, IsDefault,
  parse_vault_config-IsDefault,
}
use vault_secrets_webhook.Config.{VaultConfig}
use vault_secrets_webhook.Config.Parse.{Subject, vault_addr_policy, parse_vault_config, options_of}
use vault_secrets_webhook.Config.Parse.Trust.{
  IsTrusted, parse_vault_config-IsTrusted, parse_vault_config-eq-err_iff,
}
use vault_secrets_webhook.Config.Parse.Range.{IsInRange, parse_vault_config-IsInRange}
use vault_secrets_webhook.Tests.Data.{test_net, test_viper, test_parsers, test_subject, test_config}

abbrev bare_subject : Subject
bare_subject = record { annotations = []; service_account = none }

abbrev foreign_subject : Subject
foreign_subject = record {
  annotations = ("vault.security.banzaicloud.io/vault-addr", "https://10.0.0.1:8200") ∷ [];
  service_account = none;
}

parsed : parse_vault_config test_net test_parsers test_viper test_subject "apps" ≡ ok test_config
unfolding parse_vault_config lookup validate_object_addr trim_space to_lower hostname
    addr_in_allowlist normalize_addr trim_suffix check_host_ip_safety looks_like_numeric_ip
    vault_addr_policy split_and_trim
parsed = refl

parse_vault_config-IsTrusted_example :
    IsTrusted test_net test_parsers test_viper test_subject test_config
unfolding parse_vault_config
parse_vault_config-IsTrusted_example =
    parse_vault_config-IsTrusted test_net test_parsers test_viper test_subject "apps" test_config
      parsed refl

parse_vault_config-eq-err_iff_example :
    (parse_vault_config test_net test_parsers test_viper foreign_subject "apps"
      ≡ err not_allowlisted)
    ↔ ((lookup Annotations.mutate_annotation foreign_subject.annotations ≢ some "skip")
        × ((addr : String) × (lookup Annotations.vault_addr_annotation foreign_subject.annotations
              ≡ some addr)
            × (validate_object_addr test_net addr (vault_addr_policy test_viper)
                ≡ err not_allowlisted)))
parse_vault_config-eq-err_iff_example =
    parse_vault_config-eq-err_iff test_net test_parsers test_viper foreign_subject "apps"
      not_allowlisted

-- A text that is no number, and one that is too large.
abbrev odd_subject : Subject
odd_subject = record {
  annotations =
      ("vault.security.banzaicloud.io/run-as-user", "99999999999999999999")
      ∷ ("vault.security.banzaicloud.io/transit-batch-size", "many")
      ∷ [];
  service_account = none;
}

abbrev odd_config : VaultConfig
odd_config = options_of test_net test_parsers test_viper odd_subject "apps"

odd_parsed : parse_vault_config test_net test_parsers test_viper odd_subject "apps" ≡ ok odd_config
unfolding parse_vault_config lookup
odd_parsed = refl

parse_vault_config-IsInRange_example :
    IsInRange test_net test_parsers test_viper odd_subject odd_config
unfolding parse_vault_config
parse_vault_config-IsInRange_example =
    parse_vault_config-IsInRange test_net test_parsers test_viper odd_subject "apps" odd_config
      odd_parsed refl

-- viper without overrides: a key that has no default reads as the zero value.
abbrev default_setting : String → Setting
default_setting key = get_or_else (lookup key set_config_defaults) (text_setting "")

abbrev default_viper : Viper
default_viper = record {
  get_string = λ key. string_of (default_setting key);
  get_bool = λ key. bool_of (default_setting key);
  get_int = λ key. if key == "transit_batch_size" then pos 25 else pos 0;
}

default_viper-IsDefault : IsDefault default_viper
default_viper-IsDefault key value e = (rw e refl, rw e refl)

-- The batch size, an int, is true as a boolean.
default_batch_size :
    (default_viper.get_string "transit_batch_size" ≡ "25")
    × (default_viper.get_bool "transit_batch_size" ≡ true)
unfolding lookup itoa
default_batch_size = (refl, refl)

abbrev default_config : VaultConfig
default_config = options_of test_net test_parsers default_viper bare_subject "apps"

default_parsed :
    parse_vault_config test_net test_parsers default_viper bare_subject "apps" ≡ ok default_config
unfolding parse_vault_config lookup
default_parsed = refl

parse_vault_config-IsDefault_example :
    (default_config.skip_verify ≡ false)
    × (normalize_addr test_net default_config.addr ≡ normalize_addr test_net "https://vault:8200")
unfolding parse_vault_config
parse_vault_config-IsDefault_example =
    parse_vault_config-IsDefault test_net test_parsers default_viper default_viper-IsDefault
      bare_subject "apps" default_config default_parsed refl
