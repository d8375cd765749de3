-- ===== src/Tests/Addr.antt =====
-- The guard on addresses at concrete ones.
use vault_secrets_webhook.Base.{
  String, ◌≡◌, ◌≢◌, ◌↔◌, ◌⊎◌, refl, true, false, some, [], ◌∷◌, any, arith, ok, err, starts_with,
  none, if◌then◌else◌, eq_iff, lookup,
}
use vault_secrets_webhook.Base.Text.{trim_space}
use vault_secrets_webhook.Common.Addr.{
  Url, AddrPolicy, unsafe_target, check_host_ip_safety, not_allowlisted, validate_object_addr,
  looks_like_numeric_ip, to_lower,
}
use vault_secrets_webhook.Common.Addr.Ip.Blocks.{address, within, unsafe_blocks}
use vault_secrets_webhook.Common.Addr.Literal.{with_parse_ip, check_host_ip_safety-dotted}
use vault_secrets_webhook.Common.Addr.ParseIp.Dotted.{dotted}
use vault_secrets_webhook.Common.Addr.Numeric.{IsNumeric, HasDigit, looks_like_numeric_ip_iff}
use vault_secrets_webhook.Common.Addr.Guard.{IsVetted, validate_object_addr_iff}
use vault_secrets_webhook.Config.Parse.{vault_addr_policy}
use vault_secrets_webhook.Config.Parse.Operator.{validate_object_addr-vault_addr_policy}
use vault_secrets_webhook.Tests.Data.{test_net, test_viper}

abbrev vault : String
vault = "https://vault.example:8200"

abbrev strict : AddrPolicy
strict = record { allowlist = vault ∷ []; allow_private = false }

validate_object_addr_iff_example : (validate_object_addr test_net vault strict ≡ ok tt) ↔ (
    (trim_space vault ≢ "")
    × ((u : Url) × (test_net.parse_url (trim_space vault) ≡ some u)
        × IsVetted test_net (trim_space vault) u strict))
validate_object_addr_iff_example = validate_object_addr_iff test_net vault strict

validate_object_addr-vault_addr_policy_example :
    validate_object_addr test_net " https://vault.example:8200 " (vault_addr_policy test_viper)
    ≢ err not_allowlisted
unfolding trim_space lookup
validate_object_addr-vault_addr_policy_example =
    validate_object_addr-vault_addr_policy test_net test_viper " https://vault.example:8200 "
      (λ e. let t = (eq_iff vault "").1 e in cc) (λ e. let t = (eq_iff vault "").1 e in cc) refl

looks_like_numeric_ip_iff_example : (looks_like_numeric_ip test_net "2130706433" ≡ true) ↔ (
    (starts_with (to_lower test_net "2130706433") "0x" ≡ true)
    ⊎ (IsNumeric "2130706433" × HasDigit "2130706433"))
looks_like_numeric_ip_iff_example = looks_like_numeric_ip_iff test_net "2130706433"

check_host_ip_safety-dotted_example :
    check_host_ip_safety (with_parse_ip test_net (λ text. none)) (dotted 100 64 0 9)
    ≡ (if any (within (address 100 64 0 9)) unsafe_blocks then err unsafe_target else ok tt)
check_host_ip_safety-dotted_example =
    check_host_ip_safety-dotted test_net (λ text. none) 100 64 0 9 (omega arith) (omega arith)
      (omega arith) (omega arith)
