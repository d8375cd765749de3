-- ===== src/Tests/Reviews.antt =====
-- A review that fills a secret at a concrete state.
use vault_secrets_webhook.Base.{
  String, ◌≡◌, refl, false, true, some, [], ◌∷◌, lookup, insert, map, ok,
}
use vault_secrets_webhook.Base.Text.{trim_space, trim_suffix}
use vault_secrets_webhook.Client.{new_vault_client}
use vault_secrets_webhook.Common.{has_vault_prefix}
use vault_secrets_webhook.Common.Addr.{
  validate_object_addr, to_lower, hostname, normalize_addr, addr_in_allowlist, check_host_ip_safety,
  looks_like_numeric_ip,
}
use vault_secrets_webhook.Common.Policy.{split_and_trim}
use vault_secrets_webhook.Config.{VaultConfig}
use vault_secrets_webhook.Config.Parse.{parse_vault_config, vault_addr_policy}
use vault_secrets_webhook.Injector.{Injector}
use vault_secrets_webhook.Secret.{
  secret_needs_mutation, entry_needs_mutation, mutate_docker_config, mutate_secret_data,
  mutate_secret,
}
use vault_secrets_webhook.Tests.Clients.{test_api, test_api-KeepsConfig}
use vault_secrets_webhook.Tests.Data.{
  test_net, test_parsers, test_viper, test_kube, test_registry, test_runtime, test_machine,
}
use vault_secrets_webhook.Tests.Objects.{test_sdk, test_codec}
use vault_secrets_webhook.Tests.Services.{run_template}
use vault_secrets_webhook.Webhook.{
  Review, Mutated, mutated_secret, secret_object, result_of, subject_of, with_role, dispatch,
  vault_secrets_mutator,
}
use vault_secrets_webhook.Webhook.Injected.{asks_vault}
use vault_secrets_webhook.Webhook.Connected.{
  sdk_over, IsConnected, vault_secrets_mutator-IsConnected,
}

-- An injector that answers every reference with the address of its client.
abbrev answering : VaultConfig → String → Injector
answering c client = record {
  get_data_from_vault = λ entries. ok (map (λ (key, value). (key, client)) entries);
}

abbrev secret_review : Review
secret_review = record {
  namespace = "apps";
  dry_run = false;
  name = "db";
  annotations = ("vault.security.banzaicloud.io/vault-addr", "https://vault.example:8200") ∷ [];
  object = secret_object (("password", "vault:secret/db#password") ∷ []);
}

abbrev filled_secret : Mutated
filled_secret = mutated_secret (("password", "https://vault.example:8200") ∷ [])

secret_asks :
    asks_vault
      (sdk_over test_kube test_api "vault-infra" test_sdk answering
        (record { cluster = []; attempts = 0; attempt_errors = [] }))
      test_codec
      secret_review.object
    ≡ true
unfolding secret_needs_mutation entry_needs_mutation has_vault_prefix
secret_asks = refl

filled :
    (vault_secrets_mutator test_kube test_registry test_runtime test_net test_parsers test_viper
      (sdk_over test_kube test_api "vault-infra" test_sdk answering
        (record { cluster = []; attempts = 0; attempt_errors = [] }))
      test_codec
      run_template
      test_machine
      secret_review).0
    ≡ ok (some filled_secret)
unfolding vault_secrets_mutator mutate_secret new_vault_client parse_vault_config
    validate_object_addr vault_addr_policy trim_space to_lower hostname normalize_addr
    addr_in_allowlist trim_suffix split_and_trim lookup insert result_of subject_of
    check_host_ip_safety looks_like_numeric_ip with_role dispatch secret_needs_mutation
    entry_needs_mutation has_vault_prefix mutate_docker_config mutate_secret_data
filled = refl

vault_secrets_mutator-IsConnected_example :
    IsConnected test_kube test_api "vault-infra" test_sdk answering test_registry test_runtime
      test_net test_parsers test_viper test_codec run_template test_machine 0 [] secret_review
      filled_secret
vault_secrets_mutator-IsConnected_example =
    vault_secrets_mutator-IsConnected test_kube test_api "vault-infra" test_sdk answering
      test_registry test_runtime test_net test_parsers test_viper test_codec run_template
      test_machine 0 [] secret_review filled_secret (test_api-KeepsConfig test_kube) secret_asks
      filled
