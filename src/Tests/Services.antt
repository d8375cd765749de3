-- ===== src/Tests/Services.antt =====
-- The registry, the certificate and a review at concrete states.
use vault_secrets_webhook.Base.{
  List, ℕ, zero, suc, String, ◌≡◌, refl, ap, true, false, none, some, [], ◌∷◌, ◌==◌, Assoc, lookup,
  insert, Result, ok, err, if◌then◌else◌,
}
use vault_secrets_webhook.Base.Text.{trim_space, trim_suffix}
use vault_secrets_webhook.Certificate.{
  KeyPairs, Event, deliver_all, CertificateReloader, new_certificate_reloader, World, change, Run,
  start, step,
}
use vault_secrets_webhook.Certificate.Renewed.{deliver_all-renewed}
use vault_secrets_webhook.Certificate.Served.{IsServed, Run-IsServed}
use vault_secrets_webhook.Common.Addr.{
  not_allowlisted, validate_object_addr, to_lower, hostname, normalize_addr, addr_in_allowlist,
}
use vault_secrets_webhook.Common.Policy.{split_and_trim}
use vault_secrets_webhook.Config.Parse.{vault_addr_policy}
use vault_secrets_webhook.Kube.{ImageConfig}
use vault_secrets_webhook.Registry.{Remote, Registry, is_allowed_to_cache, get_image_config}
use vault_secrets_webhook.Registry.Cache.{IsSound, get_image_config_twice}
use vault_secrets_webhook.Tests.Data.{
  test_net, test_parsers, test_viper, test_kube, test_registry, test_runtime, test_container,
  test_spec, test_pod, test_machine,
}
use vault_secrets_webhook.Tests.Objects.{test_sdk, test_codec}
use vault_secrets_webhook.Webhook.{Review, bad_address, pod_object, vault_secrets_mutator}
use vault_secrets_webhook.Webhook.Admission.{
  vault_secrets_mutator-cluster, vault_secrets_mutator-refuses,
}

abbrev pub served_config : ImageConfig
served_config = record { entrypoint = "/app" ∷ []; cmd = "serve" ∷ [] }

-- A network that counts the downloads.
abbrev pub test_remote : Remote
test_remote = record {
  Network = ℕ;
  reference_identifier = λ image. if image == "app:1" then some "1" else some "latest";
  download = λ network info is_disabled. (ok served_config, suc network);
}

abbrev pub empty_registry : Registry test_remote test_viper
empty_registry = record { image_cache = []; network = 0 }

abbrev full_registry : Registry test_remote test_viper
full_registry = record { image_cache = ("app:1", served_config) ∷ []; network = 1 }

first_answer :
    get_image_config test_remote test_viper empty_registry "apps" false test_container test_spec
    ≡ (ok served_config, full_registry)
unfolding get_image_config is_allowed_to_cache lookup insert
first_answer = refl

pub empty-IsSound : IsSound test_remote test_viper empty_registry
unfolding lookup
empty-IsSound image config found = absurd (cc found)

get_image_config_twice_example :
    get_image_config test_remote test_viper
      (get_image_config test_remote test_viper empty_registry "apps" false test_container
        test_spec).1
      "other"
      true
      test_container
      test_spec
    ≡ (
      ok served_config,
      (get_image_config test_remote test_viper empty_registry "apps" false test_container
          test_spec).1,
    )
unfolding is_allowed_to_cache
get_image_config_twice_example =
    get_image_config_twice test_remote test_viper empty_registry "apps" false test_container
      test_spec served_config "other" true test_container test_spec refl refl refl
      (ap (λ o. o.0) first_answer)

-- Files that hold a certificate with a number, or a broken pair at 0.
abbrev pub test_pairs : KeyPairs
test_pairs = record {
  Files = ℕ;
  Certificate = ℕ;
  load_key_pair = λ files cert_path key_path. elim files [ zero ↦ none | suc n ↦ some n ];
}

abbrev first_reloader : CertificateReloader test_pairs
first_reloader = record { cert = 4; cert_path = "tls.crt"; key_path = "tls.key" }

abbrev first_world : World test_pairs
first_world = record { files = 5; kpr = first_reloader }

first-Run : Run test_pairs "tls.crt" "tls.key" (5 ∷ []) first_world
unfolding new_certificate_reloader
first-Run = start 5 first_reloader refl

changed-Run : Run test_pairs "tls.crt" "tls.key" (7 ∷ 5 ∷ []) (record first_world { files = 7 })
changed-Run = step first-Run (change 7)

Run-IsServed_example :
    IsServed test_pairs "tls.crt" "tls.key" (7 ∷ 5 ∷ []) (record first_world { files = 7 })
Run-IsServed_example = Run-IsServed test_pairs "tls.crt" "tls.key" changed-Run

abbrev directory_events : List Event
directory_events =
    record { is_create = true; is_write = false; base_name = "..tmp" }
    ∷ record { is_create = true; is_write = false; base_name = "..data" }
    ∷ record { is_create = false; is_write = true; base_name = "tls.crt" }
    ∷ []

deliver_all-renewed_example : (deliver_all test_pairs 7 directory_events first_reloader).cert ≡ 6
deliver_all-renewed_example =
    deliver_all-renewed test_pairs "tls.crt" "tls.key" 6 directory_events changed-Run refl refl

abbrev foreign_review : Review
foreign_review = record {
  namespace = "apps";
  dry_run = true;
  name = "web";
  annotations = ("vault.security.banzaicloud.io/vault-addr", "https://10.0.0.1:8200") ∷ [];
  object = pod_object test_pod;
}

abbrev pub run_template : String → Assoc String → Result String String
run_template role values = ok role

refused_address :
    validate_object_addr test_net "https://10.0.0.1:8200" (vault_addr_policy test_viper)
    ≡ err not_allowlisted
unfolding validate_object_addr vault_addr_policy trim_space to_lower hostname normalize_addr
    addr_in_allowlist trim_suffix split_and_trim lookup
refused_address = refl

vault_secrets_mutator-refuses_example :
    vault_secrets_mutator test_kube test_registry test_runtime test_net test_parsers test_viper
      test_sdk test_codec run_template test_machine foreign_review
    ≡ (err (bad_address not_allowlisted), test_machine)
unfolding lookup
vault_secrets_mutator-refuses_example =
    vault_secrets_mutator-refuses test_kube test_registry test_runtime test_net test_parsers
      test_viper test_sdk test_codec run_template test_machine foreign_review
      "https://10.0.0.1:8200" not_allowlisted (λ e. cc) refl refused_address

vault_secrets_mutator-cluster_example :
    (vault_secrets_mutator test_kube test_registry test_runtime test_net test_parsers test_viper
      test_sdk test_codec run_template test_machine foreign_review).1.cluster
    ≡ test_machine.cluster
vault_secrets_mutator-cluster_example =
    vault_secrets_mutator-cluster test_kube test_registry test_runtime test_net test_parsers
      test_viper test_sdk test_codec run_template test_machine foreign_review refl
