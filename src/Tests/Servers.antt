-- ===== src/Tests/Servers.antt =====
-- The server, its logs and its downloads at concrete inputs.
use vault_secrets_webhook.Base.{
  zero, ℕ, suc, String, ◌≡◌, ◌≢◌, refl, ◌⊎◌, Bool, true, false, some, none, List, [], ◌∷◌, ◌++◌,
  ◌==◌, lookup, Assoc, Result, ok, err, if◌then◌else◌,
}
use vault_secrets_webhook.Certificate.{CertificateReloader, new_certificate_reloader}
use vault_secrets_webhook.Common.Policy.{Viper}
use vault_secrets_webhook.Kube.{message}
use vault_secrets_webhook.Logging.Reviews.{review_all, failure_entries, review_all-logged}
use vault_secrets_webhook.Logging.Webhook.{WhLogger, error_logger_mutator}
use vault_secrets_webhook.Metrics.{register_metrics}
use vault_secrets_webhook.Registry.{
  Remote, Registry, ContainerInfo, get_image_config, is_allowed_to_cache, container_info,
}
use vault_secrets_webhook.Registry.Cache.{IsSound}
use vault_secrets_webhook.Registry.Download.{
  Registries, remote_of, reference_identifier, download_config,
}
use vault_secrets_webhook.Registry.Download.Extracted.{IsExtracted, get_image_config-IsExtracted}
use vault_secrets_webhook.Registry.Logged.{Query, answer_all, answer_all_by_log}
use vault_secrets_webhook.Registry.Refined.{answer_all-eq-answer_all_by_log}
use vault_secrets_webhook.Server as Serving
use vault_secrets_webhook.Server.{
  Host, Server, start, new_mutating_webhook, ObjectKind, review_handler, healthz_handler,
  prom_handler, pod_kind, secret_kind, config_map_kind, unstructured_kind,
}
use vault_secrets_webhook.Server.Secured.{IsSecured, cert_file, key_file, start-IsSecured}
use vault_secrets_webhook.Server.Routed.{IsRouted, start-IsRouted}
use vault_secrets_webhook.Tests.Clients.{test_registerer}
use vault_secrets_webhook.Tests.Data.{test_viper, test_container, test_spec}
use vault_secrets_webhook.Tests.Services.{test_pairs, test_remote, served_config}

-- The settings of a server with a certificate.
abbrev secured_viper : Viper
secured_viper = record test_viper {
  get_string = λ key.
      if key == "tls_cert_file"
      then "tls.crt"
      else if key == "tls_private_key_file"
      then "tls.key"
      else if key == "listen_address"
      then ":8443"
      else "";
}

abbrev test_host : Host test_pairs test_registerer
test_host = record {
  new_k8s_client = ok tt;
  kubernetes_namespace = "vault-infra";
  namespace_file = err "no such file";
  new_recorder = λ registry. ok tt;
  new_webhook = λ config. ok tt;
  files = 5;
  serve = λ addr secured. none;
}

abbrev review_route : String → ObjectKind → Serving.Handler
review_route id obj = review_handler (record { id = id; obj = obj })

abbrev test_server : Server test_pairs test_registerer
test_server = record {
  addr = ":8443";
  mux =
      ("/pods", review_route "vault-secrets-pods" pod_kind)
      ∷ ("/secrets", review_route "vault-secrets-secret" secret_kind)
      ∷ ("/configmaps", review_route "vault-secrets-configmap" config_map_kind)
      ∷ ("/objects", review_route "vault-secrets-object" unstructured_kind)
      ∷ ("/healthz", healthz_handler)
      ∷ ("/metrics", prom_handler)
      ∷ [];
  certificate = some (record { cert = 4; cert_path = "tls.crt"; key_path = "tls.key" });
  telemetry = none;
}

test_start : start test_pairs test_registerer secured_viper test_host ≡ ok test_server
unfolding start new_certificate_reloader register_metrics new_mutating_webhook
test_start = refl

start-IsSecured_example :
    ((cert_file test_pairs test_registerer secured_viper test_host ≡ "")
      × (key_file test_pairs test_registerer secured_viper test_host ≡ "")
      × (test_server.certificate ≡ none))
    ⊎ ((cert_file test_pairs test_registerer secured_viper test_host ≡ ""
          → key_file test_pairs test_registerer secured_viper test_host ≢ "")
        × ((reloader : CertificateReloader test_pairs) × (test_server.certificate ≡ some reloader)
            × IsSecured test_pairs test_registerer secured_viper test_host reloader))
start-IsSecured_example =
    start-IsSecured test_pairs test_registerer secured_viper test_host test_server test_start

start-IsRouted_example : IsRouted test_pairs test_registerer secured_viper test_host test_server
start-IsRouted_example =
    start-IsRouted test_pairs test_registerer secured_viper test_host test_server test_start

-- A mutator that refuses empty names, and counts reviews.
abbrev test_mutator : ℕ → String → Result String String × ℕ
test_mutator n review = (if review == "" then err "no name" else ok review, suc n)

abbrev test_logger : WhLogger
test_logger = record { attributes = ("app", "vault-secrets-webhook") ∷ [] }

abbrev request_ctx : String → Assoc String
request_ctx review = ("request-id", "1") ∷ []

review_all-logged_example :
    let plain = review_all test_mutator 0 ("web" ∷ "" ∷ []) in
    let (answers, (state', entries')) =
      review_all
        (error_logger_mutator test_mutator test_logger request_ctx (λ e. e))
        (0, [])
        ("web" ∷ "" ∷ []) in
    (answers ≡ plain.0)
    × (state' ≡ plain.1)
    × (entries'
        ≡ []
          ++ failure_entries test_mutator test_logger request_ctx
              (λ e. e)
              ("web" ∷ "" ∷ [])
              plain.0)
review_all-logged_example =
    review_all-logged test_mutator test_logger request_ctx (λ e. e) ("web" ∷ "" ∷ []) 0 []

abbrev test_query : Query
test_query = record {
  namespace = "apps";
  is_disabled = false;
  container = test_container;
  spec = test_spec;
}

-- A download whose answer is another one every time, and an error first.
abbrev changing_remote : Remote
changing_remote = record test_remote {
  download = λ network info is_disabled. elim network [
    | zero ↦ (err (message "not yet"), 1)
    | suc n ↦ (ok (record { entrypoint = []; cmd = info.namespace ∷ [] }), suc (suc n))
  ];
}

abbrev test_queries : List Query
test_queries = test_query ∷ test_query ∷ record test_query { namespace = "other" } ∷ []

answer_all-eq-answer_all_by_log_example :
    let (answers, r) =
      answer_all changing_remote test_viper
        (record { image_cache = []; network = 0 })
        test_queries in
    let (expected, network') = answer_all_by_log changing_remote test_viper 0 [] test_queries in
    (answers ≡ expected) × (r.network ≡ network')
answer_all-eq-answer_all_by_log_example =
    answer_all-eq-answer_all_by_log changing_remote test_viper 0 test_queries

-- Registries where every image is an index of one image with a configuration.
abbrev test_registries : Registries
test_registries = record {
  Network = ℕ;
  Keychain = List String;
  Reference = String;
  Descriptor = String;
  Index = String;
  Image = String;
  new_keychain = λ info n. (ok info.image_pull_secrets, n);
  parse_reference = λ image. if image == "" then err (message "empty") else ok image;
  identifier = λ reference. "1";
  get = λ reference keychain skip n. (ok reference, suc n);
  is_index = λ descriptor. true;
  image_index = λ descriptor n. (ok descriptor, n);
  index_manifest = λ index n. (ok ("sha256:1" ∷ "sha256:2" ∷ []), n);
  index_image = λ index digest n. (ok digest, n);
  image = λ descriptor n. (ok descriptor, n);
  config_file = λ image n. (ok served_config, n);
}

abbrev first_registry : Registry (remote_of test_registries) test_viper
first_registry = record { image_cache = []; network = 0 }

first-IsSound : IsSound (remote_of test_registries) test_viper first_registry
unfolding lookup
first-IsSound image config found = absurd (cc found)

downloaded :
    (get_image_config
      (remote_of test_registries)
      test_viper
      first_registry
      "apps"
      false
      test_container
      test_spec).0
    ≡ ok served_config
unfolding get_image_config is_allowed_to_cache lookup download_config reference_identifier
    container_info
downloaded = refl

get_image_config-IsExtracted_example :
    (info : ContainerInfo) × (skipped : Bool) × (info.image ≡ "app:1")
    × IsExtracted test_registries info skipped served_config
get_image_config-IsExtracted_example =
    get_image_config-IsExtracted test_registries test_viper first_registry "apps" false
      test_container test_spec served_config first-IsSound downloaded
