-- ===== src/Tests/Clients.antt =====
-- The Vault client, its counters and its transport at concrete inputs.
use vault_secrets_webhook.Base.{
  ℕ, zero, suc, sym, ap, ok-injective, lookup, ◌+◌, pos, String, ◌≡◌, refl, true, false, some, none,
  [], ◌∷◌, ◌++◌, ◌==◌, map, List, ok, err, if◌then◌else◌, any,
}
use vault_secrets_webhook.Client.{
  ClientState, ClientApi, ClientConfig, ClientOption, base_options, new_vault_client,
}
use vault_secrets_webhook.Client.Asked.{Asks, new_vault_client-Asks}
use vault_secrets_webhook.Client.Counted.{failed, new_vault_client-counts}
use vault_secrets_webhook.Client.Login.{LogsIn}
use vault_secrets_webhook.Client.Built.{KeepsConfig, IsConfigured, new_vault_client-IsFor}
use vault_secrets_webhook.Config.{VaultConfig}
use vault_secrets_webhook.Kube.{Kube}
use vault_secrets_webhook.Metrics.{Registerer, fq_name, total}
use vault_secrets_webhook.Metrics.Transport.{
  Observed, Request, RoundTripper, failures, send_all, instrument_errors_and_size_round_tripper,
  send_all-instrumented,
}
use vault_secrets_webhook.Tests.Data.{test_kube, pod_config}

-- A cluster with a TLS secret and a service account with a secret.
abbrev account_kube : Kube
account_kube = record test_kube {
  secret_data = λ cluster name ns. ok (("ca.crt", "PEM") ∷ ("token", "stored-token") ∷ []);
  service_account_secrets = λ cluster name ns. ok ("reader-token" ∷ []);
}

-- A client is the address that it talks to.
abbrev pub test_api : ClientApi
test_api = record {
  Client = String;
  CertPool = String;
  default_config = ok (record {
    address = "https://127.0.0.1:8200";
    insecure = false;
    root_cas = none;
    instrumented = false;
  });
  configure_tls = λ config insecure.
      ok (record config { insecure = if insecure then true else config.insecure });
  append_certs_from_pem = λ pem. if pem == "" then none else some pem;
  new_client_from_config = λ config options. ok config.address;
}

abbrev account_config : VaultConfig
account_config = record pod_config {
  connection = record pod_config.connection {
    vault_service_account = "reader";
    tls_secret = "vault-tls";
  };
}

abbrev first_state : ClientState account_kube
first_state = record { cluster = []; attempts = 3; attempt_errors = ("config_error", 1) ∷ [] }

pub test_api-KeepsConfig :
    (kube : Kube) (c : VaultConfig) → KeepsConfig kube c test_api "vault-infra"
test_api-KeepsConfig kube c = record {
  keeps_address = λ config config' insecure e.
      sym (ap (λ (k : ClientConfig String). k.address) (ok-injective e));
  keeps_verification = λ config config' insecure off e.
      sym (ap (λ (k : ClientConfig String). k.insecure) (ok-injective (rw off at e)));
}

new_vault_client-IsFor_example :
    (config : ClientConfig String) × (auth : List ClientOption) × (test_api.new_client_from_config
        config
        (base_options account_config ++ auth)
      ≡ ok "https://vault.example:8200")
    × IsConfigured account_kube account_config test_api "vault-infra" [] config
    × LogsIn account_kube account_config [] auth
unfolding new_vault_client lookup
new_vault_client-IsFor_example =
    new_vault_client-IsFor account_kube account_config test_api "vault-infra" first_state
      "https://vault.example:8200" (test_api-KeepsConfig account_kube account_config) refl

new_vault_client-counts_example :
    let (client, s') =
      new_vault_client account_kube test_api "vault-infra" account_config first_state in
    (s'.attempts ≡ suc 3)
    × (total s'.attempt_errors ≡ total (("config_error", 1) ∷ []) + failed client)
new_vault_client-counts_example =
    new_vault_client-counts account_kube test_api "vault-infra" account_config first_state

-- A cluster whose service accounts have no secrets, and which keeps a list of the tokens it gave.
abbrev asking_kube : Kube
asking_kube = record account_kube {
  service_account_secrets = λ cluster name ns. ok [];
  create_token = λ cluster name ns request. (name ∷ cluster, ok "new-token");
}

abbrev asking_state : ClientState asking_kube
asking_state = record { cluster = []; attempts = 0; attempt_errors = [] }

new_vault_client-Asks_example :
    Asks asking_kube account_config asking_state
      (new_vault_client asking_kube test_api "vault-infra" account_config asking_state).1
new_vault_client-Asks_example =
    new_vault_client-Asks asking_kube account_config test_api "vault-infra" asking_state

-- A server that is not reached at every other request.
abbrev test_trip : RoundTripper String String ℕ
test_trip req world = elim world [ zero ↦ (ok "200", 1) | suc n ↦ (err "dial tcp: i/o timeout", n) ]

abbrev test_requests : List (Request String)
test_requests =
    record { content_length = pos 12; content = "GET" }
    ∷ record { content_length = pos 40; content = "PUT" }
    ∷ []

abbrev first_observed : Observed
first_observed = record { request_sizes = pos 7 ∷ []; errors = [] }

send_all-instrumented_example :
    let plain = send_all test_trip test_requests 0 in
    let (responses, (o', world')) =
      send_all
        (instrument_errors_and_size_round_tripper test_trip)
        test_requests
        (first_observed, 0) in
    (responses ≡ plain.0)
    × (world' ≡ plain.1)
    × (o'.request_sizes ≡ (pos 7 ∷ []) ++ map (λ req. req.content_length) test_requests)
    × (total o'.errors ≡ total [] + failures plain.0)
send_all-instrumented_example = send_all-instrumented test_trip test_requests first_observed 0

-- A registry by the names of its collectors.
abbrev pub test_registerer : Registerer
test_registerer = record {
  Registry = List String;
  new_registry = [];
  names = λ names. names;
  must_register = λ c names.
      if any (λ name. name == fq_name c) names
      then err "duplicate"
      else ok (names ++ fq_name c ∷ []);
}
