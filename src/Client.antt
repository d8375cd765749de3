-- ===== src/Client.antt =====
-- pkg/webhook/webhook.go: newVaultClient.
pub mod Counted
pub mod Asked
pub mod Login
pub mod Built
use vault_secrets_webhook.Base.{
  ℕ, suc, String, ◌<>◌, Bool, true, false, ◌==◌, Option, none, some, List, [], ◌∷◌, ◌++◌, Assoc,
  lookup, get_or_else, if◌then◌else◌, Result, ok, err,
}
use vault_secrets_webhook.Base.Actions.{Action, ◌>>=◌, ◌>>◌, pure, raise}
use vault_secrets_webhook.Config.{VaultConfig}
use vault_secrets_webhook.Kube.{ApiError, Kube, TokenRequest, WebhookError, api, wrapped, message}
use vault_secrets_webhook.Metrics.{Counter, count}

-- The parts of `vaultapi.Config` that newVaultClient sets: the address, and of the transport's TLS
-- configuration `InsecureSkipVerify` and `RootCAs`; whether the transport is instrumented.
pub record ClientConfig (CertPool : Type 0) : Type 0 where
  pub address : String
  pub insecure : Bool
  pub root_cas : Option CertPool
  pub instrumented : Bool

-- `vault.ClientOption`, by the constructors of the SDK.
pub data ClientOption : Type 0 where
  client_role client_auth_path vault_namespace client_auth_method existing_secret :
      String → ClientOption
  client_logger namespaced_secret_auth_method : ClientOption

-- What newVaultClient calls of other packages: `vaultapi.DefaultConfig` with its error,
-- `ConfigureTLS` by `TLSConfig.Insecure`, `AppendCertsFromPEM` to a new pool (none where it adds
-- nothing), and `NewClientFromConfigWithContext`.
pub record ClientApi : Type 1 where
  pub Client : Type 0
  pub CertPool : Type 0
  pub default_config : Result WebhookError (ClientConfig CertPool)
  pub configure_tls : ClientConfig CertPool → Bool → Result WebhookError (ClientConfig CertPool)
  pub append_certs_from_pem : String → Option CertPool
  pub new_client_from_config :
      ClientConfig CertPool → List ClientOption → Result WebhookError Client

-- The cluster, and the counters of attempts to log in.
pub record ClientState (kube : Kube) : Type 0 where
  pub cluster : kube.Cluster
  pub attempts : ℕ
  pub attempt_errors : Counter

abbrev pub config_error : String
config_error = "config_error"

abbrev pub kubernetes_error : String
kubernetes_error = "kubernetes_error"

-- The token that is asked for: ten minutes, the least allowed.
abbrev pub token_request : TokenRequest
token_request = record {
  audiences = "https://kubernetes.default.svc" ∷ [];
  expiration_seconds = 600;
}

-- The options that do not depend on how the client logs in.
abbrev pub base_options : VaultConfig → List ClientOption
base_options c =
    client_role c.role
    ∷ client_auth_path c.path
    ∷ client_logger
    ∷ vault_namespace c.vault_namespace
    ∷ []

-- The messages of wrapped errors.
abbrev pub account_failure : VaultConfig → String
account_failure c =
    "Failed to retrieve specified service account on namespace " <> c.object_namespace

abbrev pub secret_failure : VaultConfig → String → String
secret_failure c name =
    "Failed to retrieve secret for service account " <> name <> " in namespace "
    <> c.object_namespace

abbrev pub token_failure : VaultConfig → String
token_failure c =
    "Failed to create a token for the specified service account " <> c.vault_service_account
    <> " on namespace " <> c.object_namespace

module _ (kube : Kube) where
  -- A step that may fail and reads the state alone: an error is counted under the reason.
  unfoldable pub or_count {ℓ} :
      {A : Type ℓ}
      → String
      → (ClientState kube → Result WebhookError A)
      → Action (ClientState kube) WebhookError A
  or_count reason read s = elim (read s) [
    | ok a ↦ (ok a, s)
    | err e ↦ (err e, record s { attempt_errors = count reason s.attempt_errors })
  ]

  -- `vaultAuthAttemptsCount.WithLabelValues().Inc()`
  attempted : Action (ClientState kube) WebhookError (Unit {0})
  attempted s = (ok tt, record s { attempts = suc s.attempts })

  abbrev pub wrap_api {ℓ} : {A : Type ℓ} → String → Result ApiError A → Result WebhookError A
  wrap_api text (ok a) = ok a
  wrap_api text (err e) = err (wrapped text (api e))

  -- The data of a service account's secret.
  account_secret : VaultConfig → String → Action (ClientState kube) WebhookError (Assoc String)
  unfolding or_count
  account_secret c name =
      or_count kubernetes_error
        (λ s. wrap_api (secret_failure c name) (kube.secret_data s.cluster name c.object_namespace))

  -- The token of a service account's first secret, if it has a secret; else the empty text.
  unfoldable pub secret_token :
      VaultConfig → List String → Action (ClientState kube) WebhookError String
  unfolding account_secret
  secret_token c [] = pure ""
  secret_token c (name ∷ names) = do
    entries ← account_secret c name
    pure (get_or_else (lookup "token" entries) "")

  -- `CreateToken` for the service account.
  unfoldable pub fresh_token : VaultConfig → Action (ClientState kube) WebhookError String
  unfolding or_count
  fresh_token c s =
      let (cluster, answer) =
        kube.create_token s.cluster c.vault_service_account c.object_namespace token_request in
      or_count kubernetes_error (λ _. wrap_api (token_failure c) answer)
        (record s { cluster = cluster })

  -- The names of the service account's secrets.
  service_account : VaultConfig → Action (ClientState kube) WebhookError (List String)
  unfolding or_count
  service_account c = or_count kubernetes_error (λ s.
      wrap_api (account_failure c)
        (kube.service_account_secrets s.cluster c.vault_service_account c.object_namespace))

  -- A token is asked for where there is none.
  kept_or_fresh : VaultConfig → String → Action (ClientState kube) WebhookError String
  unfolding fresh_token
  kept_or_fresh c token = if token == "" then fresh_token c else pure token

  -- `saToken`
  unfoldable pub service_account_token : VaultConfig → Action (ClientState kube) WebhookError String
  unfolding service_account secret_token kept_or_fresh
  service_account_token c = do
    names ← service_account c
    token ← secret_token c names
    kept_or_fresh c token

  -- How the client logs in: with the service account's token, or by the method of the options.
  unfoldable pub auth_options :
      VaultConfig → Action (ClientState kube) WebhookError (List ClientOption)
  unfolding service_account_token
  auth_options c =
      if c.vault_service_account == ""
      then pure (client_auth_method c.auth_method ∷ [])
      else service_account_token c >>= λ token.
          pure (namespaced_secret_auth_method ∷ existing_secret token ∷ [])

  -- `namespace` is the webhook's own.
  module _ (client_api : ClientApi) (namespace : String) where
    -- The configuration with the pool of the TLS secret's `ca.crt` alone.
    with_authority :
        VaultConfig
        → ClientConfig client_api.CertPool
        → Assoc String
        → Result WebhookError (ClientConfig client_api.CertPool)
    with_authority c config entries =
        elim (client_api.append_certs_from_pem (get_or_else (lookup "ca.crt" entries) "")) [
          | none ↦ err (message ("error loading Vault CA PEM from TLS Secret: " <> c.tls_secret))
          | some pool ↦ ok (record config { root_cas = some pool })
        ]

    -- The data of the TLS secret, in the webhook's own namespace.
    tls_secret_entries : VaultConfig → Action (ClientState kube) WebhookError (Assoc String)
    unfolding or_count
    tls_secret_entries c = or_count kubernetes_error (λ s.
        wrap_api "failed to read Vault TLS Secret"
          (kube.secret_data s.cluster c.tls_secret namespace))

    trust_secret :
        VaultConfig
        → ClientConfig client_api.CertPool
        → Action (ClientState kube) WebhookError (ClientConfig client_api.CertPool)
    unfolding or_count tls_secret_entries with_authority
    trust_secret c config = do
      entries ← tls_secret_entries c
      or_count config_error (λ _. with_authority c config entries)

    -- The authorities that the transport trusts: those of the TLS secret, if the options name one.
    unfoldable pub trust :
        VaultConfig
        → ClientConfig client_api.CertPool
        → Action (ClientState kube) WebhookError (ClientConfig client_api.CertPool)
    unfolding trust_secret
    trust c config = if c.tls_secret == "" then pure config else trust_secret c config

    -- `vaultapi.DefaultConfig`
    default_config : Action (ClientState kube) WebhookError (ClientConfig client_api.CertPool)
    unfolding or_count
    default_config = or_count config_error (λ _. client_api.default_config)

    -- The configuration before the TLS secret is read.
    configure :
        VaultConfig → Action (ClientState kube) WebhookError (ClientConfig client_api.CertPool)
    unfolding or_count default_config
    configure c = do
      defaults ← default_config
      or_count config_error
          (λ _. client_api.configure_tls (record defaults { address = c.addr }) c.skip_verify)

    -- `NewClientFromConfigWithContext`, with the instrumented transport.
    connect :
        VaultConfig
        → ClientConfig client_api.CertPool
        → List ClientOption
        → Action (ClientState kube) WebhookError client_api.Client
    unfolding or_count
    connect c trusted auth = or_count config_error (λ _.
        client_api.new_client_from_config (record trusted { instrumented = true })
          (base_options c ++ auth))

    build : VaultConfig → Action (ClientState kube) WebhookError client_api.Client
    unfolding configure trust auth_options connect
    build c = do
      config ← configure c
      trusted ← trust c config
      auth ← auth_options c
      connect c trusted auth

    -- `newVaultClient`
    unfoldable pub new_vault_client :
        VaultConfig → Action (ClientState kube) WebhookError client_api.Client
    unfolding attempted build
    new_vault_client c = attempted >> build c
