-- ===== src/Client/Counted.antt =====
-- pkg/webhook/webhook.go: what newVaultClient counts.
use vault_secrets_webhook.Base.{
  ℕ, suc, ◌+◌, String, ◌≡◌, refl, arith, Bool, true, false, ◌==◌, List, [], ◌∷◌, Result, ok, err,
  if◌then◌else◌,
}
use vault_secrets_webhook.Base.Actions.{Action, ◌>>=◌, continue, pure}
use vault_secrets_webhook.Config.{VaultConfig}
use vault_secrets_webhook.Kube.{Kube, WebhookError}
use vault_secrets_webhook.Metrics.{total, total-count}
use vault_secrets_webhook.Client.{
  ClientState, ClientApi, ClientConfig, or_count, config_error, kubernetes_error, token_request,
  wrap_api, token_failure, attempted, secret_token, fresh_token, service_account_token,
  auth_options, configure, connect, build, ClientOption, default_config, tls_secret_entries,
  service_account, account_secret, kept_or_fresh, trust, trust_secret, new_vault_client,
}

-- One for an error, none for a value.
abbrev pub failed {ℓ κ} : {E : Type ℓ} {A : Type κ} → Result E A → ℕ
failed (ok _) = 0
failed (err _) = 1

module _ (kube : Kube) where
  -- The errors counted before and after a step, and the attempts, by the step's result.
  abbrev CountsFrom {ℓ} :
      {A : Type ℓ} → ClientState kube → Result WebhookError A × ClientState kube → Type 0
  CountsFrom s (r, s') =
      (s'.attempts ≡ s.attempts) × (total s'.attempt_errors ≡ total s.attempt_errors + failed r)

  record Counts {ℓ} {A : Type ℓ} (m : Action (ClientState kube) WebhookError A) : Type 0 where
    from : (s : ClientState kube) → CountsFrom s (m s)

  -- What follows a step that counts.
  continue-Counts {ℓ κ} :
      {A : Type ℓ} {B : Type κ} (s : ClientState kube)
      (step : Result WebhookError A × ClientState kube)
      (next : A → Action (ClientState kube) WebhookError B)
      → CountsFrom s step
      → ((a : A) → Counts (next a))
      → CountsFrom s (continue next step)
  continue-Counts s (ok a, s') next h k = let after = (k a).from s' in (omega arith, omega arith)
  continue-Counts s (err e, s') next h k = h

  >>=-Counts {ℓ κ} :
      {A : Type ℓ} {B : Type κ} {first : Action (ClientState kube) WebhookError A}
      {next : A → Action (ClientState kube) WebhookError B}
      → Counts first
      → ((a : A) → Counts (next a))
      → Counts (first >>= next)
  >>=-Counts {first = first} {next = next} h k = record {
    from = λ s. continue-Counts s (first s) next (h.from s) k;
  }

  pure-Counts {ℓ} : {A : Type ℓ} {a : A} → Counts (pure a)
  pure-Counts = record { from = λ s. (refl, omega arith) }

  raised-CountsFrom {ℓ} :
      {A : Type ℓ} (reason : String) (r : Result WebhookError A) (s : ClientState kube)
      → CountsFrom s (or_count kube reason (λ _. r) s)
  unfolding or_count
  raised-CountsFrom reason (ok a) s = (refl, omega arith)
  raised-CountsFrom reason (err e) s = (refl, omega (arith, total-count reason s.attempt_errors))

  or_count-Counts {ℓ} :
      {A : Type ℓ} (reason : String) (read : ClientState kube → Result WebhookError A)
      → Counts (or_count kube reason read)
  unfolding or_count
  or_count-Counts reason read = record { from = λ s. raised-CountsFrom reason (read s) s }

  if-Counts {ℓ} :
      {A : Type ℓ} (test : Bool) {x y : Action (ClientState kube) WebhookError A}
      → Counts x
      → Counts y
      → Counts (if test then x else y)
  if-Counts true h k = h
  if-Counts false h k = k

  fresh_token-Counts : (c : VaultConfig) → Counts (fresh_token kube c)
  unfolding fresh_token
  fresh_token-Counts c = record {
    from = λ s.
        let (cluster, answer) =
          kube.create_token s.cluster c.vault_service_account c.object_namespace token_request in
        raised-CountsFrom kubernetes_error (wrap_api kube (token_failure c) answer)
          (record s { cluster = cluster });
  }

  account_secret-Counts : (c : VaultConfig) (name : String) → Counts (account_secret kube c name)
  unfolding account_secret
  account_secret-Counts c name = or_count-Counts kubernetes_error _

  secret_token-Counts : (c : VaultConfig) (names : List String) → Counts (secret_token kube c names)
  unfolding secret_token
  secret_token-Counts c [] = pure-Counts
  secret_token-Counts c (name ∷ names) =
      >>=-Counts (account_secret-Counts c name) (λ entries. pure-Counts)

  service_account-Counts : (c : VaultConfig) → Counts (service_account kube c)
  unfolding service_account
  service_account-Counts c = or_count-Counts kubernetes_error _

  kept_or_fresh-Counts : (c : VaultConfig) (token : String) → Counts (kept_or_fresh kube c token)
  unfolding kept_or_fresh
  kept_or_fresh-Counts c token = if-Counts (token == "") (fresh_token-Counts c) pure-Counts

  service_account_token-Counts : (c : VaultConfig) → Counts (service_account_token kube c)
  unfolding service_account_token
  service_account_token-Counts c =
      >>=-Counts (service_account-Counts c)
        λ names. >>=-Counts (secret_token-Counts c names) (kept_or_fresh-Counts c)

  auth_options-Counts : (c : VaultConfig) → Counts (auth_options kube c)
  unfolding auth_options
  auth_options-Counts c =
      if-Counts (c.vault_service_account == "") pure-Counts
        (>>=-Counts (service_account_token-Counts c) (λ token. pure-Counts))

  module _ (client_api : ClientApi) (namespace : String) where
    tls_secret_entries-Counts :
        (c : VaultConfig) → Counts (tls_secret_entries kube client_api namespace c)
    unfolding tls_secret_entries
    tls_secret_entries-Counts c = or_count-Counts kubernetes_error _

    trust_secret-Counts :
        (c : VaultConfig) (config : ClientConfig client_api.CertPool)
        → Counts (trust_secret kube client_api namespace c config)
    unfolding trust_secret
    trust_secret-Counts c config =
        >>=-Counts (tls_secret_entries-Counts c) (λ entries. or_count-Counts config_error _)

    trust-Counts :
        (c : VaultConfig) (config : ClientConfig client_api.CertPool)
        → Counts (trust kube client_api namespace c config)
    unfolding trust
    trust-Counts c config =
        if-Counts (c.tls_secret == "") pure-Counts (trust_secret-Counts c config)

    default_config-Counts : Counts (default_config kube client_api namespace)
    unfolding default_config
    default_config-Counts = or_count-Counts config_error _

    configure-Counts : (c : VaultConfig) → Counts (configure kube client_api namespace c)
    unfolding configure
    configure-Counts c =
        >>=-Counts default_config-Counts (λ defaults. or_count-Counts config_error _)

    connect-Counts :
        (c : VaultConfig) (trusted : ClientConfig client_api.CertPool) (auth : List ClientOption)
        → Counts (connect kube client_api namespace c trusted auth)
    unfolding connect
    connect-Counts c trusted auth = or_count-Counts config_error _

    build-Counts : (c : VaultConfig) → Counts (build kube client_api namespace c)
    unfolding build
    build-Counts c = >>=-Counts (configure-Counts c) λ config.
        >>=-Counts (trust-Counts c config)
          λ trusted. >>=-Counts (auth_options-Counts c) λ auth. connect-Counts c trusted auth

    -- Every call of newVaultClient counts one attempt, and one error exactly where it fails,
    -- wherever that is.
    pub new_vault_client-counts :
        (c : VaultConfig) (s : ClientState kube)
        → let (client, s') = new_vault_client kube client_api namespace c s in
          (s'.attempts ≡ suc s.attempts)
          × (total s'.attempt_errors ≡ total s.attempt_errors + failed client)
    unfolding new_vault_client attempted
    new_vault_client-counts c s = (build-Counts c).from (record s { attempts = suc s.attempts })
