-- ===== src/Client/Asked.antt =====
-- pkg/webhook/webhook.go: what newVaultClient changes in the cluster.
use vault_secrets_webhook.Base.{
  String, suc, ◌≡◌, refl, ◌∙◌, ap, sym, ◌++◌, ◌≢◌, ◌⊎◌, inl, inr, true, Bool-cases, ◌==◌, eq_iff,
  List, [], ◌∷◌, Result, ok, err, Result-cases,
}
use vault_secrets_webhook.Base.Actions.{Action, ◌>>=◌, continue}
use vault_secrets_webhook.Client.{
  ClientState, ClientApi, ClientConfig, ClientOption, or_count, attempted, config_error,
  kubernetes_error, token_failure, account_failure, secret_failure, base_options, wrap_api,
  token_request, account_secret, secret_token, fresh_token, service_account, kept_or_fresh,
  service_account_token, auth_options, with_authority, tls_secret_entries, trust_secret, trust,
  default_config, configure, connect, build, new_vault_client,
}
use vault_secrets_webhook.Config.{VaultConfig}
use vault_secrets_webhook.Kube.{Kube, WebhookError}

module _ (kube : Kube) where
  abbrev Same : ClientState kube → ClientState kube → Type 0
  Same s t = t.cluster ≡ s.cluster

  -- What holds after a step, and after the next one from there, holds after both.
  after {ℓ κ ρ} :
      {A : Type ℓ} {B : Type κ} (P : ClientState kube → Type ρ)
      (first : Action (ClientState kube) WebhookError A)
      (next : A → Action (ClientState kube) WebhookError B) (s : ClientState kube)
      → P (first s).1
      → ((a : A) → P (next a (first s).1).1)
      → P ((first >>= next) s).1
  after {A = A} P first next s stopped gone_on = both (first s) stopped gone_on
    where
      both :
          (step : Result WebhookError A × ClientState kube)
          → P step.1
          → ((a : A) → P (next a step.1).1)
          → P (continue next step).1
      both (ok a, t) h k = k a
      both (err e, t) h k = h

  or_count-Same {ℓ} :
      {A : Type ℓ} (reason : String) (read : ClientState kube → Result WebhookError A)
      (s : ClientState kube)
      → Same s (or_count kube reason read s).1
  unfolding or_count
  or_count-Same reason read s = elim (Result-cases (read s)) [
    | inl (a, found) ↦ rw (found, or_count)
    | inr (e, failed) ↦ rw (failed, or_count)
  ]

  module _ (c : VaultConfig) where
    -- The cluster after a token was asked for.
    abbrev asked : kube.Cluster → kube.Cluster
    asked cluster =
        (kube.create_token cluster c.vault_service_account c.object_namespace token_request).0

    abbrev AskedOnce : ClientState kube → ClientState kube → Type 0
    AskedOnce s t = Same s t ⊎ (t.cluster ≡ asked s.cluster)

    fresh_token-asked : (s : ClientState kube) → (fresh_token kube c s).1.cluster ≡ asked s.cluster
    unfolding fresh_token
    fresh_token-asked s =
        let answer =
          kube.create_token s.cluster c.vault_service_account c.object_namespace token_request in
        or_count-Same kubernetes_error (λ _. wrap_api kube (token_failure c) answer.1)
          (record s { cluster = answer.0 })

    kept_or_fresh-AskedOnce :
        (token : String) (s : ClientState kube) → AskedOnce s (kept_or_fresh kube c token s).1
    unfolding kept_or_fresh
    kept_or_fresh-AskedOnce token s = elim (Bool-cases (token == "")) [
      | inl empty ↦ rw (empty, kept_or_fresh) (inr (fresh_token-asked s))
      | inr kept ↦ rw (kept, kept_or_fresh) (inl refl)
    ]

    account_secret-Same :
        (name : String) (s : ClientState kube) → Same s (account_secret kube c name s).1
    unfolding account_secret
    account_secret-Same name s =
        or_count-Same kubernetes_error
          (λ s.
            wrap_api kube (secret_failure c name)
              (kube.secret_data s.cluster name c.object_namespace))
          s

    service_account-Same : (s : ClientState kube) → Same s (service_account kube c s).1
    unfolding service_account
    service_account-Same s =
        or_count-Same kubernetes_error
          (λ s.
            wrap_api kube (account_failure c)
              (kube.service_account_secrets s.cluster c.vault_service_account c.object_namespace))
          s

    secret_token-Same :
        (names : List String) (s : ClientState kube) → Same s (secret_token kube c names s).1
    unfolding secret_token
    secret_token-Same [] s = refl
    secret_token-Same (name ∷ names) s =
        let read = account_secret-Same name s in
        after (Same s) (account_secret kube c name) _ s read (λ entries. read)

    service_account_token-AskedOnce :
        (s : ClientState kube) → AskedOnce s (service_account_token kube c s).1
    unfolding service_account_token
    service_account_token-AskedOnce s =
        let read = service_account-Same s in
        after (AskedOnce s) (service_account kube c) _ s (inl read) (λ names.
          let t = (service_account kube c s).1 in
          let found = secret_token-Same names t ∙ read in
          after (AskedOnce s) (secret_token kube c names) (kept_or_fresh kube c) t (inl found)
            (λ token. elim (kept_or_fresh-AskedOnce token (secret_token kube c names t).1) [
              | inl same ↦ inl (same ∙ found)
              | inr once ↦ inr (once ∙ ap asked found)
            ]))

    -- At most one token is asked for, and only where the options name a service account.
    abbrev pub Asks : ClientState kube → ClientState kube → Type 0
    Asks s t =
        (t.cluster ≡ s.cluster)
        ⊎ ((c.vault_service_account ≢ "")
            × (t.cluster
                ≡ (kube.create_token s.cluster c.vault_service_account c.object_namespace
                    token_request).0))

    auth_options-Asks : (s : ClientState kube) → Asks s (auth_options kube c s).1
    unfolding auth_options
    auth_options-Asks s = elim (Bool-cases (c.vault_service_account == "")) [
      | inl none' ↦ rw (none', auth_options) (inl refl)
      | inr named ↦
          let unnamed : c.vault_service_account ≢ "" =
            λ e. absurd (cc (sym ((eq_iff c.vault_service_account "").1 e) ∙ named)) in
          let once : Asks s (service_account_token kube c s).1 =
            elim (service_account_token-AskedOnce s) [
              | inl same ↦ inl same
              | inr asked_once ↦ inr (unnamed, asked_once)
            ] in
          rw (named, auth_options)
            (after (Asks s) (service_account_token kube c) _ s once (λ token. once))
    ]

    module _ (client_api : ClientApi) (namespace : String) where
      tls_secret_entries-Same :
          (s : ClientState kube) → Same s (tls_secret_entries kube client_api namespace c s).1
      unfolding tls_secret_entries
      tls_secret_entries-Same s =
          or_count-Same kubernetes_error
            (λ s.
              wrap_api kube "failed to read Vault TLS Secret"
                (kube.secret_data s.cluster c.tls_secret namespace))
            s

      trust-Same :
          (config : ClientConfig client_api.CertPool) (s : ClientState kube)
          → Same s (trust kube client_api namespace c config s).1
      unfolding trust trust_secret
      trust-Same config s = elim (Bool-cases (c.tls_secret == "")) [
        | inl none' ↦ rw (none', trust)
        | inr named ↦
            let read = tls_secret_entries-Same s in
            rw (named, trust)
              (after (Same s) (tls_secret_entries kube client_api namespace c) _ s read (λ entries.
                or_count-Same config_error
                  (λ _. with_authority kube client_api namespace c config entries)
                  (tls_secret_entries kube client_api namespace c s).1
                ∙ read))
      ]

      configure-Same : (s : ClientState kube) → Same s (configure kube client_api namespace c s).1
      unfolding configure default_config
      configure-Same s =
          let read = or_count-Same config_error (λ _. client_api.default_config) s in
          after (Same s) (default_config kube client_api namespace) _ s read (λ defaults.
            or_count-Same config_error
              (λ _. client_api.configure_tls (record defaults { address = c.addr }) c.skip_verify)
              (default_config kube client_api namespace s).1
            ∙ read)

      connect-Same :
          (trusted : ClientConfig client_api.CertPool) (auth : List ClientOption)
          (s : ClientState kube)
          → Same s (connect kube client_api namespace c trusted auth s).1
      unfolding connect
      connect-Same trusted auth s =
          or_count-Same config_error
            (λ _.
              client_api.new_client_from_config (record trusted { instrumented = true })
                (base_options c ++ auth))
            s

      -- Before and after a step that asks, the cluster may stay as it is.
      Asks-Same : (s t u v : ClientState kube) → Same s t → Asks t u → Same u v → Asks s v
      Asks-Same s t u v before (inl same) later = inl (later ∙ same ∙ before)
      Asks-Same s t u v before (inr (named, once)) later =
          inr (named, later ∙ once ∙ ap asked before)

      build-Asks : (s : ClientState kube) → Asks s (build kube client_api namespace c s).1
      unfolding build
      build-Asks s =
          let configured = configure-Same s in
          after (Asks s) (configure kube client_api namespace c) _ s (inl configured) (λ config.
            let t = (configure kube client_api namespace c s).1 in
            let trusting = trust-Same config t ∙ configured in
            after (Asks s) (trust kube client_api namespace c config) _ t (inl trusting) (λ trusted.
              let u = (trust kube client_api namespace c config t).1 in
              let v = (auth_options kube c u).1 in
              let asks = auth_options-Asks u in
              after (Asks s) (auth_options kube c) _ u (Asks-Same s u v v trusting asks refl)
                (λ auth.
                  Asks-Same s u v (connect kube client_api namespace c trusted auth v).1 trusting
                    asks (connect-Same trusted auth v))))

      -- A call of newVaultClient, with whatever outcome, leaves the cluster as it is, but for one
      -- token that is asked for in the object's namespace where the options name a service account,
      -- and for that account alone.
      pub new_vault_client-Asks :
          (s : ClientState kube) → Asks s (new_vault_client kube client_api namespace c s).1
      unfolding new_vault_client attempted
      new_vault_client-Asks s = build-Asks (record s { attempts = suc s.attempts })
