-- ===== src/Client/Built.antt =====
-- pkg/webhook/webhook.go: the client that newVaultClient makes, against what the options ask for.
use vault_secrets_webhook.Base.{
  suc, String, ◌≡◌, refl, sym, ap, ◌∙◌, ◌≢◌, Bool, true, false, Bool-cases, inl, inr, ◌==◌, eq_iff,
  Option-cases, List, ◌++◌, Assoc, lookup, get_or_else, ok, ok-injective,
}
use vault_secrets_webhook.Base.Actions.{◌>>=◌, >>=-eq-ok}
use vault_secrets_webhook.Config.{VaultConfig}
use vault_secrets_webhook.Kube.{Kube}
use vault_secrets_webhook.Client.{
  ClientState, ClientApi, ClientConfig, ClientOption, base_options, or_count, attempted,
  config_error, kubernetes_error, default_config, tls_secret_entries, auth_options, with_authority,
  trust_secret, trust, configure, connect, build, new_vault_client,
}
use vault_secrets_webhook.Client.Login.{LogsIn, or_count-eq-ok, wrap_api-eq-ok, auth_options-LogsIn}

module _ (kube : Kube) (c : VaultConfig) where
  module _ (client_api : ClientApi) (namespace : String) where
    -- What the configuration of a client has to do with the options.
    pub record IsConfigured (cluster : kube.Cluster) (config : ClientConfig client_api.CertPool)
        : Type 0 where
      pub address : config.address ≡ c.addr
      pub instrumented : config.instrumented ≡ true
      pub verified :
          c.skip_verify ≡ false
          → (defaults : ClientConfig client_api.CertPool) → client_api.default_config ≡ ok defaults
          → config.insecure ≡ defaults.insecure
      pub authority :
          c.tls_secret ≢ ""
          → (entries : Assoc String) × (kube.secret_data cluster c.tls_secret namespace
              ≡ ok entries)
            × (client_api.append_certs_from_pem (get_or_else (lookup "ca.crt" entries) "")
                ≡ config.root_cas)

    configure-eq-ok :
        (s : ClientState kube) {config : ClientConfig client_api.CertPool} {t : ClientState kube}
        → configure kube client_api namespace c s ≡ (ok config, t)
        → (defaults : ClientConfig client_api.CertPool) × (client_api.default_config ≡ ok defaults)
          × (client_api.configure_tls (record defaults { address = c.addr }) c.skip_verify
              ≡ ok config)
          × (t ≡ s)
    unfolding configure default_config or_count
    configure-eq-ok s e =
        let (defaults, u, read, rest) =
          >>=-eq-ok (default_config kube client_api namespace) _ s e in
        let (answer, unchanged) = or_count-eq-ok kube c config_error _ s read in
        let (set, still) = or_count-eq-ok kube c config_error _ u rest in
        (defaults, answer, set, still ∙ unchanged)

    with_authority-eq-ok :
        (config : ClientConfig client_api.CertPool) (entries : Assoc String)
        {trusted : ClientConfig client_api.CertPool}
        → with_authority kube client_api namespace c config entries ≡ ok trusted
        → (client_api.append_certs_from_pem (get_or_else (lookup "ca.crt" entries) "")
            ≡ trusted.root_cas)
          × (trusted.address ≡ config.address)
          × (trusted.insecure ≡ config.insecure)
    unfolding with_authority
    with_authority-eq-ok config entries e =
        let pem = client_api.append_certs_from_pem (get_or_else (lookup "ca.crt" entries) "") in
        elim (Option-cases pem) [
          | inl none' ↦ absurd (cc (rw (none', with_authority) at e))
          | inr (pool, some') ↦
              let same = ok-injective (rw (some', with_authority) at e) in
              (
                some' ∙ ap (λ k. k.root_cas) same,
                sym (ap (λ k. k.address) same),
                sym (ap (λ k. k.insecure) same),
              )
        ]

    -- The configuration is that of before but for the authorities.
    trust-eq-ok :
        (config : ClientConfig client_api.CertPool) (s : ClientState kube)
        {trusted : ClientConfig client_api.CertPool} {t : ClientState kube}
        → trust kube client_api namespace c config s ≡ (ok trusted, t)
        → (t ≡ s)
          × (trusted.address ≡ config.address)
          × (trusted.insecure ≡ config.insecure)
          × (c.tls_secret ≢ ""
              → (entries : Assoc String) × (kube.secret_data s.cluster c.tls_secret namespace
                  ≡ ok entries)
                × (client_api.append_certs_from_pem (get_or_else (lookup "ca.crt" entries) "")
                    ≡ trusted.root_cas))
    unfolding trust trust_secret tls_secret_entries or_count
    trust-eq-ok config s {trusted = trusted} e = elim (Bool-cases (c.tls_secret == "")) [
      | inl none' ↦
          let same = rw none' at e in
          let kept = ok-injective (ap (λ o. o.0) same) in
          (
            sym (ap (λ o. o.1) same),
            sym (ap (λ k. k.address) kept),
            sym (ap (λ k. k.insecure) kept),
            λ named. absurd (named ((eq_iff c.tls_secret "").0 none')),
          )
      | inr named ↦
          let (entries, u, read, rest) =
            >>=-eq-ok (tls_secret_entries kube client_api namespace c)
              (λ entries.
                or_count kube config_error
                  (λ _. with_authority kube client_api namespace c config entries))
              s (rw named at e) in
          let (found, unchanged) = or_count-eq-ok kube c kubernetes_error _ s read in
          let (added, still) = or_count-eq-ok kube c config_error _ u rest in
          let (pooled, address, insecure) = with_authority-eq-ok config entries added in
          (
            still ∙ unchanged,
            address,
            insecure,
            λ _. (entries, wrap_api-eq-ok kube c "failed to read Vault TLS Secret" _ found, pooled),
          )
    ]

    -- `ConfigureTLS` sets nothing of the address, and asks for insecure connections only if told to.
    pub record KeepsConfig : Type 0 where
      pub keeps_address :
          (config config' : ClientConfig client_api.CertPool) (insecure : Bool)
          → client_api.configure_tls config insecure ≡ ok config'
          → config'.address ≡ config.address
      pub keeps_verification :
          (config config' : ClientConfig client_api.CertPool) (insecure : Bool)
          → insecure ≡ false
          → client_api.configure_tls config insecure ≡ ok config'
          → config'.insecure ≡ config.insecure

    build-IsFor :
        (s : ClientState kube) {client : client_api.Client} {t : ClientState kube}
        → KeepsConfig
        → build kube client_api namespace c s ≡ (ok client, t)
        → (config : ClientConfig client_api.CertPool) × (auth : List ClientOption)
          × (client_api.new_client_from_config config (base_options c ++ auth) ≡ ok client)
          × IsConfigured s.cluster config
          × LogsIn kube c s.cluster auth
    unfolding build connect or_count
    build-IsFor s keeps e =
        let (config, u, configured, rest) =
          >>=-eq-ok (configure kube client_api namespace c)
            (λ config. trust kube client_api namespace c config >>= λ trusted.
              auth_options kube c >>= λ auth. connect kube client_api namespace c trusted auth)
            s e in
        let (defaults, default, set, unchanged) = configure-eq-ok s configured in
        let (trusted, v, read, later) =
          >>=-eq-ok (trust kube client_api namespace c config)
            (λ trusted.
              auth_options kube c >>= λ auth. connect kube client_api namespace c trusted auth)
            s (rw unchanged at rest) in
        let (still, address, insecure, authority) = trust-eq-ok config s read in
        let (auth, w, logged_in, last) =
          >>=-eq-ok (auth_options kube c) (λ auth. connect kube client_api namespace c trusted auth)
            s (rw still at later) in
        let (made, _) = or_count-eq-ok kube c config_error _ w last in
        (
          record trusted { instrumented = true },
          auth,
          made,
          record {
            address = address ∙ keeps.keeps_address _ config c.skip_verify set;
            instrumented = refl;
            verified = λ verifying defaults' default'.
                insecure
                ∙ keeps.keeps_verification _ config c.skip_verify verifying set
                ∙ ap (λ k. k.insecure) (ok-injective (sym default ∙ default'));
            authority = authority;
          },
          auth_options-LogsIn kube c s logged_in,
        )

    -- A client that newVaultClient returns is made from a configuration with the address of the
    -- options, which verifies the server as the default configuration does unless the options skip
    -- that, and trusts the authorities of the TLS secret in the webhook's own namespace alone where
    -- the options name one; and from the role, path and namespace of the options, with the token of
    -- their service account, which is kept in its first secret or asked for, or else their method,
    -- if ConfigureTLS keeps the address and leaves verification as it is unless told to skip it.
    pub new_vault_client-IsFor :
        (s : ClientState kube) (client : client_api.Client)
        → KeepsConfig
        → (new_vault_client kube client_api namespace c s).0 ≡ ok client
        → (config : ClientConfig client_api.CertPool) × (auth : List ClientOption)
          × (client_api.new_client_from_config config (base_options c ++ auth) ≡ ok client)
          × IsConfigured s.cluster config
          × LogsIn kube c s.cluster auth
    unfolding new_vault_client attempted
    new_vault_client-IsFor s client keeps e =
        let begun = record s { attempts = suc s.attempts } in
        build-IsFor begun {t = (build kube client_api namespace c begun).1} keeps
          (ap (λ r. (r, (build kube client_api namespace c begun).1)) e)
