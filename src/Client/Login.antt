-- ===== src/Client/Login.antt =====
-- pkg/webhook/webhook.go: how a client of newVaultClient logs in.
use mathlib.Core.Path.{subst}
use vault_secrets_webhook.Base.{
  String, ◌≡◌, sym, ap, ◌∙◌, ◌≢◌, Bool-cases, inl, inr, ◌==◌, eq_iff, List, [], ◌∷◌, Assoc, lookup,
  get_or_else, Result, ok, err, ok-injective,
}
use vault_secrets_webhook.Base.Actions.{◌>>=◌, pure, >>=-eq-ok}
use vault_secrets_webhook.Config.{VaultConfig}
use vault_secrets_webhook.Kube.{Kube, WebhookError, ApiError}
use vault_secrets_webhook.Client.{
  ClientState, ClientOption, client_auth_method, existing_secret, namespaced_secret_auth_method,
  token_request, wrap_api, or_count, secret_token, fresh_token, kubernetes_error, token_failure,
  account_failure, secret_failure, service_account, account_secret, kept_or_fresh,
  service_account_token, auth_options,
}

module _ (kube : Kube) (c : VaultConfig) where
  -- Where a service account's token comes from, in a cluster.
  pub data TokenFor (cluster : kube.Cluster) (token : String) : Type 0 where
    of_secret :
        (name : String) (names : List String) (entries : Assoc String)
        → kube.service_account_secrets cluster c.vault_service_account c.object_namespace
          ≡ ok (name ∷ names)
        → kube.secret_data cluster name c.object_namespace ≡ ok entries
        → get_or_else (lookup "token" entries) "" ≡ token
        → token ≢ ""
        → TokenFor cluster token
    of_request :
        (kube.create_token cluster c.vault_service_account c.object_namespace token_request).1
          ≡ ok token
        → TokenFor cluster token

  -- The options by which a client logs in.
  pub data LogsIn (cluster : kube.Cluster) : List ClientOption → Type 0 where
    by_method :
        c.vault_service_account ≡ "" → LogsIn cluster (client_auth_method c.auth_method ∷ [])
    by_account :
        (token : String)
        → c.vault_service_account ≢ ""
        → TokenFor cluster token
        → LogsIn cluster (namespaced_secret_auth_method ∷ existing_secret token ∷ [])

  pub or_count-eq-ok {ℓ} :
      {A : Type ℓ} (reason : String) (r : Result WebhookError A) (s : ClientState kube) {a : A}
      {t : ClientState kube}
      → or_count kube reason (λ _. r) s ≡ (ok a, t)
      → (r ≡ ok a) × (t ≡ s)
  unfolding or_count
  or_count-eq-ok reason (ok a) s e = (ap (λ o. o.0) e, sym (ap (λ o. o.1) e))
  or_count-eq-ok reason (err f) s e = absurd (cc e)

  pub wrap_api-eq-ok {ℓ} :
      {A : Type ℓ} (text : String) (r : Result ApiError A) {a : A}
      → wrap_api kube text r ≡ ok a
      → r ≡ ok a
  wrap_api-eq-ok text (ok a) e = cc
  wrap_api-eq-ok text (err f) e = absurd (cc e)

  service_account-eq-ok :
      (s : ClientState kube) {names : List String} {t : ClientState kube}
      → service_account kube c s ≡ (ok names, t)
      → (kube.service_account_secrets s.cluster c.vault_service_account c.object_namespace
          ≡ ok names)
        × (t ≡ s)
  unfolding service_account or_count
  service_account-eq-ok s e =
      let (answer, same) = or_count-eq-ok kubernetes_error _ s e in
      (wrap_api-eq-ok (account_failure c) _ answer, same)

  account_secret-eq-ok :
      (name : String) (s : ClientState kube) {entries : Assoc String} {t : ClientState kube}
      → account_secret kube c name s ≡ (ok entries, t)
      → (kube.secret_data s.cluster name c.object_namespace ≡ ok entries) × (t ≡ s)
  unfolding account_secret or_count
  account_secret-eq-ok name s e =
      let (answer, same) = or_count-eq-ok kubernetes_error _ s e in
      (wrap_api-eq-ok (secret_failure c name) _ answer, same)

  fresh_token-TokenFor :
      (s : ClientState kube) {token : String} {t : ClientState kube}
      → fresh_token kube c s ≡ (ok token, t)
      → TokenFor s.cluster token
  unfolding fresh_token
  fresh_token-TokenFor s e =
      let (cluster, answer) =
        kube.create_token s.cluster c.vault_service_account c.object_namespace token_request in
      let (found, _) =
        or_count-eq-ok kubernetes_error (wrap_api kube (token_failure c) answer)
          (record s { cluster = cluster }) e in
      of_request (wrap_api-eq-ok (token_failure c) answer found)

  -- A token that is kept is not empty.
  kept_or_fresh-TokenFor :
      (kept : String) (s : ClientState kube) {token : String} {t : ClientState kube}
      → (kept ≢ "" → TokenFor s.cluster kept)
      → kept_or_fresh kube c kept s ≡ (ok token, t)
      → TokenFor s.cluster token
  unfolding kept_or_fresh
  kept_or_fresh-TokenFor kept s from e = elim (Bool-cases (kept == "")) [
    | inl empty ↦ fresh_token-TokenFor s (rw empty at e)
    | inr full ↦
        subst (TokenFor s.cluster) (ok-injective (ap (λ o. o.0) (rw full at e)))
          (from (λ empty. cc ((eq_iff kept "").1 empty)))
  ]

  secret_token-TokenFor :
      (names : List String) (s : ClientState kube) {token : String} {t : ClientState kube}
      → kube.service_account_secrets s.cluster c.vault_service_account c.object_namespace ≡ ok names
      → secret_token kube c names s ≡ (ok token, t)
      → (token ≢ "" → TokenFor s.cluster token) × (t ≡ s)
  unfolding secret_token
  secret_token-TokenFor [] s {token = token} found e =
      (λ full. absurd (full (sym (ok-injective (ap (λ o. o.0) e)))), sym (ap (λ o. o.1) e))
  secret_token-TokenFor (name ∷ names) s found e =
      let (entries, u, read, same) = >>=-eq-ok (account_secret kube c name) _ s e in
      let (answer, unchanged) = account_secret-eq-ok name s read in
      (
        of_secret name names entries found answer (ok-injective (ap (λ o. o.0) same)),
        sym (ap (λ o. o.1) same) ∙ unchanged,
      )

  service_account_token-TokenFor :
      (s : ClientState kube) {token : String} {t : ClientState kube}
      → service_account_token kube c s ≡ (ok token, t)
      → TokenFor s.cluster token
  unfolding service_account_token
  service_account_token-TokenFor s {token = token} {t = t} e =
      let (names, u, read, rest) =
        >>=-eq-ok (service_account kube c)
          (λ names. secret_token kube c names >>= kept_or_fresh kube c) s e in
      let (answer, unchanged) = service_account-eq-ok s read in
      let (kept, v, first, last) =
        >>=-eq-ok (secret_token kube c names) (kept_or_fresh kube c) s (rw unchanged at rest) in
      let (from, still) = secret_token-TokenFor names s answer first in
      kept_or_fresh-TokenFor kept s from (rw still at last)

  pub auth_options-LogsIn :
      (s : ClientState kube) {auth : List ClientOption} {t : ClientState kube}
      → auth_options kube c s ≡ (ok auth, t)
      → LogsIn s.cluster auth
  unfolding auth_options
  auth_options-LogsIn s {auth = auth} e = elim (Bool-cases (c.vault_service_account == "")) [
    | inl none' ↦
        subst (LogsIn s.cluster) (ok-injective (ap (λ o. o.0) (rw none' at e)))
          (by_method ((eq_iff c.vault_service_account "").0 none'))
    | inr named ↦
        let (token, u, found, same) =
          >>=-eq-ok (service_account_token kube c)
            (λ token. pure (namespaced_secret_auth_method ∷ existing_secret token ∷ [])) s
            (rw named at e) in
        subst (LogsIn s.cluster) (ok-injective (ap (λ o. o.0) same)) (
          by_account token (λ empty. cc ((eq_iff c.vault_service_account "").1 empty))
            (service_account_token-TokenFor s found))
  ]
