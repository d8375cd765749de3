-- ===== src/Secret/Registries.antt =====
-- pkg/webhook/secret.go: which registries mutateDockerCreds keeps.
use vault_secrets_webhook.Base.{
  String, ◌≡◌, ◌∙◌, inl, inr, Bool, true, false, ◌||◌, ◌&&◌, ◌==◌, none, some, [], ◌∷◌, arith,
  lookup, insert, lookup-insert, any, is_some, ok, >>=-eq-ok, ok-injective, Option-cases,
  Bool-cases,
}
use vault_secrets_webhook.Base.Text.{split}
use vault_secrets_webhook.Common.{has_vault_prefix}
use vault_secrets_webhook.Injector.{Injector, Sdk}
use vault_secrets_webhook.Secret.{
  Codec, DockerAuthConfig, DockerCredentials, colon, docker_auth, assemble,
}

module _ (sdk : Sdk) (codec : Codec) (injector : Injector) where
  -- The credentials refer to Vault.
  abbrev pub refers : DockerAuthConfig → Bool
  refers creds = elim (codec.decode_base64 creds.auth) [
    | none ↦ false
    | some auth ↦ has_vault_prefix auth
  ]

  -- The registry has credentials that refer to Vault.
  abbrev pub is_referred : String → DockerCredentials → Bool
  is_referred key = any (λ (name, creds). name == key && refers creds)

  -- One more registry.
  inserted :
      (key name : String) (creds docker : DockerAuthConfig) (assembled : DockerCredentials)
      (rest : Bool)
      → refers creds ≡ true
      → (is_some (lookup key (insert name docker assembled)) || rest)
        ≡ (is_some (lookup key assembled) || ((name == key && refers creds) || rest))
  inserted key name creds docker assembled rest referring =
      rw (lookup-insert name key docker assembled, referring) (ground arith)

  refers_lem :
      (creds : DockerAuthConfig) (auth : String)
      → codec.decode_base64 creds.auth ≡ some auth
      → refers creds ≡ has_vault_prefix auth
  refers_lem creds auth decoded = rw (decoded, refers)

  assemble-is_referred :
      (key : String) (dc assembled result : DockerCredentials)
      → assemble sdk codec injector dc assembled ≡ ok result
      → is_some (lookup key result) ≡ (is_some (lookup key assembled) || is_referred key dc)
  unfolding assemble
  assemble-is_referred key [] assembled result e = rw (← ok-injective e) (ground arith)
  assemble-is_referred key ((name, creds) ∷ dc) assembled result e =
      elim (Option-cases (codec.decode_base64 creds.auth)) [
        | inl broken ↦ absurd (cc (rw (broken, assemble) at e))
        | inr (auth, decoded) ↦ elim (Bool-cases (has_vault_prefix auth)) [
          | inr plain ↦
              assemble-is_referred key dc assembled result (simp (decoded, plain, assemble) at e)
              ∙ rw (refers_lem creds auth decoded ∙ plain) (ground arith)
          | inl referring ↦
              let (docker, made, more) =
                >>=-eq-ok (docker_auth sdk codec injector creds (split auth colon))
                  (λ docker. assemble sdk codec injector dc (insert name docker assembled))
                  (simp (decoded, referring, assemble) at e) in
              assemble-is_referred key dc (insert name docker assembled) result more
              ∙ inserted key name creds docker assembled (is_referred key dc)
                  (refers_lem creds auth decoded ∙ referring)
        ]
      ]

  -- Docker's credentials after mutateDockerCreds have the registries whose credentials refer to
  -- Vault, and no others: the rest are lost.
  pub assemble-registries :
      (key : String) (dc result : DockerCredentials)
      → assemble sdk codec injector dc [] ≡ ok result
      → is_some (lookup key result) ≡ is_referred key dc
  unfolding lookup
  assemble-registries key dc result e = assemble-is_referred key dc [] result e
