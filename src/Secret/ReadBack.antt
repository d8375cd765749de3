-- ===== src/Secret/ReadBack.antt =====
-- pkg/webhook/secret.go: what a reader of the credentials that mutateDockerCreds stores finds.
use vault_secrets_webhook.Base.{
  String, ◌<>◌, ◌≡◌, ◌∙◌, refl, sym, ap, inl, inr, ◌==◌, some, List, [], ◌∷◌, Assoc, lookup, insert,
  lookup-insert, get_or_else, ok, >>=-eq-ok, ok-injective, Option-cases, Bool-cases,
}
use mathlib.Core.Option.{some-injective}
use vault_secrets_webhook.Base.Text.{split}
use vault_secrets_webhook.Common.{has_vault_prefix}
use vault_secrets_webhook.Injector.{Injector, Sdk}
use vault_secrets_webhook.Secret.{
  Codec, DockerAuthConfig, DockerCredentials, docker_config_json_key, colon, docker_of, docker_auth,
  assemble, mutate_docker_creds,
}

module _ (sdk : Sdk) (codec : Codec) (injector : Injector) where
  -- Credentials that decode to the username and the password of one answer from Vault.
  pub record IsFilled (docker : DockerAuthConfig) : Type 0 where
    pub username : String
    pub password : String
    pub answers : Assoc String
    pub answered :
        injector.get_data_from_vault (("username", username) ∷ ("password", password) ∷ [])
        ≡ ok answers
    pub decoded :
        codec.decode_base64 docker.auth
        ≡ some (
            get_or_else (lookup "username" answers) ""
            <> ":"
            <> get_or_else (lookup "password" answers) "")

  abbrev pub AllFilled : DockerCredentials → Type 0
  AllFilled dc =
      (name : String) (docker : DockerAuthConfig) → lookup name dc ≡ some docker → IsFilled docker

  module _ (inverse : (s : String) → codec.decode_base64 (codec.encode_base64 s) ≡ some s) where
    docker_auth-IsFilled :
        (creds : DockerAuthConfig) (parts : List String) (docker : DockerAuthConfig)
        → docker_auth sdk codec injector creds parts ≡ ok docker
        → IsFilled docker
    unfolding docker_auth docker_of
    docker_auth-IsFilled creds [] docker e = absurd (cc e)
    docker_auth-IsFilled creds (a ∷ []) docker e = absurd (cc e)
    docker_auth-IsFilled creds (a ∷ b ∷ []) docker e = absurd (cc e)
    docker_auth-IsFilled creds (a ∷ b ∷ c ∷ []) docker e = absurd (cc e)
    docker_auth-IsFilled creds (a ∷ b ∷ c ∷ d ∷ f ∷ parts) docker e = absurd (cc e)
    docker_auth-IsFilled creds (a ∷ b ∷ c ∷ d ∷ []) docker e =
        let (answers, answered, filled) =
          >>=-eq-ok
            (injector.get_data_from_vault
              (("username", a <> ":" <> b) ∷ ("password", c <> ":" <> d) ∷ []))
            (λ answers. ok (
              docker_of sdk codec injector creds (get_or_else (lookup "username" answers) "")
                (get_or_else (lookup "password" answers) "")))
            e in
        record {
          username = a <> ":" <> b;
          password = c <> ":" <> d;
          answers = answers;
          answered = answered;
          decoded = ap (λ k. codec.decode_base64 k.auth) (sym (ok-injective filled)) ∙ inverse _;
        }

    insert-AllFilled :
        (key : String) (docker : DockerAuthConfig) (dc : DockerCredentials)
        → IsFilled docker
        → AllFilled dc
        → AllFilled (insert key docker dc)
    insert-AllFilled key docker dc filled all name found e = elim (Bool-cases (key == name)) [
      | inl same ↦
          let stored : lookup name (insert key docker dc) ≡ some docker =
            rw (lookup-insert key name docker dc, same) refl in
          rw (some-injective _ _ (sym stored ∙ e)) at filled
      | inr other ↦
          let kept : lookup name (insert key docker dc) ≡ lookup name dc =
            rw (lookup-insert key name docker dc, other) refl in
          all name found (sym kept ∙ e)
    ]

    assemble-AllFilled :
        (dc assembled result : DockerCredentials)
        → AllFilled assembled
        → assemble sdk codec injector dc assembled ≡ ok result
        → AllFilled result
    unfolding assemble
    assemble-AllFilled [] assembled result all e = rw (← ok-injective e) all
    assemble-AllFilled ((name, creds) ∷ dc) assembled result all e =
        elim (Option-cases (codec.decode_base64 creds.auth)) [
          | inl broken ↦ absurd (cc (rw (broken, assemble) at e))
          | inr (auth, decoded) ↦ elim (Bool-cases (has_vault_prefix auth)) [
            | inr plain ↦
                assemble-AllFilled dc assembled result all (simp (decoded, plain, assemble) at e)
            | inl referring ↦
                let (docker, made, more) =
                  >>=-eq-ok (docker_auth sdk codec injector creds (split auth colon))
                    (λ docker. assemble sdk codec injector dc (insert name docker assembled))
                    (simp (decoded, referring, assemble) at e) in
                assemble-AllFilled dc (insert name docker assembled) result
                  (insert-AllFilled name docker assembled
                    (docker_auth-IsFilled creds (split auth colon) docker made) all)
                  more
          ]
        ]

    -- If decoding base64 inverts encoding it, the secret that mutateDockerCreds returns has, under
    -- Docker's key, the JSON of credentials of which each decodes to the username and the password of
    -- one answer from Vault, with a colon between.
    pub mutate_docker_creds-AllFilled :
        (entries entries' : Assoc String) (dc : DockerCredentials)
        → mutate_docker_creds sdk codec injector entries dc ≡ ok entries'
        → (stored : DockerCredentials) × (lookup docker_config_json_key entries'
            ≡ some (codec.marshal stored))
          × AllFilled stored
    unfolding mutate_docker_creds lookup
    mutate_docker_creds-AllFilled entries entries' dc e =
        let (stored, assembled, inserted) =
          >>=-eq-ok (assemble sdk codec injector dc [])
            (λ stored. ok (insert docker_config_json_key (codec.marshal stored) entries)) e in
        (
          stored,
          ap (lookup docker_config_json_key) (sym (ok-injective inserted))
              ∙ lookup-insert docker_config_json_key docker_config_json_key (codec.marshal stored)
                  entries,
          assemble-AllFilled dc [] stored (λ name docker found. absurd (cc found)) assembled,
        )
