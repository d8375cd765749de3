-- ===== src/Secret.antt =====
-- pkg/webhook/secret.go: secretNeedsMutation and MutateSecret.
pub mod Kept
pub mod ReadBack
pub mod Registries
use Prim.Native.Char.{Char}
use vault_secrets_webhook.Base.{
  String, ◌<>◌, Bool, true, false, not, ◌&&◌, ◌||◌, ◌==◌, Option, none, some, List, [], ◌∷◌, map,
  Assoc, lookup, insert, get_or_else, if◌then◌else◌, Result, ok, err, ◌>>=◌, wrap,
}
use vault_secrets_webhook.Base.Text.{split}
use vault_secrets_webhook.Common.{has_vault_prefix}
use vault_secrets_webhook.Config.{VaultConfig}
use vault_secrets_webhook.Injector.{Injector, Sdk}
use vault_secrets_webhook.Kube.{WebhookError, wrapped, message}

-- `dockerAuthConfig`
pub record DockerAuthConfig : Type 0 where
  pub username : String
  pub password : String
  pub auth : String
  pub email : String
  pub server_address : String
  pub identity_token : String
  pub registry_token : String

-- `dockerCredentials`: the field `Auths`.
abbrev pub DockerCredentials : Type 0
DockerCredentials = Assoc DockerAuthConfig

-- The encodings: base64 (none is an error), and JSON of Docker's credentials (likewise).
pub record Codec : Type 0 where
  pub decode_base64 : String → Option String
  pub encode_base64 : String → String
  pub unmarshal : String → Option DockerCredentials
  pub marshal : DockerCredentials → String

-- `corev1.DockerConfigJsonKey`
abbrev pub docker_config_json_key : String
docker_config_json_key = ".dockerconfigjson"

abbrev pub colon : Char
colon = ":"

module _ (sdk : Sdk) (codec : Codec) where
  -- The loop over the credentials in secretNeedsMutation.
  unfoldable pub creds_need_mutation : DockerCredentials → Result WebhookError Bool
  creds_need_mutation [] = ok false
  creds_need_mutation ((_, creds) ∷ auths) =
      let rest = creds_need_mutation auths in
      elim (codec.decode_base64 creds.auth) [
        | none ↦ err (wrapped "auth base64 decoding failed" (message "illegal base64 data"))
        | some auth ↦ if has_vault_prefix auth then ok true else rest
      ]

  -- The body of secretNeedsMutation's loop.
  unfoldable pub entry_needs_mutation : String → String → Result WebhookError Bool
  entry_needs_mutation key value =
      if key == docker_config_json_key
      then elim (codec.unmarshal value) [
        | none ↦ err (wrapped "unmarshal dockerconfig json failed" (message "invalid JSON"))
        | some dc ↦ creds_need_mutation dc
      ]
      else ok (has_vault_prefix value || sdk.has_inline value)

  -- `secretNeedsMutation` of the secret's data.
  unfoldable pub secret_needs_mutation : Assoc String → Result WebhookError Bool
  secret_needs_mutation [] = ok false
  secret_needs_mutation ((key, value) ∷ entries) =
      let rest = secret_needs_mutation entries in
      entry_needs_mutation key value >>= λ needed. if needed then ok true else rest

  module _ (injector : Injector) where
    -- The new credentials, from the data of the two references.
    docker_of : DockerAuthConfig → String → String → DockerAuthConfig
    docker_of creds username password =
        let both = not (creds.username == "") && not (creds.password == "") in
        record {
          username = if both then username else "";
          password = if both then password else "";
          auth = codec.encode_base64 (username <> ":" <> password);
          email = "";
          server_address = "";
          identity_token = "";
          registry_token = "";
        }

    -- The credentials that take the place of those that refer to Vault: the four parts of the text
    -- are two references.
    unfoldable pub docker_auth :
        DockerAuthConfig → List String → Result WebhookError DockerAuthConfig
    unfolding docker_of
    docker_auth creds (a ∷ b ∷ c ∷ d ∷ []) =
        injector.get_data_from_vault
          (("username", a <> ":" <> b) ∷ ("password", c <> ":" <> d) ∷ [])
        >>= λ dc_creds. ok (
            docker_of creds (get_or_else (lookup "username" dc_creds) "")
              (get_or_else (lookup "password" dc_creds) ""))
    docker_auth creds parts = err (message "splitting auth credentials failed")

    -- The loop of mutateDockerCreds, with `assembled.Auths`.
    unfoldable pub assemble :
        DockerCredentials → DockerCredentials → Result WebhookError DockerCredentials
    assemble [] assembled = ok assembled
    assemble ((key, creds) ∷ auths) assembled = elim (codec.decode_base64 creds.auth) [
      | none ↦ err (wrapped "auth base64 decoding failed" (message "illegal base64 data"))
      | some auth ↦ elim (has_vault_prefix auth) [
        | true ↦ docker_auth creds (split auth colon) >>= λ docker.
            assemble auths (insert key docker assembled)
        | false ↦ assemble auths assembled
      ]
    ]

    -- `mutateDockerCreds`
    unfoldable pub mutate_docker_creds :
        Assoc String → DockerCredentials → Result WebhookError (Assoc String)
    mutate_docker_creds entries dc = assemble dc [] >>= λ assembled.
        ok (insert docker_config_json_key (codec.marshal assembled) entries)

    -- `mutateSecretData`
    unfoldable pub mutate_secret_data : Assoc String → Result WebhookError (Assoc String)
    mutate_secret_data entries = injector.get_data_from_vault entries >>= λ converted.
        ok (map (λ (key, _). (key, get_or_else (lookup key converted) "")) entries)

    -- The part of MutateSecret for Docker's credentials.
    unfoldable pub mutate_docker_config : Assoc String → Result WebhookError (Assoc String)
    mutate_docker_config entries = elim (lookup docker_config_json_key entries) [
      | none ↦ ok entries
      | some value ↦ elim (codec.unmarshal value) [
        | none ↦ err (wrapped "unmarshal dockerconfig json failed" (message "invalid JSON"))
        | some dc ↦
            wrap (wrapped "mutate dockerconfig json failed") (mutate_docker_creds entries dc)
      ]
    ]

  -- `MutateSecret` on the secret's data.
  unfoldable pub mutate_secret : VaultConfig → Assoc String → Result WebhookError (Assoc String)
  mutate_secret c entries =
      wrap (wrapped "failed to check if secret needs to be mutated") (secret_needs_mutation entries)
      >>= λ needed.
          if not needed
          then ok entries
          else (wrap (wrapped "failed to create vault client") (sdk.new_injector c) >>= λ injector.
              mutate_docker_config injector entries >>= λ replaced.
              wrap (wrapped "mutate generic secret failed") (mutate_secret_data injector replaced))
