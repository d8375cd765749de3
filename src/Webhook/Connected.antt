-- ===== src/Webhook/Connected.antt =====
-- pkg/webhook: the client of Vault behind a secret, a config map or another object that a review
-- fills, from the options of VaultSecretsMutator to newVaultClient.
use vault_secrets_webhook.Base.{
  ℕ, String, ◌≡◌, true, some, List, ◌++◌, Assoc, Result, ok, ◌>>=◌, >>=-eq-ok,
}
use vault_secrets_webhook.Client.{
  ClientState, ClientApi, ClientConfig, ClientOption, base_options, new_vault_client,
}
use vault_secrets_webhook.Client.Built.{KeepsConfig, IsConfigured, new_vault_client-IsFor}
use vault_secrets_webhook.Client.Login.{LogsIn}
use vault_secrets_webhook.Common.Addr.{Net}
use vault_secrets_webhook.Common.Policy.{Viper}
use vault_secrets_webhook.Config.{VaultConfig}
use vault_secrets_webhook.Config.Parse.{Parsers}
use vault_secrets_webhook.Config.Parse.Trust.{IsTrusted}
use vault_secrets_webhook.Injector.{Injector, Sdk}
use vault_secrets_webhook.Kube.{Kube, ImageRegistry}
use vault_secrets_webhook.Metrics.{Counter}
use vault_secrets_webhook.Pod.Mutate.{Runtime, Machine}
use vault_secrets_webhook.Secret.{Codec}
use vault_secrets_webhook.Webhook.{
  Mutated, Review, subject_of, template_values, dispatch, vault_secrets_mutator,
}
use vault_secrets_webhook.Webhook.Injected.{asks_vault, in_role, vault_secrets_mutator-Injects}

module _ (kube : Kube) (client_api : ClientApi) (namespace : String) (base : Sdk)
    (injector_of : VaultConfig → client_api.Client → Injector) where
  -- `NewSecretInjector` over the client that newVaultClient makes in a state.
  abbrev pub sdk_over : ClientState kube → Sdk
  sdk_over s = record base {
    new_injector = λ c.
        (new_vault_client kube client_api namespace c s).0 >>= λ client. ok (injector_of c client);
  }

  module _ (registry : ImageRegistry) (runtime : Runtime) (net : Net) (parsers : Parsers)
      (viper : Viper) (codec : Codec) (execute : String → Assoc String → Result String String)
      (m : Machine kube registry runtime) (attempts : ℕ) (attempt_errors : Counter) where
    -- The counters beside the webhook's cluster.
    abbrev pub client_state : ClientState kube
    client_state = record {
      cluster = m.cluster;
      attempts = attempts;
      attempt_errors = attempt_errors;
    }

    -- How a review came to fill its object: from options that it may be trusted with and the role
    -- that the template gives, newVaultClient has made a client, over which the object was filled.
    pub record IsConnected (review : Review) (mutated : Mutated) : Type 0 where
      pub c : VaultConfig
      pub role : String
      pub config : ClientConfig client_api.CertPool
      pub auth : List ClientOption
      pub client : client_api.Client
      pub trusted : IsTrusted net parsers viper (subject_of review) c
      pub templated :
          execute c.role (
            template_values kube registry runtime net parsers viper
              (sdk_over client_state)
              codec
              execute
              review
              c)
          ≡ ok role
      pub answered :
          (new_vault_client kube client_api namespace (in_role role c) client_state).0 ≡ ok client
      pub filled :
          (dispatch kube registry runtime net parsers viper
            (sdk_over client_state)
            codec
            execute
            m
            review
            (in_role role c)
            review.object).0
          ≡ ok (some mutated)
      pub made :
          client_api.new_client_from_config config (base_options (in_role role c) ++ auth)
          ≡ ok client
      pub configured : IsConfigured kube (in_role role c) client_api namespace m.cluster config
      pub logs_in : LogsIn kube (in_role role c) m.cluster auth

    -- A review that fills a secret or a config map that refers to Vault, or another object, fills it
    -- over a client of newVaultClient, whose address is the operator's, where the object names none,
    -- or the object's with the guard passed, and for which certificates go unverified beyond the
    -- default configuration's only by the operator's default or permission; if ConfigureTLS keeps the
    -- address and leaves verification as it is unless told to skip it.
    pub vault_secrets_mutator-IsConnected :
        (review : Review) (mutated : Mutated)
        → ((c : VaultConfig) → KeepsConfig kube c client_api namespace)
        → asks_vault (sdk_over client_state) codec review.object ≡ true
        → (vault_secrets_mutator kube registry runtime net parsers viper
            (sdk_over client_state)
            codec
            execute
            m
            review).0
          ≡ ok (some mutated)
        → IsConnected review mutated
    vault_secrets_mutator-IsConnected review mutated keeps asks e =
        let (c, role, trusted, templated, filled, (injector, injects)) =
          vault_secrets_mutator-Injects kube registry runtime net parsers viper codec execute
            (sdk_over client_state) m review mutated asks e in
        let (client, answered, _) =
          >>=-eq-ok (new_vault_client kube client_api namespace _ client_state).0 _ injects in
        let (config, auth, made, configured, logs_in) =
          new_vault_client-IsFor kube _ client_api namespace client_state client
            (keeps (in_role role c)) answered in
        record {
          c = c;
          role = role;
          config = config;
          auth = auth;
          client = client;
          trusted = trusted;
          templated = templated;
          answered = answered;
          filled = filled;
          made = made;
          configured = configured;
          logs_in = logs_in;
        }
