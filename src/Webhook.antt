-- ===== src/Webhook.antt =====
-- pkg/webhook/webhook.go: VaultSecretsMutator.
pub mod Admission
pub mod Injected
pub mod Connected
use vault_secrets_webhook.Base.{
  String, Bool, true, false, Option, none, some, List, [], ◌∷◌, Assoc, if◌then◌else◌, Result, ok,
  err, ◌>>=◌,
}
use vault_secrets_webhook.Common.Policy.{Viper}
use vault_secrets_webhook.Common.Addr.{Net, AddrError}
use vault_secrets_webhook.Config.{VaultConfig}
use vault_secrets_webhook.Config.Parse.{Parsers, Subject, parse_vault_config}
use vault_secrets_webhook.ConfigMaps.{mutate_config_map}
use vault_secrets_webhook.Injector.{Sdk}
use vault_secrets_webhook.Kube.{Kube, ImageRegistry, Pod, PodSpec, ConfigMap, WebhookError}
use vault_secrets_webhook.Object.{Json, Elements, mutate_object}
use vault_secrets_webhook.Pod.Mutate.{Runtime, Machine, mutate_pod}
use vault_secrets_webhook.Secret.{Codec, mutate_secret}

-- The objects that VaultSecretsMutator tells apart; of a secret, its data.
pub data KubeObject : Type 0 where
  pod_object : Pod → KubeObject
  secret_object : Assoc String → KubeObject
  config_map_object : ConfigMap → KubeObject
  unstructured_object : Elements → KubeObject
  other_object : KubeObject

-- What a review may leave: the object as it is to be, or nothing to patch.
pub data Mutated : Type 0 where
  mutated_pod : PodSpec → Mutated
  mutated_secret : Assoc String → Mutated
  mutated_config_map : ConfigMap → Mutated
  mutated_object : Json → Mutated

-- `model.AdmissionReview` with the object's metadata.
pub record Review : Type 0 where
  pub namespace : String
  pub dry_run : Bool
  pub name : String
  pub annotations : Assoc String
  pub object : KubeObject

-- The failures of a review: of the options, of the role's template, of the mutation.
pub data ReviewError : Type 0 where
  bad_address : AddrError → ReviewError
  bad_template : String → ReviewError
  failed : WebhookError → ReviewError

-- The service account that parseVaultConfig reads of a pod.
unfoldable pub subject_of : Review → Subject
subject_of review = record {
  annotations = review.annotations;
  service_account = elim review.object [
    | pod_object pod ↦ some pod.spec.service_account_name
    | _ ↦ none
  ];
}

-- The cause, in a review's error.
unfoldable pub result_of {ℓ} :
    {A : Type ℓ} → (A → Mutated) → Result WebhookError A → Result ReviewError (Option Mutated)
result_of f (ok a) = ok (some (f a))
result_of f (err e) = err (failed e)

-- `execute` is the parsing and execution of a `text/template` with these values.
module _ (kube : Kube) (registry : ImageRegistry) (runtime : Runtime) (net : Net)
    (parsers : Parsers) (viper : Viper) (sdk : Sdk) (codec : Codec)
    (execute : String → Assoc String → Result String String) where
  -- The switch at the end of VaultSecretsMutator.
  unfoldable pub dispatch :
      Machine kube registry runtime
      → Review
      → VaultConfig
      → KubeObject
      → Result ReviewError (Option Mutated) × Machine kube registry runtime
  dispatch m review c (pod_object pod) =
      let (mutated, m') = mutate_pod kube registry runtime m pod c review.dry_run in
      (result_of mutated_pod mutated, m')
  dispatch m review c (secret_object entries) =
      (result_of mutated_secret (mutate_secret sdk codec c entries), m)
  dispatch m review c (config_map_object config_map) =
      (result_of mutated_config_map (mutate_config_map codec.decode_base64 sdk c config_map), m)
  dispatch m review c (unstructured_object object) =
      (result_of mutated_object (mutate_object sdk c object), m)
  dispatch m review c other_object = (ok none, m)

  -- The values of the role's template.
  pub template_values : Review → VaultConfig → Assoc String
  template_values review c =
      ("authmethod", c.auth_method)
      ∷ ("name", review.name)
      ∷ ("namespace", c.object_namespace)
      ∷ ("path", c.path)
      ∷ ("serviceaccount", c.vault_service_account)
      ∷ []

  -- VaultSecretsMutator with its options, not skipped.
  unfoldable pub with_role :
      Machine kube registry runtime
      → Review
      → VaultConfig
      → Result ReviewError (Option Mutated) × Machine kube registry runtime
  unfolding template_values
  with_role m review c = elim (execute c.role (template_values review c)) [
    | err e ↦ (err (bad_template e), m)
    | ok role ↦
        dispatch m review (record c { connection = record c.connection { role = role } })
          review.object
  ]

  -- `VaultSecretsMutator`
  unfoldable pub vault_secrets_mutator :
      Machine kube registry runtime
      → Review
      → Result ReviewError (Option Mutated) × Machine kube registry runtime
  vault_secrets_mutator m review =
      elim (parse_vault_config net parsers viper (subject_of review) review.namespace) [
        | err e ↦ (err (bad_address e), m)
        | ok c ↦ if c.skip then (ok none, m) else with_role m review c
      ]
