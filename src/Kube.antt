-- ===== src/Kube.antt =====
-- The parts of the Kubernetes API's objects that the webhook reads and writes, and the cluster
-- behind `kubernetes.Interface`.
use vault_secrets_webhook.Base.{
  ℕ, ℤ, String, Bool, true, false, Option, none, List, ◌==◌, any, Assoc, Result,
}
use vault_secrets_webhook.Config.{PullPolicy, Quantity}

-- `ConfigMapKeySelector` and `SecretKeySelector`
pub record KeySelector : Type 0 where
  pub name : String
  pub key : String

-- `EnvVarSource`
pub record EnvVarSource : Type 0 where
  pub config_map_key_ref : Option KeySelector
  pub secret_key_ref : Option KeySelector

pub record EnvVar : Type 0 where
  pub name : String
  pub value : String
  pub value_from : Option EnvVarSource

-- `EnvVar{Name: name, Value: value}`
abbrev pub env_var : String → String → EnvVar
env_var name value = record { name = name; value = value; value_from = none }

-- `ConfigMapEnvSource` and `SecretEnvSource`
pub record EnvSource : Type 0 where
  pub name : String
  pub optional : Option Bool

pub record EnvFromSource : Type 0 where
  pub config_map_ref : Option EnvSource
  pub secret_ref : Option EnvSource

pub record VolumeMount : Type 0 where
  pub name : String
  pub read_only : Bool
  pub mount_path : String
  pub sub_path : String

-- `VolumeMount{Name: name, MountPath: path}`
abbrev pub volume_mount : String → String → VolumeMount
volume_mount name path = record { name = name; read_only = false; mount_path = path; sub_path = "" }

-- A `Probe`: the command of its `Exec` action, if it has one.
pub record Probe : Type 0 where
  pub exec : Option (List String)

pub record Resources : Type 0 where
  pub limits : Assoc Quantity
  pub requests : Assoc Quantity

pub record Capabilities : Type 0 where
  pub add : List String
  pub drop : List String

pub record SecurityContext : Type 0 where
  pub allow_privilege_escalation : Option Bool
  pub read_only_root_filesystem : Option Bool
  pub capabilities : Capabilities
  pub run_as_user : Option ℤ
  pub run_as_group : Option ℤ
  pub run_as_non_root : Option Bool

pub record Container : Type 0 where
  pub name : String
  pub image : String
  pub image_pull_policy : PullPolicy
  pub command : List String
  pub args : List String
  pub env : List EnvVar
  pub env_from : List EnvFromSource
  pub volume_mounts : List VolumeMount
  pub liveness_probe : Option Probe
  pub readiness_probe : Option Probe
  pub startup_probe : Option Probe
  pub security_context : Option SecurityContext
  pub resources : Resources

-- `KeyToPath`
abbrev pub KeyToPath : Type 0
KeyToPath = String × String

-- The sources of the volumes that the webhook adds, and any other.
pub data VolumeSource : Type 0 where
  empty_dir_memory : VolumeSource
  config_map : String → Option ℕ → List KeyToPath → VolumeSource
  projected_secret : String → List KeyToPath → VolumeSource
  other_source : String → VolumeSource

pub record Volume : Type 0 where
  pub name : String
  pub source : VolumeSource

pub record PodSecurityContext : Type 0 where
  pub run_as_user : Option ℤ

pub record PodSpec : Type 0 where
  pub init_containers : List Container
  pub containers : List Container
  pub volumes : List Volume
  pub security_context : Option PodSecurityContext
  pub service_account_name : String
  pub image_pull_secrets : List String
  pub share_process_namespace : Option Bool

pub record OwnerReference : Type 0 where
  pub name : String
  pub uid : String

pub record Pod : Type 0 where
  pub name : String
  pub owner_references : List OwnerReference
  pub spec : PodSpec

pub record ConfigMap : Type 0 where
  pub name : String
  pub owner_references : List OwnerReference
  pub entries : Assoc String
  pub binary_entries : Assoc String

-- The errors of the API, by the tests `IsNotFound` and `IsAlreadyExists`.
pub data ApiError : Type 0 where
  not_found already_exists : ApiError
  other_error : String → ApiError

abbrev pub is_not_found : ApiError → Bool
is_not_found not_found = true
is_not_found _ = false

abbrev pub is_already_exists : ApiError → Bool
is_already_exists already_exists = true
is_already_exists _ = false

-- `TokenRequestSpec`
pub record TokenRequest : Type 0 where
  pub audiences : List String
  pub expiration_seconds : ℕ

-- What the webhook calls of the cluster, over an unknown state. Reads change nothing. Data is read
-- in the order in which the loops visit it. Of a service account, the names of its secrets.
pub record Kube : Type 1 where
  pub Cluster : Type 0
  pub config_map_data : Cluster → String → String → Result ApiError (Assoc String)
  pub secret_data : Cluster → String → String → Result ApiError (Assoc String)
  pub create_config_map : Cluster → String → ConfigMap → Cluster × Option ApiError
  pub update_config_map : Cluster → String → ConfigMap → Cluster × Option ApiError
  pub server_version : Cluster → Option String
  pub service_account_secrets : Cluster → String → String → Result ApiError (List String)
  pub create_token : Cluster → String → String → TokenRequest → Cluster × Result ApiError String

-- The entrypoint and the command of an image's configuration.
pub record ImageConfig : Type 0 where
  pub entrypoint : List String
  pub cmd : List String

-- The failures of the webhook: an API error as it is, a wrapped one, an error of the image
-- registry or of Vault, one of the webhook's own, another one with a message before it, and a panic
-- of the Go code.
pub data WebhookError : Type 0 where
  api : ApiError → WebhookError
  failed_to_create failed_to_update : ApiError → WebhookError
  registry_failure vault_failure message : String → WebhookError
  wrapped : String → WebhookError → WebhookError
  panic : String → WebhookError

-- The interface `ImageRegistry` over the state that it keeps: from the namespace, whether to skip
-- verification, the container and the pod, the image's configuration.
pub record ImageRegistry : Type 1 where
  pub Cache : Type 0
  pub get_image_config :
      Cache → String → Bool → Container → PodSpec → Result WebhookError ImageConfig × Cache

-- A volume of this name is in the pod.
abbrev pub has_volume : String → List Volume → Bool
has_volume name = any (λ v. v.name == name)
