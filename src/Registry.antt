-- ===== src/Registry.antt =====
-- pkg/webhook/registry.go: the image registry and its cache of configurations.
pub mod Cache
pub mod Logged
pub mod Refined
pub mod Download
use vault_secrets_webhook.Base.{
  String, Bool, true, false, not, ◌&&◌, ◌==◌, Option, none, some, List, [], ◌∷◌, Assoc, lookup,
  insert, is_empty, if◌then◌else◌, Result, ok, err,
}
use vault_secrets_webhook.Common.Policy.{Viper}
use vault_secrets_webhook.Config.{PullPolicy, always}
use vault_secrets_webhook.Kube.{Container, PodSpec, ImageConfig, ImageRegistry, WebhookError}

-- `containerInfo`
pub record ContainerInfo : Type 0 where
  pub namespace : String
  pub service_account_name : String
  pub image_pull_secrets : List String
  pub image : String

-- What the registry calls of other packages: the identifier of a parsed image reference
-- (`name.ParseReference`, where none is an error), and the download of a configuration, over an
-- unknown state of the network. `getImageConfig` returns a configuration or an error, never both.
pub record Remote : Type 1 where
  pub Network : Type 0
  pub reference_identifier : String → Option String
  pub download : Network → ContainerInfo → Bool → Result WebhookError ImageConfig × Network

-- `container.ImagePullPolicy == corev1.PullAlways`
abbrev pub is_always : PullPolicy → Bool
is_always always = true
is_always _ = false

module _ (remote : Remote) (viper : Viper) where
  -- `Registry`: the cache, beside the network that it talks to. Entries do not expire.
  pub record Registry : Type 0 where
    pub image_cache : Assoc ImageConfig
    pub network : remote.Network

  -- `IsAllowedToCache`
  unfoldable pub is_allowed_to_cache : Container → Bool
  is_allowed_to_cache container =
      if is_always container.image_pull_policy
      then false
      else elim (remote.reference_identifier container.image) [
        | none ↦ false
        | some identifier ↦ not (identifier == "latest")
      ]

  -- Whose credentials are used: the pod's, or those of the default secret where the pod names none.
  unfoldable pub container_info : String → Container → PodSpec → ContainerInfo
  container_info ns container spec =
      let default_namespace = viper.get_string "default_image_pull_secret_namespace" in
      let default_account = viper.get_string "default_image_pull_secret_service_account" in
      let default_secret = viper.get_string "default_image_pull_secret" in
      if is_empty spec.image_pull_secrets
        && not (default_namespace == "")
        && not (default_secret == "")
        && not (default_account == "")
      then record {
        namespace = default_namespace;
        service_account_name = default_account;
        image_pull_secrets = default_secret ∷ [];
        image = container.image;
      }
      else record {
        namespace = ns;
        service_account_name = spec.service_account_name;
        image_pull_secrets = spec.image_pull_secrets;
        image = container.image;
      }

  -- The registry after a download: a configuration is stored where that is allowed.
  stored : Registry → Container → Result WebhookError ImageConfig × remote.Network → Registry
  stored r container (ok config, network) = record {
    image_cache =
        if is_allowed_to_cache container
        then insert container.image config r.image_cache
        else r.image_cache;
    network = network;
  }
  stored r container (err e, network) = record r { network = network }

  -- `GetImageConfig` where the cache is not used or has nothing.
  fetch :
      Registry → String → Bool → Container → PodSpec → Result WebhookError ImageConfig × Registry
  unfolding stored
  fetch r ns is_disabled container spec =
      let answer = remote.download r.network (container_info ns container spec) is_disabled in
      (answer.0, stored r container answer)

  -- `GetImageConfig`
  unfoldable pub get_image_config :
      Registry → String → Bool → Container → PodSpec → Result WebhookError ImageConfig × Registry
  unfolding fetch
  get_image_config r ns is_disabled container spec =
      let fetched = fetch r ns is_disabled container spec in
      if is_allowed_to_cache container
      then elim (lookup container.image r.image_cache) [
        | some config ↦ (ok config, r)
        | none ↦ fetched
      ]
      else fetched

  -- `NewRegistry`, as what `mutateContainers` takes.
  abbrev pub new_registry : ImageRegistry
  new_registry = record { Cache = Registry; get_image_config = get_image_config }
