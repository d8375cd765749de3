-- ===== src/Registry/Logged.antt =====
-- pkg/webhook/registry.go: calls of GetImageConfig, and a registry that keeps no cache but the log of
-- its answers.
use vault_secrets_webhook.Base.{
  String, Bool, ◌≡◌, refl, ◌&&◌, ◌==◌, Option, none, some, List, [], ◌∷◌, Result, ok, err,
  if◌then◌else◌,
}
use vault_secrets_webhook.Common.Policy.{Viper}
use vault_secrets_webhook.Kube.{Container, PodSpec, ImageConfig, WebhookError}
use vault_secrets_webhook.Registry.{
  Remote, Registry, is_allowed_to_cache, container_info, get_image_config,
}

-- The arguments of a call of GetImageConfig.
pub record Query : Type 0 where
  pub namespace : String
  pub is_disabled : Bool
  pub container : Container
  pub spec : PodSpec

-- A call and its answer.
pub record Entry : Type 0 where
  pub query : Query
  pub answer : Result WebhookError ImageConfig

abbrev pub config_of : Result WebhookError ImageConfig → Option ImageConfig
config_of (ok config) = some config
config_of (err e) = none

-- The first option, or else the second.
abbrev pub first_of : Option ImageConfig → Option ImageConfig → Option ImageConfig
first_of (some config) other = some config
first_of none other = other

pub first_of-none : (x : Option ImageConfig) → first_of x none ≡ x
first_of-none none = refl
first_of-none (some config) = refl

module _ (remote : Remote) (viper : Viper) where
  -- The answers to calls one after the other, and the registry that they leave.
  unfoldable pub answer_all :
      Registry remote viper
      → List Query
      → List (Result WebhookError ImageConfig) × Registry remote viper
  answer_all r [] = ([], r)
  answer_all r (q ∷ queries) =
      let (answer, r') =
        get_image_config remote viper r q.namespace q.is_disabled q.container q.spec in
      let rest = answer_all r' queries in (answer ∷ rest.0, rest.1)

  -- The configuration that a call got for an image, if it may use the cache.
  abbrev pub config_for : String → Entry → Option ImageConfig
  config_for image e =
      if is_allowed_to_cache remote viper e.query.container && e.query.container.image == image
      then config_of e.answer
      else none

  -- The first configuration that a call for the image got which may use the cache; a log has its
  -- newest entry first.
  abbrev pub first_config : String → List Entry → Option ImageConfig
  first_config image [] = none
  first_config image (e ∷ earlier) = first_of (first_config image earlier) (config_for image e)

  -- The answer by a log: to a call that may use the cache, the first configuration that such a call
  -- for the image got; else that of a download, as it turns out at that time.
  abbrev pub answer_by_log :
      remote.Network → List Entry → Query → Result WebhookError ImageConfig × remote.Network
  answer_by_log network log q =
      let downloaded =
        remote.download network (container_info remote viper q.namespace q.container q.spec)
          q.is_disabled in
      if is_allowed_to_cache remote viper q.container
      then elim (first_config q.container.image log) [
        | some config ↦ (ok config, network)
        | none ↦ downloaded
      ]
      else downloaded

  -- The answers to calls one after the other, and the network that they leave.
  unfoldable pub answer_all_by_log :
      remote.Network
      → List Entry
      → List Query
      → List (Result WebhookError ImageConfig) × remote.Network
  answer_all_by_log network log [] = ([], network)
  answer_all_by_log network log (q ∷ queries) =
      let (answer, network') = answer_by_log network log q in
      let rest = answer_all_by_log network' (record { query = q; answer = answer } ∷ log) queries in
      (answer ∷ rest.0, rest.1)
