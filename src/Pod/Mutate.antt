-- ===== src/Pod/Mutate.antt =====
-- pkg/webhook/pod.go: MutatePod.
pub mod Repeat
pub mod DryRun
pub mod Origin
pub mod Added
pub mod Accounted
pub mod Mounts
pub mod Mounted
use vault_secrets_webhook.Base.{
  ℤ, pos, negsuc, String, Bool, true, false, not, Option, none, some, List, [], ◌∷◌, ◌++◌, ◌||◌,
  ◌&&◌, ◌==◌, if◌then◌else◌, Result, ok, err, ◌>>=◌,
}
use vault_secrets_webhook.Config.{VaultConfig, Duration}
use vault_secrets_webhook.Kube.{
  EnvVar, VolumeMount, Container, Volume, has_volume, PodSpec, Pod, Kube, ImageRegistry,
  is_already_exists, WebhookError, failed_to_create, failed_to_update, panic,
}
use vault_secrets_webhook.Pod.Containers.{vault_env_volume_name, mutate_containers}
use vault_secrets_webhook.Pod.Inject.{
  container_env, container_mounts, add_secrets_vol_to_containers,
  add_agent_secrets_vol_to_containers, get_volumes,
}
use vault_secrets_webhook.Pod.Sidecars.{
  get_init_containers, get_containers, get_agent_containers, get_config_map_for_vault_agent,
}

-- `isPodAlreadyMutated`
abbrev pub is_pod_already_mutated : PodSpec → Bool
is_pod_already_mutated spec = has_volume vault_env_volume_name spec.volumes

-- What the mutation of pods calls of other packages: the SDK's `HasInlineVaultDelimiters`,
-- `time.Duration.String`, `json.Unmarshal` into variables (none is an error) and
-- `CompareKubeAwareVersionStrings`.
pub record Runtime : Type 0 where
  pub has_inline : String → Bool
  pub show_duration : Duration → String
  pub unmarshal_env : String → Option (List EnvVar)
  pub compare_versions : String → String → ℤ

abbrev is_non_negative : ℤ → Bool
is_non_negative (pos _) = true
is_non_negative (negsuc _) = false

module _ (kube : Kube) (registry : ImageRegistry) (runtime : Runtime) where
  -- The state that a call of MutatePod works on, beside the pod.
  pub record Machine : Type 0 where
    pub cluster : kube.Cluster
    pub cache : registry.Cache

  -- Whether the processes of the pod share a namespace, with the default that asks the API for its
  -- version. The version is nil where the request fails, and reading it panics.
  decide_share_process : kube.Cluster → String → Bool → Result WebhookError Bool
  decide_share_process cluster share_default share =
      if share_default == "empty"
      then elim (kube.server_version cluster) [
        | none ↦ err (panic "nil pointer dereference")
        | some version ↦ ok (is_non_negative (runtime.compare_versions "v1.12.0" version))
      ]
      else ok share

  -- `ShareProcessNamespace` set under a test.
  abbrev share_namespace : Bool → PodSpec → PodSpec
  share_namespace share spec = record spec {
    share_process_namespace = if share then some true else spec.share_process_namespace;
  }

  -- Consul Template's container and its volume mounts, for the options with the decision made.
  place_template : VaultConfig → List EnvVar → List VolumeMount → PodSpec → PodSpec
  place_template c env mounts spec =
      let sidecar = get_containers spec.security_context c env mounts in
      let mounted = add_secrets_vol_to_containers c spec.containers in
      if not c.ct_once then record spec { containers = sidecar ++ mounted } else record spec {
        containers = mounted;
        init_containers =
            sidecar
            ++ (if c.ct_inject_in_initcontainers
                then add_secrets_vol_to_containers c spec.init_containers
                else spec.init_containers);
      }

  -- MutatePod where a config map for Consul Template is named.
  inject_template :
      kube.Cluster
      → VaultConfig
      → List EnvVar
      → List VolumeMount
      → PodSpec
      → Result WebhookError PodSpec
  unfolding decide_share_process place_template
  inject_template cluster c env mounts spec =
      if not (c.ct_config_map == "")
      then (decide_share_process cluster c.ct_share_process_default c.ct_share_process >>= λ share.
          let decided : VaultConfig = record c {
            template = record c.template { ct_share_process = share };
          } in
          ok (place_template decided env mounts (share_namespace share spec)))
      else ok spec

  -- Creates the agent's config map, or updates the one that is there.
  write_config_map :
      kube.Cluster → Pod → VaultConfig → Result WebhookError (Unit {0}) × kube.Cluster
  write_config_map cluster pod c =
      let config_map = get_config_map_for_vault_agent pod c in
      let (created, failure) = kube.create_config_map cluster c.object_namespace config_map in
      elim failure [
        | none ↦ (ok tt, created)
        | some e ↦
            if is_already_exists e
            then (let (updated, failure') =
                  kube.update_config_map created c.object_namespace config_map in
                elim failure' [
                  | none ↦ (ok tt, updated)
                  | some e' ↦ (err (failed_to_update e'), updated)
                ])
            else (err (failed_to_create e), created)
      ]

  -- The name of the agent's config map; it is written unless this is a dry run.
  ensure_config_map :
      kube.Cluster → Pod → VaultConfig → Bool → Result WebhookError String × kube.Cluster
  unfolding write_config_map
  ensure_config_map cluster pod c dry_run =
      if c.use_agent || not (c.ct_config_map == "")
      then if not (c.agent_config_map == "")
        then (ok c.agent_config_map, cluster)
        else if dry_run
        then (ok (get_config_map_for_vault_agent pod c).name, cluster)
        else (let (written, cluster') = write_config_map cluster pod c in
            (written >>= λ _. ok (get_config_map_for_vault_agent pod c).name, cluster'))
      else (ok "", cluster)

  -- The init containers and the volumes, at the end of MutatePod's second part.
  place_init :
      VaultConfig
      → Bool
      → List EnvVar
      → List VolumeMount
      → PodSpec
      → String
      → Result WebhookError PodSpec
  place_init c mutated env mounts spec config_map_name =
      get_init_containers spec.containers spec.security_context c mutated env mounts >>= λ added.
      ok (record spec {
        init_containers = added ++ spec.init_containers;
        volumes = spec.volumes ++ get_volumes spec.volumes config_map_name c;
      })

  -- MutatePod where anything is to be injected: the config map, init containers and volumes.
  inject_init :
      kube.Cluster
      → Pod
      → VaultConfig
      → Bool
      → Bool
      → List EnvVar
      → List VolumeMount
      → PodSpec
      → Result WebhookError PodSpec × kube.Cluster
  unfolding ensure_config_map place_init
  inject_init cluster pod c dry_run mutated env mounts spec =
      if mutated || not (c.ct_config_map == "") || not (c.agent_config_map == "")
      then (let (name, cluster') = ensure_config_map cluster pod c dry_run in
          (
            name >>= λ config_map_name. place_init c mutated env mounts spec config_map_name,
            cluster',
          ))
      else (ok spec, cluster)

  -- The Vault Agent's container, for the options with the decision made.
  place_agent : VaultConfig → List EnvVar → List VolumeMount → PodSpec → PodSpec
  place_agent c env mounts spec = record spec {
    containers =
        get_agent_containers runtime.unmarshal_env spec.containers spec.security_context c env
          mounts
        ++ spec.containers;
  }

  -- The last part of MutatePod: the Vault Agent.
  inject_agent :
      kube.Cluster
      → VaultConfig
      → List EnvVar
      → List VolumeMount
      → PodSpec
      → Result WebhookError PodSpec
  unfolding decide_share_process place_agent
  inject_agent cluster c env mounts spec =
      if not (c.agent_config_map == "")
      then (let mounted : PodSpec = record spec {
        containers = add_agent_secrets_vol_to_containers c spec.containers;
      } in
          if c.use_agent
          then ok mounted
          else (decide_share_process cluster c.agent_share_process_default c.agent_share_process
              >>= λ share.
                  let decided : VaultConfig = record c {
                    agent = record c.agent { agent_share_process = share };
                  } in
                  ok (place_agent decided env mounts (share_namespace share mounted))))
      else ok spec

  -- MutatePod once the pod's containers are mutated.
  inject :
      kube.Cluster
      → Pod
      → VaultConfig
      → Bool
      → Bool
      → PodSpec
      → Result WebhookError PodSpec × kube.Cluster
  unfolding inject_template inject_init inject_agent
  inject cluster pod c dry_run mutated spec =
      let env = container_env c spec.volumes in
      let mounts = container_mounts c spec.volumes in
      elim (inject_template cluster c env mounts spec) [
        | err e ↦ (err e, cluster)
        | ok templated ↦
            let (placed, cluster') =
              inject_init cluster pod c dry_run mutated env mounts templated in
            (placed >>= λ ready. inject_agent cluster' c env mounts ready, cluster')
      ]

  -- The pod's containers, init containers first.
  mutate_all_containers :
      Machine → VaultConfig → PodSpec → Result WebhookError (Bool × PodSpec) × registry.Cache
  mutate_all_containers m c spec =
      let (first, cache') =
        mutate_containers kube registry runtime.has_inline runtime.show_duration m.cluster m.cache c
          spec spec.init_containers in
      elim first [
        | err e ↦ (err e, cache')
        | ok (init_mutated, inits) ↦
            let spec' : PodSpec = record spec { init_containers = inits } in
            let (second, cache'') =
              mutate_containers kube registry runtime.has_inline runtime.show_duration m.cluster
                cache' c spec' spec.containers in
            (
              second >>= λ (mutated, containers).
                  ok (init_mutated || mutated, record spec' { containers = containers }),
              cache'',
            )
      ]

  -- `MutatePod`: the pod's new specification or the error, and the state left behind. The caller
  -- drops the pod with an error, so what such a call has changed in it is not kept.
  unfoldable pub mutate_pod :
      Machine → Pod → VaultConfig → Bool → Result WebhookError PodSpec × Machine
  unfolding mutate_all_containers inject
  mutate_pod m pod c dry_run =
      if is_pod_already_mutated pod.spec
      then (ok pod.spec, m)
      else (let (containers, cache') = mutate_all_containers m c pod.spec in
          elim containers [
            | err e ↦ (err e, record m { cache = cache' })
            | ok (mutated, spec) ↦
                let (injected, cluster') = inject m.cluster pod c dry_run mutated spec in
                (injected, record { cluster = cluster'; cache = cache' })
          ])
