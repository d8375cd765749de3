-- ===== src/Pod/Containers.antt =====
-- pkg/webhook/pod.go: mutateContainers.

pub mod Loop
pub mod Kept
pub mod Env
pub mod Found
use vault_secrets_webhook.Base.{
  ℕ, String, ◌<>◌, Bool, true, false, not, Option, none, some, List, [], ◌∷◌, ◌++◌, ◌||◌, ◌&&◌,
  ◌==◌, any, is_empty, if◌then◌else◌, Result, ok, err, ◌>>=◌, wrap, is_positive, itoa,
}
use vault_secrets_webhook.Base.Text.{format_bool}
use vault_secrets_webhook.Config.{VaultConfig, Duration}
use vault_secrets_webhook.Kube.{
  EnvVar, env_var, VolumeMount, volume_mount, Probe, Container, Volume, has_volume, PodSpec, Kube,
  ImageRegistry, ImageConfig, WebhookError, api,
}
use vault_secrets_webhook.Pod.Lookup.{refers_to_vault, look_for_env_from, look_for_value_from}

-- `VaultEnvVolumeName`
abbrev pub vault_env_volume_name : String
vault_env_volume_name = "vault-env"

-- `hasTLSVolume`
abbrev pub has_tls_volume : List Volume → Bool
has_tls_volume volumes = has_volume "vault-tls" volumes

-- The mount path and the volume for Vault's certificate, beside the pod's own volumes.
abbrev pub tls_mount_path : List Volume → String
tls_mount_path volumes = if has_tls_volume volumes then "/vault-env/tls/" else "/vault/tls/"

abbrev pub tls_volume_name : List Volume → String
tls_volume_name volumes = if has_tls_volume volumes then "vault-env-tls" else "vault-tls"

-- `isLogLevelSet`
unfoldable pub is_log_level_set : List EnvVar → Bool
is_log_level_set env_vars = any (λ v. v.name == "VAULT_LOG_LEVEL") env_vars

-- `env = append(env, v)` under each test in turn.
unfoldable pub append_when : List EnvVar → List (Bool × EnvVar) → List EnvVar
append_when env [] = env
append_when env ((test, v) ∷ rest) = append_when (if test then env ++ (v ∷ []) else env) rest

-- The variables that every mutated container gets; `show` is `time.Duration.String`.
unfoldable pub base_env : (Duration → String) → VaultConfig → List EnvVar
base_env show c =
    env_var "VAULT_ADDR" c.addr
    ∷ env_var "VAULT_SKIP_VERIFY" (format_bool c.skip_verify)
    ∷ env_var "VAULT_AUTH_METHOD" c.auth_method
    ∷ env_var "VAULT_PATH" c.path
    ∷ env_var "VAULT_ROLE" c.role
    ∷ env_var "VAULT_IGNORE_MISSING_SECRETS" c.ignore_missing_secrets
    ∷ env_var "VAULT_ENV_PASSTHROUGH" c.vault_env_passthrough
    ∷ env_var "VAULT_JSON_LOG" c.enable_json_log
    ∷ env_var "VAULT_CLIENT_TIMEOUT" (show c.client_timeout)
    ∷ []

-- The variables after the log level, each with its test.
unfoldable pub optional_env : (Duration → String) → VaultConfig → List Volume → List (Bool × EnvVar)
optional_env show c volumes =
    (not (c.transit_key_id == ""), env_var "VAULT_TRANSIT_KEY_ID" c.transit_key_id)
    ∷ (not (c.transit_path == ""), env_var "VAULT_TRANSIT_PATH" c.transit_path)
    ∷ (
      is_positive c.transit_batch_size,
      env_var "VAULT_TRANSIT_BATCH_SIZE" (itoa c.transit_batch_size),
    )
    ∷ (not (c.vault_namespace == ""), env_var "VAULT_NAMESPACE" c.vault_namespace)
    ∷ (not (c.tls_secret == ""), env_var "VAULT_CACERT" (tls_mount_path volumes <> "ca.crt"))
    ∷ (
      c.use_agent || not (c.token_auth_mount == ""),
      env_var "VAULT_TOKEN_FILE" "/vault/.vault-token",
    )
    ∷ (c.vault_env_daemon, env_var "VAULT_ENV_DAEMON" "true")
    ∷ (is_positive c.vault_env_delay, env_var "VAULT_ENV_DELAY" (show c.vault_env_delay))
    ∷ (not (c.vault_env_from_path == ""), env_var "VAULT_ENV_FROM_PATH" c.vault_env_from_path)
    ∷ (not (c.env_log_server == ""), env_var "VAULT_ENV_LOG_SERVER" c.env_log_server)
    ∷ []

-- The environment of a mutated container, from the container's own.
unfoldable pub mutated_env :
    (Duration → String) → VaultConfig → List Volume → List EnvVar → List EnvVar
mutated_env show c volumes env =
    let with_token =
      append_when (env ++ base_env show c)
        ((not (c.token == ""), env_var "VAULT_TOKEN" c.token) ∷ []) in
    let log_level : Bool × EnvVar = (
      not (is_log_level_set with_token) && not (c.log_level == ""),
      env_var "VAULT_LOG_LEVEL" c.log_level,
    ) in
    append_when with_token (log_level ∷ optional_env show c volumes)

-- The volume mounts of a mutated container.
unfoldable pub mutated_mounts : VaultConfig → List Volume → List VolumeMount → List VolumeMount
mutated_mounts c volumes mounts =
    let with_env = mounts ++ (volume_mount vault_env_volume_name "/vault/" ∷ []) in
    if not (c.tls_secret == "")
    then with_env ++ (volume_mount (tls_volume_name volumes) (tls_mount_path volumes) ∷ [])
    else with_env

-- A probe's command runs under vault-env too.
unfoldable pub mutate_probe : Option Probe → Option Probe
mutate_probe none = none
mutate_probe (some probe) = elim probe.exec [
  | none ↦ some probe
  | some command ↦ some (record { exec = some ("/vault/vault-env" ∷ command) })
]

-- A container that refers to Vault, with the arguments that vault-env gets.
unfoldable pub mutate_container :
    (Duration → String) → VaultConfig → List Volume → List String → Container → Container
mutate_container show c volumes args container = record container {
  command = "/vault/vault-env" ∷ [];
  args = args;
  liveness_probe =
      if c.mutate_probes then mutate_probe container.liveness_probe else container.liveness_probe;
  readiness_probe =
      if c.mutate_probes then mutate_probe container.readiness_probe else container.readiness_probe;
  startup_probe =
      if c.mutate_probes then mutate_probe container.startup_probe else container.startup_probe;
  volume_mounts = mutated_mounts c volumes container.volume_mounts;
  env = mutated_env show c volumes container.env;
}

-- Puts the container, or what it has become, before the rest of the loop's result.
abbrev pub keep_or_replace :
    Option Container → Container → Bool × List Container → Bool × List Container
keep_or_replace none container (mutated, rest) = (mutated, container ∷ rest)
keep_or_replace (some new) container (mutated, rest) = (true, new ∷ rest)

module _ (kube : Kube) (registry : ImageRegistry) (has_inline : String → Bool)
    (show : Duration → String) where
  -- The variables of one entry of `container.Env` that refer to Vault.
  env_of : kube.Cluster → String → EnvVar → Result WebhookError (List EnvVar)
  env_of cluster ns env =
      let own = if refers_to_vault kube has_inline env.value then env ∷ [] else [] in
      elim env.value_from [
        | none ↦ ok own
        | some source ↦ do
          found ← wrap api (look_for_value_from kube has_inline cluster env source ns)
          elim found [ none ↦ ok own | some v ↦ ok (own ++ (v ∷ [])) ]
      ]

  -- The loop over `container.Env`.
  own_vars : kube.Cluster → String → List EnvVar → Result WebhookError (List EnvVar)
  unfolding env_of
  own_vars cluster ns [] = ok []
  own_vars cluster ns (env ∷ envs) = do
    vars ← env_of cluster ns env
    rest ← own_vars cluster ns envs
    ok (vars ++ rest)

  -- `envVars`: what the container takes from Vault.
  unfoldable pub vault_vars : kube.Cluster → String → Container → Result WebhookError (List EnvVar)
  unfolding own_vars
  vault_vars cluster ns container = do
    from ← wrap api (look_for_env_from kube has_inline cluster container.env_from ns)
    own ← own_vars cluster ns container.env
    ok (from ++ own)

  -- The command line of a container with this command, which is its own.
  line_for :
      registry.Cache
      → VaultConfig
      → PodSpec
      → Container
      → List String
      → Result WebhookError (List String) × registry.Cache
  line_for cache c spec container [] =
      let (found, cache') =
        registry.get_image_config cache c.object_namespace c.registry_skip_verify container spec in
      (
        found >>= λ image. ok (
            (image.entrypoint ++ (if is_empty container.args then image.cmd else []))
            ++ container.args),
        cache',
      )
  line_for cache c spec container (word ∷ words) = (ok ((word ∷ words) ++ container.args), cache)

  -- The command line that vault-env runs: the container's own, or the image's.
  unfoldable pub command_line :
      registry.Cache
      → VaultConfig
      → PodSpec
      → Container
      → Result WebhookError (List String) × registry.Cache
  unfolding line_for
  command_line cache c spec container = line_for cache c spec container container.command

  -- The body of the loop once the variables are found; none is `continue`.
  step_with :
      registry.Cache
      → VaultConfig
      → PodSpec
      → Container
      → List EnvVar
      → Result WebhookError (Option Container) × registry.Cache
  step_with cache c spec container vars =
      if is_empty vars && c.vault_env_from_path == ""
      then (ok none, cache)
      else (let (line, cache') = command_line cache c spec container in
          (
            line >>= λ args. ok (some (mutate_container show c spec.volumes args container)),
            cache',
          ))

  -- The body of the loop for one container; none is `continue`.
  unfoldable pub step_container :
      kube.Cluster
      → registry.Cache
      → VaultConfig
      → PodSpec
      → Container
      → Result WebhookError (Option Container) × registry.Cache
  unfolding step_with
  step_container cluster cache c spec container =
      elim (vault_vars cluster c.object_namespace container) [
        | err e ↦ (err e, cache)
        | ok vars ↦ step_with cache c spec container vars
      ]

  -- `mutateContainers`: whether a container was mutated, and the containers.
  unfoldable pub mutate_containers :
      kube.Cluster
      → registry.Cache
      → VaultConfig
      → PodSpec
      → List Container
      → Result WebhookError (Bool × List Container) × registry.Cache
  mutate_containers cluster cache c spec [] = (ok (false, []), cache)
  mutate_containers cluster cache c spec (container ∷ containers) =
      let (step, cache') = step_container cluster cache c spec container in
      elim step [
        | err e ↦ (err e, cache')
        | ok next ↦
            let (rest, cache'') = mutate_containers cluster cache' c spec containers in
            (rest >>= λ done. ok (keep_or_replace next container done), cache'')
      ]
