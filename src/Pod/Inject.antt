-- ===== src/Pod/Inject.antt =====
-- pkg/webhook/pod.go: the containers, volumes and the config map that the webhook adds.

pub mod Volumes
pub mod Account
use vault_secrets_webhook.Base.{
  ℤ, ℕ, String, ◌<>◌, Bool, true, false, not, Option, none, some, List, [], ◌∷◌, ◌++◌, ◌||◌, ◌&&◌,
  ◌==◌, map, is_empty, if◌then◌else◌, Result, ok, err, ◌>>=◌, is_positive, get_or_else, init,
}
use vault_secrets_webhook.Base.Text.{split, join, contains, format_bool}
use vault_secrets_webhook.Config.{VaultConfig, unset}
use vault_secrets_webhook.Kube.{
  EnvVar, env_var, VolumeMount, volume_mount, Resources, Capabilities, SecurityContext, Container,
  VolumeSource, empty_dir_memory, config_map, projected_secret, Volume, PodSecurityContext,
  OwnerReference, Pod, ConfigMap, WebhookError, panic,
}
use vault_secrets_webhook.Pod.Containers.{
  vault_env_volume_name, tls_mount_path, tls_volume_name, append_when,
}

-- `containerEnvVars` of MutatePod.
unfoldable pub container_env : VaultConfig → List Volume → List EnvVar
container_env c volumes =
    append_when
      (env_var "VAULT_ADDR" c.addr ∷ env_var "VAULT_SKIP_VERIFY" (format_bool c.skip_verify) ∷ [])
      ((not (c.token == ""), env_var "VAULT_TOKEN" c.token)
        ∷ (not (c.tls_secret == ""), env_var "VAULT_CACERT" (tls_mount_path volumes <> "ca.crt"))
        ∷ [])

-- `containerVolMounts` of MutatePod.
unfoldable pub container_mounts : VaultConfig → List Volume → List VolumeMount
container_mounts c volumes =
    volume_mount vault_env_volume_name "/vault/"
    ∷ (if not (c.tls_secret == "")
        then volume_mount (tls_volume_name volumes) (tls_mount_path volumes) ∷ []
        else [])

-- A mount more for each container.
abbrev pub add_mount : VolumeMount → Container → Container
add_mount mount container = record container {
  volume_mounts = container.volume_mounts ++ (mount ∷ []);
}

-- `addSecretsVolToContainers`
unfoldable pub add_secrets_vol_to_containers : VaultConfig → List Container → List Container
add_secrets_vol_to_containers c containers =
    map (add_mount (volume_mount "ct-secrets" c.configfile_path)) containers

-- `addAgentSecretsVolToContainers`
unfoldable pub add_agent_secrets_vol_to_containers : VaultConfig → List Container → List Container
add_agent_secrets_vol_to_containers c containers =
    map (add_mount (volume_mount "agent-secrets" c.configfile_path)) containers

-- `append` of these volumes under a test.
abbrev pub volumes_if : Bool → List Volume → List Volume
volumes_if test volumes = if test then volumes else []

abbrev config_file_item : List (String × String)
config_file_item = ("config.hcl", "config.hcl") ∷ []

abbrev pub volume : String → VolumeSource → Volume
volume name source = record { name = name; source = source }

-- `getVolumes`; the default mode 420 is 0644.
unfoldable pub get_volumes : List Volume → String → VaultConfig → List Volume
get_volumes existing agent_config_map_name c =
    volume vault_env_volume_name empty_dir_memory
    ∷ (volumes_if (c.use_agent || not (c.ct_config_map == ""))
          (volume "vault-agent-config" (config_map agent_config_map_name none []) ∷ [])
        ++ (volumes_if (not (c.tls_secret == "")) (
              volume (tls_volume_name existing)
                (projected_secret c.tls_secret (("ca.crt", "ca.crt") ∷ []))
              ∷ [])
            ++ (volumes_if (not (c.ct_config_map == "")) (
                  volume "ct-secrets" empty_dir_memory
                  ∷ volume "ct-configmap" (config_map c.ct_config_map (some 420) config_file_item)
                  ∷ [])
                ++ volumes_if (not (c.agent_config_map == "")) (
                    volume "agent-secrets" empty_dir_memory
                    ∷ volume "agent-configmap"
                        (config_map c.agent_config_map (some 420) config_file_item)
                    ∷ []))))

-- The zero value of a mount.
abbrev no_mount : VolumeMount
no_mount = volume_mount "" ""

mount_at : String → List VolumeMount → Option VolumeMount
mount_at path [] = none
mount_at path (mount ∷ mounts) =
    let rest = mount_at path mounts in if mount.mount_path == path then some mount else rest

first_mount_at : String → List Container → Option VolumeMount
unfolding mount_at
first_mount_at path [] = none
first_mount_at path (container ∷ containers) =
    let rest = first_mount_at path containers in
    elim (mount_at path container.volume_mounts) [ none ↦ rest | some mount ↦ some mount ]

-- `getServiceAccountMount`: the first mount at the token's path, or the zero value.
unfoldable pub get_service_account_mount : List Container → VaultConfig → VolumeMount
unfolding first_mount_at
get_service_account_mount containers c =
    get_or_else (first_mount_at c.service_account_token_volume_name containers) no_mount

-- `getBaseSecurityContext`
unfoldable pub get_base_security_context : Option PodSecurityContext → VaultConfig → SecurityContext
get_base_security_context pod c = record {
  allow_privilege_escalation = some c.psp_allow_privilege_escalation;
  read_only_root_filesystem = some c.read_only_root_filesystem;
  capabilities = record { add = []; drop = "ALL" ∷ [] };
  run_as_user =
      if is_positive c.run_as_user
      then some c.run_as_user
      else elim pod [ none ↦ none | some context ↦ context.run_as_user ];
  run_as_group = if is_positive c.run_as_group then some c.run_as_group else none;
  run_as_non_root = if c.run_as_non_root then some true else none;
}

-- `securityContext.Capabilities.Add = add`
abbrev pub with_added : List String → SecurityContext → SecurityContext
with_added add context = record context { capabilities = record context.capabilities { add = add } }

-- What the Vault Agent may do.
abbrev pub agent_capabilities : List String
agent_capabilities = "CHOWN" ∷ "SETFCAP" ∷ "SETGID" ∷ "SETPCAP" ∷ "SETUID" ∷ "IPC_LOCK" ∷ []

abbrev pub cpu_and_memory : String → String → List (String × String)
cpu_and_memory cpu memory = ("cpu", cpu) ∷ ("memory", memory) ∷ []

-- The fields of a new container that the webhook sets; the others have their zero values.
abbrev pub new_container : String → String → SecurityContext → Resources → Container
new_container name image context resources = record {
  name = name;
  image = image;
  image_pull_policy = unset;
  command = [];
  args = [];
  env = [];
  env_from = [];
  volume_mounts = [];
  liveness_probe = none;
  readiness_probe = none;
  startup_probe = none;
  security_context = some context;
  resources = resources;
}
