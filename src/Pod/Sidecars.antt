-- ===== src/Pod/Sidecars.antt =====
-- pkg/webhook/pod.go: getInitContainers, getContainers, getAgentContainers and
-- getConfigMapForVaultAgent.
pub mod Confined
pub mod Backed
pub mod Token
pub mod Owner
use Prim.Native.Char.{Char}
use vault_secrets_webhook.Base.{
  String, ◌<>◌, Bool, true, false, not, Option, none, some, List, [], ◌∷◌, ◌++◌, ◌||◌, ◌&&◌, ◌==◌,
  if◌then◌else◌, Result, ok, err, ◌>>=◌, get_or_else, init,
}
use vault_secrets_webhook.Base.Text.{split, join, contains}
use vault_secrets_webhook.Config.{VaultConfig}
use vault_secrets_webhook.Kube.{
  EnvVar, VolumeMount, volume_mount, Container, PodSecurityContext, OwnerReference, Pod, ConfigMap,
  WebhookError, panic,
}
use vault_secrets_webhook.Pod.Containers.{vault_env_volume_name}
use vault_secrets_webhook.Pod.Inject.{
  get_service_account_mount, get_base_security_context, with_added, agent_capabilities,
  cpu_and_memory, new_container,
}

-- A mount of a file, read only.
abbrev file_mount : String → String → String → VolumeMount
file_mount name path sub_path = record {
  name = name;
  read_only = true;
  mount_path = path;
  sub_path = sub_path;
}

-- The container that copies the token from the volume and the file named.
unfoldable pub token_container :
    Option PodSecurityContext → VaultConfig → String → String → Container
token_container context c mount_name token_name =
    record (new_container "copy-vault-token" c.agent_image (get_base_security_context context c)
      (record { limits = cpu_and_memory "50m" "64Mi"; requests = [] })) {
        image_pull_policy = c.agent_image_pull_policy;
        command = "sh" ∷ "-c" ∷ ("cp " <> "/token/" <> token_name <> " /vault/.vault-token") ∷ [];
        volume_mounts =
            volume_mount vault_env_volume_name "/vault/" ∷ volume_mount mount_name "/token" ∷ [];
      }

-- That container, from the option's text; `split[1]` panics where there is no colon.
unfoldable pub copy_vault_token :
    Option PodSecurityContext → VaultConfig → Result WebhookError Container
copy_vault_token context c = elim (split c.token_auth_mount ":") [
  | [] ↦ err (panic "index out of range")
  | mount_name ∷ more ↦ elim more [
    | [] ↦ err (panic "index out of range")
    | token_name ∷ _ ↦ ok (token_container context c mount_name token_name)
  ]
]

-- The Vault Agent as an init container.
unfoldable pub vault_agent_init :
    List Container
    → Option PodSecurityContext
    → VaultConfig
    → List EnvVar
    → List VolumeMount
    → Container
vault_agent_init originals context c env mounts =
    record (new_container "vault-agent" c.agent_image
      (with_added agent_capabilities (get_base_security_context context c))
      (record {
        limits = cpu_and_memory c.env_cpu_limit c.env_memory_limit;
        requests = cpu_and_memory c.env_cpu_request c.env_memory_request;
      })) {
        image_pull_policy = c.agent_image_pull_policy;
        command = "vault" ∷ "agent" ∷ "-config=/vault/agent/config.hcl" ∷ "-exit-after-auth" ∷ [];
        env = env;
        volume_mounts =
            mounts
            ++ (get_service_account_mount originals c
                ∷ volume_mount "vault-agent-config" "/vault/agent/"
                ∷ (if c.ct_config_map == ""
                    then volume_mount "agent-secrets" c.configfile_path ∷ []
                    else []));
      }

-- The container that copies vault-env.
unfoldable pub copy_vault_env : Option PodSecurityContext → VaultConfig → Container
copy_vault_env context c =
    record (new_container "copy-vault-env" c.env_image (get_base_security_context context c)
      (record {
        limits = cpu_and_memory c.env_cpu_limit c.env_memory_limit;
        requests = cpu_and_memory c.env_cpu_request c.env_memory_request;
      })) {
        image_pull_policy = c.env_image_pull_policy;
        command = "sh" ∷ "-c" ∷ "cp /usr/local/bin/vault-env /vault/" ∷ [];
        volume_mounts = volume_mount vault_env_volume_name "/vault/" ∷ [];
      }

-- The part of getInitContainers before copy-vault-env.
token_containers :
    List Container
    → Option PodSecurityContext
    → VaultConfig
    → List EnvVar
    → List VolumeMount
    → Result WebhookError (List Container)
token_containers originals context c env mounts =
    if not (c.token_auth_mount == "")
    then (copy_vault_token context c >>= λ container. ok (container ∷ []))
    else if c.token == "" && (c.use_agent || not (c.ct_config_map == ""))
    then ok (vault_agent_init originals context c env mounts ∷ [])
    else ok []

-- `getInitContainers`; `mutated` is `initContainersMutated || containersMutated`.
unfoldable pub get_init_containers :
    List Container
    → Option PodSecurityContext
    → VaultConfig
    → Bool
    → List EnvVar
    → List VolumeMount
    → Result WebhookError (List Container)
unfolding token_containers
get_init_containers originals context c mutated env mounts =
    token_containers originals context c env mounts >>= λ first.
    ok (if mutated then first ++ (copy_vault_env context c ∷ []) else first)

-- `getContainers`
unfoldable pub get_containers :
    Option PodSecurityContext → VaultConfig → List EnvVar → List VolumeMount → List Container
get_containers context c env mounts =
    record (new_container "consul-template" c.ct_image
      (with_added (if c.ct_share_process then "SYS_PTRACE" ∷ [] else [])
        (get_base_security_context context c))
      (record { limits = cpu_and_memory c.ct_cpu c.ct_memory; requests = [] })) {
        image_pull_policy = c.ct_image_pull_policy;
        args = "-config" ∷ "/vault/ct-config/config.hcl" ∷ (if c.ct_once then "-once" ∷ [] else []);
        env = env;
        volume_mounts =
            mounts
            ++ (volume_mount "ct-secrets" c.configfile_path
                ∷ volume_mount vault_env_volume_name "/home/consul-template"
                ∷ file_mount "ct-configmap" "/vault/ct-config/config.hcl" "config.hcl"
                ∷ []);
      }
    ∷ []

-- `getAgentContainers`; `unmarshal` is `json.Unmarshal` into variables, where none is an error.
unfoldable pub get_agent_containers :
    (String → Option (List EnvVar))
    → List Container
    → Option PodSecurityContext
    → VaultConfig
    → List EnvVar
    → List VolumeMount
    → List Container
get_agent_containers unmarshal originals context c env mounts =
    record (new_container "vault-agent" c.agent_image
      (with_added (agent_capabilities ++ (if c.agent_share_process then "SYS_PTRACE" ∷ [] else []))
        (get_base_security_context context c))
      (record {
        limits = cpu_and_memory c.agent_cpu_limit c.agent_memory_limit;
        requests = cpu_and_memory c.agent_cpu_request c.agent_memory_request;
      })) {
        image_pull_policy = c.agent_image_pull_policy;
        args =
            "agent"
            ∷ "-config"
            ∷ "/vault/config/config.hcl"
            ∷ (if c.agent_once then "-exit-after-auth" ∷ [] else []);
        env =
            if not (c.agent_env_variables == "")
            then env ++ get_or_else (unmarshal c.agent_env_variables) []
            else env;
        volume_mounts =
            mounts
            ++ (get_service_account_mount originals c
                ∷ volume_mount "agent-secrets" c.configfile_path
                ∷ file_mount "agent-configmap" "/vault/config/config.hcl" "config.hcl"
                ∷ []);
      }
    ∷ []

-- `vaultAgentConfig` with its three places filled.
vault_agent_config : String → String → String → String
vault_agent_config namespace path role =
    "\npid_file = \"/tmp/pidfile\"\n\nauto_auth {\n        method \"kubernetes\" {\n                namespace = \""
    <> namespace <> "\"\n                mount_path = \"auth/" <> path
    <> "\"\n                config = {\n                        role = \"" <> role
    <> "\"\n                }\n        }\n\n        sink \"file\" {\n                config = {\n                        path = \"/vault/.vault-token\"\n                }\n        }\n}"

-- The pod's name, or else what is left of its first owner's name without the last part.
owner_name : Pod → String
owner_name pod =
    if pod.name == ""
    then elim pod.owner_references [
      | [] ↦ ""
      | owner ∷ _ ↦
          if contains owner.name "-" then join (init (split owner.name "-")) "-" else owner.name
    ]
    else pod.name

-- `getConfigMapForVaultAgent`
unfoldable pub get_config_map_for_vault_agent : Pod → VaultConfig → ConfigMap
unfolding vault_agent_config owner_name
get_config_map_for_vault_agent pod c = record {
  name = owner_name pod <> "-vault-agent-config";
  owner_references = pod.owner_references;
  entries = ("config.hcl", vault_agent_config c.vault_namespace c.path c.role) ∷ [];
  binary_entries = [];
}
