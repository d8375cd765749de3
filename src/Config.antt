-- ===== src/Config.antt =====
-- pkg/webhook/config.go: the options of a request, from the object's annotations and the
-- operator's settings.

pub mod Parse
pub mod Defaults
use vault_secrets_webhook.Base.{
  ℤ, pos, String, Bool, true, false, List, [], ◌||◌, ◌==◌, if◌then◌else◌,
}

-- `corev1.PullPolicy`
pub data PullPolicy : Type 0 where
  unset never always if_not_present : PullPolicy

-- `getPullPolicy`
unfoldable pub get_pull_policy : String → PullPolicy
get_pull_policy text =
    if text == "Never" || text == "never"
    then never
    else if text == "Always" || text == "always"
    then always
    else if text == "IfNotPresent" || text == "ifnotpresent"
    then if_not_present
    else if_not_present

-- A `resource.Quantity` is carried as the text that it is parsed from; the zero value has none.
abbrev pub Quantity : Type 0
Quantity = String

-- A `time.Duration`, in nanoseconds.
abbrev pub Duration : Type 0
Duration = ℤ

-- The fields of `VaultConfig` that parseVaultConfig sets first: where Vault is, and as whom.
pub record Connection : Type 0 where
  pub addr : String
  pub addr_from_object : Bool
  pub role : String
  pub auth_method : String
  pub path : String
  pub vault_service_account : String
  pub skip_verify : Bool
  pub tls_secret : String
  pub client_timeout : Duration

-- The fields set next: the agent and vault-env switches, and Consul Template.
pub record Template : Type 0 where
  pub use_agent : Bool
  pub vault_env_daemon : Bool
  pub vault_env_delay : Duration
  pub ct_config_map : String
  pub service_account_token_volume_name : String
  pub ct_image : String
  pub ignore_missing_secrets : String
  pub vault_env_passthrough : String
  pub configfile_path : String
  pub ct_image_pull_policy : PullPolicy
  pub ct_once : Bool
  pub ct_cpu : Quantity
  pub ct_memory : Quantity
  pub ct_share_process_default : String
  pub ct_share_process : Bool

-- Security contexts, registry, logging and transit.
pub record Security : Type 0 where
  pub psp_allow_privilege_escalation : Bool
  pub run_as_non_root : Bool
  pub run_as_user : ℤ
  pub run_as_group : ℤ
  pub read_only_root_filesystem : Bool
  pub registry_skip_verify : Bool
  pub log_level : String
  pub enable_json_log : String
  pub transit_key_id : String
  pub transit_path : String

-- The Vault Agent.
pub record Agent : Type 0 where
  pub agent_config_map : String
  pub agent_once : Bool
  pub agent_cpu_limit : Quantity
  pub agent_memory_limit : Quantity
  pub agent_cpu_request : Quantity
  pub agent_memory_request : Quantity
  pub agent_share_process_default : String
  pub agent_share_process : Bool
  pub vault_env_from_path : String
  pub token_auth_mount : String

-- The fields set last: images, resources of vault-env, and the rest.
pub record Images : Type 0 where
  pub env_image : String
  pub env_log_server : String
  pub env_image_pull_policy : PullPolicy
  pub agent_image : String
  pub agent_image_pull_policy : PullPolicy
  pub agent_env_variables : String
  pub vault_namespace : String
  pub ct_inject_in_initcontainers : Bool
  pub env_cpu_request : Quantity
  pub env_memory_request : Quantity
  pub env_cpu_limit : Quantity
  pub env_memory_limit : Quantity
  pub mutate_probes : Bool
  pub transit_batch_size : ℤ
  pub token : String

-- `VaultConfig`, its fields in the groups in which parseVaultConfig sets them.
pub record VaultConfig : Type 0 where
  pub object_namespace : String
  pub skip : Bool
  pub connection : Connection
  pub open connection use *
  pub template : Template
  pub open template use *
  pub security : Security
  pub open security use *
  pub agent : Agent
  pub open agent use *
  pub images : Images
  pub open images use *

-- The zero values of the groups.
abbrev zero_connection : Connection
zero_connection = record {
  addr = "";
  addr_from_object = false;
  role = "";
  auth_method = "";
  path = "";
  vault_service_account = "";
  skip_verify = false;
  tls_secret = "";
  client_timeout = pos 0;
}

abbrev zero_template : Template
zero_template = record {
  use_agent = false;
  vault_env_daemon = false;
  vault_env_delay = pos 0;
  ct_config_map = "";
  service_account_token_volume_name = "";
  ct_image = "";
  ignore_missing_secrets = "";
  vault_env_passthrough = "";
  configfile_path = "";
  ct_image_pull_policy = unset;
  ct_once = false;
  ct_cpu = "";
  ct_memory = "";
  ct_share_process_default = "";
  ct_share_process = false;
}

abbrev zero_security : Security
zero_security = record {
  psp_allow_privilege_escalation = false;
  run_as_non_root = false;
  run_as_user = pos 0;
  run_as_group = pos 0;
  read_only_root_filesystem = false;
  registry_skip_verify = false;
  log_level = "";
  enable_json_log = "";
  transit_key_id = "";
  transit_path = "";
}

abbrev zero_agent : Agent
zero_agent = record {
  agent_config_map = "";
  agent_once = false;
  agent_cpu_limit = "";
  agent_memory_limit = "";
  agent_cpu_request = "";
  agent_memory_request = "";
  agent_share_process_default = "";
  agent_share_process = false;
  vault_env_from_path = "";
  token_auth_mount = "";
}

abbrev zero_images : Images
zero_images = record {
  env_image = "";
  env_log_server = "";
  env_image_pull_policy = unset;
  agent_image = "";
  agent_image_pull_policy = unset;
  agent_env_variables = "";
  vault_namespace = "";
  ct_inject_in_initcontainers = false;
  env_cpu_request = "";
  env_memory_request = "";
  env_cpu_limit = "";
  env_memory_limit = "";
  mutate_probes = false;
  transit_batch_size = pos 0;
  token = "";
}

-- `VaultConfig{ObjectNamespace: ns}`
abbrev pub new_vault_config : String → VaultConfig
new_vault_config ns = record {
  object_namespace = ns;
  skip = false;
  connection = zero_connection;
  template = zero_template;
  security = zero_security;
  agent = zero_agent;
  images = zero_images;
}
