-- ===== src/Config/Parse.antt =====
-- pkg/webhook/config.go: parseVaultConfig, and vaultAddrPolicy of pkg/webhook/webhook.go.

pub mod Trust
pub mod Operator
pub mod Range
use vault_secrets_webhook.Base.{
  ℕ, ℤ, pos, String, Bool, true, false, Option, none, some, List, [], ◌∷◌, ◌++◌, ◌==◌, not, Assoc,
  lookup, if◌then◌else◌, get_or_else, is_some, Result, ok, err, ◌>>=◌,
}
use vault_secrets_webhook.Base.Int.Parse.{parse_int}
use vault_secrets_webhook.Base.Text.{parse_bool}
use vault_secrets_webhook.Common.Annotations
use vault_secrets_webhook.Common.Policy.{Viper, split_and_trim, resolve_object_skip_verify}
use vault_secrets_webhook.Common.Addr.{Net, AddrPolicy, AddrError, validate_object_addr}
use vault_secrets_webhook.Config.{
  VaultConfig, Connection, Template, Security, Agent, Images, Duration, Quantity, get_pull_policy,
  new_vault_config, zero_connection,
}

-- What parseVaultConfig calls of other packages: `time.ParseDuration` (the value that the caller
-- keeps, whatever the error), and whether a text is a `resource.Quantity`.
pub record Parsers : Type 0 where
  pub parse_duration : String → Duration
  pub is_quantity : String → Bool

-- The object under admission, as far as parseVaultConfig reads it: its annotations, and the
-- service account if it is a Pod.
pub record Subject : Type 0 where
  pub annotations : Assoc String
  pub service_account : Option String

-- `vaultAddrPolicy`
unfoldable pub vault_addr_policy : Viper → AddrPolicy
vault_addr_policy viper =
    let listed = split_and_trim (viper.get_string "vault_addr_allowlist") in
    let addr = viper.get_string "vault_addr" in
    record {
      allowlist = if addr == "" then listed else listed ++ (addr ∷ []);
      allow_private = viper.get_bool "vault_allow_private_addr";
    }

module _ (net : Net) (parsers : Parsers) (viper : Viper) (subject : Subject) where
  -- `if val, ok := annotations[key]; ok { … = val } else { … = fallback }`
  annotation_or : String → String → String
  annotation_or key fallback = get_or_else (lookup key subject.annotations) fallback

  -- `if val, err := resource.ParseQuantity(text); err == nil { … = val } else { … = fallback }`
  quantity_or : String → Quantity → Quantity
  quantity_or text fallback = if parsers.is_quantity text then text else fallback

  -- The role when no annotation names one.
  default_role : String
  default_role =
      if not (viper.get_string "vault_role" == "")
      then viper.get_string "vault_role"
      else get_or_else subject.service_account "default"

  -- The fields of the first group, from the annotations and the settings.
  connection_of : Connection
  unfolding annotation_or default_role
  connection_of = record {
    addr = annotation_or Annotations.vault_addr_annotation (viper.get_string "vault_addr");
    addr_from_object = is_some (lookup Annotations.vault_addr_annotation subject.annotations);
    role = annotation_or Annotations.vault_role_annotation default_role;
    auth_method =
        annotation_or Annotations.vault_auth_method_annotation
          (viper.get_string "vault_auth_method");
    path = annotation_or Annotations.vault_path_annotation (viper.get_string "vault_path");
    vault_service_account =
        annotation_or Annotations.vault_serviceaccount_annotation
          (viper.get_string "vault_serviceaccount");
    skip_verify = elim (lookup Annotations.vault_skip_verify_annotation subject.annotations) [
      | some val ↦
          resolve_object_skip_verify viper val "vault_allow_object_skip_verify" "vault_skip_verify"
      | none ↦ viper.get_bool "vault_skip_verify"
    ];
    tls_secret =
        annotation_or Annotations.vault_tls_secret_annotation (viper.get_string "vault_tls_secret");
    client_timeout = parsers.parse_duration (
        annotation_or Annotations.vault_client_timeout_annotation
          (viper.get_string "vault_client_timeout"));
  }

  -- The token volume: the annotation, the setting if it is not empty, or the default mount path.
  default_service_account_token_volume_name : String
  default_service_account_token_volume_name =
      if not (viper.get_string "SERVICE_ACCOUNT_TOKEN_VOLUME_NAME" == "")
      then viper.get_string "SERVICE_ACCOUNT_TOKEN_VOLUME_NAME"
      else "/var/run/secrets/kubernetes.io/serviceaccount"

  template_of : Template
  unfolding annotation_or quantity_or default_service_account_token_volume_name
  template_of = record {
    use_agent =
        parse_bool
          (annotation_or Annotations.vault_agent_annotation (viper.get_string "vault_agent"));
    vault_env_daemon = parse_bool (
        annotation_or Annotations.vault_env_daemon_annotation
          (viper.get_string "vault_env_daemon"));
    vault_env_delay =
        parsers.parse_duration (
          annotation_or Annotations.vault_env_delay_annotation
            (viper.get_string "vault_env_delay"));
    ct_config_map = annotation_or Annotations.vault_consul_template_configmap_annotation "";
    service_account_token_volume_name =
        annotation_or Annotations.service_account_token_volume_name_annotation
          default_service_account_token_volume_name;
    ct_image =
        annotation_or Annotations.vault_consul_template_image_annotation
          (viper.get_string "vault_ct_image");
    ignore_missing_secrets =
        annotation_or Annotations.vault_ignore_missing_secrets_annotation
          (viper.get_string "vault_ignore_missing_secrets");
    vault_env_passthrough =
        annotation_or Annotations.vault_env_passthrough_annotation
          (viper.get_string "vault_env_passthrough");
    configfile_path = annotation_or Annotations.vault_configfile_path_annotation (
        annotation_or Annotations.vault_consule_template_secrets_mount_path_annotation
          "/vault/secrets");
    ct_image_pull_policy = get_pull_policy (
        annotation_or Annotations.vault_consul_template_pull_policy_annotation
          (viper.get_string "vault_ct_pull_policy"));
    ct_once = parse_bool (annotation_or Annotations.vault_consul_template_once_annotation "false");
    ct_cpu = quantity_or (annotation_or Annotations.vault_consul_template_cpu_annotation "") "100m";
    ct_memory =
        quantity_or (annotation_or Annotations.vault_consul_template_memory_annotation "") "128Mi";
    ct_share_process_default =
        elim (lookup Annotations.vault_consul_template_share_process_namespace_annotation
          subject.annotations) [ some _ ↦ "found" | none ↦ "empty" ];
    ct_share_process = parse_bool (
        annotation_or Annotations.vault_consul_template_share_process_namespace_annotation "false");
  }

  security_of : Security
  unfolding annotation_or
  security_of = record {
    psp_allow_privilege_escalation = parse_bool (
        annotation_or Annotations.psp_allow_privilege_escalation_annotation
          (viper.get_string "psp_allow_privilege_escalation"));
    run_as_non_root =
        parse_bool (
          annotation_or Annotations.run_as_non_root_annotation
            (viper.get_string "run_as_non_root"));
    run_as_user = elim (lookup Annotations.run_as_user_annotation subject.annotations) [
      | some val ↦ parse_int val 10 64
      | none ↦ parse_int (viper.get_string "run_as_user") 0 64
    ];
    run_as_group = elim (lookup Annotations.run_as_group_annotation subject.annotations) [
      | some val ↦ parse_int val 10 64
      | none ↦ parse_int (viper.get_string "run_as_group") 0 64
    ];
    read_only_root_filesystem = parse_bool (
        annotation_or Annotations.read_only_root_fs_annotation
          (viper.get_string "readonly_root_fs"));
    registry_skip_verify = parse_bool (
        annotation_or Annotations.registry_skip_verify_annotation
          (viper.get_string "registry_skip_verify"));
    log_level = annotation_or Annotations.log_level_annotation (viper.get_string "log_level");
    enable_json_log =
        annotation_or Annotations.enable_json_log_annotation (viper.get_string "enable_json_log");
    transit_key_id =
        annotation_or Annotations.transit_key_id_annotation (viper.get_string "transit_key_id");
    transit_path =
        annotation_or Annotations.transit_path_annotation (viper.get_string "transit_path");
  }

  agent_of : Agent
  unfolding annotation_or quantity_or
  agent_of = record {
    agent_config_map = annotation_or Annotations.vault_agent_configmap_annotation "";
    agent_once = parse_bool (annotation_or Annotations.vault_agent_once_annotation "false");
    agent_cpu_limit =
        quantity_or (annotation_or Annotations.vault_agent_cpu_annotation "")
          (quantity_or (annotation_or Annotations.vault_agent_cpu_limit_annotation "") "100m");
    agent_memory_limit =
        quantity_or (annotation_or Annotations.vault_agent_memory_annotation "")
          (quantity_or (annotation_or Annotations.vault_agent_memory_limit_annotation "") "128Mi");
    agent_cpu_request =
        quantity_or (annotation_or Annotations.vault_agent_cpu_request_annotation "") "100m";
    agent_memory_request =
        quantity_or (annotation_or Annotations.vault_agent_memory_request_annotation "") "128Mi";
    agent_share_process_default =
        elim (lookup Annotations.vault_agent_share_process_namespace_annotation
          subject.annotations) [ some _ ↦ "found" | none ↦ "empty" ];
    agent_share_process =
        parse_bool
          (annotation_or Annotations.vault_agent_share_process_namespace_annotation "false");
    vault_env_from_path = annotation_or Annotations.vault_env_from_path_annotation "";
    token_auth_mount = annotation_or Annotations.token_auth_mount_annotation "";
  }

  images_of : Images
  unfolding annotation_or quantity_or
  images_of = record {
    env_image =
        annotation_or Annotations.vault_env_image_annotation (viper.get_string "vault_env_image");
    env_log_server = viper.get_string "VAULT_ENV_LOG_SERVER";
    env_image_pull_policy = get_pull_policy (
        annotation_or Annotations.vault_env_image_pull_policy_annotation
          (viper.get_string "vault_env_pull_policy"));
    agent_image = annotation_or Annotations.vault_image_annotation (viper.get_string "vault_image");
    agent_image_pull_policy = get_pull_policy (
        annotation_or Annotations.vault_image_pull_policy_annotation
          (viper.get_string "vault_image_pull_policy"));
    agent_env_variables = annotation_or Annotations.vault_agent_env_variables_annotation "";
    vault_namespace =
        annotation_or Annotations.vault_namespace_annotation (viper.get_string "VAULT_NAMESPACE");
    ct_inject_in_initcontainers = parse_bool (
        annotation_or Annotations.vault_consule_template_inject_in_initcontainers_annotation
          "false");
    env_cpu_request = quantity_or (viper.get_string "VAULT_ENV_CPU_REQUEST") "100m";
    env_memory_request = quantity_or (viper.get_string "VAULT_ENV_MEMORY_REQUEST") "256Mi";
    env_cpu_limit = quantity_or (viper.get_string "VAULT_ENV_CPU_LIMIT") "500m";
    env_memory_limit = quantity_or (viper.get_string "VAULT_ENV_MEMORY_LIMIT") "256Mi";
    mutate_probes = parse_bool (annotation_or Annotations.mutate_probes_annotation "false");
    transit_batch_size =
        elim (lookup Annotations.transit_batch_size_annotation subject.annotations) [
          | some val ↦ parse_int val 10 32
          | none ↦ viper.get_int "transit_batch_size"
        ];
    token = viper.get_string "vault_token";
  }

  -- The check of an address that the object supplies.
  pub check_addr : Result AddrError (Unit {0})
  check_addr = elim (lookup Annotations.vault_addr_annotation subject.annotations) [
    | some addr ↦ validate_object_addr net addr (vault_addr_policy viper)
    | none ↦ ok tt
  ]

  -- The options of an object that is not skipped.
  pub options_of : String → VaultConfig
  unfolding connection_of template_of security_of agent_of images_of
  options_of ns = record {
    object_namespace = ns;
    skip = false;
    connection = connection_of;
    template = template_of;
    security = security_of;
    agent = agent_of;
    images = images_of;
  }

  -- `parseVaultConfig` in the namespace of the review.
  unfoldable pub parse_vault_config : String → Result AddrError VaultConfig
  unfolding check_addr options_of
  parse_vault_config ns =
      if get_or_else (lookup Annotations.mutate_annotation subject.annotations) "" == "skip"
      then ok (record (new_vault_config ns) { skip = true })
      else check_addr >>= λ _. ok (options_of ns)
