-- ===== src/Common/Annotations.antt =====
-- pkg/common/common.go: the names of the webhook's annotations, with the source's values.
use vault_secrets_webhook.Base.{String}

abbrev pub psp_allow_privilege_escalation_annotation : String
psp_allow_privilege_escalation_annotation =
    "vault.security.banzaicloud.io/psp-allow-privilege-escalation"

abbrev pub run_as_non_root_annotation : String
run_as_non_root_annotation = "vault.security.banzaicloud.io/run-as-non-root"

abbrev pub run_as_user_annotation : String
run_as_user_annotation = "vault.security.banzaicloud.io/run-as-user"

abbrev pub run_as_group_annotation : String
run_as_group_annotation = "vault.security.banzaicloud.io/run-as-group"

abbrev pub read_only_root_fs_annotation : String
read_only_root_fs_annotation = "vault.security.banzaicloud.io/readonly-root-fs"

abbrev pub registry_skip_verify_annotation : String
registry_skip_verify_annotation = "vault.security.banzaicloud.io/registry-skip-verify"

abbrev pub mutate_annotation : String
mutate_annotation = "vault.security.banzaicloud.io/mutate"

abbrev pub mutate_probes_annotation : String
mutate_probes_annotation = "vault.security.banzaicloud.io/mutate-probes"

abbrev pub vault_env_daemon_annotation : String
vault_env_daemon_annotation = "vault.security.banzaicloud.io/vault-env-daemon"

abbrev pub vault_env_delay_annotation : String
vault_env_delay_annotation = "vault.security.banzaicloud.io/vault-env-delay"

abbrev pub enable_json_log_annotation : String
enable_json_log_annotation = "vault.security.banzaicloud.io/enable-json-log"

abbrev pub vault_env_image_annotation : String
vault_env_image_annotation = "vault.security.banzaicloud.io/vault-env-image"

abbrev pub vault_env_image_pull_policy_annotation : String
vault_env_image_pull_policy_annotation = "vault.security.banzaicloud.io/vault-env-image-pull-policy"

abbrev pub vault_addr_annotation : String
vault_addr_annotation = "vault.security.banzaicloud.io/vault-addr"

abbrev pub vault_image_annotation : String
vault_image_annotation = "vault.security.banzaicloud.io/vault-image"

abbrev pub vault_image_pull_policy_annotation : String
vault_image_pull_policy_annotation = "vault.security.banzaicloud.io/vault-image-pull-policy"

abbrev pub vault_role_annotation : String
vault_role_annotation = "vault.security.banzaicloud.io/vault-role"

abbrev pub vault_path_annotation : String
vault_path_annotation = "vault.security.banzaicloud.io/vault-path"

abbrev pub vault_skip_verify_annotation : String
vault_skip_verify_annotation = "vault.security.banzaicloud.io/vault-skip-verify"

abbrev pub vault_tls_secret_annotation : String
vault_tls_secret_annotation = "vault.security.banzaicloud.io/vault-tls-secret"

abbrev pub vault_ignore_missing_secrets_annotation : String
vault_ignore_missing_secrets_annotation =
    "vault.security.banzaicloud.io/vault-ignore-missing-secrets"

abbrev pub vault_client_timeout_annotation : String
vault_client_timeout_annotation = "vault.security.banzaicloud.io/vault-client-timeout"

abbrev pub transit_key_id_annotation : String
transit_key_id_annotation = "vault.security.banzaicloud.io/transit-key-id"

abbrev pub transit_path_annotation : String
transit_path_annotation = "vault.security.banzaicloud.io/transit-path"

abbrev pub vault_auth_method_annotation : String
vault_auth_method_annotation = "vault.security.banzaicloud.io/vault-auth-method"

abbrev pub transit_batch_size_annotation : String
transit_batch_size_annotation = "vault.security.banzaicloud.io/transit-batch-size"

abbrev pub token_auth_mount_annotation : String
token_auth_mount_annotation = "vault.security.banzaicloud.io/token-auth-mount"

abbrev pub vault_serviceaccount_annotation : String
vault_serviceaccount_annotation = "vault.security.banzaicloud.io/vault-serviceaccount"

abbrev pub vault_namespace_annotation : String
vault_namespace_annotation = "vault.security.banzaicloud.io/vault-namespace"

abbrev pub service_account_token_volume_name_annotation : String
service_account_token_volume_name_annotation =
    "vault.security.banzaicloud.io/service-account-token-volume-name"

abbrev pub log_level_annotation : String
log_level_annotation = "vault.security.banzaicloud.io/log-level"

abbrev pub vault_env_passthrough_annotation : String
vault_env_passthrough_annotation = "vault.security.banzaicloud.io/vault-env-passthrough"

abbrev pub vault_env_from_path_annotation : String
vault_env_from_path_annotation = "vault.security.banzaicloud.io/vault-env-from-path"

abbrev pub vault_agent_annotation : String
vault_agent_annotation = "vault.security.banzaicloud.io/vault-agent"

abbrev pub vault_agent_configmap_annotation : String
vault_agent_configmap_annotation = "vault.security.banzaicloud.io/vault-agent-configmap"

abbrev pub vault_agent_once_annotation : String
vault_agent_once_annotation = "vault.security.banzaicloud.io/vault-agent-once"

abbrev pub vault_agent_share_process_namespace_annotation : String
vault_agent_share_process_namespace_annotation =
    "vault.security.banzaicloud.io/vault-agent-share-process-namespace"

abbrev pub vault_agent_cpu_annotation : String
vault_agent_cpu_annotation = "vault.security.banzaicloud.io/vault-agent-cpu"

abbrev pub vault_agent_cpu_limit_annotation : String
vault_agent_cpu_limit_annotation = "vault.security.banzaicloud.io/vault-agent-cpu-limit"

abbrev pub vault_agent_cpu_request_annotation : String
vault_agent_cpu_request_annotation = "vault.security.banzaicloud.io/vault-agent-cpu-request"

abbrev pub vault_agent_memory_annotation : String
vault_agent_memory_annotation = "vault.security.banzaicloud.io/vault-agent-memory"

abbrev pub vault_agent_memory_limit_annotation : String
vault_agent_memory_limit_annotation = "vault.security.banzaicloud.io/vault-agent-memory-limit"

abbrev pub vault_agent_memory_request_annotation : String
vault_agent_memory_request_annotation = "vault.security.banzaicloud.io/vault-agent-memory-request"

abbrev pub vault_configfile_path_annotation : String
vault_configfile_path_annotation = "vault.security.banzaicloud.io/vault-configfile-path"

abbrev pub vault_agent_env_variables_annotation : String
vault_agent_env_variables_annotation = "vault.security.banzaicloud.io/vault-agent-env-variables"

abbrev pub vault_consul_template_configmap_annotation : String
vault_consul_template_configmap_annotation = "vault.security.banzaicloud.io/vault-ct-configmap"

abbrev pub vault_consul_template_image_annotation : String
vault_consul_template_image_annotation = "vault.security.banzaicloud.io/vault-ct-image"

abbrev pub vault_consul_template_once_annotation : String
vault_consul_template_once_annotation = "vault.security.banzaicloud.io/vault-ct-once"

abbrev pub vault_consul_template_pull_policy_annotation : String
vault_consul_template_pull_policy_annotation = "vault.security.banzaicloud.io/vault-ct-pull-policy"

abbrev pub vault_consul_template_share_process_namespace_annotation : String
vault_consul_template_share_process_namespace_annotation =
    "vault.security.banzaicloud.io/vault-ct-share-process-namespace"

abbrev pub vault_consul_template_cpu_annotation : String
vault_consul_template_cpu_annotation = "vault.security.banzaicloud.io/vault-ct-cpu"

abbrev pub vault_consul_template_memory_annotation : String
vault_consul_template_memory_annotation = "vault.security.banzaicloud.io/vault-ct-memory"

abbrev pub vault_consule_template_secrets_mount_path_annotation : String
vault_consule_template_secrets_mount_path_annotation =
    "vault.security.banzaicloud.io/vault-ct-secrets-mount-path"

abbrev pub vault_consule_template_inject_in_initcontainers_annotation : String
vault_consule_template_inject_in_initcontainers_annotation =
    "vault.security.banzaicloud.io/vault-ct-inject-in-initcontainers"
