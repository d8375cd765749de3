-- ===== src/Tests/Data.antt =====
-- A small cluster, its settings, an object and a pod, to evaluate the model on.
use vault_secrets_webhook.Base.{
  ℕ, pos, suc, String, false, none, some, List, [], ◌∷◌, ◌==◌, lookup, get_or_else, if◌then◌else◌,
  ok, err, Assoc,
}
use vault_secrets_webhook.Common.Addr.{Url, Net}
use vault_secrets_webhook.Common.Policy.{Viper}
use vault_secrets_webhook.Config.{VaultConfig, unset, new_vault_config}
use vault_secrets_webhook.Config.Parse.{Parsers, Subject, options_of}
use vault_secrets_webhook.Kube.{
  env_var, Container, PodSpec, Pod, not_found, already_exists, Kube, ImageRegistry,
}
use vault_secrets_webhook.Pod.Mutate.{Runtime, Machine}

abbrev plain_url : String → String → Url
plain_url scheme host = record {
  scheme = scheme;
  user = none;
  host = host;
  path = "";
  raw_query = "";
  force_query = false;
  fragment = "";
}

-- `url.Parse` and `net.ParseIP` at the texts that the tests use.
abbrev pub test_net : Net
test_net = record {
  parse_url = λ text.
      if text == "https://vault.example:8200"
      then some (plain_url "https" "vault.example:8200")
      else if text == "https://10.0.0.1:8200"
      then some (plain_url "https" "10.0.0.1:8200")
      else none;
  parse_ip = λ text. if text == "10.0.0.1" then some (10 ∷ 0 ∷ 0 ∷ 1 ∷ []) else none;
  wide_lower = λ c. c;
}

abbrev test_settings : Assoc String
test_settings =
    ("vault_addr", "https://vault.example:8200")
    ∷ ("vault_role", "reader")
    ∷ ("vault_auth_method", "jwt")
    ∷ ("vault_path", "kubernetes")
    ∷ ("vault_image", "vault:1")
    ∷ ("vault_env_image", "vault-env:1")
    ∷ ("log_level", "info")
    ∷ ("vault_client_timeout", "10s")
    ∷ []

abbrev pub test_viper : Viper
test_viper = record {
  get_string = λ key. get_or_else (lookup key test_settings) "";
  get_bool = λ key. false;
  get_int = λ key. pos 0;
}

abbrev pub test_parsers : Parsers
test_parsers = record {
  parse_duration = λ text. if text == "10s" then pos 10000000000 else pos 0;
  is_quantity = λ text. text == "100m";
}

abbrev pub test_subject : Subject
test_subject = record {
  annotations = ("vault.security.banzaicloud.io/vault-addr", "https://vault.example:8200") ∷ [];
  service_account = some "default";
}

-- A cluster that keeps config maps by name.
abbrev pub test_kube : Kube
test_kube = record {
  Cluster = List String;
  config_map_data = λ cluster name ns. err not_found;
  secret_data = λ cluster name ns. err not_found;
  create_config_map = λ cluster ns config_map. elim cluster [
    | [] ↦ (config_map.name ∷ [], none)
    | name ∷ more ↦ (name ∷ more, some already_exists)
  ];
  update_config_map = λ cluster ns config_map. (config_map.name ∷ [], none);
  server_version = λ cluster. some "v1.30.0";
  service_account_secrets = λ cluster name ns. ok [];
  create_token = λ cluster name ns request. (cluster, ok "fresh-token");
}

-- A registry that counts its requests.
abbrev pub test_registry : ImageRegistry
test_registry = record {
  Cache = ℕ;
  get_image_config = λ cache ns skip container spec.
      (ok (record { entrypoint = "/app" ∷ []; cmd = "serve" ∷ [] }), suc cache);
}

abbrev pub test_runtime : Runtime
test_runtime = record {
  has_inline = λ text. false;
  show_duration = λ d. "10s";
  unmarshal_env = λ text. none;
  compare_versions = λ a b. pos 0;
}

abbrev pub test_container : Container
test_container = record {
  name = "app";
  image = "app:1";
  image_pull_policy = unset;
  command = [];
  args = [];
  env = env_var "PASSWORD" "vault:secret/app#password" ∷ env_var "MODE" "fast" ∷ [];
  env_from = [];
  volume_mounts = [];
  liveness_probe = none;
  readiness_probe = none;
  startup_probe = none;
  security_context = none;
  resources = record { limits = []; requests = [] };
}

abbrev pub test_spec : PodSpec
test_spec = record {
  init_containers = [];
  containers = test_container ∷ [];
  volumes = [];
  security_context = none;
  service_account_name = "default";
  image_pull_secrets = [];
  share_process_namespace = none;
}

abbrev pub test_pod : Pod
test_pod = record { name = "web"; owner_references = []; spec = test_spec }

abbrev pub test_machine : Machine test_kube test_registry test_runtime
test_machine = record { cluster = []; cache = 0 }

-- The options of the object above.
abbrev pub test_config : VaultConfig
test_config = options_of test_net test_parsers test_viper test_subject "apps"

-- The options of a pod, and those of another that uses more of them.
abbrev fresh_config : VaultConfig
fresh_config = new_vault_config "apps"

abbrev pub pod_config : VaultConfig
pod_config = record fresh_config {
  connection = record fresh_config.connection {
    addr = "https://vault.example:8200";
    role = "reader";
    auth_method = "jwt";
    path = "kubernetes";
  };
  security = record fresh_config.security { log_level = "info" };
}
