-- ===== src/Tests/Pods.antt =====
-- The mutation of a concrete pod.
use mathlib.Core.List.{Memᴰ}
use vault_secrets_webhook.Base.{
  ℤ, ◌⊎◌, err, String, ◌≡◌, refl, ap, inl, Bool, true, false, none, some, [], ◌∷◌, lookup, ok, All,
}
use vault_secrets_webhook.Common.{has_vault_prefix}
use vault_secrets_webhook.Config.{VaultConfig}
use vault_secrets_webhook.Kube.{env_var, Container, PodSpec, Kube, EnvFromSource, other_error}
use vault_secrets_webhook.Pod.Lookup.{look_for_env_from, refers_to_vault}
use vault_secrets_webhook.Pod.Containers.{
  base_env, mutated_env, vault_vars, command_line, step_container, mutate_containers,
  mutate_container,
}
use vault_secrets_webhook.Pod.Containers.Loop.{Mutation, mutate_containers-Mutation}
use vault_secrets_webhook.Pod.Containers.Env.{value_of, mutated_env-base_env}
use vault_secrets_webhook.Pod.Inject.{get_volumes}
use vault_secrets_webhook.Pod.Sidecars.{get_init_containers, copy_vault_env}
use vault_secrets_webhook.Pod.Mutate.{Machine, mutate_pod}
use vault_secrets_webhook.Pod.Mutate.Repeat.{mutate_pod_twice}
use vault_secrets_webhook.Pod.Mutate.DryRun.{mutate_pod-cluster}
use vault_secrets_webhook.Pod.Lookup.Refers.{Refers}
use vault_secrets_webhook.Pod.Lookup.Failures.{Blocked, look_for_env_from-Blocked}
use vault_secrets_webhook.Pod.Mutate.Mounts.{Holds}
use vault_secrets_webhook.Pod.Mutate.Mounted.Whole.{mutate_pod-AllMounted}
use vault_secrets_webhook.Pod.Containers.Found.{vault_vars-Refers}
use vault_secrets_webhook.Pod.Mutate.Accounted.{AllAccounted, mutate_pod-AllAccounted}
use vault_secrets_webhook.Tests.Data.{
  pod_config, test_kube, test_registry, test_runtime, test_container, test_spec, test_pod,
  test_machine,
}

abbrev show : ℤ → String
show = test_runtime.show_duration

abbrev no_inline : String → Bool
no_inline = test_runtime.has_inline

-- The test pod's container, mutated: the command line is the image's.
abbrev mutated_test_container : Container
mutated_test_container = mutate_container show pod_config [] ("/app" ∷ "serve" ∷ []) test_container

mutated_containers :
    mutate_containers test_kube test_registry no_inline show [] 0 pod_config test_spec
      (test_container ∷ [])
    ≡ (ok (true, mutated_test_container ∷ []), 1)
unfolding mutate_containers step_container vault_vars look_for_env_from refers_to_vault command_line
    has_vault_prefix
mutated_containers = refl

mutate_containers-Mutation_example :
    Mutation test_kube test_registry no_inline show [] pod_config test_spec
      (test_container ∷ [])
      (mutated_test_container ∷ [])
      true
mutate_containers-Mutation_example =
    mutate_containers-Mutation test_kube test_registry no_inline show [] pod_config test_spec 0
      (test_container ∷ []) (mutated_test_container ∷ []) true (ap (λ o. o.0) mutated_containers)

found_variables :
    vault_vars test_kube test_registry no_inline show [] "apps" test_container
    ≡ ok (env_var "PASSWORD" "vault:secret/app#password" ∷ [])
unfolding vault_vars look_for_env_from refers_to_vault has_vault_prefix
found_variables = refl

vault_vars-Refers_example :
    All (Refers test_kube no_inline) (env_var "PASSWORD" "vault:secret/app#password" ∷ [])
vault_vars-Refers_example =
    vault_vars-Refers test_kube test_registry no_inline show [] "apps" test_container
      (env_var "PASSWORD" "vault:secret/app#password" ∷ []) found_variables

mutated_env-base_env_example :
    All
      (λ v. value_of v.name (mutated_env show pod_config [] test_container.env) ≡ some v.value)
      (base_env show pod_config)
mutated_env-base_env_example = mutated_env-base_env show pod_config [] test_container.env

-- What becomes of the test pod.
abbrev mutated_spec : PodSpec
mutated_spec = record test_spec {
  init_containers = copy_vault_env none pod_config ∷ [];
  containers = mutated_test_container ∷ [];
  volumes = get_volumes [] "" pod_config;
}

abbrev machine_after : Machine test_kube test_registry test_runtime
machine_after = record { cluster = []; cache = 1 }

mutated_pod :
    mutate_pod test_kube test_registry test_runtime test_machine test_pod pod_config false
    ≡ (ok mutated_spec, machine_after)
unfolding mutate_pod mutate_containers step_container vault_vars look_for_env_from refers_to_vault
    command_line has_vault_prefix get_init_containers lookup
mutated_pod = refl

mutate_pod_twice_example :
    mutate_pod test_kube test_registry test_runtime machine_after
      (record test_pod { spec = mutated_spec })
      pod_config
      false
    ≡ (ok mutated_spec, machine_after)
mutate_pod_twice_example =
    mutate_pod_twice test_kube test_registry test_runtime test_machine test_pod pod_config false
      mutated_spec machine_after mutated_pod

-- The same object with the Vault Agent.
abbrev agent_config : VaultConfig
agent_config = record pod_config { template = record pod_config.template { use_agent = true } }

mutate_pod-cluster_example :
    (mutate_pod test_kube test_registry test_runtime test_machine test_pod agent_config
      true).1.cluster
    ≡ test_machine.cluster
mutate_pod-cluster_example =
    mutate_pod-cluster test_kube test_registry test_runtime test_machine test_pod agent_config true
      (inl refl)

mutate_pod-AllAccounted_example :
    AllAccounted test_kube test_registry test_runtime pod_config []
      (test_container ∷ [])
      mutated_spec
mutate_pod-AllAccounted_example =
    mutate_pod-AllAccounted test_kube test_registry test_runtime test_machine pod_config test_pod
      false mutated_spec refl (ap (λ o. o.0) mutated_pod)

mutate_pod-AllMounted_example :
    Holds pod_config test_pod.spec.containers mutated_spec.volumes mutated_spec
mutate_pod-AllMounted_example =
    mutate_pod-AllMounted test_kube test_registry test_runtime pod_config refl test_machine test_pod
      false mutated_spec (tt, ((tt), tt)) (ap (λ o. o.0) mutated_pod)

-- A cluster whose config maps may not be read.
abbrev forbidden_kube : Kube
forbidden_kube = record test_kube {
  config_map_data = λ cluster name ns. err (other_error "forbidden");
}

abbrev required_source : EnvFromSource
required_source = record {
  config_map_ref = some (record { name = "settings"; optional = none });
  secret_ref = none;
}

look_for_env_from-Blocked_example :
    (ef : EnvFromSource) × Memᴰ ef (required_source ∷ [])
    × (Blocked forbidden_kube no_inline [] "apps" forbidden_kube.config_map_data ef.config_map_ref
          (other_error "forbidden")
        ⊎ Blocked forbidden_kube no_inline [] "apps" forbidden_kube.secret_data ef.secret_ref
            (other_error "forbidden"))
unfolding look_for_env_from
look_for_env_from-Blocked_example =
    look_for_env_from-Blocked forbidden_kube no_inline [] "apps" (required_source ∷ [])
      (other_error "forbidden") refl
