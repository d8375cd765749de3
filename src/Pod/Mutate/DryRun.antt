-- ===== src/Pod/Mutate/DryRun.antt =====
-- pkg/webhook/pod.go: when MutatePod writes to the cluster.
use vault_secrets_webhook.Base.{
  ◌≡◌, ◌⊎◌, inl, inr, Bool, true, false, not, List, ◌||◌, ◌==◌, arith, Result-cases, Bool-cases,
}
use vault_secrets_webhook.Config.{VaultConfig}
use vault_secrets_webhook.Kube.{EnvVar, VolumeMount, PodSpec, Pod, Kube, ImageRegistry}
use vault_secrets_webhook.Pod.Inject.{container_env, container_mounts}
use vault_secrets_webhook.Pod.Mutate.{
  is_pod_already_mutated, Runtime, Machine, ensure_config_map, inject_template, inject_init, inject,
  mutate_all_containers, mutate_pod,
}

module _ (kube : Kube) (registry : ImageRegistry) (runtime : Runtime) where
  -- Nothing asks for the agent's config map to be written: the run is dry, or the object names one
  -- of its own, or neither the agent nor Consul Template is used.
  abbrev pub WritesNothing : VaultConfig → Bool → Type 0
  WritesNothing c dry_run =
      (dry_run ≡ true)
      ⊎ ((c.agent_config_map == "") ≡ false)
      ⊎ ((c.use_agent || not (c.ct_config_map == "")) ≡ false)

  ensure_config_map-cluster :
      (cluster : kube.Cluster) (pod : Pod) (c : VaultConfig) (dry_run : Bool)
      → WritesNothing c dry_run
      → (ensure_config_map kube registry runtime cluster pod c dry_run).1 ≡ cluster
  unfolding ensure_config_map
  ensure_config_map-cluster cluster pod c dry_run quiet = ground arith

  inject_init-cluster :
      (cluster : kube.Cluster) (pod : Pod) (c : VaultConfig) (dry_run mutated : Bool)
      (env : List EnvVar) (mounts : List VolumeMount) (spec : PodSpec)
      → WritesNothing c dry_run
      → (inject_init kube registry runtime cluster pod c dry_run mutated env mounts spec).1
        ≡ cluster
  unfolding inject_init
  inject_init-cluster cluster pod c dry_run mutated env mounts spec quiet =
      ground (arith, ensure_config_map-cluster cluster pod c dry_run quiet)

  inject-cluster :
      (cluster : kube.Cluster) (pod : Pod) (c : VaultConfig) (dry_run mutated : Bool)
      (spec : PodSpec)
      → WritesNothing c dry_run
      → (inject kube registry runtime cluster pod c dry_run mutated spec).1 ≡ cluster
  unfolding inject
  inject-cluster cluster pod c dry_run mutated spec quiet =
      let env = container_env c spec.volumes in
      let mounts = container_mounts c spec.volumes in
      elim (Result-cases (inject_template kube registry runtime cluster c env mounts spec)) [
        | inl (templated, t) ↦
            rw (t, inject)
              (inject_init-cluster cluster pod c dry_run mutated env mounts templated quiet)
        | inr (failure, failed) ↦ rw (failed, inject)
      ]

  -- MutatePod leaves the cluster as it is in a dry run, for an object that names the agent's config
  -- map itself, and where neither the agent nor Consul Template is used; also when it fails.
  pub mutate_pod-cluster :
      (m : Machine kube registry runtime) (pod : Pod) (c : VaultConfig) (dry_run : Bool)
      → WritesNothing c dry_run
      → (mutate_pod kube registry runtime m pod c dry_run).1.cluster ≡ m.cluster
  unfolding mutate_pod
  mutate_pod-cluster m pod c dry_run quiet = elim (Bool-cases (is_pod_already_mutated pod.spec)) [
    | inl old ↦ rw (old, mutate_pod)
    | inr new ↦ elim (Result-cases (mutate_all_containers kube registry runtime m c pod.spec).0) [
      | inl ((mutated, spec), all) ↦
          rw (new, all, mutate_pod) (inject-cluster m.cluster pod c dry_run mutated spec quiet)
      | inr (failure, failed) ↦ rw (new, failed, mutate_pod)
    ]
  ]
