-- ===== src/Pod/Mutate/Repeat.antt =====
-- pkg/webhook/pod.go: MutatePod run again on a pod that it has mutated.
use vault_secrets_webhook.Base.{
  String, ◌≡◌, ◌∙◌, sym, inl, inr, ◌⊎◌, Bool, true, false, not, List, ◌++◌, ◌||◌, ◌==◌, arith,
  any-append, Result, ok, >>=-eq-ok, ok-injective, Result-cases, Bool-cases, ap, ap₂,
}
use vault_secrets_webhook.Config.{VaultConfig}
use vault_secrets_webhook.Kube.{
  EnvVar, VolumeMount, Container, PodSpec, Pod, Volume, has_volume, Kube, ImageRegistry,
  WebhookError,
}
use vault_secrets_webhook.Pod.Containers.{mutate_containers, vault_env_volume_name}
use vault_secrets_webhook.Pod.Containers.Loop.{mutate_containers-Mutation, Mutation-eq}
use vault_secrets_webhook.Pod.Containers.Kept.{mutate_containers-cache}
use vault_secrets_webhook.Pod.Inject.{get_volumes, container_env, container_mounts}
use vault_secrets_webhook.Pod.Mutate.{
  is_pod_already_mutated, Runtime, Machine, inject_template, inject_init, inject_agent,
  ensure_config_map, place_init, inject, mutate_all_containers, mutate_pod,
}

module _ (kube : Kube) (registry : ImageRegistry) (runtime : Runtime) where
  -- Something is to be injected.
  abbrev injects : VaultConfig → Bool → Bool
  injects c mutated = mutated || not (c.ct_config_map == "") || not (c.agent_config_map == "")

  module _ (c : VaultConfig) (env : List EnvVar) (mounts : List VolumeMount) where
    get_volumes-has_volume :
        (existing : List Volume) (name : String)
        → has_volume vault_env_volume_name (existing ++ get_volumes existing name c) ≡ true
    unfolding get_volumes
    get_volumes-has_volume existing name =
        any-append _ existing (get_volumes existing name c) ∙ ground arith

    place_init-volumes :
        (mutated : Bool) (spec spec' : PodSpec) (name : String)
        → place_init kube registry runtime c mutated env mounts spec name ≡ ok spec'
        → spec'.volumes ≡ spec.volumes ++ get_volumes spec.volumes name c
    unfolding place_init
    place_init-volumes mutated spec spec' name e = ground arith

    inject_init-has_volume :
        (cluster : kube.Cluster) (pod : Pod) (dry_run mutated : Bool) (spec spec' : PodSpec)
        → injects c mutated ≡ true
        → (inject_init kube registry runtime cluster pod c dry_run mutated env mounts spec).0
          ≡ ok spec'
        → is_pod_already_mutated spec' ≡ true
    unfolding inject_init
    inject_init-has_volume cluster pod dry_run mutated spec spec' yes' e =
        elim (Result-cases (ensure_config_map kube registry runtime cluster pod c dry_run).0) [
          | inl (name, named) ↦
              rw (place_init-volumes mutated spec spec' name (rw (yes', named, inject_init) at e))
                (get_volumes-has_volume spec.volumes name)
          | inr (failure, failed) ↦ absurd (cc (rw (yes', failed, inject_init) at e))
        ]

    inject_agent-volumes :
        (cluster : kube.Cluster) (spec spec' : PodSpec)
        → inject_agent kube registry runtime cluster c env mounts spec ≡ ok spec'
        → spec'.volumes ≡ spec.volumes
    unfolding inject_agent
    inject_agent-volumes cluster spec spec' e = ground arith

  module _ (cluster : kube.Cluster) (pod : Pod) (c : VaultConfig) (dry_run : Bool) where
    inject-has_volume :
        (mutated : Bool) (spec spec' : PodSpec)
        → injects c mutated ≡ true
        → (inject kube registry runtime cluster pod c dry_run mutated spec).0 ≡ ok spec'
        → is_pod_already_mutated spec' ≡ true
    unfolding inject
    inject-has_volume mutated spec spec' injecting e =
        let env = container_env c spec.volumes in
        let mounts = container_mounts c spec.volumes in
        elim (Result-cases (inject_template kube registry runtime cluster c env mounts spec)) [
          | inl (templated, t) ↦
              let placed =
                inject_init kube registry runtime cluster pod c dry_run mutated env mounts
                  templated in
              let (ready, p, a) =
                >>=-eq-ok placed.0
                  (λ ready. inject_agent kube registry runtime placed.1 c env mounts ready)
                  (rw (t, inject) at e) in
              rw (inject_agent-volumes c env mounts placed.1 ready spec' a) (
                inject_init-has_volume c env mounts cluster pod dry_run mutated templated ready
                  injecting p)
          | inr (failure, failed) ↦ absurd (cc (rw (failed, inject) at e))
        ]

    inject_nothing :
        (spec : PodSpec)
        → injects c false ≡ false
        → inject kube registry runtime cluster pod c dry_run false spec ≡ (ok spec, cluster)
    unfolding inject inject_template inject_init inject_agent
    inject_nothing spec nothing =
        let no_template : (c.ct_config_map == "") ≡ true = ground arith in
        let no_agent : (c.agent_config_map == "") ≡ true = ground arith in
        simp (no_template, no_agent, inject)

  module _ (m : Machine kube registry runtime) (c : VaultConfig) (spec : PodSpec) where
    both_kept :
        (b b' : Bool) (inits containers : List Container) (spec' : PodSpec)
        → (let r : Result WebhookError (Bool × PodSpec) =
              ok (b || b', record spec { init_containers = inits; containers = containers }) in
            r)
          ≡ ok (false, spec')
        → (b ≡ false)
          × (b' ≡ false)
          × (record spec { init_containers = inits; containers = containers } ≡ spec')
    both_kept b b' inits containers spec' e =
        let same = ok-injective e in
        let none_mutated : (b || b') ≡ false = ap (λ p. p.0) same in
        (ground arith, ground arith, ap (λ p. p.1) same)

    mutate_all_containers-unmutated :
        (spec' : PodSpec)
        → (mutate_all_containers kube registry runtime m c spec).0 ≡ ok (false, spec')
        → (spec' ≡ spec) × ((mutate_all_containers kube registry runtime m c spec).1 ≡ m.cache)
    unfolding mutate_all_containers
    mutate_all_containers-unmutated spec' e =
        let h = runtime.has_inline in
        let s = runtime.show_duration in
        elim (Result-cases
          (mutate_containers kube registry h s m.cluster m.cache c spec spec.init_containers).0) [
            | inl ((b, inits), first) ↦
                let spec'' : PodSpec = record spec { init_containers = inits } in
                let cache' =
                  (mutate_containers kube registry h s m.cluster m.cache c spec
                    spec.init_containers).1 in
                let ((b', containers), second, same) =
                  >>=-eq-ok
                    (mutate_containers kube registry h s m.cluster cache' c spec''
                      spec.containers).0
                    (λ (mutated, containers).
                      ok (b || mutated, record spec'' { containers = containers }))
                    (rw (first, mutate_all_containers) at e) in
                let (kept, kept', same') = both_kept b b' inits containers spec' same in
                let first_list =
                  Mutation-eq kube registry h s m.cluster c spec
                    (mutate_containers-Mutation kube registry h s m.cluster c spec m.cache
                      spec.init_containers inits b first)
                    kept in
                let second_list =
                  Mutation-eq kube registry h s m.cluster c spec''
                    (mutate_containers-Mutation kube registry h s m.cluster c spec'' cache'
                      spec.containers containers b' second)
                    kept' in
                (
                  sym same'
                      ∙ ap₂ (λ x y. record spec { init_containers = x; containers = y }) first_list
                          second_list,
                  rw (first, mutate_all_containers)
                      (mutate_containers-cache kube registry h s m.cluster c spec'' cache'
                          spec.containers containers (second ∙ ap (λ d. ok (d, containers)) kept')
                        ∙ mutate_containers-cache kube registry h s m.cluster c spec m.cache
                            spec.init_containers inits (first ∙ ap (λ d. ok (d, inits)) kept)),
                )
            | inr (failure, failed) ↦ absurd (cc (rw (failed, mutate_all_containers) at e))
          ]

  module _ (m : Machine kube registry runtime) (pod : Pod) (c : VaultConfig) (dry_run : Bool) where
    -- The outcome of a call that meets no error.
    abbrev Outcome : Type 0
    Outcome = Result WebhookError PodSpec × Machine kube registry runtime

    changed_or_same :
        (spec' : PodSpec) (m' : Machine kube registry runtime)
        → mutate_pod kube registry runtime m pod c dry_run ≡ (ok spec', m')
        → is_pod_already_mutated pod.spec ≡ false
        → (is_pod_already_mutated spec' ≡ true) ⊎ ((spec' ≡ pod.spec) × (m' ≡ m))
    unfolding mutate_pod
    changed_or_same spec' m' e new =
        elim (Result-cases (mutate_all_containers kube registry runtime m c pod.spec).0) [
          | inl ((mutated, spec), all) ↦ elim (Bool-cases (injects c mutated)) [
            | inl injecting ↦ inl (
                inject-has_volume m.cluster pod c dry_run mutated spec spec' injecting
                  (ap (λ o. o.0) (rw (new, all, mutate_pod) at e)))
            | inr nothing ↦
                let unmutated : mutated ≡ false = ground arith in
                let (same, cache) =
                  mutate_all_containers-unmutated m c pod.spec spec
                    (all ∙ ap (λ b. ok (b, spec)) unmutated) in
                let quiet : inject kube registry runtime m.cluster pod c dry_run mutated spec
                    ≡ (ok spec, m.cluster) =
                  rw unmutated
                    (inject_nothing m.cluster pod c dry_run spec (rw unmutated at nothing)) in
                let outcome = rw quiet at (rw (new, all, mutate_pod) at e) in
                inr (
                  sym (ok-injective (ap (λ o. o.0) outcome)) ∙ same,
                  sym (ap (λ o. o.1) outcome) ∙ ap (λ k. record m { cache = k }) cache,
                )
          ]
          | inr (failure, failed) ↦ absurd (cc (ap (λ o. o.0) (rw (new, failed, mutate_pod) at e)))
        ]

    again :
        (spec' : PodSpec) (m' : Machine kube registry runtime)
        → mutate_pod kube registry runtime m pod c dry_run ≡ (ok spec', m')
        → spec' ≡ pod.spec
        → m' ≡ m
        → mutate_pod kube registry runtime m' (record pod { spec = spec' }) c dry_run
          ≡ (ok spec', m')
    again spec' m' e same same' =
        ap₂ (λ s k. mutate_pod kube registry runtime k (record pod { spec = s }) c dry_run) same
          same'
        ∙ e

    -- A pod that MutatePod has returned, admitted once more with the same options and the state left
    -- behind, comes back unchanged and changes no state.
    pub mutate_pod_twice :
        (spec' : PodSpec) (m' : Machine kube registry runtime)
        → mutate_pod kube registry runtime m pod c dry_run ≡ (ok spec', m')
        → mutate_pod kube registry runtime m' (record pod { spec = spec' }) c dry_run
          ≡ (ok spec', m')
    unfolding mutate_pod
    mutate_pod_twice spec' m' e = elim (Bool-cases (is_pod_already_mutated pod.spec)) [
      | inl old ↦
          let outcome = rw (old, mutate_pod) at e in
          again spec' m' e (sym (ok-injective (ap (λ o. o.0) outcome)))
            (sym (ap (λ o. o.1) outcome))
      | inr new ↦ elim (changed_or_same spec' m' e new) [
        | inl marked ↦ rw (marked, mutate_pod)
        | inr (same, same') ↦ again spec' m' e same same'
      ]
    ]
