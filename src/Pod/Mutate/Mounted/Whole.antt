-- ===== src/Pod/Mutate/Mounted/Whole.antt =====
-- pkg/webhook/pod.go: the mounts of a whole pod after MutatePod.
use mathlib.Core.Path.{subst}
use vault_secrets_webhook.Base.{
  String, ◌≡◌, refl, ◌∙◌, sym, ap, inl, inr, Bool, true, false, Bool-cases, not, List, ◌++◌, ◌||◌,
  ◌==◌, any-append, All, arith, ok, >>=-eq-ok, ok-injective, Result-cases, or-eq-false,
}
use vault_secrets_webhook.Config.{VaultConfig}
use vault_secrets_webhook.Kube.{VolumeMount, Container, Volume, PodSpec, Pod, Kube, ImageRegistry}
use vault_secrets_webhook.Pod.Containers.{mutate_containers}
use vault_secrets_webhook.Pod.Containers.Loop.{mutate_containers-Mutation}
use vault_secrets_webhook.Pod.Inject.{get_volumes, container_env, container_mounts}
use vault_secrets_webhook.Pod.Mutate.{
  is_pod_already_mutated, Runtime, Machine, inject_template, ensure_config_map, inject_init,
  inject_agent, inject, mutate_all_containers, mutate_pod,
}
use vault_secrets_webhook.Pod.Mutate.Origin.{All-map}
use vault_secrets_webhook.Pod.Mutate.Mounts.{
  IsMounted, AllMounted, Holds, Ready, all_volumes, Mutation-AllMounted, Mutation-LacksAccount,
  Mutation-unchanged,
}
use vault_secrets_webhook.Pod.Mutate.Mounted.{
  inject_template-Ready, place_init-Ready, inject_agent-Holds,
}

-- More volumes keep what is mounted.
more-AllMounted :
    (c : VaultConfig) (base : List Container) (volumes added : List Volume) (cs : List Container)
    → AllMounted c base volumes cs
    → AllMounted c base (volumes ++ added) cs
more-AllMounted c base volumes added =
    All-map (λ k. All (IsMounted c base volumes) k.volume_mounts)
      (λ k. All (IsMounted c base (volumes ++ added)) k.volume_mounts)
      (λ k.
        All-map (IsMounted c base volumes) (IsMounted c base (volumes ++ added)) more
          k.volume_mounts)
  where
    more :
        (mount : VolumeMount)
        → IsMounted c base volumes mount
        → IsMounted c base (volumes ++ added) mount
    more mount (inl there) =
        inl (any-append (λ v. v.name == mount.name) volumes added ∙ rw there refl)
    more mount (inr exempt) = inr exempt

module _ (kube : Kube) (registry : ImageRegistry) (runtime : Runtime) (c : VaultConfig)
    (usable : (not (c.ct_config_map == "") || not (c.agent_config_map == "") || not c.use_agent)
      ≡ true) where
  -- Whether MutatePod adds anything to the pod, once its containers are mutated or not.
  abbrev injecting : Bool → Bool
  injecting mutated = mutated || not (c.ct_config_map == "") || not (c.agent_config_map == "")

  inject-Holds :
      (base : List Container) (cluster : kube.Cluster) (pod : Pod) (dry_run mutated : Bool)
      (spec spec' : PodSpec) (name : String)
      → injecting mutated ≡ true
      → (ensure_config_map kube registry runtime cluster pod c dry_run).0 ≡ ok name
      → Ready c base (all_volumes spec.volumes name c) spec
      → (inject kube registry runtime cluster pod c dry_run mutated spec).0 ≡ ok spec'
      → Holds c base spec'.volumes spec'
  unfolding inject inject_init
  inject-Holds base cluster pod dry_run mutated spec spec' name adding named h e =
      let env = container_env c spec.volumes in
      let mounts = container_mounts c spec.volumes in
      elim (Result-cases (inject_template kube registry runtime cluster c env mounts spec)) [
        | inl (templated, t) ↦
            let placed =
              inject_init kube registry runtime cluster pod c dry_run mutated env mounts
                templated in
            let (ready, p, a) =
              >>=-eq-ok placed.0
                (λ ready. inject_agent kube registry runtime placed.1 c env mounts ready)
                (rw (t, inject) at e) in
            let (held, same) =
              inject_template-Ready kube registry runtime c spec.volumes name base env cluster spec
                templated h refl t in
            let (held', same') =
              place_init-Ready kube registry runtime c spec.volumes name base env usable mutated
                templated ready held same (rw (adding, named, inject_init) at p) in
            let (held'', same'') =
              inject_agent-Holds kube registry runtime c spec.volumes name base env placed.1 ready
                spec' held' a in
            subst (λ vs. Holds c base vs spec') (sym (same'' ∙ same')) held''
        | inr (failure, failed) ↦ absurd (cc (rw (failed, inject) at e))
      ]

  three : (x y z : Bool) → (x || not y || not z) ≡ false → (x ≡ false) × (y ≡ true) × (z ≡ true)
  three x y z h = ground arith

  -- Where nothing is added, the pod stays as it is.
  inject-same :
      (cluster : kube.Cluster) (pod : Pod) (dry_run mutated : Bool) (spec spec' : PodSpec)
      → injecting mutated ≡ false
      → (inject kube registry runtime cluster pod c dry_run mutated spec).0 ≡ ok spec'
      → spec ≡ spec'
  unfolding inject inject_template inject_init inject_agent
  inject-same cluster pod dry_run mutated spec spec' nothing e =
      let (unmutated, no_template, no_agent) =
        three mutated (c.ct_config_map == "") (c.agent_config_map == "") nothing in
      ok-injective (
        simp (unmutated, no_template, no_agent, inject, inject_template, inject_init, inject_agent)
          at e)

  inject-fails :
      (cluster : kube.Cluster) (pod : Pod) (dry_run mutated : Bool) (spec spec' : PodSpec)
      → injecting mutated ≡ true
      → (inject kube registry runtime cluster pod c dry_run mutated spec).0 ≡ ok spec'
      → (name : String) × ((ensure_config_map kube registry runtime cluster pod c dry_run).0
          ≡ ok name)
  unfolding inject inject_init
  inject-fails cluster pod dry_run mutated spec spec' adding e =
      elim (Result-cases (ensure_config_map kube registry runtime cluster pod c dry_run).0) [
        | inl found ↦ found
        | inr (failure, failed) ↦
            let env = container_env c spec.volumes in
            let mounts = container_mounts c spec.volumes in
            elim (Result-cases (inject_template kube registry runtime cluster c env mounts spec)) [
              | inl (templated, t) ↦
                  absurd (cc (simp (t, adding, failed, inject, inject_init) at e))
              | inr (f, t) ↦ absurd (cc (rw (t, inject) at e))
            ]
      ]

  module _ (m : Machine kube registry runtime) where
    -- The mutated containers mount volumes of the pod or those that are added; where nothing is to
    -- be added, they are the pod's own.
    mutate_all_containers-Holds :
        (spec spec' : PodSpec) (mutated : Bool) (name : String)
        → Holds c spec.containers spec.volumes spec
        → (mutate_all_containers kube registry runtime m c spec).0 ≡ ok (mutated, spec')
        → (spec'.volumes ≡ spec.volumes)
          × Ready c spec.containers (all_volumes spec.volumes name c) spec'
          × (mutated ≡ false → Holds c spec.containers spec.volumes spec')
    unfolding mutate_all_containers
    mutate_all_containers-Holds spec spec' mutated name (h, k) e =
        let base = spec.containers in
        let has_inline = runtime.has_inline in
        let show = runtime.show_duration in
        let first =
          mutate_containers kube registry has_inline show m.cluster m.cache c spec
            spec.init_containers in
        elim (Result-cases first.0) [
          | inl ((b, inits), found) ↦
              let with_inits : PodSpec = record spec { init_containers = inits } in
              let ((b', cs), found', same) =
                >>=-eq-ok
                  (mutate_containers kube registry has_inline show m.cluster first.1 c with_inits
                    spec.containers).0
                  (λ (mutated, containers).
                    ok (b || mutated, record with_inits { containers = containers }))
                  (rw (found, mutate_all_containers) at e) in
              let left =
                mutate_containers-Mutation kube registry has_inline show m.cluster c spec m.cache
                  spec.init_containers inits b found in
              let right =
                mutate_containers-Mutation kube registry has_inline show m.cluster c with_inits
                  first.1 spec.containers cs b' found' in
              let together = ok-injective same in
              let spec'-lem = ap (λ (o : Bool × PodSpec). o.1) together in
              let added = get_volumes spec.volumes name c in
              (
                sym (ap (λ (s : PodSpec). s.volumes) spec'-lem),
                subst (Ready c base (all_volumes spec.volumes name c)) spec'-lem (
                  (
                    Mutation-AllMounted kube registry has_inline show m.cluster c spec base name
                        left (more-AllMounted c base spec.volumes added spec.init_containers h),
                    Mutation-AllMounted kube registry has_inline show m.cluster c with_inits base
                        name right (more-AllMounted c base spec.volumes added spec.containers k),
                  ),
                  Mutation-LacksAccount kube registry has_inline show m.cluster c with_inits base
                      right,
                ),
                λ unmutated.
                    let (no_init, none') =
                      or-eq-false b b' (ap (λ (o : Bool × PodSpec). o.0) together ∙ unmutated) in
                    subst (Holds c base spec.volumes) spec'-lem (
                      subst (AllMounted c base spec.volumes)
                          (sym (
                            Mutation-unchanged kube registry has_inline show m.cluster c spec base
                              left no_init))
                          h,
                      subst (AllMounted c base spec.volumes)
                          (sym (
                            Mutation-unchanged kube registry has_inline show m.cluster c with_inits
                              base right none'))
                          k,
                    ),
              )
          | inr (failure, failed) ↦ absurd (cc (rw (failed, mutate_all_containers) at e))
        ]

  injected :
      (m : Machine kube registry runtime) (pod : Pod) (dry_run : Bool) (spec : PodSpec)
      (mutated : Bool) (spec' : PodSpec)
      → ((name : String)
          → (spec.volumes ≡ pod.spec.volumes)
            × Ready c pod.spec.containers (all_volumes pod.spec.volumes name c) spec
            × (mutated ≡ false → Holds c pod.spec.containers pod.spec.volumes spec))
      → (inject kube registry runtime m.cluster pod c dry_run mutated spec).0 ≡ ok spec'
      → Holds c pod.spec.containers spec'.volumes spec'
  injected m pod dry_run spec mutated spec' held e = elim (Bool-cases (injecting mutated)) [
    | inr nothing ↦
        let (same, _, own) = held "" in
        let (unmutated, _, _) =
          three mutated (c.ct_config_map == "") (c.agent_config_map == "") nothing in
        subst (λ s. Holds c pod.spec.containers s.volumes s)
          (inject-same m.cluster pod dry_run mutated spec spec' nothing e)
          (subst (λ vs. Holds c pod.spec.containers vs spec) (sym same) (own unmutated))
    | inl adding ↦
        let (name, named) = inject-fails m.cluster pod dry_run mutated spec spec' adding e in
        let (same, all, _) = held name in
        inject-Holds pod.spec.containers m.cluster pod dry_run mutated spec spec' name adding named
          (subst (λ vs. Ready c pod.spec.containers (all_volumes vs name c) spec) (sym same) all) e
  ]

  -- Every mount of a container or an init container in a pod that MutatePod returns has a volume in
  -- that pod, if the mounts of the pod's own containers had, and if the agent is used only with a
  -- config map of its own or one for Consul Template; but for two: the mount at /token of the volume
  -- that the token-auth-mount option names, and, where no container of the pod as it came has a mount
  -- at the path of the service account's token, the zero value in place of that mount.
  pub mutate_pod-AllMounted :
      (m : Machine kube registry runtime) (pod : Pod) (dry_run : Bool) (spec' : PodSpec)
      → Holds c pod.spec.containers pod.spec.volumes pod.spec
      → (mutate_pod kube registry runtime m pod c dry_run).0 ≡ ok spec'
      → Holds c pod.spec.containers spec'.volumes spec'
  unfolding mutate_pod
  mutate_pod-AllMounted m pod dry_run spec' h e =
      elim (Bool-cases (is_pod_already_mutated pod.spec)) [
        | inl before ↦
            subst (λ s. Holds c pod.spec.containers s.volumes s)
              (ok-injective (rw (before, mutate_pod) at e)) h
        | inr new ↦
            elim (Result-cases (mutate_all_containers kube registry runtime m c pod.spec).0) [
              | inl ((mutated, spec), all) ↦
                  injected m pod dry_run spec mutated spec'
                    (λ name. mutate_all_containers-Holds m pod.spec spec mutated name h all)
                    (rw (new, all, mutate_pod) at e)
              | inr (failure, failed) ↦ absurd (cc (rw (new, failed, mutate_pod) at e))
            ]
      ]
