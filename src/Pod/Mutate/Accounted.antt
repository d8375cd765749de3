-- ===== src/Pod/Mutate/Accounted.antt =====
-- pkg/webhook/pod.go: MutatePod adds no container but the webhook's confined ones.
use mathlib.Core.Path.{subst}
use vault_secrets_webhook.Base.{
  String, ◌≡◌, ap, inl, inr, Bool, true, false, not, Option, List, ◌||◌, ◌==◌, All, All-append,
  if◌then◌else◌, ok, >>=-eq-ok, ok-injective, Result-cases, Bool-cases,
}
use vault_secrets_webhook.Config.{VaultConfig}
use vault_secrets_webhook.Kube.{
  EnvVar, VolumeMount, Container, PodSecurityContext, PodSpec, Pod, Kube, ImageRegistry,
}
use vault_secrets_webhook.Pod.Containers.{mutate_containers}
use vault_secrets_webhook.Pod.Containers.Loop.{mutate_containers-Mutation}
use vault_secrets_webhook.Pod.Inject.{
  container_env, container_mounts, add_secrets_vol_to_containers,
  add_agent_secrets_vol_to_containers,
}
use vault_secrets_webhook.Pod.Sidecars.{get_init_containers}
use vault_secrets_webhook.Pod.Sidecars.Confined.{AddedConfined, get_init_containers-IsConfined}
use vault_secrets_webhook.Pod.Mutate.{
  is_pod_already_mutated, Runtime, Machine, decide_share_process, share_namespace, place_template,
  inject_template, place_init, ensure_config_map, inject_init, place_agent, inject_agent, inject,
  mutate_all_containers, mutate_pod,
}
use vault_secrets_webhook.Pod.Mutate.Origin.{
  FromOriginal, IsAccounted, All-map, add_mount-IsAccounted, added_permitted, Mutation-FromOriginal,
}
use vault_secrets_webhook.Pod.Mutate.Added.{with_template, template-IsAccounted, agent-IsAccounted}

module _ (kube : Kube) (registry : ImageRegistry) (runtime : Runtime) (c : VaultConfig)
    (inits containers : List Container) where
  -- Every container of the pod is accounted for.
  abbrev pub AllAccounted : PodSpec → Type 0
  AllAccounted spec =
      All (IsAccounted c spec.security_context inits) spec.init_containers
      × All (IsAccounted c spec.security_context containers) spec.containers

  either :
      (test : Bool) (x y : PodSpec)
      → AllAccounted x
      → AllAccounted y
      → AllAccounted (if test then x else y)
  either true x y h k = h
  either false x y h k = k

  some_mounted :
      (test : Bool) (context : Option PodSecurityContext) (cs ds : List Container)
      → All (IsAccounted c context inits) cs
      → All (IsAccounted c context inits) ds
      → All (IsAccounted c context inits) (if test then cs else ds)
  some_mounted true context cs ds h k = h
  some_mounted false context cs ds h k = k

  module _ (env : List EnvVar) (mounts : List VolumeMount) where
    place_template-AllAccounted :
        (share : Bool) (spec : PodSpec)
        → AllAccounted spec
        → AllAccounted
            (place_template kube registry runtime (with_template c share) env mounts spec)
    unfolding place_template add_secrets_vol_to_containers
    place_template-AllAccounted share spec (h, k) =
        let context = spec.security_context in
        let mounted = add_mount-IsAccounted c context containers _ spec.containers k in
        either (not c.ct_once) _ _
          (h, All-append _ _ _ (template-IsAccounted c context containers env mounts share) mounted)
          (
            All-append _ _ _ (template-IsAccounted c context inits env mounts share) (
                some_mounted c.ct_inject_in_initcontainers context _ _
                  (add_mount-IsAccounted c context inits _ spec.init_containers h) h),
            mounted,
          )

    inject_template-AllAccounted :
        (cluster : kube.Cluster) (spec spec' : PodSpec)
        → AllAccounted spec
        → inject_template kube registry runtime cluster c env mounts spec ≡ ok spec'
        → AllAccounted spec'
    unfolding inject_template
    inject_template-AllAccounted cluster spec spec' h e =
        elim (Bool-cases (c.ct_config_map == "")) [
          | inl unset ↦ subst AllAccounted (ok-injective (rw (unset, inject_template) at e)) h
          | inr set ↦
              let (share, _, same) =
                >>=-eq-ok
                  (decide_share_process kube registry runtime cluster c.ct_share_process_default
                    c.ct_share_process)
                  _ (rw (set, inject_template) at e) in
              subst AllAccounted (ok-injective same) (
                place_template-AllAccounted share (share_namespace kube registry runtime share spec)
                  h)
        ]

    place_init-AllAccounted :
        (mutated : Bool) (spec spec' : PodSpec) (name : String)
        → AllAccounted spec
        → place_init kube registry runtime c mutated env mounts spec name ≡ ok spec'
        → AllAccounted spec'
    unfolding place_init
    place_init-AllAccounted mutated spec spec' name (h, k) e =
        let (added, found, same) =
          >>=-eq-ok (get_init_containers spec.containers spec.security_context c mutated env mounts)
            _ e in
        let confined =
          get_init_containers-IsConfined spec.security_context c spec.containers mutated env mounts
            added found in
        subst AllAccounted (ok-injective same) (
          All-append _ added _
              (All-map (AddedConfined spec.security_context c)
                (IsAccounted c spec.security_context inits)
                (added_permitted c spec.security_context inits) added confined)
              h,
          k,
        )

    inject_init-AllAccounted :
        (cluster : kube.Cluster) (pod : Pod) (dry_run mutated : Bool) (spec spec' : PodSpec)
        → AllAccounted spec
        → (inject_init kube registry runtime cluster pod c dry_run mutated env mounts spec).0
          ≡ ok spec'
        → AllAccounted spec'
    unfolding inject_init
    inject_init-AllAccounted cluster pod dry_run mutated spec spec' h e =
        elim (Bool-cases
          (mutated || not (c.ct_config_map == "") || not (c.agent_config_map == ""))) [
            | inr nothing ↦ subst AllAccounted (ok-injective (rw (nothing, inject_init) at e)) h
            | inl injecting ↦
                elim (Result-cases
                  (ensure_config_map kube registry runtime cluster pod c dry_run).0) [
                    | inl (name, named) ↦
                        place_init-AllAccounted mutated spec spec' name h
                          (rw (injecting, named, inject_init) at e)
                    | inr (failure, failed) ↦ absurd (cc (rw (injecting, failed, inject_init) at e))
                  ]
          ]

    inject_agent-AllAccounted :
        (cluster : kube.Cluster) (spec spec' : PodSpec)
        → AllAccounted spec
        → inject_agent kube registry runtime cluster c env mounts spec ≡ ok spec'
        → AllAccounted spec'
    unfolding inject_agent place_agent add_agent_secrets_vol_to_containers
    inject_agent-AllAccounted cluster spec spec' (h, k) e =
        elim (Bool-cases (c.agent_config_map == "")) [
          | inl unset ↦ subst AllAccounted (ok-injective (rw (unset, inject_agent) at e)) (h, k)
          | inr set ↦
              let mounted =
                add_mount-IsAccounted c spec.security_context containers _ spec.containers k in
              elim (Bool-cases c.use_agent) [
                | inl used ↦
                    subst AllAccounted (ok-injective (simp (set, used, inject_agent) at e))
                      (h, mounted)
                | inr sidecar ↦
                    let (share, _, same) =
                      >>=-eq-ok
                        (decide_share_process kube registry runtime cluster
                          c.agent_share_process_default c.agent_share_process)
                        _ (simp (set, sidecar, inject_agent) at e) in
                    subst AllAccounted (ok-injective same) (
                      h,
                      All-append _ _ _
                          (agent-IsAccounted c spec.security_context containers env mounts
                            runtime.unmarshal_env _ share)
                          mounted,
                    )
              ]
        ]

  inject-AllAccounted :
      (cluster : kube.Cluster) (pod : Pod) (dry_run mutated : Bool) (spec spec' : PodSpec)
      → AllAccounted spec
      → (inject kube registry runtime cluster pod c dry_run mutated spec).0 ≡ ok spec'
      → AllAccounted spec'
  unfolding inject
  inject-AllAccounted cluster pod dry_run mutated spec spec' h e =
      let env = container_env c spec.volumes in
      let mounts = container_mounts c spec.volumes in
      elim (Result-cases (inject_template kube registry runtime cluster c env mounts spec)) [
        | inl (templated, t) ↦
            let placed =
              inject_init kube registry runtime cluster pod c dry_run mutated env mounts
                templated in
            let (ready, p, a) =
              >>=-eq-ok placed.0
                (λ ready. inject_agent kube registry runtime placed.1 c env mounts ready)
                (rw (t, inject) at e) in
            inject_agent-AllAccounted env mounts placed.1 ready spec'
              (inject_init-AllAccounted env mounts cluster pod dry_run mutated templated ready
                (inject_template-AllAccounted env mounts cluster spec templated h t) p)
              a
        | inr (failure, failed) ↦ absurd (cc (rw (failed, inject) at e))
      ]

module _ (kube : Kube) (registry : ImageRegistry) (runtime : Runtime)
    (m : Machine kube registry runtime) (c : VaultConfig) where
  mutate_all_containers-AllAccounted :
      (spec spec' : PodSpec) (mutated : Bool)
      → (mutate_all_containers kube registry runtime m c spec).0 ≡ ok (mutated, spec')
      → AllAccounted kube registry runtime c spec.init_containers spec.containers spec'
  unfolding mutate_all_containers
  mutate_all_containers-AllAccounted spec spec' mutated e =
      let h = runtime.has_inline in
      let s = runtime.show_duration in
      elim (Result-cases
        (mutate_containers kube registry h s m.cluster m.cache c spec spec.init_containers).0) [
          | inl ((b, inits), first) ↦
              let spec'' : PodSpec = record spec { init_containers = inits } in
              let cache' =
                (mutate_containers kube registry h s m.cluster m.cache c spec
                  spec.init_containers).1 in
              let ((b', cs), second, same) =
                >>=-eq-ok
                  (mutate_containers kube registry h s m.cluster cache' c spec'' spec.containers).0
                  (λ (mutated, containers).
                    ok (b || mutated, record spec'' { containers = containers }))
                  (rw (first, mutate_all_containers) at e) in
              subst (AllAccounted kube registry runtime c spec.init_containers spec.containers)
                (ap (λ o. o.1) (ok-injective same))
                (
                  All-map (FromOriginal spec.init_containers)
                      (IsAccounted c spec.security_context spec.init_containers) (λ k f. inl f)
                      inits
                      (Mutation-FromOriginal (
                        mutate_containers-Mutation kube registry h s m.cluster c spec m.cache
                          spec.init_containers inits b first)),
                  All-map (FromOriginal spec.containers)
                      (IsAccounted c spec.security_context spec.containers) (λ k f. inl f) cs
                      (Mutation-FromOriginal (
                        mutate_containers-Mutation kube registry h s m.cluster c spec'' cache'
                          spec.containers cs b' second)),
                )
          | inr (failure, failed) ↦ absurd (cc (rw (failed, mutate_all_containers) at e))
        ]

  -- Every container and init container of a pod that MutatePod returns, where it was not mutated
  -- before, is one of the pod's own, with its name, image and rights, or one of the webhook's that
  -- drops all capabilities, adds permitted ones alone and runs as the options say.
  pub mutate_pod-AllAccounted :
      (pod : Pod) (dry_run : Bool) (spec' : PodSpec)
      → is_pod_already_mutated pod.spec ≡ false
      → (mutate_pod kube registry runtime m pod c dry_run).0 ≡ ok spec'
      → AllAccounted kube registry runtime c pod.spec.init_containers pod.spec.containers spec'
  unfolding mutate_pod
  mutate_pod-AllAccounted pod dry_run spec' new e =
      elim (Result-cases (mutate_all_containers kube registry runtime m c pod.spec).0) [
        | inl ((mutated, spec), all) ↦
            inject-AllAccounted kube registry runtime c pod.spec.init_containers pod.spec.containers
              m.cluster pod dry_run mutated spec spec'
              (mutate_all_containers-AllAccounted pod.spec spec mutated all)
              (rw (new, all, mutate_pod) at e)
        | inr (failure, failed) ↦ absurd (cc (rw (new, failed, mutate_pod) at e))
      ]
