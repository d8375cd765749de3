-- ===== src/Pod/Mutate/Mounted.antt =====
-- pkg/webhook/pod.go: every mount in the pod that MutatePod returns has a volume.
pub mod Whole
use mathlib.Core.Path.{subst}
use vault_secrets_webhook.Base.{
  String, ◌≡◌, refl, ◌∙◌, sym, ap, inl, inr, Bool, true, false, Bool-cases, not, Option, List, [],
  ◌∷◌, ◌++◌, ◌||◌, ◌&&◌, ◌==◌, All, All-append, arith, if◌then◌else◌, ok, >>=-eq-ok, ok-injective,
  wrap-eq-ok, Result-cases,
}
use vault_secrets_webhook.Config.{VaultConfig}
use vault_secrets_webhook.Kube.{
  EnvVar, VolumeMount, volume_mount, Container, Volume, has_volume, PodSpec, Pod, Kube,
  ImageRegistry,
}
use vault_secrets_webhook.Pod.Containers.{mutate_containers}
use vault_secrets_webhook.Pod.Containers.Loop.{mutate_containers-Mutation}
use vault_secrets_webhook.Pod.Inject.{
  get_volumes, container_env, container_mounts, get_service_account_mount,
  add_secrets_vol_to_containers, add_agent_secrets_vol_to_containers,
}
use vault_secrets_webhook.Pod.Inject.Account.{LacksAccount}
use vault_secrets_webhook.Pod.Inject.Volumes.{
  IsBacked, has_template, has_agent, provided, ct_secrets_lem, agent_secrets_lem, vault_env_lem,
  sidecars-IsBacked, vault_agent_init-IsBacked,
}
use vault_secrets_webhook.Pod.Sidecars.{
  get_containers, get_agent_containers, get_init_containers, vault_agent_init, copy_vault_token,
}
use vault_secrets_webhook.Pod.Sidecars.Backed.{IsInit, get_init_containers-AllInit}
use vault_secrets_webhook.Pod.Mutate.{
  is_pod_already_mutated, Runtime, Machine, decide_share_process, share_namespace, place_template,
  inject_template, place_init, ensure_config_map, inject_init, place_agent, inject_agent, inject,
  mutate_all_containers, mutate_pod,
}
use vault_secrets_webhook.Pod.Mutate.Added.{with_template, with_agent}
use vault_secrets_webhook.Pod.Mutate.Origin.{All-map}
use vault_secrets_webhook.Pod.Mutate.Mounts.{
  IsMounted, AllMounted, Holds, Ready, add_mount-LacksAccount, LacksAccount-append, all_volumes,
  settled, add_mount-AllMounted, container_mounts-IsMounted, Mutation-AllMounted,
  Mutation-unchanged,
}

module _ (kube : Kube) (registry : ImageRegistry) (runtime : Runtime) (c : VaultConfig)
    (existing : List Volume) (name : String) (base : List Container) where
  abbrev volumes : List Volume
  volumes = all_volumes existing name c

  All-settled :
      (originals : List Container)
      → (LacksAccount c originals → LacksAccount c base)
      → AllMounted c base volumes originals
      → (added : List Container)
      → All (λ k. All (IsBacked existing name c originals) k.volume_mounts) added
      → AllMounted c base volumes added
  All-settled originals keeps h =
      All-map (λ k. All (IsBacked existing name c originals) k.volume_mounts)
        (λ k. All (IsMounted c base volumes) k.volume_mounts)
        (λ k. settled existing name c base originals keeps h k.volume_mounts)

  chosen :
      (test : Bool) (x y : PodSpec)
      → Ready c base volumes x × (x.volumes ≡ existing)
      → Ready c base volumes y × (y.volumes ≡ existing)
      → Ready c base volumes (if test then x else y) × ((if test then x else y).volumes ≡ existing)
  chosen true x y h k = h
  chosen false x y h k = k

  chosen_list :
      (test : Bool) (cs ds : List Container)
      → AllMounted c base volumes cs
      → AllMounted c base volumes ds
      → AllMounted c base volumes (if test then cs else ds)
  chosen_list true cs ds h k = h
  chosen_list false cs ds h k = k

  module _ (env : List EnvVar) where
    template-AllMounted :
        (share : Bool) (spec : PodSpec)
        → has_template existing name c ≡ true
        → AllMounted c base volumes spec.containers
        → (LacksAccount c spec.containers → LacksAccount c base)
        → AllMounted c base volumes (
            get_containers spec.security_context
              (with_template c share)
              env
              (container_mounts c existing))
    unfolding get_volumes get_service_account_mount container_mounts
    template-AllMounted share spec used k keeps = All-settled spec.containers keeps k _ (
        (sidecars-IsBacked existing name (with_template c share) runtime.unmarshal_env
            spec.containers spec.security_context env).0
          used)

    place_template-Ready :
        (share : Bool) (spec : PodSpec)
        → has_template existing name c ≡ true
        → Ready c base volumes spec
        → spec.volumes ≡ existing
        → let placed =
            place_template kube registry runtime
              (with_template c share)
              env
              (container_mounts c existing)
              spec in
          Ready c base volumes placed × (placed.volumes ≡ existing)
    unfolding place_template add_secrets_vol_to_containers
    place_template-Ready share spec used ((h, k), keeps) same =
        let secret : IsMounted c base volumes (volume_mount "ct-secrets" c.configfile_path) =
          inl (provided existing name c "ct-secrets" (ct_secrets_lem existing name c used)) in
        let mounted = add_mount-AllMounted c base volumes _ secret spec.containers k in
        let sidecar = template-AllMounted share spec used k keeps in
        chosen (not c.ct_once) _ _
          (
            (
              (h, All-append _ _ _ sidecar mounted),
              λ lacks. keeps (
                  add_mount-LacksAccount c (volume_mount "ct-secrets" c.configfile_path)
                    spec.containers
                    (LacksAccount-append c
                      (get_containers spec.security_context (with_template c share) env
                        (container_mounts c existing))
                      (add_secrets_vol_to_containers c spec.containers) lacks)),
            ),
            same,
          )
          (
            (
              (
                All-append _ _ _ sidecar (
                    chosen_list c.ct_inject_in_initcontainers _ _
                      (add_mount-AllMounted c base volumes _ secret spec.init_containers h) h),
                mounted,
              ),
              λ lacks. keeps (
                  add_mount-LacksAccount c (volume_mount "ct-secrets" c.configfile_path)
                    spec.containers lacks),
            ),
            same,
          )

    inject_template-Ready :
        (cluster : kube.Cluster) (spec spec' : PodSpec)
        → Ready c base volumes spec
        → spec.volumes ≡ existing
        → inject_template kube registry runtime cluster c env (container_mounts c existing) spec
          ≡ ok spec'
        → Ready c base volumes spec' × (spec'.volumes ≡ existing)
    unfolding inject_template
    inject_template-Ready cluster spec spec' h same e = elim (Bool-cases (c.ct_config_map == "")) [
      | inl unset ↦
          subst (λ s. Ready c base volumes s × (s.volumes ≡ existing))
            (ok-injective (rw (unset, inject_template) at e)) (h, same)
      | inr set ↦
          let (share, _, placed) =
            >>=-eq-ok
              (decide_share_process kube registry runtime cluster c.ct_share_process_default
                c.ct_share_process)
              _ (rw (set, inject_template) at e) in
          subst (λ s. Ready c base volumes s × (s.volumes ≡ existing)) (ok-injective placed)
            (place_template-Ready share (share_namespace kube registry runtime share spec)
              (ap not set) h same)
    ]

    module _
        (usable : (has_template existing name c || has_agent existing name c || not c.use_agent)
          ≡ true) where
      init_settled :
          (spec : PodSpec)
          → (LacksAccount c spec.containers → LacksAccount c base)
          → AllMounted c base volumes spec.containers
          → (mounts : List VolumeMount)
          → All (IsInit existing name c spec.containers spec.security_context env usable) mounts
          → All (IsMounted c base volumes) mounts
      init_settled spec keeps h [] k = tt
      init_settled spec keeps h (mount ∷ mounts) (inl backed, k) = (
        (settled existing name c base spec.containers keeps h (mount ∷ []) (backed, tt)).0,
        init_settled spec keeps h mounts k,
      )
      init_settled spec keeps h (mount ∷ mounts) (inr token, k) =
          (inr (inr token), init_settled spec keeps h mounts k)

      place_init-Ready :
          (mutated : Bool) (spec spec' : PodSpec)
          → Ready c base volumes spec
          → spec.volumes ≡ existing
          → place_init kube registry runtime c mutated env (container_mounts c existing) spec name
            ≡ ok spec'
          → Ready c base volumes spec' × (spec'.volumes ≡ volumes)
      unfolding place_init
      place_init-Ready mutated spec spec' ((h, k), keeps) same e =
          let (added, found, placed) =
            >>=-eq-ok
              (get_init_containers spec.containers spec.security_context c mutated env
                (container_mounts c existing))
              _ e in
          let inits =
            All-map
              (λ ms.
                All (IsInit existing name c spec.containers spec.security_context env usable)
                  ms.volume_mounts)
              (λ ms. All (IsMounted c base volumes) ms.volume_mounts)
              (λ ms. init_settled spec keeps k ms.volume_mounts) added
              (get_init_containers-AllInit existing name c spec.containers spec.security_context env
                usable mutated added found) in
          subst (λ s. Ready c base volumes s × (s.volumes ≡ volumes)) (ok-injective placed)
            (
              ((All-append _ added _ inits h, k), keeps),
              ap (λ vs. vs ++ get_volumes vs name c) same,
            )

    agent-AllMounted :
        (share : Bool) (spec : PodSpec)
        → has_agent existing name c ≡ true
        → (LacksAccount c spec.containers → LacksAccount c base)
        → AllMounted c base volumes spec.containers
        → AllMounted c base volumes (
            get_agent_containers runtime.unmarshal_env spec.containers spec.security_context
              (with_agent c share)
              env
              (container_mounts c existing))
    unfolding get_volumes get_service_account_mount container_mounts
    agent-AllMounted share spec used keeps h = All-settled spec.containers keeps h _ (
        (sidecars-IsBacked existing name (with_agent c share) runtime.unmarshal_env spec.containers
            spec.security_context env).1
          used)

    inject_agent-Holds :
        (cluster : kube.Cluster) (spec spec' : PodSpec)
        → Ready c base volumes spec
        → inject_agent kube registry runtime cluster c env (container_mounts c existing) spec
          ≡ ok spec'
        → Holds c base volumes spec' × (spec'.volumes ≡ spec.volumes)
    unfolding inject_agent place_agent add_agent_secrets_vol_to_containers
    inject_agent-Holds cluster spec spec' ((h, k), keeps) e =
        elim (Bool-cases (c.agent_config_map == "")) [
          | inl unset ↦
              subst (λ s. Holds c base volumes s × (s.volumes ≡ spec.volumes))
                (ok-injective (rw (unset, inject_agent) at e)) ((h, k), refl)
          | inr set ↦
              let secret : IsMounted c base volumes
                  (volume_mount "agent-secrets" c.configfile_path) =
                inl (
                  provided existing name c "agent-secrets"
                    (agent_secrets_lem existing name c ∙ ap not set)) in
              let mounted = add_mount-AllMounted c base volumes _ secret spec.containers k in
              elim (Bool-cases c.use_agent) [
                | inl used ↦
                    subst (λ s. Holds c base volumes s × (s.volumes ≡ spec.volumes))
                      (ok-injective (simp (set, used, inject_agent) at e)) ((h, mounted), refl)
                | inr sidecar ↦
                    let (share, _, placed) =
                      >>=-eq-ok
                        (decide_share_process kube registry runtime cluster
                          c.agent_share_process_default c.agent_share_process)
                        _ (simp (set, sidecar, inject_agent) at e) in
                    subst (λ s. Holds c base volumes s × (s.volumes ≡ spec.volumes))
                      (ok-injective placed)
                      (
                        (
                          h,
                          All-append _ _ _
                              (agent-AllMounted share
                                (record spec {
                                  containers =
                                      add_agent_secrets_vol_to_containers c spec.containers;
                                })
                                (ap not set)
                                (λ lacks. keeps (
                                  add_mount-LacksAccount c
                                    (volume_mount "agent-secrets" c.configfile_path) spec.containers
                                    lacks))
                                mounted)
                              mounted,
                        ),
                        refl,
                      )
              ]
        ]
