-- ===== src/Pod/Mutate/Mounts.antt =====
-- pkg/webhook/pod.go: the mounts of a mutated pod's containers, and the volumes behind them.
use mathlib.Core.Path.{subst}
use vault_secrets_webhook.Base.{
  String, ◌≡◌, refl, sym, ap, ◌⊎◌, inl, inr, Bool, true, false, Bool-cases, List, [], ◌∷◌, ◌++◌,
  append_assoc, ◌==◌, map, All, All-append, All-split, false,
}
use vault_secrets_webhook.Config.{VaultConfig, Duration}
use vault_secrets_webhook.Kube.{
  VolumeMount, volume_mount, Container, Volume, has_volume, PodSpec, Kube, ImageRegistry,
}
use vault_secrets_webhook.Pod.Containers.{mutate_container, mutated_mounts}
use vault_secrets_webhook.Pod.Containers.Loop.{Mutation, done, keep, replace}
use vault_secrets_webhook.Pod.Inject.{get_volumes, container_mounts, add_mount}
use vault_secrets_webhook.Pod.Inject.Account.{LacksAccount, get_service_account_mount-All}
use vault_secrets_webhook.Pod.Inject.Volumes.{IsBacked, Provided, container_mounts-Provided}
use vault_secrets_webhook.Pod.Sidecars.Token.{IsToken}
use vault_secrets_webhook.Pod.Mutate.Origin.{All-map}

-- A mount has a volume; or it is the zero value, in a pod of which no container has a mount for the
-- service account's token; or it is the one at /token of the volume that the options name. `base` is
-- the pod's containers before anything is done.
abbrev pub IsMounted : VaultConfig → List Container → List Volume → VolumeMount → Type 0
IsMounted c base volumes mount =
    (has_volume mount.name volumes ≡ true)
    ⊎ (((mount ≡ volume_mount "" "") × LacksAccount c base) ⊎ IsToken c mount)

abbrev pub AllMounted : VaultConfig → List Container → List Volume → List Container → Type 0
AllMounted c base volumes = All (λ k. All (IsMounted c base volumes) k.volume_mounts)

abbrev pub Holds : VaultConfig → List Container → List Volume → PodSpec → Type 0
Holds c base volumes spec =
    AllMounted c base volumes spec.init_containers × AllMounted c base volumes spec.containers

-- That, while no mount for the service account's token is lost.
abbrev pub Ready : VaultConfig → List Container → List Volume → PodSpec → Type 0
Ready c base volumes spec =
    Holds c base volumes spec × (LacksAccount c spec.containers → LacksAccount c base)

-- One mount more for each container.
pub add_mount-AllMounted :
    (c : VaultConfig) (base : List Container) (volumes : List Volume) (mount : VolumeMount)
    → IsMounted c base volumes mount
    → (cs : List Container) → AllMounted c base volumes cs
    → AllMounted c base volumes (map (add_mount mount) cs)
add_mount-AllMounted c base volumes mount p [] h = tt
add_mount-AllMounted c base volumes mount p (k ∷ cs) (own, h) = (
  All-append (IsMounted c base volumes) k.volume_mounts (mount ∷ []) own (p, tt),
  add_mount-AllMounted c base volumes mount p cs h,
)

-- What lacks the mount with one more lacks it without.
pub add_mount-LacksAccount :
    (c : VaultConfig) (mount : VolumeMount) (cs : List Container)
    → LacksAccount c (map (add_mount mount) cs)
    → LacksAccount c cs
add_mount-LacksAccount c mount [] h = tt
add_mount-LacksAccount c mount (k ∷ cs) (own, h) = (
  (All-split (λ m. (m.mount_path == c.service_account_token_volume_name) ≡ false) k.volume_mounts
      (mount ∷ []) own).0,
  add_mount-LacksAccount c mount cs h,
)

pub LacksAccount-append :
    (c : VaultConfig) (cs ds : List Container) → LacksAccount c (cs ++ ds) → LacksAccount c ds
LacksAccount-append c cs ds lacks =
    (All-split
      (λ k.
        All (λ m. (m.mount_path == c.service_account_token_volume_name) ≡ false) k.volume_mounts)
      cs ds lacks).1

-- The volumes once those of the webhook are added.
abbrev pub all_volumes : List Volume → String → VaultConfig → List Volume
all_volumes existing config_map_name c = existing ++ get_volumes existing config_map_name c

module _ (existing : List Volume) (config_map_name : String) (c : VaultConfig)
    (base : List Container) where
  abbrev volumes : List Volume
  volumes = all_volumes existing config_map_name c

  -- Mounts that are backed but for the service account's are mounted in a pod whose own are.
  pub settled :
      (originals : List Container)
      → (LacksAccount c originals → LacksAccount c base)
      → AllMounted c base volumes originals
      → (mounts : List VolumeMount) → All (IsBacked existing config_map_name c originals) mounts
      → All (IsMounted c base volumes) mounts
  settled originals keeps h mounts =
      All-map (IsBacked existing config_map_name c originals) (IsMounted c base volumes)
        (λ mount. λ backed. elim backed [
          | inl there ↦ inl there
          | inr account ↦ subst (IsMounted c base volumes) (sym account) (
              get_service_account_mount-All (IsMounted c base volumes) originals c h
                (λ lacks. inr (inl (refl, keeps lacks))))
        ])
        mounts

  mutated_mounts-append :
      (mounts : List VolumeMount)
      → mutated_mounts c existing mounts ≡ mounts ++ container_mounts c existing
  unfolding mutated_mounts container_mounts
  mutated_mounts-append mounts = elim (Bool-cases (c.tls_secret == "")) [
    | inl unset ↦ rw (unset, mutated_mounts) refl
    | inr set ↦ rw (set, mutated_mounts) (append_assoc mounts _ _)
  ]

  pub container_mounts-IsMounted : All (IsMounted c base volumes) (container_mounts c existing)
  container_mounts-IsMounted =
      All-map (λ m. Provided existing config_map_name c m.name) (IsMounted c base volumes)
        (λ m there. inl there) (container_mounts c existing)
        (container_mounts-Provided existing config_map_name c)

  mutate_container-IsMounted :
      (show : Duration → String) (line : List String) (k : Container)
      → All (IsMounted c base volumes) k.volume_mounts
      → All (IsMounted c base volumes) (mutate_container show c existing line k).volume_mounts
  unfolding mutate_container
  mutate_container-IsMounted show line k h =
      subst (All (IsMounted c base volumes)) (sym (mutated_mounts-append k.volume_mounts))
        (All-append (IsMounted c base volumes) k.volume_mounts _ h container_mounts-IsMounted)

  mutate_container-LacksAccount :
      (show : Duration → String) (line : List String) (k : Container)
      → LacksAccount c (mutate_container show c existing line k ∷ [])
      → LacksAccount c (k ∷ [])
  unfolding mutate_container
  mutate_container-LacksAccount show line k (lacks, _) =
      let Elsewhere : VolumeMount → Type 0 =
        λ m. (m.mount_path == c.service_account_token_volume_name) ≡ false in
      (
        (All-split Elsewhere k.volume_mounts (container_mounts c existing)
            (subst (All Elsewhere) (mutated_mounts-append k.volume_mounts) lacks)).0,
        tt,
      )

module _ (kube : Kube) (registry : ImageRegistry) (has_inline : String → Bool)
    (show : Duration → String) (cluster : kube.Cluster) (c : VaultConfig) (spec : PodSpec)
    (base : List Container) where
  -- Mutated containers mount what the webhook adds beside their own.
  pub Mutation-AllMounted :
      (config_map_name : String) {cs ds : List Container} {b : Bool}
      → Mutation kube registry has_inline show cluster c spec cs ds b
      → AllMounted c base (all_volumes spec.volumes config_map_name c) cs
      → AllMounted c base (all_volumes spec.volumes config_map_name c) ds
  Mutation-AllMounted name done h = tt
  Mutation-AllMounted name (keep container found unset rest) (own, h) =
      (own, Mutation-AllMounted name rest h)
  Mutation-AllMounted name (replace container line refers by_line rest) (own, h) = (
    mutate_container-IsMounted spec.volumes name c base show line container own,
    Mutation-AllMounted name rest h,
  )

  -- Mutation loses no mount.
  pub Mutation-LacksAccount :
      {cs ds : List Container} {b : Bool}
      → Mutation kube registry has_inline show cluster c spec cs ds b
      → LacksAccount c ds
      → LacksAccount c cs
  Mutation-LacksAccount done h = tt
  Mutation-LacksAccount (keep container found unset rest) (own, h) =
      (own, Mutation-LacksAccount rest h)
  Mutation-LacksAccount (replace container line refers by_line rest) (own, h) = (
    (mutate_container-LacksAccount spec.volumes "" c base show line container (own, tt)).0,
    Mutation-LacksAccount rest h,
  )

  -- Where none is mutated, the containers are as they were.
  pub Mutation-unchanged :
      {cs ds : List Container} {b : Bool}
      → Mutation kube registry has_inline show cluster c spec cs ds b
      → b ≡ false
      → ds ≡ cs
  Mutation-unchanged done e = refl
  Mutation-unchanged (keep container found unset rest) e =
      ap (λ ks. container ∷ ks) (Mutation-unchanged rest e)
  Mutation-unchanged (replace container line refers by_line rest) e = absurd (cc e)
