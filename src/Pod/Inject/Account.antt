-- ===== src/Pod/Inject/Account.antt =====
-- pkg/webhook/pod.go: the mount that getServiceAccountMount finds.
use mathlib.Core.Path.{subst}
use mathlib.Core.Option.{some-injective}
use vault_secrets_webhook.Base.{
  String, ◌≡◌, inl, inr, false, Bool-cases, Option-cases, none, some, List, [], ◌∷◌, ◌==◌, All,
}
use vault_secrets_webhook.Config.{VaultConfig}
use vault_secrets_webhook.Kube.{VolumeMount, volume_mount, Container}
use vault_secrets_webhook.Pod.Inject.{mount_at, first_mount_at, get_service_account_mount}

-- No container has a mount at the path of the service account's token.
abbrev pub LacksAccount : VaultConfig → List Container → Type 0
LacksAccount c =
    All (λ k.
      All (λ m. (m.mount_path == c.service_account_token_volume_name) ≡ false) k.volume_mounts)

mount_at-none :
    (path : String) (mounts : List VolumeMount)
    → mount_at path mounts ≡ none
    → All (λ m. (m.mount_path == path) ≡ false) mounts
unfolding mount_at
mount_at-none path [] e = tt
mount_at-none path (mount ∷ mounts) e = elim (Bool-cases (mount.mount_path == path)) [
  | inl here ↦ absurd (cc (rw (here, mount_at) at e))
  | inr there ↦ (there, mount_at-none path mounts (rw (there, mount_at) at e))
]

first_mount_at-none :
    (path : String) (cs : List Container)
    → first_mount_at path cs ≡ none
    → All (λ k. All (λ m. (m.mount_path == path) ≡ false) k.volume_mounts) cs
unfolding first_mount_at
first_mount_at-none path [] e = tt
first_mount_at-none path (container ∷ cs) e =
    elim (Option-cases (mount_at path container.volume_mounts)) [
      | inl missing ↦ (
        mount_at-none path container.volume_mounts missing,
        first_mount_at-none path cs (rw (missing, first_mount_at) at e),
      )
      | inr (mount, found) ↦ absurd (cc (rw (found, first_mount_at) at e))
    ]

module _ {ℓ} (P : VolumeMount → Type ℓ) (path : String) where
  mount_at-All :
      (mounts : List VolumeMount) (m : VolumeMount)
      → All P mounts
      → mount_at path mounts ≡ some m
      → P m
  unfolding mount_at
  mount_at-All [] m h e = absurd (cc e)
  mount_at-All (mount ∷ mounts) m (p, h) e = elim (Bool-cases (mount.mount_path == path)) [
    | inl here ↦ subst P (some-injective _ _ (rw (here, mount_at) at e)) p
    | inr there ↦ mount_at-All mounts m h (rw (there, mount_at) at e)
  ]

  first_mount_at-All :
      (cs : List Container) (m : VolumeMount)
      → All (λ k. All P k.volume_mounts) cs
      → first_mount_at path cs ≡ some m
      → P m
  unfolding first_mount_at
  first_mount_at-All [] m h e = absurd (cc e)
  first_mount_at-All (container ∷ cs) m (p, h) e =
      elim (Option-cases (mount_at path container.volume_mounts)) [
        | inl missing ↦ first_mount_at-All cs m h (rw (missing, first_mount_at) at e)
        | inr (mount, found) ↦
            subst P (some-injective _ _ (rw (found, first_mount_at) at e))
              (mount_at-All container.volume_mounts mount p found)
      ]

-- What holds of every mount of the containers, and of the zero value where no mount is at the path,
-- holds of the mount found.
pub get_service_account_mount-All {ℓ} :
    (P : VolumeMount → Type ℓ) (cs : List Container) (c : VaultConfig)
    → All (λ k. All P k.volume_mounts) cs
    → (LacksAccount c cs → P (volume_mount "" ""))
    → P (get_service_account_mount cs c)
unfolding get_service_account_mount
get_service_account_mount-All P cs c h zero' =
    elim (Option-cases (first_mount_at c.service_account_token_volume_name cs)) [
      | inl missing ↦
          rw (missing, get_service_account_mount)
            (zero' (first_mount_at-none c.service_account_token_volume_name cs missing))
      | inr (mount, found) ↦
          rw (found, get_service_account_mount)
            (first_mount_at-All P c.service_account_token_volume_name cs mount h found)
    ]
