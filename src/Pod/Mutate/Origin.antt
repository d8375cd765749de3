-- ===== src/Pod/Mutate/Origin.antt =====
-- pkg/webhook/pod.go: where the containers of a mutated pod come from, and what they may do.
use mathlib.Core.List.{Memᴰ}
use vault_secrets_webhook.Base.{
  String, ◌≡◌, ◌⊎◌, refl, inl, inr, Bool, true, false, Option, List, [], ◌∷◌, ◌++◌, ◌==◌, map, any,
  All, if◌then◌else◌,
}
use vault_secrets_webhook.Config.{VaultConfig, Duration}
use vault_secrets_webhook.Kube.{
  VolumeMount, Container, PodSecurityContext, PodSpec, Kube, ImageRegistry,
}
use vault_secrets_webhook.Pod.Containers.{mutate_container}
use vault_secrets_webhook.Pod.Containers.Loop.{Mutation, done, keep, replace}
use vault_secrets_webhook.Pod.Inject.{add_mount, agent_capabilities}
use vault_secrets_webhook.Pod.Sidecars.Confined.{IsConfined, AddedConfined}

-- The container of the pod that this one is: mutated or not, it has its name, image and rights.
pub record FromOriginal (originals : List Container) (container : Container) : Type 0 where
  pub original : Container
  pub member : Memᴰ original originals
  pub same_name : container.name ≡ original.name
  pub same_image : container.image ≡ original.image
  pub same_rights : container.security_context ≡ original.security_context

-- All that a container of the webhook's may add.
abbrev pub permitted : List String
permitted = "SYS_PTRACE" ∷ agent_capabilities

abbrev pub IsPermitted : List String → Type 0
IsPermitted added = All (λ capability. any (λ p. p == capability) permitted ≡ true) added

-- The container is one of the pod's own, or the webhook's: confined by the options and the pod's
-- security context, with permitted capabilities alone.
abbrev pub IsAccounted :
    VaultConfig → Option PodSecurityContext → List Container → Container → Type 0
IsAccounted c context originals container =
    FromOriginal originals container
    ⊎ ((added : List String) × IsPermitted added × IsConfined context c added container)

FromOriginal-tail :
    {originals : List Container} {container : Container} (x : Container)
    → FromOriginal originals container
    → FromOriginal (x ∷ originals) container
FromOriginal-tail x f = record {
  original = f.original;
  member = Memᴰ.tail f.member;
  same_name = f.same_name;
  same_image = f.same_image;
  same_rights = f.same_rights;
}

pub All-map {ℓ κ} :
    {A : Type ℓ} (P Q : A → Type κ) → ((a : A) → P a → Q a) → (xs : List A) → All P xs → All Q xs
All-map P Q f [] h = tt
All-map P Q f (x ∷ xs) (p, h) = (f x p, All-map P Q f xs h)

module _ (c : VaultConfig) (context : Option PodSecurityContext) (originals : List Container) where
  pub add_mount-IsAccounted :
      (mount : VolumeMount) (cs : List Container)
      → All (IsAccounted c context originals) cs
      → All (IsAccounted c context originals) (map (add_mount mount) cs)
  add_mount-IsAccounted mount [] h = tt
  add_mount-IsAccounted mount (k ∷ cs) (inl f, h) = (
    inl (record {
      original = f.original;
      member = f.member;
      same_name = f.same_name;
      same_image = f.same_image;
      same_rights = f.same_rights;
    }),
    add_mount-IsAccounted mount cs h,
  )
  add_mount-IsAccounted mount (k ∷ cs) (inr (added, ok', confined), h) =
      (inr (added, ok', confined), add_mount-IsAccounted mount cs h)

  pub share-IsPermitted : (share : Bool) → IsPermitted (if share then "SYS_PTRACE" ∷ [] else [])
  share-IsPermitted true = (refl, tt)
  share-IsPermitted false = tt

  pub agent_share-IsPermitted :
      (share : Bool) → IsPermitted (agent_capabilities ++ (if share then "SYS_PTRACE" ∷ [] else []))
  agent_share-IsPermitted true = (refl, (refl, (refl, (refl, (refl, (refl, (refl, tt)))))))
  agent_share-IsPermitted false = (refl, (refl, (refl, (refl, (refl, (refl, tt))))))

  agent-IsPermitted : (is_agent : Bool) → IsPermitted (if is_agent then agent_capabilities else [])
  agent-IsPermitted true = agent_share-IsPermitted false
  agent-IsPermitted false = tt

  pub added_permitted :
      (container : Container)
      → AddedConfined context c container
      → IsAccounted c context originals container
  added_permitted container confined =
      inr (_, agent-IsPermitted (container.name == "vault-agent"), confined)

-- The containers of a run of mutateContainers are the pod's.
pub Mutation-FromOriginal :
    {kube : Kube} {registry : ImageRegistry} {has_inline : String → Bool} {show : Duration → String}
    {cluster : kube.Cluster} {c : VaultConfig} {spec : PodSpec} {cs ds : List Container} {b : Bool}
    → Mutation kube registry has_inline show cluster c spec cs ds b
    → All (FromOriginal cs) ds
unfolding mutate_container
Mutation-FromOriginal done = tt
Mutation-FromOriginal {cs = _ ∷ cs} (keep container _ _ rest) = (
  record {
    original = container;
    member = Memᴰ.head refl;
    same_name = refl;
    same_image = refl;
    same_rights = refl;
  },
  All-map (FromOriginal _) (FromOriginal _) (λ k f. FromOriginal-tail container f) _
      (Mutation-FromOriginal rest),
)
Mutation-FromOriginal {cs = _ ∷ cs} (replace container line _ _ rest) = (
  record {
    original = container;
    member = Memᴰ.head refl;
    same_name = refl;
    same_image = refl;
    same_rights = refl;
  },
  All-map (FromOriginal _) (FromOriginal _) (λ k f. FromOriginal-tail container f) _
      (Mutation-FromOriginal rest),
)
