-- ===== src/Pod/Sidecars/Owner.antt =====
-- pkg/webhook/pod.go: the name of the Vault Agent's config map.
use Prim.Native.Char.{Char}
use vault_secrets_webhook.Base.{String, ◌<>◌, ◌≡◌, ◌∙◌, ap, true, List, ◌∷◌, init}
use vault_secrets_webhook.Base.Text.{split, join, contains}
use vault_secrets_webhook.Base.Text.Split.{
  lacks_char, join-init-split, contains-append, single-append,
}
use vault_secrets_webhook.Config.{VaultConfig}
use vault_secrets_webhook.Kube.{OwnerReference, Pod}
use vault_secrets_webhook.Pod.Sidecars.{owner_name, get_config_map_for_vault_agent}

abbrev dash : Char
dash = "-"

owner_name-dashed :
    (pod : Pod) (owner : OwnerReference) (owners : List OwnerReference) (base suffix : String)
    → pod.name ≡ ""
    → pod.owner_references ≡ owner ∷ owners
    → owner.name ≡ base <> "-" <> suffix
    → lacks_char dash suffix ≡ true
    → owner_name pod ≡ base
unfolding owner_name
owner_name-dashed pod owner owners base suffix unnamed owned named last =
    let whole = named ∙ ap (λ t. base <> t) (single-append dash suffix) in
    let found : contains owner.name "-" ≡ true =
      ap (λ n. contains n "-") whole ∙ contains-append dash base suffix in
    let stripped : join (init (split owner.name dash)) "-" ≡ base =
      ap (λ n. join (init (split n dash)) "-") whole ∙ join-init-split dash base suffix last in
    simp (unnamed, owned, found, stripped, owner_name)

-- A pod without a name whose first owner's name ends in a dash and a part without one, as those of a
-- deployment's replica sets do, gets the config map named by what stands before that dash.
get_config_map_for_vault_agent-dashed :
    (pod : Pod) (c : VaultConfig) (owner : OwnerReference) (owners : List OwnerReference)
    (base suffix : String)
    → pod.name ≡ ""
    → pod.owner_references ≡ owner ∷ owners
    → owner.name ≡ base <> "-" <> suffix
    → lacks_char dash suffix ≡ true
    → (get_config_map_for_vault_agent pod c).name ≡ base <> "-vault-agent-config"
unfolding get_config_map_for_vault_agent
get_config_map_for_vault_agent-dashed pod c owner owners base suffix unnamed owned named last =
    ap (λ n. n <> "-vault-agent-config")
      (owner_name-dashed pod owner owners base suffix unnamed owned named last)
