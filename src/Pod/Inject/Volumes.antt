-- ===== src/Pod/Inject/Volumes.antt =====
-- pkg/webhook/pod.go: the volumes that getVolumes adds, and the mounts that rely on them.
use mathlib.Core.List.{Memᴰ}
use vault_secrets_webhook.Base.{
  String, ◌≡◌, ◌⊎◌, ◌↔◌, ◌∙◌, refl, inl, inr, Bool, true, false, not, Option, List, [], ◌∷◌, ◌++◌,
  ◌||◌, ◌==◌, arith, any-append, All, All-append, if◌then◌else◌, Bool-cases,
}
use vault_secrets_webhook.Config.{VaultConfig}
use vault_secrets_webhook.Kube.{
  EnvVar, VolumeMount, volume_mount, Volume, VolumeSource, empty_dir_memory, has_volume, Container,
  PodSecurityContext,
}
use vault_secrets_webhook.Pod.Containers.{tls_volume_name}
use vault_secrets_webhook.Pod.Inject.{
  get_volumes, container_mounts, get_service_account_mount, volumes_if, volume,
}
use vault_secrets_webhook.Pod.Sidecars.{vault_agent_init, get_containers, get_agent_containers}

member_right {ℓ} : {A : Type ℓ} {x : A} (xs ys : List A) → Memᴰ x ys → Memᴰ x (xs ++ ys)
member_right [] ys m = m
member_right (_ ∷ xs) ys m = Memᴰ.tail (member_right xs ys m)

module _ (existing : List Volume) (config_map_name : String) (c : VaultConfig) where
  -- The pod has a volume of this name, its own or one that is added.
  abbrev pub Provided : String → Type 0
  Provided name = has_volume name (existing ++ get_volumes existing config_map_name c) ≡ true

  pub provided :
      (name : String)
      → has_volume name (get_volumes existing config_map_name c) ≡ true
      → Provided name
  provided name h = any-append _ existing _ ∙ ground arith

  abbrev pub has_template : Bool
  has_template = not (c.ct_config_map == "")

  abbrev pub has_agent : Bool
  has_agent = not (c.agent_config_map == "")

  pub vault_env_lem : has_volume "vault-env" (get_volumes existing config_map_name c) ≡ true
  unfolding get_volumes
  vault_env_lem = refl

  tls_at :
      (taken agent : Bool) (config : Volume) (source : VolumeSource) (rest : List Volume)
      → config.name ≡ "vault-agent-config"
      → (let name : String = if taken then "vault-env-tls" else "vault-tls" in
          has_volume name (
            volume "vault-env" empty_dir_memory
            ∷ (volumes_if agent (config ∷ []) ++ (volume name source ∷ rest))))
        ≡ true
  tls_at true true config source rest e = rw e
  tls_at true false config source rest e = refl
  tls_at false true config source rest e = rw e
  tls_at false false config source rest e = refl

  tls_lem :
      (c.tls_secret == "") ≡ false
      → has_volume (tls_volume_name existing) (get_volumes existing config_map_name c) ≡ true
  unfolding get_volumes
  tls_lem set =
      rw set (tls_at (has_volume "vault-tls" existing) (c.use_agent || has_template) _ _ _ refl)

  agent_config_lem :
      (c.use_agent || has_template) ≡ true
      → has_volume "vault-agent-config" (get_volumes existing config_map_name c) ≡ true
  unfolding get_volumes
  agent_config_lem used = ground arith

  pub ct_secrets_lem :
      has_template ≡ true → has_volume "ct-secrets" (get_volumes existing config_map_name c) ≡ true
  unfolding get_volumes
  ct_secrets_lem used = ground arith

  ct_config_lem :
      has_template ≡ true
      → has_volume "ct-configmap" (get_volumes existing config_map_name c) ≡ true
  unfolding get_volumes
  ct_config_lem used = ground arith

  pub agent_secrets_lem :
      has_volume "agent-secrets" (get_volumes existing config_map_name c) ≡ has_agent
  unfolding get_volumes
  agent_secrets_lem = elim (Bool-cases (has_volume "vault-tls" existing)) [
    | inl there ↦ rw (there, get_volumes) (ground arith)
    | inr absent ↦ rw (absent, get_volumes) (ground arith)
  ]

  agent_configmap_lem :
      has_agent ≡ true
      → has_volume "agent-configmap" (get_volumes existing config_map_name c) ≡ true
  unfolding get_volumes
  agent_configmap_lem used = ground arith

  -- A mount of a volume that the pod has, or else the one for the service account's token.
  abbrev pub IsBacked : List Container → VolumeMount → Type 0
  IsBacked originals mount = Provided mount.name ⊎ (mount ≡ get_service_account_mount originals c)

  -- The webhook's own mounts have their volumes.
  pub container_mounts-Provided : All (λ m. Provided m.name) (container_mounts c existing)
  unfolding container_mounts
  container_mounts-Provided = elim (Bool-cases (c.tls_secret == "")) [
    | inl unset ↦ rw (unset, container_mounts) (provided _ vault_env_lem, tt)
    | inr set ↦
        rw (set, container_mounts) (provided _ vault_env_lem, (provided _ (tls_lem set), tt))
  ]

  pub container_mounts-IsBacked :
      (originals : List Container) → All (IsBacked originals) (container_mounts c existing)
  unfolding container_mounts
  container_mounts-IsBacked originals = elim (Bool-cases (c.tls_secret == "")) [
    | inl unset ↦ rw (unset, container_mounts) (inl (provided _ vault_env_lem), tt)
    | inr set ↦
        rw (set, container_mounts)
          (inl (provided _ vault_env_lem), (inl (provided _ (tls_lem set)), tt))
  ]

  -- The containers that run beside the pod's own mount volumes that the pod has, and for the Vault
  -- Agent the mount of the service account: Consul Template where its config map is named, the agent
  -- where its config map is.
  pub sidecars-IsBacked :
      (unmarshal : String → Option (List EnvVar)) (originals : List Container)
      (context : Option PodSecurityContext) (env : List EnvVar)
      → (has_template ≡ true
          → All
              (λ k. All (IsBacked originals) k.volume_mounts)
              (get_containers context c env (container_mounts c existing)))
        × (has_agent ≡ true
            → All
                (λ k. All (IsBacked originals) k.volume_mounts)
                (get_agent_containers unmarshal originals context c env
                  (container_mounts c existing)))
  unfolding get_containers get_agent_containers
  sidecars-IsBacked unmarshal originals context env = (
    λ used. (
      All-append (IsBacked originals) (container_mounts c existing) _
          (container_mounts-IsBacked originals)
          (
            inl (provided _ (ct_secrets_lem used)),
            (inl (provided _ vault_env_lem), (inl (provided _ (ct_config_lem used)), tt)),
          ),
      tt,
    ),
    λ used. (
      All-append (IsBacked originals) (container_mounts c existing) _
          (container_mounts-IsBacked originals)
          (
            inr refl,
            (
              inl (provided _ (agent_secrets_lem ∙ used)),
              (inl (provided _ (agent_configmap_lem used)), tt),
            ),
          ),
      tt,
    ),
  )

  -- The Vault Agent's init container mounts volumes that the pod has, and the mount of the service
  -- account, where Consul Template's config map or the agent's is named.
  pub vault_agent_init-IsBacked :
      (originals : List Container) (context : Option PodSecurityContext) (env : List EnvVar)
      → (c.use_agent || has_template) ≡ true
      → (has_template || has_agent) ≡ true
      → All
          (IsBacked originals)
          (vault_agent_init originals context c env (container_mounts c existing)).volume_mounts
  unfolding vault_agent_init
  vault_agent_init-IsBacked originals context env used named =
      All-append (IsBacked originals) (container_mounts c existing) _
        (container_mounts-IsBacked originals)
        (inr refl, (inl (provided _ (agent_config_lem used)), own_mount))
    where
      own_mount : All (IsBacked originals) (
          if c.ct_config_map == "" then volume_mount "agent-secrets" c.configfile_path ∷ [] else [])
      own_mount = elim (Bool-cases (c.ct_config_map == "")) [
        | inl unset ↦ rw unset (inl (provided _ (agent_secrets_lem ∙ ground arith)), tt)
        | inr set ↦ rw set tt
      ]

  -- Where neither config map is named, the init container's mount of `agent-secrets` has a volume
  -- only if the pod brings one of that name.
  pub vault_agent_init-agent_secrets :
      (originals : List Container) (context : Option PodSecurityContext) (env : List EnvVar)
      → has_template ≡ false
      → has_agent ≡ false
      → Memᴰ
          (volume_mount "agent-secrets" c.configfile_path)
          (vault_agent_init originals context c env (container_mounts c existing)).volume_mounts
        × (Provided "agent-secrets" ↔ (has_volume "agent-secrets" existing ≡ true))
  unfolding vault_agent_init
  vault_agent_init-agent_secrets originals context env no_template no_agent =
      let unset : (c.ct_config_map == "") ≡ true = ground arith in
      let split =
        any-append (λ v. v.name == "agent-secrets") existing
          (get_volumes existing config_map_name c) in
      (
        rw unset
            (member_right (container_mounts c existing) _ (Memᴰ.tail (Memᴰ.tail (Memᴰ.head refl)))),
        ground (arith, split, agent_secrets_lem),
      )
