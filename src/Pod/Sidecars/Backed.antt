-- ===== src/Pod/Sidecars/Backed.antt =====
-- pkg/webhook/pod.go: the mounts of the init containers that the webhook adds.
use mathlib.Core.Path.{subst}
use vault_secrets_webhook.Base.{
  ◌≡◌, refl, ◌⊎◌, inl, inr, Bool, true, false, not, Option, List, [], ◌∷◌, ◌++◌, ◌||◌, ◌&&◌, ◌==◌,
  arith, All, All-append, if◌then◌else◌, ok, >>=-eq-ok, ok-injective, Bool-cases, String,
}
use vault_secrets_webhook.Config.{VaultConfig}
use vault_secrets_webhook.Kube.{
  EnvVar, VolumeMount, volume_mount, Container, PodSecurityContext, Volume,
}
use vault_secrets_webhook.Pod.Inject.{container_mounts}
use vault_secrets_webhook.Pod.Inject.Volumes.{
  IsBacked, has_template, has_agent, provided, vault_env_lem, vault_agent_init-IsBacked,
}
use vault_secrets_webhook.Pod.Sidecars.Token.{IsToken, copy_vault_token-cases}
use vault_secrets_webhook.Pod.Sidecars.{
  token_container, vault_agent_init, copy_vault_env, token_containers, get_init_containers,
}

module _ (existing : List Volume) (name : String) (c : VaultConfig) (originals : List Container)
    (context : Option PodSecurityContext) (env : List EnvVar)
    (usable : (has_template existing name c || has_agent existing name c || not c.use_agent)
      ≡ true) where
  -- A mount that is backed, or that of the token's volume, which the options name.
  abbrev pub IsInit : VolumeMount → Type 0
  IsInit mount = IsBacked existing name c originals mount ⊎ IsToken c mount

  abbrev pub AllInit : List Container → Type 0
  AllInit = All (λ k. All IsInit k.volume_mounts)

  token_container-AllInit :
      (mount token : String)
      → IsToken c (volume_mount mount "/token")
      → All IsInit (token_container context c mount token).volume_mounts
  unfolding token_container
  token_container-AllInit mount token named =
      (inl (inl (provided existing name c _ (vault_env_lem existing name c))), (inr named, tt))

  agent-AllInit :
      (c.use_agent || has_template existing name c) ≡ true
      → All IsInit
          (vault_agent_init originals context c env (container_mounts c existing)).volume_mounts
  agent-AllInit used =
      all_inl _
        (vault_agent_init-IsBacked existing name c originals context env used (ground arith))
    where
      all_inl :
          (mounts : List VolumeMount)
          → All (IsBacked existing name c originals) mounts
          → All IsInit mounts
      all_inl [] h = tt
      all_inl (mount ∷ mounts) (p, h) = (inl p, all_inl mounts h)

  token_containers-AllInit :
      (first : List Container)
      → token_containers originals context c env (container_mounts c existing) ≡ ok first
      → AllInit first
  unfolding token_containers
  token_containers-AllInit first e = elim (Bool-cases (c.token_auth_mount == "")) [
    | inr used ↦ elim (copy_vault_token-cases context c) [
      | inl panicked ↦ absurd (cc (rw (used, panicked, token_containers) at e))
      | inr (mount, token, more, pieces, built) ↦
          subst AllInit (ok-injective (rw (used, built, token_containers) at e))
            (token_container-AllInit mount token (used, (mount, token, more, pieces, refl)), tt)
    ]
    | inl unused ↦
        elim (Bool-cases (c.token == "" && (c.use_agent || not (c.ct_config_map == "")))) [
          | inl agent ↦
              subst AllInit (ok-injective (rw (unused, agent, token_containers) at e))
                (agent-AllInit (ground arith), tt)
          | inr none_needed ↦
              subst AllInit (ok-injective (rw (unused, none_needed, token_containers) at e)) tt
        ]
  ]

  with_copy :
      (mutated : Bool) (first : List Container)
      → AllInit first
      → AllInit (if mutated then first ++ (copy_vault_env context c ∷ []) else first)
  unfolding copy_vault_env
  with_copy true first h =
      All-append (λ k. All IsInit k.volume_mounts) first _ h
        ((inl (inl (provided existing name c _ (vault_env_lem existing name c))), tt), tt)
  with_copy false first h = h

  -- Each mount of an init container that is added is backed, or that of the token's volume, where
  -- the agent is used only with a config map for it or for Consul Template.
  pub get_init_containers-AllInit :
      (mutated : Bool) (added : List Container)
      → get_init_containers originals context c mutated env (container_mounts c existing) ≡ ok added
      → AllInit added
  unfolding get_init_containers
  get_init_containers-AllInit mutated added e =
      let (first, found, same) =
        >>=-eq-ok (token_containers originals context c env (container_mounts c existing)) _ e in
      subst AllInit (ok-injective same)
        (with_copy mutated first (token_containers-AllInit first found))
