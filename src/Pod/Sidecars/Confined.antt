-- ===== src/Pod/Sidecars/Confined.antt =====
-- pkg/webhook/pod.go: what the containers that the webhook adds may do.
use mathlib.Core.Path.{subst}
use vault_secrets_webhook.Base.{
  ℤ, String, ◌≡◌, refl, inl, inr, Bool, true, false, not, Option, none, some, List, [], ◌∷◌, ◌++◌,
  ◌||◌, ◌&&◌, ◌==◌, All, All-append, if◌then◌else◌, ok, >>=-eq-ok, ok-injective, Bool-cases,
  is_positive,
}
use vault_secrets_webhook.Config.{VaultConfig}
use vault_secrets_webhook.Kube.{EnvVar, VolumeMount, SecurityContext, Container, PodSecurityContext}
use vault_secrets_webhook.Pod.Sidecars.Token.{copy_vault_token-cases}
use vault_secrets_webhook.Pod.Inject.{with_added, get_base_security_context, agent_capabilities}
use vault_secrets_webhook.Pod.Sidecars.{
  token_container, vault_agent_init, copy_vault_env, token_containers, get_init_containers,
  get_containers, get_agent_containers,
}

module _ (pod : Option PodSecurityContext) (c : VaultConfig) where
  -- The user of a container: that of the options if positive, else the pod's.
  abbrev pub expected_user : Option ℤ
  expected_user =
      if is_positive c.run_as_user
      then some c.run_as_user
      else elim pod [ none ↦ none | some context ↦ context.run_as_user ]

  -- A security context that drops every capability, adds these and follows the options.
  pub record Confines (added : List String) (context : SecurityContext) : Type 0 where
    pub drops_all : context.capabilities.drop ≡ "ALL" ∷ []
    pub adds : context.capabilities.add ≡ added
    pub user : context.run_as_user ≡ expected_user
    pub group :
        context.run_as_group ≡ (if is_positive c.run_as_group then some c.run_as_group else none)
    pub non_root : context.run_as_non_root ≡ (if c.run_as_non_root then some true else none)
    pub escalation : context.allow_privilege_escalation ≡ some c.psp_allow_privilege_escalation
    pub root_filesystem : context.read_only_root_filesystem ≡ some c.read_only_root_filesystem

  -- The container's own security context confines it to these capabilities.
  abbrev pub IsConfined : List String → Container → Type 0
  IsConfined added container =
      (context : SecurityContext) × (container.security_context ≡ some context)
      × Confines added context

  -- The capabilities that an added container of this name may have.
  abbrev pub added_for : String → List String
  added_for name = if name == "vault-agent" then agent_capabilities else []

  get_base_security_context-Confines : Confines [] (get_base_security_context pod c)
  unfolding get_base_security_context
  get_base_security_context-Confines = record {
    drops_all = refl;
    adds = refl;
    user = refl;
    group = refl;
    non_root = refl;
    escalation = refl;
    root_filesystem = refl;
  }

  with_added-Confines :
      (added : List String) → Confines added (with_added added (get_base_security_context pod c))
  unfolding get_base_security_context
  with_added-Confines added = record {
    drops_all = refl;
    adds = refl;
    user = refl;
    group = refl;
    non_root = refl;
    escalation = refl;
    root_filesystem = refl;
  }

  abbrev pub AddedConfined : Container → Type 0
  AddedConfined container = IsConfined (added_for container.name) container

  token_container-IsConfined :
      (mount token : String) → AddedConfined (token_container pod c mount token)
  unfolding token_container
  token_container-IsConfined mount token = (_, refl, get_base_security_context-Confines)

  token_containers-IsConfined :
      (originals : List Container) (env : List EnvVar) (mounts : List VolumeMount)
      (first : List Container)
      → token_containers originals pod c env mounts ≡ ok first
      → All AddedConfined first
  unfolding token_containers vault_agent_init
  token_containers-IsConfined originals env mounts first e =
      elim (Bool-cases (c.token_auth_mount == "")) [
        | inr used ↦ elim (copy_vault_token-cases pod c) [
          | inl panicked ↦ absurd (cc (rw (used, panicked, token_containers) at e))
          | inr (mount, token, _, _, built) ↦
              subst (All AddedConfined) (ok-injective (rw (used, built, token_containers) at e))
                (token_container-IsConfined mount token, tt)
        ]
        | inl unused ↦
            elim (Bool-cases (c.token == "" && (c.use_agent || not (c.ct_config_map == "")))) [
              | inl agent ↦
                  subst (All AddedConfined)
                    (ok-injective (rw (unused, agent, token_containers) at e))
                    ((_, refl, with_added-Confines agent_capabilities), tt)
              | inr none_needed ↦
                  subst (All AddedConfined)
                    (ok-injective (rw (unused, none_needed, token_containers) at e)) tt
            ]
      ]

  with_copy :
      (mutated : Bool) (first : List Container)
      → All AddedConfined first
      → All AddedConfined (if mutated then first ++ (copy_vault_env pod c ∷ []) else first)
  unfolding copy_vault_env
  with_copy true first h =
      All-append AddedConfined first _ h ((_, refl, get_base_security_context-Confines), tt)
  with_copy false first h = h

  -- The init containers that the webhook adds drop every capability, run as the user and the group
  -- of the options, and add no capability but, for the Vault Agent, its six.
  pub get_init_containers-IsConfined :
      (originals : List Container) (mutated : Bool) (env : List EnvVar) (mounts : List VolumeMount)
      (added : List Container)
      → get_init_containers originals pod c mutated env mounts ≡ ok added
      → All AddedConfined added
  unfolding get_init_containers copy_vault_env
  get_init_containers-IsConfined originals mutated env mounts added e =
      let (first, found, same) =
        >>=-eq-ok (token_containers originals pod c env mounts)
          (λ first. ok (if mutated then first ++ (copy_vault_env pod c ∷ []) else first)) e in
      subst (All AddedConfined) (ok-injective same)
        (with_copy mutated first (token_containers-IsConfined originals env mounts first found))

  -- The containers that run beside the pod's own drop every capability, run as the user and the
  -- group of the options, and keep the Vault Agent's capabilities and the tracing of processes where
  -- the pod's processes share a namespace.
  pub sidecars-IsConfined :
      (unmarshal : String → Option (List EnvVar)) (originals : List Container) (env : List EnvVar)
      (mounts : List VolumeMount)
      → All
          (IsConfined (if c.ct_share_process then "SYS_PTRACE" ∷ [] else []))
          (get_containers pod c env mounts)
        × All
            (IsConfined
              (agent_capabilities ++ (if c.agent_share_process then "SYS_PTRACE" ∷ [] else [])))
            (get_agent_containers unmarshal originals pod c env mounts)
  unfolding get_containers get_agent_containers
  sidecars-IsConfined unmarshal originals env mounts =
      (((_, refl, with_added-Confines _), tt), ((_, refl, with_added-Confines _), tt))
