-- ===== src/Pod/Containers/Loop.antt =====
-- pkg/webhook/pod.go: what the loop of mutateContainers does to the list of containers.
use mathlib.Core.Path.{subst}
use mathlib.Core.Option.{some-injective}
use vault_secrets_webhook.Base.{
  String, ◌≡◌, ◌≢◌, ◌⊎◌, inl, inr, refl, sym, ap, Bool, true, false, Option, none, some, List, [],
  ◌∷◌, ◌++◌, ◌==◌, arith, eq_iff, is_empty, if◌then◌else◌, ok, ◌>>=◌, ok-injective, append-nil, ap₂,
  ◌∙◌, Result-cases, >>=-eq-ok, Bool-cases,
}
use vault_secrets_webhook.Config.{VaultConfig, Duration}
use vault_secrets_webhook.Kube.{EnvVar, Container, PodSpec, Kube, ImageRegistry, ImageConfig}
use vault_secrets_webhook.Pod.Containers.{
  mutate_container, vault_vars, line_for, command_line, step_with, step_container,
  mutate_containers, keep_or_replace,
}

module _ (kube : Kube) (registry : ImageRegistry) (has_inline : String → Bool)
    (show : Duration → String) (cluster : kube.Cluster) (c : VaultConfig) (spec : PodSpec) where
  -- The container names something in Vault.
  abbrev pub RefersToVault : Container → Type 0
  RefersToVault container =
      ((v : EnvVar) × (vs : List EnvVar) × (vault_vars kube registry has_inline show cluster
            c.object_namespace container
          ≡ ok (v ∷ vs)))
      ⊎ (c.vault_env_from_path ≢ "")

  -- The registry, in some state of its cache, answers with this configuration of the container's image.
  abbrev pub IsImageOf : Container → ImageConfig → Type 0
  IsImageOf container image =
      (cache : registry.Cache) × ((registry.get_image_config cache c.object_namespace
          c.registry_skip_verify container spec).0
        ≡ ok image)

  -- The command line of a container: its own, or that of its image.
  pub data CommandLine (container : Container) (line : List String) : Type 0 where
    own :
        container.command ≢ []
        → line ≡ container.command ++ container.args
        → CommandLine container line
    of_image :
        (image : ImageConfig)
        → IsImageOf container image
        → container.command ≡ []
        → container.args ≡ []
        → line ≡ image.entrypoint ++ image.cmd
        → CommandLine container line
    of_entrypoint :
        (image : ImageConfig)
        → IsImageOf container image
        → container.command ≡ []
        → container.args ≢ []
        → line ≡ image.entrypoint ++ container.args
        → CommandLine container line

  -- What becomes of the containers, and whether any is mutated: each is kept as it is and refers to
  -- nothing in Vault, or refers to it and is mutated with its command line.
  pub data Mutation : List Container → List Container → Bool → Type 0 where
    done : Mutation [] [] false
    keep :
        {cs ds : List Container} {b : Bool} (container : Container)
        → vault_vars kube registry has_inline show cluster c.object_namespace container ≡ ok []
        → c.vault_env_from_path ≡ ""
        → Mutation cs ds b
        → Mutation (container ∷ cs) (container ∷ ds) b
    replace :
        {cs ds : List Container} {b : Bool} (container : Container) (line : List String)
        → RefersToVault container
        → CommandLine container line
        → Mutation cs ds b
        → Mutation (container ∷ cs) (mutate_container show c spec.volumes line container ∷ ds) true

  -- The line that an image gives a container with these arguments.
  image_line :
      (container : Container) (image : ImageConfig) (line args : List String)
      → IsImageOf container image
      → [] ≡ container.command
      → args ≡ container.args
      → (image.entrypoint ++ (if is_empty args then image.cmd else [])) ++ args ≡ line
      → CommandLine container line
  image_line container image line [] its none_given same e =
      of_image image its (sym none_given) (sym same) (sym e ∙ append-nil _)
  image_line container image line (a ∷ as') its none_given same e =
      of_entrypoint image its (sym none_given) (λ empty. cc)
        (sym e ∙ ap₂ (λ x y. x ++ y) (append-nil image.entrypoint) same)

  line_for-CommandLine :
      (cache : registry.Cache) (container : Container) (command line : List String)
      → command ≡ container.command
      → (line_for kube registry has_inline show cache c spec container command).0 ≡ ok line
      → CommandLine container line
  unfolding line_for
  line_for-CommandLine cache container [] line given e =
      let (image, answered, same) =
        >>=-eq-ok
          (registry.get_image_config cache c.object_namespace c.registry_skip_verify container
            spec).0
          (λ image. ok (
            (image.entrypoint ++ (if is_empty container.args then image.cmd else []))
            ++ container.args))
          e in
      image_line container image line container.args (cache, answered) given refl
        (ok-injective same)
  line_for-CommandLine cache container (word ∷ words) line given e =
      own (λ empty. cc) (sym (ok-injective e) ∙ ap (λ w. w ++ container.args) given)

  -- What the body of the loop does to a container.
  abbrev Stepped : Container → Option Container → Type 0
  Stepped container next =
      ((next ≡ none)
        × (vault_vars kube registry has_inline show cluster c.object_namespace container ≡ ok [])
        × (c.vault_env_from_path ≡ ""))
      ⊎ ((line : List String) × (next ≡ some (mutate_container show c spec.volumes line container))
          × RefersToVault container
          × CommandLine container line)

  replaced :
      (cache : registry.Cache) (container : Container) (next : Option Container)
      → RefersToVault container
      → ((command_line kube registry has_inline show cache c spec container).0 >>= λ args.
          ok (some (mutate_container show c spec.volumes args container)))
        ≡ ok next
      → Stepped container next
  unfolding command_line
  replaced cache container next refers e =
      let (line, found, same) = >>=-eq-ok _ _ e in
      inr (
        line,
        sym (ok-injective same),
        refers,
        line_for-CommandLine cache container container.command line refl found,
      )

  step_with-Stepped :
      (cache : registry.Cache) (container : Container) (next : Option Container)
      (vars : List EnvVar)
      → vault_vars kube registry has_inline show cluster c.object_namespace container ≡ ok vars
      → (step_with kube registry has_inline show cache c spec container vars).0 ≡ ok next
      → Stepped container next
  unfolding step_with
  step_with-Stepped cache container next [] found e =
      elim (Bool-cases (c.vault_env_from_path == "")) [
        | inl unset ↦
            inl (sym (ok-injective (rw (unset, step_with) at e)), found, (eq_iff _ _).0 unset)
        | inr set ↦
            replaced cache container next (inr (ground (arith, eq_iff c.vault_env_from_path "")))
              (rw (set, step_with) at e)
      ]
  step_with-Stepped cache container next (v ∷ vs) found e =
      replaced cache container next (inl (v, vs, found)) e

  step_container-Stepped :
      (cache : registry.Cache) (container : Container) (next : Option Container)
      → (step_container kube registry has_inline show cluster cache c spec container).0 ≡ ok next
      → Stepped container next
  unfolding step_container
  step_container-Stepped cache container next e =
      elim (Result-cases
        (vault_vars kube registry has_inline show cluster c.object_namespace container)) [
          | inl (vars, found) ↦
              step_with-Stepped cache container next vars found (rw (found, step_container) at e)
          | inr (failure, failed) ↦ absurd (cc (rw (failed, step_container) at e))
        ]

  Stepped-Mutation :
      (container : Container) (next : Option Container) {b : Bool} {cs ds : List Container}
      → Stepped container next
      → Mutation cs ds b
      → Mutation
          (container ∷ cs)
          (keep_or_replace next container (b, ds)).1
          (keep_or_replace next container (b, ds)).0
  Stepped-Mutation container none (inl (_, found, unset)) rest = keep container found unset rest
  Stepped-Mutation container none (inr (line, e, refers, by_line)) rest = absurd (cc e)
  Stepped-Mutation container (some new) (inl (e, found, unset)) rest = absurd (cc e)
  Stepped-Mutation container (some new) {cs} {ds} (inr (line, e, refers, by_line)) rest =
      subst (λ new. Mutation (container ∷ cs) (new ∷ ds) true) (sym (some-injective _ _ e))
        (replace container line refers by_line rest)

  -- Every run of mutateContainers without an error keeps each container that refers to nothing in Vault and replaces
  -- each that does by its mutation, whose command line is the container's own or that of a configuration which the
  -- registry has given for its image, and reports whether any was replaced.
  pub mutate_containers-Mutation :
      (cache : registry.Cache) (cs ds : List Container) (b : Bool)
      → (mutate_containers kube registry has_inline show cluster cache c spec cs).0 ≡ ok (b, ds)
      → Mutation cs ds b
  unfolding mutate_containers
  mutate_containers-Mutation cache [] ds b e =
      subst (λ p. Mutation [] p.1 p.0) (ok-injective e) done
  mutate_containers-Mutation cache (container ∷ cs) ds b e =
      elim (Result-cases
        (step_container kube registry has_inline show cluster cache c spec container).0) [
          | inl (next, stepped) ↦
              let ((b', ds'), rest, same) =
                >>=-eq-ok
                  (mutate_containers kube registry has_inline show cluster
                    (step_container kube registry has_inline show cluster cache c spec container).1
                    c spec cs).0
                  (λ done. ok (keep_or_replace next container done))
                  (rw (stepped, mutate_containers) at e) in
              subst (λ p. Mutation (container ∷ cs) p.1 p.0) (ok-injective same)
                (Stepped-Mutation container next
                  (step_container-Stepped cache container next stepped)
                  (mutate_containers-Mutation
                    (step_container kube registry has_inline show cluster cache c spec container).1
                    cs ds' b' rest))
          | inr (failure, failed) ↦ absurd (cc (rw (failed, mutate_containers) at e))
        ]

  -- Where no container is mutated, the list is as it was.
  pub Mutation-eq : {cs ds : List Container} {b : Bool} → Mutation cs ds b → b ≡ false → ds ≡ cs
  Mutation-eq done e = refl
  Mutation-eq (keep container _ _ rest) e = ap (λ l. container ∷ l) (Mutation-eq rest e)
  Mutation-eq (replace container line _ _ rest) e = absurd (cc e)
