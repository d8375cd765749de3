-- ===== src/Pod/Containers/Kept.antt =====
-- pkg/webhook/pod.go: a run of mutateContainers that mutates no container asks the registry nothing.
use vault_secrets_webhook.Base.{
  String, ◌≡◌, ◌∙◌, refl, inl, inr, Bool, false, Option, none, some, List, [], ◌∷◌, ◌&&◌, ◌==◌,
  is_empty, Result, ok, err, ◌>>=◌, >>=-eq-ok, ok-injective, Result-cases, Bool-cases, ap,
}
use vault_secrets_webhook.Config.{VaultConfig, Duration}
use vault_secrets_webhook.Kube.{EnvVar, Container, PodSpec, Kube, ImageRegistry, WebhookError}
use vault_secrets_webhook.Pod.Containers.{
  mutate_container, vault_vars, step_with, step_container, mutate_containers, keep_or_replace,
}

module _ (kube : Kube) (registry : ImageRegistry) (has_inline : String → Bool)
    (show : Duration → String) (cluster : kube.Cluster) (c : VaultConfig) (spec : PodSpec) where
  replace-ne-none :
      (r : Result WebhookError (List String)) (container : Container)
      → (r >>= λ args. ok (some (mutate_container show c spec.volumes args container))) ≡ ok none
      → ⊥
  replace-ne-none (ok args) container e = cc
  replace-ne-none (err f) container e = cc

  step_with-cache :
      (cache : registry.Cache) (container : Container) (vars : List EnvVar)
      → (step_with kube registry has_inline show cache c spec container vars).0 ≡ ok none
      → (step_with kube registry has_inline show cache c spec container vars).1 ≡ cache
  unfolding step_with
  step_with-cache cache container vars e =
      elim (Bool-cases (is_empty vars && c.vault_env_from_path == "")) [
        | inl kept ↦ rw (kept, step_with)
        | inr new ↦ absurd (replace-ne-none _ container (rw (new, step_with) at e))
      ]

  step_container-cache :
      (cache : registry.Cache) (container : Container)
      → (step_container kube registry has_inline show cluster cache c spec container).0 ≡ ok none
      → (step_container kube registry has_inline show cluster cache c spec container).1 ≡ cache
  unfolding step_container
  step_container-cache cache container e =
      elim (Result-cases
        (vault_vars kube registry has_inline show cluster c.object_namespace container)) [
          | inl (vars, found) ↦
              rw (found, step_container)
                (step_with-cache cache container vars (rw (found, step_container) at e))
          | inr (failure, failed) ↦ absurd (cc (rw (failed, step_container) at e))
        ]

  kept_step :
      (next : Option Container) (container : Container) (b : Bool) (cs ds : List Container)
      → keep_or_replace next container (b, cs) ≡ (false, ds)
      → (next ≡ none) × (b ≡ false)
  kept_step none container b cs ds e = (refl, ap (λ p. p.0) e)
  kept_step (some new) container b cs ds e = absurd (cc (ap (λ p. p.0) e))

  pub mutate_containers-cache :
      (cache : registry.Cache) (cs ds : List Container)
      → (mutate_containers kube registry has_inline show cluster cache c spec cs).0 ≡ ok (false, ds)
      → (mutate_containers kube registry has_inline show cluster cache c spec cs).1 ≡ cache
  unfolding mutate_containers
  mutate_containers-cache cache [] ds e = refl
  mutate_containers-cache cache (container ∷ cs) ds e =
      elim (Result-cases
        (step_container kube registry has_inline show cluster cache c spec container).0) [
          | inl (next, stepped) ↦
              let cache' =
                (step_container kube registry has_inline show cluster cache c spec container).1 in
              let ((b', ds'), rest, same) =
                >>=-eq-ok
                  (mutate_containers kube registry has_inline show cluster cache' c spec cs).0
                  (λ done. ok (keep_or_replace next container done))
                  (rw (stepped, mutate_containers) at e) in
              let (kept, unmutated) = kept_step next container b' ds' ds (ok-injective same) in
              rw (stepped, mutate_containers)
                (mutate_containers-cache cache' cs ds' (rest ∙ ap (λ m. ok (m, ds')) unmutated)
                  ∙ step_container-cache cache container (stepped ∙ ap ok kept))
          | inr (failure, failed) ↦ absurd (cc (rw (failed, mutate_containers) at e))
        ]
