-- ===== src/Pod/Containers/Found.antt =====
-- pkg/webhook/pod.go: the variables of a container that mutateContainers finds.
use mathlib.Core.Path.{subst}
use vault_secrets_webhook.Base.{
  String, ◌≡◌, inl, inr, Bool, Option, none, some, List, [], ◌∷◌, ◌++◌, All, All-append,
  if◌then◌else◌, Result, ok, ◌>>=◌, >>=-eq-ok, ok-injective, wrap, wrap-eq-ok, Bool-cases,
  Option-cases,
}
use vault_secrets_webhook.Kube.{EnvVar, Container, Kube, ImageRegistry, WebhookError, api}
use vault_secrets_webhook.Config.{Duration}
use vault_secrets_webhook.Pod.Lookup.{refers_to_vault, look_for_env_from, look_for_value_from}
use vault_secrets_webhook.Pod.Lookup.Refers.{
  Refers, AnswerRefers, look_for_env_from-Refers, look_for_value_from-Refers,
}
use vault_secrets_webhook.Pod.Containers.{env_of, own_vars, vault_vars}

module _ (kube : Kube) (registry : ImageRegistry) (has_inline : String → Bool)
    (show : Duration → String) (cluster : kube.Cluster) (ns : String) where
  with_found :
      (own : List EnvVar) (found : Option EnvVar) (vars : List EnvVar)
      → All (Refers kube has_inline) own
      → AnswerRefers kube has_inline (some found)
      → (let answer : Result WebhookError (List EnvVar) = elim found [
        | none ↦ ok own
        | some v ↦ ok (own ++ (v ∷ []))
      ] in
          answer)
        ≡ ok vars
      → All (Refers kube has_inline) vars
  with_found own none vars h k e = subst (All (Refers kube has_inline)) (ok-injective e) h
  with_found own (some v) vars h k e =
      subst (All (Refers kube has_inline)) (ok-injective e)
        (All-append (Refers kube has_inline) own (v ∷ []) h (k, tt))

  -- The variable itself, if it refers to Vault.
  itself :
      (env : EnvVar)
      → All
          (Refers kube has_inline)
          (if refers_to_vault kube has_inline env.value then env ∷ [] else [])
  itself env = elim (Bool-cases (refers_to_vault kube has_inline env.value)) [
    | inl refers ↦ rw refers (refers, tt)
    | inr plain ↦ rw plain tt
  ]

  env_of-Refers :
      (env : EnvVar) (vars : List EnvVar)
      → env_of kube registry has_inline show cluster ns env ≡ ok vars
      → All (Refers kube has_inline) vars
  unfolding env_of
  env_of-Refers env vars e = elim (Option-cases env.value_from) [
    | inl unset ↦
        subst (All (Refers kube has_inline)) (ok-injective (rw (unset, env_of) at e)) (itself env)
    | inr (source, set) ↦
        let (found, read, more) =
          >>=-eq-ok (wrap api (look_for_value_from kube has_inline cluster env source ns)) _
            (rw (set, env_of) at e) in
        with_found _ found vars (itself env)
          (look_for_value_from-Refers kube has_inline cluster env source ns found
            (wrap-eq-ok api _ read))
          more
  ]

  own_vars-Refers :
      (envs vars : List EnvVar)
      → own_vars kube registry has_inline show cluster ns envs ≡ ok vars
      → All (Refers kube has_inline) vars
  unfolding own_vars
  own_vars-Refers [] vars e = subst (All (Refers kube has_inline)) (ok-injective e) tt
  own_vars-Refers (env ∷ envs) vars e =
      let (first, read, more) =
        >>=-eq-ok (env_of kube registry has_inline show cluster ns env)
          (λ vars.
            own_vars kube registry has_inline show cluster ns envs >>= λ rest. ok (vars ++ rest))
          e in
      let (rest, others, same) =
        >>=-eq-ok (own_vars kube registry has_inline show cluster ns envs)
          (λ rest. ok (first ++ rest)) more in
      subst (All (Refers kube has_inline)) (ok-injective same) (
        All-append (Refers kube has_inline) first rest (env_of-Refers env first read)
          (own_vars-Refers envs rest others))

  -- Every variable that mutateContainers collects for a container, from its own environment, from
  -- config maps and from secrets, refers to Vault.
  pub vault_vars-Refers :
      (container : Container) (vars : List EnvVar)
      → vault_vars kube registry has_inline show cluster ns container ≡ ok vars
      → All (Refers kube has_inline) vars
  unfolding vault_vars
  vault_vars-Refers container vars e =
      let (from, read, more) =
        >>=-eq-ok (wrap api (look_for_env_from kube has_inline cluster container.env_from ns))
          (λ from. own_vars kube registry has_inline show cluster ns container.env >>= λ own.
            ok (from ++ own))
          e in
      let (own, others, same) =
        >>=-eq-ok (own_vars kube registry has_inline show cluster ns container.env)
          (λ own. ok (from ++ own)) more in
      subst (All (Refers kube has_inline)) (ok-injective same) (
        All-append (Refers kube has_inline) from own
          (look_for_env_from-Refers kube has_inline cluster container.env_from ns from
            (wrap-eq-ok api _ read))
          (own_vars-Refers container.env own others))
