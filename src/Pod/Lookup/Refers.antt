-- ===== src/Pod/Lookup/Refers.antt =====
-- pkg/webhook/webhook.go: what lookForEnvFrom and lookForValueFrom find.
use mathlib.Core.Path.{subst}
use vault_secrets_webhook.Base.{
  String, ◌≡◌, inl, inr, Bool, true, Option, none, some, List, [], ◌∷◌, ◌++◌, arith, Assoc, lookup,
  get_or_else, All, All-append, Result, ok, err, ◌>>=◌, >>=-eq-ok, ok-injective, Option-cases,
  Bool-cases,
}
use vault_secrets_webhook.Kube.{
  EnvVar, EnvVarSource, KeySelector, EnvSource, EnvFromSource, ApiError, is_not_found, Kube,
}
use vault_secrets_webhook.Pod.Lookup.{
  refers_to_vault, vault_entries, entries_of, config_map_entries, secret_entries, env_from_source,
  look_for_env_from, selected, config_map_value, secret_value, look_for_value_from,
}

module _ (kube : Kube) (has_inline : String → Bool) where
  -- The variable's value is a reference to Vault, or holds one.
  abbrev pub Refers : EnvVar → Type 0
  Refers v = refers_to_vault kube has_inline v.value ≡ true

  vault_entries-Refers :
      (entries : Assoc String) → All Refers (vault_entries kube has_inline entries)
  unfolding vault_entries
  vault_entries-Refers [] = tt
  vault_entries-Refers ((key, value) ∷ entries) =
      elim (Bool-cases (refers_to_vault kube has_inline value)) [
        | inl yes' ↦ rw yes' (yes', vault_entries-Refers entries)
        | inr no' ↦ rw no' (vault_entries-Refers entries)
      ]

  -- All variables that a part of the loop gives, if it gives any.
  abbrev AllRefer : Option (List EnvVar) → Type 0
  AllRefer none = Unit
  AllRefer (some vars) = All Refers vars

  entries_of-Refers :
      (source : EnvSource) (entries : Result ApiError (Assoc String)) (found : Option (List EnvVar))
      → entries_of kube has_inline source entries ≡ ok found
      → AllRefer found
  unfolding entries_of
  entries_of-Refers source (ok entries) found e =
      subst AllRefer (ok-injective e) (vault_entries-Refers entries)
  entries_of-Refers source (err failure) none e = tt
  entries_of-Refers source (err failure) (some vars) e = absurd (ground arith)

  config_map_entries-Refers :
      (cluster : kube.Cluster) (ns : String) (source : Option EnvSource)
      (found : Option (List EnvVar))
      → config_map_entries kube has_inline cluster ns source ≡ ok found
      → AllRefer found
  unfolding config_map_entries
  config_map_entries-Refers cluster ns none found e = subst AllRefer (ok-injective e) tt
  config_map_entries-Refers cluster ns (some source) found e = entries_of-Refers source _ found e

  secret_entries-Refers :
      (cluster : kube.Cluster) (ns : String) (source : Option EnvSource)
      (found : Option (List EnvVar))
      → secret_entries kube has_inline cluster ns source ≡ ok found
      → AllRefer found
  unfolding secret_entries
  secret_entries-Refers cluster ns none found e = subst AllRefer (ok-injective e) tt
  secret_entries-Refers cluster ns (some source) found e = entries_of-Refers source _ found e

  rest-Refers :
      (second : Option (List EnvVar)) → AllRefer second → All Refers (get_or_else second [])
  rest-Refers none h = tt
  rest-Refers (some vars) h = h

  -- What is left of the body once the config map is read.
  after_first :
      (cluster : kube.Cluster) (ns : String) (ef : EnvFromSource) (first : Option (List EnvVar))
      (vars : List EnvVar)
      → AllRefer first
      → (elim first [
        | none ↦ ok []
        | some found ↦ secret_entries kube has_inline cluster ns ef.secret_ref >>= λ second.
            ok (found ++ get_or_else second [])
      ])
        ≡ ok vars
      → All Refers vars
  after_first cluster ns ef none vars h e = subst (All Refers) (ok-injective e) tt
  after_first cluster ns ef (some found) vars h e =
      let (second, read, same) =
        >>=-eq-ok (secret_entries kube has_inline cluster ns ef.secret_ref)
          (λ second. ok (found ++ get_or_else second [])) e in
      subst (All Refers) (ok-injective same) (
        All-append Refers found _ h
          (rest-Refers second (secret_entries-Refers cluster ns ef.secret_ref second read)))

  env_from_source-Refers :
      (cluster : kube.Cluster) (ns : String) (ef : EnvFromSource) (vars : List EnvVar)
      → env_from_source kube has_inline cluster ns ef ≡ ok vars
      → All Refers vars
  unfolding env_from_source
  env_from_source-Refers cluster ns ef vars e =
      let (first, read, more) =
        >>=-eq-ok (config_map_entries kube has_inline cluster ns ef.config_map_ref) _ e in
      after_first cluster ns ef first vars
        (config_map_entries-Refers cluster ns ef.config_map_ref first read) more

  pub look_for_env_from-Refers :
      (cluster : kube.Cluster) (env_from : List EnvFromSource) (ns : String) (vars : List EnvVar)
      → look_for_env_from kube has_inline cluster env_from ns ≡ ok vars
      → All Refers vars
  unfolding look_for_env_from
  look_for_env_from-Refers cluster [] ns vars e = subst (All Refers) (ok-injective e) tt
  look_for_env_from-Refers cluster (ef ∷ env_from) ns vars e =
      let (first, read, more) =
        >>=-eq-ok (env_from_source kube has_inline cluster ns ef)
          (λ vars.
            look_for_env_from kube has_inline cluster env_from ns >>= λ rest. ok (vars ++ rest))
          e in
      let (rest, others, same) =
        >>=-eq-ok (look_for_env_from kube has_inline cluster env_from ns)
          (λ rest. ok (first ++ rest)) more in
      subst (All Refers) (ok-injective same) (
        All-append Refers first rest (env_from_source-Refers cluster ns ef first read)
          (look_for_env_from-Refers cluster env_from ns rest others))

  -- The variable that a part of lookForValueFrom answers with, if it does.
  abbrev pub AnswerRefers : Option (Option EnvVar) → Type 0
  AnswerRefers none = Unit
  AnswerRefers (some none) = Unit
  AnswerRefers (some (some v)) = Refers v

  selected-Refers :
      (name : String) (selector : KeySelector) (entries : Result ApiError (Assoc String))
      (answer : Option (Option EnvVar))
      → selected kube has_inline name selector entries ≡ ok answer
      → AnswerRefers answer
  unfolding selected
  selected-Refers name selector (ok entries) answer e =
      elim (Bool-cases
        (refers_to_vault kube has_inline (get_or_else (lookup selector.key entries) ""))) [
          | inl refers ↦ subst AnswerRefers (ok-injective (rw refers at e)) refers
          | inr plain ↦ subst AnswerRefers (ok-injective (rw plain at e)) tt
        ]
  selected-Refers name selector (err failure) answer e = elim (Bool-cases (is_not_found failure)) [
    | inl missing ↦ subst AnswerRefers (ok-injective (rw missing at e)) tt
    | inr other ↦ absurd (cc (rw other at e))
  ]

  config_map_value-Refers :
      (cluster : kube.Cluster) (env : EnvVar) (source : EnvVarSource) (ns : String)
      (answer : Option (Option EnvVar))
      → config_map_value kube has_inline cluster env source ns ≡ ok answer
      → AnswerRefers answer
  unfolding config_map_value
  config_map_value-Refers cluster env source ns answer e =
      elim (Option-cases source.config_map_key_ref) [
        | inl unset ↦ subst AnswerRefers (ok-injective (rw (unset, config_map_value) at e)) tt
        | inr (selector, set) ↦
            selected-Refers env.name selector _ answer (rw (set, config_map_value) at e)
      ]

  secret_value-Refers :
      (cluster : kube.Cluster) (env : EnvVar) (source : EnvVarSource) (ns : String)
      (answer : Option (Option EnvVar))
      → secret_value kube has_inline cluster env source ns ≡ ok answer
      → AnswerRefers answer
  unfolding secret_value
  secret_value-Refers cluster env source ns answer e = elim (Option-cases source.secret_key_ref) [
    | inl unset ↦ subst AnswerRefers (ok-injective (rw (unset, secret_value) at e)) tt
    | inr (selector, set) ↦ selected-Refers env.name selector _ answer (rw (set, secret_value) at e)
  ]

  last_answer :
      (other : Option (Option EnvVar))
      → AnswerRefers other
      → AnswerRefers (some (get_or_else other none))
  last_answer none h = tt
  last_answer (some answer) h = h

  after_config_map :
      (cluster : kube.Cluster) (env : EnvVar) (source : EnvVarSource) (ns : String)
      (first : Option (Option EnvVar)) (found : Option EnvVar)
      → AnswerRefers first
      → (elim first [
        | some answer ↦ ok answer
        | none ↦ secret_value kube has_inline cluster env source ns >>= λ other.
            ok (get_or_else other none)
      ])
        ≡ ok found
      → AnswerRefers (some found)
  after_config_map cluster env source ns (some answer) found h e =
      subst (λ a. AnswerRefers (some a)) (ok-injective e) h
  after_config_map cluster env source ns none found h e =
      let (other, read, same) =
        >>=-eq-ok (secret_value kube has_inline cluster env source ns)
          (λ other. ok (get_or_else other none)) e in
      subst (λ a. AnswerRefers (some a)) (ok-injective same)
        (last_answer other (secret_value-Refers cluster env source ns other read))

  pub look_for_value_from-Refers :
      (cluster : kube.Cluster) (env : EnvVar) (source : EnvVarSource) (ns : String)
      (found : Option EnvVar)
      → look_for_value_from kube has_inline cluster env source ns ≡ ok found
      → AnswerRefers (some found)
  unfolding look_for_value_from
  look_for_value_from-Refers cluster env source ns found e =
      let (first, read, more) =
        >>=-eq-ok (config_map_value kube has_inline cluster env source ns) _ e in
      after_config_map cluster env source ns first found
        (config_map_value-Refers cluster env source ns first read) more
