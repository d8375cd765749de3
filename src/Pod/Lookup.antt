-- ===== src/Pod/Lookup.antt =====
-- pkg/webhook/webhook.go: lookForEnvFrom and lookForValueFrom, which find the environment
-- variables that refer to Vault.
pub mod Refers
pub mod Failures
use vault_secrets_webhook.Base.{
  String, Bool, false, Option, none, some, List, [], ◌∷◌, ◌++◌, ◌||◌, lookup, Assoc, get_or_else,
  if◌then◌else◌, Result, ok, err, ◌>>=◌,
}
use vault_secrets_webhook.Common.{has_vault_prefix}
use vault_secrets_webhook.Kube.{
  EnvVar, EnvVarSource, KeySelector, EnvSource, EnvFromSource, env_var, ApiError, is_not_found,
  Kube,
}

-- `*optional`, false where the pointer is nil.
abbrev is_optional : Option Bool → Bool
is_optional optional = get_or_else optional false

-- `has_inline` is `injector.HasInlineVaultDelimiters`.
module _ (kube : Kube) (has_inline : String → Bool) where
  -- A value is a reference to Vault, or holds one.
  unfoldable pub refers_to_vault : String → Bool
  refers_to_vault value = has_vault_prefix value || has_inline value

  -- The entries of a config map or a secret that refer to Vault, as variables.
  vault_entries : Assoc String → List EnvVar
  vault_entries [] = []
  vault_entries ((key, value) ∷ entries) =
      let rest = vault_entries entries in
      if refers_to_vault value then env_var key value ∷ rest else rest

  -- One half of the body of lookForEnvFrom's loop: none is `continue`.
  entries_of : EnvSource → Result ApiError (Assoc String) → Result ApiError (Option (List EnvVar))
  unfolding vault_entries
  entries_of source (ok entries) = ok (some (vault_entries entries))
  entries_of source (err e) =
      if is_not_found e || is_optional source.optional then ok none else err e

  config_map_entries :
      kube.Cluster → String → Option EnvSource → Result ApiError (Option (List EnvVar))
  unfolding entries_of
  config_map_entries cluster ns none = ok (some [])
  config_map_entries cluster ns (some source) =
      entries_of source (kube.config_map_data cluster source.name ns)

  secret_entries : kube.Cluster → String → Option EnvSource → Result ApiError (Option (List EnvVar))
  unfolding entries_of
  secret_entries cluster ns none = ok (some [])
  secret_entries cluster ns (some source) =
      entries_of source (kube.secret_data cluster source.name ns)

  -- The body of the loop: a config map that is skipped takes the secret with it.
  env_from_source : kube.Cluster → String → EnvFromSource → Result ApiError (List EnvVar)
  unfolding config_map_entries secret_entries
  env_from_source cluster ns ef = do
    first ← config_map_entries cluster ns ef.config_map_ref
    elim first [
      | none ↦ ok []
      | some vars ↦ do
        second ← secret_entries cluster ns ef.secret_ref
        ok (vars ++ get_or_else second [])
    ]

  -- `lookForEnvFrom`
  unfoldable pub look_for_env_from :
      kube.Cluster → List EnvFromSource → String → Result ApiError (List EnvVar)
  unfolding env_from_source
  look_for_env_from cluster [] ns = ok []
  look_for_env_from cluster (ef ∷ env_from) ns = do
    vars ← env_from_source cluster ns ef
    rest ← look_for_env_from cluster env_from ns
    ok (vars ++ rest)

  -- The value of a key, empty where the key is missing.
  abbrev value_at : Assoc String → String → String
  value_at entries key = get_or_else (lookup key entries) ""

  -- One half of lookForValueFrom. The outer none is that the function goes on, `some none` that it
  -- returns nil.
  selected :
      String
      → KeySelector
      → Result ApiError (Assoc String)
      → Result ApiError (Option (Option EnvVar))
  selected name selector (ok entries) =
      if refers_to_vault (value_at entries selector.key)
      then ok (some (some (env_var name (value_at entries selector.key))))
      else ok none
  selected name selector (err e) = if is_not_found e then ok (some none) else err e

  config_map_value :
      kube.Cluster → EnvVar → EnvVarSource → String → Result ApiError (Option (Option EnvVar))
  unfolding selected
  config_map_value cluster env source ns = elim source.config_map_key_ref [
    | none ↦ ok none
    | some selector ↦ selected env.name selector (kube.config_map_data cluster selector.name ns)
  ]

  secret_value :
      kube.Cluster → EnvVar → EnvVarSource → String → Result ApiError (Option (Option EnvVar))
  unfolding selected
  secret_value cluster env source ns = elim source.secret_key_ref [
    | none ↦ ok none
    | some selector ↦ selected env.name selector (kube.secret_data cluster selector.name ns)
  ]

  -- `lookForValueFrom`, where none is nil.
  unfoldable pub look_for_value_from :
      kube.Cluster → EnvVar → EnvVarSource → String → Result ApiError (Option EnvVar)
  unfolding config_map_value secret_value
  look_for_value_from cluster env source ns = do
    found ← config_map_value cluster env source ns
    elim found [
      | some answer ↦ ok answer
      | none ↦ do other ← secret_value cluster env source ns; ok (get_or_else other none)
    ]
