-- ===== src/Pod/Lookup/Failures.antt =====
-- pkg/webhook/webhook.go: the errors that end lookForEnvFrom and lookForValueFrom.
use mathlib.Core.List.{Memᴰ}
use vault_secrets_webhook.Base.{
  String, ◌≡◌, refl, sym, ap, ◌∙◌, ◌⊎◌, inl, inr, Bool, false, Bool-cases, ◌||◌, Option, none, some,
  List, [], ◌∷◌, Assoc, Result, ok, err, Result-cases, err-injective, or-eq-false,
}
use vault_secrets_webhook.Kube.{EnvSource, EnvFromSource, ApiError, is_not_found, Kube}
use vault_secrets_webhook.Pod.Lookup.{
  is_optional, entries_of, config_map_entries, secret_entries, env_from_source, look_for_env_from,
}

module _ (kube : Kube) (has_inline : String → Bool) (cluster : kube.Cluster) (ns : String) where
  -- The reading of a reference that must be there ended with this error.
  abbrev pub Blocked :
      (kube.Cluster → String → String → Result ApiError (Assoc String))
      → Option EnvSource
      → ApiError
      → Type 0
  Blocked read ref e =
      (source : EnvSource) × (ref ≡ some source)
      × (read cluster source.name ns ≡ err e)
      × (is_optional source.optional ≡ false)
      × (is_not_found e ≡ false)

  entries_of-Blocked :
      (source : EnvSource) (r : Result ApiError (Assoc String)) (e : ApiError)
      → entries_of kube has_inline source r ≡ err e
      → (r ≡ err e) × (is_optional source.optional ≡ false) × (is_not_found e ≡ false)
  unfolding entries_of
  entries_of-Blocked source (ok entries) e h = absurd (cc h)
  entries_of-Blocked source (err f) e h =
      elim (Bool-cases (is_not_found f || is_optional source.optional)) [
        | inl skipped ↦ absurd (cc (rw (skipped, entries_of) at h))
        | inr kept ↦
            let same = err-injective (rw (kept, entries_of) at h) in
            let (found, required) =
              or-eq-false (is_not_found f) (is_optional source.optional) kept in
            (ap err same, required, ap is_not_found (sym same) ∙ found)
      ]

  config_map_entries-Blocked :
      (ref : Option EnvSource) (e : ApiError)
      → config_map_entries kube has_inline cluster ns ref ≡ err e
      → Blocked kube.config_map_data ref e
  unfolding config_map_entries
  config_map_entries-Blocked none e h = absurd (cc h)
  config_map_entries-Blocked (some source) e h =
      let (read, required, found) = entries_of-Blocked source _ e h in
      (source, refl, read, required, found)

  secret_entries-Blocked :
      (ref : Option EnvSource) (e : ApiError)
      → secret_entries kube has_inline cluster ns ref ≡ err e
      → Blocked kube.secret_data ref e
  unfolding secret_entries
  secret_entries-Blocked none e h = absurd (cc h)
  secret_entries-Blocked (some source) e h =
      let (read, required, found) = entries_of-Blocked source _ e h in
      (source, refl, read, required, found)

  env_from_source-Blocked :
      (ef : EnvFromSource) (e : ApiError)
      → env_from_source kube has_inline cluster ns ef ≡ err e
      → Blocked kube.config_map_data ef.config_map_ref e ⊎ Blocked kube.secret_data ef.secret_ref e
  unfolding env_from_source
  env_from_source-Blocked ef e h =
      elim (Result-cases (config_map_entries kube has_inline cluster ns ef.config_map_ref)) [
        | inr (f, failed) ↦ inl (
            config_map_entries-Blocked ef.config_map_ref e
              (failed ∙ ap err (err-injective (rw (failed, env_from_source) at h))))
        | inl (none, skipped) ↦ absurd (cc (rw (skipped, env_from_source) at h))
        | inl (some vars, read) ↦
            elim (Result-cases (secret_entries kube has_inline cluster ns ef.secret_ref)) [
              | inr (f, failed) ↦ inr (
                  secret_entries-Blocked ef.secret_ref e
                    (failed ∙ ap err (err-injective (rw (read, failed, env_from_source) at h))))
              | inl (second, read') ↦ absurd (cc (rw (read, read', env_from_source) at h))
            ]
      ]

  -- If lookForEnvFrom fails, it is with the error of reading a config map or a secret that one of the
  -- sources names, which is not that there is none, and the source is not optional.
  pub look_for_env_from-Blocked :
      (env_from : List EnvFromSource) (e : ApiError)
      → look_for_env_from kube has_inline cluster env_from ns ≡ err e
      → (ef : EnvFromSource) × Memᴰ ef env_from
        × (Blocked kube.config_map_data ef.config_map_ref e
            ⊎ Blocked kube.secret_data ef.secret_ref e)
  unfolding look_for_env_from
  look_for_env_from-Blocked [] e h = absurd (cc h)
  look_for_env_from-Blocked (ef ∷ env_from) e h =
      elim (Result-cases (env_from_source kube has_inline cluster ns ef)) [
        | inr (f, failed) ↦ (
          ef,
          Memᴰ.head refl,
          env_from_source-Blocked ef e (failed ∙ rw (failed, look_for_env_from) at h),
        )
        | inl (vars, found) ↦
            elim (Result-cases (look_for_env_from kube has_inline cluster env_from ns)) [
              | inr (f, failed) ↦
                  let (blocking, member, blocked) =
                    look_for_env_from-Blocked env_from e
                      (failed ∙ rw (found, failed, look_for_env_from) at h) in
                  (blocking, Memᴰ.tail member, blocked)
              | inl (rest, more) ↦ absurd (cc (rw (found, more, look_for_env_from) at h))
            ]
      ]
