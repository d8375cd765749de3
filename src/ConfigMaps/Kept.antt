-- ===== src/ConfigMaps/Kept.antt =====
-- pkg/webhook/configmap.go: what MutateConfigMap keeps of a config map.
use vault_secrets_webhook.Base.{
  String, ◌≡◌, ◌∙◌, refl, sym, ap, inl, inr, Bool, false, ◌||◌, ◌==◌, Option, some, List, [], ◌∷◌,
  eq_iff, Assoc, lookup, insert, lookup-insert, keys, get_or_else, any, All, if◌then◌else◌, ok,
  ◌>>=◌, >>=-eq-ok, ok-injective, Option-cases, Bool-cases,
}
use vault_secrets_webhook.Common.{has_vault_prefix}
use vault_secrets_webhook.Config.{VaultConfig}
use vault_secrets_webhook.Injector.{Injector, Sdk}
use vault_secrets_webhook.Kube.{ConfigMap}
use vault_secrets_webhook.ConfigMaps.{
  config_map_needs_mutation, store_decoded, mutate_binary_entry, mutate_binary, mutate_entries,
  mutate_config_map,
}

module _ (decode : String → Option String) where
  -- No entry refers to Vault.
  pub record IsPlain (sdk : Sdk) (config_map : ConfigMap) : Type 0 where
    pub texts :
        All
          (λ (_, value). (has_vault_prefix value || sdk.has_inline value) ≡ false)
          config_map.entries
    pub bytes : All (λ (_, value). has_vault_prefix value ≡ false) config_map.binary_entries

  any-none :
      (p : String × String → Bool) (entries : Assoc String)
      → All (λ e. p e ≡ false) entries
      → any p entries ≡ false
  any-none p [] plain = refl
  any-none p (e ∷ entries) (here, rest) = rw (here, any-none p entries rest)

  -- A config map without a reference to Vault comes back as it is, whether or not a client can be
  -- made.
  mutate_config_map-plain :
      (sdk : Sdk) (c : VaultConfig) (config_map : ConfigMap)
      → IsPlain sdk config_map
      → mutate_config_map decode sdk c config_map ≡ ok config_map
  unfolding mutate_config_map config_map_needs_mutation
  mutate_config_map-plain sdk c config_map plain =
      rw
        (
          any-none (λ (_, value). has_vault_prefix value || sdk.has_inline value) config_map.entries
              plain.texts,
          any-none (λ (_, value). has_vault_prefix value) config_map.binary_entries plain.bytes,
        )
        refl

  -- The injector gives back the one key that it is asked for.
  abbrev pub AnswersKey : Injector → Type 0
  AnswersKey injector =
      (key value : String) (mapped : Assoc String)
      → injector.get_data_from_vault ((key, value) ∷ []) ≡ ok mapped
      → (filled : String) × (mapped ≡ (key, filled) ∷ [])

  module _ (injector : Injector) (answers : AnswersKey injector) where
    one_stored :
        (key filled : String) (binary next : Assoc String) (other : String)
        → (key == other) ≡ false
        → store_decoded decode ((key, filled) ∷ []) binary ≡ ok next
        → lookup other next ≡ lookup other binary
    unfolding store_decoded
    one_stored key filled binary next other distinct stored = elim (Option-cases (decode filled)) [
      | inl broken ↦ absurd (cc (rw (broken, store_decoded) at stored))
      | inr (bytes, decoded) ↦
          let same : insert key bytes binary ≡ next =
            ok-injective (rw (decoded, store_decoded) at stored) in
          rw (← same, lookup-insert key other bytes binary, distinct)
    ]

    mutate_binary_entry-lookup :
        (key value : String) (binary next : Assoc String)
        → mutate_binary_entry decode injector key value binary ≡ ok next
        → (other : String) → (key == other) ≡ false
        → lookup other next ≡ lookup other binary
    unfolding mutate_binary_entry store_decoded
    mutate_binary_entry-lookup key value binary next e other distinct =
        let (mapped, read, stored) =
          >>=-eq-ok (injector.get_data_from_vault ((key, value) ∷ []))
            (λ mapped. store_decoded decode mapped binary) e in
        let (filled, same) = answers key value mapped read in
        one_stored key filled binary next other distinct (rw same at stored)

    step-lookup :
        (name key value : String) (binary next : Assoc String)
        → (let here = get_or_else (lookup name binary) "" in
            if has_vault_prefix here
            then mutate_binary_entry decode injector name here binary
            else ok binary)
          ≡ ok next
        → lookup key binary ≡ some value
        → has_vault_prefix value ≡ false
        → lookup key next ≡ some value
    step-lookup name key value binary next e found plain =
        elim (Bool-cases (has_vault_prefix (get_or_else (lookup name binary) ""))) [
          | inr untouched ↦ rw (← ok-injective (rw untouched at e)) found
          | inl refers ↦
              mutate_binary_entry-lookup name _ binary next (rw refers at e) key
                (elim (Bool-cases (name == key)) [
                  | inr distinct ↦ distinct
                  | inl same ↦
                      let named = (eq_iff name key).0 same in
                      absurd (
                        cc (
                          sym refers
                              ∙ ap (λ n. has_vault_prefix (get_or_else (lookup n binary) "")) named,
                          found,
                          plain,
                        ))
                ])
              ∙ found
        ]

    mutate_binary-lookup :
        (names : List String) (binary result : Assoc String)
        → mutate_binary decode injector names binary ≡ ok result
        → (key value : String) → lookup key binary ≡ some value
        → has_vault_prefix value ≡ false
        → lookup key result ≡ some value
    unfolding mutate_binary
    mutate_binary-lookup [] binary result e key value found plain = rw (← ok-injective e) found
    mutate_binary-lookup (name ∷ names) binary result e key value found plain =
        let here = get_or_else (lookup name binary) "" in
        let (next, once, more) =
          >>=-eq-ok
            (if has_vault_prefix here
              then mutate_binary_entry decode injector name here binary
              else ok binary)
            (λ next. mutate_binary decode injector names next) e in
        mutate_binary-lookup names next result more key value
          (step-lookup name key value binary next once found plain) plain

    -- Binary data that refers to nothing in Vault is as it was, if Vault answers with the key asked for.
    pub mutate_entries-plain_bytes :
        (config_map new : ConfigMap) (key value : String)
        → mutate_entries decode injector config_map ≡ ok new
        → lookup key config_map.binary_entries ≡ some value
        → has_vault_prefix value ≡ false
        → lookup key new.binary_entries ≡ some value
    unfolding mutate_entries
    mutate_entries-plain_bytes config_map new key value e found plain =
        let (filled, _, rest) =
          >>=-eq-ok (injector.get_data_from_vault config_map.entries)
            (λ filled.
              mutate_binary decode injector (keys config_map.binary_entries)
                config_map.binary_entries
              >>= λ binary. ok (record config_map { entries = filled; binary_entries = binary }))
            e in
        let (binary, done, same) =
          >>=-eq-ok
            (mutate_binary decode injector (keys config_map.binary_entries)
              config_map.binary_entries)
            (λ binary. ok (record config_map { entries = filled; binary_entries = binary })) rest in
        ap (λ m. lookup key m.binary_entries) (sym (ok-injective same))
        ∙ mutate_binary-lookup (keys config_map.binary_entries) config_map.binary_entries binary
            done key value found plain
