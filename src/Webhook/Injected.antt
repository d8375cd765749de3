-- ===== src/Webhook/Injected.antt =====
-- pkg/webhook: the options, the role and the injector behind an object that a review fills.
use vault_secrets_webhook.Base.{
  String, ◌≡◌, refl, inl, inr, Bool, true, false, Bool-cases, Option, some, Assoc, Result, ok, err,
  ◌>>=◌, >>=-eq-ok, wrap, wrap-eq-ok, Result-cases,
}
use vault_secrets_webhook.Common.Addr.{Net}
use vault_secrets_webhook.Common.Policy.{Viper}
use vault_secrets_webhook.Config.{VaultConfig}
use vault_secrets_webhook.Config.Parse.{Parsers, parse_vault_config}
use vault_secrets_webhook.Config.Parse.Trust.{IsTrusted, parse_vault_config-IsTrusted}
use vault_secrets_webhook.ConfigMaps.{config_map_needs_mutation, mutate_config_map, mutate_entries}
use vault_secrets_webhook.Injector.{Injector, Sdk}
use vault_secrets_webhook.Kube.{Kube, ImageRegistry, ConfigMap, WebhookError, wrapped}
use vault_secrets_webhook.Object.{Elements, Json, mutate_object}
use vault_secrets_webhook.Pod.Mutate.{Runtime, Machine}
use vault_secrets_webhook.Secret.{
  Codec, secret_needs_mutation, mutate_docker_config, mutate_secret_data, mutate_secret,
}
use vault_secrets_webhook.Webhook.{
  KubeObject, pod_object, secret_object, config_map_object, unstructured_object, other_object,
  Mutated, Review, result_of, subject_of, template_values, dispatch, with_role,
  vault_secrets_mutator,
}

-- The test for a secret, which may fail.
abbrev holds : Result WebhookError Bool → Bool
holds (ok needed) = needed
holds (err e) = false

module _ (sdk : Sdk) (codec : Codec) where
  -- An object that a review fills with values from Vault.
  abbrev pub asks_vault : KubeObject → Bool
  asks_vault (secret_object entries) = holds (secret_needs_mutation sdk codec entries)
  asks_vault (config_map_object config_map) = config_map_needs_mutation sdk config_map
  asks_vault (unstructured_object object) = true
  asks_vault _ = false

  -- There is an injector for these options.
  abbrev pub Injects : VaultConfig → Type 0
  Injects c = (injector : Injector) × (sdk.new_injector c ≡ ok injector)

  mutate_secret-Injects :
      (c : VaultConfig) (entries entries' : Assoc String)
      → holds (secret_needs_mutation sdk codec entries) ≡ true
      → mutate_secret sdk codec c entries ≡ ok entries'
      → Injects c
  unfolding mutate_secret
  mutate_secret-Injects c entries entries' asks e =
      elim (Result-cases (secret_needs_mutation sdk codec entries)) [
        | inr (failure, failed) ↦ absurd (cc (rw failed at asks))
        | inl (needed, tested) ↦
            let needs : needed ≡ true = rw tested at asks in
            let (injector, made, _) =
              >>=-eq-ok (wrap (wrapped "failed to create vault client") (sdk.new_injector c))
                (λ injector. mutate_docker_config sdk codec injector entries >>= λ replaced.
                  wrap (wrapped "mutate generic secret failed")
                    (mutate_secret_data sdk codec injector replaced))
                (rw (tested, needs, mutate_secret) at e) in
            (
              injector,
              wrap-eq-ok (wrapped "failed to create vault client") (sdk.new_injector c) made,
            )
      ]

  mutate_config_map-Injects :
      (decode : String → Option String) (c : VaultConfig) (config_map config_map' : ConfigMap)
      → config_map_needs_mutation sdk config_map ≡ true
      → mutate_config_map decode sdk c config_map ≡ ok config_map'
      → Injects c
  unfolding mutate_config_map
  mutate_config_map-Injects decode c config_map config_map' asks e =
      let (injector, made, _) =
        >>=-eq-ok (wrap (wrapped "failed to create vault client") (sdk.new_injector c))
          (λ injector. mutate_entries decode injector config_map)
          (rw (asks, mutate_config_map) at e) in
      (injector, wrap-eq-ok (wrapped "failed to create vault client") (sdk.new_injector c) made)

  mutate_object-Injects :
      (c : VaultConfig) (object : Elements) (object' : Json)
      → mutate_object sdk c object ≡ ok object'
      → Injects c
  unfolding mutate_object
  mutate_object-Injects c object object' e = elim (Result-cases (sdk.new_injector c)) [
    | inl made ↦ made
    | inr (failure, failed) ↦ absurd (cc (rw (failed, mutate_object) at e))
  ]

result_of-eq-ok {ℓ} :
    {A : Type ℓ} (f : A → Mutated) (r : Result WebhookError A) {mutated : Mutated}
    → result_of f r ≡ ok (some mutated)
    → (a : A) × (r ≡ ok a)
unfolding result_of
result_of-eq-ok f (ok a) e = (a, refl)
result_of-eq-ok f (err failure) e = absurd (cc e)

-- The options with the role that the template gives.
abbrev pub in_role : String → VaultConfig → VaultConfig
in_role role c = record c { connection = record c.connection { role = role } }

module _ (kube : Kube) (registry : ImageRegistry) (runtime : Runtime) (net : Net)
    (parsers : Parsers) (viper : Viper) (codec : Codec)
    (execute : String → Assoc String → Result String String) where
  dispatch-Injects :
      (sdk : Sdk) (m : Machine kube registry runtime) (review : Review) (c : VaultConfig)
      (object : KubeObject) (mutated : Mutated)
      → asks_vault sdk codec object ≡ true
      → (dispatch kube registry runtime net parsers viper sdk codec execute m review c object).0
        ≡ ok (some mutated)
      → Injects sdk codec c
  unfolding dispatch
  dispatch-Injects sdk m review c (secret_object entries) mutated asks e =
      let (entries', filled) = result_of-eq-ok _ (mutate_secret sdk codec c entries) e in
      mutate_secret-Injects sdk codec c entries entries' asks filled
  dispatch-Injects sdk m review c (config_map_object config_map) mutated asks e =
      let (config_map', filled) =
        result_of-eq-ok _ (mutate_config_map codec.decode_base64 sdk c config_map) e in
      mutate_config_map-Injects sdk codec codec.decode_base64 c config_map config_map' asks filled
  dispatch-Injects sdk m review c (unstructured_object object) mutated asks e =
      let (object', filled) = result_of-eq-ok _ (mutate_object sdk c object) e in
      mutate_object-Injects sdk codec c object object' filled
  dispatch-Injects sdk m review c (pod_object pod) mutated asks e = absurd (cc asks)
  dispatch-Injects sdk m review c other_object mutated asks e = absurd (cc asks)

  -- What a review that fills an object did before: options, a role, an injector for them.
  pub vault_secrets_mutator-Injects :
      (sdk : Sdk) (m : Machine kube registry runtime) (review : Review) (mutated : Mutated)
      → asks_vault sdk codec review.object ≡ true
      → (vault_secrets_mutator kube registry runtime net parsers viper sdk codec execute m review).0
        ≡ ok (some mutated)
      → (c : VaultConfig) × (role : String) × IsTrusted net parsers viper (subject_of review) c
        × (execute c.role
              (template_values kube registry runtime net parsers viper sdk codec execute review c)
            ≡ ok role)
        × ((dispatch kube registry runtime net parsers viper sdk codec execute m review
              (in_role role c)
              review.object).0
            ≡ ok (some mutated))
        × Injects sdk codec (in_role role c)
  unfolding vault_secrets_mutator with_role
  vault_secrets_mutator-Injects sdk m review mutated asks e =
      elim (Result-cases
        (parse_vault_config net parsers viper (subject_of review) review.namespace)) [
          | inr (failure, refused) ↦ absurd (cc (rw (refused, vault_secrets_mutator) at e))
          | inl (c, parsed) ↦ elim (Bool-cases c.skip) [
            | inl skipped ↦ absurd (cc (rw (parsed, skipped, vault_secrets_mutator) at e))
            | inr live ↦
                elim (Result-cases (
                  execute c.role (
                    template_values kube registry runtime net parsers viper sdk codec execute review
                      c))) [
                        | inr (failure, failed) ↦
                            absurd (
                              cc (rw (parsed, live, failed, vault_secrets_mutator, with_role) at e))
                        | inl (role, filled) ↦ (
                          c,
                          role,
                          parse_vault_config-IsTrusted net parsers viper (subject_of review)
                              review.namespace c parsed live,
                          filled,
                          rw (parsed, live, filled, vault_secrets_mutator, with_role) at e,
                          dispatch-Injects sdk m review (in_role role c) review.object mutated asks
                              (rw (parsed, live, filled, vault_secrets_mutator, with_role) at e),
                        )
                      ]
          ]
        ]
