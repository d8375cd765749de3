-- ===== src/Secret/Kept.antt =====
-- pkg/webhook/secret.go: what MutateSecret keeps of a secret.
use vault_secrets_webhook.Base.{
  String, ◌≡◌, ◌≢◌, ◌∙◌, refl, sym, ap, inl, inr, false, ◌||◌, ◌==◌, some, [], ◌∷◌, map, arith,
  eq_iff, Assoc, lookup, insert, keys, get_or_else, All, ok, wrap, >>=-eq-ok, ok-injective,
  wrap-eq-ok, Result-cases, Option-cases, Bool-cases,
}
use vault_secrets_webhook.Common.{has_vault_prefix}
use vault_secrets_webhook.Config.{VaultConfig}
use vault_secrets_webhook.Injector.{Injector, Sdk}
use vault_secrets_webhook.Kube.{wrapped}
use vault_secrets_webhook.Secret.{
  Codec, docker_config_json_key, entry_needs_mutation, secret_needs_mutation, assemble,
  mutate_docker_creds, mutate_secret_data, mutate_docker_config, mutate_secret,
}

-- Storing under a key that is there keeps the keys.
keys-insert {ℓ} :
    {V : Type ℓ} (key : String) (value old : V) (entries : Assoc V)
    → lookup key entries ≡ some old
    → keys (insert key value entries) ≡ keys entries
unfolding lookup insert
keys-insert key value old [] e = absurd (cc e)
keys-insert key value old ((name, v) ∷ entries) e = elim (Bool-cases (name == key)) [
  | inl same ↦ rw same (ap (λ k. k ∷ keys entries) (sym ((eq_iff name key).0 same)))
  | inr other ↦ rw other (ap (λ ks. name ∷ ks) (keys-insert key value old entries (rw other at e)))
]

-- New values keep the keys.
keys-map :
    (value : String → String) (entries : Assoc String)
    → keys (map (λ (key, _). (key, value key)) entries) ≡ keys entries
keys-map value [] = refl
keys-map value ((key, v) ∷ entries) = ap (λ ks. key ∷ ks) (keys-map value entries)

module _ (sdk : Sdk) (codec : Codec) where
  mutate_secret_data-keys :
      (injector : Injector) (entries new : Assoc String)
      → mutate_secret_data sdk codec injector entries ≡ ok new
      → keys new ≡ keys entries
  unfolding mutate_secret_data
  mutate_secret_data-keys injector entries new e =
      let (converted, _, same) =
        >>=-eq-ok (injector.get_data_from_vault entries)
          (λ converted. ok (map (λ (key, _). (key, get_or_else (lookup key converted) "")) entries))
          e in
      ap keys (sym (ok-injective same))
      ∙ keys-map (λ key. get_or_else (lookup key converted) "") entries

  mutate_docker_config-keys :
      (injector : Injector) (entries new : Assoc String)
      → mutate_docker_config sdk codec injector entries ≡ ok new
      → keys new ≡ keys entries
  unfolding mutate_docker_config mutate_docker_creds
  mutate_docker_config-keys injector entries new e =
      elim (Option-cases (lookup docker_config_json_key entries)) [
        | inl missing ↦ ap keys (sym (ok-injective (rw (missing, mutate_docker_config) at e)))
        | inr (value, found) ↦ elim (Option-cases (codec.unmarshal value)) [
          | inl malformed ↦ absurd (cc (rw (found, malformed, mutate_docker_config) at e))
          | inr (dc, parsed) ↦
              let done =
                wrap-eq-ok (wrapped "mutate dockerconfig json failed") _
                  (rw (found, parsed, mutate_docker_config) at e) in
              let (assembled, _, same) =
                >>=-eq-ok (assemble sdk codec injector dc [])
                  (λ assembled.
                    ok (insert docker_config_json_key (codec.marshal assembled) entries))
                  done in
              ap keys (sym (ok-injective same))
              ∙ keys-insert docker_config_json_key _ value entries found
        ]
      ]

  -- A secret that MutateSecret returns has the keys that it had, in their order.
  pub mutate_secret-keys :
      (c : VaultConfig) (entries new : Assoc String)
      → mutate_secret sdk codec c entries ≡ ok new
      → keys new ≡ keys entries
  unfolding mutate_secret
  mutate_secret-keys c entries new e =
      elim (Result-cases (secret_needs_mutation sdk codec entries)) [
        | inr (failure, failed) ↦ absurd (cc (rw (failed, mutate_secret) at e))
        | inl (needed, checked) ↦ elim (Bool-cases needed) [
          | inr unneeded ↦ ap keys (sym (ok-injective (rw (checked, unneeded, mutate_secret) at e)))
          | inl required ↦ elim (Result-cases (sdk.new_injector c)) [
            | inr (failure, failed) ↦
                absurd (cc (rw (checked, required, failed, mutate_secret) at e))
            | inl (injector, made) ↦
                let (replaced, docker, filled) =
                  >>=-eq-ok (mutate_docker_config sdk codec injector entries)
                    (λ replaced.
                      wrap (wrapped "mutate generic secret failed")
                        (mutate_secret_data sdk codec injector replaced))
                    (rw (checked, required, made, mutate_secret) at e) in
                mutate_secret_data-keys injector replaced new (wrap-eq-ok _ _ filled)
                ∙ mutate_docker_config-keys injector entries replaced docker
          ]
        ]
      ]

  -- The entry refers to nothing in Vault, and is not Docker's.
  abbrev pub IsPlainEntry : String × String → Type 0
  IsPlainEntry (key, value) =
      (key ≢ docker_config_json_key) × ((has_vault_prefix value || sdk.has_inline value) ≡ false)

  plain-needs_nothing :
      (entries : Assoc String)
      → All IsPlainEntry entries
      → secret_needs_mutation sdk codec entries ≡ ok false
  unfolding secret_needs_mutation entry_needs_mutation
  plain-needs_nothing [] plain = refl
  plain-needs_nothing ((key, value) ∷ entries) ((other, plain), rest) =
      rw (plain-needs_nothing entries rest) (ground (arith, eq_iff key docker_config_json_key))

  -- A secret without Docker's entry and without a reference to Vault comes back as it is, whether or
  -- not a client can be made.
  mutate_secret-plain :
      (c : VaultConfig) (entries : Assoc String)
      → All IsPlainEntry entries
      → mutate_secret sdk codec c entries ≡ ok entries
  unfolding mutate_secret
  mutate_secret-plain c entries plain = simp (plain-needs_nothing entries plain, mutate_secret)
