-- ===== src/Webhook/Admission.antt =====
-- pkg/webhook/webhook.go: what a review may change, and whom it trusts.
use vault_secrets_webhook.Base.{
  String, ◌≡◌, ◌≢◌, refl, inl, inr, true, some, Assoc, lookup, Result, err, Result-cases,
  Bool-cases,
}
use vault_secrets_webhook.Common.Annotations
use vault_secrets_webhook.Common.Policy.{Viper}
use vault_secrets_webhook.Common.Addr.{Net, AddrError, validate_object_addr}
use vault_secrets_webhook.Config.{VaultConfig}
use vault_secrets_webhook.Config.Parse.{Parsers, parse_vault_config, vault_addr_policy}
use vault_secrets_webhook.Config.Parse.Trust.{parse_vault_config-eq-err_iff}
use vault_secrets_webhook.Injector.{Sdk}
use vault_secrets_webhook.Kube.{Kube, ImageRegistry}
use vault_secrets_webhook.Pod.Mutate.{Runtime, Machine}
use vault_secrets_webhook.Pod.Mutate.DryRun.{mutate_pod-cluster}
use vault_secrets_webhook.Secret.{Codec}
use vault_secrets_webhook.Webhook.{
  KubeObject, pod_object, secret_object, config_map_object, unstructured_object, other_object,
  Review, bad_address, subject_of, template_values, dispatch, with_role, vault_secrets_mutator,
}

module _ (kube : Kube) (registry : ImageRegistry) (runtime : Runtime) (net : Net)
    (parsers : Parsers) (viper : Viper) (sdk : Sdk) (codec : Codec)
    (execute : String → Assoc String → Result String String) (m : Machine kube registry runtime)
    (review : Review) where
  dispatch-cluster :
      (c : VaultConfig) (object : KubeObject)
      → review.dry_run ≡ true
      → (dispatch kube registry runtime net parsers viper sdk codec execute m review c
          object).1.cluster
        ≡ m.cluster
  unfolding dispatch
  dispatch-cluster c (pod_object pod) dry =
      mutate_pod-cluster kube registry runtime m pod c review.dry_run (inl dry)
  dispatch-cluster c (secret_object entries) dry = refl
  dispatch-cluster c (config_map_object config_map) dry = refl
  dispatch-cluster c (unstructured_object object) dry = refl
  dispatch-cluster c other_object dry = refl

  with_role-cluster :
      (c : VaultConfig)
      → review.dry_run ≡ true
      → (with_role kube registry runtime net parsers viper sdk codec execute m review c).1.cluster
        ≡ m.cluster
  unfolding with_role
  with_role-cluster c dry =
      elim (Result-cases (
        execute c.role
          (template_values kube registry runtime net parsers viper sdk codec execute review c))) [
            | inr (e, failed) ↦ rw (failed, with_role)
            | inl (role, filled) ↦ rw (filled, with_role) (dispatch-cluster _ review.object dry)
          ]

  -- A dry run of a review, of any object and with any outcome, leaves the cluster as it is,
  -- the requests of newVaultClient aside.
  pub vault_secrets_mutator-cluster :
      review.dry_run ≡ true
      → (vault_secrets_mutator kube registry runtime net parsers viper sdk codec execute m
          review).1.cluster
        ≡ m.cluster
  unfolding vault_secrets_mutator
  vault_secrets_mutator-cluster dry =
      elim (Result-cases
        (parse_vault_config net parsers viper (subject_of review) review.namespace)) [
          | inr (e, refused) ↦ rw (refused, vault_secrets_mutator)
          | inl (c, parsed) ↦ elim (Bool-cases c.skip) [
            | inl skipped ↦ rw (parsed, skipped, vault_secrets_mutator)
            | inr live ↦ simp (parsed, live, vault_secrets_mutator) (with_role-cluster c dry)
          ]
        ]

  -- An object that names an address which the guard refuses, and does not ask to be skipped, is
  -- refused with the guard's error, and nothing is done.
  pub vault_secrets_mutator-refuses :
      (addr : String) (e : AddrError)
      → lookup Annotations.mutate_annotation review.annotations ≢ some "skip"
      → lookup Annotations.vault_addr_annotation review.annotations ≡ some addr
      → validate_object_addr net addr (vault_addr_policy viper) ≡ err e
      → vault_secrets_mutator kube registry runtime net parsers viper sdk codec execute m review
        ≡ (err (bad_address e), m)
  unfolding vault_secrets_mutator subject_of
  vault_secrets_mutator-refuses addr e unskipped named refused =
      let stopped =
        (parse_vault_config-eq-err_iff net parsers viper (subject_of review) review.namespace e).1
          (unskipped, (addr, named, refused)) in
      rw (stopped, vault_secrets_mutator)
