-- ===== src/ConfigMaps.antt =====
-- pkg/webhook/configmap.go: configMapNeedsMutation and MutateConfigMap.
pub mod Kept
use vault_secrets_webhook.Base.{
  String, Bool, true, false, not, ◌||◌, Option, none, some, List, [], ◌∷◌, Assoc, lookup, insert,
  keys, get_or_else, any, if◌then◌else◌, Result, ok, err, ◌>>=◌, wrap,
}
use vault_secrets_webhook.Common.{has_vault_prefix}
use vault_secrets_webhook.Config.{VaultConfig}
use vault_secrets_webhook.Injector.{Injector, Sdk}
use vault_secrets_webhook.Kube.{ConfigMap, WebhookError, wrapped, message}

-- `configMapNeedsMutation`
unfoldable pub config_map_needs_mutation : Sdk → ConfigMap → Bool
config_map_needs_mutation sdk config_map =
    any (λ (_, value). has_vault_prefix value || sdk.has_inline value) config_map.entries
    || any (λ (_, value). has_vault_prefix value) config_map.binary_entries

-- `decode` is the decoding of base64, where none is an error.
module _ (decode : String → Option String) where
  -- The loop of mutateConfigMapBinaryData over the data from Vault.
  unfoldable pub store_decoded : Assoc String → Assoc String → Result WebhookError (Assoc String)
  store_decoded [] binary = ok binary
  store_decoded ((key, value) ∷ mapped) binary = elim (decode value) [
    | none ↦ err (wrapped "failed to decode ConfigMap binary data" (message "illegal base64 data"))
    | some bytes ↦ store_decoded mapped (insert key bytes binary)
  ]

  -- `mutateConfigMapBinaryData` for one entry.
  unfoldable pub mutate_binary_entry :
      Injector → String → String → Assoc String → Result WebhookError (Assoc String)
  mutate_binary_entry injector key value binary =
      injector.get_data_from_vault ((key, value) ∷ []) >>= λ mapped. store_decoded mapped binary

  -- The loop over the keys of the binary data, whose values are read as it goes.
  unfoldable pub mutate_binary :
      Injector → List String → Assoc String → Result WebhookError (Assoc String)
  mutate_binary injector [] binary = ok binary
  mutate_binary injector (key ∷ names) binary =
      let value = get_or_else (lookup key binary) "" in
      (if has_vault_prefix value then mutate_binary_entry injector key value binary else ok binary)
      >>= λ next. mutate_binary injector names next

  -- `MutateConfigMap` once there is an injector.
  unfoldable pub mutate_entries : Injector → ConfigMap → Result WebhookError ConfigMap
  mutate_entries injector config_map = injector.get_data_from_vault config_map.entries >>= λ filled.
      mutate_binary injector (keys config_map.binary_entries) config_map.binary_entries
      >>= λ binary. ok (record config_map { entries = filled; binary_entries = binary })

  -- `MutateConfigMap`
  unfoldable pub mutate_config_map : Sdk → VaultConfig → ConfigMap → Result WebhookError ConfigMap
  mutate_config_map sdk c config_map =
      if not (config_map_needs_mutation sdk config_map)
      then ok config_map
      else (wrap (wrapped "failed to create vault client") (sdk.new_injector c) >>= λ injector.
          mutate_entries injector config_map)
