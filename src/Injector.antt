-- ===== src/Injector.antt =====
-- The secret injector of the Bank-Vaults SDK, and the client that newVaultClient makes.
use vault_secrets_webhook.Base.{
  String, Bool, List, [], ◌∷◌, Assoc, lookup, get_or_else, Result, ok, ◌>>=◌,
}
use vault_secrets_webhook.Config.{VaultConfig}
use vault_secrets_webhook.Kube.{WebhookError}

-- `SecretInjector`: `GetDataFromVaultWithContext`, which reads the references of a map's values.
pub record Injector : Type 0 where
  pub get_data_from_vault : Assoc String → Result WebhookError (Assoc String)

-- What the webhook calls of the SDK: `HasInlineVaultDelimiters`, `FindInlineVaultDelimiters` (each
-- match with the reference inside it), and the injector over a new client for the options.
pub record Sdk : Type 0 where
  pub has_inline : String → Bool
  pub find_inline : String → List (String × String)
  pub new_injector : VaultConfig → Result WebhookError Injector

-- The data of one reference: `GetDataFromVaultWithContext(ctx, {"data": s})["data"]`.
unfoldable pub get_reference : Injector → String → Result WebhookError String
get_reference injector s = injector.get_data_from_vault (("data", s) ∷ []) >>= λ data_from_vault.
    ok (get_or_else (lookup "data" data_from_vault) "")
