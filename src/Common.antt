-- ===== src/Common.antt =====
-- pkg/common: the annotations, the test for a Vault reference, and what guards addresses and
-- settings that come from an untrusted object.
pub mod Annotations
pub mod Policy
pub mod Addr
use vault_secrets_webhook.Base.{String, Bool, ◌||◌, starts_with}

-- `HasVaultPrefix`
unfoldable pub has_vault_prefix : String → Bool
has_vault_prefix value = starts_with value "vault:" || starts_with value ">>vault:"
