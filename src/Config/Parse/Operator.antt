-- ===== src/Config/Parse/Operator.antt =====
-- pkg/webhook/webhook.go: vaultAddrPolicy lists the operator's own address.
use mathlib.Core.List.{Memᴰ}
use vault_secrets_webhook.Base.{
  String, ◌≡◌, ◌≢◌, refl, sym, ap, ◌∙◌, List, [], ◌∷◌, ◌++◌, arith, eq_iff, err,
}
use vault_secrets_webhook.Base.Text.{trim_space}
use vault_secrets_webhook.Common.Policy.{Viper, split_and_trim}
use vault_secrets_webhook.Common.Addr.{Net, normalize_addr, validate_object_addr, not_allowlisted}
use vault_secrets_webhook.Common.Addr.Allowlist.{Listed, normalize_addr-trim_space}
use vault_secrets_webhook.Common.Addr.Guard.{validate_object_addr-ne-not_allowlisted}
use vault_secrets_webhook.Config.Parse.{vault_addr_policy}

member_last : {x : String} (xs : List String) → Memᴰ x (xs ++ (x ∷ []))
member_last [] = Memᴰ.head refl
member_last (x ∷ xs) = Memᴰ.tail (member_last xs)

module _ (net : Net) (viper : Viper) where
  allowlist_lem :
      viper.get_string "vault_addr" ≢ ""
      → (vault_addr_policy viper).allowlist
        ≡ split_and_trim (viper.get_string "vault_addr_allowlist")
          ++ (viper.get_string "vault_addr" ∷ [])
  unfolding vault_addr_policy
  allowlist_lem set = ground (arith, eq_iff (viper.get_string "vault_addr") "")

  -- An object may name the address that the operator has set, with white space around it or not:
  -- whatever the operator's allowlist says, it is not refused as unlisted.
  pub validate_object_addr-vault_addr_policy :
      (addr : String)
      → viper.get_string "vault_addr" ≢ ""
      → trim_space (viper.get_string "vault_addr") ≢ ""
      → trim_space addr ≡ trim_space (viper.get_string "vault_addr")
      → validate_object_addr net addr (vault_addr_policy viper) ≢ err not_allowlisted
  validate_object_addr-vault_addr_policy addr set filled same =
      let listed : Listed net (trim_space addr) (vault_addr_policy viper).allowlist = record {
        entry = viper.get_string "vault_addr";
        member = rw (allowlist_lem set) (member_last _);
        filled = filled;
        same = sym (normalize_addr-trim_space net _) ∙ ap (normalize_addr net) (sym same);
      } in
      validate_object_addr-ne-not_allowlisted net addr _ listed
