-- ===== src/Common/Policy.antt =====
-- pkg/common/policy.go, over the operator's settings.
use Prim.Native.Char.{Char}
use vault_secrets_webhook.Base.{ℤ, String, Bool, List, [], ◌∷◌, ◌==◌, if◌then◌else◌}
use vault_secrets_webhook.Base.Text.{trim_space, split, parse_bool}

-- What the webhook reads from viper: the operator's settings by key.
pub record Viper : Type 0 where
  pub get_string : String → String
  pub get_bool : String → Bool
  pub get_int : String → ℤ

abbrev comma : Char
comma = ","

-- The loop of `SplitAndTrim`.
trimmed_parts : List String → List String
trimmed_parts [] = []
trimmed_parts (p ∷ parts) =
    let rest = trimmed_parts parts in
    let trimmed = trim_space p in if trimmed == "" then rest else trimmed ∷ rest

-- `SplitAndTrim`; a nil slice and an empty one are the empty list.
unfoldable pub split_and_trim : String → List String
unfolding trimmed_parts split
split_and_trim csv =
    let parts = trimmed_parts (split csv comma) in if trim_space csv == "" then [] else parts

-- `ResolveObjectSkipVerify`; the warning it logs is left out.
unfoldable pub resolve_object_skip_verify : Viper → String → String → String → Bool
resolve_object_skip_verify viper annotation_value allow_env_var default_env_var =
    let requested = parse_bool annotation_value in
    if viper.get_bool allow_env_var then requested else viper.get_bool default_env_var
