-- ===== src/Tests/Objects.antt =====
-- Secrets, config maps and other objects at concrete values.
use vault_secrets_webhook.Base.{
  sym, ok-injective, String, ◌≡◌, refl, none, some, [], ◌∷◌, ◌==◌, map, Assoc, lookup, insert, keys,
  is_some, ok, ◌>>=◌, if◌then◌else◌,
}
use vault_secrets_webhook.Base.Text.{split, replace_all}
use vault_secrets_webhook.Common.{has_vault_prefix}
use vault_secrets_webhook.ConfigMaps.{
  mutate_entries, mutate_binary, mutate_binary_entry, store_decoded,
}
use vault_secrets_webhook.ConfigMaps.Kept.{mutate_entries-plain_bytes}
use vault_secrets_webhook.Injector.{Injector, Sdk, get_reference}
use vault_secrets_webhook.Kube.{ConfigMap}
use vault_secrets_webhook.Object.{
  text, map_of, slice_of, Elements, end, element, fill, visit, traverse_object,
}
use vault_secrets_webhook.Object.Leaves.{
  leaves, skeleton, fill_each, traverse_object-leaves, traverse_object-skeleton,
}
use vault_secrets_webhook.Secret.{
  Codec, DockerAuthConfig, DockerCredentials, docker_config_json_key, creds_need_mutation,
  mutate_docker_creds, entry_needs_mutation, secret_needs_mutation, docker_auth, assemble,
  mutate_docker_config, mutate_secret_data, mutate_secret,
}
use vault_secrets_webhook.Secret.Kept.{mutate_secret-keys}
use vault_secrets_webhook.Secret.ReadBack.{AllFilled, mutate_docker_creds-AllFilled}
use vault_secrets_webhook.Secret.Registries.{is_referred, assemble-registries}
use vault_secrets_webhook.Tests.Data.{pod_config}

-- A Vault that answers every reference with one word.
abbrev answer : String → String
answer value = if has_vault_prefix value then "word" else value

abbrev test_injector : Injector
test_injector = record {
  get_data_from_vault = λ entries. ok (map (λ (key, value). (key, answer value)) entries);
}

abbrev pub test_sdk : Sdk
test_sdk = record {
  has_inline = λ value. value == "a ${vault:secret/app#key} b";
  find_inline = λ value. ("${vault:secret/app#key}", "vault:secret/app#key") ∷ [];
  new_injector = λ c. ok test_injector;
}

abbrev no_auth : DockerAuthConfig
no_auth = record {
  username = "";
  password = "";
  auth = "";
  email = "";
  server_address = "";
  identity_token = "";
  registry_token = "";
}

abbrev test_credentials : DockerCredentials
test_credentials =
    ("referred.example", record no_auth { auth = "vault:a#user:vault:a#pass" })
    ∷ ("plain.example", record no_auth { auth = "user:pass" })
    ∷ []

-- A codec whose base64 is the text itself.
abbrev pub test_codec : Codec
test_codec = record {
  decode_base64 = λ s. some s;
  encode_base64 = λ s. s;
  unmarshal = λ s. some test_credentials;
  marshal = λ dc. "marshaled";
}

abbrev nested : Elements
nested = element (some "kind") (text "Custom") (
    element (some "list")
      (slice_of (
        element none (text "vault:secret/app#key")
          (element none (text "a ${vault:secret/app#key} b") end)))
      end)

traverse_object-leaves_example :
    ((traverse_object test_sdk test_injector (map_of nested) >>= λ w. ok (leaves w))
      ≡ fill_each test_sdk test_injector (leaves (map_of nested)))
    × ((traverse_object test_sdk test_injector (slice_of nested) >>= λ w. ok (leaves w))
        ≡ fill_each test_sdk test_injector (leaves (slice_of nested)))
traverse_object-leaves_example = traverse_object-leaves test_sdk test_injector nested

abbrev filled_nested : Elements
filled_nested = element (some "kind") (text "Custom") (
    element (some "list")
      (slice_of (element none (text "word") (element none (text "a word b") end))) end)

traversed : traverse_object test_sdk test_injector (map_of nested) ≡ ok (map_of filled_nested)
unfolding traverse_object visit fill get_reference lookup replace_all has_vault_prefix
traversed = refl

traverse_object-skeleton_example : skeleton (map_of filled_nested) ≡ skeleton (map_of nested)
traverse_object-skeleton_example =
    traverse_object-skeleton test_sdk test_injector (map_of nested) (map_of filled_nested) traversed

abbrev test_secret : Assoc String
test_secret = (".dockerconfigjson", "{}") ∷ ("password", "vault:secret/app#password") ∷ []

secret_filled :
    mutate_secret test_sdk test_codec pod_config test_secret
    ≡ ok ((".dockerconfigjson", "marshaled") ∷ ("password", "word") ∷ [])
unfolding mutate_secret secret_needs_mutation entry_needs_mutation mutate_docker_config
    mutate_secret_data has_vault_prefix lookup creds_need_mutation mutate_docker_creds assemble
    docker_auth split insert
secret_filled = refl

mutate_secret-keys_example :
    keys {V = String} ((".dockerconfigjson", "marshaled") ∷ ("password", "word") ∷ [])
    ≡ keys test_secret
mutate_secret-keys_example =
    mutate_secret-keys test_sdk test_codec pod_config test_secret
      ((".dockerconfigjson", "marshaled") ∷ ("password", "word") ∷ []) secret_filled

abbrev assembled_credentials : DockerCredentials
assembled_credentials = ("referred.example", record no_auth { auth = "word:word" }) ∷ []

assembled :
    assemble test_sdk test_codec test_injector test_credentials [] ≡ ok assembled_credentials
unfolding assemble docker_auth split has_vault_prefix lookup insert
assembled = refl

-- The registry without a reference is lost.
assemble-registries_example :
    is_some (lookup "plain.example" assembled_credentials)
    ≡ is_referred test_sdk test_codec test_injector "plain.example" test_credentials
assemble-registries_example =
    assemble-registries test_sdk test_codec test_injector "plain.example" test_credentials
      assembled_credentials assembled

mutate_docker_creds-AllFilled_example :
    (stored : DockerCredentials) × (lookup docker_config_json_key
        ((docker_config_json_key, "marshaled") ∷ [])
      ≡ some (test_codec.marshal stored))
    × AllFilled test_sdk test_codec test_injector stored
unfolding mutate_docker_creds assemble docker_auth split has_vault_prefix lookup insert
mutate_docker_creds-AllFilled_example =
    mutate_docker_creds-AllFilled test_sdk test_codec test_injector (λ s. refl) []
      ((docker_config_json_key, "marshaled") ∷ []) test_credentials refl

abbrev test_config_map : ConfigMap
test_config_map = record {
  name = "settings";
  owner_references = [];
  entries = ("mode", "fast") ∷ [];
  binary_entries = ("logo", "bytes") ∷ [];
}

abbrev referring_map : ConfigMap
referring_map = record test_config_map {
  binary_entries = ("logo", "bytes") ∷ ("key", "vault:a#b") ∷ [];
}

abbrev filled_map : ConfigMap
filled_map = record test_config_map { binary_entries = ("logo", "bytes") ∷ ("key", "word") ∷ [] }

config_map_filled :
    mutate_entries test_codec.decode_base64 test_injector referring_map ≡ ok filled_map
unfolding mutate_entries mutate_binary mutate_binary_entry store_decoded has_vault_prefix lookup
    insert
config_map_filled = refl

mutate_entries-plain_bytes_example : lookup "logo" filled_map.binary_entries ≡ some "bytes"
unfolding lookup has_vault_prefix
mutate_entries-plain_bytes_example =
    mutate_entries-plain_bytes test_codec.decode_base64 test_injector
      (λ key value mapped e. (answer value, sym (ok-injective e))) referring_map filled_map "logo"
      "bytes" config_map_filled refl refl
