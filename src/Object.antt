-- ===== src/Object.antt =====
-- pkg/webhook/object.go: traverseObject and MutateObject.
pub mod Leaves
use vault_secrets_webhook.Base.{
  String, Bool, true, false, Option, none, some, List, [], ◌∷◌, if◌then◌else◌, Result, ok, err,
  ◌>>=◌,
}
use vault_secrets_webhook.Base.Text.{replace_all}
use vault_secrets_webhook.Common.{has_vault_prefix}
use vault_secrets_webhook.Config.{VaultConfig}
use vault_secrets_webhook.Injector.{Injector, Sdk, get_reference}
use vault_secrets_webhook.Kube.{WebhookError, wrapped}

-- A value of an unstructured object: a text, a map, a slice, or any other value. The elements of a
-- map have their keys, in the order in which the iterator visits them; those of a slice have none.
mutual
  pub data Json : Type 0 where
    text : String → Json
    map_of slice_of : Elements → Json
    other_value : String → Json

  pub data Elements : Type 0 where
    end : Elements
    element : Option String → Json → Elements → Elements

module _ (sdk : Sdk) (injector : Injector) where
  -- The loop over the inline references of a text: the match and the reference in it.
  replace_references : String → List (String × String) → Result WebhookError String
  replace_references s [] = ok s
  replace_references s ((whole, reference) ∷ references) =
      get_reference injector reference >>= λ value.
      replace_references (replace_all s whole value) references

  -- What traverseObject sets for a text.
  unfoldable pub fill : String → Result WebhookError String
  unfolding replace_references
  fill s =
      if has_vault_prefix s
      then get_reference injector s
      else if sdk.has_inline s
      then replace_references s (sdk.find_inline s)
      else ok s

  -- The body of traverseObject's loop, at the value of an element, and the loop.
  unfoldable mutual
    pub visit : Json → Result WebhookError Json
    visit (text s) = fill s >>= λ value. ok (text value)
    visit (map_of elements) = visit_all elements >>= λ visited. ok (map_of visited)
    visit (slice_of elements) = visit_all elements >>= λ visited. ok (slice_of visited)
    visit (other_value s) = ok (other_value s)

    pub visit_all : Elements → Result WebhookError Elements
    visit_all end = ok end
    visit_all (element key value elements) = do
      visited ← visit value
      rest ← visit_all elements
      ok (element key visited rest)

  -- `traverseObject`: only a map and a slice are walked.
  unfoldable pub traverse_object : Json → Result WebhookError Json
  unfolding visit
  traverse_object (text s) = ok (text s)
  traverse_object (map_of elements) = visit_all elements >>= λ visited. ok (map_of visited)
  traverse_object (slice_of elements) = visit_all elements >>= λ visited. ok (slice_of visited)
  traverse_object (other_value s) = ok (other_value s)

-- `MutateObject`, at the map of an unstructured object.
unfoldable pub mutate_object : Sdk → VaultConfig → Elements → Result WebhookError Json
mutate_object sdk c object = elim (sdk.new_injector c) [
  | err e ↦ err (wrapped "failed to create vault client" e)
  | ok injector ↦ traverse_object sdk injector (map_of object)
]
