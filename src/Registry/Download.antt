-- ===== src/Registry/Download.antt =====
-- pkg/webhook/registry.go: getImageConfig.
pub mod Extracted
use vault_secrets_webhook.Base.{
  String, Bool, Option, none, some, List, [], ◌∷◌, Result, ok, err, wrap, if◌then◌else◌,
}
use vault_secrets_webhook.Base.Actions.{Action, ◌>>=◌, raise}
use vault_secrets_webhook.Kube.{ImageConfig, WebhookError, wrapped, message}
use vault_secrets_webhook.Registry.{ContainerInfo, Remote}

-- What getImageConfig calls of `k8schain`, `name` and `remote`: requests may change the network,
-- whose state is unknown. `get` takes whether to skip the verification of certificates; an index's
-- manifest is the digests of its images.
pub record Registries : Type 1 where
  pub Network : Type 0
  pub Keychain : Type 0
  pub Reference : Type 0
  pub Descriptor : Type 0
  pub Index : Type 0
  pub Image : Type 0
  pub new_keychain : ContainerInfo → Action Network WebhookError Keychain
  pub parse_reference : String → Result WebhookError Reference
  pub identifier : Reference → String
  pub get : Reference → Keychain → Bool → Action Network WebhookError Descriptor
  pub is_index : Descriptor → Bool
  pub image_index : Descriptor → Action Network WebhookError Index
  pub index_manifest : Index → Action Network WebhookError (List String)
  pub index_image : Index → String → Action Network WebhookError Image
  pub image : Descriptor → Action Network WebhookError Image
  pub config_file : Image → Action Network WebhookError ImageConfig

-- `errors.Wrap` of a request's error.
abbrev pub wrapping {ℓ κ} :
    {S : Type ℓ} {A : Type κ} → String → Action S WebhookError A → Action S WebhookError A
wrapping text request s = let (r, s') = request s in (wrap (wrapped text) r, s')

module _ (registries : Registries) where
  open registries use {
    Network, Keychain, Descriptor, Index, Image, new_keychain, parse_reference, get, is_index,
    image_index, index_manifest, index_image, config_file,
  }

  -- The first image of an index.
  first_image : Index → List String → Action Network WebhookError Image
  first_image index [] = raise (message "no manifests found in the image index")
  first_image index (digest ∷ digests) =
      wrapping "cannot get image from manifest" (index_image index digest)

  indexed_image : Descriptor → Action Network WebhookError Image
  unfolding first_image
  indexed_image descriptor = do
    index ← wrapping "cannot get image index" (image_index descriptor)
    digests ← wrapping "cannot get index manifest" (index_manifest index)
    first_image index digests

  -- The image of a descriptor.
  image_of : Descriptor → Action Network WebhookError Image
  unfolding indexed_image
  image_of descriptor =
      if is_index descriptor
      then indexed_image descriptor
      else wrapping "cannot convert image descriptor to v1.Image" (registries.image descriptor)

  -- `name.ParseReference` of the container's image.
  reference_of : ContainerInfo → Action Network WebhookError registries.Reference
  reference_of info network =
      (wrap (wrapped "failed to parse image reference") (parse_reference info.image), network)

  -- The descriptor of the container's image; the text of the first error, which goes on with the
  -- options of the keychain, is cut before them.
  descriptor_of : ContainerInfo → Bool → Action Network WebhookError Descriptor
  unfolding reference_of
  descriptor_of info is_disabled = do
    auth_chain ← wrapping "failed to create k8schain authentication" (new_keychain info)
    reference ← reference_of info
    wrapping "cannot fetch image descriptor" (get reference auth_chain is_disabled)

  -- `getImageConfig`
  unfoldable pub download_config : ContainerInfo → Bool → Action Network WebhookError ImageConfig
  unfolding descriptor_of image_of
  download_config info is_disabled = do
    descriptor ← descriptor_of info is_disabled
    image ← image_of descriptor
    wrapping "cannot extract config file of image" (config_file image)

  -- The identifier of an image's reference, if it is valid.
  unfoldable pub reference_identifier : String → Option String
  reference_identifier image = elim (parse_reference image) [
    | ok reference ↦ some (registries.identifier reference)
    | err e ↦ none
  ]

  -- What the cache stands before.
  abbrev pub remote_of : Remote
  remote_of = record {
    Network = Network;
    reference_identifier = reference_identifier;
    download = λ network info is_disabled. download_config info is_disabled network;
  }
