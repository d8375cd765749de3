-- ===== src/Registry/Download/Extracted.antt =====
-- pkg/webhook/registry.go: where the configuration that getImageConfig returns comes from.
use vault_secrets_webhook.Base.{
  String, ◌≡◌, ap, ap₂, inl, inr, Bool, true, false, Bool-cases, List, [], ◌∷◌, ok, wrap-eq-ok,
}
use vault_secrets_webhook.Base.Actions.{Action, ◌>>=◌, >>=-eq-ok}
use vault_secrets_webhook.Common.Policy.{Viper}
use vault_secrets_webhook.Kube.{Container, PodSpec, ImageConfig, WebhookError, wrapped}
use vault_secrets_webhook.Registry.{Registry, ContainerInfo, get_image_config}
use vault_secrets_webhook.Registry.Cache.{IsSound, get_image_config-Downloaded}
use vault_secrets_webhook.Registry.Download.{
  Registries, wrapping, first_image, indexed_image, image_of, reference_of, descriptor_of,
  download_config, remote_of,
}

module _ (registries : Registries) where
  -- A request that was answered with this value, in some state of the network.
  abbrev pub Answered {κ} : {A : Type κ} → Action registries.Network WebhookError A → A → Type κ
  Answered request a =
      (before : registries.Network) × (after : registries.Network) × (request before
        ≡ (ok a, after))

  -- The image that a descriptor stands for: its own, or the first of its index.
  pub data ImageOf (descriptor : registries.Descriptor) (image : registries.Image) : Type 0 where
    own :
        registries.is_index descriptor ≡ false
        → Answered (registries.image descriptor) image
        → ImageOf descriptor image
    first :
        (index : registries.Index) (digest : String) (digests : List String)
        → registries.is_index descriptor ≡ true
        → Answered (registries.image_index descriptor) index
        → Answered (registries.index_manifest index) (digest ∷ digests)
        → Answered (registries.index_image index digest) image
        → ImageOf descriptor image

  -- A configuration that was read from the image of a text, with the credentials of a container and
  -- verification skipped or not.
  pub record IsExtracted (info : ContainerInfo) (is_disabled : Bool) (config : ImageConfig)
      : Type 0 where
    pub keychain : registries.Keychain
    pub reference : registries.Reference
    pub descriptor : registries.Descriptor
    pub image : registries.Image
    pub authenticated : Answered (registries.new_keychain info) keychain
    pub parsed : registries.parse_reference info.image ≡ ok reference
    pub fetched : Answered (registries.get reference keychain is_disabled) descriptor
    pub chosen : ImageOf descriptor image
    pub read : Answered (registries.config_file image) config

  wrapping-eq-ok {κ} :
      {A : Type κ} (text : String) (request : Action registries.Network WebhookError A)
      (before : registries.Network) {a : A} {after : registries.Network}
      → wrapping text request before ≡ (ok a, after)
      → Answered request a
  wrapping-eq-ok text request before {after = after} e = (
    before,
    after,
    ap₂ (λ r n. (r, n)) (wrap-eq-ok (wrapped text) (request before).0 (ap (λ o. o.0) e))
        (ap (λ o. o.1) e),
  )

  first_image-ImageOf :
      (descriptor : registries.Descriptor) (index : registries.Index) (digests : List String)
      (before : registries.Network) {image : registries.Image} {after : registries.Network}
      → registries.is_index descriptor ≡ true
      → Answered (registries.image_index descriptor) index
      → Answered (registries.index_manifest index) digests
      → first_image registries index digests before ≡ (ok image, after)
      → ImageOf descriptor image
  unfolding first_image
  first_image-ImageOf descriptor index [] before many found manifest e = absurd (cc e)
  first_image-ImageOf descriptor index (digest ∷ digests) before many found manifest e =
      first index digest digests many found manifest (
        wrapping-eq-ok "cannot get image from manifest" (registries.index_image index digest) before
          e)

  image_of-ImageOf :
      (descriptor : registries.Descriptor) (before : registries.Network) {image : registries.Image}
      {after : registries.Network}
      → image_of registries descriptor before ≡ (ok image, after)
      → ImageOf descriptor image
  unfolding image_of indexed_image
  image_of-ImageOf descriptor before e = elim (Bool-cases (registries.is_index descriptor)) [
    | inr single ↦ own single (
        wrapping-eq-ok "cannot convert image descriptor to v1.Image" (registries.image descriptor)
          before (rw single at e))
    | inl many ↦
        let (index, n, found, rest) =
          >>=-eq-ok (wrapping "cannot get image index" (registries.image_index descriptor))
            (λ index.
              wrapping "cannot get index manifest" (registries.index_manifest index)
              >>= first_image registries index)
            before (rw many at e) in
        let (digests, n', listed, last) =
          >>=-eq-ok (wrapping "cannot get index manifest" (registries.index_manifest index))
            (first_image registries index) n rest in
        first_image-ImageOf descriptor index digests n' many
          (wrapping-eq-ok "cannot get image index" (registries.image_index descriptor) before found)
          (wrapping-eq-ok "cannot get index manifest" (registries.index_manifest index) n listed)
          last
  ]

  descriptor_of-eq-ok :
      (info : ContainerInfo) (is_disabled : Bool) (before : registries.Network)
      {descriptor : registries.Descriptor} {after : registries.Network}
      → descriptor_of registries info is_disabled before ≡ (ok descriptor, after)
      → (keychain : registries.Keychain) × (reference : registries.Reference) × Answered
          (registries.new_keychain info)
          keychain
        × (registries.parse_reference info.image ≡ ok reference)
        × Answered (registries.get reference keychain is_disabled) descriptor
  unfolding descriptor_of reference_of
  descriptor_of-eq-ok info is_disabled before e =
      let asked =
        wrapping "failed to create k8schain authentication" (registries.new_keychain info) in
      let fetching = λ (keychain : registries.Keychain) (reference : registries.Reference).
        wrapping "cannot fetch image descriptor" (registries.get reference keychain is_disabled) in
      let (keychain, n, authenticated, rest) =
        >>=-eq-ok asked (λ keychain. reference_of registries info >>= fetching keychain) before e in
      let (reference, n', parsed, last) =
        >>=-eq-ok (reference_of registries info) (fetching keychain) n rest in
      (
        keychain,
        reference,
        wrapping-eq-ok "failed to create k8schain authentication" (registries.new_keychain info)
            before authenticated,
        wrap-eq-ok (wrapped "failed to parse image reference")
            (registries.parse_reference info.image) (ap (λ o. o.0) parsed),
        wrapping-eq-ok "cannot fetch image descriptor"
            (registries.get reference keychain is_disabled) n' last,
      )

  -- A configuration that getImageConfig returns was read from the image that the reference in the
  -- container's text stands for, or the first image of its index, with the container's credentials,
  -- and with verification skipped only where that is asked for.
  download_config-IsExtracted :
      (info : ContainerInfo) (is_disabled : Bool) (before : registries.Network)
      (config : ImageConfig)
      → (download_config registries info is_disabled before).0 ≡ ok config
      → IsExtracted info is_disabled config
  unfolding download_config
  download_config-IsExtracted info is_disabled before config e =
      let (descriptor, n, described, rest) =
        >>=-eq-ok (descriptor_of registries info is_disabled)
          (λ descriptor. image_of registries descriptor >>= λ image.
            wrapping "cannot extract config file of image" (registries.config_file image))
          before (ap (λ r. (r, (download_config registries info is_disabled before).1)) e) in
      let (image, n', chosen, last) =
        >>=-eq-ok (image_of registries descriptor)
          (λ image. wrapping "cannot extract config file of image" (registries.config_file image)) n
          rest in
      let (keychain, reference, authenticated, parsed, fetched) =
        descriptor_of-eq-ok info is_disabled before described in
      record {
        keychain = keychain;
        reference = reference;
        descriptor = descriptor;
        image = image;
        authenticated = authenticated;
        parsed = parsed;
        fetched = fetched;
        chosen = image_of-ImageOf descriptor n chosen;
        read =
            wrapping-eq-ok "cannot extract config file of image" (registries.config_file image) n'
              last;
      }

module _ (registries : Registries) (viper : Viper) where
  -- Every configuration that GetImageConfig returns over such downloads was read, at some time, from
  -- an image that the reference in the container's own text stood for, if the cache's entries were.
  pub get_image_config-IsExtracted :
      (r : Registry (remote_of registries) viper) (ns : String) (is_disabled : Bool)
      (container : Container) (spec : PodSpec) (config : ImageConfig)
      → IsSound (remote_of registries) viper r
      → (get_image_config (remote_of registries) viper r ns is_disabled container spec).0
        ≡ ok config
      → (info : ContainerInfo) × (skipped : Bool) × (info.image ≡ container.image)
        × IsExtracted registries info skipped config
  get_image_config-IsExtracted r ns is_disabled container spec config sound e =
      let d =
        get_image_config-Downloaded (remote_of registries) viper r ns is_disabled container spec
          config sound e in
      (
        d.info,
        d.is_disabled,
        d.same_image,
        download_config-IsExtracted registries d.info d.is_disabled d.network config d.answer,
      )
