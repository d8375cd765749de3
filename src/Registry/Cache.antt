-- ===== src/Registry/Cache.antt =====
-- pkg/webhook/registry.go: what the cache of image configurations answers.
use mathlib.Core.Path.{subst₂}
use mathlib.Core.Option.{some-injective}
use vault_secrets_webhook.Base.{
  String, ◌≡◌, ◌∙◌, sym, ap, inl, inr, Bool, true, false, ◌==◌, some, arith, eq_iff, eq_refl,
  lookup, insert, lookup-insert, Bool-cases, Option-cases, Result-cases, ok, ok-injective,
}
use vault_secrets_webhook.Common.Policy.{Viper}
use vault_secrets_webhook.Kube.{Container, PodSpec, ImageConfig}
use vault_secrets_webhook.Registry.{
  Remote, Registry, ContainerInfo, is_allowed_to_cache, container_info, stored, fetch,
  get_image_config,
}

module _ (remote : Remote) (viper : Viper) where
  -- A configuration that was downloaded for this image.
  pub record Downloaded (image : String) (config : ImageConfig) : Type 0 where
    pub network : remote.Network
    pub info : ContainerInfo
    pub is_disabled : Bool
    pub same_image : info.image ≡ image
    pub answer : (remote.download network info is_disabled).0 ≡ ok config

  -- Every entry of the cache was downloaded for its own image.
  abbrev pub IsSound : Registry remote viper → Type 0
  IsSound r =
      (image : String) (config : ImageConfig)
      → lookup image r.image_cache ≡ some config
      → Downloaded image config

  hit :
      (r : Registry remote viper) (ns : String) (is_disabled : Bool) (container : Container)
      (spec : PodSpec) (config : ImageConfig)
      → is_allowed_to_cache remote viper container ≡ true
      → lookup container.image r.image_cache ≡ some config
      → get_image_config remote viper r ns is_disabled container spec ≡ (ok config, r)
  unfolding get_image_config
  hit r ns is_disabled container spec config allowed found = simp (allowed, found, get_image_config)

  module _ (r : Registry remote viper) (ns : String) (is_disabled : Bool) (container : Container)
      (spec : PodSpec) where
    pub container_info-image :
        (container_info remote viper ns container spec).image ≡ container.image
    unfolding container_info
    container_info-image = ground arith

    -- The entry that is stored, or an older one.
    entry-Downloaded :
        (image : String) (config new : ImageConfig)
        → IsSound r
        → Downloaded container.image new
        → lookup image (insert container.image new r.image_cache) ≡ some config
        → Downloaded image config
    entry-Downloaded image config new sound fresh found =
        elim (Bool-cases (container.image == image)) [
          | inl same ↦
              subst₂ Downloaded ((eq_iff container.image image).0 same)
                (some-injective _ _
                  (sym (lookup-insert container.image image new r.image_cache ∙ rw same) ∙ found))
                fresh
          | inr other ↦
              sound image config
                (sym (lookup-insert container.image image new r.image_cache ∙ rw other) ∙ found)
        ]

    downloads :
        (new : ImageConfig)
        → (remote.download r.network (container_info remote viper ns container spec) is_disabled).0
          ≡ ok new
        → Downloaded container.image new
    downloads new e = record {
      network = r.network;
      info = container_info remote viper ns container spec;
      is_disabled = is_disabled;
      same_image = container_info-image;
      answer = e;
    }

    fetch-IsSound : IsSound r → IsSound (fetch remote viper r ns is_disabled container spec).1
    unfolding fetch stored
    fetch-IsSound sound image config found =
        let answer =
          remote.download r.network (container_info remote viper ns container spec) is_disabled in
        elim (Result-cases answer.0) [
          | inl (new, e) ↦ elim (Bool-cases (is_allowed_to_cache remote viper container)) [
            | inl allowed ↦
                entry-Downloaded image config new sound (downloads new e)
                  (simp (e, allowed, stored) at found)
            | inr never ↦ sound image config (simp (e, never, stored) at found)
          ]
          | inr (failure, e) ↦ sound image config (simp (e, stored) at found)
        ]

    -- After a request for an image, whatever the answer, every entry of the cache is one that was
    -- downloaded for its own image, if that was so before.
    pub get_image_config-IsSound :
        IsSound r → IsSound (get_image_config remote viper r ns is_disabled container spec).1
    unfolding get_image_config
    get_image_config-IsSound sound =
        elim (Bool-cases (is_allowed_to_cache remote viper container)) [
          | inl allowed ↦ elim (Option-cases (lookup container.image r.image_cache)) [
            | inl missing ↦ simp (allowed, missing, get_image_config) (fetch-IsSound sound)
            | inr (config, found) ↦ simp (allowed, found, get_image_config) sound
          ]
          | inr never ↦ simp (never, get_image_config) (fetch-IsSound sound)
        ]

    -- A configuration that is returned was downloaded for the image asked for, if the cache's entries were for theirs.
    pub get_image_config-Downloaded :
        (config : ImageConfig)
        → IsSound r
        → (get_image_config remote viper r ns is_disabled container spec).0 ≡ ok config
        → Downloaded container.image config
    unfolding get_image_config
    get_image_config-Downloaded config sound e =
        elim (Bool-cases (is_allowed_to_cache remote viper container)) [
          | inl allowed ↦ elim (Option-cases (lookup container.image r.image_cache)) [
            | inl missing ↦ downloads config (simp (allowed, missing, get_image_config, fetch) at e)
            | inr (kept, found) ↦
                sound container.image config
                  (found ∙ ap some (ok-injective (simp (allowed, found, get_image_config) at e)))
          ]
          | inr never ↦ downloads config (simp (never, get_image_config, fetch) at e)
        ]

    answered :
        (config : ImageConfig)
        → is_allowed_to_cache remote viper container ≡ true
        → (get_image_config remote viper r ns is_disabled container spec).0 ≡ ok config
        → lookup container.image
            (get_image_config remote viper r ns is_disabled container spec).1.image_cache
          ≡ some config
    unfolding get_image_config fetch stored
    answered config allowed e = elim (Option-cases (lookup container.image r.image_cache)) [
      | inl missing ↦
          let fresh = simp (allowed, missing, get_image_config, fetch) at e in
          simp (allowed, missing, get_image_config, fetch, stored, fresh, lookup-insert, eq_refl)
      | inr (kept, found) ↦
          simp (allowed, found, get_image_config)
            (ap some (ok-injective (simp (allowed, found, get_image_config) at e)))
    ]

    -- An image that may be cached, once it has been answered for, is answered for with the same
    -- configuration to every other container that may use the cache, with no download.
    pub get_image_config_twice :
        (config : ImageConfig) (ns' : String) (is_disabled' : Bool) (other : Container)
        (spec' : PodSpec)
        → is_allowed_to_cache remote viper container ≡ true
        → is_allowed_to_cache remote viper other ≡ true
        → other.image ≡ container.image
        → (get_image_config remote viper r ns is_disabled container spec).0 ≡ ok config
        → (let r' = (get_image_config remote viper r ns is_disabled container spec).1 in
            get_image_config remote viper r' ns' is_disabled' other spec' ≡ (ok config, r'))
    get_image_config_twice config ns' is_disabled' other spec' allowed allowed' same e =
        hit _ ns' is_disabled' other spec' config allowed' (rw same (answered config allowed e))

    -- An image whose pull policy is Always, or whose reference is not valid or ends in latest, is
    -- never stored.
    get_image_config-uncached :
        is_allowed_to_cache remote viper container ≡ false
        → (get_image_config remote viper r ns is_disabled container spec).1.image_cache
          ≡ r.image_cache
    unfolding get_image_config fetch stored
    get_image_config-uncached never =
        let answer =
          remote.download r.network (container_info remote viper ns container spec) is_disabled in
        elim (Result-cases answer.0) [
          | inl (new, e) ↦ simp (never, get_image_config, fetch, e, stored)
          | inr (failure, e) ↦ simp (never, get_image_config, fetch, e, stored)
        ]
