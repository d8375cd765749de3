-- ===== src/Registry/Refined.antt =====
-- pkg/webhook/registry.go: GetImageConfig with its cache, against a registry with a log instead.
use vault_secrets_webhook.Base.{
  String, true, false, ◌≡◌, refl, ◌∙◌, sym, ap, ap₂, inl, inr, ◌==◌, eq_iff, none, some, List, [],
  ◌∷◌, lookup, lookup-insert, Bool-cases, Option-cases, Result, ok, err, arith,
}
use vault_secrets_webhook.Common.Policy.{Viper}
use vault_secrets_webhook.Kube.{Container, ImageConfig, WebhookError}
use vault_secrets_webhook.Registry.{
  Remote, Registry, is_allowed_to_cache, container_info, stored, fetch, get_image_config,
}
use vault_secrets_webhook.Registry.Logged.{
  Query, first_of, first_of-none, answer_all, Entry, config_for, first_config, answer_by_log,
  answer_all_by_log,
}

module _ (remote : Remote) (viper : Viper) where
  -- The cache holds what the log gives.
  abbrev Agrees : Registry remote viper → List Entry → Type 0
  Agrees r log = (image : String) → lookup image r.image_cache ≡ first_config remote viper image log

  -- What a call makes of the cache, by the image.
  Extends : Registry remote viper → Registry remote viper → Entry → Type 0
  Extends r r' e =
      (image : String)
      → lookup image r'.image_cache
        ≡ first_of (lookup image r.image_cache) (config_for remote viper image e)

  module _ (r : Registry remote viper) (q : Query) where
    abbrev entry : Result WebhookError ImageConfig → Entry
    entry answer = record { query = q; answer = answer }

    -- A call that found its image leaves the cache.
    hit-Extends :
        (config : ImageConfig)
        → lookup q.container.image r.image_cache ≡ some config
        → Extends r r (entry (ok config))
    unfolding Extends
    hit-Extends config found image = elim (Bool-cases (q.container.image == image)) [
      | inr other ↦ ground (arith, other, first_of-none (lookup image r.image_cache))
      | inl same ↦
          let here : lookup image r.image_cache ≡ some config =
            rw ((eq_iff q.container.image image).0 same) at found in
          rw here refl
    ]

    -- A download is stored where the image was missing.
    stored-Extends :
        (answer : Result WebhookError ImageConfig × remote.Network)
        → is_allowed_to_cache remote viper q.container ≡ true
        → lookup q.container.image r.image_cache ≡ none
        → Extends r (stored remote viper r q.container answer) (entry answer.0)
    unfolding Extends stored
    stored-Extends (err e, network) allowed missing image =
        rw allowed (ground (arith, first_of-none (lookup image r.image_cache)))
    stored-Extends (ok config, network) allowed missing image =
        elim (Bool-cases (q.container.image == image)) [
          | inl same ↦
              let here : lookup image r.image_cache ≡ none =
                rw ((eq_iff q.container.image image).0 same) at missing in
              rw (allowed, lookup-insert q.container.image image config r.image_cache, same, here)
                refl
          | inr other ↦
              rw (allowed, lookup-insert q.container.image image config r.image_cache, other)
                (sym (first_of-none (lookup image r.image_cache)))
        ]

  extended :
      (r r' : Registry remote viper) (log : List Entry) (e : Entry)
      → Agrees r log
      → Extends r r' e
      → Agrees r' (e ∷ log)
  unfolding Extends
  extended r r' log e agrees extends image =
      extends image ∙ ap (λ x. first_of x (config_for remote viper image e)) (agrees image)

  stored-network :
      (r : Registry remote viper) (container : Container)
      (answer : Result WebhookError ImageConfig × remote.Network)
      → (stored remote viper r container answer).network ≡ answer.1
  unfolding stored
  stored-network r container (ok config, network) = refl
  stored-network r container (err e, network) = refl

  -- A download for a call that may not use the cache is not stored.
  unstored-Extends :
      (r : Registry remote viper) (q : Query)
      (answer : Result WebhookError ImageConfig × remote.Network)
      → is_allowed_to_cache remote viper q.container ≡ false
      → Extends r (stored remote viper r q.container answer) (entry r q answer.0)
  unfolding Extends stored
  unstored-Extends r q (ok config, network) never image =
      rw never (sym (first_of-none (lookup image r.image_cache)))
  unstored-Extends r q (err e, network) never image =
      rw never (sym (first_of-none (lookup image r.image_cache)))

  -- The registry's answer to a call is that by the log, and leaves a cache that agrees again.
  Follows :
      List Entry
      → Query
      → Result WebhookError ImageConfig × Registry remote viper
      → Result WebhookError ImageConfig × remote.Network
      → Type 0
  Follows log q (answer, r') (expected, network') =
      (answer ≡ expected)
      × (r'.network ≡ network')
      × Agrees r' (record { query = q; answer = answer } ∷ log)

  stored-Follows :
      (r : Registry remote viper) (log : List Entry) (q : Query)
      (answer : Result WebhookError ImageConfig × remote.Network)
      → Agrees r log
      → Extends r (stored remote viper r q.container answer) (entry r q answer.0)
      → Follows log q (answer.0, stored remote viper r q.container answer) answer
  unfolding Follows
  stored-Follows r log q answer agrees extends = (
    refl,
    stored-network r q.container answer,
    extended r (stored remote viper r q.container answer) log (entry r q answer.0) agrees extends,
  )

  hit-Follows :
      (r : Registry remote viper) (log : List Entry) (q : Query) (config : ImageConfig)
      → Agrees r log
      → lookup q.container.image r.image_cache ≡ some config
      → Follows log q (ok config, r) (ok config, r.network)
  unfolding Follows
  hit-Follows r log q config agrees found =
      (refl, refl, extended r r log (entry r q (ok config)) agrees (hit-Extends r q config found))

  get_image_config-Follows :
      (r : Registry remote viper) (log : List Entry) (q : Query)
      → Agrees r log
      → Follows log q
          (get_image_config remote viper r q.namespace q.is_disabled q.container q.spec)
          (answer_by_log remote viper r.network log q)
  unfolding get_image_config fetch
  get_image_config-Follows r log q agrees =
      let downloaded =
        remote.download r.network (container_info remote viper q.namespace q.container q.spec)
          q.is_disabled in
      elim (Bool-cases (is_allowed_to_cache remote viper q.container)) [
        | inr never ↦
            simp (never, get_image_config, fetch)
              (stored-Follows r log q downloaded agrees (unstored-Extends r q downloaded never))
        | inl allowed ↦ elim (Option-cases (lookup q.container.image r.image_cache)) [
          | inl missing ↦
              let unlogged = sym (agrees q.container.image) ∙ missing in
              simp (allowed, missing, unlogged, get_image_config, fetch)
                (stored-Follows r log q downloaded agrees
                  (stored-Extends r q downloaded allowed missing))
          | inr (config, found) ↦
              let logged = sym (agrees q.container.image) ∙ found in
              simp (allowed, found, logged, get_image_config)
                (hit-Follows r log q config agrees found)
        ]
      ]

  -- The same from any cache that agrees with a log.
  answer_all-by_log :
      (queries : List Query) (r : Registry remote viper) (log : List Entry)
      → Agrees r log
      → let (answers, r') = answer_all remote viper r queries in
        let (expected, network') = answer_all_by_log remote viper r.network log queries in
        (answers ≡ expected) × (r'.network ≡ network')
  unfolding answer_all answer_all_by_log Follows
  answer_all-by_log [] r log agrees = (refl, refl)
  answer_all-by_log (q ∷ queries) r log agrees =
      let got = get_image_config remote viper r q.namespace q.is_disabled q.container q.spec in
      let expected = answer_by_log remote viper r.network log q in
      let (same, left, next) = get_image_config-Follows r log q agrees in
      let (answers, network) =
        answer_all-by_log queries got.1 (record { query = q; answer = got.0 } ∷ log) next in
      let moved =
        ap₂
          (λ n a. answer_all_by_log remote viper n (record { query = q; answer = a } ∷ log) queries)
          left same in
      (ap₂ ◌∷◌ same (answers ∙ ap (λ o. o.0) moved), network ∙ ap (λ o. o.1) moved)

  -- For any downloads, whatever they depend on, calls of a new registry get the answers of one that
  -- keeps no cache but the log of its answers, and leave the network in the same state: a call that
  -- may use the cache gets the configuration that the first successful such call for its image got,
  -- without a download, and every other call that of a download at its time, errors included.
  pub answer_all-eq-answer_all_by_log :
      (network : remote.Network) (queries : List Query)
      → let (answers, r) =
          answer_all remote viper (record { image_cache = []; network = network }) queries in
        let (expected, network') = answer_all_by_log remote viper network [] queries in
        (answers ≡ expected) × (r.network ≡ network')
  unfolding lookup
  answer_all-eq-answer_all_by_log network queries =
      answer_all-by_log queries (record { image_cache = []; network = network }) [] (λ image. refl)
