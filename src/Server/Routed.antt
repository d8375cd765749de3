-- ===== src/Server/Routed.antt =====
-- main.go: the handlers of a program that is started.
use mathlib.Core.Path.{subst}
use vault_secrets_webhook.Base.{
  String, ◌≡◌, refl, ◌⊎◌, inl, inr, Bool-cases, ◌==◌, Option, none, some, [], ◌∷◌, lookup, ok,
  arith,
}
use vault_secrets_webhook.Certificate.{KeyPairs, CertificateReloader}
use vault_secrets_webhook.Common.Policy.{Viper}
use vault_secrets_webhook.Metrics.{Registerer}
use vault_secrets_webhook.Server.{
  Host, Server, Mux, ObjectKind, pod_kind, secret_kind, config_map_kind, unstructured_kind,
  review_handler, healthz_handler, prom_handler, handler_of, handler_for, routes, with_metrics,
  server_of, start,
}
use vault_secrets_webhook.Server.Secured.{start-eq-ok}

-- The kind of object that the handler of a path reviews.
abbrev pub reviewed_at : String → Mux → Option ObjectKind
reviewed_at path mux = elim (handler_of path mux) [
  | some (review_handler config) ↦ some config.obj
  | _ ↦ none
]

module _ (pairs : KeyPairs) (registerer : Registerer) (viper : Viper)
    (host : Host pairs registerer) where
  -- What is served at each path.
  pub record IsRouted (server : Server pairs registerer) : Type 0 where
    pub pods : reviewed_at "/pods" server.mux ≡ some pod_kind
    pub secrets : reviewed_at "/secrets" server.mux ≡ some secret_kind
    pub config_maps : reviewed_at "/configmaps" server.mux ≡ some config_map_kind
    pub objects : reviewed_at "/objects" server.mux ≡ some unstructured_kind
    pub healthz : handler_of "/healthz" server.mux ≡ some healthz_handler
    pub metrics :
        ((server.telemetry ≡ none) × (handler_of "/metrics" server.mux ≡ some prom_handler))
        ⊎ ((server.telemetry ≡ some (viper.get_string "telemetry_listen_address"))
            × (handler_of "/metrics" server.mux ≡ none))

  -- The handlers, once they are made.
  abbrev made : Mux
  made =
      ("/pods", review_handler (record { id = "vault-secrets-pods"; obj = pod_kind }))
      ∷ ("/secrets", review_handler (record { id = "vault-secrets-secret"; obj = secret_kind }))
      ∷ (
        "/configmaps",
        review_handler (record { id = "vault-secrets-configmap"; obj = config_map_kind }),
      )
      ∷ (
        "/objects",
        review_handler (record { id = "vault-secrets-object"; obj = unstructured_kind }),
      )
      ∷ ("/healthz", healthz_handler)
      ∷ []

  routes-eq-ok : (mux : Mux) → routes pairs registerer host ≡ ok mux → made ≡ mux
  unfolding routes handler_for
  routes-eq-ok mux e = ground arith

  server_of-IsRouted :
      (reloader : Option (CertificateReloader pairs))
      → IsRouted (server_of pairs registerer viper made reloader)
  unfolding server_of with_metrics lookup
  server_of-IsRouted reloader =
      elim (Bool-cases (viper.get_string "telemetry_listen_address" == "")) [
        | inl own ↦ rw own (record {
          pods = refl;
          secrets = refl;
          config_maps = refl;
          objects = refl;
          healthz = refl;
          metrics = inl (refl, refl);
        })
        | inr apart ↦ rw apart (record {
          pods = refl;
          secrets = refl;
          config_maps = refl;
          objects = refl;
          healthz = refl;
          metrics = inr (refl, refl);
        })
      ]

  -- A program that is started reviews each kind of object at its own path and answers at /healthz,
  -- and serves the metrics either there or at the telemetry address, never at both.
  pub start-IsRouted :
      (server : Server pairs registerer)
      → start pairs registerer viper host ≡ ok server
      → IsRouted server
  start-IsRouted server e =
      let (mux, reloader, routed, _, same) = start-eq-ok pairs registerer viper host server e in
      subst IsRouted same (
        subst (λ m. IsRouted (server_of pairs registerer viper m reloader))
          (routes-eq-ok mux routed) (server_of-IsRouted reloader))
