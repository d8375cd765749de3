-- ===== src/Server.antt =====
-- main.go, and NewMutatingWebhook and ServeMetrics of pkg/webhook/webhook.go: what is served where.
pub mod Secured
pub mod Routed
use vault_secrets_webhook.Base.{
  String, ◌<>◌, Bool, true, false, ◌&&◌, ◌==◌, Option, none, some, List, [], ◌∷◌, ◌++◌, Assoc,
  lookup, if◌then◌else◌, is_some, Result, ok, err, ◌>>=◌, ◌>>◌, wrap,
}
use vault_secrets_webhook.Certificate.{KeyPairs, CertificateReloader, new_certificate_reloader}
use vault_secrets_webhook.Common.Policy.{Viper}
use vault_secrets_webhook.Metrics.{Registerer, register_metrics}

-- The type of the object that a handler decodes: the field `Obj` of its configuration.
pub data ObjectKind : Type 0 where
  pod_kind secret_kind config_map_kind unstructured_kind : ObjectKind

-- `mutating.WebhookConfig`; the mutator and the logger are the same for all.
pub record WebhookConfig : Type 0 where
  pub id : String
  pub obj : ObjectKind

-- The handlers that are registered.
pub data Handler : Type 0 where
  review_handler : WebhookConfig → Handler
  healthz_handler prom_handler : Handler

-- How the program ends before it serves: `os.Exit(1)` after a message, or a panic.
pub data Failure : Type 0 where
  exited panicked : String → Failure

-- What main calls of other packages and of the system, by its outcome: the client of the cluster,
-- `$KUBERNETES_NAMESPACE`, the file with the namespace, `NewRecorder`, `mutating.NewWebhook`, and the
-- certificate's files. `serve` is the error with which `ListenAndServe` of an address returns, in
-- the clear or not.
pub record Host (pairs : KeyPairs) (registerer : Registerer) : Type 0 where
  pub new_k8s_client : Result String (Unit {0})
  pub kubernetes_namespace : String
  pub namespace_file : Result String String
  pub new_recorder : registerer.Registry → Result String (Unit {0})
  pub new_webhook : WebhookConfig → Result String (Unit {0})
  pub files : pairs.Files
  pub serve : String → Bool → Option String

-- A `ServeMux`: patterns without a slash at the end match their own path alone.
abbrev pub Mux : Type 0
Mux = Assoc Handler

-- The handler of a path; none is the answer 404.
abbrev pub handler_of : String → Mux → Option Handler
handler_of = lookup

module _ (pairs : KeyPairs) (registerer : Registerer) where
  -- What is served: the address and the routes, the certificate where it is served over TLS, and the
  -- address of the metrics where they have one of their own.
  pub record Server : Type 0 where
    pub addr : String
    pub mux : Mux
    pub certificate : Option (CertificateReloader pairs)
    pub telemetry : Option String

  -- `NewMutatingWebhook`: the webhook's namespace.
  unfoldable pub new_mutating_webhook : Host pairs registerer → Result String String
  new_mutating_webhook host =
      if host.kubernetes_namespace == ""
      then wrap (λ e. "error reading k8s namespace: " <> e) host.namespace_file
      else ok host.kubernetes_namespace

  -- `handlerFor`
  handler_for : Host pairs registerer → WebhookConfig → Result Failure Handler
  handler_for host config =
      wrap (λ e. panicked ("error creating webhook: " <> e)) (host.new_webhook config) >>= λ _.
      ok (review_handler config)

  -- `ServeMetrics`: the routes at its address.
  abbrev pub metrics_mux : Mux
  metrics_mux = ("/metrics", prom_handler) ∷ []

  -- `ServeMetrics`: how it ends; metrics are served in the clear.
  unfoldable pub serve_metrics : Host pairs registerer → String → Option Failure
  serve_metrics host addr = elim (host.serve addr false) [
    | none ↦ none
    | some e ↦ some (exited ("error serving telemetry: " <> e))
  ]

  -- `newHTTPServer`: the certificate of its configuration.
  new_http_server :
      Host pairs registerer → String → String → Result Failure (CertificateReloader pairs)
  new_http_server host tls_cert_file tls_private_key_file =
      elim (new_certificate_reloader pairs host.files tls_cert_file tls_private_key_file) [
        | none ↦ err (panicked "error loading tls certificate")
        | some reloader ↦ ok reloader
      ]

  -- The routes of main, with the handlers that it makes in this order.
  unfoldable pub routes : Host pairs registerer → Result Failure Mux
  unfolding handler_for
  routes host = do
    pods ← handler_for host (record { id = "vault-secrets-pods"; obj = pod_kind })
    secrets ← handler_for host (record { id = "vault-secrets-secret"; obj = secret_kind })
    config_maps ←
        handler_for host (record { id = "vault-secrets-configmap"; obj = config_map_kind })
    objects ← handler_for host (record { id = "vault-secrets-object"; obj = unstructured_kind })
    ok (
        ("/pods", pods)
        ∷ ("/secrets", secrets)
        ∷ ("/configmaps", config_maps)
        ∷ ("/objects", objects)
        ∷ ("/healthz", healthz_handler)
        ∷ [])

  module _ (viper : Viper) where
    -- The certificate, where either of its files is set.
    unfoldable pub certificate :
        Host pairs registerer → Result Failure (Option (CertificateReloader pairs))
    unfolding new_http_server
    certificate host =
        let cert_file = viper.get_string "tls_cert_file" in
        let key_file = viper.get_string "tls_private_key_file" in
        if cert_file == "" && key_file == ""
        then ok none
        else (new_http_server host cert_file key_file >>= λ reloader. ok (some reloader))

    -- Where the metrics are served: at an address of their own, or with the rest.
    with_metrics : String → Mux → Mux
    with_metrics telemetry mux =
        if telemetry == "" then mux ++ ("/metrics", prom_handler) ∷ [] else mux

    -- What main prepares before it makes its handlers.
    prepare : Host pairs registerer → Result Failure (Unit {0})
    prepare host = do
      wrap (λ e. exited ("error creating k8s client: " <> e)) host.new_k8s_client
      namespace ←
          wrap (λ e. exited ("error creating mutating webhook: " <> e)) (new_mutating_webhook host)
      registry ← wrap panicked (register_metrics registerer registerer.new_registry)
      wrap (λ e. exited ("error creating metrics recorder: " <> e)) (host.new_recorder registry)

    -- The server, from its routes and its certificate.
    unfoldable pub server_of : Mux → Option (CertificateReloader pairs) → Server
    unfolding with_metrics
    server_of mux reloader = record {
      addr = viper.get_string "listen_address";
      mux = with_metrics (viper.get_string "telemetry_listen_address") mux;
      certificate = reloader;
      telemetry =
          if viper.get_string "telemetry_listen_address" == ""
          then none
          else some (viper.get_string "telemetry_listen_address");
    }

    -- `main` up to the point where it listens.
    unfoldable pub start : Host pairs registerer → Result Failure Server
    unfolding prepare routes certificate server_of
    start host = do
      prepare host
      mux ← routes host
      reloader ← certificate host
      ok (server_of mux reloader)

    -- `main`: how it ends, where none is a return after the server was closed.
    unfoldable pub main : Host pairs registerer → Option Failure
    unfolding start
    main host = elim (start host) [
      | err failure ↦ some failure
      | ok server ↦ elim (host.serve server.addr (is_some server.certificate)) [
        | none ↦ none
        | some e ↦ some (exited ("error serving webhook: " <> e))
      ]
    ]
