-- ===== src/Metrics.antt =====
-- pkg/webhook/client_metrics.go: the counters of the Vault client.
pub mod Transport
pub mod Registered
use vault_secrets_webhook.Base.{
  ℕ, zero, suc, ◌+◌, String, ◌<>◌, ◌≡◌, refl, arith, Bool, true, false, ◌==◌, List, [], ◌∷◌, ◌++◌,
  Assoc, any, map, if◌then◌else◌, Result, ok, err, ◌>>=◌,
}
use vault_secrets_webhook.Base.Text.{contains}

-- A counter with one label: what it has counted for each value of the label.
abbrev pub Counter : Type 0
Counter = Assoc ℕ

-- `counter.WithLabelValues(value).Inc()`
unfoldable pub count : String → Counter → Counter
count value [] = (value, 1) ∷ []
count value ((name, n) ∷ counter) =
    let rest = count value counter in
    if name == value then (name, suc n) ∷ counter else (name, n) ∷ rest

-- What a counter has counted under all values of its label.
unfoldable pub total : Counter → ℕ
total [] = 0
total ((_, n) ∷ counter) = n + total counter

pub total-count :
    (value : String) (counter : Counter) → total (count value counter) ≡ suc (total counter)
unfolding total count
total-count value [] = refl
total-count value ((name, n) ∷ counter) = ground (arith, total-count value counter)

-- `mapErrorToLabel`
unfoldable pub map_error_to_label : String → String
map_error_to_label text =
    if contains text "no route to host"
    then "no-route-to-host"
    else if contains text "i/o timeout"
    then "io-timeout"
    else if contains text "TLS handshake timeout"
    then "tls-handshake-timeout"
    else if contains text "TLS handshake error"
    then "tls-handshake-error"
    else if contains text "unexpected EOF"
    then "unexpected-eof"
    else "unknown"

-- The type of a collector.
pub data Kind : Type 0 where
  gauge counter histogram : Kind

-- A collector: what `NewHistogramVec`, `NewGauge` and `NewCounterVec` are given.
pub record Collector : Type 0 where
  pub kind : Kind
  pub namespace : String
  pub subsystem : String
  pub name : String
  pub labels : List String

-- The fully-qualified name of a collector: its three parts, none of them empty, joined by `_`.
abbrev pub fq_name : Collector → String
fq_name c = c.namespace <> "_" <> c.subsystem <> "_" <> c.name

abbrev vault_client : Kind → String → List String → Collector
vault_client kind name labels = record {
  kind = kind;
  namespace = "vault";
  subsystem = "client";
  name = name;
  labels = labels;
}

abbrev pub vault_request_duration : Collector
vault_request_duration = vault_client histogram "request_duration_seconds" []

abbrev pub vault_request_size : Collector
vault_request_size = vault_client histogram "request_size_bytes" []

abbrev pub vault_in_flight_requests_gauge : Collector
vault_in_flight_requests_gauge = vault_client gauge "in_flight_requests" []

abbrev pub vault_requests_count : Collector
vault_requests_count = vault_client counter "requests_total" ("code" ∷ "method" ∷ [])

abbrev pub vault_requests_errors_count : Collector
vault_requests_errors_count = vault_client counter "requests_errors_total" ("reason" ∷ [])

abbrev pub vault_auth_attempts_count : Collector
vault_auth_attempts_count = vault_client counter "auth_attempts_total" []

abbrev pub vault_auth_attempts_errors_count : Collector
vault_auth_attempts_errors_count = vault_client counter "auth_attempts_errors_total" ("reason" ∷ [])

-- `prometheus.Registerer`: a new registry, the fully-qualified names of a registry's collectors, and
-- `MustRegister` of one collector, where an error is the message of a panic.
pub record Registerer : Type 1 where
  pub Registry : Type 0
  pub new_registry : Registry
  pub names : Registry → List String
  pub must_register : Collector → Registry → Result String Registry

-- `RegisterMetrics`
unfoldable pub register_metrics :
    (registerer : Registerer) → registerer.Registry → Result String registerer.Registry
register_metrics registerer registry = do
  registry ← registerer.must_register vault_request_duration registry
  registry ← registerer.must_register vault_request_size registry
  registry ← registerer.must_register vault_in_flight_requests_gauge registry
  registry ← registerer.must_register vault_requests_count registry
  registry ← registerer.must_register vault_requests_errors_count registry
  registry ← registerer.must_register vault_auth_attempts_count registry
  registerer.must_register vault_auth_attempts_errors_count registry
