-- ===== src/Metrics/Transport.antt =====
-- pkg/webhook/client_metrics.go: InstrumentErrorsAndSizeRoundTripper.
use vault_secrets_webhook.Base.{
  ℕ, suc, ◌+◌, ℤ, String, ◌≡◌, refl, arith, List, [], ◌∷◌, ◌++◌, map, sym, ap, ◌∙◌, append-nil,
  append_assoc, Result, ok, err,
}
use vault_secrets_webhook.Metrics.{Counter, count, total, total-count, map_error_to_label}

-- What the round tripper observes: the sizes of requests in order, and the errors by reason.
pub record Observed : Type 0 where
  pub request_sizes : List ℤ
  pub errors : Counter

-- Of a request, what is known of its body's length (-1 where nothing is), and the rest.
pub record Request {ℓ} (Content : Type ℓ) : Type ℓ where
  pub content_length : ℤ
  pub content : Content

-- An `http.RoundTripper` over an unknown state of the world; errors by their texts.
abbrev pub RoundTripper {ℓ} : Type ℓ → Type ℓ → Type ℓ → Type ℓ
RoundTripper Content Response World = Request Content → World → Result String Response × World

module _ {ℓ} {Response : Type ℓ} where
  -- What is observed of a response or an error.
  noted : Result String Response → Observed → Observed
  noted (ok response) o = o
  noted (err e) o = record o { errors = count (map_error_to_label e) o.errors }

  -- The errors among the responses.
  abbrev pub failures : List (Result String Response) → ℕ
  failures [] = 0
  failures (ok _ ∷ responses) = failures responses
  failures (err _ ∷ responses) = suc (failures responses)

  noted-sizes :
      (resp : Result String Response) (o : Observed)
      → (noted resp o).request_sizes ≡ o.request_sizes
  unfolding noted
  noted-sizes (ok response) o = refl
  noted-sizes (err e) o = refl

  noted-total :
      (resp : Result String Response) (o : Observed) (responses : List (Result String Response))
      → total (noted resp o).errors + failures responses
        ≡ total o.errors + failures (resp ∷ responses)
  unfolding noted
  noted-total (ok response) o responses = refl
  noted-total (err e) o responses = omega (arith, total-count (map_error_to_label e) o.errors)

module _ {ℓ} {Content Response World : Type ℓ} where
  -- The requests of a client through a round tripper, one after the other.
  unfoldable pub send_all :
      RoundTripper Content Response World
      → List (Request Content)
      → World
      → List (Result String Response) × World
  send_all trip [] world = ([], world)
  send_all trip (req ∷ requests) world =
      let (resp, world') = trip req world in
      let rest = send_all trip requests world' in (resp ∷ rest.0, rest.1)

module _ {ℓ} {Content Response World : Type ℓ} where
  -- The function that `InstrumentErrorsAndSizeRoundTripper` returns.
  unfoldable pub instrument_errors_and_size_round_tripper :
      RoundTripper Content Response World → RoundTripper Content Response (Observed × World)
  unfolding noted
  instrument_errors_and_size_round_tripper next req (o, world) =
      let (resp, world') = next req world in
      let sized = record o { request_sizes = o.request_sizes ++ req.content_length ∷ [] } in
      (resp, (noted resp sized, world'))

  -- Responses, errors and the world are those of the requests without the instrumentation; every
  -- request's length is observed, in order, and as many errors are counted as requests fail.
  pub send_all-instrumented :
      (next : RoundTripper Content Response World) (requests : List (Request Content))
      (o : Observed) (world : World)
      → let plain = send_all next requests world in
        let (responses, (o', world')) =
          send_all (instrument_errors_and_size_round_tripper next) requests (o, world) in
        (responses ≡ plain.0)
        × (world' ≡ plain.1)
        × (o'.request_sizes ≡ o.request_sizes ++ map (λ req. req.content_length) requests)
        × (total o'.errors ≡ total o.errors + failures plain.0)
  unfolding send_all instrument_errors_and_size_round_tripper
  send_all-instrumented next [] o world = (refl, refl, sym (append-nil _), omega arith)
  send_all-instrumented next (req ∷ requests) o world =
      let sized = record o { request_sizes = o.request_sizes ++ req.content_length ∷ [] } in
      let resp = (next req world).0 in
      let world' = (next req world).1 in
      let (responses, same, sizes, errors) =
        send_all-instrumented next requests (noted resp sized) world' in
      let lengths = map (λ (r : Request Content). r.content_length) requests in
      let appended : (noted resp sized).request_sizes ++ lengths
          ≡ o.request_sizes ++ (req.content_length ∷ lengths) =
        rw (noted-sizes resp sized)
          (append_assoc o.request_sizes (req.content_length ∷ []) lengths) in
      (
        ap (λ rest. resp ∷ rest) responses,
        same,
        sizes ∙ appended,
        errors ∙ noted-total resp sized (send_all next requests world').0,
      )
