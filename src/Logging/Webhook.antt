-- ===== src/Logging/Webhook.antt =====
-- pkg/webhook/webhook_logger.go: the logger that the admission library is given; and
-- ErrorLoggerMutator of pkg/webhook/webhook.go.
use vault_secrets_webhook.Base.{String, List, [], ◌∷◌, Assoc, Result, ok, err}
use vault_secrets_webhook.Logging.{
  Logger, Entry, log, with, level_debug, level_info, level_warn, level_error,
}

-- `whLogger`; `text` is what `fmt.Sprintf` makes of the format and the arguments.
abbrev pub WhLogger : Type 0
WhLogger = Logger

module _ (l : WhLogger) (text : String) where
  unfoldable pub infof : List Entry → List Entry
  infof = log l level_info text []

  unfoldable pub warningf : List Entry → List Entry
  warningf = log l level_warn text []

  unfoldable pub errorf : List Entry → List Entry
  errorf = log l level_error text []

  unfoldable pub debugf : List Entry → List Entry
  debugf = log l level_debug text []

-- `WithValues`
unfoldable pub with_values : WhLogger → Assoc String → WhLogger
with_values l kv = with l kv

-- `WithCtxValues`, of a context by the values that it carries.
unfoldable pub with_ctx_values : WhLogger → Assoc String → WhLogger
with_ctx_values l ctx_values = with l ctx_values

-- A `mutating.MutatorFunc` over a state.
abbrev pub Mutator {ℓ} : Type ℓ → Type ℓ → Type ℓ → Type ℓ → Type ℓ
Mutator State Review E A = State → Review → Result E A × State

-- What is logged of a result: an error at the level for errors.
unfoldable pub logged {ℓ} :
    {E A : Type ℓ} → WhLogger → Assoc String → (E → String) → Result E A → List Entry → List Entry
unfolding errorf with_values with_ctx_values
logged l ctx_values show (ok result) entries = entries
logged l ctx_values show (err e) entries =
    errorf (with_values (with_ctx_values l ctx_values) (("error", show e) ∷ []))
      "Admission review request failed" entries

-- `ErrorLoggerMutator`, of a logger, with what the context of a review carries and the text of an
-- error.
unfoldable pub error_logger_mutator {ℓ} :
    {State Review E A : Type ℓ}
    → Mutator State Review E A
    → WhLogger
    → (Review → Assoc String)
    → (E → String)
    → Mutator (State × List Entry) Review E A
unfolding logged
error_logger_mutator mutator l ctx show (state, entries) review =
    let (r, state') = mutator state review in (r, (state', logged l (ctx review) show r entries))
