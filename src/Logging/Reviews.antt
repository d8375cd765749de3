-- ===== src/Logging/Reviews.antt =====
-- pkg/webhook/webhook.go: the admission reviews of a run behind ErrorLoggerMutator.
use vault_secrets_webhook.Base.{
  String, ◌≡◌, refl, ap, sym, ◌∙◌, List, [], ◌∷◌, ◌++◌, append-nil, append_assoc, Assoc, Result, ok,
  err,
}
use vault_secrets_webhook.Logging.{Entry, level_error}
use vault_secrets_webhook.Logging.Webhook.{WhLogger, Mutator, logged, error_logger_mutator}

-- The answers to reviews one after the other.
unfoldable pub review_all {ℓ} :
    {State Review E A : Type ℓ}
    → Mutator State Review E A
    → State
    → List Review
    → List (Result E A) × State
review_all mutator state [] = ([], state)
review_all mutator state (review ∷ reviews) =
    let (r, state') = mutator state review in
    let rest = review_all mutator state' reviews in (r ∷ rest.0, rest.1)

module _ {ℓ} {State Review E A : Type ℓ} (mutator : Mutator State Review E A) (l : WhLogger)
    (ctx : Review → Assoc String) (show : E → String) where
  -- The entry of a failed review: the logger's attributes, those of the context, and the error.
  abbrev pub failure_entry : Review → E → Entry
  failure_entry review e = record {
    level = level_error;
    message = "Admission review request failed";
    attributes = ((l.attributes ++ ctx review) ++ ("error", show e) ∷ []) ++ [];
  }

  -- One entry for each review that failed, in order.
  abbrev pub failure_entries : List Review → List (Result E A) → List Entry
  failure_entries (review ∷ reviews) (ok a ∷ answers) = failure_entries reviews answers
  failure_entries (review ∷ reviews) (err e ∷ answers) =
      failure_entry review e ∷ failure_entries reviews answers
  failure_entries _ _ = []

  logged-entries :
      (review : Review) (r : Result E A) (reviews : List Review) (answers : List (Result E A))
      (entries : List Entry)
      → logged l (ctx review) show r entries ++ failure_entries reviews answers
        ≡ entries ++ failure_entries (review ∷ reviews) (r ∷ answers)
  unfolding logged
  logged-entries review (ok a) reviews answers entries = refl
  logged-entries review (err e) reviews answers entries =
      append_assoc entries (failure_entry review e ∷ []) (failure_entries reviews answers)

  -- Behind ErrorLoggerMutator, reviews get the answers, and leave the state, that the mutator itself
  -- gives; logged is one entry for each review that failed, in order, with the values of its context
  -- and its error, and nothing else.
  pub review_all-logged :
      (reviews : List Review) (state : State) (entries : List Entry)
      → let plain = review_all mutator state reviews in
        let (answers, (state', entries')) =
          review_all (error_logger_mutator mutator l ctx show) (state, entries) reviews in
        (answers ≡ plain.0)
        × (state' ≡ plain.1)
        × (entries' ≡ entries ++ failure_entries reviews plain.0)
  unfolding review_all error_logger_mutator
  review_all-logged [] state entries = (refl, refl, sym (append-nil entries))
  review_all-logged (review ∷ reviews) state entries =
      let r = (mutator state review).0 in
      let state' = (mutator state review).1 in
      let (answers, same, logs) =
        review_all-logged reviews state' (logged l (ctx review) show r entries) in
      (
        ap (λ rest. r ∷ rest) answers,
        same,
        logs ∙ logged-entries review r reviews (review_all mutator state' reviews).0 entries,
      )
