-- ===== src/Metrics/Registered.antt =====
-- pkg/webhook/client_metrics.go: RegisterMetrics.
use vault_secrets_webhook.Base.{
  String, ◌≡◌, refl, sym, append-nil, not, ◌&&◌, ◌>>=◌, ◌∙◌, ap, ◌⊎◌, inl, inr, Bool, true, false,
  Bool-cases, ◌==◌, List, [], ◌∷◌, ◌++◌, map, any, any-append, append_assoc, Result, ok, err, arith,
}
use vault_secrets_webhook.Metrics.{
  Collector, Registerer, fq_name, vault_request_duration, vault_request_size,
  vault_in_flight_requests_gauge, vault_requests_count, vault_requests_errors_count,
  vault_auth_attempts_count, vault_auth_attempts_errors_count, register_metrics,
}

-- The collectors of the Vault client.
abbrev pub client_metrics : List Collector
client_metrics =
    vault_request_duration ∷ vault_request_size ∷ vault_in_flight_requests_gauge
    ∷ vault_requests_count ∷ vault_requests_errors_count ∷ vault_auth_attempts_count
    ∷ vault_auth_attempts_errors_count ∷ []

-- A collector's name is among those of a registry.
abbrev pub is_taken : List String → Collector → Bool
is_taken names c = any (λ name. name == fq_name c) names

-- The documented behaviour of MustRegister: a name that is taken panics, another one is added.
pub record IsUnique (registerer : Registerer) : Type 0 where
  pub taken :
      (c : Collector) (registry : registerer.Registry)
      → is_taken (registerer.names registry) c ≡ true
      → (e : String) × (registerer.must_register c registry ≡ err e)
  pub free :
      (c : Collector) (registry : registerer.Registry)
      → is_taken (registerer.names registry) c ≡ false
      → (registry' : registerer.Registry) × (registerer.must_register c registry ≡ ok registry')
        × (registerer.names registry' ≡ registerer.names registry ++ fq_name c ∷ [])

module _ {ℓ κ} {E : Type ℓ} {A : Type κ} where
  >>=-ok : (r : Result E A) → (r >>= ok) ≡ r
  >>=-ok (ok a) = refl
  >>=-ok (err e) = refl

-- No collector shares its name with a later one.
abbrev distinct : List Collector → Bool
distinct [] = true
distinct (c ∷ cs) = not (any (λ d. fq_name c == fq_name d) cs) && distinct cs

-- Another collector, of another name, takes none of these names.
is_taken-append :
    (names : List String) (c : Collector) (cs : List Collector)
    → any (λ d. fq_name c == fq_name d) cs ≡ false
    → any (is_taken (names ++ fq_name c ∷ [])) cs ≡ any (is_taken names) cs
is_taken-append names c [] apart = refl
is_taken-append names c (d ∷ cs) apart = ground (
  arith,
  any-append (λ name. name == fq_name d) names (fq_name c ∷ []),
  is_taken-append names c cs,
)

apart_cases : (met rest : Bool) → (not met && rest) ≡ true → (met ≡ false) × (rest ≡ true)
apart_cases met rest h = ground arith

module _ (registerer : Registerer) where
  -- Registers one after the other.
  register_all : List Collector → registerer.Registry → Result String registerer.Registry
  register_all [] registry = ok registry
  register_all (c ∷ cs) registry = registerer.must_register c registry >>= register_all cs

  -- How registering these collectors ends: with a panic where one of their names is taken, else in a
  -- registry that has theirs beside its own.
  abbrev pub Outcome :
      List Collector → registerer.Registry → Result String registerer.Registry → Type 0
  Outcome cs registry result =
      ((any (is_taken (registerer.names registry)) cs ≡ true) × ((e : String) × (result ≡ err e)))
      ⊎ ((any (is_taken (registerer.names registry)) cs ≡ false)
          × ((registry' : registerer.Registry) × (result ≡ ok registry')
              × (registerer.names registry' ≡ registerer.names registry ++ map fq_name cs)))

  register_last :
      (c : Collector) (registry : registerer.Registry)
      → (registerer.must_register c registry >>= register_all [])
        ≡ registerer.must_register c registry
  unfolding register_all
  register_last c registry = >>=-ok (registerer.must_register c registry)

  register_metrics-all :
      (registry : registerer.Registry)
      → register_metrics registerer registry ≡ register_all client_metrics registry
  unfolding register_metrics register_all
  register_metrics-all registry = simp (register_metrics, register_all, register_last)

  module _ (unique : IsUnique registerer) where
    register_all-names :
        (cs : List Collector) (registry : registerer.Registry)
        → distinct cs ≡ true
        → Outcome cs registry (register_all cs registry)
    unfolding register_all
    register_all-names [] registry apart =
        inr (refl, (registry, refl, sym (append-nil (registerer.names registry))))
    register_all-names (c ∷ cs) registry apart =
        elim (Bool-cases (is_taken (registerer.names registry) c)) [
          | inl taken ↦
              let (e, panics) = unique.taken c registry taken in
              inl (rw taken refl, (e, rw panics refl))
          | inr free ↦
              let (first, rest) =
                apart_cases (any (λ d. fq_name c == fq_name d) cs) (distinct cs) apart in
              let (registry', added, names) = unique.free c registry free in
              let same =
                ap (λ names. any (is_taken names) cs) names
                ∙ is_taken-append (registerer.names registry) c cs first in
              elim (register_all-names cs registry' rest) [
                | inl (met, (e, panics)) ↦
                    inl (
                      rw free (sym same ∙ met),
                      (e, ap (λ r. r >>= register_all cs) added ∙ panics),
                    )
                | inr (none_met, (last, registered, all)) ↦ inr (
                  rw free (sym same ∙ none_met),
                  (
                    last,
                    ap (λ r. r >>= register_all cs) added ∙ registered,
                    all
                        ∙ ap (λ names. names ++ map fq_name cs) names
                        ∙ append_assoc (registerer.names registry) (fq_name c ∷ [])
                            (map fq_name cs),
                  ),
                )
              ]
        ]

    -- If MustRegister panics exactly at a name that is taken: RegisterMetrics adds the client's seven
    -- collectors to a registry that has none of their names, and panics at any other, so also when it
    -- is called twice.
    register_metrics-names :
        (registry : registerer.Registry)
        → Outcome client_metrics registry (register_metrics registerer registry)
    register_metrics-names registry =
        rw (register_metrics-all registry) (register_all-names client_metrics registry refl)
