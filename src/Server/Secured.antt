-- ===== src/Server/Secured.antt =====
-- main.go: the certificate that the program serves with.
use mathlib.Core.Path.{subst}
use vault_secrets_webhook.Base.{
  String, ◌≡◌, ◌≢◌, ap, sym, ◌⊎◌, inl, inr, true, false, Bool-cases, ◌&&◌, ◌==◌, eq_iff, Option,
  none, some, Option-cases, [], ◌∷◌, ok, ◌>>=◌, >>=-eq-ok, ok-injective, arith,
}
use vault_secrets_webhook.Certificate.{KeyPairs, CertificateReloader, new_certificate_reloader, Run}
use vault_secrets_webhook.Certificate
use vault_secrets_webhook.Common.Policy.{Viper}
use vault_secrets_webhook.Metrics.{Registerer}
use vault_secrets_webhook.Server.{
  Host, Server, Mux, prepare, routes, new_http_server, certificate, server_of, start,
}

both_empty : (a b : String) → (a == "" && b == "") ≡ true → (a ≡ "") × (b ≡ "")
both_empty a b h = ground (arith, eq_iff a "", eq_iff b "")

not_both : (a b : String) → (a == "" && b == "") ≡ false → a ≡ "" → b ≢ ""
not_both a b h k = ground (arith, eq_iff a "", eq_iff b "")

module _ (pairs : KeyPairs) (registerer : Registerer) (viper : Viper)
    (host : Host pairs registerer) where
  -- A start comes from routes and a certificate.
  pub start-eq-ok :
      (server : Server pairs registerer)
      → start pairs registerer viper host ≡ ok server
      → (mux : Mux) × (reloader : Option (CertificateReloader pairs)) × (routes pairs registerer
            host
          ≡ ok mux)
        × (certificate pairs registerer viper host ≡ ok reloader)
        × (server_of pairs registerer viper mux reloader ≡ server)
  unfolding start
  start-eq-ok server e =
      let (_, prepared, rest) =
        >>=-eq-ok (prepare pairs registerer viper host)
          (λ _. routes pairs registerer host >>= λ mux.
            certificate pairs registerer viper host >>= λ reloader.
            ok (server_of pairs registerer viper mux reloader))
          e in
      let (mux, routed, last) =
        >>=-eq-ok (routes pairs registerer host)
          (λ mux. certificate pairs registerer viper host >>= λ reloader.
            ok (server_of pairs registerer viper mux reloader))
          rest in
      let (reloader, loaded, same) =
        >>=-eq-ok (certificate pairs registerer viper host)
          (λ reloader. ok (server_of pairs registerer viper mux reloader)) last in
      (mux, reloader, routed, loaded, ok-injective same)

  -- The files of the certificate, as they are set.
  abbrev pub cert_file : String
  cert_file = viper.get_string "tls_cert_file"

  abbrev pub key_file : String
  key_file = viper.get_string "tls_private_key_file"

  -- The certificate of a program that serves over TLS: loaded from the files that are set, and the
  -- start of a run of the reloader.
  pub record IsSecured (reloader : CertificateReloader pairs) : Type 0 where
    pub loaded : new_certificate_reloader pairs host.files cert_file key_file ≡ some reloader
    pub run :
        Run pairs cert_file key_file
          (host.files ∷ [])
          (record { files = host.files; kpr = reloader })

  certificate-cases :
      (found : Option (CertificateReloader pairs))
      → certificate pairs registerer viper host ≡ ok found
      → ((cert_file ≡ "") × (key_file ≡ "") × (found ≡ none))
        ⊎ ((cert_file ≡ "" → key_file ≢ "")
            × ((reloader : CertificateReloader pairs) × (found ≡ some reloader)
                × IsSecured reloader))
  unfolding certificate new_http_server
  certificate-cases found e = elim (Bool-cases (cert_file == "" && key_file == "")) [
    | inl unset ↦
        let (no_cert, no_key) = both_empty cert_file key_file unset in
        inl (no_cert, no_key, ok-injective (sym (rw (unset, certificate) at e)))
    | inr set ↦ elim (Option-cases (new_certificate_reloader pairs host.files cert_file key_file)) [
      | inl failed ↦ absurd (cc (rw (set, failed, certificate, new_http_server) at e))
      | inr (reloader, loaded) ↦ inr (
        (λ no_cert no_key. not_both cert_file key_file set no_cert no_key),
        (
          reloader,
          ok-injective (sym (rw (set, loaded, certificate, new_http_server) at e)),
          record { loaded = loaded; run = Certificate.start host.files reloader loaded },
        ),
      )
    ]
  ]

  -- A program that is started serves in the clear exactly where neither file of a certificate is set;
  -- else with a certificate that was loaded from the two files, from which its reloader runs on.
  pub start-IsSecured :
      (server : Server pairs registerer)
      → start pairs registerer viper host ≡ ok server
      → ((cert_file ≡ "") × (key_file ≡ "") × (server.certificate ≡ none))
        ⊎ ((cert_file ≡ "" → key_file ≢ "")
            × ((reloader : CertificateReloader pairs) × (server.certificate ≡ some reloader)
                × IsSecured reloader))
  unfolding server_of
  start-IsSecured server e =
      let (mux, found, routed, loaded, same) = start-eq-ok server e in
      subst
        (λ (shown : Option (CertificateReloader pairs)).
          ((cert_file ≡ "") × (key_file ≡ "") × (shown ≡ none))
          ⊎ ((cert_file ≡ "" → key_file ≢ "")
              × ((reloader : CertificateReloader pairs) × (shown ≡ some reloader)
                  × IsSecured reloader)))
        (ap (λ k. k.certificate) same) (certificate-cases found loaded)
