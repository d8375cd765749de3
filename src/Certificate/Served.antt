-- ===== src/Certificate/Served.antt =====
-- tlscertificate.go: which certificate is shown.
use mathlib.Core.List.{Memᴰ}
use mathlib.Core.Option.{some-injective}
use vault_secrets_webhook.Base.{
  String, ◌≡◌, ◌∙◌, refl, sym, ap, inl, inr, true, ◌&&◌, ◌||◌, ◌==◌, none, some, List, [], ◌∷◌,
  Option-cases, Bool-cases,
}
use vault_secrets_webhook.Certificate.{
  KeyPairs, Event, CertificateReloader, new_certificate_reloader, reload, on_event, World, Step,
  change, deliver, Run, start, step,
}

module _ (pairs : KeyPairs) (cert_path key_path : String) where
  -- The certificate shown is the pair that one of these states of the files held.
  pub record IsServed (seen : List pairs.Files) (w : World pairs) : Type 0 where
    pub files : pairs.Files
    pub member : Memᴰ files seen
    pub loaded : pairs.load_key_pair files cert_path key_path ≡ some w.kpr.cert
    pub same_cert_path : w.kpr.cert_path ≡ cert_path
    pub same_key_path : w.kpr.key_path ≡ key_path
    pub current : (earlier : List pairs.Files) × (seen ≡ w.files ∷ earlier)

  started :
      (files : pairs.Files) (kpr : CertificateReloader pairs)
      → new_certificate_reloader pairs files cert_path key_path ≡ some kpr
      → IsServed (files ∷ []) (record { files = files; kpr = kpr })
  unfolding new_certificate_reloader
  started files kpr e = elim (Option-cases (pairs.load_key_pair files cert_path key_path)) [
    | inl failed ↦ absurd (cc (rw (failed, new_certificate_reloader) at e))
    | inr (cert, loaded) ↦
        let same = some-injective _ _ (rw (loaded, new_certificate_reloader) at e) in
        record {
          files = files;
          member = Memᴰ.head refl;
          loaded = loaded ∙ ap (λ k. some k.cert) same;
          same_cert_path = ap (λ k. k.cert_path) (sym same);
          same_key_path = ap (λ k. k.key_path) (sym same);
          current = ([], refl);
        }
  ]

  kept : {seen : List pairs.Files} {w : World pairs} → IsServed seen w → IsServed (w.files ∷ seen) w
  kept s = record {
    files = s.files;
    member = Memᴰ.tail s.member;
    loaded = s.loaded;
    same_cert_path = s.same_cert_path;
    same_key_path = s.same_key_path;
    current = (_, refl);
  }

  reloaded :
      {seen : List pairs.Files} {w : World pairs}
      → IsServed seen w
      → IsServed (w.files ∷ seen) (record w { kpr = reload pairs w.files w.kpr })
  unfolding reload
  reloaded {seen} {w} s =
      elim (Option-cases (pairs.load_key_pair w.files w.kpr.cert_path w.kpr.key_path)) [
        | inl failed ↦ rw (failed, reload) (kept s)
        | inr (cert, loaded) ↦
            rw (loaded, reload)
              (record {
                files = w.files;
                member = Memᴰ.head refl;
                loaded = rw (s.same_cert_path, s.same_key_path) at loaded;
                same_cert_path = s.same_cert_path;
                same_key_path = s.same_key_path;
                current = (_, refl);
              })
      ]

  stepped :
      {seen : List pairs.Files} {w w' : World pairs}
      → IsServed seen w
      → Step pairs w w'
      → IsServed (w'.files ∷ seen) w'
  unfolding on_event
  stepped s (change files) = record {
    files = s.files;
    member = Memᴰ.tail s.member;
    loaded = s.loaded;
    same_cert_path = s.same_cert_path;
    same_key_path = s.same_key_path;
    current = (_, refl);
  }
  stepped {seen} {w} s (deliver event) =
      elim (Bool-cases ((event.is_create || event.is_write) && event.base_name == "..data")) [
        | inl noticed ↦ rw (noticed, on_event) (reloaded s)
        | inr ignored ↦ rw (ignored, on_event) (kept s)
      ]

  -- At every point of every run, the certificate shown is one that was loaded from the paths given
  -- at the start, from a state that the files have had.
  pub Run-IsServed :
      {seen : List pairs.Files} {w : World pairs}
      → Run pairs cert_path key_path seen w
      → IsServed seen w
  Run-IsServed (start files kpr e) = started files kpr e
  Run-IsServed (step run s) = stepped (Run-IsServed run) s

  -- When the directory's `..data` is created or written and the files hold a pair, that pair is shown
  -- next; when they hold none, the old one is kept.
  on_event-cert :
      {seen : List pairs.Files} {w : World pairs} (event : Event)
      → Run pairs cert_path key_path seen w
      → (event.is_create || event.is_write) ≡ true
      → event.base_name ≡ "..data"
      → (on_event pairs w.files event w.kpr).cert
        ≡ (elim (pairs.load_key_pair w.files cert_path key_path) [
          | none ↦ w.kpr.cert
          | some new ↦ new
        ])
  unfolding on_event reload
  on_event-cert {seen} {w} event run touched named =
      let s = Run-IsServed run in
      elim (Option-cases (pairs.load_key_pair w.files cert_path key_path)) [
        | inl failed ↦
            simp (touched, named, s.same_cert_path, s.same_key_path, failed, on_event, reload)
        | inr (cert, loaded) ↦
            simp (touched, named, s.same_cert_path, s.same_key_path, loaded, on_event, reload)
      ]
