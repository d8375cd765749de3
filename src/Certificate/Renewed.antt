-- ===== src/Certificate/Renewed.antt =====
-- tlscertificate.go: when a new certificate is shown.
use vault_secrets_webhook.Base.{
  String, ◌≡◌, ◌∙◌, refl, ap, inl, inr, Bool, true, ◌&&◌, ◌||◌, ◌==◌, some, List, [], ◌∷◌, any,
  if◌then◌else◌, Bool-cases,
}
use vault_secrets_webhook.Certificate.{
  KeyPairs, Event, CertificateReloader, reload, on_event, deliver_all, World, Run,
}
use vault_secrets_webhook.Certificate.Served.{Run-IsServed}

-- The directory's `..data` is created or written.
abbrev pub is_renewal : Event → Bool
is_renewal event = (event.is_create || event.is_write) && event.base_name == "..data"

module _ (pairs : KeyPairs) (files : pairs.Files) (new : pairs.Certificate) where
  -- The files hold this pair for the reloader.
  abbrev Finds : CertificateReloader pairs → Type 0
  Finds kpr = pairs.load_key_pair files kpr.cert_path kpr.key_path ≡ some new

  reload-new :
      (kpr : CertificateReloader pairs)
      → Finds kpr
      → reload pairs files kpr ≡ record kpr { cert = new }
  unfolding reload
  reload-new kpr found = rw (found, reload)

  -- An event leaves the new certificate shown.
  on_event-new :
      (event : Event) (kpr : CertificateReloader pairs)
      → Finds kpr
      → on_event pairs files event kpr
        ≡ (let shown = record kpr { cert = new } in if is_renewal event then shown else kpr)
  unfolding on_event
  on_event-new event kpr found = elim (Bool-cases (is_renewal event)) [
    | inl noticed ↦ rw (noticed, on_event) (reload-new kpr found)
    | inr ignored ↦ rw (ignored, on_event)
  ]

  -- What is shown, once it is the pair that the files hold, stays.
  deliver_all-stays :
      (events : List Event) (kpr : CertificateReloader pairs)
      → Finds kpr
      → kpr.cert ≡ new
      → (deliver_all pairs files events kpr).cert ≡ new
  unfolding deliver_all
  deliver_all-stays [] kpr found shown = shown
  deliver_all-stays (event ∷ events) kpr found shown = elim (Bool-cases (is_renewal event)) [
    | inl noticed ↦
        rw (deliver_all, on_event-new event kpr found, noticed)
          (deliver_all-stays events (record kpr { cert = new }) found refl)
    | inr ignored ↦
        rw (deliver_all, on_event-new event kpr found, ignored)
          (deliver_all-stays events kpr found shown)
  ]

  deliver_all-new :
      (events : List Event) (kpr : CertificateReloader pairs)
      → Finds kpr
      → any is_renewal events ≡ true
      → (deliver_all pairs files events kpr).cert ≡ new
  unfolding deliver_all
  deliver_all-new [] kpr found met = absurd (cc met)
  deliver_all-new (event ∷ events) kpr found met = elim (Bool-cases (is_renewal event)) [
    | inl noticed ↦
        rw (deliver_all, on_event-new event kpr found, noticed)
          (deliver_all-stays events (record kpr { cert = new }) found refl)
    | inr ignored ↦
        rw (deliver_all, on_event-new event kpr found, ignored)
          (deliver_all-new events kpr found (rw ignored at met))
  ]

module _ (pairs : KeyPairs) (cert_path key_path : String) where
  -- After any run, once the files hold a pair, it is shown when the creation or a writing of `..data`
  -- has been delivered, whatever other events come before and after it while the files stay.
  pub deliver_all-renewed :
      {seen : List pairs.Files} {w : World pairs} (new : pairs.Certificate) (events : List Event)
      → Run pairs cert_path key_path seen w
      → pairs.load_key_pair w.files cert_path key_path ≡ some new
      → any is_renewal events ≡ true
      → (deliver_all pairs w.files events w.kpr).cert ≡ new
  deliver_all-renewed {seen} {w} new events run found met =
      let s = Run-IsServed pairs cert_path key_path run in
      deliver_all-new pairs w.files new events w.kpr
        (ap (λ path. pairs.load_key_pair w.files path w.kpr.key_path) s.same_cert_path
          ∙ ap (λ path. pairs.load_key_pair w.files cert_path path) s.same_key_path
          ∙ found)
        met
