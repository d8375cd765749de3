-- ===== src/Certificate.antt =====
-- tlscertificate.go: the certificate that the server shows, and its reloading.
pub mod Served
pub mod Renewed
use vault_secrets_webhook.Base.{
  String, ◌≡◌, Bool, true, false, ◌&&◌, ◌||◌, ◌==◌, Option, none, some, List, [], ◌∷◌,
  if◌then◌else◌,
}

-- The file system and `tls.LoadX509KeyPair`, where none is an error.
pub record KeyPairs : Type 1 where
  pub Files : Type 0
  pub Certificate : Type 0
  pub load_key_pair : Files → String → String → Option Certificate

-- A `fsnotify.Event`: the flags that are tested, and `filepath.Base` of its name.
pub record Event : Type 0 where
  pub is_create : Bool
  pub is_write : Bool
  pub base_name : String

module _ (pairs : KeyPairs) where
  -- `CertificateReloader`; the lock makes each reload and each read one step.
  pub record CertificateReloader : Type 0 where
    pub cert : pairs.Certificate
    pub cert_path : String
    pub key_path : String

  -- `NewCertificateReloader`
  unfoldable pub new_certificate_reloader :
      pairs.Files → String → String → Option CertificateReloader
  new_certificate_reloader files cert_path key_path =
      elim (pairs.load_key_pair files cert_path key_path) [
        | none ↦ none
        | some cert ↦ some (record { cert = cert; cert_path = cert_path; key_path = key_path })
      ]

  -- `Reload`
  unfoldable pub reload : pairs.Files → CertificateReloader → CertificateReloader
  reload files kpr = elim (pairs.load_key_pair files kpr.cert_path kpr.key_path) [
    | none ↦ kpr
    | some new_cert ↦ record kpr { cert = new_cert }
  ]

  -- The case of an event in watchCertificate's loop.
  unfoldable pub on_event : pairs.Files → Event → CertificateReloader → CertificateReloader
  on_event files event kpr =
      if (event.is_create || event.is_write) && event.base_name == "..data"
      then reload files kpr
      else kpr

  -- The loop of watchCertificate over events, while the files stay as they are.
  unfoldable pub deliver_all : pairs.Files → List Event → CertificateReloader → CertificateReloader
  unfolding on_event
  deliver_all files [] kpr = kpr
  deliver_all files (event ∷ events) kpr = deliver_all files events (on_event files event kpr)

  -- The server beside its files.
  pub record World : Type 0 where
    pub files : pairs.Files
    pub kpr : CertificateReloader

  -- The files change, or an event is delivered, at any time.
  pub data Step : World → World → Type 0 where
    change : {w : World} (files : pairs.Files) → Step w (record w { files = files })
    deliver : {w : World} (event : Event) → Step w (record w { kpr = on_event w.files event w.kpr })

  -- The runs of the server from its start, with the states that the files have had, newest first.
  pub data Run (cert_path key_path : String) : List pairs.Files → World → Type 0 where
    start :
        (files : pairs.Files) (kpr : CertificateReloader)
        → new_certificate_reloader files cert_path key_path ≡ some kpr
        → Run cert_path key_path (files ∷ []) (record { files = files; kpr = kpr })
    step :
        {seen : List pairs.Files} {w w' : World}
        → Run cert_path key_path seen w
        → Step w w'
        → Run cert_path key_path (w'.files ∷ seen) w'
