-- ===== src/Pod/Sidecars/Token.antt =====
-- pkg/webhook/pod.go: the option that names a mounted token.
use Prim.Native.Char.{Char}
use vault_secrets_webhook.Base.{
  String, ◌<>◌, ◌≡◌, ◌⊎◌, ◌↔◌, ◌∙◌, ap, inl, inr, true, false, ◌==◌, Option, List, [], ◌∷◌,
  Bool-cases, ok, err,
}
use vault_secrets_webhook.Base.Text.{split}
use vault_secrets_webhook.Base.Text.Split.{
  lacks_char, split-lacks_char, split-first, lacks_char-split, split-cons, single-append,
}
use vault_secrets_webhook.Config.{VaultConfig}
use vault_secrets_webhook.Kube.{PodSecurityContext, VolumeMount, volume_mount, panic}
use vault_secrets_webhook.Pod.Sidecars.{copy_vault_token, token_container}

abbrev pub colon : Char
colon = ":"

-- The mount at /token of the volume that the option names before its first colon.
abbrev pub IsToken : VaultConfig → VolumeMount → Type 0
IsToken c mount =
    ((c.token_auth_mount == "") ≡ false)
    × ((name token : String) × (more : List String) × (split c.token_auth_mount colon
          ≡ name ∷ token ∷ more)
        × (mount ≡ volume_mount name "/token"))

module _ (context : Option PodSecurityContext) (c : VaultConfig) where
  panics :
      lacks_char colon c.token_auth_mount ≡ true
      → copy_vault_token context c ≡ err (panic "index out of range")
  unfolding copy_vault_token
  panics l = simp (split-lacks_char colon c.token_auth_mount l, copy_vault_token)

  first_pieces :
      (mount token : String) (more : List String)
      → split c.token_auth_mount colon ≡ mount ∷ token ∷ more
      → copy_vault_token context c ≡ ok (token_container context c mount token)
  unfolding copy_vault_token
  first_pieces mount token more e = simp (e, copy_vault_token)

  reads :
      lacks_char colon c.token_auth_mount ≡ false
      → (mount token : String) × (more : List String) × (split c.token_auth_mount colon
          ≡ mount ∷ token ∷ more)
        × (copy_vault_token context c ≡ ok (token_container context c mount token))
  reads colon_in =
      let (a, b, e, l) = lacks_char-split colon c.token_auth_mount colon_in in
      let (token, more, e') = split-cons b colon in
      let pieces = ap (λ s. split s colon) e ∙ split-first colon a b l ∙ ap (λ ps. a ∷ ps) e' in
      (a, token, more, pieces, first_pieces a token more pieces)

  -- The container that copies the token, or the panic.
  pub copy_vault_token-cases :
      (copy_vault_token context c ≡ err (panic "index out of range"))
      ⊎ ((mount token : String) × (more : List String) × (split c.token_auth_mount colon
            ≡ mount ∷ token ∷ more)
          × (copy_vault_token context c ≡ ok (token_container context c mount token)))
  copy_vault_token-cases = elim (Bool-cases (lacks_char colon c.token_auth_mount)) [
    | inl lacking ↦ inl (panics lacking)
    | inr colon_in ↦ inr (reads colon_in)
  ]

  -- The container that copies the token is built unless the option's text has no colon: there, and
  -- only there, reading its second piece panics.
  pub copy_vault_token-eq-err_iff :
      (copy_vault_token context c ≡ err (panic "index out of range"))
      ↔ (lacks_char colon c.token_auth_mount ≡ true)
  copy_vault_token-eq-err_iff = (
    λ e. elim (Bool-cases (lacks_char colon c.token_auth_mount)) [
      | inl lacking ↦ lacking
      | inr colon_in ↦ let (mount, token, _, _, built) = reads colon_in in absurd (cc)
    ],
    panics,
  )

  -- A text of a volume and a file, with a colon between them and no other, gives the container that
  -- mounts the volume and copies the file.
  copy_vault_token-colon :
      (mount token : String)
      → lacks_char colon mount ≡ true
      → lacks_char colon token ≡ true
      → c.token_auth_mount ≡ mount <> ":" <> token
      → copy_vault_token context c ≡ ok (token_container context c mount token)
  copy_vault_token-colon mount token before after e = first_pieces mount token [] (
      ap (λ s. split s colon) (e ∙ ap (λ t. mount <> t) (single-append colon token))
      ∙ split-first colon mount token before
      ∙ ap (λ ps. mount ∷ ps) (split-lacks_char colon token after))
