-- ===== src/Cli/SecretCommands/Opened.antt =====
-- cli.py: the passwords that encrypt-secrets writes open with the key that encrypted them.
use arch_installer.Prelude.{
  ◌≡◌, refl, subst, inl, inr, eq_iff, String, ◌==◌, Bool, true, false, Bool-cases, Option, none,
  some, [], ◌∷◌, length, if◌then◌else◌, split_on,
}
use arch_installer.Prelude.Dict
use arch_installer.Prelude.Dict.{Dict}
use arch_installer.Errors.{Result, ok, err, ◌>>=◌}
use arch_installer.Core.Secrets.{Ciphers, Derivation, decrypt_secret, decrypt_parts, encrypt_secret}
use arch_installer.Core.Secrets.RoundTrip.{AreLawful, encrypted-opened}
use arch_installer.Config.Value.{Value, text}
use arch_installer.Config.Models.Features.{EncryptedSecretsConfig}
use arch_installer.Config.Declared.{installer_config_section}
use arch_installer.Config.Environment.{switch_is_on}
use arch_installer.Config.File.{decrypted_credentials, read_config_file}
use arch_installer.Config.SecretsFile.{named_secrets, write_encrypted_secrets}
use arch_installer.Config.SecretsFile.Stored.{
  Verified, verify_each-first, or_no_fields-read, write_encrypted_secrets-Verified,
}
use arch_installer.Cli.Assembly.{Host, file_values, config_path}
use arch_installer.Cli.SecretCommands.{
  Randomness, encrypt_if_given, store_secrets, refuse_mixed_keys,
}

module _ (ciphers : Ciphers) (derive : Derivation) where
  -- an empty text opens with no key
  opened-nonempty :
      (b secrets_key setting p : String)
      → decrypt_secret ciphers derive b secrets_key setting ≡ ok p
      → (b == "") ≡ false
  unfolding decrypt_secret decrypt_parts split_on
  opened-nonempty b secrets_key setting p h = elim (Bool-cases (b == "")) [
    | inr given ↦ given
    | inl blank ↦
        let refused =
          subst (λ t. decrypt_secret ciphers derive t secrets_key setting ≡ ok p)
            ((eq_iff b "").0 blank) h in
        cc
  ]

  stored-opened :
      (stored : Dict Value) (secrets_key b1 b2 p1 p2 : String)
      → Dict.lookup "secrets.luks_password_encrypted" stored ≡ some (text b1)
      → Dict.lookup "secrets.user_password_encrypted" stored ≡ some (text b2)
      → decrypt_secret ciphers derive b1 secrets_key "luks_password" ≡ ok p1
      → decrypt_secret ciphers derive b2 secrets_key "user_password" ≡ ok p2
      → decrypted_credentials ciphers derive stored secrets_key
        ≡ ok (("credentials.luks_password", p1) ∷ ("credentials.user_password", p2) ∷ [])
  unfolding decrypted_credentials Dict.insert
  stored-opened stored secrets_key b1 b2 p1 p2 found1 found2 opened1 opened2 =
      rw
        (
          found1,
          opened-nonempty b1 secrets_key _ p1 opened1,
          opened1,
          found2,
          opened-nonempty b2 secrets_key _ p2 opened2,
          opened2,
        )
        refl

-- the end of `store_secrets`, by the switch, the check of the key and what is written
abbrev stored_after :
    Result Bool → Result (Unit {0}) → Result String → String → Result (Option (String × String))
stored_after no_write r w path =
    no_write >>= λ b. if b then ok none else (r >>= λ _. w >>= λ t. ok (some (path, t)))

-- the text that a store writes was written by `write_encrypted_secrets`
written_by :
    (no_write : Result Bool) (r : Result (Unit {0})) (w : Result String) (path written : String)
    → stored_after no_write r w path ≡ ok (some (path, written))
    → w ≡ ok written
written_by (err e) r w path written h = cc
written_by (ok true) r w path written h = cc
written_by (ok false) (err e) w path written h = cc
written_by (ok false) (ok u) (err e) path written h = cc
written_by (ok false) (ok u) (ok t) path written h = cc

module _ (host : Host) (secrets_key b1 b2 p1 p2 : String)
    (opened1 : decrypt_secret host.ciphers host.derive b1 secrets_key "luks_password" ≡ ok p1)
    (opened2 : decrypt_secret host.ciphers host.derive b2 secrets_key "user_password" ≡ ok p2) where
  abbrev new_secrets : EncryptedSecretsConfig
  new_secrets = record { luks_password_encrypted = b1; user_password_encrypted = b2 }

  Verified-opened :
      (path written : String)
      → Verified installer_config_section host.safe_load path (named_secrets new_secrets) written
      → (file_values (record host { text_of = λ p. some written }) path >>= λ values.
          decrypted_credentials host.ciphers host.derive values secrets_key)
        ≡ ok (("credentials.luks_password", p1) ∷ ("credentials.user_password", p2) ∷ [])
  unfolding file_values read_config_file
  Verified-opened path written v =
      let (found1, rest) =
        verify_each-first path v.stored "luks_password_encrypted" b1 _ v.passes
          (opened-nonempty host.ciphers host.derive b1 secrets_key _ p1 opened1) in
      let (found2, rest') =
        verify_each-first path v.stored "user_password_encrypted" b2 _ rest
          (opened-nonempty host.ciphers host.derive b2 secrets_key _ p2 opened2) in
      rw
        (
          v.loads,
          or_no_fields-read installer_config_section path v.stored "secrets.luks_password_encrypted"
              (text b1) found1 v.value v.flattens,
        )
        (stored-opened host.ciphers host.derive v.stored secrets_key b1 b2 p1 p2 found1 found2
          opened1 opened2)

module _ (host : Host) (random : Randomness) (lawful : AreLawful host.ciphers)
    (sizes : (name : String) → (length (random name).0 ≡ 16) × (length (random name).1 ≡ 12)) where
  given-opened :
      (password secrets_key name b : String)
      → (password == "") ≡ false
      → host.ciphers.decode (host.ciphers.encode password) ≡ ok password
      → encrypt_if_given host random password secrets_key name ≡ ok b
      → decrypt_secret host.ciphers host.derive b secrets_key name ≡ ok password
  unfolding encrypt_if_given
  given-opened password secrets_key name b given decoded h =
      encrypted-opened host.ciphers host.derive lawful (random name).0 (random name).1 password
        secrets_key name b (sizes name).0 (sizes name).1 decoded
        (subst
          (λ t.
            (if t
              then ok ""
              else encrypt_secret host.ciphers host.derive (random name).0 (random name).1 password
                  secrets_key name)
            ≡ ok b)
          given h)

  -- Where encrypt-secrets has encrypted two given passwords and has written them into the config file,
  -- reading that file and decrypting its passwords with the same key gives both passwords back, whatever
  -- the file held before. The salts have 16 bytes and the nonces 12, AES-GCM and base64 are lawful,
  -- UTF-8 gives the passwords back.
  pub store_secrets-decrypted_credentials :
      (variables : Dict String) (secrets_key p1 p2 b1 b2 written : String)
      → (p1 == "") ≡ false
      → (p2 == "") ≡ false
      → host.ciphers.decode (host.ciphers.encode p1) ≡ ok p1
      → host.ciphers.decode (host.ciphers.encode p2) ≡ ok p2
      → encrypt_if_given host random p1 secrets_key "luks_password" ≡ ok b1
      → encrypt_if_given host random p2 secrets_key "user_password" ≡ ok b2
      → store_secrets host variables
          (record { luks_password_encrypted = b1; user_password_encrypted = b2 })
          secrets_key
        ≡ ok (some (config_path host variables, written))
      → (file_values (record host { text_of = λ p. some written }) (config_path host variables)
          >>= λ values. decrypted_credentials host.ciphers host.derive values secrets_key)
        ≡ ok (("credentials.luks_password", p1) ∷ ("credentials.user_password", p2) ∷ [])
  unfolding store_secrets
  store_secrets-decrypted_credentials variables secrets_key p1 p2 b1 b2 written given1 given2
        decoded1 decoded2 encrypted1 encrypted2 h =
      let path = config_path host variables in
      let secrets : EncryptedSecretsConfig = record {
        luks_password_encrypted = b1;
        user_password_encrypted = b2;
      } in
      Verified-opened host secrets_key b1 b2 p1 p2
        (given-opened p1 secrets_key "luks_password" b1 given1 decoded1 encrypted1)
        (given-opened p2 secrets_key "user_password" b2 given2 decoded2 encrypted2) path written
        (write_encrypted_secrets-Verified installer_config_section host.safe_load path
          (host.text_of path) secrets written
          (written_by (switch_is_on host.repr variables "NO_WRITE")
            (refuse_mixed_keys host path secrets secrets_key)
            (write_encrypted_secrets installer_config_section host.safe_load path
              (host.text_of path) secrets)
            path written h))
