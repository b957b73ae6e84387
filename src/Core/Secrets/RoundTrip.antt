-- ===== src/Core/Secrets/RoundTrip.antt =====
-- What is encrypted decrypts with the same key, for the same setting.
use arch_installer.Prelude.{
  ◌≡◌, refl, sym, ap, subst, ◌∙◌, String, ◌<>◌, false, ◌≤◌, ℕ, length, length-append, All, List, [],
  ◌∷◌, ◌++◌, some, arith, split_on, join, ltb, is_digits, parse_int, show_nat,
}
use arch_installer.Prelude.Splitting.{
  Lacks, cons-append, nil-append, split_on-append, split_on-Lacks,
}
use arch_installer.Errors.{Result, ok, err, ◌>>=◌}
use arch_installer.Core.Secrets.{
  Bytes, Ciphers, Derivation, encrypt_secret, decrypt_secret, decrypt_parts, decrypt_payload,
  parse_cost, new_secret_cost, take, drop, aes_key, associated_data, encoded,
}

-- What base64 and AES-GCM promise: decoding undoes encoding, base64 has no `$`, and a sealed text opens
-- with the same key, nonce and associated data, and carries a tag of 16 bytes.
pub record AreLawful (c : Ciphers) : Type 0 where
  pub b64decode-b64encode : (bytes : Bytes) → c.b64decode (c.b64encode bytes) ≡ some bytes
  pub b64encode-Lacks : (bytes : Bytes) → Lacks 36 (c.b64encode bytes)
  pub unseal-seal :
      (key nonce plaintext setting : Bytes)
      → c.unseal key nonce (c.seal key nonce plaintext setting) setting ≡ some plaintext
  pub length-seal :
      (key nonce plaintext setting : Bytes) → 16 ≤ length (c.seal key nonce plaintext setting)

dollar-append : (t : String) → "$" <> t ≡ String.◌∷◌ "$" t
dollar-append t = cons-append "$" "" t ∙ ap (λ u. String.◌∷◌ "$" u) (nil-append t)

split_first : (s t : String) → Lacks 36 s → split_on 36 (s <> ("$" <> t)) ≡ s ∷ split_on 36 t
split_first s t l = rw (dollar-append t) (split_on-append 36 "$" refl s t l)

split_on-join :
    (part : String) (parts : List String)
    → All (Lacks 36) (part ∷ parts)
    → split_on 36 (join "$" (part ∷ parts)) ≡ part ∷ parts
unfolding join
split_on-join part [] (l, ls) = split_on-Lacks 36 part l
split_on-join part (next ∷ parts) (l, ls) =
    split_first part (join "$" (next ∷ parts)) l
    ∙ ap (λ ps. part ∷ ps) (split_on-join next parts ls)

take-append : (xs ys : Bytes) (n : ℕ) → length xs ≡ n → take n (xs ++ ys) ≡ xs
take-append [] ys n h = rw (sym h) refl
take-append (x ∷ xs) ys n h = rw (sym h) (ap (λ zs. x ∷ zs) (take-append xs ys (length xs) refl))

drop-append : (xs ys : Bytes) (n : ℕ) → length xs ≡ n → drop n (xs ++ ys) ≡ ys
drop-append [] ys n h = rw (sym h) refl
drop-append (x ∷ xs) ys n h = rw (sym h) (drop-append xs ys (length xs) refl)

long_enough : (xs ys : Bytes) → length xs ≡ 12 → 16 ≤ length ys → ltb (length (xs ++ ys)) 28 ≡ false
long_enough xs ys h k = ground (arith, length-append xs ys)

version-Lacks : Lacks 36 "dali-v2"
version-Lacks = ground arith

name-Lacks : Lacks 36 "argon2id"
name-Lacks = ground arith

cost-Lacks : Lacks 36 (encoded new_secret_cost)
unfolding encoded show_nat
cost-Lacks = ground arith

new_cost : parse_cost (encoded new_secret_cost) ≡ ok new_secret_cost
unfolding parse_cost encoded split_on is_digits parse_int show_nat
new_cost = refl

module _ (ciphers : Ciphers) (derive : Derivation) (lawful : AreLawful ciphers) where
  -- what `encrypt_secret` joins, for a derived key
  blob : Bytes → Bytes → Bytes → String → String → String
  blob salt nonce key plaintext setting = join "$" (
      "dali-v2"
      ∷ "argon2id"
      ∷ encoded new_secret_cost
      ∷ ciphers.b64encode salt
      ∷ ciphers.b64encode (
          nonce
          ++ ciphers.seal key nonce (ciphers.encode plaintext)
              (associated_data ciphers derive setting))
      ∷ [])

  payload-opened :
      (salt nonce key : Bytes) (plaintext secrets_key setting : String)
      → length salt ≡ 16
      → length nonce ≡ 12
      → ciphers.decode (ciphers.encode plaintext) ≡ ok plaintext
      → aes_key ciphers derive secrets_key salt new_secret_cost ≡ ok key
      → decrypt_payload ciphers derive secrets_key setting new_secret_cost salt (
          nonce
          ++ ciphers.seal key nonce
              (ciphers.encode plaintext)
              (associated_data ciphers derive setting))
        ≡ ok plaintext
  unfolding decrypt_payload
  payload-opened salt nonce key plaintext secrets_key setting hs hn decoded derived =
      let extra = associated_data ciphers derive setting in
      let sealed = ciphers.seal key nonce (ciphers.encode plaintext) extra in
      let size = long_enough nonce sealed hn (lawful.length-seal key nonce _ extra) in
      rw
        (
          hs,
          size,
          derived,
          take-append nonce sealed 12 hn,
          drop-append nonce sealed 12 hn,
          lawful.unseal-seal key nonce (ciphers.encode plaintext) extra,
        )
        decoded

  blob-opened :
      (salt nonce key : Bytes) (plaintext secrets_key setting : String)
      → length salt ≡ 16
      → length nonce ≡ 12
      → ciphers.decode (ciphers.encode plaintext) ≡ ok plaintext
      → aes_key ciphers derive secrets_key salt new_secret_cost ≡ ok key
      → decrypt_secret ciphers derive (blob salt nonce key plaintext setting) secrets_key setting
        ≡ ok plaintext
  unfolding decrypt_secret decrypt_parts blob
  blob-opened salt nonce key plaintext secrets_key setting hs hn decoded derived =
      rw
        (
          split_on-join "dali-v2"
              ("argon2id"
                ∷ encoded new_secret_cost
                ∷ ciphers.b64encode salt
                ∷ ciphers.b64encode (
                    nonce
                    ++ ciphers.seal key nonce (ciphers.encode plaintext)
                        (associated_data ciphers derive setting))
                ∷ [])
              (
                version-Lacks,
                (
                  name-Lacks,
                  (cost-Lacks, (lawful.b64encode-Lacks _, (lawful.b64encode-Lacks _, tt))),
                ),
              ),
          new_cost,
          lawful.b64decode-b64encode salt,
          lawful.b64decode-b64encode (
              nonce
              ++ ciphers.seal key nonce (ciphers.encode plaintext)
                  (associated_data ciphers derive setting)),
        )
        (payload-opened salt nonce key plaintext secrets_key setting hs hn decoded derived)

  secret-opened :
      (salt nonce : Bytes) (plaintext secrets_key setting : String) (r : Result Bytes)
      → length salt ≡ 16
      → length nonce ≡ 12
      → ciphers.decode (ciphers.encode plaintext) ≡ ok plaintext
      → aes_key ciphers derive secrets_key salt new_secret_cost ≡ r
      → ((r >>= λ key. ok (blob salt nonce key plaintext setting)) >>= λ b.
          decrypt_secret ciphers derive b secrets_key setting)
        ≡ (r >>= λ key. ok plaintext)
  secret-opened salt nonce plaintext secrets_key setting (err e) hs hn decoded derived = refl
  secret-opened salt nonce plaintext secrets_key setting (ok key) hs hn decoded derived =
      blob-opened salt nonce key plaintext secrets_key setting hs hn decoded derived

  -- An encrypted password decrypts with the same key, for the same setting: with every lawful AES-GCM and
  -- base64, salt of 16 bytes, nonce of 12 and password that UTF-8 gives back, encrypting and then
  -- decrypting returns the password, or the error of the key derivation.
  pub encrypt_secret-decrypt_secret :
      (salt nonce : Bytes) (plaintext secrets_key setting : String)
      → length salt ≡ 16
      → length nonce ≡ 12
      → ciphers.decode (ciphers.encode plaintext) ≡ ok plaintext
      → (encrypt_secret ciphers derive salt nonce plaintext secrets_key setting >>= λ blob.
          decrypt_secret ciphers derive blob secrets_key setting)
        ≡ (aes_key ciphers derive secrets_key salt new_secret_cost >>= λ key. ok plaintext)
  unfolding encrypt_secret blob
  encrypt_secret-decrypt_secret salt nonce plaintext secrets_key setting hs hn decoded =
      secret-opened salt nonce plaintext secrets_key setting _ hs hn decoded refl

  opened_of :
      (salt nonce : Bytes) (plaintext secrets_key setting b : String) (r : Result Bytes)
      → length salt ≡ 16
      → length nonce ≡ 12
      → ciphers.decode (ciphers.encode plaintext) ≡ ok plaintext
      → aes_key ciphers derive secrets_key salt new_secret_cost ≡ r
      → (r >>= λ key. ok (blob salt nonce key plaintext setting)) ≡ ok b
      → decrypt_secret ciphers derive b secrets_key setting ≡ ok plaintext
  opened_of salt nonce plaintext secrets_key setting b (err e) hs hn decoded derived h = cc
  opened_of salt nonce plaintext secrets_key setting b (ok key) hs hn decoded derived h =
      let same : blob salt nonce key plaintext setting ≡ b = cc in
      subst (λ t. decrypt_secret ciphers derive t secrets_key setting ≡ ok plaintext) same
        (blob-opened salt nonce key plaintext secrets_key setting hs hn decoded derived)

  -- the same for a text that encryption returned
  pub encrypted-opened :
      (salt nonce : Bytes) (plaintext secrets_key setting b : String)
      → length salt ≡ 16
      → length nonce ≡ 12
      → ciphers.decode (ciphers.encode plaintext) ≡ ok plaintext
      → encrypt_secret ciphers derive salt nonce plaintext secrets_key setting ≡ ok b
      → decrypt_secret ciphers derive b secrets_key setting ≡ ok plaintext
  unfolding encrypt_secret blob
  encrypted-opened salt nonce plaintext secrets_key setting b hs hn decoded h =
      opened_of salt nonce plaintext secrets_key setting b _ hs hn decoded refl h
