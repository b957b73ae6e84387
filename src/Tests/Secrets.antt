-- ===== src/Tests/Secrets.antt =====
-- core/secrets.py, with ciphers that leave a text as it is.
use Prim.Native.Char.{code}
use mathlib.Core.Option
use arch_installer.Prelude.{
  join, show_nat, ◌<>◌, ◌≡◌, refl, ◌==◌, some, [], ◌∷◌, ◌++◌, leb, if◌then◌else◌, arith, ◌≤◌, ℕ,
  zero, suc, true, eqb, String, ap, length, length-append, ◌+◌,
}
use arch_installer.Errors.{value_error, configuration_error, ok, err, ◌>>=◌}
use arch_installer.Core.Secrets.{
  encoded, Bytes, Ciphers, Derivation, decrypt_secret, encrypt_secret, aes_key, new_secret_cost,
  drop,
}
use arch_installer.Core.Secrets.RoundTrip.{AreLawful, encrypt_secret-decrypt_secret}
use arch_installer.Prelude.Splitting.{Lacks}
use arch_installer.Core.Secrets.Cost.{decrypt_secret-affordable}

abbrev pub four_bytes : Bytes
four_bytes = 1 ∷ 2 ∷ 3 ∷ 4 ∷ []

abbrev pub sixteen_bytes : Bytes
sixteen_bytes = four_bytes ++ four_bytes ++ four_bytes ++ four_bytes

abbrev pub sample_ciphers : Ciphers
sample_ciphers = record {
  seal = λ key nonce plaintext data_. plaintext;
  unseal = λ key nonce ciphertext data_. some ciphertext;
  b64encode = λ bytes. "";
  b64decode = λ t. some (if t == "salt" then sixteen_bytes else sixteen_bytes ++ sixteen_bytes);
  encode = λ t. [];
  decode = λ bytes. ok "secret";
}

abbrev unlimited : Derivation
unlimited key salt cost = ok key

-- refuses what takes more than 4 GiB
abbrev pub limited : Derivation
limited key salt cost = if leb cost.memory_kib 4194304 then ok key else err (value_error "memory")

affordable_blob :
    decrypt_secret sample_ciphers limited "dali-v2$argon2id$m=262144,t=3,p=4$salt$payload" "key"
      "luks_password"
    ≡ ok "secret"
unfolding decrypt_secret arch_installer.Prelude.split_on arch_installer.Core.Secrets.parse_cost
    arch_installer.Prelude.is_digits arch_installer.Prelude.parse_int
affordable_blob = refl

greedy_blob :
    decrypt_secret sample_ciphers unlimited "dali-v2$argon2id$m=8388608,t=3,p=4$salt$payload" "key"
      "luks_password"
    ≡ err (configuration_error "Encrypted secret asks for an unreasonable cost: m=8388608,t=3,p=4")
unfolding decrypt_secret arch_installer.Prelude.split_on arch_installer.Core.Secrets.parse_cost
    arch_installer.Prelude.is_digits arch_installer.Prelude.parse_int
greedy_blob = refl

within-leb : (n : ℕ) → n ≤ 4194304 → leb n 4194304 ≡ true
within-leb n within = ground arith

decrypt_secret-affordable_example :
    decrypt_secret sample_ciphers unlimited "dali-v2$argon2id$m=262144,t=3,p=4$salt$payload" "key"
      "luks_password"
    ≡ decrypt_secret sample_ciphers limited "dali-v2$argon2id$m=262144,t=3,p=4$salt$payload" "key"
        "luks_password"
decrypt_secret-affordable_example =
    decrypt_secret-affordable sample_ciphers unlimited limited
      (λ key salt cost affordable. rw (within-leb cost.memory_kib affordable.0) refl)
      "dali-v2$argon2id$m=262144,t=3,p=4$salt$payload" "key" "luks_password"

-- each byte as that many letters, and an end
unfoldable pub unary : ℕ → String → String
unary zero rest = String.◌∷◌ "b" rest
unary (suc n) rest = String.◌∷◌ "a" (unary n rest)

unfoldable pub units : Bytes → String
units [] = ""
units (n ∷ bytes) = unary n (units bytes)

unfoldable pub bump : Bytes → Bytes
bump [] = []
bump (n ∷ bytes) = suc n ∷ bytes

unfoldable pub counted : String → Bytes
counted String.[] = []
counted (String.◌∷◌ c s) = let rest = counted s in if eqb (code c) 98 then 0 ∷ rest else bump rest

counted-unary : (n : ℕ) (s : String) → counted (unary n s) ≡ n ∷ counted s
unfolding counted unary bump
counted-unary zero s = refl
counted-unary (suc n) s = rw (counted-unary n s) refl

counted-units : (bytes : Bytes) → some (counted (units bytes)) ≡ some bytes
unfolding counted units
counted-units [] = refl
counted-units (n ∷ bytes) =
    rw (counted-unary n (units bytes)) (ap (Option.map (λ bs. n ∷ bs)) (counted-units bytes))

unary-Lacks : (n : ℕ) (s : String) → Lacks 36 s → Lacks 36 (unary n s)
unfolding unary
unary-Lacks zero s l = (refl, l)
unary-Lacks (suc n) s l = (refl, unary-Lacks n s l)

units-Lacks : (bytes : Bytes) → Lacks 36 (units bytes)
unfolding units
units-Lacks [] = tt
units-Lacks (n ∷ bytes) = unary-Lacks n _ (units-Lacks bytes)

-- the tag stands before the text
abbrev pub lawful_ciphers : Ciphers
lawful_ciphers = record {
  seal = λ key nonce plaintext data_. sixteen_bytes ++ plaintext;
  unseal = λ key nonce ciphertext data_. some (drop 16 ciphertext);
  b64encode = units;
  b64decode = λ t. some (counted t);
  encode = λ t. 7 ∷ [];
  decode = λ bytes. ok "secret";
}

pub lawful_ciphers-AreLawful : AreLawful lawful_ciphers
lawful_ciphers-AreLawful = record {
  b64decode-b64encode = counted-units;
  b64encode-Lacks = units-Lacks;
  unseal-seal = λ key nonce plaintext setting. refl;
  length-seal =
      λ key nonce plaintext setting. omega (arith, length-append {0} sixteen_bytes plaintext);
}

encrypt_secret-decrypt_secret_example :
    (encrypt_secret lawful_ciphers limited sixteen_bytes
        (four_bytes ++ four_bytes ++ four_bytes)
        "secret"
        "key"
        "luks_password"
      >>= λ blob. decrypt_secret lawful_ciphers limited blob "key" "luks_password")
    ≡ (aes_key lawful_ciphers limited "key" sixteen_bytes new_secret_cost >>= λ key. ok "secret")
encrypt_secret-decrypt_secret_example =
    encrypt_secret-decrypt_secret lawful_ciphers limited lawful_ciphers-AreLawful sixteen_bytes
      (four_bytes ++ four_bytes ++ four_bytes) "secret" "key" "luks_password" refl refl refl
