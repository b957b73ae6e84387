-- ===== src/Core/Secrets.antt =====
-- core/secrets.py: the format of an encrypted password and the cost of its key. The ciphers of the
-- cryptography package, the codecs and the random bytes are parameters. A byte is a number, and
-- Python's limit on the digits that int() reads is left out.
pub mod Cost
pub mod RoundTrip
use Prim.Native.Char.{code}
use arch_installer.Prelude.{
  String, ◌<>◌, ◌==◌, Bool, not, ◌&&◌, ◌||◌, ℕ, zero, suc, ltb, leb, eqb, Option, none, some, List,
  [], ◌∷◌, ◌++◌, ◌+◌, length, ℤ, pos, negsuc, show_nat, is_digits, parse_int, split_on, join,
  if◌then◌else◌,
}
use arch_installer.Errors.{configuration_error, Result, ok, err, ◌>>=◌}

abbrev pub Bytes : Type 0
Bytes = List ℕ

-- AESGCM, with none for an altered text or the wrong key; base64 and UTF-8
pub record Ciphers : Type 0 where
  pub seal : Bytes → Bytes → Bytes → Bytes → Bytes
  pub unseal : Bytes → Bytes → Bytes → Bytes → Option Bytes
  pub b64encode : Bytes → String
  pub b64decode : String → Option Bytes
  pub encode : String → Bytes
  pub decode : Bytes → Result String

pub record Argon2Cost : Type 0 where
  pub memory_kib : ℕ
  pub iterations : ℕ
  pub lanes : ℕ

-- Argon2id, of the key, the salt and the cost; it may refuse a cost
abbrev pub Derivation : Type 0
Derivation = Bytes → Bytes → Argon2Cost → Result Bytes

unfoldable pub encoded : Argon2Cost → String
encoded cost =
    "m="
    <> show_nat cost.memory_kib
    <> ",t="
    <> show_nat cost.iterations
    <> ",p="
    <> show_nat cost.lanes

abbrev pub new_secret_cost : Argon2Cost
new_secret_cost = record { memory_kib = 262144; iterations = 3; lanes = 4 }

abbrev pub maximum_cost : Argon2Cost
maximum_cost = record { memory_kib = 4194304; iterations = 64; lanes = 64 }

abbrev pub format_version : String
format_version = "dali-v2"

abbrev pub key_derivation_name : String
key_derivation_name = "argon2id"

abbrev pub nonce_size_bytes : ℕ
nonce_size_bytes = 12

abbrev pub take : ℕ → Bytes → Bytes
take zero bytes = []
take (suc n) [] = []
take (suc n) (byte ∷ bytes) = byte ∷ take n bytes

abbrev pub drop : ℕ → Bytes → Bytes
drop zero bytes = bytes
drop (suc n) [] = []
drop (suc n) (byte ∷ bytes) = drop n bytes

abbrev natural : Option ℤ → Option ℕ
natural (some (pos n)) = some n
natural _ = none

-- a group `x=(\d+)` of the pattern, for the letter with the given code
unfoldable pub group_value : ℕ → String → Option ℕ
group_value letter (String.◌∷◌ c (String.◌∷◌ equals digits)) =
    if eqb (code c) letter && eqb (code equals) 61 && is_digits digits
    then natural (parse_int digits)
    else none
group_value letter _ = none

abbrev pub cost_of : Option ℕ → Option ℕ → Option ℕ → Option Argon2Cost
cost_of (some m) (some t) (some p) = some (record { memory_kib = m; iterations = t; lanes = p })
cost_of _ _ _ = none

-- `COST_PATTERN.fullmatch`: the groups hold no comma
abbrev pub matched_cost : List String → Option Argon2Cost
matched_cost (m ∷ t ∷ p ∷ []) = cost_of (group_value 109 m) (group_value 116 t) (group_value 112 p)
matched_cost _ = none

abbrev pub in_range : ℕ → ℕ → Bool
in_range n maximum = ltb 0 n && leb n maximum

abbrev pub is_reasonable : Argon2Cost → Bool
is_reasonable cost =
    in_range cost.memory_kib maximum_cost.memory_kib
    && in_range cost.iterations maximum_cost.iterations
    && in_range cost.lanes maximum_cost.lanes

abbrev pub reasonable_or_raise : String → Option Argon2Cost → Result Argon2Cost
reasonable_or_raise text none =
    err (configuration_error ("Encrypted secret has malformed Argon2id parameters: " <> text))
reasonable_or_raise text (some cost) =
    if is_reasonable cost
    then ok cost
    else err (configuration_error ("Encrypted secret asks for an unreasonable cost: " <> text))

unfoldable pub parse_cost : String → Result Argon2Cost
unfolding group_value
parse_cost text = reasonable_or_raise text (matched_cost (split_on 44 text))

module _ (ciphers : Ciphers) (derive : Derivation) where
  abbrev pub associated_data : String → Bytes
  associated_data setting = ciphers.encode (format_version <> ":" <> setting)

  abbrev pub aes_key : String → Bytes → Argon2Cost → Result Bytes
  aes_key secrets_key salt cost = derive (ciphers.encode secrets_key) salt cost

  -- of the two results of `os.urandom`
  unfoldable pub encrypt_secret : Bytes → Bytes → String → String → String → Result String
  unfolding encoded
  encrypt_secret salt nonce plaintext secrets_key setting =
      aes_key secrets_key salt new_secret_cost >>= λ key. ok (
        join "$" (
          format_version
          ∷ key_derivation_name
          ∷ encoded new_secret_cost
          ∷ ciphers.b64encode salt
          ∷ ciphers.b64encode
              (nonce ++ ciphers.seal key nonce (ciphers.encode plaintext) (associated_data setting))
          ∷ []))

  abbrev pub part_or_raise : String → Option Bytes → Result Bytes
  part_or_raise part_name (some bytes) = ok bytes
  part_or_raise part_name none =
      err (configuration_error ("Encrypted secret has an invalid " <> part_name))

  abbrev pub base64_part : String → String → Result Bytes
  base64_part text part_name = part_or_raise part_name (ciphers.b64decode text)

  abbrev pub decoded_or_raise : String → Option Bytes → Result String
  decoded_or_raise setting (some plaintext) = ciphers.decode plaintext
  decoded_or_raise setting none = err (
      configuration_error
        ("Failed to decrypt the " <> setting <> " (wrong key, or the secret was altered)"))

  unfoldable pub decrypt_payload : String → String → Argon2Cost → Bytes → Bytes → Result String
  decrypt_payload secrets_key setting cost salt payload =
      if not (eqb (length salt) 16) || ltb (length payload) (nonce_size_bytes + 16)
      then err (configuration_error ("The encrypted " <> setting <> " is truncated"))
      else aes_key secrets_key salt cost >>= λ key. decoded_or_raise setting (
          ciphers.unseal key (take nonce_size_bytes payload) (drop nonce_size_bytes payload)
            (associated_data setting))

  abbrev pub old_format : String → Result String
  old_format setting = err (
      configuration_error (
        "The encrypted " <> setting
        <> " uses an old or unknown format; run `make encrypt-secrets` to encrypt it again"))

  abbrev pub decrypt_fields : String → String → String → String → String → Result String
  decrypt_fields secrets_key setting cost_text salt_text payload_text =
      parse_cost cost_text >>= λ cost. base64_part salt_text "salt" >>= λ salt.
      base64_part payload_text "payload" >>= λ payload.
      decrypt_payload secrets_key setting cost salt payload

  unfoldable pub decrypt_parts : String → String → List String → Result String
  unfolding decrypt_payload
  decrypt_parts secrets_key setting (version ∷ name ∷ cost ∷ salt ∷ payload ∷ []) =
      if version == format_version && name == key_derivation_name
      then decrypt_fields secrets_key setting cost salt payload
      else old_format setting
  decrypt_parts secrets_key setting _ = old_format setting

  unfoldable pub decrypt_secret : String → String → String → Result String
  unfolding decrypt_parts
  decrypt_secret blob secrets_key setting = decrypt_parts secrets_key setting (split_on 36 blob)
