-- ===== src/Core/Secrets/Cost.antt =====
-- The cost of the key that an encrypted password may ask for.
use arch_installer.Prelude.{
  ◌≡◌, refl, String, Bool, true, false, if◌then◌else◌, List, [], ◌∷◌, Option, none, some, ◌≤◌,
  arith, split_on,
}
use arch_installer.Errors.{Error, Result, ok, err, Holds, ◌>>=◌}
use arch_installer.Core.Secrets.{
  Ciphers, Derivation, Argon2Cost, Bytes, is_reasonable, reasonable_or_raise, matched_cost,
  parse_cost, decrypt_payload, decrypt_parts, decrypt_secret, decrypt_fields, base64_part,
}

bind-same :
    {A B : Type 0} (Q : A → Type 0) (r : Result A) (f g : A → Result B)
    → Holds Q r
    → ((a : A) → Q a → f a ≡ g a)
    → (r >>= f) ≡ (r >>= g)
bind-same Q (ok a) f g q same = same a q
bind-same Q (err e) f g q same = refl

bind-same_always :
    {A B : Type 0} (r : Result A) (f g : A → Result B)
    → ((a : A) → f a ≡ g a)
    → (r >>= f) ≡ (r >>= g)
bind-same_always (ok a) f g same = same a
bind-same_always (err e) f g same = refl

-- at most 4 GiB, 64 iterations and 64 lanes
abbrev pub IsAffordable : Argon2Cost → Type 0
IsAffordable cost = (cost.memory_kib ≤ 4194304) × (cost.iterations ≤ 64) × (cost.lanes ≤ 64)

reasonable-IsAffordable : (cost : Argon2Cost) → is_reasonable cost ≡ true → IsAffordable cost
reasonable-IsAffordable cost reasonable = ground arith

tested-IsAffordable :
    (b : Bool) (cost : Argon2Cost) (e : Error)
    → is_reasonable cost ≡ b
    → Holds IsAffordable (if b then ok cost else err e)
tested-IsAffordable true cost e same = reasonable-IsAffordable cost same
tested-IsAffordable false cost e same = tt

parsed-IsAffordable :
    (text : String) (o : Option Argon2Cost) → Holds IsAffordable (reasonable_or_raise text o)
parsed-IsAffordable text none = tt
parsed-IsAffordable text (some cost) = tested-IsAffordable (is_reasonable cost) cost _ refl

parse_cost-IsAffordable : (text : String) → Holds IsAffordable (parse_cost text)
unfolding parse_cost
parse_cost-IsAffordable text = parsed-IsAffordable text (matched_cost (split_on 44 text))

module _ (ciphers : Ciphers) (derive derive' : Derivation)
    (same : (key salt : Bytes) (cost : Argon2Cost)
      → IsAffordable cost
      → derive key salt cost ≡ derive' key salt cost) where
  payload-same :
      (secrets_key setting : String) (cost : Argon2Cost) (salt payload : Bytes)
      → IsAffordable cost
      → decrypt_payload ciphers derive secrets_key setting cost salt payload
        ≡ decrypt_payload ciphers derive' secrets_key setting cost salt payload
  unfolding decrypt_payload
  payload-same secrets_key setting cost salt payload affordable =
      rw (same (ciphers.encode secrets_key) salt cost affordable) refl

  fields-same :
      (secrets_key setting cost salt payload : String)
      → decrypt_fields ciphers derive secrets_key setting cost salt payload
        ≡ decrypt_fields ciphers derive' secrets_key setting cost salt payload
  fields-same secrets_key setting cost salt payload =
      bind-same IsAffordable (parse_cost cost) _ _ (parse_cost-IsAffordable cost) λ c affordable.
        bind-same_always (base64_part ciphers derive salt "salt") _ _ λ s.
          bind-same_always (base64_part ciphers derive payload "payload") _ _
            λ p. payload-same secrets_key setting c s p affordable

  parts-same :
      (secrets_key setting : String) (parts : List String)
      → decrypt_parts ciphers derive secrets_key setting parts
        ≡ decrypt_parts ciphers derive' secrets_key setting parts
  unfolding decrypt_parts
  parts-same secrets_key setting [] = refl
  parts-same secrets_key setting (v ∷ []) = refl
  parts-same secrets_key setting (v ∷ n ∷ []) = refl
  parts-same secrets_key setting (v ∷ n ∷ c ∷ []) = refl
  parts-same secrets_key setting (v ∷ n ∷ c ∷ s ∷ []) = refl
  parts-same secrets_key setting (v ∷ n ∷ c ∷ s ∷ p ∷ []) =
      rw (fields-same secrets_key setting c s p) refl
  parts-same secrets_key setting (v ∷ n ∷ c ∷ s ∷ p ∷ q ∷ rest) = refl

  -- Whatever an encrypted password asks for, decrypting it derives no key at a cost beyond 4 GiB, 64
  -- iterations and 64 lanes: a derivation that only agrees up to there gives the same result.
  pub decrypt_secret-affordable :
      (blob secrets_key setting : String)
      → decrypt_secret ciphers derive blob secrets_key setting
        ≡ decrypt_secret ciphers derive' blob secrets_key setting
  unfolding decrypt_secret
  decrypt_secret-affordable blob secrets_key setting =
      parts-same secrets_key setting (split_on 36 blob)
