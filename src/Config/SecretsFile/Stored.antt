-- ===== src/Config/SecretsFile/Stored.antt =====
-- config/secrets_file.py: what is written can be read back.
use arch_installer.Prelude.{
  ◌≡◌, refl, ap, not, ◌&&◌, eq_iff, String, ◌<>◌, ◌==◌, Bool, true, false, Option, none, some, List,
  [], sort_texts, ◌∷◌, if◌then◌else◌, arith,
}
use arch_installer.Prelude.Dict
use arch_installer.Prelude.Dict.{Dict}
use arch_installer.Errors.{Error, Result, ok, err, ◌>>=◌}
use arch_installer.Config.Value.{
  Value, null, bool, int, text, list, tuple, dict, other, end, field, truthy, py_eq,
}
use arch_installer.Config.Schema.{Section}
use arch_installer.Config.Models.Features.{EncryptedSecretsConfig}
use arch_installer.Config.File.{
  Loaded, invalid, loaded, flatten, flatten_fields, config_file_setting_values, mapping_or_raise,
}
use arch_installer.Config.SecretsFile.{
  is_stored, verify_each, or_no_fields, named_secrets, verify_loaded, set_secrets,
  write_encrypted_secrets,
}

py_eq-text : (v : Value) (t : String) → py_eq v (text t) ≡ true → v ≡ text t
unfolding py_eq
py_eq-text (text s) t h = ap text ((eq_iff s t).0 h)
py_eq-text v t h = cc

is_stored-some : (o : Option Value) (t : String) → is_stored o t ≡ true → o ≡ some (text t)
is_stored-some none t h = cc
is_stored-some (some v) t h = ap some (py_eq-text v t h)

passed :
    {A : Type 0} (b : Bool) (e : Error) (r : Result A) (a : A)
    → (if b then err e else r) ≡ ok a
    → (b ≡ false) × (r ≡ ok a)
passed true e r a h = cc
passed false e r a h = (refl, h)

given_stored : (b c : Bool) → not b && not c ≡ false → b ≡ false → c ≡ true
given_stored b c h e = ground arith

module _ (path : String) (stored : Dict Value) where
  -- a value that is verified is found
  pub verify_each-first :
      (name expected : String) (fields : List (String × String))
      → verify_each path stored ((name, expected) ∷ fields) ≡ ok tt
      → (expected == "") ≡ false
      → (Dict.lookup ("secrets." <> name) stored ≡ some (text expected))
        × (verify_each path stored fields ≡ ok tt)
  unfolding verify_each
  verify_each-first name expected fields h given =
      let (placed, rest) = passed _ _ (verify_each path stored fields) tt h in
      (is_stored-some _ expected (given_stored _ _ placed given), rest)

module _ (s : Section) (path : String) (stored : Dict Value) (k : String) (x : Value)
    (found : Dict.lookup k stored ≡ some x) where
  nothing_stored : ◌≡◌ {A = Result (Dict Value)} (ok []) (ok stored) → ⊥
  nothing_stored h = cc (Dict.lookup-nil {V = Value} k)

  -- a value that is no mapping stores nothing
  no_mapping :
      (b : Bool) (v : Value) (e : Error)
      → flatten s v "" ≡ err e
      → flatten s (if b then v else dict end) "" ≡ ok stored
      → ⊥
  unfolding flatten flatten_fields sort_texts
  no_mapping true v e refused h = cc
  no_mapping false v e refused h = nothing_stored h

  -- what the verification reads is what reading the file gives
  pub or_no_fields-read :
      (v : Value)
      → flatten s (or_no_fields v) "" ≡ ok stored
      → (mapping_or_raise path v >>= λ raw. config_file_setting_values s raw) ≡ ok stored
  unfolding config_file_setting_values flatten
  or_no_fields-read null h = h
  or_no_fields-read (dict end) h = h
  or_no_fields-read (dict (field n w fs)) h = h
  or_no_fields-read (bool b) h = absurd (no_mapping (truthy (bool b)) (bool b) _ refl h)
  or_no_fields-read (int b) h = absurd (no_mapping (truthy (int b)) (int b) _ refl h)
  or_no_fields-read (text b) h = absurd (no_mapping (truthy (text b)) (text b) _ refl h)
  or_no_fields-read (list b) h = absurd (no_mapping (truthy (list b)) (list b) _ refl h)
  or_no_fields-read (tuple b) h = absurd (no_mapping (truthy (tuple b)) (tuple b) _ refl h)
  or_no_fields-read (other b) h = absurd (no_mapping (truthy (other b)) (other b) _ refl h)

-- how a text that was written had been verified
pub record Verified (s : Section) (load : String → Loaded) (path : String)
    (fields : List (String × String)) (written : String) : Type 0 where
  pub value : Value
  pub stored : Dict Value
  pub loads : load written ≡ loaded value
  pub flattens : flatten s (or_no_fields value) "" ≡ ok stored
  pub passes : verify_each path stored fields ≡ ok tt

module _ (s : Section) (load : String → Loaded) (path : String) where
  Verified-each :
      (fields : List (String × String)) (edited written : String) (v : Value)
      (r : Result (Dict Value))
      → load edited ≡ loaded v
      → flatten s (or_no_fields v) "" ≡ r
      → ((r >>= λ stored. verify_each path stored fields) >>= λ _. ok edited) ≡ ok written
      → Verified s load path fields written
  Verified-each fields edited written v (err e) loads flattens h = cc
  Verified-each fields edited written v (ok stored) loads flattens h =
      passed_then (verify_each path stored fields) refl h
    where
      passed_then :
          (u : Result (Unit {0}))
          → verify_each path stored fields ≡ u
          → (u >>= λ _. ok edited) ≡ ok written
          → Verified s load path fields written
      passed_then (err e) p k = cc
      passed_then (ok tt) p k = record {
        value = v;
        stored = stored;
        loads = let same : written ≡ edited = cc in rw same loads;
        flattens = flattens;
        passes = p;
      }

  Verified-loaded :
      (fields : List (String × String)) (edited written : String) (l : Loaded)
      → load edited ≡ l
      → (verify_loaded s path l fields >>= λ _. ok edited) ≡ ok written
      → Verified s load path fields written
  Verified-loaded fields edited written (invalid problem) e h = cc
  Verified-loaded fields edited written (loaded v) e h =
      Verified-each fields edited written v _ e refl h

  pub write_encrypted_secrets-Verified :
      (t : Option String) (secrets : EncryptedSecretsConfig) (written : String)
      → write_encrypted_secrets s load path t secrets ≡ ok written
      → Verified s load path (named_secrets secrets) written
  unfolding write_encrypted_secrets
  write_encrypted_secrets-Verified none secrets written h = cc
  write_encrypted_secrets-Verified (some config_text) secrets written h =
      Verified-loaded (named_secrets secrets) (set_secrets (named_secrets secrets) config_text)
        written _ refl h
