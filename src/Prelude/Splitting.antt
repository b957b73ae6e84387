-- ===== src/Prelude/Splitting.antt =====
-- What `split` makes of texts that are joined.
use Prim.Native.Char.{Char, code}
use Prim.Native.String.append.{nil, cons}
use arch_installer.Prelude.{◌≡◌, refl, String, ◌<>◌, eqb, true, false, ℕ, [], ◌∷◌, split_on}

-- the clauses of the native append, as equations
pub nil-append : (t : String) → "" <> t ≡ t
nil-append t = λ i. nil t i

pub cons-append : (c : Char) (s t : String) → String.◌∷◌ c s <> t ≡ String.◌∷◌ c (s <> t)
cons-append c s t = λ i. cons c s t i

-- the character with the given code is not in the text
abbrev pub Lacks : ℕ → String → Type 0
Lacks sep String.[] = Unit {0}
Lacks sep (String.◌∷◌ c s) = (eqb (code c) sep ≡ false) × Lacks sep s

module _ (sep : ℕ) (d : Char) (same : eqb (code d) sep ≡ true) where
  pub split_on-append :
      (s t : String) → Lacks sep s → split_on sep (s <> String.◌∷◌ d t) ≡ s ∷ split_on sep t
  unfolding split_on
  split_on-append String.[] t l = rw (nil-append (String.◌∷◌ d t)) (rw same refl)
  split_on-append (String.◌∷◌ c s) t (differs, l) =
      rw (cons-append c s (String.◌∷◌ d t)) (rw differs (rw (split_on-append s t l) refl))

pub split_on-Lacks : (sep : ℕ) (s : String) → Lacks sep s → split_on sep s ≡ s ∷ []
unfolding split_on
split_on-Lacks sep String.[] l = refl
split_on-Lacks sep (String.◌∷◌ c s) (differs, l) = rw differs (rw (split_on-Lacks sep s l) refl)
