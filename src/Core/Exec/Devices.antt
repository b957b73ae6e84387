-- ===== src/Core/Exec/Devices.antt =====
-- Conditions on what code adds to the trace: the devices that it overwrites, and that it only reads.
use arch_installer.Prelude.{
  ◌≡◌, refl, subst, ◌⊎◌, inl, inr, String, ◌<>◌, Bool, Bool-cases, true, false, eqb, List, [], ◌∷◌,
  ◌++◌, if◌then◌else◌,
}
use Prim.Native.Char.{code}
use arch_installer.Prelude.Splitting.{cons-append}
use arch_installer.Core.Commands.Files.{is_below, device_paths}
use arch_installer.Core.Commands.{overwrites, is_probe}
use arch_installer.Core.Exec.{Machine, Event, ran, slept, Exec}
use arch_installer.Core.Exec.Emits.{Emits, Emits-weaken}

-- The devices that code may overwrite.
abbrev pub In : String → List String → Type 0
In d [] = ⊥
In d (x ∷ xs) = (d ≡ x) ⊎ In d xs

abbrev pub DevicesIn : List String → List String → Type 0
DevicesIn allowed [] = Unit
DevicesIn allowed (d ∷ ds) = In d allowed × DevicesIn allowed ds

abbrev pub OverwritesIn : List String → Event → Type 0
OverwritesIn allowed (ran i) = DevicesIn allowed (overwrites i.command)
OverwritesIn allowed (slept n) = Unit

In-left : (d : String) (xs ys : List String) → In d xs → In d (xs ++ ys)
In-left d [] ys i = absurd i
In-left d (x ∷ xs) ys (inl e) = inl e
In-left d (x ∷ xs) ys (inr i) = inr (In-left d xs ys i)

In-right : (d : String) (xs ys : List String) → In d ys → In d (xs ++ ys)
In-right d [] ys i = i
In-right d (x ∷ xs) ys i = inr (In-right d xs ys i)

DevicesIn-weaken :
    (xs ys : List String) (h : (d : String) → In d xs → In d ys) (ds : List String)
    → DevicesIn xs ds
    → DevicesIn ys ds
DevicesIn-weaken xs ys h [] p = tt
DevicesIn-weaken xs ys h (d ∷ ds) (i, p) = (h d i, DevicesIn-weaken xs ys h ds p)

-- the literal is no beginning of the prefix, nor the other way round
abbrev pub differs_from : String → String → Bool
differs_from (String.◌∷◌ c prefix) (String.◌∷◌ d s) =
    let rest = differs_from prefix s in if eqb (code c) (code d) then rest else true
differs_from _ _ = false

is_below-append :
    (prefix s t : String) → differs_from prefix s ≡ true → is_below prefix (s <> t) ≡ false
is_below-append String.[] s t h = cc
is_below-append (String.◌∷◌ c prefix) String.[] t h = cc
is_below-append (String.◌∷◌ c prefix) (String.◌∷◌ d s) t h =
    rw (cons-append d s t) (elim (Bool-cases (eqb (code c) (code d))) [
      | inl same ↦ rw same (
          is_below-append prefix s t
            (subst (λ b. (if b then differs_from prefix s else true) ≡ true) same h))
      | inr other ↦ rw other refl
    ])

-- a path that begins with a literal, and one that is written out
pub below_literal :
    (xs : List String) (s t : String)
    → differs_from "/dev/" s ≡ true
    → DevicesIn xs (device_paths ((s <> t) ∷ []))
unfolding device_paths
below_literal xs s t h = rw (is_below-append "/dev/" s t h) tt

pub closed_path :
    (xs : List String) (s : String)
    → is_below "/dev/" s ≡ false
    → DevicesIn xs (device_paths (s ∷ []))
unfolding device_paths
closed_path xs s h = rw h tt

pub no_path : (xs : List String) → DevicesIn xs (device_paths [])
unfolding device_paths
no_path xs = tt

-- what commands on files need
pub ruleset path_rules = (below_literal, closed_path, no_path, refl)

OverwritesIn-weaken :
    (xs ys : List String) (h : (d : String) → In d xs → In d ys) (e : Event)
    → OverwritesIn xs e
    → OverwritesIn ys e
OverwritesIn-weaken xs ys h (ran i) p = DevicesIn-weaken xs ys h (overwrites i.command) p
OverwritesIn-weaken xs ys h (slept n) p = tt

module _ {A : Type 0} {w : Machine} (m : Exec A) where
  -- Code that overwrites no device overwrites only devices of any list.
  pub OverwritesIn-none :
      (xs : List String) → Emits w (OverwritesIn []) m → Emits w (OverwritesIn xs) m
  OverwritesIn-none xs h =
      Emits-weaken (OverwritesIn []) m (OverwritesIn-weaken [] xs (λ d i. absurd i)) h

  pub OverwritesIn-left :
      (xs ys : List String) → Emits w (OverwritesIn xs) m → Emits w (OverwritesIn (xs ++ ys)) m
  OverwritesIn-left xs ys h =
      Emits-weaken (OverwritesIn xs) m
        (OverwritesIn-weaken xs (xs ++ ys) (λ d i. In-left d xs ys i)) h

  pub OverwritesIn-right :
      (xs ys : List String) → Emits w (OverwritesIn ys) m → Emits w (OverwritesIn (xs ++ ys)) m
  OverwritesIn-right xs ys h =
      Emits-weaken (OverwritesIn ys) m
        (OverwritesIn-weaken ys (xs ++ ys) (λ d i. In-right d xs ys i)) h

abbrev pub IsReadOnly : Event → Type 0
IsReadOnly (ran i) = is_probe i.command ≡ true
IsReadOnly (slept n) = Unit
