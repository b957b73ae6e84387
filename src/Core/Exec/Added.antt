-- ===== src/Core/Exec/Added.antt =====
-- What was added to a trace.
use mathlib.Core.List.{append_assoc}
use arch_installer.Prelude.{◌≡◌, refl, sym, ap, ◌∙◌, List, [], ◌++◌, All, All-append}
use arch_installer.Core.Exec.{Event}

-- The trace was only added to, and what was added satisfies `P`.
abbrev pub IsAdded : (Event → Type 0) → List Event → List Event → Type 0
IsAdded P tr tr' = (new : List Event) × (tr' ≡ new ++ tr) × All P new

pub nothing-IsAdded : {P : Event → Type 0} (tr : List Event) → IsAdded P tr tr
nothing-IsAdded tr = ([], refl, tt)

pub IsAdded-twice :
    (P : Event → Type 0) (tr tr' tr'' : List Event)
    → IsAdded P tr tr'
    → IsAdded P tr' tr''
    → IsAdded P tr tr''
IsAdded-twice P tr tr' tr'' (new, e, h) (newer, e', h') = (
  newer ++ new,
  e' ∙ ap (λ t. newer ++ t) e ∙ sym (append_assoc newer new tr),
  All-append P newer new h' h,
)
