-- ===== src/Base/Unique.antt =====
-- A list of answers in which exactly one has a property, and none is an error.
use mathlib.Core.List.{List, [], ◌∷◌}
use opensandbox_aks_governan.Base.Results.{Result, ok, err}

module _ {ℓ} {A : Type ℓ} (P : A → Type 0) where
  -- An answer that was given and does not have the property.
  abbrev pub Lacks : Result A → Type 0
  Lacks (ok a) = ¬ P a
  Lacks (err e) = ⊥

  pub data NoneOf : List (Result A) → Type ℓ where
    none_here : NoneOf []
    none_more : {a : Result A} {rest : List (Result A)} → Lacks a → NoneOf rest → NoneOf (a ∷ rest)

  pub data Alone : List (Result A) → A → Type ℓ where
    here : {a : A} {rest : List (Result A)} → P a → NoneOf rest → Alone (ok a ∷ rest) a
    later :
        {a : A} {b : Result A} {rest : List (Result A)}
        → Lacks b
        → Alone rest a
        → Alone (b ∷ rest) a

  pub Alone-has : {list : List (Result A)} {a : A} → Alone list a → P a
  Alone-has (here p none) = p
  Alone-has (later other alone) = Alone-has alone
