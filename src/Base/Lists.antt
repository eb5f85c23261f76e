-- ===== src/Base/Lists.antt =====
-- Lists measured by native numbers, predicates over them, and look-up by key.
use Prim.Native.Nat.{ℕ, suc, ◌+◌, ◌≤◌}
use Prim.Native.String.{String}
use mathlib.Core.Path.{◌≡◌, refl}
use mathlib.Core.Bool.{Bool, false, ◌||◌}
use mathlib.Core.Logic.{◌⊎◌}
use mathlib.Core.Option.{Option, none, some}
use mathlib.Core.List.{List, [], ◌∷◌, ◌++◌}
use native.Mathlib.Omega.{arith}
use text.Mathlib.TextEquality.{eq_iff}
use opensandbox_aks_governan.Base.Tests.{if◌then◌else◌, ◌==◌, string_eq, Eq}

module _ {ℓ} {A : Type ℓ} where
  abbrev pub length : List A → ℕ
  length [] = 0
  length (x ∷ xs) = suc (length xs)

  pub length-append : (xs ys : List A) → length (xs ++ ys) ≡ length xs + length ys
  length-append [] ys = omega arith
  length-append (x ∷ xs) ys = omega (arith, length-append xs ys)

  -- The elements that pass a test, in order.
  abbrev pub keep : (A → Bool) → List A → List A
  keep p [] = []
  keep p (x ∷ xs) = let rest = keep p xs in if p x then x ∷ rest else rest

  pub length-keep-le : (p : A → Bool) (xs : List A) → length (keep p xs) ≤ length xs
  length-keep-le p [] = omega arith
  length-keep-le p (x ∷ xs) = ground (arith, length-keep-le p xs)

  -- Some element passes a test.
  abbrev pub any : (A → Bool) → List A → Bool
  any p [] = false
  any p (x ∷ xs) = p x || any p xs

module _ {ℓ κ} {A : Type ℓ} (P : A → Type κ) where
  abbrev pub All : List A → Type κ
  All [] = Unit
  All (x ∷ xs) = P x × All xs

  -- There is an element with the property, found from the front.
  abbrev pub Any : List A → Type κ
  Any [] = Unit → ⊥
  Any (x ∷ xs) = P x ⊎ Any xs

abbrev pub contains {ℓ} : {A : Type ℓ} ⦃e : Eq A⦄ → List A → A → Bool
contains [] a = false
contains (x ∷ xs) a = x == a || contains xs a

-- A Go map with string keys, as the list of its entries.
abbrev pub Table {ℓ} : Type ℓ → Type ℓ
Table V = List (String × V)

module _ {ℓ} {V : Type ℓ} where
  abbrev pub find_key : String → List (String × V) → Option V
  find_key k [] = none
  find_key k ((j, v) ∷ m) = if j == k then some v else find_key k m

  abbrev pub delete_key : String → List (String × V) → List (String × V)
  delete_key k [] = []
  delete_key k ((j, v) ∷ m) = let rest = delete_key k m in if j == k then rest else (j, v) ∷ rest

  abbrev pub put_key : String → V → List (String × V) → List (String × V)
  put_key k v m = (k, v) ∷ delete_key k m

  pub find_key-delete_key_self :
      (k : String) (m : List (String × V)) → find_key k (delete_key k m) ≡ none
  find_key-delete_key_self k [] = refl
  find_key-delete_key_self k ((j, v) ∷ m) = ground (arith, find_key-delete_key_self k m)

  pub length-delete_key-le :
      (k : String) (m : List (String × V)) → length (delete_key k m) ≤ length m
  length-delete_key-le k [] = omega arith
  length-delete_key-le k ((j, v) ∷ m) = ground (arith, length-delete_key-le k m)

  pub find_key-delete_key :
      (k j : String) (m : List (String × V))
      → find_key j (delete_key k m) ≡ (if k == j then none else find_key j m)
  find_key-delete_key k j [] = ground arith
  find_key-delete_key k j ((i, w) ∷ m) =
      ground (arith, eq_iff k j, eq_iff i k, eq_iff i j, find_key-delete_key k j m)

  pub find_key-put_key :
      (k j : String) (v : V) (m : List (String × V))
      → find_key j (put_key k v m) ≡ (if k == j then some v else find_key j m)
  find_key-put_key k j v [] = refl
  find_key-put_key k j v ((i, w) ∷ m) =
      ground (arith, eq_iff k j, eq_iff i k, eq_iff i j, find_key-put_key k j v m)
