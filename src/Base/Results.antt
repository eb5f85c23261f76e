-- ===== src/Base/Results.antt =====
-- Go's (value, error) results. A Kubernetes API error keeps the status that the code tests for;
-- any other error is its message, and `wrapped` is `fmt.Errorf("...: %w", err)`.
use Prim.Native.String.{String}
use mathlib.Core.Path.{◌≡◌, refl}
use mathlib.Core.Logic.{◌⊎◌, inl, inr}
use mathlib.Core.Bool.{Bool, true, false}
use opensandbox_aks_governan.Base.Tests.{if◌then◌else◌}

pub data Error : Type 0 where
  not_found already_exists conflict canceled : Error
  message : String → Error
  wrapped : String → Error → Error

pub data Result {ℓ} (A : Type ℓ) : Type ℓ where
  ok : A → Result A
  err : Error → Result A

-- Go on with the value, or return the error.
infixl 5 ◌>>=◌
abbrev pub ◌>>=◌ {ℓ κ} :
    {A : Type ℓ} {B : Type κ} (answer : Result A) (next : A → Result B) → Result B
err e >>= next = err e
ok value >>= next = next value

infixl 5 ◌>>◌
abbrev pub ◌>>◌ {κ} : {B : Type κ} (check : Result (Unit {0})) (rest : Result B) → Result B
check >> rest = check >>= (λ _. rest)

-- `if !test { return errors.New(text) }`.
abbrev pub require : Bool → String → Result (Unit {0})
require true text = ok tt
require false text = err (message text)

abbrev pub is_ok {ℓ} : {A : Type ℓ} → Result A → Bool
is_ok (ok _) = true
is_ok (err _) = false

-- `if err != nil { return fmt.Errorf("prefix: %w", err) }`.
abbrev pub wrap_error {ℓ} : {A : Type ℓ} → String → Result A → Result A
wrap_error text (ok a) = ok a
wrap_error text (err e) = err (wrapped text e)

-- `if err != nil { return errors.New(text) }`.
abbrev pub replace_error {ℓ} : {A : Type ℓ} → String → Result A → Result A
replace_error text (ok a) = ok a
replace_error text (err e) = err (message text)

-- A chain gives a value only if its first step gives one to go on with.
pub >>=-eq-ok {ℓ κ} :
    {A : Type ℓ} {B : Type κ} (answer : Result A) (next : A → Result B) {result : B}
    (h : (answer >>= next) ≡ ok result)
    → (value : A) × (answer ≡ ok value) × (next value ≡ ok result)
>>=-eq-ok (err e) next h = cc
>>=-eq-ok (ok value) next h = (value, refl, h)

-- `if test { return err }; rest` gives a value only if the test fails and the rest gives it.
pub refuse-eq-ok {ℓ} :
    {A : Type ℓ} (test : Bool) (e : Error) (rest : Result A) {a : A}
    → (if test then err e else rest) ≡ ok a
    → (test ≡ false) × (rest ≡ ok a)
refuse-eq-ok true e rest h = cc
refuse-eq-ok false e rest h = (refl, h)

pub >>=-refused {ℓ κ} :
    {A : Type ℓ} {B : Type κ} (answer : Result A) (next : A → Result B)
    → is_ok answer ≡ false
    → is_ok (answer >>= next) ≡ false
>>=-refused (err e) next h = refl
>>=-refused (ok value) next h = cc

pub Result-cases {ℓ} :
    {A : Type ℓ} (answer : Result A)
    → ((value : A) × (answer ≡ ok value)) ⊎ ((failure : Error) × (answer ≡ err failure))
Result-cases (err failure) = inr (failure, refl)
Result-cases (ok value) = inl (value, refl)

pub is_ok-eq_ok : {r : Result (Unit {0})} → is_ok r ≡ true → r ≡ ok tt
is_ok-eq_ok {r = ok tt} h = refl
is_ok-eq_ok {r = err e} h = cc
