-- ===== src/Dashboard/Handled.antt =====
-- A handler's early return: it has written a response, or goes on with a value.
use opensandbox_aks_governan.Base.{
  String, ℕ, Bool, true, false, ◌≡◌, refl, ap, Error, Result, ok, err,
}
use opensandbox_aks_governan.Facade.Lifecycle.{Response, reply}

pub data Handled {ℓ} (A : Type ℓ) : Type ℓ where
  refused : Response → Handled A
  passed : A → Handled A

infixl 5 ◌>>=◌
abbrev pub ◌>>=◌ {ℓ κ} :
    {A : Type ℓ} {B : Type κ} (step : Handled A) (next : A → Handled B) → Handled B
refused response >>= next = refused response
passed value >>= next = next value

infixl 5 ◌>>◌
abbrev pub ◌>>◌ {κ} : {B : Type κ} (step : Handled (Unit {0})) (rest : Handled B) → Handled B
step >> rest = step >>= (λ _. rest)

-- `if !test { http.Error(w, text, status); return }`.
abbrev pub demand : Bool → ℕ → String → Handled (Unit {0})
demand true status text = passed tt
demand false status text = refused (reply status text)

-- `if err != nil { ... return }`.
abbrev pub attempt {ℓ} : {A : Type ℓ} → (Error → Response) → Result A → Handled A
attempt refuse (ok value) = passed value
attempt refuse (err e) = refused (refuse e)

pub >>=-eq-passed {ℓ κ} :
    {A : Type ℓ} {B : Type κ} (step : Handled A) (next : A → Handled B) {result : B}
    (h : (step >>= next) ≡ passed result)
    → (value : A) × (step ≡ passed value) × (next value ≡ passed result)
>>=-eq-passed (refused response) next h = cc
>>=-eq-passed (passed value) next h = (value, refl, h)

pub demand-eq-passed {ℓ} :
    {A : Type ℓ} (test : Bool) (status : ℕ) (text : String) (rest : Handled A) {result : A}
    (h : (demand test status text >> rest) ≡ passed result)
    → (test ≡ true) × (rest ≡ passed result)
demand-eq-passed true status text rest h = (refl, h)
demand-eq-passed false status text rest h = cc

pub attempt-eq-passed {ℓ} :
    {A : Type ℓ} (refuse : Error → Response) (answer : Result A) {value : A}
    → attempt refuse answer ≡ passed value
    → answer ≡ ok value
attempt-eq-passed refuse (ok a) h = cc
attempt-eq-passed refuse (err e) h = cc

value_of {ℓ} : {A : Type ℓ} → A → Handled A → A
value_of fallback (refused response) = fallback
value_of fallback (passed value) = value

pub passed-injective {ℓ} : {A : Type ℓ} {a b : A} → passed a ≡ passed b → a ≡ b
unfolding value_of
passed-injective {a = a} h = ap (value_of a) h
