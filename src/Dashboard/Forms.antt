-- ===== src/Dashboard/Forms.antt =====
-- cmd/aks-sandbox-dashboard/governance.go: `parseMutation` and `parseDurationMinutes`. The form that
-- `ParseForm` makes out of a body within its bound is part of the request; the message on a missing field leaves out its name.
pub mod Laws
pub mod Mutations
use Prim.Native.String.{[], ◌∷◌}
use opensandbox_aks_governan.Base.{
  ℕ, ◌+◌, ◌*◌, ◌-◌, ◌^◌, ℤ, pos, negsuc, lt_int, times64, ltb, leb, Char, code, String, Bool, true,
  false, not, ◌&&◌, ◌||◌, Option, none, some, List, if◌then◌else◌, ◌==◌, string_eq, is_empty,
  trim_space, map_chars, split, find_key, contains, any, nat_eq, Error, message, Result, ok, err,
}
use opensandbox_aks_governan.Api.{minute}
use opensandbox_aks_governan.Externals.{Externals, is_digit}
use opensandbox_aks_governan.Governance.Request.{
  minimum_requested_duration, maximum_requested_duration,
}
use opensandbox_aks_governan.Facade.Lifecycle.{reply}
use opensandbox_aks_governan.Dashboard.Handled.{
  Handled, refused, passed, demand, ◌>>=◌, ◌>>◌, attempt,
}

-- A request that changes something: its headers, its form, and the CSRF token of its session.
pub record Mutation : Type 0 where
  pub raw_query : String
  pub origin : String
  pub fetch_site : String
  pub content_type : String
  pub post_form : Result (List (String × List String))
  pub csrf_token : Option String

abbrev pub Form : Type 0
Form = List (String × List String)

abbrev pub first_value : Option (List String) → String
first_value none = ""
first_value (some List.[]) = ""
first_value (some (List.◌∷◌ v _)) = v

-- `form.Get(name)`.
abbrev pub form_value : String → Form → String
form_value name form = first_value (find_key name form)

abbrev pub is_single : List String → Bool
is_single List.[] = false
is_single (List.◌∷◌ _ List.[]) = true
is_single (List.◌∷◌ _ (List.◌∷◌ _ _)) = false

abbrev pub single_field : Form → String → Bool
single_field form name = elim (find_key name form) [ none ↦ false | some values ↦ is_single values ]

abbrev pub all_single : Form → List String → Bool
all_single form List.[] = true
all_single form (List.◌∷◌ name rest) = single_field form name && all_single form rest

-- The CSRF token of the context, which is not empty, is the one of the form.
abbrev pub csrf_matches : Option String → String → Bool
csrf_matches none provided = false
csrf_matches (some expected) provided = not (is_empty expected) && expected == provided

abbrev pub media_type : List String → String
media_type List.[] = ""
media_type (List.◌∷◌ first _) = first

module _ (x : Externals) (equal_fold : String → String → Bool) (public_origin : String) where
  abbrev pub content_type : Mutation → String
  content_type m = map_chars x.to_lower (trim_space (media_type (split b';' m.content_type)))

  unfoldable pub parse_mutation : List String → Mutation → Handled Form
  parse_mutation allowed m = do
    demand (is_empty m.raw_query) 400 "Query parameters are not accepted"
    demand (m.origin == public_origin && not (equal_fold m.fetch_site "cross-site")) 403
        "Cross-site request rejected"
    demand (content_type m == "application/x-www-form-urlencoded") 415 "Unsupported content type"
    form ← attempt (λ e. reply 400 "Invalid form body") m.post_form
    demand (not (any (λ f. not (contains allowed f.0) || not (is_single f.1)) form)) 400
        "Invalid form fields"
    demand (all_single form allowed) 400 "Missing form field"
    demand (csrf_matches m.csrf_token (form_value "csrf" form)) 403 "Invalid CSRF token"
    passed form

-- `strconv.Atoi` on a 64-bit machine: digits behind an optional sign, in range.
abbrev pub digits_from : ℕ → String → Option ℕ
digits_from n [] = some n
digits_from n (c ∷ s) =
    let rest = digits_from (n * 10 + (code c - b'0')) s in if is_digit (code c) then rest else none

abbrev pub digits : String → Option ℕ
digits [] = none
digits (c ∷ s) = digits_from 0 (c ∷ s)

abbrev pub positive : Option ℕ → Option ℤ
positive none = none
positive (some n) = if ltb n (2 ^ 63) then some (pos n) else none

abbrev pub negative : Option ℕ → Option ℤ
negative none = none
negative (some n) =
    if n == 0 then some (pos 0) else if leb n (2 ^ 63) then some (negsuc (n - 1)) else none

abbrev pub signed : ℕ → String → String → Option ℤ
signed sign behind whole =
    if sign == b'-'
    then negative (digits behind)
    else if sign == b'+'
    then positive (digits behind)
    else positive (digits whole)

unfoldable pub atoi : String → Option ℤ
atoi [] = none
atoi (c ∷ s) = signed (code c) s (c ∷ s)

-- The bounds of a duration; the product of the minutes is taken in int64.
abbrev pub duration_allowed : ℤ → Bool
duration_allowed d =
    not (lt_int d (pos minimum_requested_duration) || lt_int (pos maximum_requested_duration) d)

abbrev pub duration_of : Option ℤ → Result ℤ
duration_of none = err (message "duration must be a whole number of minutes")
duration_of (some minutes) =
    if duration_allowed (times64 minutes minute)
    then ok (times64 minutes minute)
    else err (message "duration must be between 1 and 480 minutes")

unfoldable pub parse_duration_minutes : String → Result ℤ
parse_duration_minutes value = duration_of (atoi value)
