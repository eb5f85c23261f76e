-- ===== src/Examples/Jwt.antt =====
-- A concrete JWT library for the examples: it signs one set of claims under one key.
use opensandbox_aks_governan.Base.{
  ℕ, String, Bool, true, false, ◌&&◌, Option, none, some, List, [], ◌∷◌, ◌≡◌, refl, ap, subst, ◌-◌,
  ◌%◌, arith, ltb, leb, if◌then◌else◌, ◌==◌, string_eq, nat_beq, eq_iff, message, Result, ok, err,
  is_space, sym, ◌∙◌,
}
use opensandbox_aks_governan.Api.{second}
use opensandbox_aks_governan.Broker.Claims.{GrantClaims}
use opensandbox_aks_governan.Broker.Handlers.{Jwt, JwtLaws, IsCurrent}

abbrev pub granted : GrantClaims
granted = record {
  assignment_name = "assignment-a";
  assignment_uid = "uid-a";
  sandbox_id = "sandbox-a";
  pod_uid = "pod-a";
  capability_bundle_name = "bundle-a";
  capability_bundle_revision = "r1";
  task_id = "task-1";
  backend = "source-control";
  method = "GET";
  host = "github.com";
  path = "/org/repo";
  issuer = "broker";
  subject = "uid-a";
  audience = "upstream" ∷ [];
  expires_at = some 160000000000;
  issued_at = some 100000000000;
  not_before = some 100000000000;
  id = "grant-1";
}

abbrev pub key : String
key = "0123456789abcdef0123456789abcdef"

abbrev option_beq : Option ℕ → ℕ → Bool
option_beq none n = false
option_beq (some m) n = nat_beq m n

abbrev one_beq : List String → String → Bool
one_beq (a ∷ []) b = a == b
one_beq [] b = false
one_beq (_ ∷ _ ∷ _) b = false

option_beq-eq : (o : Option ℕ) (n : ℕ) → option_beq o n ≡ true → o ≡ some n
option_beq-eq none n h = absurd (cc)
option_beq-eq (some m) n h = ap some (ground (arith))

one_beq-eq : (l : List String) (b : String) → one_beq l b ≡ true → l ≡ b ∷ []
one_beq-eq [] b h = absurd (cc)
one_beq-eq (a ∷ []) b h = ap (λ s. s ∷ []) (ground (arith, eq_iff a b))
one_beq-eq (_ ∷ _ ∷ _) b h = absurd (cc)

unfoldable pub names_match : GrantClaims → Bool
names_match c =
    c.assignment_name == "assignment-a"
    && c.assignment_uid == "uid-a"
    && c.sandbox_id == "sandbox-a"
    && c.pod_uid == "pod-a"
    && c.capability_bundle_name == "bundle-a"
    && c.capability_bundle_revision == "r1"
    && c.task_id == "task-1"

unfoldable pub rest_match : GrantClaims → Bool
rest_match c =
    c.backend == "source-control"
    && c.method == "GET"
    && c.host == "github.com"
    && c.path == "/org/repo"
    && c.issuer == "broker"
    && c.subject == "uid-a"
    && c.id == "grant-1"
    && one_beq c.audience "upstream"
    && option_beq c.expires_at 160000000000
    && option_beq c.issued_at 100000000000
    && option_beq c.not_before 100000000000

names_match-eq :
    (c : GrantClaims)
    → names_match c ≡ true
    → (c.assignment_name ≡ "assignment-a")
      × (c.assignment_uid ≡ "uid-a")
      × (c.sandbox_id ≡ "sandbox-a")
      × (c.pod_uid ≡ "pod-a")
      × (c.capability_bundle_name ≡ "bundle-a")
      × (c.capability_bundle_revision ≡ "r1")
      × (c.task_id ≡ "task-1")
unfolding names_match
names_match-eq c h = ground (
  arith,
  eq_iff c.assignment_name "assignment-a",
  eq_iff c.assignment_uid "uid-a",
  eq_iff c.sandbox_id "sandbox-a",
  eq_iff c.pod_uid "pod-a",
  eq_iff c.capability_bundle_name "bundle-a",
  eq_iff c.capability_bundle_revision "r1",
  eq_iff c.task_id "task-1",
)

rest_match-eq :
    (c : GrantClaims)
    → rest_match c ≡ true
    → (c.backend ≡ "source-control")
      × (c.method ≡ "GET")
      × (c.host ≡ "github.com")
      × (c.path ≡ "/org/repo")
      × (c.issuer ≡ "broker")
      × (c.subject ≡ "uid-a")
      × (c.id ≡ "grant-1")
      × (one_beq c.audience "upstream" ≡ true)
      × (option_beq c.expires_at 160000000000 ≡ true)
      × (option_beq c.issued_at 100000000000 ≡ true)
      × (option_beq c.not_before 100000000000 ≡ true)
unfolding rest_match
rest_match-eq c h = ground (
  arith,
  eq_iff c.backend "source-control",
  eq_iff c.method "GET",
  eq_iff c.host "github.com",
  eq_iff c.path "/org/repo",
  eq_iff c.issuer "broker",
  eq_iff c.subject "uid-a",
  eq_iff c.id "grant-1",
)

matching : (c : GrantClaims) → names_match c ≡ true → rest_match c ≡ true → c ≡ granted
matching c h k =
    let (e1, e2, e3, e4, e5, e6, e7) = names_match-eq c h in
    let (f1, f2, f3, f4, f5, f6, f7, audience, expires, issued, begun) = rest_match-eq c k in
    let g1 = one_beq-eq c.audience "upstream" audience in
    let g2 = option_beq-eq c.expires_at 160000000000 expires in
    let g3 = option_beq-eq c.issued_at 100000000000 issued in
    let g4 = option_beq-eq c.not_before 100000000000 begun in cc

abbrev is_key : Result String → Bool
is_key (ok k) = k == key
is_key (err e) = false

is_key-eq : (answer : Result String) → is_key answer ≡ true → answer ≡ ok key
is_key-eq (ok k) h = ap ok (ground (arith, eq_iff k key))
is_key-eq (err e) h = absurd (cc)

-- The one credential is read under its key, for its audience and issuer, within its times.
abbrev readable : String → String → ℕ → (String → String → Result String) → Bool
readable audience issuer now key_of =
    is_key (key_of "HS256" "k1")
    && "upstream" == audience
    && "broker" == issuer
    && leb 100000000000 now
    && ltb now 160000000000

abbrev pub jwt : Jwt
jwt = record {
  numeric_date = λ t. t - t % second;
  algorithm = λ token. "HS256";
  key_id = λ token. "k1";
  signed_with = λ k token. k == key && token == "signed";
  sign = λ id k c.
      if id == "k1" && k == key && names_match c && rest_match c
      then ok "signed"
      else err (message "not signed");
  parse = λ audience issuer now key_of token.
      if token == "signed" && readable audience issuer now key_of
      then ok granted
      else err (message "not valid");
}

current :
    (audience issuer : String) (now : ℕ) (key_of : String → String → Result String)
    (c : GrantClaims)
    → granted ≡ c
    → readable audience issuer now key_of ≡ true
    → IsCurrent audience issuer now c
current audience issuer now key_of c e h = subst (IsCurrent audience issuer now) e (record {
  for_audience = ground (arith);
  by_issuer = ground (arith, eq_iff "broker" issuer);
  not_expired = λ t k. ground (arith);
  begun = λ t k. ground (arith);
})

readable_of :
    (audience issuer : String) (now : ℕ) (key_of : String → String → Result String)
    → key_of "HS256" "k1" ≡ ok key
    → IsCurrent audience issuer now granted
    → readable audience issuer now key_of ≡ true
readable_of audience issuer now key_of k i = ground (
  arith,
  k,
  i.for_audience,
  eq_iff "broker" issuer,
  i.by_issuer,
  eq_iff key key,
  i.not_expired 160000000000 refl,
  i.begun 100000000000 refl,
)

parse-inv :
    (audience issuer : String) (now : ℕ) (key_of : String → String → Result String) (token : String)
    (c : GrantClaims)
    → jwt.parse audience issuer now key_of token ≡ ok c
    → (granted ≡ c) × (readable audience issuer now key_of ≡ true)
parse-inv audience issuer now key_of token c h = (ground (arith), ground (arith))

sign-inv :
    (id k token : String) (c : GrantClaims)
    → jwt.sign id k c ≡ ok token
    → (id ≡ "k1") × (k ≡ key) × (names_match c ≡ true) × (rest_match c ≡ true) × (token ≡ "signed")
sign-inv id k token c h = ground (arith, eq_iff id "k1", eq_iff k key)

pub jwt_laws : JwtLaws jwt
unfolding is_space
jwt_laws = record {
  date_le = λ t. omega (arith);
  date_whole = λ t. omega (arith);
  parse_signed = λ audience issuer now key_of id k token c signed keyed whole i.
      let (e1, e2, e3, e4, e5) = sign-inv id k token c signed in
      let same = matching c e3 e4 in
      let known : key_of "HS256" "k1" ≡ ok key =
        subst (λ v. key_of "HS256" v ≡ ok key) e1 (keyed ∙ ap ok e2) in
      rw
        (
          e5,
          readable_of audience issuer now key_of known
              (subst (IsCurrent audience issuer now) same i),
        )
        (ap ok (sym same));
  parse_current = λ audience issuer now key_of token c h.
      let (e, good) = parse-inv audience issuer now key_of token c h in
      current audience issuer now key_of c e good;
  parse_keyed = λ audience issuer now key_of token c h.
      let (e, good) = parse-inv audience issuer now key_of token c h in
      (
        key,
        is_key-eq (key_of "HS256" "k1") (ground (arith)),
        ground (arith, eq_iff key key, eq_iff token "signed"),
      );
  compact =
      λ id k token c h. let (e1, e2, e3, e4, e5) = sign-inv id k token c h in rw e5 (refl, refl);
}
