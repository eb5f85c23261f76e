-- ===== src/Examples/Sample.antt =====
-- A concrete version of the code that the repository calls, for the examples: addresses are texts,
-- and case mapping knows the letters that the examples use.
use Prim.Native.Char.{char}
use Prim.Native.String.{len}
use opensandbox_aks_governan.Base.{
  Char, code, String, Bool, true, false, not, ◌&&◌, ◌||◌, Option, none, some, ◌≡◌, ◌⊎◌, inl, inr,
  refl, arith, leb, nat_beq, if◌then◌else◌, all_chars, has_char, is_empty, ◌==◌, string_eq,
  Bool-cases, subst, sym, ap, ◌∙◌,
}
use opensandbox_aks_governan.Externals.{
  Externals, Laws, IsDotted, IsColoned, is_digit, is_hex, ends_in, starts_in,
}

abbrev sample_upper : Char → Char
sample_upper c =
    if nat_beq (code c) b'g'
    then char b'G' tt
    else if nat_beq (code c) b'e'
    then char b'E' tt
    else if nat_beq (code c) b't'
    then char b'T' tt
    else c

abbrev sample_lower : Char → Char
sample_lower c = if nat_beq (code c) b'E' then char b'e' tt else c

abbrev looks_dotted : String → Bool
looks_dotted s =
    all_chars (λ c. is_digit c || nat_beq c b'.') s && ends_in is_digit s && leb (len s) 15

abbrev looks_coloned : String → Bool
looks_coloned s = starts_in (λ c. is_hex c || nat_beq c b':') s && has_char b':' s

abbrev sample_parse : String → Option String
sample_parse s = if looks_dotted s || looks_coloned s then some s else none

abbrev pub sample : Externals
sample = record {
  to_upper = sample_upper;
  to_lower = sample_lower;
  Addr = String;
  parse_addr = sample_parse;
  unmap = λ a. a;
  addr_text = λ a. a;
  addr_beq = λ a b. a == b;
  uuid_parses = λ s. leb 36 (len s) && leb (len s) 36;
  is_dns1123_subdomain = λ s. not (is_empty s);
}

sample_parse-same : (s a : String) → sample_parse s ≡ some a → s ≡ a
sample_parse-same s a h = ground arith

sample_text_form : (s a : String) → sample_parse s ≡ some a → IsColoned a ⊎ IsDotted a
sample_text_form s a h =
    subst (λ t. IsColoned t ⊎ IsDotted t) (sample_parse-same s a h)
      (form (Bool-cases (looks_dotted s)) (Bool-cases (looks_coloned s)))
  where
    form :
        (looks_dotted s ≡ true) ⊎ (looks_dotted s ≡ false)
        → (looks_coloned s ≡ true) ⊎ (looks_coloned s ≡ false)
        → IsColoned s ⊎ IsDotted s
    form (inl dotted) k =
        inr (record { digits = ground arith; last_digit = ground arith; short = ground arith })
    form (inr other) (inl coloned) = inl (record { first = ground arith; colon = ground arith })
    form (inr other) (inr plain) = absurd (cc (rw (other, plain) at h))

pub sample_laws : Laws sample
sample_laws = record {
  upper_fixed = λ c h k. ground arith;
  lower_fixed = λ c h k. ground arith;
  reparsed = λ s a h. ap sample_parse (sym (sample_parse-same s a h)) ∙ h;
  unmap_idempotent = λ a. refl;
  text_form = sample_text_form;
}
