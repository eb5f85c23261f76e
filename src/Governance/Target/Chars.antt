-- ===== src/Governance/Target/Chars.antt =====
-- Hosts and labels by their characters: what the tests of `NormalizeHost` say of a text.
use Prim.Native.String.{len, [], ◌∷◌}
use mathlib.Core.List.{[], ◌∷◌}
use opensandbox_aks_governan.Base.{
  ℕ, code, Char, String, Bool, true, false, not, ◌||◌, none, ◌≡◌, ◌≤◌, refl, arith, nat_beq,
  is_empty, all_chars, any_char, has_char, break_at, split, split_from, is_space, trim_space,
  trim_space_fixed, all_chars_mono, any_char_of_all_chars, ok, err, message,
}
use opensandbox_aks_governan.Externals.{is_hex, ends_in, starts_in}
use opensandbox_aks_governan.Governance.Target.{
  label_char, host_label, bracket, bad_authority_char, splits_host_port, strip_brackets, all_labels,
}

abbrev pub host_char : ℕ → Bool
host_char c = label_char c || nat_beq c b'.'

abbrev pub is_dot : ℕ → Bool
is_dot c = nat_beq c b'.'

pub host_label-chars : (s : String) → host_label s ≡ true → all_chars label_char s ≡ true
unfolding host_label
host_label-chars [] h = refl
host_label-chars (c ∷ []) h = ground arith
host_label-chars (c ∷ d ∷ s) h = ground arith

-- A text whose dot-separated parts are labels, but perhaps the first, is written in host characters.
pub labels-chars :
    (s : String)
    → all_chars label_char (split_from b'.' s).0 ≡ true
    → all_labels (split_from b'.' s).1 ≡ true
    → all_chars host_char s ≡ true
labels-chars [] h k = refl
labels-chars (c ∷ s) h k = ground (arith, labels-chars s, host_label-chars (split_from b'.' s).0)

-- Nor does such a text end with a dot.
pub labels-no_dot :
    (s : String) → all_labels (split_from b'.' s).1 ≡ true → ends_in is_dot s ≡ false
unfolding host_label
labels-no_dot [] k = refl
labels-no_dot (c ∷ []) k = ground arith
labels-no_dot (c ∷ d ∷ s) k = labels-no_dot (d ∷ s) (ground arith)

-- A host as `NormalizeHost` leaves it, an IPv6 address apart.
pub record IsHost (s : String) : Type 0 where
  pub chars : all_chars host_char s ≡ true
  pub filled : is_empty s ≡ false
  pub no_dot : ends_in is_dot s ≡ false
  pub short : len s ≤ 253

module _ (s : String) (h : IsHost s) where
  pub IsHost-trim_space : trim_space s ≡ s
  unfolding is_space
  IsHost-trim_space =
      trim_space_fixed s
        (all_chars_mono host_char (λ c. not (is_space c)) s (λ c e. ground arith) h.chars)

  pub IsHost-bad_char : any_char bad_authority_char s ≡ false
  IsHost-bad_char =
      any_char_of_all_chars host_char bad_authority_char s (λ c e. ground arith) h.chars

  pub IsHost-has_char : (n : ℕ) → host_char n ≡ false → has_char n s ≡ false
  IsHost-has_char n e =
      any_char_of_all_chars host_char (λ c. nat_beq c n) s (λ c k. ground arith) h.chars

pub break_at-none : (n : ℕ) (s : String) → has_char n s ≡ false → break_at n s ≡ none
break_at-none n [] h = refl
break_at-none n (c ∷ s) h = ground (arith, break_at-none n s)

-- Neither a port nor brackets are found in a text without colon and bracket.
pub splits_host_port-plain :
    (s : String)
    → has_char b':' s ≡ false
    → starts_in (λ c. nat_beq c bracket) s ≡ false
    → splits_host_port s ≡ false
unfolding splits_host_port
splits_host_port-plain [] h k = refl
splits_host_port-plain (c ∷ s) h k = rw (k, break_at-none b':' (c ∷ s) h)

pub strip_brackets-plain :
    (s : String)
    → has_char b':' s ≡ false
    → starts_in (λ c. nat_beq c bracket) s ≡ false
    → strip_brackets s ≡ ok s
unfolding strip_brackets
strip_brackets-plain [] h k = refl
strip_brackets-plain (c ∷ s) h k = rw (k, h)

pub starts_in_of_has_char :
    (n : ℕ) (s : String) → has_char n s ≡ false → starts_in (λ c. nat_beq c n) s ≡ false
starts_in_of_has_char n [] h = refl
starts_in_of_has_char n (c ∷ s) h = ground arith

pub ends_in-filled : (p : ℕ → Bool) (s : String) → ends_in p s ≡ true → is_empty s ≡ false
ends_in-filled p [] h = cc
ends_in-filled p (c ∷ s) h = refl

pub ends_in-other :
    (p q : ℕ → Bool) (s : String)
    → ((c : ℕ) → p c ≡ true → q c ≡ false)
    → ends_in p s ≡ true
    → ends_in q s ≡ false
ends_in-other p q [] h e = refl
ends_in-other p q (c ∷ []) h e = h (code c) e
ends_in-other p q (c ∷ d ∷ s) h e = ends_in-other p q (d ∷ s) h e

pub labels-IsHost :
    (s : String) → all_labels (split b'.' s) ≡ true → is_empty s ≡ false → len s ≤ 253 → IsHost s
labels-IsHost s good filled short =
    let first : host_label (split_from b'.' s).0 ≡ true = ground arith in
    let rest : all_labels (split_from b'.' s).1 ≡ true = ground arith in
    record {
      chars = labels-chars s (host_label-chars (split_from b'.' s).0 first) rest;
      filled = filled;
      no_dot = labels-no_dot s rest;
      short = short;
    }

pub colon_visible : (d : ℕ) → is_space d ≡ true → nat_beq d b':' ≡ false
unfolding is_space
colon_visible d e = ground arith

pub first_visible : (d : ℕ) → (is_hex d || nat_beq d b':') ≡ true → is_space d ≡ false
unfolding is_space
first_visible d e = ground arith

pub strip_brackets-coloned :
    (c : Char) (s : String)
    → (is_hex (code c) || nat_beq (code c) b':') ≡ true
    → has_char b':' (c ∷ s) ≡ true
    → strip_brackets (c ∷ s) ≡ err (message "host is invalid")
unfolding strip_brackets
strip_brackets-coloned c s first colon =
    let plain : nat_beq (code c) bracket ≡ false = ground arith in rw (plain, colon)
