-- ===== src/Base/Text.antt =====
-- Tests on texts, by code point. A Go string is modelled as a valid UTF-8 text; `len` is its
-- number of bytes.
use Prim.Native.Nat.{ℕ}
use Prim.Native.Char.{Char, code}
use Prim.Native.String.{String, [], ◌∷◌}
use mathlib.Core.Path.{◌≡◌, refl, sym, ap, ◌∙◌}
use mathlib.Core.Bool.{Bool, true, false, not, ◌&&◌, ◌||◌}
use mathlib.Core.Logic.{inl, inr}
use mathlib.Core.List.{List, [], ◌∷◌}
use mathlib.Core.Option.{Option, none, some}
use native.Mathlib.Omega.{arith}
use opensandbox_aks_governan.Base.Tests.{leb, nat_beq, if◌then◌else◌, Bool-cases}

abbrev pub is_empty : String → Bool
is_empty [] = true
is_empty (_ ∷ _) = false

-- Every character passes a test; some character does.
abbrev pub all_chars : (ℕ → Bool) → String → Bool
all_chars p [] = true
all_chars p (c ∷ s) = p (code c) && all_chars p s

abbrev pub any_char : (ℕ → Bool) → String → Bool
any_char p [] = false
any_char p (c ∷ s) = p (code c) || any_char p s

-- Two texts whose characters have the same images.
abbrev pub equal_by : (ℕ → ℕ) → String → String → Bool
equal_by f [] [] = true
equal_by f [] (_ ∷ _) = false
equal_by f (_ ∷ _) [] = false
equal_by f (c ∷ s) (d ∷ t) = nat_beq (f (code c)) (f (code d)) && equal_by f s t

-- `strings.Contains(s, "c")` for a one-character text.
abbrev pub has_char : ℕ → String → Bool
has_char n = any_char (λ c. nat_beq c n)

abbrev pub map_chars : (Char → Char) → String → String
map_chars f [] = []
map_chars f (c ∷ s) = f c ∷ map_chars f s

-- What stands before and after the first occurrence of a character.
abbrev pub break_at : ℕ → String → Option (String × String)
break_at n [] = none
break_at n (c ∷ s) =
    let rest = break_at n s in
    if nat_beq (code c) n
    then some ([], s)
    else elim rest [ none ↦ none | some (a, b) ↦ some (c ∷ a, b) ]

-- `strings.Split(s, "c")` for a one-character separator: never empty.
abbrev pub split_from : ℕ → String → String × List String
split_from n [] = ([], [])
split_from n (c ∷ s) =
    let (first, rest) = split_from n s in
    if nat_beq (code c) n then ([], first ∷ rest) else (c ∷ first, rest)

abbrev pub split : ℕ → String → List String
split n s = let (first, rest) = split_from n s in first ∷ rest

-- One text behind another, by recursion, so that it computes behind a literal.
abbrev pub join_text : String → String → String
join_text [] t = t
join_text (c ∷ s) t = c ∷ join_text s t

-- `strings.CutPrefix`.
abbrev pub cut_prefix : String → String → Option String
cut_prefix [] s = some s
cut_prefix (_ ∷ _) [] = none
cut_prefix (p ∷ ps) (c ∷ s) =
    let rest = cut_prefix ps s in if nat_beq (code p) (code c) then rest else none

-- `unicode.IsSpace` and `unicode.IsControl`.
unfoldable pub is_space : ℕ → Bool
is_space c =
    nat_beq c 0x20
    || (leb 0x09 c && leb c 0x0d)
    || nat_beq c 0x85
    || nat_beq c 0xa0
    || nat_beq c 0x1680
    || (leb 0x2000 c && leb c 0x200a)
    || nat_beq c 0x2028
    || nat_beq c 0x2029
    || nat_beq c 0x202f
    || nat_beq c 0x205f
    || nat_beq c 0x3000

unfoldable pub is_control : ℕ → Bool
is_control c = leb c 0x1f || (leb 0x7f c && leb c 0x9f)

-- `strings.TrimSpace`.
pub trim_left : String → String
trim_left [] = []
trim_left (c ∷ s) = let rest = trim_left s in if is_space (code c) then rest else c ∷ s

abbrev join_trimmed : Char → String → String
join_trimmed c [] = if is_space (code c) then [] else c ∷ []
join_trimmed c (d ∷ s) = c ∷ d ∷ s

pub trim_right : String → String
trim_right [] = []
trim_right (c ∷ s) = join_trimmed c (trim_right s)

unfoldable pub trim_space : String → String
unfolding trim_left trim_right is_space
trim_space s = trim_right (trim_left s)

-- Trimming keeps a property of all characters.
module _ (p : ℕ → Bool) where
  all_chars-trim_left : (s : String) → all_chars p s ≡ true → all_chars p (trim_left s) ≡ true
  unfolding trim_left
  all_chars-trim_left [] h = refl
  all_chars-trim_left (c ∷ s) h = ground (arith, all_chars-trim_left s)

  all_chars-join_trimmed :
      (c : Char) (t : String)
      → p (code c) ≡ true
      → all_chars p t ≡ true
      → all_chars p (join_trimmed c t) ≡ true
  all_chars-join_trimmed c [] h k = elim (Bool-cases (is_space (code c))) [
    | inl blank ↦ rw blank refl
    | inr other ↦ rw (other, h) refl
  ]
  all_chars-join_trimmed c (d ∷ t) h k = ground (arith)

  all_chars-trim_right : (s : String) → all_chars p s ≡ true → all_chars p (trim_right s) ≡ true
  unfolding trim_right
  all_chars-trim_right [] h = refl
  all_chars-trim_right (c ∷ s) h =
      all_chars-join_trimmed c (trim_right s) (ground (arith))
        (all_chars-trim_right s (ground (arith)))

  pub all_chars-trim_space : (s : String) → all_chars p s ≡ true → all_chars p (trim_space s) ≡ true
  unfolding trim_space
  all_chars-trim_space s h = all_chars-trim_right (trim_left s) (all_chars-trim_left s h)

pub all_chars_mono :
    (p q : ℕ → Bool) (s : String)
    → ((c : ℕ) → p c ≡ true → q c ≡ true)
    → all_chars p s ≡ true
    → all_chars q s ≡ true
all_chars_mono p q [] h e = refl
all_chars_mono p q (c ∷ s) h e = ground (arith, h (code c), all_chars_mono p q s h)

pub any_char_of_all_chars :
    (p q : ℕ → Bool) (s : String)
    → ((c : ℕ) → p c ≡ true → q c ≡ false)
    → all_chars p s ≡ true
    → any_char q s ≡ false
any_char_of_all_chars p q [] h e = refl
any_char_of_all_chars p q (c ∷ s) h e = ground (arith, h (code c), any_char_of_all_chars p q s h)

pub map_chars_fixed :
    (f : Char → Char) (p : ℕ → Bool) (s : String)
    → ((c : Char) → p (code c) ≡ true → f c ≡ c)
    → all_chars p s ≡ true
    → map_chars f s ≡ s
map_chars_fixed f p [] h e = refl
map_chars_fixed f p (c ∷ s) h e = ground (arith, h c, map_chars_fixed f p s h)

trim_right_fixed : (s : String) → all_chars (λ c. not (is_space c)) s ≡ true → trim_right s ≡ s
unfolding trim_right
trim_right_fixed [] h = refl
trim_right_fixed (c ∷ []) h = ground arith
trim_right_fixed (c ∷ d ∷ s) h = rw (trim_right_fixed (d ∷ s) (ground arith), join_trimmed)

-- A text that does not begin with white space is not trimmed on the left.
pub trim_left_fixed :
    (c : Char) (s : String) → is_space (code c) ≡ false → trim_left (c ∷ s) ≡ c ∷ s
unfolding trim_left
trim_left_fixed c s h = rw h

-- Trimming leaves alone a text without white space.
pub trim_space_fixed : (s : String) → all_chars (λ c. not (is_space c)) s ≡ true → trim_space s ≡ s
unfolding trim_space trim_left trim_right
trim_space_fixed [] h = refl
trim_space_fixed (c ∷ s) h =
    ap trim_right (trim_left_fixed c s (ground arith)) ∙ trim_right_fixed (c ∷ s) h

-- What trimming on the right keeps: the first character that is no white space, and every
-- character of a kind that is no white space.
pub any_char-trim_right :
    (p : ℕ → Bool) (s : String)
    → ((c : ℕ) → is_space c ≡ true → p c ≡ false)
    → any_char p (trim_right s) ≡ any_char p s
unfolding trim_right
any_char-trim_right p [] h = refl
any_char-trim_right p (c ∷ s) h =
    any_char-join_trimmed c (trim_right s) ∙ ap (λ b. p (code c) || b) (any_char-trim_right p s h)
  where
    any_char-join_trimmed :
        (c : Char) (t : String) → any_char p (join_trimmed c t) ≡ (p (code c) || any_char p t)
    any_char-join_trimmed c [] = elim (Bool-cases (is_space (code c))) [
      | inl space ↦ rw space (rw (h (code c) space))
      | inr other ↦ rw other
    ]
    any_char-join_trimmed c (d ∷ t) = refl

pub trim_right-cons :
    (c : Char) (s : String)
    → is_space (code c) ≡ false
    → (t : String) × (trim_right (c ∷ s) ≡ c ∷ t)
unfolding trim_right
trim_right-cons c s h = with_rest (trim_right s)
  where
    with_rest : (r : String) → (t : String) × (join_trimmed c r ≡ c ∷ t)
    with_rest [] = ([], rw h)
    with_rest (d ∷ r) = (d ∷ r, refl)

-- A text that begins with no white space keeps its first character when it is trimmed, and every
-- character of a kind that is no white space.
pub trim_space-cons :
    (p : ℕ → Bool) (c : Char) (s : String)
    → is_space (code c) ≡ false
    → ((d : ℕ) → is_space d ≡ true → p d ≡ false)
    → (t : String) × (trim_space (c ∷ s) ≡ c ∷ t) × (any_char p (c ∷ t) ≡ any_char p (c ∷ s))
unfolding trim_space trim_left trim_right
trim_space-cons p c s h k =
    let (t, e) = trim_right-cons c s h in
    let whole : trim_space (c ∷ s) ≡ c ∷ t = ap trim_right (trim_left_fixed c s h) ∙ e in
    (t, whole, ap (any_char p) (sym e) ∙ any_char-trim_right p (c ∷ s) k)

trim_right_behind :
    (d c : Char) (s : String) → trim_right (c ∷ s) ≡ c ∷ s → trim_right (d ∷ c ∷ s) ≡ d ∷ c ∷ s
unfolding trim_right
trim_right_behind d c s h = ap (join_trimmed d) h

-- A text without white space stays whole behind a word and a space.
pub trim_space-bearer :
    (c : Char) (s : String)
    → all_chars (λ c. not (is_space c)) (c ∷ s) ≡ true
    → trim_space (join_text "Bearer " (c ∷ s)) ≡ join_text "Bearer " (c ∷ s)
unfolding trim_space trim_left is_space
trim_space-bearer c s h = trim_right_behind _ _ _ (
    trim_right_behind _ _ _ (
      trim_right_behind _ _ _ (
        trim_right_behind _ _ _ (
          trim_right_behind _ _ _
            (trim_right_behind _ _ _ (trim_right_behind _ _ _ (trim_right_fixed (c ∷ s) h)))))))
