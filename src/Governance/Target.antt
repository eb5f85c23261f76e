-- ===== src/Governance/Target.antt =====
-- internal/assignment/governance/validation.go: `Target`, `NormalizeTarget`, `NormalizeHost` and
-- `NormalizePath`. Regular expressions are tests on the characters.
pub mod Chars
pub mod Hosts
pub mod Canonical
use Prim.Native.String.{len, count, [], ◌∷◌}
use opensandbox_aks_governan.Base.{
  ℕ, code, String, List, Bool, true, false, not, ◌&&◌, ◌||◌, Option, none, some, leb, ltb, nat_beq,
  if◌then◌else◌, Eq, ◌==◌, string_eq, is_empty, all_chars, any_char, has_char, map_chars, break_at,
  split, trim_space, Result, ok, err, message, ◌>>=◌, ◌>>◌, require,
}
use mathlib.Core.List.{[], ◌∷◌}
use opensandbox_aks_governan.Externals.{Externals, is_digit, is_upper, is_lower, ends_in}

pub record Target : Type 0 where
  pub backend : String
  pub method : String
  pub host : String
  pub path : String

-- `[a-z0-9]`, `[-a-z0-9]` and `[A-Z0-9_-]`.
abbrev pub is_alnum : ℕ → Bool
is_alnum c = is_lower c || is_digit c

abbrev pub label_char : ℕ → Bool
label_char c = nat_beq c b'-' || is_alnum c

abbrev pub method_char : ℕ → Bool
method_char c = is_upper c || is_digit c || nat_beq c b'_' || nat_beq c b'-'

abbrev label_rest : String → Bool
label_rest [] = true
label_rest (c ∷ s) =
    all_chars label_char (c ∷ s) && ends_in is_alnum (c ∷ s) && leb (count (c ∷ s)) 62

-- `^[a-z0-9](?:[-a-z0-9]{0,61}[a-z0-9])?$`, the pattern of a backend and of a host label.
unfoldable pub host_label : String → Bool
host_label [] = false
host_label (c ∷ s) = is_alnum (code c) && label_rest s

-- `^[A-Z][A-Z0-9_-]{0,31}$`.
unfoldable pub method_pattern : String → Bool
method_pattern [] = false
method_pattern (c ∷ s) = is_upper (code c) && all_chars method_char s && leb (count s) 31

-- The characters that no authority may hold: `/?#@\`, carriage return, newline, tab and space.
abbrev pub bad_authority_char : ℕ → Bool
bad_authority_char c =
    nat_beq c b'/'
    || nat_beq c b'?'
    || nat_beq c b'#'
    || nat_beq c b'@'
    || nat_beq c 0x5c
    || nat_beq c 0x0d
    || nat_beq c 0x0a
    || nat_beq c 0x09
    || nat_beq c 0x20

abbrev pub bracket : ℕ
bracket = 0x5b

abbrev pub closing : ℕ
closing = 0x5d

abbrev port_part : String → String → Bool
port_part inside [] = false
port_part inside (c ∷ port) =
    nat_beq (code c) b':'
    && not (has_char b':' port)
    && not (has_char bracket inside)
    && not (has_char bracket port)
    && not (has_char closing port)

-- `net.SplitHostPort` returns no error: one colon before the port, brackets only around a host
-- that begins the text.
unfoldable pub splits_host_port : String → Bool
splits_host_port [] = false
splits_host_port (c ∷ s) =
    if nat_beq (code c) bracket
    then elim (break_at closing s) [ none ↦ false | some (inside, rest) ↦ port_part inside rest ]
    else elim (break_at b':' (c ∷ s)) [
      | none ↦ false
      | some (name, port) ↦
          not (has_char b':' port)
          && not (has_char bracket (c ∷ s))
          && not (has_char closing (c ∷ s))
    ]

-- The text without its last character, and `strings.TrimSuffix(s, ".")`.
abbrev pub drop_last : String → String
drop_last [] = []
drop_last (c ∷ []) = []
drop_last (c ∷ d ∷ s) = c ∷ drop_last (d ∷ s)

unfoldable pub trim_dot : String → String
trim_dot s = if ends_in (λ c. nat_beq c b'.') s then drop_last s else s

-- The `switch` on brackets and colons.
unfoldable pub strip_brackets : String → Result String
strip_brackets [] = ok []
strip_brackets (c ∷ s) =
    if nat_beq (code c) bracket && ends_in (λ d. nat_beq d closing) s
    then ok (drop_last s)
    else if has_char b':' (c ∷ s)
    then err (message "host is invalid")
    else ok (c ∷ s)

abbrev pub starts_with_slash : String → Bool
starts_with_slash [] = false
starts_with_slash (c ∷ s) = nat_beq (code c) b'/'

abbrev pub all_labels : List String → Bool
all_labels [] = true
all_labels (l ∷ ls) = host_label l && all_labels ls

module _ (x : Externals) where
  -- The end of `NormalizeHost`: an address in its canonical text, or dotted labels.
  unfoldable pub address_or_labels : String → Result String
  address_or_labels host = elim (x.parse_addr host) [
    | some address ↦ ok (x.addr_text (x.unmap address))
    | none ↦ if all_labels (split b'.' host) then ok host else err (message "host is invalid")
  ]

  -- Lower case, one trailing dot removed, and the bounds on the length.
  unfoldable pub host_name : String → Result String
  host_name host =
      let name = trim_dot (map_chars x.to_lower host) in
      if is_empty name || ltb 253 (len name)
      then err (message "host is invalid")
      else address_or_labels name

  unfoldable pub normalize_host : String → Result String
  normalize_host text =
      let authority = trim_space text in
      if is_empty authority || ltb 512 (len authority) || any_char bad_authority_char authority
      then err (message "host is invalid")
      else if splits_host_port authority
      then err (message "explicit host ports are not supported")
      else do host ← strip_brackets authority; host_name host

  unfoldable pub normalize_path : String → Result String
  normalize_path text =
      if any_char (λ c. nat_beq c b'?' || nat_beq c b'#') text
      then err (message "path must not contain query or fragment")
      else let value = if is_empty text then "/" else text in
        if not (value == trim_space value)
          || not (starts_with_slash value)
          || ltb 2048 (len value)
          || any_char (λ c. nat_beq c 0x0d || nat_beq c 0x0a || nat_beq c 0) value
        then err (message "path is invalid")
        else ok value

  unfoldable pub normalize_target : String → String → String → String → Result Target
  normalize_target backend method host path = do
    let backend' = trim_space backend
    require (host_label backend') "backend must be a lowercase DNS label"
    let method' = map_chars x.to_upper (trim_space method)
    require (method_pattern method') "method is invalid"
    host' ← normalize_host host
    path' ← normalize_path path
    ok (record { backend = backend'; method = method'; host = host'; path = path' })
