-- ===== src/Externals.antt =====
-- Code that the repository calls and does not contain, as parameters: Unicode's case tables,
-- net/netip, the UUID parser, Kubernetes' name validation. What the proofs rely on is in `Laws`.
use opensandbox_aks_governan.Base.{
  ℕ, Char, code, String, Bool, true, false, Option, some, ◌≡◌, ◌⊎◌, ◌≤◌, ◌<◌, ◌&&◌, ◌||◌, leb,
  nat_beq, all_chars, has_char,
}
use Prim.Native.String.{len}

pub record Externals : Type 1 where
  -- `unicode.ToUpper` and `unicode.ToLower`
  pub to_upper : Char → Char
  pub to_lower : Char → Char
  -- `netip.Addr`, `netip.ParseAddr`, `Addr.Unmap`, `Addr.String`, and `==` on addresses
  pub Addr : Type 0
  pub parse_addr : String → Option Addr
  pub unmap : Addr → Addr
  pub addr_text : Addr → String
  pub addr_beq : Addr → Addr → Bool
  -- `uuid.Parse` returns no error
  pub uuid_parses : String → Bool
  -- `validation.IsDNS1123Subdomain` returns no complaint
  pub is_dns1123_subdomain : String → Bool

abbrev pub is_digit : ℕ → Bool
is_digit c = leb b'0' c && leb c b'9'

abbrev pub is_upper : ℕ → Bool
is_upper c = leb b'A' c && leb c b'Z'

abbrev pub is_lower : ℕ → Bool
is_lower c = leb b'a' c && leb c b'z'

-- The last character passes a test.
abbrev pub ends_in : (ℕ → Bool) → String → Bool
ends_in p String.[] = false
ends_in p (String.◌∷◌ c String.[]) = p (code c)
ends_in p (String.◌∷◌ c (String.◌∷◌ d s)) = ends_in p (String.◌∷◌ d s)

-- The text form of an IPv4 address: digits and dots, a digit last, at most 15 bytes.
pub record IsDotted (s : String) : Type 0 where
  pub digits : all_chars (λ c. is_digit c || nat_beq c b'.') s ≡ true
  pub last_digit : ends_in is_digit s ≡ true
  pub short : len s ≤ 15

-- The text form of an IPv6 address: a hexadecimal digit or a colon first, and a colon in it.
abbrev pub is_hex : ℕ → Bool
is_hex c = is_digit c || (leb b'a' c && leb c b'f')

abbrev pub starts_in : (ℕ → Bool) → String → Bool
starts_in p String.[] = false
starts_in p (String.◌∷◌ c s) = p (code c)

pub record IsColoned (s : String) : Type 0 where
  pub first : starts_in (λ c. is_hex c || nat_beq c b':') s ≡ true
  pub colon : has_char b':' s ≡ true

-- Documented behaviour: case mapping leaves alone an ASCII character that is not a letter of the
-- other case; an address that was parsed and unmapped prints to a text that parses to it again,
-- dotted for IPv4 and with a colon for IPv6; unmapping twice is unmapping once.
pub record Laws (x : Externals) : Type 0 where
  pub upper_fixed : (c : Char) → code c < 128 → is_lower (code c) ≡ false → x.to_upper c ≡ c
  pub lower_fixed : (c : Char) → code c < 128 → is_upper (code c) ≡ false → x.to_lower c ≡ c
  pub reparsed :
      (s : String) (a : x.Addr)
      → x.parse_addr s ≡ some a
      → x.parse_addr (x.addr_text (x.unmap a)) ≡ some (x.unmap a)
  pub unmap_idempotent : (a : x.Addr) → x.unmap (x.unmap a) ≡ x.unmap a
  pub text_form :
      (s : String) (a : x.Addr)
      → x.parse_addr s ≡ some a
      → IsColoned (x.addr_text (x.unmap a)) ⊎ IsDotted (x.addr_text (x.unmap a))
