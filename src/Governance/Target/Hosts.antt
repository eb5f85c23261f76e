-- ===== src/Governance/Target/Hosts.antt =====
-- `NormalizeHost` applied to its own results.
use Prim.Native.String.{len}
use opensandbox_aks_governan.Base.{
  code, String, false, ◌||◌, some, ◌≡◌, ◌≤◌, refl, subst, ◌∙◌, inl, inr, ◌⊎◌, arith,
  ltb-false_of_le, nat_beq, Bool-cases, Option-cases, is_empty, map_chars, split, trim_space,
  all_chars_mono, map_chars_fixed, trim_space-cons, ok, err, message, >>=-eq-ok, is_ok,
}
use opensandbox_aks_governan.Externals.{Externals, Laws, IsDotted, IsColoned, is_digit}
use opensandbox_aks_governan.Governance.Target.{
  bracket, trim_dot, strip_brackets, all_labels, address_or_labels, host_name, normalize_host,
}
use opensandbox_aks_governan.Governance.Target.Chars.{
  host_char, is_dot, IsHost, labels-IsHost, ends_in-filled, ends_in-other, IsHost-trim_space,
  IsHost-bad_char, IsHost-has_char, splits_host_port-plain, strip_brackets-plain,
  starts_in_of_has_char, colon_visible, first_visible, strip_brackets-coloned,
}

module _ (x : Externals) (l : Laws x) where
  IsHost-lower : (s : String) → IsHost s → map_chars x.to_lower s ≡ s
  IsHost-lower s h =
      map_chars_fixed x.to_lower host_char s (λ c e. l.lower_fixed c (ground arith) (ground arith))
        h.chars

  -- A host in normal form goes straight to the test on addresses and labels.
  IsHost-normalize_host : (s : String) → IsHost s → normalize_host x s ≡ address_or_labels x s
  unfolding normalize_host host_name trim_dot
  IsHost-normalize_host s h =
      let colon = IsHost-has_char s h b':' refl in
      let plain = starts_in_of_has_char bracket s (IsHost-has_char s h bracket refl) in
      rw (
        IsHost-trim_space s h,
        h.filled,
        IsHost-bad_char s h,
        splits_host_port-plain s colon plain,
        strip_brackets-plain s colon plain,
        IsHost-lower s h,
        h.no_dot,
        h.filled,
        ltb-false_of_le 512 (len s) (omega (arith, h.short)),
        ltb-false_of_le 253 (len s) h.short,
      )

  dotted-IsHost : (s : String) → IsDotted s → IsHost s
  dotted-IsHost s d = record {
    chars = all_chars_mono (λ c. is_digit c || is_dot c) host_char s (λ c e. ground arith) d.digits;
    filled = ends_in-filled is_digit s d.last_digit;
    no_dot = ends_in-other is_digit is_dot s (λ c e. ground arith) d.last_digit;
    short = omega (arith, d.short);
  }

  address_or_labels-printed :
      (name : String) (a : x.Addr)
      → x.parse_addr name ≡ some a
      → address_or_labels x (x.addr_text (x.unmap a)) ≡ ok (x.addr_text (x.unmap a))
  unfolding address_or_labels
  address_or_labels-printed name a parsed =
      rw (l.reparsed name a parsed, address_or_labels) (rw (l.unmap_idempotent a))

  -- What the last step accepts, within the bounds, is a host in normal form or an IPv6 address.
  address_or_labels-IsHost :
      (name host : String)
      → is_empty name ≡ false
      → len name ≤ 253
      → address_or_labels x name ≡ ok host
      → (IsHost host × (address_or_labels x host ≡ ok host)) ⊎ IsColoned host
  unfolding address_or_labels
  address_or_labels-IsHost name host filled short e = elim (Option-cases (x.parse_addr name)) [
    | inl missed ↦ elim (Bool-cases (all_labels (split b'.' name))) [
      | inl good ↦
          let kept : address_or_labels x name ≡ ok name = rw (missed, address_or_labels, good) in
          let same : name ≡ host = cc in
          inl (
            subst (λ s. IsHost s × (address_or_labels x s ≡ ok s)) same
              (labels-IsHost name good filled short, kept))
      | inr bad ↦
          let refused : address_or_labels x name ≡ err (message "host is invalid") =
            rw (missed, address_or_labels, bad) in
          absurd (cc)
    ]
    | inr (a, parsed) ↦
        let printed : address_or_labels x name ≡ ok (x.addr_text (x.unmap a)) =
          rw (parsed, address_or_labels) in
        let same : x.addr_text (x.unmap a) ≡ host = cc in
        subst (λ s. (IsHost s × (address_or_labels x s ≡ ok s)) ⊎ IsColoned s) same
          (elim (l.text_form name a parsed) [
            | inl coloned ↦ inr coloned
            | inr dotted ↦ inl (
              dotted-IsHost (x.addr_text (x.unmap a)) dotted,
              address_or_labels-printed name a parsed,
            )
          ])
  ]

  host_name-inv :
      (stripped host : String)
      → host_name x stripped ≡ ok host
      → let name = trim_dot (map_chars x.to_lower stripped) in
        (is_empty name ≡ false) × (len name ≤ 253) × (address_or_labels x name ≡ ok host)
  unfolding host_name
  host_name-inv stripped host e = ground arith

  -- A host that is accepted went through the brackets and then through `host_name`.
  normalize_host-inv :
      (authority host : String)
      → normalize_host x authority ≡ ok host
      → (stripped : String) × (host_name x stripped ≡ ok host)
  unfolding normalize_host
  normalize_host-inv authority host e =
      let (stripped, _, named) =
        >>=-eq-ok (strip_brackets (trim_space authority)) (host_name x) {result = host}
          (ground arith) in
      (stripped, named)

  -- What `NormalizeHost` accepts, it accepts again unchanged, unless it is an IPv6 address.
  pub normalize_host-cases :
      (authority host : String)
      → normalize_host x authority ≡ ok host
      → (IsHost host × (normalize_host x host ≡ ok host)) ⊎ IsColoned host
  normalize_host-cases authority host e =
      let (stripped, named) = normalize_host-inv authority host e in
      let name = trim_dot (map_chars x.to_lower stripped) in
      let (filled, short, found) = host_name-inv stripped host named in
      elim (address_or_labels-IsHost name host filled short found) [
        | inl (good, same) ↦ inl (good, IsHost-normalize_host host good ∙ same)
        | inr coloned ↦ inr coloned
      ]

  -- An IPv6 address, in the text that `NormalizeHost` gives for it, is refused by `NormalizeHost`.
  pub normalize_host-coloned :
      (host : String) → IsColoned host → is_ok (normalize_host x host) ≡ false
  unfolding normalize_host
  normalize_host-coloned String.[] c = cc
  normalize_host-coloned (String.◌∷◌ c s) k =
      let (t, kept, colon) =
        trim_space-cons (λ d. nat_beq d b':') c s (first_visible (code c) k.first) colon_visible in
      rw (kept, strip_brackets-coloned c t k.first (colon ∙ k.colon)) (ground arith)
