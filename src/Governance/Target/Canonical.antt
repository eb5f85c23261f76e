-- ===== src/Governance/Target/Canonical.antt =====
-- Normal forms of targets: normalising twice, and the shape of what `NormalizeTarget` accepts.
use Prim.Native.String.{[], ◌∷◌}
use mathlib.Core.List.{[], ◌∷◌}
use opensandbox_aks_governan.Base.{
  String, true, false, not, ◌≡◌, refl, sym, subst, ap, ◌∙◌, inl, inr, ◌⊎◌, arith, all_chars,
  has_char, is_space, trim_space, trim_space_fixed, all_chars_mono, map_chars_fixed, ok, ◌>>=◌,
  >>=-refused, is_ok,
}
use opensandbox_aks_governan.Externals.{Externals, Laws, IsColoned}
use opensandbox_aks_governan.Governance.Target.{
  Target, label_char, method_char, host_label, method_pattern, normalize_host, normalize_path,
  normalize_target,
}
use opensandbox_aks_governan.Governance.Target.Chars.{IsHost, host_label-chars, IsHost-has_char}
use opensandbox_aks_governan.Governance.Target.Hosts.{normalize_host-cases, normalize_host-coloned}

-- A path that is accepted is accepted again unchanged.
normalize_path-again :
    (x : Externals) (text path : String)
    → normalize_path x text ≡ ok path
    → normalize_path x path ≡ ok path
unfolding normalize_path trim_space
normalize_path-again x [] path e =
    let same : "/" ≡ path = ground arith in subst (λ p. normalize_path x p ≡ ok p) same refl
normalize_path-again x (c ∷ s) path e =
    let same : c ∷ s ≡ path = ground arith in
    subst (λ p. normalize_path x p ≡ ok p) same (e ∙ ap ok (sym same))

host_label-trim_space : (s : String) → host_label s ≡ true → trim_space s ≡ s
unfolding is_space
host_label-trim_space s h = trim_space_fixed s (
    all_chars_mono label_char (λ c. not (is_space c)) s (λ c e. ground arith)
      (host_label-chars s h))

method_pattern-chars : (s : String) → method_pattern s ≡ true → all_chars method_char s ≡ true
unfolding method_pattern
method_pattern-chars [] h = refl
method_pattern-chars (c ∷ s) h = ground arith

method_pattern-trim_space : (s : String) → method_pattern s ≡ true → trim_space s ≡ s
unfolding is_space
method_pattern-trim_space s h = trim_space_fixed s (
    all_chars_mono method_char (λ c. not (is_space c)) s (λ c e. ground arith)
      (method_pattern-chars s h))

module _ (x : Externals) (l : Laws x) (backend method host path : String) (t : Target) where
  -- What each field of a normalised target went through.
  normalize_target-inv :
      normalize_target x backend method host path ≡ ok t
      → (host_label t.backend ≡ true)
        × (method_pattern t.method ≡ true)
        × (normalize_host x host ≡ ok t.host)
        × (normalize_path x path ≡ ok t.path)
  unfolding normalize_target
  normalize_target-inv e = ground arith

  -- Backend and method of a normalised target pass unchanged.
  normalize_target-fields :
      host_label t.backend ≡ true
      → method_pattern t.method ≡ true
      → normalize_target x t.backend t.method t.host t.path ≡ (do
        host' ← normalize_host x t.host
        path' ← normalize_path x t.path
        ok (record { backend = t.backend; method = t.method; host = host'; path = path' }))
  unfolding normalize_target
  normalize_target-fields b m = rw (
    host_label-trim_space t.backend b,
    b,
    method_pattern-trim_space t.method m,
    map_chars_fixed x.to_upper method_char t.method
        (λ c e. l.upper_fixed c (ground arith) (ground arith)) (method_pattern-chars t.method m),
    m,
  )

  -- Normalising a target a second time gives it again, unless its host is an IPv6 address.
  pub normalize_target_idempotent :
      normalize_target x backend method host path ≡ ok t
      → has_char b':' t.host ≡ false
      → normalize_target x t.backend t.method t.host t.path ≡ ok t
  normalize_target_idempotent e plain =
      let (b, m, h, p) = normalize_target-inv e in
      normalize_target-fields b m
      ∙ rw (
        host_again (normalize_host-cases x l host t.host h),
        normalize_path-again x path t.path p,
      )
    where
      host_again :
          (IsHost t.host × (normalize_host x t.host ≡ ok t.host)) ⊎ IsColoned t.host
          → normalize_host x t.host ≡ ok t.host
      host_again (inl (_, same)) = same
      host_again (inr coloned) = absurd (cc coloned.colon)

  -- A target whose normalised host is an IPv6 address is refused when it is normalised again.
  pub normalize_target-coloned :
      normalize_target x backend method host path ≡ ok t
      → has_char b':' t.host ≡ true
      → is_ok (normalize_target x t.backend t.method t.host t.path) ≡ false
  normalize_target-coloned e colon =
      let (b, m, h, p) = normalize_target-inv e in
      rw (normalize_target-fields b m) (
        >>=-refused (normalize_host x t.host) _
          (host_refused (normalize_host-cases x l host t.host h)))
    where
      host_refused :
          (IsHost t.host × (normalize_host x t.host ≡ ok t.host)) ⊎ IsColoned t.host
          → is_ok (normalize_host x t.host) ≡ false
      host_refused (inl (good, _)) = absurd (cc (IsHost-has_char t.host good b':' refl))
      host_refused (inr coloned) = normalize_host-coloned x l t.host coloned
