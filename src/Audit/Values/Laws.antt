-- ===== src/Audit/Values/Laws.antt =====
-- The shape of what is written to the audit log.
use Prim.Native.String.{[], ◌∷◌}
use opensandbox_aks_governan.Base.{
  ℕ, zero, suc, ◌≤◌, String, Bool, true, not, ◌≡◌, refl, arith, all_chars, is_control, trim_space,
  all_chars-trim_space,
}
use opensandbox_aks_governan.Audit.Values.{
  keep_chars, take_chars, count_chars, sanitize_audit_value,
}

count_chars-take_chars : (n : ℕ) (s : String) → count_chars (take_chars n s) ≤ n
count_chars-take_chars zero s = omega arith
count_chars-take_chars (suc n) [] = omega arith
count_chars-take_chars (suc n) (c ∷ s) = omega (arith, count_chars-take_chars n s)

all_chars-keep_chars : (p : ℕ → Bool) (s : String) → all_chars p (keep_chars p s) ≡ true
all_chars-keep_chars p [] = refl
all_chars-keep_chars p (c ∷ s) = ground (arith, all_chars-keep_chars p s)

module _ (p : ℕ → Bool) where
  all_chars-take_chars :
      (n : ℕ) (s : String) → all_chars p s ≡ true → all_chars p (take_chars n s) ≡ true
  all_chars-take_chars zero s h = refl
  all_chars-take_chars (suc n) [] h = refl
  all_chars-take_chars (suc n) (c ∷ s) h = ground (arith, all_chars-take_chars n s)

-- A text that goes to the audit log has at most the given number of characters, and no control
-- character among them.
pub sanitize_audit_value-bounded :
    (value : String) (maximum : ℕ)
    → (count_chars (sanitize_audit_value value maximum) ≤ maximum)
      × (all_chars (λ c. not (is_control c)) (sanitize_audit_value value maximum) ≡ true)
unfolding sanitize_audit_value
sanitize_audit_value-bounded value maximum =
    let plain : ℕ → Bool = λ c. not (is_control c) in
    let kept = keep_chars plain value in
    (
      count_chars-take_chars maximum (trim_space kept),
      all_chars-take_chars plain maximum (trim_space kept)
          (all_chars-trim_space plain kept (all_chars-keep_chars plain value)),
    )
