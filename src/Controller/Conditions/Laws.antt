-- ===== src/Controller/Conditions/Laws.antt =====
-- `statusEquivalent` against equality, and which conditions say that an assignment is ready.
use opensandbox_aks_governan.Base.{
  ℕ, String, Bool, true, false, Option, none, some, List, [], ◌∷◌, ◌≡◌, refl, ◌↔◌, arith, nat_eq,
  string_eq, eq_iff,
}
use opensandbox_aks_governan.Cluster.{
  Condition, AssignmentStatus, ObjectReference, ResolvedBundle, condition_true,
}
use opensandbox_aks_governan.Controller.Objects.{Mode}
use opensandbox_aks_governan.Controller.Conditions.{
  condition, progress_conditions, ready_conditions, same_condition, same_conditions, same_reference,
  same_bundle, status_equivalent,
}

same_condition_sound : (a b : Condition) → same_condition a b ≡ true → a ≡ b
same_condition_sound a b h = let (k, s, r, m, g) = fields in cc
  where
    fields :
        (a.kind ≡ b.kind)
        × (a.status ≡ b.status)
        × (a.reason ≡ b.reason)
        × (a.message ≡ b.message)
        × (a.observed_generation ≡ b.observed_generation)
    fields = ground (
      arith,
      eq_iff a.kind b.kind,
      eq_iff a.status b.status,
      eq_iff a.reason b.reason,
      eq_iff a.message b.message,
    )

same_condition_refl : (a : Condition) → same_condition a a ≡ true
same_condition_refl a = ground (
  arith,
  eq_iff a.kind a.kind,
  eq_iff a.status a.status,
  eq_iff a.reason a.reason,
  eq_iff a.message a.message,
)

same_conditions_iff : (xs ys : List Condition) → (same_conditions xs ys ≡ true) ↔ (xs ≡ ys)
same_conditions_iff [] [] = (λ _. refl, λ _. refl)
same_conditions_iff [] (b ∷ ys) = (λ h. absurd (cc), λ h. absurd (cc))
same_conditions_iff (a ∷ xs) [] = (λ h. absurd (cc), λ h. absurd (cc))
same_conditions_iff (a ∷ xs) (b ∷ ys) = (
  λ h. ground (arith, same_condition_sound a b, same_conditions_iff xs ys),
  λ h. ground (arith, same_condition_refl b, same_conditions_iff xs ys),
)

same_reference_sound : (a b : Option ObjectReference) → same_reference a b ≡ true → a ≡ b
same_reference_sound none none h = refl
same_reference_sound none (some b) h = absurd (cc)
same_reference_sound (some a) none h = absurd (cc)
same_reference_sound (some a) (some b) h = let (v, k, s, n, u) = fields in cc
  where
    fields :
        (a.api_version ≡ b.api_version)
        × (a.kind ≡ b.kind)
        × (a.namespace ≡ b.namespace)
        × (a.name ≡ b.name)
        × (a.uid ≡ b.uid)
    fields = ground (
      arith,
      eq_iff a.api_version b.api_version,
      eq_iff a.kind b.kind,
      eq_iff a.namespace b.namespace,
      eq_iff a.name b.name,
      eq_iff a.uid b.uid,
    )

same_reference_refl : (a : Option ObjectReference) → same_reference a a ≡ true
same_reference_refl none = refl
same_reference_refl (some a) = ground (
  arith,
  eq_iff a.api_version a.api_version,
  eq_iff a.kind a.kind,
  eq_iff a.namespace a.namespace,
  eq_iff a.name a.name,
  eq_iff a.uid a.uid,
)

same_bundle_sound : (a b : Option ResolvedBundle) → same_bundle a b ≡ true → a ≡ b
same_bundle_sound none none h = refl
same_bundle_sound none (some b) h = absurd (cc)
same_bundle_sound (some a) none h = absurd (cc)
same_bundle_sound (some a) (some b) h = let (n, u, r) = fields in cc
  where
    fields : (a.name ≡ b.name) × (a.uid ≡ b.uid) × (a.policy_revision ≡ b.policy_revision)
    fields = ground (
      arith,
      eq_iff a.name b.name,
      eq_iff a.uid b.uid,
      eq_iff a.policy_revision b.policy_revision,
    )

same_bundle_refl : (a : Option ResolvedBundle) → same_bundle a a ≡ true
same_bundle_refl none = refl
same_bundle_refl (some a) =
    ground
      (arith, eq_iff a.name a.name, eq_iff a.uid a.uid, eq_iff a.policy_revision a.policy_revision)

-- Two statuses are equivalent exactly when they are equal but for the times of the last transition.
pub status_equivalent_iff : (a b : AssignmentStatus) → (status_equivalent a b ≡ true) ↔ (a ≡ b)
unfolding status_equivalent
status_equivalent_iff a b = (sound, complete)
  where
    parts :
        status_equivalent a b ≡ true
        → (same_conditions a.conditions b.conditions ≡ true)
          × (same_bundle a.resolved b.resolved ≡ true)
          × (same_reference a.workload_ref b.workload_ref ≡ true)
          × (same_reference a.pod_ref b.pod_ref ≡ true)
    parts h = ground (arith)

    sound : status_equivalent a b ≡ true → a ≡ b
    sound h =
        let (c, r, w, p) = parts h in
        let c' = (same_conditions_iff a.conditions b.conditions).0 c in
        let r' = same_bundle_sound a.resolved b.resolved r in
        let w' = same_reference_sound a.workload_ref b.workload_ref w in
        let p' = same_reference_sound a.pod_ref b.pod_ref p in cc

    complete : a ≡ b → status_equivalent a b ≡ true
    complete e = rw e (
        ground (
          arith,
          (same_conditions_iff b.conditions b.conditions).1 refl,
          same_bundle_refl b.resolved,
          same_reference_refl b.workload_ref,
          same_reference_refl b.pod_ref,
        ))

-- The conditions of a sandbox in progress never say that it is ready; those of a ready one do.
pub condition_true-progress_conditions :
    (generation : ℕ) (resolved bound identity : Bool) (reason message : String)
    → condition_true "Ready" (progress_conditions generation resolved bound identity reason message)
      ≡ false
unfolding progress_conditions condition
condition_true-progress_conditions generation resolved bound identity reason message =
    ground (arith)

pub condition_true-ready_conditions :
    (generation : ℕ) (required : Bool) (mode : Mode)
    → condition_true "Ready" (ready_conditions generation required mode) ≡ true
unfolding ready_conditions condition
condition_true-ready_conditions generation required mode = ground (arith)
