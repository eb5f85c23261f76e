-- ===== src/Controller/Conditions.antt =====
-- internal/assignment/controller/controller.go: `condition`, `readyConditions`,
-- `progressConditions` and `statusEquivalent`. The time of the last transition, which the last of
-- these leaves out, is not kept.
pub mod Laws
use opensandbox_aks_governan.Base.{
  ℕ, String, Bool, true, false, ◌&&◌, Option, none, some, List, [], ◌∷◌, if◌then◌else◌, ◌==◌,
  nat_eq, string_eq,
}
use opensandbox_aks_governan.Cluster.{
  Condition, AssignmentObject, AssignmentStatus, ObjectReference, ResolvedBundle,
}
use opensandbox_aks_governan.Controller.Objects.{Mode, projected_sidecar, external_mediator}

unfoldable pub condition : ℕ → String → Bool → String → String → Condition
condition generation kind value reason message = record {
  kind = kind;
  status = if value then "True" else "False";
  reason = reason;
  message = message;
  observed_generation = generation;
}

unfoldable pub progress_conditions : ℕ → Bool → Bool → Bool → String → String → List Condition
progress_conditions generation resolved bound identity reason message =
    condition generation "BundleResolved" resolved (if resolved then "BundleValid" else reason)
      (if resolved then "immutable bundle resolved" else message)
    ∷ condition generation "PodBound" bound (if bound then "FreshPodObserved" else reason)
        (if bound then "fresh owned Pod bound" else message)
    ∷ condition generation "IdentityReady" identity
        (if identity then "EgressIdentityConfigured" else reason)
        (if identity then "identity projection is isolated to egress" else message)
    ∷ condition generation "Ready" false reason message
    ∷ []

abbrev pub identity_reason : Bool → Mode → String × String
identity_reason false mode = ("IdentityNotRequired", "bundle has no mediated egress policy")
identity_reason true external_mediator = (
  "ExternalMediatorConfigured",
  "trusted mediator issues an audience-restricted token bound to the sandbox Pod",
)
identity_reason true projected_sidecar =
    ("EgressIdentityConfigured", "identity projection is isolated to egress")

unfoldable pub ready_conditions : ℕ → Bool → Mode → List Condition
ready_conditions generation required mode =
    condition generation "BundleResolved" true "BundleValid" "immutable bundle resolved"
    ∷ condition generation "PodBound" true "FreshPodObserved" "fresh owned Pod bound"
    ∷ condition generation "IdentityReady" true (identity_reason required mode).0
        (identity_reason required mode).1
    ∷ condition generation "Ready" true "AssignmentReady" "assignment enforcement is ready"
    ∷ []

abbrev pub same_condition : Condition → Condition → Bool
same_condition a b =
    a.kind == b.kind
    && a.status == b.status
    && a.reason == b.reason
    && a.message == b.message
    && a.observed_generation == b.observed_generation

abbrev pub same_conditions : List Condition → List Condition → Bool
same_conditions [] [] = true
same_conditions [] (_ ∷ _) = false
same_conditions (_ ∷ _) [] = false
same_conditions (a ∷ xs) (b ∷ ys) = same_condition a b && same_conditions xs ys

abbrev pub same_reference : Option ObjectReference → Option ObjectReference → Bool
same_reference none none = true
same_reference none (some _) = false
same_reference (some _) none = false
same_reference (some a) (some b) =
    a.api_version == b.api_version
    && a.kind == b.kind
    && a.namespace == b.namespace
    && a.name == b.name
    && a.uid == b.uid

abbrev pub same_bundle : Option ResolvedBundle → Option ResolvedBundle → Bool
same_bundle none none = true
same_bundle none (some _) = false
same_bundle (some _) none = false
same_bundle (some a) (some b) =
    a.name == b.name && a.uid == b.uid && a.policy_revision == b.policy_revision

unfoldable pub status_equivalent : AssignmentStatus → AssignmentStatus → Bool
status_equivalent a b =
    same_conditions a.conditions b.conditions
    && same_bundle a.resolved b.resolved
    && same_reference a.workload_ref b.workload_ref
    && same_reference a.pod_ref b.pod_ref
