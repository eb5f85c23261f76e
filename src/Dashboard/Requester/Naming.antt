-- ===== src/Dashboard/Requester/Naming.antt =====
-- cmd/aks-sandbox-dashboard/requester_authorization.go: the only assignment that names a sandbox.
use opensandbox_aks_governan.Base.{
  String, true, false, ◌==◌, string_eq, eq_iff, none, some, List, [], ◌∷◌, ◌≡◌, ◌⊎◌, inl, inr, refl,
  subst, arith, Bool-cases, Result, ok, err, Alone, NoneOf, none_here, none_more, here, later,
}
use opensandbox_aks_governan.Cluster.{AssignmentObject, lookup_text, sandbox_id_annotation}
use opensandbox_aks_governan.Controller.Objects.{sandbox_id_label}
use opensandbox_aks_governan.Dashboard.Requester.{
  granted, found, Answers, names_sandbox, match_sandbox,
}

pub found_is {ℓ} : {A : Type ℓ} {s t : A} → found s ≡ found t → s ≡ t
found_is h = cc

pub granted_is {ℓ} : {A : Type ℓ} {s t : A} → granted s ≡ granted t → s ≡ t
granted_is h = cc

-- The part of a list that has a property, in the list's order.
pub data Kept {ℓ} {A : Type ℓ} (P : A → Type 0) : List A → List A → Type ℓ where
  kept_none : Kept P [] []
  kept_one : {s : A} {rest out : List A} → P s → Kept P rest out → Kept P (s ∷ rest) (s ∷ out)
  left_out : {s : A} {rest out : List A} → ¬ P s → Kept P rest out → Kept P (s ∷ rest) out

-- An assignment that is not being deleted and names a sandbox by its annotation or its label.
pub record IsNaming (id : String) (o : AssignmentObject) : Type 0 where
  pub live : o.deleting ≡ false
  pub names :
      (lookup_text sandbox_id_annotation o.annotations ≡ id)
      ⊎ (lookup_text sandbox_id_label o.labels ≡ id)

names-IsNaming :
    (a : Answers) (id : String) (o : AssignmentObject) → names_sandbox a id o ≡ true → IsNaming id o
names-IsNaming a id o h = record {
  live = ground (arith);
  names = elim (Bool-cases (lookup_text sandbox_id_annotation o.annotations == id)) [
    | inl noted ↦ inl (ground (arith, eq_iff (lookup_text sandbox_id_annotation o.annotations) id))
    | inr other ↦ inr (ground (arith, eq_iff (lookup_text sandbox_id_label o.labels) id))
  ];
}

IsNaming-names :
    (a : Answers) (id : String) (o : AssignmentObject) → IsNaming id o → names_sandbox a id o ≡ true
IsNaming-names a id o n = from n.names
  where
    from :
        (lookup_text sandbox_id_annotation o.annotations ≡ id)
          ⊎ (lookup_text sandbox_id_label o.labels ≡ id)
        → names_sandbox a id o ≡ true
    from (inl noted) =
        ground (arith, eq_iff (lookup_text sandbox_id_annotation o.annotations) id, n.live)
    from (inr labelled) = ground (arith, eq_iff (lookup_text sandbox_id_label o.labels) id, n.live)

not-IsNaming :
    (a : Answers) (id : String) (o : AssignmentObject)
    → names_sandbox a id o ≡ false
    → ¬ IsNaming id o
not-IsNaming a id o h n = absurd (cc (IsNaming-names a id o n, h))

module _ (a : Answers) (id : String) where
  match-rest :
      (list : List (Result AssignmentObject)) (matched o : AssignmentObject)
      → match_sandbox a id (some matched) list ≡ found o
      → (matched ≡ o) × NoneOf (IsNaming id) list
  unfolding match_sandbox
  match-rest [] matched o h = (found_is h, none_here)
  match-rest (err e ∷ rest) matched o h = cc
  match-rest (ok p ∷ rest) matched o h = elim (Bool-cases (names_sandbox a id p)) [
    | inl named ↦ absurd (cc (rw named at h))
    | inr other ↦
        let (same, none_left) = match-rest rest matched o (rw other at h) in
        (same, none_more (not-IsNaming a id p other) none_left)
  ]

  pub match-Alone :
      (list : List (Result AssignmentObject)) (o : AssignmentObject)
      → match_sandbox a id none list ≡ found o
      → Alone (IsNaming id) list o
  unfolding match_sandbox
  match-Alone [] o h = cc
  match-Alone (err e ∷ rest) o h = cc
  match-Alone (ok p ∷ rest) o h = elim (Bool-cases (names_sandbox a id p)) [
    | inl named ↦
        let (same, none_left) = match-rest rest p o (rw named at h) in
        subst (λ z. Alone (IsNaming id) (ok p ∷ rest) z) same
          (here (names-IsNaming a id p named) none_left)
    | inr other ↦ later (not-IsNaming a id p other) (match-Alone rest o (rw other at h))
  ]

  unnamed : (p : AssignmentObject) → ¬ IsNaming id p → names_sandbox a id p ≡ false
  unnamed p lacks = elim (Bool-cases (names_sandbox a id p)) [
    | inl named ↦ absurd (lacks (names-IsNaming a id p named))
    | inr other ↦ other
  ]

  NoneOf-match :
      (list : List (Result AssignmentObject)) (o : AssignmentObject)
      → NoneOf (IsNaming id) list
      → match_sandbox a id (some o) list ≡ found o
  unfolding match_sandbox
  NoneOf-match [] o n = refl
  NoneOf-match (err e ∷ rest) o (none_more lacks n) = absurd lacks
  NoneOf-match (ok p ∷ rest) o (none_more lacks n) = rw (unnamed p lacks) (NoneOf-match rest o n)

  pub Alone-match :
      (list : List (Result AssignmentObject)) (o : AssignmentObject)
      → Alone (IsNaming id) list o
      → match_sandbox a id none list ≡ found o
  unfolding match_sandbox
  Alone-match [] o alone = elim alone [ ]
  Alone-match (err e ∷ rest) o (later lacks alone) = absurd lacks
  Alone-match (ok p ∷ rest) o (here good n) =
      rw (IsNaming-names a id p good) (NoneOf-match rest p n)
  Alone-match (ok p ∷ rest) o (later lacks alone) = rw (unnamed p lacks) (Alone-match rest o alone)
