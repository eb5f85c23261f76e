-- ===== src/Dashboard/Sessions/Tables.antt =====
-- A property of every session of a table.
use opensandbox_aks_governan.Base.{
  String, Bool, some, [], ◌∷◌, ◌≡◌, eq_iff, inl, inr, subst, All, keep, find_key, delete_key,
  Bool-cases, ◌==◌, string_eq,
}
use opensandbox_aks_governan.Dashboard.Sessions.{DashboardSession, Sessions}

module _ (P : String × DashboardSession → Type 0) where
  pub All-keep : (p : String × DashboardSession → Bool) (t : Sessions) → All P t → All P (keep p t)
  All-keep p [] h = tt
  All-keep p (entry ∷ t) h = elim (Bool-cases (p entry)) [
    | inl yes_kept ↦ rw yes_kept (h.0, All-keep p t h.1)
    | inr dropped ↦ rw dropped (All-keep p t h.1)
  ]

  pub All-delete_key : (k : String) (t : Sessions) → All P t → All P (delete_key k t)
  All-delete_key k [] h = tt
  All-delete_key k ((j, s) ∷ t) h = elim (Bool-cases (j == k)) [
    | inl same ↦ rw same (All-delete_key k t h.1)
    | inr other ↦ rw other (h.0, All-delete_key k t h.1)
  ]

  pub All-find_key :
      (k : String) (t : Sessions) (s : DashboardSession)
      → All P t
      → find_key k t ≡ some s
      → P (k, s)
  All-find_key k [] s h found = cc
  All-find_key k ((j, s') ∷ t) s h found = elim (Bool-cases (j == k)) [
    | inl same ↦
        subst (λ z. P (k, z)) (same_session (rw same at found))
          (subst (λ i. P (i, s')) ((eq_iff j k).0 same) h.0)
    | inr other ↦ All-find_key k t s h.1 (rw other at found)
  ]
    where
      same_session : {a b : DashboardSession} → some a ≡ some b → a ≡ b
      same_session e = cc

pub All-map :
    (P Q : String × DashboardSession → Type 0) (t : Sessions)
    → ((entry : String × DashboardSession) → P entry → Q entry)
    → All P t
    → All Q t
All-map P Q [] step h = tt
All-map P Q (entry ∷ t) step h = (step entry h.0, All-map P Q t step h.1)
