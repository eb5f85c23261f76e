-- ===== src/Facade/Lifecycle/Laws.antt =====
-- The fence of an assignment through pause and resume.
use opensandbox_aks_governan.Base.{
  String, Bool, true, false, not, ◌&&◌, ◌||◌, Option, List, [], ◌∷◌, ◌≡◌, inl, inr, refl, sym, ap,
  ◌∙◌, arith, if◌then◌else◌, any, Error, not_found, already_exists, conflict, canceled, message,
  wrapped, Result, ok, err, Bool-cases,
}
use opensandbox_aks_governan.Cluster.{ref_uid}
use opensandbox_aks_governan.Facade.Lifecycle.{
  Assignment, Response, success, Backend, store_error, authorize_assignment, wait_ready, found,
  authorized_assignment, copied, paused_again, after_resume_fence, resume,
}

-- Documented behaviour of a store and of OpenSandbox: a write of the fence that succeeds sets the
-- fence of that assignment, and a call of OpenSandbox leaves the annotations of assignments alone.
pub record BackendLaws (b : Backend) (fence : String → b.World → Bool × String) : Type 0 where
  pub fence-set :
      (name uid : String) (paused : Bool) (s : b.World)
      → (b.set_fence name paused uid s).1 ≡ ok tt
      → fence name (b.set_fence name paused uid s).0 ≡ (paused, uid)
  pub fence-post :
      (name id action : String) (s : b.World) → fence name (b.post id action s).0 ≡ fence name s

success-store_error : (e : Error) → success (store_error e).status ≡ false
unfolding store_error
success-store_error not_found = refl
success-store_error already_exists = refl
success-store_error conflict = refl
success-store_error canceled = refl
success-store_error (message text) = refl
success-store_error (wrapped text e) = success-store_error e

-- Some poll saw the readiness that was waited for.
pub wait_ready-any :
    (wanted : Bool) (polls : List (Result Assignment))
    → wait_ready wanted polls ≡ ok tt
    → any
        (λ answer. elim answer [
          | err _ ↦ false
          | ok a ↦ (a.ready && wanted) || (not a.ready && not wanted)
        ])
        polls
      ≡ true
unfolding wait_ready
wait_ready-any wanted [] h = absurd (cc)
wait_ready-any wanted (err e ∷ rest) h = absurd (cc)
wait_ready-any wanted (ok a ∷ rest) h = ground (arith, wait_ready-any wanted rest)

module _ (b : Backend) (authorizer : Option (String → Result (Unit {0})))
    (fence : String → b.World → Bool × String) (laws : BackendLaws b fence) where
  authorized-found :
      (id : String) (s : b.World) (a : Assignment)
      → b.by_sandbox id s ≡ ok a
      → authorize_assignment authorizer a ≡ true
      → authorized_assignment b authorizer id s ≡ found a
  unfolding authorized_assignment
  authorized-found id s a read allowed = rw (read, allowed) refl

  copied-fence :
      (name : String) (outcome : b.World × Result Response)
      → fence name (copied b authorizer outcome).0 ≡ fence name outcome.0
  copied-fence name (s, err e) = refl
  copied-fence name (s, ok response) = refl

  -- After a resume that was authorized and whose writes of the fence succeeded, the assignment is
  -- fenced against the Pod that it had if OpenSandbox took the resume, and as paused otherwise.
  pub resume-fence :
      (id : String) (s : b.World) (a : Assignment)
      → b.by_sandbox id s ≡ ok a
      → authorize_assignment authorizer a ≡ true
      → ((name uid : String) (paused : Bool) (t : b.World)
          → (b.set_fence name paused uid t).1 ≡ ok tt)
      → fence a.name (resume b authorizer id s).0 ≡ (
          if success (resume b authorizer id s).1.status
          then (false, ref_uid a.pod_ref)
          else (true, ""))
  unfolding resume
  resume-fence id s a read allowed writes = rw (authorized-found id s a read allowed) (
      fenced (b.set_fence a.name false (ref_uid a.pod_ref) s) refl
        (writes a.name (ref_uid a.pod_ref) false s))
    where
      answered :
          (t : b.World) (outcome : b.World × Result Response)
          → b.post id "resume" t ≡ outcome
          → fence a.name t ≡ (false, ref_uid a.pod_ref)
          → fence a.name (paused_again b authorizer a.name outcome).0 ≡ (
              if success (paused_again b authorizer a.name outcome).1.status
              then (false, ref_uid a.pod_ref)
              else (true, ""))
      answered t (u, err e) k before = laws.fence-set a.name "" true u (writes a.name "" true u)
      answered t (u, ok response) k before = elim (Bool-cases (success response.status)) [
        | inl good ↦
            rw (good, good)
              (ap (λ z. fence a.name z.0) (sym k) ∙ laws.fence-post a.name id "resume" t ∙ before)
        | inr bad ↦ rw (bad, bad) (laws.fence-set a.name "" true u (writes a.name "" true u))
      ]

      fenced :
          (outcome : b.World × Result (Unit {0}))
          → b.set_fence a.name false (ref_uid a.pod_ref) s ≡ outcome
          → outcome.1 ≡ ok tt
          → fence a.name (after_resume_fence b authorizer id a.name outcome).0 ≡ (
              if success (after_resume_fence b authorizer id a.name outcome).1.status
              then (false, ref_uid a.pod_ref)
              else (true, ""))
      fenced (t, err e) k written = absurd (cc)
      fenced (t, ok u) k written = answered t (b.post id "resume" t) refl (
          ap (λ z. fence a.name z.0) (sym k)
          ∙ laws.fence-set a.name (ref_uid a.pod_ref) false s
              (writes a.name (ref_uid a.pod_ref) false s))
