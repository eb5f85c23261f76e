-- ===== src/Dashboard/Sessions/SignIns.antt =====
-- cmd/aks-sandbox-dashboard/auth.go: a session from its sign-in to its sign-out.
use opensandbox_aks_governan.Base.{
  ℕ, String, Bool, true, false, none, some, ◌≡◌, ◌≢◌, refl, ap, ◌∙◌, inl, inr, arith, eq_iff,
  find_key, put_key, find_key-put_key, find_key-delete_key_self, is_empty, Bool-cases, Result, ok,
  err, leb, length, ◌==◌, string_eq,
}
use opensandbox_aks_governan.Dashboard.Handled.{Handled, refused, passed, attempt-eq-passed}
use opensandbox_aks_governan.Dashboard.Principals.{AuthenticatedIdentity}
use opensandbox_aks_governan.Dashboard.Sessions.{
  DashboardSession, Sessions, SignIn, max_sessions, cleanup, live_only, add_session, delete_session,
  get_session, unavailable, prepare, enter, create_session,
}

module _ (digest : String → String) where
  -- What a table gives for an ID that is not empty.
  get_session-digest :
      (now : ℕ) (raw : String) (t : Sessions)
      → is_empty raw ≡ false
      → get_session digest now raw t ≡ live_only now (find_key (digest raw) t)
  unfolding get_session
  get_session-digest now raw t given = rw given refl

  delete_session-get_session :
      (now : ℕ) (raw : String) (t : Sessions)
      → is_empty raw ≡ false
      → get_session digest now raw (delete_session digest raw t) ≡ none
  unfolding get_session delete_session
  delete_session-get_session now raw t given =
      rw (given, find_key-delete_key_self (digest raw) t) refl

  add_session-table :
      (now : ℕ) (s : DashboardSession) (id : Result String) (t : Sessions) (raw : String)
      → (add_session digest now s id t).1 ≡ ok raw
      → (add_session digest now s id t).0 ≡ put_key (digest raw) s (cleanup now t)
  add_session-table now s (err e) t raw h = cc
  add_session-table now s (ok drawn) t raw h =
      elim (Bool-cases (leb max_sessions (length (cleanup now t)))) [
        | inl full ↦ absurd (cc (rw full at h))
        | inr room ↦
            rw room (ap (λ r. put_key (digest r) s (cleanup now t)) (same_id (rw room at h)))
      ]
    where
      same_id : {a b : String} → ok a ≡ ok b → a ≡ b
      same_id e = cc

  module _ (equal_fold : String → String → Bool) (validate : String → Result AuthenticatedIdentity)
      (first_bytes : ℕ → String → String × String) (session_lifetime : ℕ) where
    -- A session that was entered under an ID: it is found until it is over, it is not found once it is
    -- signed out, and no other digest finds anything new.
    pub record IsEntered (q : SignIn) (t after : Sessions) (raw : String) (s : DashboardSession)
        : Type 0 where
      pub prepared : prepare digest equal_fold validate first_bytes session_lifetime q ≡ passed s
      pub found : (now : ℕ) → get_session digest now raw after ≡ live_only now (some s)
      pub signed_out :
          (now : ℕ) → get_session digest now raw (delete_session digest raw after) ≡ none
      pub others :
          (now : ℕ) (other : String)
          → digest raw ≢ digest other
          → get_session digest now other after
            ≡ get_session digest now other (cleanup q.cleaned_at t)

    put-others :
        (now : ℕ) (raw other : String) (s : DashboardSession) (t : Sessions)
        → digest raw ≢ digest other
        → get_session digest now other (put_key (digest raw) s t) ≡ get_session digest now other t
    unfolding get_session
    put-others now raw other s t apart =
        let differs : (digest raw == digest other) ≡ false =
          ground (arith, eq_iff (digest raw) (digest other)) in
        rw (find_key-put_key (digest raw) (digest other) s t, differs) refl

    table-IsEntered :
        (q : SignIn) (t : Sessions) (raw : String) (s : DashboardSession)
        → prepare digest equal_fold validate first_bytes session_lifetime q ≡ passed s
        → is_empty raw ≡ false
        → (add_session digest q.cleaned_at s q.random_id t).1 ≡ ok raw
        → IsEntered q t (add_session digest q.cleaned_at s q.random_id t).0 raw s
    table-IsEntered q t raw s prepared given h =
        let table = add_session-table q.cleaned_at s q.random_id t raw h in
        let self : (digest raw == digest raw) ≡ true =
          ground (arith, eq_iff (digest raw) (digest raw)) in
        record {
          prepared = prepared;
          found = λ now.
              get_session-digest now raw _ given
              ∙ ap (live_only now) {y = some s} (
                  rw
                    (
                      table,
                      find_key-put_key (digest raw) (digest raw) s (cleanup q.cleaned_at t),
                      self,
                    )
                    refl);
          signed_out = λ now. delete_session-get_session now raw _ given;
          others = λ now other apart.
              rw table (put-others now raw other s (cleanup q.cleaned_at t) apart);
        }

    -- After a sign-in that returns an ID, which is not empty, the ID finds exactly the session that was
    -- prepared, until it is over or signed out, and the sign-in changes nothing else but that sessions
    -- that are over are removed.
    pub create_session-get_session :
        (q : SignIn) (t : Sessions) (raw : String)
        → (create_session digest equal_fold validate first_bytes session_lifetime q t).1
          ≡ passed raw
        → is_empty raw ≡ false
        → (s : DashboardSession) × IsEntered q t
            (create_session digest equal_fold validate first_bytes session_lifetime q t).0
            raw
            s
    unfolding create_session
    create_session-get_session q t raw h given =
        from (prepare digest equal_fold validate first_bytes session_lifetime q) refl h
      where
        from :
            (p : Handled DashboardSession)
            → prepare digest equal_fold validate first_bytes session_lifetime q ≡ p
            → (enter digest equal_fold validate first_bytes session_lifetime q t p).1 ≡ passed raw
            → (s : DashboardSession) × IsEntered q t
                (enter digest equal_fold validate first_bytes session_lifetime q t p).0
                raw
                s
        from (refused response) same k = absurd (cc)
        from (passed s) same k = (
          s,
          table-IsEntered q t raw s same given (
              attempt-eq-passed
                (unavailable digest equal_fold validate first_bytes session_lifetime)
                (add_session digest q.cleaned_at s q.random_id t).1 k),
        )
