-- ===== src/Authz/Programs/Laws.antt =====
-- The cache of compiled expressions changes nothing but the time: where each key stands for one
-- expression, a look-up gives what compiling gives.
use opensandbox_aks_governan.Base.{
  String, Bool, true, false, ◌≡◌, ◌≤◌, refl, sym, subst, ◌∙◌, inl, inr, arith, Option, none, some,
  List, [], leb, if◌then◌else◌, length, ◌==◌, string_eq, eq_iff, find_key, put_key,
  find_key-put_key, length-delete_key-le, Bool-cases, Result, ok, err,
}
use opensandbox_aks_governan.Authz.Programs.{
  Cel, max_compiled_programs, build_program, store_program, program_cached, program_for,
}

module _ {Input : Type 0} (c : Cel Input) where
  -- The cache never holds more than 1024 programs.
  program_cached-length :
      (key text : String) (values : List (String × c.Program)) (found : Option c.Program)
      (built : Result c.Program)
      → length values ≤ max_compiled_programs
      → length (store_program c key values built).0 ≤ max_compiled_programs
  program_cached-length key text values found (err e) h = h
  program_cached-length key text values found (ok p) h =
      ground (arith, length-delete_key-le key values)

  -- Every cached program is the one that its key's expression compiles to.
  abbrev pub IsFaithful : (String → String) → List (String × c.Program) → Type 0
  IsFaithful text_of values =
      (key : String) (p : c.Program)
      → find_key key values ≡ some p
      → build_program c (text_of key) ≡ ok p

  module _ (text_of : String → String) (key : String) where
    put-IsFaithful :
        (values : List (String × c.Program)) (p : c.Program)
        → IsFaithful text_of values
        → build_program c (text_of key) ≡ ok p
        → IsFaithful text_of (put_key key p values)
    put-IsFaithful values p old built other q found =
        let step : (if key == other then some p else find_key other values) ≡ some q =
          sym (find_key-put_key key other p values) ∙ found in
        elim (Bool-cases (key == other)) [
          | inl same ↦
              let here : p ≡ q = cc in
              subst (λ k. build_program c (text_of k) ≡ ok q) ((eq_iff key other).0 same)
                (built ∙ cc)
          | inr apart ↦ old other q (rw apart at step)
        ]

    store-IsFaithful :
        (values : List (String × c.Program)) (built : Result c.Program)
        → IsFaithful text_of values
        → build_program c (text_of key) ≡ built
        → IsFaithful text_of (store_program c key values built).0
          × ((store_program c key values built).1 ≡ built)
    store-IsFaithful values (err e) old same = (old, refl)
    store-IsFaithful values (ok p) old same =
        (put-IsFaithful (if full then [] else values) p (kept full) same, refl)
      where
        full : Bool
        full = leb max_compiled_programs (length values)

        kept : (b : Bool) → IsFaithful text_of (if b then [] else values)
        kept true other q found = absurd (cc)
        kept false other q found = old other q found

    cached-IsFaithful :
        (values : List (String × c.Program)) (found : Option c.Program)
        → find_key key values ≡ found
        → IsFaithful text_of values
        → IsFaithful text_of (program_cached c key (text_of key) values found).0
          × ((program_cached c key (text_of key) values found).1 ≡ build_program c (text_of key))
    cached-IsFaithful values (some p) at old = (old, sym (old key p at))
    cached-IsFaithful values none at old =
        store-IsFaithful values (build_program c (text_of key)) old refl

    -- Where every key stands for one expression, looking a program up gives exactly what compiling
    -- the expression gives, errors included, and the cache stays faithful.
    pub program_for-IsFaithful :
        (values : List (String × c.Program))
        → IsFaithful text_of values
        → IsFaithful text_of (program_for c key (text_of key) values).0
          × ((program_for c key (text_of key) values).1 ≡ build_program c (text_of key))
    unfolding program_for
    program_for-IsFaithful values old = cached-IsFaithful values (find_key key values) refl old
