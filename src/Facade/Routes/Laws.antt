-- ===== src/Facade/Routes/Laws.antt =====
-- Which requests reach OpenSandbox without a check of the caller.
use opensandbox_aks_governan.Base.{
  String, Option, none, some, List, [], ◌∷◌, ◌⊎◌, Bool-cases, is_empty, has_char, split, ok, err,
  true, ◌≡◌, ◌≢◌, ◌↔◌, inl, inr, refl, arith, ◌==◌, string_eq, eq_iff, cut_prefix, Option-cases,
  Result,
}
use opensandbox_aks_governan.Facade.Routes.{
  trim_prefix, decoded_id, with_action, named, operation_of, sandbox_operation, Route, proxied,
  handler_of, under_sandboxes, route_path, route,
}

handler_of-proxied :
    (method action id : String) (r : Route) → handler_of method action id ≡ some r → r ≢ proxied
handler_of-proxied method action id r h k = ground (arith)

module _ (unescape : String → Result String) where
  unnamed_path :
      (method path : String) (operation : Option (String × String))
      → sandbox_operation unescape path ≡ operation
      → route_path unescape true method path ≡ proxied
      → sandbox_operation unescape path ≡ none
  unnamed_path method path none e h = e
  unnamed_path method path (some (id, action)) e h =
      elim (Option-cases (handler_of method action id)) [
        | inl free ↦ absurd (ground (arith))
        | inr (r, taken) ↦ absurd (handler_of-proxied method action id r taken (ground (arith)))
      ]

  listing_forward :
      (method path : String)
      → (path == "/sandboxes") ≡ true
      → sandbox_operation unescape path ≡ none
      → route_path unescape true method path ≢ proxied
  listing_forward method path e n h = ground (arith)

  -- The answer of the decoding is no name of a sandbox: an error, nothing, or a text with a slash.
  abbrev pub IsNoName : Result String → Type 0
  IsNoName (err e) = Unit
  IsNoName (ok id) = (is_empty id ≡ true) ⊎ (has_char b'/' id ≡ true)

  -- The segments name no operation on a sandbox: there are more than two, or the first is empty or
  -- does not decode to a name.
  abbrev pub IsUnnamed : List String → Type 0
  IsUnnamed [] = Unit
  IsUnnamed (first ∷ []) = (is_empty first ≡ true) ⊎ IsNoName (unescape first)
  IsUnnamed (first ∷ action ∷ []) = (is_empty first ≡ true) ⊎ IsNoName (unescape first)
  IsUnnamed (_ ∷ _ ∷ _ ∷ _) = Unit

  decoded_id_sound :
      (action : String) (answer : Result String)
      → with_action action (decoded_id answer) ≡ none
      → IsNoName answer
  decoded_id_sound action (err e) h = tt
  decoded_id_sound action (ok id) h = elim (Bool-cases (is_empty id)) [
    | inl blank ↦ inl blank
    | inr set ↦ inr (ground (arith))
  ]

  decoded_id_complete :
      (action : String) (answer : Result String)
      → IsNoName answer
      → with_action action (decoded_id answer) ≡ none
  decoded_id_complete action (err e) n = refl
  decoded_id_complete action (ok id) (inl blank) = rw blank refl
  decoded_id_complete action (ok id) (inr slashed) = ground (arith)

  named_sound :
      (first action : String)
      → named unescape first action ≡ none
      → (is_empty first ≡ true) ⊎ IsNoName (unescape first)
  named_sound first action h = elim (Bool-cases (is_empty first)) [
    | inl blank ↦ inl blank
    | inr set ↦ inr (decoded_id_sound action (unescape first) (rw set at h))
  ]

  named_complete :
      (first action : String)
      → (is_empty first ≡ true) ⊎ IsNoName (unescape first)
      → named unescape first action ≡ none
  named_complete first action (inl blank) = rw blank refl
  named_complete first action (inr n) =
      let missing = decoded_id_complete action (unescape first) n in ground (arith, missing)

  operation_sound :
      (segments : List String) → operation_of unescape segments ≡ none → IsUnnamed segments
  operation_sound [] h = tt
  operation_sound (first ∷ []) h = named_sound first "" h
  operation_sound (first ∷ action ∷ []) h = named_sound first action h
  operation_sound (_ ∷ _ ∷ _ ∷ _) h = tt

  operation_complete :
      (segments : List String) → IsUnnamed segments → operation_of unescape segments ≡ none
  operation_complete [] n = refl
  operation_complete (first ∷ []) n = named_complete first "" n
  operation_complete (first ∷ action ∷ []) n = named_complete first action n
  operation_complete (_ ∷ _ ∷ _ ∷ _) n = refl

  -- With a caller authorizer, a request under the handler's prefix is forwarded to OpenSandbox without
  -- that authorizer being asked for a sandbox exactly when its path starts with "/sandboxes/" and what
  -- follows has more than two segments, or a first segment that is empty or does not decode to a text
  -- that is neither empty nor has a slash.
  pub route-proxied_iff :
      (prefix method url path : String)
      → cut_prefix prefix url ≡ some path
      → (route unescape prefix true method url ≡ proxied) ↔ (
          (under_sandboxes path ≡ true)
          × (path ≢ "/sandboxes")
          × IsUnnamed (split b'/' (trim_prefix "/sandboxes/" path)))
  unfolding route sandbox_operation
  route-proxied_iff prefix method url path cut = rw cut (sound, complete)
    where
      sound :
          route_path unescape true method path ≡ proxied
          → (under_sandboxes path ≡ true)
            × (path ≢ "/sandboxes")
            × IsUnnamed (split b'/' (trim_prefix "/sandboxes/" path))
      sound h =
          let unnamed = unnamed_path method path (sandbox_operation unescape path) refl h in
          (
            ground (arith),
            λ e. listing_forward method path (ground (arith, eq_iff path "/sandboxes")) unnamed h,
            operation_sound (split b'/' (trim_prefix "/sandboxes/" path)) unnamed,
          )

      complete :
          (under_sandboxes path ≡ true)
            × (path ≢ "/sandboxes")
            × IsUnnamed (split b'/' (trim_prefix "/sandboxes/" path))
          → route_path unescape true method path ≡ proxied
      complete (under, other, segments) =
          let unnamed : sandbox_operation unescape path ≡ none =
            operation_complete (split b'/' (trim_prefix "/sandboxes/" path)) segments in
          ground (arith, eq_iff path "/sandboxes", unnamed)
