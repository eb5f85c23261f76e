-- ===== src/Examples/CallerAuth.antt =====
-- A caller with one active binding.
use opensandbox_aks_governan.Base.{
  true, false, List, [], ◌∷◌, ◌≡◌, refl, contains, string_eq, trim_space, ok,
}
use opensandbox_aks_governan.CallerAuth.{
  Review, Binding, Answers, bearer_token, service_account_identity, service_account_tenants, served,
  answered, middleware, authorize_tenant,
}
use opensandbox_aks_governan.CallerAuth.Laws.{IsCaller, middleware-authorize_tenant}

abbrev active_binding : Binding
active_binding = record {
  deleting = false;
  namespace = "apps";
  name = "bot";
  tenants = "team-a" ∷ "team-b" ∷ [];
}

abbrev old_binding : Binding
old_binding = record active_binding { deleting = true; tenants = "team-c" ∷ [] }

abbrev answers : Answers
answers = record {
  review = λ token. ok (record {
    authenticated = true;
    audiences = "facade" ∷ [];
    username = "system:serviceaccount:apps:bot";
  });
  bindings = ok (old_binding ∷ active_binding ∷ []);
}

served_run : middleware answers "bearer token-1" ≡ served ("team-a" ∷ "team-b" ∷ [])
unfolding middleware bearer_token service_account_identity service_account_tenants trim_space
served_run = refl

-- Two active bindings refuse the caller.
ambiguous_run :
    middleware
      (record answers { bindings = ok (active_binding ∷ active_binding ∷ []) })
      "Bearer token-1"
    ≡ answered 403
unfolding middleware bearer_token service_account_identity service_account_tenants trim_space
ambiguous_run = refl

middleware-authorize_tenant_example :
    (r : Review) × (list : List Binding) × (b : Binding) × IsCaller answers "bearer token-1" r list
      b
    × (contains b.tenants "team-b" ≡ true)
unfolding authorize_tenant
middleware-authorize_tenant_example =
    middleware-authorize_tenant answers "bearer token-1" ("team-a" ∷ "team-b" ∷ []) "team-b"
      served_run refl
