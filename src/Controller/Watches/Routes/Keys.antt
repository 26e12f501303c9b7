-- ===== src/Controller/Watches/Routes/Keys.antt =====
-- The index keys of a route, and the backends that it publishes.
use mathlib.Core.List.{Memᴰ}
use mathlib.Core.List.Memᴰ.{head, tail}
use labdns.Base.{
  ◌≡◌, refl, sym, subst, true, Option, none, some, List, [], ◌∷◌, Text, codes, is_empty, contains,
  contains-set_insert_all, list_eq, nat_eq, pair_eq, arith, get_or, ◌==◌, ==_refl, set_insert,
  Bool-cases, Option-cases, inl, inr, any, text_ord,
}
use labdns.Base.Results.{Result, ok, err, Result-cases}
use labdns.Platform.{Platform}
use labdns.Source.Errors.{SourceError}
use labdns.Source.Diagnostics.{Diagnostic, warning, emit}
use labdns.Source.Types.{Backend}
use labdns.Source.Projection.{backend_eq, backend_set}
use labdns.Source.Routes.{
  kind_name, Route, ObjectReference, ReferenceGrant, route_backend, collect_backends,
  route_backend_refs, route_projection, route_hostnames, is_service_ref, permits,
}
use labdns.Controller.Watches.Index.{
  route_backend_keys, service_keys, key_of, slash, gateway_keys, is_gateway_ref,
}
use labdns.Controller.Watches.Backends.Preserved.{
  AllOf, ProjectionNamed, set_insert-AllOf, backend_set-AllOf, same_backends-HostsNamed,
}

contains-service_keys :
    (own : Text) (refs : List ObjectReference) (ref : ObjectReference)
    → Memᴰ ref refs
    → is_service_ref ref ≡ true
    → contains (service_keys own refs) (key_of own ref) ≡ true
contains-service_keys own [] ref m h = elim m [ ]
contains-service_keys own (x ∷ refs) ref (head same) h =
    subst (λ y. contains (service_keys own (y ∷ refs)) (key_of own ref) ≡ true) same
      (rw h (rw (==_refl (key_of own ref)) refl))
contains-service_keys own (x ∷ refs) ref (tail m) h =
    ground (arith, contains-service_keys own refs ref m h)

pub contains-gateway_keys :
    (own : Text) (refs : List ObjectReference) (ref : ObjectReference)
    → Memᴰ ref refs
    → is_gateway_ref ref ≡ true
    → contains (gateway_keys own refs) (key_of own ref) ≡ true
contains-gateway_keys own [] ref m h = elim m [ ]
contains-gateway_keys own (x ∷ refs) ref (head same) h =
    subst (λ y. contains (gateway_keys own (y ∷ refs)) (key_of own ref) ≡ true) same
      (rw h (rw (==_refl (key_of own ref)) refl))
contains-gateway_keys own (x ∷ refs) ref (tail m) h =
    ground (arith, contains-gateway_keys own refs ref m h)

-- The index of the route holds the key of the backend.
abbrev pub IsIndexed : Route → Backend → Type 0
IsIndexed route b = contains (route_backend_keys route) (slash b.namespace b.name) ≡ true

pub ref-IsIndexed :
    (route : Route) (ref : ObjectReference)
    → Memᴰ ref (route_backend_refs route.rules)
    → is_service_ref ref ≡ true
    → contains (route_backend_keys route) (key_of route.namespace ref) ≡ true
unfolding route_backend_keys
ref-IsIndexed route ref m h = ground (
  arith,
  contains-set_insert_all (service_keys route.namespace (route_backend_refs route.rules)) []
      (key_of route.namespace ref),
  contains-service_keys route.namespace (route_backend_refs route.rules) ref m h,
)

module _ (list_grants : Text → Option (List ReferenceGrant)) where
  -- A backend is the Service of its reference.
  route_backend_lem :
      (route : Route) (ref : ObjectReference) (b : Backend)
      → route_backend list_grants route ref ≡ ok (some b)
      → (is_service_ref ref ≡ true)
        × (b ≡ record { namespace = get_or ref.namespace route.namespace; name = ref.name })
  unfolding route_backend
  route_backend_lem route ref b h = elim (Bool-cases (is_service_ref ref)) [
    | inr other_kind ↦ absurd (ground (arith, h, other_kind))
    | inl service ↦ elim (Bool-cases (get_or ref.namespace route.namespace == route.namespace)) [
      | inl own ↦ (service, ground (arith, h, service, own))
      | inr other ↦ elim (Option-cases (list_grants (get_or ref.namespace route.namespace))) [
        | inl unread ↦ absurd (ground (arith, h, service, other, unread))
        | inr (grants, read) ↦ elim (Bool-cases (any (permits route ref.name) grants)) [
          | inl granted ↦ (service, ground (arith, h, service, other, read, granted))
          | inr denied ↦ absurd (ground (arith, h, service, other, read, denied))
        ]
      ]
    ]
  ]

  abbrev Collected : Route → Result SourceError (List Backend) → Type 0
  Collected route (err e) = Unit
  Collected route (ok all) = AllOf (IsIndexed route) all

  collect_backends-IsIndexed :
      (route : Route) (refs : List ObjectReference) (all : List Backend)
      (reported : List Diagnostic)
      → ((ref : ObjectReference) → Memᴰ ref refs → Memᴰ ref (route_backend_refs route.rules))
      → AllOf (IsIndexed route) all
      → Collected route (collect_backends list_grants route all reported refs).0
  unfolding collect_backends
  collect_backends-IsIndexed route [] all reported sub h = h
  collect_backends-IsIndexed route (ref ∷ refs) all reported sub h =
      elim (Result-cases (route_backend list_grants route ref)) [
        | inr (e, found) ↦ rw (found, collect_backends) tt
        | inl (none, found) ↦
            rw (found, collect_backends)
              (collect_backends-IsIndexed route refs all
                (emit
                  (warning (codes "UnsupportedBackend")
                    (kind_name route.kind ∷ route.namespace ∷ route.name ∷ ref.name ∷ []))
                  reported)
                (λ r m. sub r (tail m)) h)
        | inl (some b, found) ↦
            let (service, same) = route_backend_lem route ref b found in
            rw (found, collect_backends)
              (collect_backends-IsIndexed route refs (set_insert b all) reported
                (λ r m. sub r (tail m))
                (set_insert-AllOf (IsIndexed route) b all
                  (subst (IsIndexed route) (sym same)
                    (ref-IsIndexed route ref (sub ref (head refl)) service))
                  h))
      ]

  pub projected-IsIndexed :
      (p : Platform) (route : Route) (overrides : List Text)
      → ProjectionNamed (IsIndexed route) (route_projection list_grants p route overrides).0
  unfolding route_projection
  projected-IsIndexed p route overrides =
      let refs = route_backend_refs route.rules in
      let collected =
        collect_backends-IsIndexed route refs [] [] (λ ref m. m) (λ b m. ground (arith, m)) in
      elim (Result-cases (collect_backends list_grants route [] [] refs).0) [
        | inr (e, bad) ↦ rw (bad, route_projection) tt
        | inl (all, found) ↦ elim (Result-cases (route_hostnames p route overrides)) [
          | inr (e, bad) ↦ rw (found, route_projection) (rw bad tt)
          | inl (hosts, named) ↦ elim (Bool-cases (is_empty all)) [
            | inl nothing ↦ rw (found, route_projection) (rw named (rw nothing tt))
            | inr some_backend ↦
                rw (found, route_projection)
                  (rw named (
                    rw some_backend (
                      same_backends-HostsNamed (IsIndexed route) (backend_set all) hosts (
                        backend_set-AllOf (IsIndexed route) all
                          (subst (Collected route) found collected)))))
          ]
        ]
      ]
