-- ===== src/Source/Routes/Laws.antt =====
-- Which backends a route may publish.
pub mod Grants
use mathlib.Core.List.{Memᴰ}
use mathlib.Core.List.Memᴰ.{head, tail}
use labdns.Base.{
  ◌≡◌, refl, sym, subst, true, ◌⊎◌, inl, inr, Option, none, some, List, [], ◌∷◌, Text, codes, any,
  contains, set_insert, contains-set_insert, ◌==◌, ==_iff, list_eq, nat_eq, arith, get_or,
  Option-cases, Bool-cases, is_empty,
}
use labdns.Base.Results.{Result, ok, err, Result-cases}
use labdns.Source.Types.{Backend}
use labdns.Source.Diagnostics.{Diagnostic, warning, emit}
use labdns.Source.Errors.{SourceError}
use labdns.Source.Projection.{backend_eq}
use labdns.Source.Routes.{
  kind_name, ObjectReference, Route, ReferenceGrant, permits, route_backend, collect_backends,
  is_service_ref, from_route, to_service, gateway_group, service_kind,
}
use labdns.Source.Routes.Laws.Grants.{
  IsGranted, IsServiceReference, is_empty_lem, permits-IsGranted,
}

module _ (list_grants : Text → Option (List ReferenceGrant)) where
  -- A backend in the route's own namespace, or one that a ReferenceGrant of its namespace lets the
  -- route reach.
  abbrev pub IsReachable : Route → Backend → Type 0
  IsReachable route b =
      (b.namespace ≡ route.namespace)
      ⊎ ((grants : List ReferenceGrant) × (grant : ReferenceGrant) × (list_grants b.namespace
            ≡ some grants)
          × Memᴰ grant grants
          × IsGranted route b.name grant)

  -- The backend is the Service that one of the references names, and the route may reach it.
  abbrev pub IsAllowed : Route → List ObjectReference → Backend → Type 0
  IsAllowed route refs b =
      (ref : ObjectReference) × Memᴰ ref refs
      × IsServiceReference ref
      × (b ≡ record { namespace = get_or ref.namespace route.namespace; name = ref.name })
      × IsReachable route b

  abbrev Grants : Route → ObjectReference → Result SourceError (Option Backend) → Type 0
  Grants route ref (err e) = Unit
  Grants route ref (ok none) = Unit
  Grants route ref (ok (some b)) = IsAllowed route (ref ∷ []) b

  service_reference : (ref : ObjectReference) → is_service_ref ref ≡ true → IsServiceReference ref
  service_reference ref h = (
    is_empty_lem (get_or ref.group []) (ground (arith, h)),
    (==_iff (get_or ref.kind service_kind) service_kind).0 (ground (arith, h)),
  )

  route_backend-Grants :
      (route : Route) (ref : ObjectReference)
      → Grants route ref (route_backend list_grants route ref)
  unfolding route_backend
  route_backend-Grants route ref = elim (Bool-cases (is_service_ref ref)) [
    | inr other_kind ↦ rw (other_kind, route_backend) tt
    | inl service ↦ elim (Bool-cases (get_or ref.namespace route.namespace == route.namespace)) [
      | inl own ↦
          rw (service, route_backend)
            (rw own (
              ref,
              head refl,
              service_reference ref service,
              refl,
              inl ((==_iff (get_or ref.namespace route.namespace) route.namespace).0 own),
            ))
      | inr other ↦ elim (Option-cases (list_grants (get_or ref.namespace route.namespace))) [
        | inl unread ↦ rw (service, route_backend) (rw other (rw unread tt))
        | inr (grants, read) ↦ elim (Bool-cases (any (permits route ref.name) grants)) [
          | inl granted ↦
              let (grant, member, good) = permits-IsGranted route ref.name grants granted in
              rw (service, route_backend)
                (rw other (
                  rw read (
                    rw granted (
                      ref,
                      head refl,
                      service_reference ref service,
                      refl,
                      inr (grants, grant, read, member, good),
                    ))))
          | inr denied ↦ rw (service, route_backend) (rw other (rw read (rw denied tt)))
        ]
      ]
    ]
  ]

  insert-IsAllowed :
      (route : Route) (refs : List ObjectReference) (b : Backend) (all : List Backend)
      → IsAllowed route refs b
      → ((c : Backend) → contains all c ≡ true → IsAllowed route refs c)
      → (c : Backend) → contains (set_insert b all) c ≡ true
      → IsAllowed route refs c
  insert-IsAllowed route refs b all one rest c h = elim (Bool-cases (c == b)) [
    | inl same ↦ subst (IsAllowed route refs) (sym ((==_iff c b).0 same)) one
    | inr other ↦ rest c (ground (arith, h, other, contains-set_insert b all c))
  ]

  -- Every backend of the answer passes.
  abbrev AllAllowed : Route → List ObjectReference → Result SourceError (List Backend) → Type 0
  AllAllowed route refs (err e) = Unit
  AllAllowed route refs (ok all) = (c : Backend) → contains all c ≡ true → IsAllowed route refs c

  among :
      (route : Route) (refs : List ObjectReference) (ref : ObjectReference) (b : Backend)
      → Memᴰ ref refs
      → IsAllowed route (ref ∷ []) b
      → IsAllowed route refs b
  among route refs ref b member (one, head same, service, named, reachable) =
      (one, subst (λ r. Memᴰ r refs) (sym same) member, service, named, reachable)
  among route refs ref b member (one, tail none_such, service, named, reachable) =
      elim none_such [ ]

  collect_from :
      (route : Route) (every : List ObjectReference) (all : List Backend)
      (reported : List Diagnostic) (refs : List ObjectReference)
      → ((ref : ObjectReference) → Memᴰ ref refs → Memᴰ ref every)
      → ((c : Backend) → contains all c ≡ true → IsAllowed route every c)
      → AllAllowed route every (collect_backends list_grants route all reported refs).0
  unfolding collect_backends
  collect_from route every all reported [] inside h = h
  collect_from route every all reported (ref ∷ refs) inside h =
      elim (Result-cases (route_backend list_grants route ref)) [
        | inr (e, found) ↦ rw (found, collect_backends) tt
        | inl (none, found) ↦
            rw (found, collect_backends)
              (collect_from route every all
                (emit
                  (warning (codes "UnsupportedBackend")
                    (kind_name route.kind ∷ route.namespace ∷ route.name ∷ ref.name ∷ []))
                  reported)
                refs (λ r m. inside r (tail m)) h)
        | inl (some b, found) ↦
            rw (found, collect_backends)
              (collect_from route every (set_insert b all) reported refs (λ r m. inside r (tail m))
                (insert-IsAllowed route every b all
                  (among route every ref b (inside ref (head refl))
                    (subst (Grants route ref) found (route_backend-Grants route ref)))
                  h))
      ]

  -- Each backend that is collected from the references of a route is the Service that one of them
  -- names, of the core group and the kind Service. It is in the route's own namespace, or a
  -- ReferenceGrant of its namespace has an entry for routes of this kind and namespace and one for
  -- this Service or for all Services.
  pub collect_backends-IsAllowed :
      (route : Route) (refs : List ObjectReference) (all : List Backend) (b : Backend)
      → (collect_backends list_grants route [] [] refs).0 ≡ ok all
      → contains all b ≡ true
      → IsAllowed route refs b
  collect_backends-IsAllowed route refs all b h member =
      (subst (AllAllowed route refs) h
          (collect_from route refs [] [] refs (λ r m. m) (λ c e. ground (arith, e))))
        b member
