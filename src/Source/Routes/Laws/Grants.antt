-- ===== src/Source/Routes/Laws/Grants.antt =====
-- internal/source/projection.go: what a reference and a ReferenceGrant say.
use mathlib.Core.List.{Memᴰ}
use mathlib.Core.List.Memᴰ.{head, tail}
use labdns.Base.{
  ◌≡◌, refl, sym, true, ◌⊎◌, inl, inr, Option, none, some, List, [], ◌∷◌, Text, any, ==_iff,
  list_eq, nat_eq, arith, get_or, Bool-cases, is_empty,
}
use labdns.Source.Projection.{backend_eq}
use labdns.Source.Routes.{
  kind_name, ObjectReference, Route, ReferenceGrant, permits, from_route, to_service, gateway_group,
  service_kind,
}

-- The reference names a core Service.
abbrev pub IsServiceReference : ObjectReference → Type 0
IsServiceReference ref = (get_or ref.group [] ≡ []) × (get_or ref.kind service_kind ≡ service_kind)

-- The grant has an entry for routes of this kind and namespace, and one for the Service.
abbrev pub IsGranted : Route → Text → ReferenceGrant → Type 0
IsGranted route service grant =
    Memᴰ (gateway_group, (kind_name route.kind, route.namespace)) grant.from
    × (Memᴰ ([], (service_kind, none)) grant.to ⊎ Memᴰ ([], (service_kind, some service)) grant.to)

pub is_empty_lem : (s : Text) → is_empty s ≡ true → s ≡ []
is_empty_lem [] h = refl
is_empty_lem (c ∷ s) h = absurd (ground (arith, h))

from_route-Memᴰ :
    (route : Route) (entries : List (Text × (Text × Text)))
    → any (from_route route) entries ≡ true
    → Memᴰ (gateway_group, (kind_name route.kind, route.namespace)) entries
from_route-Memᴰ route [] h = absurd (ground (arith, h))
from_route-Memᴰ route ((group, (kind, namespace)) ∷ entries) h =
    elim (Bool-cases (from_route route (group, (kind, namespace)))) [
      | inl fits ↦ head (
          ground (
            arith,
            fits,
            ==_iff group gateway_group,
            ==_iff kind (kind_name route.kind),
            ==_iff namespace route.namespace,
          ))
      | inr other ↦ tail (from_route-Memᴰ route entries (ground (arith, h, other)))
    ]

-- An entry for all Services, and one for a Service.
abbrev Entry : Type 0
Entry = Text × (Text × Option Text)

abbrev every_service : Entry
every_service = ([], (service_kind, none))

abbrev this_service : Text → Entry
this_service service = ([], (service_kind, some service))

to_service-entry :
    (service group kind : Text) (allowed : Option Text)
    → to_service service (group, (kind, allowed)) ≡ true
    → let entry : Entry = (group, (kind, allowed)) in
      (entry ≡ every_service) ⊎ (entry ≡ this_service service)
to_service-entry service (c ∷ group) kind allowed h = absurd (ground (arith, h))
to_service-entry service [] kind none h = inl (ground (arith, h, ==_iff kind service_kind))
to_service-entry service [] kind (some one) h =
    inr (ground (arith, h, ==_iff kind service_kind, ==_iff one service))

to_service-Memᴰ :
    (service : Text) (entries : List (Text × (Text × Option Text)))
    → any (to_service service) entries ≡ true
    → Memᴰ ([], (service_kind, none)) entries ⊎ Memᴰ ([], (service_kind, some service)) entries
to_service-Memᴰ service [] h = absurd (ground (arith, h))
to_service-Memᴰ service ((group, (kind, allowed)) ∷ entries) h =
    elim (Bool-cases (to_service service (group, (kind, allowed)))) [
      | inl fits ↦ elim (to_service-entry service group kind allowed fits) [
        | inl same ↦ inl (head (sym same))
        | inr same ↦ inr (head (sym same))
      ]
      | inr other ↦ elim (to_service-Memᴰ service entries (ground (arith, h, other))) [
        | inl all ↦ inl (tail all)
        | inr one ↦ inr (tail one)
      ]
    ]

pub permits-IsGranted :
    (route : Route) (service : Text) (grants : List ReferenceGrant)
    → any (permits route service) grants ≡ true
    → (grant : ReferenceGrant) × Memᴰ grant grants × IsGranted route service grant
unfolding permits
permits-IsGranted route service [] h = absurd (ground (arith, h))
permits-IsGranted route service (grant ∷ grants) h =
    elim (Bool-cases (permits route service grant)) [
      | inl fits ↦ (
        grant,
        head refl,
        (
          from_route-Memᴰ route grant.from (ground (arith, fits)),
          to_service-Memᴰ service grant.to (ground (arith, fits)),
        ),
      )
      | inr other ↦
          let (found, member, granted) =
            permits-IsGranted route service grants (ground (arith, h, other)) in
          (found, tail member, granted)
    ]
