-- ===== src/Source/Routes.antt =====
-- internal/source/projection.go: Gateway API routes and the backends that they may reach.
pub mod Laws
use labdns.Base.{
  ℕ, Bool, true, false, ◌&&◌, ◌||◌, not, Option, none, some, List, [], ◌∷◌, ◌++◌, Text, Map, codes,
  is_empty, any, contains, set_insert, if◌then◌else◌, ◌==◌, list_eq, nat_eq, get_or,
}
use labdns.Base.Results.{Result, ok, err}
use labdns.Platform.{Platform}
use labdns.Source.Types.{Backend, HostProjection, http_route_kind, tcp_route_kind, udp_route_kind}
use labdns.Source.Errors.{SourceError, wrapped, plain}
use labdns.Source.Names.{normalize_hostname}
use labdns.Source.Annotations.{sorted_unique}
use labdns.Source.Diagnostics.{Diagnostic, normal, warning, emit, emit_if}
use labdns.Source.Projection.{backend_eq, backend_set, same_backends}

-- The Gateway route objects that the program supports.
pub data RouteKind : Type 0 where
  http_route tcp_route udp_route : RouteKind

abbrev pub kind_name : RouteKind → Text
kind_name http_route = http_route_kind
kind_name tcp_route = tcp_route_kind
kind_name udp_route = udp_route_kind

-- `RouteObject` for the name of a kind; any other kind has none.
unfoldable pub route_object : Text → Option RouteKind
route_object kind =
    if kind == http_route_kind
    then some http_route
    else if kind == tcp_route_kind
    then some tcp_route
    else if kind == udp_route_kind
    then some udp_route
    else none

-- `gatewayv1.BackendObjectReference` and `ParentReference`.
pub record ObjectReference : Type 0 where
  pub group : Option Text
  pub kind : Option Text
  pub namespace : Option Text
  pub name : Text

-- A route: `rules` holds the references of each rule; only an HTTPRoute has host names.
pub record Route : Type 0 where
  pub kind : RouteKind
  pub namespace : Text
  pub name : Text
  pub uid : Text
  pub annotations : Map Text Text
  pub parents : List ObjectReference
  pub hostnames : List Text
  pub rules : List (List ObjectReference)

-- The references of all rules, in order.
unfoldable pub route_backend_refs : List (List ObjectReference) → List ObjectReference
route_backend_refs [] = []
route_backend_refs (refs ∷ rules) = refs ++ route_backend_refs rules

-- `gatewayv1beta1.ReferenceGrant`: from group, kind and namespace, to group, kind and maybe name.
pub record ReferenceGrant : Type 0 where
  pub from : List (Text × (Text × Text))
  pub to : List (Text × (Text × Option Text))

abbrev pub gateway_group : Text
gateway_group = codes "gateway.networking.k8s.io"

abbrev pub service_kind : Text
service_kind = codes "Service"

abbrev pub from_route : Route → Text × (Text × Text) → Bool
from_route route (group, (kind, namespace)) =
    (group == gateway_group) && (kind == kind_name route.kind) && (namespace == route.namespace)

abbrev pub name_allowed : Option Text → Text → Bool
name_allowed none name = true
name_allowed (some allowed) name = allowed == name

abbrev pub to_service : Text → Text × (Text × Option Text) → Bool
to_service service (group, (kind, name)) =
    is_empty group && (kind == service_kind) && name_allowed name service

-- Whether one grant lets the route reach the Service: the two inner loops, with their early exits.
unfoldable pub permits : Route → Text → ReferenceGrant → Bool
permits route service grant = any (from_route route) grant.from && any (to_service service) grant.to

abbrev pub is_service_ref : ObjectReference → Bool
is_service_ref ref =
    is_empty (get_or ref.group []) && (get_or ref.kind service_kind == service_kind)

unfoldable pub normalize_all : Platform → List Text → Result SourceError (List Text)
normalize_all p [] = ok []
normalize_all p (raw ∷ hostnames) = elim (normalize_hostname p raw) [
  | err e ↦ err e
  | ok host ↦ elim (normalize_all p hostnames) [ err e ↦ err e | ok rest ↦ ok (host ∷ rest) ]
]

abbrev pub is_http : RouteKind → Bool
is_http http_route = true
is_http _ = false

-- The overrides, else the route's own host names where it can have some.
unfoldable pub route_hostnames : Platform → Route → List Text → Result SourceError (List Text)
unfolding normalize_all
route_hostnames p route overrides =
    if is_empty overrides && is_http route.kind
    then elim (normalize_all p route.hostnames) [
      | err e ↦ err e
      | ok hostnames ↦ ok (sorted_unique hostnames)
    ]
    else ok overrides

abbrev about : Route → List Text
about route = kind_name route.kind ∷ route.namespace ∷ route.name ∷ []

module _ (list_grants : Text → Option (List ReferenceGrant)) where
  -- `list_grants` reads the ReferenceGrants of a namespace; `none` is an error of the API.
  unfoldable pub route_backend : Route → ObjectReference → Result SourceError (Option Backend)
  unfolding permits
  route_backend route ref =
      let namespace = get_or ref.namespace route.namespace in
      let backend : Backend = record { namespace = namespace; name = ref.name } in
      if not (is_service_ref ref)
      then ok none
      else if namespace == route.namespace
      then ok (some backend)
      else elim (list_grants namespace) [
        | none ↦ err (wrapped plain)
        | some grants ↦ if any (permits route ref.name) grants then ok (some backend) else ok none
      ]

  unfoldable pub collect_backends :
      Route
      → List Backend
      → List Diagnostic
      → List ObjectReference
      → Result SourceError (List Backend) × List Diagnostic
  unfolding route_backend
  collect_backends route all reported [] = (ok all, reported)
  collect_backends route all reported (ref ∷ refs) = elim (route_backend route ref) [
    | err e ↦ (err e, reported)
    | ok none ↦
        collect_backends route all
          (emit
            (warning (codes "UnsupportedBackend")
              (kind_name route.kind ∷ route.namespace ∷ route.name ∷ ref.name ∷ []))
            reported)
          refs
    | ok (some backend) ↦ collect_backends route (set_insert backend all) reported refs
  ]

  unfoldable pub route_projection :
      Platform → Route → List Text → Result SourceError (List HostProjection) × List Diagnostic
  unfolding collect_backends route_hostnames
  route_projection p route overrides =
      let refs = route_backend_refs route.rules in
      let (collected, reported) = collect_backends route [] [] refs in
      elim collected [
        | err e ↦ (err e, reported)
        | ok all ↦ elim (route_hostnames p route overrides) [
          | err e ↦ (err e, reported)
          | ok hostnames ↦ (
            ok (if is_empty all then [] else same_backends (backend_set all) hostnames),
            emit_if (is_empty refs) (normal (codes "NoBackendReferences") (about route)) (
                emit_if (is_empty hostnames) (normal (codes "NoPublishableHostname") (about route))
                  reported),
          )
        ]
      ]
