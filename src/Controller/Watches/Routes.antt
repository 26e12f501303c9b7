-- ===== src/Controller/Watches/Routes.antt =====
-- The events after which a Gateway route is reconciled.
pub mod Keys
use mathlib.Core.List.{Memᴰ}
use mathlib.Core.List.Memᴰ.{head, tail, append_left, append_right}
use labdns.Base.{
  ◌≡◌, refl, sym, subst, true, Option, none, some, List, [], ◌∷◌, Text, codes, is_empty, contains,
  contains-set_insert_all, list_eq, nat_eq, pair_eq, arith, get_or, ◌==◌, ==_iff, ==_refl, map,
  set_insert, Bool-cases, Option-cases, inl, inr, any, text_ord, NoByte, contains_byte,
}
use labdns.Base.Results.{Result, ok, err, Result-cases}
use labdns.Platform.{Platform}
use labdns.Source.Errors.{SourceError}
use labdns.Source.Diagnostics.{Diagnostic, warning, emit}
use labdns.Source.Types.{Backend, HostProjection}
use labdns.Source.Projection.{backend_eq, backend_set}
use labdns.Source.Routes.{
  RouteKind, http_route, tcp_route, udp_route, kind_name, Route, ObjectReference, ReferenceGrant,
  route_backend, collect_backends, route_backend_refs, route_projection, route_hostnames,
  is_service_ref, permits,
}
use labdns.Controller.Watches.Index.{
  Registration, Gateway, Slice, indexes, on_gateway, route_backend_keys, service_keys, key_of,
  slash, before_slash, route_backend_namespaces, route_parents, gateway_keys, is_gateway_ref,
  gateway_class, endpoint_nodes, endpoint_service, backend_service_index, backend_namespace_index,
  gateway_parent_index, gateway_class_index, route_indexes, base_indexes,
}
use labdns.Controller.Watches.Mapper.{
  Cache, route_request, routes, route_service, route_node, route_grant, route_gateway,
  route_gateway_class, of_class, concat_requests, gateways_by_class, all_gateways_of_class,
}
use labdns.Controller.Watches.Reads.{
  Cluster, IsCacheOf, contains-routes, contains-concat_requests, contains-dedupe, dependents_lem,
}
use labdns.Controller.Watches.Backends.{Publishes, Publishes-Named}
use labdns.Controller.Watches.Backends.Preserved.{
  AllOf, ProjectionNamed, set_insert-AllOf, backend_set-AllOf, same_backends-HostsNamed,
}
use labdns.Controller.Watches.Ingresses.{contains-sources_for_node}
use labdns.Controller.Watches.Routes.Keys.{
  IsIndexed, contains-gateway_keys, projected-IsIndexed, ref-IsIndexed,
}

route_registered :
    (kind : RouteKind) (index : Registration)
    → Memᴰ index (route_indexes kind)
    → Memᴰ index (indexes true)
unfolding indexes
route_registered http_route index m = append_right base_indexes (append_left _ m)
route_registered tcp_route index m =
    append_right base_indexes (append_right (route_indexes http_route) (append_left _ m))
route_registered udp_route index m = append_right base_indexes (
    append_right (route_indexes http_route)
      (append_right (route_indexes tcp_route) (append_left _ m)))

before_slash_lem : (s t : Text) → NoByte b'/' s → before_slash (slash s t) ≡ s
unfolding before_slash contains_byte
before_slash_lem [] t h = refl
before_slash_lem (c ∷ s) t h = ground (arith, before_slash_lem s t)

contains-map_before :
    (keys : List Text) (key : Text)
    → contains keys key ≡ true
    → contains (map before_slash keys) (before_slash key) ≡ true
contains-map_before [] key h = h
contains-map_before (k ∷ keys) key h = elim (Bool-cases (key == k)) [
  | inl same ↦
      subst (λ x. contains (map before_slash (x ∷ keys)) (before_slash key) ≡ true)
        ((==_iff key k).0 same) (rw (==_refl (before_slash key)) refl)
  | inr other ↦ ground (arith, h, other, contains-map_before keys key)
]

ref-namespace :
    (route : Route) (ref : ObjectReference) (namespace : Text)
    → Memᴰ ref (route_backend_refs route.rules)
    → is_service_ref ref ≡ true
    → get_or ref.namespace route.namespace ≡ namespace
    → NoByte b'/' namespace
    → contains (route_backend_namespaces route) namespace ≡ true
unfolding route_backend_namespaces
ref-namespace route ref namespace m h same clean =
    let keys = route_backend_keys route in
    ground (
      arith,
      contains-set_insert_all (map before_slash keys) [] namespace,
      subst (λ n. contains (map before_slash keys) n ≡ true)
          (subst (λ n. before_slash (slash n ref.name) ≡ namespace) (sym same)
            (before_slash_lem namespace ref.name clean))
          (contains-map_before keys (key_of route.namespace ref) (ref-IsIndexed route ref m h)),
    )

parent-IsIndexed :
    (route : Route) (ref : ObjectReference)
    → Memᴰ ref route.parents
    → is_gateway_ref ref ≡ true
    → contains (route_parents route) (key_of route.namespace ref) ≡ true
unfolding route_parents
parent-IsIndexed route ref m h = ground (
  arith,
  contains-set_insert_all (gateway_keys route.namespace route.parents) []
      (key_of route.namespace ref),
  contains-gateway_keys route.namespace route.parents ref m h,
)

module _ (cluster : Cluster) (cache : Cache) (good : IsCacheOf cluster cache)
    (kind : RouteKind) where
  published-enqueued :
      (p : Platform) (list_grants : Text → Option (List ReferenceGrant)) (route : Route)
      (overrides : List Text) (hosts : List HostProjection) (b : Backend)
      → Memᴰ route (cluster.routes kind)
      → (route_projection list_grants p route overrides).0 ≡ ok hosts
      → Publishes hosts b
      → contains
          (routes cache kind backend_service_index (slash b.namespace b.name))
          (route_request route)
        ≡ true
  published-enqueued p list_grants route overrides hosts b m e found =
      contains-routes cluster cache good kind route_backend_keys backend_service_index
        (slash b.namespace b.name) route (route_registered kind _ (head refl)) m
        (Publishes-Named (IsIndexed route) (route_projection list_grants p route overrides).0 hosts
          b (projected-IsIndexed list_grants p route overrides) e found)

  -- An event of a Service, and one of a Node with an endpoint of it, enqueues each stored route that
  -- projects a host name to the Service, where all lists can be read; indexed reads may fail.
  pub route_service_complete :
      (p : Platform) (list_grants : Text → Option (List ReferenceGrant)) (route : Route)
      (overrides : List Text) (hosts : List HostProjection) (b : Backend)
      → Memᴰ route (cluster.routes kind)
      → (route_projection list_grants p route overrides).0 ≡ ok hosts
      → Publishes hosts b
      → (contains (route_service cache kind b.namespace b.name) (route_request route) ≡ true)
        × ((slice : Slice) (node : Text)
            → Memᴰ slice cluster.slices
            → endpoint_service slice ≡ slash b.namespace b.name ∷ []
            → contains (endpoint_nodes slice) node ≡ true
            → contains (route_node cache kind node) (route_request route) ≡ true)
  unfolding route_service route_node
  route_service_complete p list_grants route overrides hosts b m e found =
      let enqueued = published-enqueued p list_grants route overrides hosts b m e found in
      (
        enqueued,
        λ slice node stored serves runs.
            contains-sources_for_node cluster cache good (routes cache kind backend_service_index)
              node (slash b.namespace b.name) slice (route_request route) stored runs serves
              enqueued,
      )

  -- An event of a ReferenceGrant enqueues each stored route that refers to a Service of the grant's
  -- namespace, granted or not, where the namespace holds no slash and all routes can be listed.
  pub route_grant_complete :
      (route : Route) (ref : ObjectReference) (namespace : Text)
      → Memᴰ route (cluster.routes kind)
      → Memᴰ ref (route_backend_refs route.rules)
      → is_service_ref ref ≡ true
      → get_or ref.namespace route.namespace ≡ namespace
      → NoByte b'/' namespace
      → contains (route_grant cache kind namespace) (route_request route) ≡ true
  unfolding route_grant
  route_grant_complete route ref namespace m member service same clean =
      contains-routes cluster cache good kind route_backend_namespaces backend_namespace_index
        namespace route (route_registered kind _ (tail (tail (tail (head refl))))) m
        (ref-namespace route ref namespace member service same clean)

  class_index : Memᴰ (gateway_class_index, on_gateway gateway_class) (indexes true)
  unfolding indexes
  class_index = append_right base_indexes (
      append_right (route_indexes http_route) (
        append_right (route_indexes tcp_route)
          (append_right (route_indexes udp_route) (head refl))))

  -- The Gateway is the one that the reference of the route names.
  abbrev pub IsParent : Route → ObjectReference → Gateway → Type 0
  IsParent route ref gateway =
      Memᴰ ref route.parents
      × (is_gateway_ref ref ≡ true)
      × (get_or ref.namespace route.namespace ≡ gateway.namespace)
      × (ref.name ≡ gateway.name)

  pub contains-route_gateway :
      (route : Route) (ref : ObjectReference) (gateway : Gateway)
      → Memᴰ route (cluster.routes kind)
      → IsParent route ref gateway
      → contains (route_gateway cache kind gateway) (route_request route) ≡ true
  unfolding route_gateway
  contains-route_gateway route ref gateway m (member, is_gateway, own, named) =
      contains-routes cluster cache good kind route_parents gateway_parent_index
        (slash gateway.namespace gateway.name) route (route_registered kind _ (tail (head refl))) m
        (subst (λ n. contains (route_parents route) (slash n gateway.name) ≡ true) own
          (subst
            (λ n.
              contains (route_parents route) (slash (get_or ref.namespace route.namespace) n)
              ≡ true)
            named (parent-IsIndexed route ref member is_gateway)))

  -- An event of a Gateway, and one of its GatewayClass, enqueues each stored route that has the
  -- Gateway, which is stored, as a parent, where all lists can be read; indexed reads may fail.
  pub route_gateway_class_complete :
      (route : Route) (ref : ObjectReference) (gateway : Gateway)
      → Memᴰ route (cluster.routes kind)
      → Memᴰ gateway cluster.gateways
      → IsParent route ref gateway
      → (contains (route_gateway cache kind gateway) (route_request route) ≡ true)
        × (contains (route_gateway_class cache kind gateway.class_name) (route_request route)
            ≡ true)
  unfolding route_gateway_class gateway_class
  route_gateway_class_complete route ref gateway m stored parent =
      let enqueued = contains-route_gateway route ref gateway m parent in
      let name = gateway.class_name in
      let (found, e, complete) =
        dependents_lem cache cache.gateways cluster.gateways on_gateway gateway_class
          gateway_class_index name gateways_by_class all_gateways_of_class good.running
          good.gateways class_index in
      (
        enqueued,
        rw (e, route_gateway_class)
            (rw
              (contains-dedupe (concat_requests cache (of_class cache kind name) found)
                (route_request route))
              (contains-concat_requests cache (of_class cache kind name) found gateway
                (route_request route) (complete gateway stored (rw (==_refl name) refl))
                (rw (==_refl name) enqueued))),
      )
