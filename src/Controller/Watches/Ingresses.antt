-- ===== src/Controller/Watches/Ingresses.antt =====
-- The events after which an Ingress is reconciled: those of everything that its records depend on.
use mathlib.Core.List.{Memᴰ}
use mathlib.Core.List.Memᴰ.{head, tail}
use labdns.Base.{◌≡◌, refl, true, List, [], ◌∷◌, Text, contains, list_eq, nat_eq, pair_eq}
use labdns.Base.Results.{ok}
use labdns.Platform.{Platform}
use labdns.Source.Types.{Backend, HostProjection}
use labdns.Source.Projection.{backend_eq, Ingress, ingress_projection}
use labdns.Controller.Watches.Index.{
  Slice, indexes, ingress_backend_keys, endpoint_nodes, endpoint_service, on_ingress, on_slice,
  slash, backend_service_index, endpoint_node_index,
}
use labdns.Controller.Watches.Mapper.{
  Cache, ingress_request, ingresses, ingress_service, ingress_node, sources_for_node,
  slice_requests, concat_requests, Request, slices_by_node, all_slices,
}
use labdns.Controller.Watches.Reads.{
  Cluster, IsCacheOf, contains-ingresses, contains-concat_requests, contains-dedupe, dependents_lem,
}
use labdns.Controller.Watches.Backends.{
  IsIndexed, Publishes, Publishes-Named, ingress_projection-IsIndexed,
}

published-IsIndexed :
    (p : Platform) (ingress : Ingress) (overrides : List Text) (hosts : List HostProjection)
    (b : Backend)
    → (ingress_projection p ingress overrides).0 ≡ ok hosts
    → Publishes hosts b
    → IsIndexed ingress b
published-IsIndexed p ingress overrides hosts b =
    Publishes-Named (IsIndexed ingress) (ingress_projection p ingress overrides).0 hosts b
      (ingress_projection-IsIndexed p ingress overrides)

module _ (cluster : Cluster) (cache : Cache) (good : IsCacheOf cluster cache) where
  backend_service : Memᴰ (backend_service_index, on_ingress ingress_backend_keys) (indexes true)
  unfolding indexes
  backend_service = head refl

  -- An event of a Service enqueues each stored Ingress that projects a host name to the Service,
  -- where the list of all Ingresses can be read; the indexed read may fail.
  pub ingress_service_complete :
      (p : Platform) (ingress : Ingress) (overrides : List Text) (hosts : List HostProjection)
      (b : Backend)
      → Memᴰ ingress cluster.ingresses
      → (ingress_projection p ingress overrides).0 ≡ ok hosts
      → Publishes hosts b
      → contains (ingress_service cache b.namespace b.name) (ingress_request ingress) ≡ true
  unfolding ingress_service
  ingress_service_complete p ingress overrides hosts b m e found =
      contains-ingresses cluster cache good ingress_backend_keys backend_service_index
        (slash b.namespace b.name) ingress backend_service m
        (published-IsIndexed p ingress overrides hosts b e found)

  slice_nodes : Memᴰ (endpoint_node_index, on_slice endpoint_nodes) (indexes true)
  unfolding indexes
  slice_nodes = tail (tail (tail (tail (head refl))))

  -- What the requests of a Service hold, those of a Node with an endpoint of it hold.
  pub contains-sources_for_node :
      (enqueue : Text → List Request) (node key : Text) (slice : Slice) (r : Request)
      → Memᴰ slice cluster.slices
      → contains (endpoint_nodes slice) node ≡ true
      → endpoint_service slice ≡ key ∷ []
      → contains (enqueue key) r ≡ true
      → contains (sources_for_node cache node enqueue) r ≡ true
  unfolding sources_for_node
  contains-sources_for_node enqueue node key slice r m runs serves h =
      let (found, e, complete) =
        dependents_lem cache cache.slices cluster.slices on_slice endpoint_nodes endpoint_node_index
          node slices_by_node all_slices good.running good.slices slice_nodes in
      rw (e, sources_for_node)
        (rw (contains-dedupe (concat_requests cache (slice_requests cache enqueue node) found) r) (
          contains-concat_requests cache (slice_requests cache enqueue node) found slice r
            (complete slice m runs)
            (rw runs (
              contains-concat_requests cache enqueue (endpoint_service slice) key r
                (rw serves (head refl)) h))))

  -- An event of a Node enqueues each stored Ingress that projects a host name to a Service with an
  -- endpoint on the Node, where all lists can be read; indexed reads may fail.
  pub ingress_node_complete :
      (p : Platform) (ingress : Ingress) (overrides : List Text) (hosts : List HostProjection)
      (b : Backend) (slice : Slice) (node : Text)
      → Memᴰ ingress cluster.ingresses
      → (ingress_projection p ingress overrides).0 ≡ ok hosts
      → Publishes hosts b
      → Memᴰ slice cluster.slices
      → endpoint_service slice ≡ slash b.namespace b.name ∷ []
      → contains (endpoint_nodes slice) node ≡ true
      → contains (ingress_node cache node) (ingress_request ingress) ≡ true
  unfolding ingress_node
  ingress_node_complete p ingress overrides hosts b slice node m e found stored serves runs =
      contains-sources_for_node (ingresses cache backend_service_index) node
        (slash b.namespace b.name) slice (ingress_request ingress) stored runs serves
        (contains-ingresses cluster cache good ingress_backend_keys backend_service_index
          (slash b.namespace b.name) ingress backend_service m
          (published-IsIndexed p ingress overrides hosts b e found))
