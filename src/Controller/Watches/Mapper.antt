-- ===== src/Controller/Watches/Mapper.antt =====
-- internal/controller/setup.go: the mapper, which turns the event of an object into the requests of the
-- sources that depend on it. The reads of the cache are parameters.
use labdns.Base.{
  Bool, Option, none, some, List, [], ◌∷◌, ◌++◌, Text, codes, get_or, contains, set_insert_all,
  if◌then◌else◌, ◌==◌, list_eq, nat_eq, pair_eq, map,
}
use labdns.Source.Types.{ingress_kind}
use labdns.Source.Projection.{Ingress}
use labdns.Source.Routes.{RouteKind, kind_name, Route}
use labdns.Dnsendpoint.Object.{
  Object, value_at, source_kind_annotation, source_namespace_annotation, source_name_annotation,
}
use labdns.Controller.Watches.Index.{
  Gateway, Class, Slice, slash, endpoint_nodes, endpoint_service, provider_tokens,
  backend_service_index, ingress_class_index, gateway_parent_index, gateway_class_index,
  provider_token_index, backend_namespace_index, endpoint_node_index,
}

-- The objects of one kind: the answers of an index to a value, and all of them; `none` is an error.
pub record Table {ℓ} (A : Type ℓ) : Type ℓ where
  pub indexed : Text → Text → Option (List A)
  pub every : Option (List A)

pub record Cache : Type 0 where
  -- Whether the context has ended when the read of this description starts.
  pub cancelled : Text → Bool
  pub ingresses : Table Ingress
  pub ingress_classes : Table Class
  pub slices : Table Slice
  pub routes : RouteKind → Table Route
  pub gateways : Table Gateway
  pub gateway_classes : Table Class

-- `reconcile.Request`: a namespace and a name.
abbrev pub Request : Type 0
Request = Text × Text

abbrev pub ingress_request : Ingress → Request
ingress_request ingress = (ingress.namespace, ingress.name)

abbrev pub route_request : Route → Request
route_request route = (route.namespace, route.name)

-- `dedupe`: the first of each request stays.
unfoldable pub dedupe : List Request → List Request
dedupe values = set_insert_all values []

-- The descriptions of the reads, which the log shows.
abbrev pub ingress_dependencies : Text
ingress_dependencies = codes "Ingress dependencies"

abbrev pub all_ingress_sources : Text
all_ingress_sources = codes "all Ingress sources after indexed lookup failure"

abbrev pub route_dependencies : RouteKind → Text
route_dependencies kind = kind_name kind ++ codes " dependencies"

abbrev pub all_route_sources : RouteKind → Text
all_route_sources kind =
    codes "all " ++ kind_name kind ++ codes " sources after indexed lookup failure"

abbrev pub slices_by_node : Text
slices_by_node = codes "EndpointSlices by Node"

abbrev pub all_slices : Text
all_slices = codes "all EndpointSlices after node index lookup failure"

abbrev pub gateways_by_class : Text
gateways_by_class = codes "Gateways by GatewayClass"

abbrev pub all_gateways_of_class : Text
all_gateways_of_class = codes "all Gateways after class index lookup failure"

abbrev pub classes_by_provider : Text
classes_by_provider = codes "IngressClasses by provider"

abbrev pub all_classes : Text
all_classes = codes "all IngressClasses after provider index lookup failure"

abbrev pub gateways_by_provider : Text
gateways_by_provider = codes "Gateways by provider"

abbrev pub all_gateways : Text
all_gateways = codes "all Gateways after provider index lookup failure"

abbrev pub gateway_classes_by_provider : Text
gateway_classes_by_provider = codes "GatewayClasses by provider"

abbrev pub all_gateway_classes : Text
all_gateway_classes = codes "all GatewayClasses after provider index lookup failure"

module _ (cache : Cache) where
  unfoldable pub list {ℓ} : {A : Type ℓ} → Text → Option (List A) → Option (List A)
  list description read = if cache.cancelled description then none else read

  -- The indexed read, and the read of everything where it failed.
  unfoldable pub dependents {ℓ} :
      {A : Type ℓ} → Table A → Text → Text → Text → Text → Option (List A)
  unfolding list
  dependents table field value description fallback =
      elim (list description (table.indexed field value)) [
        | some found ↦ some found
        | none ↦ list fallback table.every
      ]

  unfoldable pub ingresses : Text → Text → List Request
  unfolding dependents
  ingresses field value =
      map ingress_request (
        get_or (dependents cache.ingresses field value ingress_dependencies all_ingress_sources) [])

  unfoldable pub routes : RouteKind → Text → Text → List Request
  unfolding dependents
  routes kind field value = map route_request (
      get_or
        (dependents (cache.routes kind) field value (route_dependencies kind)
          (all_route_sources kind))
        [])

  unfoldable pub ingress_class : Text → List Request
  unfolding ingresses
  ingress_class name = ingresses ingress_class_index name

  unfoldable pub ingress_service : Text → Text → List Request
  unfolding ingresses
  ingress_service namespace name = ingresses backend_service_index (slash namespace name)

  unfoldable pub route_service : RouteKind → Text → Text → List Request
  unfolding routes
  route_service kind namespace name = routes kind backend_service_index (slash namespace name)

  -- The loop over the keys of a slice returns in its first round.
  abbrev pub first_key : (Text → List Request) → List Text → List Request
  first_key enqueue [] = []
  first_key enqueue (key ∷ keys) = enqueue key

  unfoldable pub ingress_slice : Slice → List Request
  unfolding ingresses endpoint_service
  ingress_slice slice = first_key (ingresses backend_service_index) (endpoint_service slice)

  unfoldable pub route_slice : RouteKind → Slice → List Request
  unfolding routes endpoint_service
  route_slice kind slice = first_key (routes kind backend_service_index) (endpoint_service slice)

  abbrev pub concat_requests {ℓ} : {A : Type ℓ} → (A → List Request) → List A → List Request
  concat_requests enqueue [] = []
  concat_requests enqueue (x ∷ xs) = enqueue x ++ concat_requests enqueue xs

  -- The body of the loop over the slices.
  abbrev pub slice_requests : (Text → List Request) → Text → Slice → List Request
  slice_requests enqueue node slice =
      let found = concat_requests enqueue (endpoint_service slice) in
      if contains (endpoint_nodes slice) node then found else []

  -- `sourcesForNode`, with the requests of a Service as a parameter.
  unfoldable pub sources_for_node : Text → (Text → List Request) → List Request
  unfolding dependents endpoint_nodes endpoint_service dedupe
  sources_for_node node enqueue =
      elim (dependents cache.slices endpoint_node_index node slices_by_node all_slices) [
        | none ↦ []
        | some slices ↦ dedupe (concat_requests (slice_requests enqueue node) slices)
      ]

  unfoldable pub ingress_node : Text → List Request
  unfolding sources_for_node ingresses
  ingress_node node = sources_for_node node (ingresses backend_service_index)

  unfoldable pub route_node : RouteKind → Text → List Request
  unfolding sources_for_node routes
  route_node kind node = sources_for_node node (routes kind backend_service_index)

  unfoldable pub route_gateway : RouteKind → Gateway → List Request
  unfolding routes
  route_gateway kind gateway =
      routes kind gateway_parent_index (slash gateway.namespace gateway.name)

  abbrev pub of_class : RouteKind → Text → Gateway → List Request
  of_class kind class_name gateway =
      let found = route_gateway kind gateway in
      if gateway.class_name == class_name then found else []

  unfoldable pub route_gateway_class : RouteKind → Text → List Request
  unfolding dependents route_gateway dedupe
  route_gateway_class kind class_name =
      elim (dependents cache.gateways gateway_class_index class_name gateways_by_class
        all_gateways_of_class) [
          | none ↦ []
          | some gateways ↦ dedupe (concat_requests (of_class kind class_name) gateways)
        ]

  unfoldable pub route_grant : RouteKind → Text → List Request
  unfolding routes
  route_grant kind namespace = routes kind backend_namespace_index namespace

  abbrev pub class_requests : (Text → List Request) → Text → Class → List Request
  class_requests enqueue provider class =
      let found = enqueue class.name in
      if contains (provider_tokens class.annotations) provider then found else []

  unfoldable pub ingress_provider : Text → List Request
  unfolding ingresses ingress_class dependents dedupe provider_tokens
  ingress_provider name =
      let direct = ingresses provider_token_index name in
      elim (dependents cache.ingress_classes provider_token_index name classes_by_provider
        all_classes) [
          | none ↦ dedupe direct
          | some classes ↦
              dedupe (direct ++ concat_requests (class_requests ingress_class name) classes)
        ]

  abbrev pub gateway_requests : RouteKind → Text → Gateway → List Request
  gateway_requests kind provider gateway =
      let found = route_gateway kind gateway in
      if contains (provider_tokens gateway.annotations) provider then found else []

  -- The last part of `routeProvider`.
  unfoldable pub add_gateway_classes : RouteKind → Text → List Request → List Request
  unfolding route_gateway_class dependents dedupe provider_tokens
  add_gateway_classes kind name result =
      elim (dependents cache.gateway_classes provider_token_index name gateway_classes_by_provider
        all_gateway_classes) [
          | none ↦ dedupe result
          | some classes ↦
              dedupe
                (result ++ concat_requests (class_requests (route_gateway_class kind) name) classes)
        ]

  unfoldable pub route_provider : RouteKind → Text → List Request
  unfolding routes route_gateway dependents dedupe provider_tokens add_gateway_classes
  route_provider kind name =
      let direct = routes kind provider_token_index name in
      elim (dependents cache.gateways provider_token_index name gateways_by_provider all_gateways) [
        | none ↦ dedupe direct
        | some gateways ↦
            add_gateway_classes kind name
              (direct ++ concat_requests (gateway_requests kind name) gateways)
      ]

-- The source that a generated object names, where it is of the kind.
abbrev source_of : Text → Object → List Request
source_of kind object =
    if value_at source_kind_annotation object.annotations == kind
    then (
      value_at source_namespace_annotation object.annotations,
      value_at source_name_annotation object.annotations,
    )
      ∷ []
    else []

unfoldable pub ingress_endpoint : Object → List Request
ingress_endpoint object = source_of ingress_kind object

unfoldable pub route_endpoint : RouteKind → Object → List Request
route_endpoint kind object = source_of (kind_name kind) object
