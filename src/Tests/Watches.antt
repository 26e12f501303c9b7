-- ===== src/Tests/Watches.antt =====
-- Events at a small cluster whose cache has no index: every indexed read fails.
use mathlib.Core.List.{Memᴰ}
use mathlib.Core.List.Memᴰ.{head}
use labdns.Base.{
  ◌≡◌, refl, true, false, none, some, List, [], ◌∷◌, Text, codes, contains, list_eq, nat_eq,
  pair_eq, arith, subst, sym, IsMap, Bool-cases, ==_iff, ◌==◌, if◌then◌else◌, inl, inr,
}
use labdns.Base.Results.{ok, err}
use labdns.Source.Types.{Backend, HostProjection}
use labdns.Source.Annotations.{providers_annotation, ParsedAnnotations}
use labdns.Source.Projection.{backend_eq, Ingress, IngressRule, ingress_projection}
use labdns.Source.Resolver.{missing}
use labdns.Source.Routes.{
  RouteKind, http_route, Route, ObjectReference, ReferenceGrant, kind_name, route_projection,
  gateway_group, service_kind,
}
use labdns.Controller.Sources.{World}
use labdns.Controller.Watches.Index.{
  Gateway, Class, Slice, Indexer, service_name_label, slash, endpoint_service, endpoint_nodes,
}
use labdns.Controller.Watches.Mapper.{
  Table, Cache, ingress_service, ingress_node, ingress_provider, route_service, route_node,
  route_grant, route_gateway, route_gateway_class,
}
use labdns.Controller.Watches.Reads.{Cluster, IsTable, IsCacheOf}
use labdns.Controller.Watches.Ingresses.{ingress_service_complete, ingress_node_complete}
use labdns.Controller.Watches.Providers.{ingress_provider_complete, HasClasses}
use labdns.Controller.Watches.Backends.{IsIndexed, ingress_projection-IsIndexed}
use labdns.Controller.Watches.Backends.Preserved.{ProjectionNamed}
use labdns.Controller.Watches.Routes.{
  route_service_complete, route_grant_complete, route_gateway_class_complete,
}
use labdns.Tests.Concrete.{platform}

abbrev shop : Ingress
shop = record {
  namespace = codes "web";
  name = codes "shop";
  uid = codes "u";
  annotations = [];
  class_name = some (codes "nginx");
  default_backend = none;
  rules =
      record {
        host = codes "a.io";
        http = some (record { service = some (codes "web"); resource = none } ∷ []);
      }
      ∷ [];
  tls = [];
}

abbrev nginx : Class
nginx = record { name = codes "nginx"; annotations = (providers_annotation, codes "home") ∷ [] }

abbrev slice : Slice
slice = record {
  namespace = codes "web";
  labels = (service_name_label, codes "web") ∷ [];
  endpoints = record { ready = some true; node_name = some (codes "n1") } ∷ [];
}

abbrev sql : ObjectReference
sql = record { group = none; kind = none; namespace = some (codes "db"); name = codes "sql" }

abbrev parent : ObjectReference
parent = record { group = none; kind = none; namespace = none; name = codes "gw" }

abbrev api : Route
api = record {
  kind = http_route;
  namespace = codes "web";
  name = codes "api";
  uid = codes "u";
  annotations = [];
  parents = parent ∷ [];
  hostnames = codes "b.io" ∷ [];
  rules = (sql ∷ []) ∷ [];
}

abbrev gateway : Gateway
gateway = record {
  namespace = codes "web";
  name = codes "gw";
  annotations = [];
  class_name = codes "envoy";
}

abbrev cluster : Cluster
cluster = record {
  ingresses = shop ∷ [];
  ingress_classes = nginx ∷ [];
  slices = slice ∷ [];
  routes = λ kind. api ∷ [];
  gateways = gateway ∷ [];
  gateway_classes = [];
}

abbrev unindexed {ℓ} : {A : Type ℓ} → List A → Table A
unindexed stored = record { indexed = λ field value. none; every = some stored }

abbrev cache : Cache
cache = record {
  cancelled = λ description. false;
  ingresses = unindexed cluster.ingresses;
  ingress_classes = unindexed cluster.ingress_classes;
  slices = unindexed cluster.slices;
  routes = λ kind. unindexed (cluster.routes kind);
  gateways = unindexed cluster.gateways;
  gateway_classes = unindexed cluster.gateway_classes;
}

unindexed-IsTable {ℓ} :
    {A : Type ℓ} (stored : List A) (registered : (A → List Text) → Indexer)
    → IsTable stored registered (unindexed stored)
unindexed-IsTable stored registered = record {
  finds = λ field value keys found a here answered m h. absurd (ground (arith, answered));
  lists = λ a m. m;
  answers = refl;
}

cache-IsCacheOf : IsCacheOf cluster cache
cache-IsCacheOf = record {
  running = λ description. refl;
  ingresses = unindexed-IsTable cluster.ingresses _;
  ingress_classes = unindexed-IsTable cluster.ingress_classes _;
  slices = unindexed-IsTable cluster.slices _;
  routes = λ kind. unindexed-IsTable (cluster.routes kind) _;
  gateways = unindexed-IsTable cluster.gateways _;
  gateway_classes = unindexed-IsTable cluster.gateway_classes _;
}

abbrev web : Backend
web = record { namespace = codes "web"; name = codes "web" }

abbrev host : HostProjection
host = record { hostname = codes "a.io"; backends = web ∷ [] }

ingress_service_complete_example :
    contains (ingress_service cache (codes "web") (codes "web")) (codes "web", codes "shop") ≡ true
unfolding ingress_projection labdns.Source.Names.normalize_hostname labdns.Base.sort_by
    labdns.Base.insert labdns.Base.lookup labdns.Base.set_insert
ingress_service_complete_example =
    ingress_service_complete cluster cache cache-IsCacheOf platform shop [] (host ∷ []) web
      (head refl) refl (host, head refl, refl)

ingress_node_complete_example :
    contains (ingress_node cache (codes "n1")) (codes "web", codes "shop") ≡ true
unfolding ingress_projection labdns.Source.Names.normalize_hostname labdns.Base.sort_by
    labdns.Base.insert labdns.Base.lookup labdns.Base.set_insert endpoint_service endpoint_nodes
    labdns.Base.set_insert_all
ingress_node_complete_example =
    ingress_node_complete cluster cache cache-IsCacheOf platform shop [] (host ∷ []) web slice
      (codes "n1") (head refl) refl (host, head refl, refl) (head refl) refl refl

-- The class of the Ingress selects the provider.
abbrev world : World
world = record {
  get_ingress = λ namespace name. err missing;
  get_ingress_class = λ name. if name == codes "nginx" then ok nginx.annotations else err missing;
  get_route = λ kind namespace name. err missing;
  get_gateway = λ namespace name. err missing;
  get_gateway_class = λ name. err missing;
  get_provider = λ name. err missing;
  list_grants = λ namespace. some [];
  resolver = record {
    get_service = λ b. err missing;
    list_slices = λ b. ok [];
    get_node = λ node. err missing;
    parse_addr = λ s. none;
  };
  apply = λ identity wanted. ok tt;
}

world-HasClasses : HasClasses cluster cache cache-IsCacheOf world
world-HasClasses name annotations h = elim (Bool-cases (name == codes "nginx")) [
  | inr other ↦ absurd (ground (arith, h, other))
  | inl same ↦
      let named : name ≡ codes "nginx" = (==_iff name (codes "nginx")).0 same in
      let read : annotations ≡ nginx.annotations = ground (arith, h, same) in
      (subst IsMap (sym read) (refl, tt), head (rw (named, read) refl))
]

abbrev selected : ParsedAnnotations
selected = record {
  enabled = false;
  providers = codes "home" ∷ [];
  hostnames = [];
  ttl = none;
  families = [];
  deletion_delay = none;
  resolved = nginx.annotations;
}

ingress_provider_complete_example :
    contains (ingress_provider cache (codes "home")) (codes "web", codes "shop") ≡ true
unfolding labdns.Controller.Sources.ingress_annotations labdns.Source.Annotations.merge_annotations
    labdns.Base.copy_into labdns.Base.retain labdns.Base.has_prefix
    labdns.Source.Annotations.parse_annotations labdns.Base.lookup
    labdns.Source.Annotations.comma_list labdns.Base.sort_texts labdns.Base.set_insert_all
ingress_provider_complete_example =
    ingress_provider_complete cluster cache cache-IsCacheOf platform world shop nginx.annotations
      selected (codes "home") (head refl) tt world-HasClasses refl refl refl

abbrev grant : ReferenceGrant
grant = record {
  from = (gateway_group, (codes "HTTPRoute", codes "web")) ∷ [];
  to = ([], (service_kind, none)) ∷ [];
}

abbrev database : Backend
database = record { namespace = codes "db"; name = codes "sql" }

abbrev api_host : HostProjection
api_host = record { hostname = codes "b.io"; backends = database ∷ [] }

route_service_complete_example :
    (contains (route_service cache http_route (codes "db") (codes "sql")) (codes "web", codes "api")
      ≡ true)
    × ((s : Slice) (node : Text)
        → Memᴰ s cluster.slices
        → endpoint_service s ≡ slash (codes "db") (codes "sql") ∷ []
        → contains (endpoint_nodes s) node ≡ true
        → contains (route_node cache http_route node) (codes "web", codes "api") ≡ true)
unfolding route_projection labdns.Source.Routes.route_backend_refs
    labdns.Source.Names.normalize_hostname labdns.Base.set_insert
    labdns.Source.Annotations.sorted_unique labdns.Base.sort_texts labdns.Base.set_insert_all
    labdns.Source.Projection.backend_set
route_service_complete_example =
    route_service_complete cluster cache cache-IsCacheOf http_route platform
      (λ namespace. some (grant ∷ [])) api [] (api_host ∷ []) database (head refl) refl
      (api_host, head refl, refl)

route_grant_complete_example :
    contains (route_grant cache http_route (codes "db")) (codes "web", codes "api") ≡ true
unfolding labdns.Source.Routes.route_backend_refs labdns.Base.contains_byte
route_grant_complete_example =
    route_grant_complete cluster cache cache-IsCacheOf http_route api sql (codes "db") (head refl)
      (head refl) refl refl refl

route_gateway_class_complete_example :
    (contains (route_gateway cache http_route gateway) (codes "web", codes "api") ≡ true)
    × (contains (route_gateway_class cache http_route (codes "envoy")) (codes "web", codes "api")
        ≡ true)
route_gateway_class_complete_example =
    route_gateway_class_complete cluster cache cache-IsCacheOf http_route api parent gateway
      (head refl) (head refl) (head refl, refl, refl, refl)

ingress_projection-IsIndexed_example :
    ProjectionNamed (IsIndexed shop) (ingress_projection platform shop []).0
ingress_projection-IsIndexed_example = ingress_projection-IsIndexed platform shop []
