-- ===== src/Controller/Watches/Index.antt =====
-- internal/controller/setup.go: the values under which the cache finds an object, and the indexes.
use labdns.Base.{
  Bool, true, false, ◌&&◌, Option, none, some, List, [], ◌∷◌, ◌++◌, Text, Map, codes, is_empty,
  get_or, set_insert_all, map, if◌then◌else◌, ◌==◌, list_eq, nat_eq, nat_beq, text_ord, split,
  trim_space,
}
use labdns.Base.Results.{Result, ok, ◌>>◌}
use labdns.Source.Annotations.{providers_annotation}
use labdns.Source.Projection.{Ingress, IngressRule, IngressBackend}
use labdns.Source.Resolver.{SliceEndpoint}
use labdns.Source.Routes.{
  RouteKind, http_route, tcp_route, udp_route, Route, ObjectReference, route_backend_refs,
  gateway_group, is_service_ref,
}
use labdns.Controller.Sources.{legacy_class_annotation}
use labdns.Dnsendpoint.Object.{Object, provider_label, source_key_label, value_at}

-- `gatewayv1.Gateway`, and `IngressClass` or `GatewayClass`.
pub record Gateway : Type 0 where
  pub namespace : Text
  pub name : Text
  pub annotations : Map Text Text
  pub class_name : Text

pub record Class : Type 0 where
  pub name : Text
  pub annotations : Map Text Text

-- `discoveryv1.EndpointSlice`
pub record Slice : Type 0 where
  pub namespace : Text
  pub labels : Map Text Text
  pub endpoints : List SliceEndpoint

abbrev pub slash : Text → Text → Text
slash namespace name = namespace ++ b'/' ∷ name

abbrev pub one_if_nonempty : Text → List Text
one_if_nonempty value = if is_empty value then [] else value ∷ []

-- The names of the Services among some backends.
abbrev pub service_names : List IngressBackend → List Text
service_names [] = []
service_names (backend ∷ backends) = elim backend.service [
  | none ↦ service_names backends
  | some name ↦ name ∷ service_names backends
]

abbrev pub rule_names : List IngressRule → List Text
rule_names [] = []
rule_names (rule ∷ rules) = service_names (get_or rule.http []) ++ rule_names rules

abbrev pub default_names : Option IngressBackend → List Text
default_names none = []
default_names (some backend) = service_names (backend ∷ [])

unfoldable pub ingress_backend_keys : Ingress → List Text
ingress_backend_keys ingress =
    set_insert_all
      (map (slash ingress.namespace)
        (default_names ingress.default_backend ++ rule_names ingress.rules))
      []

unfoldable pub ingress_class_keys : Ingress → List Text
ingress_class_keys ingress = elim ingress.class_name [
  | some name ↦ name ∷ []
  | none ↦ one_if_nonempty (value_at legacy_class_annotation ingress.annotations)
]

abbrev pub key_of : Text → ObjectReference → Text
key_of own ref = slash (get_or ref.namespace own) ref.name

abbrev pub service_keys : Text → List ObjectReference → List Text
service_keys own [] = []
service_keys own (ref ∷ refs) =
    let rest = service_keys own refs in if is_service_ref ref then key_of own ref ∷ rest else rest

unfoldable pub route_backend_keys : Route → List Text
unfolding route_backend_refs
route_backend_keys route =
    set_insert_all (service_keys route.namespace (route_backend_refs route.rules)) []

-- `strings.SplitN(key, "/", 2)[0]`
unfoldable pub before_slash : Text → Text
before_slash [] = []
before_slash (c ∷ s) = let rest = before_slash s in if nat_beq c b'/' then [] else c ∷ rest

unfoldable pub route_backend_namespaces : Route → List Text
unfolding route_backend_keys before_slash
route_backend_namespaces route = set_insert_all (map before_slash (route_backend_keys route)) []

abbrev pub is_gateway_ref : ObjectReference → Bool
is_gateway_ref ref =
    (get_or ref.group gateway_group == gateway_group)
    && (get_or ref.kind (codes "Gateway") == codes "Gateway")

abbrev pub gateway_keys : Text → List ObjectReference → List Text
gateway_keys own [] = []
gateway_keys own (ref ∷ refs) =
    let rest = gateway_keys own refs in if is_gateway_ref ref then key_of own ref ∷ rest else rest

unfoldable pub route_parents : Route → List Text
route_parents route = set_insert_all (gateway_keys route.namespace route.parents) []

unfoldable pub gateway_class : Gateway → List Text
gateway_class gateway = gateway.class_name ∷ []

abbrev pub tokens : List Text → List Text
tokens [] = []
tokens (item ∷ items) =
    let rest = tokens items in if is_empty (trim_space item) then rest else trim_space item ∷ rest

unfoldable pub split_tokens : Text → List Text
unfolding split trim_space
split_tokens value = set_insert_all (tokens (split value b',')) []

unfoldable pub provider_tokens : Map Text Text → List Text
unfolding split_tokens
provider_tokens annotations = split_tokens (value_at providers_annotation annotations)

abbrev pub node_names : List SliceEndpoint → List Text
node_names [] = []
node_names (endpoint ∷ endpoints) =
    one_if_nonempty (get_or endpoint.node_name []) ++ node_names endpoints

unfoldable pub endpoint_nodes : Slice → List Text
endpoint_nodes slice = set_insert_all (node_names slice.endpoints) []

abbrev pub service_name_label : Text
service_name_label = codes "kubernetes.io/service-name"

unfoldable pub endpoint_service : Slice → List Text
endpoint_service slice =
    let name = value_at service_name_label slice.labels in
    if is_empty name then [] else slash slice.namespace name ∷ []

unfoldable pub dns_endpoint_source : Object → List Text
dns_endpoint_source object = one_if_nonempty (value_at source_key_label object.labels)

unfoldable pub dns_endpoint_provider : Object → List Text
dns_endpoint_provider object = one_if_nonempty (value_at provider_label object.labels)

-- The names of the indexes.
abbrev pub backend_service_index : Text
backend_service_index = codes "labdns.backendService"

abbrev pub ingress_class_index : Text
ingress_class_index = codes "labdns.ingressClass"

abbrev pub gateway_parent_index : Text
gateway_parent_index = codes "labdns.gatewayParent"

abbrev pub gateway_class_index : Text
gateway_class_index = codes "labdns.gatewayClass"

abbrev pub provider_token_index : Text
provider_token_index = codes "labdns.providerToken"

abbrev pub backend_namespace_index : Text
backend_namespace_index = codes "labdns.backendNamespace"

abbrev pub endpoint_node_index : Text
endpoint_node_index = codes "labdns.endpointNode"

abbrev pub endpoint_service_index : Text
endpoint_service_index = codes "labdns.endpointService"

abbrev pub dns_endpoint_source_index : Text
dns_endpoint_source_index = codes "labdns.dnsEndpointSource"

abbrev pub dns_endpoint_provider_index : Text
dns_endpoint_provider_index = codes "labdns.dnsEndpointProvider"

-- The function of an index, by the kind of the objects that it indexes.
pub data Indexer : Type 0 where
  on_ingress : (Ingress → List Text) → Indexer
  on_ingress_class on_gateway_class : (Class → List Text) → Indexer
  on_slice : (Slice → List Text) → Indexer
  on_dns_endpoint : (Object → List Text) → Indexer
  on_route : RouteKind → (Route → List Text) → Indexer
  on_gateway : (Gateway → List Text) → Indexer

abbrev pub Registration : Type 0
Registration = Text × Indexer

abbrev pub ingress_tokens : Ingress → List Text
ingress_tokens ingress = provider_tokens ingress.annotations

abbrev pub class_tokens : Class → List Text
class_tokens class = provider_tokens class.annotations

abbrev pub route_tokens : Route → List Text
route_tokens route = provider_tokens route.annotations

abbrev pub gateway_tokens : Gateway → List Text
gateway_tokens gateway = provider_tokens gateway.annotations

abbrev pub route_indexes : RouteKind → List Registration
route_indexes kind =
    (backend_service_index, on_route kind route_backend_keys)
    ∷ (gateway_parent_index, on_route kind route_parents)
    ∷ (provider_token_index, on_route kind route_tokens)
    ∷ (backend_namespace_index, on_route kind route_backend_namespaces)
    ∷ []

abbrev pub base_indexes : List Registration
base_indexes =
    (backend_service_index, on_ingress ingress_backend_keys)
    ∷ (ingress_class_index, on_ingress ingress_class_keys)
    ∷ (provider_token_index, on_ingress ingress_tokens)
    ∷ (provider_token_index, on_ingress_class class_tokens)
    ∷ (endpoint_node_index, on_slice endpoint_nodes)
    ∷ (endpoint_service_index, on_slice endpoint_service)
    ∷ (dns_endpoint_source_index, on_dns_endpoint dns_endpoint_source)
    ∷ (dns_endpoint_provider_index, on_dns_endpoint dns_endpoint_provider)
    ∷ []

abbrev pub gateway_indexes : List Registration
gateway_indexes =
    route_indexes http_route
    ++ route_indexes tcp_route
    ++ route_indexes udp_route
    ++ (gateway_class_index, on_gateway gateway_class)
      ∷ (provider_token_index, on_gateway gateway_tokens)
      ∷ (provider_token_index, on_gateway_class class_tokens)
      ∷ []

unfoldable pub indexes : Bool → List Registration
unfolding ingress_backend_keys ingress_class_keys provider_tokens endpoint_nodes
indexes false = base_indexes
indexes true = base_indexes ++ gateway_indexes

-- `indexer.IndexField` is a parameter; the first error ends the registration.
unfoldable pub register_all {ℓ} :
    {E : Type ℓ} → (Registration → Result E (Unit {0})) → List Registration → Result E (Unit {0})
register_all index_field [] = ok tt
register_all index_field (index ∷ rest) = index_field index >> register_all index_field rest

unfoldable pub add_indexes {ℓ} :
    {E : Type ℓ} → (Registration → Result E (Unit {0})) → Bool → Result E (Unit {0})
unfolding register_all indexes
add_indexes index_field gateway_enabled = register_all index_field (indexes gateway_enabled)
