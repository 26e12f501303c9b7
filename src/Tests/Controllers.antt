-- ===== src/Tests/Controllers.antt =====
-- Runs of the parts of internal/controller at concrete values.
use labdns.Base.{
  pos, ◌≡◌, refl, true, false, none, some, List, [], ◌∷◌, Text, codes, lookup, get_or, contains,
  list_eq, nat_eq, arith, ℕ, zero, suc, length, ◌≤◌, ◌⊎◌, Bool, not, is_empty, Map, if◌then◌else◌,
  ◌==◌,
}
use labdns.Base.Results.{ok, err}
use labdns.Source.Diagnostics.{Diagnostic, warning}
use labdns.Source.Resolver.{missing, failed, DnsProvider}
use labdns.Source.Routes.{http_route, Route}
use labdns.Controller.Metrics.{
  Event, endpoint_seen, source_seen, observe_all, new_metrics, IsConsistent, last_endpoint,
  last_source, observe_all_lem,
}
use labdns.Controller.Emitter.{
  SourceKey, Emitter, new_emitter, report, Report, report_all, repeat_interval,
}
use labdns.Controller.Emitter.Laws.{report-report, IsBounded, report_all-IsBounded}
use labdns.Controller.Emitter.Notes.{
  event_diagnostic_message, note_limit, runes_of, runes_after, replacement,
}
use labdns.Controller.Emitter.Notes.Laws.{event_diagnostic_message_lem, IsTruncated}
use labdns.Controller.Sources.{World, Round, reconcile_ingress, reconcile_route}
use labdns.Controller.Sources.Laws.{
  IsIngressSound, IsRouteSound, reconcile_ingress-IsSound, reconcile_route-IsSound,
}
use labdns.Source.Annotations.{enabled_annotation, providers_annotation}
use labdns.Source.Projection.{Ingress}
use labdns.Controller.Retirement.{LifecycleWorld, reconcile_endpoint}
use labdns.Controller.Retirement.Laws.{IsSafe, reconcile_endpoint-IsSafe}
use labdns.Source.Types.{Identity}
use labdns.Controller.Sources.{ingress_identity}
use labdns.Dnsendpoint.Naming.{object_name, source_key}
use labdns.Dnsendpoint.Object.{
  Object, managed_by_label, managed_by_value, provider_label, source_key_label,
  source_kind_annotation, source_namespace_annotation, source_name_annotation,
  source_uid_annotation, lifecycle_annotation,
}
use labdns.Base.{
  contains_byte, copy_into, cut_prefix, delete, has_prefix, has_suffix, insert, join, map_equal,
  replace_byte, retain, set_insert, set_insert_all, sort_by, sort_texts, split, text_lt, to_lower,
  trim, trim_left, trim_prefix, trim_space, trim_suffix,
}
use labdns.Source.Names.{normalize_hostname}
use labdns.Source.Annotations.{comma_list, merge_annotations, parse_annotations}
use labdns.Source.Projection.{ingress_projection, with_backends}
use labdns.Source.Routes.{
  collect_backends, normalize_all, permits, route_backend, route_backend_refs, route_hostnames,
  route_object, route_projection,
}
use labdns.Source.Publications.{publication, publications}
use labdns.Tests.Concrete.{platform, encode}

abbrev events : List Event
events =
    endpoint_seen (codes "a") true 2
    ∷ source_seen (codes "Ingress") (codes "x") true
    ∷ endpoint_seen (codes "a") false 0
    ∷ endpoint_seen (codes "b") true 3
    ∷ []

observe_all_lem_example :
    IsConsistent (observe_all new_metrics events)
    × ((key : Text)
        → lookup key (observe_all new_metrics events).endpoints ≡ last_endpoint key none events)
    × ((kind key : Text)
        → contains (get_or (lookup kind (observe_all new_metrics events).sources) []) key
          ≡ last_source kind key false events)
observe_all_lem_example = observe_all_lem events

abbrev source : SourceKey
source = record {
  kind = codes "Ingress";
  namespace = codes "web";
  name = codes "shop";
  uid = codes "u";
}

abbrev diagnostic : Diagnostic
diagnostic = warning (codes "NodeNotFound") []

report-report_example :
    (report source diagnostic 60 (report source diagnostic 5 new_emitter).1).0 ≡ false
unfolding report lookup
report-report_example = report-report source diagnostic 5 60 new_emitter refl

abbrev reports : List Report
reports =
    record { source = source; diagnostic = diagnostic; now = 1 }
    ∷ record { source = record source { name = codes "api" }; diagnostic = diagnostic; now = 2 }
    ∷ []

abbrev small : Emitter
small = record { capacity = 1; interval = repeat_interval; lru = [] }

report_all-IsBounded_example : IsBounded (report_all small reports)
report_all-IsBounded_example = report_all-IsBounded small reports (omega arith)

abbrev empty_world : World
empty_world = record {
  get_ingress = λ namespace name. err missing;
  get_ingress_class = λ name. err missing;
  get_route = λ kind namespace name. err failed;
  get_gateway = λ namespace name. err missing;
  get_gateway_class = λ name. err missing;
  get_provider = λ name. err missing;
  list_grants = λ namespace. some [];
  resolver = record {
    get_service = λ b. err missing;
    list_slices = λ b. ok [];
    get_node = λ node. err missing;
    parse_addr = λ s. none;
  };
  apply = λ identity wanted. ok tt;
}

-- An enabled Ingress and an enabled route, their provider, and a Node with an address.
abbrev annotations : Map Text Text
annotations = (enabled_annotation, codes "true") ∷ (providers_annotation, codes "home,gone") ∷ []

abbrev live_ingress : Ingress
live_ingress = record {
  namespace = codes "web";
  name = codes "shop";
  uid = codes "u1";
  annotations = annotations;
  class_name = none;
  default_backend = none;
  rules =
      record {
        host = codes "a.io";
        http = some (record { service = some (codes "web"); resource = none } ∷ []);
      }
      ∷ [];
  tls = [];
}

abbrev live_route : Route
live_route = record {
  kind = http_route;
  namespace = codes "web";
  name = codes "api";
  uid = codes "u2";
  annotations = annotations;
  parents = [];
  hostnames = codes "b.io" ∷ [];
  rules = (record { group = none; kind = none; namespace = none; name = codes "web" } ∷ []) ∷ [];
}

abbrev home : DnsProvider
home = record {
  name = codes "home";
  zones = codes "io" ∷ [];
  ipv4_label = some (codes "ip");
  ipv6_label = none;
  default_ttl = pos 60;
  default_delay = none;
  default_properties = [];
  annotation_keys = [];
}

abbrev live_world : World
live_world = record empty_world {
  get_ingress = λ namespace name. ok live_ingress;
  get_route = λ kind namespace name. ok live_route;
  get_provider = λ name. if name == codes "home" then ok home else err missing;
  resolver = record {
    get_service = λ b. ok tt;
    list_slices = λ b. ok ((record { ready = some true; node_name = some (codes "n1") } ∷ []) ∷ []);
    get_node = λ node. ok ((codes "ip", codes "10.0.0.1") ∷ []);
    parse_addr = λ s. some (record { is_4 = true; is_6 = false; is_4_in_6 = false; text = s });
  };
}

reconcile_ingress-IsSound_example :
    IsIngressSound live_world platform
      (codes "web")
      (codes "shop")
      (ok live_ingress)
      (reconcile_ingress live_world platform (codes "web") (codes "shop"))
reconcile_ingress-IsSound_example =
    reconcile_ingress-IsSound live_world platform (codes "web") (codes "shop")

reconcile_route-IsSound_example :
    IsRouteSound live_world platform http_route
      (codes "web")
      (codes "api")
      (ok live_route)
      (reconcile_route live_world platform http_route (codes "web") (codes "api"))
reconcile_route-IsSound_example =
    reconcile_route-IsSound live_world platform http_route (codes "web") (codes "api")

abbrev is_published : Round → Bool
is_published round = elim round.applied [
  | none ↦ false
  | some (identity, []) ↦ false
  | some (identity, publication ∷ wanted) ↦ not (is_empty publication.records)
]

ingress_published :
    is_published (reconcile_ingress live_world platform (codes "web") (codes "shop")) ≡ true
unfolding copy_into has_prefix has_suffix lookup retain set_insert_all sort_texts text_lt
    trim_prefix normalize_hostname comma_list merge_annotations parse_annotations ingress_projection
    publications reconcile_ingress
ingress_published = refl

route_published :
    is_published (reconcile_route live_world platform http_route (codes "web") (codes "api")) ≡ true
unfolding copy_into has_prefix has_suffix lookup retain set_insert_all sort_texts text_lt
    trim_prefix normalize_hostname comma_list merge_annotations parse_annotations with_backends
    route_backend_refs route_projection publications reconcile_route
route_published = refl

abbrev shop : Identity
shop = ingress_identity empty_world (codes "web") (codes "shop") (codes "u1")

-- A generated object whose source has been deleted.
abbrev orphan : Object
orphan = record {
  api_version = codes "externaldns.k8s.io/v1alpha1";
  kind = codes "DNSEndpoint";
  namespace = codes "web";
  name = object_name platform shop (codes "home");
  resource_version = codes "7";
  labels =
      (managed_by_label, managed_by_value)
      ∷ (provider_label, codes "home")
      ∷ (source_key_label, source_key platform shop)
      ∷ [];
  annotations =
      (source_kind_annotation, shop.kind)
      ∷ (source_namespace_annotation, shop.namespace)
      ∷ (source_name_annotation, shop.name)
      ∷ (source_uid_annotation, shop.uid)
      ∷ (lifecycle_annotation, encode (record { version = pos 1; pending = [] }))
      ∷ [];
  owner_references = [];
  endpoints = [];
  status = 0;
}

abbrev quiet : LifecycleWorld
quiet = record {
  gateway_enabled = false;
  get_object = λ namespace name. ok orphan;
  get_source = λ kind namespace name. err missing;
  retire_source = λ identity. ok tt;
  advance_object = λ namespace name. ok 60;
}

reconcile_endpoint-IsSafe_example :
    IsSafe platform quiet
      (codes "web")
      (codes "n")
      (reconcile_endpoint platform quiet (codes "web") (codes "n"))
reconcile_endpoint-IsSafe_example =
    reconcile_endpoint-IsSafe platform quiet (codes "web") (codes "n")

-- The source of the object is retired, and its deadlines are looked at.
retires_orphan :
    ((reconcile_endpoint platform quiet (codes "web") (codes "n")).retired ≡ some shop)
    × ((reconcile_endpoint platform quiet (codes "web") (codes "n")).advanced ≡ true)
unfolding reconcile_endpoint source_key object_name encode lookup labdns.Tests.Concrete.decode
    labdns.Controller.Retirement.is_consistent labdns.Base.trim labdns.Base.to_lower
    labdns.Base.join labdns.Source.Routes.route_object
retires_orphan = (refl, refl)

abbrev repeated : ℕ → Text
repeated zero = []
repeated (suc n) = 195 ∷ 169 ∷ repeated n

event_diagnostic_message_lem_example :
    let message = repeated 600 in
    let note = event_diagnostic_message message in
    (length note ≤ note_limit)
    × (((length message ≤ note_limit) × (note ≡ message)) ⊎ IsTruncated message note)
event_diagnostic_message_lem_example = event_diagnostic_message_lem (repeated 600)

-- A rune of four bytes, a byte that starts none, one whose continuation is missing, and a letter.
mixed_runes :
    runes_of (240 ∷ 159 ∷ 154 ∷ 128 ∷ 255 ∷ 195 ∷ b'a' ∷ [])
    ≡ (240 ∷ 159 ∷ 154 ∷ 128 ∷ []) ∷ replacement ∷ replacement ∷ (b'a' ∷ []) ∷ []
unfolding runes_of runes_after
mixed_runes = refl
