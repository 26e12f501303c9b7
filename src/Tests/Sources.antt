-- ===== src/Tests/Sources.antt =====
-- Runs of the parts of internal/source at concrete values.
use labdns.Base.{
  All, pos, trim_prefix, to_lower, trim_suffix, has_suffix, ◌≤◌, ◌≡◌, refl, ◌⊎◌, true, false, none,
  some, List, [], ◌∷◌, Text, Map, codes, lookup, length, contains, list_eq, nat_eq, map, arith,
  trim_space, has_prefix, set_insert, sort_texts, set_insert_all, text_lt,
}
use labdns.Base.Results.{Result, ok, err}
use labdns.Source.Types.{Backend, HostProjection, Publication}
use labdns.Source.Resolver.{DnsProvider, PublicationOptions, Reader}
use labdns.Source.Publications.{publication}
use labdns.Source.Publications.Laws.{IsPublishable, publication-IsPublishable}
use labdns.Source.Errors.{SourceError}
use labdns.Source.Names.{matching_zone, matching_zone_lem, normal_zone, IsInZone, normal_host}
use labdns.Source.Annotations.{
  ParsedAnnotations, parse_annotations, merge_annotations, ttl_annotation, enabled_annotation,
  providers_annotation, sorted_unique, comma_list, parse_positive,
}
use labdns.Source.Annotations.Laws.{
  IsParsed, parse_annotations-IsParsed, lookup-merge_annotations, sorted_unique_canonical,
}
use labdns.Source.Projection.{backend_eq}
use labdns.Source.Routes.{
  http_route, Route, ObjectReference, ReferenceGrant, gateway_group, service_kind, collect_backends,
}
use labdns.Source.Routes.Laws.{IsAllowed, collect_backends-IsAllowed}
use labdns.Tests.Concrete.{platform}

abbrev zones : List Text
zones = codes "io" ∷ codes "a.io." ∷ codes "b.io" ∷ []

matching_zone_lem_example :
    ((matching_zone (codes "*.x.A.io") zones ≡ [])
      ⊎ ((contains (map normal_zone zones) (matching_zone (codes "*.x.A.io") zones) ≡ true)
          × IsInZone (normal_host (codes "*.x.A.io")) (matching_zone (codes "*.x.A.io") zones)))
    × ((zone : Text)
        → contains zones zone ≡ true
        → IsInZone (normal_host (codes "*.x.A.io")) (normal_zone zone)
        → length (normal_zone zone) ≤ length (matching_zone (codes "*.x.A.io") zones))
matching_zone_lem_example = matching_zone_lem (codes "*.x.A.io") zones

abbrev class_level : Map Text Text
class_level = (ttl_annotation, codes "60") ∷ (codes "other", codes "1") ∷ []

abbrev source_level : Map Text Text
source_level = (ttl_annotation, codes "300") ∷ []

lookup-merge_annotations_example :
    lookup ttl_annotation (merge_annotations (class_level ∷ source_level ∷ [])) ≡ some (codes "300")
unfolding lookup has_prefix
lookup-merge_annotations_example =
    lookup-merge_annotations (class_level ∷ source_level ∷ []) ttl_annotation
      ((refl, (refl, tt)), ((refl, tt), tt))

sorted_unique_canonical_example :
    sorted_unique (codes "b" ∷ codes "a" ∷ codes "b" ∷ []) ≡ codes "a" ∷ codes "b" ∷ []
unfolding text_lt
sorted_unique_canonical_example =
    sorted_unique_canonical (codes "b" ∷ codes "a" ∷ codes "b" ∷ []) (codes "a" ∷ codes "b" ∷ [])
      ((refl, tt), (tt, tt)) (λ a. ground arith)

abbrev values : Map Text Text
values =
    (enabled_annotation, codes "true")
    ∷ (providers_annotation, codes "home, edge")
    ∷ (ttl_annotation, codes "300")
    ∷ []

abbrev nothing_parsed : ParsedAnnotations
nothing_parsed = record {
  enabled = false;
  providers = [];
  hostnames = [];
  ttl = none;
  families = [];
  deletion_delay = none;
  resolved = [];
}

abbrev or_nothing : Result SourceError ParsedAnnotations → ParsedAnnotations
or_nothing (ok a) = a
or_nothing (err e) = nothing_parsed

abbrev parsed : ParsedAnnotations
parsed = or_nothing (parse_annotations platform values)

parse_annotations-IsParsed_example : IsParsed platform parsed
unfolding parse_annotations lookup trim_space comma_list sort_texts set_insert_all text_lt
    parse_positive
parse_annotations-IsParsed_example = parse_annotations-IsParsed platform values parsed refl

abbrev route : Route
route = record {
  kind = http_route;
  namespace = codes "web";
  name = codes "shop";
  uid = codes "u";
  annotations = [];
  parents = [];
  hostnames = [];
  rules = [];
}

abbrev foreign_reference : ObjectReference
foreign_reference = record {
  group = none;
  kind = none;
  namespace = some (codes "db");
  name = codes "sql";
}

abbrev grant : ReferenceGrant
grant = record {
  from = (gateway_group, (codes "HTTPRoute", codes "web")) ∷ [];
  to = ([], (service_kind, none)) ∷ [];
}

abbrev backend : Backend
backend = record { namespace = codes "db"; name = codes "sql" }

collect_backends-IsAllowed_example :
    IsAllowed (λ namespace. some (grant ∷ [])) route (foreign_reference ∷ []) backend
unfolding collect_backends set_insert
collect_backends-IsAllowed_example =
    collect_backends-IsAllowed (λ namespace. some (grant ∷ [])) route (foreign_reference ∷ [])
      (backend ∷ []) backend refl refl

abbrev reader : Reader
reader = record {
  get_service = λ b. ok tt;
  list_slices = λ b. ok ((record { ready = some true; node_name = some (codes "n1") } ∷ []) ∷ []);
  get_node = λ node. ok ((codes "ip", codes "10.0.0.1") ∷ []);
  parse_addr = λ s. some (record { is_4 = true; is_6 = false; is_4_in_6 = false; text = s });
}

abbrev provider : DnsProvider
provider = record {
  name = codes "home";
  zones = codes "io" ∷ [];
  ipv4_label = some (codes "ip");
  ipv6_label = none;
  default_ttl = pos 0;
  default_delay = none;
  default_properties = [];
  annotation_keys = [];
}

abbrev options : PublicationOptions
options = record { families = []; annotations = []; ttl = none; deletion_delay = none }

abbrev projection : List HostProjection
projection = record { hostname = codes "a.io"; backends = backend ∷ [] } ∷ []

abbrev no_publication : Publication
no_publication = record {
  provider_name = [];
  records = [];
  metadata_annotations = [];
  deletion_delay = pos 0;
}

abbrev or_no_publication : Result SourceError Publication → Publication
or_no_publication (ok p) = p
or_no_publication (err e) = no_publication

abbrev published : Publication
published = or_no_publication (publication reader projection provider options []).0

publication-IsPublishable_example : All (IsPublishable provider.zones) published.records
unfolding publication trim_prefix to_lower trim_suffix has_suffix sort_texts set_insert lookup
    has_prefix
publication-IsPublishable_example =
    publication-IsPublishable reader projection provider options [] published refl
