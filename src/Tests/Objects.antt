-- ===== src/Tests/Objects.antt =====
-- Runs of the writer's parts at a concrete object.
use labdns.Source.Routes.{RouteKind, kind_name}
use labdns.Source.Types.{ingress_kind}
use labdns.Controller.Watches.Mapper.{ingress_endpoint, route_endpoint}
use labdns.Controller.Watches.Endpoints.{only_of, ingress_endpoint-build}
use labdns.Base.{
  ℕ, zero, suc, ◌+◌, ◌-◌, ◌<◌, ◌≤◌, Ascending, sort_by, sort_texts, set_insert, text_ord, pair_ord,
  list_eq, nat_eq, pair_eq, text_lt, retain, insert, contains_byte, to_lower, trim_suffix, ◌≡◌,
  refl, Bool, true, false, Option, none, some, List, [], ◌∷◌, Text, ℤ, pos, negsuc, codes, arith,
  NoByte, All, get_or, Map, lookup,
}
use labdns.Base.Results.{Result, ok, err}
use labdns.Platform.{PendingTarget, Lifecycle}
use labdns.Source.Types.{Identity, Record, Publication}
use labdns.Dnsendpoint.Lifecycle.{
  TargetKey, marshal_lifecycle, parse_lifecycle, sort_pending, pending_key, deadline,
}
use labdns.Dnsendpoint.Lifecycle.Laws.{
  IsWellFormed, parse_lifecycle-IsWellFormed, parse_lifecycle-marshal_lifecycle,
}
use labdns.Dnsendpoint.Endpoints.{
  Endpoint, normalize_endpoints, endpoint_targets, fresh_endpoint, normalize_records,
  combine_records,
}
use labdns.Dnsendpoint.Endpoints.Laws.{offers}
use labdns.Dnsendpoint.Endpoints.Laws.Normalize.{
  requests, offers-normalize_records, HasDistinctKeys, normalize_records-HasDistinctKeys,
}
use labdns.Dnsendpoint.Endpoints.Laws.Combine.{offers-combine_records}
use labdns.Dnsendpoint.Object.{
  Object, InvalidState, lifecycle_annotation, deletion_delay_annotation, managed_by_label,
  managed_by_value, stored_delay,
}
use labdns.Dnsendpoint.Build.{build, retire_one}
use labdns.Dnsendpoint.Build.Status.{absent, retiring, status, pending_items}
use labdns.Dnsendpoint.Build.Refines.Closed.{build-build}
use labdns.Dnsendpoint.Writer.Laws.{
  IsAllowedOn, decide_missing-IsAllowedOn, decide_present-IsAllowedOn,
}
use labdns.Dnsendpoint.Writer.{decide_missing, decide_present, nothing, delete}
use labdns.Dnsendpoint.Advance.{decide_advance, sweep}
use labdns.Dnsendpoint.Advance.Laws.{waiting}
use labdns.Dnsendpoint.Advance.Laws.Refines.{after, status-decide_advance, decide_advance-wakes}
use labdns.Dnsendpoint.Build.Refines.{status-build}
use labdns.Tests.Concrete.{platform, laws, encode, decode, parse_time, parse_duration, put_int}

abbrev identity : Identity
identity = record {
  api_version = codes "networking.k8s.io/v1";
  kind = codes "Ingress";
  namespace = codes "web";
  name = codes "shop";
  uid = codes "u1";
}

abbrev host : Text
host = codes "a.io"

abbrev wanted : Record
wanted = record {
  dns_name = host;
  record_type = codes "A";
  targets = codes "1.1.1.1" ∷ [];
  ttl = pos 300;
  provider_specific = [];
}

abbrev publication : Publication
publication = record {
  provider_name = codes "home";
  records = wanted ∷ [];
  metadata_annotations = [];
  deletion_delay = pos 60;
}

abbrev old_record : Endpoint
old_record = record (fresh_endpoint host (codes "A")) { targets = codes "2.2.2.2" ∷ [] }

abbrev current : Object
current = record {
  api_version = codes "externaldns.k8s.io/v1alpha1";
  kind = codes "DNSEndpoint";
  namespace = codes "web";
  name = codes "n";
  resource_version = codes "7";
  labels = (managed_by_label, managed_by_value) ∷ [];
  annotations =
      (lifecycle_annotation, encode (record { version = pos 1; pending = [] }))
      ∷ (deletion_delay_annotation, put_int (pos 60) [])
      ∷ [];
  owner_references = [];
  endpoints = some old_record ∷ [];
  status = 0;
}

abbrev or_none : Result InvalidState (Option Object) → Option Object
or_none (ok r) = r
or_none (err e) = none

abbrev built : Option Object
built = or_none (build platform identity (codes "home") publication (some current) 100)

abbrev old_key : TargetKey
old_key = (host, (codes "A", codes "2.2.2.2"))

abbrev built_object : Object
built_object = get_or built current

status-build_example : status platform built old_key ≡ retiring 160
unfolding build encode decode parse_time parse_duration stored_delay lookup parse_lifecycle sort_by
    contains_byte to_lower trim_suffix
status-build_example =
    status-build platform identity (codes "home") publication (some current) 100 built laws
      (refl, tt) (((refl, refl, (refl, tt)), tt), (refl, tt)) (omega arith) refl old_key refl

abbrev no_records : Publication
no_records = record publication { records = [] }

build-build_example :
    (r : Option Object) × (build platform identity (codes "home") no_records (some built_object) 130
      ≡ ok r)
unfolding build encode decode parse_time parse_duration stored_delay lookup parse_lifecycle sort_by
    contains_byte to_lower trim_suffix combine_records retain endpoint_targets normalize_records
    insert sort_texts set_insert labdns.Base.delete retire_one text_lt
build-build_example =
    build-build platform identity (codes "home") publication (some current) 100 built_object laws
      (refl, tt) (((refl, refl, (refl, tt)), tt), (refl, tt)) (omega arith) refl refl no_records 130

abbrev pending_item : PendingTarget
pending_item = record {
  dns_name = host;
  record_type = codes "A";
  target = codes "2.2.2.2";
  deadline = 160 ∷ [];
}

abbrev waiting_object : Object
waiting_object = record current {
  annotations =
      (lifecycle_annotation, encode (record { version = pos 1; pending = pending_item ∷ [] }))
      ∷ (deletion_delay_annotation, put_int (pos 60) [])
      ∷ [];
}

status-decide_advance_example :
    status platform (after waiting_object (delete waiting_object)) old_key ≡ absent
unfolding decide_advance encode decode parse_time parse_duration stored_delay lookup parse_lifecycle
    sort_by contains_byte to_lower trim_suffix sweep endpoint_targets normalize_endpoints sort_texts
    set_insert deadline
status-decide_advance_example =
    status-decide_advance platform 200 waiting_object 0 (delete waiting_object) 0 old_key laws refl
      refl refl

decide_advance-wakes_example :
    All
      (λ item. (0 < 10) × (10 ≤ deadline platform item - 150))
      (waiting platform 150 (pending_items platform waiting_object))
unfolding decide_advance encode decode parse_time parse_duration stored_delay lookup parse_lifecycle
    sort_by contains_byte to_lower trim_suffix sweep endpoint_targets normalize_endpoints sort_texts
    set_insert deadline
decide_advance-wakes_example =
    decide_advance-wakes platform 150 waiting_object 0 nothing 10 refl refl refl

abbrev two_items : List PendingTarget
two_items = record pending_item { target = codes "9.9.9.9" } ∷ pending_item ∷ []

abbrev two_state : Lifecycle
two_state = record { version = pos 1; pending = two_items }

abbrev sorted_state : Lifecycle
sorted_state = record { version = pos 1; pending = sort_pending two_items }

parse_lifecycle-IsWellFormed_example :
    (sorted_state.version ≡ pos 1)
    × IsWellFormed platform sorted_state.pending
    × Ascending pending_key sorted_state.pending
unfolding decide_advance encode decode parse_time parse_duration stored_delay lookup parse_lifecycle
    sort_by contains_byte to_lower trim_suffix sweep endpoint_targets normalize_endpoints sort_texts
    set_insert deadline
parse_lifecycle-IsWellFormed_example =
    parse_lifecycle-IsWellFormed platform (encode two_state) sorted_state refl

parse_lifecycle-marshal_lifecycle_example :
    parse_lifecycle platform (marshal_lifecycle platform two_state) ≡ ok sorted_state
unfolding parse_time
parse_lifecycle-marshal_lifecycle_example =
    parse_lifecycle-marshal_lifecycle platform two_state laws (record {
      canonical = ((refl, (160, refl, refl)), ((refl, (160, refl, refl)), tt));
      distinct = (refl, (refl, tt));
    })

offers-normalize_records_example :
    offers (normalize_records (wanted ∷ wanted ∷ [])) (host, (codes "A", codes "1.1.1.1"))
    ≡ requests (wanted ∷ wanted ∷ []) (host, (codes "A", codes "1.1.1.1"))
unfolding contains_byte to_lower trim_suffix
offers-normalize_records_example =
    offers-normalize_records (wanted ∷ wanted ∷ []) (host, (codes "A", codes "1.1.1.1"))
      (refl, (refl, tt)) refl

normalize_records-HasDistinctKeys_example :
    HasDistinctKeys (normalize_records (wanted ∷ wanted ∷ []))
unfolding contains_byte to_lower trim_suffix
normalize_records-HasDistinctKeys_example =
    normalize_records-HasDistinctKeys (wanted ∷ wanted ∷ []) (refl, (refl, tt))

offers-combine_records_example :
    offers (combine_records [] (old_record ∷ []) ((old_key, pending_item) ∷ [])) old_key ≡ true
unfolding contains_byte
offers-combine_records_example =
    offers-combine_records [] (old_record ∷ []) ((old_key, pending_item) ∷ []) old_key tt tt
      (refl, tt) ((refl, refl, refl), tt) refl

decide_missing-IsAllowedOn_example :
    IsAllowedOn platform identity
      (codes "home")
      none
      (decide_missing platform identity (codes "home") publication true 100)
decide_missing-IsAllowedOn_example =
    decide_missing-IsAllowedOn platform identity (codes "home") publication true 100

decide_present-IsAllowedOn_example :
    IsAllowedOn platform identity
      (codes "home")
      (some built_object)
      (decide_present platform identity (codes "home") no_records built_object 100)
decide_present-IsAllowedOn_example =
    decide_present-IsAllowedOn platform identity (codes "home") no_records built_object 100

ingress_endpoint-build_example :
    (ingress_endpoint built_object ≡ only_of ingress_kind identity)
    × ((kind : RouteKind) → route_endpoint kind built_object ≡ only_of (kind_name kind) identity)
unfolding build encode decode parse_time parse_duration stored_delay lookup parse_lifecycle sort_by
    contains_byte to_lower trim_suffix combine_records retain endpoint_targets normalize_records
    insert sort_texts set_insert labdns.Base.delete retire_one text_lt
ingress_endpoint-build_example =
    ingress_endpoint-build platform identity (codes "home") publication (some current) 100
      built_object refl
