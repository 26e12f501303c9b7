-- ===== src/Cli/Records.antt =====
-- internal/cli/inspect.go: the records that the managed DNSEndpoints publish.
pub mod Laws
use labdns.Base.{
  ℕ, ◌+◌, Bool, true, false, not, ◌&&◌, ◌||◌, Option, none, some, List, [], ◌∷◌, ◌++◌, Text, Map, ℤ,
  codes, is_empty, lookup, insert, get_or, contains, keep, map, sort_texts, sort_by, text_ord,
  to_lower, trim_space, trim_suffix, join, if◌then◌else◌, ◌==◌, list_eq, nat_eq, int_eq, int_ltb,
  pos, pair_eq, pair_ord,
}
use labdns.Base.Results.{Result, ok, err, ◌>>=◌}
use labdns.Platform.{Platform}
use labdns.Source.Types.{Property, ingress_kind, http_route_kind, tcp_route_kind, udp_route_kind}
use labdns.Source.Resolver.{DnsProvider, ReadError, missing, failed}
use labdns.Dnsendpoint.Lifecycle.{LifecycleError, InspectedTarget, inspect_lifecycle}
use labdns.Dnsendpoint.Endpoints.{Endpoint}
use labdns.Dnsendpoint.Object.{
  Object, value_at, provider_label, lifecycle_annotation, source_kind_annotation,
  source_namespace_annotation, source_name_annotation, source_uid_annotation,
}
use labdns.Cli.Model.{
  SourceRef, ObjectRef, RetiringTarget, PublishedRecord, ProviderDetail, SourceDetail, DnsLookup,
  RecordDetail, RecordDetails, state_observed, state_stale, state_invalid,
}

-- `strings.EqualFold`, at ASCII text.
unfoldable pub equal_fold : Text → Text → Bool
unfolding to_lower
equal_fold a b = to_lower a == to_lower b

pub record Filters : Type 0 where
  pub namespace : Text
  pub provider : Text
  pub source_kind : Text
  pub record_type : Text

-- A DNSEndpoint with its generation and the generation that ExternalDNS has observed.
pub record Listed : Type 0 where
  pub object : Object
  pub generation : ℤ
  pub observed : ℤ

unfoldable pub observation_state : ℤ → ℤ → Text
observation_state generation observed =
    if observed == generation
    then state_observed
    else if observed == pos 0
    then codes "unobserved"
    else if int_ltb observed generation
    then state_stale
    else state_invalid

unfoldable pub record_state : PublishedRecord → Text
record_state r =
    if not (is_empty r.lifecycle_error) || (r.external_dns_state == state_invalid)
    then state_invalid
    else if r.external_dns_state == state_observed
    then state_observed
    else state_stale

-- The values of each property, in the order of the properties.
unfoldable pub group_properties : Map Text (List Text) → List Property → Map Text (List Text)
group_properties groups [] = groups
group_properties groups (p ∷ properties) =
    group_properties (insert p.name (get_or (lookup p.name groups) [] ++ p.value ∷ []) groups)
      properties

abbrev sort_group : Text × List Text → Text × List Text
sort_group (name, values) = (name, sort_texts values)

unfoldable pub properties_of : List Property → Map Text (List Text)
unfolding group_properties
properties_of properties = map sort_group (group_properties [] properties)

-- The pending targets of a record.
unfoldable pub retiring_of : Endpoint → List InspectedTarget → List RetiringTarget
retiring_of item [] = []
retiring_of item (t ∷ pending) =
    let rest = retiring_of item pending in
    if (t.key.0 == item.dns_name) && (t.key.1.0 == item.record_type)
    then record { target = t.key.1.1; deadline = t.deadline_at } ∷ rest
    else rest

abbrev pub target_of : RetiringTarget → Text
target_of t = t.target

unfoldable pub active_of : List RetiringTarget → List Text → List Text
active_of retiring targets = keep (λ t. not (contains (map target_of retiring) t)) targets

abbrev pub source_of : Object → SourceRef
source_of o = record {
  kind = value_at source_kind_annotation o.annotations;
  namespace = value_at source_namespace_annotation o.annotations;
  name = value_at source_name_annotation o.annotations;
  uid = value_at source_uid_annotation o.annotations;
}

-- The text of an error is a parameter; it is not empty.
module _ (describe : LifecycleError → Text) where
  abbrev published :
      Listed → Endpoint → Text → Text → List RetiringTarget → Option (List Text) → PublishedRecord
  published listed item state error retiring active = record {
    dns_name = item.dns_name;
    record_type = item.record_type;
    targets = sort_texts item.targets;
    active_targets = active;
    ttl = item.record_ttl;
    provider = value_at provider_label listed.object.labels;
    source = source_of listed.object;
    dns_endpoint = record { namespace = listed.object.namespace; name = listed.object.name };
    generation = listed.generation;
    observed = listed.observed;
    external_dns_state = state;
    retiring = retiring;
    properties = properties_of item.provider_specific;
    lifecycle_error = error;
  }

  -- The body of the loop of `recordsFor`, for an entry that is not skipped.
  unfoldable pub record_for :
      Listed → Result LifecycleError (List InspectedTarget) → Endpoint → PublishedRecord
  unfolding observation_state retiring_of active_of properties_of
  record_for listed (err e) item = published listed item state_invalid (describe e) [] none
  record_for listed (ok pending) item =
      let retiring = retiring_of item pending in
      published listed item (observation_state listed.generation listed.observed) [] retiring
        (some (active_of retiring (sort_texts item.targets)))

  unfoldable pub records_from :
      Listed
      → Text
      → Result LifecycleError (List InspectedTarget)
      → List (Option Endpoint)
      → List PublishedRecord
  unfolding record_for equal_fold
  records_from listed record_type pending [] = []
  records_from listed record_type pending (none ∷ items) =
      records_from listed record_type pending items
  records_from listed record_type pending (some item ∷ items) =
      let rest = records_from listed record_type pending items in
      if not (is_empty record_type) && not (equal_fold item.record_type record_type)
      then rest
      else record_for listed pending item ∷ rest

  unfoldable pub records_for : Platform → Listed → Text → List PublishedRecord
  unfolding records_from inspect_lifecycle
  records_for p listed record_type =
      records_from listed record_type
        (inspect_lifecycle p (value_at lifecycle_annotation listed.object.annotations))
        listed.object.endpoints

  unfoldable pub is_selected : Filters → Object → Bool
  unfolding equal_fold
  is_selected filters o =
      (is_empty filters.provider || (value_at provider_label o.labels == filters.provider))
      && (is_empty filters.source_kind
          || equal_fold (value_at source_kind_annotation o.annotations) filters.source_kind)

  unfoldable pub collect_records : Platform → Filters → List Listed → List PublishedRecord
  unfolding records_for is_selected
  collect_records p filters [] = []
  collect_records p filters (listed ∷ rest) =
      let others = collect_records p filters rest in
      if is_selected filters listed.object
      then records_for p listed filters.record_type ++ others
      else others

abbrev pub record_sort_key : PublishedRecord → Text
record_sort_key r =
    join
      (r.dns_name ∷ r.provider ∷ r.dns_endpoint.namespace ∷ r.source.kind ∷ r.source.name
        ∷ r.record_type ∷ [])
      (0 ∷ [])

-- What the inspection reads: the cluster, and the DNS lookup. The texts of errors are those of the API.
pub record Inspector : Type 0 where
  -- The DNSEndpoints with the label of labdns, of a namespace or, for the empty one, of all.
  pub list_endpoints : Text → Result Text (List Listed)
  pub get_provider : Text → Result ReadError DnsProvider
  -- The UID of a source.
  pub get_source : Text → Text → Text → Result ReadError Text
  pub lookup_dns : Text → Text → Text → List Text → DnsLookup

module _ (p : Platform) (describe : LifecycleError → Text) (i : Inspector) where
  unfoldable pub records : Filters → Result Text (List PublishedRecord)
  unfolding collect_records join
  records filters = do
    listed ← i.list_endpoints filters.namespace
    ok (sort_by record_sort_key (collect_records describe p filters listed))

  abbrev no_provider : ProviderDetail
  no_provider = record {
    found = false;
    zones = [];
    ipv4_label = [];
    ipv6_label = [];
    default_ttl = pos 0;
  }

  unfoldable pub provider_detail : Text → Result Text ProviderDetail
  provider_detail name = elim (i.get_provider name) [
    | err missing ↦ ok no_provider
    | err failed ↦ err (codes "get DNSProvider " ++ name)
    | ok provider ↦ ok (record {
      found = true;
      zones = provider.zones;
      ipv4_label = get_or provider.ipv4_label [];
      ipv6_label = get_or provider.ipv6_label [];
      default_ttl = provider.default_ttl;
    })
  ]

  abbrev source_kinds : List Text
  source_kinds = ingress_kind ∷ http_route_kind ∷ tcp_route_kind ∷ udp_route_kind ∷ []

  unfoldable pub source_detail : SourceRef → Result Text SourceDetail
  source_detail ref =
      if not (contains source_kinds ref.kind)
      then ok (record { found = false; uid_matches = false })
      else elim (i.get_source ref.kind ref.namespace ref.name) [
        | err missing ↦ ok (record { found = false; uid_matches = false })
        | err failed ↦ err (codes "get source " ++ ref.kind)
        | ok uid ↦
            ok (record { found = true; uid_matches = not (is_empty ref.uid) && (ref.uid == uid) })
      ]

  unfoldable pub detail_of : Text → PublishedRecord → Result Text RecordDetail
  unfolding provider_detail source_detail
  detail_of dns_server r = do
    provider ← provider_detail r.provider
    source ← source_detail r.source
    ok (record {
      shown = r;
      provider = provider;
      source = source;
      dns =
          if is_empty dns_server
          then none
          else some (i.lookup_dns dns_server r.dns_name r.record_type r.targets);
    })

  unfoldable pub details_from : Text → Text → List PublishedRecord → Result Text (List RecordDetail)
  unfolding detail_of
  details_from query dns_server [] = ok []
  details_from query dns_server (r ∷ rs) =
      if not (r.dns_name == query) then details_from query dns_server rs else do
        detail ← detail_of dns_server r
        rest ← details_from query dns_server rs
        ok (detail ∷ rest)

  abbrev pub normalized_query : Text → Text
  normalized_query name = to_lower (trim_suffix (trim_space name) b'.')

  abbrev or_not_found : Text → List RecordDetail → Result Text RecordDetails
  or_not_found query [] = err (codes "no managed record found for " ++ query)
  or_not_found query (item ∷ items) = ok (record { query = query; items = item ∷ items })

  unfoldable pub details : Text → Filters → Text → Result Text RecordDetails
  unfolding records details_from to_lower trim_suffix trim_space
  details name filters dns_server = do
    list ← records filters
    items ← details_from (normalized_query name) dns_server list
    or_not_found (normalized_query name) items
