-- ===== src/Dnsendpoint/Endpoints.antt =====
-- internal/dnsendpoint/writer.go: the records of a DNSEndpoint, in a canonical form.
pub mod Compact
pub mod Laws
use labdns.Base.{
  ℕ, Bool, true, false, ◌||◌, ◌&&◌, Option, none, some, List, [], ◌∷◌, ◌++◌, map, Text, Map, ℤ, pos,
  negsuc, nat_beq, if◌then◌else◌, ◌==◌, list_eq, nat_eq, pair_eq, pair_ord, text_ord, sort_by,
  sort_texts, contains, set_insert, lookup, insert, values, trim_suffix, to_lower, is_empty, any,
  keep, map_equal, list_beq,
}
use labdns.Source.Types.{Property, Record}
use labdns.Platform.{PendingTarget}
use labdns.Dnsendpoint.Lifecycle.{TargetKey}

-- `endpoint.Endpoint` of external-dns.
pub record Endpoint : Type 0 where
  pub dns_name : Text
  pub targets : List Text
  pub record_type : Text
  pub set_identifier : Text
  pub record_ttl : ℤ
  pub labels : Map Text Text
  pub provider_specific : List Property

compact_after : Text → List Text → List Text
compact_after last [] = []
compact_after last (v ∷ vs) =
    let same = compact_after last vs in
    let other = v ∷ compact_after v vs in if v == last then same else other

-- Drops each value that repeats the one before it.
unfoldable pub compact : List Text → List Text
unfolding compact_after
compact [] = []
compact (v ∷ vs) = v ∷ compact_after v vs

abbrev pub property_key : Property → Text × Text
property_key p = (p.name, p.value)

unfoldable pub sort_properties : List Property → List Property
sort_properties ps = sort_by property_key ps

abbrev pub endpoint_key : Endpoint → Text × Text
endpoint_key r = (r.dns_name, r.record_type)

-- The body of the loop of `normalizeEndpoints`.
unfoldable pub normalize_endpoint : Endpoint → Endpoint
unfolding sort_properties compact
normalize_endpoint value = record value {
  targets = compact (sort_texts value.targets);
  provider_specific = sort_properties value.provider_specific;
}

-- The entries that are not nil.
abbrev pub present : List (Option Endpoint) → List Endpoint
present [] = []
present (none ∷ values) = present values
present (some value ∷ values) = value ∷ present values

unfoldable pub normalize_endpoints : List (Option Endpoint) → List Endpoint
unfolding normalize_endpoint
normalize_endpoints values = sort_by endpoint_key (map normalize_endpoint (present values))

-- `dnsName + "\x00" + recordType`
abbrev pub record_key : Text → Text → Text
record_key dns_name record_type = dns_name ++ 0 ∷ record_type

abbrev pub fresh_endpoint : Text → Text → Endpoint
fresh_endpoint dns_name record_type = record {
  dns_name = dns_name;
  targets = [];
  record_type = record_type;
  set_identifier = [];
  record_ttl = pos 0;
  labels = [];
  provider_specific = [];
}

abbrev pub normal_name : Text → Text
normal_name dns_name = to_lower (trim_suffix dns_name 46)

unfoldable pub endpoint_of : Record → Endpoint
unfolding sort_properties compact
endpoint_of r = record (fresh_endpoint (normal_name r.dns_name) r.record_type) {
  targets = compact (sort_texts r.targets);
  record_ttl = r.ttl;
  provider_specific = sort_properties r.provider_specific;
}

-- A second record of one name and type adds its targets to the first.
unfoldable pub add_record : Map Text Endpoint → Record → Map Text Endpoint
unfolding endpoint_of
add_record by_record r =
    let e = endpoint_of r in
    let key = record_key e.dns_name e.record_type in
    elim (lookup key by_record) [
      | none ↦ insert key e by_record
      | some existing ↦
          insert key (record existing { targets = existing.targets ++ e.targets }) by_record
    ]

unfoldable pub add_records : Map Text Endpoint → List Record → Map Text Endpoint
unfolding add_record
add_records by_record [] = by_record
add_records by_record (r ∷ rs) = add_records (add_record by_record r) rs

unfoldable pub normalize_records : List Record → List Endpoint
unfolding add_records normalize_endpoints
normalize_records records = normalize_endpoints (map some (values (add_records [] records)))

add_targets : Text → Text → List Text → List TargetKey → List TargetKey
add_targets dns_name record_type [] set = set
add_targets dns_name record_type (t ∷ ts) set =
    add_targets dns_name record_type ts (set_insert (dns_name, (record_type, t)) set)

targets_into : List TargetKey → List Endpoint → List TargetKey
unfolding add_targets
targets_into set [] = set
targets_into set (r ∷ rs) = targets_into (add_targets r.dns_name r.record_type r.targets set) rs

-- Every target of the records, as a set of keys; `recordTargets` is the same function.
unfoldable pub endpoint_targets : List Endpoint → List TargetKey
unfolding targets_into
endpoint_targets records = targets_into [] records

unfoldable pub index_records : Map Text Endpoint → List Endpoint → Map Text Endpoint
index_records by_record [] = by_record
index_records by_record (r ∷ rs) =
    index_records (insert (record_key r.dns_name r.record_type) r by_record) rs

-- The record that a pending target joins: the desired one, else the current one without its
-- targets, else a new one.
unfoldable pub base_record :
    Map Text Endpoint → Map Text Endpoint → TargetKey → PendingTarget → Endpoint
base_record by_record current (dns_name, (record_type, target)) item =
    let key = record_key dns_name record_type in
    elim (lookup key by_record) [
      | some existing ↦ existing
      | none ↦ elim (lookup key current) [
        | some old ↦ record old { targets = [] }
        | none ↦ fresh_endpoint item.dns_name item.record_type
      ]
    ]

unfoldable pub add_pending :
    Map Text Endpoint → Map Text Endpoint → TargetKey → PendingTarget → Map Text Endpoint
unfolding base_record
add_pending current by_record (dns_name, (record_type, target)) item =
    let base = base_record by_record current (dns_name, (record_type, target)) item in
    insert (record_key dns_name record_type) (record base { targets = base.targets ++ target ∷ [] })
      by_record

unfoldable pub add_all_pending :
    Map Text Endpoint → Map Text Endpoint → Map TargetKey PendingTarget → Map Text Endpoint
unfolding add_pending
add_all_pending current by_record [] = by_record
add_all_pending current by_record ((k, item) ∷ pending) =
    add_all_pending current (add_pending current by_record k item) pending

abbrev pub compact_targets : Endpoint → Endpoint
compact_targets r = record r { targets = compact (sort_texts r.targets) }

abbrev pub has_targets : Endpoint → Bool
has_targets r = elim r.targets [ [] ↦ false | _ ↦ true ]

unfoldable pub combine_records :
    List Endpoint → List Endpoint → Map TargetKey PendingTarget → List Endpoint
unfolding index_records add_all_pending normalize_endpoints
combine_records desired current pending =
    let by_record = add_all_pending (index_records [] current) (index_records [] desired) pending in
    normalize_endpoints (map some (keep has_targets (map compact_targets (values by_record))))
