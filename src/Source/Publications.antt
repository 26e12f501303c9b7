-- ===== src/Source/Publications.antt =====
-- internal/source/resolver.go, `Publications` and `publication`, and `providerProperties` of
-- internal/source/projection.go: the records that a source publishes at each of its providers.
pub mod Laws
use labdns.Base.{
  ℕ, Option, none, some, List, [], ◌∷◌, ◌++◌, Text, Map, ℤ, pos, codes, lookup, insert, retain,
  is_empty, map, sort_by, sort_texts, text_ord, pair_ord, if◌then◌else◌, list_eq, nat_eq, get_or,
  has_prefix, is_int,
}
use labdns.Base.Results.{Result, ok, err}
use labdns.Source.Types.{
  HostProjection, Property, Record, Publication, record_type_a, record_type_aaaa,
  external_dns_prefix,
}
use labdns.Source.Errors.{SourceError}
use labdns.Source.Names.{matching_zone}
use labdns.Source.Annotations.{AddressFamily, ipv4, ipv6}
use labdns.Source.Diagnostics.{Diagnostic, warning, emit, emit_if}
use labdns.Source.Resolver.{
  DnsProvider, PublicationOptions, Reader, ByFamily, no_values, at_family, label_for,
  address_family_name, host_targets,
}

unfoldable pub set_defaults : List Property → Map Text Text → Map Text Text
set_defaults [] properties = properties
set_defaults (property ∷ defaults) properties =
    set_defaults defaults (insert property.name property.value properties)

unfoldable pub override_properties : Map Text Text → List Text → Map Text Text → Map Text Text
override_properties annotations [] properties = properties
override_properties annotations (key ∷ keys) properties =
    override_properties annotations keys (elim (lookup key annotations) [
      | none ↦ properties
      | some value ↦ insert key value properties
    ])

abbrev pub property_of : Text × Text → Property
property_of (name, value) = record { name = name; value = value }

abbrev pub property_key : Property → Text × Text
property_key property = (property.name, property.value)

-- The properties of a record, and the annotations that are copied to the generated object.
unfoldable pub provider_properties : DnsProvider → Map Text Text → List Property × Map Text Text
unfolding set_defaults override_properties
provider_properties provider annotations =
    let properties =
      override_properties annotations provider.annotation_keys
        (set_defaults provider.default_properties []) in
    (
      sort_by property_key (map property_of properties),
      retain (λ key value. has_prefix key external_dns_prefix) annotations,
    )

-- Each family that the provider has a label source for.
abbrev pub provider_families : DnsProvider → List AddressFamily
provider_families provider =
    elim provider.ipv4_label [ none ↦ [] | some label ↦ ipv4 ∷ [] ]
    ++ elim provider.ipv6_label [ none ↦ [] | some label ↦ ipv6 ∷ [] ]

unfoldable pub publication_families : DnsProvider → List AddressFamily → List AddressFamily
publication_families provider [] = provider_families provider
publication_families provider (family ∷ families) = family ∷ families

unfoldable pub report_families :
    DnsProvider → List AddressFamily → List Diagnostic → List Diagnostic
unfolding label_for
report_families provider [] reported = reported
report_families provider (family ∷ families) reported = report_families provider families (
    emit_if (is_empty (label_for provider family))
      (warning (codes "AddressFamilyUnavailable") (provider.name ∷ address_family_name family ∷ []))
      reported)

-- The source's own value, else the provider's, else the default of the program.
unfoldable pub publication_ttl : DnsProvider → Option ℕ → ℤ
publication_ttl provider (some ttl) = pos ttl
publication_ttl provider none =
    if is_int provider.default_ttl 0 then pos 300 else provider.default_ttl

abbrev pub one_minute : ℤ
one_minute = pos 60000000000

unfoldable pub publication_delay : DnsProvider → Option ℤ → ℤ
publication_delay provider (some delay) = delay
publication_delay provider none = get_or provider.default_delay one_minute

abbrev pub record_type_of : AddressFamily → Text
record_type_of ipv4 = record_type_a
record_type_of ipv6 = record_type_aaaa

-- One record for each family that has targets.
unfoldable pub host_records : Text → ByFamily → ℤ → List Property → List AddressFamily → List Record
host_records hostname targets ttl properties [] = []
host_records hostname targets ttl properties (family ∷ families) =
    let rest = host_records hostname targets ttl properties families in
    let values = sort_texts (at_family family targets) in
    if is_empty values
    then rest
    else record {
      dns_name = hostname;
      record_type = record_type_of family;
      targets = values;
      ttl = ttl;
      provider_specific = properties;
    }
      ∷ rest

abbrev pub record_key : Record → Text × Text
record_key r = (r.dns_name, r.record_type)

abbrev pub publication_key : Publication → Text
publication_key publication = publication.provider_name

module _ (reader : Reader) where
  unfoldable pub projection_records :
      DnsProvider
      → List AddressFamily
      → ℤ
      → List Property
      → List HostProjection
      → List Diagnostic
      → Result SourceError (List Record) × List Diagnostic
  unfolding host_targets host_records matching_zone
  projection_records provider families ttl properties [] reported = (ok [], reported)
  projection_records provider families ttl properties (host ∷ hosts) reported =
      if is_empty (matching_zone host.hostname provider.zones)
      then projection_records provider families ttl properties hosts (
          emit (warning (codes "HostnameOutsideZones") (host.hostname ∷ provider.name ∷ []))
            reported)
      else let (found, said) =
          host_targets reader provider families host.backends no_values reported in
        elim found [
          | err e ↦ (err e, said)
          | ok targets ↦
              let (rest, all_said) =
                projection_records provider families ttl properties hosts said in
              elim rest [
                | err e ↦ (err e, all_said)
                | ok records ↦ (
                  ok (host_records host.hostname targets ttl properties families ++ records),
                  all_said,
                )
              ]
        ]

  unfoldable pub publication :
      List HostProjection
      → DnsProvider
      → PublicationOptions
      → List Diagnostic
      → Result SourceError Publication × List Diagnostic
  unfolding projection_records provider_properties publication_families publication_ttl
      publication_delay report_families
  publication projection provider options reported =
      let families = publication_families provider options.families in
      let (properties, metadata) = provider_properties provider options.annotations in
      let (answer, said) =
        projection_records provider families (publication_ttl provider options.ttl) properties
          projection (report_families provider families reported) in
      elim answer [
        | err e ↦ (err e, said)
        | ok records ↦ (
          ok (record {
            provider_name = provider.name;
            records = sort_by record_key records;
            metadata_annotations = metadata;
            deletion_delay = publication_delay provider options.deletion_delay;
          }),
          said,
        )
      ]

  unfoldable pub collect_publications :
      List HostProjection
      → List DnsProvider
      → PublicationOptions
      → List Diagnostic
      → Result SourceError (List Publication) × List Diagnostic
  unfolding publication
  collect_publications projection [] options reported = (ok [], reported)
  collect_publications projection (provider ∷ providers) options reported =
      let (answer, said) = publication projection provider options reported in
      elim answer [
        | err e ↦ (err e, said)
        | ok one ↦
            let (rest, all_said) = collect_publications projection providers options said in
            elim rest [ err e ↦ (err e, all_said) | ok more ↦ (ok (one ∷ more), all_said) ]
      ]

  unfoldable pub publications :
      List HostProjection
      → List DnsProvider
      → PublicationOptions
      → Result SourceError (List Publication) × List Diagnostic
  unfolding collect_publications
  publications projection providers options =
      let (answer, said) = collect_publications projection providers options [] in
      elim answer [ err e ↦ (err e, said) | ok all ↦ (ok (sort_by publication_key all), said) ]
