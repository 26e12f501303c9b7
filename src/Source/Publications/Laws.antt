-- ===== src/Source/Publications/Laws.antt =====
-- What a publication may hold.
use labdns.Base.{
  ◌≡◌, subst, inl, inr, true, false, contains, map, arith, List, [], ◌∷◌, ◌++◌, Text, ℤ, is_empty,
  All, sort_by-All, sort_texts, text_ord, pair_ord, list_eq, nat_eq, Bool-cases,
}
use labdns.Base.Results.{Result, ok, err, Result-cases}
use labdns.Source.Types.{HostProjection, Property, Record, Publication}
use labdns.Source.Errors.{SourceError}
use labdns.Source.Names.{matching_zone, matching_zone_lem, normal_zone, normal_host, IsInZone}
use labdns.Source.Annotations.{AddressFamily}
use labdns.Source.Diagnostics.{Diagnostic}
use labdns.Source.Resolver.{
  DnsProvider, PublicationOptions, Reader, ByFamily, no_values, at_family, host_targets,
}
use labdns.Source.Publications.{
  host_records, projection_records, publication, record_key, publication_families, publication_ttl,
  provider_properties, report_families,
}

-- One of the zones has the name: it is the zone, or ends with a dot and the zone.
abbrev pub LiesInZone : List Text → Text → Type 0
LiesInZone zones hostname =
    (zone : Text) × (contains (map normal_zone zones) zone ≡ true)
    × IsInZone (normal_host hostname) zone

matching_zone-LiesInZone :
    (zones : List Text) (hostname : Text)
    → is_empty (matching_zone hostname zones) ≡ false
    → LiesInZone zones hostname
matching_zone-LiesInZone zones hostname z = elim (matching_zone_lem hostname zones).0 [
  | inl none_such ↦ absurd (ground (arith, z, none_such))
  | inr (member, inside) ↦ (matching_zone hostname zones, member, inside)
]

-- Some target, under a name that one of the zones has.
abbrev pub IsPublishable : List Text → Record → Type 0
IsPublishable zones r =
    (is_empty r.targets ≡ false)
    × (is_empty (matching_zone r.dns_name zones) ≡ false)
    × LiesInZone zones r.dns_name

All-append :
    (zones : List Text) (rs qs : List Record)
    → All (IsPublishable zones) rs
    → All (IsPublishable zones) qs
    → All (IsPublishable zones) (rs ++ qs)
All-append zones [] qs h k = k
All-append zones (r ∷ rs) qs h k = (h.0, All-append zones rs qs h.1 k)

host_records-IsPublishable :
    (zones : List Text) (hostname : Text) (targets : ByFamily) (ttl : ℤ)
    (properties : List Property) (families : List AddressFamily)
    → is_empty (matching_zone hostname zones) ≡ false
    → All (IsPublishable zones) (host_records hostname targets ttl properties families)
unfolding host_records
host_records-IsPublishable zones hostname targets ttl properties [] z = tt
host_records-IsPublishable zones hostname targets ttl properties (family ∷ families) z =
    elim (Bool-cases (is_empty (sort_texts (at_family family targets)))) [
      | inl h ↦ rw h (host_records-IsPublishable zones hostname targets ttl properties families z)
      | inr h ↦ rw h (
        (h, z, matching_zone-LiesInZone zones hostname z),
        host_records-IsPublishable zones hostname targets ttl properties families z,
      )
    ]

abbrev AllPublishable : List Text → Result SourceError (List Record) → Type 0
AllPublishable zones (err e) = Unit
AllPublishable zones (ok records) = All (IsPublishable zones) records

module _ (reader : Reader) (provider : DnsProvider) (families : List AddressFamily) (ttl : ℤ)
    (properties : List Property) where
  projection_records-AllPublishable :
      (hosts : List HostProjection) (reported : List Diagnostic)
      → AllPublishable provider.zones
          (projection_records reader provider families ttl properties hosts reported).0
  unfolding projection_records
  projection_records-AllPublishable [] reported = tt
  projection_records-AllPublishable (host ∷ hosts) reported =
      elim (Bool-cases (is_empty (matching_zone host.hostname provider.zones))) [
        | inl outside ↦ rw (outside, projection_records) (projection_records-AllPublishable hosts _)
        | inr inside ↦
            let found = host_targets reader provider families host.backends no_values reported in
            elim (Result-cases found.0) [
              | inr (e, h) ↦ rw (inside, projection_records) (rw h tt)
              | inl (targets, h) ↦
                  let rest =
                    projection_records reader provider families ttl properties hosts found.1 in
                  elim (Result-cases rest.0) [
                    | inr (e, k) ↦ rw (inside, projection_records) (rw h (rw k tt))
                    | inl (records, k) ↦
                        rw (inside, projection_records)
                          (rw h (
                            rw k (
                              All-append provider.zones
                                (host_records host.hostname targets ttl properties families) records
                                (host_records-IsPublishable provider.zones host.hostname targets ttl
                                  properties families inside)
                                (subst (AllPublishable provider.zones) k
                                  (projection_records-AllPublishable hosts found.1)))))
                  ]
            ]
      ]

abbrev AllInPublication : List Text → Result SourceError Publication → Type 0
AllInPublication zones (err e) = Unit
AllInPublication zones (ok p) = All (IsPublishable zones) p.records

publication-AllInPublication :
    (reader : Reader) (projection : List HostProjection) (provider : DnsProvider)
    (options : PublicationOptions) (reported : List Diagnostic)
    → AllInPublication provider.zones (publication reader projection provider options reported).0
unfolding publication
publication-AllInPublication reader projection provider options reported =
    let families = publication_families provider options.families in
    let properties = (provider_properties provider options.annotations).0 in
    let ttl = publication_ttl provider options.ttl in
    let said = report_families provider families reported in
    let all =
      projection_records-AllPublishable reader provider families ttl properties projection said in
    elim (Result-cases
      (projection_records reader provider families ttl properties projection said).0) [
        | inr (e, h) ↦ rw (h, publication) tt
        | inl (records, h) ↦
            rw (h, publication)
              (sort_by-All record_key (IsPublishable provider.zones) records
                (subst (AllPublishable provider.zones) h all))
      ]

-- Every record of a publication that is resolved without an error has a target, and its host name lies
-- in a zone of the provider: `matching_zone` finds one, and the host name, without a wildcard, is a zone
-- of the provider or ends with a dot and such a zone.
pub publication-IsPublishable :
    (reader : Reader) (projection : List HostProjection) (provider : DnsProvider)
    (options : PublicationOptions) (reported : List Diagnostic) (p : Publication)
    → (publication reader projection provider options reported).0 ≡ ok p
    → All (IsPublishable provider.zones) p.records
publication-IsPublishable reader projection provider options reported p h =
    subst (AllInPublication provider.zones) h
      (publication-AllInPublication reader projection provider options reported)
