-- ===== src/Source/Resolver.antt =====
-- internal/source/resolver.go and `providerProperties` of internal/source/projection.go: from the
-- backends of a host name to the records of a provider. Reading the cluster and net/netip are
-- parameters.
use labdns.Base.{
  ℕ, suc, Bool, true, ◌||◌, not, Option, none, some, List, [], ◌∷◌, ◌++◌, Text, Map, ℤ, codes,
  lookup, is_empty, set_insert, set_insert_all, sort_texts, text_ord, pair_ord, if◌then◌else◌, ◌==◌,
  list_eq, nat_eq, pair_eq, get_or, has_prefix, trim_prefix, replace_byte, ltb, nat_beq,
}
use labdns.Base.Results.{Result, ok, err, ◌>>=◌}
use labdns.Source.Types.{Backend, backend_key, Property}
use labdns.Source.Errors.{SourceError, plain, wrapped, dependency, mark_invalid}
use labdns.Source.Names.{invalid_source}
use labdns.Source.Annotations.{AddressFamily, ipv4, ipv6, sorted_unique}
use labdns.Source.Diagnostics.{Diagnostic, normal, warning, emit, emit_if}

-- api/v1alpha1/dnsprovider_types.go
pub record DnsProvider : Type 0 where
  pub name : Text
  pub zones : List Text
  pub ipv4_label : Option Text
  pub ipv6_label : Option Text
  pub default_ttl : ℤ
  pub default_delay : Option ℤ
  pub default_properties : List Property
  pub annotation_keys : List Text

pub record PublicationOptions : Type 0 where
  pub families : List AddressFamily
  pub annotations : Map Text Text
  pub ttl : Option ℕ
  pub deletion_delay : Option ℤ

-- One endpoint of an EndpointSlice: its condition `ready` and its Node.
pub record SliceEndpoint : Type 0 where
  pub ready : Option Bool
  pub node_name : Option Text

-- What the code asks of a `netip.Addr`.
pub record Address : Type 0 where
  pub is_4 : Bool
  pub is_6 : Bool
  pub is_4_in_6 : Bool
  pub text : Text

pub data ReadError : Type 0 where
  missing failed : ReadError

pub record Reader : Type 0 where
  pub get_service : Backend → Result ReadError (Unit {0})
  pub list_slices : Backend → Result ReadError (List (List SliceEndpoint))
  -- The labels of a Node.
  pub get_node : Text → Result ReadError (Map Text Text)
  -- `netip.ParseAddr`
  pub parse_addr : Text → Option Address

unfoldable pub label_for : DnsProvider → AddressFamily → Text
label_for provider ipv4 = get_or provider.ipv4_label []
label_for provider ipv6 = get_or provider.ipv6_label []

abbrev pub address_family_name : AddressFamily → Text
address_family_name ipv4 = codes "IPv4"
address_family_name ipv6 = codes "IPv6"

abbrev pub v6_prefix : Text
v6_prefix = codes "v6-"

unfoldable pub parse_node_address : Reader → Text → AddressFamily → Result SourceError Address
parse_node_address reader value ipv4 =
    if has_prefix value v6_prefix then err invalid_source else elim (reader.parse_addr value) [
      | none ↦ err invalid_source
      | some address ↦ if address.is_4 then ok address else err invalid_source
    ]
parse_node_address reader value ipv6 =
    if not (has_prefix value v6_prefix)
    then err invalid_source
    else elim (reader.parse_addr (replace_byte (trim_prefix value v6_prefix) b'-' b':')) [
      | none ↦ err invalid_source
      | some address ↦
          if not address.is_6 || address.is_4_in_6
          then err invalid_source
          else if value == v6_prefix ++ replace_byte address.text b':' b'-'
          then ok address
          else err invalid_source
    ]

-- `map[AddressFamily][]string`
pub record ByFamily : Type 0 where
  pub v4 : List Text
  pub v6 : List Text

abbrev pub no_values : ByFamily
no_values = record { v4 = []; v6 = [] }

abbrev pub at_family : AddressFamily → ByFamily → List Text
at_family ipv4 m = m.v4
at_family ipv6 m = m.v6

abbrev pub append_at : AddressFamily → Text → ByFamily → ByFamily
append_at ipv4 value m = record m { v4 = m.v4 ++ value ∷ [] }
append_at ipv6 value m = record m { v6 = m.v6 ++ value ∷ [] }

-- The addresses that were found, and the Nodes without a label.
abbrev pub Scan : Type 0
Scan = ByFamily × ByFamily

-- What the endpoints of the slices say: the Nodes, how many are ready, and how many of them name no Node.
pub record Readiness : Type 0 where
  pub nodes : List Text
  pub ready : ℕ
  pub without_node : ℕ

unfoldable pub scan_endpoint : SliceEndpoint → Readiness → Readiness
scan_endpoint endpoint r =
    if not (get_or endpoint.ready true)
    then r
    else if is_empty (get_or endpoint.node_name [])
    then record r { ready = suc r.ready; without_node = suc r.without_node }
    else record r { nodes = set_insert (get_or endpoint.node_name []) r.nodes; ready = suc r.ready }

unfoldable pub scan_slice : List SliceEndpoint → Readiness → Readiness
unfolding scan_endpoint
scan_slice [] r = r
scan_slice (endpoint ∷ endpoints) r = scan_slice endpoints (scan_endpoint endpoint r)

unfoldable pub scan_slices : List (List SliceEndpoint) → Readiness → Readiness
unfolding scan_slice
scan_slices [] r = r
scan_slices (slice ∷ slices) r = scan_slices slices (scan_slice slice r)

abbrev pub no_readiness : Readiness
no_readiness = record { nodes = []; ready = 0; without_node = 0 }

module _ (reader : Reader) (provider : DnsProvider) where
  -- The label of one family on one Node.
  unfoldable pub scan_label : Text → Map Text Text → AddressFamily → Scan → Result SourceError Scan
  unfolding label_for parse_node_address
  scan_label node labels family (found, unlabelled) =
      let label = label_for provider family in
      let value = get_or (lookup label labels) [] in
      if is_empty label
      then ok (found, unlabelled)
      else if is_empty value
      then ok (found, append_at family node unlabelled)
      else elim (parse_node_address reader value family) [
        | err e ↦ err (wrapped e)
        | ok address ↦ ok (append_at family address.text found, unlabelled)
      ]

  unfoldable pub scan_labels :
      Text → Map Text Text → List AddressFamily → Scan → Result SourceError Scan
  unfolding scan_label
  scan_labels node labels [] scan = ok scan
  scan_labels node labels (family ∷ families) scan = do
    next ← scan_label node labels family scan
    scan_labels node labels families next

  unfoldable pub scan_nodes : List AddressFamily → List Text → Scan → Result SourceError Scan
  unfolding scan_labels
  scan_nodes families [] scan = ok scan
  scan_nodes families (node ∷ nodes) scan = elim (reader.get_node node) [
    | err missing ↦ err (mark_invalid (dependency (codes "NodeNotFound") (wrapped plain)))
    | err failed ↦ err (dependency (codes "NodeReadFailed") (wrapped plain))
    | ok labels ↦ do next ← scan_labels node labels families scan; scan_nodes families nodes next
  ]

  unfoldable pub report_missing :
      Backend → List AddressFamily → ByFamily → List Diagnostic → List Diagnostic
  unfolding sorted_unique
  report_missing backend [] unlabelled reported = reported
  report_missing backend (family ∷ families) unlabelled reported =
      report_missing backend families unlabelled (
        emit_if (not (is_empty (at_family family unlabelled)))
          (warning (codes "NodeAddressLabelMissing") (
            provider.name
            ∷ backend_key backend
            ∷ label_for provider family
            ∷ address_family_name family
            ∷ sorted_unique (at_family family unlabelled)))
          reported)

  abbrev pub sorted_addresses : ByFamily → ByFamily
  sorted_addresses found = record { v4 = sorted_unique found.v4; v6 = sorted_unique found.v6 }

  -- The addresses of the Nodes that run ready endpoints, once the slices are read.
  unfoldable pub slice_targets :
      Backend
      → List AddressFamily
      → Readiness
      → List Diagnostic
      → Result SourceError ByFamily × List Diagnostic
  unfolding scan_nodes report_missing
  slice_targets backend families r reported =
      let warned =
        emit_if (ltb 0 r.without_node)
          (warning (codes "EndpointNodeNameMissing")
            (backend_key backend ∷ (r.without_node ∷ []) ∷ []))
          (emit_if (nat_beq r.ready 0)
            (normal (codes "NoReadyEndpoints") (backend_key backend ∷ [])) reported) in
      elim (scan_nodes families (sort_texts r.nodes) (no_values, no_values)) [
        | err e ↦ (err e, warned)
        | ok (found, unlabelled) ↦
            (ok (sorted_addresses found), report_missing backend families unlabelled warned)
      ]

  unfoldable pub backend_targets :
      Backend → List AddressFamily → List Diagnostic → Result SourceError ByFamily × List Diagnostic
  unfolding scan_slices slice_targets
  backend_targets backend families reported = elim (reader.get_service backend) [
    | err missing ↦
        (err (mark_invalid (dependency (codes "ServiceNotFound") (wrapped plain))), reported)
    | err failed ↦ (err (dependency (codes "ServiceReadFailed") (wrapped plain)), reported)
    | ok _ ↦ elim (reader.list_slices backend) [
      | err _ ↦ (err (dependency (codes "EndpointSliceReadFailed") (wrapped plain)), reported)
      | ok [] ↦ (
        ok no_values,
        emit (normal (codes "EndpointSlicesUnavailable") (backend_key backend ∷ [])) reported,
      )
      | ok (slice ∷ slices) ↦
          slice_targets backend families (scan_slices (slice ∷ slices) no_readiness) reported
    ]
  ]

  -- The targets of every backend of a host name, as sets.
  unfoldable pub host_targets :
      List AddressFamily
      → List Backend
      → ByFamily
      → List Diagnostic
      → Result SourceError ByFamily × List Diagnostic
  unfolding backend_targets
  host_targets families [] targets reported = (ok targets, reported)
  host_targets families (backend ∷ backends) targets reported =
      let (answer, said) = backend_targets backend families reported in
      elim answer [
        | err e ↦ (err e, said)
        | ok found ↦
            host_targets families backends
              (record {
                v4 = set_insert_all found.v4 targets.v4;
                v6 = set_insert_all found.v6 targets.v6;
              })
              said
      ]
