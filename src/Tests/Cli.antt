-- ===== src/Tests/Cli.antt =====
-- The command line and the checks before the start, at small inputs.
use labdns.Base.{
  ℕ, ◌+◌, ◌≡◌, true, false, not, ◌&&◌, ◌||◌, ◌↔◌, Option, none, some, List, [], ◌∷◌, ◌++◌, Text,
  pos, codes, length, map, contains, Distinct, list_eq, nat_eq, pair_eq, all, if◌then◌else◌,
}
use labdns.Base.Results.{Result, ok}
use labdns.Source.Types.{record_type_a, ingress_kind}
use labdns.Dnsendpoint.Lifecycle.{InspectedTarget, LifecycleError}
use labdns.Dnsendpoint.Endpoints.{Endpoint}
use labdns.Cli.Model.{PublishedRecord, ControllerStatus, state_observed, state_stale, state_match}
use labdns.Cli.Table.{Row, Writer, plain_cell, write_table, write_all, sized_rows}
use labdns.Cli.Table.Blocks.{write_table_lem, table_pieces, blocks_of, IsBlocks, rows_of}
use labdns.Cli.Table.Widths.{sized_rows_lem}
use labdns.Cli.Table.Widths.Runs.{row_of, IsAligned}
use labdns.Cli.Records.{Listed, record_for, target_of}
use labdns.Cli.Records.Laws.{targets-record_for, is_active, key_of, target_key}
use labdns.Cli.Health.{
  Answers, status, unhealthy, degraded, healthy, tally_records, no_tally, dns_endpoint_key,
  source_key_of,
}
use labdns.Cli.Health.Laws.{status_lem, is_broken, has_stale}
use labdns.Cli.Health.Counts.{
  tally_records_lem, all_retiring, count, is_observed_record, is_stale_record, is_invalid_record,
}
use labdns.Cli.Dns.{Net, a_answer, lookup_dns}
use labdns.Cli.Dns.Laws.{lookup_dns_lem, FindsMatch}
use labdns.Cli.Commands.{FilterOptions, filters, validate, source_kinds, record_types}
use labdns.Cli.Commands.Laws.{filters_lem, IsFilter}
use labdns.Startup.{
  Discovery, check_prerequisites, endpoint_version, gateway_version, grant_version,
  required_endpoints, required_gateways, required_grants, read_verbs, write_verbs,
}
use labdns.Startup.Laws.{check_prerequisites_lem, is_served, is_ok}

-- A writer that keeps what was written.
abbrev recorder : Writer Text
recorder = record { write_string = λ value s. ((length value, false), s ++ value) }

abbrev header : Row
header = plain_cell (codes "NAME") ∷ plain_cell (codes "TYPE") ∷ []

abbrev long_row : Row
long_row = plain_cell (codes "a.example.org") ∷ plain_cell (codes "A") ∷ []

abbrev table : List (Option Row)
table = some header ∷ some long_row ∷ none ∷ some header ∷ []

write_table_lem_example :
    (write_table recorder true table []
      ≡ write_all recorder (table_pieces true (blocks_of table)) [])
    × IsBlocks (blocks_of table)
    × (rows_of (blocks_of table) ≡ table)
write_table_lem_example = write_table_lem recorder true table []

sized_rows_lem_example :
    (map row_of (sized_rows (header ∷ long_row ∷ [])) ≡ header ∷ long_row ∷ [])
    × ((column : ℕ) → IsAligned column (sized_rows (header ∷ long_row ∷ [])))
sized_rows_lem_example = sized_rows_lem (header ∷ long_row ∷ [])

abbrev shop_record : Text → PublishedRecord
shop_record state = record {
  dns_name = codes "a.io";
  record_type = record_type_a;
  targets = codes "10.0.0.1" ∷ [];
  active_targets = some [];
  ttl = pos 60;
  provider = codes "home";
  source = record {
    kind = ingress_kind;
    namespace = codes "web";
    name = codes "shop";
    uid = codes "u";
  };
  dns_endpoint = record { namespace = codes "web"; name = codes "labdns-1" };
  generation = pos 2;
  observed = pos 1;
  external_dns_state = state;
  retiring = record { target = codes "10.0.0.1"; deadline = 60 } ∷ [];
  properties = [];
  lifecycle_error = [];
}

abbrev manager : ControllerStatus
manager = record {
  namespace = codes "labdns";
  name = codes "labdns";
  desired = pos 1;
  available = pos 1;
  ready_pods = 1;
  gateway_api = false;
}

abbrev serves : Text → Result Text (List Text)
serves version = ok (codes "dnsproviders" ∷ codes "dnsendpoints" ∷ [])

abbrev late_answers : Answers
late_answers = record {
  served = serves;
  controllers = ok (manager ∷ []);
  providers = ok 1;
  records = ok (shop_record state_stale ∷ shop_record state_observed ∷ []);
}

status_lem_example :
    ((status late_answers).1 ≡ is_broken late_answers)
    × ((status late_answers).0.overall ≡ (
        if is_broken late_answers
        then unhealthy
        else if has_stale late_answers late_answers.records
        then degraded
        else healthy))
status_lem_example = status_lem late_answers

tally_records_lem_example :
    let records = shop_record state_stale ∷ shop_record state_observed ∷ [] in
    let t = tally_records late_answers records (no_tally late_answers) in
    (t.seen ≡ length records)
    × (t.observed ≡ count is_observed_record records)
    × (t.stale ≡ count is_stale_record records)
    × (t.invalid ≡ count is_invalid_record records)
    × (t.observed + t.stale + t.invalid ≡ length records)
    × (t.pending ≡ all_retiring late_answers records)
    × Distinct t.endpoints
    × ((key : Text)
        → contains t.endpoints key ≡ contains (map (dns_endpoint_key late_answers) records) key)
    × Distinct t.sources
    × ((key : Text)
        → contains t.sources key ≡ contains (map (source_key_of late_answers) records) key)
tally_records_lem_example =
    tally_records_lem late_answers (shop_record state_stale ∷ shop_record state_observed ∷ [])

abbrev address : Text
address = codes "10.0.0.1"

abbrev entry : Endpoint
entry = record {
  dns_name = codes "a.io";
  targets = address ∷ codes "10.0.0.2" ∷ [];
  record_type = record_type_a;
  set_identifier = [];
  record_ttl = pos 60;
  labels = [];
  provider_specific = [];
}

abbrev listed : Listed
listed = record {
  object = record {
    api_version = codes "externaldns.k8s.io/v1alpha1";
    kind = codes "DNSEndpoint";
    namespace = codes "web";
    name = codes "labdns-1";
    resource_version = codes "1";
    labels = [];
    annotations = [];
    owner_references = [];
    endpoints = some entry ∷ [];
    status = 0;
  };
  generation = pos 2;
  observed = pos 2;
}

abbrev pending : List InspectedTarget
pending = record { key = target_key entry address; deadline_at = 60 } ∷ []

abbrev describe : LifecycleError → Text
describe e = codes "invalid lifecycle"

targets-record_for_example :
    let r = record_for describe listed (ok pending) entry in
    (active : List Text) × (r.active_targets ≡ some active)
    × ((t : Text) → contains r.targets t ≡ contains entry.targets t)
    × ((t : Text) → contains active t ≡ is_active pending entry t)
    × ((t : Text)
        → contains (map target_of r.retiring) t
          ≡ contains (map key_of pending) (target_key entry t))
targets-record_for_example = targets-record_for describe listed pending entry

abbrev net : Net
net = record {
  split_host_port = λ s. none;
  join_host_port = λ host port. host ++ b':' ∷ port;
  parses_ip = λ s. true;
  exchange = λ transport name type server.
      ok (record { truncated = false; rcode = 0; answers = a_answer address ∷ [] });
  fqdn = λ name. name ++ b'.' ∷ [];
  rcode_text = λ rcode. [];
}

lookup_dns_lem_example :
    ((lookup_dns net address (codes "a.io") record_type_a (address ∷ [])).state ≡ state_match)
    ↔ FindsMatch net address (address ∷ []) (codes "a.io") record_type_a
lookup_dns_lem_example = lookup_dns_lem net address (address ∷ []) (codes "a.io") record_type_a

abbrev options : FilterOptions
options = record { provider = []; source_kind = codes "httproute"; record_type = codes " a " }

filters_lem_example : (validate options ≡ ok tt) ↔ (
    IsFilter options.source_kind source_kinds (filters options []).source_kind
    × IsFilter options.record_type record_types (filters options []).record_type)
filters_lem_example = filters_lem options []

abbrev discovery : Discovery
discovery version = ok (
    record {
      name = codes "dnsendpoints";
      kind = codes "DNSEndpoint";
      namespaced = true;
      verbs = read_verbs ++ write_verbs;
    }
    ∷ [])

check_prerequisites_lem_example : is_ok (check_prerequisites discovery true) ≡ (
    all (is_served discovery endpoint_version) required_endpoints
    && (not true
        || (all (is_served discovery gateway_version) required_gateways
            && all (is_served discovery grant_version) required_grants)))
check_prerequisites_lem_example = check_prerequisites_lem discovery true
