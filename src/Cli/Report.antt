-- ===== src/Cli/Report.antt =====
-- internal/cli/output.go: the tables of records, details and status. Numbers are printed in decimal;
-- the format of a deadline is a parameter.
pub mod Cells
use labdns.Base.{
  ℕ, zero, suc, ◌+◌, ◌/◌, ◌%◌, Bool, true, false, not, ◌&&◌, Option, none, some, List, [], ◌∷◌,
  ◌++◌, Text, Map, ℤ, pos, negsuc, codes, is_empty, length, join, map, contains, to_lower,
  sort_texts, int_ltb, nat_beq, if◌then◌else◌, ◌==◌, list_eq, nat_eq, get_or, ltb,
}
use labdns.Base.Results.{Result, ok}
use labdns.Cli.Model.{
  PublishedRecord, RecordDetail, DnsLookup, RetiringTarget, Prerequisite, ControllerStatus, Status,
  state_current, state_missing, state_observed, state_stale, state_invalid, state_unsupported,
  state_nxdomain, state_match, state_mismatch,
}
use labdns.Cli.Dns.{to_upper}
use labdns.Cli.Table.{
  AnsiColor, uncoloured, green, yellow, red, Cell, Row, plain_cell, color_cell, Writer, WriteError,
  write, write_table, and_then, newline,
}
use labdns.Cli.Report.Cells.{
  bool_text, color_for_dns_state, color_for_state, controller_availability_color, decimal,
  decimal_int, format_properties, found_state, non_zero_cell, present_state, ready_pods_color,
  state_cell,
}

abbrev pub source_text : PublishedRecord → Text
source_text r = r.source.kind ++ codes "/" ++ r.source.namespace ++ codes "/" ++ r.source.name

abbrev pub retiring_count : List RetiringTarget → Cell
retiring_count [] = plain_cell (decimal 0)
retiring_count (t ∷ retiring) = color_cell (decimal (length (t ∷ retiring))) yellow

unfoldable pub record_row : PublishedRecord → Row
unfolding plain_cell color_cell state_cell decimal decimal_int join
record_row r =
    plain_cell r.dns_endpoint.namespace
    ∷ plain_cell r.dns_name
    ∷ plain_cell r.record_type
    ∷ plain_cell (join r.targets (codes ","))
    ∷ plain_cell (decimal_int r.ttl)
    ∷ plain_cell r.provider
    ∷ plain_cell (source_text r)
    ∷ state_cell r.external_dns_state
    ∷ retiring_count r.retiring
    ∷ []

abbrev pub titles : List Text → Row
titles names = map plain_cell names

abbrev pub record_titles : Row
record_titles = titles (
    codes "NAMESPACE"
    ∷ codes "DNS NAME"
    ∷ codes "TYPE"
    ∷ codes "TARGETS"
    ∷ codes "TTL"
    ∷ codes "PROVIDER"
    ∷ codes "SOURCE"
    ∷ codes "EXTERNALDNS"
    ∷ codes "RETIRING"
    ∷ [])

unfoldable pub record_rows : List PublishedRecord → List (Option Row)
unfolding record_row plain_cell
record_rows records = some record_titles ∷ map (λ r. some (record_row r)) records

unfoldable pub external_dns_cell : PublishedRecord → Cell
unfolding color_for_state decimal_int
external_dns_cell r =
    record { text = r.external_dns_state; color = color_for_state r.external_dns_state }
    ∷ record {
      text =
          codes " (generation "
          ++ decimal_int r.generation
          ++ codes ", observed "
          ++ decimal_int r.observed
          ++ codes ")";
      color = uncoloured;
    }
    ∷ []

unfoldable pub dns_lookup_cell : DnsLookup → Cell
unfolding color_for_dns_state join
dns_lookup_cell l =
    record { text = join l.answers (codes ", ") ++ codes " via "; color = uncoloured }
    ∷ record { text = l.server; color = uncoloured }
    ∷ record { text = codes " ("; color = uncoloured }
    ∷ record { text = l.state; color = color_for_dns_state l.state }
    ∷ record { text = codes ")"; color = uncoloured }
    ∷ []

abbrev pub labelled : Text → Cell → Option Row
labelled title cell = some (plain_cell title ∷ cell ∷ [])

abbrev pub red_if_some : Text → Text → List (Option Row)
red_if_some title error = if is_empty error then [] else labelled title (color_cell error red) ∷ []

abbrev pub dns_rows : Option DnsLookup → List (Option Row)
dns_rows none = []
dns_rows (some l) =
    labelled (codes "DNS lookup:") (dns_lookup_cell l) ∷ red_if_some (codes "DNS error:") l.error

-- `activeTargets` of `detailRows`.
abbrev pub active_text : PublishedRecord → Text
active_text r =
    if is_empty r.lifecycle_error
    then join (get_or r.active_targets []) (codes ", ")
    else codes "unknown"

module _ (format_deadline : ℕ → Text) where
  abbrev retiring_row : RetiringTarget → Option Row
  retiring_row t =
      labelled (codes "Retiring target:")
        (plain_cell (t.target ++ codes " at " ++ format_deadline t.deadline))

  unfoldable pub detail_rows : RecordDetail → List (Option Row)
  unfolding plain_cell color_cell state_cell found_state present_state external_dns_cell
      dns_lookup_cell format_properties decimal_int join
  detail_rows detail =
      let r = detail.shown in
      labelled (codes "DNS name:") (plain_cell r.dns_name)
      ∷ labelled (codes "Type:") (plain_cell r.record_type)
      ∷ labelled (codes "Provider:") (plain_cell r.provider)
      ∷ labelled (codes "Source:") (plain_cell (source_text r))
      ∷ labelled (codes "Source state:")
          (state_cell (found_state detail.source.found detail.source.uid_matches))
      ∷ labelled (codes "DNSEndpoint:")
          (plain_cell (r.dns_endpoint.namespace ++ codes "/" ++ r.dns_endpoint.name))
      ∷ labelled (codes "Targets:") (plain_cell (join r.targets (codes ", ")))
      ∷ labelled (codes "Active targets:") (plain_cell (active_text r))
      ∷ labelled (codes "TTL:") (plain_cell (decimal_int r.ttl))
      ∷ labelled (codes "ExternalDNS:") (external_dns_cell r)
      ∷ labelled (codes "Provider state:") (state_cell (present_state detail.provider.found))
      ∷ labelled (codes "Provider zones:") (plain_cell (join detail.provider.zones (codes ", ")))
      ∷ labelled (codes "Provider IPv4 label:") (plain_cell detail.provider.ipv4_label)
      ∷ labelled (codes "Provider IPv6 label:") (plain_cell detail.provider.ipv6_label)
      ∷ labelled (codes "Provider properties:") (plain_cell (format_properties r.properties))
      ∷ (map retiring_row r.retiring
          ++ red_if_some (codes "Lifecycle error:") r.lifecycle_error
          ++ dns_rows detail.dns)

abbrev pub prerequisite_row : Prerequisite → Option Row
prerequisite_row item = some (
    plain_cell item.name
    ∷ color_cell (bool_text item.available) (if item.available then green else red)
    ∷ (if is_empty item.error then plain_cell item.error else color_cell item.error red)
    ∷ [])

abbrev pub controller_row : ControllerStatus → Option Row
controller_row item = some (
    plain_cell (item.namespace ++ codes "/" ++ item.name)
    ∷ color_cell (decimal_int item.available ++ codes "/" ++ decimal_int item.desired)
        (controller_availability_color item.available item.desired)
    ∷ color_cell (decimal item.ready_pods) (ready_pods_color item.ready_pods item.desired)
    ∷ plain_cell (bool_text item.gateway_api)
    ∷ [])

abbrev pub summary_titles : Row
summary_titles = titles (
    codes "PROVIDERS"
    ∷ codes "SOURCES"
    ∷ codes "DNSENDPOINTS"
    ∷ codes "RECORDS"
    ∷ codes "PENDING"
    ∷ codes "OBSERVED"
    ∷ codes "STALE"
    ∷ codes "INVALID"
    ∷ [])

abbrev pub summary_row : Status → Row
summary_row status =
    plain_cell (decimal status.summary.providers)
    ∷ plain_cell (decimal status.summary.publishing_sources)
    ∷ plain_cell (decimal status.summary.dns_endpoints)
    ∷ plain_cell (decimal status.summary.records)
    ∷ non_zero_cell status.summary.pending_targets yellow
    ∷ non_zero_cell status.summary.observed green
    ∷ non_zero_cell status.summary.stale yellow
    ∷ non_zero_cell status.summary.invalid red
    ∷ []

abbrev pub warning_row : Text → Option Row
warning_row warning = labelled (codes "WARNING") (color_cell warning yellow)

unfoldable pub status_rows : Status → List (Option Row)
unfolding plain_cell color_cell state_cell to_upper controller_availability_color ready_pods_color
    decimal decimal_int non_zero_cell
status_rows status =
    labelled (codes "OVERALL") (state_cell (to_upper status.overall))
    ∷ none
    ∷ some (titles (codes "PREREQUISITE" ∷ codes "AVAILABLE" ∷ codes "ERROR" ∷ []))
    ∷ (map prerequisite_row status.prerequisites
        ++ none
          ∷ some (
              titles (
                codes "CONTROLLER"
                ∷ codes "AVAILABLE"
                ∷ codes "READY PODS"
                ∷ codes "GATEWAY API"
                ∷ []))
          ∷ (map controller_row status.controllers
              ++ none
                ∷ some summary_titles
                ∷ some (summary_row status)
                ∷ map warning_row status.warnings))

module _ {S : Type 0} (w : Writer S) where
  unfoldable pub write_records : Bool → List PublishedRecord → S → Result WriteError (Unit {0}) × S
  unfolding write_table record_rows
  write_records enabled records s = write_table w enabled (record_rows records) s

  unfoldable pub write_status : Bool → Status → S → Result WriteError (Unit {0}) × S
  unfolding write_table status_rows
  write_status enabled status s = write_table w enabled (status_rows status) s

  module _ (format_deadline : ℕ → Text) where
    -- The details behind the first ones have a blank line before them.
    unfoldable pub write_more : Bool → List RecordDetail → S → Result WriteError (Unit {0}) × S
    unfolding write write_table detail_rows
    write_more enabled [] s = (ok tt, s)
    write_more enabled (detail ∷ details) s = and_then (write w newline s) (λ s1.
        and_then (write_table w enabled (detail_rows format_deadline detail) s1)
          (λ s2. write_more enabled details s2))

    unfoldable pub write_details : Bool → List RecordDetail → S → Result WriteError (Unit {0}) × S
    unfolding write_more write_table detail_rows
    write_details enabled [] s = (ok tt, s)
    write_details enabled (detail ∷ details) s =
        and_then (write_table w enabled (detail_rows format_deadline detail) s)
          (λ s1. write_more enabled details s1)
