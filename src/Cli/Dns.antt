-- ===== src/Cli/Dns.antt =====
-- internal/cli/dns.go: the live lookup of a record. The DNS client and net's functions on addresses are
-- parameters.
pub mod Laws
use labdns.Base.{
  ℕ, Bool, true, false, not, ◌&&◌, ◌||◌, Option, none, some, List, [], ◌∷◌, ◌++◌, Text, codes,
  is_empty, sort_texts, contains_byte, has_prefix, has_suffix, trim_space, trim_prefix, trim_suffix,
  map, lower_byte, leb, if◌then◌else◌, ◌==◌, list_eq, nat_eq, nat_beq, ◌-◌, is_some, get_or,
}
use labdns.Base.Results.{Result, ok, err}
use labdns.Source.Types.{record_type_a, record_type_aaaa}
use labdns.Dnsendpoint.Endpoints.{compact}
use labdns.Cli.Model.{DnsLookup, state_unsupported, state_nxdomain, state_match, state_mismatch}

-- One record of an answer; the address as it is printed.
pub data Answer : Type 0 where
  a_answer aaaa_answer : Text → Answer
  other_answer : Answer

pub record Response : Type 0 where
  pub truncated : Bool
  pub rcode : ℕ
  pub answers : List Answer

pub data QueryType : Type 0 where
  type_a type_aaaa : QueryType

pub record Net : Type 0 where
  -- `net.SplitHostPort`, `net.JoinHostPort`, and whether `net.ParseIP` reads an address.
  pub split_host_port : Text → Option (Text × Text)
  pub join_host_port : Text → Text → Text
  pub parses_ip : Text → Bool
  -- The exchange of a question for a name, over "udp" or "tcp", with a server.
  pub exchange : Text → Text → QueryType → Text → Result Text Response
  -- `dns.Fqdn`
  pub fqdn : Text → Text
  -- `dns.RcodeToString`
  pub rcode_text : ℕ → Text

abbrev pub upper_byte : ℕ → ℕ
upper_byte c = if leb b'a' c && leb c b'z' then c - 32 else c

-- `strings.ToUpper`
unfoldable pub to_upper : Text → Text
to_upper s = map upper_byte s

abbrev pub dns_state_error : Text
dns_state_error = codes "error"

abbrev pub bad_server : Text → Text
bad_server value = codes "invalid DNS server " ++ value

abbrev brackets_off : Text → Text
brackets_off value =
    if has_prefix value (codes "[") && has_suffix value (codes "]")
    then trim_suffix (trim_prefix value (codes "[")) b']'
    else value

abbrev pub default_port : Text
default_port = codes "53"

module _ (net : Net) where
  unfoldable pub dns_server_address : Text → Result Text Text
  unfolding trim_space has_prefix has_suffix trim_prefix trim_suffix contains_byte
  dns_server_address raw =
      let value = trim_space raw in
      if is_empty value
      then err (codes "DNS server must not be empty")
      else elim (net.split_host_port value) [
        | some (host, port) ↦
            if is_empty host || is_empty port
            then err (bad_server value)
            else ok (net.join_host_port host port)
        | none ↦
            if net.parses_ip (brackets_off value) || not (contains_byte (brackets_off value) b':')
            then ok (net.join_host_port (brackets_off value) default_port)
            else err (bad_server (brackets_off value))
      ]

  unfoldable pub query_type : Text → Option QueryType
  unfolding to_upper
  query_type record_type =
      if to_upper record_type == record_type_a
      then some type_a
      else if to_upper record_type == record_type_aaaa
      then some type_aaaa
      else none

  -- The addresses of the wanted type.
  unfoldable pub addresses : QueryType → List Answer → List Text
  addresses wanted [] = []
  addresses type_a (a_answer address ∷ answers) = address ∷ addresses type_a answers
  addresses type_aaaa (aaaa_answer address ∷ answers) = address ∷ addresses type_aaaa answers
  addresses wanted (_ ∷ answers) = addresses wanted answers

  abbrev pub failed_lookup : Text → Text → Text → DnsLookup
  failed_lookup server state error = record {
    server = server;
    answers = [];
    state = state;
    error = error;
  }

  -- The answer over UDP, or where it was cut off, the one over TCP.
  unfoldable pub ask : Text → QueryType → Text → Result Text Response
  ask name type address = elim (net.exchange (codes "udp") name type address) [
    | err e ↦ err e
    | ok response ↦
        if response.truncated then net.exchange (codes "tcp") name type address else ok response
  ]

  -- From the response on.
  unfoldable pub judge : Text → QueryType → List Text → Response → DnsLookup
  unfolding addresses compact
  judge server type expected response =
      let found = compact (sort_texts (addresses type response.answers)) in
      if nat_beq response.rcode 3
      then failed_lookup server state_nxdomain []
      else if not (nat_beq response.rcode 0)
      then failed_lookup server dns_state_error (net.rcode_text response.rcode)
      else record {
        server = server;
        answers = found;
        state = if found == compact (sort_texts expected) then state_match else state_mismatch;
        error = [];
      }

  unfoldable pub lookup_dns : Text → Text → Text → List Text → DnsLookup
  unfolding dns_server_address query_type ask judge
  lookup_dns server name record_type expected = elim (dns_server_address server) [
    | err e ↦ failed_lookup server dns_state_error e
    | ok address ↦ elim (query_type record_type) [
      | none ↦
          failed_lookup server state_unsupported
            (codes "live lookup does not support record type " ++ record_type)
      | some type ↦ elim (ask (net.fqdn name) type address) [
        | err e ↦ failed_lookup server dns_state_error e
        | ok response ↦ judge server type expected response
      ]
    ]
  ]
