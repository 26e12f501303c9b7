-- ===== src/Cli/Commands.antt =====
-- internal/cli/command.go: the options and the three commands. Connecting to the cluster, the JSON
-- encoder and the terminal are parameters; cobra, which parses the flags, is not modelled.
pub mod Laws
use labdns.Base.{
  ℕ, Bool, true, false, not, ◌&&◌, ◌||◌, Option, none, some, List, [], ◌∷◌, ◌++◌, Text, codes,
  is_empty, to_lower, trim_space, if◌then◌else◌, ◌==◌, list_eq, nat_eq, any, get_or, is_some,
}
use labdns.Base.Results.{Result, ok, err, ◌>>=◌, ◌>>◌}
use labdns.Platform.{Platform}
use labdns.Source.Types.{
  ingress_kind, http_route_kind, tcp_route_kind, udp_route_kind, record_type_a, record_type_aaaa,
}
use labdns.Source.Names.{normalize_hostname}
use labdns.Dnsendpoint.Lifecycle.{LifecycleError}
use labdns.Cli.Model.{PublishedRecord, RecordDetail, RecordDetails, Status}
use labdns.Cli.Records.{Filters, Inspector, equal_fold, records, details}
use labdns.Cli.Controllers.{Deployments, controllers}
use labdns.Cli.Health.{Answers, status}
use labdns.Cli.Table.{Writer, WriteError}
use labdns.Cli.Report.{write_records, write_details, write_status}

pub data ColorMode : Type 0 where
  color_auto color_always color_never : ColorMode

-- `colorMode.Set`
unfoldable pub set_color : Text → Result Text ColorMode
set_color value =
    if value == codes "auto"
    then ok color_auto
    else if value == codes "always"
    then ok color_always
    else if value == codes "never"
    then ok color_never
    else err (codes "invalid color mode " ++ value ++ codes ": use auto, always, or never")

pub record FilterOptions : Type 0 where
  pub provider : Text
  pub source_kind : Text
  pub record_type : Text

pub record DisplayOptions : Type 0 where
  pub output : Text
  pub color : ColorMode
  -- The environment and the terminal, where they are given.
  pub getenv : Option (Text → Option Text)
  pub is_terminal : Option Bool

unfoldable pub allowed_value : Text → Text → List Text → List Text → Result Text Text
unfolding equal_fold
allowed_value value label shown [] =
    if is_empty label then ok value else err (codes "invalid " ++ label ++ codes " " ++ value)
allowed_value value label shown (candidate ∷ allowed) =
    let rest = allowed_value value label shown allowed in
    if equal_fold value candidate then ok candidate else rest

unfoldable pub canonical_filter_value : Text → Text → List Text → Result Text Text
unfolding allowed_value trim_space
canonical_filter_value raw label allowed =
    let value = trim_space raw in
    if is_empty value then ok [] else allowed_value value label allowed allowed

abbrev pub source_kinds : List Text
source_kinds = ingress_kind ∷ http_route_kind ∷ tcp_route_kind ∷ udp_route_kind ∷ []

abbrev pub record_types : List Text
record_types = record_type_a ∷ record_type_aaaa ∷ []

abbrev pub or_nothing : Result Text Text → Text
or_nothing (ok value) = value
or_nothing (err e) = []

unfoldable pub filters : FilterOptions → Text → Filters
unfolding canonical_filter_value
filters o namespace = record {
  namespace = namespace;
  provider = o.provider;
  source_kind = or_nothing (canonical_filter_value o.source_kind [] source_kinds);
  record_type = or_nothing (canonical_filter_value o.record_type [] record_types);
}

unfoldable pub validate : FilterOptions → Result Text (Unit {0})
unfolding canonical_filter_value
validate o = do
  kind ← canonical_filter_value o.source_kind (codes "source kind") source_kinds
  type ← canonical_filter_value o.record_type (codes "record type") record_types
  ok tt

-- `NO_COLOR` is set to something, or `TERM` is "dumb".
abbrev pub env_forbids : Option (Text → Option Text) → Bool
env_forbids none = false
env_forbids (some env) =
    not (is_empty (get_or (env (codes "NO_COLOR")) []))
    || (is_some (env (codes "TERM")) && equal_fold (get_or (env (codes "TERM")) []) (codes "dumb"))

-- Whether the output is coloured.
unfoldable pub colorizer : DisplayOptions → Text → Bool
unfolding equal_fold
colorizer o output = if equal_fold output (codes "json") then false else elim o.color [
  | color_never ↦ false
  | color_always ↦ true
  | color_auto ↦ if env_forbids o.getenv then false else get_or o.is_terminal false
]

pub data CommandError : Type 0 where
  bad_option failed_read : Text → CommandError
  failed_write : WriteError → CommandError
  bad_format : Text → CommandError
  lookups_failed is_unhealthy : CommandError

abbrev pub or_write :
    {S : Type 0} → Result WriteError (Unit {0}) × S → Result CommandError (Unit {0}) × S
or_write (ok _, s) = (ok tt, s)
or_write (err e, s) = (err (failed_write e), s)

abbrev pub then_check :
    {S : Type 0}
    → Result CommandError (Unit {0}) × S
    → Bool
    → CommandError
    → Result CommandError (Unit {0}) × S
then_check (err e, s) failed error = (err e, s)
then_check (ok _, s) failed error = if failed then (err error, s) else (ok tt, s)

-- What `status` reads besides the records: API discovery, the Deployments, and the DNSProviders.
pub record StatusReads : Type 0 where
  pub served : Text → Result Text (List Text)
  pub deployments : Deployments
  pub list_providers : Result Text ℕ

abbrev pub no_filters : Filters
no_filters = record { namespace = []; provider = []; source_kind = []; record_type = [] }

-- What `inspector.status` finds, for the namespace and the name of the controller.
unfoldable pub answers_of :
    Platform → (LifecycleError → Text) → StatusReads → Inspector → Text → Text → Answers
unfolding controllers records
answers_of p describe reads inspector namespace name = record {
  served = reads.served;
  controllers = controllers reads.deployments namespace name;
  providers = reads.list_providers;
  records = records p describe inspector no_filters;
}

-- What all commands have: the connection, the writer, and the encoders.
pub record Session (S : Type 0) : Type 0 where
  pub prepare : Result Text (Inspector × StatusReads)
  pub writer : Writer S
  pub records_json : List PublishedRecord → S → Result WriteError (Unit {0}) × S
  pub details_json : RecordDetails → S → Result WriteError (Unit {0}) × S
  pub status_json : Status → S → Result WriteError (Unit {0}) × S
  pub format_deadline : ℕ → Text

module _ {S : Type 0} where
  unfoldable pub write_output :
      Text
      → (S → Result WriteError (Unit {0}) × S)
      → (S → Result WriteError (Unit {0}) × S)
      → S
      → Result CommandError (Unit {0}) × S
  unfolding to_lower
  write_output format json table s =
      if to_lower format == codes "table"
      then or_write (table s)
      else if to_lower format == codes "json"
      then or_write (json s)
      else (err (bad_format format), s)

  module _ (p : Platform) (describe : LifecycleError → Text) (session : Session S)
      (o : FilterOptions) (display : DisplayOptions) (namespace : Text) where
    -- `labdns list`: the check of the arguments, and the run.
    unfoldable pub run_list : S → Result CommandError (Unit {0}) × S
    unfolding validate records filters write_output write_records colorizer
    run_list s = elim (validate o) [
      | err e ↦ (err (bad_option e), s)
      | ok _ ↦ elim session.prepare [
        | err e ↦ (err (failed_read e), s)
        | ok (inspector, reads) ↦ elim (records p describe inspector (filters o namespace)) [
          | err e ↦ (err (failed_read e), s)
          | ok found ↦
              write_output display.output (session.records_json found)
                (write_records session.writer (colorizer display display.output) found) s
        ]
      ]
    ]

    abbrev pub lookup_failed : RecordDetail → Bool
    lookup_failed item = elim item.dns [ none ↦ false | some l ↦ not (is_empty l.error) ]

    -- `labdns show`, with a name and maybe a DNS server.
    unfoldable pub run_show : Text → Text → S → Result CommandError (Unit {0}) × S
    unfolding validate details filters write_output write_details colorizer normalize_hostname
    run_show raw dns_server s = elim (validate o) [
      | err e ↦ (err (bad_option e), s)
      | ok _ ↦ elim (normalize_hostname p raw) [
        | err e ↦ (err (bad_option (codes "invalid DNS name")), s)
        | ok name ↦ elim session.prepare [
          | err e ↦ (err (failed_read e), s)
          | ok (inspector, reads) ↦
              elim (details p describe inspector name (filters o namespace) dns_server) [
                | err e ↦ (err (failed_read e), s)
                | ok found ↦
                    then_check
                      (write_output display.output (session.details_json found)
                        (write_details session.writer session.format_deadline
                          (colorizer display display.output) found.items)
                        s)
                      (any lookup_failed found.items) lookups_failed
              ]
        ]
      ]
    ]

    -- `labdns status`, for the namespace and the name of the controller.
    unfoldable pub run_status : Text → Text → S → Result CommandError (Unit {0}) × S
    unfolding status answers_of write_output write_status colorizer
    run_status controller_namespace controller_name s = elim session.prepare [
      | err e ↦ (err (failed_read e), s)
      | ok (inspector, reads) ↦
          let selected =
            if is_empty controller_namespace then namespace else controller_namespace in
          let (result, failed) =
            status (answers_of p describe reads inspector selected controller_name) in
          then_check
            (write_output display.output (session.status_json result)
              (write_status session.writer (colorizer display display.output) result) s)
            failed is_unhealthy
    ]
