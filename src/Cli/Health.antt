-- ===== src/Cli/Health.antt =====
-- internal/cli/inspect.go, `status`: the health of the installation and of what it publishes.
pub mod Counts
pub mod Laws
use labdns.Base.{
  ℕ, suc, ◌+◌, Bool, true, false, not, ◌&&◌, ◌||◌, Option, none, some, List, [], ◌∷◌, ◌++◌, Text, ℤ,
  pos, codes, is_empty, contains, length, set_insert, if◌then◌else◌, ◌==◌, list_eq, nat_eq, int_eq,
  int_ltb, ltb,
}
use labdns.Base.Results.{Result, ok, err}
use labdns.Cli.Model.{
  Prerequisite, ControllerStatus, StateSummary, Status, PublishedRecord, state_invalid,
  state_observed,
}
use labdns.Cli.Records.{record_state}

-- The answers that `status` puts together: API discovery, and the three reads.
pub record Answers : Type 0 where
  -- `ServerResourcesForGroupVersion`: the names of the resources.
  pub served : Text → Result Text (List Text)
  pub controllers : Result Text (List ControllerStatus)
  -- How many DNSProviders there are.
  pub providers : Result Text ℕ
  pub records : Result Text (List PublishedRecord)

unfoldable pub resource_available : Answers → Text → Text → Result Text (Unit {0})
resource_available answers version resource = elim (answers.served version) [
  | err e ↦ err e
  | ok resources ↦
      if contains resources resource
      then ok tt
      else err (codes "resource " ++ resource ++ codes " not served in " ++ version)
]

abbrev pub dns_provider_version : Text
dns_provider_version = codes "labdns.shednet.dev/v1alpha1"

abbrev pub dns_endpoint_version : Text
dns_endpoint_version = codes "externaldns.k8s.io/v1alpha1"

abbrev pub gateway_version : Text
gateway_version = codes "gateway.networking.k8s.io/v1"

abbrev pub grant_version : Text
grant_version = codes "gateway.networking.k8s.io/v1beta1"

-- The variables of `status`.
pub record Report : Type 0 where
  pub result : Status
  pub hard_failure : Bool

abbrev pub no_summary : StateSummary
no_summary = record {
  providers = 0;
  publishing_sources = 0;
  dns_endpoints = 0;
  records = 0;
  pending_targets = 0;
  observed = 0;
  stale = 0;
  invalid = 0;
}

abbrev pub healthy : Text
healthy = codes "healthy"

abbrev pub degraded : Text
degraded = codes "degraded"

abbrev pub unhealthy : Text
unhealthy = codes "unhealthy"

abbrev pub start : Report
start = record {
  result = record {
    overall = healthy;
    prerequisites = [];
    controllers = [];
    summary = no_summary;
    warnings = [];
  };
  hard_failure = false;
}

abbrev pub warn : Text → Report → Report
warn warning r = record r {
  result = record r.result { warnings = r.result.warnings ++ warning ∷ [] };
}

abbrev pub fails : Text → Report → Report
fails warning r = record (warn warning r) { hard_failure = true }

abbrev pub prerequisite : Text → Result Text (Unit {0}) → Prerequisite
prerequisite name (ok _) = record { name = name; available = true; error = [] }
prerequisite name (err e) = record { name = name; available = false; error = e }

abbrev pub failed_check : Result Text (Unit {0}) → Bool
failed_check (ok _) = false
failed_check (err e) = true

module _ (answers : Answers) where
  -- The body of the first loop.
  unfoldable pub check_requirement : Text → Text → Text → Report → Report
  unfolding resource_available
  check_requirement name version resource r =
      let answer = resource_available answers version resource in
      record {
        result = record r.result {
          prerequisites = r.result.prerequisites ++ prerequisite name answer ∷ [];
        };
        hard_failure = r.hard_failure || failed_check answer;
      }

  unfoldable pub check_requirements : Report → Report
  unfolding check_requirement
  check_requirements r =
      check_requirement (codes "DNSEndpoint API") dns_endpoint_version (codes "dnsendpoints")
        (check_requirement (codes "DNSProvider API") dns_provider_version (codes "dnsproviders") r)

  abbrev pub gateway_resources : List (Text × Text)
  gateway_resources =
      (gateway_version, codes "httproutes")
      ∷ (gateway_version, codes "tcproutes")
      ∷ (gateway_version, codes "udproutes")
      ∷ (gateway_version, codes "gateways")
      ∷ (gateway_version, codes "gatewayclasses")
      ∷ (grant_version, codes "referencegrants")
      ∷ []

  unfoldable pub check_gateway : List (Text × Text) → Report → Report
  unfolding resource_available
  check_gateway [] r = r
  check_gateway ((version, resource) ∷ requirements) r = check_gateway requirements (
      if failed_check (resource_available answers version resource)
      then fails (codes "Gateway API is enabled but " ++ resource ++ codes " is unavailable") r
      else r)

  -- Fewer replicas than wanted are available, or none are wanted.
  abbrev pub is_short : ControllerStatus → Bool
  is_short c = int_ltb c.available c.desired || (c.desired == pos 0)

  unfoldable pub check_controller : ControllerStatus → Report → Report
  unfolding check_gateway
  check_controller c r =
      let counted : Report = record r { hard_failure = r.hard_failure || is_short c } in
      if c.gateway_api then check_gateway gateway_resources counted else counted

  unfoldable pub check_each : List ControllerStatus → Report → Report
  unfolding check_controller
  check_each [] r = r
  check_each (c ∷ controllers) r = check_each controllers (check_controller c r)

  unfoldable pub check_controllers : Report → Report
  unfolding check_each
  check_controllers r = elim answers.controllers [
    | err e ↦ fails e r
    | ok [] ↦ fails (codes "no labdns controller Deployment found") r
    | ok (c ∷ controllers) ↦
        check_each (c ∷ controllers)
          (record r { result = record r.result { controllers = c ∷ controllers } })
  ]

  unfoldable pub count_providers : Report → Report
  count_providers r = elim answers.providers [
    | err e ↦ fails (codes "list DNSProviders: " ++ e) r
    | ok n ↦ record r {
      result = record r.result { summary = record r.result.summary { providers = n } };
    }
  ]

  abbrev pub dns_endpoint_key : PublishedRecord → Text
  dns_endpoint_key r = r.dns_endpoint.namespace ++ b'/' ∷ r.dns_endpoint.name

  abbrev pub source_key_of : PublishedRecord → Text
  source_key_of r = r.source.kind ++ b'/' ∷ (r.source.namespace ++ b'/' ∷ r.source.name)

  -- The counters of the loop over the records, with the two sets.
  pub record Tally : Type 0 where
    pub endpoints : List Text
    pub sources : List Text
    pub seen : ℕ
    pub pending : ℕ
    pub observed : ℕ
    pub stale : ℕ
    pub invalid : ℕ

  abbrev pub no_tally : Tally
  no_tally = record {
    endpoints = [];
    sources = [];
    seen = 0;
    pending = 0;
    observed = 0;
    stale = 0;
    invalid = 0;
  }

  unfoldable pub tally_record : PublishedRecord → Tally → Tally
  unfolding record_state
  tally_record r t =
      let counted : Tally = record t {
        endpoints = set_insert (dns_endpoint_key r) t.endpoints;
        sources = set_insert (source_key_of r) t.sources;
        seen = suc t.seen;
        pending = t.pending + length r.retiring;
      } in
      if record_state r == state_invalid
      then record counted { invalid = suc t.invalid }
      else if record_state r == state_observed
      then record counted { observed = suc t.observed }
      else record counted { stale = suc t.stale }

  unfoldable pub tally_records : List PublishedRecord → Tally → Tally
  unfolding tally_record
  tally_records [] t = t
  tally_records (r ∷ records) t = tally_records records (tally_record r t)

  abbrev pub summary_of : Tally → StateSummary → StateSummary
  summary_of t summary = record summary {
    publishing_sources = length t.sources;
    dns_endpoints = length t.endpoints;
    records = t.seen;
    pending_targets = t.pending;
    observed = t.observed;
    stale = t.stale;
    invalid = t.invalid;
  }

  abbrev pub is_stale : Tally → Bool
  is_stale t = ltb 0 t.stale || ltb 0 t.invalid

  unfoldable pub count_records : Report → Report
  unfolding tally_records
  count_records r = elim answers.records [
    | err e ↦ fails e r
    | ok records ↦
        let t = tally_records records no_tally in
        let counted : Status = record r.result { summary = summary_of t r.result.summary } in
        if is_stale t
        then warn (codes "managed records include stale or invalid state")
            (record r { result = record counted { overall = degraded } })
        else record r { result = counted }
  ]

  abbrev pub conclude : Report → Status × Bool
  conclude r =
      if r.hard_failure then (record r.result { overall = unhealthy }, true) else (r.result, false)

  unfoldable pub status : Status × Bool
  unfolding check_requirements check_controllers count_providers count_records
  status = conclude (count_records (count_providers (check_controllers (check_requirements start))))
