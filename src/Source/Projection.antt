-- ===== src/Source/Projection.antt =====
-- internal/source/projection.go: the host names of an Ingress and the backends behind each.
use labdns.Base.{
  ◌≡◌, ◌↔◌, Bool, true, false, ◌&&◌, ◌||◌, not, Option, none, some, List, [], ◌∷◌, ◌++◌, Text, Map,
  codes, lookup, insert, is_some, is_empty, set_insert, sort_by, text_ord, if◌then◌else◌, ◌==◌,
  list_eq, nat_eq, pair_eq, Eq, list_beq_iff, arith, get_or,
}
use labdns.Base.Results.{Result, ok, err}
use labdns.Platform.{Platform}
use labdns.Source.Types.{Backend, backend_key, HostProjection}
use labdns.Source.Errors.{SourceError}
use labdns.Source.Names.{normalize_hostname}
use labdns.Source.Diagnostics.{Diagnostic, normal, warning, emit, emit_if}

abbrev pub backend_beq : Backend → Backend → Bool
backend_beq a b = (a.namespace == b.namespace) && (a.name == b.name)

pub backend_beq_iff : (a b : Backend) → (backend_beq a b ≡ true) ↔ (a ≡ b)
backend_beq_iff a b =
    ground (arith, list_beq_iff a.namespace b.namespace, list_beq_iff a.name b.name)

instance abbrev pub backend_eq : Eq Backend
backend_eq = record { beq = backend_beq; beq_iff = backend_beq_iff }

-- `networkingv1.IngressBackend`: a Service by name, or a resource by group, kind and name.
pub record IngressBackend : Type 0 where
  pub service : Option Text
  pub resource : Option (Option Text × (Text × Text))

-- The backends of the paths, where the rule has an HTTP part.
pub record IngressRule : Type 0 where
  pub host : Text
  pub http : Option (List IngressBackend)

pub record Ingress : Type 0 where
  pub namespace : Text
  pub name : Text
  pub uid : Text
  pub annotations : Map Text Text
  pub class_name : Option Text
  pub default_backend : Option IngressBackend
  pub rules : List IngressRule
  pub tls : List (List Text)

unfoldable pub ingress_backend : Text → Option IngressBackend → Option Backend
ingress_backend namespace none = none
ingress_backend namespace (some backend) = elim backend.service [
  | none ↦ none
  | some name ↦ if is_empty name then none else some (record { namespace = namespace; name = name })
]

unfoldable pub diagnose_unsupported :
    Ingress → List Text → IngressBackend → List Diagnostic → List Diagnostic
diagnose_unsupported ingress location backend reported = elim backend.resource [
  | none ↦ reported
  | some (group, (kind, name)) ↦
      emit
        (warning (codes "UnsupportedBackend")
          (ingress.namespace ∷ ingress.name ∷ (location ++ get_or group [] ∷ kind ∷ name ∷ [])))
        reported
]

-- The variables of `IngressProjection`.
pub record Scan : Type 0 where
  pub all : List Backend
  pub rules : Map Text (List Backend)
  pub has_reference : Bool
  pub has_hostname : Bool
  pub reported : List Diagnostic

abbrev pub has_target : IngressBackend → Bool
has_target backend = is_some backend.service || is_some backend.resource

-- The default backend counts for every host name, and may be reported.
unfoldable pub scan_default : Ingress → Bool → Scan
unfolding ingress_backend diagnose_unsupported
scan_default ingress overridden =
    let start : Scan = record {
      all = [];
      rules = [];
      has_reference = false;
      has_hostname = overridden;
      reported = [];
    } in
    elim ingress.default_backend [
      | none ↦ start
      | some backend ↦ elim (ingress_backend ingress.namespace (some backend)) [
        | some b ↦ record start { has_reference = has_target backend; all = b ∷ [] }
        | none ↦ record start {
          has_reference = has_target backend;
          reported = diagnose_unsupported ingress (codes "default backend" ∷ []) backend [];
        }
      ]
    ]

-- The first loop over the paths of a rule.
unfoldable pub scan_paths : Ingress → List Text → Scan → List IngressBackend → Scan
unfolding diagnose_unsupported
scan_paths ingress location s [] = s
scan_paths ingress location s (backend ∷ backends) =
    scan_paths ingress location
      (record s {
        has_reference = s.has_reference || has_target backend;
        reported = diagnose_unsupported ingress location backend s.reported;
      })
      backends

abbrev pub any_service : List IngressBackend → Bool
any_service [] = false
any_service (backend ∷ backends) = is_some backend.service || any_service backends

-- The second one, over the paths of a rule with a host name.
unfoldable pub add_backends : Text → Text → Scan → List IngressBackend → Scan
unfolding ingress_backend
add_backends namespace host s [] = s
add_backends namespace host s (backend ∷ backends) =
    add_backends namespace host
      (elim (ingress_backend namespace (some backend)) [
        | none ↦ s
        | some b ↦ record s {
          all = set_insert b s.all;
          rules = insert host (set_insert b (get_or (lookup host s.rules) [])) s.rules;
        }
      ])
      backends

-- `rules[host] = map[Backend]struct{}{}` where it is missing.
abbrev pub open_rule : Text → Map Text (List Backend) → Map Text (List Backend)
open_rule host rules = if is_some (lookup host rules) then rules else insert host [] rules

abbrev pub paths_of : IngressRule → List IngressBackend
paths_of rule = get_or rule.http []

unfoldable pub scan_rule :
    Platform
    → Ingress
    → Bool
    → Text
    → Scan
    → IngressRule
    → Result SourceError Scan × List Diagnostic
unfolding scan_paths add_backends
scan_rule p ingress overridden index s rule =
    let s1 = scan_paths ingress (codes "rule" ∷ index ∷ rule.host ∷ []) s (paths_of rule) in
    let nameless =
      emit_if (is_empty rule.host && any_service (paths_of rule) && overridden)
        (normal (codes "IngressRuleWithoutHostname")
          (ingress.namespace ∷ ingress.name ∷ index ∷ []))
        s1.reported in
    if is_empty rule.host || not (is_some rule.http)
    then (ok (record s1 { reported = nameless }), nameless)
    else elim (normalize_hostname p rule.host) [
      | err e ↦ (err e, s1.reported)
      | ok host ↦
          let s2 : Scan = record s1 { rules = open_rule host s1.rules; has_hostname = true } in
          (ok (add_backends ingress.namespace host s2 (paths_of rule)), s1.reported)
    ]

-- `%d` of the index of a rule; it only tells the diagnostics of different rules apart.
abbrev pub next_index : Text → Text
next_index index = b'i' ∷ index

unfoldable pub scan_rules :
    Platform
    → Ingress
    → Bool
    → Text
    → Scan
    → List IngressRule
    → Result SourceError Scan × List Diagnostic
unfolding scan_rule
scan_rules p ingress overridden index s [] = (ok s, s.reported)
scan_rules p ingress overridden index s (rule ∷ rules) =
    let (result, reported) = scan_rule p ingress overridden index s rule in
    elim result [
      | err e ↦ (err e, reported)
      | ok s' ↦ scan_rules p ingress overridden (next_index index) s' rules
    ]

-- A host name that only the TLS section gives goes to the default backend.
unfoldable pub add_tls_host : Ingress → Scan → Text → Scan
unfolding ingress_backend
add_tls_host ingress s host =
    if is_some (lookup host s.rules)
    then s
    else elim (ingress_backend ingress.namespace ingress.default_backend) [
      | some b ↦ record s { has_hostname = true; rules = insert host (b ∷ []) s.rules }
      | none ↦ record s {
        has_hostname = true;
        reported =
            emit
              (warning (codes "TLSHostWithoutBackend") (
                ingress.namespace
                ∷ ingress.name
                ∷ host
                ∷ (if is_some ingress.default_backend then codes "unsupported" else codes "missing")
                ∷ []))
              s.reported;
      }
    ]

unfoldable pub scan_tls_hosts :
    Platform → Ingress → Scan → List Text → Result SourceError Scan × List Diagnostic
unfolding add_tls_host
scan_tls_hosts p ingress s [] = (ok s, s.reported)
scan_tls_hosts p ingress s (raw ∷ hosts) = elim (normalize_hostname p raw) [
  | err e ↦ (err e, s.reported)
  | ok host ↦ scan_tls_hosts p ingress (add_tls_host ingress s host) hosts
]

abbrev pub flatten_hosts : List (List Text) → List Text
flatten_hosts [] = []
flatten_hosts (hosts ∷ rest) = hosts ++ flatten_hosts rest

unfoldable pub backend_set : List Backend → List Backend
backend_set values = sort_by backend_key values

abbrev pub hostname_of : HostProjection → Text
hostname_of h = h.hostname

unfoldable pub with_backends : Map Text (List Backend) → List HostProjection
unfolding backend_set
with_backends [] = []
with_backends ((hostname, backends) ∷ rules) =
    let rest = with_backends rules in
    if is_empty backends
    then rest
    else record { hostname = hostname; backends = backend_set backends } ∷ rest

unfoldable pub projection_set : Map Text (List Backend) → List HostProjection
unfolding with_backends
projection_set rules = sort_by hostname_of (with_backends rules)

abbrev pub same_backends : List Backend → List Text → List HostProjection
same_backends backends [] = []
same_backends backends (hostname ∷ hostnames) =
    record { hostname = hostname; backends = backends } ∷ same_backends backends hostnames

abbrev pub no_references : Ingress → Scan → List Diagnostic → List Diagnostic
no_references ingress s reported =
    emit_if (not s.has_reference)
      (normal (codes "NoBackendReferences") (ingress.namespace ∷ ingress.name ∷ [])) reported

-- After the rules: with overrides each of them gets all backends, else the TLS hosts are added.
unfoldable pub finish_projection :
    Platform
    → Ingress
    → List Text
    → Scan
    → Result SourceError (List HostProjection) × List Diagnostic
unfolding scan_tls_hosts projection_set backend_set
finish_projection p ingress overrides s =
    if not (is_empty overrides)
    then (ok (same_backends (backend_set s.all) overrides), no_references ingress s s.reported)
    else let (result, reported) = scan_tls_hosts p ingress s (flatten_hosts ingress.tls) in
      elim result [
        | err e ↦ (err e, reported)
        | ok s' ↦ (
          ok (projection_set s'.rules),
          no_references ingress s' (
              emit_if (not s'.has_hostname)
                (normal (codes "NoPublishableHostname") (ingress.namespace ∷ ingress.name ∷ []))
                s'.reported),
        )
      ]

unfoldable pub ingress_projection :
    Platform → Ingress → List Text → Result SourceError (List HostProjection) × List Diagnostic
unfolding scan_default scan_rules finish_projection
ingress_projection p ingress overrides =
    let (result, reported) =
      scan_rules p ingress (not (is_empty overrides)) []
        (scan_default ingress (not (is_empty overrides))) ingress.rules in
    elim result [ err e ↦ (err e, reported) | ok s ↦ finish_projection p ingress overrides s ]
