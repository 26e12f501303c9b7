-- ===== src/Controller/Sources.antt =====
-- internal/controller/source_controller.go: one reconciliation of an Ingress or of a Gateway route. What
-- it reads is a snapshot of the cluster; the writer is a parameter. A round records what it does.
pub mod Laws
use labdns.Base.{
  ℕ, ◌≡◌, Bool, true, false, ◌&&◌, ◌||◌, not, Option, none, some, List, [], ◌∷◌, ◌++◌, Text, Map,
  codes, lookup, is_empty, set_insert_all, sort_by, text_ord, if◌then◌else◌, ◌==◌, list_eq, nat_eq,
  pair_eq, get_or, map_equal, all,
}
use labdns.Base.Results.{Result, ok, err}
use labdns.Platform.{Platform}
use labdns.Source.Types.{Identity, HostProjection, Publication, ingress_kind}
use labdns.Source.Errors.{
  SourceError, plain, wrapped, invalid, mark_invalid, is_terminal, resolution_warning_reason,
}
use labdns.Source.Annotations.{ParsedAnnotations, merge_annotations, parse_annotations}
use labdns.Source.Diagnostics.{Diagnostic, warning, emit, emit_if}
use labdns.Source.Projection.{Ingress, ingress_projection}
use labdns.Source.Routes.{
  RouteKind, kind_name, Route, ObjectReference, ReferenceGrant, route_projection, gateway_group,
}
use labdns.Source.Resolver.{DnsProvider, PublicationOptions, Reader, ReadError, missing, failed}
use labdns.Source.Publications.{publications}

-- What `terminalOutputError` tells apart.
pub data ApplyError : Type 0 where
  bad_state other_failure : ApplyError

pub record World : Type 0 where
  pub get_ingress : Text → Text → Result ReadError Ingress
  pub get_ingress_class : Text → Result ReadError (Map Text Text)
  pub get_route : RouteKind → Text → Text → Result ReadError Route
  -- The class and the annotations of a Gateway.
  pub get_gateway : Text → Text → Result ReadError (Text × Map Text Text)
  pub get_gateway_class : Text → Result ReadError (Map Text Text)
  pub get_provider : Text → Result ReadError DnsProvider
  pub list_grants : Text → Option (List ReferenceGrant)
  pub resolver : Reader
  -- `Output.Apply`
  pub apply : Identity → List Publication → Result ApplyError (Unit {0})

-- The error that `Reconcile` returns: none, one that is tried again, one that is not.
pub data Outcome : Type 0 where
  done retried terminal : Outcome

pub record Round : Type 0 where
  pub outcome : Outcome
  -- The call of `Metrics.SetSource`, and that of `deleteSource`.
  pub managed : Option Bool
  pub forgotten : Bool
  -- The call of `Output.Apply`.
  pub applied : Option (Identity × List Publication)
  pub reported : List Diagnostic

unfoldable pub terminal_source_error : SourceError → Outcome
terminal_source_error e = if is_terminal e then terminal else retried

unfoldable pub terminal_output_error : ApplyError → Outcome
terminal_output_error bad_state = terminal
terminal_output_error other_failure = retried

-- `publicationOptions`
unfoldable pub publication_options : ParsedAnnotations → PublicationOptions
publication_options parsed = record {
  families = parsed.families;
  annotations = parsed.resolved;
  ttl = parsed.ttl;
  deletion_delay = parsed.deletion_delay;
}

abbrev pub gives_up : Outcome → Option Bool → List Diagnostic → Round
gives_up outcome managed reported = record {
  outcome = outcome;
  managed = managed;
  forgotten = false;
  applied = none;
  reported = reported;
}

abbrev pub provider_name_of : DnsProvider → Text
provider_name_of provider = provider.name

abbrev pub says : Text → List Text → List Diagnostic → List Diagnostic
says reason about reported = emit (warning reason about) reported

-- The annotations of the class where the reading of it gave some, and what is to be said otherwise.
abbrev pub unreadable : ReadError → SourceError
unreadable missing = mark_invalid (wrapped plain)
unreadable failed = wrapped plain

abbrev pub unreadable_reason : ReadError → Text → Text → Text
unreadable_reason missing not_found_reason failed_reason = not_found_reason
unreadable_reason failed not_found_reason failed_reason = failed_reason

abbrev pub legacy_class_annotation : Text
legacy_class_annotation = codes "kubernetes.io/ingress.class"

module _ (world : World) where
  unfoldable pub ingress_annotations :
      Ingress → List Diagnostic → Result SourceError (Map Text Text) × List Diagnostic
  ingress_annotations ingress reported =
      let class_name =
        get_or ingress.class_name
          (get_or (lookup legacy_class_annotation ingress.annotations) []) in
      if is_empty class_name
      then (ok (merge_annotations (ingress.annotations ∷ [])), reported)
      else elim (world.get_ingress_class class_name) [
        | err e ↦ (
          err (unreadable e),
          says (unreadable_reason e (codes "IngressClassNotFound") (codes "IngressClassReadFailed"))
              (class_name ∷ []) reported,
        )
        | ok class ↦ (ok (merge_annotations (class ∷ ingress.annotations ∷ [])), reported)
      ]

  abbrev is_gateway : ObjectReference → Bool
  is_gateway ref =
      (get_or ref.group gateway_group == gateway_group)
      && (get_or ref.kind (codes "Gateway") == codes "Gateway")

  -- The chain of one parent: class, Gateway, route.
  unfoldable pub parent_chain :
      Route
      → ObjectReference
      → List Diagnostic
      → Result SourceError (Map Text Text) × List Diagnostic
  parent_chain route ref reported =
      let namespace = get_or ref.namespace route.namespace in
      elim (world.get_gateway namespace ref.name) [
        | err e ↦ (
          err (unreadable e),
          says (unreadable_reason e (codes "GatewayNotFound") (codes "GatewayReadFailed"))
              (namespace ∷ ref.name ∷ []) reported,
        )
        | ok (class_name, annotations) ↦ elim (world.get_gateway_class class_name) [
          | err e ↦ (
            err (unreadable e),
            says
                (unreadable_reason e (codes "GatewayClassNotFound")
                  (codes "GatewayClassReadFailed"))
                (class_name ∷ []) reported,
          )
          | ok class ↦
              (ok (merge_annotations (class ∷ annotations ∷ route.annotations ∷ [])), reported)
        ]
      ]

  unfoldable pub parent_chains :
      Route
      → List ObjectReference
      → List Diagnostic
      → Result SourceError (List (Map Text Text)) × List Diagnostic
  unfolding parent_chain
  parent_chains route [] reported = (ok [], reported)
  parent_chains route (ref ∷ refs) reported =
      let others = parent_chains route refs reported in
      if not (is_gateway ref)
      then others
      else let (answer, said) = parent_chain route ref reported in
        elim answer [
          | err e ↦ (err e, said)
          | ok chain ↦
              let (rest, all_said) = parent_chains route refs said in
              elim rest [ err e ↦ (err e, all_said) | ok chains ↦ (ok (chain ∷ chains), all_said) ]
        ]

  unfoldable pub route_annotations :
      Route → List Diagnostic → Result SourceError (Map Text Text) × List Diagnostic
  unfolding parent_chains
  route_annotations route reported =
      let (answer, said) = parent_chains route route.parents reported in
      elim answer [
        | err e ↦ (err e, said)
        | ok [] ↦ (ok (merge_annotations (route.annotations ∷ [])), said)
        | ok (chain ∷ chains) ↦
            if all (map_equal chain) chains
            then (ok chain, said)
            else (err (mark_invalid plain), says (codes "AmbiguousParents") [] said)
      ]

  -- A provider that is not there is left out.
  unfoldable pub read_providers :
      List Text → List Diagnostic → Option (List DnsProvider) × List Diagnostic
  read_providers [] reported = (some [], reported)
  read_providers (name ∷ names) reported = elim (world.get_provider name) [
    | err missing ↦ read_providers names (says (codes "DNSProviderNotFound") (name ∷ []) reported)
    | err failed ↦ (none, says (codes "DNSProviderReadFailed") (name ∷ []) reported)
    | ok provider ↦
        let (rest, said) = read_providers names reported in
        elim rest [ none ↦ (none, said) | some providers ↦ (some (provider ∷ providers), said) ]
  ]

  unfoldable pub load_providers :
      List Text → List Diagnostic → Option (List DnsProvider) × List Diagnostic
  unfolding read_providers
  load_providers names reported =
      let (answer, said) = read_providers names reported in
      elim answer [
        | none ↦ (none, said)
        | some providers ↦ (some (sort_by provider_name_of providers), said)
      ]

  -- The call of `Output.Apply` that ends a round.
  unfoldable pub write : Identity → List Publication → Bool → List Diagnostic → Round
  unfolding terminal_output_error
  write identity wanted managed reported = elim (world.apply identity wanted) [
    | ok _ ↦ record {
      outcome = done;
      managed = some managed;
      forgotten = false;
      applied = some (identity, wanted);
      reported = reported;
    }
    | err e ↦ record {
      outcome = terminal_output_error e;
      managed = some managed;
      forgotten = false;
      applied = some (identity, wanted);
      reported = says (codes "DNSEndpointWriteFailed") [] reported;
    }
  ]

  -- The source is gone: everything that it published is retired.
  unfoldable pub retire_missing : Identity → Round
  unfolding terminal_output_error
  retire_missing identity = record {
    outcome = elim (world.apply identity []) [ ok _ ↦ done | err e ↦ terminal_output_error e ];
    managed = some false;
    forgotten = true;
    applied = some (identity, []);
    reported = [];
  }

  -- From the host names to the write. The flag is what the metrics were told.
  unfoldable pub publish :
      Identity
      → ParsedAnnotations
      → Bool
      → Text
      → Result SourceError (List HostProjection) × List Diagnostic
      → List Diagnostic
      → Round
  unfolding load_providers write terminal_source_error publication_options
  publish identity parsed managed projection_reason (err e, projected) reported =
      gives_up (terminal_source_error e) (some managed)
        (says projection_reason [] (set_insert_all projected reported))
  publish identity parsed managed projection_reason (ok projection, projected) reported =
      let (loaded, said) = load_providers parsed.providers (set_insert_all projected reported) in
      elim loaded [
        | none ↦ gives_up retried (some managed) said
        | some providers ↦
            let (answer, resolved) =
              publications world.resolver projection providers (publication_options parsed) in
            elim answer [
              | err e ↦
                  gives_up (terminal_source_error e) (some managed)
                    (says (resolution_warning_reason e) [] (set_insert_all resolved said))
              | ok wanted ↦ write identity wanted managed (set_insert_all resolved said)
            ]
      ]

  -- From the inherited annotations on.
  unfoldable pub reconcile_present :
      Platform
      → Identity
      → Text
      → (List Text → Result SourceError (List HostProjection) × List Diagnostic)
      → Result SourceError (Map Text Text) × List Diagnostic
      → Round
  unfolding publish
  reconcile_present p identity projection_reason project (err e, reported) =
      gives_up (terminal_source_error e) none reported
  reconcile_present p identity projection_reason project (ok annotations, reported) =
      elim (parse_annotations p annotations) [
        | err e ↦
            gives_up (terminal_source_error e) none (says (codes "InvalidAnnotations") [] reported)
        | ok parsed ↦
            let managed = parsed.enabled && not (is_empty parsed.providers) in
            if not parsed.enabled || is_empty parsed.providers
            then write identity [] managed (
                emit_if (parsed.enabled && is_empty parsed.providers)
                  (warning (codes "NoProvidersSelected") (identity.kind ∷ [])) reported)
            else publish identity parsed managed projection_reason (project parsed.hostnames)
                reported
      ]

  abbrev pub ingress_identity : Text → Text → Text → Identity
  ingress_identity namespace name uid = record {
    api_version = codes "networking.k8s.io/v1";
    kind = ingress_kind;
    namespace = namespace;
    name = name;
    uid = uid;
  }

  abbrev pub route_identity : RouteKind → Text → Text → Text → Identity
  route_identity kind namespace name uid = record {
    api_version = codes "gateway.networking.k8s.io/v1";
    kind = kind_name kind;
    namespace = namespace;
    name = name;
    uid = uid;
  }

  -- `ingressReconciler.Reconcile`
  unfoldable pub reconcile_ingress : Platform → Text → Text → Round
  unfolding reconcile_present retire_missing ingress_annotations
  reconcile_ingress p namespace name = elim (world.get_ingress namespace name) [
    | err missing ↦ retire_missing (ingress_identity namespace name [])
    | err failed ↦ gives_up retried none []
    | ok ingress ↦
        reconcile_present p (ingress_identity ingress.namespace ingress.name ingress.uid)
          (codes "InvalidSource") (ingress_projection p ingress) (ingress_annotations ingress [])
  ]

  -- `routeReconciler.Reconcile` for one kind of route.
  unfoldable pub reconcile_route : Platform → RouteKind → Text → Text → Round
  unfolding reconcile_present retire_missing route_annotations
  reconcile_route p kind namespace name = elim (world.get_route kind namespace name) [
    | err missing ↦ retire_missing (route_identity kind namespace name [])
    | err failed ↦ gives_up retried none []
    | ok route ↦
        if kind_name route.kind == kind_name kind
        then reconcile_present p (route_identity kind route.namespace route.name route.uid)
            (codes "ResolutionFailed") (route_projection world.list_grants p route)
            (route_annotations route [])
        else gives_up retried none []
  ]
