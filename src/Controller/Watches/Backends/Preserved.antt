-- ===== src/Controller/Watches/Backends/Preserved.antt =====
-- A property of the backends that an Ingress names holds of those that it publishes.
use labdns.Base.{
  ◌≡◌, sym, subst, Bool, true, ◌||◌, not, some, List, [], ◌∷◌, Text, Map, codes, is_empty, is_some,
  contains, lookup, insert, get_or, set_insert, contains-set_insert, contains-sort_by, sort_by-All,
  All, arith, inl, inr, Bool-cases, Option-cases, list_eq, nat_eq, ◌==◌, ==_iff, text_ord,
}
use labdns.Base.Results.{Result, ok, err, Result-cases}
use labdns.Platform.{Platform}
use labdns.Source.Types.{Backend, backend_key, HostProjection}
use labdns.Source.Errors.{SourceError}
use labdns.Source.Names.{normalize_hostname}
use labdns.Source.Projection.{
  backend_eq, Ingress, IngressBackend, IngressRule, ingress_backend, Scan, scan_default, scan_paths,
  add_backends, open_rule, paths_of, scan_rule, scan_rules, next_index, add_tls_host,
  scan_tls_hosts, flatten_hosts, backend_set, with_backends, projection_set, same_backends,
  finish_projection, ingress_projection, hostname_of,
}

module _ (P : Backend → Type 0) where
  abbrev pub AllOf : List Backend → Type 0
  AllOf bs = (b : Backend) → contains bs b ≡ true → P b

  abbrev pub AllEntries : Map Text (List Backend) → Type 0
  AllEntries rules = All (λ entry. AllOf entry.1) rules

  abbrev Yields : Text → IngressBackend → Type 0
  Yields namespace backend = (b : Backend) → ingress_backend namespace (some backend) ≡ some b → P b

  pub set_insert-AllOf :
      (b : Backend) (bs : List Backend) → P b → AllOf bs → AllOf (set_insert b bs)
  set_insert-AllOf b bs one rest c h = elim (Bool-cases (c == b)) [
    | inl same ↦ subst P (sym ((==_iff c b).0 same)) one
    | inr other ↦ rest c (ground (arith, h, other, contains-set_insert b bs c))
  ]

  insert-AllEntries :
      (host : Text) (bs : List Backend) (rules : Map Text (List Backend))
      → AllOf bs
      → AllEntries rules
      → AllEntries (insert host bs rules)
  unfolding insert
  insert-AllEntries host bs [] one rest = (one, tt)
  insert-AllEntries host bs ((k, v) ∷ rules) one rest = elim (Bool-cases (host == k)) [
    | inl same ↦ rw same (one, rest.1)
    | inr other ↦ rw other (rest.0, insert-AllEntries host bs rules one rest.1)
  ]

  lookup-AllEntries :
      (host : Text) (rules : Map Text (List Backend))
      → AllEntries rules
      → AllOf (get_or (lookup host rules) [])
  unfolding lookup
  lookup-AllEntries host [] rest = λ b h. ground (arith, h)
  lookup-AllEntries host ((k, v) ∷ rules) rest = elim (Bool-cases (host == k)) [
    | inl same ↦ rw same rest.0
    | inr other ↦ rw other (lookup-AllEntries host rules rest.1)
  ]

  -- What holds of the variables of `IngressProjection` throughout.
  record IsNamed (s : Scan) : Type 0 where
    all_named : AllOf s.all
    rules_named : AllEntries s.rules

  scan_paths-IsNamed :
      (ingress : Ingress) (location : List Text) (backends : List IngressBackend) (s : Scan)
      → IsNamed s
      → IsNamed (scan_paths ingress location s backends)
  unfolding scan_paths
  scan_paths-IsNamed ingress location [] s h = h
  scan_paths-IsNamed ingress location (x ∷ xs) s h =
      scan_paths-IsNamed ingress location xs _
        (record { all_named = h.all_named; rules_named = h.rules_named })

  add_backends-IsNamed :
      (namespace host : Text) (backends : List IngressBackend) (s : Scan)
      → All (Yields namespace) backends
      → IsNamed s
      → IsNamed (add_backends namespace host s backends)
  unfolding add_backends
  add_backends-IsNamed namespace host [] s y h = h
  add_backends-IsNamed namespace host (x ∷ xs) s y h =
      elim (Option-cases (ingress_backend namespace (some x))) [
        | inl e ↦ rw e (add_backends-IsNamed namespace host xs s y.1 h)
        | inr (b, e) ↦ rw (e) (
            add_backends-IsNamed namespace host xs _ y.1 (record {
              all_named = set_insert-AllOf b s.all (y.0 b e) h.all_named;
              rules_named =
                  insert-AllEntries host _ s.rules
                    (set_insert-AllOf b _ (y.0 b e) (lookup-AllEntries host s.rules h.rules_named))
                    h.rules_named;
            }))
      ]

  open_rule-AllEntries :
      (host : Text) (rules : Map Text (List Backend))
      → AllEntries rules
      → AllEntries (open_rule host rules)
  open_rule-AllEntries host rules h = elim (Bool-cases (is_some (lookup host rules))) [
    | inl there ↦ rw there h
    | inr absent ↦ rw absent (insert-AllEntries host [] rules (λ b e. ground (arith, e)) h)
  ]

  abbrev IsScan : Result SourceError Scan → Type 0
  IsScan (err e) = Unit
  IsScan (ok s) = IsNamed s

  scan_rule-IsScan :
      (p : Platform) (ingress : Ingress) (overridden : Bool) (index : Text) (s : Scan)
      (rule : IngressRule)
      → All (Yields ingress.namespace) (paths_of rule)
      → IsNamed s
      → IsScan (scan_rule p ingress overridden index s rule).0
  unfolding scan_rule
  scan_rule-IsScan p ingress overridden index s rule y h =
      let location : List Text = codes "rule" ∷ index ∷ rule.host ∷ [] in
      let s1 = scan_paths ingress location s (paths_of rule) in
      let scanned = scan_paths-IsNamed ingress location (paths_of rule) s h in
      elim (Bool-cases (is_empty rule.host || not (is_some rule.http))) [
        | inl skipped ↦
            rw (skipped, scan_rule)
              (record { all_named = scanned.all_named; rules_named = scanned.rules_named })
        | inr named ↦ elim (Result-cases (normalize_hostname p rule.host)) [
          | inr (e, bad) ↦ rw (named, scan_rule) (rw bad tt)
          | inl (host, good) ↦
              rw (named, scan_rule)
                (rw good (
                  add_backends-IsNamed ingress.namespace host (paths_of rule)
                    (record s1 { rules = open_rule host s1.rules; has_hostname = true }) y
                    (record {
                      all_named = scanned.all_named;
                      rules_named = open_rule-AllEntries host _ scanned.rules_named;
                    })))
        ]
      ]

  scan_rules-IsScan :
      (p : Platform) (ingress : Ingress) (overridden : Bool) (rules : List IngressRule)
      (index : Text) (s : Scan)
      → All (λ rule. All (Yields ingress.namespace) (paths_of rule)) rules
      → IsNamed s
      → IsScan (scan_rules p ingress overridden index s rules).0
  unfolding scan_rules
  scan_rules-IsScan p ingress overridden [] index s y h = h
  scan_rules-IsScan p ingress overridden (rule ∷ rules) index s y h =
      let one = scan_rule-IsScan p ingress overridden index s rule y.0 h in
      elim (Result-cases (scan_rule p ingress overridden index s rule).0) [
        | inr (e, bad) ↦ rw (bad, scan_rules) tt
        | inl (s1, good) ↦
            rw (good, scan_rules)
              (scan_rules-IsScan p ingress overridden rules (next_index index) s1 y.1
                (subst IsScan good one))
      ]

  scan_default-IsNamed :
      (ingress : Ingress) (overridden : Bool)
      → ((b : Backend) → ingress_backend ingress.namespace ingress.default_backend ≡ some b → P b)
      → IsNamed (scan_default ingress overridden)
  unfolding scan_default
  scan_default-IsNamed ingress overridden y = elim (Option-cases ingress.default_backend) [
    | inl e ↦
        rw (e, scan_default) (record { all_named = λ b h. ground (arith, h); rules_named = tt })
    | inr (x, e) ↦ elim (Option-cases (ingress_backend ingress.namespace (some x))) [
      | inl unsupported ↦
          rw (e, scan_default)
            (rw unsupported (record { all_named = λ b h. ground (arith, h); rules_named = tt }))
      | inr (b, own) ↦
          rw (e, scan_default)
            (rw own (record {
              all_named =
                  λ c h. subst P (sym ((==_iff c b).0 (ground (arith, h)))) (y b (rw e own));
              rules_named = tt;
            }))
    ]
  ]

  add_tls_host-IsNamed :
      (ingress : Ingress) (s : Scan) (host : Text)
      → ((b : Backend) → ingress_backend ingress.namespace ingress.default_backend ≡ some b → P b)
      → IsNamed s
      → IsNamed (add_tls_host ingress s host)
  unfolding add_tls_host
  add_tls_host-IsNamed ingress s host y h = elim (Bool-cases (is_some (lookup host s.rules))) [
    | inl there ↦ rw (there, add_tls_host) h
    | inr absent ↦ elim (Option-cases (ingress_backend ingress.namespace ingress.default_backend)) [
      | inl e ↦
          rw (absent, add_tls_host)
            (rw e (record { all_named = h.all_named; rules_named = h.rules_named }))
      | inr (b, e) ↦
          rw (absent, add_tls_host)
            (rw e (record {
              all_named = h.all_named;
              rules_named =
                  insert-AllEntries host (b ∷ []) s.rules
                    (λ c m. subst P (sym ((==_iff c b).0 (ground (arith, m)))) (y b e))
                    h.rules_named;
            }))
    ]
  ]

  scan_tls_hosts-IsScan :
      (p : Platform) (ingress : Ingress) (hosts : List Text) (s : Scan)
      → ((b : Backend) → ingress_backend ingress.namespace ingress.default_backend ≡ some b → P b)
      → IsNamed s
      → IsScan (scan_tls_hosts p ingress s hosts).0
  unfolding scan_tls_hosts
  scan_tls_hosts-IsScan p ingress [] s y h = h
  scan_tls_hosts-IsScan p ingress (raw ∷ hosts) s y h =
      elim (Result-cases (normalize_hostname p raw)) [
        | inr (e, bad) ↦ rw (bad, scan_tls_hosts) tt
        | inl (host, good) ↦
            rw (good, scan_tls_hosts)
              (scan_tls_hosts-IsScan p ingress hosts (add_tls_host ingress s host) y
                (add_tls_host-IsNamed ingress s host y h))
      ]

  abbrev pub HostsNamed : List HostProjection → Type 0
  HostsNamed hosts = All (λ h. AllOf h.backends) hosts

  abbrev pub ProjectionNamed : Result SourceError (List HostProjection) → Type 0
  ProjectionNamed (err e) = Unit
  ProjectionNamed (ok hosts) = HostsNamed hosts

  pub backend_set-AllOf : (bs : List Backend) → AllOf bs → AllOf (backend_set bs)
  unfolding backend_set
  backend_set-AllOf bs h c m = h c (ground (arith, contains-sort_by backend_key bs c, m))

  with_backends-HostsNamed :
      (rules : Map Text (List Backend)) → AllEntries rules → HostsNamed (with_backends rules)
  unfolding with_backends
  with_backends-HostsNamed [] h = tt
  with_backends-HostsNamed ((host, bs) ∷ rules) h = elim (Bool-cases (is_empty bs)) [
    | inl e ↦ rw e (with_backends-HostsNamed rules h.1)
    | inr e ↦ rw e (backend_set-AllOf bs h.0, with_backends-HostsNamed rules h.1)
  ]

  pub same_backends-HostsNamed :
      (bs : List Backend) (hosts : List Text) → AllOf bs → HostsNamed (same_backends bs hosts)
  same_backends-HostsNamed bs [] h = tt
  same_backends-HostsNamed bs (host ∷ hosts) h = (h, same_backends-HostsNamed bs hosts h)

  finish_projection-Named :
      (p : Platform) (ingress : Ingress) (overrides : List Text) (s : Scan)
      → ((b : Backend) → ingress_backend ingress.namespace ingress.default_backend ≡ some b → P b)
      → IsNamed s
      → ProjectionNamed (finish_projection p ingress overrides s).0
  unfolding finish_projection projection_set
  finish_projection-Named p ingress (o ∷ overrides) s y h =
      same_backends-HostsNamed (backend_set s.all) (o ∷ overrides)
        (backend_set-AllOf s.all h.all_named)
  finish_projection-Named p ingress [] s y h =
      let scanned = scan_tls_hosts-IsScan p ingress (flatten_hosts ingress.tls) s y h in
      elim (Result-cases (scan_tls_hosts p ingress s (flatten_hosts ingress.tls)).0) [
        | inr (e, bad) ↦ rw (bad, finish_projection) tt
        | inl (s1, good) ↦
            let named = subst IsScan good scanned in
            rw (good, finish_projection)
              (sort_by-All hostname_of (λ h. AllOf h.backends) (with_backends s1.rules)
                (with_backends-HostsNamed s1.rules named.rules_named))
      ]

  -- What holds of each backend that the Ingress refers to holds of each one that is projected.
  pub ingress_projection-Named :
      (p : Platform) (ingress : Ingress) (overrides : List Text)
      → ((b : Backend) → ingress_backend ingress.namespace ingress.default_backend ≡ some b → P b)
      → All (λ rule. All (Yields ingress.namespace) (paths_of rule)) ingress.rules
      → ProjectionNamed (ingress_projection p ingress overrides).0
  unfolding ingress_projection
  ingress_projection-Named p ingress overrides d y =
      let overridden = not (is_empty overrides) in
      let start = scan_default ingress overridden in
      let scanned =
        scan_rules-IsScan p ingress overridden ingress.rules [] start y
          (scan_default-IsNamed ingress overridden d) in
      elim (Result-cases (scan_rules p ingress overridden [] start ingress.rules).0) [
        | inr (e, bad) ↦ rw (bad, ingress_projection) tt
        | inl (s, good) ↦
            rw (good, ingress_projection)
              (finish_projection-Named p ingress overrides s d (subst IsScan good scanned))
      ]

-- A backend of one of the host names.
