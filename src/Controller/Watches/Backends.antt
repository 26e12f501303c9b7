-- ===== src/Controller/Watches/Backends.antt =====
-- Every backend that the projection of an Ingress names stands in the index of the Ingress.
pub mod Preserved
use mathlib.Core.List.{Memᴰ}
use mathlib.Core.List.Memᴰ.{head, tail}
use labdns.Base.{
  ◌≡◌, refl, sym, subst, Bool, true, ◌||◌, not, Option, none, some, List, [], ◌∷◌, ◌++◌, Text, Map,
  codes, is_empty, is_some, contains, lookup, insert, get_or, set_insert, contains-set_insert,
  contains-append, contains-set_insert_all, contains-sort_by, sort_by-All, All, arith, inl, inr,
  Bool-cases, Option-cases, map, list_eq, nat_eq, ◌==◌, ==_iff, ==_refl, text_ord,
}
use labdns.Base.Results.{Result, ok, err, Result-cases}
use labdns.Platform.{Platform}
use labdns.Source.Types.{Backend, backend_key, HostProjection}
use labdns.Source.Errors.{SourceError}
use labdns.Source.Names.{normalize_hostname}
use labdns.Source.Projection.{
  backend_eq, Ingress, IngressBackend, IngressRule, ingress_backend, Scan, scan_default, scan_paths,
  add_backends, open_rule, paths_of, scan_rule, scan_rules, next_index, add_tls_host,
  scan_tls_hosts, flatten_hosts, backend_set, with_backends, projection_set, same_backends,
  finish_projection, ingress_projection, hostname_of,
}
use labdns.Controller.Watches.Index.{
  slash, service_names, rule_names, default_names, ingress_backend_keys,
}
use labdns.Controller.Watches.Backends.Preserved.{AllOf, ProjectionNamed, ingress_projection-Named}

abbrev pub Publishes : List HostProjection → Backend → Type 0
Publishes hosts b = (h : HostProjection) × Memᴰ h hosts × (contains h.backends b ≡ true)

All-Memᴰ {ℓ κ} : {A : Type ℓ} (P : A → Type κ) (xs : List A) (a : A) → All P xs → Memᴰ a xs → P a
All-Memᴰ P [] a h m = elim m [ ]
All-Memᴰ P (x ∷ xs) a h (head same) = subst P (sym same) h.0
All-Memᴰ P (x ∷ xs) a h (tail m) = All-Memᴰ P xs a h.1 m

pub Publishes-Named :
    (P : Backend → Type 0) (projection : Result SourceError (List HostProjection))
    (hosts : List HostProjection) (b : Backend)
    → ProjectionNamed P projection
    → projection ≡ ok hosts
    → Publishes hosts b
    → P b
Publishes-Named P projection hosts b named e (h, m, member) =
    All-Memᴰ (λ x. AllOf P x.backends) hosts h (subst (ProjectionNamed P) e named) m b member

-- Only a Service with a name is a backend, and it lies in the namespace of the Ingress.
ingress_backend_lem :
    (namespace : Text) (x : IngressBackend) (b : Backend)
    → ingress_backend namespace (some x) ≡ some b
    → (x.service ≡ some b.name) × (b ≡ record { namespace = namespace; name = b.name })
unfolding ingress_backend
ingress_backend_lem namespace x b h = elim (Option-cases x.service) [
  | inl e ↦ absurd (ground (arith, e, h))
  | inr (n, e) ↦ elim (Bool-cases (is_empty n)) [
    | inl nameless ↦ absurd (ground (arith, e, h, nameless))
    | inr named ↦ (ground (arith, e, h, named), ground (arith, e, h, named))
  ]
]

-- A test on backends that the Services of the given names pass.
module _ (P : Backend → Type 0) (namespace : Text) where
  abbrev Passes : List Text → Type 0
  Passes names =
      (name : Text) → contains names name ≡ true → P (record { namespace = namespace; name = name })

  Passes-left : (left right : List Text) → Passes (left ++ right) → Passes left
  Passes-left left right h name m = h name (ground (arith, contains-append left right name, m))

  Passes-right : (left right : List Text) → Passes (left ++ right) → Passes right
  Passes-right left right h name m = h name (ground (arith, contains-append left right name, m))

  one_name :
      (x : IngressBackend) (xs : List IngressBackend) (b : Backend)
      → Passes (service_names (x ∷ xs))
      → ingress_backend namespace (some x) ≡ some b
      → P b
  one_name x xs b h found =
      let (e, same) = ingress_backend_lem namespace x b found in
      subst P (sym same) (h b.name (rw e (rw (==_refl b.name) refl)))

  later_names :
      (x : IngressBackend) (xs : List IngressBackend)
      → Passes (service_names (x ∷ xs))
      → Passes (service_names xs)
  later_names x xs h name m =
      h name
        (elim (Option-cases x.service) [ inl e ↦ rw e m | inr (n, e) ↦ rw e (ground (arith, m)) ])

  service_names-All :
      (backends : List IngressBackend)
      → Passes (service_names backends)
      → All
          (λ backend. (b : Backend) → ingress_backend namespace (some backend) ≡ some b → P b)
          backends
  service_names-All [] h = tt
  service_names-All (x ∷ xs) h =
      (λ b found. one_name x xs b h found, service_names-All xs (later_names x xs h))

  default_names_lem :
      (backend : Option IngressBackend)
      → Passes (default_names backend)
      → (b : Backend) → ingress_backend namespace backend ≡ some b
      → P b
  unfolding ingress_backend
  default_names_lem none h b found = absurd (ground (arith, found))
  default_names_lem (some x) h b found = one_name x [] b h found

  rule_names-All :
      (rules : List IngressRule)
      → Passes (rule_names rules)
      → All
          (λ rule.
            All
              (λ backend. (b : Backend) → ingress_backend namespace (some backend) ≡ some b → P b)
              (paths_of rule))
          rules
  rule_names-All [] h = tt
  rule_names-All (rule ∷ rules) h = (
    service_names-All (paths_of rule) (Passes-left (service_names (paths_of rule)) _ h),
    rule_names-All rules (Passes-right (service_names (paths_of rule)) _ h),
  )

contains-map-slash :
    (namespace : Text) (names : List Text) (name : Text)
    → contains names name ≡ true
    → contains (map (slash namespace) names) (slash namespace name) ≡ true
contains-map-slash namespace [] name h = h
contains-map-slash namespace (n ∷ names) name h = elim (Bool-cases (name == n)) [
  | inl same ↦
      subst (λ m. contains (map (slash namespace) (m ∷ names)) (slash namespace name) ≡ true)
        ((==_iff name n).0 same) (rw (==_refl (slash namespace name)) refl)
  | inr other ↦ ground (arith, h, other, contains-map-slash namespace names name)
]

-- The index of the Ingress holds the key of the backend.
abbrev pub IsIndexed : Ingress → Backend → Type 0
IsIndexed ingress b = contains (ingress_backend_keys ingress) (slash b.namespace b.name) ≡ true

names-IsIndexed :
    (ingress : Ingress)
    → Passes
        (IsIndexed ingress)
        ingress.namespace
        (default_names ingress.default_backend ++ rule_names ingress.rules)
unfolding ingress_backend_keys
names-IsIndexed ingress name m =
    let names = default_names ingress.default_backend ++ rule_names ingress.rules in
    ground (
      arith,
      contains-set_insert_all (map (slash ingress.namespace) names) []
          (slash ingress.namespace name),
      contains-map-slash ingress.namespace names name m,
    )

-- Every backend of every host name that an Ingress projects to stands in the index by which the
-- cache finds the Ingress, whatever its rules, its default backend, its TLS section and the host
-- names that override it.
pub ingress_projection-IsIndexed :
    (p : Platform) (ingress : Ingress) (overrides : List Text)
    → ProjectionNamed (IsIndexed ingress) (ingress_projection p ingress overrides).0
ingress_projection-IsIndexed p ingress overrides =
    let defaults = default_names ingress.default_backend in
    let named = names-IsIndexed ingress in
    ingress_projection-Named (IsIndexed ingress) p ingress overrides
      (default_names_lem (IsIndexed ingress) ingress.namespace ingress.default_backend (
        Passes-left (IsIndexed ingress) ingress.namespace defaults (rule_names ingress.rules)
          named))
      (rule_names-All (IsIndexed ingress) ingress.namespace ingress.rules (
        Passes-right (IsIndexed ingress) ingress.namespace defaults (rule_names ingress.rules)
          named))
