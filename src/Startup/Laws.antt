-- ===== src/Startup/Laws.antt =====
-- When the manager may start.
use labdns.Base.{
  ◌≡◌, refl, ap, ◌∙◌, Bool, true, false, not, ◌&&◌, ◌||◌, Option, none, some, Option-cases, List,
  [], ◌∷◌, Text, Map, contains, lookup, insert, lookup-insert, all, arith, inl, inr, if◌then◌else◌,
  ◌==◌, is_empty, ==_iff, list_eq, nat_eq, or_else,
}
use labdns.Base.Results.{Result, ok, err, Result-cases, guard, ◌>>◌}
use labdns.Startup.{
  ServedResource, RequiredResource, Discovery, index_resources, same_scope, require_verbs,
  require_resource, require_each, require_resources, endpoint_version, gateway_version,
  grant_version, required_endpoints, required_gateways, required_grants, or_unavailable,
  check_prerequisites, ResourceError, PrerequisiteError, wrong_kind, wrong_scope,
  endpoints_unavailable, gateways_unavailable, grants_unavailable,
}

-- The last resource of a name.
abbrev pub last_named : Text → List ServedResource → Option ServedResource
last_named name [] = none
last_named name (r ∷ resources) = elim (last_named name resources) [
  | some later ↦ some later
  | none ↦ if r.name == name then some r else none
]

abbrev pub suits : RequiredResource → Option ServedResource → Bool
suits wanted none = false
suits wanted (some r) =
    (r.kind == wanted.kind)
    && same_scope r.namespaced wanted.namespaced
    && all (contains r.verbs) wanted.verbs

-- Whether discovery answers for the version, and what it lists last under the name has the kind, the
-- scope and all the verbs that are required.
abbrev pub is_served : Discovery → Text → RequiredResource → Bool
is_served discovery version wanted = elim (discovery version) [
  | err e ↦ false
  | ok resources ↦ suits wanted (last_named wanted.name resources)
]

abbrev pub is_ok {ℓ} : {E : Type ℓ} → Result E (Unit {0}) → Bool
is_ok (ok _) = true
is_ok (err e) = false

is_ok-both {ℓ} :
    {E : Type ℓ} (first rest : Result E (Unit {0}))
    → is_ok (first >> rest) ≡ (is_ok first && is_ok rest)
is_ok-both (ok _) rest = refl
is_ok-both (err e) rest = refl

is_ok-guard {ℓ} :
    {E : Type ℓ} (b : Bool) (e : E) (rest : Result E (Unit {0}))
    → is_ok (guard b e >> rest) ≡ (b && is_ok rest)
is_ok-guard true e rest = refl
is_ok-guard false e rest = refl

is_ok-or_unavailable :
    (wrap : ResourceError → PrerequisiteError) (answer : Result ResourceError (Unit {0}))
    → is_ok (or_unavailable wrap answer) ≡ is_ok answer
is_ok-or_unavailable wrap (ok _) = refl
is_ok-or_unavailable wrap (err e) = refl

lookup-index_resources :
    (name : Text) (resources : List ServedResource) (found : Map Text ServedResource)
    → lookup name (index_resources found resources)
      ≡ or_else (last_named name resources) (lookup name found)
unfolding index_resources
lookup-index_resources name [] found = refl
lookup-index_resources name (r ∷ resources) found = ground (
  arith,
  lookup-index_resources name resources (insert r.name r found),
  lookup-insert r.name r found name,
  ==_iff name r.name,
  ==_iff r.name name,
)

require_verbs_lem :
    (version name : Text) (served verbs : List Text)
    → is_ok (require_verbs version name served verbs) ≡ all (contains served) verbs
unfolding require_verbs
require_verbs_lem version name served [] = refl
require_verbs_lem version name served (verb ∷ verbs) =
    is_ok-guard (contains served verb) _ (require_verbs version name served verbs)
    ∙ ap (λ b. contains served verb && b) (require_verbs_lem version name served verbs)

require_resource_lem :
    (version : Text) (found : Map Text ServedResource) (wanted : RequiredResource)
    → is_ok (require_resource version found wanted) ≡ suits wanted (lookup wanted.name found)
unfolding require_resource
require_resource_lem version found wanted = elim (Option-cases (lookup wanted.name found)) [
  | inl absent ↦ rw (absent, require_resource) refl
  | inr (r, h) ↦
      rw (h, require_resource)
        (let verbs = require_verbs version wanted.name r.verbs wanted.verbs in
          let rest =
            guard (same_scope r.namespaced wanted.namespaced) (wrong_scope version wanted.name)
            >> verbs in
          ground (
            arith,
            is_ok-guard (r.kind == wanted.kind) (wrong_kind version wanted.name) rest,
            is_ok-guard (same_scope r.namespaced wanted.namespaced)
                (wrong_scope version wanted.name) verbs,
            require_verbs_lem version wanted.name r.verbs wanted.verbs,
          ))
]

require_each_lem :
    (version : Text) (found : Map Text ServedResource) (required : List RequiredResource)
    → is_ok (require_each version found required)
      ≡ all (λ wanted. suits wanted (lookup wanted.name found)) required
unfolding require_each
require_each_lem version found [] = refl
require_each_lem version found (wanted ∷ required) =
    is_ok-both (require_resource version found wanted) (require_each version found required)
    ∙ ground
        (arith, require_resource_lem version found wanted, require_each_lem version found required)

or_else-none {ℓ} : {A : Type ℓ} (o : Option A) → or_else o none ≡ o
or_else-none none = refl
or_else-none (some a) = refl

all_congr {ℓ} :
    {A : Type ℓ} (p q : A → Bool) → ((a : A) → p a ≡ q a) → (xs : List A) → all p xs ≡ all q xs
all_congr p q h [] = refl
all_congr p q h (x ∷ xs) = ground (arith, h x, all_congr p q h xs)

suits-indexed :
    (discovery : Discovery) (version : Text) (resources : List ServedResource)
    (wanted : RequiredResource)
    → discovery version ≡ ok resources
    → suits wanted (lookup wanted.name (index_resources [] resources))
      ≡ is_served discovery version wanted
unfolding lookup
suits-indexed discovery version resources wanted h =
    rw (h, is_served)
      (ap (suits wanted) (
        lookup-index_resources wanted.name resources []
        ∙ or_else-none (last_named wanted.name resources)))

require_resources_lem :
    (discovery : Discovery) (version : Text) (wanted : RequiredResource)
    (required : List RequiredResource)
    → is_ok (require_resources discovery version (wanted ∷ required))
      ≡ all (is_served discovery version) (wanted ∷ required)
unfolding require_resources
require_resources_lem discovery version wanted required = elim (Result-cases (discovery version)) [
  | inr (e, h) ↦ rw (h, require_resources) (rw (h, is_served) refl)
  | inl (resources, h) ↦
      rw (h, require_resources)
        (require_each_lem version (index_resources [] resources) (wanted ∷ required)
          ∙ all_congr _ (is_served discovery version)
              (λ w. suits-indexed discovery version resources w h) (wanted ∷ required))
]

abbrev stage :
    Discovery
    → (ResourceError → PrerequisiteError)
    → Text
    → List RequiredResource
    → Result PrerequisiteError (Unit {0})
stage discovery wrap version required =
    or_unavailable wrap (require_resources discovery version required)

stage_lem :
    (wrap : ResourceError → PrerequisiteError) (discovery : Discovery) (version : Text)
    (required : List RequiredResource)
    → is_empty required ≡ false
    → is_ok (stage discovery wrap version required) ≡ all (is_served discovery version) required
stage_lem wrap discovery version [] h = absurd (ground (arith, h))
stage_lem wrap discovery version (wanted ∷ required) h =
    is_ok-or_unavailable wrap (require_resources discovery version (wanted ∷ required))
    ∙ require_resources_lem discovery version wanted required

both_congr : {a b c d : Bool} → a ≡ c → b ≡ d → (a && b) ≡ (c && d)
both_congr {a} {b} {c} {d} h g = ap (λ x. x && b) h ∙ ap (λ x. c && x) g

is_ok-if {ℓ} :
    {E : Type ℓ} (b : Bool) (check : Result E (Unit {0}))
    → is_ok (if b then check else ok tt) ≡ (not b || is_ok check)
is_ok-if true check = refl
is_ok-if false check = refl

-- The check of the prerequisites succeeds exactly if DNSEndpoint is served as required, and, where the
-- Gateway API is enabled, so are its five resources and ReferenceGrant. A resource is served as
-- required if discovery answers for its version and the last resource that it lists under the name has
-- the kind, the scope and all the verbs.
pub check_prerequisites_lem :
    (discovery : Discovery) (gateway_enabled : Bool)
    → is_ok (check_prerequisites discovery gateway_enabled) ≡ (
        all (is_served discovery endpoint_version) required_endpoints
        && (not gateway_enabled
            || (all (is_served discovery gateway_version) required_gateways
                && all (is_served discovery grant_version) required_grants)))
unfolding check_prerequisites
check_prerequisites_lem discovery gateway_enabled =
    let gateways = stage discovery gateways_unavailable gateway_version required_gateways in
    let grants = stage discovery grants_unavailable grant_version required_grants in
    is_ok-both (stage discovery endpoints_unavailable endpoint_version required_endpoints) _
    ∙ both_congr
        (stage_lem endpoints_unavailable discovery endpoint_version required_endpoints refl)
        (is_ok-if gateway_enabled (gateways >> grants)
          ∙ ap (λ b. not gateway_enabled || b)
              (is_ok-both gateways grants
                ∙ both_congr
                    (stage_lem gateways_unavailable discovery gateway_version required_gateways
                      refl)
                    (stage_lem grants_unavailable discovery grant_version required_grants refl)))
