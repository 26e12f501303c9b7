-- ===== src/Controller/Metrics.antt =====
-- internal/controller/metrics.go: the gauges. The counters and the histogram are only observed.
use labdns.Base.{
  ℕ, ◌+◌, ◌≡◌, refl, Bool, true, false, Option, none, some, List, [], ◌∷◌, Text, Map, lookup,
  insert, delete, length, arith, if◌then◌else◌, ◌==◌, list_eq, nat_eq, get_or, contains, set_insert,
  keep, not, IsMap, insert-IsMap, delete-IsMap, lookup-insert, lookup-delete, contains-set_insert,
  contains-keep, list_beq_iff,
}

pub record Metrics : Type 0 where
  pub sources : Map Text (List Text)
  pub endpoints : Map Text ℕ
  -- The gauges, one for each kind of source.
  pub source : Map Text ℕ
  pub generated : ℕ
  pub pending : ℕ

unfoldable pub new_metrics : Metrics
new_metrics = record { sources = []; endpoints = []; source = []; generated = 0; pending = 0 }

unfoldable pub set_source : Text → Text → Bool → Metrics → Metrics
set_source kind key managed m =
    let old = get_or (lookup kind m.sources) [] in
    let set = if managed then set_insert key old else keep (λ k. not (k == key)) old in
    record m { sources = insert kind set m.sources; source = insert kind (length set) m.source }

unfoldable pub total : Map Text ℕ → ℕ
total [] = 0
total ((key, count) ∷ endpoints) = count + total endpoints

unfoldable pub set_endpoint : Text → Bool → ℕ → Metrics → Metrics
unfolding total
set_endpoint key managed pending m =
    let endpoints = if managed then insert key pending m.endpoints else delete key m.endpoints in
    record m { endpoints = endpoints; generated = length endpoints; pending = total endpoints }

-- What has been reported to the metrics.
pub data Event : Type 0 where
  source_seen : Text → Text → Bool → Event
  endpoint_seen : Text → Bool → ℕ → Event

unfoldable pub observe : Metrics → Event → Metrics
unfolding set_source set_endpoint
observe m (source_seen kind key managed) = set_source kind key managed m
observe m (endpoint_seen key managed pending) = set_endpoint key managed pending m

unfoldable pub observe_all : Metrics → List Event → Metrics
unfolding observe
observe_all m [] = m
observe_all m (event ∷ events) = observe_all (observe m event) events

-- The last thing that was reported of an endpoint, and of a source.
unfoldable pub last_endpoint : Text → Option ℕ → List Event → Option ℕ
last_endpoint key known [] = known
last_endpoint key known (source_seen _ _ _ ∷ events) = last_endpoint key known events
last_endpoint key known (endpoint_seen k managed pending ∷ events) =
    last_endpoint key (if key == k then (if managed then some pending else none) else known) events

unfoldable pub last_source : Text → Text → Bool → List Event → Bool
last_source kind key known [] = known
last_source kind key known (endpoint_seen _ _ _ ∷ events) = last_source kind key known events
last_source kind key known (source_seen j k managed ∷ events) =
    last_source kind key (if (kind == j) then (if key == k then managed else known) else known)
      events

-- The gauges are the sizes of the maps, each endpoint once.
abbrev pub IsConsistent : Metrics → Type 0
IsConsistent m =
    IsMap m.endpoints
    × (m.generated ≡ length m.endpoints)
    × (m.pending ≡ total m.endpoints)
    × ((kind : Text) → get_or (lookup kind m.source) 0 ≡ length (get_or (lookup kind m.sources) []))

observe-IsConsistent :
    (m : Metrics) (event : Event) → IsConsistent m → IsConsistent (observe m event)
unfolding observe set_source set_endpoint
observe-IsConsistent m (source_seen kind key managed) (one, g, p, s) = (
  one,
  g,
  p,
  λ j. ground (
    arith,
    s j,
    lookup-insert kind
        (if managed
          then set_insert key (get_or (lookup kind m.sources) [])
          else keep (λ k. not (k == key)) (get_or (lookup kind m.sources) []))
        m.sources j,
    lookup-insert kind
        (length (
          if managed
          then set_insert key (get_or (lookup kind m.sources) [])
          else keep (λ k. not (k == key)) (get_or (lookup kind m.sources) [])))
        m.source j,
  ),
)
observe-IsConsistent m (endpoint_seen key true pending) (one, g, p, s) =
    (insert-IsMap key pending m.endpoints one, refl, refl, s)
observe-IsConsistent m (endpoint_seen key false pending) (one, g, p, s) =
    (delete-IsMap key m.endpoints one, refl, refl, s)

observe_all_from :
    (m : Metrics) (events : List Event) → IsConsistent m → IsConsistent (observe_all m events)
unfolding observe_all
observe_all_from m [] h = h
observe_all_from m (event ∷ events) h =
    observe_all_from (observe m event) events (observe-IsConsistent m event h)

lookup-observe_all :
    (m : Metrics) (events : List Event) (key : Text)
    → lookup key (observe_all m events).endpoints
      ≡ last_endpoint key (lookup key m.endpoints) events
unfolding observe_all observe set_source set_endpoint last_endpoint
lookup-observe_all m [] key = refl
lookup-observe_all m (source_seen kind k managed ∷ events) key =
    lookup-observe_all (set_source kind k managed m) events key
lookup-observe_all m (endpoint_seen k true pending ∷ events) key = ground (
  arith,
  lookup-observe_all (set_endpoint k true pending m) events key,
  lookup-insert k pending m.endpoints key,
)
lookup-observe_all m (endpoint_seen k false pending ∷ events) key = ground (
  arith,
  lookup-observe_all (set_endpoint k false pending m) events key,
  lookup-delete k m.endpoints key,
)

contains-observe_all :
    (m : Metrics) (events : List Event) (kind key : Text)
    → contains (get_or (lookup kind (observe_all m events).sources) []) key
      ≡ last_source kind key (contains (get_or (lookup kind m.sources) []) key) events
unfolding observe_all observe set_source set_endpoint last_source
contains-observe_all m [] kind key = refl
contains-observe_all m (endpoint_seen k managed pending ∷ events) kind key =
    contains-observe_all (set_endpoint k managed pending m) events kind key
contains-observe_all m (source_seen j k true ∷ events) kind key = ground (
  arith,
  contains-observe_all (set_source j k true m) events kind key,
  lookup-insert j (set_insert k (get_or (lookup j m.sources) [])) m.sources kind,
  list_beq_iff kind j,
  contains-set_insert k (get_or (lookup j m.sources) []) key,
)
contains-observe_all m (source_seen j k false ∷ events) kind key = ground (
  arith,
  contains-observe_all (set_source j k false m) events kind key,
  lookup-insert j (keep (λ i. not (i == k)) (get_or (lookup j m.sources) [])) m.sources kind,
  list_beq_iff kind j,
  contains-keep (λ i. not (i == k)) (get_or (lookup j m.sources) []) key,
)

-- After any events the gauges are the sizes of the maps, each endpoint is counted once with what was
-- reported of it last, and a source is in the set of its kind if it was reported as managed last.
pub observe_all_lem :
    (events : List Event)
    → IsConsistent (observe_all new_metrics events)
      × ((key : Text)
          → lookup key (observe_all new_metrics events).endpoints ≡ last_endpoint key none events)
      × ((kind key : Text)
          → contains (get_or (lookup kind (observe_all new_metrics events).sources) []) key
            ≡ last_source kind key false events)
unfolding new_metrics lookup total
observe_all_lem events = (
  observe_all_from new_metrics events (tt, refl, refl, λ kind. refl),
  lookup-observe_all new_metrics events,
  contains-observe_all new_metrics events,
)
