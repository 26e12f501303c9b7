-- ===== src/Dnsendpoint/Build/Refines/Parts.antt =====
-- The parts of `build`: what it reads from the current object, and the status of a target there.
use labdns.Base.{
  ℕ, ◌≡◌, refl, sym, ap, subst, ◌∙◌, Bool, true, not, Option, none, some, List, [], ◌∷◌, map, Text,
  ℤ, pos, arith, list_eq, nat_eq, pair_eq, pair_ord, text_ord, contains, Distinct, lookup, IsMap,
  is_empty, if◌then◌else◌, ==_iff, ==_refl, ◌==◌, Bool-cases, inl, inr, All, find_by,
  find_by-sort_by, NoByte, values, keys, lookup-insert,
}
use labdns.Base.Results.{ok, >>=-eq-ok, Result-cases}
use labdns.Source.Types.{Identity, Publication}
use labdns.Platform
use labdns.Platform.{Platform, PendingTarget, Lifecycle}
use labdns.Dnsendpoint.Lifecycle.{
  TargetKey, pending_key, parse_lifecycle, sort_pending, lifecycle_version,
}
use labdns.Dnsendpoint.Lifecycle.Laws.{
  IsCanonical, IsWellFormed, parse_lifecycle-IsWellFormed, parse_lifecycle-marshal_lifecycle,
}
use labdns.Dnsendpoint.Endpoints.{
  Endpoint, present, normalize_records, endpoint_targets, combine_records,
}
use labdns.Dnsendpoint.Endpoints.Laws.{
  offers, contains-endpoint_targets, offers-normalize_endpoints, present-map-some,
}
use labdns.Dnsendpoint.Endpoints.Laws.Normalize.{HasPlainName, normalize_endpoints-plain}
use labdns.Dnsendpoint.Object.{Object, lifecycle_annotation, value_at, stored_delay}
use labdns.Dnsendpoint.Build.{
  Pending, load_pending, load_state, settle, build, current_records, assemble, unless_empty,
  lifecycle_of, delay_annotation, identity_annotations, publish_annotations, start_from,
}
use labdns.Dnsendpoint.Build.Status.{absent, items_of, item_status, status, delay_of}
use labdns.Dnsendpoint.Build.Targets.{HasNames, IsNamed, offers-IsNamed}

-- A pending map whose entries are canonical and stand under their own keys.
abbrev pub IsPendingMap : Platform → Pending → Type 0
IsPendingMap p m = All (λ e. IsCanonical p e.1 × (e.0 ≡ pending_key e.1)) m

values-keys : (p : Platform) (m : Pending) → IsPendingMap p m → map pending_key (values m) ≡ keys m
values-keys p [] h = refl
values-keys p ((k, v) ∷ m) h = ground (arith, values-keys p m h.1, h.0.1)

values-canonical : (p : Platform) (m : Pending) → IsPendingMap p m → All (IsCanonical p) (values m)
values-canonical p [] h = tt
values-canonical p ((k, v) ∷ m) h = (h.0.0, values-canonical p m h.1)

find_by-values :
    (p : Platform) (m : Pending) (k : TargetKey)
    → IsPendingMap p m
    → find_by pending_key k (values m) ≡ lookup k m
unfolding lookup
find_by-values p [] k h = refl
find_by-values p ((j, v) ∷ m) k h = ground (arith, find_by-values p m k h.1, h.0.1)

pub values-IsWellFormed :
    (p : Platform) (m : Pending) → IsPendingMap p m → IsMap m → IsWellFormed p (values m)
values-IsWellFormed p m h d = record {
  canonical = values-canonical p m h;
  distinct = subst Distinct (sym (values-keys p m h)) d;
}

-- What is written as the lifecycle of a pending map reads back as that map.
pub reads_back :
    (p : Platform) (m : Pending) (k : TargetKey)
    → Platform.Laws p
    → IsPendingMap p m
    → IsMap m
    → find_by pending_key k (items_of (parse_lifecycle p (lifecycle_of p m))) ≡ lookup k m
unfolding sort_pending
reads_back p m k laws h d =
    let w = values-IsWellFormed p m h d in
    let written : Lifecycle = record { version = pos lifecycle_version; pending = values m } in
    ap (λ r. find_by pending_key k (items_of r))
      (parse_lifecycle-marshal_lifecycle p written laws w)
    ∙ find_by-sort_by pending_key k (values m) w.distinct
    ∙ find_by-values p m k h

pub lifecycle-assemble :
    (p : Platform) (identity : Identity) (provider : Text) (publication : Publication)
    (current : Option Object) (publishes : Bool) (m : Pending) (combined : List Endpoint)
    → value_at lifecycle_annotation
        (assemble p identity provider publication current publishes m combined).annotations
      ≡ lifecycle_of p m
unfolding assemble
lifecycle-assemble p identity provider publication current publishes m combined = ground (
  arith,
  lookup-insert lifecycle_annotation (lifecycle_of p m)
      (delay_annotation p publishes publication (
        identity_annotations p identity (
          publish_annotations p publishes publication
            (start_from p identity provider current).annotations)))
      lifecycle_annotation,
  ==_refl lifecycle_annotation,
)

-- The parts of a successful run.
abbrev pub Built :
    Platform
    → Identity
    → Text
    → Publication
    → Option Object
    → ℕ
    → Option Object
    → List PendingTarget
    → ℤ
    → Pending
    → Type 0
Built p identity provider publication current now r items delay loaded =
    let desired = normalize_records publication.records in
    let records = current_records p current in
    let active = endpoint_targets desired in
    let seen = endpoint_targets records in
    let pending = settle p now delay active seen loaded in
    let combined = combine_records desired records pending in
    (load_state p publication current ≡ ok (items, delay))
    × (load_pending seen [] items ≡ ok loaded)
    × (r
        ≡ unless_empty combined (
            assemble p identity provider publication current (not (is_empty desired)) pending
              combined))

pub build-eq-ok :
    (p : Platform) (identity : Identity) (provider : Text) (publication : Publication)
    (current : Option Object) (now : ℕ) (r : Option Object)
    → build p identity provider publication current now ≡ ok r
    → (items : List PendingTarget) × (delay : ℤ) × (loaded : Pending) × Built p identity provider
        publication current now r items delay loaded
unfolding build
build-eq-ok p identity provider publication current now r h =
    let ((items, delay), loads, rest) = >>=-eq-ok (load_state p publication current) _ h in
    let (loaded, reads, done) =
      >>=-eq-ok (load_pending (endpoint_targets (current_records p current)) [] items) _ rest in
    (items, delay, loaded, (loads, reads, ground arith))

-- The items and the delay that a run starts from.
abbrev pub items_in : Platform → Option Object → List PendingTarget
items_in p none = []
items_in p (some o) = items_of (parse_lifecycle p (value_at lifecycle_annotation o.annotations))

pub load_state-eq-ok :
    (p : Platform) (publication : Publication) (current : Option Object)
    (items : List PendingTarget) (delay : ℤ)
    → load_state p publication current ≡ ok (items, delay)
    → (items ≡ items_in p current)
      × (delay ≡ delay_of p publication current)
      × All (IsCanonical p) items
      × Distinct (map pending_key items)
unfolding load_state
load_state-eq-ok p publication none items delay h =
    let same : items ≡ [] = ground arith in
    (
      same,
      ground arith,
      subst (All (IsCanonical p)) (sym same) tt,
      subst (λ l. Distinct (map pending_key l)) (sym same) tt,
    )
load_state-eq-ok p publication (some o) items delay h =
    elim (Result-cases (parse_lifecycle p (value_at lifecycle_annotation o.annotations))) [
      | inl (state, e) ↦
          let (_, w, _) = parse_lifecycle-IsWellFormed p _ state e in
          let same : items ≡ state.pending = ground (arith, Result-cases (stored_delay p o)) in
          (
            ground arith,
            ground (arith, Result-cases (stored_delay p o)),
            subst (All (IsCanonical p)) (sym same) w.canonical,
            subst (λ l. Distinct (map pending_key l)) (sym same) w.distinct,
          )
      | inr (_, e) ↦ absurd (ground arith)
    ]

-- The records of the current object have names, and no name holds a NUL byte.
abbrev pub IsReadable : Option Object → Type 0
IsReadable none = Unit
IsReadable (some o) = All HasNames (present o.endpoints) × All HasPlainName (present o.endpoints)

abbrev present_of : Option Object → List Endpoint
present_of none = []
present_of (some o) = present o.endpoints

pub offers-current_records :
    (p : Platform) (current : Option Object) (k : TargetKey)
    → offers (current_records p current) k ≡ offers (present_of current) k
unfolding current_records
offers-current_records p none k = refl
offers-current_records p (some o) k = offers-normalize_endpoints o.endpoints k

pub current-IsNamed :
    (p : Platform) (current : Option Object) (k : TargetKey)
    → IsReadable current
    → contains (endpoint_targets (current_records p current)) k ≡ true
    → IsNamed k
current-IsNamed p none k h c = absurd (
    ground (
      arith,
      contains-endpoint_targets (current_records p none) k,
      offers-current_records p none k,
    ))
current-IsNamed p (some o) k h c = offers-IsNamed (present o.endpoints) k h.0 (
    ground (
      arith,
      contains-endpoint_targets (current_records p (some o)) k,
      offers-current_records p (some o) k,
    ))

pub current_records-plain :
    (p : Platform) (current : Option Object)
    → IsReadable current
    → All HasPlainName (current_records p current)
unfolding current_records
current_records-plain p none h = tt
current_records-plain p (some o) h = normalize_endpoints-plain o.endpoints h.1

pub offers-plain :
    (rs : List Endpoint) (k : TargetKey) → All HasPlainName rs → offers rs k ≡ true → NoByte 0 k.0
offers-plain [] k n h = absurd (ground arith)
offers-plain (r ∷ rs) k n h = elim (Bool-cases (r.dns_name == k.0)) [
  | inl e ↦ subst (NoByte 0) ((==_iff r.dns_name k.0).0 e) n.0
  | inr e ↦ offers-plain rs k n.1 (ground arith)
]

pub status_before :
    (p : Platform) (current : Option Object) (k : TargetKey)
    → status p current k ≡ (
        if contains (endpoint_targets (current_records p current)) k
        then item_status p (find_by pending_key k (items_in p current))
        else absent)
status_before p none k =
    ground
      (arith, contains-endpoint_targets (current_records p none) k, offers-current_records p none k)
status_before p (some o) k = ground (
  arith,
  contains-endpoint_targets (current_records p (some o)) k,
  offers-current_records p (some o) k,
)

pub status_after :
    (p : Platform) (combined : List Endpoint) (o : Object) (m : Pending) (k : TargetKey)
    → o.endpoints ≡ map some combined
    → find_by pending_key k (items_in p (some o)) ≡ lookup k m
    → status p (unless_empty combined o) k
      ≡ (if offers combined k then item_status p (lookup k m) else absent)
status_after p [] o m k h e = refl
status_after p (r ∷ rs) o m k h e = ground (arith, present-map-some (r ∷ rs), ap present h)
