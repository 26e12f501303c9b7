-- ===== src/Dnsendpoint/Build/Refines/Stored.antt =====
-- The parts of an object that `build` wrote, as the next `build` reads them.
use labdns.Base.{
  ℕ, ◌≡◌, refl, ◌∙◌, Bool, true, false, Option, none, some, List, [], ◌∷◌, Map, Text, ℤ, arith,
  list_eq, nat_eq, pair_eq, pair_ord, text_ord, contains, lookup, insert, is_some, is_empty,
  is_negative, if◌then◌else◌, Bool-cases, inl, inr, All, lookup-insert, lookup-insert_ne, retain,
  sort_by,
}
use labdns.Base.Results.{ok, Result-cases}
use labdns.Source.Types.{Identity, Publication}
use labdns.Platform
use labdns.Platform.{Platform, PendingTarget, Lifecycle}
use labdns.Dnsendpoint.Lifecycle.{TargetKey, pending_key, parse_lifecycle}
use labdns.Dnsendpoint.Endpoints.{Endpoint, normalize_records, endpoint_targets, combine_records}
use labdns.Dnsendpoint.Object.{
  Object, lifecycle_annotation, deletion_delay_annotation, value_at, stored_delay,
  source_kind_annotation, source_namespace_annotation, source_name_annotation,
  source_uid_annotation,
}
use labdns.Dnsendpoint.Build.{
  Pending, load_pending, load_state, settle, build, current_records, assemble, unless_empty,
  lifecycle_of, identity_annotations, uid_annotation, start_from,
}
use labdns.Dnsendpoint.Build.Refines.Parts.{Built, load_state-eq-ok}

pub load_pending_ok :
    (current : List TargetKey) (m : Pending) (items : List PendingTarget)
    → All (λ item. contains current (pending_key item) ≡ true) items
    → (loaded : Pending) × (load_pending current m items ≡ ok loaded)
unfolding load_pending
load_pending_ok current m [] h = (m, refl)
load_pending_ok current m (item ∷ items) h =
    let (loaded, e) = load_pending_ok current (insert (pending_key item) item m) items h.1 in
    (loaded, rw h.0 e)

abbrev d : Text
d = deletion_delay_annotation

uid_annotation-delay :
    (p : Platform) (identity : Identity) (m : Map Text Text)
    → lookup d (uid_annotation p identity m) ≡ lookup d m
uid_annotation-delay p identity m = elim (Bool-cases (is_empty identity.uid)) [
  | inl e ↦ rw e
  | inr e ↦ rw e (lookup-insert_ne source_uid_annotation identity.uid m d refl)
]

identity_annotations-delay :
    (p : Platform) (identity : Identity) (m : Map Text Text)
    → lookup d (identity_annotations p identity m) ≡ lookup d m
identity_annotations-delay p identity m =
    uid_annotation-delay p identity _
    ∙ lookup-insert_ne source_name_annotation identity.name _ d refl
    ∙ lookup-insert_ne source_namespace_annotation identity.namespace _ d refl
    ∙ lookup-insert_ne source_kind_annotation identity.kind m d refl

-- The delay that an assembled object stores.
pub delay-assemble :
    (p : Platform) (identity : Identity) (provider : Text) (publication : Publication)
    (current : Option Object) (publishes : Bool) (m : Pending) (combined : List Endpoint)
    → lookup d (assemble p identity provider publication current publishes m combined).annotations
      ≡ (if publishes
          then some (p.format_duration publication.deletion_delay)
          else lookup d (start_from p identity provider current).annotations)
unfolding assemble
delay-assemble p identity provider publication current true m combined =
    lookup-insert_ne lifecycle_annotation (lifecycle_of p m) _ d refl
    ∙ lookup-insert d (p.format_duration publication.deletion_delay) _ d
delay-assemble p identity provider publication current false m combined =
    lookup-insert_ne lifecycle_annotation (lifecycle_of p m) _ d refl
    ∙ identity_annotations-delay p identity (start_from p identity provider current).annotations

stored_delay_congr :
    (p : Platform) (a b : Object)
    → lookup d a.annotations ≡ lookup d b.annotations
    → stored_delay p a ≡ stored_delay p b
unfolding stored_delay
stored_delay_congr p a b h = rw (h, stored_delay)

pub stored_delay_formatted :
    (p : Platform) (o : Object) (delay : ℤ)
    → Platform.Laws p
    → is_negative delay ≡ false
    → lookup d o.annotations ≡ some (p.format_duration delay)
    → stored_delay p o ≡ ok delay
unfolding stored_delay
stored_delay_formatted p o delay laws h e =
    ground (arith, laws.parse-format_duration delay, laws.format_duration-nonempty delay)

pub unless_empty-eq-some :
    (combined : List Endpoint) (w o : Object) → unless_empty combined w ≡ some o → o ≡ w
unless_empty-eq-some [] w o h = absurd (ground arith)
unless_empty-eq-some (r ∷ rs) w o h = ground arith

-- With nothing stored and nothing desired there is nothing to write.
nothing_combined :
    (now : ℕ) (delay : ℤ) (p : Platform) (desired : List Endpoint) (items : List PendingTarget)
    (loaded : Pending)
    → is_empty desired ≡ true
    → items ≡ []
    → load_pending (endpoint_targets (current_records p none)) [] items ≡ ok loaded
    → combine_records desired (current_records p none) (
        settle p now delay
          (endpoint_targets desired)
          (endpoint_targets (current_records p none))
          loaded)
      ≡ []
unfolding load_pending settle endpoint_targets current_records combine_records retain sort_by
nothing_combined now delay p (r ∷ rs) items loaded e f h = absurd (ground arith)
nothing_combined now delay p [] (item ∷ items) loaded e f h = absurd (ground arith)
nothing_combined now delay p [] [] loaded e f h =
    let empty : loaded ≡ [] = ground arith in rw empty refl

load_state-stored :
    (p : Platform) (publication : Publication) (o : Object) (items : List PendingTarget) (delay : ℤ)
    → load_state p publication (some o) ≡ ok (items, delay)
    → stored_delay p o ≡ ok delay
unfolding load_state
load_state-stored p publication o items delay h = ground (
  arith,
  Result-cases (parse_lifecycle p (value_at lifecycle_annotation o.annotations)),
  Result-cases (stored_delay p o),
)

pub build_of_parts :
    (p : Platform) (identity : Identity) (provider : Text) (publication : Publication)
    (current : Option Object) (now : ℕ) (items : List PendingTarget) (delay : ℤ) (loaded : Pending)
    → load_state p publication current ≡ ok (items, delay)
    → load_pending (endpoint_targets (current_records p current)) [] items ≡ ok loaded
    → (r : Option Object) × (build p identity provider publication current now ≡ ok r)
unfolding build
build_of_parts p identity provider publication current now items delay loaded e f =
    elim (Result-cases (build p identity provider publication current now)) [
      | inl found ↦ found
      | inr (x, failed) ↦ absurd (ground arith)
    ]

pub load_state_of_parts :
    (p : Platform) (publication : Publication) (o : Object) (state : Lifecycle) (delay : ℤ)
    → parse_lifecycle p (value_at lifecycle_annotation o.annotations) ≡ ok state
    → stored_delay p o ≡ ok delay
    → load_state p publication (some o) ≡ ok (state.pending, delay)
unfolding load_state
load_state_of_parts p publication o state delay e f = rw (e, f)

pub keeps_delay :
    (p : Platform) (identity : Identity) (provider : Text) (publication : Publication)
    (current : Option Object) (m : Pending) (combined : List Endpoint) (items : List PendingTarget)
    (delay : ℤ)
    → load_state p publication current ≡ ok (items, delay)
    → is_some current ≡ true
    → (dl : ℤ) × (stored_delay p (assemble p identity provider publication current false m combined)
        ≡ ok dl)
keeps_delay p identity provider publication none m combined items delay e h = absurd (ground arith)
keeps_delay p identity provider publication (some o) m combined items delay e h = (
  delay,
  stored_delay_congr p _ o
        (delay-assemble p identity provider publication (some o) false m combined)
      ∙ load_state-stored p publication o items delay e,
)

pub has_current :
    (p : Platform) (identity : Identity) (provider : Text) (publication : Publication)
    (current : Option Object) (now : ℕ) (o : Object) (items : List PendingTarget) (delay : ℤ)
    (loaded : Pending)
    → is_empty (normalize_records publication.records) ≡ true
    → Built p identity provider publication current now (some o) items delay loaded
    → is_some current ≡ true
has_current p identity provider publication (some _) now o items delay loaded e b = refl
has_current p identity provider publication none now o items delay loaded e b =
    let (same, _, _, _) = load_state-eq-ok p publication none items delay b.0 in
    let empty =
      nothing_combined now delay p (normalize_records publication.records) items loaded e same
        b.1 in
    absurd (ground (arith, b.2))
