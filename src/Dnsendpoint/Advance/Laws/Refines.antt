-- ===== src/Dnsendpoint/Advance/Laws/Refines.antt =====
-- What `Advance` does to every target, and when it asks to be called again.
use labdns.Base.{
  ℕ, ◌≡◌, refl, sym, subst, ◌∙◌, ◌≤◌, ◌<◌, ◌-◌, Bool, true, false, Option, none, some, List, [],
  ◌∷◌, map, arith, list_eq, nat_eq, pair_eq, pair_ord, text_ord, if◌then◌else◌, ◌==◌, Bool-cases,
  inl, inr, All, find_by, find_by-sort_by, is_empty, Option-cases, lookup, lookup-insert, insert,
}
use labdns.Base.Results.{ok, Result-cases}
use labdns.Platform
use labdns.Platform.{Platform, PendingTarget, Lifecycle}
use labdns.Dnsendpoint.Lifecycle.{
  TargetKey, pending_key, parse_lifecycle, marshal_lifecycle, sort_pending, deadline,
}
use labdns.Dnsendpoint.Lifecycle.Laws.{
  IsCanonical, IsWellFormed, parse_lifecycle-IsWellFormed, parse_lifecycle-marshal_lifecycle,
}
use labdns.Dnsendpoint.Endpoints.{Endpoint, present, normalize_endpoints, endpoint_targets}
use labdns.Dnsendpoint.Endpoints.Laws.{offers, offers-normalize_endpoints, present-map-some}
use labdns.Dnsendpoint.Object.{
  Object, value_at, stored_delay, managed_by_label, managed_by_value, lifecycle_annotation,
}
use labdns.Dnsendpoint.Build.Status.{
  Status, absent, active, retiring, due, pending_items, item_status, status,
}
use labdns.Dnsendpoint.Writer.{Action, nothing, create, delete, update, fail}
use labdns.Dnsendpoint.Advance.{Sweep, sweep, live_records, record_or_delete, decide_advance}
use labdns.Dnsendpoint.Advance.Laws.{
  waiting, sweep-kept, sweep-expired, sweep-next, offers-live_records, due_key-find_by,
  find_by-waiting, waiting-Distinct, waiting-All,
}

-- The specification: only a passed deadline changes anything.
abbrev pub advance_status : ℕ → Status → Status
advance_status now absent = absent
advance_status now active = active
advance_status now (retiring at) = due now at

-- The object that an action leaves behind.
abbrev pub after : Object → Action → Option Object
after current (update o) = some o
after current (create o) = some o
after current (delete o) = none
after current nothing = some current
after current (fail e) = some current

abbrev pub is_fail : Action → Bool
is_fail (fail e) = true
is_fail _ = false

abbrev pub is_managed : Object → Bool
is_managed o = value_at managed_by_label o.labels == managed_by_value

-- The parts of a run that does not fail.
abbrev Advanced : Platform → ℕ → Object → ℕ → Action → ℕ → Lifecycle → Sweep → Type 0
Advanced p now current next a next' state s =
    let records = normalize_endpoints current.endpoints in
    (parse_lifecycle p (value_at lifecycle_annotation current.annotations) ≡ ok state)
    × (sweep p now (endpoint_targets records) (record { kept = []; expired = []; next = next })
          state.pending
        ≡ ok s)
    × (a ≡ (
        if is_empty s.expired
        then nothing
        else record_or_delete p current state s (live_records s.expired records)))
    × (next' ≡ s.next)

decide_advance-parts :
    (p : Platform) (now : ℕ) (current : Object) (next : ℕ) (a : Action) (next' : ℕ)
    → is_managed current ≡ true
    → decide_advance p now current next ≡ (a, next')
    → is_fail a ≡ false
    → (state : Lifecycle) × (s : Sweep) × Advanced p now current next a next' state s
unfolding decide_advance
decide_advance-parts p now current next a next' m h f =
    elim (Result-cases (stored_delay p current)) [
      | inr (_, e) ↦ absurd (ground arith)
      | inl (delay, e) ↦
          elim (Result-cases
            (parse_lifecycle p (value_at lifecycle_annotation current.annotations))) [
              | inr (_, g) ↦ absurd (ground arith)
              | inl (state, g) ↦
                  elim (Result-cases (
                    sweep p now (endpoint_targets (normalize_endpoints current.endpoints))
                      (record { kept = []; expired = []; next = next }) state.pending)) [
                        | inr (_, k) ↦ absurd (ground arith)
                        | inl (s, k) ↦ (state, s, (g, k, ground arith, ground arith))
                      ]
            ]
    ]

items_written :
    (p : Platform) (o : Object) (state : Lifecycle)
    → Platform.Laws p
    → IsWellFormed p state.pending
    → lookup lifecycle_annotation o.annotations ≡ some (marshal_lifecycle p state)
    → pending_items p o ≡ sort_pending state.pending
items_written p o state laws w h =
    ground (arith, h, parse_lifecycle-marshal_lifecycle p state laws w)

status_with_items :
    (p : Platform) (o : Object) (items : List PendingTarget) (k : TargetKey)
    → pending_items p o ≡ items
    → status p (some o) k ≡ (
        if offers (present o.endpoints) k
        then item_status p (find_by pending_key k items)
        else absent)
status_with_items p o items k h = ground (arith, h)

status_of_update :
    (p : Platform) (current : Object) (state : Lifecycle) (s : Sweep) (rs : List Endpoint)
    (k : TargetKey)
    → Platform.Laws p
    → IsWellFormed p s.kept
    → status p (after current (record_or_delete p current state s rs)) k
      ≡ (if offers rs k then item_status p (find_by pending_key k s.kept) else absent)
unfolding sort_pending
status_of_update p current state s [] k laws w = refl
status_of_update p current state s (r ∷ rs) k laws w =
    let kept_state : Lifecycle = record state { pending = s.kept } in
    let text = marshal_lifecycle p kept_state in
    let written : Object = record current {
      endpoints = map some (r ∷ rs);
      annotations = insert lifecycle_annotation text current.annotations;
    } in
    let items =
      items_written p written kept_state laws w
        (lookup-insert lifecycle_annotation text current.annotations lifecycle_annotation) in
    status_with_items p written (sort_pending s.kept) k items
    ∙ ground (arith, present-map-some (r ∷ rs), find_by-sort_by pending_key k s.kept w.distinct)

module _ (p : Platform) (laws : Platform.Laws p) (now : ℕ) (current : Object) (next : ℕ)
    (a : Action) (next' : ℕ) (state : Lifecycle) (s : Sweep)
    (b : Advanced p now current next a next' state s) where
  wellformed : IsWellFormed p state.pending
  wellformed = (parse_lifecycle-IsWellFormed p _ state b.0).1

  kept_items : s.kept ≡ waiting p now state.pending
  kept_items = sweep-kept p now _ _ s state.pending b.1

  kept-IsWellFormed : IsWellFormed p s.kept
  kept-IsWellFormed = subst (IsWellFormed p) (sym kept_items) (record {
    canonical = waiting-All p now (IsCanonical p) state.pending wellformed.canonical;
    distinct = waiting-Distinct p now state.pending wellformed.distinct;
  })

  advances :
      (k : TargetKey)
      → status p (after current a) k ≡ advance_status now (status p (some current) k)
  advances k = elim (Bool-cases (is_empty s.expired)) [
    | inl still ↦ ground (
      arith,
      b.2,
      still,
      b.0,
      sweep-expired p now _ _ s state.pending k b.1,
      due_key-find_by p now state.pending k wellformed.distinct,
      Option-cases (find_by pending_key k state.pending),
    )
    | inr moved ↦ ground (
      arith,
      b.2,
      moved,
      b.0,
      status_of_update p current state s
          (live_records s.expired (normalize_endpoints current.endpoints)) k laws kept-IsWellFormed,
      offers-live_records s.expired (normalize_endpoints current.endpoints) k,
      offers-normalize_endpoints current.endpoints k,
      sweep-expired p now _ _ s state.pending k b.1,
      due_key-find_by p now state.pending k wellformed.distinct,
      kept_items,
      find_by-waiting p now state.pending k wellformed.distinct,
      Option-cases (find_by pending_key k state.pending),
    )
  ]

-- What `Advance` leaves of a managed object, if it does not fail, follows the specification for
-- every target: an active target stays active, a pending one keeps its deadline until it has
-- passed and is then gone, also where the whole object is deleted.
pub status-decide_advance :
    (p : Platform) (now : ℕ) (current : Object) (next : ℕ) (a : Action) (next' : ℕ) (k : TargetKey)
    → Platform.Laws p
    → is_managed current ≡ true
    → decide_advance p now current next ≡ (a, next')
    → is_fail a ≡ false
    → status p (after current a) k ≡ advance_status now (status p (some current) k)
status-decide_advance p now current next a next' k laws m h f =
    let (state, s, b) = decide_advance-parts p now current next a next' m h f in
    advances p laws now current next a next' state s b k

-- Where `Advance` handles a managed object without an error, the wait that is asked for is positive and
-- no longer than the time to the deadline of any pending target that stays.
pub decide_advance-wakes :
    (p : Platform) (now : ℕ) (current : Object) (next : ℕ) (a : Action) (next' : ℕ)
    → is_managed current ≡ true
    → decide_advance p now current next ≡ (a, next')
    → is_fail a ≡ false
    → All
        (λ item. (0 < next') × (next' ≤ deadline p item - now))
        (waiting p now (pending_items p current))
decide_advance-wakes p now current next a next' m h f =
    let (state, s, b) = decide_advance-parts p now current next a next' m h f in
    let items : pending_items p current ≡ state.pending = ground (arith, b.0) in
    subst
      (λ n.
        All (λ item. (0 < n) × (n ≤ deadline p item - now))
          (waiting p now (pending_items p current)))
      (sym b.3)
      (subst (λ l. All (λ item. (0 < s.next) × (s.next ≤ deadline p item - now)) (waiting p now l))
        (sym items) (sweep-next p now _ _ s state.pending b.1))
