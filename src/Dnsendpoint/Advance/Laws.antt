-- ===== src/Dnsendpoint/Advance/Laws.antt =====
-- The loop of `Advance` over the pending targets.
pub mod Refines
use labdns.Base.{
  ℕ, ◌≡◌, refl, sym, ap, subst, ◌∙◌, ◌≤◌, ◌<◌, ◌-◌, ◌+◌, min, Bool, true, false, ◌||◌, ◌&&◌, not,
  Option, none, some, List, [], ◌∷◌, ◌++◌, map, Map, Text, ℤ, pos, arith, list_eq, nat_eq, pair_eq,
  pair_ord, text_ord, contains, contains-append, append_assoc, append-nil, keep, if◌then◌else◌,
  ==_iff, ==_refl, ◌==◌, Bool-cases, inl, inr, All, find_by, find_by_of_absent, is_empty, leb, ltb,
  Distinct,
}
use labdns.Base.Results.{Result, ok, err}
use labdns.Platform.{Platform, PendingTarget, Lifecycle}
use labdns.Dnsendpoint.Lifecycle.{TargetKey, pending_key, deadline}
use labdns.Dnsendpoint.Endpoints.{Endpoint, has_targets}
use labdns.Dnsendpoint.Endpoints.Laws.{offers, offers_one}
use labdns.Dnsendpoint.Object.{InvalidState}
use labdns.Dnsendpoint.Advance.{
  Sweep, max_duration, sooner, sweep_one, sweep, live_targets, live_records,
}

module _ (p : Platform) (now : ℕ) where
  abbrev pub is_due : PendingTarget → Bool
  is_due item = leb (deadline p item) now

  abbrev pub waiting : List PendingTarget → List PendingTarget
  waiting items = keep (λ item. not (is_due item)) items

  pub sweep-kept :
      (current : List TargetKey) (s r : Sweep) (items : List PendingTarget)
      → sweep p now current s items ≡ ok r
      → r.kept ≡ s.kept ++ waiting items
  unfolding sweep
  sweep-kept current s r [] h = ground (arith, append-nil s.kept)
  sweep-kept current s r (item ∷ items) h = ground (
    arith,
    sweep-kept current (sweep_one p now s item) r items (ground arith),
    append_assoc s.kept (item ∷ []) (waiting items),
  )

  -- Whether some target with this key is due.
  abbrev pub due_key : List PendingTarget → TargetKey → Bool
  due_key [] k = false
  due_key (item ∷ items) k = (is_due item && (k == pending_key item)) || due_key items k

  pub sweep-expired :
      (current : List TargetKey) (s r : Sweep) (items : List PendingTarget) (k : TargetKey)
      → sweep p now current s items ≡ ok r
      → contains r.expired k ≡ (due_key items k || contains s.expired k)
  unfolding sweep
  sweep-expired current s r [] k h = ground arith
  sweep-expired current s r (item ∷ items) k h =
      ground (arith, sweep-expired current (sweep_one p now s item) r items k (ground arith))

  sweep-next_le :
      (current : List TargetKey) (s r : Sweep) (items : List PendingTarget)
      → sweep p now current s items ≡ ok r
      → 0 < s.next
      → (0 < r.next) × (r.next ≤ s.next)
  unfolding sweep
  sweep-next_le current s r [] h n = ground arith
  sweep-next_le current s r (item ∷ items) h n =
      ground (arith, sweep-next_le current (sweep_one p now s item) r items (ground arith))

  -- The wait reaches no further than the deadline of any target that stays, and no further than the
  -- wait that was set before, if one was.
  pub sweep-next :
      (current : List TargetKey) (s r : Sweep) (items : List PendingTarget)
      → sweep p now current s items ≡ ok r
      → All (λ item. (0 < r.next) × (r.next ≤ deadline p item - now)) (waiting items)
  unfolding sweep
  sweep-next current s r [] h = tt
  sweep-next current s r (item ∷ items) h =
      let more = sweep-next current (sweep_one p now s item) r items (ground arith) in
      ground (arith, more, sweep-next_le current (sweep_one p now s item) r items (ground arith))

contains-keep-not :
    (expired : List TargetKey) (d t : Text) (xs : List Text) (x : Text)
    → contains (keep (λ y. not (contains expired (d, (t, y)))) xs) x
      ≡ (contains xs x && not (contains expired (d, (t, x))))
contains-keep-not expired d t [] x = refl
contains-keep-not expired d t (y ∷ ys) x =
    ground (arith, contains-keep-not expired d t ys x, ==_iff x y)

-- The live records hold the targets of the records that have not expired.
pub offers-live_records :
    (expired : List TargetKey) (rs : List Endpoint) (k : TargetKey)
    → offers (live_records expired rs) k ≡ (offers rs k && not (contains expired k))
unfolding live_records
offers-live_records expired [] k = refl
offers-live_records expired (r ∷ rs) k = ground (
  arith,
  offers-live_records expired rs k,
  contains-keep-not expired r.dns_name r.record_type r.targets k.1.1,
  ==_iff r.dns_name k.0,
  ==_iff r.record_type k.1.0,
)

module _ (p : Platform) (now : ℕ) where
  abbrev due_item : Option PendingTarget → Bool
  due_item none = false
  due_item (some item) = is_due p now item

  abbrev pub waiting_item : Option PendingTarget → Option PendingTarget
  waiting_item none = none
  waiting_item (some item) = if is_due p now item then none else some item

  absent_key :
      (items : List PendingTarget) (k : TargetKey)
      → contains (map pending_key items) k ≡ false
      → due_key p now items k ≡ false
  absent_key [] k h = refl
  absent_key (item ∷ items) k h = ground (arith, absent_key items k)

  pub due_key-find_by :
      (items : List PendingTarget) (k : TargetKey)
      → Distinct (map pending_key items)
      → due_key p now items k ≡ due_item (find_by pending_key k items)
  due_key-find_by [] k d = refl
  due_key-find_by (item ∷ items) k d = ground (
    arith,
    due_key-find_by items k d.1,
    absent_key items (pending_key item) d.0,
    ==_iff k (pending_key item),
  )

  pub waiting-absent :
      (items : List PendingTarget) (k : TargetKey)
      → contains (map pending_key items) k ≡ false
      → contains (map pending_key (waiting p now items)) k ≡ false
  waiting-absent [] k h = refl
  waiting-absent (item ∷ items) k h = ground (arith, waiting-absent items k)

  pub find_by-waiting :
      (items : List PendingTarget) (k : TargetKey)
      → Distinct (map pending_key items)
      → find_by pending_key k (waiting p now items) ≡ waiting_item (find_by pending_key k items)
  find_by-waiting [] k d = refl
  find_by-waiting (item ∷ items) k d = ground (
    arith,
    find_by-waiting items k d.1,
    find_by_of_absent pending_key (pending_key item) items d.0,
    ==_iff k (pending_key item),
  )

  pub waiting-Distinct :
      (items : List PendingTarget)
      → Distinct (map pending_key items)
      → Distinct (map pending_key (waiting p now items))
  waiting-Distinct [] d = tt
  waiting-Distinct (item ∷ items) d =
      ground (arith, waiting-Distinct items d.1, waiting-absent items (pending_key item) d.0)

  pub waiting-All {ℓ} :
      (P : PendingTarget → Type ℓ) (items : List PendingTarget)
      → All P items
      → All P (waiting p now items)
  waiting-All P [] h = tt
  waiting-All P (item ∷ items) h = elim (Bool-cases (is_due p now item)) [
    | inl e ↦ rw e (waiting-All P items h.1)
    | inr e ↦ rw e (h.0, waiting-All P items h.1)
  ]
