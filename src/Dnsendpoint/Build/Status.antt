-- ===== src/Dnsendpoint/Build/Status.antt =====
-- The abstract view of a DNSEndpoint that `build` implements: each target is absent, published for
-- its source, or kept until a deadline. How the records are split, named and ordered is forgotten.
use labdns.Base.{
  ℕ, Bool, true, false, Option, none, some, List, [], ℤ, pos, ltb, if◌then◌else◌, add_duration,
  list_eq, nat_eq, pair_eq, pair_ord, text_ord, find_by,
}
use labdns.Base.Results.{Result, ok, err}
use labdns.Source.Types.{Publication}
use labdns.Platform.{Platform, Lifecycle, PendingTarget}
use labdns.Dnsendpoint.Lifecycle.{LifecycleError, TargetKey, pending_key, parse_lifecycle, deadline}
use labdns.Dnsendpoint.Endpoints.{present}
use labdns.Dnsendpoint.Endpoints.Laws.{offers}
use labdns.Dnsendpoint.Object.{Object, InvalidState, lifecycle_annotation, value_at, stored_delay}

pub data Status : Type 0 where
  absent active : Status
  retiring : ℕ → Status

-- A target that nothing asks for is kept until its deadline.
abbrev pub due : ℕ → ℕ → Status
due now at = if ltb now at then retiring at else absent

-- The specification of one run of the writer, for one target: what is asked for is active, what is
-- no longer asked for gets a deadline, and a deadline is never moved.
abbrev pub next_status : ℕ → ℤ → Bool → Status → Status
next_status now delay true old = active
next_status now delay false absent = absent
next_status now delay false active = due now (add_duration now delay)
next_status now delay false (retiring at) = due now at

abbrev pub items_of : Result LifecycleError Lifecycle → List PendingTarget
items_of (ok state) = state.pending
items_of (err e) = []

abbrev pub delay_or_zero : Result InvalidState ℤ → ℤ
delay_or_zero (ok delay) = delay
delay_or_zero (err e) = pos 0

module _ (p : Platform) where
  -- The pending targets that the annotation of an object names.
  abbrev pub pending_items : Object → List PendingTarget
  pending_items o = items_of (parse_lifecycle p (value_at lifecycle_annotation o.annotations))

  abbrev pub item_status : Option PendingTarget → Status
  item_status none = active
  item_status (some item) = retiring (deadline p item)

  abbrev pub status : Option Object → TargetKey → Status
  status none k = absent
  status (some o) k =
      if offers (present o.endpoints) k
      then item_status (find_by pending_key k (pending_items o))
      else absent

  -- The delay that a target gets when it is dropped: the one stored in the object.
  abbrev pub delay_of : Publication → Option Object → ℤ
  delay_of publication none = publication.deletion_delay
  delay_of publication (some o) = delay_or_zero (stored_delay p o)
