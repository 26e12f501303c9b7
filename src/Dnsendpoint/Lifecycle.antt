-- ===== src/Dnsendpoint/Lifecycle.antt =====
-- internal/dnsendpoint/lifecycle.go: the lifecycle annotation, which keeps the targets that wait
-- for their deletion deadline.
pub mod Laws
use labdns.Base.{
  ℕ, ◌≡◌, Bool, true, false, ◌||◌, not, Option, none, some, List, [], ◌∷◌, Text, is_empty, is_int,
  ℤ, pos, if◌then◌else◌, ◌==◌, list_eq, nat_eq, pair_eq, contains, sort_by, pair_ord, text_ord,
  length, map,
}
use labdns.Base.Results.{Result, ok, err, ◌>>=◌, ◌>>◌, guard}
use labdns.Platform.{
  PendingTarget, Lifecycle, Trailing, eof, another_value, malformed_rest, Platform,
}

-- `targetKey{dnsName, recordType, target}`
abbrev pub TargetKey : Type 0
TargetKey = Text × (Text × Text)

abbrev pub pending_key : PendingTarget → TargetKey
pending_key item = (item.dns_name, (item.record_type, item.target))

pub data LifecycleError : Type 0 where
  annotation_required malformed multiple_values trailing_data unknown_version : LifecycleError
  empty_field invalid_deadline not_canonical duplicate_target : LifecycleError

abbrev pub lifecycle_version : ℕ
lifecycle_version = 1

-- By name, then by type, then by target.
unfoldable pub sort_pending : List PendingTarget → List PendingTarget
sort_pending values = sort_by pending_key values

-- `PendingTarget` of the read-only view: the deadline as an instant.
pub record InspectedTarget : Type 0 where
  pub key : TargetKey
  pub deadline_at : ℕ

module _ (p : Platform) where
  -- The deadline of one pending target: readable, in UTC and in the canonical form.
  unfoldable pub check_deadline : Text → Result LifecycleError (Unit {0})
  check_deadline value = elim (p.parse_time value) [
    | none ↦ err invalid_deadline
    | some (instant, offset) ↦
        if not (is_int offset 0) || not (p.format_time instant == value)
        then err not_canonical
        else ok tt
  ]

  abbrev pub has_empty_field : PendingTarget → Bool
  has_empty_field item = is_empty item.dns_name || is_empty item.record_type || is_empty item.target

  -- The loop of `parseLifecycle` over the pending targets.
  unfoldable pub check_pending :
      List TargetKey → List PendingTarget → Result LifecycleError (Unit {0})
  unfolding check_deadline
  check_pending seen [] = ok tt
  check_pending seen (item ∷ items) =
      let rest = check_pending (pending_key item ∷ seen) items in
      if has_empty_field item then err empty_field else (do
        check_deadline item.deadline
        if contains seen (pending_key item) then err duplicate_target else rest)

  abbrev check_trailing : Trailing → Result LifecycleError (Unit {0})
  check_trailing eof = ok tt
  check_trailing another_value = err multiple_values
  check_trailing malformed_rest = err trailing_data

  unfoldable pub parse_lifecycle : Text → Result LifecycleError Lifecycle
  unfolding check_pending sort_pending
  parse_lifecycle value =
      if is_empty value then err annotation_required else elim (p.decode value) [
        | none ↦ err malformed
        | some (state, rest) ↦ do
          check_trailing rest
          guard (is_int state.version lifecycle_version) unknown_version
          check_pending [] state.pending
          ok (record state { pending = sort_pending state.pending })
      ]

  unfoldable pub marshal_lifecycle : Lifecycle → Text
  unfolding sort_pending
  marshal_lifecycle state =
      p.encode (record { version = pos lifecycle_version; pending = sort_pending state.pending })

  -- `deadline(value)`; a stamp that cannot be read is the zero time.
  unfoldable pub deadline : PendingTarget → ℕ
  deadline item = elim (p.parse_time item.deadline) [ none ↦ 0 | some (instant, offset) ↦ instant ]

  unfoldable pub pending_target_count : Text → Result LifecycleError ℕ
  unfolding parse_lifecycle
  pending_target_count value = do state ← parse_lifecycle value; ok (length state.pending)

  unfoldable pub inspect_lifecycle : Text → Result LifecycleError (List InspectedTarget)
  unfolding parse_lifecycle deadline
  inspect_lifecycle value = do
    state ← parse_lifecycle value
    ok (map (λ item. record { key = pending_key item; deadline_at = deadline item }) state.pending)
