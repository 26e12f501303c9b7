-- ===== src/Dnsendpoint/Advance.antt =====
-- internal/dnsendpoint/writer.go, `Advance`: pending targets expire without a desired state.
pub mod Laws
use labdns.Base.{
  ℕ, ◌-◌, ◌^◌, min, Bool, true, false, ◌||◌, not, Option, none, some, List, [], ◌∷◌, ◌++◌, map,
  Text, contains, keep, insert, is_empty, ltb, leb, nat_beq, if◌then◌else◌, ◌==◌, list_eq, nat_eq,
  pair_eq,
}
use labdns.Base.Results.{Result, ok, err, ◌>>=◌, ◌>>◌, guard}
use labdns.Platform.{Platform, PendingTarget, Lifecycle}
use labdns.Dnsendpoint.Lifecycle.{
  TargetKey, pending_key, parse_lifecycle, marshal_lifecycle, deadline,
}
use labdns.Dnsendpoint.Endpoints.{Endpoint, normalize_endpoints, endpoint_targets, has_targets}
use labdns.Dnsendpoint.Object.{
  Object, InvalidState, absent_pending_target, value_at, stored_delay, or_invalid, managed_by_label,
  managed_by_value, lifecycle_annotation,
}
use labdns.Dnsendpoint.Writer.{
  ApiError, not_found, already_exists, conflict, other, WriteError, invalid_state, api, Action,
  nothing, delete, update, fail, Client, perform,
}

-- The state of the loop: the targets that stay, those that go, and the shortest wait so far, where 0
-- stands for none.
pub record Sweep : Type 0 where
  pub kept : List PendingTarget
  pub expired : List TargetKey
  pub next : ℕ

-- The longest time.Duration in nanoseconds, at which a difference of times saturates.
abbrev pub max_duration : ℕ
max_duration = 2 ^ 63 - 1

abbrev pub sooner : ℕ → ℕ → ℕ
sooner next remaining = if nat_beq next 0 || ltb remaining next then remaining else next

-- The targets of one record that have not expired.
unfoldable pub live_targets : List TargetKey → Endpoint → Endpoint
live_targets expired r = record r {
  targets = keep (λ t. not (contains expired (r.dns_name, (r.record_type, t)))) r.targets;
}

unfoldable pub live_records : List TargetKey → List Endpoint → List Endpoint
unfolding live_targets
live_records expired records = keep has_targets (map (live_targets expired) records)

module _ (p : Platform) where
  -- One round of the loop: the target has expired, or it stays and the wait may get shorter.
  unfoldable pub sweep_one : ℕ → Sweep → PendingTarget → Sweep
  sweep_one now s item =
      let remaining = min (deadline p item - now) max_duration in
      if leb (deadline p item) now
      then record s { expired = pending_key item ∷ s.expired }
      else record s { kept = s.kept ++ item ∷ []; next = sooner s.next remaining }

  unfoldable pub sweep :
      ℕ → List TargetKey → Sweep → List PendingTarget → Result (InvalidState × ℕ) Sweep
  unfolding sweep_one
  sweep now current s [] = ok s
  sweep now current s (item ∷ items) =
      let rest = sweep now current (sweep_one now s item) items in
      if contains current (pending_key item) then rest else err (absent_pending_target, s.next)

  abbrev pub record_or_delete : Object → Lifecycle → Sweep → List Endpoint → Action
  record_or_delete current state s [] = delete current
  record_or_delete current state s (r ∷ rs) = update (record current {
    endpoints = map some (r ∷ rs);
    annotations =
        insert lifecycle_annotation (marshal_lifecycle p (record state { pending = s.kept }))
          current.annotations;
  })

  -- The action on the current object, and the wait for the next deadline. `next` is shared by the
  -- attempts, so each starts from what the one before it left.
  unfoldable pub decide_advance : ℕ → Object → ℕ → Action × ℕ
  unfolding live_records
  decide_advance now current next =
      if not (value_at managed_by_label current.labels == managed_by_value)
      then (nothing, next)
      else elim (stored_delay p current) [
        | err e ↦ (fail (invalid_state e), next)
        | ok delay ↦
            elim (or_invalid
              (parse_lifecycle p (value_at lifecycle_annotation current.annotations))) [
                | err e ↦ (fail (invalid_state e), next)
                | ok state ↦
                    let records = normalize_endpoints current.endpoints in
                    elim (sweep now (endpoint_targets records)
                      (record { kept = []; expired = []; next = next }) state.pending) [
                        | err (e, left) ↦ (fail (invalid_state e), left)
                        | ok s ↦ (
                          if is_empty s.expired
                              then nothing
                              else record_or_delete current state s
                                  (live_records s.expired records),
                          s.next,
                        )
                      ]
              ]
      ]

module _ (p : Platform) {S : Type 0} (client : Client S) where
  abbrev pub perform_with : Action × ℕ → S → Result WriteError (Unit {0}) × (S × ℕ)
  perform_with (action, next) s =
      let (answer, s') = perform p client action s in (answer, (s', next))

  -- One attempt, over the cluster and the shared wait. An object that is gone leaves nothing to do.
  unfoldable pub advance_attempt : Text → Text → S × ℕ → Result WriteError (Unit {0}) × (S × ℕ)
  unfolding decide_advance
  advance_attempt namespace name (s, next) =
      let (found, s') = client.get namespace name s in
      elim found [
        | ok current ↦ perform_with (decide_advance p (client.now s') current next) s'
        | err not_found ↦ (ok tt, (s', next))
        | err already_exists ↦ (err (api already_exists), (s', next))
        | err conflict ↦ (err (api conflict), (s', next))
        | err (other code) ↦ (err (api (other code)), (s', next))
      ]

  -- `retry` is RetryOnConflict over the cluster and the wait.
  unfoldable pub advance :
      ((S × ℕ → Result WriteError (Unit {0}) × (S × ℕ))
        → S × ℕ
        → Result WriteError (Unit {0}) × (S × ℕ))
      → Text
      → Text
      → S
      → Result WriteError (Unit {0}) × (S × ℕ)
  advance retry namespace name s = retry (advance_attempt namespace name) (s, 0)
