-- ===== src/Cli/Records/Laws.antt =====
-- The targets of a record that is shown: active and retiring ones, and its state.
use labdns.Base.{
  ◌≡◌, refl, Bool, not, ◌&&◌, some, List, [], ◌∷◌, Text, map, contains, contains-keep,
  contains-sort_texts, arith, ==_iff, list_eq, nat_eq, pair_eq, int_eq, sort_texts,
}
use labdns.Base.Results.{ok}
use labdns.Dnsendpoint.Lifecycle.{LifecycleError, InspectedTarget, TargetKey}
use labdns.Dnsendpoint.Endpoints.{Endpoint}
use labdns.Cli.Records.{Listed, record_for, retiring_of, active_of, target_of}

abbrev pub key_of : InspectedTarget → TargetKey
key_of t = t.key

abbrev pub target_key : Endpoint → Text → TargetKey
target_key item target = (item.dns_name, (item.record_type, target))

-- A target is retiring if it is pending under the name and the type of the record.
contains-retiring_of :
    (item : Endpoint) (pending : List InspectedTarget) (target : Text)
    → contains (map target_of (retiring_of item pending)) target
      ≡ contains (map key_of pending) (target_key item target)
unfolding retiring_of
contains-retiring_of item [] target = refl
contains-retiring_of item (t ∷ pending) target = ground (
  arith,
  contains-retiring_of item pending target,
  ==_iff t.key.0 item.dns_name,
  ==_iff item.dns_name t.key.0,
  ==_iff t.key.1.0 item.record_type,
  ==_iff item.record_type t.key.1.0,
)

abbrev pub is_active : List InspectedTarget → Endpoint → Text → Bool
is_active pending item target =
    contains item.targets target && not (contains (map key_of pending) (target_key item target))

module _ (describe : LifecycleError → Text) where
  -- Where the lifecycle annotation can be read, the targets of a shown record are those of the entry;
  -- the active ones are those that are not pending, and the retiring ones those that are pending under
  -- the record's name and type.
  pub targets-record_for :
      (listed : Listed) (pending : List InspectedTarget) (item : Endpoint)
      → let r = record_for describe listed (ok pending) item in
        (active : List Text) × (r.active_targets ≡ some active)
        × ((t : Text) → contains r.targets t ≡ contains item.targets t)
        × ((t : Text) → contains active t ≡ is_active pending item t)
        × ((t : Text)
            → contains (map target_of r.retiring) t
              ≡ contains (map key_of pending) (target_key item t))
  unfolding record_for active_of
  targets-record_for listed pending item =
      let retiring = retiring_of item pending in
      (
        active_of retiring (sort_texts item.targets),
        refl,
        contains-sort_texts item.targets,
        λ t. ground (
          arith,
          contains-keep (λ x. not (contains (map target_of retiring) x)) (sort_texts item.targets)
              t,
          contains-sort_texts item.targets t,
          contains-retiring_of item pending t,
        ),
        contains-retiring_of item pending,
      )
