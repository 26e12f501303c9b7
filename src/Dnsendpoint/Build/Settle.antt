-- ===== src/Dnsendpoint/Build/Settle.antt =====
-- What `settle` leaves pending, key by key, and what `load_pending` reads.
use labdns.Base.{
  ℕ, ◌≡◌, refl, subst, true, Option, none, some, List, [], ◌∷◌, map, ℤ, arith, list_eq, nat_eq,
  pair_eq, pair_ord, text_ord, contains, Distinct, lookup, insert, delete, IsMap, if◌then◌else◌,
  ==_iff, ◌==◌, get_or, or_else, passes, lookup-insert, lookup-delete, lookup-retain, insert-IsMap,
  delete-IsMap, retain-IsMap, find_by, find_by_of_absent,
}
use labdns.Base.Results.{ok}
use labdns.Platform.{Platform, PendingTarget}
use labdns.Dnsendpoint.Lifecycle.{TargetKey, pending_key}
use labdns.Dnsendpoint.Build.{
  Pending, load_pending, new_pending, retire_one, retire, delete_all, awaits, settle,
}

module _ (p : Platform) (now : ℕ) (delay : ℤ) where
  abbrev next_entry : List TargetKey → TargetKey → Option PendingTarget → Option PendingTarget
  next_entry desired k old =
      if contains desired k then none else some (get_or old (new_pending p now delay k))

  lookup-retire_one :
      (desired : List TargetKey) (c : TargetKey) (m : Pending) (k : TargetKey)
      → lookup k (retire_one p now delay desired c m)
        ≡ (if k == c then next_entry desired c (lookup c m) else lookup k m)
  unfolding retire_one
  lookup-retire_one desired c m k =
      ground
        (arith, lookup-delete c m k, lookup-insert c (new_pending p now delay c) m k, ==_iff k c)

  lookup-retire :
      (desired current : List TargetKey) (m : Pending) (k : TargetKey)
      → lookup k (retire p now delay desired current m)
        ≡ (if contains current k then next_entry desired k (lookup k m) else lookup k m)
  unfolding retire
  lookup-retire desired [] m k = refl
  lookup-retire desired (c ∷ cs) m k = ground (
    arith,
    lookup-retire desired cs (retire_one p now delay desired c m) k,
    lookup-retire_one desired c m k,
    ==_iff k c,
  )

  lookup-delete_all :
      (desired : List TargetKey) (m : Pending) (k : TargetKey)
      → lookup k (delete_all p desired m) ≡ (if contains desired k then none else lookup k m)
  unfolding delete_all
  lookup-delete_all [] m k = refl
  lookup-delete_all (c ∷ cs) m k =
      ground (arith, lookup-delete_all cs (delete c m) k, lookup-delete c m k)

  retire_one-IsMap :
      (desired : List TargetKey) (c : TargetKey) (m : Pending)
      → IsMap m
      → IsMap (retire_one p now delay desired c m)
  unfolding retire_one
  retire_one-IsMap desired c m h =
      ground (arith, delete-IsMap c m h, insert-IsMap c (new_pending p now delay c) m h)

  retire-IsMap :
      (desired current : List TargetKey) (m : Pending)
      → IsMap m
      → IsMap (retire p now delay desired current m)
  unfolding retire
  retire-IsMap desired [] m h = h
  retire-IsMap desired (c ∷ cs) m h =
      retire-IsMap desired cs (retire_one p now delay desired c m) (retire_one-IsMap desired c m h)

  delete_all-IsMap :
      (desired : List TargetKey) (m : Pending) → IsMap m → IsMap (delete_all p desired m)
  unfolding delete_all
  delete_all-IsMap [] m h = h
  delete_all-IsMap (c ∷ cs) m h = delete_all-IsMap cs (delete c m) (delete-IsMap c m h)

  pub settle-IsMap :
      (desired current : List TargetKey) (m : Pending)
      → IsMap m
      → IsMap (settle p now delay desired current m)
  unfolding settle
  settle-IsMap desired current m h =
      retain-IsMap (λ key item. awaits p now item) _
        (delete_all-IsMap desired _ (retire-IsMap desired current m h))

  -- A desired target is not pending. Any other current one is, with the entry that it had or a new
  -- one, as long as its deadline lies ahead.
  pub lookup-settle :
      (desired current : List TargetKey) (m : Pending) (k : TargetKey)
      → IsMap m
      → lookup k (settle p now delay desired current m)
        ≡ passes
            (λ key item. awaits p now item)
            k
            (if contains desired k
              then none
              else if contains current k
              then some (get_or (lookup k m) (new_pending p now delay k))
              else lookup k m)
  unfolding settle
  lookup-settle desired current m k h =
      let retired = retire p now delay desired current m in
      ground (
        arith,
        lookup-retain (λ key item. awaits p now item) (delete_all p desired retired) k
            (delete_all-IsMap desired retired (retire-IsMap desired current m h)),
        lookup-delete_all desired retired k,
        lookup-retire desired current m k,
      )

-- What a successful load tells of the entries.
pub load_pending-IsMap :
    (current : List TargetKey) (m : Pending) (items : List PendingTarget) {loaded : Pending}
    → load_pending current m items ≡ ok loaded
    → IsMap m
    → IsMap loaded
unfolding load_pending
load_pending-IsMap current m [] e h = subst IsMap (ground arith) h
load_pending-IsMap current m (item ∷ items) e h =
    load_pending-IsMap current (insert (pending_key item) item m) items (ground arith)
      (insert-IsMap (pending_key item) item m h)

pub lookup-load_pending :
    (current : List TargetKey) (m : Pending) (items : List PendingTarget) {loaded : Pending}
    (k : TargetKey)
    → load_pending current m items ≡ ok loaded
    → Distinct (map pending_key items)
    → lookup k loaded ≡ or_else (find_by pending_key k items) (lookup k m)
unfolding load_pending
lookup-load_pending current m [] k e d = ground arith
lookup-load_pending current m (item ∷ items) {loaded} k e d = ground (
  arith,
  lookup-load_pending current (insert (pending_key item) item m) items {loaded = loaded} k
      (ground arith) d.1,
  lookup-insert (pending_key item) item m k,
  find_by_of_absent pending_key (pending_key item) items d.0,
  ==_iff k (pending_key item),
)

pub load_pending-present :
    (current : List TargetKey) (m : Pending) (items : List PendingTarget) {loaded : Pending}
    (k : TargetKey)
    → load_pending current m items ≡ ok loaded
    → contains (map pending_key items) k ≡ true
    → contains current k ≡ true
unfolding load_pending
load_pending-present current m [] k e h = ground arith
load_pending-present current m (item ∷ items) {loaded} k e h = ground (
  arith,
  load_pending-present current (insert (pending_key item) item m) items {loaded = loaded} k
      (ground arith),
  ==_iff k (pending_key item),
)
