-- ===== src/Dnsendpoint/Build/Targets.antt =====
-- The pending targets of one run: their entries are well formed, and they follow the specification
-- of Build/Status.
use labdns.Base.{
  ℕ, ◌≡◌, refl, sym, ap, subst, ◌∙◌, ◌<◌, true, false, ◌||◌, none, some, List, [], ◌∷◌, map, Text,
  ℤ, arith, list_eq, nat_eq, pair_eq, pair_ord, text_ord, contains, Distinct, lookup, IsMap,
  is_some, is_empty, if◌then◌else◌, ==_iff, get_or, Bool-cases, inl, inr, All, find_by, find_by-All,
  contains-find_by, Option-cases, All_of_lookup, add_duration,
}
use labdns.Base.Results.{ok}
use labdns.Platform
use labdns.Platform.{Platform, PendingTarget, Lifecycle}
use labdns.Dnsendpoint.Lifecycle.{TargetKey, pending_key, deadline}
use labdns.Dnsendpoint.Lifecycle.Laws.{IsCanonical}
use labdns.Dnsendpoint.Endpoints.{Endpoint}
use labdns.Dnsendpoint.Endpoints.Laws.{offers, offers_one}
use labdns.Dnsendpoint.Build.{Pending, load_pending, new_pending, awaits, settle}
use labdns.Dnsendpoint.Build.Settle.{
  settle-IsMap, lookup-settle, load_pending-IsMap, lookup-load_pending, load_pending-present,
}
use labdns.Dnsendpoint.Build.Status.{absent, next_status, item_status}

-- A record whose name, type and targets are not empty.
abbrev pub HasNames : Endpoint → Type 0
HasNames r =
    (is_empty r.dns_name ≡ false)
    × (is_empty r.record_type ≡ false)
    × All (λ t. is_empty t ≡ false) r.targets

abbrev pub IsNamed : TargetKey → Type 0
IsNamed k = (is_empty k.0 ≡ false) × (is_empty k.1.0 ≡ false) × (is_empty k.1.1 ≡ false)

contains-nonempty :
    (ts : List Text) (x : Text)
    → All (λ t. is_empty t ≡ false) ts
    → contains ts x ≡ true
    → is_empty x ≡ false
contains-nonempty [] x a h = ground arith
contains-nonempty (t ∷ ts) x a h = ground (arith, contains-nonempty ts x a.1, ==_iff x t)

pub offers-IsNamed :
    (rs : List Endpoint) (k : TargetKey) → All HasNames rs → offers rs k ≡ true → IsNamed k
offers-IsNamed [] k a h = absurd (ground arith)
offers-IsNamed (r ∷ rs) k a h = elim (Bool-cases (offers_one k r)) [
  | inl e ↦ ground (
    arith,
    ==_iff r.dns_name k.0,
    ==_iff r.record_type k.1.0,
    contains-nonempty r.targets k.1.1 a.0.2,
  )
  | inr e ↦ offers-IsNamed rs k a.1 (ground arith)
]

module _ (p : Platform) (laws : Platform.Laws p) (now : ℕ) (delay : ℤ)
    (desired current : List TargetKey) (items : List PendingTarget) (loaded : Pending)
    (canonical : All (IsCanonical p) items) (distinct : Distinct (map pending_key items))
    (loads : load_pending current [] items ≡ ok loaded)
    (in_time : add_duration now delay < p.horizon)
    (named : (k : TargetKey) → contains current k ≡ true → IsNamed k) where
  lookup-loaded : (k : TargetKey) → lookup k loaded ≡ find_by pending_key k items
  unfolding lookup
  lookup-loaded k = ground (
    arith,
    lookup-load_pending current [] items {loaded = loaded} k loads distinct,
    Option-cases (find_by pending_key k items),
  )

  loaded-present : (k : TargetKey) → is_some (lookup k loaded) ≡ true → contains current k ≡ true
  loaded-present k h =
      load_pending-present current [] items {loaded = loaded} k loads
        (contains-find_by pending_key k items ∙ ap is_some (sym (lookup-loaded k)) ∙ h)

  loaded-IsMap : IsMap loaded
  loaded-IsMap = load_pending-IsMap current [] items {loaded = loaded} loads tt

  abbrev pub IsEntry : TargetKey × PendingTarget → Type 0
  IsEntry e = IsCanonical p e.1 × (e.0 ≡ pending_key e.1)

  new-IsEntry : (k : TargetKey) → contains current k ≡ true → IsEntry (k, new_pending p now delay k)
  new-IsEntry k h =
      let (name, type, target) = named k h in
      let t = add_duration now delay in
      ((ground arith, (t, laws.parse-format_time t in_time, refl)), refl)

  -- The entry that a current target has before the deadlines are looked at.
  abbrev pub entry : TargetKey → PendingTarget
  entry k = get_or (lookup k loaded) (new_pending p now delay k)

  entry-IsEntry : (k : TargetKey) → contains current k ≡ true → IsEntry (k, entry k)
  entry-IsEntry k h = elim (Option-cases (lookup k loaded)) [
    | inl e ↦ rw e (new-IsEntry k h)
    | inr (item, e) ↦
        rw e (find_by-All pending_key (IsCanonical p) k items (sym (lookup-loaded k) ∙ e) canonical)
  ]

  abbrev pub left : Pending
  left = settle p now delay desired current loaded

  pub lookup-left :
      (k : TargetKey)
      → lookup k left ≡ (
          if contains desired k
          then none
          else if contains current k
          then (if awaits p now (entry k) then some (entry k) else none)
          else none)
  lookup-left k =
      ground
        (arith, lookup-settle p now delay desired current loaded k loaded-IsMap, loaded-present k)

  left-entry :
      (k : TargetKey) (item : PendingTarget)
      → lookup k left ≡ some item
      → (item ≡ entry k) × (contains current k ≡ true) × (contains desired k ≡ false)
  left-entry k item h = ground (arith, lookup-left k)

  pub left-IsMap : IsMap left
  left-IsMap = settle-IsMap p now delay desired current loaded loaded-IsMap

  -- Every pending target is still in the current records, and its entry is canonical and its own.
  pub left-IsEntry : All (λ e. IsEntry e × (contains current e.0 ≡ true)) left
  left-IsEntry =
      All_of_lookup (λ e. IsEntry e × (contains current e.0 ≡ true)) left left-IsMap
        λ k item h.
          let (same, here, _) = left-entry k item h in
          (subst (λ v. IsEntry (k, v)) (sym same) (entry-IsEntry k here), here)

  -- One run, as the specification has it.
  pub left-next_status :
      (k : TargetKey)
      → (if is_some (lookup k left) || contains desired k
          then item_status p (lookup k left)
          else absent)
        ≡ next_status now delay
            (contains desired k)
            (if contains current k then item_status p (find_by pending_key k items) else absent)
  unfolding deadline
  left-next_status k = ground (
    arith,
    lookup-left k,
    lookup-loaded k,
    Option-cases (find_by pending_key k items),
    laws.parse-format_time (add_duration now delay) in_time,
  )
