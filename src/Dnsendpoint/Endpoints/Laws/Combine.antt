-- ===== src/Dnsendpoint/Endpoints/Laws/Combine.antt =====
-- The targets of the records combined with the pending targets.
use labdns.Base.{
  ◌≡◌, refl, sym, ap, ap₂, false, ◌||◌, some, List, [], ◌∷◌, ◌++◌, map, Text, Map, ◌==◌, ==_iff,
  list_eq, nat_eq, pair_eq, pair_ord, text_ord, contains, lookup, insert, copy_into, values, keys,
  All, NoByte, keep, split_at_byte, IsMap, arith, Bool-cases, Option-cases, inl, inr, subst,
  lookup-insert, insert-IsMap, contains-append, contains-sort_texts, sort_texts, lookup-copy_into,
}
use labdns.Platform.{PendingTarget}
use labdns.Dnsendpoint.Lifecycle.{TargetKey}
use labdns.Dnsendpoint.Endpoints.{
  Endpoint, record_key, endpoint_key, index_records, base_record, add_pending, add_all_pending,
  compact_targets, has_targets, combine_records,
}
use labdns.Dnsendpoint.Endpoints.Laws.{
  offers_one, offers, offered, IsKeyed, offers-values, offers-normalize_endpoints, present-map-some,
  contains-compact,
}
use labdns.Dnsendpoint.Endpoints.Laws.Normalize.{
  HasPlainName, Fits, IsKeyed-insert, IsKeyed-lookup, HasDistinctKeys,
}

-- `index_records` is a copy of these entries.
abbrev entries : List Endpoint → Map Text Endpoint
entries [] = []
entries (r ∷ rs) = (record_key r.dns_name r.record_type, r) ∷ entries rs

index_records-copy_into :
    (m : Map Text Endpoint) (rs : List Endpoint) → index_records m rs ≡ copy_into m (entries rs)
unfolding index_records copy_into
index_records-copy_into m [] = refl
index_records-copy_into m (r ∷ rs) =
    index_records-copy_into (insert (record_key r.dns_name r.record_type) r m) rs

index_records-IsKeyed :
    (m : Map Text Endpoint) (rs : List Endpoint)
    → IsKeyed m
    → All HasPlainName rs
    → IsKeyed (index_records m rs)
unfolding index_records
index_records-IsKeyed m [] g n = g
index_records-IsKeyed m (r ∷ rs) g n =
    index_records-IsKeyed (insert (record_key r.dns_name r.record_type) r m) rs
      (IsKeyed-insert _ r m (refl, n.0) g) n.1

index_records-IsMap :
    (m : Map Text Endpoint) (rs : List Endpoint) → IsMap m → IsMap (index_records m rs)
unfolding index_records
index_records-IsMap m [] h = h
index_records-IsMap m (r ∷ rs) h =
    index_records-IsMap (insert (record_key r.dns_name r.record_type) r m) rs (insert-IsMap _ r m h)

entries-IsKeyed : (rs : List Endpoint) → All HasPlainName rs → IsKeyed (entries rs)
entries-IsKeyed [] n = tt
entries-IsKeyed (r ∷ rs) n = ((refl, n.0), entries-IsKeyed rs n.1)

values-entries : (rs : List Endpoint) → values (entries rs) ≡ rs
values-entries [] = refl
values-entries (r ∷ rs) = ap (◌∷◌ r) (values-entries rs)

contains-entries :
    (r : Endpoint) (rs : List Endpoint)
    → HasPlainName r
    → All HasPlainName rs
    → contains (map endpoint_key rs) (endpoint_key r) ≡ false
    → contains (keys (entries rs)) (record_key r.dns_name r.record_type) ≡ false
contains-entries r [] p n h = refl
contains-entries r (s ∷ rs) p n h = ground (
  arith,
  contains-entries r rs p n.1,
  ==_iff (endpoint_key r) (endpoint_key s),
  ==_iff (record_key r.dns_name r.record_type) (record_key s.dns_name s.record_type),
  split_at_byte 0 r.dns_name s.dns_name r.record_type s.record_type p n.0,
)

entries-IsMap : (rs : List Endpoint) → All HasPlainName rs → HasDistinctKeys rs → IsMap (entries rs)
entries-IsMap [] n d = tt
entries-IsMap (r ∷ rs) n d = (contains-entries r rs n.0 n.1 d.0, entries-IsMap rs n.1 d.1)

offered-index_records :
    (rs : List Endpoint) (k : TargetKey)
    → All HasPlainName rs
    → HasDistinctKeys rs
    → NoByte 0 k.0
    → offered (lookup (record_key k.0 k.1.0) (index_records [] rs)) k.1.1 ≡ offers rs k
unfolding lookup
offered-index_records rs k n d p = ground (
  arith,
  index_records-copy_into [] rs,
  lookup-copy_into [] (entries rs) (record_key k.0 k.1.0) (entries-IsMap rs n d),
  offers-values (entries rs) k (entries-IsMap rs n d) (entries-IsKeyed rs n) p,
  values-entries rs,
)

-- A pending entry whose item repeats its key, as all that the writer makes or reads.
abbrev pub IsOwn : TargetKey × PendingTarget → Type 0
IsOwn e = NoByte 0 e.0.0 × (e.1.dns_name ≡ e.0.0) × (e.1.record_type ≡ e.0.1.0)

module _ (current : Map Text Endpoint) (g : IsKeyed current) where
  base_record-Fits :
      (m : Map Text Endpoint) (k : TargetKey) (item : PendingTarget)
      → IsKeyed m
      → IsOwn (k, item)
      → Fits (record_key k.0 k.1.0) (base_record m current k item)
  unfolding base_record
  base_record-Fits m k item h o = elim (Option-cases (lookup (record_key k.0 k.1.0) m)) [
    | inr (s, e) ↦ rw (e, base_record) (IsKeyed-lookup _ s m h e)
    | inl e ↦ elim (Option-cases (lookup (record_key k.0 k.1.0) current)) [
      | inr (s, f) ↦ rw (e, f, base_record) (IsKeyed-lookup _ s current g f)
      | inl f ↦
          rw (e, f, base_record)
            (ap₂ record_key (sym o.1) (sym o.2), subst (NoByte 0) (sym o.1) o.0)
    ]
  ]

  base_record-targets :
      (m : Map Text Endpoint) (k : TargetKey) (item : PendingTarget) (x : Text)
      → contains (base_record m current k item).targets x
        ≡ offered (lookup (record_key k.0 k.1.0) m) x
  unfolding base_record
  base_record-targets m k item x = ground arith

  add_pending-IsKeyed :
      (m : Map Text Endpoint) (k : TargetKey) (item : PendingTarget)
      → IsKeyed m
      → IsOwn (k, item)
      → IsKeyed (add_pending current m k item)
  unfolding add_pending
  add_pending-IsKeyed m k item h o =
      IsKeyed-insert (record_key k.0 k.1.0) _ m (base_record-Fits m k item h o) h

  add_pending-IsMap :
      (m : Map Text Endpoint) (k : TargetKey) (item : PendingTarget)
      → IsMap m
      → IsMap (add_pending current m k item)
  unfolding add_pending
  add_pending-IsMap m k item h = insert-IsMap (record_key k.0 k.1.0) _ m h

  offered-add_pending :
      (m : Map Text Endpoint) (j : TargetKey) (item : PendingTarget) (k : TargetKey)
      → NoByte 0 j.0
      → NoByte 0 k.0
      → offered (lookup (record_key k.0 k.1.0) (add_pending current m j item)) k.1.1
        ≡ ((k == j) || offered (lookup (record_key k.0 k.1.0) m) k.1.1)
  unfolding add_pending
  offered-add_pending m j item k n p =
      let base = base_record m current j item in
      ground (
        arith,
        lookup-insert (record_key j.0 j.1.0) (record base { targets = base.targets ++ j.1.1 ∷ [] })
            m (record_key k.0 k.1.0),
        ==_iff (record_key k.0 k.1.0) (record_key j.0 j.1.0),
        ==_iff k.0 j.0,
        ==_iff k.1.0 j.1.0,
        split_at_byte 0 k.0 j.0 k.1.0 j.1.0 p n,
        contains-append base.targets (j.1.1 ∷ []) k.1.1,
        base_record-targets m j item k.1.1,
      )

  add_all_pending-IsKeyed :
      (m : Map Text Endpoint) (pending : Map TargetKey PendingTarget)
      → IsKeyed m
      → All IsOwn pending
      → IsKeyed (add_all_pending current m pending)
  unfolding add_all_pending
  add_all_pending-IsKeyed m [] h o = h
  add_all_pending-IsKeyed m ((k, item) ∷ pending) h o =
      add_all_pending-IsKeyed (add_pending current m k item) pending
        (add_pending-IsKeyed m k item h o.0) o.1

  add_all_pending-IsMap :
      (m : Map Text Endpoint) (pending : Map TargetKey PendingTarget)
      → IsMap m
      → IsMap (add_all_pending current m pending)
  unfolding add_all_pending
  add_all_pending-IsMap m [] h = h
  add_all_pending-IsMap m ((k, item) ∷ pending) h =
      add_all_pending-IsMap (add_pending current m k item) pending (add_pending-IsMap m k item h)

  offered-add_all_pending :
      (m : Map Text Endpoint) (pending : Map TargetKey PendingTarget) (k : TargetKey)
      → All IsOwn pending
      → NoByte 0 k.0
      → offered (lookup (record_key k.0 k.1.0) (add_all_pending current m pending)) k.1.1
        ≡ (contains (keys pending) k || offered (lookup (record_key k.0 k.1.0) m) k.1.1)
  unfolding add_all_pending
  offered-add_all_pending m [] k o p = refl
  offered-add_all_pending m ((j, item) ∷ pending) k o p = ground (
    arith,
    offered-add_all_pending (add_pending current m j item) pending k o.1 p,
    offered-add_pending m j item k o.0.0 p,
  )

offers_one-empty : (k : TargetKey) (r : Endpoint) → has_targets r ≡ false → offers_one k r ≡ false
offers_one-empty k r h = ground arith

offers_one-compact_targets :
    (k : TargetKey) (r : Endpoint) → offers_one k (compact_targets r) ≡ offers_one k r
offers_one-compact_targets k r =
    ground
      (arith, contains-compact (sort_texts r.targets) k.1.1, contains-sort_texts r.targets k.1.1)

abbrev pub settled : List Endpoint → List Endpoint
settled rs = keep has_targets (map compact_targets rs)

offers-settled : (rs : List Endpoint) (k : TargetKey) → offers (settled rs) k ≡ offers rs k
offers-settled [] k = refl
offers-settled (r ∷ rs) k = elim (Bool-cases (has_targets (compact_targets r))) [
  | inl h ↦ rw h (ground (arith, offers-settled rs k, offers_one-compact_targets k r))
  | inr h ↦ rw h (
      ground (
        arith,
        offers-settled rs k,
        offers_one-compact_targets k r,
        offers_one-empty k (compact_targets r) h,
      ))
]

-- The combined records hold exactly the desired and the pending targets, where no name holds a NUL
-- byte, the desired records have distinct keys, and each pending entry stands under its own key.
pub offers-combine_records :
    (desired current : List Endpoint) (pending : Map TargetKey PendingTarget) (k : TargetKey)
    → All HasPlainName desired
    → HasDistinctKeys desired
    → All HasPlainName current
    → All IsOwn pending
    → NoByte 0 k.0
    → offers (combine_records desired current pending) k
      ≡ (contains (keys pending) k || offers desired k)
unfolding combine_records
offers-combine_records desired current pending k n d c o p =
    let old = index_records [] current in
    let g = index_records-IsKeyed [] current tt c in
    let new = index_records [] desired in
    let m = add_all_pending old new pending in
    ground (
      arith,
      offers-normalize_endpoints (map some (settled (values m))) k,
      present-map-some (settled (values m)),
      offers-settled (values m) k,
      offers-values m k
          (add_all_pending-IsMap old g new pending (index_records-IsMap [] desired tt))
          (add_all_pending-IsKeyed old g new pending (index_records-IsKeyed [] desired tt n) o) p,
      offered-add_all_pending old g new pending k o p,
      offered-index_records desired k n d p,
    )
