-- ===== src/Dnsendpoint/Endpoints/Laws.antt =====
-- Which targets a list of records holds, through every step that rearranges the records.
pub mod Normalize
pub mod Combine
use labdns.Base.{
  ℕ, ◌≡◌, refl, sym, ap, ◌∙◌, Bool, true, false, ◌||◌, ◌&&◌, Option, none, some, List, [], ◌∷◌,
  ◌++◌, map, Text, Map, if◌then◌else◌, ◌==◌, ==_iff, ==_refl, list_eq, nat_eq, pair_eq, pair_ord,
  text_ord, sort_by, sort_texts, contains, set_insert, lookup, insert, values, any, All, NoByte,
  contains-sort_texts, any-sort_by, contains-set_insert, split_at_byte, IsMap, keys, arith,
  lookup_of_absent, Bool-cases, inl, inr, list_beq_iff, pair_beq_iff, subst, lookup-insert,
  insert-IsMap, contains-append,
}
use labdns.Source.Types.{Record}
use labdns.Dnsendpoint.Lifecycle.{TargetKey}
use labdns.Dnsendpoint.Endpoints.{
  Endpoint, compact, compact_after, normalize_endpoint, normalize_endpoints, present,
  endpoint_targets, add_targets, targets_into, record_key, endpoint_key,
}

contains-compact_after :
    (last : Text) (vs : List Text) (a : Text)
    → (a == last || contains (compact_after last vs) a) ≡ (a == last || contains vs a)
unfolding compact_after
contains-compact_after last [] a = refl
contains-compact_after last (v ∷ vs) a = ground (
  arith,
  contains-compact_after last vs a,
  contains-compact_after v vs a,
  ==_iff v last,
  ==_iff a last,
  ==_iff a v,
)

pub contains-compact : (vs : List Text) (a : Text) → contains (compact vs) a ≡ contains vs a
unfolding compact
contains-compact [] a = refl
contains-compact (v ∷ vs) a = contains-compact_after v vs a

-- Whether a record holds the target of a key.
abbrev pub offers_one : TargetKey → Endpoint → Bool
offers_one k r = (r.dns_name == k.0) && ((r.record_type == k.1.0) && contains r.targets k.1.1)

abbrev pub offers : List Endpoint → TargetKey → Bool
offers rs k = any (offers_one k) rs

offers_one-normalize_endpoint :
    (k : TargetKey) (r : Endpoint) → offers_one k (normalize_endpoint r) ≡ offers_one k r
unfolding normalize_endpoint
offers_one-normalize_endpoint k r =
    ground
      (arith, contains-compact (sort_texts r.targets) k.1.1, contains-sort_texts r.targets k.1.1)

offers-map-normalize_endpoint :
    (rs : List Endpoint) (k : TargetKey) → offers (map normalize_endpoint rs) k ≡ offers rs k
offers-map-normalize_endpoint [] k = refl
offers-map-normalize_endpoint (r ∷ rs) k =
    ground (arith, offers_one-normalize_endpoint k r, offers-map-normalize_endpoint rs k)

-- The canonical form holds the same targets.
pub offers-normalize_endpoints :
    (vs : List (Option Endpoint)) (k : TargetKey)
    → offers (normalize_endpoints vs) k ≡ offers (present vs) k
unfolding normalize_endpoints
offers-normalize_endpoints vs k =
    any-sort_by endpoint_key (offers_one k) (map normalize_endpoint (present vs))
    ∙ offers-map-normalize_endpoint (present vs) k

pub present-map-some : (rs : List Endpoint) → present (map some rs) ≡ rs
present-map-some [] = refl
present-map-some (r ∷ rs) = ap (◌∷◌ r) (present-map-some rs)

contains-add_targets :
    (d t : Text) (ts : List Text) (set : List TargetKey) (k : TargetKey)
    → contains (add_targets d t ts set) k
      ≡ (((d == k.0) && ((t == k.1.0) && contains ts k.1.1)) || contains set k)
unfolding add_targets
contains-add_targets d t [] set k = ground arith
contains-add_targets d t (x ∷ ts) set k = ground (
  arith,
  contains-add_targets d t ts (set_insert (d, (t, x)) set) k,
  contains-set_insert (d, (t, x)) set k,
  ==_iff d k.0,
  ==_iff k.0 d,
  ==_iff t k.1.0,
  ==_iff k.1.0 t,
)

contains-targets_into :
    (set : List TargetKey) (rs : List Endpoint) (k : TargetKey)
    → contains (targets_into set rs) k ≡ (contains set k || offers rs k)
unfolding targets_into
contains-targets_into set [] k = ground arith
contains-targets_into set (r ∷ rs) k = ground (
  arith,
  contains-targets_into (add_targets r.dns_name r.record_type r.targets set) rs k,
  contains-add_targets r.dns_name r.record_type r.targets set k,
)

-- The set of keys of a list of records.
pub contains-endpoint_targets :
    (rs : List Endpoint) (k : TargetKey) → contains (endpoint_targets rs) k ≡ offers rs k
unfolding endpoint_targets
contains-endpoint_targets rs k = contains-targets_into [] rs k

-- A map of records under the joined key of each; the joined key is read back by its first NUL.
abbrev pub IsKeyed : Map Text Endpoint → Type 0
IsKeyed [] = Unit
IsKeyed ((k, r) ∷ m) = ((k ≡ record_key r.dns_name r.record_type) × NoByte 0 r.dns_name) × IsKeyed m

abbrev pub offered : Option Endpoint → Text → Bool
offered none x = false
offered (some r) x = contains r.targets x

joined_key :
    (r : Endpoint) (k : TargetKey)
    → NoByte 0 r.dns_name
    → NoByte 0 k.0
    → record_key r.dns_name r.record_type ≡ record_key k.0 k.1.0
    → (r.dns_name ≡ k.0) × (r.record_type ≡ k.1.0)
joined_key r k p q e = split_at_byte 0 r.dns_name k.0 r.record_type k.1.0 p q e

-- Then a lookup answers for the whole map.
pub offers-values :
    (m : Map Text Endpoint) (k : TargetKey)
    → IsMap m
    → IsKeyed m
    → NoByte 0 k.0
    → offers (values m) k ≡ offered (lookup (record_key k.0 k.1.0) m) k.1.1
unfolding lookup
offers-values [] k h g n = refl
offers-values ((j, r) ∷ m) k h g n = ground (
  arith,
  offers-values m k h.1 g.1 n,
  lookup_of_absent m j h.0,
  ==_iff (record_key k.0 k.1.0) j,
  ==_iff r.dns_name k.0,
  ==_iff r.record_type k.1.0,
  joined_key r k g.0.1 n,
)
