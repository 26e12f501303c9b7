-- ===== src/Dnsendpoint/Endpoints/Laws/Normalize.antt =====
-- The targets of the desired records, and their keys.
use labdns.Base.{
  ◌≡◌, refl, sym, ap, ◌∙◌, Bool, true, ◌||◌, ◌&&◌, Option, some, List, [], ◌∷◌, ◌++◌, map, Text,
  Map, ◌==◌, ==_iff, list_eq, nat_eq, pair_eq, pair_ord, text_ord, contains, Distinct, lookup,
  insert, values, keys, any, All, NoByte, split_at_byte, IsMap, arith, Bool-cases, Option-cases,
  inl, inr, subst, lookup-insert, insert-IsMap, contains-append, contains-sort_texts, sort_texts,
  sort_by-All, sort_by-Distinct,
}
use labdns.Source.Types.{Record}
use labdns.Dnsendpoint.Lifecycle.{TargetKey}
use labdns.Dnsendpoint.Endpoints.{
  Endpoint, compact, normalize_endpoint, normalize_endpoints, present, record_key, endpoint_key,
  endpoint_of, normal_name, add_record, add_records, normalize_records,
}
use labdns.Dnsendpoint.Endpoints.Laws.{
  offers, offered, IsKeyed, offers-values, offers-normalize_endpoints, present-map-some,
  contains-compact,
}

abbrev pub HasPlainName : Endpoint → Type 0
HasPlainName r = NoByte 0 r.dns_name

-- Every entry stands under the key that is joined from its own fields.
abbrev pub Fits : Text → Endpoint → Type 0
Fits k r = (k ≡ record_key r.dns_name r.record_type) × HasPlainName r

pub IsKeyed-insert :
    (k : Text) (r : Endpoint) (m : Map Text Endpoint)
    → Fits k r
    → IsKeyed m
    → IsKeyed (insert k r m)
unfolding insert
IsKeyed-insert k r [] f g = (f, tt)
IsKeyed-insert k r ((j, s) ∷ m) f g = elim (Bool-cases (k == j)) [
  | inl e ↦ rw e (f, g.1)
  | inr e ↦ rw e (g.0, IsKeyed-insert k r m f g.1)
]

pub IsKeyed-lookup :
    (k : Text) (r : Endpoint) (m : Map Text Endpoint) → IsKeyed m → lookup k m ≡ some r → Fits k r
unfolding lookup
IsKeyed-lookup k r [] g e = absurd (ground arith)
IsKeyed-lookup k r ((j, s) ∷ m) g e = elim (Bool-cases (k == j)) [
  | inl h ↦
      let same : s ≡ r = ground arith in
      let at : k ≡ j = (==_iff k j).0 h in
      (
        at ∙ g.0.0 ∙ ap (λ (u : Endpoint). record_key u.dns_name u.record_type) same,
        subst HasPlainName same g.0.1,
      )
  | inr h ↦ IsKeyed-lookup k r m g.1 (ground arith)
]

-- Whether one of the requested records, its name in the normal form, holds the target of a key.
abbrev pub requests : List Record → TargetKey → Bool
requests rs k =
    any
      (λ r.
        (normal_name r.dns_name == k.0) && ((r.record_type == k.1.0) && contains r.targets k.1.1))
      rs

abbrev pub HasPlainRecord : Record → Type 0
HasPlainRecord r = NoByte 0 (normal_name r.dns_name)

abbrev own_key : Record → Text
own_key r = record_key (normal_name r.dns_name) r.record_type

module _ (by_record : Map Text Endpoint) (r : Record) where
  add_record-IsKeyed : IsKeyed by_record → HasPlainRecord r → IsKeyed (add_record by_record r)
  unfolding add_record
  add_record-IsKeyed g n = elim (Option-cases (lookup (own_key r) by_record)) [
    | inl e ↦ rw (e, add_record) (IsKeyed-insert (own_key r) (endpoint_of r) by_record (refl, n) g)
    | inr (s, e) ↦
        rw (e, add_record)
          (IsKeyed-insert (own_key r) _ by_record (IsKeyed-lookup (own_key r) s by_record g e) g)
  ]

  add_record-IsMap : IsMap by_record → IsMap (add_record by_record r)
  unfolding add_record
  add_record-IsMap h = elim (Option-cases (lookup (own_key r) by_record)) [
    | inl e ↦ rw (e, add_record) (insert-IsMap (own_key r) (endpoint_of r) by_record h)
    | inr (s, e) ↦ rw (e, add_record) (insert-IsMap (own_key r) _ by_record h)
  ]

  offered-add_record :
      (k : Text) (x : Text)
      → offered (lookup k (add_record by_record r)) x
        ≡ (((own_key r == k) && contains r.targets x) || offered (lookup k by_record) x)
  unfolding add_record
  offered-add_record k x = elim (Option-cases (lookup (own_key r) by_record)) [
    | inl e ↦ ground (
      arith,
      lookup-insert (own_key r) (endpoint_of r) by_record k,
      ==_iff (own_key r) k,
      ==_iff k (own_key r),
      contains-compact (sort_texts r.targets) x,
      contains-sort_texts r.targets x,
    )
    | inr (s, e) ↦
        let joined : List Text = s.targets ++ compact (sort_texts r.targets) in
        ground (
          arith,
          lookup-insert (own_key r) (record s { targets = joined }) by_record k,
          ==_iff (own_key r) k,
          ==_iff k (own_key r),
          contains-append s.targets (compact (sort_texts r.targets)) x,
          contains-compact (sort_texts r.targets) x,
          contains-sort_texts r.targets x,
        )
  ]

add_records-IsKeyed :
    (m : Map Text Endpoint) (rs : List Record)
    → IsKeyed m
    → All HasPlainRecord rs
    → IsKeyed (add_records m rs)
unfolding add_records
add_records-IsKeyed m [] g n = g
add_records-IsKeyed m (r ∷ rs) g n =
    add_records-IsKeyed (add_record m r) rs (add_record-IsKeyed m r g n.0) n.1

add_records-IsMap : (m : Map Text Endpoint) (rs : List Record) → IsMap m → IsMap (add_records m rs)
unfolding add_records
add_records-IsMap m [] h = h
add_records-IsMap m (r ∷ rs) h = add_records-IsMap (add_record m r) rs (add_record-IsMap m r h)

own_key_eq :
    (r : Record) (k : TargetKey)
    → HasPlainRecord r
    → NoByte 0 k.0
    → (own_key r == record_key k.0 k.1.0)
      ≡ ((normal_name r.dns_name == k.0) && (r.record_type == k.1.0))
own_key_eq r k n m = ground (
  arith,
  ==_iff (own_key r) (record_key k.0 k.1.0),
  ==_iff (normal_name r.dns_name) k.0,
  ==_iff r.record_type k.1.0,
  split_at_byte 0 (normal_name r.dns_name) k.0 r.record_type k.1.0 n m,
)

offered-add_records :
    (m : Map Text Endpoint) (rs : List Record) (k : TargetKey)
    → All HasPlainRecord rs
    → NoByte 0 k.0
    → offered (lookup (record_key k.0 k.1.0) (add_records m rs)) k.1.1
      ≡ (requests rs k || offered (lookup (record_key k.0 k.1.0) m) k.1.1)
unfolding add_records
offered-add_records m [] k n p = refl
offered-add_records m (r ∷ rs) k n p = ground (
  arith,
  offered-add_records (add_record m r) rs k n.1 p,
  offered-add_record m r (record_key k.0 k.1.0) k.1.1,
  own_key_eq r k n.0 p,
)

-- The normalised records hold exactly the requested targets, under the normalised names, where no name
-- holds a NUL byte.
pub offers-normalize_records :
    (rs : List Record) (k : TargetKey)
    → All HasPlainRecord rs
    → NoByte 0 k.0
    → offers (normalize_records rs) k ≡ requests rs k
unfolding normalize_records lookup
offers-normalize_records rs k n p =
    let m : Map Text Endpoint = add_records [] rs in
    ground (
      arith,
      offers-normalize_endpoints (map some (values m)) k,
      present-map-some (values m),
      offers-values m k (add_records-IsMap [] rs tt) (add_records-IsKeyed [] rs tt n) p,
      offered-add_records [] rs k n p,
    )

-- Each pair of name and type once.
abbrev pub HasDistinctKeys : List Endpoint → Type 0
HasDistinctKeys rs = Distinct (map endpoint_key rs)

contains-values :
    (m : Map Text Endpoint) (k : Text × Text)
    → IsKeyed m
    → contains (map endpoint_key (values m)) k ≡ true
    → contains (keys m) (record_key k.0 k.1) ≡ true
contains-values [] k g c = ground arith
contains-values ((j, r) ∷ m) k g c =
    ground
      (arith, contains-values m k g.1, ==_iff k (endpoint_key r), ==_iff (record_key k.0 k.1) j)

values-HasDistinctKeys : (m : Map Text Endpoint) → IsKeyed m → IsMap m → HasDistinctKeys (values m)
values-HasDistinctKeys [] g h = tt
values-HasDistinctKeys ((j, r) ∷ m) g h =
    (ground (arith, contains-values m (endpoint_key r) g.1), values-HasDistinctKeys m g.1 h.1)

keys-map-normalize_endpoint :
    (rs : List Endpoint) → map endpoint_key (map normalize_endpoint rs) ≡ map endpoint_key rs
unfolding normalize_endpoint
keys-map-normalize_endpoint [] = refl
keys-map-normalize_endpoint (r ∷ rs) = ap (◌∷◌ (endpoint_key r)) (keys-map-normalize_endpoint rs)

names-map-normalize_endpoint :
    (rs : List Endpoint) → All HasPlainName rs → All HasPlainName (map normalize_endpoint rs)
unfolding normalize_endpoint
names-map-normalize_endpoint [] n = tt
names-map-normalize_endpoint (r ∷ rs) n = (n.0, names-map-normalize_endpoint rs n.1)

pub normalize_endpoints-HasDistinctKeys :
    (vs : List (Option Endpoint))
    → HasDistinctKeys (present vs)
    → HasDistinctKeys (normalize_endpoints vs)
unfolding normalize_endpoints
normalize_endpoints-HasDistinctKeys vs d =
    sort_by-Distinct endpoint_key (map normalize_endpoint (present vs))
      (rw (keys-map-normalize_endpoint (present vs)) d)

pub normalize_endpoints-plain :
    (vs : List (Option Endpoint))
    → All HasPlainName (present vs)
    → All HasPlainName (normalize_endpoints vs)
unfolding normalize_endpoints
normalize_endpoints-plain vs n =
    sort_by-All endpoint_key HasPlainName (map normalize_endpoint (present vs))
      (names-map-normalize_endpoint (present vs) n)

pub values-plain : (m : Map Text Endpoint) → IsKeyed m → All HasPlainName (values m)
values-plain [] g = tt
values-plain ((j, r) ∷ m) g = (g.0.1, values-plain m g.1)

-- Among the normalised records a pair of name and type stands once, where no name holds a NUL byte.
pub normalize_records-HasDistinctKeys :
    (rs : List Record) → All HasPlainRecord rs → HasDistinctKeys (normalize_records rs)
unfolding normalize_records
normalize_records-HasDistinctKeys rs n =
    let m : Map Text Endpoint = add_records [] rs in
    normalize_endpoints-HasDistinctKeys (map some (values m)) (
      subst HasDistinctKeys (sym (present-map-some (values m)))
        (values-HasDistinctKeys m (add_records-IsKeyed [] rs tt n) (add_records-IsMap [] rs tt)))

pub normalize_records-plain :
    (rs : List Record) → All HasPlainRecord rs → All HasPlainName (normalize_records rs)
unfolding normalize_records
normalize_records-plain rs n =
    let m : Map Text Endpoint = add_records [] rs in
    normalize_endpoints-plain (map some (values m)) (
      subst (All HasPlainName) (sym (present-map-some (values m)))
        (values-plain m (add_records-IsKeyed [] rs tt n)))
