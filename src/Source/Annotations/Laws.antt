-- ===== src/Source/Annotations/Laws.antt =====
-- Inheritance of annotations, the canonical lists, and what parsed annotations guarantee.
use labdns.Base.{
  ℕ, ◌≡◌, sym, ◌∙◌, subst, ◌≤◌, true, false, Option, none, some, List, [], ◌∷◌, Text, Map,
  is_negative, ℤ, copy_into, lookup, IsMap, or_else, length, if◌then◌else◌, list_eq, nat_eq,
  contains, All, IsSorted, set_insert_all, set_insert_all-Distinct, contains-set_insert_all,
  sort_texts-IsSorted, contains-sort_texts, Ascending-unique, same_text, lookup-copy_into,
  lookup-retain, retain-IsMap, arith, Option-cases, inl, inr, trim_space, text_ord,
}
use labdns.Base.Results.{ok, >>=-eq-ok}
use labdns.Platform.{Platform}
use labdns.Source.Annotations.{
  is_relevant, relevant_annotations, merge_into, merge_annotations, sorted_unique, comma_list,
  check_provider, for_each, ParsedAnnotations, parse_enabled, parse_providers, parse_hostnames,
  parse_ttl, parse_delay, parse_family_list, parse_annotations, enabled_annotation,
  providers_annotation, hostnames_annotation, ttl_annotation, deletion_delay_annotation,
  families_annotation, normalize_hostnames, parse_positive,
}

-- The value of a key in the last level that has it.
abbrev pub last_value : Text → List (Map Text Text) → Option Text
last_value k [] = none
last_value k (level ∷ levels) = or_else (last_value k levels) (lookup k level)

lookup-relevant_annotations :
    (k : Text) (level : Map Text Text)
    → IsMap level
    → lookup k (relevant_annotations level) ≡ (if is_relevant k then lookup k level else none)
unfolding relevant_annotations
lookup-relevant_annotations k level m =
    ground
      (arith, lookup-retain (λ key value. is_relevant key) level k m, Option-cases (lookup k level))

relevant_annotations-IsMap :
    (level : Map Text Text) → IsMap level → IsMap (relevant_annotations level)
unfolding relevant_annotations
relevant_annotations-IsMap level m = retain-IsMap (λ key value. is_relevant key) level m

lookup-merge_into :
    (out : Map Text Text) (levels : List (Map Text Text)) (k : Text)
    → All IsMap levels
    → lookup k (merge_into out levels)
      ≡ (if is_relevant k then or_else (last_value k levels) (lookup k out) else lookup k out)
unfolding merge_into
lookup-merge_into out [] k m = ground arith
lookup-merge_into out (level ∷ levels) k m = ground (
  arith,
  lookup-merge_into (copy_into out (relevant_annotations level)) levels k m.1,
  lookup-copy_into out (relevant_annotations level) k (relevant_annotations-IsMap level m.0),
  lookup-relevant_annotations k level m.0,
  Option-cases (last_value k levels),
  Option-cases (lookup k level),
)

-- A merged annotation is the one of the most specific level that has the key, also where its value
-- is empty; keys outside the two prefixes are dropped. No level has a key twice.
pub lookup-merge_annotations :
    (levels : List (Map Text Text)) (k : Text)
    → All IsMap levels
    → lookup k (merge_annotations levels) ≡ (if is_relevant k then last_value k levels else none)
unfolding merge_annotations lookup
lookup-merge_annotations levels k m =
    ground (arith, lookup-merge_into [] levels k m, Option-cases (last_value k levels))

pub contains-sorted_unique :
    (values : List Text) (a : Text) → contains (sorted_unique values) a ≡ contains values a
unfolding sorted_unique
contains-sorted_unique values a =
    ground
      (arith, contains-sort_texts (set_insert_all values []) a, contains-set_insert_all values [] a)

pub sorted_unique-IsSorted : (values : List Text) → IsSorted (sorted_unique values)
unfolding sorted_unique
sorted_unique-IsSorted values =
    sort_texts-IsSorted (set_insert_all values []) (set_insert_all-Distinct values [] tt)

comma_list-IsSorted : (value : Text) → IsSorted (comma_list value)
unfolding comma_list
comma_list-IsSorted value = sorted_unique-IsSorted _

-- The list is the only ascending one with the members of the input: neither the order of the input,
-- nor repetitions in it, nor the order in which Go walks a map can change the result.
pub sorted_unique_canonical :
    (values result : List Text)
    → IsSorted result
    → ((a : Text) → contains result a ≡ contains values a)
    → sorted_unique values ≡ result
sorted_unique_canonical values result s same =
    Ascending-unique same_text (sorted_unique values) result (sorted_unique-IsSorted values) s
      (λ a. contains-sorted_unique values a ∙ sym (same a))

abbrev pub IsProviderName : Platform → Text → Type 0
IsProviderName p name = (length name ≤ 63) × (p.is_dns1123_subdomain name ≡ true)

for_each-check_provider :
    (p : Platform) (names : List Text)
    → for_each (check_provider p) names ≡ ok tt
    → All (IsProviderName p) names
unfolding check_provider
for_each-check_provider p [] h = tt
for_each-check_provider p (name ∷ names) h =
    ground (arith, for_each-check_provider p names (ground arith))

abbrev pub IsTtl : Option ℕ → Type 0
IsTtl none = Unit
IsTtl (some ttl) = (1 ≤ ttl) × (ttl ≤ 2147483647)

abbrev pub IsDelay : Option ℤ → Type 0
IsDelay none = Unit
IsDelay (some delay) = is_negative delay ≡ false

-- What the controllers rely on after a successful parse.
pub record IsParsed (p : Platform) (a : ParsedAnnotations) : Type 0 where
  pub providers_named : All (IsProviderName p) a.providers
  pub providers_sorted : IsSorted a.providers
  pub hostnames_sorted : IsSorted a.hostnames
  pub ttl_in_range : IsTtl a.ttl
  pub delay_forward : IsDelay a.deletion_delay

providers_lem :
    (p : Platform) (value : Option Text) (names : List Text)
    → parse_providers p value ≡ ok names
    → All (IsProviderName p) names × IsSorted names
unfolding parse_providers
providers_lem p none names h =
    let same : names ≡ [] = ground arith in
    (subst (All (IsProviderName p)) (sym same) tt, subst IsSorted (sym same) tt)
providers_lem p (some value) names h =
    let (_, checked, done) = >>=-eq-ok (for_each (check_provider p) (comma_list value)) _ h in
    let same : names ≡ comma_list value = ground arith in
    (
      subst (All (IsProviderName p)) (sym same)
          (for_each-check_provider p (comma_list value) checked),
      subst IsSorted (sym same) (comma_list-IsSorted value),
    )

hostnames_lem :
    (p : Platform) (value : Option Text) (names : List Text)
    → parse_hostnames p value ≡ ok names
    → IsSorted names
unfolding parse_hostnames
hostnames_lem p none names h = let same : names ≡ [] = ground arith in subst IsSorted (sym same) tt
hostnames_lem p (some value) names h =
    let (found, _, done) = >>=-eq-ok (normalize_hostnames p (comma_list value)) _ h in
    let same : names ≡ sorted_unique found = ground arith in
    subst IsSorted (sym same) (sorted_unique-IsSorted found)

parse_positive-pos : (s : Text) (n : ℕ) → parse_positive s ≡ some n → 1 ≤ n
unfolding parse_positive
parse_positive-pos [] n h = absurd (ground arith)
parse_positive-pos (c ∷ s) n h = ground arith

ttl_lem :
    (p : Platform) (value : Option Text) (ttl : Option ℕ) → parse_ttl p value ≡ ok ttl → IsTtl ttl
unfolding parse_ttl
ttl_lem p none ttl h = subst IsTtl {x = none} (ground arith) tt
ttl_lem p (some value) ttl h = elim (Option-cases (parse_positive (trim_space value))) [
  | inl e ↦ absurd (ground arith)
  | inr (n, e) ↦
      let found : ttl ≡ some n = ground arith in
      subst IsTtl (sym found) (parse_positive-pos (trim_space value) n e, ground arith)
]

delay_lem :
    (p : Platform) (value : Option Text) (delay : Option ℤ)
    → parse_delay p value ≡ ok delay
    → IsDelay delay
unfolding parse_delay
delay_lem p none delay h = subst IsDelay {x = none} (ground arith) tt
delay_lem p (some value) delay h = elim (Option-cases (p.parse_duration (trim_space value))) [
  | inl e ↦ absurd (ground arith)
  | inr (d, e) ↦
      let found : delay ≡ some d = ground arith in subst IsDelay (sym found) (ground arith)
]

-- A successful parse is the successful parse of each annotation.
pub record IsParseOf (p : Platform) (values : Map Text Text) (a : ParsedAnnotations) : Type 0 where
  pub enabled_from : parse_enabled p (lookup enabled_annotation values) ≡ ok a.enabled
  pub providers_from : parse_providers p (lookup providers_annotation values) ≡ ok a.providers
  pub hostnames_from : parse_hostnames p (lookup hostnames_annotation values) ≡ ok a.hostnames
  pub ttl_from : parse_ttl p (lookup ttl_annotation values) ≡ ok a.ttl
  pub delay_from : parse_delay p (lookup deletion_delay_annotation values) ≡ ok a.deletion_delay
  pub families_from : parse_family_list p (lookup families_annotation values) ≡ ok a.families
  pub resolved_from : a.resolved ≡ relevant_annotations values

pub parse_annotations-IsParseOf :
    (p : Platform) (values : Map Text Text) (a : ParsedAnnotations)
    → parse_annotations p values ≡ ok a
    → IsParseOf p values a
unfolding parse_annotations
parse_annotations-IsParseOf p values a h =
    let (enabled, e1, h1) = >>=-eq-ok (parse_enabled p (lookup enabled_annotation values)) _ h in
    let (names, e2, h2) = >>=-eq-ok (parse_providers p (lookup providers_annotation values)) _ h1 in
    let (hosts, e3, h3) = >>=-eq-ok (parse_hostnames p (lookup hostnames_annotation values)) _ h2 in
    let (ttl, e4, h4) = >>=-eq-ok (parse_ttl p (lookup ttl_annotation values)) _ h3 in
    let (delay, e5, h5) =
      >>=-eq-ok (parse_delay p (lookup deletion_delay_annotation values)) _ h4 in
    let (families, e6, h6) =
      >>=-eq-ok (parse_family_list p (lookup families_annotation values)) _ h5 in
    record {
      enabled_from = ground arith;
      providers_from = ground arith;
      hostnames_from = ground arith;
      ttl_from = ground arith;
      delay_from = ground arith;
      families_from = ground arith;
      resolved_from = ground arith;
    }

-- Accepted annotations name providers that are DNS names of at most 63 bytes, in strict order; the
-- host names stand in strict order; a TTL lies in 1..2147483647; a delay is not negative.
pub parse_annotations-IsParsed :
    (p : Platform) (values : Map Text Text) (a : ParsedAnnotations)
    → parse_annotations p values ≡ ok a
    → IsParsed p a
parse_annotations-IsParsed p values a h =
    let parts = parse_annotations-IsParseOf p values a h in
    let good =
      providers_lem p (lookup providers_annotation values) a.providers parts.providers_from in
    record {
      providers_named = good.0;
      providers_sorted = good.1;
      hostnames_sorted =
          hostnames_lem p (lookup hostnames_annotation values) a.hostnames parts.hostnames_from;
      ttl_in_range = ttl_lem p (lookup ttl_annotation values) a.ttl parts.ttl_from;
      delay_forward =
          delay_lem p (lookup deletion_delay_annotation values) a.deletion_delay parts.delay_from;
    }
