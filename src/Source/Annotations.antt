-- ===== src/Source/Annotations.antt =====
-- internal/source/annotations.go: inheriting and parsing the annotations of a source.
pub mod Laws
use labdns.Base.{
  ℕ, ◌+◌, ◌*◌, ◌-◌, ◌^◌, Bool, true, false, ◌&&◌, ◌||◌, not, Option, none, some, List, [], ◌∷◌,
  ◌++◌, Text, Map, ℤ, pos, negsuc, is_negative, codes, lookup, retain, copy_into, is_empty, length,
  ltb, leb, if◌then◌else◌, ◌==◌, list_eq, nat_eq, text_ord, contains, has_prefix, split, trim_space,
  to_lower, set_insert_all, sort_texts, keep, map,
}
use labdns.Base.Results.{Result, ok, err, ◌>>=◌, ◌>>◌, guard}
use labdns.Platform.{Platform}
use labdns.Source.Errors.{SourceError, mark_invalid}
use labdns.Source.Names.{invalid_source, normalize_hostname}
use labdns.Source.Types.{annotation_prefix, external_dns_prefix}

abbrev pub enabled_annotation : Text
enabled_annotation = annotation_prefix ++ codes "enabled"

abbrev pub providers_annotation : Text
providers_annotation = annotation_prefix ++ codes "providers"

abbrev pub hostnames_annotation : Text
hostnames_annotation = annotation_prefix ++ codes "hostnames"

abbrev pub ttl_annotation : Text
ttl_annotation = annotation_prefix ++ codes "ttl"

abbrev pub families_annotation : Text
families_annotation = annotation_prefix ++ codes "address-families"

abbrev pub deletion_delay_annotation : Text
deletion_delay_annotation = annotation_prefix ++ codes "deletion-delay"

abbrev pub is_relevant : Text → Bool
is_relevant key = has_prefix key annotation_prefix || has_prefix key external_dns_prefix

unfoldable pub relevant_annotations : Map Text Text → Map Text Text
relevant_annotations annotations = retain (λ key value. is_relevant key) annotations

unfoldable pub merge_into : Map Text Text → List (Map Text Text) → Map Text Text
unfolding relevant_annotations
merge_into out [] = out
merge_into out (level ∷ levels) = merge_into (copy_into out (relevant_annotations level)) levels

-- Later levels win.
unfoldable pub merge_annotations : List (Map Text Text) → Map Text Text
unfolding merge_into
merge_annotations levels = merge_into [] levels

pub data AddressFamily : Type 0 where
  ipv4 ipv6 : AddressFamily

pub record ParsedAnnotations : Type 0 where
  pub enabled : Bool
  pub providers : List Text
  pub hostnames : List Text
  pub ttl : Option ℕ
  pub families : List AddressFamily
  pub deletion_delay : Option ℤ
  pub resolved : Map Text Text

unfoldable pub sorted_unique : List Text → List Text
sorted_unique values = sort_texts (set_insert_all values [])

abbrev pub nonempty_items : List Text → List Text
nonempty_items [] = []
nonempty_items (item ∷ items) =
    let rest = nonempty_items items in
    if is_empty (trim_space item) then rest else trim_space item ∷ rest

unfoldable pub comma_list : Text → List Text
unfolding sorted_unique split trim_space
comma_list value = sorted_unique (nonempty_items (split value b','))

-- `strconv.ParseBool`
unfoldable pub parse_bool : Text → Option Bool
parse_bool s =
    if contains (map codes ("1" ∷ "t" ∷ "T" ∷ "TRUE" ∷ "true" ∷ "True" ∷ [])) s
    then some true
    else if contains (map codes ("0" ∷ "f" ∷ "F" ∷ "FALSE" ∷ "false" ∷ "False" ∷ [])) s
    then some false
    else none

unfoldable pub digits_from : ℕ → Text → Option ℕ
digits_from acc [] = some acc
digits_from acc (c ∷ s) =
    let rest = digits_from (acc * 10 + (c - b'0')) s in
    if leb b'0' c && leb c b'9' then rest else none

-- The digits of a number that is not empty, up to a bound.
abbrev bounded_digits : ℕ → Text → Option ℕ
bounded_digits bound [] = none
bounded_digits bound (c ∷ s) = elim (digits_from 0 (c ∷ s)) [
  | none ↦ none
  | some n ↦ if leb n bound then some n else none
]

-- `strconv.ParseInt(s, 10, 64)` where the result is used: a number that is at least 1.
unfoldable pub parse_positive : Text → Option ℕ
unfolding digits_from
parse_positive [] = none
parse_positive (c ∷ s) =
    let digits =
      if c == b'+' then bounded_digits (2 ^ 63 - 1) s else bounded_digits (2 ^ 63 - 1) (c ∷ s) in
    elim digits [ none ↦ none | some n ↦ if leb 1 n then some n else none ]

unfoldable pub check_provider : Platform → Text → Result SourceError (Unit {0})
check_provider p name = do
  guard (not (ltb 63 (length name))) invalid_source
  guard (p.is_dns1123_subdomain name) invalid_source

abbrev pub for_each :
    (Text → Result SourceError (Unit {0})) → List Text → Result SourceError (Unit {0})
for_each check [] = ok tt
for_each check (x ∷ xs) = check x >> for_each check xs

unfoldable pub normalize_hostnames : Platform → List Text → Result SourceError (List Text)
normalize_hostnames p [] = ok []
normalize_hostnames p (hostname ∷ hostnames) = elim (normalize_hostname p hostname) [
  | err e ↦ err (mark_invalid e)
  | ok normalized ↦ elim (normalize_hostnames p hostnames) [
    | err e ↦ err e
    | ok rest ↦ ok (normalized ∷ rest)
  ]
]

abbrev family_of : Text → Option AddressFamily
family_of name =
    if name == codes "ipv4" then some ipv4 else if name == codes "ipv6" then some ipv6 else none

unfoldable pub parse_families : List Text → Result SourceError (List AddressFamily)
parse_families [] = ok []
parse_families (family ∷ families) = elim (family_of (to_lower family)) [
  | none ↦ err invalid_source
  | some f ↦ elim (parse_families families) [ err e ↦ err e | ok rest ↦ ok (f ∷ rest) ]
]

abbrev pub has_family : AddressFamily → List AddressFamily → Bool
has_family f [] = false
has_family ipv4 (ipv4 ∷ fs) = true
has_family ipv4 (ipv6 ∷ fs) = has_family ipv4 fs
has_family ipv6 (ipv6 ∷ fs) = true
has_family ipv6 (ipv4 ∷ fs) = has_family ipv6 fs

abbrev family_if : Bool → AddressFamily → List AddressFamily
family_if here f = if here then f ∷ [] else []

-- Each family once, "ipv4" before "ipv6".
unfoldable pub unique_families : List AddressFamily → List AddressFamily
unique_families fs = family_if (has_family ipv4 fs) ipv4 ++ family_if (has_family ipv6 fs) ipv6

module _ (p : Platform) where
  unfoldable pub parse_enabled : Option Text → Result SourceError Bool
  unfolding parse_bool
  parse_enabled none = ok false
  parse_enabled (some value) = elim (parse_bool (trim_space value)) [
    | none ↦ err invalid_source
    | some enabled ↦ ok enabled
  ]

  unfoldable pub parse_providers : Option Text → Result SourceError (List Text)
  unfolding check_provider
  parse_providers none = ok []
  parse_providers (some value) = do
    for_each (check_provider p) (comma_list value)
    ok (comma_list value)

  unfoldable pub parse_hostnames : Option Text → Result SourceError (List Text)
  unfolding normalize_hostnames
  parse_hostnames none = ok []
  parse_hostnames (some value) = do
    hostnames ← normalize_hostnames p (comma_list value)
    ok (sorted_unique hostnames)

  unfoldable pub parse_ttl : Option Text → Result SourceError (Option ℕ)
  parse_ttl none = ok none
  parse_ttl (some value) = elim (parse_positive (trim_space value)) [
    | none ↦ err invalid_source
    | some ttl ↦ if leb ttl 2147483647 then ok (some ttl) else err invalid_source
  ]

  unfoldable pub parse_delay : Option Text → Result SourceError (Option ℤ)
  parse_delay none = ok none
  parse_delay (some value) = elim (p.parse_duration (trim_space value)) [
    | none ↦ err invalid_source
    | some delay ↦ if is_negative delay then err invalid_source else ok (some delay)
  ]

  unfoldable pub parse_family_list : Option Text → Result SourceError (List AddressFamily)
  unfolding parse_families unique_families
  parse_family_list none = ok []
  parse_family_list (some value) = do
    families ← parse_families (comma_list value)
    ok (unique_families families)

  unfoldable pub parse_annotations : Map Text Text → Result SourceError ParsedAnnotations
  unfolding parse_enabled parse_providers parse_hostnames parse_ttl parse_delay parse_family_list
  parse_annotations values = do
    enabled ← parse_enabled (lookup enabled_annotation values)
    providers ← parse_providers (lookup providers_annotation values)
    hostnames ← parse_hostnames (lookup hostnames_annotation values)
    ttl ← parse_ttl (lookup ttl_annotation values)
    delay ← parse_delay (lookup deletion_delay_annotation values)
    families ← parse_family_list (lookup families_annotation values)
    ok (record {
      enabled = enabled;
      providers = providers;
      hostnames = hostnames;
      ttl = ttl;
      families = families;
      deletion_delay = delay;
      resolved = relevant_annotations values;
    })
