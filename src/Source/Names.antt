-- ===== src/Source/Names.antt =====
-- internal/source/names.go: host names and zones.
use labdns.Base.{
  ◌≡◌, refl, sym, ap, subst, ◌↔◌, ◌++◌, inr, Bool-cases, ◌≤◌, ◌⊎◌, inl, Bool, true, ◌&&◌, ◌||◌, not,
  none, some, List, [], ◌∷◌, Text, codes, ltb, length, map, arith, if◌then◌else◌, ◌==◌, ==_iff,
  list_eq, nat_eq, to_lower, trim_suffix, trim_prefix, trim_space, cut_prefix, contains_byte,
  has_suffix, contains, ==_refl,
}
use labdns.Base.Results.{Result, ok, err}
use labdns.Platform.{Platform}
use labdns.Source.Errors.{SourceError, plain, mark_invalid}

abbrev pub invalid_source : SourceError
invalid_source = mark_invalid plain

abbrev pub wildcard : Text
wildcard = codes "*."

unfoldable pub normalize_hostname : Platform → Text → Result SourceError Text
unfolding to_lower trim_suffix trim_space cut_prefix contains_byte
normalize_hostname p raw =
    let value = to_lower (trim_suffix (trim_space raw) b'.') in
    elim (cut_prefix value wildcard) [
      | some check ↦
          if contains_byte check b'*' || not (p.is_dns1123_subdomain check)
          then err invalid_source
          else ok value
      | none ↦
          if contains_byte value b'*' || not (p.is_dns1123_subdomain value)
          then err invalid_source
          else ok value
    ]

abbrev pub normal_zone : Text → Text
normal_zone zone = to_lower (trim_suffix zone b'.')

-- The host name is the zone, or ends with a dot and the zone.
abbrev pub in_zone : Text → Text → Bool
in_zone hostname zone = (hostname == zone) || has_suffix hostname (b'.' ∷ zone)

unfoldable pub longest_zone : Text → Text → List Text → Text
longest_zone hostname best [] = best
longest_zone hostname best (zone ∷ zones) =
    longest_zone hostname
      (if in_zone hostname (normal_zone zone) && ltb (length best) (length (normal_zone zone))
        then normal_zone zone
        else best)
      zones

abbrev pub normal_host : Text → Text
normal_host hostname = trim_prefix (to_lower (trim_suffix hostname b'.')) wildcard

unfoldable pub matching_zone : Text → List Text → Text
unfolding longest_zone
matching_zone hostname zones = longest_zone (normal_host hostname) [] zones

longest_zone-grows :
    (hostname best : Text) (zones : List Text)
    → length best ≤ length (longest_zone hostname best zones)
unfolding longest_zone
longest_zone-grows hostname best [] = omega arith
longest_zone-grows hostname best (zone ∷ zones) = ground (
  arith,
  longest_zone-grows hostname best zones,
  longest_zone-grows hostname (normal_zone zone) zones,
)

longest_zone_max :
    (hostname best : Text) (zones : List Text) (zone : Text)
    → contains zones zone ≡ true
    → in_zone hostname (normal_zone zone) ≡ true
    → length (normal_zone zone) ≤ length (longest_zone hostname best zones)
unfolding longest_zone
longest_zone_max hostname best [] zone m h = ground arith
longest_zone_max hostname best (z ∷ zones) zone m h = ground (
  arith,
  ==_iff zone z,
  longest_zone_max hostname best zones zone,
  longest_zone_max hostname (normal_zone z) zones zone,
  longest_zone-grows hostname best zones,
  longest_zone-grows hostname (normal_zone z) zones,
)

longest_zone_found :
    (hostname best : Text) (zones : List Text)
    → (longest_zone hostname best zones ≡ best)
      ⊎ ((contains (map normal_zone zones) (longest_zone hostname best zones) ≡ true)
          × (in_zone hostname (longest_zone hostname best zones) ≡ true))
unfolding longest_zone
longest_zone_found hostname best [] = inl refl
longest_zone_found hostname best (z ∷ zones) = ground (
  arith,
  longest_zone_found hostname best zones,
  longest_zone_found hostname (normal_zone z) zones,
  ==_refl (normal_zone z),
)

-- The host name is the zone, or some labels, a dot, and the zone.
abbrev pub IsInZone : Text → Text → Type 0
IsInZone hostname zone = (hostname ≡ zone) ⊎ ((labels : Text) × (hostname ≡ labels ++ b'.' ∷ zone))

has_suffix_found : (s t : Text) → has_suffix s t ≡ true → (before : Text) × (s ≡ before ++ t)
unfolding has_suffix
has_suffix_found [] t h = ([], (==_iff [] t).0 h)
has_suffix_found (c ∷ s) t h = elim (Bool-cases ((c ∷ s) == t)) [
  | inl same ↦ ([], (==_iff (c ∷ s) t).0 same)
  | inr other ↦
      let (before, found) = has_suffix_found s t (ground (arith, h, other)) in
      (c ∷ before, ap (λ r. c ∷ r) found)
]

has_suffix-append : (before t : Text) → has_suffix (before ++ t) t ≡ true
unfolding has_suffix
has_suffix-append [] [] = refl
has_suffix-append [] (c ∷ t) = rw (==_refl (c ∷ t)) refl
has_suffix-append (c ∷ before) t = ground (arith, has_suffix-append before t)

in_zone_iff : (hostname zone : Text) → (in_zone hostname zone ≡ true) ↔ IsInZone hostname zone
in_zone_iff hostname zone = (
  λ h. elim (Bool-cases (hostname == zone)) [
    | inl same ↦ inl ((==_iff hostname zone).0 same)
    | inr other ↦ inr (has_suffix_found hostname (b'.' ∷ zone) (ground (arith, h, other)))
  ],
  λ h. elim h [
    | inl same ↦ rw same (rw (==_refl zone) refl)
    | inr (labels, same) ↦ ground (
      arith,
      subst (λ s. has_suffix s (b'.' ∷ zone) ≡ true) (sym same)
          (has_suffix-append labels (b'.' ∷ zone)),
    )
  ],
)

-- The chosen zone is a configured one that the host name lies in, or none; and no configured zone that
-- the host name lies in is longer. A host name lies in a zone if it is the zone, or ends with a dot and
-- the zone.
pub matching_zone_lem :
    (hostname : Text) (zones : List Text)
    → ((matching_zone hostname zones ≡ [])
        ⊎ ((contains (map normal_zone zones) (matching_zone hostname zones) ≡ true)
            × IsInZone (normal_host hostname) (matching_zone hostname zones)))
      × ((zone : Text)
          → contains zones zone ≡ true
          → IsInZone (normal_host hostname) (normal_zone zone)
          → length (normal_zone zone) ≤ length (matching_zone hostname zones))
unfolding matching_zone
matching_zone_lem hostname zones = (
  elim (longest_zone_found (normal_host hostname) [] zones) [
    | inl none_such ↦ inl none_such
    | inr (member, inside) ↦ inr (member, (in_zone_iff (normal_host hostname) _).0 inside)
  ],
  λ zone member inside.
      longest_zone_max (normal_host hostname) [] zones zone member
        ((in_zone_iff (normal_host hostname) (normal_zone zone)).1 inside),
)
