-- ===== src/Tests/Concrete.antt =====
-- A platform at which the program can be run: numbers stand for themselves in its texts, and each text
-- is written with its length in front.
use labdns.Base.{
  ℕ, zero, suc, ◌*◌, ◌^◌, ◌≡◌, refl, false, not, Option, none, some, List, [], ◌∷◌, ◌++◌, Text, ℤ,
  pos, negsuc, length, is_empty, codes,
}
use labdns.Platform.{PendingTarget, Lifecycle, Trailing, eof, another_value, Platform, Laws}

unfoldable cut : ℕ → Text → Option (Text × Text)
cut zero s = some ([], s)
cut (suc n) [] = none
cut (suc n) (c ∷ s) = elim (cut n s) [ none ↦ none | some (t, rest) ↦ some (c ∷ t, rest) ]

abbrev put_text : Text → Text → Text
put_text t rest = length t ∷ (t ++ rest)

unfoldable get_text : Text → Option (Text × Text)
unfolding cut
get_text [] = none
get_text (n ∷ s) = cut n s

abbrev put_item : PendingTarget → Text → Text
put_item i rest =
    put_text i.dns_name (put_text i.record_type (put_text i.target (put_text i.deadline rest)))

unfoldable get_item : Text → Option (PendingTarget × Text)
unfolding get_text
get_item s = elim (get_text s) [
  | none ↦ none
  | some (name, s1) ↦ elim (get_text s1) [
    | none ↦ none
    | some (type, s2) ↦ elim (get_text s2) [
      | none ↦ none
      | some (target, s3) ↦ elim (get_text s3) [
        | none ↦ none
        | some (deadline, s4) ↦ some (
          record { dns_name = name; record_type = type; target = target; deadline = deadline },
          s4,
        )
      ]
    ]
  ]
]

abbrev put_items : List PendingTarget → Text
put_items [] = []
put_items (i ∷ items) = put_item i (put_items items)

unfoldable get_items : ℕ → Text → Option (List PendingTarget × Text)
unfolding get_item
get_items zero s = some ([], s)
get_items (suc n) s = elim (get_item s) [
  | none ↦ none
  | some (i, s1) ↦ elim (get_items n s1) [ none ↦ none | some (items, s2) ↦ some (i ∷ items, s2) ]
]

abbrev pub put_int : ℤ → Text → Text
put_int (pos n) rest = 0 ∷ n ∷ rest
put_int (negsuc n) rest = 1 ∷ n ∷ rest

unfoldable get_int : Text → Option (ℤ × Text)
get_int (zero ∷ n ∷ rest) = some (pos n, rest)
get_int (suc _ ∷ n ∷ rest) = some (negsuc n, rest)
get_int _ = none

unfoldable pub encode : Lifecycle → Text
encode s = put_int s.version (length s.pending ∷ put_items s.pending)

abbrev ending : Text → Trailing
ending [] = eof
ending (c ∷ s) = another_value

unfoldable decode_items : ℤ → Text → Option (Lifecycle × Trailing)
unfolding get_items
decode_items version [] = none
decode_items version (n ∷ s) = elim (get_items n s) [
  | none ↦ none
  | some (items, rest) ↦ some (record { version = version; pending = items }, ending rest)
]

unfoldable pub decode : Text → Option (Lifecycle × Trailing)
unfolding get_int decode_items
decode s = elim (get_int s) [ none ↦ none | some (version, rest) ↦ decode_items version rest ]

unfoldable pub parse_time : Text → Option (ℕ × ℤ)
parse_time (t ∷ []) = some (t, pos 0)
parse_time _ = none

unfoldable pub parse_duration : Text → Option ℤ
unfolding get_int
parse_duration s = elim (get_int s) [ none ↦ none | some (d, rest) ↦ some d ]

abbrev pub platform : Platform
platform = record {
  decode = decode;
  encode = encode;
  parse_time = parse_time;
  format_time = λ t. t ∷ [];
  horizon = 253402300800 * 10 ^ 9;
  parse_duration = parse_duration;
  format_duration = λ d. put_int d [];
  hash16 = λ s. codes "0123456789abcdef";
  is_dns1123_subdomain = λ s. not (is_empty s);
}

cut-append : (t rest : Text) → cut (length t) (t ++ rest) ≡ some (t, rest)
unfolding cut
cut-append [] rest = refl
cut-append (c ∷ t) rest = rw (cut-append t rest) refl

get_item-put_item : (i : PendingTarget) (rest : Text) → get_item (put_item i rest) ≡ some (i, rest)
unfolding get_item
get_item-put_item i rest =
    rw
      (
        cut-append i.dns_name
            (put_text i.record_type (put_text i.target (put_text i.deadline rest))),
        get_item,
      )
      (rw (cut-append i.record_type (put_text i.target (put_text i.deadline rest))) (
        rw (cut-append i.target (put_text i.deadline rest)) (rw (cut-append i.deadline rest) refl)))

get_items-put_items :
    (items : List PendingTarget) → get_items (length items) (put_items items) ≡ some (items, [])
unfolding get_items
get_items-put_items [] = refl
get_items-put_items (i ∷ items) =
    rw (get_item-put_item i (put_items items), get_items) (rw (get_items-put_items items) refl)

decode_items_lem :
    (version : ℤ) (items : List PendingTarget)
    → decode_items version (length items ∷ put_items items)
      ≡ some (record { version = version; pending = items }, eof)
unfolding decode_items
decode_items_lem version items = rw (get_items-put_items items, decode_items) refl

decode-encode : (s : Lifecycle) → decode (encode s) ≡ some (s, eof)
unfolding decode encode get_int
decode-encode s =
    elim s.version
      as (λ (v : ℤ).
        decode (put_int v (length s.pending ∷ put_items s.pending))
        ≡ some (record { version = v; pending = s.pending }, eof)) [
          | pos n ↦ decode_items_lem (pos n) s.pending
          | negsuc n ↦ decode_items_lem (negsuc n) s.pending
        ]

put_int-nonempty : (d : ℤ) (rest : Text) → is_empty (put_int d rest) ≡ false
put_int-nonempty (pos n) rest = refl
put_int-nonempty (negsuc n) rest = refl

parse_duration_lem : (d : ℤ) → parse_duration (put_int d []) ≡ some d
unfolding parse_duration
parse_duration_lem (pos n) = refl
parse_duration_lem (negsuc n) = refl

pub laws : Laws platform
unfolding parse_time encode
laws = record {
  decode-encode = decode-encode;
  encode-nonempty = λ s. put_int-nonempty s.version (length s.pending ∷ put_items s.pending);
  parse-format_time = λ t h. refl;
  parse-format_duration = parse_duration_lem;
  format_duration-nonempty = λ d. put_int-nonempty d [];
}
