-- ===== src/Controller/Emitter/Notes.antt =====
-- internal/controller/diagnostics.go: the note of an event, and the key of its source.
pub mod Laws
use labdns.Base.{
  ℕ, zero, suc, ◌||◌, ◌+◌, ◌-◌, Bool, true, false, ◌&&◌, List, [], ◌∷◌, ◌++◌, Text, codes, is_empty,
  length, leb, ltb, if◌then◌else◌,
}
use labdns.Source.Types.{ingress_kind}
use labdns.Source.Routes.{RouteKind, kind_name, service_kind}
use labdns.Controller.Emitter.{SourceKey}

abbrev pub note_limit : ℕ
note_limit = 1024

-- An ellipsis in UTF-8, and the hint.
abbrev pub truncation_suffix : Text
truncation_suffix = 226 ∷ 128 ∷ 166 ∷ codes " (see manager logs)"

abbrev between : ℕ → ℕ → ℕ → Bool
between low high c = leb low c && leb c high

abbrev continues : ℕ → Bool
continues c = between 128 191 c

-- Whether the bytes are the UTF-8 encoding of one rune.
abbrev pub is_rune : Text → Bool
is_rune (a ∷ []) = ltb a 128
is_rune (a ∷ b ∷ []) = between 194 223 a && continues b
is_rune (a ∷ b ∷ c ∷ []) =
    ((between 224 224 a && between 160 191 b)
      || ((between 225 236 a || between 238 239 a) && continues b)
      || (between 237 237 a && between 128 159 b))
    && continues c
is_rune (a ∷ b ∷ c ∷ d ∷ []) =
    ((between 240 240 a && between 144 191 b)
      || (between 241 243 a && continues b)
      || (between 244 244 a && between 128 143 b))
    && continues c
    && continues d
is_rune _ = false

abbrev pub first_bytes : ℕ → Text → Text
first_bytes zero s = []
first_bytes (suc n) [] = []
first_bytes (suc n) (c ∷ s) = c ∷ first_bytes n s

-- What Go writes for a byte at which no rune starts: the encoding of U+FFFD.
abbrev pub replacement : Text
replacement = 239 ∷ 191 ∷ 189 ∷ []

-- The rune at the start of a text, and how many bytes behind the first one it takes.
abbrev pub first_rune : Text → Text × ℕ
first_rune s =
    if is_rune (first_bytes 1 s)
    then (first_bytes 1 s, 0)
    else if is_rune (first_bytes 2 s)
    then (first_bytes 2 s, 1)
    else if is_rune (first_bytes 3 s)
    then (first_bytes 3 s, 2)
    else if is_rune (first_bytes 4 s)
    then (first_bytes 4 s, 3)
    else (replacement, 0)

-- The runes after so many bytes.
unfoldable pub runes_after : ℕ → Text → List Text
runes_after n [] = []
runes_after (suc n) (c ∷ s) = runes_after n s
runes_after zero (c ∷ s) = let (rune, more) = first_rune (c ∷ s) in rune ∷ runes_after more s

-- `range message`: the runes, as they are written, of any text.
unfoldable pub runes_of : Text → List Text
unfolding runes_after
runes_of s = runes_after 0 s

-- The loop over the runes: those that fit, after so many bytes.
unfoldable pub take_runes : ℕ → ℕ → List Text → Text
take_runes limit used [] = []
take_runes limit used (rune ∷ runes) =
    let rest = take_runes limit (used + length rune) runes in
    if ltb limit (used + length rune) then [] else rune ++ rest

unfoldable pub event_diagnostic_message : Text → Text
unfolding runes_of take_runes
event_diagnostic_message message =
    if leb (length message) note_limit
    then message
    else take_runes (note_limit - length truncation_suffix) 0 (runes_of message)
      ++ truncation_suffix

-- The Go type of an object that diagnostics are about.
pub data ObjectType : Type 0 where
  ingress_object service_object other_object : ObjectType
  route_object : RouteKind → ObjectType

abbrev pub kind_of_type : ObjectType → Text
kind_of_type ingress_object = ingress_kind
kind_of_type (route_object kind) = kind_name kind
kind_of_type service_object = service_kind
kind_of_type other_object = []

-- From the kind that the object states, which may be empty, its type, namespace, name and UID.
unfoldable pub source_key_for : Text → ObjectType → Text → Text → Text → SourceKey
source_key_for stated type namespace name uid = record {
  kind = if is_empty stated then kind_of_type type else stated;
  namespace = namespace;
  name = name;
  uid = uid;
}
