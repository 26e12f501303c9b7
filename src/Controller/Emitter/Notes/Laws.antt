-- ===== src/Controller/Emitter/Notes/Laws.antt =====
-- How much of a message an event keeps.
use labdns.Base.{
  zero, suc, All, append_assoc, ℕ, ◌+◌, ◌-◌, ◌≤◌, ◌<◌, ◌≡◌, refl, sym, subst, ap, ◌∙◌, true, false,
  List, [], ◌∷◌, ◌++◌, Text, length, leb, ltb, arith, Bool-cases, inl, inr,
}
use mathlib.Core.Logic.{◌⊎◌}
use labdns.Controller.Emitter.Notes.{
  note_limit, truncation_suffix, is_rune, first_bytes, first_rune, runes_after, runes_of,
  take_runes, event_diagnostic_message,
}

abbrev pub joined : List Text → Text
joined [] = []
joined (rune ∷ runes) = rune ++ joined runes

-- Well-formed UTF-8: the encodings of some runes, one behind the other.
abbrev pub IsUtf8 : Text → Type 0
IsUtf8 s = (runes : List Text) × All (λ rune. is_rune rune ≡ true) runes × (joined runes ≡ s)

first_rune-IsRune : (s : Text) → is_rune (first_rune s).0 ≡ true
first_rune-IsRune s = elim (Bool-cases (is_rune (first_bytes 1 s))) [
  | inl one ↦ rw one one
  | inr not_one ↦ elim (Bool-cases (is_rune (first_bytes 2 s))) [
    | inl two ↦ rw not_one (rw two two)
    | inr not_two ↦ elim (Bool-cases (is_rune (first_bytes 3 s))) [
      | inl three ↦ rw not_one (rw not_two (rw three three))
      | inr not_three ↦ elim (Bool-cases (is_rune (first_bytes 4 s))) [
        | inl four ↦ rw not_one (rw not_two (rw not_three (rw four four)))
        | inr not_four ↦ rw not_one (rw not_two (rw not_three (rw not_four refl)))
      ]
    ]
  ]
]

runes_after-IsRune : (n : ℕ) (s : Text) → All (λ rune. is_rune rune ≡ true) (runes_after n s)
unfolding runes_after
runes_after-IsRune n [] = tt
runes_after-IsRune (suc n) (c ∷ s) = runes_after-IsRune n s
runes_after-IsRune zero (c ∷ s) =
    (first_rune-IsRune (c ∷ s), runes_after-IsRune (first_rune (c ∷ s)).1 s)

runes_of-IsRune : (s : Text) → All (λ rune. is_rune rune ≡ true) (runes_of s)
unfolding runes_of
runes_of-IsRune s = runes_after-IsRune 0 s

-- A rune at the start of a text is found.
runes_of-rune : (rune t : Text) → is_rune rune ≡ true → runes_of (rune ++ t) ≡ rune ∷ runes_of t
unfolding runes_of runes_after
runes_of-rune [] t h = absurd (ground (arith, h))
runes_of-rune (a ∷ []) t h =
    let first : first_rune (a ∷ t) ≡ (a ∷ [], 0) = rw h refl in
    ap (λ r. r.0 ∷ runes_after r.1 t) first
runes_of-rune (a ∷ b ∷ []) t h =
    let not_one : is_rune (a ∷ []) ≡ false = ground (arith, h) in
    let first : first_rune (a ∷ b ∷ t) ≡ (a ∷ b ∷ [], 1) = rw not_one (rw h refl) in
    ap (λ r. r.0 ∷ runes_after r.1 (b ∷ t)) first
runes_of-rune (a ∷ b ∷ c ∷ []) t h =
    let not_one : is_rune (a ∷ []) ≡ false = ground (arith, h) in
    let not_two : is_rune (a ∷ b ∷ []) ≡ false = ground (arith, h) in
    let first : first_rune (a ∷ b ∷ c ∷ t) ≡ (a ∷ b ∷ c ∷ [], 2) =
      rw not_one (rw not_two (rw h refl)) in
    ap (λ r. r.0 ∷ runes_after r.1 (b ∷ c ∷ t)) first
runes_of-rune (a ∷ b ∷ c ∷ d ∷ []) t h =
    let not_one : is_rune (a ∷ []) ≡ false = ground (arith, h) in
    let not_two : is_rune (a ∷ b ∷ []) ≡ false = ground (arith, h) in
    let not_three : is_rune (a ∷ b ∷ c ∷ []) ≡ false = ground (arith, h) in
    let first : first_rune (a ∷ b ∷ c ∷ d ∷ t) ≡ (a ∷ b ∷ c ∷ d ∷ [], 3) =
      rw not_one (rw not_two (rw not_three (rw h refl))) in
    ap (λ r. r.0 ∷ runes_after r.1 (b ∷ c ∷ d ∷ t)) first
runes_of-rune (a ∷ b ∷ c ∷ d ∷ e ∷ s) t h = absurd (ground (arith, h))

-- Decoding finds the runes that a text is made of.
runes_of-joined :
    (runes : List Text) → All (λ rune. is_rune rune ≡ true) runes → runes_of (joined runes) ≡ runes
unfolding runes_of runes_after
runes_of-joined [] h = refl
runes_of-joined (rune ∷ runes) h =
    runes_of-rune rune (joined runes) h.0 ∙ ap (λ rs. rune ∷ rs) (runes_of-joined runes h.1)

-- Of a text in well-formed UTF-8 nothing is lost or replaced.
joined-runes_of : (s : Text) → IsUtf8 s → joined (runes_of s) ≡ s
joined-runes_of s (runes, good, same) =
    subst (λ t. joined (runes_of t) ≡ t) same (ap joined (runes_of-joined runes good))

All-left_part :
    (left right : List Text)
    → All (λ rune. is_rune rune ≡ true) (left ++ right)
    → All (λ rune. is_rune rune ≡ true) left
All-left_part [] right h = tt
All-left_part (rune ∷ left) right h = (h.0, All-left_part left right h.1)

suffixed-IsUtf8 :
    (runes : List Text)
    → All (λ rune. is_rune rune ≡ true) runes
    → IsUtf8 (joined runes ++ truncation_suffix)
unfolding runes_of runes_after
suffixed-IsUtf8 [] h = (runes_of truncation_suffix, runes_after-IsRune 0 truncation_suffix, refl)
suffixed-IsUtf8 (rune ∷ runes) h =
    let (rest, good, same) = suffixed-IsUtf8 runes h.1 in
    (
      rune ∷ rest,
      (h.0, good),
      ap (λ t. rune ++ t) same ∙ sym (append_assoc rune (joined runes) truncation_suffix),
    )

-- The next rune, where there is one, does not fit.
abbrev Stops : ℕ → ℕ → List Text → Type 0
Stops limit used [] = Unit {0}
Stops limit used (rune ∷ runes) = limit < used + length rune

-- The text is made of the first runes, as many as fit.
abbrev IsCut : ℕ → ℕ → List Text → Text → Type 0
IsCut limit used runes text =
    (taken : List Text) × (left : List Text) × (taken ++ left ≡ runes)
    × (joined taken ≡ text)
    × (used + length text ≤ limit)
    × Stops limit (used + length text) left

length-append_text : (s t : Text) → length (s ++ t) ≡ length s + length t
length-append_text [] t = omega arith
length-append_text (c ∷ s) t = omega (arith, length-append_text s t)

take_runes-IsCut :
    (limit used : ℕ) (runes : List Text)
    → used ≤ limit
    → IsCut limit used runes (take_runes limit used runes)
unfolding take_runes
take_runes-IsCut limit used [] h = ([], [], refl, refl, omega (arith, h), tt)
take_runes-IsCut limit used (rune ∷ runes) h = elim (Bool-cases (ltb limit (used + length rune))) [
  | inl full ↦
      rw (full, take_runes) ([], rune ∷ runes, refl, refl, omega (arith, h), ground (arith, full))
  | inr fits ↦
      let rest = take_runes limit (used + length rune) runes in
      let (taken, left, all, same, bound, stops) =
        take_runes-IsCut limit (used + length rune) runes (ground (arith, fits)) in
      let sum : used + length (rune ++ rest) ≡ used + length rune + length rest =
        omega (arith, length-append_text rune rest) in
      rw (fits, take_runes)
        (
          rune ∷ taken,
          left,
          ap (λ rs. rune ∷ rs) all,
          ap (λ t. rune ++ t) same,
          omega (arith, sum, bound),
          subst (λ n. Stops limit n left) (sym sum) stops,
        )
]

Stops-later :
    (limit more used later : ℕ) (left : List Text)
    → later ≡ used + more
    → Stops limit used left
    → Stops (limit + more) later left
Stops-later limit more used later [] same h = tt
Stops-later limit more used later (rune ∷ left) same h = omega (arith, same, h)

-- What is left of a message that is too long.
abbrev pub IsTruncated : Text → Text → Type 0
IsTruncated message note =
    (note_limit < length message)
    × ((kept : List Text) × (left : List Text) × (kept ++ left ≡ runes_of message)
        × (note ≡ joined kept ++ truncation_suffix)
        × Stops note_limit (length (joined kept ++ truncation_suffix)) left
        × IsUtf8 note
        × (IsUtf8 message → joined (kept ++ left) ≡ message))

-- The note of an event has at most 1024 bytes. It is the message if that fits. Otherwise it is made of
-- the first runes of the message, as many as leave room for the suffix, and the suffix, where a byte
-- that starts no rune counts as U+FFFD; it is well-formed UTF-8, also where the message is not; and if
-- the message is well-formed, then it consists of those runes and the ones that are left out.
pub event_diagnostic_message_lem :
    (message : Text)
    → let note = event_diagnostic_message message in
      (length note ≤ note_limit)
      × (((length message ≤ note_limit) × (note ≡ message)) ⊎ IsTruncated message note)
unfolding event_diagnostic_message
event_diagnostic_message_lem message = elim (Bool-cases (leb (length message) note_limit)) [
  | inl fits ↦
      let bound : length message ≤ note_limit = ground (arith, fits) in
      rw (fits, event_diagnostic_message) (bound, inl (bound, refl))
  | inr long ↦
      let room = note_limit - length truncation_suffix in
      let (kept, left, all, same, bound, stops) =
        take_runes-IsCut room 0 (runes_of message) (omega arith) in
      let text = take_runes room 0 (runes_of message) in
      let sum : length (text ++ truncation_suffix) ≡ length text + 22 =
        length-append_text text truncation_suffix in
      let good =
        All-left_part kept left
          (subst (All (λ rune. is_rune rune ≡ true)) (sym all) (runes_of-IsRune message)) in
      let shape = ap (λ t. t ++ truncation_suffix) (sym same) in
      rw (long, event_diagnostic_message)
        (
          omega (arith, sum, bound),
          inr (
            ground (arith, long),
            (
              kept,
              left,
              all,
              shape,
              Stops-later room 22 (0 + length text) (length (joined kept ++ truncation_suffix)) left
                  (ap (λ t. length (t ++ truncation_suffix)) same ∙ omega (arith, sum)) stops,
              subst IsUtf8 (sym shape) (suffixed-IsUtf8 kept good),
              λ clean. ap joined all ∙ joined-runes_of message clean,
            ),
          ),
        )
]
