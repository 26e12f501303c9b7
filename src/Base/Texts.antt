-- ===== src/Base/Texts.antt =====
-- Go's strings as lists of bytes, with the functions of package strings that the program uses,
-- at ASCII text.
use Prim.Native.Nat.{ℕ, ◌+◌}
use Prim.Native.Char.{code}
use Prim.Native.String.{String}
use mathlib.Core.Path.{◌≡◌, refl}
use mathlib.Core.Bool.{Bool, true, false, ◌&&◌, ◌||◌}
use mathlib.Core.Option.{Option, none, some}
use mathlib.Core.List.{List, [], ◌∷◌, ◌++◌, map, reverse}
use native.Mathlib.Omega.{arith}
use labdns.Base.Tests.{ltb, leb, nat_beq, if◌then◌else◌, list_beq, nat_eq, list_eq}

abbrev pub Text : Type 0
Text = List ℕ

-- A literal as a text.
abbrev pub codes : String → Text
codes String.[] = []
codes (String.◌∷◌ c s) = code c ∷ codes s

-- `a < b` on Go strings: the order of the bytes.
unfoldable pub text_lt : Text → Text → Bool
text_lt [] [] = false
text_lt [] (b ∷ bs) = true
text_lt (a ∷ x) [] = false
text_lt (a ∷ x) (b ∷ bs) =
    let rest = text_lt x bs in if ltb a b then true else if nat_beq a b then rest else false

pub text_lt_irrefl : (a : Text) → text_lt a a ≡ false
unfolding text_lt
text_lt_irrefl [] = refl
text_lt_irrefl (a ∷ x) = ground (arith, text_lt_irrefl x)

pub text_lt_trans : (a b c : Text) → text_lt a b ≡ true → text_lt b c ≡ true → text_lt a c ≡ true
unfolding text_lt
text_lt_trans [] [] c p q = ground arith
text_lt_trans [] (y ∷ b) [] p q = ground arith
text_lt_trans [] (y ∷ b) (z ∷ c) p q = refl
text_lt_trans (x ∷ a) [] c p q = ground arith
text_lt_trans (x ∷ a) (y ∷ b) [] p q = ground arith
text_lt_trans (x ∷ a) (y ∷ b) (z ∷ c) p q = ground (arith, text_lt_trans a b c)

pub text_lt_total : (a b : Text) → text_lt a b ≡ false → text_lt b a ≡ false → a ≡ b
unfolding text_lt
text_lt_total [] [] p q = refl
text_lt_total [] (y ∷ b) p q = ground arith
text_lt_total (x ∷ a) [] p q = ground arith
text_lt_total (x ∷ a) (y ∷ b) p q = ground (arith, text_lt_total a b)

-- `strings.HasPrefix(s, prefix)`
unfoldable pub has_prefix : Text → Text → Bool
has_prefix s [] = true
has_prefix [] (p ∷ ps) = false
has_prefix (c ∷ s) (p ∷ ps) = nat_beq c p && has_prefix s ps

-- `strings.CutPrefix(s, prefix)`: the rest, if the prefix is there.
unfoldable pub cut_prefix : Text → Text → Option Text
cut_prefix s [] = some s
cut_prefix [] (p ∷ ps) = none
cut_prefix (c ∷ s) (p ∷ ps) = let rest = cut_prefix s ps in if nat_beq c p then rest else none

abbrev pub or_self : Option Text → Text → Text
or_self none s = s
or_self (some t) s = t

unfoldable pub trim_prefix : Text → Text → Text
unfolding cut_prefix
trim_prefix s p = or_self (cut_prefix s p) s

-- `strings.HasSuffix(s, suffix)`
unfoldable pub has_suffix : Text → Text → Bool
has_suffix [] t = list_beq [] t
has_suffix (c ∷ s) t = list_beq (c ∷ s) t || has_suffix s t

-- `strings.TrimSuffix(s, c)` at a suffix of one byte.
unfoldable pub trim_suffix : Text → ℕ → Text
trim_suffix [] c = []
trim_suffix (a ∷ []) c = if nat_beq a c then [] else a ∷ []
trim_suffix (a ∷ b ∷ s) c = a ∷ trim_suffix (b ∷ s) c

abbrev pub lower_byte : ℕ → ℕ
lower_byte c = if leb b'A' c && leb c b'Z' then c + 32 else c

-- `strings.ToLower`
unfoldable pub to_lower : Text → Text
to_lower s = map lower_byte s

abbrev pub is_space : ℕ → Bool
is_space c = nat_beq c 32 || (leb 9 c && leb c 13)

unfoldable pub trim_left : (ℕ → Bool) → Text → Text
trim_left p [] = []
trim_left p (c ∷ s) = let rest = trim_left p s in if p c then rest else c ∷ s

-- `strings.TrimFunc`
unfoldable pub trim : (ℕ → Bool) → Text → Text
unfolding trim_left
trim p s = reverse (trim_left p (reverse (trim_left p s)))

-- `strings.TrimSpace`
unfoldable pub trim_space : Text → Text
unfolding trim
trim_space s = trim is_space s

-- `strings.Contains(s, c)` at one byte.
unfoldable pub contains_byte : Text → ℕ → Bool
contains_byte [] c = false
contains_byte (a ∷ s) c = nat_beq a c || contains_byte s c

abbrev pub cons_head : ℕ → List Text → List Text
cons_head c [] = (c ∷ []) ∷ []
cons_head c (p ∷ ps) = (c ∷ p) ∷ ps

-- `strings.Split(s, sep)` at one byte: always one part more than there are separators.
unfoldable pub split : Text → ℕ → List Text
split [] sep = [] ∷ []
split (c ∷ s) sep = let rest = split s sep in if nat_beq c sep then [] ∷ rest else cons_head c rest

-- `strings.ReplaceAll(s, old, new)` at single bytes.
unfoldable pub replace_byte : Text → ℕ → ℕ → Text
replace_byte s old new = map (λ c. if nat_beq c old then new else c) s

-- `strings.Join(parts, sep)`
unfoldable pub join : List Text → Text → Text
join [] sep = []
join (p ∷ []) sep = p
join (p ∷ q ∷ ps) sep = p ++ sep ++ join (q ∷ ps) sep

abbrev pub NoByte : ℕ → Text → Type 0
NoByte b s = contains_byte s b ≡ false

-- Two texts joined by a byte that the first does not hold can be taken apart.
pub split_at_byte :
    (b : ℕ) (s t u v : Text) → NoByte b s → NoByte b t → s ++ b ∷ u ≡ t ++ b ∷ v → (s ≡ t) × (u ≡ v)
unfolding contains_byte
split_at_byte b [] [] u v p q e = ground arith
split_at_byte b [] (y ∷ t) u v p q e = ground arith
split_at_byte b (x ∷ s) [] u v p q e = ground arith
split_at_byte b (x ∷ s) (y ∷ t) u v p q e = ground (arith, split_at_byte b s t u v)
