-- ===== src/Dnsendpoint/Naming.antt =====
-- internal/dnsendpoint/writer.go: the names and keys of generated objects.
use labdns.Base.{
  ℕ, suc, zero, Bool, true, false, ◌&&◌, ◌||◌, not, [], ◌∷◌, ◌++◌, Text, codes, leb, ltb, nat_beq,
  if◌then◌else◌, trim, to_lower, join, is_empty, length,
}
use labdns.Source.Types.{Identity}
use labdns.Platform.{Platform}

-- The four parts joined by NUL bytes.
unfoldable pub identity_value : Identity → Text
identity_value i = join (i.api_version ∷ i.kind ∷ i.namespace ∷ i.name ∷ []) (0 ∷ [])

unfoldable pub source_key : Platform → Identity → Text
unfolding identity_value
source_key p identity = p.hash16 (identity_value identity)

abbrev pub is_alnum : ℕ → Bool
is_alnum c = (leb b'a' c && leb c b'z') || (leb b'0' c && leb c b'9')

-- The loop of `sanitize`: whether a dash was written last, and whether anything was written.
unfoldable pub sanitize_from : Bool → Bool → Text → Text
sanitize_from last_dash written [] = []
sanitize_from last_dash written (c ∷ s) =
    let keeps = c ∷ sanitize_from false true s in
    let dashes = b'-' ∷ sanitize_from true true s in
    let skips = sanitize_from last_dash written s in
    if is_alnum c then keeps else if not last_dash && written then dashes else skips

abbrev pub is_dash : ℕ → Bool
is_dash c = nat_beq c b'-'

unfoldable pub sanitize : Text → Text
unfolding sanitize_from
sanitize value = trim is_dash (sanitize_from false false (to_lower value))

abbrev pub take : ℕ → Text → Text
take zero s = []
take (suc n) [] = []
take (suc n) (c ∷ s) = c ∷ take n s

-- 253 bytes less a dash and the sixteen digits of the hash.
abbrev pub max_prefix : ℕ
max_prefix = 236

unfoldable pub name_prefix : Text → Text
name_prefix prefix =
    let cut = trim is_dash (take max_prefix prefix) in
    let fitting = if ltb max_prefix (length prefix) then cut else prefix in
    if is_empty fitting then codes "source" else fitting

unfoldable pub object_name : Platform → Identity → Text → Text
unfolding identity_value sanitize name_prefix
object_name p identity provider =
    let hash = p.hash16 (identity_value identity ++ 0 ∷ provider) in
    let prefix = sanitize (join (identity.kind ∷ identity.name ∷ provider ∷ []) (codes "-")) in
    name_prefix prefix ++ b'-' ∷ hash
