-- ===== src/Platform.antt =====
-- What the program uses of other code: the JSON decoder and encoder at the lifecycle value, time
-- stamps in RFC 3339 with nanoseconds, Go durations, SHA-256, and the validation of DNS names in
-- k8s.io/apimachinery. Each is a field of `Platform`; `Laws` states what the code relies on.
use labdns.Base.{ℕ, ◌<◌, ◌≡◌, Bool, false, Option, some, List, Text, is_empty, ℤ, pos}

-- dnsendpoint/lifecycle.go: the JSON form that the annotation holds.
pub record PendingTarget : Type 0 where
  pub dns_name : Text
  pub record_type : Text
  pub target : Text
  pub deadline : Text

pub record Lifecycle : Type 0 where
  pub version : ℤ
  pub pending : List PendingTarget

-- What a second `Decode` finds behind the first value.
pub data Trailing : Type 0 where
  eof another_value malformed_rest : Trailing

pub record Platform : Type 0 where
  -- `decoder.Decode(&state)` with unknown fields disallowed, and what follows the value.
  pub decode : Text → Option (Lifecycle × Trailing)
  -- `json.Marshal`
  pub encode : Lifecycle → Text
  -- `time.Parse(time.RFC3339Nano, s)`: the instant in nanoseconds, and the zone's offset.
  pub parse_time : Text → Option (ℕ × ℤ)
  -- `t.UTC().Format(time.RFC3339Nano)`
  pub format_time : ℕ → Text
  -- The instants below it are formatted with a year of four digits.
  pub horizon : ℕ
  -- `time.ParseDuration`, `d.String()`
  pub parse_duration : Text → Option ℤ
  pub format_duration : ℤ → Text
  -- The first sixteen hexadecimal digits of the SHA-256 sum.
  pub hash16 : Text → Text
  -- `len(validation.IsDNS1123Subdomain(s)) == 0`
  pub is_dns1123_subdomain : Text → Bool

pub record Laws (p : Platform) : Type 0 where
  pub decode-encode : (s : Lifecycle) → p.decode (p.encode s) ≡ some (s, eof)
  pub encode-nonempty : (s : Lifecycle) → is_empty (p.encode s) ≡ false
  pub parse-format_time : (t : ℕ) → t < p.horizon → p.parse_time (p.format_time t) ≡ some (t, pos 0)
  pub parse-format_duration : (d : ℤ) → p.parse_duration (p.format_duration d) ≡ some d
  pub format_duration-nonempty : (d : ℤ) → is_empty (p.format_duration d) ≡ false
