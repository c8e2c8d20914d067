-- ===== src/Providers/Webhook/Digest.antt =====
-- ingress.go: digests in hexadecimal, the signature, and the window of time stamps. A time is a
-- number of nanoseconds.
use Prim.Native.Char.{code}
use Prim.Native.String.{len}
use mime_crypt.Base.{
  ℕ, nat_eq, leb, ltb, ◌+◌, ◌-◌, ◌≤◌, String, Bool, true, false, Option, none, some, ◌≡◌, ◌↔◌, ◌⊎◌,
  arith, ◌&&◌, ◌||◌, if◌then◌else◌,
}
use mime_crypt.Base.Text.{◌==◌, trim_space, to_lower}

-- strings.TrimPrefix, of a prefix and a text
unfoldable pub stripped : String → String → Option String
stripped String.[] s = some s
stripped (String.◌∷◌ p ps) String.[] = none
stripped (String.◌∷◌ p ps) (String.◌∷◌ c s) =
    let rest = stripped ps s in if nat_eq (code p) (code c) then rest else none

unfoldable pub trim_prefix : String → String → String
unfolding stripped
trim_prefix prefix s = elim (stripped prefix s) [ none ↦ s | some rest ↦ rest ]

abbrev pub is_hex : ℕ → Bool
is_hex c = (leb 48 c && leb c 57) || (leb 97 c && leb c 102) || (leb 65 c && leb c 70)

unfoldable pub all_hex : String → Bool
all_hex String.[] = true
all_hex (String.◌∷◌ c s) = is_hex (code c) && all_hex s

-- normalizeWebhookHexDigest of a SHA-256 digest: 64 digits, in small letters
abbrev pub checked_digest : String → Option String
checked_digest s = if nat_eq (len s) 64 && all_hex s then some (to_lower s) else none

unfoldable pub normalize_webhook_hex_digest : String → Option String
unfolding trim_prefix trim_space all_hex to_lower
normalize_webhook_hex_digest value = checked_digest (trim_prefix "sha256=" (trim_space value))

abbrev pub same_digests : Option String → Option String → Bool
same_digests (some a) (some b) = nat_eq (len a) (len b) && a == b
same_digests _ _ = false

-- sameWebhookDigest
unfoldable pub same_webhook_digest : String → String → Bool
unfolding normalize_webhook_hex_digest
same_webhook_digest expected actual =
    same_digests (normalize_webhook_hex_digest expected) (normalize_webhook_hex_digest actual)

abbrev pub default_timestamp_tolerance : ℕ
default_timestamp_tolerance = 300000000000

-- withinTolerance; 0 stands for a tolerance that is not positive.
abbrev pub tolerance_or_default : ℕ → ℕ
tolerance_or_default tolerance =
    if nat_eq tolerance 0 then default_timestamp_tolerance else tolerance

-- The longest time.Duration, to which Time.Sub cuts a difference that is longer.
abbrev pub max_duration : ℕ
max_duration = 9223372036854775807

-- a.Sub(b), where b is not after a
abbrev pub sub_time : ℕ → ℕ → ℕ
sub_time a b = if leb (a - b) max_duration then a - b else max_duration

unfoldable pub within_tolerance : ℕ → ℕ → ℕ → Bool
within_tolerance now timestamp tolerance =
    if ltb now timestamp
    then leb (sub_time timestamp now) (tolerance_or_default tolerance)
    else leb (sub_time now timestamp) (tolerance_or_default tolerance)

-- The clock is not further from the time stamp than the tolerance, before it or after it; or the
-- tolerance is the longest duration, which is as good as none.
abbrev pub IsNear : ℕ → ℕ → ℕ → Type 0
IsNear now timestamp tolerance =
    ((timestamp ≤ now + tolerance_or_default tolerance)
      × (now ≤ timestamp + tolerance_or_default tolerance))
    ⊎ (max_duration ≤ tolerance_or_default tolerance)

-- A time stamp is accepted exactly while it is near.
pub within_tolerance_iff :
    (now timestamp tolerance : ℕ)
    → (within_tolerance now timestamp tolerance ≡ true) ↔ IsNear now timestamp tolerance
unfolding within_tolerance
within_tolerance_iff now timestamp tolerance = ((λ h. ground arith), (λ h. ground arith))
