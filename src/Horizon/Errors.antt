-- ===== src/Horizon/Errors.antt =====
-- packages/indexer/src/services/retry-config.ts: which errors are worth a retry, and after how long. The
-- environment that getRetryConfig reads is left out.
use Prim.Native.String.{String, [], ◌∷◌}
use Prim.Native.Char.{Char, code}
use stellar_analytics_dashbo.Prelude.Text.{str_eq}
use stellar_analytics_dashbo.Prelude.{
  ℕ, ◌+◌, ◌-◌, ◌*◌, ◌/◌, ◌^◌, Bool, true, false, ◌&&◌, ◌||◌, not, Option, none, some, ltb, leb,
  ◌==◌, min, if◌then◌else◌,
}

pub record RetryConfig : Type 0 where
  pub max_attempts : ℕ
  pub base_delay_ms : ℕ
  pub max_delay_ms : ℕ
  pub jitter : Bool

-- What may be thrown: an object, with the fields that are looked at where they are numbers (a
-- message: where it is a string), or another value.
pub record ErrorObject : Type 0 where
  pub is_error : Bool
  pub is_type_error : Bool
  pub message : Option String
  pub status : Option ℕ
  pub status_code : Option ℕ
  pub error_code : Option ℕ
  pub response_status : Option ℕ

pub data Thrown : Type 0 where
  object : ErrorObject → Thrown
  other : Thrown

abbrev in_range : ℕ → ℕ → ℕ → Bool
in_range lo hi n = leb lo n && leb n hi

-- A character of a message against one of a lower-case word. Of the characters beyond ASCII only the
-- Kelvin sign has a lower case within.
unfoldable pub lower_eq : Char → Char → Bool
lower_eq c d =
    code c == code d && not (in_range 65 90 (code c))
    || in_range 65 90 (code c) && code c + 32 == code d
    || code c == 8490 && code d == 107

unfoldable pub lower_starts : String → String → Bool
lower_starts [] s = true
lower_starts (d ∷ word) [] = false
lower_starts (d ∷ word) (c ∷ s) = lower_eq c d && lower_starts word s

-- `s.toLowerCase().includes(word)`, for a word of lower-case letters of ASCII.
unfoldable pub lower_includes : String → String → Bool
lower_includes word [] = lower_starts word []
lower_includes word (c ∷ s) = lower_starts word (c ∷ s) || lower_includes word s

abbrev is_digit : Char → Bool
is_digit c = in_range 48 57 (code c)

abbrev is_word : Char → Bool
is_word c =
    in_range 48 57 (code c) || in_range 65 90 (code c) || in_range 97 122 (code c) || code c == 95

abbrev is_boundary : String → Bool
is_boundary [] = true
is_boundary (c ∷ s) = not (is_word c)

abbrev digit : Char → ℕ
digit c = code c - 48

-- A match of `\d{3}\b` at the start.
unfoldable pub three_digits : String → Option ℕ
three_digits (a ∷ (b ∷ (c ∷ s))) =
    if is_digit a && is_digit b && is_digit c && is_boundary s
    then some (digit a * 100 + digit b * 10 + digit c)
    else none
three_digits s = none

-- The first match of `\b(\d{3})\b`, after a character that is part of a word or not.
unfoldable pub status_in : Bool → String → Option ℕ
status_in after [] = none
status_in after (c ∷ s) = elim (if after then none else three_digits (c ∷ s)) [
  | some status ↦ some status
  | none ↦ status_in (is_word c) s
]

abbrev pub first_of : Option ℕ → Option ℕ → Option ℕ
first_of (some n) d = some n
first_of none d = d

abbrev message_status : Option String → Option ℕ
message_status none = none
message_status (some m) = status_in false m

unfoldable pub extract_http_status : Thrown → Option ℕ
extract_http_status other = none
extract_http_status (object e) = first_of e.status (
    first_of e.status_code
      (first_of e.error_code (first_of e.response_status (message_status e.message))))

unfoldable pub is_network_message : String → Bool
is_network_message msg =
    lower_includes "econnrefused" msg
    || lower_includes "enotfound" msg
    || lower_includes "etimedout" msg
    || lower_includes "econnreset" msg
    || lower_includes "network" msg
    || lower_includes "socket" msg
    || lower_includes "timeout" msg
    || lower_includes "abort" msg
    || lower_includes "dns" msg

unfoldable pub is_transient_status : Option ℕ → Bool
is_transient_status none = false
is_transient_status (some status) =
    if status == 429
    then true
    else if leb 400 status && ltb status 500
    then false
    else leb 500 status

abbrev has_message : (String → Bool) → Option String → Bool
has_message p none = false
has_message p (some m) = p m

unfoldable pub is_transient_error : Thrown → Bool
is_transient_error other = false
is_transient_error (object e) =
    if e.is_type_error && has_message (λ m. str_eq m "fetch failed") e.message
    then true
    else if e.is_error && has_message is_network_message e.message
    then true
    else is_transient_status (extract_http_status (object e))

-- `Math.random()` gives `draw / 2 ^ 53`.
unfoldable pub calculate_backoff_ms : ℕ → RetryConfig → ℕ → ℕ
calculate_backoff_ms attempt config draw =
    let exponential = config.base_delay_ms * 2 ^ attempt in
    let capped = min exponential config.max_delay_ms in
    if not config.jitter then capped else draw * (capped + 1) / 2 ^ 53
