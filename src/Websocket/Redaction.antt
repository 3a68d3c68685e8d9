-- ===== src/Websocket/Redaction.antt =====
-- src/websocket.rs: `pusher_error` and `redact_pusher_message`.
pub mod Harmless
pub mod Signatures
use wallet_daemon.Base.{
  ℕ, zero, suc, ◌+◌, ◌/◌, ◌%◌, ◌≤◌, ◌<◌, ◌≡◌, refl, sym, ap, ◌∙◌, subst, Bool, true, false, not,
  ◌&&◌, ◌||◌, Option, none, some, List, [], ◌∷◌, ◌++◌, map, Text, text, ℤ, pos, negsuc, is_digit,
  text_beq, ◌==◌, leb, ltb, if◌then◌else◌, Result, ok, err, to_option, arith, ◌⊎◌, Bool-cases,
  Option-cases, inl, inr, Every, is_whitespace, is_ascii_alphanumeric, byte_length, contains,
  trim_matches, trim_start_matches, trim_end_matches, split_whitespace, words_from, join_words,
  IsWord, HasNoSpace, no_space, no_space→HasNoSpace, trim_matches_length, split_whitespace-IsWord,
  split_whitespace-join_words, split_whitespace-append,
}
use mathlib.Core.List.{append_assoc}
use wallet_daemon.Websocket.Frames.{
  Value, null, boolean, integer, real, string, array, object, Members, no_members, member_of, Serde,
}

abbrev pub not_trimmed : ℕ → Bool
not_trimmed c = not (is_ascii_alphanumeric c) && not (c == b':')

-- The test of `redact_pusher_message`.
unfoldable pub is_suspicious : Text → Bool
is_suspicious word =
    let candidate = trim_matches not_trimmed word in
    contains b':' candidate && leb 32 (byte_length candidate)

abbrev pub redacted : Text
redacted = text "[redacted]"

unfoldable pub redact_word : Text → Text
redact_word word = if is_suspicious word then redacted else word

unfoldable pub redact_pusher_message : Text → Text
unfolding redact_word is_suspicious
redact_pusher_message message = join_words (map redact_word (split_whitespace message))

unfoldable pub find : Text → Members → Option Value
find key no_members = none
find key (member_of name value rest) =
    let later = find key rest in if text_beq name key then some value else later

-- `Value::get` with a key
unfoldable pub get : Text → Value → Option Value
unfolding find
get key (object members) = find key members
get key _ = none

abbrev as_str : Value → Option Text
as_str (string s) = some s
as_str _ = none

abbrev as_i64 : Value → Option ℤ
as_i64 (integer n) = some n
as_i64 _ = none

abbrev and_then {ℓ κ} : {A : Type ℓ} {B : Type κ} → Option A → (A → Option B) → Option B
and_then none f = none
and_then (some a) f = f a

abbrev or_else {ℓ} : {A : Type ℓ} → Option A → Option A → Option A
or_else none other = other
or_else (some a) other = some a

-- The decimal digits of a number below ten to the power of the fuel, before those that are there.
unfoldable pub digits : ℕ → ℕ → Text → Text
digits zero n later = later
digits (suc fuel) n later =
    let rest = digits fuel (n / 10) ((b'0' + n % 10) ∷ later) in
    if ltb n 10 then (b'0' + n % 10) ∷ later else rest

-- `i64::to_string`: an `i64` has at most 19 digits
unfoldable pub to_string : ℤ → Text
unfolding digits
to_string (pos n) = digits 19 n []
to_string (negsuc n) = b'-' ∷ digits 19 (n + 1) []

-- A payload that is a text is read as JSON, and one that is no JSON as null.
unfoldable pub decoded : Serde → Value → Value
decoded serde (string encoded) = elim (serde.value_from_str encoded) [
  | ok value ↦ value
  | err e ↦ null
]
decoded serde value = value

abbrev pub code_of : Option ℤ → Text
code_of none = text "unknown"
code_of (some n) = to_string n

abbrev pub message_of : Option Text → Text
message_of none = text "no message"
message_of (some s) = redact_pusher_message s

abbrev pub error_code : Serde → Value → Option ℤ
error_code serde payload = and_then (get (text "code") (decoded serde payload)) as_i64

abbrev pub error_message : Serde → Value → Option Text
error_message serde payload =
    or_else (and_then (get (text "message") (decoded serde payload)) as_str) (as_str payload)

unfoldable pub pusher_error : Serde → Value → Text
unfolding decoded get to_string redact_pusher_message
pusher_error serde payload =
    text "Pusher protocol error (code "
    ++ (code_of (error_code serde payload)
        ++ (text "): " ++ message_of (error_message serde payload)))
