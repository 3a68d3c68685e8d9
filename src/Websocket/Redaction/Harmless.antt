-- ===== src/Websocket/Redaction/Harmless.antt =====
-- src/websocket.rs: no word of an error that `pusher_error` returns is suspicious.
use wallet_daemon.Base.{
  ℕ, zero, suc, ◌+◌, ◌/◌, ◌%◌, ◌≤◌, ◌<◌, ◌≡◌, refl, sym, ap, ◌∙◌, subst, true, false, Option, none,
  some, List, [], ◌∷◌, ◌++◌, map, Text, text, ℤ, pos, negsuc, ltb, arith, ◌⊎◌, Bool-cases, inl, inr,
  Every, is_whitespace, byte_length, trim_start_matches, trim_end_matches, split_whitespace,
  words_from, IsWord, HasNoSpace, no_space, no_space→HasNoSpace, trim_matches_length,
  split_whitespace-IsWord, split_whitespace-join_words, split_whitespace-append,
}
use mathlib.Core.List.{append_assoc}
use wallet_daemon.Websocket.Frames.{Value, Serde}
use wallet_daemon.Websocket.Redaction.{
  not_trimmed, is_suspicious, redacted, redact_word, redact_pusher_message, digits, to_string,
  code_of, message_of, error_code, error_message, pusher_error,
}

-- No word of the text is suspicious.
abbrev pub IsHarmless : Text → Type 0
IsHarmless s = Every (λ word. is_suspicious word ≡ false) (split_whitespace s)

redact_word-cases :
    (w : Text)
    → ((is_suspicious w ≡ true) × (redact_word w ≡ redacted))
      ⊎ ((is_suspicious w ≡ false) × (redact_word w ≡ w))
unfolding redact_word
redact_word-cases w = elim (Bool-cases (is_suspicious w)) [
  | inl hit ↦ inl (hit, rw hit)
  | inr miss ↦ inr (miss, rw miss)
]

redacted-IsWord : IsWord redacted
unfolding is_whitespace
redacted-IsWord = (λ e. cc, no_space→HasNoSpace redacted refl)

redact_word-IsWord : (w : Text) → IsWord w → IsWord (redact_word w)
redact_word-IsWord w p = elim (redact_word-cases w) [
  | inl (_, e) ↦ subst IsWord (sym e) redacted-IsWord
  | inr (_, e) ↦ subst IsWord (sym e) p
]

redacted_harmless : is_suspicious redacted ≡ false
unfolding is_suspicious trim_start_matches trim_end_matches
redacted_harmless = refl

redact_word_harmless : (w : Text) → is_suspicious (redact_word w) ≡ false
redact_word_harmless w = elim (redact_word-cases w) [
  | inl (_, e) ↦ ap is_suspicious e ∙ redacted_harmless
  | inr (miss, e) ↦ ap is_suspicious e ∙ miss
]

map-redact_word-IsWord : (ws : List Text) → Every IsWord ws → Every IsWord (map redact_word ws)
map-redact_word-IsWord [] p = tt
map-redact_word-IsWord (w ∷ ws) p = (redact_word-IsWord w p.0, map-redact_word-IsWord ws p.1)

map-redact_word_harmless :
    (ws : List Text) → Every (λ w. is_suspicious w ≡ false) (map redact_word ws)
map-redact_word_harmless [] = tt
map-redact_word_harmless (w ∷ ws) = (redact_word_harmless w, map-redact_word_harmless ws)

redact_pusher_message-IsHarmless : (message : Text) → IsHarmless (redact_pusher_message message)
unfolding redact_pusher_message
redact_pusher_message-IsHarmless message =
    let ws = split_whitespace message in
    subst (Every (λ w. is_suspicious w ≡ false))
      (sym (
        split_whitespace-join_words (map redact_word ws)
          (map-redact_word-IsWord ws (split_whitespace-IsWord message))))
      (map-redact_word_harmless ws)

-- What stands in the parentheses of an error: short, and without a space.
abbrev IsCode : Text → Type 0
IsCode s = (byte_length s ≤ 20) × HasNoSpace s

digit_length : (n : ℕ) (s : Text) → byte_length ((b'0' + n % 10) ∷ s) ≡ 1 + byte_length s
digit_length n s = ground arith

digit_no_space : (n : ℕ) → is_whitespace (b'0' + n % 10) ≡ false
unfolding is_whitespace
digit_no_space n = ground arith

digits_length :
    (fuel n : ℕ) (later : Text) → byte_length (digits fuel n later) ≤ fuel + byte_length later
unfolding digits
digits_length zero n later = omega arith
digits_length (suc fuel) n later = elim (Bool-cases (ltb n 10)) [
  | inl last ↦ rw last (omega (arith, digit_length n later))
  | inr more ↦
      rw more
        (omega (arith, digit_length n later, digits_length fuel (n / 10) ((b'0' + n % 10) ∷ later)))
]

digits-HasNoSpace :
    (fuel n : ℕ) (later : Text) → HasNoSpace later → HasNoSpace (digits fuel n later)
unfolding digits
digits-HasNoSpace zero n later p = p
digits-HasNoSpace (suc fuel) n later p = elim (Bool-cases (ltb n 10)) [
  | inl last ↦ rw last (digit_no_space n, p)
  | inr more ↦
      rw more (digits-HasNoSpace fuel (n / 10) ((b'0' + n % 10) ∷ later) (digit_no_space n, p))
]

minus_no_space : is_whitespace b'-' ≡ false
unfolding is_whitespace
minus_no_space = refl

code_of-IsCode : (code : Option ℤ) → IsCode (code_of code)
unfolding to_string is_whitespace
code_of-IsCode none = (omega arith, no_space→HasNoSpace (text "unknown") refl)
code_of-IsCode (some (pos n)) = (omega (arith, digits_length 19 n []), digits-HasNoSpace 19 n [] tt)
code_of-IsCode (some (negsuc n)) = (
  omega (arith, digits_length 19 (n + 1) []),
  (minus_no_space, digits-HasNoSpace 19 (n + 1) [] tt),
)

pub byte_length-append : (s t : Text) → byte_length (s ++ t) ≡ byte_length s + byte_length t
byte_length-append [] t = omega arith
byte_length-append (c ∷ s) t = omega (arith, byte_length-append s t)

append-IsWord : (s t : Text) → HasNoSpace s → IsWord t → IsWord (s ++ t)
append-IsWord [] t p q = q
append-IsWord (c ∷ s) t p q = ((λ e. cc), (p.0, (append-IsWord s t p.1 q).1))

short_harmless : (w : Text) → byte_length w < 32 → is_suspicious w ≡ false
unfolding is_suspicious
short_harmless w h = ground (arith, trim_matches_length not_trimmed w)

cons-IsHarmless :
    (w s : Text) → IsWord w → byte_length w < 32 → IsHarmless s → IsHarmless (w ++ 32 ∷ s)
cons-IsHarmless w s p short q =
    subst (Every (λ v. is_suspicious v ≡ false)) (sym (split_whitespace-append w s p))
      (short_harmless w short, q)

plain-IsHarmless :
    (c : ℕ) (w s : Text)
    → no_space (c ∷ w) ≡ true
    → byte_length (c ∷ w) < 32
    → IsHarmless s
    → IsHarmless ((c ∷ w) ++ 32 ∷ s)
plain-IsHarmless c w s e short q =
    cons-IsHarmless (c ∷ w) s ((λ n. cc), no_space→HasNoSpace (c ∷ w) e) short q

no_message-IsHarmless : IsHarmless (text "no message")
unfolding is_whitespace words_from is_suspicious trim_start_matches trim_end_matches
no_message-IsHarmless = (refl, (refl, tt))

message_of-IsHarmless : (m : Option Text) → IsHarmless (message_of m)
message_of-IsHarmless none = no_message-IsHarmless
message_of-IsHarmless (some s) = redact_pusher_message-IsHarmless s

-- No word of the error that the daemon reports passes the test of `redact_pusher_message`.
pub pusher_error-IsHarmless :
    (serde : Serde) (payload : Value) → IsHarmless (pusher_error serde payload)
unfolding pusher_error is_whitespace
pusher_error-IsHarmless serde payload =
    let code = code_of (error_code serde payload) in
    let message = message_of (error_message serde payload) in
    let (short, no_gap) = code_of-IsCode (error_code serde payload) in
    let closed : IsHarmless ((code ++ text "):") ++ 32 ∷ message) =
      cons-IsHarmless (code ++ text "):") message
        (append-IsWord code (text "):") no_gap ((λ e. cc), no_space→HasNoSpace (text "):") refl))
        (omega (arith, byte_length-append code (text "):"), short))
        (message_of-IsHarmless (error_message serde payload)) in
    plain-IsHarmless b'P' (text "usher") _ refl (omega arith) (
      plain-IsHarmless b'p' (text "rotocol") _ refl (omega arith) (
        plain-IsHarmless b'e' (text "rror") _ refl (omega arith) (
          plain-IsHarmless b'(' (text "code") _ refl (omega arith)
            (subst IsHarmless (append_assoc code (text "):") (32 ∷ message)) closed))))
