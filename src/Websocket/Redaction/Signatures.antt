-- ===== src/Websocket/Redaction/Signatures.antt =====
-- src/websocket.rs: the words of an error that `pusher_error` returns.
use wallet_daemon.Base.{
  is_ascii_alphanumeric, contains, trim_matches, Bool, ◌||◌, ◌==◌, leb, List-cases, ℕ, ◌<◌, ◌≡◌,
  sym, ap, ◌∙◌, true, false, List, [], ◌∷◌, ◌++◌, Text, arith, Bool-cases, inl, inr, Every,
  byte_length, trim_start_matches, trim_end_matches, split_whitespace,
}
use mathlib.Core.List.{append_assoc}
use wallet_daemon.Websocket.Frames.{Value, Serde}
use wallet_daemon.Websocket.Redaction.Harmless.{byte_length-append, pusher_error-IsHarmless}
use wallet_daemon.Websocket.Redaction.{not_trimmed, is_suspicious, pusher_error}

-- A part of the word that starts and ends with a letter, a digit or a colon, and has a colon, has fewer than 32
-- bytes.
abbrev pub HasNoSignature : Text → Type 0
HasNoSignature word =
    (before part after : Text) (first last : ℕ) (inner front : Text)
    → word ≡ before ++ (part ++ after)
    → part ≡ first ∷ inner
    → part ≡ front ++ last ∷ []
    → is_ascii_alphanumeric first || first == b':' ≡ true
    → is_ascii_alphanumeric last || last == b':' ≡ true
    → contains b':' part ≡ true
    → byte_length part < 32

-- No word of the text has the shape of a signature.
abbrev pub IsRedacted : Text → Type 0
IsRedacted s = Every HasNoSignature (split_whitespace s)

trim_start_keeps :
    (p : ℕ → Bool) (before rest : Text) (c : ℕ)
    → p c ≡ false
    → (kept : Text) × (trim_start_matches p (before ++ c ∷ rest) ≡ kept ++ c ∷ rest)
unfolding trim_start_matches
trim_start_keeps p [] rest c h = ([], ground (arith, h))
trim_start_keeps p (b ∷ before) rest c h = elim (Bool-cases (p b)) [
  | inl trimmed ↦
      let (kept, e) = trim_start_keeps p before rest c h in (kept, ground (arith, trimmed, e))
  | inr first ↦ (b ∷ before, ground (arith, first))
]

trim_end_keeps :
    (p : ℕ → Bool) (front rest : Text) (c : ℕ)
    → p c ≡ false
    → (kept : Text) × (trim_end_matches p (front ++ c ∷ rest) ≡ front ++ c ∷ kept)
unfolding trim_end_matches
trim_end_keeps p [] rest c h = elim (List-cases (trim_end_matches p rest)) [
  | inl e ↦ ([], ground (arith, h, e))
  | inr (d, s, e) ↦ (d ∷ s, ground (arith, e))
]
trim_end_keeps p (f ∷ []) rest c h =
    let (kept, e) = trim_end_keeps p [] rest c h in (kept, ground (arith, e))
trim_end_keeps p (f ∷ g ∷ front) rest c h =
    let (kept, e) = trim_end_keeps p (g ∷ front) rest c h in (kept, ground (arith, e))

-- Trimming keeps a part that starts and ends with characters that it keeps.
trim_keeps :
    (p : ℕ → Bool) (before part after : Text) (first last : ℕ) (inner front : Text)
    → part ≡ first ∷ inner
    → part ≡ front ++ last ∷ []
    → p first ≡ false
    → p last ≡ false
    → (left : Text) × (right : Text) × (trim_matches p (before ++ (part ++ after))
        ≡ left ++ (part ++ right))
trim_keeps p before part after first last inner front starts ends f l =
    let (left, e) = trim_start_keeps p before (inner ++ after) first f in
    let (right, g) = trim_end_keeps p (left ++ front) after last l in
    (
      left,
      right,
      ap (λ x. trim_matches p (before ++ (x ++ after))) starts
          ∙ ap (trim_end_matches p) (
              e
              ∙ ap (λ x. left ++ (x ++ after)) (sym starts ∙ ends)
              ∙ ap (λ x. left ++ x) (append_assoc front (last ∷ []) after)
              ∙ sym (append_assoc left front (last ∷ after)))
          ∙ g
          ∙ append_assoc left front (last ∷ right)
          ∙ ap (λ x. left ++ x) (sym (append_assoc front (last ∷ []) right))
          ∙ ap (λ x. left ++ (x ++ right)) (sym ends),
    )

contains-append : (c : ℕ) (a b : Text) → contains c b ≡ true → contains c (a ++ b) ≡ true
contains-append c [] b h = h
contains-append c (d ∷ a) b h = let rest = contains-append c a b h in ground (arith, rest)

append-contains : (c : ℕ) (a b : Text) → contains c a ≡ true → contains c (a ++ b) ≡ true
append-contains c [] b h = absurd (ground (arith, h))
append-contains c (d ∷ a) b h = elim (Bool-cases (c == d)) [
  | inl e ↦ ground (arith, e)
  | inr e ↦ let rest = append-contains c a b (ground (arith, e, h)) in ground (arith, rest)
]

harmless-HasNoSignature : (word : Text) → is_suspicious word ≡ false → HasNoSignature word
unfolding is_suspicious
harmless-HasNoSignature word h before part after first last inner front made starts ends f l colon =
    let (left, right, e) =
      trim_keeps not_trimmed before part after first last inner front starts ends
        (ground (arith, f)) (ground (arith, l)) in
    let trimmed : trim_matches not_trimmed word ≡ left ++ (part ++ right) =
      ap (trim_matches not_trimmed) made ∙ e in
    let has =
      ap (contains b':') trimmed
      ∙ contains-append b':' left (part ++ right) (append-contains b':' part right colon) in
    let size = ap byte_length trimmed ∙ byte_length-append left (part ++ right) in
    let inside = byte_length-append part right in
    let short : leb 32 (byte_length (trim_matches not_trimmed word)) ≡ false =
      ground (arith, h, has) in
    ground (arith, short, size, inside)

Every-harmless :
    (ws : List Text) → Every (λ w. is_suspicious w ≡ false) ws → Every HasNoSignature ws
Every-harmless [] p = tt
Every-harmless (w ∷ ws) p = (harmless-HasNoSignature w p.0, Every-harmless ws p.1)

-- Whatever Pusher sends with an error, no word of the error that the daemon reports has the shape of a
-- signature: a part of at least 32 bytes that has a colon and starts and ends with an ASCII letter, a digit or
-- a colon.
pub pusher_error-IsRedacted :
    (serde : Serde) (payload : Value) → IsRedacted (pusher_error serde payload)
pusher_error-IsRedacted serde payload =
    Every-harmless (split_whitespace (pusher_error serde payload))
      (pusher_error-IsHarmless serde payload)
