-- ===== src/Base/Strings.antt =====
-- The methods of `str` that the program uses, on texts as lists of character codes.
use Prim.Native.Nat.{ℕ, ◌+◌, ◌≤◌}
use mathlib.Core.Path.{◌≡◌, refl, ap, ◌∙◌, subst, sym}
use mathlib.Core.Logic.{◌≢◌, inl, inr}
use mathlib.Core.Bool.{Bool, true, false, not, ◌&&◌, ◌||◌}
use mathlib.Core.List.{List, [], ◌∷◌, ◌++◌, append-nil, append_assoc}
use native.Mathlib.Omega.{arith}
use wallet_daemon.Base.Tests.{ltb, leb, ◌==◌, if◌then◌else◌, Bool-cases}
use wallet_daemon.Base.Keys.{Text}

-- The predicate holds of each element.
abbrev pub Every {ℓ κ} : {A : Type ℓ} → (A → Type κ) → List A → Type κ
Every P [] = Unit
Every P (x ∷ xs) = P x × Every P xs

-- `char::is_whitespace`: the White_Space property
unfoldable pub is_whitespace : ℕ → Bool
is_whitespace c =
    (leb 9 c && leb c 13)
    || c == 32
    || c == 133
    || c == 160
    || c == 5760
    || (leb 8192 c && leb c 8202)
    || c == 8232
    || c == 8233
    || c == 8239
    || c == 8287
    || c == 12288

-- `char::is_ascii_alphanumeric`
abbrev pub is_ascii_alphanumeric : ℕ → Bool
is_ascii_alphanumeric c =
    (leb b'0' c && leb c b'9') || (leb b'A' c && leb c b'Z') || (leb b'a' c && leb c b'z')

-- `char::len_utf8`
abbrev pub len_utf8 : ℕ → ℕ
len_utf8 c = if ltb c 128 then 1 else if ltb c 2048 then 2 else if ltb c 65536 then 3 else 4

-- `str::len`, the number of bytes
abbrev pub byte_length : Text → ℕ
byte_length [] = 0
byte_length (c ∷ s) = len_utf8 c + byte_length s

-- `s.contains(c)`
abbrev pub contains : ℕ → Text → Bool
contains c [] = false
contains c (d ∷ s) = c == d || contains c s

-- `s.trim_start_matches(p)`
unfoldable pub trim_start_matches : (ℕ → Bool) → Text → Text
trim_start_matches p [] = []
trim_start_matches p (c ∷ s) = let rest = trim_start_matches p s in if p c then rest else c ∷ s

abbrev keep_end : (ℕ → Bool) → ℕ → Text → Text
keep_end p c [] = if p c then [] else c ∷ []
keep_end p c (d ∷ s) = c ∷ d ∷ s

-- `s.trim_end_matches(p)`
unfoldable pub trim_end_matches : (ℕ → Bool) → Text → Text
trim_end_matches p [] = []
trim_end_matches p (c ∷ s) = keep_end p c (trim_end_matches p s)

-- `s.trim_matches(p)`
abbrev pub trim_matches : (ℕ → Bool) → Text → Text
trim_matches p s = trim_end_matches p (trim_start_matches p s)

abbrev flush : Text → List Text → List Text
flush [] words = words
flush (c ∷ w) words = (c ∷ w) ∷ words

-- The words of a text, behind the part of a word that has been read.
unfoldable pub words_from : Text → Text → List Text
words_from current [] = flush current []
words_from current (c ∷ s) = elim (is_whitespace c) [
  | true ↦ flush current (words_from [] s)
  | false ↦ words_from (current ++ c ∷ []) s
]

-- `s.split_whitespace()`
abbrev pub split_whitespace : Text → List Text
split_whitespace s = words_from [] s

-- `words.join(" ")`
abbrev pub join_words : List Text → Text
join_words [] = []
join_words (w ∷ []) = w
join_words (w ∷ v ∷ words) = w ++ 32 ∷ join_words (v ∷ words)

abbrev pub HasNoSpace : Text → Type 0
HasNoSpace = Every (λ c. is_whitespace c ≡ false)

-- What `split_whitespace` gives.
abbrev pub IsWord : Text → Type 0
IsWord w = (w ≢ []) × HasNoSpace w

append-HasNoSpace : (s t : Text) → HasNoSpace s → HasNoSpace t → HasNoSpace (s ++ t)
append-HasNoSpace [] t p q = q
append-HasNoSpace (c ∷ s) t p q = (p.0, append-HasNoSpace s t p.1 q)

flush-IsWord :
    (w : Text) (words : List Text)
    → HasNoSpace w
    → Every IsWord words
    → Every IsWord (flush w words)
flush-IsWord [] words p q = q
flush-IsWord (c ∷ w) words p q = ((λ e. cc, p), q)

words_from_space :
    (current : Text) (c : ℕ) (s : Text)
    → is_whitespace c ≡ true
    → words_from current (c ∷ s) ≡ flush current (words_from [] s)
unfolding words_from
words_from_space current c s e = ground (arith, e)

words_from_letter :
    (current : Text) (c : ℕ) (s : Text)
    → is_whitespace c ≡ false
    → words_from current (c ∷ s) ≡ words_from (current ++ c ∷ []) s
unfolding words_from
words_from_letter current c s e = ground (arith, e)

words_from-IsWord : (current s : Text) → HasNoSpace current → Every IsWord (words_from current s)
unfolding words_from
words_from-IsWord current [] p = flush-IsWord current [] p tt
words_from-IsWord current (c ∷ s) p = elim (Bool-cases (is_whitespace c)) [
  | inl space ↦
      subst (Every IsWord) (sym (words_from_space current c s space))
        (flush-IsWord current (words_from [] s) p (words_from-IsWord [] s tt))
  | inr letter ↦
      subst (Every IsWord) (sym (words_from_letter current c s letter)) (
        words_from-IsWord (current ++ c ∷ []) s (append-HasNoSpace current (c ∷ []) p (letter, tt)))
]

pub split_whitespace-IsWord : (s : Text) → Every IsWord (split_whitespace s)
split_whitespace-IsWord s = words_from-IsWord [] s tt

words_from-append :
    (current w s : Text) → HasNoSpace w → words_from current (w ++ s) ≡ words_from (current ++ w) s
words_from-append current [] s p = ap (λ c. words_from c s) (sym (append-nil current))
words_from-append current (c ∷ w) s p =
    words_from_letter current c (w ++ s) p.0
    ∙ words_from-append (current ++ c ∷ []) w s p.1
    ∙ ap (λ v. words_from v s) (append_assoc current (c ∷ []) w)

flush_word : (w : Text) (words : List Text) → w ≢ [] → flush w words ≡ w ∷ words
flush_word [] words ne = absurd (ne refl)
flush_word (c ∷ w) words ne = refl

words_from_end : (w : Text) → words_from w [] ≡ flush w []
unfolding words_from
words_from_end w = refl

space : is_whitespace 32 ≡ true
unfolding is_whitespace
space = refl

pub split_whitespace-append :
    (w s : Text) → IsWord w → split_whitespace (w ++ 32 ∷ s) ≡ w ∷ split_whitespace s
split_whitespace-append w s p =
    words_from-append [] w (32 ∷ s) p.1 ∙ words_from_space w 32 s space ∙ flush_word w _ p.0

-- Joining words and splitting the text gives the words back.
pub split_whitespace-join_words :
    (words : List Text) → Every IsWord words → split_whitespace (join_words words) ≡ words
split_whitespace-join_words [] p = words_from_end []
split_whitespace-join_words (w ∷ []) p =
    ap split_whitespace (sym (append-nil w))
    ∙ words_from-append [] w [] p.0.1
    ∙ words_from_end w
    ∙ flush_word w [] p.0.0
split_whitespace-join_words (w ∷ v ∷ words) p =
    split_whitespace-append w (join_words (v ∷ words)) p.0
    ∙ ap (λ ws. w ∷ ws) (split_whitespace-join_words (v ∷ words) p.1)

abbrev pub no_space : Text → Bool
no_space [] = true
no_space (c ∷ s) = not (is_whitespace c) && no_space s

pub no_space→HasNoSpace : (s : Text) → no_space s ≡ true → HasNoSpace s
no_space→HasNoSpace [] e = tt
no_space→HasNoSpace (c ∷ s) e = (ground (arith, e), no_space→HasNoSpace s (ground (arith, e)))

keep_end_length :
    (p : ℕ → Bool) (c : ℕ) (s : Text) → byte_length (keep_end p c s) ≤ len_utf8 c + byte_length s
keep_end_length p c [] = ground arith
keep_end_length p c (d ∷ s) = omega arith

trim_end_length : (p : ℕ → Bool) (s : Text) → byte_length (trim_end_matches p s) ≤ byte_length s
unfolding trim_end_matches
trim_end_length p [] = omega arith
trim_end_length p (c ∷ s) =
    omega (arith, keep_end_length p c (trim_end_matches p s), trim_end_length p s)

trim_start_length : (p : ℕ → Bool) (s : Text) → byte_length (trim_start_matches p s) ≤ byte_length s
unfolding trim_start_matches
trim_start_length p [] = omega arith
trim_start_length p (c ∷ s) = ground (arith, trim_start_length p s)

pub trim_matches_length : (p : ℕ → Bool) (s : Text) → byte_length (trim_matches p s) ≤ byte_length s
trim_matches_length p s =
    omega (arith, trim_end_length p (trim_start_matches p s), trim_start_length p s)
