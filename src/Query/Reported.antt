-- ===== src/Query/Reported.antt =====
-- src/utils.rs: what the error of a query says of the errors that the platform has sent.
use wallet_daemon.Base.{
  if_then, if_else, ◌≡◌, refl, ap, sym, ◌∙◌, subst, Bool, true, false, not, Option, none, some,
  List, [], ◌∷◌, ◌++◌, map, Text, text, text_beq, arith, keep, Every, Bool-cases, inl, inr,
  is_empty, if◌then◌else◌, err, ok, ◌==◌, failed, ◌&&◌,
}
use wallet_daemon.Query.{
  Extensions, GraphqlError, ResponseBody, GraphqlQuery, Response, Http, Globals, join,
  is_validation, extension_text, with_extensions, error_message, reported, judge,
}
use mathlib.Core.List.{append_assoc, append-nil}

-- The text is a part of the other.
abbrev pub Occurs : Text → Text → Type 0
Occurs s whole = (before : Text) × (after : Text) × (whole ≡ before ++ (s ++ after))

Occurs-refl : (s : Text) → Occurs s s
Occurs-refl s = ([], [], sym (append-nil s))

Occurs-in_front : (s whole t : Text) → Occurs s whole → Occurs s (whole ++ t)
Occurs-in_front s whole t (before, after, e) = (
  before,
  after ++ t,
  ap (λ w. w ++ t) e
      ∙ append_assoc before (s ++ after) t
      ∙ ap (λ w. before ++ w) (append_assoc s after t),
)

Occurs-behind : (s t whole : Text) → Occurs s whole → Occurs s (t ++ whole)
Occurs-behind s t whole (before, after, e) =
    (t ++ before, after, ap (λ w. t ++ w) e ∙ sym (append_assoc t before (s ++ after)))

Occurs-trans : (s t whole : Text) → Occurs s t → Occurs t whole → Occurs s whole
Occurs-trans s t whole o (before, after, e) =
    let (b, a, p) = Occurs-behind s before (t ++ after) (Occurs-in_front s t after o) in
    (b, a, e ∙ p)

Every-map :
    {A : Type 0} (P Q : A → Type 0) (xs : List A) → ((x : A) → P x → Q x) → Every P xs → Every Q xs
Every-map P Q [] h p = tt
Every-map P Q (x ∷ xs) h (p, ps) = (h x p, Every-map P Q xs h ps)

-- Each text that is joined is a part of the result.
join-Occurs :
    {A : Type 0} (f : A → Text) (separator : Text) (xs : List A)
    → Every (λ x. Occurs (f x) (join separator (map f xs))) xs
join-Occurs f separator [] = tt
join-Occurs f separator (x ∷ []) = (Occurs-refl (f x), tt)
join-Occurs f separator (x ∷ y ∷ xs) =
    let rest = join separator (map f (y ∷ xs)) in
    (
      Occurs-in_front (f x) (f x) (separator ++ rest) (Occurs-refl (f x)),
      Every-map (λ z. Occurs (f z) rest) (λ z. Occurs (f z) (f x ++ (separator ++ rest))) (y ∷ xs)
          (λ z o.
            Occurs-behind (f z) (f x) (separator ++ rest) (Occurs-behind (f z) separator rest o))
          (join-Occurs f separator (y ∷ xs)),
    )

Every-keep :
    {A : Type 0} (P : A → Type 0) (p : A → Bool) (xs : List A)
    → Every P (keep p xs)
    → Every (λ x. p x ≡ true → P x) xs
unfolding keep
Every-keep P p [] ps = tt
Every-keep P p (x ∷ xs) ps = elim (Bool-cases (p x)) [
  | inl kept ↦
      let (q, qs) = subst (Every P) (if_then (p x) (x ∷ keep p xs) (keep p xs) kept) ps in
      ((λ e. q), Every-keep P p xs qs)
  | inr left ↦ (
    (λ e. absurd (ground (arith, e, left))),
    Every-keep P p xs (subst (Every P) (if_else (p x) (x ∷ keep p xs) (keep p xs) left) ps),
  )
]

-- The text has the error's message and, if it is one of validation, all its other extensions.
abbrev pub Tells : Text → GraphqlError → Type 0
Tells whole e =
    Occurs e.message whole
    × ((extensions : Extensions)
        → e.extensions ≡ some extensions
        → is_validation extensions ≡ true
        → Every (λ x. not (text_beq x.0 (text "category")) ≡ true → Occurs x.1.display whole)
            extensions)

is_empty_nil : {A : Type 0} (xs : List A) → is_empty xs ≡ true → xs ≡ []
is_empty_nil [] e = refl
is_empty_nil (x ∷ xs) e = absurd (ground (arith, e))

extension_text-Occurs :
    (extensions : Extensions)
    → Every
        (λ x.
          not (text_beq x.0 (text "category")) ≡ true
          → Occurs x.1.display (extension_text extensions))
        extensions
unfolding extension_text
extension_text-Occurs extensions =
    Every-keep (λ x. Occurs x.1.display (extension_text extensions))
      (λ x. not (text_beq x.0 (text "category"))) extensions
      (join-Occurs (λ x. x.1.display) (text ",")
        (keep (λ x. not (text_beq x.0 (text "category"))) extensions))

with_extensions_message :
    (message : Text) (extensions : Extensions) → Occurs message (with_extensions message extensions)
unfolding with_extensions
with_extensions_message message extensions =
    pick (is_validation extensions && not (is_empty (extension_text extensions)))
      (text "\n    Extensions: " ++ extension_text extensions)
  where
    pick : (b : Bool) (t : Text) → Occurs message (if b then message ++ t else message)
    pick true t = Occurs-in_front message message t (Occurs-refl message)
    pick false t = Occurs-refl message

with_extensions_rest :
    (message s : Text) (extensions : Extensions)
    → is_validation extensions ≡ true
    → Occurs s (extension_text extensions)
    → Occurs s (with_extensions message extensions)
unfolding with_extensions
with_extensions_rest message s extensions validation o =
    pick (is_validation extensions) (extension_text extensions) validation o
  where
    pick :
        (b : Bool) (t : Text)
        → b ≡ true
        → Occurs s t
        → Occurs s
            (if b && not (is_empty t) then message ++ (text "\n    Extensions: " ++ t) else message)
    pick true (c ∷ t) e o =
        Occurs-behind s message _ (Occurs-behind s (text "\n    Extensions: ") (c ∷ t) o)
    pick true [] e o = Occurs-trans s [] message o ([], message, refl)
    pick false t e o = absurd (ground (arith, e))

message_with :
    (message : Text) (given : Option Extensions)
    → Tells
        (error_message (record { message = message; extensions = given }))
        (record { message = message; extensions = given })
message_with message none = (Occurs-refl message, (λ extensions p. absurd (ground (arith, p))))
message_with message (some given) = (
  with_extensions_message message given,
  (λ extensions p validation.
      let same : given ≡ extensions = ground (arith, p) in
      Every-map
        (λ x.
          not (text_beq x.0 (text "category")) ≡ true
          → Occurs x.1.display (extension_text extensions))
        (λ x.
          not (text_beq x.0 (text "category")) ≡ true
          → Occurs x.1.display (with_extensions message given))
        extensions
        (λ x o kept.
          subst (λ g. Occurs x.1.display (with_extensions message g)) (sym same)
            (with_extensions_rest message x.1.display extensions validation (o kept)))
        (extension_text-Occurs extensions)),
)

error_message-Tells : (e : GraphqlError) → Tells (error_message e) e
error_message-Tells e = message_with e.message e.extensions

Tells-within :
    (part whole : Text) (e : GraphqlError) → Occurs part whole → Tells part e → Tells whole e
Tells-within part whole e o (said, rest) = (
  Occurs-trans e.message part whole said o,
  (λ extensions p validation.
      Every-map _ _ extensions (λ x q kept. Occurs-trans x.1.display part whole (q kept) o)
        (rest extensions p validation)),
)

reported-Tells : (errors : List GraphqlError) → Every (Tells (reported (some errors))) errors
unfolding reported
reported-Tells errors =
    Every-map (λ e. Occurs (error_message e) (join (text "\n- ") (map error_message errors)))
      (Tells (reported (some errors))) errors
      (λ e o.
        Tells-within (error_message e) (reported (some errors)) e
          (Occurs-behind (error_message e) (text "The following error(s) occurred:\n- ") _ o)
          (error_message-Tells e))
      (join-Occurs error_message (text "\n- ") errors)

-- If the platform answers with status 200, errors and no data, the query fails with a text that has
-- each of the errors: its message and, for an error of validation, the value of every
-- extension but the category.
pub judge-Tells :
    (http : Http) (globals : Globals) (debug_enabled : Bool) {V A : Type 0}
    (query : GraphqlQuery V A) (response : Response) (body : ResponseBody A)
    (errors : List GraphqlError)
    → response.status ≡ 200
    → query.json response.body ≡ ok body
    → body.response_data ≡ none
    → body.errors ≡ some errors
    → (report : Text) × (judge http globals debug_enabled query response ≡ err (failed report))
      × Every (Tells report) errors
unfolding judge
judge-Tells http globals debug_enabled query response body errors found reads no_data sent =
    let accepted : (response.status == 200) ≡ true = ground (arith, found) in
    (
      reported (some errors),
      rw accepted (rw reads (rw no_data (rw sent refl))),
      reported-Tells errors,
    )
