-- ===== src/FuelTank/Named.antt =====
-- src/transaction/fuel_tank.rs: which arguments the two ranges of a call are, by the names in the metadata.
use wallet_daemon.Base.{
  ℕ, ◌-◌, ◌≡◌, ◌≢◌, ◌⊎◌, refl, ap, sym, ◌∙◌, subst, true, false, some, List, [], ◌∷◌, ◌++◌, Text,
  text, text_beq, text_beq_iff, length, ok, Result-cases, Bool-cases, inl, inr, arith,
}
use wallet_daemon.FuelTank.Measure.Depth.{Chain, Lies}
use wallet_daemon.FuelTank.{Bytes, Metadata, Range, Found, note, decode_with_visitor, measure_args}
use wallet_daemon.FuelTank.Arguments.{types_of, decode_with_visitor-Lies, measure_args-Chain}

-- No argument has this name.
abbrev pub Absent : Text → List (Text × ℕ) → Type 0
Absent name [] = Unit {0}
Absent name ((other, type) ∷ args) = (other ≢ name) × Absent name args

-- The range is where the last argument of this name lies: behind the arguments before it and before those
-- after it, which take up the rest of the input.
pub record Occurs (m : Metadata) (tx : Bytes) (name : Text) (args : List (Text × ℕ))
    (input rest : Bytes) (range : Range) (type : ℕ) : Type 0 where
  pub earlier : List (Text × ℕ)
  pub later : List (Text × ℕ)
  pub split : args ≡ earlier ++ (name, type) ∷ later
  pub last : Absent name later
  pub at : Bytes
  pub behind : Bytes
  pub passed : Chain (Lies m.decoder 129) (types_of earlier) input at
  pub lies : Lies m.decoder 129 type at behind
  pub remains : Chain (Lies m.decoder 129) (types_of later) behind rest
  pub starts : range.start ≡ length tx - length at
  pub stops : range.stop ≡ length tx - length behind

module _ (m : Metadata) (tx : Bytes) where
  abbrev passing : Bytes → Bytes → Range
  passing remaining after = record {
    start = length tx - length remaining;
    stop = length tx - length after;
  }

  Occurs-here :
      (name other : Text) (type : ℕ) (args : List (Text × ℕ)) (remaining after rest : Bytes)
      (range : Range)
      → text_beq other name ≡ true
      → Lies m.decoder 129 type remaining after
      → Chain (Lies m.decoder 129) (types_of args) after rest
      → Absent name args
      → passing remaining after ≡ range
      → Occurs m tx name ((other, type) ∷ args) remaining rest range type
  Occurs-here name other type args remaining after rest range same lies remains last e = record {
    earlier = [];
    later = args;
    split = ap (λ n. (n, type) ∷ args) ((text_beq_iff other name).0 same);
    last = last;
    at = remaining;
    behind = after;
    passed = refl;
    lies = lies;
    remains = remains;
    starts = ap (λ r. r.start) (sym e);
    stops = ap (λ r. r.stop) (sym e);
  }

  Occurs-later :
      (name other : Text) (type own : ℕ) (args : List (Text × ℕ)) (remaining after rest : Bytes)
      (range : Range)
      → Lies m.decoder 129 type remaining after
      → Occurs m tx name args after rest range own
      → Occurs m tx name ((other, type) ∷ args) remaining rest range own
  Occurs-later name other type own args remaining after rest range lies o = record {
    earlier = (other, type) ∷ o.earlier;
    later = o.later;
    split = ap (λ l. (other, type) ∷ l) o.split;
    last = o.last;
    at = o.at;
    behind = o.behind;
    passed = (after, lies, o.passed);
    lies = o.lies;
    remains = o.remains;
    starts = o.starts;
    stops = o.stops;
  }

  absent_too : (name other : Text) → text_beq other name ≡ false → other ≢ name
  absent_too name other differs e =
      let same = (text_beq_iff other name).1 e in absurd (ground (arith, differs, same))

  pub measure_args-call :
      (args : List (Text × ℕ)) (remaining rest : Bytes) (found found' : Found) (range : Range)
      → measure_args m tx args remaining found ≡ ok (rest, found')
      → found'.call ≡ some range
      → ((type : ℕ) × Occurs m tx (text "call") args remaining rest range type)
        ⊎ ((found.call ≡ some range) × Absent (text "call") args)
  unfolding measure_args
  measure_args-call [] remaining rest found found' range e f =
      let same : found ≡ found' = ground arith in inr (ap (λ k. k.call) same ∙ f, tt)
  measure_args-call ((name, type) ∷ args) remaining rest found found' range e f =
      elim (Result-cases (decode_with_visitor m name type remaining)) [
        | inr (failure, a) ↦ absurd (ground (arith, a))
        | inl (after, a) ↦
            let lies = decode_with_visitor-Lies m name type remaining after a in
            let found'' = note name type (passing remaining after) found in
            let e' : measure_args m tx args after found'' ≡ ok (rest, found') = ground (arith, a) in
            elim (measure_args-call args after rest found'' found' range e' f) [
              | inl (own, o) ↦ inl (
                own,
                Occurs-later (text "call") name type own args remaining after rest range lies o,
              )
              | inr (here, absent) ↦ elim (Bool-cases (text_beq name (text "call"))) [
                | inl is_call ↦ inl (
                  type,
                  Occurs-here (text "call") name type args remaining after rest range is_call lies
                      (measure_args-Chain m tx args after rest found'' found' e') absent
                      (ground (arith, is_call, here)),
                )
                | inr other ↦ elim (Bool-cases (text_beq name (text "settings"))) [
                  | inl is_settings ↦ inr (
                    ground (arith, other, is_settings, here),
                    (absent_too (text "call") name other, absent),
                  )
                  | inr neither ↦ inr (
                    ground (arith, other, neither, here),
                    (absent_too (text "call") name other, absent),
                  )
                ]
              ]
            ]
      ]

  not_call :
      (name : Text) → text_beq name (text "settings") ≡ true → text_beq name (text "call") ≡ false
  unfolding text_beq
  not_call name e =
      let same = (text_beq_iff name (text "settings")).0 e in
      subst (λ n. text_beq n (text "call") ≡ false) (sym same) refl

  pub measure_args-settings :
      (args : List (Text × ℕ)) (remaining rest : Bytes) (found found' : Found) (range : Range)
      (own : ℕ)
      → measure_args m tx args remaining found ≡ ok (rest, found')
      → found'.settings ≡ some (range, own)
      → Occurs m tx (text "settings") args remaining rest range own
        ⊎ ((found.settings ≡ some (range, own)) × Absent (text "settings") args)
  unfolding measure_args
  measure_args-settings [] remaining rest found found' range own e f =
      let same : found ≡ found' = ground arith in inr (ap (λ k. k.settings) same ∙ f, tt)
  measure_args-settings ((name, type) ∷ args) remaining rest found found' range own e f =
      elim (Result-cases (decode_with_visitor m name type remaining)) [
        | inr (failure, a) ↦ absurd (ground (arith, a))
        | inl (after, a) ↦
            let lies = decode_with_visitor-Lies m name type remaining after a in
            let found'' = note name type (passing remaining after) found in
            let e' : measure_args m tx args after found'' ≡ ok (rest, found') = ground (arith, a) in
            elim (measure_args-settings args after rest found'' found' range own e' f) [
              | inl o ↦ inl (
                  Occurs-later (text "settings") name type own args remaining after rest range lies
                    o)
              | inr (here, absent) ↦ elim (Bool-cases (text_beq name (text "settings"))) [
                | inl is_settings ↦
                    let other = not_call name is_settings in
                    let placed : Range × ℕ = (passing remaining after, type) in
                    let both : some placed ≡ some (range, own) =
                      ground (arith, other, is_settings, here) in
                    let same_type : type ≡ own = ground (arith, both) in
                    inl (
                      subst
                        (Occurs m tx (text "settings") ((name, type) ∷ args) remaining rest range)
                        same_type
                        (Occurs-here (text "settings") name type args remaining after rest range
                          is_settings lies
                          (measure_args-Chain m tx args after rest found'' found' e') absent
                          (ground (arith, both))))
                | inr neither ↦ elim (Bool-cases (text_beq name (text "call"))) [
                  | inl is_call ↦ inr (
                    ground (arith, neither, is_call, here),
                    (absent_too (text "settings") name neither, absent),
                  )
                  | inr other ↦ inr (
                    ground (arith, other, neither, here),
                    (absent_too (text "settings") name neither, absent),
                  )
                ]
              ]
            ]
      ]
