-- ===== src/FuelTank/Measure/Depth.antt =====
-- src/transaction/fuel_tank.rs: which values the visitor accepts.
use wallet_daemon.Base.{
  ℕ, zero, suc, ◌+◌, ◌≤◌, ◌<◌, ◌≡◌, ◌≢◌, ◌↔◌, ◌⊎◌, refl, ap, sym, ◌∙◌, subst, true, false, List, [],
  ◌∷◌, Text, arith, ltb, ok, err, Bool-cases, Result-cases, inl, inr, bind_ok, ltb→lt, ◌>>=◌,
}
use wallet_daemon.FuelTank.Measure.{
  max_nesting, enough_fuel, Dispatched, refused, unexpected, container, Decoder, decode, too_deep,
  out_of_fuel, Measured, unchecked_decode_as_type, visit_items, visit, measure,
}

-- The items of the types lie one behind the other, each as the relation has it.
abbrev pub Chain : (ℕ → List ℕ → List ℕ → Type 0) → List ℕ → List ℕ → List ℕ → Type 0
Chain R [] input rest = input ≡ rest
Chain R (type ∷ types) input rest =
    (middle : List ℕ) × R type input middle × Chain R types middle rest

-- A value of the type lies at the head of the input, and takes at most this many levels of types.
abbrev pub Lies : Decoder → ℕ → ℕ → List ℕ → List ℕ → Type 0
Lies decoder zero type input rest = ⊥
Lies decoder (suc levels) type input rest =
    (decoder.dispatch type input ≡ unexpected rest)
    ⊎ ((types : List ℕ) × (items : List ℕ) × (decoder.dispatch type input ≡ container types items)
        × Chain (Lies decoder levels) types items rest)

visit_items_iff :
    (nested : ℕ → List ℕ → Measured) (R : ℕ → List ℕ → List ℕ → Type 0)
    → ((type : ℕ) (input rest : List ℕ) → (nested type input ≡ ok rest) ↔ R type input rest)
    → (types input rest : List ℕ)
    → (visit_items nested types input ≡ ok rest) ↔ Chain R types input rest
unfolding visit_items
visit_items_iff nested R h [] input rest = ((λ e. ground (arith, e)), (λ e. ap ok e))
visit_items_iff nested R h (type ∷ types) input rest = (
  (λ e.
      let (middle, first, later) = bind_ok (nested type input) (visit_items nested types) rest e in
      (
        middle,
        (h type input middle).0 first,
        (visit_items_iff nested R h types middle rest).0 later,
      )),
  (λ (middle, first, later).
      ap (λ r. r >>= visit_items nested types) ((h type input middle).1 first)
      ∙ (visit_items_iff nested R h types middle rest).1 later),
)

visit_iff :
    (nested : ℕ → List ℕ → Measured) (R : ℕ → List ℕ → List ℕ → Type 0)
    → ((type : ℕ) (input rest : List ℕ) → (nested type input ≡ ok rest) ↔ R type input rest)
    → (found : Dispatched) (rest : List ℕ)
    → (visit nested found ≡ ok rest) ↔ (
        (found ≡ unexpected rest)
        ⊎ ((types : List ℕ) × (items : List ℕ) × (found ≡ container types items)
            × Chain R types items rest))
visit_iff nested R h (refused e) rest = (
  (λ p. absurd (ground (arith, p))),
  elim [
    | inl p ↦ absurd (ground (arith, p))
    | inr (types, items, p, c) ↦ absurd (ground (arith, p))
  ],
)
visit_iff nested R h (unexpected left) rest = (
  (λ p. inl (ground (arith, p))),
  elim [ inl p ↦ ground (arith, p) | inr (types, items, p, c) ↦ absurd (ground (arith, p)) ],
)
visit_iff nested R h (container ts left) rest = (
  (λ p. inr (ts, left, refl, (visit_items_iff nested R h ts left rest).0 p)),
  elim [
    | inl p ↦ absurd (ground (arith, p))
    | inr (types, items, p, c) ↦
        let same_types : types ≡ ts = ground (arith, p) in
        let same_items : items ≡ left = ground (arith, p) in
        (visit_items_iff nested R h ts left rest).1 (
          subst (λ i. Chain R ts i rest) same_items
            (subst (λ t. Chain R t items rest) same_types c))
  ],
)

measure_step :
    (decoder : Decoder) (fuel depth type : ℕ) (input : List ℕ)
    → depth ≤ max_nesting
    → measure decoder (suc fuel) depth type input
      ≡ visit (measure decoder fuel (suc depth)) (decoder.dispatch type input)
unfolding measure unchecked_decode_as_type
measure_step decoder fuel depth type input h =
    let e : ltb max_nesting depth ≡ false = ground (arith, h) in rw e refl

measure_stop :
    (decoder : Decoder) (fuel depth type : ℕ) (input : List ℕ)
    → max_nesting < depth
    → measure decoder (suc fuel) depth type input ≡ err too_deep
unfolding measure unchecked_decode_as_type
measure_stop decoder fuel depth type input h =
    let e : ltb max_nesting depth ≡ true = ground (arith, h) in rw e refl

measure_iff :
    (decoder : Decoder) (levels depth : ℕ)
    → depth + levels ≡ suc max_nesting
    → (type : ℕ) (input rest : List ℕ)
    → (measure decoder (suc levels) depth type input ≡ ok rest)
      ↔ Lies decoder levels type input rest
measure_iff decoder zero depth h type input rest =
    let stops = measure_stop decoder zero depth type input (omega (arith, h)) in
    ((λ e. absurd (ground (arith, stops, e))), (λ l. absurd l))
measure_iff decoder (suc levels) depth h type input rest =
    let steps = measure_step decoder (suc levels) depth type input (omega (arith, h)) in
    let deeper = measure_iff decoder levels (suc depth) (omega (arith, h)) in
    let (there, back) =
      visit_iff (measure decoder (suc levels) (suc depth)) (Lies decoder levels) deeper
        (decoder.dispatch type input) rest in
    ((λ e. there (sym steps ∙ e)), (λ l. steps ∙ back l))

-- The visitor accepts a value and finds its end exactly when the value lies there and takes at most 129 levels
-- of types, one more than the limit on nesting; no value is measured differently than it is laid out.
pub measure-Lies :
    (decoder : Decoder) (type : ℕ) (input rest : List ℕ)
    → (measure decoder enough_fuel 0 type input ≡ ok rest) ↔ Lies decoder 129 type input rest
measure-Lies decoder type input rest = measure_iff decoder 129 0 refl type input rest

visit_items_total :
    (nested : ℕ → List ℕ → Measured)
    → ((type : ℕ) (input : List ℕ) → nested type input ≢ err out_of_fuel)
    → (types input : List ℕ) → visit_items nested types input ≢ err out_of_fuel
unfolding visit_items
visit_items_total nested h [] input p = ground (arith, p)
visit_items_total nested h (type ∷ types) input p = elim (Result-cases (nested type input)) [
  | inl (middle, first) ↦ visit_items_total nested h types middle (ground (arith, first, p))
  | inr (e, first) ↦ h type input (ground (arith, first, p))
]

visit_total :
    (nested : ℕ → List ℕ → Measured)
    → ((type : ℕ) (input : List ℕ) → nested type input ≢ err out_of_fuel)
    → (found : Dispatched) → visit nested found ≢ err out_of_fuel
visit_total nested h (refused e) p = ground (arith, p)
visit_total nested h (unexpected rest) p = ground (arith, p)
visit_total nested h (container types items) p = visit_items_total nested h types items p

measure_total :
    (decoder : Decoder) (fuel depth : ℕ)
    → 130 ≤ fuel + depth
    → depth ≤ 129
    → (type : ℕ) (input : List ℕ) → measure decoder fuel depth type input ≢ err out_of_fuel
measure_total decoder zero depth h below type input e = absurd (omega (arith, h, below))
measure_total decoder (suc fuel) depth h below type input e =
    elim (Bool-cases (ltb max_nesting depth)) [
      | inl over ↦
          ground
            (arith, measure_stop decoder fuel depth type input (ltb→lt max_nesting depth over), e)
      | inr within ↦
          let inside : depth ≤ max_nesting = ground (arith, within) in
          visit_total (measure decoder fuel (suc depth))
            (measure_total decoder fuel (suc depth) (omega (arith, h)) (omega (arith, inside)))
            (decoder.dispatch type input)
            (sym (measure_step decoder fuel depth type input inside) ∙ e)
    ]

-- The recursion ends by itself, whatever the types and the input are: 130 levels of it are enough, so that
-- the visitor gives a result, and refuses only what the library refuses or what is nested too deep.
pub measure_terminates :
    (decoder : Decoder) (type : ℕ) (input : List ℕ)
    → ((rest : List ℕ) × (measure decoder enough_fuel 0 type input ≡ ok rest))
      ⊎ (((e : Text) × (measure decoder enough_fuel 0 type input ≡ err (decode e)))
          ⊎ (measure decoder enough_fuel 0 type input ≡ err too_deep))
measure_terminates decoder type input =
    outcome (measure decoder enough_fuel 0 type input)
      (measure_total decoder enough_fuel 0 (omega arith) (omega arith) type input)
  where
    outcome :
        (r : Measured)
        → r ≢ err out_of_fuel
        → ((rest : List ℕ) × (r ≡ ok rest))
          ⊎ (((e : Text) × (r ≡ err (decode e))) ⊎ (r ≡ err too_deep))
    outcome (ok rest) h = inl (rest, refl)
    outcome (err (decode e)) h = inr (inl (e, refl))
    outcome (err too_deep) h = inr (inr refl)
    outcome (err out_of_fuel) h = absurd (h refl)
