-- ===== src/FuelTank/Tests.antt =====
-- A fuel tank call signed with the sample metadata.
use wallet_daemon.Base.{
  ℕ, zero, suc, ◌↔◌, List, ◌≡◌, refl, ◌⊎◌, [], ◌∷◌, Text, text, text_beq, ok, err, arith, ap,
  Result, length, ◌==◌, if◌then◌else◌, replicate, some, Bool-cases, Option-cases, inl, inr,
}
use wallet_daemon.Samples.{metadata}
use wallet_daemon.FuelTank.{
  Bytes, Metadata, Value, number, composite, variant, Values, nil, cons, Fields, end, field, named,
  unnamed, decode_with_visitor, sign_dispatch, encode_settings, set_signature, signature_value,
}
use wallet_daemon.FuelTank.Measure.{
  Dispatched, refused, unexpected, container, Decoder, measure, enough_fuel, decode, too_deep,
}
use wallet_daemon.FuelTank.Measure.Depth.{Lies, measure-Lies, measure_terminates}
use wallet_daemon.FuelTank.Refusal.{EncodesAnySignature, SignsIn64, sign_dispatch_decided}

abbrev sign : Bytes → Bytes
sign message = 1 ∷ message

trailing_bytes :
    sign_dispatch metadata (10 ∷ 0 ∷ 1 ∷ 2 ∷ 3 ∷ []) (42 ∷ []) 164 sign
    ≡ err (text "unexpected trailing bytes in fuel tank call")
unfolding sign_dispatch decode_with_visitor measure text_beq
trailing_bytes = refl

-- Signatures as lists of numbers, and an encoder that writes the numbers of the settings' first field if it
-- holds a signature of 64 bytes.
abbrev numbers : Bytes → Values
numbers [] = nil
numbers (b ∷ bytes) = cons (number b) (numbers bytes)

abbrev written : Values → Bytes
written nil = []
written (cons (number b) values) = b ∷ written values
written (cons _ values) = written values

written-numbers : (bytes : Bytes) → written (numbers bytes) ≡ bytes
written-numbers [] = refl
written-numbers (b ∷ bytes) = ap (λ l. b ∷ l) (written-numbers bytes)

abbrev write_bytes : Bytes → Result Text Bytes
write_bytes bytes = if length bytes == 64 then ok bytes else err (text "not a signature")

abbrev write_signature : Value → Result Text Bytes
write_signature (composite (unnamed values)) = write_bytes (written values)
write_signature _ = err (text "not a signature")

abbrev first_field : (Value → Result Text Bytes) → Value → Result Text Bytes
first_field write (variant _ (unnamed (cons (composite (named (field _ v _))) _))) = write v
first_field write _ = err (text "no field")

abbrev writing : Metadata
writing = record metadata {
  encode_as_type = λ type value. first_field (first_field write_signature) value;
  from_bytes = λ bytes. composite (unnamed (numbers bytes));
}

set_signature_any :
    (v w : Value) (fields set : Fields)
    → set_signature v fields ≡ some set
    → (other : Fields) × (set_signature w fields ≡ some other)
unfolding set_signature
set_signature_any v w end set e = absurd (ground (arith, e))
set_signature_any v w (field name old rest) set e =
    elim (Bool-cases (text_beq name (text "signature"))) [
      | inl hit ↦ (field name w rest, ground (arith, hit))
      | inr miss ↦ elim (Option-cases (set_signature v rest)) [
        | inl gone ↦ absurd (ground (arith, miss, gone, e))
        | inr (tail, found) ↦
            let (other, again) = set_signature_any v w rest tail found in
            (field name old other, ground (arith, miss, again))
      ]
    ]

writing-EncodesAnySignature : EncodesAnySignature writing
unfolding encode_settings set_signature
writing-EncodesAnySignature type end x first second encoded long also e = absurd (ground (arith, e))
writing-EncodesAnySignature type (field name old rest) x first second encoded long also e =
    let v = signature_value writing first x in
    let w = signature_value writing second x in
    elim (Bool-cases (text_beq name (text "signature"))) [
      | inl hit ↦ (second, ground (arith, hit, written-numbers second, also))
      | inr miss ↦ elim (Option-cases (set_signature v rest)) [
        | inl gone ↦ absurd (ground (arith, miss, gone, e))
        | inr (tail, found) ↦
            let (other, again) = set_signature_any v w rest tail found in
            (encoded, ground (arith, miss, found, again, e))
      ]
    ]

signed_writing :
    sign_dispatch writing (10 ∷ 0 ∷ 1 ∷ 2 ∷ []) (42 ∷ []) 164 (λ message. 1 ∷ replicate 63 2)
    ≡ ok (10 ∷ 0 ∷ 1 ∷ 1 ∷ replicate 63 2)
unfolding sign_dispatch decode_with_visitor measure text_beq
signed_writing = refl

sign_dispatch_decided_example :
    ((reason : Text) × ((sign : Bytes → Bytes)
        → sign_dispatch writing (10 ∷ 0 ∷ 1 ∷ 2 ∷ []) (42 ∷ []) 164 sign ≡ err reason))
    ⊎ ((sign : Bytes → Bytes)
        → SignsIn64 sign
        → (payload : Bytes) × (sign_dispatch writing (10 ∷ 0 ∷ 1 ∷ 2 ∷ []) (42 ∷ []) 164 sign
            ≡ ok payload))
sign_dispatch_decided_example =
    sign_dispatch_decided writing (10 ∷ 0 ∷ 1 ∷ 2 ∷ []) (42 ∷ []) 164 writing-EncodesAnySignature

-- Type 0 is a byte; any other type is a tuple of values of the type below it.
abbrev nesting : ℕ → List ℕ → Dispatched
nesting zero [] = refused (text "end of input")
nesting zero (b ∷ rest) = unexpected rest
nesting (suc type) input = container (type ∷ []) input

abbrev towers : Decoder
towers = record { dispatch = nesting }

deepest : measure towers enough_fuel 0 128 (5 ∷ 6 ∷ []) ≡ ok (6 ∷ [])
unfolding measure
deepest = refl

too_deep_by_one : measure towers enough_fuel 0 129 (5 ∷ 6 ∷ []) ≡ err too_deep
unfolding measure
too_deep_by_one = refl

measure-Lies_example :
    (measure towers enough_fuel 0 128 (5 ∷ 6 ∷ []) ≡ ok (6 ∷ []))
    ↔ Lies towers 129 128 (5 ∷ 6 ∷ []) (6 ∷ [])
measure-Lies_example = measure-Lies towers 128 (5 ∷ 6 ∷ []) (6 ∷ [])

measure_terminates_example :
    ((rest : List ℕ) × (measure towers enough_fuel 0 129 (5 ∷ []) ≡ ok rest))
    ⊎ (((e : Text) × (measure towers enough_fuel 0 129 (5 ∷ []) ≡ err (decode e)))
        ⊎ (measure towers enough_fuel 0 129 (5 ∷ []) ≡ err too_deep))
measure_terminates_example = measure_terminates towers 129 (5 ∷ [])
