-- ===== src/FuelTank/Arguments.antt =====
-- src/transaction/fuel_tank.rs: where the arguments of a call lie.
use wallet_daemon.Base.{
  ℕ, ◌-◌, ◌≤◌, ◌≡◌, ap, ◌∙◌, List, [], ◌∷◌, Text, arith, length, ok, Result-cases, inl, inr,
}
use wallet_daemon.FuelTank.Measure.{measure, enough_fuel}
use wallet_daemon.FuelTank.Measure.Depth.{Chain, Lies, measure-Lies}
use wallet_daemon.FuelTank.Measure.Forward.{MovesForward, Lies-forward}
use wallet_daemon.FuelTank.{Bytes, Metadata, Range, Found, note, decode_with_visitor, measure_args}

-- An argument that is passed lies at the head of the input.
pub decode_with_visitor-Lies :
    (m : Metadata) (name : Text) (type : ℕ) (remaining rest : Bytes)
    → decode_with_visitor m name type remaining ≡ ok rest
    → Lies m.decoder 129 type remaining rest
unfolding decode_with_visitor
decode_with_visitor-Lies m name type remaining rest e =
    elim (Result-cases (measure m.decoder enough_fuel 0 type remaining)) [
      | inl (after, a) ↦
          let same : after ≡ rest = ground (arith, a, e) in
          (measure-Lies m.decoder type remaining rest).0 (a ∙ ap ok same)
      | inr (failure, a) ↦ absurd (ground (arith, a, e))
    ]

pub decode_with_visitor_forward :
    (m : Metadata) (name : Text) (type : ℕ) (remaining rest : Bytes)
    → MovesForward m.decoder
    → decode_with_visitor m name type remaining ≡ ok rest
    → length rest ≤ length remaining
decode_with_visitor_forward m name type remaining rest forward e =
    Lies-forward m.decoder forward 129 type remaining rest
      (decode_with_visitor-Lies m name type remaining rest e)

abbrev pub types_of : List (Text × ℕ) → List ℕ
types_of [] = []
types_of ((name, type) ∷ args) = type ∷ types_of args

-- The arguments that the loop has passed lie one behind the other.
pub measure_args-Chain :
    (m : Metadata) (tx : Bytes) (args : List (Text × ℕ)) (remaining rest : Bytes)
    (found found' : Found)
    → measure_args m tx args remaining found ≡ ok (rest, found')
    → Chain (Lies m.decoder 129) (types_of args) remaining rest
unfolding measure_args
measure_args-Chain m tx [] remaining rest found found' e = ground (arith, e)
measure_args-Chain m tx ((name, type) ∷ args) remaining rest found found' e =
    elim (Result-cases (decode_with_visitor m name type remaining)) [
      | inl (after, a) ↦
          let range : Range = record {
            start = length tx - length remaining;
            stop = length tx - length after;
          } in
          (
            after,
            decode_with_visitor-Lies m name type remaining after a,
            measure_args-Chain m tx args after rest (note name type range found) found'
                (ground (arith, a, e)),
          )
      | inr (failure, a) ↦ absurd (ground (arith, a, e))
    ]
