-- ===== src/FuelTank/Measure.antt =====
-- src/transaction/fuel_tank.rs: the `Measure` visitor. The library that it is run by is a parameter: what it finds
-- at the head of the input for a type. The visitor is recursive in the nesting of the types, here on
-- fuel.
pub mod Depth
pub mod Forward
use wallet_daemon.Base.{
  ℕ, zero, suc, Option, none, some, List, [], ◌∷◌, Text, text, ltb, if◌then◌else◌, Result, ok, err,
  ◌>>=◌,
}

abbrev pub max_nesting : ℕ
max_nesting = 128

-- What is at the head of the input: a value that has no items, with what is left behind it, or a
-- container, by the types of its items, with what is left before the first.
pub data Dispatched : Type 0 where
  refused : Text → Dispatched
  unexpected : List ℕ → Dispatched
  container : List ℕ → List ℕ → Dispatched

pub record Decoder : Type 0 where
  pub dispatch : ℕ → List ℕ → Dispatched

pub data MeasureError : Type 0 where
  decode : Text → MeasureError
  too_deep : MeasureError
  out_of_fuel : MeasureError

abbrev pub Measured : Type 0
Measured = Result MeasureError (List ℕ)

-- The input that the library goes on with, and the error if it shall not.
unfoldable pub unchecked_decode_as_type : ℕ → List ℕ → List ℕ × Option MeasureError
unchecked_decode_as_type depth input =
    if ltb max_nesting depth then ([], some too_deep) else (input, none)

-- The loops of `visit_items!` and `visit_variant`, given the nested visitor.
unfoldable pub visit_items : (ℕ → List ℕ → Measured) → List ℕ → List ℕ → Measured
visit_items nested [] input = ok input
visit_items nested (type ∷ types) input = nested type input >>= visit_items nested types

abbrev pub visit : (ℕ → List ℕ → Measured) → Dispatched → Measured
visit nested (refused e) = err (decode e)
visit nested (unexpected rest) = ok rest
visit nested (container types rest) = visit_items nested types rest

abbrev pub go_on : Option MeasureError → Measured → Measured
go_on none later = later
go_on (some e) later = err e

-- `Measure::nested`
abbrev pub nested : ℕ → ℕ
nested depth = suc depth

-- The visitor at a depth, on a value of the type.
unfoldable pub measure : Decoder → ℕ → ℕ → ℕ → List ℕ → Measured
unfolding unchecked_decode_as_type visit_items
measure decoder zero depth type input = err out_of_fuel
measure decoder (suc fuel) depth type input =
    let checked = unchecked_decode_as_type depth input in
    go_on checked.1 (visit (measure decoder fuel (nested depth)) (decoder.dispatch type checked.0))

-- `Display`
abbrev pub describe : MeasureError → Text
describe (decode e) = e
describe too_deep = text "nested more than 128 levels deep"
describe out_of_fuel = text "out of fuel"

abbrev pub enough_fuel : ℕ
enough_fuel = 130
