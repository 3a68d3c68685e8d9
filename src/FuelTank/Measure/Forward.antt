-- ===== src/FuelTank/Measure/Forward.antt =====
-- src/transaction/fuel_tank.rs: in which direction the visitor goes.
use wallet_daemon.Base.{ℕ, zero, suc, ◌≤◌, ◌≡◌, ap, List, [], ◌∷◌, arith, length, inl, inr}
use wallet_daemon.FuelTank.Measure.{unexpected, container, Decoder}
use wallet_daemon.FuelTank.Measure.Depth.{Chain, Lies}

-- What is left of the input by the library itself is no longer than the input.
abbrev pub MovesForward : Decoder → Type 0
MovesForward decoder =
    (type : ℕ) (input : List ℕ)
    → ((rest : List ℕ) → decoder.dispatch type input ≡ unexpected rest → length rest ≤ length input)
      × ((types items : List ℕ)
          → decoder.dispatch type input ≡ container types items
          → length items ≤ length input)

Chain_forward :
    (R : ℕ → List ℕ → List ℕ → Type 0)
    → ((type : ℕ) (input rest : List ℕ) → R type input rest → length rest ≤ length input)
    → (types input rest : List ℕ) → Chain R types input rest
    → length rest ≤ length input
Chain_forward R h [] input rest e = omega (arith, ap length e)
Chain_forward R h (type ∷ types) input rest (middle, first, later) =
    omega (arith, h type input middle first, Chain_forward R h types middle rest later)

-- What lies behind a value is no longer than what the value starts.
pub Lies-forward :
    (decoder : Decoder)
    → MovesForward decoder
    → (levels type : ℕ) (input rest : List ℕ) → Lies decoder levels type input rest
    → length rest ≤ length input
Lies-forward decoder forward zero type input rest l = absurd l
Lies-forward decoder forward (suc levels) type input rest (inl e) = (forward type input).0 rest e
Lies-forward decoder forward (suc levels) type input rest (inr (types, items, e, c)) =
    let header = (forward type input).1 types items e in
    omega (
      arith,
      header,
      Chain_forward (Lies decoder levels) (Lies-forward decoder forward levels) types items rest c,
    )
