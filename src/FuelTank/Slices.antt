-- ===== src/FuelTank/Slices.antt =====
-- src/transaction/fuel_tank.rs: the parts of a call before, in and behind a range.
use wallet_daemon.Base.{
  ℕ, zero, suc, ◌-◌, ◌≤◌, ◌≡◌, refl, ap, ◌∙◌, [], ◌∷◌, ◌++◌, take, drop, arith,
}
use wallet_daemon.FuelTank.{Bytes, slice}

take-drop : (n : ℕ) (xs : Bytes) → take n xs ++ drop n xs ≡ xs
take-drop zero xs = refl
take-drop (suc n) [] = refl
take-drop (suc n) (x ∷ xs) = ap (◌∷◌ x) (take-drop n xs)

take-nil : (n : ℕ) → take {A = ℕ} n [] ≡ []
take-nil zero = refl
take-nil (suc n) = refl

drop-slice :
    (start stop : ℕ) (xs : Bytes)
    → start ≤ stop
    → slice start stop xs ++ drop stop xs ≡ drop start xs
drop-slice zero stop xs h = let e : stop - 0 ≡ stop = omega arith in rw e (take-drop stop xs)
drop-slice (suc start) zero xs h = absurd (omega arith)
drop-slice (suc start) (suc stop) [] h =
    let e : suc stop - suc start ≡ stop - start = omega arith in rw e (rw (take-nil (stop - start)))
drop-slice (suc start) (suc stop) (x ∷ xs) h =
    let e : suc stop - suc start ≡ stop - start = omega arith in
    rw e (drop-slice start stop xs (omega arith))

-- A call is what stands before a range, the range, and what stands behind it.
pub split_at_range :
    (start stop : ℕ) (xs : Bytes)
    → start ≤ stop
    → take start xs ++ (slice start stop xs ++ drop stop xs) ≡ xs
split_at_range start stop xs h =
    ap (◌++◌ (take start xs)) (drop-slice start stop xs h) ∙ take-drop start xs
