-- ===== src/Junction.antt =====
-- `derive_junction` of src/wallet.rs and `derive_signer` of src/transaction.rs. Keys are those of the
-- signing library, a parameter.
mod Tests
use wallet_daemon.Base.{
  ℕ, suc, ◌+◌, ◌-◌, ◌*◌, ◌≡◌, refl, ◌↔◌, ◌⊎◌, ◌≢◌, inl, inr, Bool, true, false, ◌&&◌, Option, none,
  some, List, [], ◌∷◌, Text, ℤ, parse_i64, magnitude, read_digits, is_digit, leb, ◌==◌,
  if◌then◌else◌, arith, ap, Option-cases, Bool-cases,
}

-- `DeriveJunction::soft` encodes a number or a text and pads it to 32 bytes, so that two of them may have
-- one junction; which ones is left to the library.
pub record Signing : Type 1 where
  pub Keypair : Type 0
  pub Junction : Type 0
  pub soft_number : ℤ → Junction
  pub soft_word : Text → Junction
  pub public_key : Keypair → Text
  -- a soft derivation
  pub derive : Keypair → Junction → Keypair
  pub sign : Keypair → List ℕ → List ℕ

unfoldable pub derive_junction : (s : Signing) → Text → s.Junction
derive_junction s external_id = elim (parse_i64 external_id) [
  | some n ↦ s.soft_number n
  | none ↦ s.soft_word external_id
]

unfoldable pub derive_signer : (s : Signing) → s.Keypair → Option Text → s.Keypair
derive_signer s keypair none = keypair
derive_signer s keypair (some id) = elim (parse_i64 id) [
  | some n ↦ s.derive keypair (s.soft_number n)
  | none ↦ s.derive keypair (s.soft_word id)
]

-- The transaction signer of an external id is the key that the wallet worker derives for it.
pub derive_signer-derive_junction :
    (s : Signing) (keypair : s.Keypair) (id : Text)
    → derive_signer s keypair (some id) ≡ s.derive keypair (derive_junction s id)
unfolding derive_signer derive_junction
derive_signer-derive_junction s keypair id = elim (Option-cases (parse_i64 id)) [
  | inl not_number ↦ ground (arith, not_number)
  | inr (n, is_number) ↦ ground (arith, is_number)
]

leading_zero :
    (digit : ℕ) (rest : Text)
    → is_digit digit ≡ true
    → parse_i64 (b'0' ∷ digit ∷ rest) ≡ parse_i64 (digit ∷ rest)
unfolding parse_i64
leading_zero digit rest d = ground arith

-- A decimal number that fits 64 bits keeps its junction when one more leading zero is written.
pub derive_junction_leading_zero :
    (s : Signing) (digit : ℕ) (rest : Text) (n : ℤ)
    → is_digit digit ≡ true
    → parse_i64 (digit ∷ rest) ≡ some n
    → derive_junction s (b'0' ∷ digit ∷ rest) ≡ derive_junction s (digit ∷ rest)
unfolding derive_junction
derive_junction_leading_zero s digit rest n d e =
    let zero_first : parse_i64 (b'0' ∷ digit ∷ rest) ≡ parse_i64 (digit ∷ rest) =
      leading_zero digit rest d in
    ground (arith, zero_first, e)
