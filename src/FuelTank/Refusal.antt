-- ===== src/FuelTank/Refusal.antt =====
-- src/transaction/fuel_tank.rs: nothing is signed for a call that is refused.
use wallet_daemon.Base.{
  ℕ, ◌≡◌, refl, length, ◌⊎◌, [], ◌∷◌, ◌++◌, Text, replicate, ok, err, Result-cases, inl, inr, arith,
  take, drop,
}
use wallet_daemon.FuelTank.{
  Bytes, Metadata, Fields, Prepared, prepare, sign_dispatch, encode_settings, message_for,
}

-- Whether settings can be encoded does not depend on which 64 bytes the signature has.
abbrev pub EncodesAnySignature : Metadata → Type 0
EncodesAnySignature m =
    (type : ℕ) (fields : Fields) (x : ℕ) (first second encoded : Bytes)
    → length first ≡ 64
    → length second ≡ 64
    → encode_settings m type fields x first ≡ ok encoded
    → (other : Bytes) × (encode_settings m type fields x second ≡ ok other)

-- An sr25519 signature has 64 bytes.
abbrev pub SignsIn64 : (Bytes → Bytes) → Type 0
SignsIn64 sign = (message : Bytes) → length (sign message) ≡ 64

prepare-encodes :
    (m : Metadata) (tx : Bytes) (x : ℕ) (found : Prepared)
    → prepare m tx x ≡ ok found
    → (encoded : Bytes) × (encode_settings m found.settings_type found.fields x (replicate 64 0)
        ≡ ok encoded)
unfolding prepare
prepare-encodes m [] x found e = absurd (ground arith)
prepare-encodes m (p ∷ []) x found e = absurd (ground arith)
prepare-encodes m (p ∷ c ∷ args) x found e =
    elim (Result-cases (encode_settings m found.settings_type found.fields x (replicate 64 0))) [
      | inl (encoded, a) ↦ (encoded, a)
      | inr (failure, a) ↦ absurd (ground (arith, a))
    ]

-- Where the encoding's success does not depend on which 64 bytes a signature has, a call is either refused with
-- one reason for every signer, before anything is signed, or signed for every signer whose signatures have 64
-- bytes.
pub sign_dispatch_decided :
    (m : Metadata) (tx public_key : Bytes) (expiration_block : ℕ)
    → EncodesAnySignature m
    → ((reason : Text) × ((sign : Bytes → Bytes)
          → sign_dispatch m tx public_key expiration_block sign ≡ err reason))
      ⊎ ((sign : Bytes → Bytes)
          → SignsIn64 sign
          → (payload : Bytes) × (sign_dispatch m tx public_key expiration_block sign ≡ ok payload))
unfolding sign_dispatch
sign_dispatch_decided m tx key x any = elim (Result-cases (prepare m tx x)) [
  | inr (reason, a) ↦ inl (reason, λ sign. rw a)
  | inl (found, a) ↦ inr (λ sign long.
      let (placeholder, b) = prepare-encodes m tx x found a in
      let message = message_for tx found.call_range key x in
      let (encoded, c) =
        any found.settings_type found.fields x (replicate 64 0) (sign message) placeholder refl
          (long message) b in
      (
        take found.settings_range.start tx ++ (encoded ++ drop found.settings_range.stop tx),
        ground (arith, a, c),
      ))
]
