-- ===== src/Wallet/Derive.antt =====
-- src/wallet.rs: `derive_wallets`, and `launch_job_scheduler` of the wallet processor. The keys and the
-- platform's mutation are parameters.
use wallet_daemon.Base.{
  ◌≡◌, refl, sym, ap, some, List, [], ◌∷◌, ◌++◌, map, Text, text, Result, ok, err, Result-cases,
  inl, inr, arith,
}
use wallet_daemon.Junction.{Signing, derive_junction, derive_signer, derive_signer-derive_junction}
use wallet_daemon.Wallet.Request.{DeriveWalletRequest}
use wallet_daemon.Wallet.Step.{BatchOutcome, completed, submission_failed}

pub record PopulateManagedWalletInput : Type 0 where
  pub external_id : Text
  pub public_key : Text
  pub signed_message : Text

-- The platform's mutation, and the library's hexadecimal encoding.
pub record Platform : Type 0 where
  pub populate_managed_wallets : List PopulateManagedWalletInput → Result Text (Unit {0})
  pub hex_encode : Text → Text

module _ (s : Signing) (platform : Platform) (keypair : s.Keypair) where
  abbrev pub to_hex : Text → Text
  to_hex bytes = text "0x" ++ platform.hex_encode bytes

  -- `EnjinPlatform.VerifyManagedWallet(0x…)` with the daemon's public key
  abbrev pub verify_message : Text
  verify_message =
      text "EnjinPlatform.VerifyManagedWallet(0x"
      ++ platform.hex_encode (s.public_key keypair)
      ++ text ")"

  unfoldable pub derive_wallet : DeriveWalletRequest → PopulateManagedWalletInput
  derive_wallet request =
      let derived_pair = s.derive keypair (derive_junction s request.external_id) in
      record {
        external_id = request.external_id;
        public_key = to_hex (s.public_key derived_pair);
        signed_message = to_hex (s.sign derived_pair verify_message);
      }

  unfoldable pub derive_wallets : List DeriveWalletRequest → BatchOutcome
  unfolding derive_wallet
  derive_wallets requests = elim (platform.populate_managed_wallets (map derive_wallet requests)) [
    | ok reply ↦ completed
    | err error ↦ submission_failed
  ]

  -- The outcomes that the processor acknowledges, batch by batch.
  unfoldable pub launch_job_scheduler : List (List DeriveWalletRequest) → List BatchOutcome
  launch_job_scheduler batches = map derive_wallets batches

  -- The key that signs the transactions of an external id is the one the platform is told for it.
  pub derive_wallet_signer :
      (request : DeriveWalletRequest)
      → ((derive_wallet request).external_id ≡ request.external_id)
        × ((derive_wallet request).public_key
            ≡ to_hex (s.public_key (derive_signer s keypair (some request.external_id))))
        × ((derive_wallet request).signed_message
            ≡ to_hex (s.sign (derive_signer s keypair (some request.external_id)) verify_message))
  unfolding derive_wallet
  derive_wallet_signer request =
      let same = derive_signer-derive_junction s keypair request.external_id in
      (
        refl,
        ap (λ k. to_hex (s.public_key k)) (sym same),
        ap (λ k. to_hex (s.sign k verify_message)) (sym same),
      )

  -- The wallets of a batch as the platform should be told them: each request's external id, with the
  -- public key of the transaction signer of that id.
  abbrev pub wallets_told : List DeriveWalletRequest → List (Text × Text)
  wallets_told = map (λ request. (
    request.external_id,
    to_hex (s.public_key (derive_signer s keypair (some request.external_id))),
  ))

  abbrev pub told : PopulateManagedWalletInput → Text × Text
  told input = (input.external_id, input.public_key)

  map-derive_wallet :
      (requests : List DeriveWalletRequest)
      → map told (map derive_wallet requests) ≡ wallets_told requests
  map-derive_wallet [] = refl
  map-derive_wallet (request ∷ requests) =
      let (same_id, same_key, _) = derive_wallet_signer request in
      cc (same_id, same_key, map-derive_wallet requests)

  -- If a batch is acknowledged as completed, the platform has accepted it, and what the platform
  -- was given holds one wallet for each request, in order: the external id, and the public key
  -- of the key that signs the transactions of that id.
  pub derive_wallets_completed :
      (requests : List DeriveWalletRequest)
      → derive_wallets requests ≡ completed
      → (inputs : List PopulateManagedWalletInput) × ((reply : Unit {0})
          × (platform.populate_managed_wallets inputs ≡ ok reply))
        × (map told inputs ≡ wallets_told requests)
  unfolding derive_wallets
  derive_wallets_completed requests e =
      elim (Result-cases (platform.populate_managed_wallets (map derive_wallet requests))) [
        | inl (reply, a) ↦ (map derive_wallet requests, (reply, a), map-derive_wallet requests)
        | inr (error, a) ↦ absurd (ground (arith, e, a))
      ]
