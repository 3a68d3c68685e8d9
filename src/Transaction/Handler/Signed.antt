-- ===== src/Transaction/Handler/Signed.antt =====
-- src/transaction.rs: the signing loop of `transaction_handler` from its start, on the refreshed nonces.
use wallet_daemon.Base.{false, ◌≡◌, refl, ap, sym, List, [], List-cases, inl, inr, lookup, arith}
use wallet_daemon.Types.{NonceKey, nonce_key_eq}
use wallet_daemon.Junction.{Signing}
use wallet_daemon.Transaction.Nonces.{Nonces}
use wallet_daemon.Transaction.Handler.{Prefetch, Signer, refreshed, signed, overflowed}
use wallet_daemon.Transaction.Extrinsic.{Platform}
use wallet_daemon.Transaction.Handler.Assignment.{
  count, slot_after_none, assigned, assigned_keys, sign_requests-assigned_keys, Tracks,
  sign_requests-assigned, sign_requests_committed,
}
use wallet_daemon.Transaction.Handler.Picked.{Fits, sign_requests-Fits}

module _ (s : Signing) (platform : Platform s) (keypair : s.Keypair) (p : Prefetch)
    (nonces : Nonces) (signers : List (Signer s platform)) where
  pub signed_inputs :
      (signed s platform keypair p signers nonces).inputs
      ≡ assigned s platform keypair p
          (refreshed s platform p signers nonces).failed_keys
          (refreshed s platform p signers nonces).nonces
          []
          signers
  signed_inputs =
      (sign_requests-assigned s platform keypair p
        (refreshed s platform p signers nonces).failed_keys
        (refreshed s platform p signers nonces).nonces signers
        (record {
          nonces = (refreshed s platform p signers nonces).nonces;
          inputs = [];
          committed_keys = [];
        })
        (λ key.
          sym (slot_after_none (lookup key (refreshed s platform p signers nonces).nonces)))).0

  -- If the refreshed nonces fit 64 bits and no turn of the loop panics, a batch is signed in the order of its
  -- requests, and each request gets the refreshed nonce of its network, chain and signer, raised by the
  -- number of requests of the same key signed before it in the batch; a request that cannot be signed
  -- leaves no gap, and all nonces, the next ones included, fit 64 bits.
  pub signed-assigned :
      Fits (refreshed s platform p signers nonces).nonces
      → overflowed s platform keypair p signers nonces ≡ false
      → ((signed s platform keypair p signers nonces).inputs
          ≡ assigned s platform keypair p
              (refreshed s platform p signers nonces).failed_keys
              (refreshed s platform p signers nonces).nonces
              []
              signers)
        × Fits (signed s platform keypair p signers nonces).nonces
  signed-assigned fits calm = (
    signed_inputs,
    sign_requests-Fits s platform keypair p (refreshed s platform p signers nonces).failed_keys
        signers
        (record {
          nonces = (refreshed s platform p signers nonces).nonces;
          inputs = [];
          committed_keys = [];
        })
        calm fits,
  )

  pub signed-assigned_keys :
      (signed s platform keypair p signers nonces).committed_keys
      ≡ assigned_keys s platform keypair p
          (refreshed s platform p signers nonces).failed_keys
          (refreshed s platform p signers nonces).nonces
          []
          signers
  signed-assigned_keys =
      sign_requests-assigned_keys s platform keypair p
        (refreshed s platform p signers nonces).failed_keys
        (refreshed s platform p signers nonces).nonces signers
        (record {
          nonces = (refreshed s platform p signers nonces).nonces;
          inputs = [];
          committed_keys = [];
        })
        (λ key. sym (slot_after_none (lookup key (refreshed s platform p signers nonces).nonces)))

  pub signed-Tracks :
      Tracks s platform keypair p
        (refreshed s platform p signers nonces).failed_keys
        (refreshed s platform p signers nonces).nonces
        (signed s platform keypair p signers nonces)
  signed-Tracks =
      (sign_requests-assigned s platform keypair p
        (refreshed s platform p signers nonces).failed_keys
        (refreshed s platform p signers nonces).nonces signers
        (record {
          nonces = (refreshed s platform p signers nonces).nonces;
          inputs = [];
          committed_keys = [];
        })
        (λ key.
          sym (slot_after_none (lookup key (refreshed s platform p signers nonces).nonces)))).1

  pub signed-unused :
      (key : NonceKey)
      → (signed s platform keypair p signers nonces).inputs ≡ []
      → count key (signed s platform keypair p signers nonces).committed_keys ≡ 0
  signed-unused key h =
      elim (List-cases (signed s platform keypair p signers nonces).committed_keys) [
        | inl e ↦ ap (count key) e
        | inr (k, ks, e) ↦ absurd (
            ground (
              arith,
              e,
              h,
              sign_requests_committed s platform keypair p
                  (refreshed s platform p signers nonces).failed_keys signers
                  (record {
                    nonces = (refreshed s platform p signers nonces).nonces;
                    inputs = [];
                    committed_keys = [];
                  })
                  refl,
            ))
      ]
