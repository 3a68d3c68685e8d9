-- ===== src/Transaction/Nonces.antt =====
-- src/transaction.rs: the nonce cache, its refresh from the platform, and its two evictions.
use wallet_daemon.Base.{
  ℕ, ◌-◌, max, ◌≡◌, not, Option, none, some, List, length, arith, ltb, if◌then◌else◌, member,
  lookup, retain, lookup-retain,
}
use wallet_daemon.Types.{ChainKey, NonceKey, chain_key_eq, nonce_key_eq}

-- The next nonce for each network, chain and signer.
abbrev pub Nonces : Type 0
Nonces = List (NonceKey × ℕ)

abbrev pub chain_of : NonceKey → ChainKey
chain_of (network, chain, account) = (network, chain)

-- The cache left, and the number of entries dropped.
unfoldable pub evict_idle_chains : Nonces → List ChainKey → Nonces × ℕ
evict_idle_chains nonces idle =
    let kept = retain (λ key. not (member (chain_of key) idle)) nonces in
    (kept, length nonces - length kept)

unfoldable pub evict_nonce_keys : Nonces → List NonceKey → Nonces × ℕ
evict_nonce_keys nonces keys =
    let kept = retain (λ key. not (member key keys)) nonces in (kept, length nonces - length kept)

-- The slot that `entry(key).or_insert(platform_nonce)` gives, raised to the platform's nonce.
unfoldable pub rebase : Option ℕ → ℕ → ℕ
rebase none platform_nonce = platform_nonce
rebase (some slot) platform_nonce = if ltb slot platform_nonce then platform_nonce else slot

-- After chains are reported idle, the cache has exactly its entries of the other chains.
pub lookup-evict_idle_chains :
    (nonces : Nonces) (idle : List ChainKey) (key : NonceKey)
    → lookup key (evict_idle_chains nonces idle).0
      ≡ (if member (chain_of key) idle then none else lookup key nonces)
unfolding evict_idle_chains
lookup-evict_idle_chains nonces idle key =
    ground (arith, lookup-retain (λ k. not (member (chain_of k) idle)) key nonces)

pub lookup-evict_nonce_keys :
    (nonces : Nonces) (keys : List NonceKey) (key : NonceKey)
    → lookup key (evict_nonce_keys nonces keys).0
      ≡ (if member key keys then none else lookup key nonces)
unfolding evict_nonce_keys
lookup-evict_nonce_keys nonces keys key =
    ground (arith, lookup-retain (λ k. not (member k keys)) key nonces)

-- The refreshed slot is the later of the cached and the platform's nonce.
pub rebase-max :
    (slot platform_nonce : ℕ) → rebase (some slot) platform_nonce ≡ max slot platform_nonce
unfolding rebase
rebase-max slot platform_nonce = ground arith
