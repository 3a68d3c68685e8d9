-- ===== src/Types.antt =====
-- src/types.rs: chains, networks, and their conversions from and to the GraphQL enums. A GraphQL enum
-- is generated code; it has a constructor for each known value and one for any other text. The
-- keys of the daemon's maps are tuples of these.
mod Tests
use wallet_daemon.Base.{
  ◌≡◌, refl, ◌↔◌, ◌≢◌, Bool, true, false, ◌&&◌, Text, Eq, equals, text_beq, text_beq_iff, Result,
  ok, err, arith,
}

pub data Chain : Type 0 where
  matrix : Chain
  relay : Chain

pub data Network : Type 0 where
  canary : Network
  enjin : Network

-- The generated `get_pending_transactions::Chain`; the enums of the other queries have the same values.
pub data GraphqlChain : Type 0 where
  matrix : GraphqlChain
  relay : GraphqlChain
  other : Text → GraphqlChain

pub data GraphqlNetwork : Type 0 where
  canary : GraphqlNetwork
  enjin : GraphqlNetwork
  other : Text → GraphqlNetwork

unfoldable pub from_chain : Chain → GraphqlChain
from_chain Chain.matrix = GraphqlChain.matrix
from_chain Chain.relay = GraphqlChain.relay

unfoldable pub try_from_chain : GraphqlChain → Result Text Chain
try_from_chain GraphqlChain.relay = ok Chain.relay
try_from_chain GraphqlChain.matrix = ok Chain.matrix
try_from_chain (GraphqlChain.other e) = err e

unfoldable pub from_network : Network → GraphqlNetwork
from_network Network.canary = GraphqlNetwork.canary
from_network Network.enjin = GraphqlNetwork.enjin

unfoldable pub try_from_network : GraphqlNetwork → Result Text Network
try_from_network GraphqlNetwork.canary = ok Network.canary
try_from_network GraphqlNetwork.enjin = ok Network.enjin
try_from_network (GraphqlNetwork.other e) = err e

-- A conversion to the daemon's chain succeeds exactly on the image of the conversion back.
pub try_from_chain-from_chain :
    (c : Chain) (g : GraphqlChain) → (try_from_chain g ≡ ok c) ↔ (g ≡ from_chain c)
unfolding try_from_chain from_chain
try_from_chain-from_chain Chain.matrix GraphqlChain.matrix = ground arith
try_from_chain-from_chain Chain.matrix GraphqlChain.relay = ground arith
try_from_chain-from_chain Chain.matrix (GraphqlChain.other e) = ground arith
try_from_chain-from_chain Chain.relay GraphqlChain.matrix = ground arith
try_from_chain-from_chain Chain.relay GraphqlChain.relay = ground arith
try_from_chain-from_chain Chain.relay (GraphqlChain.other e) = ground arith

abbrev pub ChainKey : Type 0
ChainKey = Network × Chain

abbrev pub NonceKey : Type 0
NonceKey = Network × Chain × Text

abbrev chain_beq : Chain → Chain → Bool
chain_beq Chain.matrix Chain.matrix = true
chain_beq Chain.relay Chain.relay = true
chain_beq _ _ = false

abbrev network_beq : Network → Network → Bool
network_beq Network.canary Network.canary = true
network_beq Network.enjin Network.enjin = true
network_beq _ _ = false

chain_beq_iff : (a b : Chain) → (chain_beq a b ≡ true) ↔ (a ≡ b)
chain_beq_iff Chain.matrix Chain.matrix = ground arith
chain_beq_iff Chain.matrix Chain.relay = ground arith
chain_beq_iff Chain.relay Chain.matrix = ground arith
chain_beq_iff Chain.relay Chain.relay = ground arith

network_beq_iff : (a b : Network) → (network_beq a b ≡ true) ↔ (a ≡ b)
network_beq_iff Network.canary Network.canary = ground arith
network_beq_iff Network.canary Network.enjin = ground arith
network_beq_iff Network.enjin Network.canary = ground arith
network_beq_iff Network.enjin Network.enjin = ground arith

unfoldable pub chain_key_beq : ChainKey → ChainKey → Bool
chain_key_beq (n, c) (m, d) = network_beq n m && chain_beq c d

pub chain_key_beq_iff : (a b : ChainKey) → (chain_key_beq a b ≡ true) ↔ (a ≡ b)
unfolding chain_key_beq
chain_key_beq_iff (n, c) (m, d) = ground (arith, network_beq_iff n m, chain_beq_iff c d)

unfoldable pub nonce_key_beq : NonceKey → NonceKey → Bool
nonce_key_beq (n, c, k) (m, d, l) = network_beq n m && chain_beq c d && text_beq k l

pub nonce_key_beq_iff : (a b : NonceKey) → (nonce_key_beq a b ≡ true) ↔ (a ≡ b)
unfolding nonce_key_beq
nonce_key_beq_iff (n, c, k) (m, d, l) =
    ground (arith, network_beq_iff n m, chain_beq_iff c d, text_beq_iff k l)

instance abbrev pub chain_key_eq : Eq ChainKey
chain_key_eq = record { beq = chain_key_beq; beq_iff = chain_key_beq_iff }

instance abbrev pub nonce_key_eq : Eq NonceKey
nonce_key_eq = record { beq = nonce_key_beq; beq_iff = nonce_key_beq_iff }
