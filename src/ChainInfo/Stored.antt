-- ===== src/ChainInfo/Stored.antt =====
-- src/chain_info.rs: what an update leaves in the store.
use wallet_daemon.Base.{
  ◌≡◌, refl, ap, ◌∙◌, Bool, true, false, none, some, text, arith, ok, bind_ok, guard, ok_or,
  ok_or_ok, Failure, failed, if◌then◌else◌,
}
use wallet_daemon.Types.{Chain, Network, ChainKey, chain_key_eq}
use wallet_daemon.Query.{Http, Globals, execute_query}
use wallet_daemon.Query.Answer.{Answered, execute_query-Answered}
use wallet_daemon.ChainInfo.{
  Info, Queries, Subxt, MetadataInfo, above_16, variables_for, config_for, decode_metadata,
  get_genesis_hash, fetch_metadata,
}

supported :
    (b : Bool) (e : Failure) (u : Unit {0}) → guard (if b then false else true) e ≡ ok u → b ≡ false
supported true e u p = absurd (ground (arith, p))
supported false e u p = refl

-- Each chain has its own genesis hash, so that a transaction that is signed for one is not valid on another.
pub get_genesis_hash_injective : (a b : ChainKey) → get_genesis_hash a ≡ get_genesis_hash b → a ≡ b
unfolding get_genesis_hash
get_genesis_hash_injective (Network.canary, Chain.relay) (Network.canary, Chain.relay) e = refl
get_genesis_hash_injective (Network.canary, Chain.relay) (Network.canary, Chain.matrix) e =
    absurd (ground (arith, e))
get_genesis_hash_injective (Network.canary, Chain.relay) (Network.enjin, Chain.relay) e =
    absurd (ground (arith, e))
get_genesis_hash_injective (Network.canary, Chain.relay) (Network.enjin, Chain.matrix) e =
    absurd (ground (arith, e))
get_genesis_hash_injective (Network.canary, Chain.matrix) (Network.canary, Chain.relay) e =
    absurd (ground (arith, e))
get_genesis_hash_injective (Network.canary, Chain.matrix) (Network.canary, Chain.matrix) e = refl
get_genesis_hash_injective (Network.canary, Chain.matrix) (Network.enjin, Chain.relay) e =
    absurd (ground (arith, e))
get_genesis_hash_injective (Network.canary, Chain.matrix) (Network.enjin, Chain.matrix) e =
    absurd (ground (arith, e))
get_genesis_hash_injective (Network.enjin, Chain.relay) (Network.canary, Chain.relay) e =
    absurd (ground (arith, e))
get_genesis_hash_injective (Network.enjin, Chain.relay) (Network.canary, Chain.matrix) e =
    absurd (ground (arith, e))
get_genesis_hash_injective (Network.enjin, Chain.relay) (Network.enjin, Chain.relay) e = refl
get_genesis_hash_injective (Network.enjin, Chain.relay) (Network.enjin, Chain.matrix) e =
    absurd (ground (arith, e))
get_genesis_hash_injective (Network.enjin, Chain.matrix) (Network.canary, Chain.relay) e =
    absurd (ground (arith, e))
get_genesis_hash_injective (Network.enjin, Chain.matrix) (Network.canary, Chain.matrix) e =
    absurd (ground (arith, e))
get_genesis_hash_injective (Network.enjin, Chain.matrix) (Network.enjin, Chain.relay) e =
    absurd (ground (arith, e))
get_genesis_hash_injective (Network.enjin, Chain.matrix) (Network.enjin, Chain.matrix) e = refl

module _ (s : Subxt) (http : Http) (globals : Globals) (debug_enabled : Bool)
    (queries : Queries) where
  -- What the platform has said of the chain, and how its metadata decodes.
  abbrev pub Fetched : ChainKey → Info → s.Metadata → Type 0
  Fetched key info metadata =
      Answered http globals debug_enabled queries.chain_info none (variables_for key) (some info)
      × (above_16 info.metadata_version ≡ false)
      × (decode_metadata s info.metadata ≡ ok metadata)

  pub fetch_metadata-Fetched :
      (key : ChainKey) (m : MetadataInfo s)
      → fetch_metadata s http globals debug_enabled queries key ≡ ok m
      → (info : Info) × (metadata : s.Metadata) × Fetched key info metadata
        × (record {
          spec_version = (config_for s key info metadata).spec_version;
          client = s.new_with_config (config_for s key info metadata);
        }
            ≡ m)
  unfolding fetch_metadata config_for
  fetch_metadata-Fetched key m e =
      let query =
        execute_query http globals debug_enabled queries.chain_info (variables_for key) none in
      let (response, executes, later) = bind_ok query _ m e in
      let (info, has, rest) =
        bind_ok (ok_or response (failed (text "no result for metadata"))) _ m later in
      let (unit, checks, decodes) =
        bind_ok
          (guard (if above_16 info.metadata_version then false else true)
            (failed (text "metadata version greater than 16 is not supported")))
          _ m rest in
      let (metadata, reads, last) = bind_ok (decode_metadata s info.metadata) _ m decodes in
      (
        info,
        metadata,
        (
          (execute_query-Answered http globals debug_enabled queries.chain_info (variables_for key)
                none (some info)).0
              (executes
                ∙ ap ok (ok_or_ok response (failed (text "no result for metadata")) info has)),
          supported (above_16 info.metadata_version)
              (failed (text "metadata version greater than 16 is not supported")) unit checks,
          reads,
        ),
        ground (arith, last),
      )
