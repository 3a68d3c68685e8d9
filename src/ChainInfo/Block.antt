-- ===== src/ChainInfo/Block.antt =====
-- src/chain_info.rs: the block and the nonce that a query gives.
use wallet_daemon.Base.{
  ℕ, ◌<◌, ◌≡◌, ap, sym, ◌∙◌, Bool, none, some, Text, text, arith, ok, bind_ok, ◌==◌, ok_or,
  ok_or_ok, map_err_ok, ℤ, pos, negsuc, failed, length, map_err, Bool-cases, inl, inr,
}
use wallet_daemon.Types.{ChainKey}
use wallet_daemon.FuelTank.{Bytes}
use wallet_daemon.Query.{Http, Globals, execute_query}
use wallet_daemon.Query.Answer.{Answered, execute_query-Answered}
use wallet_daemon.ChainInfo.{
  CurrentBlock, Queries, Subxt, as_u32, behind_x, variables_for, h256, get_block_and_spec_version,
}

as_u32_bound : (z : ℤ) → as_u32 z < 4294967296
as_u32_bound (pos n) = omega arith
as_u32_bound (negsuc n) = omega arith

h256_ok : (bytes hash : Bytes) → h256 bytes ≡ ok hash → (bytes ≡ hash) × (length hash ≡ 32)
h256_ok bytes hash e = elim (Bool-cases (length bytes == 32)) [
  | inl right ↦
      let same : bytes ≡ hash = ground (arith, right, e) in
      let long : length bytes ≡ 32 = ground (arith, right) in (same, ap length (sym same) ∙ long)
  | inr wrong ↦ absurd (ground (arith, wrong, e))
]

module _ (s : Subxt) (http : Http) (globals : Globals) (debug_enabled : Bool)
    (queries : Queries) where
  -- A block that the query gives is the one of the platform's answer for this chain: its hash is what the
  -- answer's hexadecimal digits decode to and has 32 bytes, and its number and spec version, taken
  -- modulo 2^32 from the answer's, fit 32 bits.
  pub get_block_and_spec_version_bounds :
      (key : ChainKey) (number spec : ℕ) (hash : Bytes)
      → get_block_and_spec_version s http globals debug_enabled queries key
        ≡ ok (number, hash, spec)
      → (info : CurrentBlock) × (digits : Text) × Answered http globals debug_enabled
          queries.current_block none
          (variables_for key)
          (some info)
        × (behind_x info.current_block_hash ≡ some digits)
        × (s.hex_decode digits ≡ ok hash)
        × (length hash ≡ 32)
        × (number ≡ as_u32 info.current_block_number)
        × (number < 4294967296)
        × (spec ≡ as_u32 info.spec_version)
        × (spec < 4294967296)
  unfolding get_block_and_spec_version
  get_block_and_spec_version_bounds key number spec hash e =
      let out : ℕ × Bytes × ℕ = (number, hash, spec) in
      let query =
        execute_query http globals debug_enabled queries.current_block (variables_for key) none in
      let (response, executes, later) = bind_ok query _ out e in
      let (info, has, rest) =
        bind_ok (ok_or response (failed (text "no result for current block"))) _ out later in
      let (digits, splits, decoding) =
        bind_ok
          (ok_or (behind_x info.current_block_hash) (failed (text "decode block hash failed"))) _
          out rest in
      let (bytes, decodes, sizing) =
        bind_ok (map_err (s.hex_decode digits) failed) _ out decoding in
      let (block_hash, sized, last) = bind_ok (h256 bytes) _ out sizing in
      let (same, long) = h256_ok bytes block_hash sized in
      let same_hash : block_hash ≡ hash = ground (arith, last) in
      let same_number : as_u32 info.current_block_number ≡ number = ground (arith, last) in
      let same_spec : as_u32 info.spec_version ≡ spec = ground (arith, last) in
      (
        info,
        digits,
        (execute_query-Answered http globals debug_enabled queries.current_block (variables_for key)
              none (some info)).0
            (executes
              ∙ ap ok (ok_or_ok response (failed (text "no result for current block")) info has)),
        ok_or_ok (behind_x info.current_block_hash) (failed (text "decode block hash failed"))
            digits splits,
        map_err_ok (s.hex_decode digits) failed bytes decodes ∙ ap ok (same ∙ same_hash),
        ap length (sym same_hash) ∙ long,
        sym same_number,
        omega (arith, as_u32_bound info.current_block_number, same_number),
        sym same_spec,
        omega (arith, as_u32_bound info.spec_version, same_spec),
      )
