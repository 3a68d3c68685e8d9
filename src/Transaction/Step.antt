-- ===== src/Transaction/Step.antt =====
-- src/transaction.rs: `BatchOutcome`, `BatchStep`, `batch_step`, `ScanRetryState` and
-- `complete_chain_scan`.
use wallet_daemon.Base.{ℕ, Bool, true, false, Option, List, [], Text, if◌then◌else◌, difference}
use wallet_daemon.Retry.{should_continue_empty_drain}
use wallet_daemon.Types.{ChainKey, chain_key_eq}

pub data BatchOutcome : Type 0 where
  completed partial_progress skipped submission_failed : BatchOutcome

pub data BatchStep : Type 0 where
  -- the next cursor, whether progress was made, and whether a fresh retry is required
  continue : Option Text → Bool → Bool → BatchStep
  retry_fresh : BatchStep

unfoldable pub batch_step : BatchOutcome → Option Text → Option Text → ℕ → BatchStep
batch_step completed cursor next_cursor unproductive_pages = continue next_cursor true false
batch_step partial_progress cursor next_cursor unproductive_pages = continue next_cursor true true
batch_step skipped cursor next_cursor unproductive_pages =
    if should_continue_empty_drain cursor next_cursor unproductive_pages
    then continue next_cursor false true
    else retry_fresh
batch_step submission_failed cursor next_cursor unproductive_pages = retry_fresh

pub record ScanRetryState : Type 0 where
  pub required : Bool

abbrev pub require : ScanRetryState → ScanRetryState
require s = record s { required = true }

-- The failure count after progress.
abbrev pub reset_failure_count_after_progress : ScanRetryState → ℕ → ℕ
reset_failure_count_after_progress s failure_count = if s.required then failure_count else 0

-- The state left, and whether a retry was required.
abbrev pub take : ScanRetryState → ScanRetryState × Bool
take s = (record s { required = false }, s.required)

abbrev pub clear : ScanRetryState → ScanRetryState
clear s = record s { required = false }

-- The idle chains, the new previous scan and the new current scan.
unfoldable pub complete_chain_scan :
    List ChainKey → List ChainKey → List ChainKey × List ChainKey × List ChainKey
complete_chain_scan previous current = (difference previous current, current, [])
