-- ===== src/Wallet/Step.antt =====
-- src/wallet.rs: `BatchOutcome`, `WalletStep`, `wallet_step` and `empty_scan_step`.
use wallet_daemon.Base.{
  Bool, true, false, not, ◌&&◌, ◌||◌, Option, none, Text, text, is_none, is_some, if◌then◌else◌,
}

pub data BatchOutcome : Type 0 where
  completed submission_failed : BatchOutcome

pub data WalletStep : Type 0 where
  -- the cursor, whether to restart after the scan, whether to reset the failures, whether to fetch now
  continue : Option Text → Bool → Bool → Bool → WalletStep
  -- the cursor, whether to restart after the scan, the reason
  delay_then_fetch : Option Text → Bool → Text → WalletStep

unfoldable pub wallet_step : BatchOutcome → Option Text → Bool → Bool → WalletStep
wallet_step completed next_cursor restart_after_scan deferred =
    if is_none next_cursor && restart_after_scan
    then delay_then_fetch none false (text "Managed-wallet scan left pending work")
    else continue next_cursor restart_after_scan (not restart_after_scan)
        (is_some next_cursor || deferred)
wallet_step submission_failed next_cursor restart_after_scan deferred =
    delay_then_fetch next_cursor (is_some next_cursor)
      (text "Managed-wallet batch submission failed")

unfoldable pub empty_scan_step : Bool → Bool → WalletStep
empty_scan_step restart_after_scan deferred =
    if restart_after_scan
    then delay_then_fetch none false (text "Managed-wallet scan skipped unconvertible rows")
    else continue none false true deferred
