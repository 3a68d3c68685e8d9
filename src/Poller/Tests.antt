-- ===== src/Poller/Tests.antt =====
-- The fallback poll around a loss of the connection.
use wallet_daemon.Base.{true}
use wallet_daemon.Poller.{PusherStatus, PusherAwarePoller}

abbrev connected_status : PusherStatus
connected_status = record { connected = true; modifications = 1 }

abbrev fresh_poller : PusherAwarePoller
fresh_poller = record { seen = 1; deadline = 180000 }
