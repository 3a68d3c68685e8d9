-- ===== src/Websocket/Frames.antt =====
-- src/websocket.rs: the frames, the configuration and the constants. `serde_json` is a parameter that
-- reads texts and values into the types that the program derives `Deserialize` for.
use wallet_daemon.Base.{
  ℕ, Bool, true, not, ◌&&◌, ◌||◌, Option, none, some, [], ◌∷◌, Text, text, ℤ, ◌==◌, is_empty,
  if◌then◌else◌, is_ascii_alphanumeric, Result, ok, ◌>>◌, guard, leb,
}

abbrev pub handshake_timeout : ℕ
handshake_timeout = 30000

abbrev pub pong_timeout : ℕ
pong_timeout = 30000

abbrev pub min_stable_subscription : ℕ
min_stable_subscription = 30000

abbrev pub min_activity_timeout_secs : ℕ
min_activity_timeout_secs = 1

abbrev pub max_activity_timeout_secs : ℕ
max_activity_timeout_secs = 600

-- `serde_json::Value`
mutual
  pub data Value : Type 0 where
    null : Value
    boolean : Bool → Value
    -- a number that is an `i64`, and one that is not
    integer : ℤ → Value
    real : Value
    string : Text → Value
    array : Items → Value
    object : Members → Value

  pub data Items : Type 0 where
    no_items : Items
    item : Value → Items → Items

  pub data Members : Type 0 where
    no_members : Members
    member_of : Text → Value → Members → Members

pub record PusherFrame : Type 0 where
  pub event : Text
  pub channel : Option Text
  pub payload : Value

pub record ConnectionEstablished : Type 0 where
  pub socket_id : Text
  pub activity_timeout : ℕ  -- u64

-- What `from_str` and `from_value` do at each type.
pub record Serde : Type 0 where
  pub frame_from_str : Text → Result Text PusherFrame
  pub value_from_str : Text → Result Text Value
  pub established_from_str : Text → Result Text ConnectionEstablished
  pub established_from_value : Value → Result Text ConnectionEstablished

-- `decode_data::<ConnectionEstablished>`
unfoldable pub decode_data : Serde → Value → Result Text ConnectionEstablished
decode_data serde (string encoded) = serde.established_from_str encoded
decode_data serde value = serde.established_from_value value

abbrev all_bytes : Text → Bool
all_bytes [] = true
all_bytes (byte ∷ s) = (is_ascii_alphanumeric byte || byte == b'-' || byte == b'_') && all_bytes s

unfoldable pub valid_component : Text → Bool
valid_component value = not (is_empty value) && all_bytes value

pub record PusherConnection : Type 0 where
  pub app_key : Text
  pub cluster : Text

abbrev var_or : Option Text → Text → Text
var_or none default = default
var_or (some value) default = value

-- `from_env`, given the two variables. The triggers and the status are in `Connection`.
unfoldable pub from_env : Option Text → Option Text → Result Text PusherConnection
unfolding valid_component
from_env pusher_app_key pusher_cluster = do
  let app_key = var_or pusher_app_key (text "8ab7ab8c519e8f59b635")
  let cluster = var_or pusher_cluster (text "us2")
  guard (valid_component app_key)
      (text "PUSHER_APP_KEY may only contain letters, numbers, '-' and '_'")
  guard (valid_component cluster)
      (text "PUSHER_CLUSTER may only contain letters, numbers, '-' and '_'")
  ok (record { app_key = app_key; cluster = cluster })

-- `reconnect_backoff_attempt`
unfoldable pub reconnect_backoff_attempt : ℕ → ℕ → ℕ
reconnect_backoff_attempt current_attempt connected_for =
    if leb min_stable_subscription connected_for then 0 else current_attempt
