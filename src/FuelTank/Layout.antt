-- ===== src/FuelTank/Layout.antt =====
-- src/transaction/fuel_tank.rs: what a signed call keeps of the call that it was made from.
use wallet_daemon.Base.{
  ℕ, ◌≤◌, ◌≡◌, true, Option, none, some, [], ◌∷◌, ◌++◌, text, take, drop, ok, inl, inr, arith,
}
use wallet_daemon.FuelTank.Arguments.{types_of}
use wallet_daemon.FuelTank.{
  Bytes, Metadata, Range, Found, Prepared, slice, measure_args, encode_settings, message_for,
  CallInfo, is_dispatch,
}
use wallet_daemon.FuelTank.Named.{Occurs, measure_args-call, measure_args-settings}
use wallet_daemon.FuelTank.Measure.Depth.{Chain, Lies}

-- The ranges found so far run forward.
abbrev CallForward : Option Range → Type 0
CallForward none = Unit {0}
CallForward (some r) = r.start ≤ r.stop

abbrev SettingsForward : Option (Range × ℕ) → Type 0
SettingsForward none = Unit {0}
SettingsForward (some (r, t)) = r.start ≤ r.stop

abbrev Forward : Found → Type 0
Forward found = CallForward found.call × SettingsForward found.settings

-- What the ranges of a located call come from: a dispatch whose arguments take up all its bytes.
pub record Located (m : Metadata) (info : CallInfo) (tx args : Bytes) (call settings : Range)
    (type : ℕ) : Type 0 where
  pub dispatches : is_dispatch info ≡ true
  pub ranges : Found
  pub consumed :
      measure_args m tx info.args args (record { call = none; settings = none }) ≡ ok ([], ranges)
  pub call_found : ranges.call ≡ some call
  pub settings_found : ranges.settings ≡ some (settings, type)

-- What a signed call is made of.
pub record Signed (m : Metadata) (p c : ℕ) (args public_key : Bytes) (expiration_block : ℕ)
    (sign : Bytes → Bytes) (payload : Bytes) : Type 0 where
  pub info : CallInfo
  pub found : Prepared
  pub encoded : Bytes
  pub names_call : m.extrinsic_call_info_by_index p c ≡ ok info
  pub located :
      Located m info (p ∷ c ∷ args) args found.call_range found.settings_range found.settings_type
  -- the inner call and the settings are the arguments of these names in the metadata
  pub call_type : ℕ
  pub call_named :
      Occurs m (p ∷ c ∷ args) (text "call") info.args args [] found.call_range call_type
  pub settings_named :
      Occurs m
        (p ∷ c ∷ args)
        (text "settings")
        info.args
        args
        []
        found.settings_range
        found.settings_type
  pub laid_out : Chain (Lies m.decoder 129) (types_of info.args) args []
  pub signed_settings :
      encode_settings m found.settings_type found.fields expiration_block
        (sign (message_for (p ∷ c ∷ args) found.call_range public_key expiration_block))
      ≡ ok encoded
  pub original :
      p ∷ c ∷ args
      ≡ take found.settings_range.start (p ∷ c ∷ args)
        ++ (slice found.settings_range.start found.settings_range.stop (p ∷ c ∷ args)
            ++ drop found.settings_range.stop (p ∷ c ∷ args))
  pub replaced :
      payload
      ≡ take found.settings_range.start (p ∷ c ∷ args)
        ++ (encoded ++ drop found.settings_range.stop (p ∷ c ∷ args))

call_named :
    (m : Metadata) (p c : ℕ) (args : Bytes) (info : CallInfo) (found : Prepared)
    → Located m info (p ∷ c ∷ args) args found.call_range found.settings_range found.settings_type
    → (type : ℕ) × Occurs m (p ∷ c ∷ args) (text "call") info.args args [] found.call_range type
call_named m p c args info found l =
    elim (measure_args-call m (p ∷ c ∷ args) info.args args []
      (record { call = none; settings = none }) l.ranges found.call_range l.consumed l.call_found) [
        | inl occurs ↦ occurs
        | inr (impossible, absent) ↦ absurd (ground (arith, impossible))
      ]

settings_named :
    (m : Metadata) (p c : ℕ) (args : Bytes) (info : CallInfo) (found : Prepared)
    → Located m info (p ∷ c ∷ args) args found.call_range found.settings_range found.settings_type
    → Occurs m
        (p ∷ c ∷ args)
        (text "settings")
        info.args
        args
        []
        found.settings_range
        found.settings_type
settings_named m p c args info found l =
    elim (measure_args-settings m (p ∷ c ∷ args) info.args args []
      (record { call = none; settings = none }) l.ranges found.settings_range found.settings_type
      l.consumed l.settings_found) [
        | inl occurs ↦ occurs
        | inr (impossible, absent) ↦ absurd (ground (arith, impossible))
      ]
