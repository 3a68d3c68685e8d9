-- ===== src/FuelTank.antt =====
-- src/transaction/fuel_tank.rs: `sign_dispatch` and `dispatch_settings`. The runtime metadata with its
-- SCALE codec is a parameter: the names and arguments of a call, the items of a value of a type, and
-- decoding and encoding by a type. `Value` is the library's dynamic value.
pub mod Measure
pub mod Slices
pub mod Arguments
pub mod Named
pub mod Layout
pub mod Refusal
mod Tests
use wallet_daemon.Base.{
  ℕ, suc, ◌+◌, ◌-◌, ◌/◌, ◌%◌, Bool, true, false, not, ◌&&◌, ◌||◌, Option, none, some, List, [], ◌∷◌,
  ◌++◌, Text, text, text_beq, length, take, drop, replicate, is_empty, if◌then◌else◌, Result, ok,
  err, ◌>>=◌, ◌>>◌, guard, ok_or, map_err,
}
use wallet_daemon.FuelTank.Measure.{Decoder, MeasureError, measure, describe, enough_fuel}

abbrev pub Bytes : Type 0
Bytes = List ℕ

mutual
  pub data Value : Type 0 where
    flag : Bool → Value
    number : ℕ → Value
    primitive : ℕ → Value
    composite : Composite → Value
    variant : Text → Composite → Value

  pub data Composite : Type 0 where
    named : Fields → Composite
    unnamed : Values → Composite

  pub data Fields : Type 0 where
    end : Fields
    field : Text → Value → Fields → Fields

  pub data Values : Type 0 where
    nil : Values
    cons : Value → Values → Values

pub record CallInfo : Type 0 where
  pub pallet_name : Text
  pub call_name : Text
  pub args : List (Text × ℕ)

pub record Metadata : Type 0 where
  pub extrinsic_call_info_by_index : ℕ → ℕ → Result Text CallInfo
  -- what runs the `Measure` visitor
  pub decoder : Decoder
  pub decode_as_type : ℕ → Bytes → Result Text Value
  pub encode_as_type : ℕ → Value → Result Text Bytes
  pub from_bytes : Bytes → Value

-- A one, and then zeroes, 256 bytes in all.
abbrev pub default_settings : Bytes
default_settings = 1 ∷ replicate 255 0

-- `u32::to_le_bytes`
abbrev pub to_le_bytes : ℕ → Bytes
to_le_bytes n = n % 256 ∷ n / 256 % 256 ∷ n / 65536 % 256 ∷ n / 16777216 % 256 ∷ []

-- `&s[start..end]`
abbrev pub slice : ℕ → ℕ → Bytes → Bytes
slice start stop s = take (stop - start) (drop start s)

abbrev no_values : Composite → Bool
no_values (unnamed nil) = true
no_values (named end) = true
no_values _ = false

unfoldable pub is_zero : Value → Bool
is_zero (flag b) = not b
is_zero (variant name values) = text_beq name (text "None") && no_values values
is_zero (number n) = false
is_zero (primitive n) = false
is_zero (composite c) = false

-- The first field, but for the signature, that a zero byte does not stand for.
unfoldable pub find_unknown : Fields → Option Text
unfolding is_zero
find_unknown end = none
find_unknown (field name value rest) =
    let later = find_unknown rest in
    if not (text_beq name (text "signature")) && not (is_zero value) then some name else later

abbrev pub is_none_variant : Value → Bool
is_none_variant (variant name values) = text_beq name (text "None")
is_none_variant _ = false

abbrev pub check_default : Bool → Fields → Result Text Fields
check_default false fields = ok fields
check_default true fields = elim (find_unknown fields) [
  | none ↦ ok fields
  | some name ↦ err (text "dispatch settings field has no known default")
]

-- The pattern of a `Some` with one struct.
unfoldable pub settings_fields : Bool → Value → Result Text Fields
unfolding find_unknown
settings_fields is_default (variant name (unnamed (cons (composite (named fields)) nil))) =
    if text_beq name (text "Some")
    then check_default is_default fields
    else err (text "invalid dispatch settings")
settings_fields is_default _ = err (text "invalid dispatch settings")

unfoldable pub dispatch_settings : Metadata → Bytes → ℕ → Result Text Fields
unfolding settings_fields
dispatch_settings m encoded settings_type = do
  settings ← m.decode_as_type settings_type encoded
  let is_default = is_none_variant settings
  chosen ← (if is_default then m.decode_as_type settings_type default_settings else ok settings)
  settings_fields is_default chosen

pub record Range : Type 0 where
  pub start : ℕ
  pub stop : ℕ

-- The ranges of the arguments that matter, found so far; a later argument of the same name wins.
pub record Found : Type 0 where
  pub call : Option Range
  pub settings : Option (Range × ℕ)

abbrev pub note : Text → ℕ → Range → Found → Found
note name type range found =
    if text_beq name (text "call")
    then record found { call = some range }
    else if text_beq name (text "settings")
    then record found { settings = some (range, type) }
    else found

-- What remains after an argument, for which the visitor starts at depth 0.
unfoldable pub decode_with_visitor : Metadata → Text → ℕ → Bytes → Result Text Bytes
decode_with_visitor m name type remaining =
    map_err (measure m.decoder enough_fuel 0 type remaining)
      (λ e. text "decoding fuel tank " ++ (name ++ (text ": " ++ describe e)))

-- The loop over the arguments: what remains after them, and where the two lie in `tx`.
unfoldable pub measure_args :
    Metadata → Bytes → List (Text × ℕ) → Bytes → Found → Result Text (Bytes × Found)
measure_args m tx [] remaining found = ok (remaining, found)
measure_args m tx ((name, type) ∷ args) remaining found = do
  let start = length tx - length remaining
  rest ← decode_with_visitor m name type remaining
  let range : Range = record { start = start; stop = length tx - length rest }
  measure_args m tx args rest (note name type range found)

-- The value of the field named `signature` replaced; none if there is no such field.
unfoldable pub set_signature : Value → Fields → Option Fields
set_signature v end = none
set_signature v (field name old rest) =
    let later = set_signature v rest in
    if text_beq name (text "signature")
    then some (field name v rest)
    else elim later [ none ↦ none | some fields ↦ some (field name old fields) ]

abbrev pub one : Value → Composite
one v = unnamed (cons v nil)

abbrev pub signature_value : Metadata → Bytes → ℕ → Value
signature_value m signature expiration_block = variant (text "Some") (
    one (
      composite (
        named (
          field (text "signature") (m.from_bytes signature)
            (field (text "expiry_block") (number expiration_block) end)))))

-- `encode_settings`: the fields with the signature, as the settings' type lays them out.
unfoldable pub encode_settings : Metadata → ℕ → Fields → ℕ → Bytes → Result Text Bytes
unfolding set_signature
encode_settings m settings_type fields expiration_block signature = do
  signed ←
      ok_or (set_signature (signature_value m signature expiration_block) fields)
        (text "dispatch settings is missing its signature field")
  m.encode_as_type settings_type (variant (text "Some") (one (composite (named signed))))

abbrev pub is_dispatch : CallInfo → Bool
is_dispatch info =
    text_beq info.pallet_name (text "FuelTanks")
    && (text_beq info.call_name (text "dispatch")
        || text_beq info.call_name (text "dispatch_and_touch"))

-- What is signed: the inner call, the caller's public key and the expiration block.
abbrev pub message_for : Bytes → Range → Bytes → ℕ → Bytes
message_for tx call public_key expiration_block =
    slice call.start call.stop tx ++ (public_key ++ to_le_bytes expiration_block)

-- What is found before anything is signed. `encode_settings` has been tried with a placeholder.
pub record Prepared : Type 0 where
  pub call_range : Range
  pub settings_range : Range
  pub settings_type : ℕ
  pub fields : Fields

-- The ranges of the inner call and of the settings, with the settings' type, in a call that is a fuel
-- tank dispatch and ends where its last argument does.
unfoldable pub locate : Metadata → CallInfo → Bytes → Bytes → Result Text (Range × Range × ℕ)
unfolding measure_args
locate m info tx args = do
  guard (is_dispatch info) (text "expected FuelTanks.dispatch or FuelTanks.dispatch_and_touch")
  (remaining, found) ← measure_args m tx info.args args (record { call = none; settings = none })
  guard (is_empty remaining) (text "unexpected trailing bytes in fuel tank call")
  call ← ok_or found.call (text "fuel tank call is missing its inner call")
  (range, settings_type) ← ok_or found.settings (text "fuel tank call is missing dispatch settings")
  ok (call, range, settings_type)

unfoldable pub prepare : Metadata → Bytes → ℕ → Result Text Prepared
unfolding locate dispatch_settings encode_settings
prepare m (pallet_index ∷ call_index ∷ args) expiration_block = do
  let tx = pallet_index ∷ call_index ∷ args
  info ← m.extrinsic_call_info_by_index pallet_index call_index
  (call, range, settings_type) ← locate m info tx args
  fields ← dispatch_settings m (slice range.start range.stop tx) settings_type
  placeholder ← encode_settings m settings_type fields expiration_block (replicate 64 0)
  ok (record {
    call_range = call;
    settings_range = range;
    settings_type = settings_type;
    fields = fields;
  })
prepare m _ expiration_block = err (text "fuel tank call is missing its call index")

unfoldable pub sign_dispatch : Metadata → Bytes → Bytes → ℕ → (Bytes → Bytes) → Result Text Bytes
unfolding prepare
sign_dispatch m tx public_key expiration_block sign = do
  found ← prepare m tx expiration_block
  let signature = sign (message_for tx found.call_range public_key expiration_block)
  encoded ← encode_settings m found.settings_type found.fields expiration_block signature
  ok (take found.settings_range.start tx ++ (encoded ++ drop found.settings_range.stop tx))
