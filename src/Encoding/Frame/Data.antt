-- ===== src/Encoding/Frame/Data.antt =====
-- Data frames, built and read back: lorawan-encoding/src/creator.rs (`DataFrame`) and parser.rs
-- (`EncryptedDataPayload`, `DecryptedDataPayload`).
pub mod Middle
pub mod Parts
pub mod Views
pub mod RoundTrip
pub mod Delivery
pub mod Arrival
pub mod Receive
use lora_rs.Common.{
  ℕ, suc, ◌+◌, ◌-◌, ◌*◌, ◌/◌, ◌%◌, Bool, true, false, not, ◌&&◌, Option, none, some, List, [], ◌∷◌,
  ◌++◌, length, get_or, take, drop, ltb, leb, ◌==◌, if◌then◌else◌, Exec, ret, panic, ◌>>=◌, index,
  Result, ok, err,
}
use lora_rs.External.{Crypto}
use lora_rs.Encoding.Frame.Layout.{
  Error, missing_key, invalid_mic, buffer_too_short, f_opts_too_long, f_opts_with_f_port_zero,
  slice, DataFrameType, unconfirmed_up, unconfirmed_down, confirmed_up, confirmed_down, is_uplink,
  FrameLayout, DataView, validate, parse_data, f_port, mic, mhdr_len, mic_len,
}
use lora_rs.Encoding.Frame.Security.{le_u16, calculate_data_mic, encrypt_frm_data_payload}

-- `Payload`; the port of application data is not zero by its type in the source (`NonZeroU8`).
pub data Payload : Type 0 where
  no_payload : Payload
  data_payload : ℕ → List ℕ → Payload
  mac_commands : List ℕ → Payload

pub record DataFrame : Type 0 where
  pub frame_type : DataFrameType
  pub dev_addr : List ℕ
  pub adr : Bool
  pub adr_ack_req : Bool
  pub ack : Bool
  pub f_pending : Bool
  pub fcnt : ℕ
  pub f_opts : List ℕ
  pub payload : Payload

unfoldable pub mhdr : DataFrameType → ℕ
mhdr unconfirmed_up = 0x40
mhdr unconfirmed_down = 0x60
mhdr confirmed_up = 0x80
mhdr confirmed_down = 0xa0

-- The four bits are above the length of FOpts, which is at most 15 where this is called: `|=` adds.
unfoldable pub fctrl_byte : DataFrame → ℕ
unfolding is_uplink
fctrl_byte f =
    length f.f_opts % 256
    + (if f.adr then 0x80 else 0)
    + (if f.adr_ack_req && is_uplink f.frame_type then 0x40 else 0)
    + (if f.ack then 0x20 else 0)
    + (if f.f_pending && not (is_uplink f.frame_type) then 0x10 else 0)

-- What `build_into` takes from the payload: the port byte, if any, the bytes after it and the key.
pub record Body : Type 0 where
  pub port : List ℕ
  pub frm : List ℕ
  pub key : Crypto

unfoldable pub select_payload : Payload → List ℕ → Crypto → Option Crypto → Result Body Error
select_payload no_payload opts nwk app = ok (record { port = []; frm = []; key = nwk })
select_payload (data_payload port bytes) opts nwk none = err missing_key
select_payload (data_payload port bytes) opts nwk (some key) =
    ok (record { port = port ∷ []; frm = bytes; key = key })
select_payload (mac_commands cmds) opts nwk app =
    if length opts == 0
    then ok (record { port = 0 ∷ []; frm = cmds; key = nwk })
    else err f_opts_with_f_port_zero

unfoldable pub select_body : DataFrame → Crypto → Option Crypto → Result Body Error
unfolding select_payload
select_body f nwk app = select_payload f.payload f.f_opts nwk app

-- The bytes before the FRMPayload, in the order in which they are written.
unfoldable pub header_bytes : DataFrame → List ℕ → List ℕ
unfolding mhdr fctrl_byte le_u16
header_bytes f port =
    mhdr f.frame_type ∷ f.dev_addr ++ (fctrl_byte f ∷ le_u16 f.fcnt ++ (f.f_opts ++ port))

-- `if !frm.is_empty() { encrypt_frm_data_payload(..) }`
unfoldable pub encrypt_body : List ℕ → Body → ℕ → Exec (List ℕ)
unfolding encrypt_frm_data_payload
encrypt_body header body count =
    let cursor = length header in
    if length body.frm == 0
    then ret (header ++ body.frm)
    else encrypt_frm_data_payload (header ++ body.frm) cursor (cursor + length body.frm) count
        body.key

-- Writing the frame and its integrity code, once there is room for it.
unfoldable pub assemble : DataFrame → Body → Crypto → Exec (List ℕ)
unfolding header_bytes encrypt_body calculate_data_mic
assemble f body nwk = do
  frame ← encrypt_body (header_bytes f body.port) body f.fcnt
  code ← calculate_data_mic frame nwk f.fcnt
  ret (frame ++ code)

unfoldable pub total_len : DataFrame → Body → ℕ
total_len f body = mhdr_len + (7 + length f.f_opts) + length body.port + length body.frm + mic_len

unfoldable pub build_body :
    DataFrame → ℕ → Crypto → Result Body Error → Exec (Result (List ℕ) Error)
unfolding assemble total_len
build_body f room nwk (err e) = ret (err e)
build_body f room nwk (ok body) =
    if ltb room (total_len f body)
    then ret (err buffer_too_short)
    else (do built ← assemble f body nwk; ret (ok built))

-- `DataFrame::build_into`, for a buffer of `room` bytes: the bytes that it writes at the front.
unfoldable pub build_into : DataFrame → ℕ → Crypto → Option Crypto → Exec (Result (List ℕ) Error)
unfolding select_body build_body
build_into f room nwk app =
    if ltb 15 (length f.f_opts)
    then ret (err f_opts_too_long)
    else build_body f room nwk (select_body f nwk app)

-- Equality of integrity codes.
unfoldable pub same_bytes : List ℕ → List ℕ → Bool
same_bytes [] [] = true
same_bytes [] (b ∷ bs) = false
same_bytes (a ∷ as_) [] = false
same_bytes (a ∷ as_) (b ∷ bs) = a == b && same_bytes as_ bs

-- `EncryptedDataPayload::validate_mic`
unfoldable pub validate_mic : DataView → Crypto → ℕ → Exec Bool
unfolding slice mic calculate_data_mic same_bytes
validate_mic v crypto count = do
  without_mic ← slice v.bytes 0 (length v.bytes - mic_len)
  expected ← calculate_data_mic without_mic crypto count
  carried ← mic v
  ret (same_bytes carried expected)

-- The key of the FRMPayload: the application's where the port is there and not zero.
unfoldable pub payload_key : DataView → Option Crypto → Option Crypto → Exec (Option Crypto)
unfolding f_port
payload_key v nwk app = do
  port ← f_port v
  ret (elim port [ none ↦ nwk | some p ↦ if p == 0 then nwk else app ])

-- The 16 bits of the wire under the upper half of the counter that the caller has.
unfoldable pub full_fcnt : ℕ → List ℕ → ℕ
full_fcnt count bytes = count / 65536 * 65536 + (get_or bytes 6 0 + get_or bytes 7 0 * 256)

unfoldable pub decrypt_with : DataView → ℕ → Option Crypto → Exec (Result DataView Error)
unfolding full_fcnt encrypt_frm_data_payload
decrypt_with v count none = ret (err missing_key)
decrypt_with v count (some crypto) = do
  plain ←
      encrypt_frm_data_payload v.bytes v.layout.frm_start v.layout.frm_end (full_fcnt count v.bytes)
        crypto
  ret (ok (record v { bytes = plain }))

unfoldable pub decrypt_view :
    DataView → Option Crypto → Option Crypto → ℕ → Exec (Result DataView Error)
unfolding payload_key decrypt_with
decrypt_view v nwk app count =
    if ltb v.layout.frm_start v.layout.frm_end
    then (do key ← payload_key v nwk app; decrypt_with v count key)
    else ret (ok v)

unfoldable pub decrypt_parsed :
    Option Crypto → Option Crypto → ℕ → Result DataView Error → Exec (Result DataView Error)
unfolding decrypt_view
decrypt_parsed nwk app count (err e) = ret (err e)
decrypt_parsed nwk app count (ok v) = decrypt_view v nwk app count

-- `DecryptedDataPayload::decrypt_in_place`; the buffer after it is the bytes of the view, and on an
-- error what it was.
unfoldable pub decrypt_in_place :
    List ℕ → Option Crypto → Option Crypto → ℕ → Exec (Result DataView Error)
unfolding parse_data decrypt_parsed
decrypt_in_place buf nwk app count = decrypt_parsed nwk app count (parse_data buf)

unfoldable pub check_parsed :
    List ℕ → Crypto → Option Crypto → ℕ → Result DataView Error → Exec (Result DataView Error)
unfolding validate_mic decrypt_in_place
check_parsed buf nwk app count (err e) = ret (err e)
check_parsed buf nwk app count (ok v) = do
  valid ← validate_mic v nwk count
  if valid then decrypt_in_place buf (some nwk) app count else ret (err invalid_mic)

unfoldable pub check_mic_and_decrypt_in_place :
    List ℕ → Crypto → Option Crypto → ℕ → Exec (Result DataView Error)
unfolding parse_data check_parsed
check_mic_and_decrypt_in_place buf nwk app count = check_parsed buf nwk app count (parse_data buf)

-- `FrmPayload`
pub data FrmPayload : Type 0 where
  frm_none : FrmPayload
  frm_data : List ℕ → FrmPayload
  frm_mac_commands : List ℕ → FrmPayload

unfoldable pub classify : Option ℕ → List ℕ → FrmPayload
classify none frm = frm_none
classify (some p) frm = if p == 0 then frm_mac_commands frm else frm_data frm

unfoldable pub frm_payload : DataView → Exec FrmPayload
unfolding slice f_port classify
frm_payload v = do
  frm ← slice v.bytes v.layout.frm_start v.layout.frm_end
  port ← f_port v
  ret (classify port frm)
