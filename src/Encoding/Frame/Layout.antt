-- ===== src/Encoding/Frame/Layout.antt =====
-- lorawan-encoding/src/parser.rs: the structure of a data frame, checked once, and the accessors of
-- its views, which index the bytes and rely on that check.
pub mod Accepts
pub mod Accessors
use lora_rs.Common.{
  ℕ, ◌+◌, ◌-◌, ◌*◌, ◌/◌, ◌%◌, Bool, true, false, not, ◌&&◌, Option, none, some, List, length,
  get_or, take, drop, ltb, leb, ◌==◌, if◌then◌else◌, Exec, ret, panic, ◌>>=◌, index, Result, ok,
  err,
}
use lora_rs.Common.Bits.{test_bit}

pub data Error : Type 0 where
  too_short unsupported_major_version unsupported_message_type unexpected_message_type : Error
  not_a_data_frame invalid_length truncated_fhdr missing_key invalid_mic buffer_too_short : Error
  f_opts_too_long f_opts_with_f_port_zero : Error

abbrev pub mhdr_len : ℕ
mhdr_len = 1

abbrev pub mic_len : ℕ
mic_len = 4

-- `&bytes[from..to]`, and `arr`, which copies a slice into an array of `n` bytes.
unfoldable pub slice : List ℕ → ℕ → ℕ → Exec (List ℕ)
slice bytes from to =
    if leb from to && leb to (length bytes) then ret (take (to - from) (drop from bytes)) else panic

unfoldable pub arr : ℕ → List ℕ → Exec (List ℕ)
arr n bytes = if length bytes == n then ret bytes else panic

pub data DataFrameType : Type 0 where
  unconfirmed_up unconfirmed_down confirmed_up confirmed_down : DataFrameType

unfoldable pub from_mhdr : ℕ → Option DataFrameType
from_mhdr mhdr =
    let kind = mhdr / 32 in
    if kind == 2
    then some unconfirmed_up
    else if kind == 3
    then some unconfirmed_down
    else if kind == 4
    then some confirmed_up
    else if kind == 5
    then some confirmed_down
    else none

unfoldable pub is_uplink : DataFrameType → Bool
is_uplink unconfirmed_up = true
is_uplink confirmed_up = true
is_uplink _ = false

unfoldable pub is_confirmed : DataFrameType → Bool
is_confirmed confirmed_up = true
is_confirmed confirmed_down = true
is_confirmed _ = false

pub record FrameLayout : Type 0 where
  pub frame_type : DataFrameType
  pub fhdr_len : ℕ
  pub f_port_offset : Option ℕ
  pub frm_start : ℕ
  pub frm_end : ℕ

-- The end of `Layout::validate`, for a frame of `total` bytes whose header takes `fhdr`.
unfoldable pub lay_out : DataFrameType → ℕ → ℕ → Result FrameLayout Error
lay_out kind fhdr total =
    let mic_offset = total - mic_len in
    let after_fhdr = mhdr_len + fhdr in
    if ltb mic_offset after_fhdr
    then err truncated_fhdr
    else ok (record {
      frame_type = kind;
      fhdr_len = fhdr;
      f_port_offset = if ltb after_fhdr mic_offset then some after_fhdr else none;
      frm_start = if ltb after_fhdr mic_offset then after_fhdr + 1 else after_fhdr;
      frm_end = mic_offset;
    })

-- `Layout::validate`; the two bytes it reads are there once the length is checked.
unfoldable pub validate : List ℕ → Result FrameLayout Error
unfolding from_mhdr lay_out
validate bytes =
    if ltb (length bytes) (mhdr_len + 7 + mic_len)
    then err too_short
    else if not (get_or bytes 0 0 % 4 == 0)
    then err unsupported_major_version
    else elim (from_mhdr (get_or bytes 0 0)) [
      | none ↦ err not_a_data_frame
      | some kind ↦ lay_out kind (7 + get_or bytes 5 0 % 16) (length bytes)
    ]

-- `EncryptedDataPayload` and `DecryptedDataPayload`, which have the same fields and accessors.
pub record DataView : Type 0 where
  pub bytes : List ℕ
  pub layout : FrameLayout

unfoldable pub with_layout : List ℕ → Result FrameLayout Error → Result DataView Error
with_layout received (ok found) = ok (record { bytes = received; layout = found })
with_layout received (err e) = err e

-- `EncryptedDataPayload::parse`
unfoldable pub parse_data : List ℕ → Result DataView Error
unfolding validate with_layout
parse_data received = with_layout received (validate received)

pub record Fhdr : Type 0 where
  pub bytes : List ℕ
  pub uplink : Bool

unfoldable pub fhdr : DataView → Exec Fhdr
unfolding slice is_uplink
fhdr v = do
  header ← slice v.bytes mhdr_len (mhdr_len + v.layout.fhdr_len)
  ret (record { bytes = header; uplink = is_uplink v.layout.frame_type })

unfoldable pub f_port : DataView → Exec (Option ℕ)
f_port v = elim v.layout.f_port_offset [
  | none ↦ ret none
  | some offset ↦ (do port ← index v.bytes offset; ret (some port))
]

unfoldable pub mic : DataView → Exec (List ℕ)
unfolding slice
mic v = slice v.bytes (length v.bytes - mic_len) (length v.bytes)

unfoldable pub dev_addr : Fhdr → Exec (List ℕ)
unfolding slice arr
dev_addr h = do field ← slice h.bytes 0 4; arr 4 field

-- `FCtrl`: the octet, and the direction it came from.
pub record FCtrl : Type 0 where
  pub byte : ℕ
  pub uplink : Bool

unfoldable pub fctrl : Fhdr → Exec FCtrl
fctrl h = do octet ← index h.bytes 4; ret (record { byte = octet; uplink = h.uplink })

unfoldable pub fcnt : Fhdr → Exec ℕ
fcnt h = do low ← index h.bytes 5; high ← index h.bytes 6; ret (low + high * 256)

unfoldable pub f_opts : Fhdr → Exec (List ℕ)
unfolding slice
f_opts h = slice h.bytes 7 (length h.bytes)

unfoldable pub adr : FCtrl → Bool
unfolding test_bit
adr c = test_bit c.byte 7

unfoldable pub adr_ack_req : FCtrl → Bool
unfolding test_bit
adr_ack_req c = c.uplink && test_bit c.byte 6

unfoldable pub ack : FCtrl → Bool
unfolding test_bit
ack c = test_bit c.byte 5

unfoldable pub f_pending : FCtrl → Bool
unfolding test_bit
f_pending c = not c.uplink && test_bit c.byte 4

unfoldable pub f_opts_len : FCtrl → ℕ
f_opts_len c = c.byte % 16
