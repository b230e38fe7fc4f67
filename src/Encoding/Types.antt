-- ===== src/Encoding/Types.antt =====
-- lorawan-encoding/src/types.rs: the wire types that MAC commands and frames share.
-- A `u8` is a number below 256, and a byte slice a list of such numbers.
pub mod Mask
pub mod Values
mod Tests
use lora_rs.Common.{
  ℕ, zero, suc, ◌+◌, ◌-◌, ◌*◌, ◌/◌, ◌%◌, ◌≡◌, Bool, true, false, Option, none, some, List, [], ◌∷◌,
  ltb, leb, if◌then◌else◌, length, get_elem?, get_or, set, take, replicate, Exec, ret, panic,
  unwrap, ◌>>=◌, Result, ok, err,
}
use lora_rs.Common.Bits.{test_bit, set_bit}

-- `maccommands::Error`.
pub data Error : Type 0 where
  unknown_mac_command buffer_too_short invalid_index invalid_data_rate_range rfu : Error

-- `ChannelMask<N>([u8; N])`: the list of its N bytes.
abbrev pub ChannelMask : Type 0
ChannelMask = List ℕ

-- `ChannelMask::<N>::default()`.
abbrev pub default_mask : ℕ → ChannelMask
default_mask n = replicate n 0xff

-- `self.0[index] = value` panics when the index is out of bounds.
unfoldable pub set_bank : ChannelMask → ℕ → ℕ → Exec ChannelMask
set_bank m index value = if ltb index (length m) then ret (set m index value) else panic

-- `self.0[index]`.
unfoldable pub get_index : ChannelMask → ℕ → Exec ℕ
get_index m index = unwrap (get_elem? m index)

unfoldable pub set_channel : ChannelMask → ℕ → Bool → Exec ChannelMask
set_channel m channel v =
    if ltb (channel / 8) (length m)
    then ret (set m (channel / 8) (set_bit (get_or m (channel / 8) 0) (channel % 8) v))
    else panic

-- `channel_enabled`, which `is_enabled` calls within bounds only.
unfoldable pub channel_enabled : ChannelMask → ℕ → Bool
channel_enabled m index = test_bit (get_or m (index / 8) 0) (index % 8)

unfoldable pub is_enabled : ChannelMask → ℕ → Result Bool Error
is_enabled m index =
    if ltb (length m * 8 - 1) index then err invalid_index else ok (channel_enabled m index)

-- `is_enabled(index).unwrap()`.
unfoldable pub enabled_unwrap : ChannelMask → ℕ → Exec Bool
unfolding is_enabled
enabled_unwrap m index = elim (is_enabled m index) [ ok b ↦ ret b | err e ↦ panic ]

-- `ChannelMask::<N>::new_from_raw`: the first N bytes; it panics on a shorter slice.
unfoldable pub new_from_raw : ℕ → List ℕ → Exec ChannelMask
new_from_raw n bytes = if ltb (length bytes) n then panic else ret (take n bytes)

unfoldable pub new : ℕ → List ℕ → Result ChannelMask Error
new n bytes = if ltb (length bytes) n then err buffer_too_short else ok (take n bytes)

-- `DR`, a number from 0 to 15.
pub data Dr : Type 0 where
  dr0 dr1 dr2 dr3 dr4 dr5 dr6 dr7 dr8 dr9 dr10 dr11 dr12 dr13 dr14 dr15 : Dr

-- `self as u8`.
unfoldable pub to_u8 : Dr → ℕ
to_u8 dr0 = 0
to_u8 dr1 = 1
to_u8 dr2 = 2
to_u8 dr3 = 3
to_u8 dr4 = 4
to_u8 dr5 = 5
to_u8 dr6 = 6
to_u8 dr7 = 7
to_u8 dr8 = 8
to_u8 dr9 = 9
to_u8 dr10 = 10
to_u8 dr11 = 11
to_u8 dr12 = 12
to_u8 dr13 = 13
to_u8 dr14 = 14
to_u8 dr15 = 15

abbrev pub all_data_rates : List Dr
all_data_rates =
    dr0 ∷ dr1 ∷ dr2 ∷ dr3 ∷ dr4 ∷ dr5 ∷ dr6 ∷ dr7 ∷ dr8 ∷ dr9 ∷ dr10 ∷ dr11 ∷ dr12 ∷ dr13 ∷ dr14
    ∷ dr15 ∷ []

-- `DR::from(v: u8)`: the low four bits choose the constructor, in order.
unfoldable pub from_u8 : ℕ → Dr
from_u8 v = get_or all_data_rates (v % 16) dr15

-- `saturating_sub` is `-` on ℕ.
unfoldable pub offset_sub : Dr → ℕ → Dr
unfolding from_u8 to_u8
offset_sub d val = from_u8 (to_u8 d - val)

-- `DataRateRange(u8)` is its byte.
unfoldable pub max_data_rate : ℕ → ℕ
max_data_rate range = range / 16

unfoldable pub min_data_rate : ℕ → ℕ
min_data_rate range = range % 16

-- `DataRateRange::new`, with its test `can_build_from`.
unfoldable pub new_data_rate_range : ℕ → Result ℕ Error
new_data_rate_range byte =
    if ltb (byte / 16) (byte % 16) then err invalid_data_rate_range else ok byte

-- `(max as u8) << 4 | min as u8`; both are below 16.
unfoldable pub new_range : Dr → Dr → ℕ
unfolding to_u8
new_range lo hi = to_u8 hi * 16 + to_u8 lo

-- `DLSettings(u8)` is its byte.
unfoldable pub rx1_dr_offset : ℕ → ℕ
rx1_dr_offset settings = settings / 16 % 8

unfoldable pub rx2_data_rate : ℕ → Dr
unfolding from_u8
rx2_data_rate settings = from_u8 (settings % 16)

-- `Frequency(&[u8])`: three bytes, least significant first, in units of 100 Hz.
-- A shorter slice panics.
unfoldable pub frequency_value : List ℕ → Exec ℕ
frequency_value bytes = do
  b2 ← unwrap (get_elem? bytes 2)
  b1 ← unwrap (get_elem? bytes 1)
  b0 ← unwrap (get_elem? bytes 0)
  ret ((b2 * 65536 + b1 * 256 + b0) * 100)

-- `Redundancy(u8)` is its byte.
unfoldable pub channel_mask_control : ℕ → ℕ
channel_mask_control redundancy = redundancy / 16 % 8

unfoldable pub number_of_transmissions : ℕ → ℕ
number_of_transmissions redundancy = redundancy % 16
