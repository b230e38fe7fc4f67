-- ===== src/Encoding/MacCommands/Creators.antt =====
-- The answers that the device builds: lorawan-encoding/src/maccommandcreator.rs. A creator is its
-- array of bytes, the identifier first; `new` fills the payload with zeros.
use lora_rs.Common.{
  ℕ, ◌/◌, ◌%◌, ◌*◌, Bool, List, [], ◌∷◌, ltb, leb, ◌||◌, if◌then◌else◌, get_or, set, drop, Result,
  ok, err,
}
use lora_rs.Common.Bits.{set_bit}
use lora_rs.Encoding.MacCommands.{Serializable}

abbrev pub Creator : Type 0
Creator = List ℕ

-- `impl SerializableMacCommand for` a creator.
unfoldable pub serialize : Creator → Serializable
serialize c = record { cid = get_or c 0 0; payload_bytes = drop 1 c }

-- `self.data[1] &= !(1 << bit); self.data[1] |= (ack as u8) << bit`
unfoldable pub set_ack : ℕ → Bool → Creator → Creator
unfolding set_bit
set_ack bit ack c = set c 1 (set_bit (get_or c 1 0) bit ack)

-- `LinkADRAnsCreator`
abbrev pub new_link_adr_ans : Creator
new_link_adr_ans = 0x03 ∷ 0 ∷ []

unfoldable pub set_channel_mask_ack : Bool → Creator → Creator
unfolding set_ack
set_channel_mask_ack = set_ack 0

unfoldable pub set_data_rate_ack : Bool → Creator → Creator
unfolding set_ack
set_data_rate_ack = set_ack 1

unfoldable pub set_tx_power_ack : Bool → Creator → Creator
unfolding set_ack
set_tx_power_ack = set_ack 2

-- `RXParamSetupAnsCreator`
abbrev pub new_rx_param_setup_ans : Creator
new_rx_param_setup_ans = 0x05 ∷ 0 ∷ []

unfoldable pub set_channel_ack : Bool → Creator → Creator
unfolding set_ack
set_channel_ack = set_ack 0

unfoldable pub set_rx2_data_rate_ack : Bool → Creator → Creator
unfolding set_ack
set_rx2_data_rate_ack = set_ack 1

unfoldable pub set_rx1_data_rate_offset_ack : Bool → Creator → Creator
unfolding set_ack
set_rx1_data_rate_offset_ack = set_ack 2

-- `NewChannelAnsCreator`, and `DlChannelAnsCreator`, whose frequency bit is the same.
abbrev pub new_new_channel_ans : Creator
new_new_channel_ans = 0x07 ∷ 0 ∷ []

abbrev pub new_dl_channel_ans : Creator
new_dl_channel_ans = 0x0a ∷ 0 ∷ []

unfoldable pub set_channel_frequency_ack : Bool → Creator → Creator
unfolding set_ack
set_channel_frequency_ack = set_ack 0

unfoldable pub set_data_rate_range_ack : Bool → Creator → Creator
unfolding set_ack
set_data_rate_range_ack = set_ack 1

unfoldable pub set_uplink_frequency_exists_ack : Bool → Creator → Creator
unfolding set_ack
set_uplink_frequency_exists_ack = set_ack 1

-- `RXTimingSetupAnsCreator`
abbrev pub new_rx_timing_setup_ans : Creator
new_rx_timing_setup_ans = 0x08 ∷ []

-- `DevStatusAnsCreator`
abbrev pub new_dev_status_ans : Creator
new_dev_status_ans = 0x06 ∷ 0 ∷ 0 ∷ []

unfoldable pub set_battery : ℕ → Creator → Creator
set_battery battery c = set c 1 battery

pub data Error : Type 0 where
  margin_out_of_range : Error

-- The margin is an `i8`, given by its two's complement byte: -32 to 31 are the bytes below 32 and
-- from 224 on. `((margin << 2) as u8) >> 2` keeps the low six bits.
unfoldable pub set_margin : ℕ → Creator → Result Creator Error
set_margin margin c =
    if ltb margin 32 || leb 224 margin
    then ok (set c 2 (margin * 4 % 256 / 4))
    else err margin_out_of_range
