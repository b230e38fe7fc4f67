-- ===== src/Region.antt =====
-- The types of lorawan-device/src/region/mod.rs that the channel plans share, and the frame and
-- window kinds of lorawan-device/src/mac/mod.rs that they take.
pub mod Rates
pub mod Dynamic
pub mod Join
pub mod Fixed
pub mod Configuration
pub mod Supported
use lora_rs.Common.{
  ℕ, Bool, Option, none, some, List, Exec, index, ltb, ◌&&◌, if◌then◌else◌, get_elem?,
}
use lora_rs.Encoding.Types.{Dr, to_u8}
use lora_rs.Modulation.{Bandwidth, SpreadingFactor}

pub data Frame : Type 0 where
  join_frame data_frame : Frame

pub data Window : Type 0 where
  window1 window2 : Window

pub record Datarate : Type 0 where
  pub spreading_factor : SpreadingFactor
  pub bandwidth : Bandwidth
  pub max_mac_payload_size : ℕ
  pub max_mac_payload_size_with_dwell_time : ℕ

-- `[Option<Datarate>; NUM_DATARATES as usize]`: 15 entries.
abbrev pub DatarateTable : Type 0
DatarateTable = List (Option Datarate)

abbrev pub num_datarates : ℕ
num_datarates = 15

abbrev pub num_channels_dynamic : ℕ
num_channels_dynamic = 16

-- The trait `ChannelRegion` with `get_rx_datarate`, which both of its subtraits declare.
pub record ChannelRegion : Type 0 where
  pub max_rx1_dr_offset : ℕ
  pub default_rx2_freq : ℕ
  pub datarates : DatarateTable
  pub tx_power_adjust : ℕ → Option ℕ
  pub get_rx_datarate : Dr → ℕ → Window → Dr

-- The result of channel selection.
pub record TxChannel : Type 0 where
  pub datarate : Datarate
  pub dr : Dr
  pub frequency : ℕ
  pub rx1_frequency : ℕ

-- `RegionHandler::get_datarate`: `R::datarates()[dr as usize].as_ref()`.
unfoldable pub get_datarate : DatarateTable → ℕ → Exec (Option Datarate)
get_datarate table dr = index table dr

-- `ChannelRegion::get_max_payload_length`; `get` returns `None` past the table.
unfoldable pub get_max_payload_length : DatarateTable → Dr → Bool → Bool → ℕ
unfolding to_u8
get_max_payload_length table datarate repeater_compatible dwell_time =
    elim (get_elem? table (to_u8 datarate)) [
      | some (some dr) ↦
          let max_size : ℕ =
            if dwell_time
            then dr.max_mac_payload_size_with_dwell_time
            else dr.max_mac_payload_size in
          if repeater_compatible && ltb 230 max_size then 230 else max_size
      | some none ↦ 0
      | none ↦ 0
    ]

-- `rx1_dr_offset_validate` of both channel plans.
unfoldable pub rx1_dr_offset_validate : ChannelRegion → ℕ → Option ℕ
rx1_dr_offset_validate r value = if ltb r.max_rx1_dr_offset value then none else some value
