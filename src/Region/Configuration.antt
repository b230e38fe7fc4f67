-- ===== src/Region/Configuration.antt =====
-- lorawan-device/src/region/mod.rs: `Configuration`, which passes each operation on to the channel
-- plan of its region. The enum `State` has a constructor for each region; here those of one kind
-- of plan share a constructor with the region's name, which decides the region's constants.
use lora_rs.Common.{ℕ, Bool, true, false, Option, none, some, Exec, ret, panic, unwrap, ◌>>=◌}
use lora_rs.Common.Int.{ℤ, pos}
use lora_rs.External.{Rng}
use lora_rs.Encoding.Types.{Dr, dr0, ChannelMask}
use lora_rs.Encoding.Frame.{CfList}
use lora_rs.Modulation
use lora_rs.Modulation.{CodingRate, cr4_5, BaseBandModulationParams}
use lora_rs.Region
use lora_rs.Region.{ChannelRegion, Datarate, TxChannel, Frame, Window}
use lora_rs.Region.Dynamic
use lora_rs.Region.Dynamic.{DynamicChannelRegion, DynamicChannelPlan}
use lora_rs.Region.Dynamic.Regions.{
  as923_1, as923_2, as923_3, as923_4, eu433, eu868, in865, new_as924, new_as924_4, new_eu433,
  new_eu868, new_in865,
}
use lora_rs.Region.Fixed
use lora_rs.Region.Fixed.{FixedChannelRegion, FixedChannelPlan, au915, us915, new_au915, new_us915}

pub data DynamicRegion : Type 0 where
  as923_1_region as923_2_region as923_3_region as923_4_region : DynamicRegion
  eu868_region eu433_region in865_region : DynamicRegion

pub data FixedRegion : Type 0 where
  au915_region us915_region : FixedRegion

-- The enum `Region`.
pub data RegionName : Type 0 where
  dynamic_region : DynamicRegion → RegionName
  fixed_region : FixedRegion → RegionName

pub data State : Type 0 where
  dynamic : DynamicRegion → DynamicChannelPlan → State
  fixed : FixedRegion → FixedChannelPlan → State

unfoldable pub dynamic_constants : DynamicRegion → DynamicChannelRegion
dynamic_constants as923_1_region = as923_1
dynamic_constants as923_2_region = as923_2
dynamic_constants as923_3_region = as923_3
dynamic_constants as923_4_region = as923_4
dynamic_constants eu868_region = eu868
dynamic_constants eu433_region = eu433
dynamic_constants in865_region = in865

unfoldable pub fixed_constants : FixedRegion → FixedChannelRegion
fixed_constants au915_region = au915
fixed_constants us915_region = us915

-- `State::new`, and so `Configuration::new`.
unfoldable pub new : RegionName → State
new (dynamic_region as923_1_region) = dynamic as923_1_region (new_as924 as923_1)
new (dynamic_region as923_2_region) = dynamic as923_2_region (new_as924 as923_2)
new (dynamic_region as923_3_region) = dynamic as923_3_region (new_as924 as923_3)
new (dynamic_region as923_4_region) = dynamic as923_4_region new_as924_4
new (dynamic_region eu868_region) = dynamic eu868_region new_eu868
new (dynamic_region eu433_region) = dynamic eu433_region new_eu433
new (dynamic_region in865_region) = dynamic in865_region new_in865
new (fixed_region au915_region) = fixed au915_region new_au915
new (fixed_region us915_region) = fixed us915_region new_us915

-- `State::region`
unfoldable pub region : State → RegionName
region (dynamic r p) = dynamic_region r
region (fixed r p) = fixed_region r

-- The constants that every operation on the state reads: the `ChannelRegion` of the plan's type.
unfoldable pub constants : State → ChannelRegion
unfolding dynamic_constants fixed_constants
constants (dynamic r p) = (dynamic_constants r).base
constants (fixed r p) = (fixed_constants r).base

unfoldable pub get_max_payload_length : State → Dr → Bool → Bool → ℕ
unfolding constants
get_max_payload_length s = Region.get_max_payload_length (constants s).datarates

unfoldable pub get_datarate : State → ℕ → Exec (Option Datarate)
unfolding constants
get_datarate s dr = Region.get_datarate (constants s).datarates dr

unfoldable pub check_tx_power : State → ℕ → Option (Option ℕ)
unfolding constants
check_tx_power s tx_power = elim ((constants s).tx_power_adjust tx_power) [
  | none ↦ none
  | some p ↦ some (some p)
]

unfoldable pub get_rx_datarate : State → Dr → ℕ → Window → Dr
unfolding constants
get_rx_datarate s = (constants s).get_rx_datarate

unfoldable pub get_rx2_frequency : State → ℕ
unfolding constants
get_rx2_frequency s = (constants s).default_rx2_freq

-- `RegionHandler::get_default_datarate` and `get_coding_rate`, which no plan overrides.
abbrev pub get_default_datarate : State → Dr
get_default_datarate s = dr0

abbrev pub get_coding_rate : State → CodingRate
get_coding_rate s = cr4_5

unfoldable pub rx1_dr_offset_validate : State → ℕ → Option ℕ
unfolding constants
rx1_dr_offset_validate s value = Region.rx1_dr_offset_validate (constants s) value

unfoldable pub frequency_valid : State → ℕ → Bool
frequency_valid (dynamic r p) f = p.frequency_valid f
frequency_valid (fixed r p) f = p.frequency_valid f

unfoldable pub has_fixed_channel_plan : State → Bool
has_fixed_channel_plan (dynamic r p) = false
has_fixed_channel_plan (fixed r p) = true

unfoldable pub select_tx_channel : ℕ → State → Dr → Frame → Rng → Exec (TxChannel × State × Rng)
select_tx_channel fuel (dynamic r p) dr frame rng = do
  (tx, rng') ← Dynamic.select_tx_channel (dynamic_constants r) fuel p dr frame rng
  ret (tx, dynamic r p, rng')
select_tx_channel fuel (fixed r p) dr frame rng = do
  (tx, p', rng') ← Fixed.select_tx_channel fuel (fixed_constants r) p dr frame rng
  ret (tx, fixed r p', rng')

unfoldable pub process_join_accept : State → Option CfList → Exec State
process_join_accept (dynamic r p) list = do
  p' ← Dynamic.process_join_accept (dynamic_constants r) p list
  ret (dynamic r p')
process_join_accept (fixed r p) list = ret (fixed r (Fixed.process_join_accept p list))

unfoldable pub channel_mask_get : State → ChannelMask
channel_mask_get (dynamic r p) = p.channel_mask
channel_mask_get (fixed r p) = p.channel_mask

unfoldable pub channel_mask_set : State → ChannelMask → State
channel_mask_set (dynamic r p) mask = dynamic r (record p { channel_mask = mask })
channel_mask_set (fixed r p) mask = fixed r (Fixed.channel_mask_set p mask)

unfoldable pub channel_mask_update :
    State → ChannelMask → ℕ → ChannelMask → Exec (Option ChannelMask)
channel_mask_update (dynamic r p) mask ctl ch_mask = Dynamic.channel_mask_update mask ctl ch_mask
channel_mask_update (fixed r p) mask ctl ch_mask = Fixed.channel_mask_update mask ctl ch_mask

unfoldable pub channel_mask_validate : State → ChannelMask → Option Dr → Exec Bool
channel_mask_validate (dynamic r p) mask dr = Dynamic.channel_mask_validate p mask
channel_mask_validate (fixed r p) mask dr = Fixed.channel_mask_validate (fixed_constants r) mask dr

-- In a fixed plan both of these are `unreachable!()`.
unfoldable pub channel_dl_update : State → ℕ → ℕ → Exec ((Bool × Bool) × State)
channel_dl_update (dynamic r p) i freq = do
  (acks, p') ← Dynamic.channel_dl_update p i freq
  ret (acks, dynamic r p')
channel_dl_update (fixed r p) i freq = panic

unfoldable pub handle_new_channel : State → ℕ → ℕ → Option ℕ → Exec ((Bool × Bool) × State)
handle_new_channel (dynamic r p) i freq range = do
  (acks, p') ← Dynamic.handle_new_channel (dynamic_constants r) p i freq range
  ret (acks, dynamic r p')
handle_new_channel (fixed r p) i freq range = panic

-- `RfConfig` and `TxConfig` of lorawan-device/src/radio.rs.
pub record RfConfig : Type 0 where
  pub frequency : ℕ
  pub bb : BaseBandModulationParams
  pub max_payload_len : ℕ

pub record TxConfig : Type 0 where
  pub pw : ℤ
  pub rf : RfConfig

unfoldable pub create_tx_config :
    ℕ → State → Dr → Frame → Rng → Exec (TxConfig × TxChannel × State × Rng)
unfolding check_tx_power select_tx_channel
create_tx_config fuel s dr frame rng = do
  (tx, s', rng') ← select_tx_channel fuel s dr frame rng
  checked ← unwrap (check_tx_power s' 0)
  pw ← unwrap checked
  ret (
    record {
      pw = pos pw;
      rf = record {
        frequency = tx.frequency;
        bb = Modulation.new tx.datarate.spreading_factor tx.datarate.bandwidth (get_coding_rate s');
        max_payload_len = tx.datarate.max_mac_payload_size;
      };
    },
    tx,
    s',
    rng',
  )
