-- ===== src/Region/Fixed.antt =====
-- lorawan-device/src/region/fixed_channel_plans/{mod,us915/mod,au915/mod}.rs: 64 channels of
-- 125 kHz and 8 of 500 kHz, which the network enables by a mask.
pub mod Masks
pub mod Select
pub mod Validate
mod Tests
use lora_rs.Common.{
  ℕ, zero, suc, ◌+◌, ◌-◌, ◌*◌, ◌/◌, ◌%◌, ◌^◌, Bool, true, false, ◌&&◌, ◌||◌, Option, none, some,
  List, [], ◌∷◌, ltb, leb, ◌==◌, if◌then◌else◌, Exec, ret, panic, spins, unwrap, index, ◌>>=◌,
}
use lora_rs.Common.Bits.{test_bit}
use lora_rs.External.{Rng, next_u32}
use lora_rs.Encoding.Types.{
  Dr, dr0, dr4, dr7, dr8, dr9, to_u8, from_u8, ChannelMask, default_mask, set_bank, get_index,
  enabled_unwrap,
}
use lora_rs.Encoding.Frame.{CfList, dynamic_channel, fixed_channel}
use lora_rs.Modulation.{Bandwidth, khz125, khz500}
use lora_rs.Region.{
  ChannelRegion, Datarate, get_datarate, TxChannel, Frame, join_frame, data_frame, Window, window1,
  window2,
}
use lora_rs.Region.Rates.{
  us915_datarates, us915_uplink_channels, us915_downlink_channels, au915_datarates,
  au915_uplink_channels, au915_downlink_channels,
}
use lora_rs.Region.Dynamic.{set_bank_pair, set_banks}
use lora_rs.Region.Dynamic.Regions.{within, power_step}
use lora_rs.Region.Join.{
  JoinChannels, default_join_channels, reset, get_next_channel, has_bias_and_not_exhausted,
  first_data_channel,
}

pub record FixedChannelRegion : Type 0 where
  pub base : ChannelRegion
  pub open base use *
  pub uplink_channels : List ℕ
  pub downlink_channels : List ℕ

pub record FixedChannelPlan : Type 0 where
  pub channel_mask : ChannelMask
  pub join_channels : JoinChannels
  pub frequency_valid : ℕ → Bool

unfoldable pub new : (ℕ → Bool) → FixedChannelPlan
new freq_fn = record {
  channel_mask = default_mask 9;
  join_channels = default_join_channels;
  frequency_valid = freq_fn;
}

unfoldable pub channel_mask_set : FixedChannelPlan → ChannelMask → FixedChannelPlan
unfolding reset
channel_mask_set p mask = record p { join_channels = reset p.join_channels; channel_mask = mask }

unfoldable pub process_join_accept : FixedChannelPlan → Option CfList → FixedChannelPlan
unfolding channel_mask_set
process_join_accept p (some (fixed_channel mask)) = channel_mask_set p mask
process_join_accept p (some (dynamic_channel freqs)) = p
process_join_accept p none = p

unfoldable pub set_125k_channels : ChannelMask → Bool → ChannelMask → Exec ChannelMask
unfolding set_banks set_bank get_index
set_125k_channels m enabled extra_mask = do
  m' ← set_banks (λ _. if enabled then 0xff else 0) 0 8 m
  extra ← get_index extra_mask 0
  set_bank m' 8 extra

unfoldable pub channel_mask_update : ChannelMask → ℕ → ChannelMask → Exec (Option ChannelMask)
unfolding set_bank_pair set_banks set_bank get_index set_125k_channels
channel_mask_update channel_mask ctl ch_mask =
    if leb ctl 4
    then (do m ← set_bank_pair channel_mask ctl ch_mask; ret (some m))
    else if ctl == 5
    then (do
      blocks ← get_index ch_mask 0
      m ← set_banks (λ i. if test_bit blocks i then 0xff else 0) 0 8 channel_mask
      m' ← set_bank m 8 blocks
      ret (some m'))
    else if ctl == 6
    then (do m ← set_125k_channels channel_mask true ch_mask; ret (some m))
    else if ctl == 7
    then (do m ← set_125k_channels channel_mask false ch_mask; ret (some m))
    else ret none

-- `(i..i + n).filter(|&i| is_enabled(i).unwrap()).take(wanted).count() == wanted`: a search that
-- stops at the last channel wanted.
unfoldable pub has_enabled : ChannelMask → ℕ → ℕ → ℕ → Exec Bool
unfolding enabled_unwrap
has_enabled mask zero i n = ret true
has_enabled mask (suc wanted) i zero = ret false
has_enabled mask (suc wanted) i (suc n) = do
  enabled ← enabled_unwrap mask i
  elim enabled [
    | true ↦ has_enabled mask wanted (suc i) n
    | false ↦ has_enabled mask (suc wanted) (suc i) n
  ]

-- The `match dr.bandwidth` of `channel_mask_validate`.
unfoldable pub validate_bandwidth : ChannelMask → Bandwidth → Exec Bool
unfolding has_enabled
validate_bandwidth mask khz500 = has_enabled mask 1 64 8
validate_bandwidth mask khz125 = has_enabled mask 2 0 64
validate_bandwidth mask bw = ret true

unfoldable pub channel_mask_validate : FixedChannelRegion → ChannelMask → Option Dr → Exec Bool
unfolding validate_bandwidth to_u8
channel_mask_validate r mask none = ret false
channel_mask_validate r mask (some dr) = do
  entry ← index r.datarates (to_u8 dr)
  elim entry [ none ↦ ret false | some d ↦ validate_bandwidth mask d.bandwidth ]

-- The loops of `select_tx_channel` for a data frame: a random enabled channel of `n` from `first`
-- on, in at most `fuel` draws.
draw_enabled : ℕ → ChannelMask → ℕ → ℕ → Rng → Exec (ℕ × Rng)
unfolding enabled_unwrap
draw_enabled zero mask first n rng = spins
draw_enabled (suc fuel) mask first n rng = do
  let (draw, rng') = next_u32 rng
  enabled ← enabled_unwrap mask (draw % n + first)
  let again = draw_enabled fuel mask first n rng'
  if enabled then ret (draw % n + first, rng') else again

draw_by_bandwidth : ℕ → ChannelMask → Bandwidth → Rng → Exec (ℕ × Rng)
unfolding draw_enabled
draw_by_bandwidth fuel mask khz500 rng = draw_enabled fuel mask 64 8 rng
draw_by_bandwidth fuel mask bw rng = draw_enabled fuel mask 0 64 rng

-- The channel and the data rate of a join request.
join_channel : ℕ → FixedChannelPlan → Rng → Exec (Dr × ℕ × FixedChannelPlan × Rng)
unfolding get_next_channel
join_channel fuel p rng = do
  (channel, j, rng') ← get_next_channel fuel p.join_channels rng
  ret (if ltb channel 64 then dr0 else dr4, channel, record p { join_channels = j }, rng')

data_channel :
    ℕ → FixedChannelRegion → FixedChannelPlan → Dr → Rng → Exec (Dr × ℕ × FixedChannelPlan × Rng)
unfolding join_channel has_bias_and_not_exhausted first_data_channel draw_by_bandwidth to_u8
data_channel fuel r p dr rng =
    let (first, j) = first_data_channel p.join_channels rng in
    if has_bias_and_not_exhausted p.join_channels then join_channel fuel p rng else elim first [
      | some (channel, rng') ↦ ret (dr, channel, record p { join_channels = j }, rng')
      | none ↦ (do
        entry ← index r.datarates (to_u8 dr)
        rate ← unwrap entry
        (channel, rng') ← draw_by_bandwidth fuel p.channel_mask rate.bandwidth rng
        ret (dr, channel, p, rng'))
    ]

-- `TxChannel { … }` at the end of `select_tx_channel`.
tx_channel : FixedChannelRegion → Dr → ℕ → Exec TxChannel
unfolding to_u8
tx_channel r dr channel = do
  entry ← index r.datarates (to_u8 dr)
  rate ← unwrap entry
  frequency ← index r.uplink_channels channel
  rx1 ← index r.downlink_channels (channel % 8)
  ret (record { datarate = rate; dr = dr; frequency = frequency; rx1_frequency = rx1 })

unfoldable pub select_tx_channel :
    ℕ
    → FixedChannelRegion
    → FixedChannelPlan
    → Dr
    → Frame
    → Rng
    → Exec (TxChannel × FixedChannelPlan × Rng)
unfolding join_channel data_channel tx_channel
select_tx_channel fuel r p dr join_frame rng = do
  (dr', channel, p', rng') ← join_channel fuel p rng
  tx ← tx_channel r dr' channel
  ret (tx, p', rng')
select_tx_channel fuel r p dr data_frame rng = do
  (dr', channel, p', rng') ← data_channel fuel r p dr rng
  tx ← tx_channel r dr' channel
  ret (tx, p', rng')

-- `dr.clamp(lo, hi)` as a data rate.
clamp_rate : ℕ → ℕ → ℕ → Dr
unfolding from_u8
clamp_rate lo hi x = from_u8 (if ltb x lo then lo else if ltb hi x then hi else x)

-- US915. The difference of `u8`s below is not negative: an accepted offset is at most 3.

unfoldable pub us915_get_rx_datarate : Dr → ℕ → Window → Dr
unfolding to_u8 clamp_rate
us915_get_rx_datarate tx_dr offset window1 =
    if ltb (to_u8 tx_dr) 5
    then clamp_rate 8 13 (10 + to_u8 tx_dr - offset)
    else if ltb (to_u8 tx_dr) 7
    then clamp_rate 8 11 (5 + to_u8 tx_dr - offset)
    else dr8
us915_get_rx_datarate tx_dr offset window2 = dr8

unfoldable pub us915_tx_power_adjust : ℕ → Option ℕ
us915_tx_power_adjust pw =
    if leb pw 14 then some (if ltb 21 (30 - 2 * pw) then 21 else 30 - 2 * pw) else none

unfoldable pub us915 : FixedChannelRegion
unfolding us915_datarates us915_uplink_channels us915_downlink_channels us915_get_rx_datarate
    us915_tx_power_adjust
us915 = record {
  base = record {
    max_rx1_dr_offset = 3;
    default_rx2_freq = 923_300_000;
    datarates = us915_datarates;
    tx_power_adjust = us915_tx_power_adjust;
    get_rx_datarate = us915_get_rx_datarate;
  };
  uplink_channels = us915_uplink_channels;
  downlink_channels = us915_downlink_channels;
}

unfoldable pub new_us915 : FixedChannelPlan
unfolding new
new_us915 = new (within 902_000_000 928_000_000)

-- AU915. An accepted offset is at most 5.

au915_dr7 : ℕ → Dr
au915_dr7 offset = if offset == 0 then dr9 else dr8

unfoldable pub au915_get_rx_datarate : Dr → ℕ → Window → Dr
unfolding to_u8 clamp_rate au915_dr7
au915_get_rx_datarate dr7 offset window1 = au915_dr7 offset
au915_get_rx_datarate tx_dr offset window1 =
    if ltb (to_u8 tx_dr) 7 then clamp_rate 8 13 (8 + to_u8 tx_dr - offset) else dr8
au915_get_rx_datarate tx_dr offset window2 = dr8

unfoldable pub au915 : FixedChannelRegion
unfolding au915_datarates au915_uplink_channels au915_downlink_channels au915_get_rx_datarate
    power_step
au915 = record {
  base = record {
    max_rx1_dr_offset = 5;
    default_rx2_freq = 923_300_000;
    datarates = au915_datarates;
    tx_power_adjust = power_step 30 14;
    get_rx_datarate = au915_get_rx_datarate;
  };
  uplink_channels = au915_uplink_channels;
  downlink_channels = au915_downlink_channels;
}

unfoldable pub new_au915 : FixedChannelPlan
unfolding new
new_au915 = new (within 915_000_000 928_000_000)
