-- ===== src/Region/Dynamic/Regions.antt =====
-- The regions with a dynamic channel plan:
-- lorawan-device/src/region/dynamic_channel_plans/{as923,eu433,eu868,in865}.rs.
use lora_rs.Common.{
  ℕ, ◌+◌, ◌-◌, ◌*◌, Bool, ◌&&◌, ◌||◌, Option, none, some, [], ◌∷◌, ltb, leb, ◌==◌, if◌then◌else◌,
}
use lora_rs.Encoding.Types.{
  Dr, dr0, dr1, dr2, dr5, dr7, dr8, dr9, dr10, dr11, dr12, dr13, dr14, dr15, to_u8, from_u8,
  offset_sub,
}
use lora_rs.Region.{Window, window1, window2}
use lora_rs.Region.Rates.{as923_datarates, eu433_datarates, eu868_datarates, in865_datarates}
use lora_rs.Region.Dynamic.{DynamicChannelRegion, DynamicChannelPlan, new_channel, new}

-- `(lo..=hi).contains(&f)`
abbrev pub within : ℕ → ℕ → ℕ → Bool
within lo hi f = leb lo f && leb f hi

-- `match pw { 0..=last => Some(MAX_EIRP - 2 * pw), _ => None }`
unfoldable pub power_step : ℕ → ℕ → ℕ → Option ℕ
power_step max_eirp last pw = if leb pw last then some (max_eirp - 2 * pw) else none

-- EU868.

unfoldable pub eu868_freq_check : ℕ → Bool
eu868_freq_check f = within 863_000_000 870_000_000 f

eu868_rx1_base : Dr → Dr
eu868_rx1_base dr8 = dr1
eu868_rx1_base dr9 = dr2
eu868_rx1_base dr10 = dr1
eu868_rx1_base dr11 = dr2
eu868_rx1_base dr12 = dr0
eu868_rx1_base dr13 = dr0
eu868_rx1_base dr14 = dr0
eu868_rx1_base dr15 = dr0
eu868_rx1_base tx_dr = tx_dr

unfoldable pub eu868_get_rx_datarate : Dr → ℕ → Window → Dr
unfolding eu868_rx1_base offset_sub
eu868_get_rx_datarate tx_dr offset window1 = offset_sub (eu868_rx1_base tx_dr) offset
eu868_get_rx_datarate tx_dr offset window2 = dr0

unfoldable pub eu868 : DynamicChannelRegion
unfolding eu868_datarates power_step eu868_get_rx_datarate new_channel
eu868 = record {
  base = record {
    max_rx1_dr_offset = 5;
    default_rx2_freq = 869_525_000;
    datarates = eu868_datarates;
    tx_power_adjust = power_step 16 7;
    get_rx_datarate = eu868_get_rx_datarate;
  };
  num_join_channels = 3;
  init_channels =
      new_channel 868_100_000 dr0 dr5
      ∷ new_channel 868_300_000 dr0 dr5
      ∷ new_channel 868_500_000 dr0 dr5
      ∷ [];
}

unfoldable pub new_eu868 : DynamicChannelPlan
unfolding eu868 new eu868_freq_check
new_eu868 = new eu868 eu868_freq_check

-- EU433.

unfoldable pub eu433_freq_check : ℕ → Bool
eu433_freq_check f = within 433_050_000 434_790_000 f

unfoldable pub eu433_get_rx_datarate : Dr → ℕ → Window → Dr
unfolding to_u8 offset_sub
eu433_get_rx_datarate tx_dr offset window1 =
    offset_sub (if ltb (to_u8 tx_dr) 8 then tx_dr else dr0) offset
eu433_get_rx_datarate tx_dr offset window2 = dr0

unfoldable pub eu433 : DynamicChannelRegion
unfolding eu433_datarates power_step eu433_get_rx_datarate new_channel
eu433 = record {
  base = record {
    max_rx1_dr_offset = 5;
    default_rx2_freq = 434_665_000;
    datarates = eu433_datarates;
    tx_power_adjust = power_step 16 5;
    get_rx_datarate = eu433_get_rx_datarate;
  };
  num_join_channels = 3;
  init_channels =
      new_channel 433_175_000 dr0 dr5
      ∷ new_channel 433_375_000 dr0 dr5
      ∷ new_channel 433_575_000 dr0 dr5
      ∷ [];
}

unfoldable pub new_eu433 : DynamicChannelPlan
unfolding eu433 new eu433_freq_check
new_eu433 = new eu433 eu433_freq_check

-- IN865.

unfoldable pub in865_freq_check : ℕ → Bool
in865_freq_check f = within 865_000_000 867_000_000 f

-- The last match: an offset of 6 or more, where DR5 and DR7 are special.
in865_high_offset : Dr → ℕ → Dr
unfolding to_u8 from_u8
in865_high_offset dr5 offset = if offset == 6 then dr5 else dr7
in865_high_offset dr7 offset = dr7
in865_high_offset tx_dr offset =
    let raised = to_u8 tx_dr + offset - 5 in from_u8 (if ltb raised 7 then raised else 7)

unfoldable pub in865_get_rx_datarate : Dr → ℕ → Window → Dr
unfolding to_u8 offset_sub in865_high_offset
in865_get_rx_datarate tx_dr offset window1 =
    if ltb (to_u8 tx_dr) 6 || to_u8 tx_dr == 7
    then (if ltb offset 6 then offset_sub tx_dr offset else in865_high_offset tx_dr offset)
    else dr0
in865_get_rx_datarate tx_dr offset window2 = dr2

unfoldable pub in865 : DynamicChannelRegion
unfolding in865_datarates power_step in865_get_rx_datarate new_channel
in865 = record {
  base = record {
    max_rx1_dr_offset = 7;
    default_rx2_freq = 866_550_000;
    datarates = in865_datarates;
    tx_power_adjust = power_step 30 10;
    get_rx_datarate = in865_get_rx_datarate;
  };
  num_join_channels = 3;
  init_channels =
      new_channel 865_062_500 dr0 dr5
      ∷ new_channel 865_402_500 dr0 dr5
      ∷ new_channel 865_985_000 dr0 dr5
      ∷ [];
}

unfoldable pub new_in865 : DynamicChannelPlan
unfolding in865 new in865_freq_check
new_in865 = new in865 in865_freq_check

-- AS923, over the constants `DEFAULT_RX2` and `OFFSET` of its four groups.

unfoldable pub as924_generic_freq_check : ℕ → Bool
as924_generic_freq_check f = within 915_000_000 928_000_000 f

unfoldable pub as924_4_freq_check : ℕ → Bool
as924_4_freq_check f = within 917_000_000 920_000_000 f

unfoldable pub as923_get_rx_datarate : Dr → ℕ → Window → Dr
unfolding to_u8 from_u8 offset_sub
as923_get_rx_datarate tx_dr offset window1 =
    let raised = to_u8 tx_dr + offset - 5 in
    if ltb (to_u8 tx_dr) 8
    then (if ltb offset 6
        then offset_sub tx_dr offset
        else from_u8 (if ltb raised 7 then raised else 7))
    else dr0
as923_get_rx_datarate tx_dr offset window2 = dr2

unfoldable pub as923 : ℕ → ℕ → DynamicChannelRegion
unfolding as923_datarates power_step as923_get_rx_datarate new_channel
as923 default_rx2 offset = record {
  base = record {
    max_rx1_dr_offset = 7;
    default_rx2_freq = default_rx2;
    datarates = as923_datarates;
    tx_power_adjust = power_step 16 7;
    get_rx_datarate = as923_get_rx_datarate;
  };
  num_join_channels = 2;
  init_channels =
      new_channel (923_200_000 - offset) dr2 dr5 ∷ new_channel (923_400_000 - offset) dr2 dr5 ∷ [];
}

unfoldable pub as923_1 : DynamicChannelRegion
unfolding as923
as923_1 = as923 923_200_000 0

unfoldable pub as923_2 : DynamicChannelRegion
unfolding as923
as923_2 = as923 921_400_000 1_800_000

unfoldable pub as923_3 : DynamicChannelRegion
unfolding as923
as923_3 = as923 916_500_000 6_600_000

unfoldable pub as923_4 : DynamicChannelRegion
unfolding as923
as923_4 = as923 917_300_000 5_900_000

unfoldable pub new_as924 : DynamicChannelRegion → DynamicChannelPlan
unfolding new as924_generic_freq_check
new_as924 r = new r as924_generic_freq_check

unfoldable pub new_as924_4 : DynamicChannelPlan
unfolding as923_4 new as924_4_freq_check
new_as924_4 = new as923_4 as924_4_freq_check
