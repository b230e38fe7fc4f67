-- ===== src/Region/Rates.antt =====
-- The data rate tables of the regions and the channel maps of the fixed plans:
-- lorawan-device/src/region/dynamic_channel_plans/*.rs,
-- lorawan-device/src/region/fixed_channel_plans/*/{datarates,frequencies}.rs.
use lora_rs.Common.{ℕ, Option, none, some, List, [], ◌∷◌}
use lora_rs.Modulation.{
  Bandwidth, SpreadingFactor, sf7, sf8, sf9, sf10, sf11, sf12, khz125, khz250, khz500,
}
use lora_rs.Region.{Datarate, DatarateTable}

-- `Some(Datarate { … })`
abbrev rate : SpreadingFactor → Bandwidth → ℕ → ℕ → Option Datarate
rate sf bw size size_with_dwell_time = some (record {
  spreading_factor = sf;
  bandwidth = bw;
  max_mac_payload_size = size;
  max_mac_payload_size_with_dwell_time = size_with_dwell_time;
})

unfoldable pub as923_datarates : DatarateTable
as923_datarates =
    rate sf12 khz125 59 0
    ∷ rate sf11 khz125 59 0
    ∷ rate sf10 khz125 123 19
    ∷ rate sf9 khz125 123 61
    ∷ rate sf8 khz125 250 133
    ∷ rate sf7 khz125 250 250
    ∷ rate sf7 khz250 250 250
    ∷ none
    ∷ none
    ∷ none
    ∷ none
    ∷ none
    ∷ none
    ∷ none
    ∷ none
    ∷ []

unfoldable pub eu433_datarates : DatarateTable
eu433_datarates =
    rate sf12 khz125 59 0
    ∷ rate sf11 khz125 59 0
    ∷ rate sf10 khz125 123 19
    ∷ rate sf9 khz125 123 61
    ∷ rate sf8 khz125 250 133
    ∷ rate sf7 khz125 250 250
    ∷ rate sf7 khz250 250 250
    ∷ none
    ∷ none
    ∷ none
    ∷ none
    ∷ none
    ∷ none
    ∷ none
    ∷ none
    ∷ []

unfoldable pub eu868_datarates : DatarateTable
eu868_datarates =
    rate sf12 khz125 59 59
    ∷ rate sf11 khz125 59 59
    ∷ rate sf10 khz125 59 59
    ∷ rate sf9 khz125 123 123
    ∷ rate sf8 khz125 250 250
    ∷ rate sf7 khz125 250 250
    ∷ none
    ∷ none
    ∷ none
    ∷ none
    ∷ none
    ∷ none
    ∷ none
    ∷ none
    ∷ none
    ∷ []

unfoldable pub in865_datarates : DatarateTable
in865_datarates =
    rate sf12 khz125 59 59
    ∷ rate sf11 khz125 59 59
    ∷ rate sf10 khz125 59 59
    ∷ rate sf9 khz125 123 123
    ∷ rate sf8 khz125 250 250
    ∷ rate sf7 khz125 250 250
    ∷ none
    ∷ none
    ∷ none
    ∷ none
    ∷ none
    ∷ none
    ∷ none
    ∷ none
    ∷ none
    ∷ []

unfoldable pub au915_datarates : DatarateTable
au915_datarates =
    rate sf12 khz125 59 0
    ∷ rate sf11 khz125 59 0
    ∷ rate sf10 khz125 59 19
    ∷ rate sf9 khz125 123 61
    ∷ rate sf8 khz125 250 133
    ∷ rate sf7 khz125 250 250
    ∷ rate sf8 khz500 250 250
    ∷ none
    ∷ rate sf12 khz500 61 61
    ∷ rate sf11 khz500 137 137
    ∷ rate sf10 khz500 250 250
    ∷ rate sf9 khz500 250 250
    ∷ rate sf8 khz500 250 250
    ∷ rate sf7 khz500 250 250
    ∷ none
    ∷ []

unfoldable pub us915_datarates : DatarateTable
us915_datarates =
    rate sf10 khz125 19 19
    ∷ rate sf9 khz125 61 61
    ∷ rate sf8 khz125 133 133
    ∷ rate sf7 khz125 250 250
    ∷ rate sf8 khz500 250 250
    ∷ none
    ∷ none
    ∷ none
    ∷ rate sf12 khz500 61 61
    ∷ rate sf11 khz500 137 137
    ∷ rate sf10 khz500 250 250
    ∷ rate sf9 khz500 250 250
    ∷ rate sf8 khz500 250 250
    ∷ rate sf7 khz500 250 250
    ∷ none
    ∷ []

unfoldable pub au915_uplink_channels : List ℕ
au915_uplink_channels =
    915_200_000 ∷ 915_400_000 ∷ 915_600_000 ∷ 915_800_000 ∷ 916_000_000 ∷ 916_200_000 ∷ 916_400_000
    ∷ 916_600_000 ∷ 916_800_000 ∷ 917_000_000 ∷ 917_200_000 ∷ 917_400_000 ∷ 917_600_000
    ∷ 917_800_000 ∷ 918_000_000 ∷ 918_200_000 ∷ 918_400_000 ∷ 918_600_000 ∷ 918_800_000
    ∷ 919_000_000 ∷ 919_200_000 ∷ 919_400_000 ∷ 919_600_000 ∷ 919_800_000 ∷ 920_000_000
    ∷ 920_200_000 ∷ 920_400_000 ∷ 920_600_000 ∷ 920_800_000 ∷ 921_000_000 ∷ 921_200_000
    ∷ 921_400_000 ∷ 921_600_000 ∷ 921_800_000 ∷ 922_000_000 ∷ 922_200_000 ∷ 922_400_000
    ∷ 922_600_000 ∷ 922_800_000 ∷ 923_000_000 ∷ 923_200_000 ∷ 923_400_000 ∷ 923_600_000
    ∷ 923_800_000 ∷ 924_000_000 ∷ 924_200_000 ∷ 924_400_000 ∷ 924_600_000 ∷ 924_800_000
    ∷ 925_000_000 ∷ 925_200_000 ∷ 925_400_000 ∷ 925_600_000 ∷ 925_800_000 ∷ 926_000_000
    ∷ 926_200_000 ∷ 926_400_000 ∷ 926_600_000 ∷ 926_800_000 ∷ 927_000_000 ∷ 927_200_000
    ∷ 927_400_000 ∷ 927_600_000 ∷ 927_800_000 ∷ 915_900_000 ∷ 917_500_000 ∷ 919_100_000
    ∷ 920_700_000 ∷ 922_300_000 ∷ 923_900_000 ∷ 925_500_000 ∷ 927_100_000 ∷ []

unfoldable pub au915_downlink_channels : List ℕ
au915_downlink_channels =
    923_300_000 ∷ 923_900_000 ∷ 924_500_000 ∷ 925_100_000 ∷ 925_700_000 ∷ 926_300_000 ∷ 926_900_000
    ∷ 927_500_000 ∷ []

unfoldable pub us915_uplink_channels : List ℕ
us915_uplink_channels =
    902_300_000 ∷ 902_500_000 ∷ 902_700_000 ∷ 902_900_000 ∷ 903_100_000 ∷ 903_300_000 ∷ 903_500_000
    ∷ 903_700_000 ∷ 903_900_000 ∷ 904_100_000 ∷ 904_300_000 ∷ 904_500_000 ∷ 904_700_000
    ∷ 904_900_000 ∷ 905_100_000 ∷ 905_300_000 ∷ 905_500_000 ∷ 905_700_000 ∷ 905_900_000
    ∷ 906_100_000 ∷ 906_300_000 ∷ 906_500_000 ∷ 906_700_000 ∷ 906_900_000 ∷ 907_100_000
    ∷ 907_300_000 ∷ 907_500_000 ∷ 907_700_000 ∷ 907_900_000 ∷ 908_100_000 ∷ 908_300_000
    ∷ 908_500_000 ∷ 908_700_000 ∷ 908_900_000 ∷ 909_100_000 ∷ 909_300_000 ∷ 909_500_000
    ∷ 909_700_000 ∷ 909_900_000 ∷ 910_100_000 ∷ 910_300_000 ∷ 910_500_000 ∷ 910_700_000
    ∷ 910_900_000 ∷ 911_100_000 ∷ 911_300_000 ∷ 911_500_000 ∷ 911_700_000 ∷ 911_900_000
    ∷ 912_100_000 ∷ 912_300_000 ∷ 912_500_000 ∷ 912_700_000 ∷ 912_900_000 ∷ 913_100_000
    ∷ 913_300_000 ∷ 913_500_000 ∷ 913_700_000 ∷ 913_900_000 ∷ 914_100_000 ∷ 914_300_000
    ∷ 914_500_000 ∷ 914_700_000 ∷ 914_900_000 ∷ 903_000_000 ∷ 904_600_000 ∷ 906_200_000
    ∷ 907_800_000 ∷ 909_400_000 ∷ 911_000_000 ∷ 912_600_000 ∷ 914_200_000 ∷ []

unfoldable pub us915_downlink_channels : List ℕ
us915_downlink_channels =
    923_300_000 ∷ 923_900_000 ∷ 924_500_000 ∷ 925_100_000 ∷ 925_700_000 ∷ 926_300_000 ∷ 926_900_000
    ∷ 927_500_000 ∷ []
