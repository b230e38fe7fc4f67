-- ===== src/Region/Fixed/Tests.antt =====
-- The fixed channel plans at concrete values.
use lora_rs.Common.{◌+◌, ◌%◌, ◌≤◌, ◌<◌, true, none, get_or, ◌∷◌, []}
use lora_rs.External.{Rng}
use lora_rs.Encoding.Types.{dr4, to_u8, channel_enabled}
use lora_rs.Modulation.{sf8, khz500}
use lora_rs.Region.{Datarate, data_frame}
use lora_rs.Region.Rates.{us915_datarates}
use lora_rs.Region.Fixed.{FixedChannelPlan, us915, new_us915, new, select_tx_channel}
use lora_rs.Region.Fixed.Select.{start, width, HasRate, select_tx_channel_fixed}
use lora_rs.Common.{inr, refl, ret, ◌⊎◌}
use lora_rs.Encoding.Types.{enabled_unwrap}
use lora_rs.Modulation.{khz125}
use lora_rs.Region.Fixed.{channel_mask_validate}
use lora_rs.Region.Fixed.Validate.{channel_mask_validate_fixed}
use lora_rs.Region.Configuration.{fixed_constants, us915_region}
use lora_rs.Common.{ℕ, ◌≡◌, ◌↔◌, refl, some, [], ◌∷◌, length, ret, panic, arith}
use lora_rs.Common.Bits.{test_bit}
use lora_rs.Encoding.Types.{ChannelMask, default_mask}
use lora_rs.Region.Fixed.{channel_mask_update}
use lora_rs.Region.Fixed.Masks.{Selected, channel_mask_update-Selected, fixed_update_panics_iff}

nine : length (default_mask 9) ≡ 9
nine = refl

-- Blocks 0 and 7: channels 0 to 7 and 56 to 63 with the 500 kHz channels 64 and 71.
update_runs :
    channel_mask_update (default_mask 9) 5 (0x81 ∷ 0xff ∷ [])
    ≡ ret (some (0xff ∷ 0 ∷ 0 ∷ 0 ∷ 0 ∷ 0 ∷ 0 ∷ 0xff ∷ 0x81 ∷ []))
unfolding channel_mask_update test_bit
update_runs = refl

channel_mask_update-Selected_example :
    (m' : ChannelMask) × (channel_mask_update (default_mask 9) 7 (0x02 ∷ 0 ∷ []) ≡ ret (some m'))
    × Selected (default_mask 9) m' 7 0x02 0
channel_mask_update-Selected_example =
    channel_mask_update-Selected (default_mask 9) 7 0x02 0 nine (omega arith) (omega arith)

abbrev four : ℕ
four = 4

fixed_update_panics_iff_example :
    (channel_mask_update (default_mask 9) four (0x0f ∷ 0 ∷ []) ≡ panic) ↔ (four ≡ 4)
fixed_update_panics_iff_example =
    fixed_update_panics_iff (default_mask 9) four 0x0f 0 nine (omega arith)

-- US915 with the first 500 kHz channel enabled and the others of them disabled, at DR4.
abbrev one_wide : FixedChannelPlan
one_wide = record new_us915 { channel_mask = 0 ∷ 0 ∷ 0 ∷ 0 ∷ 0 ∷ 0 ∷ 0 ∷ 0 ∷ 0x01 ∷ [] }

abbrev wide_rate : Datarate
wide_rate = record {
  spreading_factor = sf8;
  bandwidth = khz500;
  max_mac_payload_size = 250;
  max_mac_payload_size_with_dwell_time = 250;
}

wide_rate-HasRate : HasRate us915_region dr4 wide_rate
unfolding fixed_constants us915 us915_datarates to_u8
wide_rate-HasRate = refl

abbrev draws : Rng
draws = λ n. n + 7

no_preference : one_wide.join_channels.preferred_subband ≡ none
unfolding new_us915 new
no_preference = refl

second_hits : channel_enabled one_wide.channel_mask (draws 1 % width khz500 + start khz500) ≡ true
unfolding channel_enabled test_bit
second_hits = refl

select_tx_channel_fixed_example :
    (ch : ℕ) × (rng' : Rng) × (channel_enabled one_wide.channel_mask ch ≡ true)
    × (start khz500 ≤ ch)
    × (ch < start khz500 + width khz500)
    × (select_tx_channel 2 (fixed_constants us915_region) one_wide dr4 data_frame draws
        ≡ ret (
          record {
            datarate = wide_rate;
            dr = dr4;
            frequency = get_or (fixed_constants us915_region).uplink_channels ch 0;
            rx1_frequency = get_or (fixed_constants us915_region).downlink_channels (ch % 8) 0;
          },
          one_wide,
          rng',
        ))
select_tx_channel_fixed_example =
    select_tx_channel_fixed us915_region one_wide dr4 wide_rate 2 1 draws refl no_preference
      wide_rate-HasRate (omega arith) second_hits

accepted :
    channel_mask_validate (fixed_constants us915_region) (default_mask 9) (some dr4) ≡ ret true
unfolding channel_mask_validate fixed_constants us915 us915_datarates to_u8 channel_enabled test_bit
    enabled_unwrap
accepted = refl

is_wide : (khz500 ≡ khz125) ⊎ (khz500 ≡ khz500)
is_wide = inr refl

channel_mask_validate_fixed_example :
    (ch : ℕ) × (start khz500 ≤ ch)
    × (ch < start khz500 + width khz500)
    × (channel_enabled (default_mask 9) ch ≡ true)
channel_mask_validate_fixed_example =
    channel_mask_validate_fixed us915_region (default_mask 9) dr4 wide_rate nine wide_rate-HasRate
      is_wide accepted
