-- ===== src/Region/Dynamic/Tests.antt =====
-- The dynamic channel plans at concrete values: EU868.
use lora_rs.Common.{
  ◌≤◌, Option, ℕ, zero, suc, ◌+◌, ◌/◌, ◌%◌, ◌<◌, ◌≡◌, ◌↔◌, refl, Bool, true, none, some, [], ◌∷◌,
  length, get_or, is_some, ret, panic, spins, arith,
}
use lora_rs.Common.Bits.{test_bit}
use lora_rs.External.{Rng}
use lora_rs.Encoding.Types.{ChannelMask, default_mask, dr0, to_u8, channel_enabled}
use lora_rs.Modulation.{sf12, khz125}
use lora_rs.Region.{Datarate, data_frame}
use lora_rs.Region.Rates.{eu868_datarates}
use lora_rs.Region.Dynamic.{
  Channel, DynamicChannelPlan, new, rx1_frequency, channel_mask_update, handle_new_channel,
  select_tx_channel,
}
use lora_rs.Encoding.Frame.{CfList, dynamic_channel}
use lora_rs.Region.Dynamic.{process_join_accept, channel_dl_update}
use lora_rs.Region.Dynamic.Plans.{added, Joined, process_join_accept-Joined}
use lora_rs.Region.Dynamic.Downlink.{Downlinked, channel_dl_update-Downlinked}
use lora_rs.Region.Dynamic.Initial.{Configuration_new-IsPlan}
use lora_rs.Encoding.Types.{enabled_unwrap}
use lora_rs.Region.Dynamic.{channel_mask_validate}
use lora_rs.Region.Dynamic.Validate.{channel_mask_validate-usable}
use lora_rs.Region.Configuration
use lora_rs.Region.Configuration.{dynamic, dynamic_region, in865_region, dynamic_constants}
use lora_rs.Region.Dynamic.Regions.{eu868, new_eu868}
use lora_rs.Region.Dynamic.Channels.{IsPlan, NewChannel, handle_new_channel-NewChannel}
use lora_rs.Region.Dynamic.Banks.{empty_bank}
use lora_rs.Region.Dynamic.Masks.{Updated, channel_mask_update-Updated, dynamic_update_panics_iff}
use lora_rs.Region.Dynamic.Select.{usable, HasRate, select_tx_channel_data, select_tx_channel_spins}

nine : length (default_mask 9) ≡ 9
nine = refl

-- Block 1 of a request with every bit set: bank 1 is 0xfe, so channel 8 stays off.
update_runs :
    channel_mask_update (default_mask 9) 5 (0x02 ∷ 0 ∷ [])
    ≡ ret (some (0 ∷ 0xfe ∷ 0 ∷ 0 ∷ 0 ∷ 0 ∷ 0 ∷ 0 ∷ 0 ∷ []))
unfolding channel_mask_update
update_runs = refl

channel_mask_update-Updated_example :
    (m' : ChannelMask) × (channel_mask_update (default_mask 9) 5 (0x02 ∷ 0 ∷ []) ≡ ret (some m'))
    × Updated (default_mask 9) m' 5 0x02 0
channel_mask_update-Updated_example =
    channel_mask_update-Updated (default_mask 9) 5 0x02 0 nine (omega arith) (omega arith)

abbrev four : ℕ
four = 4

dynamic_update_panics_iff_example :
    (channel_mask_update (default_mask 9) four (0x0f ∷ 0 ∷ []) ≡ panic) ↔ (four ≡ 4)
dynamic_update_panics_iff_example = dynamic_update_panics_iff (default_mask 9) four 0x0f 0 nine

-- EU868 as it starts, and with every channel disabled.
abbrev all_off : DynamicChannelPlan
all_off = record new_eu868 { channel_mask = 0 ∷ 0 ∷ 0 ∷ 0 ∷ 0 ∷ 0 ∷ 0 ∷ 0 ∷ 0 ∷ [] }

three_joins :
    (p : DynamicChannelPlan)
    → p.channels ≡ new_eu868.channels
    → (i : ℕ) → i < 3
    → is_some (get_or p.channels i none) ≡ true
unfolding new_eu868 new eu868
three_joins p e zero h = rw e refl
three_joins p e (suc zero) h = rw e refl
three_joins p e (suc (suc zero)) h = rw e refl
three_joins p e (suc (suc (suc i))) h = absurd (omega arith)

new_eu868-IsPlan : IsPlan eu868 new_eu868
unfolding new_eu868 new eu868
new_eu868-IsPlan = record {
  size = refl;
  mask_size = refl;
  mask_bytes = (
    omega arith,
    (
      omega arith,
      (
        omega arith,
        (
          omega arith,
          (omega arith, (omega arith, (omega arith, (omega arith, (omega arith, tt))))),
        ),
      ),
    ),
  );
  joins = three_joins new_eu868 refl;
}

all_off-IsPlan : IsPlan eu868 all_off
unfolding new_eu868 new eu868
all_off-IsPlan = record {
  size = refl;
  mask_size = refl;
  mask_bytes = (
    omega arith,
    (
      omega arith,
      (
        omega arith,
        (
          omega arith,
          (omega arith, (omega arith, (omega arith, (omega arith, (omega arith, tt))))),
        ),
      ),
    ),
  );
  joins = three_joins all_off refl;
}

some_join : 0 < eu868.num_join_channels
unfolding eu868
some_join = omega arith

eu868_table : length eu868.datarates ≡ 15
unfolding eu868 eu868_datarates
eu868_table = refl

handle_new_channel-NewChannel_example :
    (acks : Bool × Bool) × (q : DynamicChannelPlan) × (handle_new_channel eu868 new_eu868 5
        868_100_000
        (some 0x50)
      ≡ ret (acks, q))
    × NewChannel eu868 new_eu868 5 868_100_000 (some 0x50) acks q
handle_new_channel-NewChannel_example =
    handle_new_channel-NewChannel eu868 new_eu868 5 868_100_000 (some 0x50) new_eu868-IsPlan
      eu868_table

-- The tenth and later channels are not defined, so the first draw misses and the second hits.
abbrev draws : Rng
draws = λ n. n + 15

abbrev slowest : Datarate
slowest = record {
  spreading_factor = sf12;
  bandwidth = khz125;
  max_mac_payload_size = 59;
  max_mac_payload_size_with_dwell_time = 59;
}

slowest-HasRate : HasRate eu868 dr0 slowest
unfolding eu868 eu868_datarates to_u8
slowest-HasRate = refl

second_hits : is_some (usable new_eu868 (draws 1 % 16)) ≡ true
unfolding usable new_eu868 new eu868 channel_enabled test_bit
second_hits = refl

select_runs :
    select_tx_channel eu868 2 new_eu868 dr0 data_frame draws
    ≡ ret (
      record { datarate = slowest; dr = dr0; frequency = 868_100_000; rx1_frequency = 868_100_000 },
      λ n. draws (suc (suc n)),
    )
unfolding select_tx_channel new_eu868 new eu868 eu868_datarates channel_enabled test_bit to_u8
    rx1_frequency
select_runs = refl

select_tx_channel_data_example :
    (i : ℕ) × (c : Channel) × (rng' : Rng) × (usable new_eu868 i ≡ some c)
    × (select_tx_channel eu868 2 new_eu868 dr0 data_frame draws
        ≡ ret (
          record {
            datarate = slowest;
            dr = dr0;
            frequency = c.frequency;
            rx1_frequency = rx1_frequency c;
          },
          rng',
        ))
select_tx_channel_data_example =
    select_tx_channel_data eu868 new_eu868 dr0 slowest 2 1 draws new_eu868-IsPlan some_join
      slowest-HasRate (omega arith) second_hits

zero_mask : (k : ℕ) → get_or all_off.channel_mask k 0 ≡ 0
zero_mask zero = refl
zero_mask (suc zero) = refl
zero_mask (suc (suc zero)) = refl
zero_mask (suc (suc (suc zero))) = refl
zero_mask (suc (suc (suc (suc zero)))) = refl
zero_mask (suc (suc (suc (suc (suc zero))))) = refl
zero_mask (suc (suc (suc (suc (suc (suc zero)))))) = refl
zero_mask (suc (suc (suc (suc (suc (suc (suc zero))))))) = refl
zero_mask (suc (suc (suc (suc (suc (suc (suc (suc zero)))))))) = refl
zero_mask (suc (suc (suc (suc (suc (suc (suc (suc (suc k))))))))) = refl

none-usable : (i : ℕ) → usable all_off i ≡ none
unfolding usable channel_enabled
none-usable i = rw (zero_mask (i / 8), empty_bank (i % 8) (omega arith)) refl

select_tx_channel_spins_example : select_tx_channel eu868 1000 all_off dr0 data_frame draws ≡ spins
select_tx_channel_spins_example =
    select_tx_channel_spins eu868 all_off dr0 1000 draws all_off-IsPlan some_join none-usable

-- A CFList that defines channels 3 and 4 and leaves channel 5 undefined.
abbrev listed : Option CfList
listed = some (
    dynamic_channel ((0x18 ∷ 0x4f ∷ 0x84 ∷ []) ∷ (0xe8 ∷ 0x56 ∷ 0x84 ∷ []) ∷ (0 ∷ 0 ∷ 0 ∷ []) ∷ []))

room : eu868.num_join_channels + length (added listed) ≤ 16
unfolding eu868
room = omega arith

process_join_accept-Joined_example :
    (q : DynamicChannelPlan) × (process_join_accept eu868 new_eu868 listed ≡ ret q)
    × Joined eu868 new_eu868 (added listed) q
process_join_accept-Joined_example =
    process_join_accept-Joined eu868 new_eu868 listed new_eu868-IsPlan room

channel_dl_update-Downlinked_example :
    (acks : Bool × Bool) × (q : DynamicChannelPlan) × (channel_dl_update new_eu868 1 869_525_000
      ≡ ret (acks, q))
    × Downlinked eu868 new_eu868 1 869_525_000 acks q
channel_dl_update-Downlinked_example =
    channel_dl_update-Downlinked eu868 new_eu868 1 869_525_000 new_eu868-IsPlan

Configuration_new-IsPlan_example :
    (p : DynamicChannelPlan) × (Configuration.new (dynamic_region in865_region)
      ≡ dynamic in865_region p)
    × IsPlan (dynamic_constants in865_region) p
Configuration_new-IsPlan_example = Configuration_new-IsPlan in865_region

accepted : channel_mask_validate new_eu868 new_eu868.channel_mask ≡ ret true
unfolding channel_mask_validate new_eu868 new eu868 channel_enabled test_bit enabled_unwrap
accepted = refl

channel_mask_validate-usable_example : (ch : ℕ) × (ch < 16) × (is_some (usable new_eu868 ch) ≡ true)
channel_mask_validate-usable_example =
    channel_mask_validate-usable eu868 new_eu868 new_eu868-IsPlan accepted
