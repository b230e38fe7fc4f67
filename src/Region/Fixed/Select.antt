-- ===== src/Region/Fixed/Select.antt =====
-- Channel selection for a data frame in a fixed channel plan.
use lora_rs.Common.{
  ℕ, zero, suc, ◌+◌, ◌%◌, ◌≤◌, ◌<◌, ◌≡◌, refl, true, false, none, some, if◌then◌else◌, length,
  get_or, get_elem?, ret, inl, inr, arith, Bool-cases,
}
use lora_rs.External.{Rng}
use lora_rs.Encoding.Types.{Dr, to_u8, ChannelMask, channel_enabled}
use lora_rs.Modulation.{Bandwidth, khz500}
use lora_rs.Region.{Datarate, data_frame}
use lora_rs.Region.Rates.{
  us915_uplink_channels, us915_downlink_channels, au915_uplink_channels, au915_downlink_channels,
}
use lora_rs.Region.Dynamic.Select.{index_within, enabled_within}
use lora_rs.Region.Fixed.{
  FixedChannelPlan, us915, au915, draw_enabled, draw_by_bandwidth, data_channel, tx_channel,
  select_tx_channel,
}
use lora_rs.Region.Join.{JoinChannels, has_bias_and_not_exhausted, first_data_channel}
use lora_rs.Region.Configuration.{FixedRegion, fixed_constants, us915_region, au915_region}

module _ (mask : ChannelMask) (first n : ℕ) (m : length mask ≡ 9) (low : (x : ℕ) → x % n < n)
    (top : first + n ≤ 72) where
  draw_enabled_step :
      (fuel : ℕ) (rng : Rng)
      → draw_enabled (suc fuel) mask first n rng ≡ (
          if channel_enabled mask (rng 0 % n + first)
          then ret (rng 0 % n + first, λ k. rng (suc k))
          else draw_enabled fuel mask first n (λ k. rng (suc k)))
  unfolding draw_enabled
  draw_enabled_step fuel rng =
      rw (enabled_within mask (rng 0 % n + first) (omega (arith, m, low (rng 0), top))) refl

  Drawn : ℕ → Rng → Type 0
  Drawn fuel rng =
      (ch : ℕ) × (rng' : Rng) × (channel_enabled mask ch ≡ true)
      × (first ≤ ch)
      × (ch < first + n)
      × (draw_enabled fuel mask first n rng ≡ ret (ch, rng'))

  at_once :
      (fuel : ℕ) (rng : Rng)
      → channel_enabled mask (rng 0 % n + first) ≡ true
      → Drawn (suc fuel) rng
  unfolding Drawn
  at_once fuel rng on = (
    rng 0 % n + first,
    (λ k. rng (suc k)),
    on,
    omega arith,
    omega (arith, low (rng 0)),
    rw (draw_enabled_step fuel rng, on) refl,
  )

  draw_enabled_hits :
      (fuel k : ℕ) (rng : Rng)
      → k < fuel
      → channel_enabled mask (rng k % n + first) ≡ true
      → Drawn fuel rng
  unfolding Drawn
  draw_enabled_hits zero k rng lt hit = absurd (omega arith)
  draw_enabled_hits (suc fuel) zero rng lt hit = at_once fuel rng hit
  draw_enabled_hits (suc fuel) (suc k) rng lt hit =
      elim (Bool-cases (channel_enabled mask (rng 0 % n + first))) [
        | inl on ↦ at_once fuel rng on
        | inr off ↦
            (let (ch, rng', on, lo, hi, e) =
                draw_enabled_hits fuel k (λ j. rng (suc j)) (omega arith) hit in
              (ch, rng', on, lo, hi, rw (draw_enabled_step fuel rng, off) e))
      ]

-- The channels that a bandwidth may use: from where on, and how many.
abbrev pub start : Bandwidth → ℕ
start khz500 = 64
start bw = 0

abbrev pub width : Bandwidth → ℕ
width khz500 = 8
width bw = 64

draw_by_bandwidth_hits :
    (mask : ChannelMask) (bw : Bandwidth) (fuel k : ℕ) (rng : Rng)
    → length mask ≡ 9
    → k < fuel
    → channel_enabled mask (rng k % width bw + start bw) ≡ true
    → (ch : ℕ) × (rng' : Rng) × (channel_enabled mask ch ≡ true)
      × (start bw ≤ ch)
      × (ch < start bw + width bw)
      × (draw_by_bandwidth fuel mask bw rng ≡ ret (ch, rng'))
unfolding draw_by_bandwidth Drawn
draw_by_bandwidth_hits mask khz500 fuel k rng m lt hit =
    draw_enabled_hits mask 64 8 m (λ x. omega arith) (omega arith) fuel k rng lt hit
draw_by_bandwidth_hits mask _ fuel k rng m lt hit =
    draw_enabled_hits mask 0 64 m (λ x. omega arith) (omega arith) fuel k rng lt hit

start-width : (bw : Bandwidth) → start bw + width bw ≤ 72
start-width khz500 = omega arith
start-width _ = omega arith

length-channels :
    (name : FixedRegion)
    → (length (fixed_constants name).uplink_channels ≡ 72)
      × (length (fixed_constants name).downlink_channels ≡ 8)
unfolding fixed_constants us915 au915 us915_uplink_channels us915_downlink_channels
    au915_uplink_channels au915_downlink_channels
length-channels au915_region = (refl, refl)
length-channels us915_region = (refl, refl)

-- The rate of `dr` in the region's table.
abbrev pub HasRate : FixedRegion → Dr → Datarate → Type 0
HasRate name dr rate = get_elem? (fixed_constants name).datarates (to_u8 dr) ≡ some (some rate)

no_bias : (j : JoinChannels) → j.preferred_subband ≡ none → has_bias_and_not_exhausted j ≡ false
unfolding has_bias_and_not_exhausted
no_bias j free = ground (arith, free)

no_first :
    (j : JoinChannels) (rng : Rng)
    → j.preferred_subband ≡ none
    → first_data_channel j rng ≡ (none, j)
unfolding first_data_channel
no_first j rng free = ground (arith, free)

data_channel_drawn :
    (name : FixedRegion) (p : FixedChannelPlan) (dr : Dr) (rate : Datarate) (fuel ch : ℕ)
    (rng rng' : Rng)
    → p.join_channels.preferred_subband ≡ none
    → HasRate name dr rate
    → draw_by_bandwidth fuel p.channel_mask rate.bandwidth rng ≡ ret (ch, rng')
    → data_channel fuel (fixed_constants name) p dr rng ≡ ret (dr, ch, p, rng')
unfolding data_channel
data_channel_drawn name p dr rate fuel ch rng rng' free rated e =
    rw (no_bias p.join_channels free, no_first p.join_channels rng free, rated, e) refl

tx_channel_of :
    (name : FixedRegion) (dr : Dr) (rate : Datarate) (ch : ℕ)
    → HasRate name dr rate
    → ch < 72
    → tx_channel (fixed_constants name) dr ch
      ≡ ret (record {
        datarate = rate;
        dr = dr;
        frequency = get_or (fixed_constants name).uplink_channels ch 0;
        rx1_frequency = get_or (fixed_constants name).downlink_channels (ch % 8) 0;
      })
unfolding tx_channel
tx_channel_of name dr rate ch rated h =
    let (up, down) = length-channels name in
    rw
      (
        rated,
        index_within (fixed_constants name).uplink_channels ch 0 (omega (arith, up)),
        index_within (fixed_constants name).downlink_channels (ch % 8) 0 (omega (arith, down)),
      )
      refl

-- For a data frame in a fixed plan with a mask of nine bytes and no join bias, at a data rate of
-- the region: if one of the first `fuel` random numbers gives an enabled channel of the rate's
-- bandwidth (64 to 71 for 500 kHz, and otherwise 0 to 63), `select_tx_channel` returns within
-- `fuel` draws, on an enabled channel of that bandwidth, with the frequencies that the region's
-- maps have for it, and leaves the plan as it was.
pub select_tx_channel_fixed :
    (name : FixedRegion) (p : FixedChannelPlan) (dr : Dr) (rate : Datarate) (fuel k : ℕ) (rng : Rng)
    → length p.channel_mask ≡ 9
    → p.join_channels.preferred_subband ≡ none
    → HasRate name dr rate
    → k < fuel
    → channel_enabled p.channel_mask (rng k % width rate.bandwidth + start rate.bandwidth) ≡ true
    → (ch : ℕ) × (rng' : Rng) × (channel_enabled p.channel_mask ch ≡ true)
      × (start rate.bandwidth ≤ ch)
      × (ch < start rate.bandwidth + width rate.bandwidth)
      × (select_tx_channel fuel (fixed_constants name) p dr data_frame rng
          ≡ ret (
            record {
              datarate = rate;
              dr = dr;
              frequency = get_or (fixed_constants name).uplink_channels ch 0;
              rx1_frequency = get_or (fixed_constants name).downlink_channels (ch % 8) 0;
            },
            p,
            rng',
          ))
unfolding select_tx_channel
select_tx_channel_fixed name p dr rate fuel k rng m free rated lt hit =
    let (ch, rng', on, lo, hi, e) =
      draw_by_bandwidth_hits p.channel_mask rate.bandwidth fuel k rng m lt hit in
    (
      ch,
      rng',
      on,
      lo,
      hi,
      rw
          (
            data_channel_drawn name p dr rate fuel ch rng rng' free rated e,
            tx_channel_of name dr rate ch rated (omega (arith, hi, start-width rate.bandwidth)),
          )
          refl,
    )
