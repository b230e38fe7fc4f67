-- ===== src/Region/Fixed/Validate.antt =====
-- What a validated channel mask guarantees: `channel_mask_validate` of both kinds of plan.
use lora_rs.Common.{
  ℕ, zero, suc, ◌+◌, ◌≤◌, ◌<◌, ◌≡◌, ◌⊎◌, refl, sym, ◌∙◌, true, false, some, length, ret, inl, inr,
  arith, Bool-cases,
}
use lora_rs.Encoding.Types.{Dr, ChannelMask, channel_enabled}
use lora_rs.Modulation.{Bandwidth, khz125, khz500}
use lora_rs.Region.{Datarate}
use lora_rs.Region.Dynamic.Select.{enabled_within}
use lora_rs.Region.Fixed.{has_enabled, validate_bandwidth, channel_mask_validate}
use lora_rs.Region.Fixed.Select.{start, width, HasRate}
use lora_rs.Region.Configuration.{FixedRegion, fixed_constants}

has_enabled_off :
    (mask : ChannelMask) (wanted i n : ℕ)
    → length mask ≡ 9
    → i < 72
    → channel_enabled mask i ≡ false
    → has_enabled mask (suc wanted) i (suc n) ≡ has_enabled mask (suc wanted) (suc i) n
unfolding has_enabled
has_enabled_off mask wanted i n m h off = rw (enabled_within mask i (omega (arith, m)), off) refl

has_enabled-true :
    (mask : ChannelMask) (wanted i n : ℕ)
    → length mask ≡ 9
    → i + n ≤ 72
    → has_enabled mask (suc wanted) i n ≡ ret true
    → (ch : ℕ) × (i ≤ ch) × (ch < i + n) × (channel_enabled mask ch ≡ true)
has_enabled-true mask wanted i zero m h e = absurd (unfold has_enabled in cc)
has_enabled-true mask wanted i (suc n) m h e = elim (Bool-cases (channel_enabled mask i)) [
  | inl on ↦ (i, omega arith, omega arith, on)
  | inr off ↦
      (let (ch, lo, hi, on) =
          has_enabled-true mask wanted (suc i) n m (omega arith)
            (sym (has_enabled_off mask wanted i n m (omega arith) off) ∙ e) in
        (ch, omega arith, omega arith, on))
]

bandwidth_has :
    (mask : ChannelMask) (bw : Bandwidth)
    → length mask ≡ 9
    → (bw ≡ khz125) ⊎ (bw ≡ khz500)
    → validate_bandwidth mask bw ≡ ret true
    → (ch : ℕ) × (start bw ≤ ch) × (ch < start bw + width bw) × (channel_enabled mask ch ≡ true)
unfolding validate_bandwidth
bandwidth_has mask khz500 m b e = has_enabled-true mask 0 64 8 m (omega arith) e
bandwidth_has mask khz125 m b e = has_enabled-true mask 1 0 64 m (omega arith) e
bandwidth_has mask _ m b e = absurd (elim b [ inl x ↦ cc | inr x ↦ cc ])

validate_of :
    (name : FixedRegion) (mask : ChannelMask) (dr : Dr) (rate : Datarate)
    → HasRate name dr rate
    → channel_mask_validate (fixed_constants name) mask (some dr)
      ≡ validate_bandwidth mask rate.bandwidth
unfolding channel_mask_validate
validate_of name mask dr rate h = rw h refl

-- In a fixed plan, a mask of nine bytes that `channel_mask_validate` accepts for a data rate of
-- the region of 125 or 500 kHz has an enabled channel of that bandwidth: one of those on which
-- `select_tx_channel` may end.
pub channel_mask_validate_fixed :
    (name : FixedRegion) (mask : ChannelMask) (dr : Dr) (rate : Datarate)
    → length mask ≡ 9
    → HasRate name dr rate
    → (rate.bandwidth ≡ khz125) ⊎ (rate.bandwidth ≡ khz500)
    → channel_mask_validate (fixed_constants name) mask (some dr) ≡ ret true
    → (ch : ℕ) × (start rate.bandwidth ≤ ch)
      × (ch < start rate.bandwidth + width rate.bandwidth)
      × (channel_enabled mask ch ≡ true)
channel_mask_validate_fixed name mask dr rate m rated b e =
    bandwidth_has mask rate.bandwidth m b (sym (validate_of name mask dr rate rated) ∙ e)
