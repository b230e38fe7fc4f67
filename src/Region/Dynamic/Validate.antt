-- ===== src/Region/Dynamic/Validate.antt =====
-- What a validated channel mask guarantees in a dynamic plan: `channel_mask_validate`.
use lora_rs.Common.{
  ℕ, zero, suc, ◌+◌, ◌≤◌, ◌<◌, ◌≡◌, refl, sym, ap, ◌∙◌, true, false, none, is_some, if◌then◌else◌,
  length, get_or, ret, inl, inr, arith, Bool-cases,
}
use lora_rs.Encoding.Types.{channel_enabled}
use lora_rs.Region.Dynamic.{
  DynamicChannelRegion, DynamicChannelPlan, any_defined, channel_mask_validate,
}
use lora_rs.Region.Dynamic.Channels.{IsPlan}
use lora_rs.Region.Dynamic.Select.{index_within, enabled_within, usable}

module _ (p : DynamicChannelPlan) (c : length p.channels ≡ 16) (m : length p.channel_mask ≡ 9) where
  any_defined_next :
      (i n : ℕ)
      → i < 16
      → is_some (usable p i) ≡ false
      → any_defined p.channels p.channel_mask i (suc n)
        ≡ any_defined p.channels p.channel_mask (suc i) n
  unfolding any_defined usable
  any_defined_next i n h off = elim (Bool-cases (channel_enabled p.channel_mask i)) [
    | inl on ↦
        rw
          (
            enabled_within p.channel_mask i (omega (arith, m)),
            on,
            index_within p.channels i none (omega (arith, c)),
            absent on,
          )
          refl
    | inr on ↦ rw (enabled_within p.channel_mask i (omega (arith, m)), on) refl
  ]
    where
      absent : channel_enabled p.channel_mask i ≡ true → is_some (get_or p.channels i none) ≡ false
      absent on = ap (λ b. is_some (if b then get_or p.channels i none else none)) (sym on) ∙ off

  any_defined-usable :
      (i n : ℕ)
      → i + n ≤ 16
      → any_defined p.channels p.channel_mask i n ≡ ret true
      → (ch : ℕ) × (ch < 16) × (is_some (usable p ch) ≡ true)
  any_defined-usable i zero h e = absurd (unfold any_defined in cc)
  any_defined-usable i (suc n) h e = elim (Bool-cases (is_some (usable p i))) [
    | inl has ↦ (i, omega arith, has)
    | inr off ↦
        any_defined-usable (suc i) n (omega arith)
          (sym (any_defined_next i n (omega arith) off) ∙ e)
  ]

-- On a well-formed plan whose own mask `channel_mask_validate` accepts, there is a channel that is
-- both defined and enabled: one on which `select_tx_channel` may end.
pub channel_mask_validate-usable :
    (r : DynamicChannelRegion) (p : DynamicChannelPlan)
    → IsPlan r p
    → channel_mask_validate p p.channel_mask ≡ ret true
    → (ch : ℕ) × (ch < 16) × (is_some (usable p ch) ≡ true)
unfolding channel_mask_validate
channel_mask_validate-usable r p w e = any_defined-usable p w.size w.mask_size 0 16 (omega arith) e
