-- ===== src/Region/Fixed/Masks.antt =====
-- The channel mask that a LinkADRReq leaves in a fixed channel plan, channel by channel.
use lora_rs.Common.{
  ℕ, ◌-◌, ◌/◌, ◌%◌, ◌≤◌, ◌<◌, ◌≡◌, ◌≢◌, refl, ◌∙◌, Bool, some, [], ◌∷◌, ltb, leb, ◌==◌,
  if◌then◌else◌, length, set, length-set, get_or-set, ret, panic, arith, Bool-cases, inl, inr, ◌↔◌,
  ==_iff,
}
use lora_rs.Common.Bits.{test_bit}
use lora_rs.Encoding.Types.{ChannelMask, set_bank, get_index, channel_enabled}
use lora_rs.Region.Dynamic.{set_banks}
use lora_rs.Region.Dynamic.Banks.{
  set_bank_within, set_banks-Banks, set_bank_pair-Block, set_bank_pair_outside, full_bank,
  empty_bank,
}
use lora_rs.Region.Fixed.{channel_mask_update, set_125k_channels}

-- Channel `j` after a LinkADRReq with control value `ctl` and mask bytes `low` and `high`: a block
-- of sixteen channels replaced (0 to 3), banks of eight chosen by the bits of `low` with the
-- 500 kHz channel of each (5), or all 125 kHz channels on (6) or off (7) with the 500 kHz channels
-- given by `low`.
unfoldable pub selected : ChannelMask → ℕ → ℕ → ℕ → ℕ → Bool
unfolding channel_enabled
selected m ctl low high j =
    if leb ctl 3
    then (if j / 16 == ctl then channel_enabled (low ∷ high ∷ []) (j % 16) else channel_enabled m j)
    else if leb 64 j
    then test_bit low (j - 64)
    else if ctl == 5
    then test_bit low (j / 8)
    else ctl == 6

pub record Selected (m m' : ChannelMask) (ctl low high : ℕ) : Type 0 where
  pub same_length : length m' ≡ 9
  pub channels : (j : ℕ) → j < 72 → channel_enabled m' j ≡ selected m ctl low high j

-- Eight banks with given values, then bank 8.
nine_banks :
    (value : ℕ → ℕ) (last : ℕ) (m : ChannelMask)
    → length m ≡ 9
    → (b m' : ChannelMask) × (set_banks value 0 8 m ≡ ret b)
      × (set_bank b 8 last ≡ ret m')
      × (length m' ≡ 9)
      × ((j : ℕ)
          → j < 72
          → channel_enabled m' j ≡ test_bit (if ltb j 64 then value (j / 8) else last) (j % 8))
unfolding channel_enabled
nine_banks value last m len =
    let (b, e, w) = set_banks-Banks value 0 8 m (omega (arith, len)) in
    let size : length b ≡ 9 = w.same_length ∙ len in
    (
      b,
      set b 8 last,
      e,
      set_bank_within b 8 last (omega (arith, size)),
      length-set b 8 last ∙ size,
      λ j lt. ground (arith, w.banks (j / 8), get_or-set b 8 (j / 8) last 0 (omega (arith, size))),
    )

module _ (m : ChannelMask) (ctl low high : ℕ) (len : length m ≡ 9) where
  abbrev Answer : Type 0
  Answer =
      (m' : ChannelMask) × (channel_mask_update m ctl (low ∷ high ∷ []) ≡ ret (some m'))
      × Selected m m' ctl low high

  block_answer : ctl ≤ 3 → Answer
  unfolding channel_mask_update selected
  block_answer h =
      let (m', e, b) = set_bank_pair-Block m ctl low high (omega arith) in
      (
        m',
        ground (arith, e),
        record {
          same_length = b.same_length ∙ len;
          channels = λ j lt. ground (arith, b.channels j);
        },
      )

  banks_answer : ctl ≡ 5 → Answer
  unfolding channel_mask_update selected channel_enabled get_index
  banks_answer h =
      let (b, m', e, e', size, on) =
        nine_banks (λ i. if test_bit low i then 0xff else 0) low m len in
      (
        m',
        rw (h, e, e') refl,
        record {
          same_length = size;
          channels = λ j lt.
              ground
                (arith, on j lt, full_bank (j % 8) (omega arith), empty_bank (j % 8) (omega arith));
        },
      )

  wide_on : ctl ≡ 6 → Answer
  unfolding channel_mask_update set_125k_channels selected channel_enabled get_index
  wide_on h =
      let (b, m', e, e', size, on) = nine_banks (λ _. 0xff) low m len in
      (
        m',
        rw (h, e, e') refl,
        record {
          same_length = size;
          channels = λ j lt. ground (arith, on j lt, full_bank (j % 8) (omega arith));
        },
      )

  wide_off : ctl ≡ 7 → Answer
  unfolding channel_mask_update set_125k_channels selected channel_enabled get_index
  wide_off h =
      let (b, m', e, e', size, on) = nine_banks (λ _. 0) low m len in
      (
        m',
        rw (h, e, e') refl,
        record {
          same_length = size;
          channels = λ j lt. ground (arith, on j lt, empty_bank (j % 8) (omega arith));
        },
      )

-- On a mask of nine bytes and a control value below 8 other than 4, `channel_mask_update` of the
-- fixed plans returns a mask of nine bytes in which exactly the channels that the request selects
-- are enabled: the values 0 to 3 replace a block of sixteen, 5 takes banks of eight with their
-- 500 kHz channel, 6 and 7 turn the 125 kHz channels on or off and set the 500 kHz ones.
pub channel_mask_update-Selected :
    (m : ChannelMask) (ctl low high : ℕ)
    → length m ≡ 9
    → ctl < 8
    → ctl ≢ 4
    → (m' : ChannelMask) × (channel_mask_update m ctl (low ∷ high ∷ []) ≡ ret (some m'))
      × Selected m m' ctl low high
channel_mask_update-Selected m ctl low high len le ne = elim (Bool-cases (leb ctl 3)) [
  | inl h ↦ block_answer m ctl low high len (ground arith)
  | inr h ↦ elim (Bool-cases (ctl == 5)) [
    | inl five ↦ banks_answer m ctl low high len (ground arith)
    | inr more ↦ elim (Bool-cases (ctl == 6)) [
      | inl six ↦ wide_on m ctl low high len (ground arith)
      | inr seven ↦ wide_off m ctl low high len (ground arith)
    ]
  ]
]

panics_at_4 :
    (m : ChannelMask) (low high : ℕ)
    → length m ≡ 9
    → channel_mask_update m 4 (low ∷ high ∷ []) ≡ panic
unfolding channel_mask_update
panics_at_4 m low high len = rw (set_bank_pair_outside m low high len) refl

-- On a mask of nine bytes and a control value below 8, `channel_mask_update` of the fixed plans
-- panics exactly for the control value 4, whose second bank is out of bounds.
pub fixed_update_panics_iff :
    (m : ChannelMask) (ctl low high : ℕ)
    → length m ≡ 9
    → ctl < 8
    → (channel_mask_update m ctl (low ∷ high ∷ []) ≡ panic) ↔ (ctl ≡ 4)
fixed_update_panics_iff m ctl low high len lt = (
  λ e. elim (Bool-cases (ctl == 4)) [
    | inl y ↦ (==_iff ctl 4).0 y
    | inr n ↦
        (let (m', r, u) = channel_mask_update-Selected m ctl low high len lt (ground arith) in cc)
  ],
  λ e. rw e (panics_at_4 m low high len),
)
