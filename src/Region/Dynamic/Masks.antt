-- ===== src/Region/Dynamic/Masks.antt =====
-- The channel mask that a LinkADRReq leaves in a dynamic channel plan, channel by channel.
use lora_rs.Common.{
  ℕ, ◌+◌, ◌*◌, ◌/◌, ◌%◌, ◌^◌, ◌≤◌, ◌<◌, ◌≡◌, ◌≢◌, refl, sym, ◌∙◌, Bool, true, false, ◌&&◌, not,
  none, some, [], ◌∷◌, ltb, leb, ◌==◌, if◌then◌else◌, length, ret, panic, arith, Bool-cases, inl,
  inr, ◌↔◌, ==_iff,
}
use lora_rs.Common.Bits.{test_bit, all_under, all_under_holds}
use lora_rs.Encoding.Types.{ChannelMask, get_index, channel_enabled}
use lora_rs.Region.Dynamic.{bank_of_bit, channel_mask_update}
use lora_rs.Region.Dynamic.Banks.{
  set_banks-Banks, set_bank_pair-Block, set_bank_pair_outside, full_bank,
}

-- The bank of bit `k`, when that bit is `b`.
bit_bank : ℕ → ℕ → ℕ
bit_bank b k = b * 2 ^ k * 0xff % 256

bank_row : ℕ → ℕ → ℕ → Bool
unfolding bit_bank test_bit
bank_row b k i = if test_bit (bit_bank b k) i then b == 1 && leb k i else not (b == 1 && leb k i)

bank_table : all_under 2 (λ b. all_under 9 (λ k. all_under 8 (bank_row b k))) ≡ true
unfolding all_under bank_row
bank_table = refl

bank_of_bit_lem :
    (ch_mask k i : ℕ)
    → k < 9
    → i < 8
    → test_bit (bank_of_bit ch_mask k) i ≡ (test_bit ch_mask k && leb k i)
unfolding bank_of_bit bank_row bit_bank
bank_of_bit_lem ch_mask k i hk hi = from_row (test_bit (bank_of_bit ch_mask k) i) row
  where
    b : ℕ
    b = ch_mask / 2 ^ k % 2

    row : bank_row b k i ≡ true
    row =
        all_under_holds 8 (bank_row b k) i
          (all_under_holds 9 (λ k. all_under 8 (bank_row b k)) k
            (all_under_holds 2 (λ b. all_under 9 (λ k. all_under 8 (bank_row b k))) b bank_table
              (omega arith))
            hk)
          hi

    from_row :
        (t : Bool)
        → (if t then test_bit ch_mask k && leb k i else not (test_bit ch_mask k && leb k i)) ≡ true
        → t ≡ (test_bit ch_mask k && leb k i)
    from_row true h = sym h
    from_row false h = ground (arith)

-- Channel `j` after a LinkADRReq with control value `ctl` and mask bytes `low` and `high`.
unfoldable pub updated : ChannelMask → ℕ → ℕ → ℕ → ℕ → Bool
unfolding channel_enabled
updated m ctl low high j =
    if leb ctl 3
    then (if j / 16 == ctl then channel_enabled (low ∷ high ∷ []) (j % 16) else channel_enabled m j)
    else if ctl == 5
    then test_bit (low + high * 256) (j / 8) && leb (j / 8) (j % 8)
    else if ltb j 64
    then true
    else channel_enabled m j

-- What `channel_mask_update` returns: a mask of nine bytes with the given channels enabled.
pub record Updated (m m' : ChannelMask) (ctl low high : ℕ) : Type 0 where
  pub same_length : length m' ≡ 9
  pub channels : (j : ℕ) → j < 72 → channel_enabled m' j ≡ updated m ctl low high j

module _ (m : ChannelMask) (ctl low high : ℕ) (len : length m ≡ 9) where
  abbrev Answer : Type 0
  Answer =
      (m' : ChannelMask) × (channel_mask_update m ctl (low ∷ high ∷ []) ≡ ret (some m'))
      × Updated m m' ctl low high

  block_answer : ctl ≤ 3 → Answer
  unfolding channel_mask_update updated
  block_answer h =
      let (m', e, b) = set_bank_pair-Block m ctl low high (omega arith) in
      (
        m',
        ground (arith, e),
        record {
          same_length = b.same_length ∙ len;
          channels = λ j lt. ground (arith, b.channels j);
        },
      )

  spread_answer : ctl ≡ 5 → Answer
  unfolding channel_mask_update updated channel_enabled get_index
  spread_answer h =
      let (m', e, b) = set_banks-Banks (bank_of_bit (low + high * 256)) 0 9 m (omega arith) in
      (
        m',
        rw (h, e) refl,
        record {
          same_length = b.same_length ∙ len;
          channels = λ j lt. ground (
            arith,
            b.banks (j / 8),
            bank_of_bit_lem (low + high * 256) (j / 8) (j % 8) (omega arith) (omega arith),
          );
        },
      )

  all_answer : ctl ≡ 6 → Answer
  unfolding channel_mask_update updated channel_enabled get_index
  all_answer h =
      let (m', e, b) = set_banks-Banks (λ _. 0xff) 0 8 m (omega arith) in
      (
        m',
        rw (h, e) refl,
        record {
          same_length = b.same_length ∙ len;
          channels = λ j lt. ground (arith, b.banks (j / 8), full_bank (j % 8) (omega arith));
        },
      )

-- On a mask of nine bytes and a control value up to 6 other than 4, `channel_mask_update` of the
-- dynamic plans returns a mask of nine bytes. Values 0 to 3 replace one block of sixteen channels
-- by those of the request; value 5 turns channel `j` on exactly when bit `j / 8` of the request is
-- set and `j % 8` is at least `j / 8`; value 6 turns the first 64 channels on.
pub channel_mask_update-Updated :
    (m : ChannelMask) (ctl low high : ℕ)
    → length m ≡ 9
    → ctl ≤ 6
    → ctl ≢ 4
    → (m' : ChannelMask) × (channel_mask_update m ctl (low ∷ high ∷ []) ≡ ret (some m'))
      × Updated m m' ctl low high
channel_mask_update-Updated m ctl low high len le ne = elim (Bool-cases (leb ctl 3)) [
  | inl h ↦ block_answer m ctl low high len (ground arith)
  | inr h ↦ elim (Bool-cases (ctl == 5)) [
    | inl five ↦ spread_answer m ctl low high len (ground arith)
    | inr more ↦ all_answer m ctl low high len (ground arith)
  ]
]

panics_at_4 :
    (m : ChannelMask) (low high : ℕ)
    → length m ≡ 9
    → channel_mask_update m 4 (low ∷ high ∷ []) ≡ panic
unfolding channel_mask_update
panics_at_4 m low high len = rw (set_bank_pair_outside m low high len) refl

reserved :
    (m : ChannelMask) (ctl low high : ℕ)
    → 6 < ctl
    → channel_mask_update m ctl (low ∷ high ∷ []) ≡ ret none
unfolding channel_mask_update
reserved m ctl low high h = ground arith

-- On a mask of nine bytes, `channel_mask_update` of the dynamic plans panics exactly for the
-- control value 4, whose second bank is out of bounds.
pub dynamic_update_panics_iff :
    (m : ChannelMask) (ctl low high : ℕ)
    → length m ≡ 9
    → (channel_mask_update m ctl (low ∷ high ∷ []) ≡ panic) ↔ (ctl ≡ 4)
dynamic_update_panics_iff m ctl low high len = (
  λ e. elim (Bool-cases (ctl == 4)) [
    | inl y ↦ (==_iff ctl 4).0 y
    | inr n ↦ elim (Bool-cases (ltb 6 ctl)) [
      | inl big ↦ (let r = reserved m ctl low high (ground arith) in cc)
      | inr small ↦
          (let (m', r, u) =
              channel_mask_update-Updated m ctl low high len (ground arith) (ground arith) in
            cc)
    ]
  ],
  λ e. rw e (panics_at_4 m low high len),
)
