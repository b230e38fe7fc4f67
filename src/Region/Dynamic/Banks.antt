-- ===== src/Region/Dynamic/Banks.antt =====
-- Writing the banks of a channel mask, eight channels each, as both kinds of plan do.
use lora_rs.Common.{
  ℕ, zero, suc, ◌+◌, ◌*◌, ◌/◌, ◌%◌, ◌≤◌, ◌<◌, ◌≡◌, refl, ap, ◌∙◌, true, false, ◌&&◌, not, [], ◌∷◌,
  ltb, leb, ◌==◌, if◌then◌else◌, length, get_or, set, length-set, get_or-set, ret, panic, arith,
  lt→ltb, le→ltb,
}
use lora_rs.Common.Bits.{test_bit, all_under, all_under_holds}
use lora_rs.Encoding.Types.{ChannelMask, set_bank, get_index, channel_enabled}
use lora_rs.Region.Dynamic.{set_bank_pair, set_banks}

pub set_bank_within : (m : ChannelMask) (i v : ℕ) → i < length m → set_bank m i v ≡ ret (set m i v)
unfolding set_bank
set_bank_within m i v h = rw (lt→ltb i (length m) h) refl

pub set_bank_outside : (m : ChannelMask) (i v : ℕ) → length m ≤ i → set_bank m i v ≡ panic
unfolding set_bank
set_bank_outside m i v h = rw (le→ltb i (length m) h) refl

-- The banks from `i` to `i + n` have the given values, the others are those of `m`.
pub record Banks (value : ℕ → ℕ) (i n : ℕ) (m m' : ChannelMask) : Type 0 where
  pub same_length : length m' ≡ length m
  pub banks : (k : ℕ) → get_or m' k 0 ≡ (if leb i k && ltb k (i + n) then value k else get_or m k 0)

pub set_banks-Banks :
    (value : ℕ → ℕ) (i n : ℕ) (m : ChannelMask)
    → i + n ≤ length m
    → (m' : ChannelMask) × (set_banks value i n m ≡ ret m') × Banks value i n m m'
unfolding set_banks
set_banks-Banks value i zero m h =
    (m, refl, record { same_length = refl; banks = λ k. ground arith })
set_banks-Banks value i (suc n) m h =
    let (m', e, b) =
      set_banks-Banks value (suc i) n (set m i (value i))
        (omega (arith, length-set m i (value i))) in
    (
      m',
      rw (set_bank_within m i (value i) (omega arith), e) refl,
      record {
        same_length = b.same_length ∙ length-set m i (value i);
        banks = λ k. ground (arith, b.banks k, get_or-set m i k (value i) 0 (omega arith));
      },
    )

two_banks : (low high i : ℕ) → i < 2 → get_or (low ∷ high ∷ []) i 0 ≡ (if i == 0 then low else high)
two_banks low high zero h = refl
two_banks low high (suc zero) h = refl
two_banks low high (suc (suc i)) h = absurd (omega arith)

-- The mask after the sixteen channels of block `ctl` took the values of `ch_mask`.
pub record Block (ctl : ℕ) (ch_mask m m' : ChannelMask) : Type 0 where
  pub same_length : length m' ≡ length m
  pub channels :
      (j : ℕ)
      → channel_enabled m' j
        ≡ (if j / 16 == ctl then channel_enabled ch_mask (j % 16) else channel_enabled m j)

pub set_bank_pair-Block :
    (m : ChannelMask) (ctl low high : ℕ)
    → ctl * 2 + 2 ≤ length m
    → (m' : ChannelMask) × (set_bank_pair m ctl (low ∷ high ∷ []) ≡ ret m')
      × Block ctl (low ∷ high ∷ []) m m'
unfolding set_bank_pair channel_enabled get_index
set_bank_pair-Block m ctl low high h = (
  set first (ctl * 2 + 1) high,
  rw
      (
        set_bank_within m (ctl * 2) low (omega arith),
        set_bank_within first (ctl * 2 + 1) high (omega (arith, len)),
      )
      refl,
  record {
    same_length = length-set first (ctl * 2 + 1) high ∙ len;
    channels = λ j. ap (λ b. test_bit b (j % 8)) (bank j) ∙ spread j;
  },
)
  where
    first : ChannelMask
    first = set m (ctl * 2) low

    len : length first ≡ length m
    len = length-set m (ctl * 2) low

    new_bank : ℕ → ℕ
    new_bank j =
        if j / 16 == ctl then get_or (low ∷ high ∷ []) (j % 16 / 8) 0 else get_or m (j / 8) 0

    bank : (j : ℕ) → get_or (set first (ctl * 2 + 1) high) (j / 8) 0 ≡ new_bank j
    bank j = ground (
      arith,
      get_or-set first (ctl * 2 + 1) (j / 8) high 0 (omega (arith, len)),
      get_or-set m (ctl * 2) (j / 8) low 0 (omega arith),
      two_banks low high (j % 16 / 8) (omega arith),
    )

    spread :
        (j : ℕ)
        → test_bit (new_bank j) (j % 8) ≡ (
            if j / 16 == ctl
            then channel_enabled (low ∷ high ∷ []) (j % 16)
            else channel_enabled m j)
    spread j = ground (arith)

pub set_bank_pair_outside :
    (m : ChannelMask) (low high : ℕ) → length m ≡ 9 → set_bank_pair m 4 (low ∷ high ∷ []) ≡ panic
unfolding set_bank_pair get_index
set_bank_pair_outside m low high h =
    rw
      (
        set_bank_within m 8 low (omega (arith, h)),
        set_bank_outside (set m 8 low) 9 high (omega (arith, h, length-set m 8 low)),
      )
      refl

pub full_bank : (i : ℕ) → i < 8 → test_bit 0xff i ≡ true
unfolding test_bit all_under
full_bank i h = all_under_holds 8 (test_bit 0xff) i refl h

pub empty_bank : (i : ℕ) → i < 8 → test_bit 0 i ≡ false
unfolding test_bit all_under
empty_bank i h = ground (arith, all_under_holds 8 (λ i. not (test_bit 0 i)) i refl h)
