-- ===== src/Region/Dynamic/Select.antt =====
-- Channel selection in a dynamic channel plan: which channel it gives, and when the sampling loop
-- ends.
use lora_rs.Common.{
  ℕ, zero, suc, ◌+◌, ◌*◌, ◌%◌, ◌≤◌, ◌<◌, ◌≡◌, refl, ap, Bool, true, false, Option, none, some, List,
  [], ◌∷◌, ltb, leb, if◌then◌else◌, is_some, length, get_elem?, get_or, get_elem?-get_or, Exec, ret,
  spins, unwrap, index, ◌⊎◌, inl, inr, arith, Bool-cases, Option-cases,
}
use lora_rs.External.{Rng}
use lora_rs.Encoding.Types.{Dr, to_u8, ChannelMask, enabled_unwrap, is_enabled, channel_enabled}
use lora_rs.Region.{Datarate, data_frame}
use lora_rs.Region.Dynamic.{
  Channel, ChannelPlan, DynamicChannelRegion, DynamicChannelPlan, rx1_frequency, rposition_some,
  draw_range, get_random_in_range, draw_data, tx_channel, select_tx_channel,
}
use lora_rs.Region.Dynamic.Channels.{IsPlan}

pub index_within {ℓ} :
    {A : Type ℓ} (v : List A) (i : ℕ) (d : A) → i < length v → index v i ≡ ret (get_or v i d)
index_within v i d h = ap unwrap (get_elem?-get_or v i d h)

pub enabled_within :
    (m : ChannelMask) (i : ℕ) → i < length m * 8 → enabled_unwrap m i ≡ ret (channel_enabled m i)
unfolding enabled_unwrap is_enabled
enabled_within m i h = ground arith

-- The last defined channel: it is one, and there is none after it.
record Last (channels : ChannelPlan) (last : ℕ) : Type 0 where
  within : last < length channels
  above : (i : ℕ) → last < i → get_or channels i none ≡ none

abbrev Found : ChannelPlan → Option ℕ → Type 0
Found cs none = (i : ℕ) → get_or cs i none ≡ none
Found cs (some last) = Last cs last

Found-cons :
    (c : Option Channel) (cs : ChannelPlan) (o : Option ℕ)
    → Found cs o
    → Found (c ∷ cs) (elim o [ some i ↦ some (suc i) | none ↦ if is_some c then some 0 else none ])
Found-cons c cs (some last) f = record { within = omega (arith, f.within); above = above }
  where
    above : (i : ℕ) → suc last < i → get_or (c ∷ cs) i none ≡ none
    above zero h = absurd (omega arith)
    above (suc i) h = f.above i (omega arith)
Found-cons none cs none f = nowhere
  where
    nowhere : (i : ℕ) → get_or (none ∷ cs) i none ≡ none
    nowhere zero = refl
    nowhere (suc i) = f i
Found-cons (some c) cs none f = record { within = omega arith; above = above }
  where
    above : (i : ℕ) → 0 < i → get_or (some c ∷ cs) i none ≡ none
    above zero h = absurd (omega arith)
    above (suc i) h = f i

found : (cs : ChannelPlan) → Found cs (rposition_some cs)
unfolding rposition_some
found [] = λ i. refl
found (c ∷ cs) = Found-cons c cs (rposition_some cs) (found cs)

-- An enabled channel that is defined.
unfoldable pub usable : DynamicChannelPlan → ℕ → Option Channel
usable p i = if channel_enabled p.channel_mask i then get_or p.channels i none else none

-- The range that `draw_range` gives: 8 or 16, and past every defined channel.
record Range (p : DynamicChannelPlan) (range : ℕ) : Type 0 where
  drawn : draw_range p.channels ≡ ret range
  eight_or_sixteen : (range ≡ 8) ⊎ (range ≡ 16)
  above : (i : ℕ) → range ≤ i → get_or p.channels i none ≡ none

module _ (r : DynamicChannelRegion) (p : DynamicChannelPlan) (w : IsPlan r p)
    (some_join : 0 < r.num_join_channels) where
  Range-of :
      (o : Option ℕ)
      → rposition_some p.channels ≡ o
      → Found p.channels o
      → (range : ℕ) × Range p range
  unfolding draw_range
  Range-of none e f = (let absent = f 0 in let present = w.joins 0 some_join in absurd cc)
  Range-of (some last) e f = (
    (if ltb 8 (last + 1) then 16 else 8),
    record {
      drawn = rw (e) (ground (arith, f.within, w.size));
      eight_or_sixteen = elim (Bool-cases (ltb 8 (last + 1))) [
        | inl y ↦ inr (rw y refl)
        | inr n ↦ inl (rw n refl)
      ];
      above = λ i h. f.above i (ground (arith));
    },
  )

  Range-exists : (range : ℕ) × Range p range
  Range-exists = Range-of (rposition_some p.channels) refl (found p.channels)

  -- One turn of the loop.
  draw_data_step :
      (range fuel : ℕ) (rng : Rng)
      → Range p range
      → draw_data r (suc fuel) p rng ≡ elim (usable p (rng 0 % range)) [
        | some c ↦ ret (c, λ n. rng (suc n))
        | none ↦ draw_data r fuel p (λ n. rng (suc n))
      ]
  unfolding draw_data usable get_random_in_range
  draw_data_step range fuel rng g =
      rw
        (
          g.drawn,
          enabled_within p.channel_mask (rng 0 % range) (omega (arith, low, w.mask_size)),
          index_within p.channels (rng 0 % range) none (omega (arith, low, w.size)),
        )
        (by_cases (channel_enabled p.channel_mask (rng 0 % range))
          (get_or p.channels (rng 0 % range) none))
    where
      low : rng 0 % range < 16
      low = elim g.eight_or_sixteen [ inl e ↦ rw e (omega arith) | inr e ↦ rw e (omega arith) ]

      again : Exec (Channel × Rng)
      again = draw_data r fuel p (λ n. rng (suc n))

      by_cases :
          (enabled : Bool) (o : Option Channel)
          → (if enabled
              then (elim o [ some ch ↦ ret (ch, λ n. rng (suc n)) | none ↦ again ])
              else again)
            ≡ elim (if enabled then o else none) [
              | some c ↦ ret (c, λ n. rng (suc n))
              | none ↦ again
            ]
      by_cases true (some c) = refl
      by_cases true none = refl
      by_cases false o = refl

  -- A draw that hits a usable channel ends the loop, on that channel or an earlier one.
  draw_data_hits :
      (range fuel k : ℕ) (rng : Rng)
      → Range p range
      → k < fuel
      → is_some (usable p (rng k % range)) ≡ true
      → (i : ℕ) × (c : Channel) × (rng' : Rng) × (usable p i ≡ some c)
        × (draw_data r fuel p rng ≡ ret (c, rng'))
  draw_data_hits range zero k rng g lt hit = absurd (omega arith)
  draw_data_hits range (suc fuel) zero rng g lt hit =
      elim (Option-cases (usable p (rng 0 % range))) [
        | inr (c, e) ↦
            (rng 0 % range, c, (λ n. rng (suc n)), e, rw (draw_data_step range fuel rng g, e) refl)
        | inl e ↦ absurd cc
      ]
  draw_data_hits range (suc fuel) (suc k) rng g lt hit =
      elim (Option-cases (usable p (rng 0 % range))) [
        | inr (c, e) ↦
            (rng 0 % range, c, (λ n. rng (suc n)), e, rw (draw_data_step range fuel rng g, e) refl)
        | inl e ↦
            (let (i, c, rng', u, d) =
                draw_data_hits range fuel k (λ n. rng (suc n)) g (omega arith) hit in
              (i, c, rng', u, rw (draw_data_step range fuel rng g, e) d))
      ]

  draw_data_spins :
      (range fuel : ℕ) (rng : Rng)
      → Range p range
      → ((i : ℕ) → usable p i ≡ none)
      → draw_data r fuel p rng ≡ spins
  draw_data_spins range zero rng g off = unfold draw_data in refl
  draw_data_spins range (suc fuel) rng g off =
      rw (draw_data_step range fuel rng g, off (rng 0 % range)) (draw_data_spins range fuel _ g off)

  -- The range reaches every usable channel.
  usable_drawn :
      (range i x : ℕ) (c : Channel)
      → Range p range
      → usable p i ≡ some c
      → x % 16 ≡ i
      → x % range ≡ i
  unfolding usable
  usable_drawn range i x c g u e = elim g.eight_or_sixteen [
    | inl e8 ↦ elim (Bool-cases (leb 8 i)) [
      | inl out ↦ (let a = g.above i (ground arith) in absurd (ground (arith, a)))
      | inr within ↦ rw e8 (ground arith)
    ]
    | inr e16 ↦ rw e16 e
  ]

-- The rate of `dr` in the region's table.
abbrev pub HasRate : DynamicChannelRegion → Dr → Datarate → Type 0
HasRate r dr rate = get_elem? r.datarates (to_u8 dr) ≡ some (some rate)

tx_channel_of :
    (r : DynamicChannelRegion) (dr : Dr) (rate : Datarate) (c : Channel)
    → HasRate r dr rate
    → tx_channel r dr c
      ≡ ret (record {
        datarate = rate;
        dr = dr;
        frequency = c.frequency;
        rx1_frequency = rx1_frequency c;
      })
unfolding tx_channel
tx_channel_of r dr rate c h = rw h refl

-- For a data frame, on a well-formed plan with a join channel and a data rate of the region, if
-- the low four bits of one of the first `fuel` random numbers name a channel that is defined and
-- enabled, `select_tx_channel` returns within `fuel` draws; the frequency it gives is that of a
-- channel that is defined and enabled, the first receive window is on the channel's downlink
-- frequency, and the data rate is the one asked for.
pub select_tx_channel_data :
    (r : DynamicChannelRegion) (p : DynamicChannelPlan) (dr : Dr) (rate : Datarate) (fuel k : ℕ)
    (rng : Rng)
    → IsPlan r p
    → 0 < r.num_join_channels
    → HasRate r dr rate
    → k < fuel
    → is_some (usable p (rng k % 16)) ≡ true
    → (i : ℕ) × (c : Channel) × (rng' : Rng) × (usable p i ≡ some c)
      × (select_tx_channel r fuel p dr data_frame rng
          ≡ ret (
            record {
              datarate = rate;
              dr = dr;
              frequency = c.frequency;
              rx1_frequency = rx1_frequency c;
            },
            rng',
          ))
unfolding select_tx_channel
select_tx_channel_data r p dr rate fuel k rng w joins rated lt hit =
    elim (Option-cases (usable p (rng k % 16))) [
      | inl e ↦ absurd cc
      | inr (c, e) ↦
          (let (range, g) = Range-exists r p w joins in
            let drawn = usable_drawn r p w joins range (rng k % 16) (rng k) c g e refl in
            let (i, c', rng', u, d) =
              draw_data_hits r p w joins range fuel k rng g lt (rw drawn hit) in
            (i, c', rng', u, rw (d, tx_channel_of r dr rate c' rated) refl))
    ]

-- For a data frame, on a well-formed plan with a join channel, if no channel is both defined and
-- enabled, `select_tx_channel` does not return: no number of draws is enough, whatever the random
-- numbers are.
pub select_tx_channel_spins :
    (r : DynamicChannelRegion) (p : DynamicChannelPlan) (dr : Dr) (fuel : ℕ) (rng : Rng)
    → IsPlan r p
    → 0 < r.num_join_channels
    → ((i : ℕ) → usable p i ≡ none)
    → select_tx_channel r fuel p dr data_frame rng ≡ spins
unfolding select_tx_channel
select_tx_channel_spins r p dr fuel rng w joins off =
    let (range, g) = Range-exists r p w joins in
    rw (draw_data_spins r p w joins range fuel rng g off) refl
