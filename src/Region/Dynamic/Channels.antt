-- ===== src/Region/Dynamic/Channels.antt =====
-- The well-formedness of a dynamic channel plan, and that the operations which the network
-- triggers keep it.
use lora_rs.Common.{
  ℕ, ◌⊎◌, ◌↔◌, ==_iff, ◌≤◌, ◌<◌, ◌≡◌, refl, sym, ap, ◌∙◌, Bool, true, false, ◌&&◌, not, Option,
  none, some, ltb, leb, ◌==◌, if◌then◌else◌, is_some, length, get_or, set, length-set, get_or-set,
  All, ret, inl, inr, arith, lt→ltb, Bool-cases, Option-cases,
}
use lora_rs.Common.Bits.{IsByte}
use lora_rs.Encoding.Types.Mask.{set_channel_writes, Written}
use lora_rs.Region.Dynamic.{
  Channel, DynamicChannelRegion, DynamicChannelPlan, new_with_dr, handle_new_channel,
  define_channel,
}
use lora_rs.Region.Dynamic.Supported.{Supported, dr_supported-Supported}

-- Sixteen channels, a mask of nine bytes, and the join channels defined.
pub record IsPlan (r : DynamicChannelRegion) (p : DynamicChannelPlan) : Type 0 where
  pub size : length p.channels ≡ 16
  pub mask_size : length p.channel_mask ≡ 9
  pub mask_bytes : All IsByte p.channel_mask
  pub joins : (i : ℕ) → i < r.num_join_channels → is_some (get_or p.channels i none) ≡ true

-- The join channels of `q` are those of `p`.
abbrev pub SameJoins : DynamicChannelRegion → DynamicChannelPlan → DynamicChannelPlan → Type 0
SameJoins r p q =
    (i : ℕ) → i < r.num_join_channels → get_or q.channels i none ≡ get_or p.channels i none

-- What `define_channel` leaves: channel `i` redefined and enabled or disabled, and nothing else
-- changed.
pub record Defined (p : DynamicChannelPlan) (i : ℕ) (c : Option Channel) (v : Bool)
    (q : DynamicChannelPlan) : Type 0 where
  pub channels : q.channels ≡ set p.channels i c
  pub mask : Written p.channel_mask i v q.channel_mask

define_channel_defines :
    (r : DynamicChannelRegion) (p : DynamicChannelPlan) (i : ℕ) (c : Option Channel) (v : Bool)
    → IsPlan r p
    → i < 16
    → (q : DynamicChannelPlan) × (define_channel p i c v ≡ ret q) × Defined p i c v q
unfolding define_channel
define_channel_defines r p i c v w h =
    let (m, e, written) =
      set_channel_writes p.channel_mask i v w.mask_bytes (omega (arith, w.mask_size)) in
    (
      record p { channels = set p.channels i c; channel_mask = m },
      rw (lt→ltb i (length p.channels) (omega (arith, w.size)), e),
      record { channels = refl; mask = written },
    )

Defined-IsPlan :
    (r : DynamicChannelRegion) (p q : DynamicChannelPlan) (i : ℕ) (c : Option Channel) (v : Bool)
    → IsPlan r p
    → i < 16
    → r.num_join_channels ≤ i
    → Defined p i c v q
    → IsPlan r q × SameJoins r p q
Defined-IsPlan r p q i c v w h above d = (
  record {
    size = ap length d.channels ∙ length-set p.channels i c ∙ w.size;
    mask_size = d.mask.same_length ∙ w.mask_size;
    mask_bytes = d.mask.bytes;
    joins = λ j k. ap is_some (same j k) ∙ w.joins j k;
  },
  same,
)
  where
    same : SameJoins r p q
    same j k = ground (arith, d.channels, get_or-set p.channels i j c none (omega (arith, w.size)))

-- The requests that a NewChannelReq may make: a channel past the join channels, and either no
-- frequency, to remove it, or a valid frequency with supported data rates.
abbrev pub Acceptable : DynamicChannelRegion → DynamicChannelPlan → ℕ → ℕ → Option ℕ → Type 0
Acceptable r p i freq range =
    (r.num_join_channels ≤ i)
    × (i < 16)
    × ((freq ≡ 0)
        ⊎ ((p.frequency_valid freq ≡ true)
            × ((dr : ℕ) × (range ≡ some dr) × Supported r.datarates dr)))

-- The channel that the request defines.
pub requested : ℕ → Option ℕ → Option Channel
unfolding new_with_dr
requested freq none = none
requested freq (some range) = if freq == 0 then none else some (new_with_dr freq range)

-- The plan after a request with the given verdict: the one channel redefined, or no change.
abbrev pub Outcome : Bool → DynamicChannelPlan → ℕ → ℕ → Option ℕ → DynamicChannelPlan → Type 0
Outcome true p i freq range q = Defined p i (requested freq range) (not (freq == 0)) q
Outcome false p i freq range q = q ≡ p

pub record NewChannel (r : DynamicChannelRegion) (p : DynamicChannelPlan) (i freq : ℕ)
    (range : Option ℕ) (acks : Bool × Bool) (q : DynamicChannelPlan) : Type 0 where
  pub plan : IsPlan r q
  pub joins : SameJoins r p q
  pub granted : ((acks.0 && acks.1) ≡ true) ↔ Acceptable r p i freq range
  pub outcome : Outcome (acks.0 && acks.1) p i freq range q

module _ (r : DynamicChannelRegion) (p : DynamicChannelPlan) (w : IsPlan r p)
    (size : length r.datarates ≡ 15) (i freq : ℕ) (range : Option ℕ) where
  refused :
      (acks : Bool × Bool)
      → (acks.0 && acks.1) ≡ false
      → (Acceptable r p i freq range → 1 ≤ 0)
      → NewChannel r p i freq range acks p
  refused acks a not_acceptable = record {
    plan = w;
    joins = λ j k. refl;
    granted = (λ e. clash e a, λ f. absurd (omega (arith, not_acceptable f)));
    outcome = rw a refl;
  }
    where
      clash : {b : Bool} → b ≡ true → b ≡ false → Acceptable r p i freq range
      clash e f = cc

  accepted :
      (q : DynamicChannelPlan)
      → Acceptable r p i freq range
      → Defined p i (requested freq range) (not (freq == 0)) q
      → NewChannel r p i freq range (true, true) q
  accepted q a d =
      let (plan, joins) = Defined-IsPlan r p q i _ _ w a.1 a.0 d in
      record { plan = plan; joins = joins; granted = (λ e. a, λ f. refl); outcome = d }

  Answer : Type 0
  Answer =
      (acks : Bool × Bool) × (q : DynamicChannelPlan) × (handle_new_channel r p i freq range
        ≡ ret (acks, q))
      × NewChannel r p i freq range acks q

  module _ (lo : ltb i r.num_join_channels ≡ false) (hi : leb 16 i ≡ false) where
    removed_channel : (freq == 0) ≡ true → requested freq range ≡ none
    unfolding requested
    removed_channel z = elim range as (λ o. requested freq o ≡ none) [
      | none ↦ refl
      | some dr ↦ rw z
    ]

    answer_all :
        (c : Option Channel) (v : Bool)
        → Acceptable r p i freq range
        → requested freq range ≡ c
        → not (freq == 0) ≡ v
        → ((q : DynamicChannelPlan)
            → define_channel p i c v ≡ ret q
            → handle_new_channel r p i freq range ≡ ret ((true, true), q))
        → Answer
    unfolding Answer
    answer_all c v a ec ev run =
        let (q, e, d) = define_channel_defines r p i c v w a.1 in
        ((true, true), q, run q e, accepted q a (rw (ec, ev) d))

    removed : (freq == 0) ≡ true → Answer
    unfolding handle_new_channel
    removed z =
        answer_all none false (ground arith, ground arith, inl ((==_iff freq 0).0 z))
          (removed_channel z) (ground arith) λ q e. rw (lo, hi, z, e)

    no_range : (freq == 0) ≡ false → range ≡ none → Answer
    unfolding handle_new_channel Answer
    no_range z e = (
      (p.frequency_valid freq, false),
      p,
      rw (lo, hi, z, e),
      refused _ (ground arith) (λ a. impossible a.2),
    )
      where
        no_rates : {dr : ℕ} → ◌≡◌ {A = Option ℕ} none (some dr) → ⊥
        no_rates q = cc

        impossible :
            (freq ≡ 0)
              ⊎ ((p.frequency_valid freq ≡ true)
                  × ((dr : ℕ) × (range ≡ some dr) × Supported r.datarates dr))
            → 1 ≤ 0
        impossible (inl zero_freq) = absurd (ground (arith, zero_freq, z))
        impossible (inr (valid, (dr, some_range, s))) = absurd (no_rates (sym e ∙ some_range))

    with_range : (freq == 0) ≡ false → (dr : ℕ) → range ≡ some dr → Answer
    unfolding handle_new_channel requested Answer
    with_range z dr e =
        let (supported, tested, meaning) = dr_supported-Supported r.datarates dr size in
        elim (Bool-cases (p.frequency_valid freq && supported)) [
          | inl y ↦
              answer_all (some (new_with_dr freq dr)) true
                (
                  ground arith,
                  ground arith,
                  inr ((both_true _ _ y).0, (dr, e, meaning.0 ((both_true _ _ y).1))),
                )
                (rw (e, z)) (rw z) λ q d. rw (lo, hi, z, e, tested, y, d)
          | inr n ↦ (
            (p.frequency_valid freq, supported),
            p,
            rw (lo, hi, z, e, tested, n),
            refused _ n (λ a. impossible supported n meaning.1 a.2),
          )
        ]
      where
        both_true : (a b : Bool) → (a && b) ≡ true → (a ≡ true) × (b ≡ true)
        both_true a b h = (ground arith, ground arith)

        same_rates : {a b : ℕ} → ◌≡◌ {A = Option ℕ} (some a) (some b) → a ≡ b
        same_rates q = cc

        impossible :
            (supported : Bool)
            → (p.frequency_valid freq && supported) ≡ false
            → (Supported r.datarates dr → supported ≡ true)
            → (freq ≡ 0)
              ⊎ ((p.frequency_valid freq ≡ true)
                  × ((other : ℕ) × (range ≡ some other) × Supported r.datarates other))
            → 1 ≤ 0
        impossible supported n meant (inl zero_freq) = absurd (ground (arith, zero_freq, z))
        impossible supported n meant (inr (valid, (other, some_range, s))) =
            let same : other ≡ dr = same_rates (sym some_range ∙ e) in
            let agreed : supported ≡ true = meant (rw (← same) s) in
            absurd (ground (arith, n, valid, agreed))

  answer : Answer
  unfolding handle_new_channel Answer
  answer = elim (Bool-cases (ltb i r.num_join_channels)) [
    | inl low ↦
        ((false, false), p, rw low refl, refused _ refl (λ a. absurd (ground (arith, low, a.0))))
    | inr lo ↦ elim (Bool-cases (leb 16 i)) [
      | inl high ↦ (
        (false, false),
        p,
        rw (lo, high) refl,
        refused _ refl (λ a. absurd (ground (arith, high, a.1))),
      )
      | inr hi ↦ elim (Bool-cases (freq == 0)) [
        | inl z ↦ removed lo hi z
        | inr nz ↦ elim (Option-cases range) [
          | inl e ↦ no_range lo hi nz e
          | inr (dr, e) ↦ with_range lo hi nz dr e
        ]
      ]
    ]
  ]

-- In a region with a table of fifteen data rates, a NewChannelReq with any index, frequency and data
-- rates is answered without a panic on a well-formed plan. Both answers are positive exactly when the
-- channel is past the join channels and within the plan and the request either has no frequency, or a valid
-- one and data rates that are all in the table; then the channel is defined as requested and enabled (or
-- removed and disabled), and otherwise the plan is unchanged. The join channels keep their definition and
-- the plan stays well-formed.
pub handle_new_channel-NewChannel :
    (r : DynamicChannelRegion) (p : DynamicChannelPlan) (i freq : ℕ) (range : Option ℕ)
    → IsPlan r p
    → length r.datarates ≡ 15
    → (acks : Bool × Bool) × (q : DynamicChannelPlan) × (handle_new_channel r p i freq range
        ≡ ret (acks, q))
      × NewChannel r p i freq range acks q
unfolding Answer
handle_new_channel-NewChannel r p i freq range w size = answer r p w size i freq range
