-- ===== src/Region/Dynamic/Downlink.antt =====
-- What a DlChannelReq does to a dynamic channel plan: `channel_dl_update`.
use lora_rs.Common.{
  ℕ, ◌<◌, ◌≡◌, ◌⊎◌, refl, sym, ap, ◌∙◌, Bool, true, false, ◌&&◌, not, Option, none, some, ltb, leb,
  ◌==◌, if◌then◌else◌, is_some, length, get_or, set, length-set, get_or-set, ret, inl, inr, arith,
  lt→ltb, ==_iff, Bool-cases, Option-cases,
}
use lora_rs.Encoding.Types.{is_enabled, channel_enabled}
use lora_rs.Region.Dynamic.{
  Channel, DynamicChannelRegion, DynamicChannelPlan, rx1_frequency, channel_dl_update, dl_update_at,
  enabled_or_false,
}
use lora_rs.Region.Dynamic.Channels.{IsPlan}
use lora_rs.Region.Dynamic.Select.{usable, index_within}

-- A channel that is defined, enabled and has an uplink frequency.
abbrev pub live : Option Channel → Bool
live none = false
live (some c) = not (c.frequency == 0)

-- The uplink half of a channel: all but its downlink frequency.
abbrev pub uplink_half : Option Channel → Option (ℕ × ℕ)
uplink_half none = none
uplink_half (some c) = some (c.frequency, c.datarates)

-- A channel with `freq` as its downlink frequency.
unfoldable pub moved : ℕ → Channel → Channel
moved freq c = record c { dl_frequency = if freq == c.frequency then none else some freq }

-- The first receive window of a channel.
abbrev pub rx1_of : Option Channel → Option ℕ
rx1_of none = none
rx1_of (some c) = some (rx1_frequency c)

pub record Downlinked (r : DynamicChannelRegion) (p : DynamicChannelPlan) (i freq : ℕ)
    (acks : Bool × Bool) (q : DynamicChannelPlan) : Type 0 where
  pub plan : IsPlan r q
  pub valid : acks.0 ≡ p.frequency_valid freq
  pub granted : acks.1 ≡ (ltb i 16 && live (usable p i))
  pub mask : q.channel_mask ≡ p.channel_mask
  pub uplinks :
      (j : ℕ) → uplink_half (get_or q.channels j none) ≡ uplink_half (get_or p.channels j none)
  pub windows :
      (j : ℕ)
      → rx1_of (get_or q.channels j none)
        ≡ (if acks.1 && i == j then some freq else rx1_of (get_or p.channels j none))

le→leb : (a b : ℕ) → b < a → leb a b ≡ false
le→leb a b h = ground arith

module _ (r : DynamicChannelRegion) (p : DynamicChannelPlan) (w : IsPlan r p) (i freq : ℕ) where
  Answer : Type 0
  Answer =
      (acks : Bool × Bool) × (q : DynamicChannelPlan) × (channel_dl_update p i freq ≡ ret (acks, q))
      × Downlinked r p i freq acks q

  refused :
      (ltb i 16 && live (usable p i)) ≡ false
      → Downlinked r p i freq (p.frequency_valid freq, false) p
  refused e = record {
    plan = w;
    valid = refl;
    granted = sym e;
    mask = refl;
    uplinks = λ j. refl;
    windows = λ j. refl;
  }

  enabled_or_false_within :
      i < 16 → enabled_or_false p.channel_mask i ≡ channel_enabled p.channel_mask i
  unfolding enabled_or_false is_enabled
  enabled_or_false_within h = ground (arith, w.mask_size)

  module _ (c : Channel) (h : i < 16) (e : get_or p.channels i none ≡ some c) where
    rx1_frequency-moved : rx1_frequency (moved freq c) ≡ freq
    unfolding rx1_frequency moved
    rx1_frequency-moved = ground arith

    at :
        (j : ℕ)
        → get_or (set p.channels i (some (moved freq c))) j none
          ≡ (if i == j then some (moved freq c) else get_or p.channels j none)
    at j = get_or-set p.channels i j (some (moved freq c)) none (omega (arith, w.size))

    still_some :
        (j : ℕ)
        → j < r.num_join_channels
        → ((i == j) ≡ true) ⊎ ((i == j) ≡ false)
        → is_some (if i == j then some (moved freq c) else get_or p.channels j none) ≡ true
    still_some j k (inl y) = rw y refl
    still_some j k (inr n) = rw n (w.joins j k)

    same_uplink :
        (j : ℕ)
        → ((i == j) ≡ true) ⊎ ((i == j) ≡ false)
        → uplink_half (if i == j then some (moved freq c) else get_or p.channels j none)
          ≡ uplink_half (get_or p.channels j none)
    unfolding moved
    same_uplink j (inl y) = rw (y, ← (==_iff i j).0 y, e) refl
    same_uplink j (inr n) = rw n refl

    window_at :
        (j : ℕ)
        → ((i == j) ≡ true) ⊎ ((i == j) ≡ false)
        → rx1_of (if i == j then some (moved freq c) else get_or p.channels j none)
          ≡ (if i == j then some freq else rx1_of (get_or p.channels j none))
    window_at j (inl y) = rw y (ap some rx1_frequency-moved)
    window_at j (inr n) = rw n refl

    granted_plan :
        (ltb i 16 && live (usable p i)) ≡ true
        → Downlinked r p i freq
            (p.frequency_valid freq, true)
            (record p { channels = set p.channels i (some (moved freq c)) })
    granted_plan g = record {
      plan = record {
        size = length-set p.channels i (some (moved freq c)) ∙ w.size;
        mask_size = w.mask_size;
        mask_bytes = w.mask_bytes;
        joins = λ j k. ap is_some (at j) ∙ still_some j k (Bool-cases (i == j));
      };
      valid = refl;
      granted = sym g;
      mask = refl;
      uplinks = λ j. ap uplink_half (at j) ∙ same_uplink j (Bool-cases (i == j));
      windows = λ j. ap rx1_of (at j) ∙ window_at j (Bool-cases (i == j));
    }

    defined_answer : channel_enabled p.channel_mask i ≡ true → Answer
    unfolding channel_dl_update dl_update_at usable moved Answer
    defined_answer on = elim (Bool-cases (c.frequency == 0)) [
      | inl z ↦ (
        (p.frequency_valid freq, false),
        p,
        rw
            (
              le→leb 16 i h,
              enabled_or_false_within h,
              on,
              index_within p.channels i none (omega (arith, w.size)),
              e,
              z,
            )
            refl,
        refused (rw (on, e, z) (ground arith)),
      )
      | inr nz ↦ (
        (p.frequency_valid freq, true),
        record p { channels = set p.channels i (some (moved freq c)) },
        rw
            (
              le→leb 16 i h,
              enabled_or_false_within h,
              on,
              index_within p.channels i none (omega (arith, w.size)),
              e,
              nz,
              lt→ltb i (length p.channels) (omega (arith, w.size)),
            )
            refl,
        granted_plan (rw (on, e, nz, lt→ltb i 16 h) refl),
      )
    ]

  answer : Answer
  unfolding channel_dl_update dl_update_at usable Answer
  answer = elim (Bool-cases (leb 16 i)) [
    | inl out ↦ ((p.frequency_valid freq, false), p, rw out refl, refused (ground arith))
    | inr within ↦ elim (Bool-cases (channel_enabled p.channel_mask i)) [
      | inl on ↦ elim (Option-cases (get_or p.channels i none)) [
        | inl e ↦ (
          (p.frequency_valid freq, false),
          p,
          rw
              (
                within,
                enabled_or_false_within (ground arith),
                on,
                index_within p.channels i none (ground (arith, w.size)),
                e,
              )
              refl,
          refused (rw (on, e) (ground arith)),
        )
        | inr (c, e) ↦ defined_answer c (ground arith) e on
      ]
      | inr off ↦ (
        (p.frequency_valid freq, false),
        p,
        rw (within, enabled_or_false_within (ground arith), off) refl,
        refused (rw off (ground arith)),
      )
    ]
  ]

-- A DlChannelReq with any index and frequency is processed without a panic on a well-formed plan.
-- Its second answer is positive exactly when the channel is one of the sixteen, enabled, defined
-- and not at frequency zero. Then that channel, and no other, listens on the requested frequency
-- in the first receive window, and otherwise no window moves; no uplink frequency, no data rates
-- and no mask change, the first answer says whether the frequency is valid, and the plan stays
-- well-formed.
pub channel_dl_update-Downlinked :
    (r : DynamicChannelRegion) (p : DynamicChannelPlan) (i freq : ℕ)
    → IsPlan r p
    → (acks : Bool × Bool) × (q : DynamicChannelPlan) × (channel_dl_update p i freq ≡ ret (acks, q))
      × Downlinked r p i freq acks q
unfolding Answer
channel_dl_update-Downlinked r p i freq w = answer r p w i freq
