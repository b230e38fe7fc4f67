-- ===== src/Region/Dynamic/Plans.antt =====
-- The plans that the regions start from are well-formed, and a join accept and a DlChannelReq keep
-- them so.
use lora_rs.Common.{
  ℕ, zero, suc, ◌+◌, ◌-◌, ◌≤◌, ◌<◌, ◌≡◌, refl, ap, ◌∙◌, true, false, ◌&&◌, Option, none, some, List,
  [], ◌∷◌, ltb, leb, ◌==◌, if◌then◌else◌, is_some, length, get_or, set, length-set, get_or-set, ret,
  ◌⊎◌, inl, inr, arith, lt→ltb, Bool-cases,
}
use lora_rs.Encoding.Types.{dr0, dr5}
use lora_rs.Encoding.Frame.{CfList, dynamic_channel, fixed_channel, hz}
use lora_rs.Region.Dynamic.{
  Channel, ChannelPlan, DynamicChannelRegion, DynamicChannelPlan, new_channel, define_channels,
  process_join_accept,
}
use lora_rs.Region.Dynamic.Channels.{IsPlan, SameJoins}

-- The channel that a frequency of a CFList defines.
unfoldable pub accepted_channel : List ℕ → Option Channel
unfolding hz new_channel
accepted_channel freq = if hz freq == 0 then none else some (new_channel (hz freq) dr0 dr5)

-- The channels from `i` on are those of the list, and the others are as they were.
record Listed (i : ℕ) (freqs : List (List ℕ)) (channels channels' : ChannelPlan) : Type 0 where
  same_length : length channels' ≡ length channels
  entries :
      (j : ℕ)
      → get_or channels' j none ≡ (
          if leb i j && ltb j (i + length freqs)
          then accepted_channel (get_or freqs (j - i) [])
          else get_or channels j none)

get_or-cons :
    (x : List ℕ) (xs : List (List ℕ)) (k : ℕ)
    → get_or (x ∷ xs) k [] ≡ (if k == 0 then x else get_or xs (k - 1) [])
get_or-cons x xs zero = refl
get_or-cons x xs (suc k) = ground arith

define_channels_step :
    (r : DynamicChannelRegion) (i : ℕ) (freq : List ℕ) (freqs : List (List ℕ))
    (channels : ChannelPlan)
    → i < length channels
    → define_channels r i (freq ∷ freqs) channels
      ≡ define_channels r (suc i) freqs (set channels i (accepted_channel freq))
unfolding define_channels accepted_channel
define_channels_step r i freq freqs channels h = rw (lt→ltb i (length channels) h) refl

Listed-cons :
    (i : ℕ) (freq : List ℕ) (freqs : List (List ℕ)) (channels channels' : ChannelPlan)
    → i < length channels
    → Listed (suc i) freqs (set channels i (accepted_channel freq)) channels'
    → Listed i (freq ∷ freqs) channels channels'
Listed-cons i freq freqs channels channels' h l = record {
  same_length = l.same_length ∙ length-set channels i (accepted_channel freq);
  entries = λ j. entry j (Bool-cases (ltb i j));
}
  where
    entry :
        (j : ℕ)
        → (ltb i j ≡ true) ⊎ (ltb i j ≡ false)
        → get_or channels' j none ≡ (
            if leb i j && ltb j (i + suc (length freqs))
            then accepted_channel (get_or (freq ∷ freqs) (j - i) [])
            else get_or channels j none)
    entry j (inl above) =
        let shift : j - suc i ≡ j - i - 1 = omega arith in
        ground (
          arith,
          l.entries j,
          get_or-set channels i j (accepted_channel freq) none h,
          get_or-cons freq freqs (j - i),
          shift,
        )
    entry j (inr below) = ground (
      arith,
      l.entries j,
      get_or-set channels i j (accepted_channel freq) none h,
      get_or-cons freq freqs (j - i),
    )

define_channels-Listed :
    (r : DynamicChannelRegion) (i : ℕ) (freqs : List (List ℕ)) (channels : ChannelPlan)
    → i + length freqs ≤ length channels
    → (channels' : ChannelPlan) × (define_channels r i freqs channels ≡ ret channels')
      × Listed i freqs channels channels'
define_channels-Listed r i [] channels h = (
  channels,
  unfold define_channels in refl,
  record { same_length = refl; entries = λ j. ground arith },
)
define_channels-Listed r i (freq ∷ freqs) channels h =
    let c = accepted_channel freq in
    let (channels', e, l) =
      define_channels-Listed r (suc i) freqs (set channels i c)
        (omega (arith, length-set channels i c)) in
    (
      channels',
      define_channels_step r i freq freqs channels (omega arith) ∙ e,
      Listed-cons i freq freqs channels channels' (omega arith) l,
    )

-- The frequencies that a join accept adds to a dynamic plan.
abbrev pub added : Option CfList → List (List ℕ)
added (some (dynamic_channel freqs)) = freqs
added (some (fixed_channel mask)) = []
added none = []

pub record Joined (r : DynamicChannelRegion) (p : DynamicChannelPlan) (freqs : List (List ℕ))
    (q : DynamicChannelPlan) : Type 0 where
  pub plan : IsPlan r q
  pub joins : SameJoins r p q
  pub mask : q.channel_mask ≡ p.channel_mask
  pub entries :
      (j : ℕ)
      → get_or q.channels j none ≡ (
          if leb r.num_join_channels j && ltb j (r.num_join_channels + length freqs)
          then accepted_channel (get_or freqs (j - r.num_join_channels) [])
          else get_or p.channels j none)

module _ (r : DynamicChannelRegion) (p : DynamicChannelPlan) (w : IsPlan r p) where
  Listed-Joined :
      (freqs : List (List ℕ)) (channels : ChannelPlan)
      → Listed r.num_join_channels freqs p.channels channels
      → Joined r p freqs (record p { channels = channels })
  Listed-Joined freqs channels l = record {
    plan = record {
      size = l.same_length ∙ w.size;
      mask_size = w.mask_size;
      mask_bytes = w.mask_bytes;
      joins = λ j k. ap is_some (same j k) ∙ w.joins j k;
    };
    joins = same;
    mask = refl;
    entries = l.entries;
  }
    where
      same : (j : ℕ) → j < r.num_join_channels → get_or channels j none ≡ get_or p.channels j none
      same j k = ground (arith, l.entries j)

  unchanged : Joined r p [] p
  unchanged = record { plan = w; joins = λ j k. refl; mask = refl; entries = λ j. ground arith }

-- A join accept whose CFList has no more frequencies than there are channels past the join
-- channels is processed without a panic: those channels become the listed ones (undefined where
-- the frequency is zero), every other channel and the mask stay, and the plan stays well-formed.
pub process_join_accept-Joined :
    (r : DynamicChannelRegion) (p : DynamicChannelPlan) (list : Option CfList)
    → IsPlan r p
    → r.num_join_channels + length (added list) ≤ 16
    → (q : DynamicChannelPlan) × (process_join_accept r p list ≡ ret q) × Joined r p (added list) q
unfolding process_join_accept
process_join_accept-Joined r p none w h = (p, refl, unchanged r p w)
process_join_accept-Joined r p (some (fixed_channel mask)) w h = (p, refl, unchanged r p w)
process_join_accept-Joined r p (some (dynamic_channel freqs)) w h =
    let (channels, e, l) =
      define_channels-Listed r r.num_join_channels freqs p.channels (omega (arith, w.size)) in
    (record p { channels = channels }, rw e refl, Listed-Joined r p w freqs channels l)
