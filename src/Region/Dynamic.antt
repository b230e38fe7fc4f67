-- ===== src/Region/Dynamic.antt =====
-- lorawan-device/src/region/dynamic_channel_plans/mod.rs: sixteen channels, of which the first few
-- are fixed for joining and the network defines the others.
pub mod Regions
pub mod Supported
pub mod Channels
pub mod Plans
pub mod Initial
pub mod Downlink
pub mod Banks
pub mod Masks
pub mod Select
pub mod Validate
mod Tests
use lora_rs.Common.{
  ℕ, zero, suc, ◌+◌, ◌-◌, ◌*◌, ◌/◌, ◌%◌, ◌^◌, Bool, true, false, ◌&&◌, Option, none, some, List, [],
  ◌∷◌, ltb, leb, ◌==◌, if◌then◌else◌, is_some, length, get_elem?, get_or, replicate, Exec, ret,
  panic, spins, unwrap, index, index_set, ◌>>=◌, Result, ok, err,
}
use lora_rs.External.{Rng, next_u32}
use lora_rs.Encoding.Types.{
  Dr, dr0, dr5, to_u8, new_range, max_data_rate, min_data_rate, ChannelMask, default_mask, set_bank,
  get_index, set_channel, enabled_unwrap, is_enabled, channel_enabled,
}
use lora_rs.Encoding.Frame.{CfList, dynamic_channel, fixed_channel, hz}
use lora_rs.Region.{
  ChannelRegion, Datarate, DatarateTable, num_datarates, num_channels_dynamic, TxChannel, Frame,
  join_frame, data_frame,
}

-- `_datarates` is the byte of the `DataRateRange`.
pub record Channel : Type 0 where
  pub frequency : ℕ
  pub datarates : ℕ
  pub dl_frequency : Option ℕ

unfoldable pub new_with_dr : ℕ → ℕ → Channel
new_with_dr f range = record { frequency = f; datarates = range; dl_frequency = none }

unfoldable pub new_channel : ℕ → Dr → Dr → Channel
unfolding new_with_dr new_range
new_channel f dr_min dr_max = new_with_dr f (new_range dr_min dr_max)

-- `dl_frequency.unwrap_or(frequency)`
unfoldable pub rx1_frequency : Channel → ℕ
rx1_frequency c = elim c.dl_frequency [ none ↦ c.frequency | some f ↦ f ]

-- `[Option<Channel>; NUM_CHANNELS_DYNAMIC as usize]`
abbrev pub ChannelPlan : Type 0
ChannelPlan = List (Option Channel)

-- The trait `DynamicChannelRegion`; `init_channels` lists the join channels from index 0 on.
pub record DynamicChannelRegion : Type 0 where
  pub base : ChannelRegion
  pub open base use *
  pub num_join_channels : ℕ
  pub init_channels : List Channel

pub record DynamicChannelPlan : Type 0 where
  pub channels : ChannelPlan
  pub channel_mask : ChannelMask
  pub frequency_valid : ℕ → Bool

-- The channels of `R::init_channels` written into `[None; n]`.
unfoldable pub init_plan : List Channel → ℕ → ChannelPlan
init_plan cs zero = []
init_plan [] (suc n) = none ∷ init_plan [] n
init_plan (c ∷ cs) (suc n) = some c ∷ init_plan cs n

unfoldable pub new : DynamicChannelRegion → (ℕ → Bool) → DynamicChannelPlan
unfolding init_plan
new r freq_fn = record {
  channels = init_plan r.init_channels num_channels_dynamic;
  channel_mask = default_mask 9;
  frequency_valid = freq_fn;
}

-- `channels.iter().rposition(|&x| x.is_some())`
unfoldable pub rposition_some : ChannelPlan → Option ℕ
rposition_some [] = none
rposition_some (c ∷ cs) = elim (rposition_some cs) [
  | some i ↦ some (suc i)
  | none ↦ if is_some c then some 0 else none
]

-- The mask for the random number, plus one: it is of the form 2 ^ k - 1.
unfoldable pub draw_range : ChannelPlan → Exec ℕ
unfolding rposition_some
draw_range channels = do
  last ← unwrap (rposition_some channels)
  ret (if ltb 16 (last + 1) then 32 else if ltb 8 (last + 1) then 16 else 8)

unfoldable pub get_random_in_range : ChannelPlan → Rng → Exec (ℕ × Rng)
unfolding draw_range
get_random_in_range channels rng = do
  range ← draw_range channels
  let (draw, rng') = next_u32 rng
  ret (draw % range, rng')

module _ (r : DynamicChannelRegion) where
  -- The loop over the five frequencies of a CFList of type 0, from channel `i` on.
  define_channels : ℕ → List (List ℕ) → ChannelPlan → Exec ChannelPlan
  unfolding new_channel hz
  define_channels i [] channels = ret channels
  define_channels i (freq ∷ freqs) channels = do
    channels' ←
        index_set channels i (if hz freq == 0 then none else some (new_channel (hz freq) dr0 dr5))
    define_channels (suc i) freqs channels'

  unfoldable pub process_join_accept : DynamicChannelPlan → Option CfList → Exec DynamicChannelPlan
  unfolding define_channels
  process_join_accept p (some (dynamic_channel freqs)) = do
    channels ← define_channels r.num_join_channels freqs p.channels
    ret (record p { channels = channels })
  process_join_accept p (some (fixed_channel mask)) = ret p
  process_join_accept p none = ret p

-- `((ch_mask & (1 << k)) * 0xFF) as u8` on a `u16`; the product is below 2 ^ 16.
unfoldable pub bank_of_bit : ℕ → ℕ → ℕ
bank_of_bit ch_mask k = ch_mask / 2 ^ k % 2 * 2 ^ k * 0xff % 256

-- `for i in i..i + n { channel_mask.set_bank(i, …) }`
unfoldable pub set_banks : (ℕ → ℕ) → ℕ → ℕ → ChannelMask → Exec ChannelMask
set_banks value i zero m = ret m
set_banks value i (suc n) m = do m' ← set_bank m i (value i); set_banks value (suc i) n m'

-- The arm `0..=4` of `channel_mask_update`, which both kinds of plan have.
unfoldable pub set_bank_pair : ChannelMask → ℕ → ChannelMask → Exec ChannelMask
unfolding set_bank get_index
set_bank_pair channel_mask ctl ch_mask = do
  low ← get_index ch_mask 0
  m ← set_bank channel_mask (ctl * 2) low
  high ← get_index ch_mask 1
  set_bank m (ctl * 2 + 1) high

-- The updated mask, or `none` for a control value that is reserved.
unfoldable pub channel_mask_update : ChannelMask → ℕ → ChannelMask → Exec (Option ChannelMask)
unfolding set_bank_pair set_banks bank_of_bit
channel_mask_update channel_mask ctl ch_mask =
    if leb ctl 4
    then (do m ← set_bank_pair channel_mask ctl ch_mask; ret (some m))
    else if ctl == 5
    then (do
      low ← get_index ch_mask 0
      high ← get_index ch_mask 1
      m ← set_banks (bank_of_bit (low + high * 256)) 0 9 channel_mask
      ret (some m))
    else if ctl == 6
    then (do m ← set_banks (λ _. 0xff) 0 8 channel_mask; ret (some m))
    else ret none

-- `(i..i + n).any(…)`: some enabled channel is defined.
unfoldable pub any_defined : ChannelPlan → ChannelMask → ℕ → ℕ → Exec Bool
unfolding enabled_unwrap
any_defined channels mask i zero = ret false
any_defined channels mask i (suc n) = do
  enabled ← enabled_unwrap mask i
  found ← elim enabled [ true ↦ index channels i >>= λ c. ret (is_some c) | false ↦ ret false ]
  elim found [ true ↦ ret true | false ↦ any_defined channels mask (suc i) n ]

unfoldable pub channel_mask_validate : DynamicChannelPlan → ChannelMask → Exec Bool
unfolding any_defined
channel_mask_validate p mask = any_defined p.channels mask 0 num_channels_dynamic

-- `channel_dl_update` on an enabled channel of the plan.
dl_update_at : DynamicChannelPlan → ℕ → ℕ → Option Channel → Exec (Bool × DynamicChannelPlan)
dl_update_at p i freq none = ret (false, p)
dl_update_at p i freq (some c) = if c.frequency == 0 then ret (false, p) else (do
  channels ←
      index_set p.channels i
        (some (record c { dl_frequency = if freq == c.frequency then none else some freq }))
  ret (true, record p { channels = channels }))

-- `is_enabled(i).is_ok() && is_enabled(i).unwrap()`
enabled_or_false : ChannelMask → ℕ → Bool
unfolding is_enabled
enabled_or_false mask i = elim (is_enabled mask i) [ ok b ↦ b | err e ↦ false ]

unfoldable pub channel_dl_update :
    DynamicChannelPlan → ℕ → ℕ → Exec ((Bool × Bool) × DynamicChannelPlan)
unfolding dl_update_at enabled_or_false
channel_dl_update p i freq =
    let freq_valid = p.frequency_valid freq in
    if leb num_channels_dynamic i
    then ret ((freq_valid, false), p)
    else if enabled_or_false p.channel_mask i
    then (do
      c ← index p.channels i
      (updated, p') ← dl_update_at p i freq c
      ret ((freq_valid, updated), p'))
    else ret ((freq_valid, false), p)

-- `(c..c + n).all(|c| R::datarates()[c as usize].is_some())`; `handle_new_channel` asks it below
-- the table's length only.
unfoldable pub all_supported : DatarateTable → ℕ → ℕ → Exec Bool
all_supported table c zero = ret true
all_supported table c (suc n) =
    let others = all_supported table (suc c) n in
    (do entry ← index table c; if is_some entry then others else ret false)

-- The support test of `handle_new_channel` on the byte of a `DataRateRange`.
unfoldable pub dr_supported : DatarateTable → ℕ → Exec Bool
unfolding all_supported max_data_rate min_data_rate
dr_supported table range =
    if ltb (max_data_rate range) num_datarates
    then all_supported table (min_data_rate range) (max_data_rate range + 1 - min_data_rate range)
    else ret false

define_channel : DynamicChannelPlan → ℕ → Option Channel → Bool → Exec DynamicChannelPlan
unfolding set_channel
define_channel p i c enabled = do
  channels ← index_set p.channels i c
  mask ← set_channel p.channel_mask i enabled
  ret (record p { channels = channels; channel_mask = mask })

unfoldable pub handle_new_channel :
    DynamicChannelRegion
    → DynamicChannelPlan
    → ℕ
    → ℕ
    → Option ℕ
    → Exec ((Bool × Bool) × DynamicChannelPlan)
unfolding define_channel dr_supported new_with_dr
handle_new_channel r p i freq range =
    if ltb i r.num_join_channels
    then ret ((false, false), p)
    else if leb num_channels_dynamic i
    then ret ((false, false), p)
    else if freq == 0
    then (do p' ← define_channel p i none false; ret ((true, true), p'))
    else elim range [
      | none ↦ ret ((p.frequency_valid freq, false), p)
      | some dr ↦ (do
        supported ← dr_supported r.datarates dr
        if p.frequency_valid freq && supported
            then (do
              p' ← define_channel p i (some (new_with_dr freq dr)) true
              ret ((true, true), p'))
            else ret ((p.frequency_valid freq, supported), p))
    ]

module _ (r : DynamicChannelRegion) where
  tx_channel : Dr → Channel → Exec TxChannel
  unfolding to_u8 rx1_frequency
  tx_channel dr c = do
    entry ← index r.datarates (to_u8 dr)
    rate ← unwrap entry
    ret (record {
      datarate = rate;
      dr = dr;
      frequency = c.frequency;
      rx1_frequency = rx1_frequency c;
    })

  -- The sampling loop for a join channel, in at most `fuel` draws.
  draw_join : ℕ → Rng → Exec (ℕ × Rng)
  draw_join zero rng = spins
  draw_join (suc fuel) rng =
      let (draw, rng') = next_u32 rng in
      let again = draw_join fuel rng' in
      if ltb (draw % 4) r.num_join_channels then ret (draw % 4, rng') else again

  -- The sampling loop for a data channel: an enabled channel that is defined.
  draw_data : ℕ → DynamicChannelPlan → Rng → Exec (Channel × Rng)
  unfolding get_random_in_range enabled_unwrap
  draw_data zero p rng = spins
  draw_data (suc fuel) p rng = do
    (i, rng') ← get_random_in_range p.channels rng
    enabled ← enabled_unwrap p.channel_mask i
    let again = draw_data fuel p rng'
    if enabled
        then (do c ← index p.channels i; elim c [ some ch ↦ ret (ch, rng') | none ↦ again ])
        else again

  unfoldable pub select_tx_channel :
      ℕ → DynamicChannelPlan → Dr → Frame → Rng → Exec (TxChannel × Rng)
  unfolding tx_channel draw_join draw_data
  select_tx_channel fuel p dr join_frame rng = do
    (i, rng') ← draw_join fuel rng
    entry ← index p.channels i
    c ← unwrap entry
    tx ← tx_channel dr c
    ret (tx, rng')
  select_tx_channel fuel p dr data_frame rng = do
    (c, rng') ← draw_data fuel p rng
    tx ← tx_channel dr c
    ret (tx, rng')
