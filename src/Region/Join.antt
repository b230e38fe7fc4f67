-- ===== src/Region/Join.antt =====
-- lorawan-device/src/region/fixed_channel_plans/join_channels.rs: which channel a join request
-- goes out on in a fixed channel plan. `usize` counters do not wrap here.
use lora_rs.Common.{
  ℕ, zero, suc, ◌+◌, ◌-◌, ◌*◌, ◌/◌, ◌%◌, Bool, true, false, ◌&&◌, not, Option, none, some, [], ◌∷◌,
  ltb, ◌==◌, if◌then◌else◌, is_some, Exec, ret, spins, ◌>>=◌,
}
use lora_rs.External.{Rng, next_u32}
use lora_rs.Encoding.Types.{ChannelMask, default_mask, set_channel, enabled_unwrap}

-- `Subband::_1` to `Subband::_8`.
pub data Subband : Type 0 where
  subband1 subband2 subband3 subband4 subband5 subband6 subband7 subband8 : Subband

-- `value as usize`
unfoldable pub subband_number : Subband → ℕ
subband_number subband1 = 1
subband_number subband2 = 2
subband_number subband3 = 3
subband_number subband4 = 4
subband_number subband5 = 5
subband_number subband6 = 6
subband_number subband7 = 7
subband_number subband8 = 8

-- The field `data` is `channels` here.
pub record AvailableChannels : Type 0 where
  pub channels : ChannelMask
  pub previous : Option ℕ

-- `AvailableChannels::default()`, which is also what its `reset` leaves.
abbrev pub all_available : AvailableChannels
all_available = record { channels = default_mask 9; previous = none }

pub record JoinChannels : Type 0 where
  pub max_retries : ℕ
  pub num_retries : ℕ
  pub preferred_subband : Option Subband
  pub available_channels : AvailableChannels
  pub previous_channel : ℕ

-- `JoinChannels::default()`
abbrev pub default_join_channels : JoinChannels
default_join_channels = record {
  max_retries = 0;
  num_retries = 0;
  preferred_subband = none;
  available_channels = all_available;
  previous_channel = 0;
}

-- Every byte is zero.
unfoldable pub is_exhausted : ChannelMask → Bool
is_exhausted [] = true
is_exhausted (b ∷ m) = b == 0 && is_exhausted m

-- The `loop` of `get_next_channel_inner`: three bits of entropy at a time, a new number after ten
-- uses of the old one.
pick_on_bank : ℕ → ChannelMask → ℕ → ℕ → ℕ → Rng → Exec (ℕ × Rng)
unfolding enabled_unwrap
pick_on_bank zero m bank entropy entropy_used rng = spins
pick_on_bank (suc fuel) m bank entropy entropy_used rng = do
  let channel = entropy % 8 + bank * 8
  enabled ← enabled_unwrap m channel
  let (fresh, rng') = next_u32 rng
  let reuse = pick_on_bank fuel m bank (entropy / 8) (entropy_used + 1) rng
  let renew = pick_on_bank fuel m bank (fresh / 8) 1 rng'
  if enabled then ret (channel, rng) else if entropy_used == 10 then renew else reuse

get_next_channel_inner : ℕ → AvailableChannels → Rng → Exec (ℕ × Rng)
unfolding pick_on_bank enabled_unwrap
get_next_channel_inner fuel a rng = elim a.previous [
  | none ↦ (let (draw, rng') = next_u32 rng in ret (draw % 64, rng'))
  | some previous ↦ (do
    let next = (previous + 8) % 72
    enabled ← enabled_unwrap a.channels next
    let (entropy, rng') = next_u32 rng
    if enabled then ret (next, rng) else pick_on_bank fuel a.channels (next / 8) entropy 1 rng')
]

unfoldable pub get_next : ℕ → AvailableChannels → Rng → Exec (ℕ × AvailableChannels × Rng)
unfolding is_exhausted get_next_channel_inner set_channel
get_next fuel a rng = do
  let open_channels : AvailableChannels = if is_exhausted a.channels then all_available else a
  (channel, rng') ← get_next_channel_inner fuel open_channels rng
  m ← set_channel open_channels.channels channel false
  ret (channel, record { channels = m; previous = some channel }, rng')

unfoldable pub has_bias_and_not_exhausted : JoinChannels → Bool
has_bias_and_not_exhausted j =
    is_some j.preferred_subband && ltb j.num_retries j.max_retries && not (j.num_retries == 0)

unfoldable pub set_join_bias : JoinChannels → Subband → ℕ → JoinChannels
set_join_bias j sb max_retries = record j { preferred_subband = some sb; max_retries = max_retries }

unfoldable pub clear_join_bias : JoinChannels → JoinChannels
clear_join_bias j = record j { preferred_subband = none; max_retries = 0 }

unfoldable pub reset : JoinChannels → JoinChannels
reset j = record j { num_retries = 0; available_channels = all_available }

-- A random channel on the subband of the last join request, once.
unfoldable pub first_data_channel : JoinChannels → Rng → Option (ℕ × Rng) × JoinChannels
unfolding clear_join_bias
first_data_channel j rng =
    if is_some j.preferred_subband && not (j.num_retries == 0)
    then (let sb =
          if ltb j.previous_channel 64 then j.previous_channel / 8 else j.previous_channel % 8 in
        let (draw, rng') = next_u32 rng in (some (draw % 8 + sb * 8, rng'), clear_join_bias j))
    else (none, j)

-- The arm `(Some(sb), Ordering::Less)` of `get_next_channel`.
biased_channel : JoinChannels → Subband → Rng → Exec (ℕ × JoinChannels × Rng)
unfolding subband_number set_channel
biased_channel j sb rng =
    let (draw, rng') = next_u32 rng in
    let channel = draw % 8 + (subband_number sb - 1) * 8 in
    let tried = record j { num_retries = j.num_retries + 1; previous_channel = channel } in
    if j.num_retries + 1 == j.max_retries
    then (do
      m ← set_channel j.available_channels.channels channel false
      ret (
        channel,
        record tried { available_channels = record { channels = m; previous = some channel } },
        rng',
      ))
    else ret (channel, tried, rng')

-- The other arm.
unbiased_channel : ℕ → JoinChannels → Rng → Exec (ℕ × JoinChannels × Rng)
unfolding get_next
unbiased_channel fuel j rng = do
  (channel, a, rng') ← get_next fuel j.available_channels rng
  ret (channel, record j { num_retries = j.num_retries + 1; available_channels = a }, rng')

unfoldable pub get_next_channel : ℕ → JoinChannels → Rng → Exec (ℕ × JoinChannels × Rng)
unfolding biased_channel unbiased_channel
get_next_channel fuel j rng = elim j.preferred_subband [
  | none ↦ unbiased_channel fuel j rng
  | some sb ↦
      if ltb j.num_retries j.max_retries
      then biased_channel j sb rng
      else unbiased_channel fuel j rng
]
