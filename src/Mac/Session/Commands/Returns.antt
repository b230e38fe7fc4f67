-- ===== src/Mac/Session/Commands/Returns.antt =====
-- What `handle_downlink_macs` calls returns: answers are queued within 15 bytes, and a mask is
-- validated without a panic.
use lora_rs.Common.{
  ℕ, zero, suc, ◌+◌, ◌≤◌, ◌<◌, ◌≡◌, refl, Bool, true, false, Option, none, some, ◌++◌, ltb, is_some,
  length, length-append, get_or, ret, inl, inr, arith, Bool-cases, Option-cases,
}
use lora_rs.External.{BoundedVec}
use lora_rs.Encoding.Types.{Dr, to_u8, ChannelMask, channel_enabled}
use lora_rs.Encoding.MacCommands.{Serializable}
use lora_rs.Encoding.MacCommands.RoundTrip.{command_bytes}
use lora_rs.Encoding.MacCommands.Creators.{Creator, serialize}
use lora_rs.Modulation.{Bandwidth, khz125, khz500}
use lora_rs.Region.Dynamic
use lora_rs.Region.Dynamic.{DynamicChannelPlan, ChannelPlan, any_defined}
use lora_rs.Region.Dynamic.Channels.{IsPlan}
use lora_rs.Region.Dynamic.Select.{index_within, enabled_within}
use lora_rs.Region.Fixed
use lora_rs.Region.Fixed.{FixedChannelPlan, has_enabled, validate_bandwidth}
use lora_rs.Region.Configuration.{
  State, FixedRegion, fixed_constants, constants, dynamic, fixed, dynamic_constants,
  channel_mask_validate,
}
use lora_rs.Region.Supported.{length-datarates}
use lora_rs.Mac.Uplink.{Uplink, add_mac_command}
use lora_rs.Mac.Uplink.Queue.{push_command_fits}
use lora_rs.Mac.Session.Commands.{Progress, queue_answer, queue_answers}

module _ (vec : BoundedVec) where
  pub add_mac_command-fits :
      (u : Uplink) (cmd : Serializable)
      → length u.pending ≤ 15
      → (u' : Uplink) × (add_mac_command vec u cmd ≡ ret u') × (length u'.pending ≤ 15)
  unfolding add_mac_command
  add_mac_command-fits u cmd h =
      elim (Bool-cases (ltb (length u.pending + length cmd.payload_bytes) 15)) [
        | inl room ↦ (
          record u { pending = u.pending ++ command_bytes cmd },
          rw (room, push_command_fits vec u.pending cmd (ground arith)) refl,
          ground (arith, length-append u.pending (command_bytes cmd)),
        )
        | inr full ↦ (u, rw full refl, h)
      ]

  -- Answers change the queue of the session and nothing else.
  pub queue_answers-fits :
      (n : ℕ) (cmd : Creator) (g : Progress)
      → length g.uplink.pending ≤ 15
      → (u : Uplink) × (queue_answers vec n cmd g ≡ ret (record g { uplink = u }))
        × (length u.pending ≤ 15)
  unfolding queue_answers queue_answer
  queue_answers-fits zero cmd g h = (g.uplink, refl, h)
  queue_answers-fits (suc n) cmd g h =
      let (u, e, k) = add_mac_command-fits g.uplink (serialize cmd) h in
      let (u', e', k') = queue_answers-fits n cmd (record g { uplink = u }) k in (u', rw e e', k')

-- A region whose plan is well-formed.
abbrev pub IsRegion : State → Type 0
IsRegion (dynamic r p) = IsPlan (dynamic_constants r) p
IsRegion (fixed r p) = length p.channel_mask ≡ 9

any_defined-returns :
    (channels : ChannelPlan) (mask : ChannelMask) (i n : ℕ)
    → length channels ≡ 16
    → length mask ≡ 9
    → i + n ≤ 16
    → (b : Bool) × (any_defined channels mask i n ≡ ret b)
unfolding any_defined
any_defined-returns channels mask i zero c m h = (false, refl)
any_defined-returns channels mask i (suc n) c m h =
    let (b, e) = any_defined-returns channels mask (suc i) n c m (omega arith) in
    elim (Bool-cases (channel_enabled mask i)) [
      | inl on ↦ elim (Bool-cases (is_some (get_or channels i none))) [
        | inl has ↦ (
          true,
          rw
              (
                enabled_within mask i (omega (arith, m)),
                on,
                index_within channels i none (omega (arith, c)),
                has,
              )
              refl,
        )
        | inr has ↦ (
          b,
          rw
              (
                enabled_within mask i (omega (arith, m)),
                on,
                index_within channels i none (omega (arith, c)),
                has,
              )
              e,
        )
      ]
      | inr off ↦ (b, rw (enabled_within mask i (omega (arith, m)), off) e)
    ]

has_enabled-returns :
    (mask : ChannelMask) (wanted i n : ℕ)
    → length mask ≡ 9
    → i + n ≤ 72
    → (b : Bool) × (has_enabled mask wanted i n ≡ ret b)
unfolding has_enabled
has_enabled-returns mask zero i n m h = (true, refl)
has_enabled-returns mask (suc wanted) i zero m h = (false, refl)
has_enabled-returns mask (suc wanted) i (suc n) m h = elim (Bool-cases (channel_enabled mask i)) [
  | inl on ↦
      (let (b, e) = has_enabled-returns mask wanted (suc i) n m (omega arith) in
        (b, rw (enabled_within mask i (omega (arith, m)), on) e))
  | inr off ↦
      (let (b, e) = has_enabled-returns mask (suc wanted) (suc i) n m (omega arith) in
        (b, rw (enabled_within mask i (omega (arith, m)), off) e))
]

validate_bandwidth-returns :
    (mask : ChannelMask) (bw : Bandwidth)
    → length mask ≡ 9
    → (b : Bool) × (validate_bandwidth mask bw ≡ ret b)
unfolding validate_bandwidth
validate_bandwidth-returns mask khz500 m = has_enabled-returns mask 1 64 8 m (omega arith)
validate_bandwidth-returns mask khz125 m = has_enabled-returns mask 2 0 64 m (omega arith)
validate_bandwidth-returns mask _ m = (true, refl)

-- A data rate that the region's table covers.
abbrev pub Within : Option Dr → Type 0
Within none = Unit {0}
Within (some d) = to_u8 d < 15

fixed_validate-returns :
    (r : FixedRegion) (p : FixedChannelPlan) (mask : ChannelMask) (d : Dr)
    → length mask ≡ 9
    → to_u8 d < 15
    → (b : Bool) × (Fixed.channel_mask_validate (fixed_constants r) mask (some d) ≡ ret b)
unfolding Fixed.channel_mask_validate constants
fixed_validate-returns r p mask d m h =
    let rates = (fixed_constants r).datarates in
    let lookup =
      index_within rates (to_u8 d) none (omega (arith, h, length-datarates (fixed r p))) in
    elim (Option-cases (get_or rates (to_u8 d) none)) [
      | inl e ↦ (false, rw (lookup, e) refl)
      | inr (rate, e) ↦
          (let (b, v) = validate_bandwidth-returns mask rate.bandwidth m in (b, rw (lookup, e) v))
    ]

pub channel_mask_validate-returns :
    (region : State) (mask : ChannelMask) (dr : Option Dr)
    → IsRegion region
    → length mask ≡ 9
    → Within dr
    → (b : Bool) × (channel_mask_validate region mask dr ≡ ret b)
unfolding channel_mask_validate Dynamic.channel_mask_validate Fixed.channel_mask_validate
channel_mask_validate-returns (dynamic r p) mask dr w m h =
    any_defined-returns p.channels mask 0 16 w.size m (omega arith)
channel_mask_validate-returns (fixed r p) mask none w m h = (false, refl)
channel_mask_validate-returns (fixed r p) mask (some d) w m h =
    fixed_validate-returns r p mask d m h
