-- ===== src/Mac/Uplink.antt =====
-- lorawan-device/src/mac/uplink/mod.rs: the MAC commands that wait to be sent, as the bytes that
-- the next uplink carries, and whether that uplink acknowledges a downlink.
pub mod Queue
mod Tests
use lora_rs.Common.{
  ℕ, ◌+◌, ◌<◌, Bool, true, false, List, [], ◌∷◌, ltb, if◌then◌else◌, length, filter, Exec, ret,
  panic, ◌>>=◌, Result, ok, err,
}
use lora_rs.External.{BoundedVec}
use lora_rs.Encoding.MacCommands.{
  Serializable, payload_len, UplinkMacCommand, dl_channel_ans, rx_param_setup_ans,
  rx_timing_setup_ans, serialize_uplink, parse_uplink, commands,
}

-- `FOPTS_MAX_LEN`
abbrev pub fopts_max_len : ℕ
fopts_max_len = 15

pub record Uplink : Type 0 where
  pub pending : List ℕ
  pub confirmed : Bool

-- `Uplink::default()`
abbrev pub empty_uplink : Uplink
empty_uplink = record { pending = []; confirmed = false }

abbrev pub set_downlink_confirmation : Uplink → Uplink
set_downlink_confirmation u = record u { confirmed = true }

abbrev pub clear_downlink_confirmation : Uplink → Uplink
clear_downlink_confirmation u = record u { confirmed = false }

-- The answers that are repeated until a downlink shows that they arrived.
unfoldable pub is_sticky : UplinkMacCommand → Bool
is_sticky (dl_channel_ans p) = true
is_sticky (rx_param_setup_ans p) = true
is_sticky rx_timing_setup_ans = true
is_sticky _ = false

module _ (vec : BoundedVec) where
  -- `let _ = v.push(b)`: a push that fails leaves the vector.
  push_or_drop : List ℕ → ℕ → List ℕ
  push_or_drop xs b = elim (vec.push ℕ fopts_max_len xs b) [ ok ys ↦ ys | err e ↦ xs ]

  -- `v.extend_from_slice(bytes).unwrap()`
  extend_unwrap : List ℕ → List ℕ → Exec (List ℕ)
  extend_unwrap xs bytes = elim (vec.extend_from_slice ℕ fopts_max_len xs bytes) [
    | ok ys ↦ ret ys
    | err e ↦ panic
  ]

  unfoldable pub push_command : List ℕ → Serializable → Exec (List ℕ)
  unfolding push_or_drop extend_unwrap
  push_command xs cmd = extend_unwrap (push_or_drop xs cmd.cid) cmd.payload_bytes

  unfoldable pub add_mac_command : Uplink → Serializable → Exec Uplink
  unfolding push_command
  add_mac_command u cmd =
      if ltb (length u.pending + payload_len cmd) fopts_max_len
      then (do pending ← push_command u.pending cmd; ret (record u { pending = pending }))
      else ret u

  -- The loop that `map` and `collect` make: each kept command is written to `kept`, and a unit is
  -- collected for it into a vector of 15, which panics when that is full.
  rewrite : List UplinkMacCommand → List ℕ → List (Unit {0}) → Exec (List ℕ)
  unfolding push_command
  rewrite [] kept units = ret kept
  rewrite (c ∷ cs) kept units = do
    kept' ← push_command kept (serialize_uplink c)
    units' ← elim (vec.push (Unit {0}) fopts_max_len units tt) [ ok ys ↦ ret ys | err e ↦ panic ]
    rewrite cs kept' units'

  unfoldable pub clear_mac_commands : Bool → Uplink → Exec Uplink
  unfolding rewrite
  clear_mac_commands true u = do
    kept ← rewrite (filter is_sticky (commands parse_uplink u.pending)) [] []
    ret (record u { pending = kept })
  clear_mac_commands false u = ret (record u { pending = [] })
