-- ===== src/Encoding/MacCommands.antt =====
-- lorawan-encoding/src/maccommands.rs with the code that the derive macro CommandHandler of
-- lorawan-macros/src/lib.rs generates from the `#[cmd(cid, len)]` attributes: a MAC command is an
-- identifier byte and a payload whose length the identifier fixes. A payload is the list of its
-- bytes, and a command whose payload is empty has no argument.
pub mod Payloads
pub mod Creators
pub mod Stream
pub mod RoundTrip
mod Tests
use lora_rs.Common.{
  ℕ, zero, suc, ◌+◌, ◌≤◌, ◌<◌, ◌≡◌, Bool, true, false, Option, none, some, List, [], ◌∷◌, ◌++◌, ltb,
  if◌then◌else◌, ◌==◌, length, take, drop, Result, ok, err,
}

pub data ParseError : Type 0 where
  unknown_cid truncated : ℕ → ParseError

pub data DownlinkMacCommand : Type 0 where
  link_check_ans link_adr_req duty_cycle_req rx_param_setup_req : List ℕ → DownlinkMacCommand
  dev_status_req : DownlinkMacCommand
  new_channel_req rx_timing_setup_req tx_param_setup_req : List ℕ → DownlinkMacCommand
  dl_channel_req device_time_ans : List ℕ → DownlinkMacCommand

pub data UplinkMacCommand : Type 0 where
  link_check_req : UplinkMacCommand
  link_adr_ans : List ℕ → UplinkMacCommand
  duty_cycle_ans : UplinkMacCommand
  rx_param_setup_ans dev_status_ans new_channel_ans : List ℕ → UplinkMacCommand
  rx_timing_setup_ans tx_param_setup_ans : UplinkMacCommand
  dl_channel_ans : List ℕ → UplinkMacCommand
  device_time_req : UplinkMacCommand

-- One arm of the generated `parse_one`: the payload is the next `len` bytes.
unfoldable pub parse_arm {ℓ} :
    {C : Type ℓ} → ℕ → ℕ → (List ℕ → C) → List ℕ → Result (C × ℕ) ParseError
parse_arm cid len wrap rest =
    if ltb (length rest) len then err (truncated cid) else ok (wrap (take len rest), suc len)

-- `parse_one(data)` on data that begins with `cid`; the result has the bytes consumed.
unfoldable pub parse_downlink : ℕ → List ℕ → Result (DownlinkMacCommand × ℕ) ParseError
unfolding parse_arm
parse_downlink cid rest =
    if cid == 0x02
    then parse_arm cid 2 link_check_ans rest
    else if cid == 0x03
    then parse_arm cid 4 link_adr_req rest
    else if cid == 0x04
    then parse_arm cid 1 duty_cycle_req rest
    else if cid == 0x05
    then parse_arm cid 4 rx_param_setup_req rest
    else if cid == 0x06
    then parse_arm cid 0 (λ _. dev_status_req) rest
    else if cid == 0x07
    then parse_arm cid 5 new_channel_req rest
    else if cid == 0x08
    then parse_arm cid 1 rx_timing_setup_req rest
    else if cid == 0x09
    then parse_arm cid 1 tx_param_setup_req rest
    else if cid == 0x0a
    then parse_arm cid 4 dl_channel_req rest
    else if cid == 0x0d
    then parse_arm cid 5 device_time_ans rest
    else err (unknown_cid cid)

unfoldable pub parse_uplink : ℕ → List ℕ → Result (UplinkMacCommand × ℕ) ParseError
unfolding parse_arm
parse_uplink cid rest =
    if cid == 0x02
    then parse_arm cid 0 (λ _. link_check_req) rest
    else if cid == 0x03
    then parse_arm cid 1 link_adr_ans rest
    else if cid == 0x04
    then parse_arm cid 0 (λ _. duty_cycle_ans) rest
    else if cid == 0x05
    then parse_arm cid 1 rx_param_setup_ans rest
    else if cid == 0x06
    then parse_arm cid 2 dev_status_ans rest
    else if cid == 0x07
    then parse_arm cid 1 new_channel_ans rest
    else if cid == 0x08
    then parse_arm cid 0 (λ _. rx_timing_setup_ans) rest
    else if cid == 0x09
    then parse_arm cid 0 (λ _. tx_param_setup_ans) rest
    else if cid == 0x0a
    then parse_arm cid 1 dl_channel_ans rest
    else if cid == 0x0d
    then parse_arm cid 0 (λ _. device_time_req) rest
    else err (unknown_cid cid)

-- `SerializableMacCommand`: what a command or a creator gives to the uplink queue.
pub record Serializable : Type 0 where
  pub cid : ℕ
  pub payload_bytes : List ℕ

-- `payload_len`, which for every implementation is the length of `payload_bytes`.
abbrev pub payload_len : Serializable → ℕ
payload_len c = length c.payload_bytes

unfoldable pub serialize_uplink : UplinkMacCommand → Serializable
serialize_uplink link_check_req = record { cid = 0x02; payload_bytes = [] }
serialize_uplink (link_adr_ans p) = record { cid = 0x03; payload_bytes = p }
serialize_uplink duty_cycle_ans = record { cid = 0x04; payload_bytes = [] }
serialize_uplink (rx_param_setup_ans p) = record { cid = 0x05; payload_bytes = p }
serialize_uplink (dev_status_ans p) = record { cid = 0x06; payload_bytes = p }
serialize_uplink (new_channel_ans p) = record { cid = 0x07; payload_bytes = p }
serialize_uplink rx_timing_setup_ans = record { cid = 0x08; payload_bytes = [] }
serialize_uplink tx_param_setup_ans = record { cid = 0x09; payload_bytes = [] }
serialize_uplink (dl_channel_ans p) = record { cid = 0x0a; payload_bytes = p }
serialize_uplink device_time_req = record { cid = 0x0d; payload_bytes = [] }

unfoldable pub serialize_downlink : DownlinkMacCommand → Serializable
serialize_downlink (link_check_ans p) = record { cid = 0x02; payload_bytes = p }
serialize_downlink (link_adr_req p) = record { cid = 0x03; payload_bytes = p }
serialize_downlink (duty_cycle_req p) = record { cid = 0x04; payload_bytes = p }
serialize_downlink (rx_param_setup_req p) = record { cid = 0x05; payload_bytes = p }
serialize_downlink dev_status_req = record { cid = 0x06; payload_bytes = [] }
serialize_downlink (new_channel_req p) = record { cid = 0x07; payload_bytes = p }
serialize_downlink (rx_timing_setup_req p) = record { cid = 0x08; payload_bytes = p }
serialize_downlink (tx_param_setup_req p) = record { cid = 0x09; payload_bytes = p }
serialize_downlink (dl_channel_req p) = record { cid = 0x0a; payload_bytes = p }
serialize_downlink (device_time_ans p) = record { cid = 0x0d; payload_bytes = p }

-- `mac_commands_len`.
unfoldable pub mac_commands_len : List Serializable → ℕ
mac_commands_len [] = 0
mac_commands_len (c ∷ cs) = payload_len c + 1 + mac_commands_len cs

-- The iterator `MacCommands<T>` over a command set with its `parse_one`.
pub record MacCommands : Type 0 where
  pub stream : List ℕ
  pub errored : Bool

unfoldable pub new : List ℕ → MacCommands
new bytes = record { stream = bytes; errored = false }

unfoldable pub prepend : {C : Type 0} → C → Option (List C) → Option (List C)
prepend c none = none
prepend c (some cs) = some (c ∷ cs)

unfoldable pub collected : {C : Type 0} → Option (List C) → List C
collected none = []
collected (some cs) = cs

module _ {C : Type 0} (parse_one : ℕ → List ℕ → Result (C × ℕ) ParseError) where
  step_on : MacCommands → ℕ → List ℕ → Option (Result C ParseError) × MacCommands
  step_on it cid rest = elim (parse_one cid rest) [
    | ok (cmd, consumed) ↦ (some (ok cmd), record it { stream = drop consumed (cid ∷ rest) })
    | err e ↦ (some (err e), record it { errored = true })
  ]

  unfoldable pub next : MacCommands → Option (Result C ParseError) × MacCommands
  unfolding step_on
  next it =
      if it.errored
      then (none, it)
      else elim it.stream [ [] ↦ (none, it) | cid ∷ rest ↦ step_on it cid rest ]

  -- `iter.filter_map(Result::ok)`, drained, in at most `fuel` calls of `next`: `none` where the
  -- iterator has not ended by then.
  unfoldable pub drain_ok : ℕ → MacCommands → Option (List C)
  unfolding next prepend
  drain_ok zero it = none
  drain_ok (suc fuel) it =
      let (item, it') = next it in
      let others = drain_ok fuel it' in
      elim item [ none ↦ some [] | some (ok cmd) ↦ prepend cmd others | some (err e) ↦ others ]

  -- Each call but the last two takes a byte at least, so that this fuel is enough.
  unfoldable pub commands : List ℕ → List C
  unfolding drain_ok new collected
  commands bytes = collected (drain_ok (length bytes + 2) (new bytes))
