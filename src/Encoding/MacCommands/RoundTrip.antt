-- ===== src/Encoding/MacCommands/RoundTrip.antt =====
-- A stream of serialised commands is read back, and what follows it is read on its own.
use lora_rs.Common.{
  ℕ, suc, ◌≡◌, refl, ap, ◌∙◌, List, [], ◌∷◌, ◌++◌, map, arith, length, length-append, take-append,
  drop-append, take, All, Result, ok,
}
use mathlib.Core.List.{append_assoc}
use lora_rs.Encoding.MacCommands.{
  ParseError, Serializable, parse_arm, commands, parse_uplink, parse_downlink, UplinkMacCommand,
  DownlinkMacCommand, serialize_uplink, serialize_downlink, link_check_req, link_adr_ans,
  duty_cycle_ans, rx_param_setup_ans, dev_status_ans, new_channel_ans, rx_timing_setup_ans,
  tx_param_setup_ans, dl_channel_ans, device_time_req, link_check_ans, link_adr_req, duty_cycle_req,
  rx_param_setup_req, dev_status_req, new_channel_req, rx_timing_setup_req, tx_param_setup_req,
  dl_channel_req, device_time_ans,
}
use lora_rs.Encoding.MacCommands.Stream.{
  IsFraming, commands_ok, parse_uplink-IsFraming, parse_downlink-IsFraming,
}

-- The bytes of one command, and of a list of commands.
abbrev pub command_bytes : Serializable → List ℕ
command_bytes s = s.cid ∷ s.payload_bytes

abbrev pub stream_bytes : List Serializable → List ℕ
stream_bytes [] = []
stream_bytes (s ∷ ss) = command_bytes s ++ stream_bytes ss

-- The payload lengths of the `#[cmd]` attributes.
abbrev pub uplink_len : UplinkMacCommand → ℕ
uplink_len (link_adr_ans p) = 1
uplink_len (rx_param_setup_ans p) = 1
uplink_len (dev_status_ans p) = 2
uplink_len (new_channel_ans p) = 1
uplink_len (dl_channel_ans p) = 1
uplink_len _ = 0

abbrev pub downlink_len : DownlinkMacCommand → ℕ
downlink_len (link_check_ans p) = 2
downlink_len (link_adr_req p) = 4
downlink_len (duty_cycle_req p) = 1
downlink_len (rx_param_setup_req p) = 4
downlink_len dev_status_req = 0
downlink_len (new_channel_req p) = 5
downlink_len (rx_timing_setup_req p) = 1
downlink_len (tx_param_setup_req p) = 1
downlink_len (dl_channel_req p) = 4
downlink_len (device_time_ans p) = 5

-- A command whose payload has the length that its identifier fixes.
abbrev pub IsUplink : UplinkMacCommand → Type 0
IsUplink c = length (serialize_uplink c).payload_bytes ≡ uplink_len c

abbrev pub IsDownlink : DownlinkMacCommand → Type 0
IsDownlink c = length (serialize_downlink c).payload_bytes ≡ downlink_len c

take_whole : (p rest : List ℕ) (n : ℕ) → length p ≡ n → take n (p ++ rest) ≡ p
take_whole p rest n e = rw (← e) (take-append p rest)

-- `parse_arm` reads back a payload of the length that it expects.
parse_arm_whole {ℓ} :
    {C : Type ℓ} (cid len : ℕ) (wrap : List ℕ → C) (p rest : List ℕ)
    → length p ≡ len
    → parse_arm cid len wrap (p ++ rest) ≡ ok (wrap p, suc (length p))
unfolding parse_arm
parse_arm_whole cid len wrap p rest e =
    rw (take_whole p rest len e) (ground (arith, length-append p rest))

-- `parse_one` reads back one serialised command in front of any bytes.
pub parse_uplink-serialize :
    (c : UplinkMacCommand) (rest : List ℕ)
    → IsUplink c
    → parse_uplink (serialize_uplink c).cid ((serialize_uplink c).payload_bytes ++ rest)
      ≡ ok (c, suc (length (serialize_uplink c).payload_bytes))
unfolding serialize_uplink parse_uplink
parse_uplink-serialize link_check_req rest h =
    parse_arm_whole 2 0 (λ _. link_check_req) [] rest refl
parse_uplink-serialize (link_adr_ans p) rest h = parse_arm_whole 3 1 link_adr_ans p rest h
parse_uplink-serialize duty_cycle_ans rest h =
    parse_arm_whole 4 0 (λ _. duty_cycle_ans) [] rest refl
parse_uplink-serialize (rx_param_setup_ans p) rest h =
    parse_arm_whole 5 1 rx_param_setup_ans p rest h
parse_uplink-serialize (dev_status_ans p) rest h = parse_arm_whole 6 2 dev_status_ans p rest h
parse_uplink-serialize (new_channel_ans p) rest h = parse_arm_whole 7 1 new_channel_ans p rest h
parse_uplink-serialize rx_timing_setup_ans rest h =
    parse_arm_whole 8 0 (λ _. rx_timing_setup_ans) [] rest refl
parse_uplink-serialize tx_param_setup_ans rest h =
    parse_arm_whole 9 0 (λ _. tx_param_setup_ans) [] rest refl
parse_uplink-serialize (dl_channel_ans p) rest h = parse_arm_whole 10 1 dl_channel_ans p rest h
parse_uplink-serialize device_time_req rest h =
    parse_arm_whole 13 0 (λ _. device_time_req) [] rest refl

pub parse_downlink-serialize :
    (c : DownlinkMacCommand) (rest : List ℕ)
    → IsDownlink c
    → parse_downlink (serialize_downlink c).cid ((serialize_downlink c).payload_bytes ++ rest)
      ≡ ok (c, suc (length (serialize_downlink c).payload_bytes))
unfolding serialize_downlink parse_downlink
parse_downlink-serialize (link_check_ans p) rest h = parse_arm_whole 2 2 link_check_ans p rest h
parse_downlink-serialize (link_adr_req p) rest h = parse_arm_whole 3 4 link_adr_req p rest h
parse_downlink-serialize (duty_cycle_req p) rest h = parse_arm_whole 4 1 duty_cycle_req p rest h
parse_downlink-serialize (rx_param_setup_req p) rest h =
    parse_arm_whole 5 4 rx_param_setup_req p rest h
parse_downlink-serialize dev_status_req rest h =
    parse_arm_whole 6 0 (λ _. dev_status_req) [] rest refl
parse_downlink-serialize (new_channel_req p) rest h = parse_arm_whole 7 5 new_channel_req p rest h
parse_downlink-serialize (rx_timing_setup_req p) rest h =
    parse_arm_whole 8 1 rx_timing_setup_req p rest h
parse_downlink-serialize (tx_param_setup_req p) rest h =
    parse_arm_whole 9 1 tx_param_setup_req p rest h
parse_downlink-serialize (dl_channel_req p) rest h = parse_arm_whole 10 4 dl_channel_req p rest h
parse_downlink-serialize (device_time_ans p) rest h = parse_arm_whole 13 5 device_time_ans p rest h

module _ {C : Type 0} (parse_one : ℕ → List ℕ → Result (C × ℕ) ParseError)
    (framing : IsFraming parse_one) (serialize : C → Serializable) (IsWire : C → Type 0)
    (reads_back : (c : C) (rest : List ℕ)
      → IsWire c
      → parse_one (serialize c).cid ((serialize c).payload_bytes ++ rest)
        ≡ ok (c, suc (length (serialize c).payload_bytes))) where
  commands-stream_bytes :
      (cs : List C) (rest : List ℕ)
      → All IsWire cs
      → commands parse_one (stream_bytes (map serialize cs) ++ rest) ≡ cs ++ commands parse_one rest
  commands-stream_bytes [] rest h = refl
  commands-stream_bytes (c ∷ cs) rest h =
      let p = (serialize c).payload_bytes in
      let tail = stream_bytes (map serialize cs) in
      ap (λ bytes. commands parse_one ((serialize c).cid ∷ bytes)) (append_assoc p tail rest)
      ∙ commands_ok parse_one framing (serialize c).cid (p ++ (tail ++ rest))
          (reads_back c (tail ++ rest) h.0)
      ∙ ap (λ bytes. c ∷ commands parse_one bytes) (drop-append p (tail ++ rest))
      ∙ ap (◌∷◌ c) (commands-stream_bytes cs rest h.1)

-- The bytes of a list of uplink commands, followed by any bytes, are read as those commands and
-- then what the rest reads as. Each command's payload has the length that its identifier fixes.
pub uplink_reads_back :
    (cs : List UplinkMacCommand) (rest : List ℕ)
    → All IsUplink cs
    → commands parse_uplink (stream_bytes (map serialize_uplink cs) ++ rest)
      ≡ cs ++ commands parse_uplink rest
uplink_reads_back =
    commands-stream_bytes parse_uplink parse_uplink-IsFraming serialize_uplink IsUplink
      parse_uplink-serialize

-- The same of downlink commands.
pub downlink_reads_back :
    (cs : List DownlinkMacCommand) (rest : List ℕ)
    → All IsDownlink cs
    → commands parse_downlink (stream_bytes (map serialize_downlink cs) ++ rest)
      ≡ cs ++ commands parse_downlink rest
downlink_reads_back =
    commands-stream_bytes parse_downlink parse_downlink-IsFraming serialize_downlink IsDownlink
      parse_downlink-serialize
