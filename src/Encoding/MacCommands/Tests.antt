-- ===== src/Encoding/MacCommands/Tests.antt =====
-- MAC command streams at concrete values.
use lora_rs.Common.{some, ◌≡◌, refl, List, [], ◌∷◌, ◌++◌, map, All, arith}
use lora_rs.Encoding.MacCommands.{
  new, drain_ok, commands, parse_uplink, parse_downlink, serialize_uplink, serialize_downlink,
  UplinkMacCommand, DownlinkMacCommand, link_check_req, link_adr_ans, dev_status_req,
  rx_timing_setup_req,
}
use lora_rs.Encoding.MacCommands.Stream.{parse_uplink-IsFraming, drain_ok-commands}
use lora_rs.Encoding.MacCommands.RoundTrip.{
  stream_bytes, IsUplink, IsDownlink, uplink_reads_back, downlink_reads_back,
}

abbrev answers : List UplinkMacCommand
answers = link_adr_ans (7 ∷ []) ∷ link_check_req ∷ []

abbrev requests : List DownlinkMacCommand
requests = dev_status_req ∷ rx_timing_setup_req (1 ∷ []) ∷ []

-- The stream of the source's own tests: LinkCheckReq, LinkADRAns, and an unknown identifier.
commands_runs :
    commands parse_uplink (0x02 ∷ 0x03 ∷ 0x07 ∷ 0xff ∷ [])
    ≡ link_check_req ∷ link_adr_ans (7 ∷ []) ∷ []
unfolding commands parse_uplink
commands_runs = refl

answers_wire : All IsUplink answers
unfolding serialize_uplink
answers_wire = (refl, (refl, tt))

requests_wire : All IsDownlink requests
unfolding serialize_downlink
requests_wire = (refl, (refl, tt))

uplink_reads_back_example :
    commands parse_uplink (stream_bytes (map serialize_uplink answers) ++ (0xff ∷ []))
    ≡ answers ++ commands parse_uplink (0xff ∷ [])
uplink_reads_back_example = uplink_reads_back answers (0xff ∷ []) answers_wire

downlink_reads_back_example :
    commands parse_downlink (stream_bytes (map serialize_downlink requests) ++ (0xff ∷ []))
    ≡ requests ++ commands parse_downlink (0xff ∷ [])
downlink_reads_back_example = downlink_reads_back requests (0xff ∷ []) requests_wire

drain_ok-commands_example :
    drain_ok parse_uplink 10 (new (0x02 ∷ 0x03 ∷ 0x07 ∷ []))
    ≡ some (commands parse_uplink (0x02 ∷ 0x03 ∷ 0x07 ∷ []))
drain_ok-commands_example =
    drain_ok-commands parse_uplink parse_uplink-IsFraming 10 (0x02 ∷ 0x03 ∷ 0x07 ∷ []) (omega arith)
