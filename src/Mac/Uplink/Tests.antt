-- ===== src/Mac/Uplink/Tests.antt =====
-- The uplink queue at concrete values.
use lora_rs.Common.{◌≡◌, refl, true, List, [], ◌∷◌, filter, ret, arith}
use lora_rs.External.{bounded_list}
use lora_rs.Encoding.MacCommands.{
  UplinkMacCommand, serialize_uplink, parse_uplink, commands, link_adr_ans, rx_param_setup_ans,
  dev_status_ans,
}
use lora_rs.Encoding.MacCommands.RoundTrip.{IsUplink}
use lora_rs.Mac.Uplink.{Uplink, is_sticky, add_mac_command, clear_mac_commands}
use lora_rs.Mac.Uplink.Queue.{Holds, offered, add_mac_command-Holds, clear_mac_commands-Holds}

abbrev queued : List UplinkMacCommand
queued = link_adr_ans (7 ∷ []) ∷ rx_param_setup_ans (3 ∷ []) ∷ []

abbrev two_answers : Uplink
two_answers = record { pending = 0x03 ∷ 7 ∷ 0x05 ∷ 3 ∷ []; confirmed = true }

two_answers-Holds : Holds two_answers queued
unfolding serialize_uplink
two_answers-Holds = record { bytes = refl; wire = (refl, (refl, tt)); fits = omega arith }

status-IsUplink : IsUplink (dev_status_ans (255 ∷ 7 ∷ []))
unfolding serialize_uplink
status-IsUplink = refl

-- Only the answer to RXParamSetupReq is kept.
clear_runs :
    clear_mac_commands bounded_list true two_answers
    ≡ ret (record { pending = 0x05 ∷ 3 ∷ []; confirmed = true })
unfolding clear_mac_commands bounded_list commands parse_uplink is_sticky serialize_uplink
clear_runs = refl

add_mac_command-Holds_example :
    (u' : Uplink) × (add_mac_command bounded_list two_answers
        (serialize_uplink (dev_status_ans (255 ∷ 7 ∷ [])))
      ≡ ret u')
    × Holds u' (offered two_answers queued (dev_status_ans (255 ∷ 7 ∷ [])))
    × (u'.confirmed ≡ two_answers.confirmed)
add_mac_command-Holds_example =
    add_mac_command-Holds bounded_list two_answers queued (dev_status_ans (255 ∷ 7 ∷ []))
      two_answers-Holds status-IsUplink

clear_mac_commands-Holds_example :
    (u' : Uplink) × (clear_mac_commands bounded_list true two_answers ≡ ret u')
    × Holds u' (filter is_sticky queued)
    × (u'.confirmed ≡ two_answers.confirmed)
clear_mac_commands-Holds_example =
    clear_mac_commands-Holds bounded_list two_answers queued two_answers-Holds
