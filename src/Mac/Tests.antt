-- ===== src/Mac/Tests.antt =====
-- The MAC layer at concrete values.
use lora_rs.Common.{◌≤◌, ◌<◌, ◌≡◌, ◌↔◌, refl, true, Option, none, some, [], ret, ◌%◌, arith}
use lora_rs.External.{bounded_list}
use lora_rs.Common.{◌/◌, Bool, ◌∷◌}
use lora_rs.Encoding.Types.{default_mask, from_u8}
use lora_rs.Region.Rates.{eu868_datarates}
use lora_rs.Region.Supported.{rate_at}
use lora_rs.Region.Dynamic.Initial.{new_eu868-IsPlan}
use lora_rs.Region.Configuration.{channel_mask_validate}
use lora_rs.Mac.Session.Commands.{Progress, link_adr_rate, link_adr_power, link_adr_finish}
use lora_rs.Mac.Session.Commands.Returns.{IsRegion}
use lora_rs.Mac.Session.Commands.LinkAdr.{HasRate, Decided, link_adr_finish-Decided}
use lora_rs.Encoding.Types.{Dr, dr0, dr1, dr2, dr5, to_u8}
use lora_rs.Modulation.{sf12, khz125}
use lora_rs.Region.{TxChannel, window1}
use lora_rs.Region.Dynamic.Regions.{eu868, new_eu868}
use lora_rs.Region.Configuration.{
  State, dynamic, eu868_region, constants, dynamic_constants, get_rx_datarate,
}
use lora_rs.Mac.Counter.{next_fcnt_down, Fresh, next_fcnt_down-Fresh}
use lora_rs.Mac.Uplink.{empty_uplink}
use lora_rs.Mac.Settings.{Settings, RxWindows, rx_windows}
use lora_rs.Mac.Settings.Windows.{Serves, rx2_freq, rx2_rate, rx_windows-Serves}
use lora_rs.Mac.Session.{Session, Response, next_lower_datarate, rx2_complete}
use lora_rs.Mac.Session.Expiry.{
  HighestBelow, Completed, next_lower_datarate-HighestBelow, rx2_complete-Completed,
}

-- The counter is rebuilt past 16 bits, and a replay is dropped.
counter_runs : next_fcnt_down (some 0xffff) 0 ≡ some 0x1_0000
unfolding next_fcnt_down
counter_runs = refl

replay_dropped : next_fcnt_down (some 0x1_0005) 5 ≡ none
unfolding next_fcnt_down
replay_dropped = refl

next_fcnt_down-Fresh_example :
    (next_fcnt_down (some 0xffff) 3 ≡ some 0x1_0003)
    ↔ (Fresh 0xffff 0x1_0003 × (0x1_0003 % 65536 ≡ 3))
next_fcnt_down-Fresh_example = next_fcnt_down-Fresh 0xffff 3 0x1_0003 (omega arith) (omega arith)

abbrev eu : State
eu = dynamic eu868_region new_eu868

next_lower_datarate-HighestBelow_example :
    (d : Option Dr) × (next_lower_datarate eu dr2 ≡ ret d) × HighestBelow eu (to_u8 dr2) d
next_lower_datarate-HighestBelow_example = next_lower_datarate-HighestBelow eu dr2

-- The 96th uplink in a row without a downlink.
abbrev quiet : Session
quiet = record {
  uplink = empty_uplink;
  confirmed = true;
  nwkskey = [];
  appskey = [];
  devaddr = [];
  fcnt_up = 200;
  fcnt_down = some 17;
  adr_ack_cnt = 95;
}

abbrev at_dr5 : Settings
at_dr5 = record {
  data_rate = dr5;
  rx1_delay = 1000;
  accept_delay1 = 5000;
  accept_delay2 = 6000;
  tx_power = none;
  rx1_dr_offset = 2;
  rx2_data_rate = some dr1;
  rx2_frequency = none;
  adr_enabled = true;
}

rx2_complete-Completed_example :
    (a : Response) × (s' : Session) × (c' : Settings) × (lower : Option Dr) × (rx2_complete quiet
        at_dr5 eu
      ≡ ret (a, s', c'))
    × Completed quiet at_dr5 eu lower a s' c'
rx2_complete-Completed_example = rx2_complete-Completed quiet at_dr5 eu (omega arith) (omega arith)

abbrev sent : TxChannel
sent = record {
  datarate = record {
    spreading_factor = sf12;
    bandwidth = khz125;
    max_mac_payload_size = 59;
    max_mac_payload_size_with_dwell_time = 59;
  };
  dr = dr0;
  frequency = 868_100_000;
  rx1_frequency = 868_100_000;
}

offset_allowed : 2 ≤ (constants eu).max_rx1_dr_offset
unfolding constants dynamic_constants eu868
offset_allowed = omega arith

override_allowed : to_u8 dr1 < 15
unfolding to_u8
override_allowed = omega arith

rx_windows-Serves_example :
    (w : RxWindows) × (rx_windows eu at_dr5 sent ≡ ret w)
    × Serves eu at_dr5 868_100_000 (get_rx_datarate eu dr0 2 window1) dr0 w.rx1
    × Serves eu at_dr5 (rx2_freq eu at_dr5) (rx2_rate eu at_dr5 dr0) dr0 w.rx2
rx_windows-Serves_example = rx_windows-Serves eu at_dr5 sent offset_allowed override_allowed

-- The end of a block of two LinkADRReq: DR3, power 1, on the default mask.
abbrev two_requests : Progress
two_requests = record {
  uplink = empty_uplink;
  settings = at_dr5;
  region = eu;
  mask = default_mask 9;
  num_adrreq = 2;
}

eu-HasRate : HasRate eu dr5
unfolding rate_at constants dynamic_constants eu868 eu868_datarates to_u8
eu-HasRate = (omega arith, refl)

eu-IsRegion : IsRegion eu
unfolding dynamic_constants
eu-IsRegion = new_eu868-IsPlan

link_adr_finish-Decided_example :
    (mask_ok : Bool) × (dr : Option Dr) × (g' : Progress) × (link_adr_rate at_dr5 eu
        (from_u8 (0x31 / 16))
      ≡ ret dr)
    × (channel_mask_validate eu (default_mask 9) dr ≡ ret mask_ok)
    × (link_adr_finish bounded_list (0x31 ∷ 0xff ∷ 0 ∷ 1 ∷ []) two_requests ≡ ret g')
    × Decided two_requests mask_ok dr (link_adr_power at_dr5 eu (from_u8 (0x31 % 16))) g'
link_adr_finish-Decided_example =
    link_adr_finish-Decided bounded_list two_requests 0x31 0xff 0 1 eu-IsRegion eu-HasRate refl
      (omega arith)
