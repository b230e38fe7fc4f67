-- ===== src/NbDevice/Tests.antt =====
-- The non-blocking device with a radio that does as it is told.
use lora_rs.Common.{ℕ, ◌≡◌, refl, List, [], replicate, ret, ok}
use lora_rs.Common.Int.{pos}
use lora_rs.External.{
  bounded_list, Crypto, Rng, PhyRxTx, RadioResponse, txing, phy_response, tx_done, RadioEvent,
  tx_request, rx_request, cancel_rx, phy_event,
}
use lora_rs.Modulation.{sf12, khz125, cr4_5, new}
use lora_rs.Region.{data_frame}
use lora_rs.Region.Dynamic.Regions.{new_eu868}
use lora_rs.Region.Configuration.{dynamic, eu868_region, RfConfig, TxConfig}
use lora_rs.Mac.Settings.{RxWindows}
use lora_rs.Mac.Machine
use lora_rs.Mac.Machine.{Mac}
use lora_rs.NbDevice.{rx1, rx2, idle, waiting_for_rx, NbResponse}
use lora_rs.NbDevice.Events.{timeout_fired, Shared, handle_event}
use lora_rs.NbDevice.Windows.{second_window_closes}

abbrev toy : List ℕ → Crypto
toy key = record { encrypt_block = λ block. block; calculate_mic = λ b0 frame. replicate 4 0 }

answer_to : RadioEvent TxConfig RfConfig ℕ → RadioResponse
answer_to (tx_request config packet) = txing
answer_to (rx_request config) = phy_response
answer_to cancel_rx = phy_response
answer_to (phy_event ms) = tx_done ms

abbrev radio : PhyRxTx TxConfig RfConfig
radio = record {
  Radio = Unit {0};
  PhyEvent = ℕ;
  PhyError = Unit {0};
  handle_event = λ r e. (ok (answer_to e), r);
  received_packet = λ r. [];
  window_offset_ms = λ r. 0;
  window_duration_ms = λ r. 100;
}

abbrev zeros : Rng
zeros n = 0

abbrev shared : Shared radio
shared = record {
  radio = tt;
  rng = zeros;
  tx_buffer = record { packet = replicate 64 0; pos = 0 };
  mac = Machine.new (dynamic eu868_region new_eu868) 14 (pos 0);
  downlink = [];
}

abbrev rf : RfConfig
rf = record { frequency = 868_100_000; bb = new sf12 khz125 cr4_5; max_payload_len = 59 }

abbrev windows : RxWindows
windows = record { rx1 = rf; rx2 = rf }

stops : (radio.handle_event shared.radio cancel_rx).0 ≡ ok phy_response
unfolding answer_to
stops = refl

second_window_closes_example :
    (answer : NbResponse) × (m : Mac) × (handle_event radio bounded_list toy 1 10
        (waiting_for_rx data_frame windows (rx2 2000) rf)
        timeout_fired
        shared
      ≡ ret (idle, ok answer, record shared { radio = tt; mac = m }))
second_window_closes_example =
    second_window_closes radio bounded_list toy 1 10 data_frame windows 2000 rf shared phy_response
      stops
