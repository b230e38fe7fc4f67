-- ===== src/NbDevice.antt =====
-- lorawan-device/src/nb_device: the non-blocking device, a state machine between the application's
-- requests, the radio's events and a timer (mod.rs and state.rs).
pub mod Events
pub mod Diagram
pub mod Device
pub mod Windows
mod Tests
use lora_rs.Common.{
  ℕ, ◌+◌, ◌-◌, ◌%◌, ◌^◌, Bool, true, false, Option, none, some, List, [], ltb, if◌then◌else◌, Exec,
  ret, panic, ◌>>=◌, Result, ok, err,
}
use lora_rs.Common.Int.{ℤ, pos, negsuc, ◌+ℤ◌, leb_ℤ}
use lora_rs.External.{
  BoundedVec, Crypto, Rng, PhyRxTx, RadioResponse, radio_idle, txing, rxing, phy_response, tx_done,
  rx_done, RadioEvent, tx_request, rx_request, cancel_rx, phy_event,
}
use lora_rs.Radio.{RadioBuffer, clear, extend_from_slice, for_read}
use lora_rs.Region.{Frame, join_frame, data_frame, Window, window1, window2}
use lora_rs.Region.Configuration.{State, RfConfig, TxConfig}
use lora_rs.Mac.Settings.{RxWindows, get_rx_delay}
use lora_rs.Mac.Session
use lora_rs.Mac.Session.Transmit.{SendData}
use lora_rs.Mac.Session.Receive.{Downlink}
use lora_rs.Mac.Otaa.{NetworkCredentials}
use lora_rs.Mac.Machine
use lora_rs.Mac.Machine.{Mac, Plan, Received, joined, joining, unjoined}

-- `u32` arithmetic, which panics on an overflow where overflow is checked.
unfoldable pub add_u32 : ℕ → ℕ → Exec ℕ
add_u32 a b = if ltb (a + b) (2 ^ 32) then ret (a + b) else panic

unfoldable pub sub_u32 : ℕ → ℕ → Exec ℕ
sub_u32 a b = if ltb a b then panic else ret (a - b)

-- `n as i32`, the sum of two `i32`, and `z as u32`.
unfoldable pub as_i32 : ℕ → ℤ
as_i32 n = if ltb n (2 ^ 31) then pos n else negsuc (2 ^ 32 - n - 1)

unfoldable pub add_i32 : ℤ → ℤ → Exec ℤ
add_i32 a b =
    let sum = a +ℤ b in
    if leb_ℤ (negsuc (2 ^ 31 - 1)) sum
    then (if leb_ℤ sum (pos (2 ^ 31 - 1)) then ret sum else panic)
    else panic

unfoldable pub as_u32 : ℤ → ℕ
as_u32 (pos n) = n % 2 ^ 32
as_u32 (negsuc n) = 2 ^ 32 - 1 - n % 2 ^ 32

-- `state::Rx`: a window and the time at which it opens.
pub data Rx : Type 0 where
  rx1 : ℕ → Rx
  rx2 : ℕ → Rx

unfoldable pub window_of : Rx → Window
window_of (rx1 t) = window1
window_of (rx2 t) = window2

unfoldable pub get : RxWindows → Window → RfConfig
get windows window1 = windows.rx1
get windows window2 = windows.rx2

-- `state::State`
pub data NbState : Type 0 where
  idle : NbState
  sending_data : Frame → RxWindows → NbState
  waiting_for_rx_window : Frame → RxWindows → Rx → NbState
  waiting_for_rx : Frame → RxWindows → Rx → RfConfig → NbState

-- `state::Error`
pub data StateError : Type 0 where
  radio_event_while_idle radio_event_while_waiting_for_rx_window : StateError
  new_session_while_waiting_for_rx_window send_data_while_waiting_for_rx_window : StateError
  tx_request_during_tx new_session_while_waiting_for_rx send_data_while_waiting_for_rx : StateError
  buffer_too_small unexpected_radio_response : StateError

-- `nb_device::Response`, as far as it is given.
pub data NbResponse : Type 0 where
  no_update join_success no_join_accept no_ack session_expired rx_complete : NbResponse
  timeout_request : ℕ → NbResponse
  uplink_sending : ℕ → NbResponse
  downlink_received : ℕ → NbResponse

-- `From<mac::Response>`: `LinkCheckReq` is `unimplemented!()`.
unfoldable pub from_mac : Session.Response → Exec NbResponse
from_mac Session.session_expired = ret session_expired
from_mac (Session.downlink_received n) = ret (downlink_received n)
from_mac Session.no_ack = ret no_ack
from_mac Session.no_join_accept = ret no_join_accept
from_mac Session.join_success = ret join_success
from_mac Session.no_update = ret no_update
from_mac Session.rx_complete = ret rx_complete
from_mac Session.link_check_req = panic

unfoldable pub is_no_update : Session.Response → Bool
is_no_update Session.no_update = true
is_no_update _ = false
