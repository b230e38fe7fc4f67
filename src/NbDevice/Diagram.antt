-- ===== src/NbDevice/Diagram.antt =====
-- That the handler of the non-blocking device takes only the edges of the diagram at the top of
-- lorawan-device/src/nb_device/state.rs.
pub mod Edges
use lora_rs.Common.{Bool, Exec, Ensures}
use lora_rs.External.{PhyRxTx}
use lora_rs.Region.Configuration.{RfConfig, TxConfig}
use lora_rs.Mac.Otaa.{NetworkCredentials}
use lora_rs.Mac.Session
use lora_rs.Mac.Machine
use lora_rs.NbDevice.{
  NbState, StateError, radio_event_while_idle, radio_event_while_waiting_for_rx_window,
  new_session_while_waiting_for_rx_window, send_data_while_waiting_for_rx_window,
  tx_request_during_tx, new_session_while_waiting_for_rx, send_data_while_waiting_for_rx,
  buffer_too_small, uplink_sending,
}
use lora_rs.NbDevice.Events.{radio_error, state_error, Event, Outcome}
use lora_rs.NbDevice.Diagram.Edges.{Step}

module _ (phy : PhyRxTx TxConfig RfConfig) where
  -- Whatever is returned, the state and the answer are one edge away.
  abbrev Steps : NbState → Event phy → Exec (Outcome phy) → Type 0
  Steps s e m = Ensures m (λ o. Step phy s e o.1 o.0)
