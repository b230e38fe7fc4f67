-- ===== src/NbDevice/Diagram/Edges.antt =====
-- The edges of the diagram at the top of lorawan-device/src/nb_device/state.rs.
use lora_rs.Common.{◌≢◌, ℕ, Result, ok, err}
use lora_rs.External.{RadioEvent, PhyRxTx}
use lora_rs.Region.{Frame, join_frame, data_frame}
use lora_rs.Region.Configuration.{RfConfig, TxConfig}
use lora_rs.Mac.Settings.{RxWindows}
use lora_rs.Mac.Otaa.{NetworkCredentials}
use lora_rs.Mac.Session.Transmit.{SendData}
use lora_rs.NbDevice.{
  Rx, rx1, rx2, window_of, get, NbState, idle, sending_data, waiting_for_rx_window, waiting_for_rx,
  radio_event_while_idle, radio_event_while_waiting_for_rx_window,
  new_session_while_waiting_for_rx_window, send_data_while_waiting_for_rx_window,
  tx_request_during_tx, new_session_while_waiting_for_rx, send_data_while_waiting_for_rx,
  buffer_too_small, NbResponse, no_update, timeout_request, uplink_sending,
}
use lora_rs.NbDevice.Events.{
  Error, radio_error, state_error, Event, join, send_data_request, radio_event, timeout_fired,
}

-- An answer that ends an exchange: it asks for no timer and announces no transmission.
abbrev pub IsFinal : NbResponse → Type 0
IsFinal answer = ((t : ℕ) → answer ≢ timeout_request t) × ((n : ℕ) → answer ≢ uplink_sending n)

module _ (phy : PhyRxTx TxConfig RfConfig) where
  -- What the application asks for, and the kind of frame that it takes.
  pub data Asks : Event phy → Frame → Type 0 where
    asks_join : {creds : NetworkCredentials} → Asks (join creds) join_frame
    asks_send : {d : SendData} → Asks (send_data_request d) data_frame

  -- One edge of the diagram: the state, the event, the answer in its parentheses, and the state after it.
  -- From `Idle` only a request leads on; the windows open one after the other, on a timer, with the frame
  -- and the windows that were fixed for the uplink; the device is idle again after a reception in either
  -- window or the timeout of the second.
  pub data Step : NbState → Event phy → Result NbResponse (Error phy) → NbState → Type 0 where
    starts :
        {e : Event phy} {frame : Frame} {windows : RxWindows} {n : ℕ}
        → Asks e frame
        → Step idle e (ok (uplink_sending n)) (sending_data frame windows)
    sent_at_once :
        {e : Event phy} {frame : Frame} {windows : RxWindows} {t : ℕ}
        → Asks e frame
        → Step idle e (ok (timeout_request t)) (waiting_for_rx_window frame windows (rx1 t))
    sent :
        {e : RadioEvent TxConfig RfConfig phy.PhyEvent} {frame : Frame} {windows : RxWindows}
        {t : ℕ}
        → Step
            (sending_data frame windows)
            (radio_event e)
            (ok (timeout_request t))
            (waiting_for_rx_window frame windows (rx1 t))
    opens :
        {frame : Frame} {windows : RxWindows} {rx : Rx} {close : ℕ}
        → Step
            (waiting_for_rx_window frame windows rx)
            timeout_fired
            (ok (timeout_request close))
            (waiting_for_rx frame windows rx (get windows (window_of rx)))
    received :
        {e : RadioEvent TxConfig RfConfig phy.PhyEvent} {frame : Frame} {windows : RxWindows}
        {rx : Rx} {rf : RfConfig} {answer : NbResponse}
        → IsFinal answer
        → answer ≢ no_update
        → Step (waiting_for_rx frame windows rx rf) (radio_event e) (ok answer) idle
    second :
        {frame : Frame} {windows : RxWindows} {rf : RfConfig} {t t2 : ℕ}
        → Step
            (waiting_for_rx frame windows (rx1 t) rf)
            timeout_fired
            (ok (timeout_request t2))
            (waiting_for_rx_window frame windows (rx2 t2))
    gives_up :
        {frame : Frame} {windows : RxWindows} {rf : RfConfig} {t : ℕ} {answer : NbResponse}
        → IsFinal answer
        → Step (waiting_for_rx frame windows (rx2 t) rf) timeout_fired (ok answer) idle
    -- The answers that leave the state: a refused event or request, an error of the radio, a stray packet,
    -- and a timer that fires with no window to open or to close.
    idle_fails :
        {e : Event phy} {frame : Frame} {x : Error phy} → Asks e frame → Step idle e (err x) idle
    idle_timeout : Step idle timeout_fired (ok no_update) idle
    idle_radio :
        {e : RadioEvent TxConfig RfConfig phy.PhyEvent}
        → Step idle (radio_event e) (err (state_error radio_event_while_idle)) idle
    sending_timeout :
        {frame : Frame} {windows : RxWindows}
        → Step
            (sending_data frame windows)
            timeout_fired
            (ok no_update)
            (sending_data frame windows)
    sending_fails :
        {e : RadioEvent TxConfig RfConfig phy.PhyEvent} {frame : Frame} {windows : RxWindows}
        {x : phy.PhyError}
        → Step
            (sending_data frame windows)
            (radio_event e)
            (err (radio_error x))
            (sending_data frame windows)
    sending_refuses :
        {e : Event phy} {kind frame : Frame} {windows : RxWindows}
        → Asks e kind
        → Step
            (sending_data frame windows)
            e
            (err (state_error tx_request_during_tx))
            (sending_data frame windows)
    window_fails :
        {frame : Frame} {windows : RxWindows} {rx : Rx} {x : phy.PhyError}
        → Step
            (waiting_for_rx_window frame windows rx)
            timeout_fired
            (err (radio_error x))
            (waiting_for_rx_window frame windows rx)
    window_radio :
        {e : RadioEvent TxConfig RfConfig phy.PhyEvent} {frame : Frame} {windows : RxWindows}
        {rx : Rx}
        → Step
            (waiting_for_rx_window frame windows rx)
            (radio_event e)
            (err (state_error radio_event_while_waiting_for_rx_window))
            (waiting_for_rx_window frame windows rx)
    window_refuses_join :
        {creds : NetworkCredentials} {frame : Frame} {windows : RxWindows} {rx : Rx}
        → Step
            (waiting_for_rx_window frame windows rx)
            (join creds)
            (err (state_error new_session_while_waiting_for_rx_window))
            (waiting_for_rx_window frame windows rx)
    window_refuses_send :
        {d : SendData} {frame : Frame} {windows : RxWindows} {rx : Rx}
        → Step
            (waiting_for_rx_window frame windows rx)
            (send_data_request d)
            (err (state_error send_data_while_waiting_for_rx_window))
            (waiting_for_rx_window frame windows rx)
    stray :
        {e : RadioEvent TxConfig RfConfig phy.PhyEvent} {frame : Frame} {windows : RxWindows}
        {rx : Rx} {rf : RfConfig}
        → Step
            (waiting_for_rx frame windows rx rf)
            (radio_event e)
            (ok no_update)
            (waiting_for_rx frame windows rx rf)
    too_large :
        {e : RadioEvent TxConfig RfConfig phy.PhyEvent} {frame : Frame} {windows : RxWindows}
        {rx : Rx} {rf : RfConfig}
        → Step
            (waiting_for_rx frame windows rx rf)
            (radio_event e)
            (err (state_error buffer_too_small))
            (waiting_for_rx frame windows rx rf)
    reception_fails :
        {e : RadioEvent TxConfig RfConfig phy.PhyEvent} {frame : Frame} {windows : RxWindows}
        {rx : Rx} {rf : RfConfig} {x : phy.PhyError}
        → Step
            (waiting_for_rx frame windows rx rf)
            (radio_event e)
            (err (radio_error x))
            (waiting_for_rx frame windows rx rf)
    cancel_fails :
        {frame : Frame} {windows : RxWindows} {rx : Rx} {rf : RfConfig} {x : phy.PhyError}
        → Step
            (waiting_for_rx frame windows rx rf)
            timeout_fired
            (err (radio_error x))
            (waiting_for_rx frame windows rx rf)
    reception_refuses_join :
        {creds : NetworkCredentials} {frame : Frame} {windows : RxWindows} {rx : Rx} {rf : RfConfig}
        → Step
            (waiting_for_rx frame windows rx rf)
            (join creds)
            (err (state_error new_session_while_waiting_for_rx))
            (waiting_for_rx frame windows rx rf)
    reception_refuses_send :
        {d : SendData} {frame : Frame} {windows : RxWindows} {rx : Rx} {rf : RfConfig}
        → Step
            (waiting_for_rx frame windows rx rf)
            (send_data_request d)
            (err (state_error send_data_while_waiting_for_rx))
            (waiting_for_rx frame windows rx rf)
