-- ===== src/NbDevice/Events.antt =====
-- lorawan-device/src/nb_device/state.rs: what each state does with each event.
use lora_rs.Common.{ℕ, List, ltb, if◌then◌else◌, Exec, ret, panic, ◌>>=◌, Result, ok, err}
use lora_rs.External.{
  BoundedVec, Crypto, Rng, PhyRxTx, RadioResponse, txing, tx_done, rx_done, RadioEvent, tx_request,
  rx_request, cancel_rx,
}
use lora_rs.Radio.{RadioBuffer, clear, extend_from_slice, for_read}
use lora_rs.Region.{Frame, join_frame, data_frame, window1, window2}
use lora_rs.Region.Configuration.{RfConfig, TxConfig}
use lora_rs.Mac.Settings.{RxWindows, get_rx_delay}
use lora_rs.Mac.Session.Transmit.{SendData}
use lora_rs.Mac.Session.Receive.{Downlink}
use lora_rs.Mac.Otaa.{NetworkCredentials}
use lora_rs.Mac.Machine
use lora_rs.Mac.Machine.{Mac, Plan, Received}
use lora_rs.NbDevice.{
  add_u32, sub_u32, as_i32, add_i32, as_u32, Rx, rx1, rx2, window_of, get, NbState, idle,
  sending_data, waiting_for_rx_window, waiting_for_rx, StateError, radio_event_while_idle,
  radio_event_while_waiting_for_rx_window, new_session_while_waiting_for_rx_window,
  send_data_while_waiting_for_rx_window, tx_request_during_tx, new_session_while_waiting_for_rx,
  send_data_while_waiting_for_rx, buffer_too_small, unexpected_radio_response, NbResponse,
  no_update, timeout_request, uplink_sending, from_mac, is_no_update,
}

module _ (phy : PhyRxTx TxConfig RfConfig) where
  -- `nb_device::Event` and `Error`
  pub data Event : Type 0 where
    join : NetworkCredentials → Event
    send_data_request : SendData → Event
    radio_event : RadioEvent TxConfig RfConfig phy.PhyEvent → Event
    timeout_fired : Event

  pub data Error : Type 0 where
    radio_error : phy.PhyError → Error
    state_error : StateError → Error
    mac_error : Machine.Error → Error

  -- `Shared`
  pub record Shared : Type 0 where
    pub radio : phy.Radio
    pub rng : Rng
    pub tx_buffer : RadioBuffer
    pub mac : Mac
    pub downlink : List Downlink

  -- What an event gives: the next state, the answer, and the shared parts after it.
  abbrev pub Outcome : Type 0
  Outcome = NbState × Result NbResponse Error × Shared

  -- `data_rxwindow1_timeout`
  unfoldable pub data_rxwindow1_timeout : Frame → RxWindows → ℕ → Shared → Exec Outcome
  unfolding as_i32 add_i32 as_u32 get_rx_delay
  data_rxwindow1_timeout frame windows timestamp s = do
    sum ← add_i32 (as_i32 (get_rx_delay s.mac.settings frame window1)) (as_i32 timestamp)
    t1 ← add_i32 sum (as_i32 (phy.window_offset_ms s.radio))
    ret (waiting_for_rx_window frame windows (rx1 (as_u32 t1)), ok (timeout_request (as_u32 t1)), s)

  -- The radio's answer to the request to transmit.
  unfoldable pub after_tx_request :
      Frame → Plan → Shared → Result RadioResponse phy.PhyError → Exec Outcome
  unfolding data_rxwindow1_timeout
  after_tx_request frame p s (ok txing) =
      ret (sending_data frame p.windows, ok (uplink_sending p.number), s)
  after_tx_request frame p s (ok (tx_done ms)) = data_rxwindow1_timeout frame p.windows ms s
  after_tx_request frame p s (ok _) = ret (idle, err (state_error unexpected_radio_response), s)
  after_tx_request frame p s (err e) = ret (idle, err (radio_error e), s)

  unfoldable pub transmit : Frame → Plan → Shared → Exec Outcome
  unfolding for_read after_tx_request
  transmit frame p s = do
    bytes ← for_read s.tx_buffer
    let answer = phy.handle_event s.radio (tx_request p.tx bytes)
    after_tx_request frame p (record s { radio = answer.1 }) answer.0

  -- The answer of `Mac::send`.
  unfoldable pub after_send : Shared → Result Plan Machine.Error → Exec Outcome
  unfolding transmit
  after_send s (ok p) = transmit data_frame p s
  after_send s (err e) = ret (idle, err (mac_error e), s)

  module _ (vec : BoundedVec) (crypto_of : List ℕ → Crypto) (capacity fuel : ℕ) where
    -- `Idle::handle_event`
    unfoldable pub handle_idle : Event → Shared → Exec Outcome
    unfolding transmit after_send
    handle_idle (join creds) s = do
      joined ← Machine.join_otaa crypto_of fuel creds s.tx_buffer s.mac s.rng
      transmit join_frame joined.0
          (record s { mac = joined.1; tx_buffer = joined.2; rng = joined.3 })
    handle_idle timeout_fired s = ret (idle, ok no_update, s)
    handle_idle (radio_event e) s = ret (idle, err (state_error radio_event_while_idle), s)
    handle_idle (send_data_request d) s = do
      sent ← Machine.send vec crypto_of fuel d s.tx_buffer s.mac s.rng
      after_send (record s { mac = sent.1; tx_buffer = sent.2; rng = sent.3 }) sent.0

    -- `SendingData::handle_event`
    unfoldable pub after_sending :
        Frame → RxWindows → Shared → Result RadioResponse phy.PhyError → Exec Outcome
    unfolding data_rxwindow1_timeout
    after_sending frame windows s (ok (tx_done ms)) = data_rxwindow1_timeout frame windows ms s
    after_sending frame windows s (ok _) = panic
    after_sending frame windows s (err e) = ret (sending_data frame windows, err (radio_error e), s)

    unfoldable pub handle_sending : Frame → RxWindows → Event → Shared → Exec Outcome
    unfolding after_sending
    handle_sending frame windows (radio_event e) s =
        let answer = phy.handle_event s.radio e in
        after_sending frame windows (record s { radio = answer.1 }) answer.0
    handle_sending frame windows timeout_fired s = ret (sending_data frame windows, ok no_update, s)
    handle_sending frame windows _ s =
        ret (sending_data frame windows, err (state_error tx_request_during_tx), s)

    -- When the window that opens now closes: the first one before the second opens.
    unfoldable pub window_close : Frame → Rx → ℕ → Shared → Exec ℕ
    unfolding add_u32 sub_u32 get_rx_delay
    window_close frame (rx1 time) start s = do
      between ← sub_u32 (get_rx_delay s.mac.settings frame window2) start
      add_u32 time (
          if ltb (phy.window_duration_ms s.radio) between
          then phy.window_duration_ms s.radio
          else between)
    window_close frame (rx2 time) start s = add_u32 time (phy.window_duration_ms s.radio)

    -- `WaitingForRxWindow::handle_event`
    unfoldable pub after_rx_request :
        Frame → RxWindows → Rx → Shared → Result RadioResponse phy.PhyError → Exec Outcome
    unfolding window_of get get_rx_delay window_close
    after_rx_request frame windows rx s (ok _) = do
      close ← window_close frame rx (get_rx_delay s.mac.settings frame (window_of rx)) s
      ret (
        waiting_for_rx frame windows rx (get windows (window_of rx)),
        ok (timeout_request close),
        s,
      )
    after_rx_request frame windows rx s (err e) =
        ret (waiting_for_rx_window frame windows rx, err (radio_error e), s)

    unfoldable pub handle_window : Frame → RxWindows → Rx → Event → Shared → Exec Outcome
    unfolding window_of get after_rx_request
    handle_window frame windows rx timeout_fired s =
        let answer = phy.handle_event s.radio (rx_request (get windows (window_of rx))) in
        after_rx_request frame windows rx (record s { radio = answer.1 }) answer.0
    handle_window frame windows rx (radio_event e) s = ret (
      waiting_for_rx_window frame windows rx,
      err (state_error radio_event_while_waiting_for_rx_window),
      s,
    )
    handle_window frame windows rx (join creds) s = ret (
      waiting_for_rx_window frame windows rx,
      err (state_error new_session_while_waiting_for_rx_window),
      s,
    )
    handle_window frame windows rx (send_data_request d) s = ret (
      waiting_for_rx_window frame windows rx,
      err (state_error send_data_while_waiting_for_rx_window),
      s,
    )

    -- `WaitingForRx::handle_event`. A stray packet leaves the state; anything else ends the reception.
    unfoldable pub after_reception :
        Frame → RxWindows → Rx → RfConfig → Received → Shared → Exec Outcome
    unfolding from_mac
    after_reception frame windows rx rf r s =
        let s' : Shared = record s { mac = r.mac; tx_buffer = r.buffer; downlink = r.downlinks } in
        if is_no_update r.response
        then ret (waiting_for_rx frame windows rx rf, ok no_update, s')
        else (do answer ← from_mac r.response; ret (idle, ok answer, s'))

    -- The received packet, copied to the device's buffer.
    unfoldable pub receive_packet :
        Frame
        → RxWindows
        → Rx
        → RfConfig
        → ℕ
        → Shared
        → Result RadioBuffer (Unit {0})
        → Exec Outcome
    unfolding after_reception
    receive_packet frame windows rx rf snr s (err full) = ret (
      waiting_for_rx frame windows rx rf,
      err (state_error buffer_too_small),
      record s { tx_buffer = clear s.tx_buffer },
    )
    receive_packet frame windows rx rf snr s (ok buffer) = do
      received ← Machine.handle_rx vec crypto_of capacity snr rf buffer s.downlink s.mac
      after_reception frame windows rx rf received s

    unfoldable pub after_radio :
        Frame
        → RxWindows
        → Rx
        → RfConfig
        → Shared
        → Result RadioResponse phy.PhyError
        → Exec Outcome
    unfolding clear extend_from_slice receive_packet
    after_radio frame windows rx rf s (ok (rx_done snr)) =
        receive_packet frame windows rx rf snr s
          (extend_from_slice (clear s.tx_buffer) (phy.received_packet s.radio))
    after_radio frame windows rx rf s (ok _) =
        ret (waiting_for_rx frame windows rx rf, ok no_update, s)
    after_radio frame windows rx rf s (err e) =
        ret (waiting_for_rx frame windows rx rf, err (radio_error e), s)

    unfoldable pub end_window : Frame → RxWindows → Rx → Shared → Exec Outcome
    unfolding get_rx_delay add_u32 sub_u32 from_mac
    end_window frame windows (rx1 t1) s = do
      between ←
          sub_u32 (get_rx_delay s.mac.settings frame window2)
            (get_rx_delay s.mac.settings frame window1)
      t2 ← add_u32 t1 between
      ret (waiting_for_rx_window frame windows (rx2 t2), ok (timeout_request t2), s)
    end_window frame windows (rx2 t2) s = do
      done ← Machine.rx2_complete s.mac
      answer ← from_mac done.0
      ret (idle, ok answer, record s { mac = done.1 })

    unfoldable pub after_cancel :
        Frame
        → RxWindows
        → Rx
        → RfConfig
        → Shared
        → Result RadioResponse phy.PhyError
        → Exec Outcome
    unfolding end_window
    after_cancel frame windows rx rf s (ok _) = end_window frame windows rx s
    after_cancel frame windows rx rf s (err e) =
        ret (waiting_for_rx frame windows rx rf, err (radio_error e), s)

    unfoldable pub handle_reception :
        Frame → RxWindows → Rx → RfConfig → Event → Shared → Exec Outcome
    unfolding after_radio after_cancel
    handle_reception frame windows rx rf (radio_event e) s =
        let answer = phy.handle_event s.radio e in
        after_radio frame windows rx rf (record s { radio = answer.1 }) answer.0
    handle_reception frame windows rx rf timeout_fired s =
        let answer = phy.handle_event s.radio cancel_rx in
        after_cancel frame windows rx rf (record s { radio = answer.1 }) answer.0
    handle_reception frame windows rx rf (join creds) s =
        ret (
          waiting_for_rx frame windows rx rf,
          err (state_error new_session_while_waiting_for_rx),
          s,
        )
    handle_reception frame windows rx rf (send_data_request d) s =
        ret
          (waiting_for_rx frame windows rx rf, err (state_error send_data_while_waiting_for_rx), s)

    -- `State::handle_event`
    unfoldable pub handle_event : NbState → Event → Shared → Exec Outcome
    unfolding handle_idle handle_sending handle_window handle_reception
    handle_event idle e s = handle_idle e s
    handle_event (sending_data frame windows) e s = handle_sending frame windows e s
    handle_event (waiting_for_rx_window frame windows rx) e s = handle_window frame windows rx e s
    handle_event (waiting_for_rx frame windows rx rf) e s = handle_reception frame windows rx rf e s
