-- ===== src/NbDevice/Windows.antt =====
-- The second receive window of the non-blocking device, whose end brings it back to `Idle`.
use lora_rs.Common.{
  ℕ, ◌+◌, ◌≡◌, refl, Bool, true, false, List, if◌then◌else◌, Exec, ret, Returns, ok, Bool-cases,
  inl, inr, ◌==◌,
}
use lora_rs.External.{BoundedVec, Crypto, PhyRxTx, RadioResponse, cancel_rx}
use lora_rs.Region.{Frame}
use lora_rs.Region.Configuration.{State, RfConfig, TxConfig}
use lora_rs.Mac.Settings.{Settings, RxWindows}
use lora_rs.Mac.Session
use lora_rs.Mac.Session.{
  Session, no_ack, rx_complete, session_expired, no_join_accept, no_update, back_off,
  saturating_suc, next_lower_datarate,
}
use lora_rs.Mac.Session.Expiry.{next_lower_datarate-HighestBelow, stepped, back_off-stepped}
use lora_rs.Mac.Machine
use lora_rs.Mac.Machine.{MacState, joined, joining, unjoined, Mac}
use lora_rs.NbDevice.{rx2, idle, waiting_for_rx, NbResponse, from_mac}
use lora_rs.NbDevice.Events.{
  timeout_fired, Shared, end_window, after_cancel, handle_reception, handle_event,
}

-- The end of the second window always has an answer.
abbrev Answered : Exec (Session.Response × Mac) → Type 0
Answered m =
    (done : Session.Response × Mac) × (answer : NbResponse) × (m ≡ ret done)
    × (from_mac done.0 ≡ ret answer)

if-Returns :
    (b : Bool) (c : Settings) (m : Exec Settings) → Returns m → Returns (if b then m else ret c)
if-Returns true c m h = h
if-Returns false c m h = (c, refl)

back_off-Returns : (region : State) (c : Settings) (cnt : ℕ) → Returns (back_off region c cnt)
back_off-Returns region c cnt =
    let (lower, found, best) = next_lower_datarate-HighestBelow region c.data_rate in
    (
      record c { data_rate = stepped cnt lower c.data_rate },
      back_off-stepped region c cnt lower found,
    )

confirmed-answer : (b : Bool) → Returns (from_mac (if b then no_ack else rx_complete))
unfolding from_mac
confirmed-answer true = (NbResponse.no_ack, refl)
confirmed-answer false = (NbResponse.rx_complete, refl)

session-Answered : (s : Session) (m : Mac) → Answered (Machine.rx2_complete_in (joined s) m)
unfolding Machine.rx2_complete_in Session.rx2_complete
session-Answered s m =
    let cnt = if m.settings.adr_enabled then saturating_suc s.adr_ack_cnt else s.adr_ack_cnt in
    elim (Bool-cases (s.fcnt_up == 0xffff_ffff)) [
      | inl e ↦ rw e (
        (session_expired, record m { state = joined s }),
        NbResponse.session_expired,
        refl,
        unfold from_mac in refl,
      )
      | inr e ↦
          let (c, stepped_back) =
            if-Returns m.settings.adr_enabled m.settings (back_off m.region m.settings cnt)
              (back_off-Returns m.region m.settings cnt) in
          let (answer, answered) = confirmed-answer s.confirmed in
          rw (e, stepped_back)
            (
              (
                if s.confirmed then no_ack else rx_complete,
                record m {
                  state = joined (record s { fcnt_up = s.fcnt_up + 1; adr_ack_cnt = cnt });
                  settings = c;
                },
              ),
              answer,
              refl,
              answered,
            )
    ]

rx2_complete-Answered : (m : Mac) → Answered (Machine.rx2_complete m)
unfolding Machine.rx2_complete Machine.rx2_complete_in from_mac
rx2_complete-Answered m = by_state m.state
  where
    by_state : (st : MacState) → Answered (Machine.rx2_complete_in st m)
    by_state (joined s) = session-Answered s m
    by_state (joining o) = ((no_join_accept, m), NbResponse.no_join_accept, refl, refl)
    by_state unjoined = ((no_update, m), NbResponse.no_update, refl, refl)

-- Where the radio can be told to stop, the timeout of the second window brings the device to `Idle`
-- with an answer for the application, whatever the state of the MAC layer.
pub second_window_closes :
    (phy : PhyRxTx TxConfig RfConfig) (vec : BoundedVec) (crypto_of : List ℕ → Crypto)
    (capacity fuel : ℕ) (frame : Frame) (windows : RxWindows) (t : ℕ) (rf : RfConfig)
    (s : Shared phy) (a : RadioResponse)
    → (phy.handle_event s.radio cancel_rx).0 ≡ ok a
    → (answer : NbResponse) × (m : Mac) × (handle_event phy vec crypto_of capacity fuel
          (waiting_for_rx frame windows (rx2 t) rf)
          timeout_fired
          s
        ≡ ret
            (idle, ok answer, record s { radio = (phy.handle_event s.radio cancel_rx).1; mac = m }))
unfolding handle_event handle_reception after_cancel end_window
second_window_closes phy vec crypto_of capacity fuel frame windows t rf s a stopped =
    let (done, answer, completed, answered) = rx2_complete-Answered s.mac in
    (answer, done.1, rw (stopped, completed, answered) refl)
