-- ===== src/Mac/Machine.antt =====
-- lorawan-device/src/mac/mod.rs: `Mac`, the state machine of the MAC layer that the device front ends
-- drive, without the features `certification` and `multicast`.
use lora_rs.Common.{
  ℕ, Bool, true, false, Option, none, some, List, Exec, ret, ◌>>=◌, Result, ok, err,
}
use lora_rs.Common.Int.{ℤ}
use lora_rs.External.{BoundedVec, Crypto, Rng}
use lora_rs.Encoding.MacCommands.{Serializable}
use lora_rs.Radio.{RadioBuffer}
use lora_rs.Region.{Frame, join_frame, data_frame}
use lora_rs.Region.Configuration.{State, RfConfig, TxConfig, create_tx_config}
use lora_rs.Mac.Uplink.{add_mac_command}
use lora_rs.Mac.Settings
use lora_rs.Mac.Settings.{Settings, RxWindows, rx_windows, rx2_rf_config, adjust_power}
use lora_rs.Mac.Session
use lora_rs.Mac.Session.{Session, Response, no_update, join_success, no_join_accept}
use lora_rs.Mac.Session.Transmit
use lora_rs.Mac.Session.Transmit.{SendData}
use lora_rs.Mac.Session.Receive
use lora_rs.Mac.Session.Receive.{Device, Downlink}
use lora_rs.Mac.Otaa
use lora_rs.Mac.Otaa.{Otaa, NetworkCredentials, Joining}

-- `mac::State`
pub data MacState : Type 0 where
  joined : Session → MacState
  joining : Otaa → MacState
  unjoined : MacState

pub record Mac : Type 0 where
  pub settings : Settings
  pub region : State
  pub max_power : ℕ
  pub antenna_gain : ℤ
  pub state : MacState

-- `mac::Error`
pub data Error : Type 0 where
  not_joined : Error

-- `Mac::new`
unfoldable pub new : State → ℕ → ℤ → Mac
new region max_power antenna_gain = record {
  settings = Settings.initial region;
  region = region;
  max_power = max_power;
  antenna_gain = antenna_gain;
  state = unjoined;
}

-- `Mac::join_abp` and `set_session`
unfoldable pub join_abp : List ℕ → List ℕ → List ℕ → Mac → Mac
join_abp nwkskey appskey devaddr m = record m {
  state = joined (Session.new nwkskey appskey devaddr);
}

unfoldable pub set_session : Session → Mac → Mac
set_session s m = record m { state = joined s }

-- What the device needs for a transmission: the two radio configurations and the counter or nonce.
pub record Plan : Type 0 where
  pub tx : TxConfig
  pub windows : RxWindows
  pub number : ℕ

-- The end of `join_otaa` and of `send`: a channel, the power, the windows. `fuel` bounds the loop
-- that draws channels.
unfoldable pub plan : ℕ → Frame → ℕ → ℕ → Mac → Rng → Exec (Plan × Mac × Rng)
unfolding create_tx_config adjust_power rx_windows
plan fuel frame power number m rng = do
  made ← create_tx_config fuel m.region m.settings.data_rate frame rng
  tx ← adjust_power made.0 power m.antenna_gain
  windows ← rx_windows made.2 m.settings made.1
  ret (record { tx = tx; windows = windows; number = number }, record m { region = made.2 }, made.3)

unfoldable pub join_otaa :
    (List ℕ → Crypto)
    → ℕ
    → NetworkCredentials
    → RadioBuffer
    → Mac
    → Rng
    → Exec (Plan × Mac × RadioBuffer × Rng)
unfolding plan
join_otaa crypto_of fuel credentials buf m rng = do
  prepared ← Otaa.prepare_buffer crypto_of (Otaa.new credentials) rng buf
  planned ←
      plan fuel join_frame m.max_power prepared.0 (record m { state = joining prepared.1 })
        prepared.3
  ret (planned.0, planned.1, prepared.2, planned.2)

-- `Mac::send`: the configured power, or the board's.
unfoldable pub power_of : Mac → ℕ
power_of m = elim m.settings.tx_power [ none ↦ m.max_power | some p ↦ p ]

-- The state is matched first: with no session nothing changes.
unfoldable pub send_in :
    BoundedVec
    → (List ℕ → Crypto)
    → ℕ
    → SendData
    → RadioBuffer
    → MacState
    → Mac
    → Rng
    → Exec (Result Plan Error × Mac × RadioBuffer × Rng)
unfolding plan power_of
send_in vec crypto_of fuel d buf (joined s) m rng = do
  prepared ← Transmit.prepare_buffer vec crypto_of s d buf m.settings m.region
  planned ←
      plan fuel data_frame (power_of m) prepared.0 (record m { state = joined prepared.1 }) rng
  ret (ok planned.0, planned.1, prepared.2, planned.2)
send_in vec crypto_of fuel d buf (joining o) m rng = ret (err not_joined, m, buf, rng)
send_in vec crypto_of fuel d buf unjoined m rng = ret (err not_joined, m, buf, rng)

unfoldable pub send :
    BoundedVec
    → (List ℕ → Crypto)
    → ℕ
    → SendData
    → RadioBuffer
    → Mac
    → Rng
    → Exec (Result Plan Error × Mac × RadioBuffer × Rng)
unfolding send_in
send vec crypto_of fuel d buf m rng = send_in vec crypto_of fuel d buf m.state m rng

-- `Mac::add_uplink`: the error of the match is dropped, and the answer is `Ok` in every state.
unfoldable pub add_uplink_in : BoundedVec → Serializable → MacState → Mac → Exec Mac
unfolding add_mac_command
add_uplink_in vec cmd (joined s) m = do
  uplink ← add_mac_command vec s.uplink cmd
  ret (record m { state = joined (record s { uplink = uplink }) })
add_uplink_in vec cmd (joining o) m = ret m
add_uplink_in vec cmd unjoined m = ret m

unfoldable pub add_uplink : BoundedVec → Serializable → Mac → Exec (Result (Unit {0}) Error × Mac)
unfolding add_uplink_in
add_uplink vec cmd m = do m' ← add_uplink_in vec cmd m.state m; ret (ok tt, m')

-- A received frame, with what it may change.
pub record Received : Type 0 where
  pub response : Response
  pub mac : Mac
  pub buffer : RadioBuffer
  pub downlinks : List Downlink

-- The session's part of a reception.
unfoldable pub handle_session :
    BoundedVec
    → (List ℕ → Crypto)
    → ℕ
    → ℕ
    → RfConfig
    → Bool
    → RadioBuffer
    → List Downlink
    → Session
    → Mac
    → Exec Received
handle_session vec crypto_of capacity snr rf ignore_mac buf dl s m = do
  done ← Receive.handle_rx vec crypto_of capacity snr rf.max_payload_len ignore_mac (record {
    session = s;
    settings = m.settings;
    region = m.region;
    buffer = buf;
    downlinks = dl;
  })
  ret (record {
    response = done.0;
    mac = record m {
      state = joined done.1.session;
      settings = done.1.settings;
      region = done.1.region;
    };
    buffer = done.1.buffer;
    downlinks = done.1.downlinks;
  })

-- A session that was derived ends the join; otherwise the device goes on waiting.
unfoldable pub finish_join : Joining → List Downlink → Mac → Option Session → Received
finish_join j dl m (some s) = record {
  response = join_success;
  mac = record m { state = joined s; settings = j.settings; region = j.region };
  buffer = j.buffer;
  downlinks = dl;
}
finish_join j dl m none = record {
  response = no_update;
  mac = record m { settings = j.settings; region = j.region };
  buffer = j.buffer;
  downlinks = dl;
}

unfoldable pub handle_join :
    (List ℕ → Crypto) → RadioBuffer → List Downlink → Otaa → Mac → Exec Received
unfolding finish_join
handle_join crypto_of buf dl o m = do
  j ← Otaa.handle_rx crypto_of o m.region m.settings buf
  ret (finish_join j dl m j.session)

module _ (vec : BoundedVec) (crypto_of : List ℕ → Crypto) (capacity : ℕ) where
  unfoldable pub handle_rx_in :
      ℕ → RfConfig → RadioBuffer → List Downlink → MacState → Mac → Exec Received
  unfolding handle_session handle_join
  handle_rx_in snr rf buf dl (joined s) m =
      handle_session vec crypto_of capacity snr rf false buf dl s m
  handle_rx_in snr rf buf dl (joining o) m = handle_join crypto_of buf dl o m
  handle_rx_in snr rf buf dl unjoined m =
      ret (record { response = no_update; mac = m; buffer = buf; downlinks = dl })

  -- `Mac::handle_rx`
  unfoldable pub handle_rx : ℕ → RfConfig → RadioBuffer → List Downlink → Mac → Exec Received
  unfolding handle_rx_in
  handle_rx snr rf buf dl m = handle_rx_in snr rf buf dl m.state m

  unfoldable pub handle_rxc_in :
      ℕ → RfConfig → RadioBuffer → List Downlink → MacState → Mac → Exec (Result Received Error)
  unfolding handle_session
  handle_rxc_in snr rf buf dl (joined s) m = do
    received ← handle_session vec crypto_of capacity snr rf true buf dl s m
    ret (ok received)
  handle_rxc_in snr rf buf dl (joining o) m = ret (err not_joined)
  handle_rxc_in snr rf buf dl unjoined m = ret (err not_joined)

  -- `Mac::handle_rxc`, the reception of class C.
  unfoldable pub handle_rxc :
      ℕ → RfConfig → RadioBuffer → List Downlink → Mac → Exec (Result Received Error)
  unfolding handle_rxc_in
  handle_rxc snr rf buf dl m = handle_rxc_in snr rf buf dl m.state m

-- `Mac::rx2_complete`
unfoldable pub rx2_complete_in : MacState → Mac → Exec (Response × Mac)
rx2_complete_in (joined s) m = do
  done ← Session.rx2_complete s m.settings m.region
  ret (done.0, record m { state = joined done.1; settings = done.2 })
rx2_complete_in (joining o) m = ret (Otaa.rx2_complete o, m)
rx2_complete_in unjoined m = ret (no_update, m)

unfoldable pub rx2_complete : Mac → Exec (Response × Mac)
unfolding rx2_complete_in
rx2_complete m = rx2_complete_in m.state m

-- `Mac::get_session`, `is_joined` and `get_fcnt_up`
unfoldable pub session_of : MacState → Option Session
session_of (joined s) = some s
session_of (joining o) = none
session_of unjoined = none

unfoldable pub is_joined : Mac → Bool
is_joined m = elim m.state [ joined s ↦ true | joining o ↦ false | unjoined ↦ false ]

unfoldable pub get_fcnt_up : Mac → Option ℕ
get_fcnt_up m = elim m.state [ joined s ↦ some s.fcnt_up | joining o ↦ none | unjoined ↦ none ]

-- `Mac::get_rxc_config`: the second window at the present data rate.
unfoldable pub get_rxc_config : Mac → Exec RfConfig
unfolding rx2_rf_config
get_rxc_config m = rx2_rf_config m.region m.settings m.settings.data_rate
