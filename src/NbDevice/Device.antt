-- ===== src/NbDevice/Device.antt =====
-- The non-blocking device as the application holds it: `Device` of lorawan-device/src/nb_device/mod.rs.
use lora_rs.Common.{ℕ, Bool, true, false, ◌&&◌, Option, List, [], Exec, ret, ◌>>=◌, Result, ok}
use lora_rs.Common.Int.{ℤ}
use lora_rs.External.{BoundedVec, Crypto, Rng, PhyRxTx}
use lora_rs.Encoding.Types.{Dr}
use lora_rs.Radio
use lora_rs.Region.Configuration.{State, RfConfig, TxConfig}
use lora_rs.Mac.Session.{Session}
use lora_rs.Mac.Session.Transmit.{SendData}
use lora_rs.Mac.Session.Receive.{Downlink}
use lora_rs.Mac.Otaa.{NetworkCredentials}
use lora_rs.Mac.Machine
use lora_rs.Mac.Machine.{MacState, joined, joining, unjoined, Mac}
use lora_rs.NbDevice.{NbState, idle, NbResponse, join_success}
use lora_rs.NbDevice.Events
use lora_rs.NbDevice.Events.{Error, Event, Shared}

-- `JoinMode`: over the air, or with the network key, the application key and the address.
pub data JoinMode : Type 0 where
  otaa : NetworkCredentials → JoinMode
  abp : List ℕ → List ℕ → List ℕ → JoinMode

-- `Mac::get_session_mut` in `set_adr`: the count starts again, where there is a session.
unfoldable pub reset_adr_ack_cnt : MacState → MacState
reset_adr_ack_cnt (joined s) = joined (record s { adr_ack_cnt = 0 })
reset_adr_ack_cnt other = other

unfoldable pub is_idle : NbState → Bool
is_idle idle = true
is_idle _ = false

module _ (phy : PhyRxTx TxConfig RfConfig) where
  pub record Device : Type 0 where
    pub state : NbState
    pub shared : Shared phy

  -- `Device::new`, with the radio's `MAX_RADIO_POWER` and `ANTENNA_GAIN`, for a buffer of `n` bytes.
  unfoldable pub new : State → phy.Radio → Rng → ℕ → ℕ → ℤ → Device
  unfolding Machine.new Radio.new
  new region radio rng n max_power antenna_gain = record {
    state = idle;
    shared = record {
      radio = radio;
      rng = rng;
      tx_buffer = Radio.new n;
      mac = Machine.new region max_power antenna_gain;
      downlink = [];
    };
  }

  unfoldable pub get_datarate : Device → Dr
  get_datarate d = d.shared.mac.settings.data_rate

  unfoldable pub set_datarate : Dr → Device → Device
  set_datarate dr d = record d {
    shared = record d.shared {
      mac = record d.shared.mac { settings = record d.shared.mac.settings { data_rate = dr } };
    };
  }

  unfoldable pub get_adr : Device → Bool
  get_adr d = d.shared.mac.settings.adr_enabled

  unfoldable pub set_adr : Bool → Device → Device
  unfolding reset_adr_ack_cnt
  set_adr true d = record d {
    shared = record d.shared {
      mac = record d.shared.mac { settings = record d.shared.mac.settings { adr_enabled = true } };
    };
  }
  set_adr false d = record d {
    shared = record d.shared {
      mac = record d.shared.mac {
        settings = record d.shared.mac.settings { adr_enabled = false };
        state = reset_adr_ack_cnt d.shared.mac.state;
      };
    };
  }

  unfoldable pub ready_to_send_data : Device → Bool
  unfolding is_idle Machine.is_joined
  ready_to_send_data d = is_idle d.state && Machine.is_joined d.shared.mac

  unfoldable pub set_session : Session → Device → Device
  unfolding Machine.set_session
  set_session s d = record d {
    shared = record d.shared { mac = Machine.set_session s d.shared.mac };
  }

  -- `pop` is that of heapless::Vec.
  unfoldable pub take_downlink :
      (pop : List Downlink → Option Downlink × List Downlink) → Device → Option Downlink × Device
  take_downlink pop d =
      let (taken, left) = pop d.shared.downlink in
      (taken, record d { shared = record d.shared { downlink = left } })

  module _ (vec : BoundedVec) (crypto_of : List ℕ → Crypto) (capacity fuel : ℕ) where
    unfoldable pub handle_event : Event phy → Device → Exec (Result NbResponse (Error phy) × Device)
    unfolding Events.handle_event
    handle_event e d = do
      o ← Events.handle_event phy vec crypto_of capacity fuel d.state e d.shared
      ret (o.1, record { state = o.0; shared = o.2 })

    unfoldable pub join : JoinMode → Device → Exec (Result NbResponse (Error phy) × Device)
    unfolding handle_event Machine.join_abp
    join (otaa credentials) d = handle_event (Events.join credentials) d
    join (abp nwkskey appskey devaddr) d = ret (
      ok join_success,
      record d {
        shared = record d.shared { mac = Machine.join_abp nwkskey appskey devaddr d.shared.mac };
      },
    )

    unfoldable pub send : SendData → Device → Exec (Result NbResponse (Error phy) × Device)
    unfolding handle_event
    send data_sent d = handle_event (Events.send_data_request data_sent) d
