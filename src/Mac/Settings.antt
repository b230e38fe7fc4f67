-- ===== src/Mac/Settings.antt =====
-- lorawan-device/src/mac/mod.rs: the `Configuration` of the MAC layer and the receive windows that
-- follow from it; radio.rs: `TxConfig::adjust_power`.
pub mod Windows
use lora_rs.Common.{
  ℕ, ◌+◌, ◌-◌, ◌*◌, Bool, true, ◌&&◌, Option, none, some, ltb, leb, if◌then◌else◌, Exec, ret, panic,
  unwrap, ◌>>=◌,
}
use lora_rs.Common.Int.{ℤ, pos, negsuc, ◌-ℤ◌, leb_ℤ}
use lora_rs.Encoding.Types.{Dr, to_u8}
use lora_rs.Modulation
use lora_rs.Region.{Datarate, TxChannel, Frame, join_frame, data_frame, Window, window1, window2}
use lora_rs.Region.Configuration.{
  State, RfConfig, TxConfig, get_datarate, get_rx_datarate, get_coding_rate, get_rx2_frequency,
  get_default_datarate,
}

-- region/constants.rs
abbrev pub receive_delay1 : ℕ
receive_delay1 = 1000

abbrev pub join_accept_delay1 : ℕ
join_accept_delay1 = 5000

abbrev pub join_accept_delay2 : ℕ
join_accept_delay2 = 6000

-- `mac::Configuration`
pub record Settings : Type 0 where
  pub data_rate : Dr
  pub rx1_delay : ℕ
  pub accept_delay1 : ℕ
  pub accept_delay2 : ℕ
  pub tx_power : Option ℕ
  pub rx1_dr_offset : ℕ
  pub rx2_data_rate : Option Dr
  pub rx2_frequency : Option ℕ
  pub adr_enabled : Bool

-- The configuration that `Mac::new` makes.
unfoldable pub initial : State → Settings
initial region = record {
  data_rate = get_default_datarate region;
  rx1_delay = receive_delay1;
  accept_delay1 = join_accept_delay1;
  accept_delay2 = join_accept_delay2;
  tx_power = none;
  rx1_dr_offset = 0;
  rx2_data_rate = none;
  rx2_frequency = none;
  adr_enabled = true;
}

unfoldable pub del_to_delay_ms : ℕ → ℕ
del_to_delay_ms del = if leb 2 del && leb del 15 then del * 1000 else receive_delay1

unfoldable pub get_rx_delay : Settings → Frame → Window → ℕ
get_rx_delay c join_frame window1 = c.accept_delay1
get_rx_delay c join_frame window2 = c.accept_delay2
get_rx_delay c data_frame window1 = c.rx1_delay
get_rx_delay c data_frame window2 = c.rx1_delay + 1000

-- `build_rf_config`: a data rate that the region lacks is replaced by its default for RX2.
unfoldable pub build_rf_config : State → Settings → ℕ → Dr → Dr → Exec RfConfig
unfolding get_datarate get_rx_datarate to_u8
build_rf_config region c frequency dr tx_dr = do
  found ← get_datarate region (to_u8 dr)
  datarate ← elim found [
    | some d ↦ ret d
    | none ↦ (do
      fallback ← get_datarate region (to_u8 (get_rx_datarate region tx_dr c.rx1_dr_offset window2))
      unwrap fallback)
  ]
  ret (record {
    frequency = frequency;
    bb = Modulation.new datarate.spreading_factor datarate.bandwidth (get_coding_rate region);
    max_payload_len = datarate.max_mac_payload_size;
  })

unfoldable pub rx2_rf_config : State → Settings → Dr → Exec RfConfig
unfolding build_rf_config get_rx_datarate get_rx2_frequency
rx2_rf_config region c tx_dr =
    let frequency : ℕ = elim c.rx2_frequency [ some f ↦ f | none ↦ get_rx2_frequency region ] in
    let dr : Dr = elim c.rx2_data_rate [
      | some d ↦ d
      | none ↦ get_rx_datarate region tx_dr c.rx1_dr_offset window2
    ] in
    build_rf_config region c frequency dr tx_dr

pub record RxWindows : Type 0 where
  pub rx1 : RfConfig
  pub rx2 : RfConfig

unfoldable pub rx_windows : State → Settings → TxChannel → Exec RxWindows
unfolding build_rf_config rx2_rf_config get_rx_datarate
rx_windows region c tx = do
  rx1 ←
      build_rf_config region c tx.rx1_frequency
        (get_rx_datarate region tx.dr c.rx1_dr_offset window1) tx.dr
  rx2 ← rx2_rf_config region c tx.dr
  ret (record { rx1 = rx1; rx2 = rx2 })

-- `n as i8` on a `u8`.
unfoldable pub as_i8 : ℕ → ℤ
as_i8 n = if ltb n 128 then pos n else negsuc (255 - n)

-- `adjust_power`. The subtraction overflows outside -128 to 127, which panics where overflow is
-- checked.
unfoldable pub adjust_power : TxConfig → ℕ → ℤ → Exec TxConfig
unfolding as_i8
adjust_power tx max_power antenna_gain =
    let pw = tx.pw -ℤ antenna_gain in
    let limited = if leb_ℤ pw (as_i8 max_power) then pw else as_i8 max_power in
    if leb_ℤ (negsuc 127) pw && leb_ℤ pw (pos 127) then ret (record tx { pw = limited }) else panic
