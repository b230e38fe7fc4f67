-- ===== src/Mac/Session/Tests.antt =====
-- Sending and receiving at concrete values.
use lora_rs.Common.{
  ◌%◌, ℕ, ◌-◌, ◌≡◌, ◌≢◌, refl, true, false, none, some, List, [], ◌∷◌, ◌++◌, length, take,
  replicate, ret, ok, arith, All,
}
use lora_rs.Common.Bits.{IsByte}
use lora_rs.External.{Crypto, bounded_list}
use lora_rs.Encoding.MacCommands.{commands}
use lora_rs.Encoding.Types.{dr1, dr5}
use lora_rs.Encoding.Frame.Layout.{DataView, unconfirmed_down, parse_data, mic}
use lora_rs.Encoding.Frame.Data.Middle.{data_mic}
use lora_rs.Encoding.Frame.Data.{DataFrame, data_payload, build_into}
use lora_rs.Encoding.Frame.Data.RoundTrip.{IsFrame}
use lora_rs.Mac.Session.Receive.Delivery.{Delivered, handle_rx-Delivered}
use lora_rs.Radio.{RadioBuffer, for_read}
use lora_rs.Region.Dynamic.Regions.{new_eu868}
use lora_rs.Region.Configuration.{State, dynamic, eu868_region}
use lora_rs.Mac.Counter.{next_fcnt_down}
use lora_rs.Mac.Uplink.{empty_uplink}
use lora_rs.Mac.Settings.{Settings}
use lora_rs.Mac.Session.{Session, downlink_received, no_update}
use lora_rs.Mac.Session.Transmit.{SendData, prepare_buffer}
use lora_rs.Mac.Session.Transmit.Carried.{Ready}
use lora_rs.Mac.Session.Transmit.Delivery.{Sent, prepare_buffer-Sent}
use lora_rs.Mac.Session.Receive.{Device, handle_rx}
use lora_rs.Mac.Session.Receive.Replay.{Reported, handle_rx-Reported}
use lora_rs.Mac.Session.Receive.Refused.{cleared, wire_of, handle_rx-forged, handle_rx-replayed}

-- A cipher that leaves a block, and a code made of lengths.
abbrev toy : List ℕ → Crypto
toy key = record {
  encrypt_block = λ block. block;
  calculate_mic = λ b0 frame. length frame ∷ length b0 ∷ 2 ∷ 3 ∷ [];
}

abbrev connected : Session
connected = record {
  uplink = empty_uplink;
  confirmed = false;
  nwkskey = [];
  appskey = [];
  devaddr = 4 ∷ 3 ∷ 2 ∷ 1 ∷ [];
  fcnt_up = 200;
  fcnt_down = some 17;
  adr_ack_cnt = 3;
}

abbrev set_up : Settings
set_up = record {
  data_rate = dr5;
  rx1_delay = 1000;
  accept_delay1 = 5000;
  accept_delay2 = 6000;
  tx_power = none;
  rx1_dr_offset = 2;
  rx2_data_rate = some dr1;
  rx2_frequency = none;
  adr_enabled = true;
}

abbrev eu : State
eu = dynamic eu868_region new_eu868

-- A downlink with counter 18: one byte on port 7.
abbrev wire : List ℕ
wire = 0x60 ∷ 4 ∷ 3 ∷ 2 ∷ 1 ∷ 0 ∷ 18 ∷ 0 ∷ 7 ∷ 73 ∷ 10 ∷ 16 ∷ 2 ∷ 3 ∷ []

abbrev heard : List ℕ → Session → Device
heard bytes s = record {
  session = s;
  settings = set_up;
  region = eu;
  buffer = record { packet = bytes ++ 0 ∷ 0 ∷ []; pos = length bytes };
  downlinks = [];
}

abbrev after : Device
after = record {
  session = record connected { fcnt_up = 201; fcnt_down = some 18; adr_ack_cnt = 0 };
  settings = set_up;
  region = eu;
  buffer = record {
    packet = 0x60 ∷ 4 ∷ 3 ∷ 2 ∷ 1 ∷ 0 ∷ 18 ∷ 0 ∷ 7 ∷ 72 ∷ 10 ∷ 16 ∷ 2 ∷ 3 ∷ 0 ∷ 0 ∷ [];
    pos = 14;
  };
  downlinks = record { bytes = 72 ∷ []; fport = 7 } ∷ [];
}

wire_read : for_read (heard wire connected).buffer ≡ ret wire
unfolding for_read
wire_read = refl

wire_handled :
    handle_rx bounded_list toy 1 0 59 false (heard wire connected)
    ≡ ret (downlink_received 18, after)
unfolding handle_rx commands bounded_list
wire_handled = refl

handle_rx-Reported_example : Reported toy wire connected after.session 18
handle_rx-Reported_example =
    handle_rx-Reported bounded_list toy 1 0 59 false (heard wire connected) after wire 18 wire_read
      wire_handled

abbrev downlink : DataFrame
downlink = record {
  frame_type = unconfirmed_down;
  dev_addr = 4 ∷ 3 ∷ 2 ∷ 1 ∷ [];
  adr = false;
  adr_ack_req = false;
  ack = false;
  f_pending = false;
  fcnt = 18;
  f_opts = [];
  payload = data_payload 7 (72 ∷ []);
}

downlink-IsFrame : IsFrame downlink
downlink-IsFrame = record {
  address = refl;
  counter = omega arith;
  port = λ p bytes h. ground arith;
}

toy_mic_four : (b0 frame : List ℕ) → length ((toy connected.nwkskey).calculate_mic b0 frame) ≡ 4
toy_mic_four b0 frame = refl

downlink_built :
    build_into downlink 64 (toy connected.nwkskey) (some (toy connected.appskey)) ≡ ret (ok wire)
unfolding build_into
downlink_built = refl

is_next : next_fcnt_down connected.fcnt_down (downlink.fcnt % 65536) ≡ some downlink.fcnt
unfolding next_fcnt_down
is_next = refl

handle_rx-Delivered_example :
    (d' : Device) × (handle_rx bounded_list toy 1 0 59 false (heard wire connected)
      ≡ ret (downlink_received 18, d'))
    × Delivered (heard wire connected) d' 18 7 (72 ∷ [])
handle_rx-Delivered_example =
    handle_rx-Delivered bounded_list toy 1 0 59 false (heard wire connected) downlink 7 64 (72 ∷ [])
      wire downlink-IsFrame toy_mic_four refl refl downlink_built wire_read (omega arith)
      (omega arith) is_next refl (omega arith)

wire_bytes : All IsByte wire
wire_bytes = (
  omega arith,
  (
    omega arith,
    (
      omega arith,
      (
        omega arith,
        (
          omega arith,
          (
            omega arith,
            (
              omega arith,
              (
                omega arith,
                (
                  omega arith,
                  (omega arith, (omega arith, (omega arith, (omega arith, (omega arith, tt))))),
                ),
              ),
            ),
          ),
        ),
      ),
    ),
  ),
)

again_read : for_read (heard wire after.session).buffer ≡ ret wire
unfolding for_read
again_read = refl

handle_rx-replayed_example :
    handle_rx bounded_list toy 1 0 59 false (heard wire after.session)
    ≡ ret (no_update, cleared false (heard wire after.session))
handle_rx-replayed_example =
    handle_rx-replayed bounded_list toy 1 0 59 false (heard wire connected) after
      (heard wire after.session) wire 18 wire_read wire_bytes wire_handled refl again_read
      (omega arith)

-- The same downlink with another code.
abbrev forged : List ℕ
forged = 0x60 ∷ 4 ∷ 3 ∷ 2 ∷ 1 ∷ 0 ∷ 18 ∷ 0 ∷ 7 ∷ 73 ∷ 10 ∷ 16 ∷ 2 ∷ 4 ∷ []

abbrev forged_view : DataView
forged_view = record {
  bytes = forged;
  layout = record {
    frame_type = unconfirmed_down;
    fhdr_len = 7;
    f_port_offset = some 8;
    frm_start = 9;
    frm_end = 10;
  };
}

forged_parsed : parse_data forged ≡ ok forged_view
unfolding parse_data
forged_parsed = refl

forged_read : for_read (heard forged connected).buffer ≡ ret forged
unfolding for_read
forged_read = refl

forged_code :
    (n : ℕ)
    → next_fcnt_down connected.fcnt_down (wire_of forged_view) ≡ some n
    → mic forged_view ≢ ret (data_mic (toy connected.nwkskey) (take (length forged - 4) forged) n)
unfolding mic
forged_code n found e = cc

handle_rx-forged_example :
    handle_rx bounded_list toy 1 0 59 false (heard forged connected)
    ≡ ret (no_update, cleared false (heard forged connected))
handle_rx-forged_example =
    handle_rx-forged bounded_list toy 1 0 59 false (heard forged connected) forged forged_view
      forged_read (omega arith) forged_parsed forged_code

connected-Ready : Ready toy connected []
connected-Ready = record {
  address = refl;
  counter = omega arith;
  queue = record { bytes = refl; wire = tt; fits = omega arith };
  mic_four = λ b0 frame. refl;
}

abbrev reading : SendData
reading = record { bytes = 21 ∷ 5 ∷ []; fport = 7; confirmed = true }

prepare_buffer-Sent_example :
    (t : Session) × (b : RadioBuffer) × (prepare_buffer bounded_list toy connected reading
        (record { packet = replicate 64 0; pos = 0 })
        set_up
        eu
      ≡ ret (connected.fcnt_up, t, b))
    × Sent toy connected [] set_up eu reading t b
prepare_buffer-Sent_example =
    prepare_buffer-Sent bounded_list toy connected [] reading
      (record { packet = replicate 64 0; pos = 0 }) set_up eu connected-Ready (λ zero. cc)
      (omega arith) (omega arith)
