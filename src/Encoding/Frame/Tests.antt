-- ===== src/Encoding/Frame/Tests.antt =====
-- Frames at concrete values.
use lora_rs.Common.{
  ℕ, ◌-◌, ◌≡◌, ◌↔◌, ◌%◌, refl, true, false, none, some, List, [], ◌∷◌, ◌++◌, length, take, drop,
  ret, Result, ok, arith, get_or, Returns,
}
use lora_rs.External.{Crypto}
use lora_rs.Encoding.Frame.Layout.{
  Error, unconfirmed_up, FrameLayout, DataView, Fhdr, validate, parse_data, fhdr, dev_addr, fctrl,
  fcnt, f_opts, f_port, mic,
}
use lora_rs.Encoding.Frame.Layout.Accepts.{IsDataFrame, validate_accepts}
use lora_rs.Encoding.Frame.Layout.Accessors.{accessors_return}
use lora_rs.Encoding.Frame.Security.{helper_block, encrypt_frm_data_payload}
use lora_rs.Encoding.Frame.Security.Keystream.{counter_mode, encrypt_frm_data_payload-counter_mode}
use lora_rs.Encoding.Frame.Data.{
  DataFrame, data_payload, build_into, check_mic_and_decrypt_in_place,
}
use lora_rs.Encoding.Frame.Data.RoundTrip.{IsFrame, Shows}
use lora_rs.Encoding.Frame.Data.Delivery.{Built, build_into-Built, built_frame_received}
use lora_rs.Encoding.Frame.Data.Receive.{Authentic, check_mic-Authentic}
use lora_rs.Encoding.Frame.Join.{
  JoinRequest, build_request, JoinAccept, build_accept, check_and_decrypt_accept,
}
use lora_rs.Encoding.Frame.Join.Request.{ShowsRequest, request_round_trip}
use lora_rs.Encoding.Frame.Join.Delivery.{ShowsAccept, accept_round_trip}

-- A cipher that leaves a block, and a code made of lengths.
abbrev toy : Crypto
toy = record {
  encrypt_block = λ block. block;
  calculate_mic = λ b0 frame. length frame ∷ length b0 ∷ 2 ∷ 3 ∷ [];
}

toy_mic_four : (b0 frame : List ℕ) → length (toy.calculate_mic b0 frame) ≡ 4
toy_mic_four b0 frame = refl

-- An uplink of three bytes on port 7, with one MAC answer in FOpts.
abbrev uplink : DataFrame
uplink = record {
  frame_type = unconfirmed_up;
  dev_addr = 4 ∷ 3 ∷ 2 ∷ 1 ∷ [];
  adr = true;
  adr_ack_req = false;
  ack = true;
  f_pending = false;
  fcnt = 0x1_0203;
  f_opts = 6 ∷ 255 ∷ 10 ∷ [];
  payload = data_payload 7 (72 ∷ 105 ∷ 33 ∷ []);
}

uplink-IsFrame : IsFrame uplink
uplink-IsFrame = record { address = refl; counter = omega arith; port = λ p bytes h. ground arith }

build_into-Built_example :
    (out : Result (List ℕ) Error) × (build_into uplink 64 toy (some toy) ≡ ret out)
    × Built uplink toy 64 (some toy) out
build_into-Built_example = build_into-Built uplink toy 64 (some toy) uplink-IsFrame toy_mic_four

-- The bytes of that uplink.
abbrev wire : List ℕ
wire = 0x40 ∷ 4 ∷ 3 ∷ 2 ∷ 1 ∷ 0xa3 ∷ 3 ∷ 2 ∷ 6 ∷ 255 ∷ 10 ∷ 7 ∷ 73 ∷ 105 ∷ 33 ∷ 15 ∷ 16 ∷ 2 ∷ 3 ∷ []

uplink_built : build_into uplink 64 toy (some toy) ≡ ret (ok wire)
unfolding build_into
uplink_built = refl

built_frame_received_example :
    (v : DataView) × (check_mic_and_decrypt_in_place wire toy (some toy) uplink.fcnt ≡ ret (ok v))
    × Shows uplink v
built_frame_received_example =
    built_frame_received uplink toy (some toy) 64 wire uplink-IsFrame toy_mic_four uplink_built

check_mic-Authentic_example :
    (r : Result DataView Error) × (check_mic_and_decrypt_in_place wire toy none 0x1_0203 ≡ ret r)
    × Authentic wire toy 0x1_0203 r
check_mic-Authentic_example = check_mic-Authentic wire toy none 0x1_0203

validate_accepts_example : ((l : FrameLayout) × (validate wire ≡ ok l)) ↔ IsDataFrame wire
validate_accepts_example = validate_accepts wire

abbrev seen : DataView
seen = record {
  bytes = wire;
  layout = record {
    frame_type = unconfirmed_up;
    fhdr_len = 10;
    f_port_offset = some 11;
    frm_start = 12;
    frm_end = 15;
  };
}

wire_parsed : parse_data wire ≡ ok seen
unfolding parse_data
wire_parsed = refl

accessors_return_example :
    (h : Fhdr) × (fhdr seen ≡ ret h)
    × ((a : List ℕ) × (dev_addr h ≡ ret a) × (length a ≡ 4))
    × Returns (fctrl h)
    × Returns (fcnt h)
    × ((o : List ℕ) × (f_opts h ≡ ret o) × (length o ≡ get_or wire 5 0 % 16))
    × Returns (f_port seen)
    × ((m : List ℕ) × (mic seen ≡ ret m) × (length m ≡ 4))
accessors_return_example = accessors_return wire seen wire_parsed

encrypt_frm_data_payload-counter_mode_example :
    encrypt_frm_data_payload wire 12 15 0x1_0203 toy
    ≡ ret (
        take 12 wire
        ++ (counter_mode toy (helper_block wire 0x01 0x1_0203 0) 0 (take (15 - 12) (drop 12 wire))
            ++ drop 15 wire))
encrypt_frm_data_payload-counter_mode_example =
    encrypt_frm_data_payload-counter_mode wire 12 15 0x1_0203 toy (omega arith) (omega arith)
      (omega arith) (omega arith)

abbrev asking : JoinRequest
asking = record {
  join_eui = 1 ∷ 2 ∷ 3 ∷ 4 ∷ 5 ∷ 6 ∷ 7 ∷ 8 ∷ [];
  dev_eui = 8 ∷ 7 ∷ 6 ∷ 5 ∷ 4 ∷ 3 ∷ 2 ∷ 1 ∷ [];
  dev_nonce = 0xcd ∷ 0xab ∷ [];
}

request_round_trip_example :
    (bytes : List ℕ) × (build_request asking 23 toy ≡ ok bytes) × ShowsRequest asking bytes toy
request_round_trip_example =
    request_round_trip asking 23 toy (record { eui = refl; device = refl; nonce = refl })
      toy_mic_four (omega arith)

-- An answer to it, with no channel list.
abbrev answering : JoinAccept
answering = record {
  join_nonce = 1 ∷ 1 ∷ 1 ∷ [];
  net_id = 2 ∷ 2 ∷ 2 ∷ [];
  dev_addr = 4 ∷ 3 ∷ 2 ∷ 1 ∷ [];
  dl_settings = 0x12;
  rx_delay = 5;
  c_f_list = none;
}

abbrev same_block : List ℕ → List ℕ
same_block block = block

same_undone : (block : List ℕ) → length block ≡ 16 → toy.encrypt_block (same_block block) ≡ block
same_undone block h = refl

same_size : (block : List ℕ) → length block ≡ 16 → length (same_block block) ≡ 16
same_size block h = h

accept_round_trip_example :
    (bytes found : List ℕ) × (build_accept answering 17 toy same_block ≡ ok bytes)
    × (check_and_decrypt_accept bytes toy ≡ ret (ok found))
    × ShowsAccept answering found
accept_round_trip_example =
    accept_round_trip answering 17 toy same_block
      (record { nonce = refl; net = refl; address = refl; list = tt }) toy_mic_four same_undone
      same_size (omega arith)
