-- ===== src/Mac/Session/Transmit.antt =====
-- `Session::prepare_buffer` of lorawan-device/src/mac/session.rs: an uplink frame from the
-- application's data and the queued MAC commands.
pub mod Carried
pub mod Delivery
use lora_rs.Common.{
  ℕ, ◌+◌, Bool, true, false, ◌&&◌, Option, some, List, [], length, leb, ◌==◌, if◌then◌else◌,
  is_some, Exec, ret, panic, ◌>>=◌, Result, ok, err, index,
}
use lora_rs.External.{BoundedVec, Crypto}
use lora_rs.Encoding.Frame.Layout.{Error, confirmed_up, unconfirmed_up}
use lora_rs.Encoding.Frame.Data.{DataFrame, Payload, data_payload, mac_commands, build_into}
use lora_rs.Radio.{RadioBuffer, clear, extend_from_slice}
use lora_rs.Region.Configuration.{State}
use lora_rs.Mac.Uplink.{Uplink, clear_downlink_confirmation, clear_mac_commands}
use lora_rs.Mac.Settings.{Settings}
use lora_rs.Mac.Session.{Session, adr_ack_limit, next_lower_datarate}

-- `mac::SendData`
pub record SendData : Type 0 where
  pub bytes : List ℕ
  pub fport : ℕ
  pub confirmed : Bool

-- ADRACKReq: the data rate is looked up only where the tests before it hold.
unfoldable pub wants_adr_ack : Session → Settings → State → Exec Bool
unfolding next_lower_datarate
wants_adr_ack s c region =
    if c.adr_enabled && leb adr_ack_limit s.adr_ack_cnt
    then (do lower ← next_lower_datarate region c.data_rate; ret (is_some lower))
    else ret false

-- FOpts and the payload: port 0 sends the queued commands as the payload, and no data with it.
unfoldable pub f_opts_of : SendData → Uplink → List ℕ
f_opts_of d u = if d.fport == 0 then [] else u.pending

unfoldable pub payload_of : SendData → Uplink → Exec Payload
payload_of d u =
    if d.fport == 0
    then (if length d.bytes == 0 then ret (mac_commands u.pending) else panic)
    else ret (data_payload d.fport d.bytes)

unfoldable pub frame_for : Session → Settings → SendData → Bool → Payload → DataFrame
unfolding f_opts_of
frame_for s c d adr_ack_req payload = record {
  frame_type = if d.confirmed then confirmed_up else unconfirmed_up;
  dev_addr = s.devaddr;
  adr = c.adr_enabled;
  adr_ack_req = adr_ack_req;
  ack = s.uplink.confirmed;
  f_pending = false;
  fcnt = s.fcnt_up;
  f_opts = f_opts_of d s.uplink;
  payload = payload;
}

-- `Result::unwrap`
unfoldable pub buffer_or_panic : Result RadioBuffer (Unit {0}) → Exec RadioBuffer
buffer_or_panic (ok buffer) = ret buffer
buffer_or_panic (err full) = panic

-- The packet in the cleared buffer, with the two panics of the end.
unfoldable pub store_packet : RadioBuffer → Result (List ℕ) Error → Exec RadioBuffer
unfolding clear extend_from_slice buffer_or_panic
store_packet tx (err e) = panic
store_packet tx (ok packet) = buffer_or_panic (extend_from_slice (clear tx) packet)

-- The session, its queue and the buffer after it, and the counter used. `crypto_of` makes the block
-- cipher of a key.
unfoldable pub prepare_buffer :
    BoundedVec
    → (List ℕ → Crypto)
    → Session
    → SendData
    → RadioBuffer
    → Settings
    → State
    → Exec (ℕ × Session × RadioBuffer)
unfolding wants_adr_ack payload_of frame_for build_into store_packet clear_mac_commands
prepare_buffer vec crypto_of s d tx c region = do
  adr_ack_req ← wants_adr_ack s c region
  payload ← payload_of d s.uplink
  built ←
      build_into (frame_for s c d adr_ack_req payload) 256 (crypto_of s.nwkskey)
        (some (crypto_of s.appskey))
  buffer ← store_packet tx built
  uplink ← clear_mac_commands vec true (clear_downlink_confirmation s.uplink)
  ret (s.fcnt_up, record s { uplink = uplink; confirmed = d.confirmed }, buffer)
