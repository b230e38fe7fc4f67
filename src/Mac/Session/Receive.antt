-- ===== src/Mac/Session/Receive.antt =====
-- `Session::handle_rx` of lorawan-device/src/mac/session.rs: a downlink that the radio received, with
-- the features `certification` and `multicast` off, as by default.
pub mod Authentic
pub mod Replay
pub mod Refused
pub mod Delivery
use lora_rs.Common.{
  ℕ, ◌+◌, ◌*◌, Bool, true, false, not, ◌&&◌, Option, none, some, List, [], ◌∷◌, length, ltb, ◌==◌,
  if◌then◌else◌, Exec, ret, panic, ◌>>=◌, Result, ok, err, unwrap,
}
use lora_rs.External.{BoundedVec, Crypto}
use lora_rs.Encoding.MacCommands.{commands, parse_downlink}
use lora_rs.Encoding.Frame.Layout.{
  Error, DataView, parse_data, fhdr, f_port, fcnt, f_opts, is_confirmed, mhdr_len, mic_len,
}
use lora_rs.Encoding.Frame.Data.{
  validate_mic, decrypt_in_place, FrmPayload, frm_none, frm_data, frm_mac_commands, frm_payload,
}
use lora_rs.Radio.{RadioBuffer, for_read, write_front}
use lora_rs.Region.Configuration.{State}
use lora_rs.Mac.Counter.{next_fcnt_down}
use lora_rs.Mac.Uplink.{Uplink, set_downlink_confirmation, clear_mac_commands}
use lora_rs.Mac.Settings.{Settings}
use lora_rs.Mac.Session.{
  Session, Response, no_update, session_expired, downlink_received, rx2_complete,
}
use lora_rs.Mac.Session.Commands.{handle_downlink_macs}

-- `Downlink`: the application data and its port.
pub record Downlink : Type 0 where
  pub bytes : List ℕ
  pub fport : ℕ

-- What the function changes.
pub record Device : Type 0 where
  pub session : Session
  pub settings : Settings
  pub region : State
  pub buffer : RadioBuffer
  pub downlinks : List Downlink

-- The queue, cleared where the window belongs to class A.
unfoldable pub clear_unless : BoundedVec → Bool → Uplink → Exec Uplink
unfolding clear_mac_commands
clear_unless vec true u = ret u
clear_unless vec false u = clear_mac_commands vec false u

module _ (vec : BoundedVec) (crypto_of : List ℕ → Crypto) (capacity : ℕ) (snr : ℕ) where
  -- The MAC commands of some bytes.
  unfoldable pub run_macs : List ℕ → Device → Exec Device
  unfolding handle_downlink_macs
  run_macs bytes d = do
    after ←
        handle_downlink_macs vec d.session.uplink d.settings d.region
          (commands parse_downlink bytes) snr
    ret (record d {
      session = record d.session { uplink = after.0 };
      settings = after.1;
      region = after.2;
    })

  -- Commands in the payload, where it is one of MAC commands.
  unfoldable pub run_payload : FrmPayload → Device → Exec Device
  unfolding run_macs
  run_payload (frm_mac_commands cmds) d = run_macs cmds d
  run_payload (frm_data bytes) d = ret d
  run_payload frm_none d = ret d

  -- The commands of FOpts, then those of the payload.
  unfoldable pub run_frame : DataView → Device → Exec Device
  unfolding fhdr f_opts frm_payload run_macs run_payload
  run_frame plain d = do
    header ← fhdr plain
    opts ← f_opts header
    d' ← run_macs opts d
    payload ← frm_payload plain
    run_payload payload d'

  -- `Vec::from_slice(data).unwrap()`, and `dl.push`, which drops the downlink where the vector is full.
  unfoldable pub store_downlink : Option ℕ → FrmPayload → List Downlink → Exec (List Downlink)
  store_downlink (some port) (frm_data bytes) downlinks =
      elim (vec.extend_from_slice ℕ 256 [] bytes) [
        | err full ↦ panic
        | ok copy ↦
            ret
              (elim (vec.push Downlink capacity downlinks (record { bytes = copy; fport = port })) [
                | ok longer ↦ longer
                | err refused ↦ downlinks
              ])
      ]
  store_downlink port payload downlinks = ret downlinks

  -- The end of an accepted downlink: the uplink counter and the application data.
  unfoldable pub deliver : DataView → ℕ → Device → Exec (Response × Device)
  unfolding f_port frm_payload store_downlink
  deliver plain full d = if d.session.fcnt_up == 0xffff_ffff then ret (session_expired, d) else (do
    port ← f_port plain
    payload ← frm_payload plain
    stored ← store_downlink port payload d.downlinks
    ret (
      downlink_received full,
      record d {
        session = record d.session { fcnt_up = d.session.fcnt_up + 1 };
        downlinks = stored;
      },
    ))

  -- `Result::unwrap`
  unfoldable pub unwrap_view : Result DataView Error → Exec DataView
  unwrap_view (ok v) = ret v
  unwrap_view (err e) = panic

  -- The counters of the session and the bytes of the buffer.
  unfoldable pub record_downlink : ℕ → DataView → Device → Device
  unfolding write_front
  record_downlink full plain d = record d {
    session = record d.session { fcnt_down = some full; adr_ack_cnt = 0 };
    buffer = write_front d.buffer plain.bytes;
  }

  unfoldable pub run_unless : Bool → DataView → Device → Exec Device
  unfolding run_frame
  run_unless true plain d = ret d
  run_unless false plain d = run_frame plain d

  unfoldable pub mark_confirmation : Bool → Device → Device
  mark_confirmation true d = record d {
    session = record d.session { uplink = set_downlink_confirmation d.session.uplink };
  }
  mark_confirmation false d = d

  -- A downlink whose integrity code is right, with its full counter.
  unfoldable pub accept : List ℕ → Bool → Bool → ℕ → Device → Exec (Response × Device)
  unfolding decrypt_in_place unwrap_view record_downlink run_unless mark_confirmation deliver
  accept bytes confirmed ignore_mac full d = do
    result ←
        decrypt_in_place bytes (some (crypto_of d.session.nwkskey))
          (some (crypto_of d.session.appskey)) full
    plain ← unwrap_view result
    d' ← run_unless ignore_mac plain (record_downlink full plain d)
    deliver plain full (mark_confirmation confirmed d')

  -- A frame of an acceptable size, from the counter on.
  unfoldable pub authenticate :
      List ℕ → DataView → Bool → Option ℕ → Device → Exec (Response × Device)
  unfolding validate_mic accept is_confirmed
  authenticate bytes v ignore_mac none d = ret (no_update, d)
  authenticate bytes v ignore_mac (some full) d = do
    valid ← validate_mic v (crypto_of d.session.nwkskey) full
    if valid
        then accept bytes (is_confirmed v.layout.frame_type) ignore_mac full d
        else ret (no_update, d)

  unfoldable pub handle_parsed :
      List ℕ → ℕ → Bool → Result DataView Error → Device → Exec (Response × Device)
  unfolding rx2_complete clear_unless fhdr fcnt next_fcnt_down authenticate
  handle_parsed bytes max_payload_len ignore_mac (err e) d = ret (no_update, d)
  handle_parsed bytes max_payload_len ignore_mac (ok v) d =
      if ltb (max_payload_len + mhdr_len + mic_len) (length bytes)
      then (do
        done ← rx2_complete d.session d.settings d.region
        ret (done.0, record d { session = done.1; settings = done.2 }))
      else (do
        uplink ← clear_unless vec ignore_mac d.session.uplink
        header ← fhdr v
        wire ← fcnt header
        authenticate bytes v ignore_mac (next_fcnt_down d.session.fcnt_down wire)
            (record d { session = record d.session { uplink = uplink } }))

  -- `Session::handle_rx`
  unfoldable pub handle_rx : ℕ → Bool → Device → Exec (Response × Device)
  unfolding for_read parse_data handle_parsed
  handle_rx max_payload_len ignore_mac d = do
    bytes ← for_read d.buffer
    handle_parsed bytes max_payload_len ignore_mac (parse_data bytes) d
