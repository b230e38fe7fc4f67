-- ===== src/Mac/Session/Receive/Delivery.antt =====
-- A frame with application data that reaches the session in its turn.
use lora_rs.Common.{
  ℕ, ◌+◌, ◌%◌, ◌≤◌, ◌<◌, ◌≡◌, refl, sym, ap, ◌∙◌, Bool, true, false, some, List, [], ◌∷◌, ◌++◌,
  length, ret, Exec, ok, ret-eq, arith, ◌==◌,
}
use lora_rs.External.{BoundedVec, Crypto}
use lora_rs.Encoding.MacCommands.{commands}
use lora_rs.Encoding.Frame.Layout.{DataView, fcnt, f_port, is_confirmed}
use lora_rs.Encoding.Frame.Layout.Accessors.{Fits, parse_data-Fits, fhdr-returns}
use lora_rs.Encoding.Frame.Data.{DataFrame, data_payload, build_into}
use lora_rs.Encoding.Frame.Data.RoundTrip.{IsFrame, Shows}
use lora_rs.Encoding.Frame.Data.Arrival.{Arrives, built_data-Arrives}
use lora_rs.Radio.{for_read}
use lora_rs.Mac.Counter.{next_fcnt_down}
use lora_rs.Mac.Session.{Response, downlink_received}
use lora_rs.Mac.Session.Commands.{handle_downlink_macs}
use lora_rs.Mac.Session.Receive.{
  Downlink, Device, run_macs, run_payload, run_frame, store_downlink, deliver, unwrap_view,
  record_downlink, run_unless, mark_confirmation, accept, authenticate, handle_rx,
}
use lora_rs.Mac.Session.Receive.Refused.{cleared, wire_of, fcnt-Returns, handle_rx_frame}

-- The device after the frame, by what it was before.
pub record Delivered (d d' : Device) (n port : ℕ) (content : List ℕ) : Type 0 where
  pub stored : d'.downlinks ≡ d.downlinks ++ record { bytes = content; fport = port } ∷ []
  pub counted : d'.session.fcnt_down ≡ some n
  pub advanced : d'.session.fcnt_up ≡ d.session.fcnt_up + 1
  pub connected : d'.session.adr_ack_cnt ≡ 0

module _ (vec : BoundedVec) (crypto_of : List ℕ → Crypto) (capacity snr limit : ℕ) (f : DataFrame)
    (port : ℕ) (content : List ℕ) (carries : f.payload ≡ data_payload port content)
    (no_opts : f.f_opts ≡ []) where
  -- A frame without MAC commands runs none.
  run_unless-quiet :
      (ignore_mac : Bool) (plain : DataView) (d : Device)
      → Shows f plain
      → run_unless vec crypto_of capacity snr ignore_mac plain d ≡ ret d
  unfolding run_unless run_frame run_macs run_payload handle_downlink_macs commands
  run_unless-quiet true plain d shows = refl
  run_unless-quiet false plain d shows =
      rw (shows.reads_header, shows.reads_opts, no_opts, shows.reads_payload, carries) refl

  deliver-stores :
      (plain : DataView) (n : ℕ) (d : Device)
      → Shows f plain
      → f_port plain ≡ ret (some port)
      → (d.session.fcnt_up == 0xffff_ffff) ≡ false
      → length content ≤ 256
      → length d.downlinks < capacity
      → deliver vec crypto_of capacity snr plain n d
        ≡ ret (
          downlink_received n,
          record d {
            session = record d.session { fcnt_up = d.session.fcnt_up + 1 };
            downlinks = d.downlinks ++ record { bytes = content; fport = port } ∷ [];
          },
        )
  unfolding deliver store_downlink
  deliver-stores plain n d shows reads left short room =
      rw
        (
          left,
          shows.reads_payload,
          reads,
          carries,
          vec.extend_fits ℕ 256 [] content (omega arith),
          vec.push_fits Downlink capacity d.downlinks (record { bytes = content; fport = port })
              room,
        )
        refl

  module _ (e : Device) (bytes : List ℕ)
      (a : Arrives f (crypto_of e.session.nwkskey) (crypto_of e.session.appskey) port bytes)
      (left : (e.session.fcnt_up == 0xffff_ffff) ≡ false) (short : length content ≤ 256)
      (room : length e.downlinks < capacity) (ignore_mac : Bool) where
    abbrev Delivers : Exec (Response × Device) → Type 0
    Delivers m =
        (d' : Device) × (m ≡ ret (downlink_received f.fcnt, d'))
        × Delivered e d' f.fcnt port content

    abbrev recorded : Device
    recorded = record_downlink vec crypto_of capacity snr f.fcnt a.plain e

    abbrev finished : Device → Device
    finished r = record r {
      session = record r.session { fcnt_up = r.session.fcnt_up + 1 };
      downlinks = r.downlinks ++ record { bytes = content; fport = port } ∷ [];
    }

    accept-Delivers :
        (confirmed : Bool)
        → Delivers (accept vec crypto_of capacity snr bytes confirmed ignore_mac f.fcnt e)
    unfolding accept unwrap_view mark_confirmation record_downlink
    accept-Delivers true = (
      finished (mark_confirmation vec crypto_of capacity snr true recorded),
      rw (a.decrypted, run_unless-quiet ignore_mac a.plain recorded a.shows)
          (deliver-stores a.plain f.fcnt
            (mark_confirmation vec crypto_of capacity snr true recorded) a.shows a.reads_port left
            short room),
      record { stored = refl; counted = refl; advanced = refl; connected = refl },
    )
    accept-Delivers false = (
      finished recorded,
      rw (a.decrypted, run_unless-quiet ignore_mac a.plain recorded a.shows)
          (deliver-stores a.plain f.fcnt recorded a.shows a.reads_port left short room),
      record { stored = refl; counted = refl; advanced = refl; connected = refl },
    )

    wire_arrives : wire_of a.view ≡ f.fcnt % 65536
    wire_arrives =
        let w : Fits a.view = parse_data-Fits bytes a.view a.parsed in
        ret-eq (
          sym (fcnt-Returns a.view w)
          ∙ ap fcnt (ret-eq (sym (fhdr-returns a.view w) ∙ a.reads_header))
          ∙ a.reads_counter)

    authenticate-Delivers :
        next_fcnt_down e.session.fcnt_down (f.fcnt % 65536) ≡ some f.fcnt
        → Delivers (
            authenticate vec crypto_of capacity snr bytes a.view ignore_mac
              (next_fcnt_down e.session.fcnt_down (wire_of a.view))
              e)
    unfolding authenticate
    authenticate-Delivers next =
        rw (wire_arrives, next, a.valid) (accept-Delivers (is_confirmed a.view.layout.frame_type))

-- A data frame of either direction, with application data on a port that is not zero and no MAC commands,
-- built with the session's keys, codes of four bytes and a counter that is the session's next: where its
-- bytes are in the buffer and not longer than the window allows, with at most 256 bytes of data, room for
-- a downlink and uplink counters left, `handle_rx` reports it, stores its data and port, takes its counter,
-- and counts one uplink more and no missing acknowledgement.
pub handle_rx-Delivered :
    (vec : BoundedVec) (crypto_of : List ℕ → Crypto) (capacity snr limit : ℕ) (ignore_mac : Bool)
    (d : Device) (f : DataFrame) (port size : ℕ) (content bytes : List ℕ)
    → IsFrame f
    → ((b0 frame : List ℕ) → length ((crypto_of d.session.nwkskey).calculate_mic b0 frame) ≡ 4)
    → f.payload ≡ data_payload port content
    → f.f_opts ≡ []
    → build_into f size (crypto_of d.session.nwkskey) (some (crypto_of d.session.appskey))
      ≡ ret (ok bytes)
    → for_read d.buffer ≡ ret bytes
    → length bytes ≤ limit + 5
    → length content ≤ 256
    → next_fcnt_down d.session.fcnt_down (f.fcnt % 65536) ≡ some f.fcnt
    → (d.session.fcnt_up == 0xffff_ffff) ≡ false
    → length d.downlinks < capacity
    → (d' : Device) × (handle_rx vec crypto_of capacity snr limit ignore_mac d
        ≡ ret (downlink_received f.fcnt, d'))
      × Delivered d d' f.fcnt port content
handle_rx-Delivered vec crypto_of capacity snr limit true d f port size content bytes w four carries
      no_opts built read fits short next left room =
    let a =
      built_data-Arrives f (crypto_of d.session.nwkskey) (crypto_of d.session.appskey) port size
        content bytes w four carries built in
    let (d', run, after) =
      authenticate-Delivers vec crypto_of capacity snr limit f port content carries no_opts d bytes
        a left short room true next in
    (
      d',
      handle_rx_frame vec crypto_of capacity snr limit true d bytes a.view read fits a.parsed ∙ run,
      after,
    )
handle_rx-Delivered vec crypto_of capacity snr limit false d f port size content bytes w four
      carries no_opts built read fits short next left room =
    let a =
      built_data-Arrives f (crypto_of d.session.nwkskey) (crypto_of d.session.appskey) port size
        content bytes w four carries built in
    let (d', run, after) =
      authenticate-Delivers vec crypto_of capacity snr limit f port content carries no_opts
        (cleared false d) bytes a left short room false next in
    (
      d',
      handle_rx_frame vec crypto_of capacity snr limit false d bytes a.view read fits a.parsed
          ∙ run,
      record {
        stored = after.stored;
        counted = after.counted;
        advanced = after.advanced;
        connected = after.connected;
      },
    )
