-- ===== src/Mac/Session/Transmit/Delivery.antt =====
-- An uplink that `Session::prepare_buffer` writes is what a receiver with the session's keys reads.
use lora_rs.Common.{
  filter, ℕ, ◌+◌, ◌-◌, ◌≤◌, ◌<◌, ◌≡◌, refl, true, false, Option, some, List, ◌++◌, length, drop,
  lt→ltb, ◌==◌, ret, ok, arith, length-append, take-append_exact,
}
use lora_rs.External.{BoundedVec, Crypto}
use lora_rs.Encoding.MacCommands.{UplinkMacCommand}
use lora_rs.Encoding.Frame.Layout.{DataView}
use lora_rs.Encoding.Frame.Layout.Accessors.{slice-within}
use lora_rs.Encoding.Frame.Data.{DataFrame, check_mic_and_decrypt_in_place}
use lora_rs.Radio.{RadioBuffer, clear, overwrite, extend_from_slice, for_read}
use lora_rs.Region.Configuration.{State}
use lora_rs.Encoding.Types.{Dr, to_u8}
use lora_rs.Mac.Uplink.{is_sticky, clear_downlink_confirmation}
use lora_rs.Mac.Uplink.Queue.{Holds, clear_mac_commands-Holds}
use lora_rs.Mac.Settings.{Settings}
use lora_rs.Mac.Session.{Session}
use lora_rs.Mac.Session.Expiry.{HighestBelow}
use lora_rs.Mac.Session.Transmit.{
  SendData, frame_for, buffer_or_panic, store_packet, prepare_buffer,
}
use lora_rs.Mac.Session.Transmit.Carried.{
  asks, wants_adr_ack-asks, Ready, Carries, choose, frame_built, frame_for-Carries,
}

-- A packet that is shorter than the buffer is stored and read back.
store_packet-reads :
    (tx : RadioBuffer) (packet : List ℕ)
    → length packet < length tx.packet
    → (b : RadioBuffer) × (store_packet tx (ok packet) ≡ ret b) × (for_read b ≡ ret packet)
unfolding store_packet clear extend_from_slice overwrite for_read buffer_or_panic
store_packet-reads tx packet h = (
  record { packet = packet ++ drop (0 + length packet) tx.packet; pos = 0 + length packet },
  rw (lt→ltb (0 + length packet) (length tx.packet) (omega arith)) refl,
  rw
      (
        slice-within (packet ++ drop (0 + length packet) tx.packet) 0 (0 + length packet)
            (omega arith)
            (omega (arith, length-append packet (drop (0 + length packet) tx.packet))),
        take-append_exact packet (drop (0 + length packet) tx.packet) (0 + length packet - 0)
            (omega arith),
      )
      refl,
)

-- What follows of a send: the bytes in the buffer, what a receiver with the session's keys and counter
-- makes of them, and the session, which changes only its queue and what it waits for.
pub record Sent (crypto_of : List ℕ → Crypto) (s : Session) (cs : List UplinkMacCommand)
    (c : Settings) (region : State) (d : SendData) (t : Session) (tx : RadioBuffer) : Type 0 where
  pub lower : Option Dr
  pub lowest : HighestBelow region (to_u8 c.data_rate) lower
  pub bytes : List ℕ
  pub view : DataView
  pub on_air : for_read tx ≡ ret bytes
  pub received :
      check_mic_and_decrypt_in_place bytes
        (crypto_of s.nwkskey)
        (some (crypto_of s.appskey))
        s.fcnt_up
      ≡ ret (ok view)
  pub carries : Carries s c d (asks s c lower) view
  pub session_kept : t ≡ record s { uplink = t.uplink; confirmed = d.confirmed }
  pub queue_kept : Holds t.uplink (filter is_sticky cs)
  pub ack_spent : t.uplink.confirmed ≡ false

-- A session with an address of four bytes, a counter of 32 bits, codes of four bytes and a queue that
-- holds its commands sends: the data with the queued MAC commands, or on port 0, with no data, the commands
-- alone. Where the frame is at most 256 bytes long and shorter than the buffer, nothing panics; a receiver
-- with the session's keys and the uplink counter accepts the bytes of the buffer and reads the session's
-- address and counter, the type that was asked for, ADR as it is set, the request for a downlink where it
-- is due, the acknowledgement that was due, the queued commands, and the port and data of the send. Of the
-- session only the queue changes, which keeps its sticky answers and has spent the acknowledgement, and
-- whether it waits for one.
pub prepare_buffer-Sent :
    (vec : BoundedVec) (crypto_of : List ℕ → Crypto) (s : Session) (cs : List UplinkMacCommand)
    (d : SendData) (tx : RadioBuffer) (c : Settings) (region : State)
    → Ready crypto_of s cs
    → ((d.fport == 0) ≡ true → length d.bytes ≡ 0)
    → 13 + length s.uplink.pending + length d.bytes ≤ 256
    → 13 + length s.uplink.pending + length d.bytes < length tx.packet
    → (t : Session) × (b : RadioBuffer) × (prepare_buffer vec crypto_of s d tx c region
        ≡ ret (s.fcnt_up, t, b))
      × Sent crypto_of s cs c region d t b
unfolding prepare_buffer
prepare_buffer-Sent vec crypto_of s cs d tx c region w no_data fits smaller =
    let (lower, lowest, asked) = wants_adr_ack-asks s c region in
    let (p, chosen) = choose d s.uplink w.queue.fits no_data in
    let frame : DataFrame = frame_for s c d (asks s c lower) p in
    let (bytes, made, size, (view, received, shows)) =
      frame_built crypto_of s cs d c (asks s c lower) p w chosen fits in
    let (b, stored, reads) = store_packet-reads tx bytes (omega (arith, size)) in
    let (u, kept, holds, flag) =
      clear_mac_commands-Holds vec (clear_downlink_confirmation s.uplink) cs
        (record { bytes = w.queue.bytes; wire = w.queue.wire; fits = w.queue.fits }) in
    (
      record s { uplink = u; confirmed = d.confirmed },
      b,
      rw (asked, chosen.selected, made, stored, kept) refl,
      record {
        lower = lower;
        lowest = lowest;
        bytes = bytes;
        view = view;
        on_air = reads;
        received = received;
        carries = frame_for-Carries s c d (asks s c lower) p view chosen shows;
        session_kept = refl;
        queue_kept = holds;
        ack_spent = flag;
      },
    )
