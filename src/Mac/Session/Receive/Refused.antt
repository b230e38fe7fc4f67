-- ===== src/Mac/Session/Receive/Refused.antt =====
-- A downlink that `Session::handle_rx` refuses, and what changes then.
use mathlib.Core.Path.{subst}
use lora_rs.Common.{
  ℕ, zero, suc, ◌+◌, ◌-◌, ◌*◌, ◌≤◌, ◌<◌, ◌≡◌, ◌≢◌, refl, sym, ap, ◌∙◌, inl, inr, Bool, true, false,
  Option, none, some, List, [], ◌∷◌, length, take, drop, get_or, ret, ok, ret-eq, Bool-cases, arith,
  le→ltb, All,
}
use lora_rs.Common.Bits.{IsByte}
use lora_rs.External.{BoundedVec, Crypto}
use lora_rs.Encoding.Frame.Layout.{DataView, parse_data, mic, fcnt}
use lora_rs.Encoding.Frame.Layout.Accessors.{
  Fits, parse_data-Fits, parse_data-ok, header_of, fhdr-returns, length-header, index-within,
}
use lora_rs.Encoding.Frame.Data.{same_bytes}
use lora_rs.Encoding.Frame.Data.Middle.{data_mic, same_bytes-eq}
use lora_rs.Encoding.Frame.Data.Receive.{validate_mic-returns}
use lora_rs.Radio.{for_read}
use lora_rs.Mac.Counter.{next_fcnt_down}
use lora_rs.Mac.Uplink.{clear_mac_commands}
use lora_rs.Mac.Session.{no_update, downlink_received}
use lora_rs.Mac.Session.Receive.{Device, clear_unless, authenticate, handle_parsed, handle_rx}
use lora_rs.Mac.Session.Receive.Replay.{Reported, handle_rx-Reported, next_fcnt_down-again}

-- The device with its queue cleared, where the window belongs to class A.
abbrev pub cleared : Bool → Device → Device
cleared true d = d
cleared false d = record d {
  session = record d.session { uplink = record d.session.uplink { pending = [] } };
}

-- The wire's counter has 16 bits.
All-get_or : (xs : List ℕ) (i : ℕ) → All IsByte xs → get_or xs i 0 < 256
All-get_or [] i h = omega arith
All-get_or (x ∷ xs) zero h = h.0
All-get_or (x ∷ xs) (suc i) h = All-get_or xs i h.1

All-take : (n : ℕ) (xs : List ℕ) → All IsByte xs → All IsByte (take n xs)
All-take zero xs h = tt
All-take (suc n) [] h = tt
All-take (suc n) (x ∷ xs) h = (h.0, All-take n xs h.1)

All-drop : (n : ℕ) (xs : List ℕ) → All IsByte xs → All IsByte (drop n xs)
All-drop zero xs h = h
All-drop (suc n) [] h = tt
All-drop (suc n) (x ∷ xs) h = All-drop n xs h.1

-- The counter that a view reads.
abbrev pub wire_of : DataView → ℕ
wire_of v = get_or (header_of v).bytes 5 0 + get_or (header_of v).bytes 6 0 * 256

module _ (v : DataView) (w : Fits v) where
  pub fcnt-Returns : fcnt (header_of v) ≡ ret (wire_of v)
  unfolding fcnt
  fcnt-Returns =
      rw
        (
          index-within (header_of v).bytes 5 (omega (arith, length-header v w, w.header)),
          index-within (header_of v).bytes 6 (omega (arith, length-header v w, w.header)),
        )
        refl

  wire_of-lt : All IsByte v.bytes → wire_of v < 65536
  wire_of-lt h =
      omega (arith, All-get_or (header_of v).bytes 5 bytes, All-get_or (header_of v).bytes 6 bytes)
    where
      bytes : All IsByte (header_of v).bytes
      bytes = All-take (1 + v.layout.fhdr_len - 1) (drop 1 v.bytes) (All-drop 1 v.bytes h)

module _ (vec : BoundedVec) (crypto_of : List ℕ → Crypto) (capacity snr limit : ℕ) where
  -- A frame that is not too long, up to the test of its counter and code.
  pub handle_rx_frame :
      (ignore_mac : Bool) (d : Device) (bytes : List ℕ) (v : DataView)
      → for_read d.buffer ≡ ret bytes
      → length bytes ≤ limit + 5
      → parse_data bytes ≡ ok v
      → handle_rx vec crypto_of capacity snr limit ignore_mac d
        ≡ authenticate vec crypto_of capacity snr bytes v ignore_mac
            (next_fcnt_down d.session.fcnt_down (wire_of v))
            (cleared ignore_mac d)
  unfolding handle_rx handle_parsed clear_unless clear_mac_commands
  handle_rx_frame true d bytes v read size p =
      rw
        (
          read,
          p,
          le→ltb (limit + 1 + 4) (length bytes) (omega arith),
          fhdr-returns v w,
          fcnt-Returns v w,
        )
        refl
    where
      w : Fits v
      w = parse_data-Fits bytes v p
  handle_rx_frame false d bytes v read size p =
      rw
        (
          read,
          p,
          le→ltb (limit + 1 + 4) (length bytes) (omega arith),
          fhdr-returns v w,
          fcnt-Returns v w,
        )
        refl
    where
      w : Fits v
      w = parse_data-Fits bytes v p

  authenticate_forged :
      (ignore_mac : Bool) (d : Device) (bytes : List ℕ) (v : DataView) (full : ℕ)
      → parse_data bytes ≡ ok v
      → mic v ≢ ret (data_mic (crypto_of d.session.nwkskey) (take (length bytes - 4) bytes) full)
      → authenticate vec crypto_of capacity snr bytes v ignore_mac (some full) d
        ≡ ret (no_update, d)
  unfolding authenticate
  authenticate_forged ignore_mac d bytes v full p wrong =
      let (carried, found, valid) =
        validate_mic-returns v (crypto_of d.session.nwkskey) full (parse_data-Fits bytes v p) in
      elim (Bool-cases (
        same_bytes carried
          (data_mic (crypto_of d.session.nwkskey) (take (length v.bytes - 4) v.bytes) full))) [
            | inl e ↦ absurd (
                wrong
                  (rw (← (parse_data-ok bytes v p).0) (found ∙ ap ret (same_bytes-eq carried _ e))))
            | inr e ↦ rw (valid, e) refl
          ]

  authenticate_stale :
      (ignore_mac : Bool) (d : Device) (bytes : List ℕ) (v : DataView)
      → authenticate vec crypto_of capacity snr bytes v ignore_mac none d ≡ ret (no_update, d)
  unfolding authenticate
  authenticate_stale ignore_mac d bytes v = refl

  authenticate_refused :
      (ignore_mac : Bool) (d : Device) (bytes : List ℕ) (v : DataView) (full : Option ℕ)
      → parse_data bytes ≡ ok v
      → ((n : ℕ)
          → full ≡ some n
          → mic v ≢ ret (data_mic (crypto_of d.session.nwkskey) (take (length bytes - 4) bytes) n))
      → authenticate vec crypto_of capacity snr bytes v ignore_mac full d ≡ ret (no_update, d)
  unfolding authenticate
  authenticate_refused ignore_mac d bytes v none p wrong = authenticate_stale ignore_mac d bytes v
  authenticate_refused ignore_mac d bytes v (some n) p wrong =
      authenticate_forged ignore_mac d bytes v n p (wrong n refl)

cleared-session :
    (ignore_mac : Bool) (d : Device) → (cleared ignore_mac d).session.nwkskey ≡ d.session.nwkskey
cleared-session true d = refl
cleared-session false d = refl

-- A frame that is not too long and whose last four bytes are not the code over the others, under the
-- network key and the counter that its low bits stand for next, reports nothing. The session, the
-- settings, the region and the buffer stay, but in a class A window the queued MAC answers are dropped.
pub handle_rx-forged :
    (vec : BoundedVec) (crypto_of : List ℕ → Crypto) (capacity snr limit : ℕ) (ignore_mac : Bool)
    (d : Device) (bytes : List ℕ) (v : DataView)
    → for_read d.buffer ≡ ret bytes
    → length bytes ≤ limit + 5
    → parse_data bytes ≡ ok v
    → ((n : ℕ)
        → next_fcnt_down d.session.fcnt_down (wire_of v) ≡ some n
        → mic v ≢ ret (data_mic (crypto_of d.session.nwkskey) (take (length bytes - 4) bytes) n))
    → handle_rx vec crypto_of capacity snr limit ignore_mac d
      ≡ ret (no_update, cleared ignore_mac d)
handle_rx-forged vec crypto_of capacity snr limit ignore_mac d bytes v read size p wrong =
    handle_rx_frame vec crypto_of capacity snr limit ignore_mac d bytes v read size p
    ∙ authenticate_refused vec crypto_of capacity snr limit ignore_mac (cleared ignore_mac d) bytes
        v (next_fcnt_down d.session.fcnt_down (wire_of v)) p
        (rw (cleared-session ignore_mac d) wrong)

-- After a downlink of octets is reported, the same bytes, no longer than the window allows, received again
-- by a session that still has its counter report nothing, and change nothing but the queue of a class A
-- window.
pub handle_rx-replayed :
    (vec : BoundedVec) (crypto_of : List ℕ → Crypto) (capacity snr limit : ℕ) (ignore_mac : Bool)
    (d d' e : Device) (bytes : List ℕ) (n : ℕ)
    → for_read d.buffer ≡ ret bytes
    → All IsByte bytes
    → handle_rx vec crypto_of capacity snr limit ignore_mac d ≡ ret (downlink_received n, d')
    → e.session.fcnt_down ≡ d'.session.fcnt_down
    → for_read e.buffer ≡ ret bytes
    → length bytes ≤ limit + 5
    → handle_rx vec crypto_of capacity snr limit ignore_mac e
      ≡ ret (no_update, cleared ignore_mac e)
handle_rx-replayed vec crypto_of capacity snr limit ignore_mac d d' e bytes n read octets h same
      again size =
    handle_rx_frame vec crypto_of capacity snr limit ignore_mac e bytes r.view again size r.parsed
    ∙ (ap
          (λ (found : Option ℕ).
            authenticate vec crypto_of capacity snr bytes r.view ignore_mac found
              (cleared ignore_mac e))
          none_found
        ∙ authenticate_stale vec crypto_of capacity snr limit ignore_mac (cleared ignore_mac e)
            bytes r.view)
  where
    r : Reported crypto_of bytes d.session d'.session n
    r = handle_rx-Reported vec crypto_of capacity snr limit ignore_mac d d' bytes n read h

    w : Fits r.view
    w = parse_data-Fits bytes r.view r.parsed

    wires : r.wire ≡ wire_of r.view
    wires = ret-eq (
        sym r.reads_wire
        ∙ (ap fcnt (ret-eq (sym r.reads_header ∙ fhdr-returns r.view w)) ∙ fcnt-Returns r.view w))

    view_octets : All IsByte r.view.bytes
    view_octets = subst (All IsByte) (sym (parse_data-ok bytes r.view r.parsed).0) octets

    stale : next_fcnt_down (some n) (wire_of r.view) ≡ none
    stale = rw (← wires) (
        next_fcnt_down-again d.session.fcnt_down r.wire n
          (rw wires (wire_of-lt r.view w view_octets)) r.fresh)

    none_found : next_fcnt_down e.session.fcnt_down (wire_of r.view) ≡ none
    none_found =
        ap (λ (last : Option ℕ). next_fcnt_down last (wire_of r.view)) (same ∙ r.stored) ∙ stale
