-- ===== src/Mac/Session/Receive/Replay.antt =====
-- A downlink that `Session::handle_rx` reports is authentic and new, and is not reported twice.
use lora_rs.Common.{
  ℕ, ◌+◌, ◌-◌, ◌≤◌, ◌<◌, ◌≡◌, refl, ap, ◌∙◌, inl, inr, Bool, true, false, Option, none, some, List,
  length, take, ltb, if◌then◌else◌, ret, Result, ok, err, Ensures, >>=-Ensures, ret-Ensures,
  Bool-cases, arith, ◌==◌,
}
use lora_rs.External.{BoundedVec, Crypto}
use lora_rs.Encoding.Frame.Layout.{Error, DataView, parse_data, mic, Fhdr, fhdr, fcnt, is_confirmed}
use lora_rs.Encoding.Frame.Layout.Accessors.{parse_data-Fits, parse_data-ok}
use lora_rs.Encoding.Frame.Data.{same_bytes}
use lora_rs.Encoding.Frame.Data.Middle.{data_mic, same_bytes-eq}
use lora_rs.Encoding.Frame.Data.Receive.{validate_mic-returns}
use lora_rs.Radio.{for_read}
use lora_rs.Mac.Counter.{reconstruct, next_fcnt_down}
use lora_rs.Mac.Session.{
  Session, Response, no_update, no_ack, rx_complete, session_expired, downlink_received, back_off,
  saturating_suc, rx2_complete,
}
use lora_rs.Mac.Uplink.{Uplink}
use lora_rs.Mac.Settings.{Settings}
use lora_rs.Region.Configuration.{State}
use lora_rs.Mac.Session.Receive.{Device, clear_unless, authenticate, handle_parsed, handle_rx}
use lora_rs.Mac.Session.Receive.Authentic.{Accepted, accept-Accepted}

-- What a downlink with full counter `n` has shown: it parses, its last four bytes are the code over
-- the others under the network key and `n`, and `n` is the counter that its low bits stand for next.
pub record Reported (crypto_of : List ℕ → Crypto) (bytes : List ℕ) (s t : Session) (n : ℕ)
    : Type 0 where
  pub view : DataView
  pub header : Fhdr
  pub wire : ℕ
  pub parsed : parse_data bytes ≡ ok view
  pub code : mic view ≡ ret (data_mic (crypto_of s.nwkskey) (take (length bytes - 4) bytes) n)
  pub reads_header : fhdr view ≡ ret header
  pub reads_wire : fcnt header ≡ ret wire
  pub fresh : next_fcnt_down s.fcnt_down wire ≡ some n
  pub stored : t.fcnt_down ≡ some n
  pub advanced : t.fcnt_up ≡ s.fcnt_up + 1
  pub connected : t.adr_ack_cnt ≡ 0

module _ (vec : BoundedVec) (crypto_of : List ℕ → Crypto) (capacity snr : ℕ) where
  abbrev Outcome : List ℕ → Session → Response × Device → Type 0
  Outcome bytes s (downlink_received n, d') = Reported crypto_of bytes s d'.session n
  Outcome bytes s (other, d') = Unit {0}

  -- An answer that reports no downlink.
  abbrev Quiet : Response → Type 0
  Quiet (downlink_received n) = 1 ≤ 0
  Quiet other = Unit {0}

  Quiet-Outcome :
      (bytes : List ℕ) (s : Session) (a : Response) (d' : Device)
      → Quiet a
      → Outcome bytes s (a, d')
  Quiet-Outcome bytes s (downlink_received n) d' h = absurd (omega arith)
  Quiet-Outcome bytes s session_expired d' h = tt
  Quiet-Outcome bytes s _ d' h = tt

  -- The queue plays no part.
  Outcome-uplink :
      (bytes : List ℕ) (s : Session) (u : Uplink) (a : Response) (d' : Device)
      → Outcome bytes (record s { uplink = u }) (a, d')
      → Outcome bytes s (a, d')
  Outcome-uplink bytes s u (downlink_received n) d' r = record {
    view = r.view;
    header = r.header;
    wire = r.wire;
    parsed = r.parsed;
    code = r.code;
    reads_header = r.reads_header;
    reads_wire = r.reads_wire;
    fresh = r.fresh;
    stored = r.stored;
    advanced = r.advanced;
    connected = r.connected;
  }
  Outcome-uplink bytes s u no_update d' r = tt
  Outcome-uplink bytes s u _ d' r = tt

  rx2_complete-Quiet :
      (s : Session) (c : Settings) (region : State)
      → Ensures (rx2_complete s c region) (λ done. Quiet done.0)
  unfolding rx2_complete
  rx2_complete-Quiet s c region = elim (Bool-cases (s.fcnt_up == 0xffff_ffff)) [
    | inl e ↦ rw e (ret-Ensures _ _ tt)
    | inr e ↦ rw e (
        >>=-Ensures
          (if c.adr_enabled
            then back_off region c
                (if c.adr_enabled then saturating_suc s.adr_ack_cnt else s.adr_ack_cnt)
            else ret c)
          _ _ (λ c' f. ret-Ensures _ _ (answered s.confirmed)))
  ]
    where
      answered : (b : Bool) → Quiet (if b then no_ack else rx_complete)
      answered true = tt
      answered false = tt

  Accepted-Outcome :
      (bytes : List ℕ) (s : Session) (v : DataView) (header : Fhdr) (wire full : ℕ) (a : Response)
      (d' : Device)
      → parse_data bytes ≡ ok v
      → mic v ≡ ret (data_mic (crypto_of s.nwkskey) (take (length bytes - 4) bytes) full)
      → fhdr v ≡ ret header
      → fcnt header ≡ ret wire
      → next_fcnt_down s.fcnt_down wire ≡ some full
      → Accepted vec crypto_of capacity snr full s (a, d')
      → Outcome bytes s (a, d')
  Accepted-Outcome bytes s v header wire full (downlink_received n) d' p m h w f
        (e, down, up, adr) =
      record {
        view = v;
        header = header;
        wire = wire;
        parsed = p;
        code = rw e m;
        reads_header = h;
        reads_wire = w;
        fresh = rw e f;
        stored = rw e down;
        advanced = up;
        connected = adr;
      }
  Accepted-Outcome bytes s v header wire full session_expired d' p m h w f acc = tt
  Accepted-Outcome bytes s v header wire full _ d' p m h w f acc = tt

  authenticate-Outcome :
      (bytes : List ℕ) (v : DataView) (ignore_mac : Bool) (header : Fhdr) (wire : ℕ)
      (found : Option ℕ) (d : Device)
      → parse_data bytes ≡ ok v
      → fhdr v ≡ ret header
      → fcnt header ≡ ret wire
      → next_fcnt_down d.session.fcnt_down wire ≡ found
      → Ensures
          (authenticate vec crypto_of capacity snr bytes v ignore_mac found d)
          (Outcome bytes d.session)
  unfolding authenticate
  authenticate-Outcome bytes v ignore_mac header wire none d p h w f = ret-Ensures _ _ tt
  authenticate-Outcome bytes v ignore_mac header wire (some full) d p h w f =
      let (carried, found, valid) =
        validate_mic-returns v (crypto_of d.session.nwkskey) full (parse_data-Fits bytes v p) in
      elim (Bool-cases (
        same_bytes carried
          (data_mic (crypto_of d.session.nwkskey) (take (length v.bytes - 4) v.bytes) full))) [
            | inl e ↦
                rw (valid, e)
                  (λ out ran.
                    Accepted-Outcome bytes d.session v header wire full out.0 out.1 p
                      (rw (← (parse_data-ok bytes v p).0)
                        (found ∙ ap ret (same_bytes-eq carried _ e)))
                      h w f
                      (accept-Accepted vec crypto_of capacity snr bytes
                        (is_confirmed v.layout.frame_type) ignore_mac full d out ran))
            | inr e ↦ rw (valid, e) (ret-Ensures _ _ tt)
          ]

  handle_parsed-Outcome :
      (bytes : List ℕ) (limit : ℕ) (ignore_mac : Bool) (r : Result DataView Error) (d : Device)
      → parse_data bytes ≡ r
      → Ensures
          (handle_parsed vec crypto_of capacity snr bytes limit ignore_mac r d)
          (Outcome bytes d.session)
  unfolding handle_parsed
  handle_parsed-Outcome bytes limit ignore_mac (err x) d p = ret-Ensures _ _ tt
  handle_parsed-Outcome bytes limit ignore_mac (ok v) d p =
      elim (Bool-cases (ltb (limit + 1 + 4) (length bytes))) [
        | inl e ↦ rw e (
            >>=-Ensures (rx2_complete d.session d.settings d.region) _ _ (λ done f.
              ret-Ensures _ _ (
                Quiet-Outcome bytes d.session done.0 _
                  (rx2_complete-Quiet d.session d.settings d.region done f))))
        | inr e ↦ rw e (
            >>=-Ensures (clear_unless vec ignore_mac d.session.uplink) _ (Outcome bytes d.session)
              (λ uplink f. >>=-Ensures (fhdr v) _ (Outcome bytes d.session) (λ header h.
                >>=-Ensures (fcnt header) _ (Outcome bytes d.session) (λ wire w. λ out ran.
                  Outcome-uplink bytes d.session uplink out.0 out.1 (
                    authenticate-Outcome bytes v ignore_mac header wire
                      (next_fcnt_down d.session.fcnt_down wire)
                      (record d { session = record d.session { uplink = uplink } }) p h w refl out
                      ran)))))
      ]

-- A downlink that `handle_rx` reports, in a window of class A or C, is authentic: the bytes of the
-- buffer parse as a data frame, their last four are the code over the others under the network key
-- and the reported counter, and that counter is the next one that the frame's low bits stand for. The
-- session then has it as its last downlink counter, one uplink more and no missing acknowledgement.
pub handle_rx-Reported :
    (vec : BoundedVec) (crypto_of : List ℕ → Crypto) (capacity snr limit : ℕ) (ignore_mac : Bool)
    (d d' : Device) (bytes : List ℕ) (n : ℕ)
    → for_read d.buffer ≡ ret bytes
    → handle_rx vec crypto_of capacity snr limit ignore_mac d ≡ ret (downlink_received n, d')
    → Reported crypto_of bytes d.session d'.session n
unfolding handle_rx
handle_rx-Reported vec crypto_of capacity snr limit ignore_mac d d' bytes n read h =
    handle_parsed-Outcome vec crypto_of capacity snr bytes limit ignore_mac (parse_data bytes) d
      refl (downlink_received n, d') (rw read at h)

pub next_fcnt_down-again :
    (last : Option ℕ) (wire n : ℕ)
    → wire < 65536
    → next_fcnt_down last wire ≡ some n
    → next_fcnt_down (some n) wire ≡ none
unfolding next_fcnt_down reconstruct
next_fcnt_down-again none wire n w h = ground arith
next_fcnt_down-again (some last) wire n w h = ground arith
