-- ===== src/Mac/Session/Transmit/Carried.antt =====
-- The frame of a send: its fields as the session describes them, and what a receiver reads of it.
use lora_rs.Common.{
  ◌%◌, sym, ℕ, ◌+◌, ◌≤◌, ◌<◌, ◌≡◌, refl, ap, ◌∙◌, inl, inr, Bool, true, false, Option, none, some,
  List, [], length, leb, ◌==◌, ==_iff, ◌&&◌, if◌then◌else◌, is_some, ret, Result, ok, err,
  Bool-cases, arith,
}
use lora_rs.External.{Crypto}
use lora_rs.Encoding.MacCommands.{UplinkMacCommand}
use lora_rs.Encoding.Frame.Layout.{
  Error, f_opts_too_long, missing_key, f_opts_with_f_port_zero, buffer_too_short, DataView, Fhdr,
  FCtrl, fhdr, fctrl, fcnt, dev_addr, f_opts, f_port, adr, ack, is_uplink, confirmed_up,
  unconfirmed_up,
}
use lora_rs.Encoding.Frame.Layout
use lora_rs.Encoding.Frame.Data.{
  frm_payload, frm_data, frm_mac_commands, build_into, DataFrame, Payload, data_payload,
  mac_commands, check_mic_and_decrypt_in_place,
}
use lora_rs.Encoding.Frame.Data.RoundTrip.{Shows, port_of, seen}
use lora_rs.Encoding.Frame.Data.Delivery.{Built, payload_len, build_into-Built}
use lora_rs.Region.Configuration.{State}
use lora_rs.Encoding.Types.{Dr, to_u8}
use lora_rs.Mac.Uplink.{Uplink}
use lora_rs.Mac.Uplink.Queue.{Holds}
use lora_rs.Mac.Settings.{Settings}
use lora_rs.Mac.Session.{Session, adr_ack_limit}
use lora_rs.Mac.Session.Expiry.{HighestBelow, next_lower_datarate-HighestBelow}
use lora_rs.Mac.Session.Transmit.{SendData, wants_adr_ack, f_opts_of, payload_of, frame_for}

-- When an uplink asks for a downlink: with ADR on, after 64 uplinks without one, unless the data rate is
-- the lowest of the region.
abbrev pub asks : Session → Settings → Option Dr → Bool
asks s c lower = c.adr_enabled && leb 64 s.adr_ack_cnt && is_some lower

pub wants_adr_ack-asks :
    (s : Session) (c : Settings) (region : State)
    → (lower : Option Dr) × HighestBelow region (to_u8 c.data_rate) lower
      × (wants_adr_ack s c region ≡ ret (asks s c lower))
unfolding wants_adr_ack
wants_adr_ack-asks s c region =
    let (lower, found, best) = next_lower_datarate-HighestBelow region c.data_rate in
    elim (Bool-cases (c.adr_enabled && leb adr_ack_limit s.adr_ack_cnt)) [
      | inl e ↦ (lower, best, rw (e, found) (ap ret (ground (arith, e))))
      | inr e ↦ (lower, best, rw e (ap ret (ground (arith, e))))
    ]

abbrev Received : DataFrame → Crypto → Crypto → List ℕ → Type 0
Received f nwk app bytes =
    (v : DataView) × (check_mic_and_decrypt_in_place bytes nwk (some app) f.fcnt ≡ ret (ok v))
    × Shows f v

-- The errors of `build_into` that the session's frames exclude.
Built-ok :
    (f : DataFrame) (nwk app : Crypto) (out : Result (List ℕ) Error)
    → length f.f_opts ≤ 15
    → 12 + length f.f_opts + payload_len f.payload ≤ 256
    → ((cmds : List ℕ) → f.payload ≡ mac_commands cmds → length f.f_opts ≡ 0)
    → Built f nwk 256 (some app) out
    → (bytes : List ℕ) × (out ≡ ok bytes)
      × (length bytes ≡ 12 + length f.f_opts + payload_len f.payload)
      × Received f nwk app bytes
Built-ok f nwk app (ok bytes) short room port b = (bytes, refl, b.0.1, b.1)
Built-ok f nwk app (err f_opts_too_long) short room port b = absurd (omega arith)
Built-ok f nwk app (err missing_key) short room port b = absurd_key b.1
  where
    absurd_key :
        ◌≡◌ {A = Option Crypto} (some app) none
        → (bytes : List ℕ) × (◌≡◌ {A = Result (List ℕ) Error} (err missing_key) (ok bytes))
          × (length bytes ≡ 12 + length f.f_opts + payload_len f.payload)
          × Received f nwk app bytes
    absurd_key q = cc
Built-ok f nwk app (err f_opts_with_f_port_zero) short room port b =
    absurd (omega (arith, port b.2.0 b.2.1))
Built-ok f nwk app (err buffer_too_short) short room port b = absurd (omega arith)
Built-ok f nwk app (err _) short room port b = absurd (omega arith)

-- A session whose keys and queue are as the source's types have them.
pub record Ready (crypto_of : List ℕ → Crypto) (s : Session) (cs : List UplinkMacCommand)
    : Type 0 where
  pub address : length s.devaddr ≡ 4
  pub counter : s.fcnt_up < 0x1_0000_0000
  pub queue : Holds s.uplink cs
  pub mic_four : (b0 frame : List ℕ) → length ((crypto_of s.nwkskey).calculate_mic b0 frame) ≡ 4

-- What a receiver reads of an uplink with the data `d` of session `s` with settings `c`, on which an
-- acknowledgement of the uplinks is asked for or not.
pub record Carries (s : Session) (c : Settings) (d : SendData) (adr_ack_req : Bool) (v : DataView)
    : Type 0 where
  pub kind : v.layout.frame_type ≡ (if d.confirmed then confirmed_up else unconfirmed_up)
  pub header : Fhdr
  pub control : FCtrl
  pub reads_header : fhdr v ≡ ret header
  pub reads_control : fctrl header ≡ ret control
  pub reads_address : dev_addr header ≡ ret s.devaddr
  pub reads_counter : fcnt header ≡ ret (s.fcnt_up % 65536)
  pub reads_adr : adr control ≡ c.adr_enabled
  pub reads_adr_ack_req : Layout.adr_ack_req control ≡ adr_ack_req
  pub reads_ack : ack control ≡ s.uplink.confirmed
  pub reads_opts : f_opts header ≡ ret (if d.fport == 0 then [] else s.uplink.pending)
  pub reads_port : f_port v ≡ ret (some d.fport)
  pub reads_payload :
      frm_payload v
      ≡ ret (if d.fport == 0 then frm_mac_commands s.uplink.pending else frm_data d.bytes)

-- The payload of a send and the room that the frame takes.
pub record Chosen (d : SendData) (u : Uplink) (p : Payload) : Type 0 where
  pub selected : payload_of d u ≡ ret p
  pub short : length (f_opts_of d u) ≤ 15
  pub room : 12 + length (f_opts_of d u) + payload_len p ≡ 13 + length u.pending + length d.bytes
  pub port : (q : ℕ) (bytes : List ℕ) → p ≡ data_payload q bytes → (q == 0) ≡ false
  pub alone : (cmds : List ℕ) → p ≡ mac_commands cmds → length (f_opts_of d u) ≡ 0
  pub port_chosen : port_of p ≡ some d.fport
  pub payload_chosen :
      seen p ≡ (if d.fport == 0 then frm_mac_commands u.pending else frm_data d.bytes)

pub choose :
    (d : SendData) (u : Uplink)
    → length u.pending ≤ 15
    → ((d.fport == 0) ≡ true → length d.bytes ≡ 0)
    → (p : Payload) × Chosen d u p
unfolding payload_of f_opts_of
choose d u short h = elim (Bool-cases (d.fport == 0)) [
  | inl e ↦ (
    mac_commands u.pending,
    record {
      selected = rw (e, (==_iff (length d.bytes) 0).1 (h e)) refl;
      short = rw e (omega arith);
      room = rw e (omega (arith, h e));
      port = λ q bytes k. no_data u.pending q bytes k;
      alone = λ cmds k. rw e refl;
      port_chosen = ap some (sym ((==_iff d.fport 0).0 e));
      payload_chosen = rw e refl;
    },
  )
  | inr e ↦ (
    data_payload d.fport d.bytes,
    record {
      selected = rw e refl;
      short = rw e short;
      room = rw e (omega arith);
      port = λ q bytes k. same_port q bytes k e;
      alone = λ cmds k. no_commands cmds k;
      port_chosen = refl;
      payload_chosen = rw e refl;
    },
  )
]
  where
    no_data :
        (cmds : List ℕ) (q : ℕ) (bytes : List ℕ)
        → mac_commands cmds ≡ data_payload q bytes
        → (q == 0) ≡ false
    no_data cmds q bytes k = cc

    same_port :
        (q : ℕ) (bytes : List ℕ)
        → data_payload d.fport d.bytes ≡ data_payload q bytes
        → (d.fport == 0) ≡ false
        → (q == 0) ≡ false
    same_port q bytes k e = rw (← port_eq k) e
      where
        port_eq : data_payload d.fport d.bytes ≡ data_payload q bytes → d.fport ≡ q
        port_eq k = cc

    no_commands :
        (cmds : List ℕ)
        → data_payload d.fport d.bytes ≡ mac_commands cmds
        → length (if d.fport == 0 then [] else u.pending) ≡ 0
    no_commands cmds k = cc

-- The frame of a send is built, and received.
pub frame_built :
    (crypto_of : List ℕ → Crypto) (s : Session) (cs : List UplinkMacCommand) (d : SendData)
    (c : Settings) (req : Bool) (p : Payload)
    → Ready crypto_of s cs
    → Chosen d s.uplink p
    → 13 + length s.uplink.pending + length d.bytes ≤ 256
    → (bytes : List ℕ) × (build_into
          (frame_for s c d req p)
          256
          (crypto_of s.nwkskey)
          (some (crypto_of s.appskey))
        ≡ ret (ok bytes))
      × (length bytes ≡ 13 + length s.uplink.pending + length d.bytes)
      × ((v : DataView) × (check_mic_and_decrypt_in_place bytes
              (crypto_of s.nwkskey)
              (some (crypto_of s.appskey))
              s.fcnt_up
            ≡ ret (ok v))
          × Shows (frame_for s c d req p) v)
unfolding frame_for
frame_built crypto_of s cs d c req p w chosen fits =
    let frame : DataFrame = frame_for s c d req p in
    let (out, ran, built) =
      build_into-Built frame (crypto_of s.nwkskey) 256 (some (crypto_of s.appskey))
        (record { address = w.address; counter = w.counter; port = chosen.port }) w.mic_four in
    let (bytes, made, size, received) =
      Built-ok frame (crypto_of s.nwkskey) (crypto_of s.appskey) out chosen.short
        (omega (arith, chosen.room)) chosen.alone built in
    (bytes, ran ∙ ap ret made, omega (arith, size, chosen.room), received)

-- The frame of a send, read field by field.
pub frame_for-Carries :
    (s : Session) (c : Settings) (d : SendData) (req : Bool) (p : Payload) (v : DataView)
    → Chosen d s.uplink p
    → Shows (frame_for s c d req p) v
    → Carries s c d req v
unfolding frame_for f_opts_of is_uplink
frame_for-Carries s c d req p v chosen shows = record {
  kind = shows.kind;
  header = shows.header;
  control = shows.control;
  reads_header = shows.reads_header;
  reads_control = shows.reads_control;
  reads_address = shows.reads_address;
  reads_counter = shows.reads_counter;
  reads_adr = shows.reads_adr;
  reads_adr_ack_req = shows.reads_adr_ack_req ∙ asked d.confirmed req;
  reads_ack = shows.reads_ack;
  reads_opts = shows.reads_opts;
  reads_port = shows.reads_port ∙ ap ret chosen.port_chosen;
  reads_payload = shows.reads_payload ∙ ap ret chosen.payload_chosen;
}
  where
    asked :
        (confirmed req : Bool)
        → (req && Layout.is_uplink (if confirmed then confirmed_up else unconfirmed_up)) ≡ req
    asked true true = refl
    asked true false = refl
    asked false true = refl
    asked false false = refl
