-- ===== src/Encoding/Frame/Data/RoundTrip.antt =====
-- A data frame that `DataFrame::build_into` writes is accepted, decrypted and read back.
use mathlib.Core.List.{append_assoc, append-nil}
use lora_rs.Common.{
  ℕ, suc, ◌+◌, ◌%◌, ◌≤◌, ◌<◌, ◌≡◌, refl, sym, ap, ◌∙◌, List, [], ◌∷◌, ◌++◌, length, arith,
  length-append, some, none, Option, ok, lt→ltb, le→ltb, ret, ◌&&◌, not, true, false, if◌then◌else◌,
  ◌==◌,
}
use lora_rs.External.{Crypto}
use lora_rs.Encoding.Frame.Layout.{
  DataView, parse_data, Fhdr, fhdr, f_port, dev_addr, fctrl, fcnt, f_opts, FCtrl, adr, ack,
  adr_ack_req, f_pending, is_uplink,
}
use lora_rs.Encoding.Frame.Security.{encrypt_loop, helper_block}
use lora_rs.Encoding.Frame.Data.{
  DataFrame, Payload, no_payload, data_payload, mac_commands, Body, fctrl_byte, header_bytes,
  encrypt_body, assemble, validate_mic, full_fcnt, payload_key, decrypt_with, decrypt_view,
  decrypt_parsed, check_parsed, decrypt_in_place, check_mic_and_decrypt_in_place, FrmPayload,
  frm_none, frm_data, frm_mac_commands, classify, frm_payload,
}
use lora_rs.Encoding.Frame.Data.Parts.{
  fctrl_byte-adr, fctrl_byte-ack, fctrl_byte-adr_ack_req, fctrl_byte-f_pending, built_header,
  length-header_bytes, header_bytes-append, counter_at, built_dev_addr, built_fctrl, built_fcnt,
  built_f_opts,
}
use lora_rs.Encoding.Frame.Data.Middle.{
  sealed, encrypt_middle, unseal, length-sealed, data_mic, calculate_data_mic-returns,
  same_bytes_refl, slice_front, slice_middle,
}
use lora_rs.Encoding.Frame.Data.Views.{
  view_of, view_with_port, view_bare, fhdr_of_view, port_of_view, mic_of_view,
}

-- A frame as the source's types have it: an address of four bytes, a counter of 32 bits, and
-- application data on a port that is not zero.
pub record IsFrame (f : DataFrame) : Type 0 where
  pub address : length f.dev_addr ≡ 4
  pub counter : f.fcnt < 0x1_0000_0000
  pub port : (p : ℕ) (bytes : List ℕ) → f.payload ≡ data_payload p bytes → (p == 0) ≡ false

-- The payload as a receiver sees it.
abbrev pub port_of : Payload → Option ℕ
port_of no_payload = none
port_of (data_payload port bytes) = some port
port_of (mac_commands cmds) = some 0

abbrev pub seen : Payload → FrmPayload
seen no_payload = frm_none
seen (data_payload port bytes) = frm_data bytes
seen (mac_commands cmds) = frm_mac_commands cmds

-- A view that shows the fields of a frame.
pub record Shows (f : DataFrame) (v : DataView) : Type 0 where
  pub kind : v.layout.frame_type ≡ f.frame_type
  pub header : Fhdr
  pub control : FCtrl
  pub reads_header : fhdr v ≡ ret header
  pub reads_address : dev_addr header ≡ ret f.dev_addr
  pub reads_counter : fcnt header ≡ ret (f.fcnt % 65536)
  pub reads_opts : f_opts header ≡ ret f.f_opts
  pub reads_control : fctrl header ≡ ret control
  pub reads_adr : adr control ≡ f.adr
  pub reads_ack : ack control ≡ f.ack
  pub reads_adr_ack_req : adr_ack_req control ≡ (f.adr_ack_req && is_uplink f.frame_type)
  pub reads_f_pending : f_pending control ≡ (f.f_pending && not (is_uplink f.frame_type))
  pub reads_port : f_port v ≡ ret (port_of f.payload)
  pub reads_payload : frm_payload v ≡ ret (seen f.payload)

-- What `assemble` writes: the header, the cipher text and the code over both.
abbrev pub cipher_of : DataFrame → Body → List ℕ
cipher_of f body = sealed body.key (header_bytes f body.port) f.fcnt body.frm

abbrev pub mic_block : DataFrame → Body → List ℕ
mic_block f body =
    let frame = header_bytes f body.port ++ cipher_of f body in
    helper_block frame 0x49 f.fcnt (length frame % 256)

abbrev pub code_of : DataFrame → Body → Crypto → List ℕ
code_of f body nwk = data_mic nwk (header_bytes f body.port ++ cipher_of f body) f.fcnt

abbrev pub frame_of : DataFrame → Body → Crypto → List ℕ
frame_of f body nwk = header_bytes f body.port ++ (cipher_of f body ++ code_of f body nwk)

suc-==-zero : (n : ℕ) → (suc n == 0) ≡ false
suc-==-zero n = ground arith

seal_body :
    (header port frm : List ℕ) (key : Crypto) (count : ℕ)
    → 5 ≤ length header
    → encrypt_body header (record { port = port; frm = frm; key = key }) count
      ≡ ret (header ++ sealed key header count frm)
unfolding encrypt_body encrypt_loop
seal_body header port [] key count h = refl
seal_body header port (x ∷ xs) key count h = rw (suc-==-zero (length xs)) (
    rw (append-nil (x ∷ xs), append-nil (sealed key header count (x ∷ xs))) at
      (encrypt_middle header (x ∷ xs) [] count key h))

module _ (f : DataFrame) (address : length f.dev_addr ≡ 4) (body : Body) where
  long_header : 8 ≤ length (header_bytes f body.port)
  long_header = omega (arith, length-header_bytes f address body.port)

  encrypt_body-returns :
      encrypt_body (header_bytes f body.port) body f.fcnt
      ≡ ret (header_bytes f body.port ++ cipher_of f body)
  encrypt_body-returns =
      seal_body (header_bytes f body.port) body.port body.frm body.key f.fcnt
        (omega (arith, long_header))

  pub assemble-returns : (nwk : Crypto) → assemble f body nwk ≡ ret (frame_of f body nwk)
  unfolding assemble
  assemble-returns nwk =
      rw
        (
          encrypt_body-returns,
          calculate_data_mic-returns (header_bytes f body.port ++ cipher_of f body) nwk f.fcnt (
              omega
                (arith, long_header, length-append (header_bytes f body.port) (cipher_of f body))),
        )
        (ap ret (append_assoc (header_bytes f body.port) (cipher_of f body) (code_of f body nwk)))

  -- The receiver finds the code it expects.
  module _ (nwk : Crypto) (four : length (code_of f body nwk) ≡ 4) where
    pub validate_mic-true :
        validate_mic (view_of f body.port (cipher_of f body) (code_of f body nwk)) nwk f.fcnt
        ≡ ret true
    unfolding validate_mic
    validate_mic-true =
        rw
          (
            mic_of_view f address (cipher_of f body) (code_of f body nwk) body.port four,
            ← append_assoc (header_bytes f body.port) (cipher_of f body) (code_of f body nwk),
            slice_front (header_bytes f body.port ++ cipher_of f body) (code_of f body nwk) four,
            calculate_data_mic-returns (header_bytes f body.port ++ cipher_of f body) nwk f.fcnt (
                omega (
                  arith,
                  long_header,
                  length-append (header_bytes f body.port) (cipher_of f body),
                )),
            same_bytes_refl (code_of f body nwk),
          )
          refl

    full_fcnt-received : f.fcnt < 0x1_0000_0000 → full_fcnt f.fcnt (frame_of f body nwk) ≡ f.fcnt
    unfolding full_fcnt
    full_fcnt-received h =
        rw (header_bytes-append f address body.port (cipher_of f body ++ code_of f body nwk)) (
          omega
            (arith, counter_at f address (body.port ++ (cipher_of f body ++ code_of f body nwk))))

    decrypt_with-shows :
        f.fcnt < 0x1_0000_0000
        → decrypt_with
            (view_of f body.port (cipher_of f body) (code_of f body nwk))
            f.fcnt
            (some body.key)
          ≡ ret (ok (view_of f body.port body.frm (code_of f body nwk)))
    unfolding decrypt_with
    decrypt_with-shows h =
        rw
          (
            full_fcnt-received h,
            encrypt_middle (header_bytes f body.port) (cipher_of f body) (code_of f body nwk) f.fcnt
                body.key (omega (arith, long_header)),
            unseal body.key (header_bytes f body.port) body.frm f.fcnt,
            length-sealed body.key (header_bytes f body.port) body.frm f.fcnt,
          )
          refl

    -- The receiver, from the parsed frame on.
    module _ (app : Option Crypto)
        (parsed : parse_data (frame_of f body nwk)
          ≡ ok (view_of f body.port (cipher_of f body) (code_of f body nwk)))
        (decrypted : decrypt_view
            (view_of f body.port (cipher_of f body) (code_of f body nwk))
            (some nwk)
            app
            f.fcnt
          ≡ ret (ok (view_of f body.port body.frm (code_of f body nwk)))) where
      pub decrypt_in_place-shows :
          decrypt_in_place (frame_of f body nwk) (some nwk) app f.fcnt
          ≡ ret (ok (view_of f body.port body.frm (code_of f body nwk)))
      unfolding decrypt_in_place decrypt_parsed
      decrypt_in_place-shows = rw parsed decrypted

      check_mic-shows :
          check_mic_and_decrypt_in_place (frame_of f body nwk) nwk app f.fcnt
          ≡ ret (ok (view_of f body.port body.frm (code_of f body nwk)))
      unfolding check_mic_and_decrypt_in_place check_parsed
      check_mic-shows = rw (parsed, validate_mic-true) decrypt_in_place-shows

-- A frame with a port, whose payload is decrypted with the key that sealed it.
module _ (f : DataFrame) (w : IsFrame f) (short : length f.f_opts ≤ 15) (nwk : Crypto) where
  pub decrypt_view-shows :
      (p : ℕ) (frm : List ℕ) (key : Crypto) (app : Option Crypto)
      → length (code_of f (record { port = p ∷ []; frm = frm; key = key }) nwk) ≡ 4
      → (if p == 0 then some nwk else app) ≡ some key
      → decrypt_view
          (view_of f
            (p ∷ [])
            (cipher_of f (record { port = p ∷ []; frm = frm; key = key }))
            (code_of f (record { port = p ∷ []; frm = frm; key = key }) nwk))
          (some nwk)
          app
          f.fcnt
        ≡ ret (
            ok (
              view_of f
                (p ∷ [])
                frm
                (code_of f (record { port = p ∷ []; frm = frm; key = key }) nwk)))
  unfolding decrypt_view payload_key encrypt_loop
  decrypt_view-shows p [] key app four e =
      rw
        (le→ltb (length (header_bytes f (p ∷ []))) (length (header_bytes f (p ∷ [])) + 0)
          (omega arith))
        refl
  decrypt_view-shows p (x ∷ xs) key app four e =
      rw
        (
          lt→ltb (length (header_bytes f (p ∷ [])))
              (length (header_bytes f (p ∷ [])) + length (cipher_of f body))
              (omega (arith, length-sealed key (header_bytes f (p ∷ [])) (x ∷ xs) f.fcnt)),
          port_of_view f w.address (cipher_of f body) (code_of f body nwk) p,
          e,
        )
        (decrypt_with-shows f w.address body nwk four w.counter)
    where
      body : Body
      body = record { port = p ∷ []; frm = x ∷ xs; key = key }

  pub Shows-of_view :
      (port frm code : List ℕ)
      → f_port (view_of f port frm code) ≡ ret (port_of f.payload)
      → frm_payload (view_of f port frm code) ≡ ret (seen f.payload)
      → Shows f (view_of f port frm code)
  Shows-of_view port frm code port_read payload = record {
    kind = refl;
    header = built_header f w.address;
    control = record { byte = fctrl_byte f; uplink = is_uplink f.frame_type };
    reads_header = fhdr_of_view f w.address frm code port;
    reads_address = built_dev_addr f w.address;
    reads_counter = built_fcnt f w.address;
    reads_opts = built_f_opts f w.address;
    reads_control = built_fctrl f w.address;
    reads_adr = fctrl_byte-adr f (is_uplink f.frame_type) short;
    reads_ack = fctrl_byte-ack f (is_uplink f.frame_type) short;
    reads_adr_ack_req = fctrl_byte-adr_ack_req f short;
    reads_f_pending = fctrl_byte-f_pending f short;
    reads_port = port_read;
    reads_payload = payload;
  }

  pub payload_with_port :
      (p : ℕ) (frm code : List ℕ)
      → frm_payload (view_of f (p ∷ []) frm code) ≡ ret (classify (some p) frm)
  unfolding frm_payload
  payload_with_port p frm code =
      rw (slice_middle (header_bytes f (p ∷ [])) frm code, port_of_view f w.address frm code p) refl

  no_port : (code : List ℕ) → f_port (view_of f [] [] code) ≡ ret none
  unfolding f_port
  no_port code = refl

  payload_bare : (code : List ℕ) → frm_payload (view_of f [] [] code) ≡ ret frm_none
  unfolding frm_payload f_port classify
  payload_bare code = rw (slice_middle (header_bytes f []) [] code) refl

  module _ (mic_four : (b0 frame : List ℕ) → length (nwk.calculate_mic b0 frame) ≡ 4) where
    -- What the receiver makes of a frame with a port.
    pub receive_with_port :
        (p : ℕ) (frm : List ℕ) (key : Crypto) (app : Option Crypto)
        → (if p == 0 then some nwk else app) ≡ some key
        → some p ≡ port_of f.payload
        → classify (some p) frm ≡ seen f.payload
        → (v : DataView) × (check_mic_and_decrypt_in_place
              (frame_of f (record { port = p ∷ []; frm = frm; key = key }) nwk)
              nwk
              app
              f.fcnt
            ≡ ret (ok v))
          × Shows f v
    receive_with_port p frm key app e q s = (
      view_of f (p ∷ []) frm (code_of f body nwk),
      check_mic-shows f w.address body nwk (mic_four _ _) app
          (view_with_port f w.address short (code_of f body nwk) (mic_four _ _) p
            (cipher_of f body))
          (decrypt_view-shows p frm key app (mic_four _ _) e),
      Shows-of_view (p ∷ []) frm (code_of f body nwk)
          (port_of_view f w.address frm (code_of f body nwk) p ∙ ap ret q)
          (payload_with_port p frm (code_of f body nwk) ∙ ap ret s),
    )
      where
        body : Body
        body = record { port = p ∷ []; frm = frm; key = key }

    pub receive_bare :
        (app : Option Crypto)
        → f.payload ≡ no_payload
        → (v : DataView) × (check_mic_and_decrypt_in_place
              (frame_of f (record { port = []; frm = []; key = nwk }) nwk)
              nwk
              app
              f.fcnt
            ≡ ret (ok v))
          × Shows f v
    unfolding encrypt_loop decrypt_view
    receive_bare app none_there = (
      view_of f [] [] (code_of f body nwk),
      check_mic-shows f w.address body nwk (mic_four _ _) app
          (view_bare f w.address short (code_of f body nwk) (mic_four _ _))
          (rw (le→ltb (length (header_bytes f [])) (length (header_bytes f []) + 0) (omega arith))
            refl),
      Shows-of_view [] [] (code_of f body nwk)
          (no_port (code_of f body nwk) ∙ ap (λ (c : Payload). ret (port_of c)) (sym none_there))
          (payload_bare (code_of f body nwk) ∙ ap (λ (c : Payload). ret (seen c)) (sym none_there)),
    )
      where
        body : Body
        body = record { port = []; frm = []; key = nwk }
