-- ===== src/Encoding/Frame/Data/Arrival.antt =====
-- What a receiver finds, step by step, in a frame of application data that `build_into` wrote.
use lora_rs.Common.{
  ℕ, ◌%◌, ◌≤◌, ◌≡◌, refl, ap, ◌∙◌, true, List, [], ◌∷◌, length, some, ok, ret, ok-eq, if◌then◌else◌,
  ◌==◌,
}
use lora_rs.External.{Crypto}
use lora_rs.Encoding.Frame.Layout.{DataView, parse_data, Fhdr, fhdr, f_port, fcnt}
use lora_rs.Encoding.Frame.Data.{
  DataFrame, data_payload, Body, select_payload, validate_mic, decrypt_in_place, build_into,
  classify, frm_data,
}
use lora_rs.Encoding.Frame.Data.Parts.{built_header, built_fcnt}
use lora_rs.Encoding.Frame.Data.Views.{view_of, view_with_port, fhdr_of_view, port_of_view}
use lora_rs.Encoding.Frame.Data.RoundTrip.{
  IsFrame, Shows, cipher_of, code_of, frame_of, validate_mic-true, decrypt_in_place-shows,
  decrypt_view-shows, Shows-of_view, payload_with_port,
}
use lora_rs.Encoding.Frame.Data.Delivery.{build_into-ok}

pub record Arrives (f : DataFrame) (nwk app : Crypto) (port : ℕ) (bytes : List ℕ) : Type 0 where
  pub view : DataView
  pub plain : DataView
  pub header : Fhdr
  pub parsed : parse_data bytes ≡ ok view
  pub kind : view.layout.frame_type ≡ f.frame_type
  pub reads_header : fhdr view ≡ ret header
  pub reads_counter : fcnt header ≡ ret (f.fcnt % 65536)
  pub valid : validate_mic view nwk f.fcnt ≡ ret true
  pub decrypted : decrypt_in_place bytes (some nwk) (some app) f.fcnt ≡ ret (ok plain)
  pub shows : Shows f plain
  pub reads_port : f_port plain ≡ ret (some port)

module _ (f : DataFrame) (w : IsFrame f) (short : length f.f_opts ≤ 15) (nwk app : Crypto)
    (mic_four : (b0 frame : List ℕ) → length (nwk.calculate_mic b0 frame) ≡ 4) (port : ℕ)
    (content : List ℕ) (carries : f.payload ≡ data_payload port content) where
  abbrev body : Body
  body = record { port = port ∷ []; frm = content; key = app }

  abbrev code : List ℕ
  code = code_of f body nwk

  chosen : (if port == 0 then some nwk else some app) ≡ some app
  chosen = rw (w.port port content carries) refl

  read_back : classify (some port) content ≡ frm_data content
  unfolding classify
  read_back = rw (w.port port content carries) refl

  frame_of-Arrives : Arrives f nwk app port (frame_of f body nwk)
  frame_of-Arrives = record {
    view = view_of f (port ∷ []) (cipher_of f body) code;
    plain = view_of f (port ∷ []) content code;
    header = built_header f w.address;
    parsed = parsed_there;
    kind = refl;
    reads_header = fhdr_of_view f w.address (cipher_of f body) code (port ∷ []);
    reads_counter = built_fcnt f w.address;
    valid = validate_mic-true f w.address body nwk (mic_four _ _);
    decrypted =
        decrypt_in_place-shows f w.address body nwk (mic_four _ _) (some app) parsed_there
          (decrypt_view-shows f w short nwk port content app (some app) (mic_four _ _) chosen);
    shows =
        Shows-of_view f w short nwk (port ∷ []) content code
          (port_of_view f w.address content code port ∙ rw carries refl)
          (payload_with_port f w short nwk port content code ∙ ap ret read_back ∙ rw carries refl);
    reads_port = port_of_view f w.address content code port;
  }
    where
      parsed_there :
          parse_data (frame_of f body nwk) ≡ ok (view_of f (port ∷ []) (cipher_of f body) code)
      parsed_there = view_with_port f w.address short code (mic_four _ _) port (cipher_of f body)

selected_data :
    (port : ℕ) (content opts : List ℕ) (nwk app : Crypto) (b : Body)
    → select_payload (data_payload port content) opts nwk (some app) ≡ ok b
    → record { port = port ∷ []; frm = content; key = app } ≡ b
unfolding select_payload
selected_data port content opts nwk app b h = ok-eq h

pub built_data-Arrives :
    (f : DataFrame) (nwk app : Crypto) (port room : ℕ) (content bytes : List ℕ)
    → IsFrame f
    → ((b0 frame : List ℕ) → length (nwk.calculate_mic b0 frame) ≡ 4)
    → f.payload ≡ data_payload port content
    → build_into f room nwk (some app) ≡ ret (ok bytes)
    → Arrives f nwk app port bytes
built_data-Arrives f nwk app port room content bytes w mic_four carries h =
    let (short, (body, selected, written)) =
      build_into-ok f room nwk (some app) bytes w.address h in
    rw (written, ← selected_data port content f.f_opts nwk app body (rw carries at selected))
      (frame_of-Arrives f w short nwk app mic_four port content carries)
