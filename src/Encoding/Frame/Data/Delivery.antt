-- ===== src/Encoding/Frame/Data/Delivery.antt =====
-- What `DataFrame::build_into` returns, and what a receiver with the same keys makes of it.
use mathlib.Core.Path.{subst}
use lora_rs.Common.{
  is_some, true, ==_iff, ℕ, ◌+◌, ◌≤◌, ◌<◌, ◌≡◌, refl, sym, List, ◌++◌, length, arith, length-append,
  some, none, Option, ok, err, Result, ltb, ltb→lt, Exec, ret, ◌==◌, ret-eq, ok-eq, Bool-cases, inl,
  inr,
}
use lora_rs.External.{Crypto}
use lora_rs.Encoding.Frame.Layout.{
  Error, missing_key, buffer_too_short, f_opts_too_long, f_opts_with_f_port_zero, DataView,
}
use lora_rs.Encoding.Frame.Data.{
  DataFrame, Payload, no_payload, data_payload, mac_commands, Body, select_payload, select_body,
  header_bytes, total_len, build_body, build_into, check_mic_and_decrypt_in_place, classify,
}
use lora_rs.Encoding.Frame.Data.Parts.{length-header_bytes}
use lora_rs.Encoding.Frame.Data.Middle.{length-sealed}
use lora_rs.Encoding.Frame.Data.RoundTrip.{
  IsFrame, Shows, frame_of, cipher_of, code_of, mic_block, assemble-returns, receive_with_port,
  receive_bare,
}

-- The bytes that a payload takes, with its port.
abbrev pub payload_len : Payload → ℕ
payload_len no_payload = 0
payload_len (data_payload port bytes) = 1 + length bytes
payload_len (mac_commands cmds) = 1 + length cmds

-- A payload that can be sent: application data needs its key, and MAC commands need an empty FOpts.
abbrev pub CanSend : Payload → List ℕ → Option Crypto → Type 0
CanSend no_payload f_opts app = Unit {0}
CanSend (data_payload port bytes) f_opts app = is_some app ≡ true
CanSend (mac_commands cmds) f_opts app = length f_opts ≡ 0

-- The outcomes of `build_into`, each with when it comes: the errors in the order of their tests.
abbrev pub Outcome : DataFrame → ℕ → Option Crypto → Result (List ℕ) Error → Type 0
Outcome f room app (ok bytes) =
    (length f.f_opts ≤ 15)
    × (length bytes ≡ 12 + length f.f_opts + payload_len f.payload)
    × (length bytes ≤ room)
    × CanSend f.payload f.f_opts app
Outcome f room app (err f_opts_too_long) = 15 < length f.f_opts
Outcome f room app (err missing_key) =
    (length f.f_opts ≤ 15)
    × (app ≡ none)
    × ((p : ℕ) × (bytes : List ℕ) × (f.payload ≡ data_payload p bytes))
Outcome f room app (err f_opts_with_f_port_zero) =
    (length f.f_opts ≤ 15)
    × (1 ≤ length f.f_opts)
    × ((cmds : List ℕ) × (f.payload ≡ mac_commands cmds))
Outcome f room app (err buffer_too_short) =
    (length f.f_opts ≤ 15)
    × CanSend f.payload f.f_opts app
    × (room < 12 + length f.f_opts + payload_len f.payload)
Outcome f room app (err other) = 1 ≤ 0

-- Where none of the errors applies, the bytes are the frame: a receiver with its keys and its counter
-- accepts them and reads the frame.
abbrev pub Built : DataFrame → Crypto → ℕ → Option Crypto → Result (List ℕ) Error → Type 0
Built f nwk room app (ok bytes) =
    Outcome f room app (ok bytes)
    × ((v : DataView) × (check_mic_and_decrypt_in_place bytes nwk app f.fcnt ≡ ret (ok v))
        × Shows f v)
Built f nwk room app (err e) = Outcome f room app (err e)

module _ (f : DataFrame) (w : IsFrame f) (nwk : Crypto) where
  -- What was selected from the payload.
  Selected : Payload → Option Crypto → Result Body Error → Type 0
  Selected p app (ok body) =
      (length body.port + length body.frm ≡ payload_len p) × CanSend p f.f_opts app
  Selected p app (err missing_key) =
      (app ≡ none) × (q : ℕ) × (bytes : List ℕ) × (p ≡ data_payload q bytes)
  Selected p app (err f_opts_with_f_port_zero) =
      (1 ≤ length f.f_opts) × (cmds : List ℕ) × (p ≡ mac_commands cmds)
  Selected p app (err other) = 1 ≤ 0

  select_payload-Selected :
      (p : Payload) (app : Option Crypto) → Selected p app (select_payload p f.f_opts nwk app)
  unfolding select_payload Selected
  select_payload-Selected no_payload app = (omega arith, tt)
  select_payload-Selected (data_payload port bytes) none = (refl, port, bytes, refl)
  select_payload-Selected (data_payload port bytes) (some key) = (omega arith, refl)
  select_payload-Selected (mac_commands cmds) app = elim (Bool-cases (length f.f_opts == 0)) [
    | inl e ↦ rw e (omega arith, (==_iff (length f.f_opts) 0).0 e)
    | inr e ↦ rw e (ground arith, cmds, refl)
  ]

  Outcome-err :
      (room : ℕ) (app : Option Crypto) (e : Error)
      → length f.f_opts ≤ 15
      → Selected f.payload app (err e)
      → Outcome f room app (err e)
  unfolding Selected
  Outcome-err room app missing_key short s = (short, s.0, (s.1, s.2, s.3))
  Outcome-err room app f_opts_with_f_port_zero short s = (short, s.0, (s.1, s.2))
  Outcome-err room app f_opts_too_long short s = absurd (omega arith)
  Outcome-err room app buffer_too_short short s = absurd (omega arith)
  Outcome-err room app _ short s = s

  module _ (mic_four : (b0 frame : List ℕ) → length (nwk.calculate_mic b0 frame) ≡ 4) where
    length-frame_of : (body : Body) → length (frame_of f body nwk) ≡ total_len f body
    unfolding total_len
    length-frame_of body = omega (
      arith,
      length-append (header_bytes f body.port) (cipher_of f body ++ code_of f body nwk),
      length-append (cipher_of f body) (code_of f body nwk),
      length-header_bytes f w.address body.port,
      length-sealed body.key (header_bytes f body.port) body.frm f.fcnt,
      mic_four (mic_block f body) (header_bytes f body.port ++ cipher_of f body),
    )

    build_body-Outcome :
        (room : ℕ) (app : Option Crypto) (r : Result Body Error)
        → length f.f_opts ≤ 15
        → Selected f.payload app r
        → (out : Result (List ℕ) Error) × (build_body f room nwk r ≡ ret out)
          × Outcome f room app out
    unfolding build_body Selected total_len
    build_body-Outcome room app (err e) short s = (err e, refl, Outcome-err room app e short s)
    build_body-Outcome room app (ok body) short s =
        elim (Bool-cases (ltb room (total_len f body))) [
          | inl e ↦
              (err buffer_too_short, rw e refl, (short, s.1, omega (arith, ltb→lt _ _ e, s.0)))
          | inr e ↦ (
            ok (frame_of f body nwk),
            rw (e, assemble-returns f w.address body nwk) refl,
            (
              short,
              omega (arith, length-frame_of body, s.0),
              ground (arith, length-frame_of body),
              s.1,
            ),
          )
        ]

build_into-Outcome :
    (f : DataFrame) (nwk : Crypto) (room : ℕ) (app : Option Crypto)
    → IsFrame f
    → ((b0 frame : List ℕ) → length (nwk.calculate_mic b0 frame) ≡ 4)
    → (out : Result (List ℕ) Error) × (build_into f room nwk app ≡ ret out) × Outcome f room app out
unfolding build_into select_body
build_into-Outcome f nwk room app w mic_four = elim (Bool-cases (ltb 15 (length f.f_opts))) [
  | inl e ↦ (err f_opts_too_long, rw e refl, ltb→lt _ _ e)
  | inr e ↦ rw e (
      build_body-Outcome f w nwk mic_four room app (select_payload f.payload f.f_opts nwk app)
        (ground arith) (select_payload-Selected f w nwk f.payload app))
]

-- A run of `build_into` that gives bytes wrote the frame of the selected body.
build_body-ok :
    (f : DataFrame) (room : ℕ) (nwk : Crypto) (r : Result Body Error) (bytes : List ℕ)
    → length f.dev_addr ≡ 4
    → build_body f room nwk r ≡ ret (ok bytes)
    → (body : Body) × (r ≡ ok body) × (bytes ≡ frame_of f body nwk)
unfolding build_body
build_body-ok f room nwk (err e) bytes a h = cc
build_body-ok f room nwk (ok body) bytes a h = elim (Bool-cases (ltb room (total_len f body))) [
  | inl e ↦ too_short (rw e at h)
  | inr e ↦ (body, refl, sym (ok-eq (ret-eq (rw (e, assemble-returns f a body nwk) at h))))
]
  where
    too_short :
        ◌≡◌ {A = Exec (Result (List ℕ) Error)} (ret (err buffer_too_short)) (ret (ok bytes))
        → (other : Body) × (◌≡◌ {A = Result Body Error} (ok body) (ok other))
          × (bytes ≡ frame_of f other nwk)
    too_short q = cc

pub build_into-ok :
    (f : DataFrame) (room : ℕ) (nwk : Crypto) (app : Option Crypto) (bytes : List ℕ)
    → length f.dev_addr ≡ 4
    → build_into f room nwk app ≡ ret (ok bytes)
    → (length f.f_opts ≤ 15)
      × ((body : Body) × (select_payload f.payload f.f_opts nwk app ≡ ok body)
          × (bytes ≡ frame_of f body nwk))
unfolding build_into select_body
build_into-ok f room nwk app bytes a h = elim (Bool-cases (ltb 15 (length f.f_opts))) [
  | inl e ↦ too_long (rw e at h)
  | inr e ↦ (
    ground arith,
    build_body-ok f room nwk (select_payload f.payload f.f_opts nwk app) bytes a (rw e at h),
  )
]
  where
    too_long :
        ◌≡◌ {A = Exec (Result (List ℕ) Error)} (ret (err f_opts_too_long)) (ret (ok bytes))
        → (length f.f_opts ≤ 15)
          × ((body : Body) × (select_payload f.payload f.f_opts nwk app ≡ ok body)
              × (bytes ≡ frame_of f body nwk))
    too_long q = cc

-- The receiver's view, by what the sender selected.
module _ (f : DataFrame) (w : IsFrame f) (short : length f.f_opts ≤ 15) (nwk : Crypto)
    (mic_four : (b0 frame : List ℕ) → length (nwk.calculate_mic b0 frame) ≡ 4) where
  Received : Option Crypto → Body → Type 0
  Received app body =
      (v : DataView) × (check_mic_and_decrypt_in_place (frame_of f body nwk) nwk app f.fcnt
        ≡ ret (ok v))
      × Shows f v

  receive :
      (p : Payload) (app : Option Crypto) (body : Body)
      → f.payload ≡ p
      → select_payload p f.f_opts nwk app ≡ ok body
      → Received app body
  unfolding select_payload Received classify
  receive no_payload app body e s =
      subst (Received app) (ok-eq s) (receive_bare f w short nwk mic_four app e)
  receive (data_payload port bytes) none body e s = cc
  receive (data_payload port bytes) (some key) body e s = subst (Received (some key)) (ok-eq s) (
      receive_with_port f w short nwk mic_four port bytes key (some key)
        (rw (w.port port bytes e) refl) (rw e refl) (rw (e, w.port port bytes e) refl))
  receive (mac_commands cmds) app body e s = elim (Bool-cases (length f.f_opts == 0)) [
    | inl z ↦
        subst (Received app) (ok-eq (rw z at s))
          (receive_with_port f w short nwk mic_four 0 cmds nwk app refl (rw e refl) (rw e refl))
    | inr z ↦ forbidden (rw z at s)
  ]
    where
      forbidden :
          ◌≡◌ {A = Result Body Error} (err f_opts_with_f_port_zero) (ok body) → Received app body
      forbidden q = cc

-- For a frame with an address of four bytes, a counter of 32 bits and no data on port 0, and codes of
-- four bytes: the bytes that `build_into` gives, received with the same keys and the frame's counter, pass
-- the check of the integrity code and are decrypted to a view that shows the frame: its type, address,
-- the low half of its counter, FOpts, flags, port and payload.
pub built_frame_received :
    (f : DataFrame) (nwk : Crypto) (app : Option Crypto) (room : ℕ) (bytes : List ℕ)
    → IsFrame f
    → ((b0 frame : List ℕ) → length (nwk.calculate_mic b0 frame) ≡ 4)
    → build_into f room nwk app ≡ ret (ok bytes)
    → (v : DataView) × (check_mic_and_decrypt_in_place bytes nwk app f.fcnt ≡ ret (ok v))
      × Shows f v
unfolding Received
built_frame_received f nwk app room bytes w mic_four h =
    let (short, (body, selected, written)) = build_into-ok f room nwk app bytes w.address h in
    rw written (receive f w short nwk mic_four f.payload app body refl selected)

-- On a frame with an address of four bytes, a counter of 32 bits and no data on port 0, with codes of
-- four bytes, `build_into` returns: the first error that applies, or, where none does, bytes of the length
-- that the fields give, which a receiver with the keys and the counter accepts and reads as the frame.
pub build_into-Built :
    (f : DataFrame) (nwk : Crypto) (room : ℕ) (app : Option Crypto)
    → IsFrame f
    → ((b0 frame : List ℕ) → length (nwk.calculate_mic b0 frame) ≡ 4)
    → (out : Result (List ℕ) Error) × (build_into f room nwk app ≡ ret out)
      × Built f nwk room app out
build_into-Built f nwk room app w mic_four =
    let (out, ran, outcome) = build_into-Outcome f nwk room app w mic_four in
    (out, ran, complete out ran outcome)
  where
    complete :
        (out : Result (List ℕ) Error)
        → build_into f room nwk app ≡ ret out
        → Outcome f room app out
        → Built f nwk room app out
    complete (ok bytes) ran outcome =
        (outcome, built_frame_received f nwk app room bytes w mic_four ran)
    complete (err e) ran outcome = outcome
