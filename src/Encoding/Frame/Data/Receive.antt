-- ===== src/Encoding/Frame/Data/Receive.antt =====
-- Receiving bytes from anyone: no panic, and nothing accepted without its integrity code.
use lora_rs.Common.{
  ℕ, ◌-◌, ◌≤◌, ◌≡◌, refl, ap, ◌∙◌, inl, inr, List, ◌++◌, length, take, drop, arith, length-append,
  length-take, length-drop, some, none, Option, ok, err, Result, ltb, le→ltb, ret, if◌then◌else◌,
  Bool-cases, Result-cases, replicate, ◌==◌,
}
use lora_rs.External.{Crypto}
use lora_rs.Encoding.Frame.Layout.{Error, missing_key, invalid_mic, DataView, parse_data, mic}
use lora_rs.Encoding.Frame.Layout.Accepts.{PortAt}
use lora_rs.Encoding.Frame.Layout.Accessors.{
  Fits, parse_data-Fits, parse_data-ok, slice-within, length-slice, f_port-Returns, mic-returns,
}
use lora_rs.Encoding.Frame.Security.{
  helper_block, generate_helper_block, encrypt_loop, encrypt_frm_data_payload,
}
use lora_rs.Encoding.Frame.Security.Keystream.{length-encrypt_loop}
use lora_rs.Encoding.Frame.Data.{
  same_bytes, validate_mic, full_fcnt, payload_key, decrypt_with, decrypt_view, decrypt_parsed,
  decrypt_in_place, check_parsed, check_mic_and_decrypt_in_place,
}
use lora_rs.Encoding.Frame.Data.Middle.{data_mic, calculate_data_mic-returns, same_bytes-eq}

-- The bytes once the payload is encrypted or decrypted.
middle_of : List ℕ → ℕ → ℕ → ℕ → Crypto → List ℕ
middle_of frame start end count key =
    encrypt_loop key (helper_block frame 0x01 count 0) (replicate 16 0) 1 0
      (take (end - start) (drop start frame))

abbrev crypted : List ℕ → ℕ → ℕ → ℕ → Crypto → List ℕ
crypted frame start end count key =
    take start frame ++ (middle_of frame start end count key ++ drop end frame)

module _ (frame : List ℕ) (start end count : ℕ) (key : Crypto) (long : 5 ≤ length frame)
    (order : start ≤ end) (within : end ≤ length frame) where
  encrypt-returns :
      encrypt_frm_data_payload frame start end count key ≡ ret (crypted frame start end count key)
  unfolding encrypt_frm_data_payload generate_helper_block middle_of
  encrypt-returns =
      rw (le→ltb (length frame) 5 long, slice-within frame start end order within) refl

  length-middle_of : length (middle_of frame start end count key) ≡ end - start
  unfolding middle_of
  length-middle_of = omega (
    arith,
    length-encrypt_loop key (helper_block frame 0x01 count 0)
        (take (end - start) (drop start frame)) (replicate 16 0) 1 0,
    length-slice frame start end order within,
  )

  length-crypted : length (crypted frame start end count key) ≡ length frame
  length-crypted = omega (
    arith,
    length-append (take start frame) (middle_of frame start end count key ++ drop end frame),
    length-append (middle_of frame start end count key) (drop end frame),
    length-middle_of,
    length-take start frame (omega arith),
    length-drop end frame,
  )

frm-order :
    (v : DataView)
    → Fits v
    → (v.layout.frm_start ≤ v.layout.frm_end) × (v.layout.frm_end ≤ length v.bytes)
frm-order v w = (ordered w.port, omega (arith, w.end_at))
  where
    ordered : PortAt v.layout → v.layout.frm_start ≤ v.layout.frm_end
    ordered (inl p) = omega (arith, p.2)
    ordered (inr p) = p.2

-- The result of a decryption keeps the offsets within the bytes.
abbrev Kept : DataView → Result DataView Error → Type 0
Kept v (ok u) = (u.layout ≡ v.layout) × (length u.bytes ≡ length v.bytes)
Kept v (err e) = e ≡ missing_key

decrypt_with-Kept :
    (v : DataView) (count : ℕ) (key : Option Crypto)
    → Fits v
    → (r : Result DataView Error) × (decrypt_with v count key ≡ ret r) × Kept v r
unfolding decrypt_with
decrypt_with-Kept v count none w = (err missing_key, refl, refl)
decrypt_with-Kept v count (some key) w =
    let order = frm-order v w in
    let long : 5 ≤ length v.bytes = omega (arith, w.room, w.header) in
    (
      ok (record v {
        bytes = crypted v.bytes v.layout.frm_start v.layout.frm_end (full_fcnt count v.bytes) key;
      }),
      rw
          (encrypt-returns v.bytes v.layout.frm_start v.layout.frm_end (full_fcnt count v.bytes) key
            long order.0 order.1)
          refl,
      (
        refl,
        length-crypted v.bytes v.layout.frm_start v.layout.frm_end (full_fcnt count v.bytes) key
            long order.0 order.1,
      ),
    )

pub decrypt_view-Kept :
    (v : DataView) (nwk app : Option Crypto) (count : ℕ)
    → Fits v
    → (r : Result DataView Error) × (decrypt_view v nwk app count ≡ ret r) × Kept v r
unfolding decrypt_view payload_key
decrypt_view-Kept v nwk app count w = elim (Bool-cases (ltb v.layout.frm_start v.layout.frm_end)) [
  | inl e ↦
      let (port, found) = f_port-Returns v w in
      rw (e, found)
        (decrypt_with-Kept v count (elim port [ none ↦ nwk | some p ↦ if p == 0 then nwk else app ])
          w)
  | inr e ↦ (ok v, rw e refl, (refl, refl))
]

-- The integrity code that a frame carries against the one over its other bytes.
pub validate_mic-returns :
    (v : DataView) (key : Crypto) (count : ℕ)
    → Fits v
    → (carried : List ℕ) × (mic v ≡ ret carried)
      × (validate_mic v key count
          ≡ ret (same_bytes carried (data_mic key (take (length v.bytes - 4) v.bytes) count)))
unfolding validate_mic
validate_mic-returns v key count w =
    let (carried, found, four) = mic-returns v w in
    (
      carried,
      found,
      rw
          (
            slice-within v.bytes 0 (length v.bytes - 4) (omega arith) (omega arith),
            whole,
            calculate_data_mic-returns (take (length v.bytes - 4) v.bytes) key count
                (omega (arith, length-take (length v.bytes - 4) v.bytes, w.room, w.header)),
            found,
          )
          refl,
    )
  where
    whole : length v.bytes - 4 - 0 ≡ length v.bytes - 4
    whole = omega arith

decrypt_in_place-Kept :
    (buf : List ℕ) (nwk app : Option Crypto) (count : ℕ) (v : DataView)
    → parse_data buf ≡ ok v
    → (r : Result DataView Error) × (decrypt_in_place buf nwk app count ≡ ret r) × Kept v r
unfolding decrypt_in_place decrypt_parsed
decrypt_in_place-Kept buf nwk app count v h =
    rw h (decrypt_view-Kept v nwk app count (parse_data-Fits buf v h))

-- What a result says of the bytes received.
abbrev pub Authentic : List ℕ → Crypto → ℕ → Result DataView Error → Type 0
Authentic buf nwk count (ok u) =
    (v : DataView) × (parse_data buf ≡ ok v)
    × (mic v ≡ ret (data_mic nwk (take (length buf - 4) buf) count))
    × (u.layout ≡ v.layout)
    × (length u.bytes ≡ length buf)
Authentic buf nwk count (err e) = Unit {0}

Kept-Authentic :
    (buf : List ℕ) (nwk : Crypto) (count : ℕ) (v : DataView) (r : Result DataView Error)
    → parse_data buf ≡ ok v
    → mic v ≡ ret (data_mic nwk (take (length buf - 4) buf) count)
    → Kept v r
    → Authentic buf nwk count r
Kept-Authentic buf nwk count v (ok u) h m (l, n) =
    (v, h, m, l, omega (arith, n, ap length (parse_data-ok buf v h).0))
Kept-Authentic buf nwk count v (err e) h m k = tt

check_parsed-Authentic :
    (buf : List ℕ) (nwk : Crypto) (app : Option Crypto) (count : ℕ) (v : DataView)
    → parse_data buf ≡ ok v
    → (r : Result DataView Error) × (check_parsed buf nwk app count (ok v) ≡ ret r)
      × Authentic buf nwk count r
unfolding check_parsed
check_parsed-Authentic buf nwk app count v h =
    let (carried, found, valid) = validate_mic-returns v nwk count (parse_data-Fits buf v h) in
    let (r, decrypted, kept) = decrypt_in_place-Kept buf (some nwk) app count v h in
    elim (Bool-cases
      (same_bytes carried (data_mic nwk (take (length v.bytes - 4) v.bytes) count))) [
        | inl e ↦ (
          r,
          rw (valid, e) decrypted,
          Kept-Authentic buf nwk count v r h
              (rw (← (parse_data-ok buf v h).0) (found ∙ ap ret (same_bytes-eq carried _ e))) kept,
        )
        | inr e ↦ (err invalid_mic, rw (valid, e) refl, tt)
      ]

-- Whatever the bytes and the counter, the receive path returns, and does not panic. It gives a view
-- only where the last four bytes are the code over the bytes before them under the network key and
-- that counter; the view then has the offsets of the received bytes and is as long.
pub check_mic-Authentic :
    (buf : List ℕ) (nwk : Crypto) (app : Option Crypto) (count : ℕ)
    → (r : Result DataView Error) × (check_mic_and_decrypt_in_place buf nwk app count ≡ ret r)
      × Authentic buf nwk count r
unfolding check_mic_and_decrypt_in_place check_parsed
check_mic-Authentic buf nwk app count = elim (Result-cases (parse_data buf)) [
  | inl (v, e) ↦ rw e (check_parsed-Authentic buf nwk app count v e)
  | inr (x, e) ↦ (err x, rw e refl, tt)
]
