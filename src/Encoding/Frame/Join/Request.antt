-- ===== src/Encoding/Frame/Join/Request.antt =====
-- A join request that is built is parsed, and its integrity code is the one expected.
use mathlib.Core.List.{append_assoc}
use lora_rs.Common.{
  ℕ, ◌+◌, ◌-◌, ◌≤◌, ◌≡◌, refl, List, [], ◌∷◌, ◌++◌, length, arith, length-append, ok, le→ltb, ret,
  true, ◌==◌, ==_iff,
}
use lora_rs.External.{Crypto}
use lora_rs.Encoding.Frame.Layout.{arr}
use lora_rs.Encoding.Frame.Security.{calculate_mic}
use lora_rs.Encoding.Frame.Data.Middle.{same_bytes_refl, slice_front, slice_end, slice_middle}
use lora_rs.Encoding.Frame.Join.{
  JoinRequest, request_body, build_request, parse_request, check_mhdr, and_then, field,
  request_join_eui, request_dev_eui, request_dev_nonce, extract_mic, validate_join_mic,
}

-- A field that stands between two parts of a frame.
pub field_middle :
    (xs ys zs : List ℕ) (from to : ℕ)
    → from ≡ length xs
    → to ≡ length xs + length ys
    → field (xs ++ (ys ++ zs)) from to ≡ ret ys
unfolding field arr
field_middle xs ys zs from to p q =
    rw (p, q, slice_middle xs ys zs, size, (==_iff (length ys) (length ys)).1 refl) refl
  where
    size : length xs + length ys - length xs ≡ length ys
    size = omega arith

-- A mic of four bytes is the last field.
pub extract_mic-append : (xs code : List ℕ) → length code ≡ 4 → extract_mic (xs ++ code) ≡ ret code
unfolding extract_mic field arr
extract_mic-append xs code four = rw (slice_end xs code four, size) refl
  where
    size : (length code == length (xs ++ code) - (length (xs ++ code) - 4)) ≡ true
    size = (==_iff _ _).1 (omega (arith, length-append xs code))

pub validate_join_mic-append :
    (xs : List ℕ) (crypto : Crypto)
    → length (calculate_mic xs crypto) ≡ 4
    → validate_join_mic (xs ++ calculate_mic xs crypto) crypto ≡ ret true
unfolding validate_join_mic
validate_join_mic-append xs crypto four =
    rw
      (
        slice_front xs (calculate_mic xs crypto) four,
        extract_mic-append xs (calculate_mic xs crypto) four,
        same_bytes_refl (calculate_mic xs crypto),
      )
      refl

pub mic_length :
    (crypto : Crypto) (xs : List ℕ)
    → ((b0 frame : List ℕ) → length (crypto.calculate_mic b0 frame) ≡ 4)
    → length (calculate_mic xs crypto) ≡ 4
unfolding calculate_mic
mic_length crypto xs mic_four = mic_four [] xs

-- A join request as the source's types have it.
pub record IsRequest (r : JoinRequest) : Type 0 where
  pub eui : length r.join_eui ≡ 8
  pub device : length r.dev_eui ≡ 8
  pub nonce : length r.dev_nonce ≡ 2

-- What a reader of a join request finds.
pub record ShowsRequest (r : JoinRequest) (bytes : List ℕ) (crypto : Crypto) : Type 0 where
  pub size : length bytes ≡ 23
  pub parsed : parse_request bytes ≡ ok bytes
  pub reads_eui : request_join_eui bytes ≡ ret r.join_eui
  pub reads_device : request_dev_eui bytes ≡ ret r.dev_eui
  pub reads_nonce : request_dev_nonce bytes ≡ ret r.dev_nonce
  pub valid : validate_join_mic bytes crypto ≡ ret true

module _ (r : JoinRequest) (w : IsRequest r) (crypto : Crypto) where
  length-request_body : length (request_body r) ≡ 19
  unfolding request_body
  length-request_body = omega (
    arith,
    length-append r.join_eui (r.dev_eui ++ r.dev_nonce),
    length-append r.dev_eui r.dev_nonce,
    w.eui,
    w.device,
    w.nonce,
  )

  module _ (code : List ℕ) (four : length code ≡ 4) where
    abbrev request_frame : List ℕ
    request_frame = request_body r ++ code

    length-request_frame : length request_frame ≡ 23
    length-request_frame = omega (arith, length-append (request_body r) code, length-request_body)

    parse_request-frame : parse_request request_frame ≡ ok request_frame
    unfolding parse_request request_body check_mhdr and_then
    parse_request-frame = rw (length-request_frame) refl

    eui-frame : request_join_eui request_frame ≡ ret r.join_eui
    unfolding request_join_eui request_body
    eui-frame = rw (append_assoc r.join_eui (r.dev_eui ++ r.dev_nonce) code) (
        field_middle (0x00 ∷ []) r.join_eui ((r.dev_eui ++ r.dev_nonce) ++ code) 1 9 refl
          (omega (arith, w.eui)))

    device-frame : request_dev_eui request_frame ≡ ret r.dev_eui
    unfolding request_dev_eui request_body
    device-frame =
        rw
          (
            append_assoc r.join_eui (r.dev_eui ++ r.dev_nonce) code,
            append_assoc r.dev_eui r.dev_nonce code,
          )
          (field_middle (0x00 ∷ r.join_eui) r.dev_eui (r.dev_nonce ++ code) 9 17
            (omega (arith, w.eui)) (omega (arith, w.eui, w.device)))

    nonce-frame : request_dev_nonce request_frame ≡ ret r.dev_nonce
    unfolding request_dev_nonce request_body
    nonce-frame =
        rw
          (
            ← append_assoc r.join_eui r.dev_eui r.dev_nonce,
            append_assoc (r.join_eui ++ r.dev_eui) r.dev_nonce code,
          )
          (field_middle (0x00 ∷ (r.join_eui ++ r.dev_eui)) r.dev_nonce code 17 19
            (omega (arith, length-append r.join_eui r.dev_eui, w.eui, w.device))
            (omega (arith, length-append r.join_eui r.dev_eui, w.eui, w.device, w.nonce)))

-- A join request with identifiers of eight bytes and a nonce of two is built into every buffer of at
-- least 23 bytes; the 23 bytes are parsed, show its three fields, and carry the code expected.
pub request_round_trip :
    (r : JoinRequest) (room : ℕ) (crypto : Crypto)
    → IsRequest r
    → ((b0 frame : List ℕ) → length (crypto.calculate_mic b0 frame) ≡ 4)
    → 23 ≤ room
    → (bytes : List ℕ) × (build_request r room crypto ≡ ok bytes) × ShowsRequest r bytes crypto
unfolding build_request
request_round_trip r room crypto w mic_four h = (
  request_body r ++ code,
  rw (le→ltb room 23 h) refl,
  record {
    size = length-request_frame r w crypto code four;
    parsed = parse_request-frame r w crypto code four;
    reads_eui = eui-frame r w crypto code four;
    reads_device = device-frame r w crypto code four;
    reads_nonce = nonce-frame r w crypto code four;
    valid = validate_join_mic-append (request_body r) crypto four;
  },
)
  where
    code : List ℕ
    code = calculate_mic (request_body r) crypto

    four : length code ≡ 4
    four = mic_length crypto (request_body r) mic_four
