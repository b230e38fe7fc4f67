-- ===== src/Encoding/Frame/Join.antt =====
-- Join frames, built and read back: lorawan-encoding/src/creator.rs (`JoinRequest`, `JoinAccept`) and
-- parser.rs (`JoinRequestPayload`, `EncryptedJoinAcceptPayload`, `DecryptedJoinAcceptPayload`).
pub mod Request
pub mod Blocks
pub mod Accept
pub mod Delivery
use lora_rs.Common.{
  ℕ, zero, suc, ◌+◌, ◌-◌, ◌*◌, ◌/◌, ◌%◌, Bool, true, false, not, ◌&&◌, Option, none, some, List, [],
  ◌∷◌, ◌++◌, length, get_or, set, take, drop, replicate, ltb, ◌==◌, if◌then◌else◌, Exec, ret, ◌>>=◌,
  index, Result, ok, err, is_some,
}
use lora_rs.External.{Crypto}
use lora_rs.Encoding.Types.{ChannelMask, new_from_raw}
use lora_rs.Encoding.Frame.{CfList, dynamic_channel, fixed_channel}
use lora_rs.Encoding.Frame.Layout.{
  Error, too_short, unsupported_major_version, unsupported_message_type, unexpected_message_type,
  invalid_length, invalid_mic, buffer_too_short, slice, arr, DataView, parse_data,
}
use lora_rs.Encoding.Frame.Security.{calculate_mic}
use lora_rs.Encoding.Frame.Data.{same_bytes}

abbrev pub join_request_len : ℕ
join_request_len = 23

abbrev pub join_accept_len : ℕ
join_accept_len = 17

abbrev pub join_accept_with_cflist_len : ℕ
join_accept_with_cflist_len = 33

-- `check()?; result`
unfoldable pub and_then : {A : Type 0} → Result (Unit {0}) Error → Result A Error → Result A Error
and_then (err e) result = err e
and_then (ok done) result = result

-- `check_mhdr`
unfoldable pub check_mhdr : List ℕ → ℕ → Result (Unit {0}) Error
check_mhdr [] mtype = err too_short
check_mhdr (mhdr ∷ rest) mtype =
    if not (mhdr % 4 == 0)
    then err unsupported_major_version
    else if not (mhdr / 32 == mtype)
    then err unexpected_message_type
    else ok tt

-- `creator::JoinRequest`; identifiers and nonces are their bytes in wire order.
pub record JoinRequest : Type 0 where
  pub join_eui : List ℕ
  pub dev_eui : List ℕ
  pub dev_nonce : List ℕ

unfoldable pub request_body : JoinRequest → List ℕ
request_body r = 0x00 ∷ r.join_eui ++ (r.dev_eui ++ r.dev_nonce)

-- `JoinRequest::build_into`, for a buffer of `room` bytes, with `write_mic`.
unfoldable pub build_request : JoinRequest → ℕ → Crypto → Result (List ℕ) Error
unfolding request_body calculate_mic
build_request r room crypto =
    if ltb room join_request_len
    then err buffer_too_short
    else ok (request_body r ++ calculate_mic (request_body r) crypto)

-- `JoinRequestPayload::parse`; the view is the 23 bytes.
unfoldable pub parse_request : List ℕ → Result (List ℕ) Error
unfolding and_then check_mhdr
parse_request bytes =
    and_then (check_mhdr bytes 0)
      (if length bytes == join_request_len then ok bytes else err invalid_length)

-- A field of a join frame: `arr(&self.bytes[from..to])`.
unfoldable pub field : List ℕ → ℕ → ℕ → Exec (List ℕ)
unfolding slice arr
field bytes from to = do found ← slice bytes from to; arr (to - from) found

unfoldable pub request_join_eui : List ℕ → Exec (List ℕ)
unfolding field
request_join_eui bytes = field bytes 1 9

unfoldable pub request_dev_eui : List ℕ → Exec (List ℕ)
unfolding field
request_dev_eui bytes = field bytes 9 17

unfoldable pub request_dev_nonce : List ℕ → Exec (List ℕ)
unfolding field
request_dev_nonce bytes = field bytes 17 19

-- `extract_mic`
unfoldable pub extract_mic : List ℕ → Exec (List ℕ)
unfolding field
extract_mic bytes = field bytes (length bytes - 4) (length bytes)

-- `validate_mic` of a join frame: the code over all bytes but the last four.
unfoldable pub validate_join_mic : List ℕ → Crypto → Exec Bool
unfolding slice extract_mic calculate_mic same_bytes
validate_join_mic bytes crypto = do
  without_mic ← slice bytes 0 (length bytes - 4)
  carried ← extract_mic bytes
  ret (same_bytes carried (calculate_mic without_mic crypto))

-- `chunks_exact_mut(16)` with a block cipher on each chunk; what is left over stays.
unfoldable pub on_blocks : ℕ → (List ℕ → List ℕ) → List ℕ → List ℕ
on_blocks zero cipher bytes = bytes
on_blocks (suc n) cipher bytes = cipher (take 16 bytes) ++ on_blocks n cipher (drop 16 bytes)

unfoldable pub each_block : (List ℕ → List ℕ) → List ℕ → List ℕ
unfolding on_blocks
each_block cipher bytes = on_blocks (length bytes / 16) cipher bytes

-- `creator::JoinAccept`
pub record JoinAccept : Type 0 where
  pub join_nonce : List ℕ
  pub net_id : List ℕ
  pub dev_addr : List ℕ
  pub dl_settings : ℕ
  pub rx_delay : ℕ
  pub c_f_list : Option CfList

unfoldable pub concat : List (List ℕ) → List ℕ
concat [] = []
concat (xs ∷ rest) = xs ++ concat rest

-- The sixteen bytes of a CFList: five frequencies or a mask of nine bytes, and the type.
unfoldable pub cflist_bytes : Option CfList → List ℕ
unfolding concat
cflist_bytes none = []
cflist_bytes (some (dynamic_channel freqs)) = concat freqs ++ (0 ∷ [])
cflist_bytes (some (fixed_channel mask)) = mask ++ (replicate 6 0 ++ (1 ∷ []))

-- The frame before its code and its encryption.
unfoldable pub accept_body : JoinAccept → List ℕ
unfolding cflist_bytes
accept_body a =
    0x20 ∷ a.join_nonce
    ++ (a.net_id ++ (a.dev_addr ++ (a.dl_settings ∷ (a.rx_delay % 16) ∷ cflist_bytes a.c_f_list)))

abbrev pub accept_len : JoinAccept → ℕ
accept_len a = if is_some a.c_f_list then join_accept_with_cflist_len else join_accept_len

-- `JoinAccept::build_into`: the server runs the block cipher's decryption, `decrypt_block`, over all
-- but the first byte.
unfoldable pub build_accept : JoinAccept → ℕ → Crypto → (List ℕ → List ℕ) → Result (List ℕ) Error
unfolding accept_body calculate_mic each_block
build_accept a room crypto decrypt_block =
    if ltb room (accept_len a)
    then err buffer_too_short
    else let frame = accept_body a ++ calculate_mic (accept_body a) crypto in
      ok (take 1 frame ++ each_block decrypt_block (drop 1 frame))

-- `validate_join_accept_structure`
unfoldable pub validate_accept : List ℕ → Result (Unit {0}) Error
unfolding and_then check_mhdr
validate_accept bytes = and_then (check_mhdr bytes 1) (
    if not (length bytes == join_accept_len) && not (length bytes == join_accept_with_cflist_len)
    then err invalid_length
    else ok tt)

-- `EncryptedJoinAcceptPayload::parse`
unfoldable pub parse_accept : List ℕ → Result (List ℕ) Error
unfolding and_then validate_accept
parse_accept bytes = and_then (validate_accept bytes) (ok bytes)

-- `DecryptedJoinAcceptPayload::decrypt_in_place`; the result is the buffer after it.
unfoldable pub decrypt_accept : List ℕ → Crypto → Result (List ℕ) Error
unfolding and_then validate_accept each_block
decrypt_accept buf crypto =
    and_then (validate_accept buf) (ok (take 1 buf ++ each_block crypto.encrypt_block (drop 1 buf)))

unfoldable pub check_decrypted : Result (List ℕ) Error → Crypto → Exec (Result (List ℕ) Error)
unfolding validate_join_mic
check_decrypted (err e) crypto = ret (err e)
check_decrypted (ok bytes) crypto = do
  valid ← validate_join_mic bytes crypto
  ret (if valid then ok bytes else err invalid_mic)

-- `DecryptedJoinAcceptPayload::check_mic_and_decrypt_in_place`
unfoldable pub check_and_decrypt_accept : List ℕ → Crypto → Exec (Result (List ℕ) Error)
unfolding decrypt_accept check_decrypted
check_and_decrypt_accept buf crypto = check_decrypted (decrypt_accept buf crypto) crypto

unfoldable pub accept_join_nonce : List ℕ → Exec (List ℕ)
unfolding field
accept_join_nonce bytes = field bytes 1 4

unfoldable pub accept_net_id : List ℕ → Exec (List ℕ)
unfolding field
accept_net_id bytes = field bytes 4 7

unfoldable pub accept_dev_addr : List ℕ → Exec (List ℕ)
unfolding field
accept_dev_addr bytes = field bytes 7 11

unfoldable pub accept_dl_settings : List ℕ → Exec ℕ
accept_dl_settings bytes = index bytes 11

unfoldable pub accept_rx_delay : List ℕ → Exec ℕ
accept_rx_delay bytes = do octet ← index bytes 12; ret (octet % 16)

-- `chunks_exact(3)` over the five frequencies.
unfoldable pub chunks3 : ℕ → List ℕ → List (List ℕ)
chunks3 zero bytes = []
chunks3 (suc n) bytes = take 3 bytes ∷ chunks3 n (drop 3 bytes)

unfoldable pub read_cflist : List ℕ → ℕ → Exec (Option CfList)
unfolding chunks3 new_from_raw
read_cflist cflist kind =
    if kind == 0
    then ret (some (dynamic_channel (chunks3 5 cflist)))
    else if kind == 1
    then (do mask ← new_from_raw 9 cflist; ret (some (fixed_channel mask)))
    else ret none

-- `DecryptedJoinAcceptPayload::c_f_list`
unfoldable pub accept_c_f_list : List ℕ → Exec (Option CfList)
unfolding slice read_cflist
accept_c_f_list bytes =
    if length bytes == join_accept_len
    then ret none
    else (do cflist ← slice bytes 13 29; kind ← index cflist 15; read_cflist cflist kind)

-- `derive_session_key`: the block of the first byte, the two nonces and the network identifier,
-- padded with zeros.
unfoldable pub derive_session_key : List ℕ → ℕ → List ℕ → Crypto → Exec (List ℕ)
unfolding accept_join_nonce accept_net_id
derive_session_key bytes first dev_nonce crypto = do
  join_nonce ← accept_join_nonce bytes
  net_id ← accept_net_id bytes
  ret (crypto.encrypt_block ((first ∷ join_nonce) ++ (net_id ++ (dev_nonce ++ replicate 7 0))))

unfoldable pub derive_nwkskey : List ℕ → List ℕ → Crypto → Exec (List ℕ)
unfolding derive_session_key
derive_nwkskey bytes dev_nonce crypto = derive_session_key bytes 0x01 dev_nonce crypto

unfoldable pub derive_appskey : List ℕ → List ℕ → Crypto → Exec (List ℕ)
unfolding derive_session_key
derive_appskey bytes dev_nonce crypto = derive_session_key bytes 0x02 dev_nonce crypto

-- `PhyPayload`
pub data PhyPayload : Type 0 where
  join_request : List ℕ → PhyPayload
  join_accept : List ℕ → PhyPayload
  data_frame : DataView → PhyPayload

unfoldable pub map_ok : {A : Type 0} → (A → PhyPayload) → Result A Error → Result PhyPayload Error
map_ok f (ok a) = ok (f a)
map_ok f (err e) = err e

-- `parse`: the classes of frames by the top three bits of the MHDR.
unfoldable pub parse : List ℕ → Result PhyPayload Error
unfolding map_ok parse_request parse_accept parse_data
parse [] = err too_short
parse (mhdr ∷ rest) =
    let kind = mhdr / 32 in
    if not (mhdr % 4 == 0)
    then err unsupported_major_version
    else if kind == 0
    then map_ok join_request (parse_request (mhdr ∷ rest))
    else if kind == 1
    then map_ok join_accept (parse_accept (mhdr ∷ rest))
    else if ltb kind 6
    then map_ok data_frame (parse_data (mhdr ∷ rest))
    else err unsupported_message_type
