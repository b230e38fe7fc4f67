-- ===== src/Mac/Otaa.antt =====
-- lorawan-device/src/mac/otaa.rs: over-the-air activation, from the join request to the session.
use lora_rs.Common.{
  ℕ, ◌%◌, Option, none, some, List, length, Exec, ret, panic, ◌>>=◌, Result, ok, err, is_some,
  if◌then◌else◌,
}
use lora_rs.External.{Crypto, Rng, next_u32}
use lora_rs.Encoding.Types.{to_u8, rx1_dr_offset, rx2_data_rate}
use lora_rs.Encoding.Frame.Layout.{Error}
use lora_rs.Encoding.Frame.Security.{le_u16}
use lora_rs.Encoding.Frame.Join.{
  JoinRequest, build_request, decrypt_accept, check_and_decrypt_accept, accept_c_f_list,
  accept_rx_delay, accept_dl_settings, accept_dev_addr, derive_nwkskey, derive_appskey,
}
use lora_rs.Radio.{RadioBuffer, clear, set_pos, write_front, for_read}
use lora_rs.Region.Configuration.{State, process_join_accept, rx1_dr_offset_validate, get_datarate}
use lora_rs.Mac.Settings.{Settings, del_to_delay_ms}
use lora_rs.Mac.Session
use lora_rs.Mac.Session.{Session, Response, no_join_accept}

-- `NetworkCredentials`; identifiers in wire order, the key its sixteen bytes.
pub record NetworkCredentials : Type 0 where
  pub deveui : List ℕ
  pub appeui : List ℕ
  pub appkey : List ℕ

pub record Otaa : Type 0 where
  pub dev_nonce : List ℕ
  pub credentials : NetworkCredentials

-- `Otaa::new`
unfoldable pub new : NetworkCredentials → Otaa
unfolding le_u16
new credentials = record { dev_nonce = le_u16 0; credentials = credentials }

unfoldable pub request_of : Otaa → JoinRequest
request_of o = record {
  join_eui = o.credentials.appeui;
  dev_eui = o.credentials.deveui;
  dev_nonce = o.dev_nonce;
}

-- `build_into(buf.as_mut()).unwrap()` and `set_pos`
unfoldable pub store_request : RadioBuffer → Result (List ℕ) Error → Exec RadioBuffer
unfolding write_front set_pos
store_request buf (err e) = panic
store_request buf (ok bytes) = ret (set_pos (write_front buf bytes) (length bytes))

-- `Otaa::prepare_buffer`: the nonce is the low half of the next random number.
unfoldable pub prepare_buffer :
    (List ℕ → Crypto) → Otaa → Rng → RadioBuffer → Exec (ℕ × Otaa × RadioBuffer × Rng)
unfolding clear request_of build_request store_request le_u16
prepare_buffer crypto_of o rng buf =
    let drawn = next_u32 rng in
    let nonce = drawn.0 % 65536 in
    let o' : Otaa = record o { dev_nonce = le_u16 nonce } in
    (do
      buf' ←
          store_request (clear buf)
            (build_request (request_of o') (length buf.packet) (crypto_of o.credentials.appkey))
      ret (nonce, o', buf', drawn.1))

-- The settings that a join accept changes: an offset or a data rate that the region lacks is ignored.
unfoldable pub take_offset : State → ℕ → Settings → Settings
unfolding rx1_dr_offset rx1_dr_offset_validate
take_offset region dl_settings c =
    elim (rx1_dr_offset_validate region (rx1_dr_offset dl_settings)) [
      | none ↦ c
      | some offset ↦ record c { rx1_dr_offset = offset }
    ]

unfoldable pub take_rate : State → ℕ → Settings → Exec Settings
unfolding rx2_data_rate get_datarate to_u8
take_rate region dl_settings c = do
  found ← get_datarate region (to_u8 (rx2_data_rate dl_settings))
  ret (if is_some found then record c { rx2_data_rate = some (rx2_data_rate dl_settings) } else c)

-- `Session::derive_new`
unfoldable pub derive_new : List ℕ → List ℕ → Crypto → Exec Session
unfolding derive_nwkskey derive_appskey accept_dev_addr
derive_new bytes dev_nonce crypto = do
  nwkskey ← derive_nwkskey bytes dev_nonce crypto
  appskey ← derive_appskey bytes dev_nonce crypto
  devaddr ← accept_dev_addr bytes
  ret (Session.new nwkskey appskey devaddr)

-- What an accepted answer to the join request changes.
pub record Joining : Type 0 where
  pub session : Option Session
  pub region : State
  pub settings : Settings
  pub buffer : RadioBuffer

-- The bytes of the buffer after `check_mic_and_decrypt_in_place`: decrypted, where they have the shape
-- of a join accept, whatever their code.
unfoldable pub after_decryption : List ℕ → Result (List ℕ) Error → List ℕ
after_decryption bytes (ok plain) = plain
after_decryption bytes (err e) = bytes

unfoldable pub join :
    Otaa → Crypto → State → Settings → RadioBuffer → Result (List ℕ) Error → Exec Joining
unfolding accept_c_f_list accept_rx_delay accept_dl_settings process_join_accept take_offset
    take_rate derive_new del_to_delay_ms
join o crypto region c buf (err e) =
    ret (record { session = none; region = region; settings = c; buffer = buf })
join o crypto region c buf (ok bytes) = do
  list ← accept_c_f_list bytes
  region' ← process_join_accept region list
  delay ← accept_rx_delay bytes
  dl_settings ← accept_dl_settings bytes
  c' ←
      take_rate region' dl_settings
        (take_offset region' dl_settings (record c { rx1_delay = del_to_delay_ms delay }))
  session ← derive_new bytes o.dev_nonce crypto
  ret (record { session = some session; region = region'; settings = c'; buffer = buf })

-- `Otaa::handle_rx`
unfoldable pub handle_rx : (List ℕ → Crypto) → Otaa → State → Settings → RadioBuffer → Exec Joining
unfolding for_read decrypt_accept after_decryption check_and_decrypt_accept join write_front
handle_rx crypto_of o region c buf = do
  bytes ← for_read buf
  result ← check_and_decrypt_accept bytes (crypto_of o.credentials.appkey)
  join o (crypto_of o.credentials.appkey) region c
      (write_front buf
        (after_decryption bytes (decrypt_accept bytes (crypto_of o.credentials.appkey))))
      result

-- `Otaa::rx2_complete`
abbrev pub rx2_complete : Otaa → Response
rx2_complete o = no_join_accept
