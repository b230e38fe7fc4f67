-- ===== src/Encoding/Frame/Join/Delivery.antt =====
-- A join accept that a server builds is decrypted and read back by the device.
use lora_rs.Common.{
  ℕ, ◌+◌, ◌*◌, ◌%◌, ◌≤◌, ◌≡◌, refl, sym, ap, ◌∙◌, List, ◌∷◌, ◌++◌, length, take, drop, arith, ok,
  le→ltb, ret, Option, some, none,
}
use lora_rs.External.{Crypto}
use lora_rs.Encoding.Frame.{CfList}
use lora_rs.Encoding.Frame.Security.{calculate_mic}
use lora_rs.Encoding.Frame.Join.{
  JoinAccept, accept_body, accept_len, build_accept, validate_accept, check_mhdr, and_then,
  each_block, decrypt_accept, check_decrypted, check_and_decrypt_accept, cflist_bytes,
  accept_join_nonce, accept_net_id, accept_dev_addr, accept_dl_settings, accept_rx_delay,
  accept_c_f_list,
}
use lora_rs.Encoding.Frame.Join.Request.{validate_join_mic-append, mic_length}
use lora_rs.Encoding.Frame.Join.Blocks.{each_block_undone, length-each_block}
use lora_rs.Encoding.Frame.Join.Accept.{
  IsCfList, IsAccept, cflist-reads, plain, length-plain, reads_nonce, reads_net, reads_address,
  reads_settings, reads_delay, reads_list,
}

-- What the device reads from the decrypted bytes.
pub record ShowsAccept (a : JoinAccept) (bytes : List ℕ) : Type 0 where
  pub nonce : accept_join_nonce bytes ≡ ret a.join_nonce
  pub net : accept_net_id bytes ≡ ret a.net_id
  pub address : accept_dev_addr bytes ≡ ret a.dev_addr
  pub settings : accept_dl_settings bytes ≡ ret a.dl_settings
  pub delay : accept_rx_delay bytes ≡ ret (a.rx_delay % 16)
  pub list : accept_c_f_list bytes ≡ ret a.c_f_list

-- The number of blocks of sixteen bytes after the MHDR.
blocks : Option CfList → ℕ
blocks none = 1
blocks (some c) = 2

length-cflist_bytes :
    (l : Option CfList) → IsCfList l → 16 + length (cflist_bytes l) ≡ blocks l * 16
unfolding blocks cflist_bytes
length-cflist_bytes none h = refl
length-cflist_bytes (some c) h = omega (arith, (cflist-reads c h).0)

module _ (a : JoinAccept) (w : IsAccept a) (crypto : Crypto) (decrypt_block : List ℕ → List ℕ)
    (mic_four : (b0 frame : List ℕ) → length (crypto.calculate_mic b0 frame) ≡ 4)
    (inverse : (block : List ℕ)
      → length block ≡ 16
      → crypto.encrypt_block (decrypt_block block) ≡ block)
    (size : (block : List ℕ) → length block ≡ 16 → length (decrypt_block block) ≡ 16) where
  abbrev code : List ℕ
  code = calculate_mic (accept_body a) crypto

  four : length code ≡ 4
  four = mic_length crypto (accept_body a) mic_four

  -- The frame in clear after its first byte, and the bytes on the air.
  clear : List ℕ
  clear = drop 1 (plain a w code four)

  sent : List ℕ
  unfolding clear
  sent = 0x20 ∷ each_block decrypt_block clear

  plain-clear : plain a w code four ≡ 0x20 ∷ clear
  unfolding clear accept_body
  plain-clear = refl

  length-clear : length clear ≡ blocks a.c_f_list * 16
  length-clear = omega (
    arith,
    ap length plain-clear,
    length-plain a w code four,
    length-cflist_bytes a.c_f_list w.list,
  )

  build_accept-sent :
      (room : ℕ) → accept_len a ≤ room → build_accept a room crypto decrypt_block ≡ ok sent
  unfolding build_accept sent clear accept_body
  build_accept-sent room h = rw (le→ltb room (accept_len a) h) refl

  validate_accept-sent : validate_accept sent ≡ ok tt
  unfolding validate_accept check_mhdr and_then sent blocks
  validate_accept-sent = sized a.c_f_list (
      length-each_block crypto.encrypt_block decrypt_block inverse size (blocks a.c_f_list) clear
        length-clear)
    where
      sized :
          (l : Option CfList)
          → length (each_block decrypt_block clear) ≡ blocks l * 16
          → validate_accept sent ≡ ok tt
      sized none h = rw h refl
      sized (some c) h = rw h refl

  decrypt_accept-sent : decrypt_accept sent crypto ≡ ok (plain a w code four)
  unfolding decrypt_accept and_then sent
  decrypt_accept-sent = rw validate_accept-sent (ap ok (undone ∙ sym plain-clear))
    where
      undone : take 1 sent ++ each_block crypto.encrypt_block (drop 1 sent) ≡ 0x20 ∷ clear
      undone = ap (◌∷◌ 0x20) (
          each_block_undone crypto.encrypt_block decrypt_block inverse size (blocks a.c_f_list)
            clear length-clear)

  accepted : check_and_decrypt_accept sent crypto ≡ ret (ok (plain a w code four))
  unfolding check_and_decrypt_accept check_decrypted
  accepted = rw (decrypt_accept-sent, validate_join_mic-append (accept_body a) crypto four) refl

-- A join accept with fields of the right lengths is built into every buffer with room for it; the
-- device that has the same key, for which encryption undoes the server's decryption of a block,
-- accepts the bytes and reads the fields, the delay modulo 16 and the channel list.
pub accept_round_trip :
    (a : JoinAccept) (room : ℕ) (crypto : Crypto) (decrypt_block : List ℕ → List ℕ)
    → IsAccept a
    → ((b0 frame : List ℕ) → length (crypto.calculate_mic b0 frame) ≡ 4)
    → ((block : List ℕ) → length block ≡ 16 → crypto.encrypt_block (decrypt_block block) ≡ block)
    → ((block : List ℕ) → length block ≡ 16 → length (decrypt_block block) ≡ 16)
    → accept_len a ≤ room
    → (bytes found : List ℕ) × (build_accept a room crypto decrypt_block ≡ ok bytes)
      × (check_and_decrypt_accept bytes crypto ≡ ret (ok found))
      × ShowsAccept a found
accept_round_trip a room crypto decrypt_block w mic_four inverse size h = (
  sent a w crypto decrypt_block mic_four inverse size,
  plain a w (code a w crypto decrypt_block mic_four inverse size) at_end,
  build_accept-sent a w crypto decrypt_block mic_four inverse size room h,
  accepted a w crypto decrypt_block mic_four inverse size,
  record {
    nonce = reads_nonce a w _ at_end;
    net = reads_net a w _ at_end;
    address = reads_address a w _ at_end;
    settings = reads_settings a w _ at_end;
    delay = reads_delay a w _ at_end;
    list = reads_list a w _ at_end a.c_f_list refl;
  },
)
  where
    at_end : length (calculate_mic (accept_body a) crypto) ≡ 4
    at_end = mic_length crypto (accept_body a) mic_four
