-- ===== src/Encoding/Frame/Security.antt =====
-- lorawan-encoding/src/securityhelpers.rs: the integrity code of a frame and the encryption of its
-- payload. A key is the `Crypto` bound to it.
pub mod Keystream
use Prim.Native.Nat.{bit_xor}
use lora_rs.Common.{
  ℕ, suc, ◌+◌, ◌-◌, ◌/◌, ◌%◌, List, [], ◌∷◌, ◌++◌, length, get_or, set, take, drop, replicate, ltb,
  ◌==◌, if◌then◌else◌, Exec, ret, panic, ◌>>=◌,
}
use lora_rs.External.{Crypto}
use lora_rs.Encoding.Frame.Layout.{slice}

-- The bytes of a 32-bit counter, lowest first.
unfoldable pub le_u32 : ℕ → List ℕ
le_u32 n = (n % 256) ∷ (n / 256 % 256) ∷ (n / 65536 % 256) ∷ (n / 16777216 % 256) ∷ []

unfoldable pub le_u16 : ℕ → List ℕ
le_u16 n = (n % 256) ∷ (n / 256 % 256) ∷ []

-- `generate_helper_block`, with its last byte: the first byte, the direction from the MHDR, the
-- address (bytes 1 to 4 of the frame) and the frame counter.
unfoldable pub helper_block : List ℕ → ℕ → ℕ → ℕ → List ℕ
unfolding le_u32
helper_block frame first count last =
    (first ∷ 0 ∷ 0 ∷ 0 ∷ 0 ∷ (get_or frame 0 0 / 32 % 2) ∷ take 4 (drop 1 frame))
    ++ (le_u32 count ++ (0 ∷ last ∷ []))

-- The block is built from the first five bytes, which must be there.
unfoldable pub generate_helper_block : List ℕ → ℕ → ℕ → ℕ → Exec (List ℕ)
unfolding helper_block
generate_helper_block frame first count last =
    if ltb (length frame) 5 then panic else ret (helper_block frame first count last)

-- `data.len() as u8`
unfoldable pub calculate_data_mic : List ℕ → Crypto → ℕ → Exec (List ℕ)
unfolding generate_helper_block
calculate_data_mic frame crypto count = do
  b0 ← generate_helper_block frame 0x49 count (length frame % 256)
  ret (crypto.calculate_mic b0 frame)

unfoldable pub calculate_mic : List ℕ → Crypto → List ℕ
calculate_mic frame crypto = crypto.calculate_mic [] frame

-- One turn of the loop of `encrypt_frm_data_payload`: every 16 bytes a new block of key stream and
-- the next block number, a u8: it wraps as in a build without overflow checks. With them the 255th
-- block panics, which is past 4064 bytes, where a LoRa packet has at most 255.
unfoldable pub block_at : Crypto → List ℕ → List ℕ → ℕ → ℕ → List ℕ
block_at crypto a s ctr i = if i % 16 == 0 then crypto.encrypt_block (set a 15 ctr) else s

unfoldable pub next_ctr : ℕ → ℕ → ℕ
next_ctr ctr i = if i % 16 == 0 then (ctr + 1) % 256 else ctr

-- The loop over the bytes of the payload: `a` is the helper block, `s` the block in use, `ctr` the
-- number of the next one, `i` the position.
unfoldable pub encrypt_loop : Crypto → List ℕ → List ℕ → ℕ → ℕ → List ℕ → List ℕ
unfolding block_at next_ctr
encrypt_loop crypto a s ctr i [] = []
encrypt_loop crypto a s ctr i (b ∷ bytes) =
    bit_xor b (get_or (block_at crypto a s ctr i) (i % 16) 0)
    ∷ encrypt_loop crypto a (block_at crypto a s ctr i) (next_ctr ctr i) (suc i) bytes

-- The payload is the bytes from `start` to `end`; all others stay.
unfoldable pub encrypt_frm_data_payload : List ℕ → ℕ → ℕ → ℕ → Crypto → Exec (List ℕ)
unfolding generate_helper_block encrypt_loop slice
encrypt_frm_data_payload frame start end count crypto = do
  a ← generate_helper_block frame 0x01 count 0
  payload ← slice frame start end
  ret (take start frame ++ (encrypt_loop crypto a (replicate 16 0) 1 0 payload ++ drop end frame))
