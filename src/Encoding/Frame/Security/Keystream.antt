-- ===== src/Encoding/Frame/Security/Keystream.antt =====
-- The encryption loop and the counter mode it stands for: byte `i` of the payload is combined with
-- byte `i % 16` of the block that the key makes of the helper block numbered `i / 16 + 1`.
use Prim.Native.Nat.{bit_xor}
use lora_rs.Common.{
  ℕ, suc, ◌+◌, ◌/◌, ◌%◌, ◌≤◌, ◌<◌, ◌≡◌, refl, ap, ◌⊎◌, inl, inr, List, [], ◌∷◌, length, get_or, set,
  replicate, take, drop, ◌++◌, ◌-◌, ret, le→ltb, le→leb, length-take, length-drop, arith,
}
use lora_rs.Common.Xor.{bit_xor_twice}
use lora_rs.External.{Crypto}
use lora_rs.Encoding.Frame.Layout.{slice}
use lora_rs.Encoding.Frame.Security.{
  helper_block, generate_helper_block, encrypt_frm_data_payload, block_at, next_ctr, encrypt_loop,
}

unfoldable pub keystream_block : Crypto → List ℕ → ℕ → List ℕ
keystream_block crypto a k = crypto.encrypt_block (set a 15 (k + 1))

unfoldable pub counter_mode : Crypto → List ℕ → ℕ → List ℕ → List ℕ
unfolding keystream_block
counter_mode crypto a i [] = []
counter_mode crypto a i (b ∷ bytes) =
    bit_xor b (get_or (keystream_block crypto a (i / 16)) (i % 16) 0)
    ∷ counter_mode crypto a (suc i) bytes

pub length-encrypt_loop :
    (crypto : Crypto) (a bytes s : List ℕ) (ctr i : ℕ)
    → length (encrypt_loop crypto a s ctr i bytes) ≡ length bytes
unfolding encrypt_loop
length-encrypt_loop crypto a [] s ctr i = refl
length-encrypt_loop crypto a (b ∷ bytes) s ctr i =
    ap suc (length-encrypt_loop crypto a bytes (block_at crypto a s ctr i) (next_ctr ctr i) (suc i))

-- Encrypting twice from the same state gives the bytes back.
pub encrypt_loop_twice :
    (crypto : Crypto) (a bytes s : List ℕ) (ctr i : ℕ)
    → encrypt_loop crypto a s ctr i (encrypt_loop crypto a s ctr i bytes) ≡ bytes
unfolding encrypt_loop
encrypt_loop_twice crypto a [] s ctr i = refl
encrypt_loop_twice crypto a (b ∷ bytes) s ctr i =
    rw (bit_xor_twice b (get_or (block_at crypto a s ctr i) (i % 16) 0)) (
      ap (◌∷◌ b)
        (encrypt_loop_twice crypto a bytes (block_at crypto a s ctr i) (next_ctr ctr i) (suc i)))

module _ (crypto : Crypto) (a : List ℕ) where
  -- What the loop carries at position `i`: the number of the next block, and past the start of a
  -- block that block.
  Carried : ℕ → List ℕ → ℕ → Type 0
  Carried i s ctr =
      (ctr ≡ ((i + 15) / 16 + 1) % 256) × ((i % 16 ≡ 0) ⊎ (s ≡ keystream_block crypto a (i / 16)))

  block_at-Carried :
      (s : List ℕ) (ctr i : ℕ)
      → i < 4080
      → Carried i s ctr
      → block_at crypto a s ctr i ≡ keystream_block crypto a (i / 16)
  unfolding Carried block_at keystream_block
  block_at-Carried s ctr i h c = ground (arith, c.0, c.1)

  next-Carried :
      (s : List ℕ) (ctr i : ℕ)
      → i < 4080
      → Carried i s ctr
      → Carried (suc i) (block_at crypto a s ctr i) (next_ctr ctr i)
  unfolding Carried next_ctr
  next-Carried s ctr i h c = (number, block)
    where
      number : next_ctr ctr i ≡ ((suc i + 15) / 16 + 1) % 256
      number = ground (arith, c.0)

      kept :
          (suc i % 16 ≡ 0) ⊎ (suc i / 16 ≡ i / 16)
          → (suc i % 16 ≡ 0) ⊎ (block_at crypto a s ctr i ≡ keystream_block crypto a (suc i / 16))
      kept (inl e) = inl e
      kept (inr e) = inr (rw e (block_at-Carried s ctr i h c))

      block : (suc i % 16 ≡ 0) ⊎ (block_at crypto a s ctr i ≡ keystream_block crypto a (suc i / 16))
      block = kept (ground arith)

  loop-counter_mode :
      (bytes s : List ℕ) (ctr i : ℕ)
      → i + length bytes ≤ 4080
      → Carried i s ctr
      → encrypt_loop crypto a s ctr i bytes ≡ counter_mode crypto a i bytes
  unfolding encrypt_loop counter_mode
  loop-counter_mode [] s ctr i h c = refl
  loop-counter_mode (b ∷ bytes) s ctr i h c =
      rw
        (
          loop-counter_mode bytes (block_at crypto a s ctr i) (next_ctr ctr i) (suc i) (omega arith)
              (next-Carried s ctr i (omega arith) c),
          block_at-Carried s ctr i (omega arith) c,
        )
        refl

-- Encrypting the bytes from `start` to `end` of a frame of at least five bytes, at most 4080 of
-- them, combines them with the key stream in counter mode and leaves all other bytes.
pub encrypt_frm_data_payload-counter_mode :
    (frame : List ℕ) (start end count : ℕ) (crypto : Crypto)
    → 5 ≤ length frame
    → start ≤ end
    → end ≤ length frame
    → end - start ≤ 4080
    → encrypt_frm_data_payload frame start end count crypto
      ≡ ret (
          take start frame
          ++ (counter_mode crypto
                (helper_block frame 0x01 count 0)
                0
                (take (end - start) (drop start frame))
              ++ drop end frame))
unfolding encrypt_frm_data_payload generate_helper_block slice Carried
encrypt_frm_data_payload-counter_mode frame start end count crypto h5 hs he hl =
    rw
      (
        le→ltb (length frame) 5 h5,
        le→leb start end hs,
        le→leb end (length frame) he,
        loop-counter_mode crypto (helper_block frame 0x01 count 0) payload (replicate 16 0) 1 0
            (omega (arith, length-take (end - start) (drop start frame), length-drop start frame))
            (refl, inl refl),
      )
      refl
  where
    payload : List ℕ
    payload = take (end - start) (drop start frame)
