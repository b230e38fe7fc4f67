-- ===== src/Encoding/Frame/Data/Middle.antt =====
-- The encryption of the middle of a frame, and its integrity code, on a frame that is cut in parts.
use mathlib.Core.List.{append_assoc}
use lora_rs.Common.{
  ℕ, ◌+◌, ◌-◌, ◌%◌, ◌≤◌, ◌≡◌, refl, List, [], ◌∷◌, ◌++◌, length, take, drop, replicate, arith, ret,
  length-append, take-append, drop-append, take-length, true, le→ltb, ==_iff,
}
use lora_rs.External.{Crypto}
use lora_rs.Encoding.Frame.Layout.{slice}
use lora_rs.Encoding.Frame.Layout.Accessors.{slice-within}
use lora_rs.Encoding.Frame.Security.{
  helper_block, generate_helper_block, calculate_data_mic, encrypt_loop, encrypt_frm_data_payload,
}
use lora_rs.Encoding.Frame.Security.Keystream.{encrypt_loop_twice, length-encrypt_loop}
use lora_rs.Encoding.Frame.Data.{same_bytes}

-- A list in three parts, cut by their lengths.
module _ (xs ys zs : List ℕ) where
  cut_middle : take (length xs + length ys - length xs) (drop (length xs) (xs ++ (ys ++ zs))) ≡ ys
  cut_middle = rw (drop-append xs (ys ++ zs), only_ys) (take-append ys zs)
    where
      only_ys : length xs + length ys - length xs ≡ length ys
      only_ys = omega arith

  cut_end : drop (length xs + length ys) (xs ++ (ys ++ zs)) ≡ zs
  cut_end = rw (← length-append xs ys, ← append_assoc xs ys zs) (drop-append (xs ++ ys) zs)

  pub slice_middle : slice (xs ++ (ys ++ zs)) (length xs) (length xs + length ys) ≡ ret ys
  slice_middle =
      rw
        (
          slice-within (xs ++ (ys ++ zs)) (length xs) (length xs + length ys) (omega arith)
              (omega (arith, length-append xs (ys ++ zs), length-append ys zs)),
          cut_middle,
        )
        refl

-- The cipher text of the bytes after a header.
abbrev pub sealed : Crypto → List ℕ → ℕ → List ℕ → List ℕ
sealed key header count plain =
    encrypt_loop key (helper_block header 0x01 count 0) (replicate 16 0) 1 0 plain

-- The helper block reads the first five bytes.
pub helper_block-append :
    (xs ys : List ℕ) (first count last : ℕ)
    → 5 ≤ length xs
    → helper_block (xs ++ ys) first count last ≡ helper_block xs first count last
unfolding helper_block
helper_block-append [] ys first count last h = absurd (omega arith)
helper_block-append (a ∷ []) ys first count last h = absurd (omega arith)
helper_block-append (a ∷ b ∷ []) ys first count last h = absurd (omega arith)
helper_block-append (a ∷ b ∷ c ∷ []) ys first count last h = absurd (omega arith)
helper_block-append (a ∷ b ∷ c ∷ d ∷ []) ys first count last h = absurd (omega arith)
helper_block-append (a ∷ b ∷ c ∷ d ∷ e ∷ xs) ys first count last h = refl

pub encrypt_middle :
    (header ys zs : List ℕ) (count : ℕ) (key : Crypto)
    → 5 ≤ length header
    → encrypt_frm_data_payload
        (header ++ (ys ++ zs))
        (length header)
        (length header + length ys)
        count
        key
      ≡ ret (header ++ (sealed key header count ys ++ zs))
unfolding encrypt_frm_data_payload generate_helper_block
encrypt_middle header ys zs count key h =
    rw
      (
        le→ltb (length (header ++ (ys ++ zs))) 5 (omega (arith, length-append header (ys ++ zs))),
        slice_middle header ys zs,
        helper_block-append header (ys ++ zs) 0x01 count 0 h,
        cut_end header ys zs,
        take-append header (ys ++ zs),
      )
      refl

pub unseal :
    (key : Crypto) (header plain : List ℕ) (count : ℕ)
    → sealed key header count (sealed key header count plain) ≡ plain
unseal key header plain count =
    encrypt_loop_twice key (helper_block header 0x01 count 0) plain (replicate 16 0) 1 0

pub length-sealed :
    (key : Crypto) (header plain : List ℕ) (count : ℕ)
    → length (sealed key header count plain) ≡ length plain
length-sealed key header plain count =
    length-encrypt_loop key (helper_block header 0x01 count 0) plain (replicate 16 0) 1 0

-- The integrity code of a frame that is long enough.
abbrev pub data_mic : Crypto → List ℕ → ℕ → List ℕ
data_mic key frame count =
    key.calculate_mic (helper_block frame 0x49 count (length frame % 256)) frame

pub calculate_data_mic-returns :
    (frame : List ℕ) (key : Crypto) (count : ℕ)
    → 5 ≤ length frame
    → calculate_data_mic frame key count ≡ ret (data_mic key frame count)
unfolding calculate_data_mic generate_helper_block
calculate_data_mic-returns frame key count h = rw (le→ltb (length frame) 5 h) refl

pub same_bytes_refl : (xs : List ℕ) → same_bytes xs xs ≡ true
unfolding same_bytes
same_bytes_refl [] = refl
same_bytes_refl (x ∷ xs) = rw ((==_iff x x).1 refl) (same_bytes_refl xs)

pub same_bytes-eq : (xs ys : List ℕ) → same_bytes xs ys ≡ true → xs ≡ ys
unfolding same_bytes
same_bytes-eq [] [] h = refl
same_bytes-eq [] (y ∷ ys) h = cc
same_bytes-eq (x ∷ xs) [] h = cc
same_bytes-eq (x ∷ xs) (y ∷ ys) h = ground (arith, same_bytes-eq xs ys)

-- A frame and its last four bytes.
module _ (xs code : List ℕ) (four : length code ≡ 4) where
  pub slice_front : slice (xs ++ code) 0 (length (xs ++ code) - 4) ≡ ret xs
  slice_front =
      rw
        (
          slice-within (xs ++ code) 0 (length (xs ++ code) - 4) (omega arith) (omega arith),
          front,
          take-append xs code,
        )
        refl
    where
      front : length (xs ++ code) - 4 - 0 ≡ length xs
      front = omega (arith, length-append xs code)

  pub slice_end : slice (xs ++ code) (length (xs ++ code) - 4) (length (xs ++ code)) ≡ ret code
  slice_end =
      rw
        (
          slice-within (xs ++ code) (length (xs ++ code) - 4) (length (xs ++ code)) (omega arith)
              (omega arith),
          front,
          drop-append xs code,
          take-length (length (xs ++ code) - length xs) code (omega (arith, length-append xs code)),
        )
        refl
    where
      front : length (xs ++ code) - 4 ≡ length xs
      front = omega (arith, length-append xs code)
