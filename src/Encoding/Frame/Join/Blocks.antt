-- ===== src/Encoding/Frame/Join/Blocks.antt =====
-- The blocks of a join accept: the server's decryption is undone by the device's encryption.
use lora_rs.Common.{
  ℕ, zero, suc, ◌*◌, ◌/◌, ◌≡◌, refl, sym, List, ◌++◌, length, take, drop, arith, length-append,
  length-take, length-drop, take-append_exact, take-drop, drop-append_past,
}
use lora_rs.Encoding.Frame.Join.{on_blocks, each_block}

-- The device's encryption undoes the server's decryption, block by block.
module _ (encrypt decrypt : List ℕ → List ℕ)
    (inverse : (block : List ℕ) → length block ≡ 16 → encrypt (decrypt block) ≡ block)
    (size : (block : List ℕ) → length block ≡ 16 → length (decrypt block) ≡ 16) where
  length-on_blocks :
      (n : ℕ) (xs : List ℕ) → length xs ≡ n * 16 → length (on_blocks n decrypt xs) ≡ n * 16
  unfolding on_blocks
  length-on_blocks zero xs h = h
  length-on_blocks (suc n) xs h = omega (
    arith,
    length-append (decrypt (take 16 xs)) (on_blocks n decrypt (drop 16 xs)),
    size (take 16 xs) (length-take 16 xs (omega arith)),
    length-on_blocks n (drop 16 xs) (omega (arith, length-drop 16 xs)),
  )

  on_blocks_undone :
      (n : ℕ) (xs : List ℕ) → length xs ≡ n * 16 → on_blocks n encrypt (on_blocks n decrypt xs) ≡ xs
  unfolding on_blocks
  on_blocks_undone zero xs h = refl
  on_blocks_undone (suc n) xs h =
      rw
        (
          front,
          rest,
          inverse (take 16 xs) block,
          on_blocks_undone n (drop 16 xs) (omega (arith, length-drop 16 xs)),
        )
        (take-drop 16 xs)
    where
      block : length (take 16 xs) ≡ 16
      block = length-take 16 xs (omega arith)

      front :
          take 16 (decrypt (take 16 xs) ++ on_blocks n decrypt (drop 16 xs)) ≡ decrypt (take 16 xs)
      front = take-append_exact (decrypt (take 16 xs)) _ 16 (sym (size (take 16 xs) block))

      rest :
          drop 16 (decrypt (take 16 xs) ++ on_blocks n decrypt (drop 16 xs))
          ≡ on_blocks n decrypt (drop 16 xs)
      rest = drop-append_past (decrypt (take 16 xs)) _ 16 0 (omega (arith, size (take 16 xs) block))

  pub each_block_undone :
      (n : ℕ) (xs : List ℕ) → length xs ≡ n * 16 → each_block encrypt (each_block decrypt xs) ≡ xs
  unfolding each_block
  each_block_undone n xs h = rw (blocks, blocks_after) (on_blocks_undone n xs h)
    where
      blocks : length xs / 16 ≡ n
      blocks = omega arith

      blocks_after : length (on_blocks n decrypt xs) / 16 ≡ n
      blocks_after = omega (arith, length-on_blocks n xs h)

  pub length-each_block :
      (n : ℕ) (xs : List ℕ) → length xs ≡ n * 16 → length (each_block decrypt xs) ≡ n * 16
  unfolding each_block
  length-each_block n xs h = rw blocks (length-on_blocks n xs h)
    where
      blocks : length xs / 16 ≡ n
      blocks = omega arith
