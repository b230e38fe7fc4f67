-- ===== src/Radio.antt =====
-- lorawan-device/src/radio.rs: `RadioBuffer`, the packet that is sent or was received.
use lora_rs.Common.{
  ℕ, ◌+◌, List, ◌++◌, length, take, drop, replicate, ltb, if◌then◌else◌, Exec, Result, ok, err,
}
use lora_rs.Encoding.Frame.Layout.{slice}

-- `packet` is an array of N bytes.
pub record RadioBuffer : Type 0 where
  pub packet : List ℕ
  pub pos : ℕ

-- `RadioBuffer::<N>::new()`
unfoldable pub new : ℕ → RadioBuffer
new n = record { packet = replicate n 0; pos = 0 }

unfoldable pub clear : RadioBuffer → RadioBuffer
clear b = record b { pos = 0 }

unfoldable pub set_pos : RadioBuffer → ℕ → RadioBuffer
set_pos b pos = record b { pos = pos }

-- Bytes copied over a list from a position on.
unfoldable pub overwrite : List ℕ → ℕ → List ℕ → List ℕ
overwrite packet at bytes = take at packet ++ (bytes ++ drop (at + length bytes) packet)

-- The test is strict: a packet that would fill the buffer is refused.
unfoldable pub extend_from_slice : RadioBuffer → List ℕ → Result RadioBuffer (Unit {0})
unfolding overwrite
extend_from_slice b bytes =
    if ltb (b.pos + length bytes) (length b.packet)
    then ok (record { packet = overwrite b.packet b.pos bytes; pos = b.pos + length bytes })
    else err tt

-- `as_mut_for_read` and `as_ref_for_read`: the bytes up to the position.
unfoldable pub for_read : RadioBuffer → Exec (List ℕ)
unfolding slice
for_read b = slice b.packet 0 b.pos

-- A write through the slice of `as_mut` or `as_mut_for_read`, from the front.
unfoldable pub write_front : RadioBuffer → List ℕ → RadioBuffer
unfolding overwrite
write_front b bytes = record b { packet = overwrite b.packet 0 bytes }
