-- ===== src/Encoding/Frame.antt =====
-- Wire fields that frames share: lorawan-encoding/src/parser.rs.
pub mod Layout
pub mod Security
pub mod Data
pub mod Join
mod Tests
use lora_rs.Common.{ℕ, ◌+◌, ◌*◌, List, get_or}
use lora_rs.Encoding.Types.{ChannelMask}

-- `CfList`. A `Frequency([u8; 3])` is its three bytes.
pub data CfList : Type 0 where
  dynamic_channel : List (List ℕ) → CfList
  fixed_channel : ChannelMask → CfList

-- `Frequency::hz`: `u32::from_le_bytes([b0, b1, b2, 0]) * 100`, which is below 2 ^ 31.
unfoldable pub hz : List ℕ → ℕ
hz bytes = (get_or bytes 0 0 + get_or bytes 1 0 * 256 + get_or bytes 2 0 * 65536) * 100
