-- ===== src/Encoding/Types/Mask.antt =====
-- Channel masks as sets of channels: types.rs, `ChannelMask`.
use lora_rs.Common.{
  ℕ, zero, suc, ◌*◌, ◌/◌, ◌%◌, ◌<◌, ◌≡◌, refl, Bool, List, [], ◌∷◌, if◌then◌else◌, ◌==◌, arith,
  length, get_or, set, length-set, get_or-set, All, ret, lt→ltb,
}
use lora_rs.Common.Bits.{IsByte, set_bit, test_bit-set_bit, set_bit-IsByte}
use lora_rs.Encoding.Types.{ChannelMask, set_channel, channel_enabled}

pub get_or-IsByte : (xs : List ℕ) (i : ℕ) → All IsByte xs → get_or xs i 0 < 256
get_or-IsByte [] i h = omega arith
get_or-IsByte (x ∷ xs) zero h = h.0
get_or-IsByte (x ∷ xs) (suc i) h = get_or-IsByte xs i h.1

pub set-IsByte : (xs : List ℕ) (i v : ℕ) → v < 256 → All IsByte xs → All IsByte (set xs i v)
set-IsByte [] i v hv h = h
set-IsByte (x ∷ xs) zero v hv h = (hv, h.1)
set-IsByte (x ∷ xs) (suc i) v hv h = (h.0, set-IsByte xs i v hv h.1)

-- The mask that `set_channel` leaves: as many bytes, all of them bytes, and exactly the one
-- channel changed.
pub record Written (m : ChannelMask) (channel : ℕ) (v : Bool) (m' : ChannelMask) : Type 0 where
  pub same_length : length m' ≡ length m
  pub bytes : All IsByte m'
  pub channels : (j : ℕ) → channel_enabled m' j ≡ (if channel == j then v else channel_enabled m j)

written_mask : ChannelMask → ℕ → Bool → ChannelMask
written_mask m c v = set m (c / 8) (set_bit (get_or m (c / 8) 0) (c % 8) v)

written_channels :
    (m : ChannelMask) (c : ℕ) (v : Bool) (j : ℕ)
    → All IsByte m
    → c < length m * 8
    → channel_enabled (written_mask m c v) j ≡ (if c == j then v else channel_enabled m j)
unfolding channel_enabled written_mask
written_channels m c v j bytes h = ground (
  arith,
  get_or-set m (c / 8) (j / 8) (set_bit (get_or m (c / 8) 0) (c % 8) v) 0 (omega arith),
  test_bit-set_bit v (get_or m (c / 8) 0) (c % 8) (j % 8) (get_or-IsByte m (c / 8) bytes)
      (omega arith) (omega arith),
)

-- On a mask of bytes and a channel within it, `set_channel` does not panic; it enables or disables
-- that one channel, leaves every other channel as it was, and keeps the mask's length and bytes.
pub set_channel_writes :
    (m : ChannelMask) (c : ℕ) (v : Bool)
    → All IsByte m
    → c < length m * 8
    → (m' : ChannelMask) × (set_channel m c v ≡ ret m') × Written m c v m'
unfolding set_channel written_mask
set_channel_writes m c v bytes h = (
  written_mask m c v,
  rw (lt→ltb (c / 8) (length m) (omega arith)) refl,
  record {
    same_length = length-set m (c / 8) _;
    bytes =
        set-IsByte m (c / 8) _
          (set_bit-IsByte v (get_or m (c / 8) 0) (c % 8) (get_or-IsByte m (c / 8) bytes)
            (omega arith))
          bytes;
    channels = λ j. written_channels m c v j bytes h;
  },
)
