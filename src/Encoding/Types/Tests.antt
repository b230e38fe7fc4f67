-- ===== src/Encoding/Types/Tests.antt =====
-- The types of lorawan-encoding/src/types.rs at concrete values.
use lora_rs.Common.{◌≡◌, refl, false, [], ◌∷◌, ret, panic, err, All, arith}
use lora_rs.Common.Bits.{IsByte, set_bit}
use lora_rs.Encoding.Types.{
  default_mask, set_channel, set_bank, new_data_rate_range, invalid_data_rate_range, ChannelMask,
}
use lora_rs.Encoding.Types.Mask.{Written, set_channel_writes}

-- Channel 9 of a mask of two bytes is turned off.
set_channel_runs : set_channel (0xff ∷ 0x0f ∷ []) 9 false ≡ ret (0xff ∷ 0x0d ∷ [])
unfolding set_channel set_bit
set_channel_runs = refl

two_bytes : All IsByte (0xff ∷ 0x0f ∷ [])
two_bytes = (omega arith, (omega arith, tt))

set_channel_writes_example :
    (m' : ChannelMask) × (set_channel (0xff ∷ 0x0f ∷ []) 9 false ≡ ret m')
    × Written (0xff ∷ 0x0f ∷ []) 9 false m'
set_channel_writes_example = set_channel_writes (0xff ∷ 0x0f ∷ []) 9 false two_bytes (omega arith)

-- A bank past the mask panics.
set_bank_panics : set_bank (default_mask 9) 9 0 ≡ panic
unfolding set_bank
set_bank_panics = refl

-- 0x05 as a range has its minimum above its maximum.
range_rejected : new_data_rate_range 0x05 ≡ err invalid_data_rate_range
unfolding new_data_rate_range
range_rejected = refl
