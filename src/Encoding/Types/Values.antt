-- ===== src/Encoding/Types/Values.antt =====
-- Data rates and data rate ranges as numbers: types.rs, `DR`, `DataRateRange`.
use lora_rs.Common.{ℕ, ◌-◌, ◌%◌, ◌≤◌, ◌<◌, ◌≡◌, refl, arith, ==_iff, ◌==◌, true, ok}
use lora_rs.Common.Bits.{all_under, all_under_holds}
use lora_rs.Encoding.Types.{
  Dr, dr0, dr1, dr2, to_u8, from_u8, offset_sub, new_range, new_data_rate_range, min_data_rate,
  max_data_rate,
}

pub to_u8-lt : (d : Dr) → to_u8 d < 16
unfolding to_u8
to_u8-lt d = ground arith

pub from_u8-to_u8 : (d : Dr) → from_u8 (to_u8 d) ≡ d
unfolding from_u8 to_u8
from_u8-to_u8 dr0 = refl
from_u8-to_u8 dr1 = refl
from_u8-to_u8 dr2 = refl
from_u8-to_u8 _ = refl

low_table : all_under 16 (λ v. to_u8 (from_u8 v) == v) ≡ true
unfolding all_under from_u8 to_u8
low_table = refl

from_u8-mod : (v : ℕ) → from_u8 (v % 16) ≡ from_u8 v
unfolding from_u8
from_u8-mod v = rw (mod_twice v) refl
  where
    mod_twice : (v : ℕ) → v % 16 % 16 ≡ v % 16
    mod_twice v = omega arith

pub to_u8-from_u8 : (v : ℕ) → to_u8 (from_u8 v) ≡ v % 16
to_u8-from_u8 v = rw (← from_u8-mod v) (
    (==_iff _ _).0
      (all_under_holds 16 (λ x. to_u8 (from_u8 x) == x) (v % 16) low_table (omega arith)))

-- `offset_sub` subtracts and stops at DR0: the 16 data rates behave as the numbers 0 to 15.
pub to_u8-offset_sub : (d : Dr) (k : ℕ) → to_u8 (offset_sub d k) ≡ to_u8 d - k
unfolding offset_sub
to_u8-offset_sub d k = omega (arith, to_u8-from_u8 (to_u8 d - k), to_u8-lt d)

-- A range that is built from two data rates in order is accepted from the wire, and its two ends
-- are read back.
pub new_range_reads_back :
    (lo hi : Dr)
    → to_u8 lo ≤ to_u8 hi
    → (new_data_rate_range (new_range lo hi) ≡ ok (new_range lo hi))
      × (min_data_rate (new_range lo hi) ≡ to_u8 lo)
      × (max_data_rate (new_range lo hi) ≡ to_u8 hi)
unfolding new_range new_data_rate_range min_data_rate max_data_rate
new_range_reads_back lo hi h = (
  ground (arith, to_u8-lt lo, to_u8-lt hi),
  omega (arith, to_u8-lt lo),
  omega (arith, to_u8-lt lo),
)
