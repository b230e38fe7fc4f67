-- ===== src/Region/Supported.antt =====
-- Which data rates a region has: the tables of lorawan-device/src/region, through
-- `Configuration::get_datarate`.
use lora_rs.Common.{
  ℕ, ◌<◌, ◌≡◌, refl, ap, Option, none, length, get_or, get_elem?-get_or, ret, unwrap, arith,
}
use lora_rs.Region
use lora_rs.Region.{Datarate, get_datarate}
use lora_rs.Region.Rates.{
  au915_datarates, us915_datarates, as923_datarates, eu868_datarates, eu433_datarates,
  in865_datarates,
}
use lora_rs.Region.Dynamic.Regions.{as923_1, as923_2, as923_3, as923_4, eu868, eu433, in865}
use lora_rs.Region.Fixed.{au915, us915}
use lora_rs.Region.Configuration
use lora_rs.Region.Configuration.{
  State, dynamic, fixed, DynamicRegion, FixedRegion, constants, dynamic_constants, fixed_constants,
  as923_1_region, as923_2_region, as923_3_region, as923_4_region, eu868_region, eu433_region,
  in865_region, au915_region, us915_region,
}

-- The entry of the region's table for data rate `k`.
unfoldable pub rate_at : State → ℕ → Option Datarate
unfolding constants
rate_at region k = get_or (constants region).datarates k none

pub length-datarates : (region : State) → length (constants region).datarates ≡ 15
unfolding constants dynamic_constants fixed_constants as923_1 as923_2 as923_3 as923_4 eu868 eu433
    in865 au915 us915 au915_datarates us915_datarates as923_datarates eu868_datarates
    eu433_datarates in865_datarates
length-datarates (dynamic as923_1_region p) = refl
length-datarates (dynamic as923_2_region p) = refl
length-datarates (dynamic as923_3_region p) = refl
length-datarates (dynamic as923_4_region p) = refl
length-datarates (dynamic eu868_region p) = refl
length-datarates (dynamic eu433_region p) = refl
length-datarates (dynamic in865_region p) = refl
length-datarates (fixed au915_region p) = refl
length-datarates (fixed us915_region p) = refl

pub get_datarate-rate_at :
    (region : State) (k : ℕ) → k < 15 → Configuration.get_datarate region k ≡ ret (rate_at region k)
unfolding rate_at Configuration.get_datarate Region.get_datarate
get_datarate-rate_at region k h =
    ap unwrap (
      get_elem?-get_or (constants region).datarates k none (omega (arith, length-datarates region)))
