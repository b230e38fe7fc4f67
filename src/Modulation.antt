-- ===== src/Modulation.antt =====
-- lora-modulation/src/lib.rs: LoRa modulation parameters and the time on air of a packet.
-- A `u32` product is taken modulo 2 ^ 32, an `i32` is an integer.
pub mod Airtime
mod Tests
use lora_rs.Common.{
  ℕ, ◌+◌, ◌-◌, ◌*◌, ◌/◌, ◌%◌, ◌^◌, Bool, true, false, Option, none, some, leb, if◌then◌else◌,
}
use lora_rs.Common.Int.{ℤ, pos, negsuc, pos_part, sub_ℕ, ◌+ℤ◌, ◌-ℤ◌, tdiv}

pub data Bandwidth : Type 0 where
  khz7 khz10 khz15 khz20 khz31 khz41 khz62 khz125 khz250 khz500 : Bandwidth

unfoldable pub hz : Bandwidth → ℕ
hz khz7 = 7810
hz khz10 = 10420
hz khz15 = 15630
hz khz20 = 20830
hz khz31 = 31250
hz khz41 = 41670
hz khz62 = 62500
hz khz125 = 125000
hz khz250 = 250000
hz khz500 = 500000

pub data SpreadingFactor : Type 0 where
  sf5 sf6 sf7 sf8 sf9 sf10 sf11 sf12 : SpreadingFactor

unfoldable pub factor : SpreadingFactor → ℕ
factor sf5 = 5
factor sf6 = 6
factor sf7 = 7
factor sf8 = 8
factor sf9 = 9
factor sf10 = 10
factor sf11 = 11
factor sf12 = 12

-- `CodingRate::_4_5` and so on.
pub data CodingRate : Type 0 where
  cr4_5 cr4_6 cr4_7 cr4_8 : CodingRate

unfoldable pub denom : CodingRate → ℕ
denom cr4_5 = 5
denom cr4_6 = 6
denom cr4_7 = 7
denom cr4_8 = 8

abbrev pub u32_mod : ℕ
u32_mod = 2 ^ 32

pub record BaseBandModulationParams : Type 0 where
  pub sf : SpreadingFactor
  pub bw : Bandwidth
  pub cr : CodingRate
  pub ldro : Bool
  pub t_sym_us : ℕ

-- `2u32.pow(sf.factor()) * 1_000_000 / bw.hz()`
unfoldable pub symbol_us : SpreadingFactor → Bandwidth → ℕ
unfolding factor hz
symbol_us sf bw = 2 ^ factor sf * 1_000_000 % u32_mod / hz bw

-- `BaseBandModulationParams::new`
unfoldable pub new : SpreadingFactor → Bandwidth → CodingRate → BaseBandModulationParams
unfolding symbol_us
new sf bw cr = record {
  sf = sf;
  bw = bw;
  cr = cr;
  ldro = leb 16_384 (symbol_us sf bw);
  t_sym_us = symbol_us sf bw;
}

unfoldable pub delay_in_symbols : BaseBandModulationParams → ℕ → ℕ
delay_in_symbols p delay_in_ms = delay_in_ms * 1000 % u32_mod / p.t_sym_us % 2 ^ 16

unfoldable pub symbols_to_ms : BaseBandModulationParams → ℕ → ℕ
symbols_to_ms p symbols = p.t_sym_us * symbols % u32_mod / 1_000

-- The local `div_ceil`: `(num - 1) / denom + 1` on `i32`.
unfoldable pub div_ceil : ℤ → ℕ → ℤ
div_ceil num d = tdiv (num -ℤ pos 1) d +ℤ pos 1

-- `8 * len - 4 * sf + 28 + 16 - 20 * h`
unfoldable pub ratio_numerator : SpreadingFactor → Bool → ℕ → ℤ
unfolding factor
ratio_numerator sf explicit_header len =
    sub_ℕ (8 * len + 28 + 16) (4 * factor sf + 20 * (if explicit_header then 0 else 1))

-- `4 * (sf - 2 * de)`; no spreading factor is below 5.
unfoldable pub ratio_denominator : SpreadingFactor → Bool → ℕ
unfolding factor
ratio_denominator sf ldro = 4 * (factor sf - 2 * (if ldro then 1 else 0))

unfoldable pub payload_symb_nb : BaseBandModulationParams → Bool → ℕ → ℕ
unfolding denom div_ceil ratio_numerator ratio_denominator
payload_symb_nb p explicit_header len =
    let big_ratio =
      div_ceil (ratio_numerator p.sf explicit_header len) (ratio_denominator p.sf p.ldro) in
    8 + pos_part big_ratio * denom p.cr

unfoldable pub time_on_air_us : BaseBandModulationParams → Option ℕ → Bool → ℕ → ℕ
unfolding payload_symb_nb
time_on_air_us p none explicit_header len =
    p.t_sym_us * payload_symb_nb p explicit_header len % u32_mod
time_on_air_us p (some preamble) explicit_header len =
    (4 * preamble + 17 + 4 * payload_symb_nb p explicit_header len) * p.t_sym_us % u32_mod / 4
