-- ===== src/Modulation/Tests.antt =====
-- The time on air at concrete values.
use lora_rs.Common.{◌+◌, ◌*◌, ◌/◌, ◌≡◌, refl, true, false, none, some, arith}
use lora_rs.Common.Int.{pos_part}
use lora_rs.Modulation.{
  sf7, sf12, khz125, cr4_5, new, factor, symbol_us, div_ceil, ratio_numerator, ratio_denominator,
  payload_symb_nb, time_on_air_us,
}
use lora_rs.Modulation.Airtime.{time_on_air_us_lem}

-- A packet of 18 bytes at SF7 and 125 kHz.
airtime_runs : time_on_air_us (new sf7 khz125 cr4_5) (some 8) true 18 ≡ 51_456
unfolding time_on_air_us new symbol_us
airtime_runs = refl

-- An empty payload at SF12: the numerator is negative, and one block of symbols is counted.
empty_runs : pos_part (div_ceil (ratio_numerator sf12 true 0) (ratio_denominator sf12 false)) ≡ 1
unfolding div_ceil ratio_numerator ratio_denominator factor
empty_runs = refl

time_on_air_us_lem_example :
    (time_on_air_us (new sf7 khz125 cr4_5) (some 8) true 18
      ≡ (4 * 8 + 17 + 4 * payload_symb_nb (new sf7 khz125 cr4_5) true 18)
        * symbol_us sf7 khz125
        / 4)
    × (time_on_air_us (new sf7 khz125 cr4_5) none true 18
        ≡ symbol_us sf7 khz125 * payload_symb_nb (new sf7 khz125 cr4_5) true 18)
time_on_air_us_lem_example =
    time_on_air_us_lem sf7 khz125 cr4_5 true 8 18 (omega arith) (omega arith)
