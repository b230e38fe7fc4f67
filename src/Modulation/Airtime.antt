-- ===== src/Modulation/Airtime.antt =====
-- The time on air: the arithmetic stays within `u32`, and the number of payload symbols.
use lora_rs.Common.{
  ℕ, ◌+◌, ◌-◌, ◌*◌, ◌/◌, ◌≤◌, ◌<◌, ◌≡◌, ap, Bool, none, some, if◌then◌else◌, leb, arith,
}
use native.Mathlib.Nat.{mul-le-mul_left, mul-le-mul_right}
use lora_rs.Common.Int.{pos, pos_part}
use lora_rs.Modulation.{
  Bandwidth, SpreadingFactor, CodingRate, new, factor, denom, symbol_us, div_ceil, ratio_numerator,
  ratio_denominator, payload_symb_nb, time_on_air_us,
}

-- `2 ^ sf * 1_000_000` fits into 32 bits, and no symbol is longer than 524455 µs.
symbol_us-le : (sf : SpreadingFactor) (bw : Bandwidth) → symbol_us sf bw ≤ 524_455
unfolding symbol_us
symbol_us-le sf bw = ground arith

factor_bounds : (sf : SpreadingFactor) → (5 ≤ factor sf) × (factor sf ≤ 12)
unfolding factor
factor_bounds sf = ground arith

denom_bounds : (cr : CodingRate) → (5 ≤ denom cr) × (denom cr ≤ 8)
unfolding denom
denom_bounds cr = ground arith

-- On a positive numerator `div_ceil` is the quotient rounded up.
pub div_ceil_pos : (n d : ℕ) → 0 < n → div_ceil (pos n) d ≡ pos ((n - 1) / d + 1)
unfolding div_ceil
div_ceil_pos n d h = ground arith

-- The blocks of symbols of a payload of at most 255 bytes.
blocks-le :
    (sf : SpreadingFactor) (explicit_header ldro : Bool) (len : ℕ)
    → len ≤ 255
    → pos_part (div_ceil (ratio_numerator sf explicit_header len) (ratio_denominator sf ldro)) ≤ 174
unfolding ratio_denominator ratio_numerator factor div_ceil
blocks-le sf explicit_header ldro len h = ground arith

-- Where the numerator `8 * len - 4 * sf + 44 - 20 * h` is positive, the number of blocks of payload
-- symbols that the code computes is that numerator divided by the denominator and rounded up.
pub blocks_ceil :
    (sf : SpreadingFactor) (explicit_header ldro : Bool) (len : ℕ)
    → 4 * factor sf + (if explicit_header then 0 else 20) < 8 * len + 44
    → (8 * len + 44
        ≤ 4 * factor sf
          + (if explicit_header then 0 else 20)
          + pos_part (div_ceil (ratio_numerator sf explicit_header len) (ratio_denominator sf ldro))
            * ratio_denominator sf ldro)
      × (4 * factor sf
            + (if explicit_header then 0 else 20)
            + pos_part
                (div_ceil (ratio_numerator sf explicit_header len) (ratio_denominator sf ldro))
              * ratio_denominator sf ldro
          < 8 * len + 44 + ratio_denominator sf ldro)
unfolding ratio_denominator ratio_numerator factor div_ceil
blocks_ceil sf explicit_header ldro len h = (ground arith, ground arith)

product_le : (a b x y : ℕ) → a ≤ x → b ≤ y → a * b ≤ x * y
product_le a b x y p q = omega (arith, mul-le-mul_left a q, mul-le-mul_right y p)

symbols-le :
    (sf : SpreadingFactor) (bw : Bandwidth) (cr : CodingRate) (explicit_header : Bool) (len : ℕ)
    → len ≤ 255
    → payload_symb_nb (new sf bw cr) explicit_header len ≤ 1400
unfolding payload_symb_nb new
symbols-le sf bw cr explicit_header len h =
    let ldro = leb 16_384 (symbol_us sf bw) in
    omega (
      arith,
      product_le _ (denom cr) 174 8 (blocks-le sf explicit_header ldro len h) (denom_bounds cr).1,
    )

-- For a payload and a preamble of at most 255 each, the `u32` arithmetic of the time on air does
-- not overflow, whatever the spreading factor, bandwidth, coding rate and header: the result is
-- the number of quarter symbols, four times the preamble with 17 more and the payload's, times the
-- symbol time, divided by four; without a preamble it is the payload's symbols times that time.
pub time_on_air_us_lem :
    (sf : SpreadingFactor) (bw : Bandwidth) (cr : CodingRate) (explicit_header : Bool)
    (preamble len : ℕ)
    → preamble ≤ 255
    → len ≤ 255
    → (time_on_air_us (new sf bw cr) (some preamble) explicit_header len
        ≡ (4 * preamble + 17 + 4 * payload_symb_nb (new sf bw cr) explicit_header len)
          * symbol_us sf bw
          / 4)
      × (time_on_air_us (new sf bw cr) none explicit_header len
          ≡ symbol_us sf bw * payload_symb_nb (new sf bw cr) explicit_header len)
unfolding time_on_air_us new
time_on_air_us_lem sf bw cr explicit_header preamble len hp hl =
    let n = payload_symb_nb (new sf bw cr) explicit_header len in
    let few = symbols-le sf bw cr explicit_header len hl in
    let t = symbol_us sf bw in
    let short = symbol_us-le sf bw in
    (
      ap (λ x. x / 4)
          (omega (
            arith,
            product_le (4 * preamble + 17 + 4 * n) t 6637 524_455 (omega (arith, few, hp)) short,
          )),
      omega (arith, product_le t n 524_455 1400 short few),
    )
