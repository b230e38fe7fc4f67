-- ===== src/Common/Bits.antt =====
-- Bits of a byte as arithmetic. `x >> k` is `x / 2 ^ k`, `x & (2 ^ k - 1)` is `x % 2 ^ k`.
use Prim.Native.Nat.{ℕ, zero, suc, ◌+◌, ◌-◌, ◌/◌, ◌%◌, ◌^◌, ◌<◌}
use mathlib.Core.Path.{◌≡◌, refl}
use mathlib.Core.Bool.{Bool, true, false, ◌&&◌, not}
use native.Mathlib.Omega.{arith}
use lora_rs.Common.Tests.{◌==◌, ==_iff, if◌then◌else◌}

abbrev pub IsByte : ℕ → Type 0
IsByte b = b < 256

-- `x & (1 << i) != 0`
unfoldable pub test_bit : ℕ → ℕ → Bool
test_bit x i = x / 2 ^ i % 2 == 1

-- `x | (1 << i)` and `x & !(1 << i)`.
unfoldable pub set_bit : ℕ → ℕ → Bool → ℕ
unfolding test_bit
set_bit x i true = if test_bit x i then x else x + 2 ^ i
set_bit x i false = if test_bit x i then x - 2 ^ i else x

-- A test run on the numbers under a bound: where they all pass, so does each of them.
unfoldable pub all_under : ℕ → (ℕ → Bool) → Bool
all_under zero test = true
all_under (suc last) test = all_under last test && test last

pub all_under_holds :
    (bound : ℕ) (test : ℕ → Bool) (k : ℕ) → all_under bound test ≡ true → k < bound → test k ≡ true
unfolding all_under
all_under_holds zero test k passed under = absurd (omega arith)
all_under_holds (suc last) test k passed under = ground (arith, all_under_holds last test k)

same : Bool → Bool → Bool
same true b = b
same false b = not b

same→eq : (a b : Bool) → same a b ≡ true → a ≡ b
unfolding same
same→eq true true h = refl
same→eq true false h = cc
same→eq false true h = cc
same→eq false false h = refl

bit_row : Bool → ℕ → ℕ → ℕ → Bool
unfolding same set_bit
bit_row v b i j = same (test_bit (set_bit b i v) j) (if i == j then v else test_bit b j)

bit_table : Bool → Bool
unfolding bit_row all_under
bit_table v = all_under 256 (λ b. all_under 8 (λ i. all_under 8 (λ j. bit_row v b i j)))

bit_table-true : (v : Bool) → bit_table v ≡ true
unfolding bit_table
bit_table-true true = refl
bit_table-true false = refl

-- Writing bit `i` of a byte sets that bit and leaves the other seven.
pub test_bit-set_bit :
    (v : Bool) (b i j : ℕ)
    → b < 256
    → i < 8
    → j < 8
    → test_bit (set_bit b i v) j ≡ (if i == j then v else test_bit b j)
unfolding bit_row bit_table
test_bit-set_bit v b i j hb hi hj = same→eq _ _ (all_under_holds 8 (bit_row v b i) j row hj)
  where
    rows : all_under 8 (λ k. all_under 8 (bit_row v b k)) ≡ true
    rows =
        all_under_holds 256 (λ x. all_under 8 (λ k. all_under 8 (bit_row v x k))) b
          (bit_table-true v) hb

    row : all_under 8 (bit_row v b i) ≡ true
    row = all_under_holds 8 (λ k. all_under 8 (bit_row v b k)) i rows hi

byte_row : Bool → ℕ → ℕ → Bool
unfolding set_bit
byte_row v b i = set_bit b i v / 256 == 0

byte_table : (v : Bool) → all_under 256 (λ b. all_under 8 (λ i. byte_row v b i)) ≡ true
unfolding all_under byte_row
byte_table true = refl
byte_table false = refl

pub set_bit-IsByte : (v : Bool) (b i : ℕ) → b < 256 → i < 8 → set_bit b i v < 256
unfolding byte_row
set_bit-IsByte v b i hb hi = omega (arith, (==_iff (set_bit b i v / 256) 0).0 fits)
  where
    row : all_under 8 (byte_row v b) ≡ true
    row = all_under_holds 256 (λ x. all_under 8 (byte_row v x)) b (byte_table v) hb

    fits : (set_bit b i v / 256 == 0) ≡ true
    fits = all_under_holds 8 (byte_row v b) i row hi
