-- ===== src/Region/Dynamic/Supported.antt =====
-- The data rates of a requested channel, as `handle_new_channel` looks them up in the region's table.
use lora_rs.Common.{
  ℕ, zero, suc, ◌+◌, ◌-◌, ◌↔◌, ==_iff, ltb→lt, get_elem?-get_or, index, ◌≤◌, ◌<◌, ◌≡◌, refl, sym,
  ◌∙◌, Bool, true, false, none, ltb, ◌==◌, is_some, length, get_or, ret, inl, inr, arith,
  Bool-cases,
}
use lora_rs.Encoding.Types.{min_data_rate, max_data_rate}
use lora_rs.Region.{DatarateTable}
use lora_rs.Region.Dynamic.{all_supported, dr_supported}

-- Every data rate of a range is in the region's table.
abbrev pub Supported : DatarateTable → ℕ → Type 0
Supported table range =
    (max_data_rate range < 15)
    × ((k : ℕ)
        → min_data_rate range ≤ k
        → k ≤ max_data_rate range
        → is_some (get_or table k none) ≡ true)

index-rate :
    (table : DatarateTable) (k : ℕ) → k < length table → index table k ≡ ret (get_or table k none)
index-rate table k h = rw (get_elem?-get_or table k none h) refl

-- The walk over a range stays in the table and finds whether all of its data rates are there.
all_supported_iff :
    (table : DatarateTable) (c n : ℕ)
    → c + n ≤ length table
    → (b : Bool) × (all_supported table c n ≡ ret b)
      × ((b ≡ true) ↔ ((k : ℕ) → c ≤ k → k < c + n → is_some (get_or table k none) ≡ true))
unfolding all_supported
all_supported_iff table c zero h = (true, refl, (λ e k lo hi. absurd (omega arith), λ f. refl))
all_supported_iff table c (suc n) h =
    let (b, run, (covers, every)) = all_supported_iff table (suc c) n (omega arith) in
    elim (Bool-cases (is_some (get_or table c none))) [
      | inl here ↦ (
        b,
        rw (index-rate table c (omega arith), here) run,
        (
          λ e k lo hi. at_or_past c k (suc c + n) here lo (omega arith) (covers e),
          λ f. every (λ k lo hi. f k (omega arith) (omega arith)),
        ),
      )
      | inr gone ↦ (
        false,
        rw (index-rate table c (omega arith), gone) refl,
        (λ e. cc, λ f. sym gone ∙ f c (omega arith) (omega arith)),
      )
    ]
  where
    at_or_past :
        (c k end : ℕ)
        → is_some (get_or table c none) ≡ true
        → c ≤ k
        → k < end
        → ((k : ℕ) → suc c ≤ k → k < end → is_some (get_or table k none) ≡ true)
        → is_some (get_or table k none) ≡ true
    at_or_past c k end here lo hi past = elim (Bool-cases (k == c)) [
      | inl e ↦ rw ((==_iff k c).0 e) here
      | inr ne ↦ past k (ground arith) hi
    ]

pub dr_supported-Supported :
    (table : DatarateTable) (range : ℕ)
    → length table ≡ 15
    → (b : Bool) × (dr_supported table range ≡ ret b) × ((b ≡ true) ↔ Supported table range)
unfolding dr_supported
dr_supported-Supported table range size = elim (Bool-cases (ltb (max_data_rate range) 15)) [
  | inl e ↦
      (let (b, run, (covers, every)) =
          all_supported_iff table (min_data_rate range)
            (max_data_rate range + 1 - min_data_rate range) (within (ltb→lt _ _ e)) in
        (
          b,
          rw e run,
          (
            λ t. (ltb→lt _ _ e, λ k lo hi. covers t k lo (omega arith)),
            λ f. every (λ k lo hi. f.1 k lo (omega arith)),
          ),
        ))
  | inr past ↦ (false, rw past refl, (λ t. cc, λ f. absurd (ground (arith, f.0))))
]
  where
    within :
        max_data_rate range < 15
        → min_data_rate range + (max_data_rate range + 1 - min_data_rate range) ≤ length table
    within h = omega (arith, size)
