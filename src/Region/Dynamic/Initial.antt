-- ===== src/Region/Dynamic/Initial.antt =====
-- The plans that the regions with a dynamic channel plan start from.
use lora_rs.Common.{
  ℕ, zero, suc, ◌≤◌, ◌<◌, ◌≡◌, refl, ap, Bool, true, none, List, [], ◌∷◌, is_some, length, get_or,
  arith,
}
use lora_rs.Region.Dynamic.{Channel, DynamicChannelRegion, DynamicChannelPlan, init_plan, new}
use lora_rs.Region.Dynamic.Regions.{
  as923, as923_1, as923_2, as923_3, as923_4, eu868, eu433, in865, new_as924, new_as924_4, new_eu868,
  new_eu433, new_in865,
}
use lora_rs.Region.Dynamic.Channels.{IsPlan}
use lora_rs.Region.Configuration
use lora_rs.Region.Configuration.{
  State, dynamic, dynamic_region, DynamicRegion, dynamic_constants, as923_1_region, as923_2_region,
  as923_3_region, as923_4_region, eu868_region, eu433_region, in865_region,
}

length-init_plan : (cs : List Channel) (n : ℕ) → length (init_plan cs n) ≡ n
unfolding init_plan
length-init_plan cs zero = refl
length-init_plan [] (suc n) = ap suc (length-init_plan [] n)
length-init_plan (c ∷ cs) (suc n) = ap suc (length-init_plan cs n)

init_plan-some :
    (cs : List Channel) (n i : ℕ)
    → i < length cs
    → i < n
    → is_some (get_or (init_plan cs n) i none) ≡ true
unfolding init_plan
init_plan-some cs zero i h k = absurd (omega arith)
init_plan-some [] (suc n) i h k = absurd (omega arith)
init_plan-some (c ∷ cs) (suc n) zero h k = refl
init_plan-some (c ∷ cs) (suc n) (suc i) h k = init_plan-some cs n i (omega arith) (omega arith)

new-IsPlan :
    (r : DynamicChannelRegion) (f : ℕ → Bool)
    → r.num_join_channels ≤ length r.init_channels
    → r.num_join_channels ≤ 16
    → IsPlan r (new r f)
unfolding new
new-IsPlan r f h k = record {
  size = length-init_plan r.init_channels 16;
  mask_size = refl;
  mask_bytes = (
    omega arith,
    (
      omega arith,
      (
        omega arith,
        (
          omega arith,
          (omega arith, (omega arith, (omega arith, (omega arith, (omega arith, tt))))),
        ),
      ),
    ),
  );
  joins = λ i lt. init_plan-some r.init_channels 16 i (omega (arith, h)) (omega (arith, k));
}

pub new_eu868-IsPlan : IsPlan eu868 new_eu868
unfolding eu868 new_eu868
new_eu868-IsPlan = new-IsPlan eu868 _ (omega arith) (omega arith)

-- Every region with a dynamic channel plan starts from a well-formed plan of that region: sixteen
-- channels with the join channels defined, and a mask of nine bytes.
pub Configuration_new-IsPlan :
    (name : DynamicRegion)
    → (p : DynamicChannelPlan) × (Configuration.new (dynamic_region name) ≡ dynamic name p)
      × IsPlan (dynamic_constants name) p
unfolding Configuration.new dynamic_constants as923 as923_1 as923_2 as923_3 as923_4 eu868 eu433
    in865 new_as924 new_as924_4 new_eu868 new_eu433 new_in865
Configuration_new-IsPlan as923_1_region =
    (_, refl, new-IsPlan as923_1 _ (omega arith) (omega arith))
Configuration_new-IsPlan as923_2_region =
    (_, refl, new-IsPlan as923_2 _ (omega arith) (omega arith))
Configuration_new-IsPlan as923_3_region =
    (_, refl, new-IsPlan as923_3 _ (omega arith) (omega arith))
Configuration_new-IsPlan as923_4_region =
    (_, refl, new-IsPlan as923_4 _ (omega arith) (omega arith))
Configuration_new-IsPlan eu868_region = (_, refl, new-IsPlan eu868 _ (omega arith) (omega arith))
Configuration_new-IsPlan eu433_region = (_, refl, new-IsPlan eu433 _ (omega arith) (omega arith))
Configuration_new-IsPlan in865_region = (_, refl, new-IsPlan in865 _ (omega arith) (omega arith))
