-- ===== src/Mac/Settings/Windows.antt =====
-- The receive windows of every region: `Mac::rx_windows` never panics.
use lora_rs.Common.{
  ℕ, ◌+◌, ◌≤◌, ◌<◌, ◌≡◌, refl, sym, ap, ◌∙◌, Bool, true, ◌&&◌, Option, none, some, ltb, is_some,
  if◌then◌else◌, Exec, ret, ◌>>=◌, arith, Option-cases, inl, inr,
}
use lora_rs.Common.Bits.{all_under, all_under_holds}
use lora_rs.Encoding.Types.{Dr, to_u8, from_u8}
use lora_rs.Encoding.Types.Values.{to_u8-lt, from_u8-to_u8}
use lora_rs.Modulation
use lora_rs.Region.{Datarate, TxChannel, window1, window2}
use lora_rs.Region.Dynamic.Regions.{as923_1, as923_2, as923_3, as923_4, eu868, eu433, in865}
use lora_rs.Region.Fixed.{au915, us915}
use lora_rs.Region.Configuration.{
  State, dynamic, fixed, RfConfig, get_rx_datarate, get_rx2_frequency, get_coding_rate, constants,
  dynamic_constants, as923_1_region, as923_2_region, as923_3_region, as923_4_region, eu868_region,
  eu433_region, in865_region, au915_region, us915_region,
}
use lora_rs.Region.Supported.{rate_at, get_datarate-rate_at}
use lora_rs.Mac.Settings.{Settings, RxWindows, build_rf_config, rx2_rf_config, rx_windows}

-- For a transmission at `dr` and an RX1 offset: the rate of RX1 is within the table, and the
-- default rate of RX2 is one that the region has.
row : State → ℕ → ℕ → Bool
unfolding rate_at get_rx_datarate from_u8 to_u8
row region dr offset =
    ltb (to_u8 (get_rx_datarate region (from_u8 dr) offset window1)) 15
    && ltb (to_u8 (get_rx_datarate region (from_u8 dr) offset window2)) 15
    && is_some (rate_at region (to_u8 (get_rx_datarate region (from_u8 dr) offset window2)))

rows : State → Bool
unfolding row all_under
rows region =
    all_under 16 (λ dr. all_under ((constants region).max_rx1_dr_offset + 1) (row region dr))

rows-true : (region : State) → rows region ≡ true
unfolding rows dynamic_constants as923_1 as923_2 as923_3 as923_4 eu868 eu433 in865 au915 us915
rows-true (dynamic eu868_region p) = refl
rows-true (dynamic as923_1_region p) = refl
rows-true (dynamic as923_2_region p) = refl
rows-true (dynamic as923_3_region p) = refl
rows-true (dynamic as923_4_region p) = refl
rows-true (dynamic eu433_region p) = refl
rows-true (dynamic in865_region p) = refl
rows-true (fixed au915_region p) = refl
rows-true (fixed us915_region p) = refl

record Row (region : State) (tx_dr : Dr) (offset : ℕ) : Type 0 where
  rx1_within : to_u8 (get_rx_datarate region tx_dr offset window1) < 15
  rx2_within : to_u8 (get_rx_datarate region tx_dr offset window2) < 15
  rx2_exists : is_some (rate_at region (to_u8 (get_rx_datarate region tx_dr offset window2))) ≡ true

row_parts :
    (a b : ℕ) (s : Bool) → (ltb a 15 && ltb b 15 && s) ≡ true → (a < 15) × (b < 15) × (s ≡ true)
row_parts a b s h = (ground arith, ground arith, ground arith)

rows-Row :
    (region : State) (tx_dr : Dr) (offset : ℕ)
    → offset ≤ (constants region).max_rx1_dr_offset
    → Row region tx_dr offset
unfolding rows row
rows-Row region tx_dr offset h =
    let (a, b, e) = row_parts _ _ _ (sym (ap row_at (from_u8-to_u8 tx_dr)) ∙ entry) in
    record { rx1_within = a; rx2_within = b; rx2_exists = e }
  where
    last : ℕ
    last = (constants region).max_rx1_dr_offset + 1

    row_at : Dr → Bool
    row_at d =
        ltb (to_u8 (get_rx_datarate region d offset window1)) 15
        && ltb (to_u8 (get_rx_datarate region d offset window2)) 15
        && is_some (rate_at region (to_u8 (get_rx_datarate region d offset window2)))

    entry : row_at (from_u8 (to_u8 tx_dr)) ≡ true
    entry =
        all_under_holds last (row region (to_u8 tx_dr)) offset
          (all_under_holds 16 (λ dr. all_under last (row region dr)) (to_u8 tx_dr)
            (rows-true region) (to_u8-lt tx_dr))
          (omega arith)

-- The window on `frequency` that serves the data rate `dr`, or the region's default for RX2 where
-- the region lacks it.
pub record Serves (region : State) (c : Settings) (frequency : ℕ) (dr tx_dr : Dr) (rf : RfConfig)
    : Type 0 where
  pub rate : Datarate
  pub served :
      (if is_some (rate_at region (to_u8 dr))
        then rate_at region (to_u8 dr)
        else rate_at region (to_u8 (get_rx_datarate region tx_dr c.rx1_dr_offset window2)))
      ≡ some rate
  pub window : rf ≡ record {
    frequency = frequency;
    bb = Modulation.new rate.spreading_factor rate.bandwidth (get_coding_rate region);
    max_payload_len = rate.max_mac_payload_size;
  }

build_rf_config-Serves :
    (region : State) (c : Settings) (frequency : ℕ) (dr tx_dr : Dr)
    → to_u8 dr < 15
    → Row region tx_dr c.rx1_dr_offset
    → (rf : RfConfig) × (build_rf_config region c frequency dr tx_dr ≡ ret rf)
      × Serves region c frequency dr tx_dr rf
unfolding build_rf_config
build_rf_config-Serves region c frequency dr tx_dr h w =
    let lookup = get_datarate-rate_at region (to_u8 dr) h in
    let default =
      get_datarate-rate_at region (to_u8 (get_rx_datarate region tx_dr c.rx1_dr_offset window2))
        w.rx2_within in
    elim (Option-cases (rate_at region (to_u8 dr))) [
      | inr (d, e) ↦
          (_, rw (lookup, e) refl, record { rate = d; served = rw e refl; window = refl })
      | inl e ↦
          elim (Option-cases
            (rate_at region (to_u8 (get_rx_datarate region tx_dr c.rx1_dr_offset window2)))) [
              | inl none_there ↦ (let there = w.rx2_exists in absurd cc)
              | inr (d, e') ↦ (
                _,
                rw (lookup, e, default, e') refl,
                record { rate = d; served = rw (e, e') refl; window = refl },
              )
            ]
    ]

-- The override of the RX2 data rate, where there is one, is not 15.
abbrev pub OverrideWithin : Option Dr → Type 0
OverrideWithin none = Unit {0}
OverrideWithin (some d) = to_u8 d < 15

-- The data rate and the frequency of RX2.
unfoldable pub rx2_rate : State → Settings → Dr → Dr
rx2_rate region c tx_dr = elim c.rx2_data_rate [
  | some d ↦ d
  | none ↦ get_rx_datarate region tx_dr c.rx1_dr_offset window2
]

unfoldable pub rx2_freq : State → Settings → ℕ
rx2_freq region c = elim c.rx2_frequency [ some f ↦ f | none ↦ get_rx2_frequency region ]

rx2_rate-lt :
    (region : State) (c : Settings) (tx_dr : Dr) (o : Option Dr)
    → c.rx2_data_rate ≡ o
    → OverrideWithin o
    → Row region tx_dr c.rx1_dr_offset
    → to_u8 (rx2_rate region c tx_dr) < 15
unfolding rx2_rate
rx2_rate-lt region c tx_dr none e h w = rw e w.rx2_within
rx2_rate-lt region c tx_dr (some d) e h w = rw e h

rx2_rf_config_eq :
    (region : State) (c : Settings) (tx_dr : Dr)
    → rx2_rf_config region c tx_dr
      ≡ build_rf_config region c (rx2_freq region c) (rx2_rate region c tx_dr) tx_dr
unfolding rx2_rf_config rx2_freq rx2_rate
rx2_rf_config_eq region c tx_dr = refl

two_windows :
    {A : Type 0} (m n : Exec RfConfig) (a b : RfConfig) (both : RfConfig → RfConfig → A)
    → m ≡ ret a
    → n ≡ ret b
    → (m >>= λ rx1. n >>= λ rx2. ret (both rx1 rx2)) ≡ ret (both a b)
two_windows m n a b both e f = rw (e, f) refl

-- In every region, for every channel and data rate of an uplink, with an RX1 offset that the
-- region allows and an RX2 override other than 15, the receive windows are made without a panic:
-- RX1 on the channel's downlink frequency and RX2 on the region's or the network's frequency, each
-- with the rate that the region's table has for it, or the default rate of RX2 where the table has
-- none.
pub rx_windows-Serves :
    (region : State) (c : Settings) (tx : TxChannel)
    → c.rx1_dr_offset ≤ (constants region).max_rx1_dr_offset
    → OverrideWithin c.rx2_data_rate
    → (w : RxWindows) × (rx_windows region c tx ≡ ret w)
      × Serves region c tx.rx1_frequency
          (get_rx_datarate region tx.dr c.rx1_dr_offset window1)
          tx.dr
          w.rx1
      × Serves region c (rx2_freq region c) (rx2_rate region c tx.dr) tx.dr w.rx2
unfolding rx_windows
rx_windows-Serves region c tx h o =
    let table = rows-Row region tx.dr c.rx1_dr_offset h in
    let (rx1, e1, s1) =
      build_rf_config-Serves region c tx.rx1_frequency
        (get_rx_datarate region tx.dr c.rx1_dr_offset window1) tx.dr table.rx1_within table in
    let (rx2, e2, s2) =
      build_rf_config-Serves region c (rx2_freq region c) (rx2_rate region c tx.dr) tx.dr
        (rx2_rate-lt region c tx.dr c.rx2_data_rate refl o table) table in
    (
      record { rx1 = rx1; rx2 = rx2 },
      two_windows _ _ rx1 rx2 (λ a b. record { rx1 = a; rx2 = b }) e1
          (rx2_rf_config_eq region c tx.dr ∙ e2),
      s1,
      s2,
    )
