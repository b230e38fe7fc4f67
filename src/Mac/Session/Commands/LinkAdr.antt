-- ===== src/Mac/Session/Commands/LinkAdr.antt =====
-- How a block of LinkADRReq commands ends: `link_adr_finish`.
use lora_rs.Common.{
  ℕ, ◌/◌, ◌%◌, ◌≤◌, ◌<◌, ◌≡◌, ◌⊎◌, refl, ◌∙◌, Bool, true, false, ◌&&◌, Option, none, some, [], ◌∷◌,
  if◌then◌else◌, is_some, length, ret, ◌>>=◌, inl, inr, arith, Bool-cases,
}
use lora_rs.External.{BoundedVec}
use lora_rs.Encoding.Types.{Dr, dr15, to_u8, from_u8}
use lora_rs.Encoding.MacCommands.Payloads.{link_adr_data_rate, link_adr_tx_power, byte_at}
use lora_rs.Encoding.MacCommands.Creators.{
  Creator, new_link_adr_ans, set_tx_power_ack, set_data_rate_ack, set_channel_mask_ack,
}
use lora_rs.Region.Configuration.{State, channel_mask_validate, channel_mask_set, get_datarate}
use lora_rs.Region.Supported.{rate_at, get_datarate-rate_at}
use lora_rs.Mac.Settings.{Settings}
use lora_rs.Mac.Session.Commands.{Progress, link_adr_rate, link_adr_power, both, link_adr_finish}
use lora_rs.Mac.Session.Commands.Returns.{
  queue_answers-fits, IsRegion, Within, channel_mask_validate-returns,
}

-- A data rate of the region, below 15.
abbrev pub HasRate : State → Dr → Type 0
HasRate region d = (to_u8 d < 15) × (is_some (rate_at region (to_u8 d)) ≡ true)

abbrev pub Supported : State → Option Dr → Type 0
Supported region none = Unit {0}
Supported region (some d) = HasRate region d

rate_of :
    (c : Settings) (region : State) (d : Dr)
    → (d ≡ dr15)
      ⊎ ((to_u8 d < 15)
          × (link_adr_rate c region d ≡ (
              get_datarate region (to_u8 d) >>= λ found.
              ret (if is_some found then some d else none))))
unfolding link_adr_rate to_u8
rate_of c region dr15 = inl refl
rate_of c region _ = inr (omega arith, refl)

link_adr_rate-Supported :
    (c : Settings) (region : State) (d : Dr)
    → HasRate region c.data_rate
    → (o : Option Dr) × (link_adr_rate c region d ≡ ret o) × Supported region o
unfolding link_adr_rate
link_adr_rate-Supported c region d h = elim (rate_of c region d) [
  | inl e ↦ (some c.data_rate, rw e refl, h)
  | inr (lt, step) ↦ elim (Bool-cases (is_some (rate_at region (to_u8 d)))) [
    | inl has ↦ (some d, step ∙ rw (get_datarate-rate_at region (to_u8 d) lt, has) refl, (lt, has))
    | inr none_there ↦
        (none, step ∙ rw (get_datarate-rate_at region (to_u8 d) lt, none_there) refl, tt)
  ]
]

Supported-Within : (region : State) (o : Option Dr) → Supported region o → Within o
Supported-Within region none h = tt
Supported-Within region (some d) h = h.0

-- The data rate and the power after a block with the given verdict.
unfoldable pub rate_after : Bool → Option Dr → Dr → Dr
rate_after granted o old = if granted then (elim o [ some d ↦ d | none ↦ old ]) else old

unfoldable pub power_after : Bool → Option (Option ℕ) → Option ℕ → Option ℕ
power_after granted o old = if granted then (elim o [ some w ↦ w | none ↦ old ]) else old

-- What a block leaves, where `mask_ok` is the verdict on the mask, and `dr` and `pw` are the data
-- rate and the power where they are acceptable.
pub record Decided (g : Progress) (mask_ok : Bool) (dr : Option Dr) (pw : Option (Option ℕ))
    (g' : Progress) : Type 0 where
  pub settings : g'.settings ≡ record g.settings {
    data_rate = rate_after (mask_ok && is_some dr && is_some pw) dr g.settings.data_rate;
    tx_power = power_after (mask_ok && is_some dr && is_some pw) pw g.settings.tx_power;
  }
  pub region :
      g'.region
      ≡ (if mask_ok && is_some dr && is_some pw then channel_mask_set g.region g.mask else g.region)
  pub supported : HasRate g.region g'.settings.data_rate
  pub fits : length g'.uplink.pending ≤ 15
  pub restarted : g'.num_adrreq ≡ 0

settled : Progress → Bool → Option Dr → Option (Option ℕ) → Progress
unfolding rate_after power_after
settled g ok dr pw = record g {
  settings = record g.settings {
    data_rate = rate_after (ok && is_some dr && is_some pw) dr g.settings.data_rate;
    tx_power = power_after (ok && is_some dr && is_some pw) pw g.settings.tx_power;
  };
  region = if ok && is_some dr && is_some pw then channel_mask_set g.region g.mask else g.region;
}

both_settles :
    (g : Progress) (ok : Bool) (dr : Option Dr) (pw : Option (Option ℕ))
    → both ok dr pw g (λ d w. record g {
      settings = record g.settings { data_rate = d; tx_power = w };
      region = channel_mask_set g.region g.mask;
    })
      ≡ settled g ok dr pw
unfolding both rate_after power_after settled
both_settles g true (some d) (some w) = refl
both_settles g true (some d) none = refl
both_settles g true none (some w) = refl
both_settles g true none none = refl
both_settles g false dr pw = refl

rate_after-HasRate :
    (region : State) (ok : Bool) (o : Option Dr) (old : Dr)
    → HasRate region old
    → Supported region o
    → HasRate region (rate_after ok o old)
unfolding rate_after
rate_after-HasRate region true (some d) old h s = s
rate_after-HasRate region true none old h s = h
rate_after-HasRate region false o old h s = h

-- The answer to each request of the block.
link_adr_answer : Bool → Option Dr → Option (Option ℕ) → Creator
unfolding set_tx_power_ack set_data_rate_ack set_channel_mask_ack
link_adr_answer mask_ok dr pw =
    set_tx_power_ack (is_some pw)
      (set_data_rate_ack (is_some dr) (set_channel_mask_ack mask_ok new_link_adr_ans))

-- In a well-formed region, with a present data rate that the region has, a mask of nine bytes and
-- a queue of at most 15, the end of a block of LinkADRReq never panics, whatever the last request
-- holds. If the mask, the data rate and the power are all acceptable, the three are taken together;
-- if one of them is not, neither the configuration nor the region changes. The data rate is one of
-- the region afterwards, the queue is still within 15 bytes, and the count of requests restarts.
pub link_adr_finish-Decided :
    (vec : BoundedVec) (g : Progress) (b0 b1 b2 b3 : ℕ)
    → IsRegion g.region
    → HasRate g.region g.settings.data_rate
    → length g.mask ≡ 9
    → length g.uplink.pending ≤ 15
    → (mask_ok : Bool) × (dr : Option Dr) × (g' : Progress) × (link_adr_rate g.settings g.region
          (from_u8 (b0 / 16))
        ≡ ret dr)
      × (channel_mask_validate g.region g.mask dr ≡ ret mask_ok)
      × (link_adr_finish vec (b0 ∷ b1 ∷ b2 ∷ b3 ∷ []) g ≡ ret g')
      × Decided g mask_ok dr (link_adr_power g.settings g.region (from_u8 (b0 % 16))) g'
unfolding link_adr_finish link_adr_data_rate link_adr_tx_power byte_at settled link_adr_answer
link_adr_finish-Decided vec g b0 b1 b2 b3 w h m q =
    let (dr, e, s) = link_adr_rate-Supported g.settings g.region (from_u8 (b0 / 16)) h in
    let (ok, v) =
      channel_mask_validate-returns g.region g.mask dr w m (Supported-Within g.region dr s) in
    let pw = link_adr_power g.settings g.region (from_u8 (b0 % 16)) in
    let (u, a, k) =
      queue_answers-fits vec g.num_adrreq (link_adr_answer ok dr pw) (settled g ok dr pw) q in
    (
      ok,
      dr,
      record (settled g ok dr pw) { uplink = u; num_adrreq = 0 },
      e,
      v,
      rw (e, v, both_settles g ok dr pw, a) refl,
      record {
        settings = refl;
        region = refl;
        supported =
            rate_after-HasRate g.region (ok && is_some dr && is_some pw) dr g.settings.data_rate h
              s;
        fits = k;
        restarted = refl;
      },
    )
