-- ===== src/Mac/Session/Expiry.antt =====
-- The end of a transmission without a downlink, and the ADR back-off: `rx2_complete` and
-- `next_lower_datarate`.
use lora_rs.Common.{
  ℕ, zero, suc, ◌+◌, ◌-◌, ◌%◌, ◌^◌, ◌≤◌, ◌<◌, ◌≡◌, refl, ◌∙◌, Bool, true, false, ◌&&◌, Option, none,
  some, ltb, leb, ◌==◌, if◌then◌else◌, is_some, ret, arith, ==_iff, Bool-cases, inl, inr,
}
use lora_rs.Encoding.Types.{Dr, to_u8, from_u8}
use lora_rs.Encoding.Types.Values.{to_u8-lt, to_u8-from_u8}
use lora_rs.Region.Configuration.{State}
use lora_rs.Region.Supported.{rate_at, get_datarate-rate_at}
use lora_rs.Mac.Settings.{Settings}
use lora_rs.Mac.Session.{
  Session, Response, no_ack, rx_complete, highest_below, next_lower_datarate, back_off,
  saturating_suc, rx2_complete,
}

abbrev has_rate : State → ℕ → Bool
has_rate region k = is_some (rate_at region k)

-- The highest data rate below `n` that the region has, if there is one.
abbrev pub HighestBelow : State → ℕ → Option Dr → Type 0
HighestBelow region n none = (k : ℕ) → k < n → has_rate region k ≡ false
HighestBelow region n (some d) =
    (to_u8 d < n)
    × (has_rate region (to_u8 d) ≡ true)
    × ((k : ℕ) → to_u8 d < k → k < n → has_rate region k ≡ false)

absent_below :
    (region : State) (lo n : ℕ)
    → has_rate region n ≡ false
    → ((k : ℕ) → lo < k → k < n → has_rate region k ≡ false)
    → (k : ℕ) → lo < k
    → k < suc n
    → has_rate region k ≡ false
absent_below region lo n off below k h lt = elim (Bool-cases (k == n)) [
  | inl e ↦ rw ((==_iff k n).0 e) off
  | inr ne ↦ below k h (ground arith)
]

HighestBelow-suc :
    (region : State) (n : ℕ) (d : Option Dr)
    → has_rate region n ≡ false
    → HighestBelow region n d
    → HighestBelow region (suc n) d
HighestBelow-suc region n none off h = λ k lt. elim (Bool-cases (k == n)) [
  | inl e ↦ rw ((==_iff k n).0 e) off
  | inr ne ↦ h k (ground arith)
]
HighestBelow-suc region n (some d) off h =
    (omega (arith, h.0), h.1, absent_below region (to_u8 d) n off h.2)

highest_below-HighestBelow :
    (region : State) (n : ℕ)
    → n ≤ 15
    → (d : Option Dr) × (highest_below region n ≡ ret d) × HighestBelow region n d
unfolding highest_below
highest_below-HighestBelow region zero h = (none, refl, λ k lt. absurd (omega arith))
highest_below-HighestBelow region (suc n) h =
    let lookup = get_datarate-rate_at region n (omega arith) in
    elim (Bool-cases (has_rate region n)) [
      | inl has ↦ (
        some (from_u8 n),
        rw (lookup, has) refl,
        rw (number n h) (omega arith, has, λ k lo hi. absurd (omega arith)),
      )
      | inr off ↦
          (let (d, e, b) = highest_below-HighestBelow region n (omega arith) in
            (d, rw (lookup, off) e, HighestBelow-suc region n d off b))
    ]
  where
    number : (n : ℕ) → suc n ≤ 15 → to_u8 (from_u8 n) ≡ n
    number n h = to_u8-from_u8 n ∙ omega arith

-- In every region and for every data rate, `next_lower_datarate` returns: the highest of the lower
-- data rates that the region has, or none exactly when it has no lower one.
pub next_lower_datarate-HighestBelow :
    (region : State) (current : Dr)
    → (d : Option Dr) × (next_lower_datarate region current ≡ ret d)
      × HighestBelow region (to_u8 current) d
unfolding next_lower_datarate
next_lower_datarate-HighestBelow region current =
    highest_below-HighestBelow region (to_u8 current) (omega (arith, to_u8-lt current))

-- The data rate after `cnt` uplinks without a downlink: lowered by one step at 96, 128, 160, …
-- uplinks, where the region has a lower one.
unfoldable pub stepped : ℕ → Option Dr → Dr → Dr
stepped cnt none dr = dr
stepped cnt (some lower) dr = if leb 96 cnt && cnt % 32 == 0 then lower else dr

pub record Completed (s : Session) (c : Settings) (region : State) (lower : Option Dr)
    (a : Response) (s' : Session) (c' : Settings) : Type 0 where
  pub lowest : HighestBelow region (to_u8 c.data_rate) lower
  pub advanced : s'.fcnt_up ≡ s.fcnt_up + 1
  pub no_wrap : s'.fcnt_up < 2 ^ 32
  pub counted : s'.adr_ack_cnt ≡ (
      if c.adr_enabled && ltb s.adr_ack_cnt 0xffff_ffff then s.adr_ack_cnt + 1 else s.adr_ack_cnt)
  pub session_kept : s' ≡ record s { fcnt_up = s'.fcnt_up; adr_ack_cnt = s'.adr_ack_cnt }
  pub settings : c' ≡ record c {
    data_rate = if c.adr_enabled then stepped s'.adr_ack_cnt lower c.data_rate else c.data_rate;
  }
  pub answer : a ≡ (if s.confirmed then no_ack else rx_complete)

pub back_off-stepped :
    (region : State) (c : Settings) (cnt : ℕ) (lower : Option Dr)
    → next_lower_datarate region c.data_rate ≡ ret lower
    → back_off region c cnt ≡ ret (record c { data_rate = stepped cnt lower c.data_rate })
unfolding back_off stepped
back_off-stepped region c cnt none e = elim (Bool-cases (leb 96 cnt && (cnt - 64) % 32 == 0)) [
  | inl b ↦ rw (b, e) refl
  | inr b ↦ rw b refl
]
back_off-stepped region c cnt (some d) e = elim (Bool-cases (leb 96 cnt && (cnt - 64) % 32 == 0)) [
  | inl b ↦ rw (b, e, same ∙ b) refl
  | inr b ↦ rw (b, same ∙ b) refl
]
  where
    same : (leb 96 cnt && cnt % 32 == 0) ≡ (leb 96 cnt && (cnt - 64) % 32 == 0)
    same = ground arith

-- A session whose uplink counter is below its last value completes a transmission without a
-- downlink in every region: the counter advances by one and does not wrap, the count of uplinks
-- without a downlink grows while ADR is on (up to its last value), the data rate goes to the next
-- lower one of the region exactly at 96, 128, 160, … such uplinks with ADR on, nothing else of
-- the session or the configuration changes, and the answer says whether an acknowledgment is
-- missing.
pub rx2_complete-Completed :
    (s : Session) (c : Settings) (region : State)
    → s.fcnt_up < 0xffff_ffff
    → s.adr_ack_cnt < 2 ^ 32
    → (a : Response) × (s' : Session) × (c' : Settings) × (lower : Option Dr) × (rx2_complete s c
          region
        ≡ ret (a, s', c'))
      × Completed s c region lower a s' c'
unfolding rx2_complete saturating_suc
rx2_complete-Completed s c region h k =
    let (lower, e, b) = next_lower_datarate-HighestBelow region c.data_rate in
    elim (Bool-cases c.adr_enabled) [
      | inl on ↦ (
        (if s.confirmed then no_ack else rx_complete),
        record s { fcnt_up = s.fcnt_up + 1; adr_ack_cnt = saturating_suc s.adr_ack_cnt },
        record c { data_rate = stepped (saturating_suc s.adr_ack_cnt) lower c.data_rate },
        lower,
        rw
            (
              more,
              back_off-stepped region c
                  (if c.adr_enabled then saturating_suc s.adr_ack_cnt else s.adr_ack_cnt) lower e,
              on,
            )
            refl,
        record {
          lowest = b;
          advanced = refl;
          no_wrap = omega arith;
          counted = ground arith;
          session_kept = refl;
          settings = rw on refl;
          answer = refl;
        },
      )
      | inr off ↦ (
        (if s.confirmed then no_ack else rx_complete),
        record s { fcnt_up = s.fcnt_up + 1 },
        c,
        lower,
        rw (more, off) refl,
        record {
          lowest = b;
          advanced = refl;
          no_wrap = omega arith;
          counted = rw off refl;
          session_kept = refl;
          settings = rw off refl;
          answer = refl;
        },
      )
    ]
  where
    more : (s.fcnt_up == 0xffff_ffff) ≡ false
    more = ground arith
