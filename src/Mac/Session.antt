-- ===== src/Mac/Session.antt =====
-- lorawan-device/src/mac/session.rs: the session of a device that has joined, its counters and the
-- end of a transmission without a downlink.
pub mod Expiry
pub mod Commands
pub mod Transmit
pub mod Receive
mod Tests
use lora_rs.Common.{
  ℕ, zero, suc, ◌+◌, ◌-◌, ◌%◌, ◌^◌, Bool, false, ◌&&◌, Option, none, some, List, ltb, leb, ◌==◌,
  if◌then◌else◌, is_some, Exec, ret, ◌>>=◌,
}
use lora_rs.Encoding.Types.{Dr, to_u8, from_u8}
use lora_rs.Region.Configuration.{State, get_datarate}
use lora_rs.Mac.Uplink.{Uplink, empty_uplink}
use lora_rs.Mac.Settings.{Settings}

-- The keys are their sixteen bytes, the address its four.
pub record Session : Type 0 where
  pub uplink : Uplink
  pub confirmed : Bool
  pub nwkskey : List ℕ
  pub appskey : List ℕ
  pub devaddr : List ℕ
  pub fcnt_up : ℕ
  pub fcnt_down : Option ℕ
  pub adr_ack_cnt : ℕ

unfoldable pub new : List ℕ → List ℕ → List ℕ → Session
new nwkskey appskey devaddr = record {
  uplink = empty_uplink;
  confirmed = false;
  nwkskey = nwkskey;
  appskey = appskey;
  devaddr = devaddr;
  fcnt_up = 0;
  fcnt_down = none;
  adr_ack_cnt = 0;
}

-- `mac::Response`
pub data Response : Type 0 where
  no_ack session_expired no_join_accept join_success no_update rx_complete link_check_req : Response
  downlink_received : ℕ → Response

abbrev pub adr_ack_limit : ℕ
adr_ack_limit = 64

abbrev pub adr_ack_delay : ℕ
adr_ack_delay = 32

-- `for candidate in (0..n).rev()`: the highest data rate below `n` that the region has.
unfoldable pub highest_below : State → ℕ → Exec (Option Dr)
unfolding get_datarate from_u8
highest_below region zero = ret none
highest_below region (suc candidate) = do
  found ← get_datarate region candidate
  let lower = highest_below region candidate
  if is_some found then ret (some (from_u8 candidate)) else lower

unfoldable pub next_lower_datarate : State → Dr → Exec (Option Dr)
unfolding highest_below to_u8
next_lower_datarate region current = highest_below region (to_u8 current)

-- The data rate once the uplinks without a downlink are counted in `cnt`.
unfoldable pub back_off : State → Settings → ℕ → Exec Settings
unfolding next_lower_datarate
back_off region c cnt =
    if leb (adr_ack_limit + adr_ack_delay) cnt && (cnt - adr_ack_limit) % adr_ack_delay == 0
    then (do
      lower ← next_lower_datarate region c.data_rate
      ret (elim lower [ some dr ↦ record c { data_rate = dr } | none ↦ c ]))
    else ret c

-- `u32::saturating_add(1)`
unfoldable pub saturating_suc : ℕ → ℕ
saturating_suc n = if ltb n 0xffff_ffff then n + 1 else 0xffff_ffff

-- `Session::rx2_complete`; the counter is not advanced past its last value.
unfoldable pub rx2_complete : Session → Settings → State → Exec (Response × Session × Settings)
unfolding back_off saturating_suc
rx2_complete s c region =
    let cnt = if c.adr_enabled then saturating_suc s.adr_ack_cnt else s.adr_ack_cnt in
    let counted = record s { fcnt_up = s.fcnt_up + 1; adr_ack_cnt = cnt } in
    if s.fcnt_up == 0xffff_ffff then ret (session_expired, s, c) else (do
      c' ← if c.adr_enabled then back_off region c cnt else ret c
      ret (if s.confirmed then no_ack else rx_complete, counted, c'))
