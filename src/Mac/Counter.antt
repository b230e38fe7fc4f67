-- ===== src/Mac/Counter.antt =====
-- The downlink frame counter: `next_fcnt_down` of lorawan-device/src/mac/session.rs.
use lora_rs.Common.{
  ℕ, ◌+◌, ◌-◌, ◌*◌, ◌/◌, ◌%◌, ◌^◌, ◌≤◌, ◌<◌, ◌≡◌, ◌↔◌, ◌&&◌, Option, none, some, ltb, leb,
  if◌then◌else◌, arith,
}

abbrev pub max_fcnt_gap : ℕ
max_fcnt_gap = 16384

-- The counter that `wire` stands for, next after `last`: `u32` arithmetic, with the wrap-around of
-- `wrapping_add`.
unfoldable pub reconstruct : ℕ → ℕ → ℕ
reconstruct last wire =
    let high = last / 65536 * 65536 in
    if leb (last % 65536) wire then high + wire else (high + 65536) % 2 ^ 32 + wire

-- `checked_sub` gives `None` below zero, and the gap is tested otherwise.
unfoldable pub next_fcnt_down : Option ℕ → ℕ → Option ℕ
unfolding reconstruct
next_fcnt_down none wire = some wire
next_fcnt_down (some last) wire =
    if ltb (reconstruct last wire) last
    then none
    else (let gap = reconstruct last wire - last in
        if ltb 0 gap && leb gap max_fcnt_gap then some (reconstruct last wire) else none)

-- The counters that a receiver in step with the sender accepts next: above the last one, by no
-- more than the largest gap, and still 32 bits wide.
pub record Fresh (last full : ℕ) : Type 0 where
  pub after : last < full
  pub near : full ≤ last + max_fcnt_gap
  pub fits : full < 2 ^ 32

-- With a last counter of 32 bits and a wire value of 16 bits, `next_fcnt_down` returns a counter
-- exactly when that counter is fresh and has the wire value as its low 16 bits. So a frame counter
-- in the window is always reconstructed, and a replay, a stale counter or one that would wrap
-- around is always dropped.
pub next_fcnt_down-Fresh :
    (last wire full : ℕ)
    → last < 2 ^ 32
    → wire < 65536
    → (next_fcnt_down (some last) wire ≡ some full) ↔ (Fresh last full × (full % 65536 ≡ wire))
unfolding next_fcnt_down reconstruct
next_fcnt_down-Fresh last wire full hl hw = (
  λ e. (record { after = ground arith; near = ground arith; fits = ground arith }, ground arith),
  λ f. ground (arith, f.0.after, f.0.near, f.0.fits, f.1),
)
