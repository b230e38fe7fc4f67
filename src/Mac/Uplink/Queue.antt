-- ===== src/Mac/Uplink/Queue.antt =====
-- The uplink buffer is a queue of MAC commands: the bytes of `pending` stand for a list of
-- commands, and each operation is the corresponding one on that list.
use lora_rs.Common.{
  ℕ, suc, ◌+◌, ◌≤◌, ◌≡◌, refl, sym, ap, ◌∙◌, Bool, true, List, [], ◌∷◌, ◌++◌, map, arith, ltb,
  if◌then◌else◌, length, length-append, filter, All, All-append, ret, inl, inr, Bool-cases,
}
use mathlib.Core.List.{append-nil, append_assoc}
use lora_rs.External.{BoundedVec}
use lora_rs.Encoding.MacCommands.{
  Serializable, UplinkMacCommand, serialize_uplink, parse_uplink, commands,
}
use lora_rs.Encoding.MacCommands.RoundTrip.{
  command_bytes, stream_bytes, IsUplink, uplink_reads_back,
}
use lora_rs.Mac.Uplink.{
  Uplink, is_sticky, add_mac_command, clear_mac_commands, push_command, rewrite,
}

abbrev pub queue_bytes : List UplinkMacCommand → List ℕ
queue_bytes cs = stream_bytes (map serialize_uplink cs)

-- The buffer holds exactly the commands `cs`, in order.
pub record Holds (u : Uplink) (cs : List UplinkMacCommand) : Type 0 where
  pub bytes : u.pending ≡ queue_bytes cs
  pub wire : All IsUplink cs
  pub fits : length u.pending ≤ 15

-- What the queue is after a command was offered to it.
abbrev pub offered : Uplink → List UplinkMacCommand → UplinkMacCommand → List UplinkMacCommand
offered u cs c =
    if ltb (length u.pending + length (serialize_uplink c).payload_bytes) 15
    then cs ++ (c ∷ [])
    else cs

queue_bytes-append :
    (cs ds : List UplinkMacCommand) → queue_bytes (cs ++ ds) ≡ queue_bytes cs ++ queue_bytes ds
queue_bytes-append [] ds = refl
queue_bytes-append (c ∷ cs) ds =
    ap (◌++◌ (command_bytes (serialize_uplink c))) (queue_bytes-append cs ds)
    ∙ sym (append_assoc (command_bytes (serialize_uplink c)) (queue_bytes cs) (queue_bytes ds))

length-queue_bytes-filter :
    (p : UplinkMacCommand → Bool) (cs : List UplinkMacCommand)
    → length (queue_bytes (filter p cs)) ≤ length (queue_bytes cs)
length-queue_bytes-filter p [] = omega arith
length-queue_bytes-filter p (c ∷ cs) = ground (
  arith,
  length-queue_bytes-filter p cs,
  length-append (serialize_uplink c).payload_bytes (queue_bytes (filter p cs)),
  length-append (serialize_uplink c).payload_bytes (queue_bytes cs),
)

All-filter :
    (p : UplinkMacCommand → Bool) (cs : List UplinkMacCommand)
    → All IsUplink cs
    → All IsUplink (filter p cs)
All-filter p [] h = tt
All-filter p (c ∷ cs) h = ground (arith, All-filter p cs h.1)

-- A buffer that holds `cs` is read as `cs`: so the network gets these commands.
pub commands-Holds :
    (u : Uplink) (cs : List UplinkMacCommand) → Holds u cs → commands parse_uplink u.pending ≡ cs
unfolding commands
commands-Holds u cs h =
    ap (commands parse_uplink) (h.bytes ∙ sym (append-nil (queue_bytes cs)))
    ∙ uplink_reads_back cs [] h.wire
    ∙ append-nil cs

module _ (vec : BoundedVec) where
  pub push_command_fits :
      (xs : List ℕ) (s : Serializable)
      → length xs + suc (length s.payload_bytes) ≤ 15
      → push_command vec xs s ≡ ret (xs ++ command_bytes s)
  unfolding push_command
  push_command_fits xs s h = ground (
    arith,
    vec.push_fits ℕ 15 xs s.cid (omega arith),
    vec.extend_fits ℕ 15 (xs ++ s.cid ∷ []) s.payload_bytes
        (omega (arith, length-append xs (s.cid ∷ []))),
    append_assoc xs (s.cid ∷ []) s.payload_bytes,
  )

  rewrite-queue_bytes :
      (cs : List UplinkMacCommand) (kept : List ℕ) (units : List (Unit {0}))
      → length kept + length (queue_bytes cs) ≤ 15
      → length units ≤ length kept
      → rewrite vec cs kept units ≡ ret (kept ++ queue_bytes cs)
  unfolding rewrite
  rewrite-queue_bytes [] kept units h k = rw (append-nil kept)
  rewrite-queue_bytes (c ∷ cs) kept units h k =
      let s = serialize_uplink c in
      let e = length-append s.payload_bytes (queue_bytes cs) in
      let next = kept ++ command_bytes s in
      rw
        (push_command_fits kept s (omega arith), vec.push_fits (Unit {0}) 15 units tt (omega arith))
        (rewrite-queue_bytes cs next (units ++ tt ∷ [])
            (omega (arith, length-append kept (command_bytes s)))
            (omega (arith, length-append kept (command_bytes s), length-append units (tt ∷ [])))
          ∙ ap ret (append_assoc kept (command_bytes s) (queue_bytes cs)))

  -- Offering a command never panics. Where the command and its identifier fit into the 15 bytes of
  -- FOpts, it joins the queue at the end; otherwise the queue stays as it was. The
  -- acknowledgment flag does not change.
  pub add_mac_command-Holds :
      (u : Uplink) (cs : List UplinkMacCommand) (c : UplinkMacCommand)
      → Holds u cs
      → IsUplink c
      → (u' : Uplink) × (add_mac_command vec u (serialize_uplink c) ≡ ret u')
        × Holds u' (offered u cs c)
        × (u'.confirmed ≡ u.confirmed)
  unfolding add_mac_command
  add_mac_command-Holds u cs c h w =
      let s = serialize_uplink c in
      elim (Bool-cases (ltb (length u.pending + length s.payload_bytes) 15)) [
        | inl room ↦ (
          record u { pending = u.pending ++ command_bytes s },
          rw (room, push_command_fits u.pending s (ground arith)),
          rw room (record {
            bytes =
                ap (λ xs. xs ++ command_bytes s) h.bytes
                ∙ ap (◌++◌ (queue_bytes cs)) (sym (append-nil (command_bytes s)))
                ∙ sym (queue_bytes-append cs (c ∷ []));
            wire = All-append IsUplink cs (c ∷ []) h.wire (w, tt);
            fits = ground (arith, length-append u.pending (command_bytes s));
          }),
          refl,
        )
        | inr full ↦ (u, rw full, rw full h, refl)
      ]

  -- Clearing with `retain_acks` never panics; it keeps the answers that are repeated until they
  -- are acknowledged (DlChannelAns, RXParamSetupAns, RXTimingSetupAns), in their order, and drops
  -- every other command. The acknowledgment flag does not change.
  pub clear_mac_commands-Holds :
      (u : Uplink) (cs : List UplinkMacCommand)
      → Holds u cs
      → (u' : Uplink) × (clear_mac_commands vec true u ≡ ret u')
        × Holds u' (filter is_sticky cs)
        × (u'.confirmed ≡ u.confirmed)
  unfolding clear_mac_commands
  clear_mac_commands-Holds u cs h =
      let sticky = filter is_sticky cs in
      let bound : length (queue_bytes sticky) ≤ 15 =
        omega (arith, length-queue_bytes-filter is_sticky cs, ap length h.bytes, h.fits) in
      (
        record u { pending = queue_bytes sticky },
        rw (
          commands-Holds u cs h,
          rewrite-queue_bytes sticky [] [] (omega (arith, bound)) (omega arith),
        ),
        record { bytes = refl; wire = All-filter is_sticky cs h.wire; fits = bound },
        refl,
      )
