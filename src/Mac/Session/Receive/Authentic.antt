-- ===== src/Mac/Session/Receive/Authentic.antt =====
-- What a downlink that `Session::handle_rx` reports has shown, and that it is reported once.
use lora_rs.Common.{
  ℕ, ◌+◌, ◌≤◌, ◌≡◌, refl, sym, ap, ◌∙◌, inl, inr, Bool, true, false, some, List, Ensures,
  >>=-Ensures, ret-Ensures, Bool-cases, ==_iff, ◌==◌,
}
use lora_rs.External.{BoundedVec, Crypto}
use lora_rs.Encoding.Frame.Layout.{DataView, fhdr, f_opts, f_port}
use lora_rs.Encoding.Frame.Data.{
  decrypt_in_place, FrmPayload, frm_none, frm_data, frm_mac_commands, frm_payload,
}
use lora_rs.Mac.Session.{Session, Response, no_update, session_expired, downlink_received}
use lora_rs.Encoding.MacCommands.{commands, parse_downlink}
use lora_rs.Mac.Session.Commands.{handle_downlink_macs}
use lora_rs.Mac.Session.Receive.{
  Device, run_macs, run_payload, run_frame, store_downlink, deliver, unwrap_view, record_downlink,
  run_unless, mark_confirmation, accept,
}

module _ (vec : BoundedVec) (crypto_of : List ℕ → Crypto) (capacity snr : ℕ) where
  -- What the MAC commands leave of the session.
  record Counters (s t : Session) : Type 0 where
    down : t.fcnt_down ≡ s.fcnt_down
    up : t.fcnt_up ≡ s.fcnt_up
    adr : t.adr_ack_cnt ≡ s.adr_ack_cnt
    key : t.nwkskey ≡ s.nwkskey

  run_macs-Counters :
      (bytes : List ℕ) (d : Device)
      → Ensures (run_macs vec crypto_of capacity snr bytes d) (λ d'. Counters d.session d'.session)
  unfolding run_macs
  run_macs-Counters bytes d =
      >>=-Ensures
        (handle_downlink_macs vec d.session.uplink d.settings d.region
          (commands parse_downlink bytes) snr)
        _ _ (λ after e. ret-Ensures _ _ (record { down = refl; up = refl; adr = refl; key = refl }))

  run_payload-Counters :
      (payload : FrmPayload) (d : Device)
      → Ensures
          (run_payload vec crypto_of capacity snr payload d)
          (λ d'. Counters d.session d'.session)
  unfolding run_payload
  run_payload-Counters (frm_mac_commands cmds) d = run_macs-Counters cmds d
  run_payload-Counters (frm_data bytes) d =
      ret-Ensures _ _ (record { down = refl; up = refl; adr = refl; key = refl })
  run_payload-Counters frm_none d =
      ret-Ensures _ _ (record { down = refl; up = refl; adr = refl; key = refl })

  run_frame-Counters :
      (plain : DataView) (d : Device)
      → Ensures (run_frame vec crypto_of capacity snr plain d) (λ d'. Counters d.session d'.session)
  unfolding run_frame
  run_frame-Counters plain d = >>=-Ensures (fhdr plain) _ _ (λ header e.
      >>=-Ensures (f_opts header) _ _ (λ opts e.
        >>=-Ensures (run_macs vec crypto_of capacity snr opts d) _ _ (λ d' ran.
          let c = run_macs-Counters opts d d' ran in
          >>=-Ensures (frm_payload plain) _ _ (λ payload e. λ d'' ran'.
            let c' = run_payload-Counters payload d' d'' ran' in
            record {
              down = c'.down ∙ c.down;
              up = c'.up ∙ c.up;
              adr = c'.adr ∙ c.adr;
              key = c'.key ∙ c.key;
            }))))

  -- The end of an accepted downlink.
  abbrev Delivered : ℕ → Session → Response × Device → Type 0
  Delivered full s (downlink_received n, d') =
      (n ≡ full)
      × (d'.session.fcnt_down ≡ s.fcnt_down)
      × (d'.session.fcnt_up ≡ s.fcnt_up + 1)
      × (d'.session.adr_ack_cnt ≡ s.adr_ack_cnt)
  Delivered full s (session_expired, d') = s.fcnt_up ≡ 0xffff_ffff
  Delivered full s (other, d') = 1 ≤ 0

  deliver-Delivered :
      (plain : DataView) (full : ℕ) (d : Device)
      → Ensures (deliver vec crypto_of capacity snr plain full d) (Delivered full d.session)
  unfolding deliver
  deliver-Delivered plain full d = elim (Bool-cases (d.session.fcnt_up == 0xffff_ffff)) [
    | inl e ↦ rw e (ret-Ensures _ _ ((==_iff d.session.fcnt_up 0xffff_ffff).0 e))
    | inr e ↦ rw e (
        >>=-Ensures (f_port plain) _ _ (λ port e. >>=-Ensures (frm_payload plain) _ _ (λ payload e.
          >>=-Ensures (store_downlink vec crypto_of capacity snr port payload d.downlinks) _ _
            (λ stored e. ret-Ensures _ _ (refl, refl, refl, refl)))))
  ]

  run_unless-Counters :
      (ignore_mac : Bool) (plain : DataView) (d : Device)
      → Ensures
          (run_unless vec crypto_of capacity snr ignore_mac plain d)
          (λ d'. Counters d.session d'.session)
  unfolding run_unless
  run_unless-Counters true plain d =
      ret-Ensures _ _ (record { down = refl; up = refl; adr = refl; key = refl })
  run_unless-Counters false plain d = run_frame-Counters plain d

  mark-Counters :
      (confirmed : Bool) (d : Device)
      → Counters d.session (mark_confirmation vec crypto_of capacity snr confirmed d).session
  unfolding mark_confirmation
  mark-Counters true d = record { down = refl; up = refl; adr = refl; key = refl }
  mark-Counters false d = record { down = refl; up = refl; adr = refl; key = refl }

  -- What the session has after an accepted downlink.
  abbrev pub Accepted : ℕ → Session → Response × Device → Type 0
  Accepted full s (downlink_received n, d') =
      (n ≡ full)
      × (d'.session.fcnt_down ≡ some full)
      × (d'.session.fcnt_up ≡ s.fcnt_up + 1)
      × (d'.session.adr_ack_cnt ≡ 0)
  Accepted full s (session_expired, d') = s.fcnt_up ≡ 0xffff_ffff
  Accepted full s (other, d') = 1 ≤ 0

  Delivered-Accepted :
      (full : ℕ) (s t : Session) (a : Response) (d' : Device)
      → t.fcnt_down ≡ some full
      → t.fcnt_up ≡ s.fcnt_up
      → t.adr_ack_cnt ≡ 0
      → Delivered full t (a, d')
      → Accepted full s (a, d')
  Delivered-Accepted full s t (downlink_received n) d' down up adr (e, f, g, h) =
      (e, f ∙ down, g ∙ ap (λ (k : ℕ). k + 1) up, h ∙ adr)
  Delivered-Accepted full s t session_expired d' down up adr e = sym up ∙ e
  Delivered-Accepted full s t no_update d' down up adr e = e
  Delivered-Accepted full s t _ d' down up adr e = e

  pub accept-Accepted :
      (bytes : List ℕ) (confirmed ignore_mac : Bool) (full : ℕ) (d : Device)
      → Ensures
          (accept vec crypto_of capacity snr bytes confirmed ignore_mac full d)
          (Accepted full d.session)
  unfolding accept record_downlink
  accept-Accepted bytes confirmed ignore_mac full d =
      >>=-Ensures
        (decrypt_in_place bytes (some (crypto_of d.session.nwkskey))
          (some (crypto_of d.session.appskey)) full)
        _ _
        (λ result e. >>=-Ensures (unwrap_view vec crypto_of capacity snr result) _ _ (λ plain e.
          >>=-Ensures
            (run_unless vec crypto_of capacity snr ignore_mac plain
              (record_downlink vec crypto_of capacity snr full plain d))
            _ _
            (λ d' ran. λ out h.
              let c =
                run_unless-Counters ignore_mac plain
                  (record_downlink vec crypto_of capacity snr full plain d) d' ran in
              let m = mark-Counters confirmed d' in
              Delivered-Accepted full d.session
                (mark_confirmation vec crypto_of capacity snr confirmed d').session out.0 out.1
                (m.down ∙ c.down) (m.up ∙ c.up) (m.adr ∙ c.adr)
                (deliver-Delivered plain full
                  (mark_confirmation vec crypto_of capacity snr confirmed d') out h))))
