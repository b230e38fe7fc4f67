-- ===== src/Mac/Session/Commands.antt =====
-- `Session::handle_downlink_macs` of lorawan-device/src/mac/session.rs: what the device does with
-- the MAC commands of a downlink.
pub mod Returns
pub mod LinkAdr
use lora_rs.Common.{
  ℕ, zero, suc, ◌+◌, Bool, true, false, Option, none, some, List, [], ◌∷◌, is_some, if◌then◌else◌,
  Exec, ret, ◌>>=◌, ok, err,
}
use lora_rs.External.{BoundedVec}
use lora_rs.Encoding.Types.{
  Dr, dr15, to_u8, ChannelMask, channel_mask_control, rx1_dr_offset, rx2_data_rate,
}
use lora_rs.Encoding.MacCommands.{
  DownlinkMacCommand, link_adr_req, rx_param_setup_req, dev_status_req, new_channel_req,
  rx_timing_setup_req, dl_channel_req,
}
use lora_rs.Encoding.MacCommands.Payloads.{
  link_adr_data_rate, link_adr_tx_power, link_adr_channel_mask, link_adr_redundancy,
  rx_param_dl_settings, rx_param_frequency, new_channel_channel_index, new_channel_frequency,
  new_channel_data_rate_range, dl_channel_channel_index, dl_channel_frequency, rx_timing_delay,
}
use lora_rs.Encoding.MacCommands.Creators.{
  Creator, serialize, new_link_adr_ans, set_channel_mask_ack, set_data_rate_ack, set_tx_power_ack,
  new_rx_param_setup_ans, set_channel_ack, set_rx2_data_rate_ack, set_rx1_data_rate_offset_ack,
  new_new_channel_ans, new_dl_channel_ans, set_channel_frequency_ack, set_data_rate_range_ack,
  set_uplink_frequency_exists_ack, new_rx_timing_setup_ans, new_dev_status_ans, set_battery,
  set_margin,
}
use lora_rs.Region.Configuration.{
  State, get_datarate, check_tx_power, frequency_valid, has_fixed_channel_plan,
  rx1_dr_offset_validate, channel_mask_get, channel_mask_set, channel_mask_update,
  channel_mask_validate, channel_dl_update, handle_new_channel,
}
use lora_rs.Mac.Uplink.{Uplink, add_mac_command}
use lora_rs.Mac.Settings.{Settings, del_to_delay_ms}

-- What the commands change: the session's uplink queue, the configuration and the region, and the
-- two locals of the function, the mask being built and the number of LinkADRReq in the block.
pub record Progress : Type 0 where
  pub uplink : Uplink
  pub settings : Settings
  pub region : State
  pub mask : ChannelMask
  pub num_adrreq : ℕ

-- The data rate of a LinkADRReq: 15 keeps the present one.
unfoldable pub link_adr_rate : Settings → State → Dr → Exec (Option Dr)
link_adr_rate c region dr15 = ret (some c.data_rate)
link_adr_rate c region n = do
  found ← get_datarate region (to_u8 n)
  ret (if is_some found then some n else none)

unfoldable pub link_adr_power : Settings → State → Dr → Option (Option ℕ)
unfolding to_u8
link_adr_power c region dr15 = some c.tx_power
link_adr_power c region p = check_tx_power region (to_u8 p)

-- The RX2 data rate of an RXParamSetupReq.
rx_param_rate : Settings → State → Dr → Exec (Option (Option Dr))
unfolding to_u8
rx_param_rate c region dr15 = ret (some c.rx2_data_rate)
rx_param_rate c region n = do
  found ← get_datarate region (to_u8 n)
  ret (if is_some found then some (some n) else none)

-- `if ack && let (Some(a), Some(b)) = …`
both : {A B C : Type 0} → Bool → Option A → Option B → C → (A → B → C) → C
both true (some a) (some b) otherwise f = f a b
both true (some a) none otherwise f = otherwise
both true none b otherwise f = otherwise
both false a b otherwise f = otherwise

module _ (vec : BoundedVec) where
  unfoldable pub queue_answer : Creator → Progress → Exec Progress
  unfolding add_mac_command serialize
  queue_answer cmd g = do
    uplink ← add_mac_command vec g.uplink (serialize cmd)
    ret (record g { uplink = uplink })

  -- `for _ in 0..n`
  unfoldable pub queue_answers : ℕ → Creator → Progress → Exec Progress
  unfolding queue_answer
  queue_answers zero cmd g = ret g
  queue_answers (suc n) cmd g = do g' ← queue_answer cmd g; queue_answers n cmd g'

  -- The margin is given by its two's complement byte, and a margin out of range is left at zero.
  dev_status : ℕ → Progress → Exec Progress
  unfolding queue_answer set_battery set_margin
  dev_status snr g =
      let cmd = set_battery 255 new_dev_status_ans in
      queue_answer (elim (set_margin snr cmd) [ ok c ↦ c | err e ↦ cmd ]) g

  dl_channel : List ℕ → Progress → Exec Progress
  unfolding queue_answer
  dl_channel payload g = if has_fixed_channel_plan g.region then ret g else (do
    i ← dl_channel_channel_index payload
    freq ← dl_channel_frequency payload
    (acks, region) ← channel_dl_update g.region i freq
    queue_answer
        (set_uplink_frequency_exists_ack acks.1
          (set_channel_frequency_ack acks.0 new_dl_channel_ans))
        (record g { region = region }))

  -- The end of a block of LinkADRReq: the last request decides.
  unfoldable pub link_adr_finish : List ℕ → Progress → Exec Progress
  unfolding link_adr_rate link_adr_power both queue_answers
  link_adr_finish payload g = do
    rate ← link_adr_data_rate payload
    dr ← link_adr_rate g.settings g.region rate
    power ← link_adr_tx_power payload
    let pw = link_adr_power g.settings g.region power
    cm_ack ← channel_mask_validate g.region g.mask dr
    let done : Progress = both cm_ack dr pw g λ new_dr new_pw. record g {
      settings = record g.settings { data_rate = new_dr; tx_power = new_pw };
      region = channel_mask_set g.region g.mask;
    }
    answered ←
        queue_answers g.num_adrreq
          (set_tx_power_ack (is_some pw)
            (set_data_rate_ack (is_some dr) (set_channel_mask_ack cm_ack new_link_adr_ans)))
          done
    ret (record answered { num_adrreq = 0 })

  -- `matches!(cmd_iter.peek(), Some(LinkADRReq(..)))`
  continues : List DownlinkMacCommand → Bool
  continues (link_adr_req p ∷ cs) = true
  continues cs = false

  unfoldable pub link_adr : List ℕ → List DownlinkMacCommand → Progress → Exec Progress
  unfolding link_adr_finish continues
  link_adr payload rest g = do
    redundancy ← link_adr_redundancy payload
    ch_mask ← link_adr_channel_mask payload
    updated ← channel_mask_update g.region g.mask (channel_mask_control redundancy) ch_mask
    let counted : Progress = record g {
      mask = (elim updated [ some m ↦ m | none ↦ g.mask ]);
      num_adrreq = g.num_adrreq + 1;
    }
    let finished = link_adr_finish payload counted
    if continues rest then ret counted else finished

  new_channel : List ℕ → Progress → Exec Progress
  unfolding queue_answer
  new_channel payload g = if has_fixed_channel_plan g.region then ret g else (do
    i ← new_channel_channel_index payload
    freq ← new_channel_frequency payload
    range ← new_channel_data_rate_range payload
    (acks, region) ←
        handle_new_channel g.region i freq (elim range [ ok b ↦ some b | err e ↦ none ])
    queue_answer
        (set_data_rate_range_ack acks.1 (set_channel_frequency_ack acks.0 new_new_channel_ans))
        (record g { region = region }))

  unfoldable pub rx_param_setup : List ℕ → Progress → Exec Progress
  unfolding queue_answer rx_param_rate both
  rx_param_setup payload g = do
    freq ← rx_param_frequency payload
    let freq_ack = frequency_valid g.region freq
    dl ← rx_param_dl_settings payload
    let offset = rx1_dr_offset_validate g.region (rx1_dr_offset dl)
    rate ← rx_param_rate g.settings g.region (rx2_data_rate dl)
    let done : Progress = both freq_ack rate offset g λ new_rate new_offset. record g {
      settings = record g.settings {
        rx2_data_rate = new_rate;
        rx2_frequency = some freq;
        rx1_dr_offset = new_offset;
      };
    }
    queue_answer
        (set_channel_ack freq_ack (
          set_rx2_data_rate_ack (is_some rate)
            (set_rx1_data_rate_offset_ack (is_some offset) new_rx_param_setup_ans)))
        done

  rx_timing_setup : List ℕ → Progress → Exec Progress
  unfolding queue_answer del_to_delay_ms
  rx_timing_setup payload g = do
    delay ← rx_timing_delay payload
    queue_answer new_rx_timing_setup_ans
        (record g { settings = record g.settings { rx1_delay = del_to_delay_ms delay } })

  -- One turn of the loop; `rest` is what the iterator still has.
  unfoldable pub handle_command :
      ℕ → DownlinkMacCommand → List DownlinkMacCommand → Progress → Exec Progress
  unfolding dev_status dl_channel link_adr new_channel rx_param_setup rx_timing_setup
  handle_command snr dev_status_req rest g = dev_status snr g
  handle_command snr (dl_channel_req p) rest g = dl_channel p g
  handle_command snr (link_adr_req p) rest g = link_adr p rest g
  handle_command snr (new_channel_req p) rest g = new_channel p g
  handle_command snr (rx_param_setup_req p) rest g = rx_param_setup p g
  handle_command snr (rx_timing_setup_req p) rest g = rx_timing_setup p g
  handle_command snr _ rest g = ret g

  unfoldable pub handle_all : ℕ → List DownlinkMacCommand → Progress → Exec Progress
  unfolding handle_command
  handle_all snr [] g = ret g
  handle_all snr (c ∷ cs) g = do g' ← handle_command snr c cs g; handle_all snr cs g'

  -- The commands are those of `parse_downlink_mac_commands` that parse.
  unfoldable pub handle_downlink_macs :
      Uplink → Settings → State → List DownlinkMacCommand → ℕ → Exec (Uplink × Settings × State)
  unfolding handle_all channel_mask_get
  handle_downlink_macs uplink c region cmds snr = do
    g ← handle_all snr cmds (record {
      uplink = uplink;
      settings = c;
      region = region;
      mask = channel_mask_get region;
      num_adrreq = 0;
    })
    ret (g.uplink, g.settings, g.region)
