-- ===== src/Encoding/MacCommands/Payloads.antt =====
-- The accessors of the payloads: lorawan-encoding/src/maccommands.rs. An index past the payload
-- panics; a parsed payload has the length that its identifier fixes.
use lora_rs.Common.{
  ℕ, ◌/◌, ◌%◌, Bool, List, take, drop, get_elem?, Exec, ret, unwrap, ◌>>=◌, Result,
}
use lora_rs.Common.Bits.{test_bit}
use lora_rs.Encoding.Types.{
  Dr, from_u8, ChannelMask, new_from_raw, frequency_value, new_data_rate_range, Error,
}

-- `create_value_reader_fn!`: `self.0[index]`.
unfoldable pub byte_at : List ℕ → ℕ → Exec ℕ
byte_at payload index = unwrap (get_elem? payload index)

-- `create_ack_fn!`: bit `offset` of the first byte.
unfoldable pub ack_bit : ℕ → List ℕ → Exec Bool
unfolding byte_at
ack_bit offset payload = do b ← byte_at payload 0; ret (test_bit b offset)

unfoldable pub link_adr_data_rate : List ℕ → Exec Dr
unfolding byte_at
link_adr_data_rate payload = do b ← byte_at payload 0; ret (from_u8 (b / 16))

unfoldable pub link_adr_tx_power : List ℕ → Exec Dr
unfolding byte_at
link_adr_tx_power payload = do b ← byte_at payload 0; ret (from_u8 (b % 16))

unfoldable pub link_adr_channel_mask : List ℕ → Exec ChannelMask
unfolding new_from_raw
link_adr_channel_mask payload = new_from_raw 2 (take 2 (drop 1 payload))

-- The byte of `Redundancy`.
unfoldable pub link_adr_redundancy : List ℕ → Exec ℕ
unfolding byte_at
link_adr_redundancy payload = byte_at payload 3

-- The byte of `DLSettings`.
unfoldable pub rx_param_dl_settings : List ℕ → Exec ℕ
unfolding byte_at
rx_param_dl_settings payload = byte_at payload 0

unfoldable pub rx_param_frequency : List ℕ → Exec ℕ
unfolding frequency_value
rx_param_frequency payload = frequency_value (drop 1 payload)

unfoldable pub new_channel_channel_index : List ℕ → Exec ℕ
unfolding byte_at
new_channel_channel_index payload = byte_at payload 0

unfoldable pub new_channel_frequency : List ℕ → Exec ℕ
unfolding frequency_value
new_channel_frequency payload = frequency_value (take 3 (drop 1 payload))

unfoldable pub new_channel_data_rate_range : List ℕ → Exec (Result ℕ Error)
unfolding byte_at
new_channel_data_rate_range payload = do b ← byte_at payload 4; ret (new_data_rate_range b)

unfoldable pub dl_channel_channel_index : List ℕ → Exec ℕ
unfolding byte_at
dl_channel_channel_index payload = byte_at payload 0

unfoldable pub dl_channel_frequency : List ℕ → Exec ℕ
unfolding frequency_value
dl_channel_frequency payload = frequency_value (take 3 (drop 1 payload))

-- `RXTimingSetupReqPayload::delay`.
unfoldable pub rx_timing_delay : List ℕ → Exec ℕ
unfolding byte_at
rx_timing_delay payload = do b ← byte_at payload 0; ret (b % 16)
