-- ===== src/Lib.antt =====
-- A model of lora-rs: the LoRaWAN encoding, the regional channel plans and the MAC layer of a device.
--
-- The crates, and the modules that model them:
-- - lorawan-encoding (src/types.rs, maccommands.rs, maccommandcreator.rs, with the code that
--   lorawan-macros generates): Encoding.Types, Encoding.MacCommands and its children Payloads and
--   Creators. The frames of parser.rs, creator.rs and securityhelpers.rs: Encoding.Frame.Layout the
--   structure of a data frame and its accessors, Encoding.Frame.Security the integrity code and the
--   encryption, Encoding.Frame.Data building, checking and decrypting data frames,
--   Encoding.Frame.Join the join request, the join accept and the session keys.
-- - lora-modulation (src/lib.rs): Modulation.
-- - lorawan-device/src/region: Region has what the plans share, Region.Rates the tables,
--   Region.Dynamic and Region.Dynamic.Regions the dynamic plans (EU868, EU433, IN865, AS923),
--   Region.Fixed the fixed ones (US915, AU915), Region.Join the choice of join channels, and
--   Region.Configuration the dispatch on the region.
-- - lorawan-device/src/mac: Mac.Uplink (uplink/mod.rs) the queue of answers, Mac.Counter the downlink
--   counter, Mac.Settings the configuration and the receive windows (mod.rs), Mac.Session the end
--   of a transmission, Mac.Session.Commands the MAC commands of a downlink, Mac.Session.Transmit
--   prepare_buffer and Mac.Session.Receive handle_rx (session.rs), Mac.Otaa the join (otaa.rs) and
--   Mac.Machine the state of the MAC layer and the dispatch on it (mod.rs). Radio is the packet buffer
--   (radio.rs).
-- - lorawan-device/src/nb_device: NbDevice has the states, NbDevice.Events the handler of events and
--   NbDevice.Device the device that the application holds; NbDevice.Diagram.Edges is the diagram at
--   the top of state.rs, with the events and answers of its edges.
-- A downlink's commands are parsed by Encoding.MacCommands, handled by Mac.Session.Commands, which
-- changes the region's plan and the settings, and answered through Mac.Uplink; an uplink takes its
-- channel from the plan and its receive windows from Mac.Settings.
--
-- Functions keep the source's names. A `&mut self` is passed in and returned. `Exec` is a return, a
-- panic (an index out of bounds, an `unwrap`, `unreachable!`) or `spins`, a loop out of fuel;
-- `Result` is Rust's. A `u8` or `u32` is a native number with its bounds as hypotheses, or its
-- wrap-around written out. Bytes are lists. Random numbers are a stream. Loops that draw random
-- numbers take fuel: the theorems say which draws end them. The iterator over commands takes fuel
-- that is proved to be enough.
--
-- External has the code that the repository only calls, as interfaces: heapless::Vec (BoundedVec,
-- which `bounded_list` meets), the random number generator, AES (Crypto), and the radio that an
-- application implements for the non-blocking device (PhyRxTx). The model has the code of the default
-- features and of class C; a sum of `u32` or `i32` times is checked, and panics on overflow.
-- The `u8` block counter of encrypt_frm_data_payload wraps, as without overflow checks: with them it
-- panics in the 255th block, on payloads over 4064 bytes, where a LoRa packet has at most 255.
--
-- Not modelled: the asynchronous device, multicast and certification, keys and text forms,
-- serialisation with serde, and the radio drivers of lora-phy, which are device I/O.
pub mod Common
pub mod External
pub mod Encoding
pub mod Modulation
pub mod Region
pub mod Radio
pub mod Mac
pub mod NbDevice
