-- ===== src/Lib.antt =====
-- The verification library of beet_esp, firmware for the ESP32 that drives an Arduino Alvik robot.
--
-- The program's parts. The robot's carrier board is reached over a UART: `src/alvik/ucpack.rs` frames
-- and reframes the bytes, `src/alvik/protocol.rs` turns frames into status messages and commands into
-- frames, `src/alvik/driver.rs` pumps both ways and hands what it read to the systems through the pipes of
-- `src/esp32_utils/async_bridge.rs`, and `src/alvik/events.rs` finds the edges of the button and motion
-- masks. On the network side, `src/net/http_server.rs` and `src/net/http_client.rs` carry requests both
-- ways over the same bridge, `src/net/socket_client.rs` is a WebSocket client, and `src/net/mdns.rs`
-- answers and asks for names. `src/esp32_utils/clock.rs` keeps the wall clock,
-- `src/esp32_utils/health.rs` watches the stack and the heap, and `src/utils/led.rs` drives the LED.
--
-- Which file models which part:
-- - Base: the parts of Rust and `core` in use: slices and their panics, machine integers, the bits of
--   floats.
-- - Ucpack/Crc, Frame, Encoder, Decoder: `crc8`, `Frame`, `Encoder` and `Decoder` of
--   `src/alvik/ucpack.rs`, one definition per function. Ucpack/Stream says what the decoder is to do on the
--   plain list of the bytes held (`next`), Decoder/Buffer and Decoder/Rounds relate the two,
--   Decoder/Refines and Decoder/Pops are about whole runs, Link and Sound about both ends together.
-- - Alvik/Units: the typed quantities of the `beet` crate, as parameters. Alvik/Types: `src/alvik/types.rs`.
--   Alvik/Protocol: `Command::encode` and `Status::decode`. Alvik/Events: `detect_events`.
--   Alvik/Driver: `StatusSnapshot::apply` and the loop of `AlvikDriver::run` on one read;
--   Alvik/Driver/Boot: the handshake `bring_up`, with `send`; what is handed to the UART is a list of buffers.
--   Alvik/Systems: the flushing systems of `src/alvik/systems.rs`, and `Servo::degrees`.
--   Alvik/Status: `apply_status`, with `ColorSensor::update`; the types of `bevy` are parameters.
--   Alvik/Body: `DriveForDurationAction` and `expire_drive_step`; `Timer` of `bevy` is a parameter,
--   and so is what happens to the robots between the handler's two accesses to the world.
--   Alvik/Actions: `color_to_label`, the steps of `src/alvik/actions.rs`, and `DriveHandler`.
-- - AsyncBridge: `Latest`, `Queue` and `drain_to_observers`. `Signal` and `Channel` of `embassy_sync` are
--   parameters, with their documented behaviour as hypotheses. AsyncBridge/Calls: `AsyncBridge::call`,
--   its `recv` and `try_recv`, `Reply::send`, `run_worker` and `drain_to_async`, and a step relation in
--   which callers and responders interleave as they like; a call's `Arc` is its number in a store.
-- - Net/Http/Server: `read_http` and `server_loop`. Net/Http/Client: `esp_send`, `exchange`,
--   `exchange_on` and `send_request`. Net/Http/Authority: `split_authority`. `http_ext` of the `beet` crate
--   is a parameter. Net/Http/Chunks and RoundTrip are about the reading of chunks and both ends together.
-- - Net/Socket/Pump: `run_duplex`. Net/Socket/Connect: the rest of `src/net/socket_client.rs`, from
--   `esp_connect` to `drive_connection`. `ws_ext` and `Url` of the `beet` crate are parameters.
-- - Net/Mdns: `build_query`, `build_answer`, `is_query_for`, `parse_answer`, `Writer` and `Reader` of
--   `src/net/mdns.rs`; Net/Mdns/Tasks: `resolve`, `mdns_task`, `do_resolve` and `handle_inbound`.
-- - Net/Browser: `start_pending_browsers` of `src/net/mdns_browser.rs`, with the slots of `spawn_driver`'s task pool.
-- - Device/Clock: `sync_once`, `clock_loop` and `sntp_now`. Device/Health: `paint_stack`, `stack_usage`,
--   `snapshot` and `report`, on a memory that is a function. Device/Led: `Grb`, `Ws2812` and its systems,
--   and `pack_color` and `unpack_color` of `src/scripting/mod.rs`.
-- - Tests: the theorems at concrete inputs.
--
-- How the code is modelled. State is passed explicitly; a panic and a `None` are `none`, and where both
-- occur the option is nested. A `usize` has 32 bits, as on the ESP32. A float is its 32 bits; of its
-- arithmetic only the sign test, the negation and the conversion from `i16` are used, on bits.
-- Loops are on fuel: `pop` and the drain of a decoder get one turn more than the bytes held, since each
-- turn drops a byte at least; the frames of a socket's buffer get a turn for each byte and one more; the
-- words of the stack get a turn for each byte of the region; a name of a packet gets one turn more than the packet has bytes, since
-- each turn reads one at least; the drain of a queue gets more turns than items. Out of fuel, `pop` and
-- the drains of a decoder and the readers of a packet panic in the model, so that a result shows that the fuel was
-- enough; the frames of a socket's buffer, the drain of a queue and the scan of the stack stop there, and
-- lemmas show that the fuel named above is enough for what they are to do.
--
-- A socket is the list of what its reads give, then waited on: `none` is a result that has not come yet.
-- Where only the order of calls and arrivals matters, they are lists of events.
--
-- Not modelled: the hardware, the executor and the network stack; the start-up of the server and of the
-- Wi-Fi; the browser's socket and task; the TLS client; the LED route and the scenes of the robot; the script engine;
-- the build script and the flash tool. Of the driver, the GPIO levels, the timers and the choice between
-- a read and a command are not modelled.
pub mod Base
pub mod Ucpack
pub mod AsyncBridge
pub mod Alvik
pub mod Net
pub mod Device
pub mod Tests
