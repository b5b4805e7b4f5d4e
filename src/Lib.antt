-- ===== src/Lib.antt =====
-- DockPulse IoT firmware: the logic of the sensor node and of the gateway.
--
-- A sensor reads a mmWave radar over a UART, decides whether a boat lies at its berth, lights the
-- berth's lamps, and publishes status and diagnostic messages over a Bluetooth mesh. The gateway
-- adopts sensors into the mesh on request of a backend, configures them, keeps a table from mesh
-- addresses to berths in flash, decommissions them on request, and publishes their messages to the
-- backend over MQTT.
--
-- The files and what they model:
--
--   Prelude.antt, Prelude/: Boolean tests, lists and machine words on native numbers, C strings,
--     `strtoul`.
--   Esp.antt: `esp_err_t`.
--   Codec.antt, Codec/: components/dp_common/dp_common.c, the two wire messages. A buffer is the list
--     of bytes behind its pointer; `none` is a null pointer.
--   Radar.antt, Radar/: components/dp_radar. Filter is dp_radar_filter.c. Frame is the receive loop of
--     `dp_radar_read`: `Rx` holds its locals, `rx_step` is one byte, `read_loop` the loop with the
--     deadline, Frame/Deadline is about its end; what one round sees of UART and clocks is a `Poll`.
--     Frame/Ack is `read_command_ack` and `dp_radar_enter_report_mode`; Fake is the radar of a build
--     without one.
--   Io.antt, Io/: components/dp_io/dp_io.c. Led holds the patterns of the status light, Berth the lamps
--     of the berth, Button the polls of the reset button; Pins is the GPIO driver as a log of
--     levels; the levels before the first write are a parameter of the lamps.
--   Prov.antt, Prov/: components/dp_prov/dp_prov.c. Table holds the loops over the sixteen records,
--     Store loads and saves them and holds the public calls. The NVS library is the parameter `Nvs`;
--     `NvsKeeps` states that a blob that was set and committed is read back. Factory reads the OOB
--     value and the UUID of the device.
--   Mesh.antt, Mesh/: components/dp_mesh, the gateway side. Gateway holds the static variables as the
--     record `Gw`, Flow and Provisioner every function of dp_mesh_provisioner.c: the same guards, the
--     same calls in the same order. The mesh stack and the timer are the parameter `MeshStack`: each
--     call is logged, newest first, and answered by a function of the log, so the answers may be any.
--     The table is the parameter `AddrTable`; Unbind puts dp_prov in its place. `play` of
--     Provisioner/History runs any sequence of events and calls. Start is dp_mesh.c: the identity of
--     the device, `dp_mesh_init`, and the dispatch of events to the side of the device's role; Sensor
--     is about the start of a sensor, Life runs a device from its boot on.
--   Sensor.antt, Sensor/: Node is components/dp_mesh/dp_mesh_sensor.c with the publication of
--     dp_mesh.c, Battery the ADC of components/dp_io/dp_io.c, Startup and Loop the start and the loop
--     of main/sensor_main.c. Delivery and Report join the node and the gateway, Lamps the loop and
--     dp_io.
--   Uplink.antt, Uplink/: components/dp_gateway. Mqtt is dp_gateway_mqtt.c, Slots and Sessions are
--     about what becomes of subscriptions. Adopt is dp_gateway_adopt.c: a request is the record of its
--     JSON members, and what the file calls and publishes is logged; Answers, Calls and Hex are about
--     it alone. Adoption puts it on the provisioner and on the table of dp_prov: the callbacks hear
--     the new part of the provisioner's log, oldest first, after each event. Decom is
--     dp_gateway_decom.c, with its contexts on a heap, on the provisioner in the same way. Topics
--     registers both handlers. Status and Diag are the two messages of dp_gateway.c, with the
--     callbacks of main/gateway_main.c; Wifi is dp_gateway_wifi.c; Startup is `dp_gateway_init`.
--   App.antt, App/: main/app_main.c, its start, and the restart that the reset button brings about. The
--     initialisation of the flash is the parameter `FlashStart`; `none` stands for an abort.
--
-- Conventions. Integers are natural numbers with the wrap-around of their C type written out; fields
-- of a message are assumed in the range of their type where a theorem needs it. A log of calls stands
-- for the effects on the surroundings. Strings that the code passes as literals are enumerations. The
-- functions run one at a time, as the events of the mesh stack do; two threads inside one function are
-- not modelled.
--
-- Bounds. The receive loops run on the list of rounds that the surroundings give and return `none`
-- while these do not end them: a round at or past the deadline, or without a byte, ends them.
-- The attempts are bounded by 3, as in the code.
--
-- Not modelled: the set-up of the drivers of UART, LED strip, GPIO, ADC, Wi-Fi and MQTT client beyond
-- its errors, the Bluetooth host, the tables of mesh models, the fingerprint of the device key, the
-- text of the clock and of JSON messages, the stub builds, logging, and the host tools. Where an answer
-- to a request is published, the memory to build it is assumed.
pub mod Prelude
pub mod Esp
pub mod Codec
pub mod Io
pub mod Radar
pub mod Prov
pub mod Mesh
pub mod Sensor
pub mod Uplink
pub mod App
