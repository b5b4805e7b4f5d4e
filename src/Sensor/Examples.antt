-- ===== src/Sensor/Examples.antt =====
-- Runs of the sensor on concrete events, messages and samples.
use dockpulse_iot.Prelude.{
  ℕ, ◌+◌, ◌*◌, ◌/◌, ◌%◌, ◌≤◌, ◌<◌, ◌≡◌, ◌↔◌, refl, Bool, true, false, List, [], ◌∷◌, none, some,
  arith, replicate, length, not, ◌&&◌,
}
use dockpulse_iot.Esp.{esp_ok}
use dockpulse_iot.Codec.Messages.{BerthStatus, BerthDiag, RadarSample, DiagInRange}
use dockpulse_iot.Mesh.Wire.{model_pub_set_op, status_pub, diag_pub}
use dockpulse_iot.Mesh.Gateway.{MeshStack, AddrTable, Gw, step_idle, status_up, diag_up, note}
use dockpulse_iot.Mesh.Provisioner.{handle_model_op}
use dockpulse_iot.Radar.Filter.{EndsNear}
use dockpulse_iot.Sensor.Node.{
  NodeStack, Node, node_provisioned, publish, publish_status, publish_diag,
}
use dockpulse_iot.Sensor.Ready.{
  NodeInput, node_event, cfg_server_event, watchdog_fires, status_call,
}
use dockpulse_iot.Sensor.Delivery.{
  CanPublish, publish_status-handle_model_op, publish_diag-handle_model_op,
}
use dockpulse_iot.Sensor.Battery.{battery_read_pct, pin_mv, battery_read_pct_lem}
use dockpulse_iot.Io.Pins.{lit}
use dockpulse_iot.Io.Berth.{two_lamps, berth_led_init, NeverBoth}
use dockpulse_iot.Sensor.Lamps.{pins_after, sensor_loop-lamps}
use dockpulse_iot.Prov.Store.{record_node}
use dockpulse_iot.Uplink.Samples.{
  read_only, fresh, fresh-IsValid, t1_accepted, has_room, harbor, calm,
}
use dockpulse_iot.Uplink.Diag.{on_diag, diag_topic}
use dockpulse_iot.Sensor.Report.{diag_message, publish_diag-on_diag}
use dockpulse_iot.Sensor.Loop.{
  to_diag, LoopConfig, Round, loop_start, sensor_loop, report_modes, sensor_loop_recovers,
}

abbrev node_stack : NodeStack
node_stack = record { ret = λ log c. esp_ok; primary_addr = λ log. 5 }

abbrev booted_node : Node
booted_node = record {
  is_sensor = true;
  ready_cb = true;
  ready_fired = false;
  publish_addr = 0;
  publish_app_idx = 0;
  publish_ttl = 0;
  publish_period = 0;
  timer = false;
  log = [];
}

abbrev ready_node : Node
ready_node = record booted_node { ready_fired = true; publish_addr = 0xC000; publish_ttl = 7 }

abbrev berth_status : BerthStatus
berth_status = record {
  node_id = 2;
  berth_id = 2;
  occupied = true;
  sensor_raw_mm = 2300;
  battery_pct = 80;
  ts_ms = 70000;
}

abbrev berth_diag : BerthDiag
berth_diag = record {
  node_id = 2;
  berth_id = 2;
  target_state = 1;
  raw_distance_cm = 230;
  gate_energy = replicate 16 300;
  ts_ms = 70000;
}

abbrev joining : List NodeInput
joining =
    node_event node_provisioned
    ∷ status_call (replicate 11 0) (some berth_status)
    ∷ cfg_server_event true model_pub_set_op
    ∷ watchdog_fires
    ∷ status_call (replicate 11 0) (some berth_status)
    ∷ []

abbrev stack : MeshStack
stack = record { ret = λ log c. esp_ok; node_key = λ log addr. none; knows_uuid = λ log u. false }

abbrev no_table : AddrTable
no_table = record { T = Bool; forget = λ a t. (esp_ok, t) }

abbrev gateway : Gw Bool
gateway = record {
  is_gateway = true;
  status_cb = true;
  diag_cb = true;
  state_cb = false;
  prov_cb = none;
  prov_uuid = [];
  in_flight = false;
  target_addr = 0;
  dev_key = [];
  timer = false;
  cfg_step = step_idle;
  cfg_attempts = 0;
  decom_active = false;
  decom_addr = 0;
  decom_attempts = 0;
  decom_cb = none;
  table = true;
  log = [];
}

ready-CanPublish : CanPublish node_stack stack no_table ready_node
ready-CanPublish = record {
  sensor = refl;
  ready = refl;
  armed = λ e. absurd (omega arith);
  takes = λ op msg. refl;
}

publish_status-handle_model_op_example :
    let (e, after) = publish_status node_stack (replicate 11 0) (some berth_status) ready_node in
    (e ≡ esp_ok)
    × ((msg : List ℕ) × (after.log ≡ publish status_pub msg ∷ [])
        × (handle_model_op stack no_table berth_status berth_diag status_pub msg
              (length msg)
              5
              gateway
            ≡ note (status_up berth_status 5) gateway))
publish_status-handle_model_op_example =
    publish_status-handle_model_op node_stack stack no_table berth_status berth_status berth_diag
      (replicate 11 0) 5 ready_node gateway ready-CanPublish (ground arith) refl refl

publish_diag-handle_model_op_example :
    let (e, after) = publish_diag node_stack (replicate 42 0) (some berth_diag) ready_node in
    (e ≡ esp_ok)
    × ((msg : List ℕ) × (after.log ≡ publish diag_pub msg ∷ [])
        × (handle_model_op stack no_table berth_status berth_diag diag_pub msg
              (length msg)
              5
              gateway
            ≡ note (diag_up berth_diag 5) gateway))
publish_diag-handle_model_op_example =
    publish_diag-handle_model_op node_stack stack no_table berth_diag berth_diag berth_status
      (replicate 42 0) 5 ready_node gateway ready-CanPublish (ground arith) refl refl

battery_read_pct_lem_example :
    let pct = battery_read_pct true true (some 2300) none in
    (pct ≤ 100)
    × ((pct ≡ 100) ↔ (2100 ≤ pin_mv none 2300))
    × ((pct ≡ 0) ↔ (pin_mv none 2300 < 1506))
    × (1500 ≤ pin_mv none 2300
        → pin_mv none 2300 ≤ 2100
        → (3000 + 12 * pct ≤ 2 * pin_mv none 2300) × (2 * pin_mv none 2300 < 3000 + 12 * (pct + 1)))
    × (pin_mv none 2300 ≤ pin_mv none 2400 → pct ≤ battery_read_pct true true (some 2400) none)
battery_read_pct_lem_example = battery_read_pct_lem 2300 2400 none none

abbrev berth_two : LoopConfig
berth_two = record {
  filter = record { prox_cm = 250; prox_frames = 2 };
  node_id = 2;
  publish_interval = 6000;
  diag_enable = true;
}

abbrev boat : RadarSample
boat = record {
  presence = true;
  distance_cm = 100;
  target_state = 1;
  ts_ms = 0;
  gate_energy = replicate 16 0;
}

abbrev seen : Round
seen = record { sample = some boat; now = 100; battery = 90 }

abbrev failed : Round
failed = record { sample = none; now = 150; battery = 90 }

abbrev boat_diag : BerthDiag
boat_diag = to_diag boat 2 2

boat_diag-InRange : DiagInRange boat_diag
unfolding to_diag
boat_diag-InRange = record {
  node_id = omega arith;
  berth_id = omega arith;
  target_state = omega arith;
  raw_distance_cm = omega arith;
  gates = omega arith;
  gate_total = refl;
  ts_ms = omega arith;
}

publish_diag-on_diag_example :
    let after = (record_node read_only 5 (some (b't' ∷ b'1' ∷ [])) none fresh).1 in
    (msg : List ℕ) × ((publish_diag node_stack (replicate 42 0) (some boat_diag) ready_node).1.log
      ≡ publish diag_pub msg ∷ ready_node.log)
    × (handle_model_op stack no_table berth_status berth_diag diag_pub msg (length msg) 5 gateway
        ≡ note (diag_up boat_diag 5) gateway)
    × (on_diag read_only harbor calm true boat_diag 5 after
        ≡ some (
          diag_topic (b'h' ∷ []) (b'd' ∷ []) (b't' ∷ b'1' ∷ []),
          diag_message read_only node_stack stack no_table boat (b't' ∷ b'1' ∷ []) 2 5 calm after,
        ))
publish_diag-on_diag_example =
    publish_diag-on_diag read_only node_stack stack no_table 5 (b't' ∷ b'1' ∷ []) none fresh harbor
      calm boat 2 2 berth_diag berth_status (replicate 42 0) ready_node gateway t1_accepted refl
      fresh-IsValid has_room refl refl ready-CanPublish boat_diag-InRange refl refl refl

-- The lamps on pins 3 and 4.
-- Outputs are low after the chip's reset, so that lamps that are active low are lit until the first
-- writes.
abbrev outputs_low : ℕ → Bool
outputs_low gpio = false

both_lit_at_reset : (lit true outputs_low 3 [] && lit true outputs_low 4 []) ≡ true
both_lit_at_reset = refl

sensor_loop-lamps_example :
    let p = two_lamps true 3 4 in
    let last : Round = record { sample = some boat; now = 200; battery = 90 } in
    let after = sensor_loop berth_two (seen ∷ failed ∷ last ∷ []) loop_start in
    let log = pins_after p (berth_led_init p esp_ok []).1 after.acts in
    NeverBoth true outputs_low 3 4 log
    × ((lit true outputs_low 4 log ≡ true) ↔ EndsNear berth_two.filter 2 (boat ∷ boat ∷ []))
    × (lit true outputs_low 3 log ≡ not (lit true outputs_low 4 log))
sensor_loop-lamps_example =
    sensor_loop-lamps true outputs_low 3 4 (λ e. absurd (omega (arith, e))) berth_two
      (seen ∷ failed ∷ []) boat 200 90 (record { cm = omega arith; frames = omega arith })

sensor_loop_recovers_example :
    let after = sensor_loop berth_two (replicate 3 failed) loop_start in
    (after.consecutive_failures ≡ (0 + 3) % 10) × (report_modes after.acts ≡ 0 + (0 + 3) / 10)
sensor_loop_recovers_example =
    sensor_loop_recovers berth_two (replicate 3 failed) loop_start (refl, (refl, (refl, tt)))
      (omega arith)
