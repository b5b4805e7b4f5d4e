-- ===== src/Mesh/Start/Examples.antt =====
-- Runs of the start of a device.
use dockpulse_iot.Prelude.{
  ℕ, ◌≡◌, refl, true, false, List, [], ◌∷◌, none, some, replicate, inr, arith,
}
use dockpulse_iot.Esp.{esp_ok, not_found, is_ok}
use dockpulse_iot.Mesh.Wire.{reply_evt, node_reset_op}
use dockpulse_iot.Mesh.Gateway.{MeshStack, AddrTable}
use dockpulse_iot.Mesh.Provisioner.History.{cfg_input, decommission_input, provision_input}
use dockpulse_iot.Sensor.Node.{NodeStack}
use dockpulse_iot.Sensor.Startup.{Startup, running, sensor_start, Adopted, sensor_start-Adopted}
use dockpulse_iot.Mesh.Wire.{model_pub_set_op}
use dockpulse_iot.Prelude.{Bool}
use dockpulse_iot.Sensor.Node.{fire_ready, node_prov_event, on_cfg_server}
use dockpulse_iot.Mesh.Start.{on_prov, node_prov_completed}
use dockpulse_iot.Sensor.Ready.{cfg_server_event, watchdog_fires}
use dockpulse_iot.Prov.Factory.{Factory, uuid_marker, get_static_oob, get_dev_uuid}
use dockpulse_iot.Mesh.Start.{
  role_sensor, role_gateway, MeshCfg, bt_host, register_prov, register_model, register_cfg_server,
  mesh_start, node_prov_enable, StartEnv, dev_fallback_oob, bt_host_init, make_dev_uuid, own_oob,
  registered, mesh_init, gw_link_opened, gw_prov_completed,
}
use dockpulse_iot.Mesh.Start.Boot.{boot, DeviceOk}
use dockpulse_iot.Mesh.Start.Life.{
  DeviceInput, stack_input, gw_input, node_input, device_play, boot-DeviceOk,
}
use dockpulse_iot.Mesh.Start.Sensor.{IsOob, Started, mesh_init-sensor}

abbrev stack : MeshStack
stack = record {
  ret = λ log c. esp_ok;
  node_key = λ log addr. some (replicate 16 7);
  knows_uuid = λ log u. false;
}

abbrev bound : AddrTable
bound = record { T = List ℕ; forget = λ a t. (esp_ok, []) }

abbrev node_stack : NodeStack
node_stack = record { ret = λ log c. esp_ok; primary_addr = λ log. 5 }

-- A bench build: no factory partition.
abbrev bench : Factory
bench = record {
  init_partition = not_found;
  open_readonly = not_found;
  read_oob = λ buffer. (not_found, 0, buffer);
  read_mac = λ buffer. (esp_ok, 1 ∷ 2 ∷ 3 ∷ 4 ∷ 5 ∷ 6 ∷ []);
}

abbrev fresh : StartEnv
fresh = record {
  factory = bench;
  host = record { semaphore_made = true; port_init = esp_ok; sync = some (true, true) };
  ret = λ log c. esp_ok;
  is_provisioned = λ log. false;
}

abbrev gateway_cfg : MeshCfg
gateway_cfg = record { role = role_gateway; status_cb = true; diag_cb = true; sensor_ready = false }

abbrev sensor_cfg : MeshCfg
sensor_cfg = record { role = role_sensor; status_cb = false; diag_cb = false; sensor_ready = true }

abbrev morning : List DeviceInput
morning =
    gw_input (provision_input (some (replicate 16 1)) none 60000 (some 1))
    ∷ stack_input gw_link_opened
    ∷ stack_input (gw_prov_completed 6)
    ∷ gw_input (decommission_input 5 (some 2))
    ∷ gw_input (cfg_input reply_evt node_reset_op 0)
    ∷ node_input watchdog_fires
    ∷ []

-- A sensor of the bench beacons with the marker in its UUID and with the shared OOB value.
bench_starts : is_ok (mesh_init stack bound node_stack fresh (some sensor_cfg) (boot [])).0 ≡ true
unfolding mesh_init registered bt_host_init make_dev_uuid own_oob get_dev_uuid get_static_oob
bench_starts = refl

bench_calls :
    (mesh_init stack bound node_stack fresh (some sensor_cfg) (boot [])).1.calls
    ≡ node_prov_enable
      ∷ mesh_start (1 ∷ 2 ∷ 3 ∷ 4 ∷ 5 ∷ 6 ∷ uuid_marker) (some dev_fallback_oob)
      ∷ register_cfg_server
      ∷ register_model
      ∷ register_prov
      ∷ bt_host
      ∷ []
unfolding mesh_init registered bt_host_init make_dev_uuid own_oob get_dev_uuid get_static_oob
bench_calls = refl

boot-DeviceOk_example : DeviceOk (
    device_play stack bound node_stack morning
      (mesh_init stack bound node_stack fresh (some gateway_cfg) (boot (5 ∷ []))).1)
boot-DeviceOk_example = boot-DeviceOk stack bound node_stack fresh gateway_cfg (5 ∷ []) morning

-- The bench device has no partition to read.
bench-IsOob : IsOob bench dev_fallback_oob
bench-IsOob = inr ((λ h. ground arith), refl)

mesh_init-sensor_example :
    Started stack bound node_stack fresh true
      (1 ∷ 2 ∷ 3 ∷ 4 ∷ 5 ∷ 6 ∷ uuid_marker)
      dev_fallback_oob
      []
      (mesh_init stack bound node_stack fresh (some sensor_cfg) (boot []))
mesh_init-sensor_example =
    mesh_init-sensor stack bound node_stack fresh false false true dev_fallback_oob [] bench-IsOob

-- The node is provisioned in the first delay; a second later the model gets its address.
abbrev adoption_delays : List (List DeviceInput)
adoption_delays =
    (stack_input node_prov_completed ∷ [])
    ∷ []
    ∷ (node_input (cfg_server_event true model_pub_set_op) ∷ [])
    ∷ []

abbrev is_running : {T : Type 0} → Startup T → Bool
is_running (running d) = true
is_running _ = false

bench_runs :
    is_running
      (sensor_start stack bound node_stack fresh esp_ok esp_ok esp_ok adoption_delays (boot []))
    ≡ true
unfolding sensor_start mesh_init registered bt_host_init make_dev_uuid own_oob get_dev_uuid
    get_static_oob on_prov node_prov_event on_cfg_server fire_ready
bench_runs = refl

sensor_start-Adopted_example :
    Adopted stack bound node_stack
      (sensor_start stack bound node_stack fresh esp_ok esp_ok esp_ok adoption_delays (boot []))
sensor_start-Adopted_example =
    sensor_start-Adopted stack bound node_stack fresh esp_ok esp_ok esp_ok adoption_delays []
