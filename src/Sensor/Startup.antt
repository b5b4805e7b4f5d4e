-- ===== src/Sensor/Startup.antt =====
-- main/sensor_main.c: the start of `dp_sensor_run`, up to its loop.
use dockpulse_iot.Prelude.{
  ◌≡◌, Bool, true, false, ◌&&◌, List, [], ◌∷◌, some, arith, if◌then◌else◌, ltb, split_if,
}
use dockpulse_iot.Esp.{EspErr, is_ok}
use dockpulse_iot.Mesh.Wire.{group_addr}
use dockpulse_iot.Mesh.Gateway.{MeshStack, AddrTable}
use dockpulse_iot.Sensor.Node.{NodeStack}
use dockpulse_iot.Sensor.Ready.{ReadyOk, ready_count}
use dockpulse_iot.Mesh.Start.{role_sensor, MeshCfg, StartEnv, Device, mesh_init}
use dockpulse_iot.Mesh.Start.Boot.{boot, DeviceOk, init-DeviceOk}
use dockpulse_iot.Mesh.Start.Life.{DeviceInput, device_play, play-DeviceOk}

-- Where the start has got to: an `ESP_ERROR_CHECK` has failed, the node is not adopted yet, or the loop
-- begins.
pub data Startup (T : Type 0) : Type 0 where
  aborted : Startup T
  unadopted running : Device T → Startup T

-- `s_mesh_ready`, which `on_sensor_ready` sets: has the callback been called.
abbrev pub mesh_ready : {T : Type 0} → Device T → Bool
mesh_ready d = ltb 0 (ready_count d.node.log)

abbrev pub sensor_cfg : MeshCfg
sensor_cfg = record { role = role_sensor; status_cb = false; diag_cb = false; sensor_ready = true }

module _ (stack : MeshStack) (tab : AddrTable) (node_stack : NodeStack) where
  open tab use {T}

  -- `while (!s_mesh_ready)`: what happens in each delay.
  abbrev pub wait_adopted : List (List DeviceInput) → Device T → Startup T
  wait_adopted [] d = if mesh_ready d then running d else unadopted d
  wait_adopted (delay ∷ more) d =
      let rest = wait_adopted more (device_play stack tab node_stack delay d) in
      if mesh_ready d then running d else rest

  -- `dp_radar_init` and `dp_battery_init`.
  abbrev pub with_drivers : EspErr → EspErr → Startup T → Startup T
  with_drivers radar battery aborted = aborted
  with_drivers radar battery (unadopted d) = unadopted d
  with_drivers radar battery (running d) =
      if is_ok radar && is_ok battery then running d else aborted

  -- The start, with the answers of the drivers of lamps, radar and battery.
  unfoldable pub sensor_start :
      StartEnv → EspErr → EspErr → EspErr → List (List DeviceInput) → Device T → Startup T
  sensor_start env lamps radar battery delays d =
      let (e, meshed) = mesh_init stack tab node_stack env (some sensor_cfg) d in
      if is_ok lamps && is_ok e
      then with_drivers radar battery (wait_adopted delays meshed)
      else aborted

  -- A device whose loop begins.
  abbrev pub Adopted : Startup T → Type 0
  Adopted aborted = Unit
  Adopted (unadopted d) = ready_count d.node.log ≡ 0
  Adopted (running d) =
      (d.node.ready_fired ≡ true)
      × (d.node.publish_addr ≡ group_addr)
      × (ready_count d.node.log ≡ 1)

  ready-Adopted : (d : Device T) → ReadyOk d.node → mesh_ready d ≡ true → Adopted (running d)
  ready-Adopted d h r =
      let told = h.told in
      let armed = h.armed in
      let ready : d.node.ready_fired ≡ true = ground arith in (ready, armed ready, ground arith)

  wait-Adopted :
      (delays : List (List DeviceInput)) (d : Device T)
      → DeviceOk d
      → Adopted (wait_adopted delays d)
  wait-Adopted [] d h =
      split_if Adopted (mesh_ready d) (running d) (unadopted d) (ready-Adopted d h.ready)
        (λ no_call. ground arith)
  wait-Adopted (delay ∷ more) d h =
      let next = device_play stack tab node_stack delay d in
      split_if Adopted (mesh_ready d) (running d) (wait_adopted more next) (ready-Adopted d h.ready)
        (λ _. wait-Adopted more next (play-DeviceOk stack tab node_stack delay d h))

  drivers-Adopted :
      (radar battery : EspErr) (s : Startup T) → Adopted s → Adopted (with_drivers radar battery s)
  drivers-Adopted radar battery aborted h = h
  drivers-Adopted radar battery (unadopted d) h = h
  drivers-Adopted radar battery (running d) h =
      split_if Adopted (is_ok radar && is_ok battery) (running d) aborted (λ _. h) (λ _. tt)

  -- The loop of a sensor begins only when the node is adopted. After a boot, with any answers of the
  -- stack and of the drivers, and whatever happens during the delays: when the loop begins, the node
  -- is ready, has told so exactly once, and publishes to the group address; and while the start waits
  -- the node has not told that it is ready.
  pub sensor_start-Adopted :
      (env : StartEnv) (lamps radar battery : EspErr) (delays : List (List DeviceInput)) (t : T)
      → Adopted (sensor_start env lamps radar battery delays (boot t))
  unfolding sensor_start
  sensor_start-Adopted env lamps radar battery delays t =
      let (e, meshed) = mesh_init stack tab node_stack env (some sensor_cfg) (boot t) in
      let waited = wait_adopted delays meshed in
      split_if Adopted (is_ok lamps && is_ok e) (with_drivers radar battery waited) aborted
        (λ _.
          drivers-Adopted radar battery waited
            (wait-Adopted delays meshed (init-DeviceOk stack tab node_stack env sensor_cfg t)))
        (λ _. tt)
