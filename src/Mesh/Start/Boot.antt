-- ===== src/Mesh/Start/Boot.antt =====
-- components/dp_mesh/dp_mesh.c: a device from its boot on.
use dockpulse_iot.Prelude.{
  false, List, [], ◌∷◌, none, some, arith, if◌then◌else◌, replicate, split_if,
}
use dockpulse_iot.Esp.{EspErr, esp_ok, is_ok}
use dockpulse_iot.Mesh.Gateway.{
  MeshStack, AddrTable, Gw, Call, note, prov_enable, update_net_key, add_app_key, bind_local,
  subscribe_group, step_idle,
}
use dockpulse_iot.Mesh.Provisioner.{then_do, post_init}
use dockpulse_iot.Mesh.Provisioner.Invariant.{FlowOk}
use dockpulse_iot.Mesh.Provisioner.Decom.{DecomOk}
use dockpulse_iot.Sensor.Node.{NodeStack, Node, fire_ready}
use dockpulse_iot.Sensor.Ready.{ReadyOk, fire_ready-ReadyOk}
use dockpulse_iot.Mesh.Start.{
  Role, role_sensor, role_gateway, MeshCfg, InitCall, node_prov_enable, StartEnv, Device,
  make_dev_uuid, own_oob, then_call, configure, finish_start, with_post_init, start_calls,
  each_call, registered, mesh_init,
}

-- The variables of the files after a boot, with the table of nodes as it is.
abbrev pub boot_gw : {T : Type 0} → T → Gw T
boot_gw t = record {
  is_gateway = false;
  status_cb = false;
  diag_cb = false;
  state_cb = false;
  prov_cb = none;
  prov_uuid = replicate 16 0;
  in_flight = false;
  target_addr = 0;
  dev_key = replicate 16 0;
  timer = false;
  cfg_step = step_idle;
  cfg_attempts = 0;
  decom_active = false;
  decom_addr = 0;
  decom_attempts = 0;
  decom_cb = none;
  table = t;
  log = [];
}

abbrev pub boot_node : Node
boot_node = record {
  is_sensor = false;
  ready_cb = false;
  ready_fired = false;
  publish_addr = 0;
  publish_app_idx = 0;
  publish_ttl = 0;
  publish_period = 0;
  timer = false;
  log = [];
}

abbrev pub boot : {T : Type 0} → T → Device T
boot t = record {
  role = role_sensor;
  uuid = replicate 16 0;
  gw = boot_gw t;
  node = boot_node;
  calls = [];
}

-- The invariants of both sides.
pub record DeviceOk {T : Type 0} (d : Device T) : Type 0 where
  pub flow : FlowOk d.gw
  pub decom : DecomOk d.gw
  pub ready : ReadyOk d.node

module _ (stack : MeshStack) (tab : AddrTable) (node_stack : NodeStack) (env : StartEnv) where
  open tab use {T}

  then_do-Ok :
      (c : Call) (r : EspErr × Gw T)
      → FlowOk r.1 × DecomOk r.1
      → FlowOk (then_do stack tab c r).1 × DecomOk (then_do stack tab c r).1
  then_do-Ok c (e, s) h = ground arith

  post_init-Ok :
      (s : Gw T)
      → FlowOk s × DecomOk s
      → FlowOk (post_init stack tab s).1 × DecomOk (post_init stack tab s).1
  unfolding post_init
  post_init-Ok s h =
      let first : EspErr × Gw T = (stack.ret s.log prov_enable, note prov_enable s) in
      let second = then_do stack tab update_net_key first in
      let third = then_do stack tab add_app_key second in
      then_do-Ok subscribe_group (then_do stack tab bind_local third) (
        then_do-Ok bind_local third
          (then_do-Ok add_app_key second (then_do-Ok update_net_key first (ground arith))))

  then_call-DeviceOk :
      (c : InitCall) (r : EspErr × Device T)
      → DeviceOk r.1
      → DeviceOk (then_call stack tab node_stack env c r).1
  then_call-DeviceOk c (e, d) h = ground arith

  each_call-DeviceOk :
      (cs : List InitCall) (r : EspErr × Device T)
      → DeviceOk r.1
      → DeviceOk (each_call stack tab node_stack env cs r).1
  each_call-DeviceOk [] r h = h
  each_call-DeviceOk (c ∷ cs) r h =
      each_call-DeviceOk cs (then_call stack tab node_stack env c r) (then_call-DeviceOk c r h)

  finish-DeviceOk :
      (role : Role) (r : EspErr × Device T)
      → DeviceOk r.1
      → DeviceOk (finish_start stack tab node_stack env role r).1
  finish-DeviceOk role_gateway (e, d) h =
      let (flow, decom) = post_init-Ok d.gw (h.flow, h.decom) in
      split_if (λ r. DeviceOk r.1) (is_ok e)
        (with_post_init stack tab node_stack env (post_init stack tab d.gw) d) (e, d)
        (λ _. record { flow = flow; decom = decom; ready = h.ready }) (λ _. h)
  finish-DeviceOk role_sensor (e, d) h =
      let ready : DeviceOk (record d { node = fire_ready node_stack d.node }) = record {
        flow = h.flow;
        decom = h.decom;
        ready = fire_ready-ReadyOk node_stack d.node h.ready;
      } in
      let enabled = then_call-DeviceOk node_prov_enable (e, d) h in
      let Ok : EspErr × Device T → Type 0 = λ r. DeviceOk r.1 in
      let restored : EspErr × Device T =
        (esp_ok, record d { node = fire_ready node_stack d.node }) in
      let beacon = then_call stack tab node_stack env node_prov_enable (e, d) in
      split_if Ok (is_ok e) (if env.is_provisioned d.calls then restored else beacon) (e, d)
        (λ _. split_if Ok (env.is_provisioned d.calls) restored beacon (λ _. ready) (λ _. enabled))
        (λ _. h)

  configure-DeviceOk :
      (c : MeshCfg) (role : Role) (t : T)
      → DeviceOk (configure stack tab node_stack env c role (boot t))
  configure-DeviceOk c role_sensor t = ground arith
  configure-DeviceOk c role_gateway t = ground arith

  pub init-DeviceOk :
      (c : MeshCfg) (t : T) → DeviceOk (mesh_init stack tab node_stack env (some c) (boot t)).1
  unfolding mesh_init registered
  init-DeviceOk c t =
      let named = record (configure stack tab node_stack env c c.role (boot t)) {
        uuid = make_dev_uuid env.factory c.role (replicate 16 0);
      } in
      let h = configure-DeviceOk c c.role t in
      let calls = start_calls c.role named.uuid (own_oob env.factory c.role) in
      finish-DeviceOk c.role (each_call stack tab node_stack env calls (esp_ok, named)) (
        each_call-DeviceOk calls (esp_ok, named)
          (record { flow = h.flow; decom = h.decom; ready = h.ready }))
