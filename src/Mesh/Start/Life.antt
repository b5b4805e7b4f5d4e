-- ===== src/Mesh/Start/Life.antt =====
-- components/dp_mesh/dp_mesh.c: the life of a device, its events dispatched to its side of the mesh.
use dockpulse_iot.Prelude.{ℕ, List, [], ◌∷◌, Option, none, some, arith, split_if}
use dockpulse_iot.Esp.{EspErr}
use dockpulse_iot.Codec.Messages.{BerthStatus, BerthDiag}
use dockpulse_iot.Codec.Status.{berth_status_unpack}
use dockpulse_iot.Codec.Diag.{berth_diag_unpack}
use dockpulse_iot.Mesh.Wire.{VendorOp, status_pub, diag_pub, other_vendor_op}
use dockpulse_iot.Mesh.Gateway.{MeshStack, AddrTable, Gw}
use dockpulse_iot.Mesh.Provisioner.{handle_model_op, pass_status, pass_diag}
use dockpulse_iot.Mesh.Provisioner.Invariant.{FlowOk}
use dockpulse_iot.Mesh.Provisioner.Decom.{DecomOk}
use dockpulse_iot.Mesh.Provisioner.History.{Input, prov_input, react, react-FlowOk, react-DecomOk}
use dockpulse_iot.Sensor.Node.{NodeStack}
use dockpulse_iot.Sensor.Ready.{NodeInput, node_event, node_react, react-ReadyOk}
use dockpulse_iot.Mesh.Start.{
  Role, role_sensor, role_gateway, is_gateway_role, MeshCfg, StartEnv, Device, mesh_init,
  StackEvent, as_prov_event, as_node_event, comp_registered, gw_link_opened, gw_link_closed,
  gw_prov_completed, node_prov_completed, node_prov_reset, other_event, dispatch_prov, on_prov,
  on_model,
}
use dockpulse_iot.Mesh.Start.Boot.{boot, DeviceOk, init-DeviceOk}

-- What reaches a device: an event of the provisioning, a message for the model (with what the locals
-- of its handler hold), and the other events and calls of either side.
pub data DeviceInput : Type 0 where
  stack_input : StackEvent → DeviceInput
  model_input : BerthStatus → BerthDiag → VendorOp → List ℕ → ℕ → ℕ → DeviceInput
  gw_input : Input → DeviceInput
  node_input : NodeInput → DeviceInput

module _ (stack : MeshStack) (tab : AddrTable) (node_stack : NodeStack) where
  open tab use {T}

  abbrev pub device_react : DeviceInput → Device T → Device T
  device_react (stack_input e) d = on_prov stack tab node_stack e d
  device_react (model_input st diag op msg len src) d =
      on_model stack tab node_stack st diag op msg len src d
  device_react (gw_input i) d = record d { gw = react stack tab i d.gw }
  device_react (node_input i) d = record d { node = node_react node_stack i d.node }

  abbrev pub device_play : List DeviceInput → Device T → Device T
  device_play [] d = d
  device_play (i ∷ is) d = device_play is (device_react i d)

  gw-DeviceOk :
      (i : Input) (d : Device T) → DeviceOk d → DeviceOk (record d { gw = react stack tab i d.gw })
  gw-DeviceOk i d h = record {
    flow = (react-FlowOk stack tab i d.gw h.flow).0;
    decom = (react-DecomOk stack tab i d.gw h.decom).0;
    ready = h.ready;
  }

  node-DeviceOk :
      (i : NodeInput) (d : Device T)
      → DeviceOk d
      → DeviceOk (record d { node = node_react node_stack i d.node })
  node-DeviceOk i d h = record {
    flow = h.flow;
    decom = h.decom;
    ready = react-ReadyOk node_stack i d.node h.ready;
  }

  dispatch-DeviceOk :
      (role : Role) (e : StackEvent) (d : Device T)
      → DeviceOk d
      → DeviceOk (dispatch_prov stack tab node_stack role e d)
  dispatch-DeviceOk role_gateway e d h = gw-DeviceOk (prov_input (as_prov_event e)) d h
  dispatch-DeviceOk role_sensor e d h = node-DeviceOk (node_event (as_node_event e)) d h

  prov-DeviceOk :
      (e : StackEvent) (d : Device T) → DeviceOk d → DeviceOk (on_prov stack tab node_stack e d)
  unfolding on_prov
  prov-DeviceOk comp_registered d h = h
  prov-DeviceOk gw_link_opened d h = dispatch-DeviceOk d.role gw_link_opened d h
  prov-DeviceOk gw_link_closed d h = dispatch-DeviceOk d.role gw_link_closed d h
  prov-DeviceOk (gw_prov_completed a) d h = dispatch-DeviceOk d.role (gw_prov_completed a) d h
  prov-DeviceOk node_prov_completed d h = dispatch-DeviceOk d.role node_prov_completed d h
  prov-DeviceOk node_prov_reset d h = dispatch-DeviceOk d.role node_prov_reset d h
  prov-DeviceOk other_event d h = dispatch-DeviceOk d.role other_event d h

  pass_status-Ok :
      (r : EspErr × Option BerthStatus) (src : ℕ) (s : Gw T)
      → FlowOk s × DecomOk s
      → let after = pass_status stack tab r src s in FlowOk after × DecomOk after
  pass_status-Ok (e, none) src s h = h
  pass_status-Ok (e, some st) src s h = ground arith

  pass_diag-Ok :
      (r : EspErr × Option BerthDiag) (src : ℕ) (s : Gw T)
      → FlowOk s × DecomOk s
      → let after = pass_diag stack tab r src s in FlowOk after × DecomOk after
  pass_diag-Ok (e, none) src s h = h
  pass_diag-Ok (e, some d) src s h = ground arith

  model_op-Ok :
      (st : BerthStatus) (d : BerthDiag) (op : VendorOp) (msg : List ℕ) (len src : ℕ) (s : Gw T)
      → FlowOk s × DecomOk s
      → let after = handle_model_op stack tab st d op msg len src s in FlowOk after × DecomOk after
  unfolding handle_model_op
  model_op-Ok st d status_pub msg len src s h =
      pass_status-Ok (berth_status_unpack (some msg) len (some st)) src s h
  model_op-Ok st d diag_pub msg len src s h =
      pass_diag-Ok (berth_diag_unpack (some msg) len (some d)) src s h
  model_op-Ok st d other_vendor_op msg len src s h = h

  model-DeviceOk :
      (st : BerthStatus) (diag : BerthDiag) (op : VendorOp) (msg : List ℕ) (len src : ℕ)
      (d : Device T)
      → DeviceOk d
      → DeviceOk (on_model stack tab node_stack st diag op msg len src d)
  unfolding on_model
  model-DeviceOk st diag op msg len src d h =
      let after = handle_model_op stack tab st diag op msg len src d.gw in
      let (flow, decom) = model_op-Ok st diag op msg len src d.gw (h.flow, h.decom) in
      split_if DeviceOk (is_gateway_role d.role) (record d { gw = after }) d
        (λ _. record { flow = flow; decom = decom; ready = h.ready }) (λ _. h)

  react-DeviceOk : (i : DeviceInput) (d : Device T) → DeviceOk d → DeviceOk (device_react i d)
  react-DeviceOk (stack_input e) d h = prov-DeviceOk e d h
  react-DeviceOk (model_input st diag op msg len src) d h =
      model-DeviceOk st diag op msg len src d h
  react-DeviceOk (gw_input i) d h = gw-DeviceOk i d h
  react-DeviceOk (node_input i) d h = node-DeviceOk i d h

  pub play-DeviceOk :
      (is : List DeviceInput) (d : Device T) → DeviceOk d → DeviceOk (device_play is d)
  play-DeviceOk [] d h = h
  play-DeviceOk (i ∷ is) d h = play-DeviceOk is (device_react i d) (react-DeviceOk i d h)

  -- After a boot and a start with any configuration and any answers of the stack, however the start
  -- ends, and then any sequence of events, messages and calls, the invariants hold: of the adoptions,
  -- of the decommissions and of the readiness of the node.
  pub boot-DeviceOk :
      (env : StartEnv) (c : MeshCfg) (t : T) (inputs : List DeviceInput)
      → DeviceOk (device_play inputs (mesh_init stack tab node_stack env (some c) (boot t)).1)
  boot-DeviceOk env c t inputs =
      play-DeviceOk inputs (mesh_init stack tab node_stack env (some c) (boot t)).1
        (init-DeviceOk stack tab node_stack env c t)
