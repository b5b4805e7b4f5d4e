-- ===== src/Mesh/Start.antt =====
-- components/dp_mesh/dp_mesh.c: the role, the identity of the device, the start of the mesh and the
-- dispatch of its events.
pub mod Boot
pub mod Life
pub mod Sensor
mod Examples
use dockpulse_iot.Prelude.{
  ℕ, Bool, true, false, not, ◌&&◌, List, [], ◌∷◌, ◌++◌, Option, none, some, if◌then◌else◌,
  replicate, take, codes,
}
use dockpulse_iot.Esp.{EspErr, esp_ok, no_mem, timeout, invalid_arg, is_ok}
use dockpulse_iot.Codec.Messages.{BerthStatus, BerthDiag}
use dockpulse_iot.Mesh.Wire.{VendorOp}
use dockpulse_iot.Mesh.Gateway.{MeshStack, AddrTable, Gw}
use dockpulse_iot.Mesh.Provisioner.{
  ProvEvent, link_opened, link_closed, logged_only, prov_completed, handle_prov_event,
  handle_model_op, post_init,
}
use dockpulse_iot.Prov.Factory.{Factory, get_static_oob, get_dev_uuid}
use dockpulse_iot.Sensor.Node.{
  NodeStack, Node, NodeEvent, node_provisioned, node_reset_evt, node_logged, fire_ready,
  node_prov_event,
}

-- `dp_mesh_role_t`
pub data Role : Type 0 where
  role_sensor role_gateway : Role

abbrev pub is_gateway_role : Role → Bool
is_gateway_role role_gateway = true
is_gateway_role role_sensor = false

abbrev pub role_number : Role → ℕ
role_number role_sensor = 0
role_number role_gateway = 1

-- `dp_mesh_cfg_t`: the role, and which callbacks there are.
pub record MeshCfg : Type 0 where
  pub role : Role
  pub status_cb : Bool
  pub diag_cb : Bool
  pub sensor_ready : Bool

-- The calls of the start that can fail. `mesh_start` is `esp_ble_mesh_init` with the UUID and the OOB
-- value of `prov_cfg`.
pub data InitCall : Type 0 where
  bt_host register_prov register_model register_cfg_server register_cfg_client : InitCall
  mesh_start : List ℕ → Option (List ℕ) → InitCall
  node_prov_enable : InitCall

-- What the Bluetooth host gives: is there memory for the semaphore, its initialisation, and the
-- answers of the two address calls of `on_ble_sync`, none if it is not synchronised in time.
pub record BtHost : Type 0 where
  pub semaphore_made : Bool
  pub port_init : EspErr
  pub sync : Option (Bool × Bool)

-- `on_ble_sync`: is the semaphore given.
abbrev pub on_ble_sync : Bool → Bool → Bool
on_ble_sync addr_ensured addr_inferred = addr_ensured && addr_inferred

abbrev pub synced : Option (Bool × Bool) → Bool
synced none = false
synced (some (a, b)) = on_ble_sync a b

-- `bt_host_init`
unfoldable pub bt_host_init : BtHost → EspErr
bt_host_init h =
    if not h.semaphore_made
    then no_mem
    else (if not (is_ok h.port_init)
        then h.port_init
        else (if synced h.sync then esp_ok else timeout))

-- The surroundings of the start: the calls are answered from the log of the calls before.
pub record StartEnv : Type 0 where
  pub factory : Factory
  pub host : BtHost
  pub ret : List InitCall → InitCall → EspErr
  pub is_provisioned : List InitCall → Bool

-- `s_role`, `s_dev_uuid`, the two sides of the mesh, and the calls, newest first.
pub record Device (T : Type 0) : Type 0 where
  pub role : Role
  pub uuid : List ℕ
  pub gw : Gw T
  pub node : Node
  pub calls : List InitCall

-- The UUID of `make_dev_uuid` where `dp_prov_get_dev_uuid` is not used or fails.
abbrev pub fallback_uuid : Factory → Role → List ℕ
fallback_uuid f role =
    let (e, mac) = f.read_mac (replicate 6 0) in take 6 mac ++ role_number role ∷ replicate 9 0

abbrev pub uuid_or : List ℕ → EspErr × Option (List ℕ) → List ℕ
uuid_or fallback (e, some uuid) = if is_ok e then uuid else fallback
uuid_or fallback (e, none) = fallback

-- `make_dev_uuid`; `old` is what the array holds.
unfoldable pub make_dev_uuid : Factory → Role → List ℕ → List ℕ
make_dev_uuid f role_sensor old = uuid_or (fallback_uuid f role_sensor) (get_dev_uuid f (some old))
make_dev_uuid f role_gateway old = fallback_uuid f role_gateway

-- `DEV_FALLBACK_OOB`
abbrev pub dev_fallback_oob : List ℕ
dev_fallback_oob = codes "dp-static-oob" ++ 0 ∷ 0 ∷ 0 ∷ []

-- The OOB value of a sensor; a gateway has none of its own.
unfoldable pub own_oob : Factory → Role → Option (List ℕ)
own_oob f role_sensor = some (uuid_or dev_fallback_oob (get_static_oob f (some (replicate 16 0))))
own_oob f role_gateway = none

-- The calls of the start for a role, its UUID and its OOB value, the first first.
abbrev pub start_calls : Role → List ℕ → Option (List ℕ) → List InitCall
start_calls role_sensor uuid oob =
    bt_host ∷ register_prov ∷ register_model ∷ register_cfg_server ∷ mesh_start uuid oob ∷ []
start_calls role_gateway uuid oob =
    bt_host
    ∷ register_prov
    ∷ register_model
    ∷ register_cfg_server
    ∷ register_cfg_client
    ∷ mesh_start uuid oob
    ∷ []

module _ (stack : MeshStack) (tab : AddrTable) (node_stack : NodeStack) (env : StartEnv) where
  open tab use {T}

  abbrev pub answer : List InitCall → InitCall → EspErr
  answer log bt_host = bt_host_init env.host
  answer log c = env.ret log c

  -- A call whose failure ends the start.
  abbrev pub then_call : InitCall → EspErr × Device T → EspErr × Device T
  then_call c (e, d) =
      if is_ok e then (answer d.calls c, record d { calls = c ∷ d.calls }) else (e, d)

  -- The callbacks and the role, of the side that the role names.
  abbrev pub configure : MeshCfg → Role → Device T → Device T
  configure c role_sensor d = record d {
    role = role_sensor;
    gw = record d.gw { is_gateway = false };
    node = record d.node { is_sensor = true; ready_cb = c.sensor_ready };
  }
  configure c role_gateway d = record d {
    role = role_gateway;
    gw = record d.gw { is_gateway = true; status_cb = c.status_cb; diag_cb = c.diag_cb };
    node = record d.node { is_sensor = false };
  }

  abbrev pub with_post_init : EspErr × Gw T → Device T → EspErr × Device T
  with_post_init (e, gw) d = (e, record d { gw = gw })

  -- The end of the start, by role.
  abbrev pub finish_start : Role → EspErr × Device T → EspErr × Device T
  finish_start role_gateway (e, d) =
      if is_ok e then with_post_init (post_init stack tab d.gw) d else (e, d)
  finish_start role_sensor (e, d) =
      let enabled = then_call node_prov_enable (e, d) in
      if is_ok e
      then (if env.is_provisioned d.calls
          then (esp_ok, record d { node = fire_ready node_stack d.node })
          else enabled)
      else (e, d)

  -- Calls in order, up to the first that fails.
  abbrev pub each_call : List InitCall → EspErr × Device T → EspErr × Device T
  each_call [] r = r
  each_call (c ∷ cs) r = each_call cs (then_call c r)

  -- The registrations and the start of the stack, before the end by role.
  unfoldable pub registered : Role → Device T → EspErr × Device T
  registered role d = each_call (start_calls role d.uuid (own_oob env.factory role)) (esp_ok, d)

  -- `dp_mesh_init`; none is NULL.
  unfoldable pub mesh_init : Option MeshCfg → Device T → EspErr × Device T
  mesh_init none d = (invalid_arg, d)
  mesh_init (some c) d =
      let configured = configure c c.role d in
      let named = record configured { uuid = make_dev_uuid env.factory c.role d.uuid } in
      finish_start c.role (registered c.role named)

-- The events of the stack's provisioning callback that the two sides name, and any other.
pub data StackEvent : Type 0 where
  comp_registered : StackEvent
  gw_link_opened gw_link_closed : StackEvent
  gw_prov_completed : ℕ → StackEvent
  node_prov_completed node_prov_reset other_event : StackEvent

abbrev pub as_prov_event : StackEvent → ProvEvent
as_prov_event gw_link_opened = link_opened
as_prov_event gw_link_closed = link_closed
as_prov_event (gw_prov_completed addr) = prov_completed addr
as_prov_event _ = logged_only

abbrev pub as_node_event : StackEvent → NodeEvent
as_node_event node_prov_completed = node_provisioned
as_node_event node_prov_reset = node_reset_evt
as_node_event _ = node_logged

module _ (stack : MeshStack) (tab : AddrTable) (node_stack : NodeStack) where
  open tab use {T}

  -- `on_prov`
  abbrev pub dispatch_prov : Role → StackEvent → Device T → Device T
  dispatch_prov role_gateway e d = record d {
    gw = handle_prov_event stack tab (as_prov_event e) d.gw;
  }
  dispatch_prov role_sensor e d = record d {
    node = node_prov_event node_stack (as_node_event e) d.node;
  }

  unfoldable pub on_prov : StackEvent → Device T → Device T
  on_prov comp_registered d = d
  on_prov e d = dispatch_prov d.role e d

  -- `on_model`, of a received message; its other events are only logged.
  unfoldable pub on_model :
      BerthStatus → BerthDiag → VendorOp → List ℕ → ℕ → ℕ → Device T → Device T
  on_model st diag op msg len src d =
      if is_gateway_role d.role
      then record d { gw = handle_model_op stack tab st diag op msg len src d.gw }
      else d
