-- ===== src/Sensor/Node.antt =====
-- components/dp_mesh/dp_mesh_sensor.c: the node side of the mesh, and the publication of dp_mesh.c. The
-- mesh stack and the timer are parameters, as for the gateway.
use dockpulse_iot.Prelude.{
  ℕ, ◌==◌, Bool, true, false, not, ◌&&◌, ◌||◌, List, ◌∷◌, Option, none, some, if◌then◌else◌, take,
}
use dockpulse_iot.Esp.{EspErr, esp_ok, esp_fail, invalid_arg, invalid_state, is_ok}
use dockpulse_iot.Codec.Messages.{BerthStatus, BerthDiag, status_wire_len, diag_wire_len}
use dockpulse_iot.Codec.Status.{berth_status_pack}
use dockpulse_iot.Codec.Diag.{berth_diag_pack}
use dockpulse_iot.Mesh.Wire.{CfgOp, is_pub_set, VendorOp, status_pub, diag_pub, group_addr, app_idx}

pub data NodeCall : Type 0 where
  watchdog_create watchdog_stop : NodeCall
  watchdog_start : ℕ → NodeCall
  local_reset factory_reset : NodeCall
  ready_up : ℕ → NodeCall
  publish : VendorOp → List ℕ → NodeCall

-- What the stack answers after the calls logged so far, newest first.
pub record NodeStack : Type 0 where
  pub ret : List NodeCall → NodeCall → EspErr
  pub primary_addr : List NodeCall → ℕ

-- The static variables of the file, `s_role`, and the members of `vnd_pub` that the code sets: address,
-- key index, ttl and period of the publications.
pub record Node : Type 0 where
  pub is_sensor : Bool
  pub ready_cb : Bool
  pub ready_fired : Bool
  pub publish_addr : ℕ
  pub publish_app_idx : ℕ
  pub publish_ttl : ℕ
  pub publish_period : ℕ
  pub timer : Bool
  pub log : List NodeCall

abbrev pub log_call : NodeCall → Node → Node
log_call c s = record s { log = c ∷ s.log }

abbrev pub log_if : Bool → NodeCall → Node → Node
log_if true c s = log_call c s
log_if false c s = s

-- `POST_PROV_WATCHDOG_US`
abbrev pub watchdog_us : ℕ
watchdog_us = 90000000

-- `ESP_BLE_MESH_NODE_PROV_…_EVT`; those that are only logged are one.
pub data NodeEvent : Type 0 where
  node_provisioned node_reset_evt node_logged : NodeEvent

module _ (stack : NodeStack) where
  open stack use {ret, primary_addr}

  -- `post_prov_timer_cb`
  unfoldable pub post_prov_timer_cb : Node → Node
  post_prov_timer_cb s =
      let reset = log_call local_reset s in
      if s.ready_fired
      then s
      else (if is_ok (ret s.log local_reset) then reset else log_call factory_reset reset)

  -- `arm_post_prov_watchdog`
  abbrev pub arm_watchdog : Node → Node
  arm_watchdog s =
      let made = is_ok (ret s.log watchdog_create) in
      let created = record s { timer = made; log = watchdog_create ∷ s.log } in
      let armed = if s.timer then s else created in
      if armed.timer
      then log_call (watchdog_start watchdog_us) (log_call watchdog_stop armed)
      else armed

  -- `disarm_post_prov_watchdog`
  abbrev pub disarm_watchdog : Node → Node
  disarm_watchdog s = log_if s.timer watchdog_stop s

  -- `dp_mesh_internal_arm_sensor_pub`
  abbrev pub arm_sensor_pub : Node → Node
  arm_sensor_pub s = record s {
    publish_addr = group_addr;
    publish_app_idx = app_idx;
    publish_ttl = 7;
    publish_period = 0;
  }

  -- `dp_mesh_internal_sensor_pub_armed`
  abbrev pub sensor_pub_armed : Node → Bool
  sensor_pub_armed s = not (s.publish_addr == 0)

  -- `dp_mesh_sensor_fire_ready`
  unfoldable pub fire_ready : Node → Node
  fire_ready s =
      let addr = primary_addr s.log in
      let fired = record (arm_sensor_pub s) { ready_fired = true } in
      if s.ready_fired then s else log_if s.ready_cb (ready_up addr) (disarm_watchdog fired)

  -- `dp_mesh_sensor_handle_prov_event`
  unfoldable pub node_prov_event : NodeEvent → Node → Node
  node_prov_event node_provisioned s = arm_watchdog s
  node_prov_event node_reset_evt s = log_call factory_reset s
  node_prov_event node_logged s = s

  -- `dp_mesh_sensor_on_cfg_server`: is it a state change, the operation received.
  unfoldable pub on_cfg_server : Bool → CfgOp → Node → Node
  on_cfg_server change op s = if change && is_pub_set op then fire_ready s else s

  -- `dp_mesh_internal_publish` of what the pack left in the buffer, with the length it reported.
  abbrev pub send_wire : VendorOp → EspErr × Option (List ℕ) × Option ℕ → Node → EspErr × Node
  send_wire op (e, some buf, some len) s =
      let msg = take len buf in
      let sent = if is_ok (ret s.log (publish op msg)) then esp_ok else esp_fail in
      if is_ok e then (sent, log_call (publish op msg) s) else (e, s)
  send_wire op (e, _, _) s = (e, s)

  -- The guards of both publications.
  abbrev pub publish_guard : Bool → Node → Option EspErr
  publish_guard given s =
      if not given || not s.is_sensor
      then some invalid_arg
      else (if not s.ready_fired || not (sensor_pub_armed s) then some invalid_state else none)

  abbrev pub unless_refused : Option EspErr → EspErr × Node → Node → EspErr × Node
  unless_refused none run s = run
  unless_refused (some e) run s = (e, s)

  abbrev pub is_given {ℓ} : {A : Type ℓ} → Option A → Bool
  is_given none = false
  is_given (some a) = true

  -- `dp_mesh_publish_status`; `wire` is what the local array holds before.
  unfoldable pub publish_status : List ℕ → Option BerthStatus → Node → EspErr × Node
  publish_status wire st s =
      unless_refused (publish_guard (is_given st) s)
        (send_wire status_pub (berth_status_pack st (some wire) status_wire_len (some 0)) s) s

  -- `dp_mesh_publish_diag`
  unfoldable pub publish_diag : List ℕ → Option BerthDiag → Node → EspErr × Node
  publish_diag wire d s =
      unless_refused (publish_guard (is_given d) s)
        (send_wire diag_pub (berth_diag_pack d (some wire) diag_wire_len (some 0)) s) s
