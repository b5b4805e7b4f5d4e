-- ===== src/Mesh/Provisioner.antt =====
-- components/dp_mesh/dp_mesh_provisioner.c: adoption and decommission of nodes by the gateway.
pub mod Invariant
pub mod Handlers
pub mod Decom
pub mod DecomHandlers
pub mod History
pub mod Steps
pub mod Story
pub mod Verdict
pub mod Grows
pub mod NewCalls
mod Examples
unfoldable pub use dockpulse_iot.Mesh.Flow.{
  emit_state, clear_dev_uuid_match, cfg_send, cfg_do_step, cfg_do_current_step, send_node_reset,
  finish_client, finish_flow, prov_finish_ok, drop_target, prov_finish_err, send_or_fail,
  enter_step, cfg_step_advance, step_code, cfg_step_redo, prov_timer_cb,
}
use dockpulse_iot.Prelude.{
  ℕ, zero, suc, ◌+◌, ◌*◌, ◌≡◌, Bool, true, false, not, ◌&&◌, ◌||◌, List, [], ◌∷◌, Option, none,
  some, ltb, ◌==◌, if◌then◌else◌, replicate,
}
use dockpulse_iot.Esp.{EspErr, esp_ok, invalid_state, invalid_arg, is_ok, is_not_found}
use dockpulse_iot.Mesh.Wire.{
  CfgOp, CfgEvent, publish_evt, timeout_evt, reply_evt, VendorOp, status_pub, diag_pub,
  other_vendor_op, is_node_reset, net_idx, app_idx, app_key, group_addr, vnd_model_id, company_id,
}
use dockpulse_iot.Mesh.Gateway.{
  Phase, started, link_open, pb_adv_done, cfg_app_key, cfg_bind, cfg_pub_set, complete, FailCode,
  cfg_fail, link_close, timed_out, appkey_send, bind_send, pubset_send, delete_fail, nvs_write,
  DecomResult, decom_ok, decom_orphan, decom_err, ProvResult, prov_ok, prov_err, CfgMsg,
  app_key_add, model_app_bind, model_pub_set, node_reset, Call, set_uuid_match, set_static_oob,
  timer_create, timer_stop, timer_start, cfg_set, delete_node, prov_enable, update_net_key,
  add_app_key, bind_local, subscribe_group, emit, prov_done, decom_done, status_up, diag_up,
  CfgStep, step_idle, step_app_key_add, step_model_app_bind, step_model_pub_set, step_done,
  past_done, next_step, before_cfg, cfg_max_attempts, decom_max_attempts, MeshStack, AddrTable, Gw,
  note, note_if,
}
use dockpulse_iot.Codec.Messages.{BerthStatus, BerthDiag}
use dockpulse_iot.Codec.Status.{berth_status_unpack}
use dockpulse_iot.Codec.Diag.{berth_diag_unpack}

module _ (stack : MeshStack) (tab : AddrTable) where
  open stack use {ret, node_key}
  open tab use {T, forget}

  abbrev pub is_decom_ok : DecomResult → Bool
  is_decom_ok decom_ok = true
  is_decom_ok _ = false

  -- Demote an acknowledged decommission whose local cleanup failed.
  abbrev pub demote :
      Bool → FailCode → DecomResult × Option FailCode → DecomResult × Option FailCode
  demote failed code (r, c) = if failed && is_decom_ok r then (decom_err, some code) else (r, c)

  abbrev pub call_decom_cb : Option ℕ → DecomResult × Option FailCode → ℕ → Gw T → Gw T
  call_decom_cb none r attempts s = s
  call_decom_cb (some client) (r, code) attempts s = note (decom_done client r attempts code) s

  -- `decom_local_cleanup_and_finish`; the code passes no error code.
  unfoldable pub decom_finish : DecomResult → Gw T → Gw T
  decom_finish result s =
      let d = ret s.log (delete_node s.decom_addr) in
      let deleted = note (delete_node s.decom_addr) s in
      let (f, t) = forget s.decom_addr s.table in
      let first = demote (not (is_ok d) && not (is_not_found d)) delete_fail (result, none) in
      let verdict = demote (not (is_ok f)) nvs_write first in
      let cleared = record deleted {
        table = t;
        decom_active = false;
        decom_addr = 0;
        decom_attempts = 0;
        decom_cb = none;
      } in
      call_decom_cb s.decom_cb verdict s.decom_attempts cleared

  -- The part of `on_cfg_client` for an active decommission.
  unfoldable pub on_decom_event : CfgEvent → ℕ → Gw T → Gw T
  on_decom_event publish_evt err s = s
  on_decom_event timeout_evt err s =
      let again = record s { decom_attempts = s.decom_attempts + 1 } in
      if ltb s.decom_attempts decom_max_attempts
      then send_node_reset stack tab s.decom_addr again
      else decom_finish decom_orphan s
  on_decom_event reply_evt err s =
      if not (err == 0) then decom_finish decom_orphan s else decom_finish decom_ok s

  -- The part of `on_cfg_client` for an adoption in flight.
  unfoldable pub on_flow_event : CfgEvent → ℕ → Gw T → Gw T
  on_flow_event publish_evt err s = s
  on_flow_event timeout_evt err s =
      if ltb s.cfg_attempts cfg_max_attempts
      then cfg_step_redo stack tab s.target_addr s
      else prov_finish_err stack tab cfg_fail s
  on_flow_event reply_evt err s =
      if not (err == 0)
      then prov_finish_err stack tab cfg_fail s
      else cfg_step_advance stack tab s.target_addr s

  -- `on_cfg_client`: event, opcode of the parameter block, error code.
  unfoldable pub on_cfg_client : CfgEvent → CfgOp → ℕ → Gw T → Gw T
  on_cfg_client event op err s =
      if s.decom_active && is_node_reset op
      then on_decom_event event err s
      else (if s.in_flight then on_flow_event event err s else s)

  abbrev pub key_or_zero : Option (List ℕ) → List ℕ
  key_or_zero none = replicate 16 0
  key_or_zero (some k) = k

  -- `case ESP_BLE_MESH_PROVISIONER_PROV_COMPLETE_EVT`
  unfoldable pub on_prov_complete : ℕ → Gw T → Gw T
  on_prov_complete addr s =
      let keyed = record s { target_addr = addr; dev_key = key_or_zero (node_key s.log addr) } in
      if s.in_flight
      then cfg_step_advance stack tab addr (emit_state stack tab pb_adv_done keyed)
      else note (delete_node addr) s

-- The events of `dp_mesh_provisioner_handle_prov_event`; those that are only logged are one.
pub data ProvEvent : Type 0 where
  link_opened link_closed logged_only : ProvEvent
  prov_completed : ℕ → ProvEvent

module _ (stack : MeshStack) (tab : AddrTable) where
  open stack use {ret, knows_uuid}
  open tab use {T}

  -- `dp_mesh_provisioner_handle_prov_event`
  unfoldable pub handle_prov_event : ProvEvent → Gw T → Gw T
  handle_prov_event link_opened s = emit_state stack tab link_open s
  handle_prov_event link_closed s =
      if s.in_flight && before_cfg s.cfg_step then prov_finish_err stack tab link_close s else s
  handle_prov_event (prov_completed addr) s = on_prov_complete stack tab addr s
  handle_prov_event logged_only s = s

  -- `dp_mesh_gateway_delete_node`
  unfoldable pub gateway_delete_node : ℕ → Gw T → EspErr × Gw T
  gateway_delete_node addr s =
      let reset = send_node_reset stack tab addr s in
      if not s.is_gateway
      then (invalid_state, s)
      else (if addr == 0
          then (invalid_arg, s)
          else (ret reset.log (delete_node addr), note (delete_node addr) reset))

  -- `dp_mesh_gateway_decommission_node`; no client is a NULL callback.
  unfoldable pub decommission_node : ℕ → Option ℕ → Gw T → EspErr × Gw T
  decommission_node addr client s =
      let begun = record s {
        decom_active = true;
        decom_addr = addr;
        decom_attempts = 1;
        decom_cb = client;
      } in
      if not s.is_gateway
      then (invalid_state, s)
      else (if addr == 0
          then (invalid_arg, s)
          else (if s.decom_active
              then (invalid_state, s)
              else (esp_ok, send_node_reset stack tab addr begun)))

  abbrev has_uuid : Option (List ℕ) → Gw T → Bool
  has_uuid none s = false
  has_uuid (some u) s = knows_uuid s.log u

  -- `dp_mesh_gateway_has_node_with_uuid`
  unfoldable pub has_node_with_uuid : Option (List ℕ) → Gw T → Bool
  has_node_with_uuid u s = if not s.is_gateway then false else has_uuid u s

  -- The static OOB value, if the caller has one.
  abbrev pub set_oob : Option (List ℕ) → Gw T → EspErr × Gw T
  set_oob none s = (esp_ok, s)
  set_oob (some oob) s = (ret s.log (set_static_oob oob), note (set_static_oob oob) s)

  -- The timer of the flow: created once, if the call succeeds, and started anew.
  abbrev pub arm_timer : ℕ → Gw T → Gw T
  arm_timer timeout_ms s =
      let made = is_ok (ret s.log timer_create) in
      let created = record s { timer = made; log = timer_create ∷ s.log } in
      let ready = if s.timer then s else created in
      if ready.timer then note (timer_start (timeout_ms * 1000)) (note timer_stop ready) else ready

  -- The flow behind the guards of `dp_mesh_gateway_provision`.
  unfoldable pub start_flow : List ℕ → Option (List ℕ) → ℕ → ℕ → Gw T → EspErr × Gw T
  start_flow uuid oob timeout_ms client s =
      let begun = record s {
        in_flight = true;
        prov_cb = some client;
        prov_uuid = uuid;
        target_addr = 0;
        cfg_step = step_idle;
        cfg_attempts = 0;
      } in
      let (e, with_oob) = set_oob oob begun in
      let e' = ret with_oob.log (set_uuid_match uuid true) in
      let matched = note (set_uuid_match uuid true) with_oob in
      if is_ok e
      then (if is_ok e'
          then (esp_ok, emit_state stack tab started (arm_timer timeout_ms matched))
          else (e', record matched { in_flight = false }))
      else (e, record with_oob { in_flight = false })

  -- `dp_mesh_gateway_provision`; none is a NULL pointer.
  unfoldable pub gateway_provision :
      Option (List ℕ) → Option (List ℕ) → ℕ → Option ℕ → Gw T → EspErr × Gw T
  gateway_provision none oob timeout_ms client s =
      (if not s.is_gateway then invalid_state else invalid_arg, s)
  gateway_provision (some uuid) oob timeout_ms none s =
      (if not s.is_gateway then invalid_state else invalid_arg, s)
  gateway_provision (some uuid) oob timeout_ms (some client) s =
      if not s.is_gateway || s.in_flight
      then (invalid_state, s)
      else start_flow uuid oob timeout_ms client s

  -- A call whose failure ends `dp_mesh_provisioner_post_init`.
  abbrev pub then_do : Call → EspErr × Gw T → EspErr × Gw T
  then_do c (e, s) = if is_ok e then (ret s.log c, note c s) else (e, s)

  -- `dp_mesh_provisioner_post_init`
  unfoldable pub post_init : Gw T → EspErr × Gw T
  post_init s = then_do subscribe_group (
      then_do bind_local
        (then_do add_app_key (then_do update_net_key (ret s.log prov_enable, note prov_enable s))))

  abbrev pub pass_status : EspErr × Option BerthStatus → ℕ → Gw T → Gw T
  pass_status (e, none) src s = s
  pass_status (e, some st) src s = note_if (is_ok e && s.status_cb) (status_up st src) s

  abbrev pub pass_diag : EspErr × Option BerthDiag → ℕ → Gw T → Gw T
  pass_diag (e, none) src s = s
  pass_diag (e, some d) src s = note_if (is_ok e && s.diag_cb) (diag_up d src) s

  -- `dp_mesh_provisioner_handle_model_op`: opcode, payload, its length, source address. The locals
  -- `st` and `d` are what the C locals hold before they are filled.
  unfoldable pub handle_model_op : BerthStatus → BerthDiag → VendorOp → List ℕ → ℕ → ℕ → Gw T → Gw T
  handle_model_op st d status_pub msg len src s =
      pass_status (berth_status_unpack (some msg) len (some st)) src s
  handle_model_op st d diag_pub msg len src s =
      pass_diag (berth_diag_unpack (some msg) len (some d)) src s
  handle_model_op st d other_vendor_op msg len src s = s
