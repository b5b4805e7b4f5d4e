-- ===== src/Mesh/Flow.antt =====
-- components/dp_mesh/dp_mesh_provisioner.c: the flow of an adoption, its messages and its end.
use dockpulse_iot.Prelude.{ℕ, ◌+◌, false, ◌&&◌, List, [], Option, none, some, ◌==◌, if◌then◌else◌}
use dockpulse_iot.Esp.{EspErr, invalid_state, is_ok}
use dockpulse_iot.Mesh.Wire.{net_idx, app_idx, app_key, group_addr, vnd_model_id, company_id}
use dockpulse_iot.Mesh.Gateway.{
  Phase, cfg_app_key, cfg_bind, cfg_pub_set, complete, FailCode, cfg_fail, timed_out, appkey_send,
  bind_send, pubset_send, ProvResult, prov_ok, prov_err, CfgMsg, app_key_add, model_app_bind,
  model_pub_set, node_reset, set_uuid_match, timer_stop, cfg_set, delete_node, emit, prov_done,
  CfgStep, step_idle, step_app_key_add, step_model_app_bind, step_model_pub_set, step_done,
  next_step, MeshStack, AddrTable, Gw, note, note_if,
}

module _ (stack : MeshStack) (tab : AddrTable) where
  open stack use {ret, node_key}
  open tab use {T, forget}

  -- `emit_state`
  abbrev pub emit_state : Phase → Gw T → Gw T
  emit_state ph s = note_if (s.state_cb && s.in_flight) (emit ph) s

  -- `clear_dev_uuid_match`
  abbrev pub clear_dev_uuid_match : Gw T → Gw T
  clear_dev_uuid_match s = note (set_uuid_match [] false) s

  -- `cfg_send`
  abbrev pub cfg_send : CfgMsg → Gw T → EspErr × Gw T
  cfg_send m s = (ret s.log (cfg_set m), note (cfg_set m) s)

  -- The `switch` of `cfg_do_current_step`.
  abbrev pub cfg_do_step : CfgStep → ℕ → Gw T → EspErr × Gw T
  cfg_do_step step_app_key_add addr s = cfg_send (app_key_add addr net_idx app_idx app_key 8000) s
  cfg_do_step step_model_app_bind addr s =
      cfg_send (model_app_bind addr addr app_idx vnd_model_id company_id 8000) s
  cfg_do_step step_model_pub_set addr s =
      cfg_send (model_pub_set addr addr group_addr app_idx 7 0 (1, 50) vnd_model_id company_id 8000)
        s
  cfg_do_step _ addr s = (invalid_state, s)

  unfoldable pub cfg_do_current_step : ℕ → Gw T → EspErr × Gw T
  cfg_do_current_step addr s = cfg_do_step s.cfg_step addr s

  -- `send_node_reset`
  abbrev pub send_node_reset : ℕ → Gw T → Gw T
  send_node_reset addr s = note (cfg_set (node_reset addr 1000)) s

  abbrev pub call_prov_cb : Option ℕ → ProvResult → Gw T → Gw T
  call_prov_cb none r s = s
  call_prov_cb (some client) r s = note (prov_done client r) s

  -- The end of both `prov_finish_…`: the callback, then `s_prov_cb = NULL`.
  abbrev pub finish_client : ProvResult → Gw T → Gw T
  finish_client r s = let told = call_prov_cb s.prov_cb r s in record told { prov_cb = none }

  -- `s_prov_in_flight = false; s_cfg_step = CFG_STEP_IDLE;` and the timer.
  abbrev pub finish_flow : Gw T → Gw T
  finish_flow s = note_if s.timer timer_stop (record s { in_flight = false; cfg_step = step_idle })

  -- `prov_finish_ok`
  unfoldable pub prov_finish_ok : ℕ → List ℕ → Gw T → Gw T
  prov_finish_ok addr key s =
      let ended = finish_flow (emit_state complete s) in
      if s.in_flight then finish_client (prov_ok addr key) (clear_dev_uuid_match ended) else s

  -- The block of `prov_finish_err` for a target: reset the node, delete it, forget it.
  abbrev pub drop_target : ℕ → Gw T → Gw T
  drop_target target s =
      let gone = note (delete_node target) (send_node_reset target s) in
      if target == 0 then s else record gone { table = (forget target s.table).1 }

  -- `prov_finish_err`; the code passes no message.
  unfoldable pub prov_finish_err : FailCode → Gw T → Gw T
  prov_finish_err code s =
      let dropped = drop_target s.target_addr (finish_flow s) in
      let cleared = clear_dev_uuid_match (record dropped { target_addr = 0 }) in
      if s.in_flight then finish_client (prov_err code) cleared else s

  -- `if (cfg_do_current_step(addr) != ESP_OK) prov_finish_err(code, NULL);`
  unfoldable pub send_or_fail : FailCode → ℕ → Gw T → Gw T
  send_or_fail code addr s =
      let (e, sent) = cfg_do_current_step addr s in
      if is_ok e then sent else prov_finish_err code sent

  -- The `switch` of `cfg_step_advance`, on the step just entered.
  abbrev pub enter_step : CfgStep → ℕ → Gw T → Gw T
  enter_step step_app_key_add addr s = send_or_fail appkey_send addr (emit_state cfg_app_key s)
  enter_step step_model_app_bind addr s = send_or_fail bind_send addr (emit_state cfg_bind s)
  enter_step step_model_pub_set addr s = send_or_fail pubset_send addr (emit_state cfg_pub_set s)
  enter_step step_done addr s = prov_finish_ok addr s.dev_key s
  enter_step _ addr s = s

  -- `cfg_step_advance`
  unfoldable pub cfg_step_advance : ℕ → Gw T → Gw T
  cfg_step_advance addr s =
      let step = next_step s.cfg_step in
      enter_step step addr (record s { cfg_step = step; cfg_attempts = 1 })

  abbrev pub step_code : CfgStep → FailCode
  step_code step_app_key_add = appkey_send
  step_code step_model_app_bind = bind_send
  step_code step_model_pub_set = pubset_send
  step_code _ = cfg_fail

  -- `cfg_step_redo`
  unfoldable pub cfg_step_redo : ℕ → Gw T → Gw T
  cfg_step_redo addr s =
      send_or_fail (step_code s.cfg_step) addr (record s { cfg_attempts = s.cfg_attempts + 1 })

  -- `prov_timer_cb`
  unfoldable pub prov_timer_cb : Gw T → Gw T
  prov_timer_cb s = if s.in_flight then prov_finish_err timed_out s else s
