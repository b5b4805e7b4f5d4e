-- ===== src/Mesh/Provisioner/Grows.antt =====
-- components/dp_mesh/dp_mesh_provisioner.c: what is logged stays logged.
use dockpulse_iot.Prelude.{
  ℕ, Bool, true, false, not, ◌&&◌, List, [], ◌∷◌, Option, none, some, split_if, ltb, ◌+◌, ◌==◌,
}
use dockpulse_iot.Esp.{is_ok}
use dockpulse_iot.Mesh.Wire.{CfgEvent, publish_evt, timeout_evt, reply_evt}
use dockpulse_iot.Mesh.Gateway.{
  Phase, cfg_app_key, cfg_bind, cfg_pub_set, appkey_send, bind_send, pubset_send, FailCode, Call,
  ProvResult, DecomResult, CfgStep, step_idle, step_app_key_add, step_model_app_bind,
  step_model_pub_set, step_done, past_done, emit, prov_done, decom_done, prov_ok, prov_err,
  complete, timed_out, cfg_fail, timer_stop, delete_node, set_uuid_match, cfg_set, node_reset,
  decom_ok, decom_orphan, next_step, cfg_max_attempts, decom_max_attempts, MeshStack, AddrTable, Gw,
  note, note_if,
}
use dockpulse_iot.Mesh.Flow.{call_prov_cb}
use dockpulse_iot.Mesh.Provisioner.{
  emit_state, cfg_do_step, cfg_do_current_step, finish_flow, finish_client, drop_target,
  clear_dev_uuid_match, prov_finish_ok, prov_finish_err, call_decom_cb, step_code, send_node_reset,
  decom_finish, on_decom_event, on_flow_event, send_or_fail, enter_step, cfg_step_advance,
  cfg_step_redo, prov_timer_cb,
}

-- The second log is the first with calls before it.
pub data Grows (old : List Call) : List Call → Type 0 where
  same : Grows old old
  more : {new : List Call} (c : Call) → Grows old new → Grows old (c ∷ new)

module _ (stack : MeshStack) (tab : AddrTable) (old : List Call) where
  open tab use {T}

  -- A state whose log grew from the old one.
  abbrev pub Grew : Gw T → Type 0
  Grew s = Grows old s.log

  pub note_if-Grew : (b : Bool) (c : Call) (s : Gw T) → Grew s → Grew (note_if b c s)
  note_if-Grew true c s h = more c h
  note_if-Grew false c s h = h

  pub emit-Grew : (ph : Phase) (s : Gw T) → Grew s → Grew (emit_state stack tab ph s)
  emit-Grew ph s h = note_if-Grew (s.state_cb && s.in_flight) (emit ph) s h

  flow-Grew : (s : Gw T) → Grew s → Grew (finish_flow stack tab s)
  flow-Grew s h =
      note_if-Grew s.timer timer_stop (record s { in_flight = false; cfg_step = step_idle }) h

  pub cb-Grew :
      (cb : Option ℕ) (r : ProvResult) (s : Gw T) → Grew s → Grew (call_prov_cb stack tab cb r s)
  cb-Grew none r s h = h
  cb-Grew (some client) r s h = more (prov_done client r) h

  drop-Grew : (target : ℕ) (s : Gw T) → Grew s → Grew (drop_target stack tab target s)
  drop-Grew target s h =
      let gone = note (delete_node target) (send_node_reset stack tab target s) in
      split_if Grew (target == 0) s (record gone { table = (tab.forget target s.table).1 }) (λ _. h)
        (λ _. more (delete_node target) (more (cfg_set (node_reset target 1000)) h))

  finish_ok-Grew :
      (addr : ℕ) (key : List ℕ) (s : Gw T) → Grew s → Grew (prov_finish_ok stack tab addr key s)
  unfolding prov_finish_ok
  finish_ok-Grew addr key s h =
      let ended = finish_flow stack tab (emit_state stack tab complete s) in
      let cleared = clear_dev_uuid_match stack tab ended in
      split_if Grew s.in_flight (finish_client stack tab (prov_ok addr key) cleared) s
        (λ _. cb-Grew cleared.prov_cb (prov_ok addr key) cleared (
          more (set_uuid_match [] false)
            (flow-Grew (emit_state stack tab complete s) (emit-Grew complete s h))))
        (λ _. h)

  pub finish_err-Grew :
      (code : FailCode) (s : Gw T) → Grew s → Grew (prov_finish_err stack tab code s)
  unfolding prov_finish_err
  finish_err-Grew code s h =
      let dropped = drop_target stack tab s.target_addr (finish_flow stack tab s) in
      let cleared = clear_dev_uuid_match stack tab (record dropped { target_addr = 0 }) in
      split_if Grew s.in_flight (finish_client stack tab (prov_err code) cleared) s
        (λ _. cb-Grew cleared.prov_cb (prov_err code) cleared (
          more (set_uuid_match [] false)
            (drop-Grew s.target_addr (finish_flow stack tab s) (flow-Grew s h))))
        (λ _. h)

  do_step-Grew :
      (step : CfgStep) (addr : ℕ) (s : Gw T) → Grew s → Grew (cfg_do_step stack tab step addr s).1
  do_step-Grew step_idle addr s h = h
  do_step-Grew step_app_key_add addr s h = more _ h
  do_step-Grew step_model_app_bind addr s h = more _ h
  do_step-Grew step_model_pub_set addr s h = more _ h
  do_step-Grew step_done addr s h = h
  do_step-Grew past_done addr s h = h

  send_or_fail-Grew :
      (code : FailCode) (addr : ℕ) (s : Gw T) → Grew s → Grew (send_or_fail stack tab code addr s)
  unfolding send_or_fail cfg_do_current_step
  send_or_fail-Grew code addr s h =
      let (e, sent) = cfg_do_step stack tab s.cfg_step addr s in
      let one = do_step-Grew s.cfg_step addr s h in
      split_if Grew (is_ok e) sent (prov_finish_err stack tab code sent) (λ _. one)
        (λ _. finish_err-Grew code sent one)

  enter-Grew :
      (step : CfgStep) (addr : ℕ) (s : Gw T) → Grew s → Grew (enter_step stack tab step addr s)
  enter-Grew step_idle addr s h = h
  enter-Grew step_app_key_add addr s h =
      send_or_fail-Grew appkey_send addr (emit_state stack tab cfg_app_key s)
        (emit-Grew cfg_app_key s h)
  enter-Grew step_model_app_bind addr s h =
      send_or_fail-Grew bind_send addr (emit_state stack tab cfg_bind s) (emit-Grew cfg_bind s h)
  enter-Grew step_model_pub_set addr s h =
      send_or_fail-Grew pubset_send addr (emit_state stack tab cfg_pub_set s)
        (emit-Grew cfg_pub_set s h)
  enter-Grew step_done addr s h = finish_ok-Grew addr s.dev_key s h
  enter-Grew past_done addr s h = h

  pub advance-Grew : (addr : ℕ) (s : Gw T) → Grew s → Grew (cfg_step_advance stack tab addr s)
  unfolding cfg_step_advance
  advance-Grew addr s h =
      let step = next_step s.cfg_step in
      enter-Grew step addr (record s { cfg_step = step; cfg_attempts = 1 }) h

  redo-Grew : (addr : ℕ) (s : Gw T) → Grew s → Grew (cfg_step_redo stack tab addr s)
  unfolding cfg_step_redo
  redo-Grew addr s h =
      send_or_fail-Grew (step_code stack tab s.cfg_step) addr
        (record s { cfg_attempts = s.cfg_attempts + 1 }) h

  pub timer-Grew : (s : Gw T) → Grew s → Grew (prov_timer_cb stack tab s)
  unfolding prov_timer_cb
  timer-Grew s h =
      split_if Grew s.in_flight (prov_finish_err stack tab timed_out s) s
        (λ _. finish_err-Grew timed_out s h) (λ _. h)

  decom_cb-Grew :
      (cb : Option ℕ) (r : DecomResult × Option FailCode) (n : ℕ) (s : Gw T)
      → Grew s
      → Grew (call_decom_cb stack tab cb r n s)
  decom_cb-Grew none r n s h = h
  decom_cb-Grew (some client) (r, code) n s h = more (decom_done client r n code) h

  decom_finish-Grew : (r : DecomResult) (s : Gw T) → Grew s → Grew (decom_finish stack tab r s)
  unfolding decom_finish
  decom_finish-Grew r s h = decom_cb-Grew s.decom_cb _ s.decom_attempts _ (more _ h)

  pub decom_event-Grew :
      (event : CfgEvent) (err : ℕ) (s : Gw T) → Grew s → Grew (on_decom_event stack tab event err s)
  unfolding on_decom_event
  decom_event-Grew publish_evt err s h = h
  decom_event-Grew timeout_evt err s h =
      split_if Grew (ltb s.decom_attempts decom_max_attempts)
        (send_node_reset stack tab s.decom_addr
          (record s { decom_attempts = s.decom_attempts + 1 }))
        (decom_finish stack tab decom_orphan s) (λ _. more _ h)
        (λ _. decom_finish-Grew decom_orphan s h)
  decom_event-Grew reply_evt err s h =
      split_if Grew (not (err == 0)) (decom_finish stack tab decom_orphan s)
        (decom_finish stack tab decom_ok s) (λ _. decom_finish-Grew decom_orphan s h)
        (λ _. decom_finish-Grew decom_ok s h)

  pub flow_event-Grew :
      (event : CfgEvent) (err : ℕ) (s : Gw T) → Grew s → Grew (on_flow_event stack tab event err s)
  unfolding on_flow_event
  flow_event-Grew publish_evt err s h = h
  flow_event-Grew timeout_evt err s h =
      split_if Grew (ltb s.cfg_attempts cfg_max_attempts) (cfg_step_redo stack tab s.target_addr s)
        (prov_finish_err stack tab cfg_fail s) (λ _. redo-Grew s.target_addr s h)
        (λ _. finish_err-Grew cfg_fail s h)
  flow_event-Grew reply_evt err s h =
      split_if Grew (not (err == 0)) (prov_finish_err stack tab cfg_fail s)
        (cfg_step_advance stack tab s.target_addr s) (λ _. finish_err-Grew cfg_fail s h)
        (λ _. advance-Grew s.target_addr s h)
