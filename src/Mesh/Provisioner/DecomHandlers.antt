-- ===== src/Mesh/Provisioner/DecomHandlers.antt =====
-- components/dp_mesh/dp_mesh_provisioner.c: every handler keeps the invariant of a decommission.
use dockpulse_iot.Prelude.{
  ℕ, ◌+◌, ◌≡◌, refl, true, false, List, Option, none, some, arith, split_if, ◌||◌, ◌&&◌, not,
  if◌then◌else◌,
}
use dockpulse_iot.Esp.{EspErr, esp_ok, invalid_state, is_ok}
use dockpulse_iot.Mesh.Wire.{CfgOp, is_node_reset, CfgEvent}
use dockpulse_iot.Mesh.Gateway.{
  pb_adv_done, link_open, link_close, timed_out, before_cfg, step_idle, MeshStack, AddrTable, Gw,
  note, delete_node, set_uuid_match, started,
}
use dockpulse_iot.Mesh.Provisioner.{
  prov_finish_err, emit_state, cfg_step_advance, prov_timer_cb, on_decom_event, on_flow_event,
  on_cfg_client, on_prov_complete, key_or_zero, arm_timer, set_oob, ProvEvent, link_opened,
  link_closed, logged_only, prov_completed, handle_prov_event, gateway_delete_node,
  decommission_node, start_flow, gateway_provision,
}
use dockpulse_iot.Mesh.Provisioner.Invariant.{is_some, waiting}
use dockpulse_iot.Mesh.Provisioner.Decom.{
  DecomOk, decoms, SameDecom, same_trans, SameDecom-DecomOk, finish_err-SameDecom, emit-SameDecom,
  advance-SameDecom, flow_event-SameDecom, decom_event-DecomOk,
}

module _ (stack : MeshStack) (tab : AddrTable) where
  open tab use {T}

  pub same_refl : (s : Gw T) → SameDecom s s
  same_refl s = record {
    active = refl;
    addr = refl;
    attempts = refl;
    cb = refl;
    count = refl;
    calls = refl;
  }

  pub cfg_client-DecomOk :
      (event : CfgEvent) (op : CfgOp) (err : ℕ) (s : Gw T)
      → DecomOk s
      → let after = on_cfg_client stack tab event op err s in
        DecomOk after × (decoms after ≡ decoms s)
  unfolding on_cfg_client
  cfg_client-DecomOk event op err s h =
      let Good : Gw T → Type 0 = λ after. DecomOk after × (decoms after ≡ decoms s) in
      split_if Good (s.decom_active && is_node_reset op) (on_decom_event stack tab event err s)
        (if s.in_flight then on_flow_event stack tab event err s else s)
        (λ act. decom_event-DecomOk stack tab event err s h (ground arith))
        (λ _.
          split_if Good s.in_flight (on_flow_event stack tab event err s) s
            (λ _.
              SameDecom-DecomOk stack tab s (on_flow_event stack tab event err s)
                (flow_event-SameDecom stack tab event err s) h)
            (λ _. (h, refl)))

  pub timer-SameDecom : (s : Gw T) → SameDecom s (prov_timer_cb stack tab s)
  unfolding prov_timer_cb
  timer-SameDecom s =
      split_if (SameDecom s) s.in_flight (prov_finish_err stack tab timed_out s) s
        (λ _. finish_err-SameDecom stack tab timed_out s) (λ _. same_refl s)

  prov_complete-SameDecom : (addr : ℕ) (s : Gw T) → SameDecom s (on_prov_complete stack tab addr s)
  unfolding on_prov_complete
  prov_complete-SameDecom addr s =
      let keyed = record s {
        target_addr = addr;
        dev_key = key_or_zero stack tab (stack.node_key s.log addr);
      } in
      let told = emit_state stack tab pb_adv_done keyed in
      let one : SameDecom s told =
        same_trans stack tab s keyed told (ground arith)
          (emit-SameDecom stack tab pb_adv_done keyed) in
      split_if (SameDecom s) s.in_flight (cfg_step_advance stack tab addr told)
        (note (delete_node addr) s)
        (λ _.
          same_trans stack tab s told (cfg_step_advance stack tab addr told) one
            (advance-SameDecom stack tab addr told))
        (λ _. ground arith)

  pub prov_event-SameDecom :
      (event : ProvEvent) (s : Gw T) → SameDecom s (handle_prov_event stack tab event s)
  unfolding handle_prov_event
  prov_event-SameDecom link_opened s = emit-SameDecom stack tab link_open s
  prov_event-SameDecom link_closed s =
      split_if (SameDecom s) (s.in_flight && before_cfg s.cfg_step)
        (prov_finish_err stack tab link_close s) s
        (λ _. finish_err-SameDecom stack tab link_close s) (λ _. same_refl s)
  prov_event-SameDecom (prov_completed addr) s = prov_complete-SameDecom addr s
  prov_event-SameDecom logged_only s = same_refl s

  pub delete_node-SameDecom :
      (addr : ℕ) (s : Gw T) → SameDecom s (gateway_delete_node stack tab addr s).1
  unfolding gateway_delete_node
  delete_node-SameDecom addr s = ground arith

  -- One more decommission is under way if the call is accepted and has a client.
  pub decommission-DecomOk :
      (addr : ℕ) (client : Option ℕ) (s : Gw T)
      → DecomOk s
      → let (e, after) = decommission_node stack tab addr client s in
        DecomOk after × (decoms after ≡ decoms s + waiting (is_ok e && is_some client))
  unfolding decommission_node
  decommission-DecomOk addr client s h = ground arith

  arm_timer-SameDecom : (timeout_ms : ℕ) (s : Gw T) → SameDecom s (arm_timer stack tab timeout_ms s)
  arm_timer-SameDecom timeout_ms s = ground arith

  set_oob-SameDecom : (oob : Option (List ℕ)) (s : Gw T) → SameDecom s (set_oob stack tab oob s).1
  set_oob-SameDecom none s = same_refl s
  set_oob-SameDecom (some o) s = ground arith

  start_flow-SameDecom :
      (uuid : List ℕ) (oob : Option (List ℕ)) (timeout_ms client : ℕ) (s : Gw T)
      → SameDecom s (start_flow stack tab uuid oob timeout_ms client s).1
  unfolding start_flow
  start_flow-SameDecom uuid oob timeout_ms client s =
      let begun = record s {
        in_flight = true;
        prov_cb = some client;
        prov_uuid = uuid;
        target_addr = 0;
        cfg_step = step_idle;
        cfg_attempts = 0;
      } in
      let start : SameDecom s begun = ground arith in
      let (e, with_oob) = set_oob stack tab oob begun in
      let e' = stack.ret with_oob.log (set_uuid_match uuid true) in
      let matched = note (set_uuid_match uuid true) with_oob in
      let armed = arm_timer stack tab timeout_ms matched in
      let one = same_trans stack tab s begun with_oob start (set_oob-SameDecom oob begun) in
      let off : SameDecom with_oob (record with_oob { in_flight = false }) = ground arith in
      let off' : SameDecom with_oob (record matched { in_flight = false }) = ground arith in
      let two : SameDecom with_oob matched = ground arith in
      let three = same_trans stack tab s with_oob armed one (
        same_trans stack tab with_oob matched armed two (arm_timer-SameDecom timeout_ms matched)) in
      let four =
        same_trans stack tab s armed (emit_state stack tab started armed) three
          (emit-SameDecom stack tab started armed) in
      let Good : EspErr × Gw T → Type 0 = λ (r : EspErr × Gw T). SameDecom s r.1 in
      split_if Good (is_ok e)
        (if is_ok e'
          then (esp_ok, emit_state stack tab started armed)
          else (e', record matched { in_flight = false }))
        (e, record with_oob { in_flight = false })
        (λ _.
          split_if Good (is_ok e') (esp_ok, emit_state stack tab started armed)
            (e', record matched { in_flight = false }) (λ _. four)
            (λ _. same_trans stack tab s with_oob (record matched { in_flight = false }) one off'))
        (λ _. same_trans stack tab s with_oob (record with_oob { in_flight = false }) one off)

  pub provision-SameDecom :
      (uuid : Option (List ℕ)) (oob : Option (List ℕ)) (timeout_ms : ℕ) (client : Option ℕ)
      (s : Gw T)
      → SameDecom s (gateway_provision stack tab uuid oob timeout_ms client s).1
  unfolding gateway_provision
  provision-SameDecom none oob timeout_ms client s = same_refl s
  provision-SameDecom (some uuid) oob timeout_ms none s = same_refl s
  provision-SameDecom (some uuid) oob timeout_ms (some client) s =
      split_if (λ (r : EspErr × Gw T). SameDecom s r.1) (not s.is_gateway || s.in_flight)
        (invalid_state, s) (start_flow stack tab uuid oob timeout_ms client s) (λ _. same_refl s)
        (λ _. start_flow-SameDecom uuid oob timeout_ms client s)
