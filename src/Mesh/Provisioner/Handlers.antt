-- ===== src/Mesh/Provisioner/Handlers.antt =====
-- components/dp_mesh/dp_mesh_provisioner.c: every handler keeps the invariant of adoptions, and answers
-- none twice.
use dockpulse_iot.Prelude.{
  ℕ, ◌+◌, ◌≡◌, refl, true, false, List, Option, none, some, arith, split_if, ◌||◌, ◌&&◌, not,
  if◌then◌else◌,
}
use dockpulse_iot.Esp.{EspErr, esp_ok, invalid_state, is_ok}
use dockpulse_iot.Mesh.Gateway.{
  pb_adv_done, link_open, link_close, timed_out, before_cfg, step_idle, MeshStack, AddrTable, Gw,
  note, delete_node, set_uuid_match, started,
}
use dockpulse_iot.Mesh.Provisioner.{
  prov_finish_err, emit_state, cfg_step_advance, prov_timer_cb, on_prov_complete, key_or_zero,
  ProvEvent, link_opened, link_closed, logged_only, prov_completed, arm_timer, set_oob,
  handle_prov_event, gateway_delete_node, decommission_node, start_flow, gateway_provision,
}
use dockpulse_iot.Mesh.Provisioner.Invariant.{
  FlowOk, waiting, answered, finish_err-FlowOk, emit-FlowOk, advance-FlowOk,
}

module _ (stack : MeshStack) (tab : AddrTable) where
  open tab use {T}

  pub timer-FlowOk :
      (s : Gw T)
      → FlowOk s
      → let after = prov_timer_cb stack tab s in FlowOk after × (answered after ≡ answered s)
  unfolding prov_timer_cb
  timer-FlowOk s h =
      split_if (λ after. FlowOk after × (answered after ≡ answered s)) s.in_flight
        (prov_finish_err stack tab timed_out s) s (λ _. finish_err-FlowOk stack tab timed_out s h)
        (λ _. (h, refl))

  prov_complete-FlowOk :
      (addr : ℕ) (s : Gw T)
      → FlowOk s
      → let after = on_prov_complete stack tab addr s in
        FlowOk after × (answered after ≡ answered s)
  unfolding on_prov_complete
  prov_complete-FlowOk addr s h =
      let keyed = record s {
        target_addr = addr;
        dev_key = key_or_zero stack tab (stack.node_key s.log addr);
      } in
      let (ok, same) = emit-FlowOk stack tab pb_adv_done keyed (ground arith) in
      split_if (λ after. FlowOk after × (answered after ≡ answered s)) s.in_flight
        (cfg_step_advance stack tab addr (emit_state stack tab pb_adv_done keyed))
        (note (delete_node addr) s)
        (λ fl.
          let (ok', same') =
            advance-FlowOk stack tab addr (emit_state stack tab pb_adv_done keyed) ok
              (ground arith) in
          (ok', omega arith))
        (λ _. ground arith)

  pub prov_event-FlowOk :
      (event : ProvEvent) (s : Gw T)
      → FlowOk s
      → let after = handle_prov_event stack tab event s in
        FlowOk after × (answered after ≡ answered s)
  unfolding handle_prov_event
  prov_event-FlowOk link_opened s h = emit-FlowOk stack tab link_open s h
  prov_event-FlowOk link_closed s h =
      split_if (λ after. FlowOk after × (answered after ≡ answered s))
        (s.in_flight && before_cfg s.cfg_step) (prov_finish_err stack tab link_close s) s
        (λ _. finish_err-FlowOk stack tab link_close s h) (λ _. (h, refl))
  prov_event-FlowOk (prov_completed addr) s h = prov_complete-FlowOk addr s h
  prov_event-FlowOk logged_only s h = (h, refl)

  pub delete_node-FlowOk :
      (addr : ℕ) (s : Gw T)
      → FlowOk s
      → let after = (gateway_delete_node stack tab addr s).1 in
        FlowOk after × (answered after ≡ answered s)
  unfolding gateway_delete_node
  delete_node-FlowOk addr s h = ground arith

  pub decommission-FlowOk :
      (addr : ℕ) (client : Option ℕ) (s : Gw T)
      → FlowOk s
      → let after = (decommission_node stack tab addr client s).1 in
        FlowOk after × (answered after ≡ answered s)
  unfolding decommission_node
  decommission-FlowOk addr client s h = ground arith

  arm_timer-FlowOk :
      (timeout_ms : ℕ) (s : Gw T)
      → FlowOk s
      → let after = arm_timer stack tab timeout_ms s in FlowOk after × (answered after ≡ answered s)
  arm_timer-FlowOk timeout_ms s h = ground arith

  set_oob-FlowOk :
      (oob : Option (List ℕ)) (s : Gw T)
      → FlowOk s
      → let after = (set_oob stack tab oob s).1 in FlowOk after × (answered after ≡ answered s)
  set_oob-FlowOk none s h = (h, refl)
  set_oob-FlowOk (some o) s h = ground arith

  set_oob-same :
      (oob : Option (List ℕ)) (s : Gw T)
      → let after = (set_oob stack tab oob s).1 in
        (after.in_flight ≡ s.in_flight) × (after.cfg_step ≡ s.cfg_step)
  set_oob-same none s = (refl, refl)
  set_oob-same (some o) s = (refl, refl)

  -- A flow that is called off leaves no flow.
  called_off :
      (s : Gw T)
      → FlowOk s
      → s.in_flight ≡ true
      → s.cfg_step ≡ step_idle
      → let after = record s { in_flight = false } in
        FlowOk after × (answered after + 1 ≡ answered s)
  called_off s h fl st = ground arith

  start_flow-FlowOk :
      (uuid : List ℕ) (oob : Option (List ℕ)) (timeout_ms client : ℕ) (s : Gw T)
      → s.in_flight ≡ false
      → let (e, after) = start_flow stack tab uuid oob timeout_ms client s in
        FlowOk after × (answered after ≡ answered s + waiting (is_ok e))
  unfolding start_flow
  start_flow-FlowOk uuid oob timeout_ms client s rest =
      let begun = record s {
        in_flight = true;
        prov_cb = some client;
        prov_uuid = uuid;
        target_addr = 0;
        cfg_step = step_idle;
        cfg_attempts = 0;
      } in
      let start : FlowOk begun × (answered begun ≡ answered s + 1) = ground arith in
      let (e, with_oob) = set_oob stack tab oob begun in
      let e' = stack.ret with_oob.log (set_uuid_match uuid true) in
      let matched = note (set_uuid_match uuid true) with_oob in
      let (fl, st) = set_oob-same oob begun in
      let (ok, same) = set_oob-FlowOk oob begun start.0 in
      let (ok', same') = arm_timer-FlowOk timeout_ms matched (ground arith) in
      let armed = arm_timer stack tab timeout_ms matched in
      let (ok'', same'') = emit-FlowOk stack tab started armed ok' in
      let Good : EspErr × Gw T → Type 0 =
        λ (r : EspErr × Gw T). FlowOk r.1 × (answered r.1 ≡ answered s + waiting (is_ok r.0)) in
      split_if Good (is_ok e)
        (if is_ok e'
          then (esp_ok, emit_state stack tab started armed)
          else (e', record matched { in_flight = false }))
        (e, record with_oob { in_flight = false })
        (λ _.
          split_if Good (is_ok e') (esp_ok, emit_state stack tab started armed)
            (e', record matched { in_flight = false }) (λ _. (ok'', omega (arith, start.1, same)))
            (λ bad.
              let (off, less) = called_off matched (ground arith) fl st in
              (off, rw bad (omega (arith, start.1, same)))))
        (λ bad.
          let (off, less) = called_off with_oob ok fl st in
          (off, rw bad (omega (arith, start.1, same))))

  pub provision-FlowOk :
      (uuid : Option (List ℕ)) (oob : Option (List ℕ)) (timeout_ms : ℕ) (client : Option ℕ)
      (s : Gw T)
      → FlowOk s
      → let (e, after) = gateway_provision stack tab uuid oob timeout_ms client s in
        FlowOk after × (answered after ≡ answered s + waiting (is_ok e))
  unfolding gateway_provision
  provision-FlowOk none oob timeout_ms client s h = ground arith
  provision-FlowOk (some uuid) oob timeout_ms none s h = ground arith
  provision-FlowOk (some uuid) oob timeout_ms (some client) s h =
      split_if
        (λ (r : EspErr × Gw T). FlowOk r.1 × (answered r.1 ≡ answered s + waiting (is_ok r.0)))
        (not s.is_gateway || s.in_flight) (invalid_state, s)
        (start_flow stack tab uuid oob timeout_ms client s) (λ _. (h, omega arith))
        (λ rest. start_flow-FlowOk uuid oob timeout_ms client s (ground arith))
