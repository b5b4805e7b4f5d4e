-- ===== src/Mesh/Provisioner/NewCalls.antt =====
-- components/dp_mesh/dp_mesh_provisioner.c: the calls that one event or call of the gateway adds.
use dockpulse_iot.Prelude.{
  ℕ, ◌+◌, ◌*◌, ◌-◌, ◌≡◌, refl, sym, ap, ◌∙◌, true, false, not, ◌&&◌, ◌||◌, List, [], ◌∷◌, ◌++◌,
  Option, none, some, arith, split_if, if◌then◌else◌, ◌==◌, take, length, length-append,
  take-append,
}
use dockpulse_iot.Esp.{EspErr, esp_ok, is_ok, invalid_state, invalid_arg}
use dockpulse_iot.Mesh.Wire.{CfgEvent, CfgOp, is_node_reset}
use dockpulse_iot.Mesh.Gateway.{
  started, link_open, link_close, pb_adv_done, Call, step_idle, set_uuid_match, set_static_oob,
  timer_create, timer_stop, timer_start, delete_node, before_cfg, MeshStack, AddrTable, Gw, note,
}
use dockpulse_iot.Mesh.Provisioner.{
  emit_state, prov_finish_err, send_node_reset, cfg_step_advance, on_decom_event, on_flow_event,
  on_cfg_client, on_prov_complete, key_or_zero, ProvEvent, link_opened, link_closed, logged_only,
  prov_completed, handle_prov_event, gateway_delete_node, decommission_node, set_oob, arm_timer,
  start_flow, gateway_provision,
}
use dockpulse_iot.Mesh.Provisioner.Invariant.{count_done}
use dockpulse_iot.Mesh.Provisioner.History.{
  Input, cfg_input, prov_input, timer_input, delete_input, decommission_input, provision_input,
  react,
}
use dockpulse_iot.Mesh.Provisioner.Grows.{
  Grows, same, more, Grew, emit-Grew, finish_err-Grew, advance-Grew, timer-Grew, decom_event-Grew,
  flow_event-Grew,
}

module _ (stack : MeshStack) (tab : AddrTable) where
  open tab use {T}

  abbrev Adds : Gw T → Gw T → Type 0
  Adds s after = Grew stack tab s.log after

  cfg_client-Adds :
      (event : CfgEvent) (op : CfgOp) (err : ℕ) (s : Gw T)
      → Adds s (on_cfg_client stack tab event op err s)
  unfolding on_cfg_client
  cfg_client-Adds event op err s =
      let flow = on_flow_event stack tab event err s in
      split_if (Adds s) (s.decom_active && is_node_reset op) (on_decom_event stack tab event err s)
        (if s.in_flight then flow else s) (λ _. decom_event-Grew stack tab s.log event err s same)
        (λ _.
          split_if (Adds s) s.in_flight flow s
            (λ _. flow_event-Grew stack tab s.log event err s same) (λ _. same))

  complete-Adds : (addr : ℕ) (s : Gw T) → Adds s (on_prov_complete stack tab addr s)
  unfolding on_prov_complete
  complete-Adds addr s =
      let keyed = record s {
        target_addr = addr;
        dev_key = key_or_zero stack tab (stack.node_key s.log addr);
      } in
      let told = emit_state stack tab pb_adv_done keyed in
      split_if (Adds s) s.in_flight (cfg_step_advance stack tab addr told)
        (note (delete_node addr) s)
        (λ _.
          advance-Grew stack tab s.log addr told (emit-Grew stack tab s.log pb_adv_done keyed same))
        (λ _. more _ same)

  prov_event-Adds : (e : ProvEvent) (s : Gw T) → Adds s (handle_prov_event stack tab e s)
  unfolding handle_prov_event
  prov_event-Adds link_opened s = emit-Grew stack tab s.log link_open s same
  prov_event-Adds link_closed s =
      split_if (Adds s) (s.in_flight && before_cfg s.cfg_step)
        (prov_finish_err stack tab link_close s) s
        (λ _. finish_err-Grew stack tab s.log link_close s same) (λ _. same)
  prov_event-Adds logged_only s = same
  prov_event-Adds (prov_completed addr) s = complete-Adds addr s

  delete-Adds : (addr : ℕ) (s : Gw T) → Adds s (gateway_delete_node stack tab addr s).1
  unfolding gateway_delete_node
  delete-Adds addr s =
      let End : EspErr × Gw T → Type 0 = λ r. Adds s r.1 in
      let reset = send_node_reset stack tab addr s in
      let gone : EspErr × Gw T =
        (stack.ret reset.log (delete_node addr), note (delete_node addr) reset) in
      split_if End (not s.is_gateway) (invalid_state, s)
        (if addr == 0 then (invalid_arg, s) else gone) (λ _. same)
        (λ _.
          split_if End (addr == 0) (invalid_arg, s) gone (λ _. same) (λ _. more _ (more _ same)))

  decommission-Adds :
      (addr : ℕ) (client : Option ℕ) (s : Gw T)
      → Adds s (decommission_node stack tab addr client s).1
  unfolding decommission_node
  decommission-Adds addr client s =
      let End : EspErr × Gw T → Type 0 = λ r. Adds s r.1 in
      let begun = record s {
        decom_active = true;
        decom_addr = addr;
        decom_attempts = 1;
        decom_cb = client;
      } in
      let sends : EspErr × Gw T = (esp_ok, send_node_reset stack tab addr begun) in
      let again : EspErr × Gw T = if s.decom_active then (invalid_state, s) else sends in
      split_if End (not s.is_gateway) (invalid_state, s)
        (if addr == 0 then (invalid_arg, s) else again) (λ _. same)
        (λ _.
          split_if End (addr == 0) (invalid_arg, s) again (λ _. same)
            (λ _.
              split_if End s.decom_active (invalid_state, s) sends (λ _. same) (λ _. more _ same)))

  oob-Adds :
      (old : List Call) (oob : Option (List ℕ)) (s : Gw T)
      → Grew stack tab old s
      → Grew stack tab old (set_oob stack tab oob s).1
  oob-Adds old none s h = h
  oob-Adds old (some v) s h = more (set_static_oob v) h

  timer-Adds :
      (old : List Call) (timeout_ms : ℕ) (s : Gw T)
      → Grew stack tab old s
      → Grew stack tab old (arm_timer stack tab timeout_ms s)
  timer-Adds old timeout_ms s h =
      let G = Grew stack tab old in
      let created = record s {
        timer = is_ok (stack.ret s.log timer_create);
        log = timer_create ∷ s.log;
      } in
      let ready = if s.timer then s else created in
      let made : G ready = split_if G s.timer s created (λ _. h) (λ _. more timer_create h) in
      split_if G ready.timer (note (timer_start (timeout_ms * 1000)) (note timer_stop ready)) ready
        (λ _. more _ (more timer_stop made)) (λ _. made)

  start-Adds :
      (uuid : List ℕ) (oob : Option (List ℕ)) (timeout_ms client : ℕ) (s : Gw T)
      → Adds s (start_flow stack tab uuid oob timeout_ms client s).1
  unfolding start_flow
  start-Adds uuid oob timeout_ms client s =
      let End : EspErr × Gw T → Type 0 = λ r. Adds s r.1 in
      let begun = record s {
        in_flight = true;
        prov_cb = some client;
        prov_uuid = uuid;
        target_addr = 0;
        cfg_step = step_idle;
        cfg_attempts = 0;
      } in
      let (e, with_oob) = set_oob stack tab oob begun in
      let one = oob-Adds s.log oob begun same in
      let e' = stack.ret with_oob.log (set_uuid_match uuid true) in
      let matched = note (set_uuid_match uuid true) with_oob in
      let armed = arm_timer stack tab timeout_ms matched in
      let flies : EspErr × Gw T = (esp_ok, emit_state stack tab started armed) in
      let refused : EspErr × Gw T = (e', record matched { in_flight = false }) in
      split_if End (is_ok e) (if is_ok e' then flies else refused)
        (e, record with_oob { in_flight = false })
        (λ _.
          split_if End (is_ok e') flies refused
            (λ _.
              emit-Grew stack tab s.log started armed
                (timer-Adds s.log timeout_ms matched (more _ one)))
            (λ _. more _ one))
        (λ _. one)

  provision-Adds :
      (uuid oob : Option (List ℕ)) (timeout_ms : ℕ) (client : Option ℕ) (s : Gw T)
      → Adds s (gateway_provision stack tab uuid oob timeout_ms client s).1
  unfolding gateway_provision
  provision-Adds none oob timeout_ms client s = same
  provision-Adds (some uuid) oob timeout_ms none s = same
  provision-Adds (some uuid) oob timeout_ms (some client) s =
      let End : EspErr × Gw T → Type 0 = λ r. Adds s r.1 in
      split_if End (not s.is_gateway || s.in_flight) (invalid_state, s)
        (start_flow stack tab uuid oob timeout_ms client s) (λ _. same)
        (λ _. start-Adds uuid oob timeout_ms client s)

  pub react-Adds : (i : Input) (s : Gw T) → Adds s (react stack tab i s)
  react-Adds (cfg_input event op err) s = cfg_client-Adds event op err s
  react-Adds (prov_input e) s = prov_event-Adds e s
  react-Adds timer_input s = timer-Grew stack tab s.log s same
  react-Adds (delete_input addr) s = delete-Adds addr s
  react-Adds (decommission_input addr client) s = decommission-Adds addr client s
  react-Adds (provision_input uuid oob timeout_ms client) s =
      provision-Adds uuid oob timeout_ms client s

-- The calls that a log has more than an older one.
abbrev pub new_calls : List Call → List Call → List Call
new_calls before after = take (length after - length before) after

pub done_one :
    (c : Call) (cs : List Call) → count_done (c ∷ cs) ≡ count_done (c ∷ []) + count_done cs
done_one c cs = ground arith

count_done-append :
    (new old : List Call) → count_done (new ++ old) ≡ count_done new + count_done old
count_done-append [] old = omega arith
count_done-append (c ∷ cs) old =
    omega (arith, count_done-append cs old, done_one c (cs ++ old), done_one c cs)

grown :
    (before after : List Call) → Grows before after → (new : List Call) × (after ≡ new ++ before)
grown before after same = ([], refl)
grown before after (more c h) = let (new, e) = grown before _ h in (c ∷ new, ap (λ l. c ∷ l) e)

new_calls-append : (new old : List Call) → new_calls old (new ++ old) ≡ new
new_calls-append new old =
    let n : length (new ++ old) - length old ≡ length new = omega (arith, length-append new old) in
    ap (λ k. take k (new ++ old)) n ∙ take-append new old

pub count_done-new :
    (before after : List Call)
    → Grows before after
    → count_done after ≡ count_done (new_calls before after) + count_done before
count_done-new before after h =
    let (new, e) = grown before after h in
    rw (e, new_calls-append new before) (count_done-append new before)

pub grown_new :
    (before after : List Call) → Grows before after → after ≡ new_calls before after ++ before
grown_new before after h =
    let (new, e) = grown before after h in
    let same = ap (new_calls before) e ∙ new_calls-append new before in
    e ∙ ap (λ l. l ++ before) (sym same)
