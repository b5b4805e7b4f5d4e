-- ===== src/Mesh/Provisioner/Story.antt =====
-- components/dp_mesh/dp_mesh_provisioner.c: a whole adoption, from the provisioned node to the answer.
use dockpulse_iot.Prelude.{
  map, ℕ, ◌≡◌, refl, sym, ◌∙◌, ap, subst, true, false, List, [], ◌∷◌, some, arith, split_if,
}
use dockpulse_iot.Mesh.Wire.{CfgOp, reply_evt}
use dockpulse_iot.Mesh.Gateway.{
  pb_adv_done, next_step, CfgMsg, prov_done, CfgStep, step_idle, step_app_key_add,
  step_model_app_bind, step_model_pub_set, step_done, MeshStack, AddrTable, Gw, note, prov_ok,
  delete_node,
}
use dockpulse_iot.Mesh.Provisioner.{
  prov_finish_ok, enter_step, emit_state, cfg_step_advance, on_flow_event, on_cfg_client,
  on_prov_complete, key_or_zero, prov_completed, handle_prov_event,
}
use dockpulse_iot.Mesh.Provisioner.History.{cfg_input, prov_input, play}
use dockpulse_iot.Mesh.Provisioner.Steps.{
  sent, newest, key_msg, bind_msg, pub_msg, step_msg, GoesOn, AlwaysSends, advance_sends,
}

module _ (stack : MeshStack) (tab : AddrTable) where
  open tab use {T, forget}

  -- A reply without error advances the flow.
  reply_advances :
      (op : CfgOp) (s : Gw T)
      → s.in_flight ≡ true
      → s.decom_active ≡ false
      → on_cfg_client stack tab reply_evt op 0 s ≡ cfg_step_advance stack tab s.target_addr s
  unfolding on_cfg_client on_flow_event
  reply_advances op s fl dec = rw (dec, fl) refl

  finish_ok_tells :
      (addr client : ℕ) (key : List ℕ) (s : Gw T)
      → s.in_flight ≡ true
      → s.prov_cb ≡ some client
      → let after = prov_finish_ok stack tab addr key s in
        (after.in_flight ≡ false)
        × (sent after.log ≡ sent s.log)
        × (newest after.log ≡ some (prov_done client (prov_ok addr key)))
        × (after.table ≡ s.table)
  unfolding prov_finish_ok
  finish_ok_tells addr client key s fl cb = ground arith

  last_reply :
      (addr client : ℕ) (s : Gw T)
      → s.in_flight ≡ true
      → s.cfg_step ≡ step_model_pub_set
      → s.prov_cb ≡ some client
      → let after = cfg_step_advance stack tab addr s in
        (after.in_flight ≡ false)
        × (sent after.log ≡ sent s.log)
        × (newest after.log ≡ some (prov_done client (prov_ok addr s.dev_key)))
        × (after.table ≡ s.table)
  unfolding cfg_step_advance
  last_reply addr client s fl e cb =
      let Ends : CfgStep → Type 0 = λ c.
        let step = next_step c in
        let after =
          enter_step stack tab step addr (record s { cfg_step = step; cfg_attempts = 1 }) in
        (after.in_flight ≡ false)
        × (sent after.log ≡ sent s.log)
        × (newest after.log ≡ some (prov_done client (prov_ok addr s.dev_key)))
        × (after.table ≡ s.table) in
      subst Ends (sym e) (
        finish_ok_tells addr client s.dev_key (record s { cfg_step = step_done; cfg_attempts = 1 })
          fl cb)

  -- `ESP_BLE_MESH_PROVISIONER_PROV_COMPLETE_EVT` starts the configuration.
  complete_sends :
      (addr : ℕ) (key : List ℕ) (s : Gw T)
      → AlwaysSends stack tab
      → s.in_flight ≡ true
      → s.cfg_step ≡ step_idle
      → stack.node_key s.log addr ≡ some key
      → let after = handle_prov_event stack tab (prov_completed addr) s in
        (after.in_flight ≡ true)
        × (after.decom_active ≡ s.decom_active)
        × (after.prov_cb ≡ s.prov_cb)
        × (after.target_addr ≡ addr)
        × (after.dev_key ≡ key)
        × (after.cfg_step ≡ step_app_key_add)
        × (sent after.log ≡ key_msg addr ∷ sent s.log)
        × (after.table ≡ s.table)
  unfolding handle_prov_event on_prov_complete
  complete_sends addr key s sends fl st k =
      let keyed = record s {
        target_addr = addr;
        dev_key = key_or_zero stack tab (stack.node_key s.log addr);
      } in
      let told = emit_state stack tab pb_adv_done keyed in
      let same : (told.in_flight ≡ true)
          × (told.decom_active ≡ s.decom_active)
          × (told.prov_cb ≡ s.prov_cb)
          × (told.target_addr ≡ addr)
          × (told.dev_key ≡ key)
          × (sent told.log ≡ sent s.log)
          × (next_step told.cfg_step ≡ step_app_key_add)
          × (told.table ≡ s.table) =
        ground arith in
      let (f, d, c, a, dk, l, n, t) = same in
      let (on, at, log) =
        advance_sends stack tab step_app_key_add addr told (key_msg addr) sends n refl in
      split_if
        (λ after.
          (after.in_flight ≡ true)
          × (after.decom_active ≡ s.decom_active)
          × (after.prov_cb ≡ s.prov_cb)
          × (after.target_addr ≡ addr)
          × (after.dev_key ≡ key)
          × (after.cfg_step ≡ step_app_key_add)
          × (sent after.log ≡ key_msg addr ∷ sent s.log)
          × (after.table ≡ s.table))
        s.in_flight (cfg_step_advance stack tab addr told) (note (delete_node addr) s)
        (λ _. (
          on.flight ∙ f,
          on.decom ∙ d,
          on.cb ∙ c,
          on.target ∙ a,
          on.key ∙ dk,
          at,
          log ∙ ap (λ l. key_msg addr ∷ l) l,
          on.table ∙ t,
        ))
        (λ z. absurd (cc (z, fl)))

  -- A reply in the middle of the configuration sends the next message.
  reply_sends :
      (step : CfgStep) (op : CfgOp) (addr : ℕ) (s : Gw T) (m : CfgMsg)
      → AlwaysSends stack tab
      → s.in_flight ≡ true
      → s.decom_active ≡ false
      → s.target_addr ≡ addr
      → next_step s.cfg_step ≡ step
      → step_msg step addr ≡ some m
      → let after = on_cfg_client stack tab reply_evt op 0 s in
        GoesOn s after × (after.cfg_step ≡ step) × (sent after.log ≡ m ∷ sent s.log)
  reply_sends step op addr s m sends fl dec to e h =
      let Ends : Gw T → Type 0 =
        λ after. GoesOn s after × (after.cfg_step ≡ step) × (sent after.log ≡ m ∷ sent s.log) in
      subst Ends (sym (reply_advances op s fl dec))
        (advance_sends stack tab step s.target_addr s m sends e (ap (step_msg step) to ∙ h))

  -- The states of an adoption without losses.
  pub adopts_stages :
      (addr client : ℕ) (key : List ℕ) (op1 op2 op3 : CfgOp) (s : Gw T)
      → AlwaysSends stack tab
      → s.in_flight ≡ true
      → s.cfg_step ≡ step_idle
      → s.decom_active ≡ false
      → s.prov_cb ≡ some client
      → stack.node_key s.log addr ≡ some key
      → let a = handle_prov_event stack tab (prov_completed addr) s in
        let b = on_cfg_client stack tab reply_evt op1 0 a in
        let c = on_cfg_client stack tab reply_evt op2 0 b in
        let after = on_cfg_client stack tab reply_evt op3 0 c in
        (a.in_flight ≡ true)
        × (b.in_flight ≡ true)
        × (c.in_flight ≡ true)
        × (after.in_flight ≡ false)
        × (sent after.log ≡ pub_msg addr ∷ bind_msg addr ∷ key_msg addr ∷ sent s.log)
        × (newest after.log ≡ some (prov_done client (prov_ok addr key)))
        × (after.table ≡ s.table)
  adopts_stages addr client key op1 op2 op3 s sends fl st dec cb k =
      let a = handle_prov_event stack tab (prov_completed addr) s in
      let (fl1, dec1, cb1, to1, key1, at1, log1, tab1) = complete_sends addr key s sends fl st k in
      let (on2, at2, log2) =
        reply_sends step_model_app_bind op1 addr a (bind_msg addr) sends fl1 (dec1 ∙ dec) to1
          (ap next_step at1) refl in
      let b = on_cfg_client stack tab reply_evt op1 0 a in
      let (on3, at3, log3) =
        reply_sends step_model_pub_set op2 addr b (pub_msg addr) sends (on2.flight ∙ fl1)
          (on2.decom ∙ dec1 ∙ dec) (on2.target ∙ to1) (ap next_step at2) refl in
      let c = on_cfg_client stack tab reply_evt op2 0 b in
      let to3 : c.target_addr ≡ addr = on3.target ∙ on2.target ∙ to1 in
      let key3 : c.dev_key ≡ key = on3.key ∙ on2.key ∙ key1 in
      let fl3 : c.in_flight ≡ true = on3.flight ∙ on2.flight ∙ fl1 in
      let (done, same, told, tab4) =
        last_reply c.target_addr client c fl3 at3 (on3.cb ∙ on2.cb ∙ cb1 ∙ cb) in
      let sent3 : sent c.log ≡ pub_msg addr ∷ bind_msg addr ∷ key_msg addr ∷ sent s.log =
        log3 ∙ ap (λ l. pub_msg addr ∷ l) (log2 ∙ ap (λ l. bind_msg addr ∷ l) log1) in
      let Ends : Gw T → Type 0 = λ after.
        (after.in_flight ≡ false)
        × (sent after.log ≡ pub_msg addr ∷ bind_msg addr ∷ key_msg addr ∷ sent s.log)
        × (newest after.log ≡ some (prov_done client (prov_ok addr key)))
        × (after.table ≡ s.table) in
      let end : Ends (on_cfg_client stack tab reply_evt op3 0 c) =
        subst Ends (sym (reply_advances op3 c fl3 (on3.decom ∙ on2.decom ∙ dec1 ∙ dec))) (
          done,
          same ∙ sent3,
          told
              ∙ ap (λ a. some (prov_done client (prov_ok a c.dev_key))) to3
              ∙ ap (λ k. some (prov_done client (prov_ok addr k))) key3,
          tab4 ∙ on3.table ∙ on2.table ∙ tab1,
        ) in
      let (ended, messages, answer, table) = end in
      (fl1, on2.flight ∙ fl1, fl3, ended, messages, answer, table)

  -- Without losses an adoption succeeds. When the node with address addr has been provisioned in a
  -- flow that waits for it, no decommission is active, the stack sends every configuration message
  -- and knows the node's key, three replies without error, whatever their operation codes, end the
  -- flow. It has sent three configuration messages to addr: the application key, its binding and the
  -- publication, in this order. Its last call tells the client success with the address and the key.
  pub play-adopts :
      (addr client : ℕ) (key : List ℕ) (op1 op2 op3 : CfgOp) (s : Gw T)
      → AlwaysSends stack tab
      → s.in_flight ≡ true
      → s.cfg_step ≡ step_idle
      → s.decom_active ≡ false
      → s.prov_cb ≡ some client
      → stack.node_key s.log addr ≡ some key
      → let replies = map (λ op. cfg_input reply_evt op 0) (op1 ∷ op2 ∷ op3 ∷ []) in
        let after = play stack tab (prov_input (prov_completed addr) ∷ replies) s in
        (after.in_flight ≡ false)
        × (sent after.log ≡ pub_msg addr ∷ bind_msg addr ∷ key_msg addr ∷ sent s.log)
        × (newest after.log ≡ some (prov_done client (prov_ok addr key)))
  play-adopts addr client key op1 op2 op3 s sends fl st dec cb k =
      let (_, _, _, done, messages, told, _) =
        adopts_stages addr client key op1 op2 op3 s sends fl st dec cb k in
      (done, messages, told)
