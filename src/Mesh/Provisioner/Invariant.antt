-- ===== src/Mesh/Provisioner/Invariant.antt =====
-- components/dp_mesh/dp_mesh_provisioner.c: the invariant of the gateway between two events, and one
-- answer for each flow.
use dockpulse_iot.Prelude.{
  ℕ, suc, ◌+◌, ◌≤◌, ◌<◌, ◌≡◌, ◌≢◌, refl, inl, inr, Bool, true, false, List, [], ◌∷◌, Option, none,
  some, arith, Bool-cases, split_if, ltb, ◌==◌, ◌&&◌, if◌then◌else◌,
}
use dockpulse_iot.Esp.{is_ok}
use dockpulse_iot.Mesh.Wire.{CfgOp, is_node_reset, CfgEvent, publish_evt, timeout_evt, reply_evt}
use dockpulse_iot.Mesh.Gateway.{
  Phase, cfg_app_key, cfg_bind, cfg_pub_set, appkey_send, bind_send, pubset_send, FailCode,
  next_step, cfg_fail, Call, prov_done, CfgStep, step_idle, step_app_key_add, step_model_app_bind,
  step_model_pub_set, step_done, past_done, cfg_max_attempts, MeshStack, AddrTable, Gw,
}
use dockpulse_iot.Mesh.Provisioner.{
  cfg_do_current_step, send_or_fail, prov_finish_ok, prov_finish_err, enter_step, emit_state,
  step_code, cfg_step_advance, cfg_step_redo, decom_finish, on_decom_event, on_flow_event,
  on_cfg_client,
}

-- A step at which the state machine rests between events.
abbrev pub is_resting : CfgStep → Bool
is_resting step_done = false
is_resting past_done = false
is_resting _ = true

abbrev pub is_some {ℓ} : {A : Type ℓ} → Option A → Bool
is_some none = false
is_some (some a) = true

-- The part of the invariant about adoptions.
pub record FlowOk {T : Type 0} (s : Gw T) : Type 0 where
  pub idle : s.in_flight ≡ false → s.cfg_step ≡ step_idle
  pub client : s.in_flight ≡ true → is_some s.prov_cb ≡ true
  pub resting : is_resting s.cfg_step ≡ true
  pub attempts : s.cfg_attempts ≤ cfg_max_attempts

-- How many adoptions have been answered, and how many are waiting for their answer.
abbrev pub count_done : List Call → ℕ
count_done [] = 0
count_done (prov_done client r ∷ cs) = suc (count_done cs)
count_done (_ ∷ cs) = count_done cs

abbrev pub waiting : Bool → ℕ
waiting b = if b then 1 else 0

abbrev pub answered : {T : Type 0} → Gw T → ℕ
answered s = count_done s.log + waiting s.in_flight

module _ (stack : MeshStack) (tab : AddrTable) where
  open tab use {T}

  pub finish_err-FlowOk :
      (code : FailCode) (s : Gw T)
      → FlowOk s
      → let after = prov_finish_err stack tab code s in FlowOk after × (answered after ≡ answered s)
  unfolding prov_finish_err
  finish_err-FlowOk code s h = ground arith

  do_step-FlowOk :
      (addr : ℕ) (s : Gw T)
      → FlowOk s
      → let after = (cfg_do_current_step stack tab addr s).1 in
        FlowOk after × (answered after ≡ answered s)
  unfolding cfg_do_current_step
  do_step-FlowOk addr s h = ground arith

  send_or_fail-FlowOk :
      (code : FailCode) (addr : ℕ) (s : Gw T)
      → FlowOk s
      → let after = send_or_fail stack tab code addr s in
        FlowOk after × (answered after ≡ answered s)
  unfolding send_or_fail
  send_or_fail-FlowOk code addr s h =
      let (ok, same) = do_step-FlowOk addr s h in
      let sent = (cfg_do_current_step stack tab addr s).1 in
      let (ok', same') = finish_err-FlowOk code sent ok in
      elim (Bool-cases (is_ok (cfg_do_current_step stack tab addr s).0)) [
        | inl good ↦ rw good (ok, same)
        | inr bad ↦ rw bad (ok', omega arith)
      ]

  finish_ok-FlowOk :
      (addr : ℕ) (key : List ℕ) (s : Gw T)
      → (s.in_flight ≡ true → is_some s.prov_cb ≡ true)
      → s.in_flight ≡ true
      → s.cfg_attempts ≤ cfg_max_attempts
      → let after = prov_finish_ok stack tab addr key s in
        FlowOk after × (answered after ≡ answered s)
  unfolding prov_finish_ok
  finish_ok-FlowOk addr key s c fl at = ground arith

  pub emit-FlowOk :
      (ph : Phase) (s : Gw T)
      → FlowOk s
      → let after = emit_state stack tab ph s in FlowOk after × (answered after ≡ answered s)
  emit-FlowOk ph s h = ground arith

  emit_send-FlowOk :
      (ph : Phase) (code : FailCode) (addr : ℕ) (s : Gw T)
      → FlowOk s
      → let after = send_or_fail stack tab code addr (emit_state stack tab ph s) in
        FlowOk after × (answered after ≡ answered s)
  emit_send-FlowOk ph code addr s h =
      let (ok, same) = emit-FlowOk ph s h in
      let (ok', same') = send_or_fail-FlowOk code addr (emit_state stack tab ph s) ok in
      (ok', omega arith)

  enter-FlowOk :
      (step : CfgStep) (addr : ℕ) (s : Gw T)
      → s.cfg_step ≡ step
      → step ≢ past_done
      → s.in_flight ≡ true
      → is_some s.prov_cb ≡ true
      → s.cfg_attempts ≤ cfg_max_attempts
      → let after = enter_step stack tab step addr s in FlowOk after × (answered after ≡ answered s)
  enter-FlowOk step_idle addr s e n fl c at = ground arith
  enter-FlowOk step_app_key_add addr s e n fl c at =
      emit_send-FlowOk cfg_app_key appkey_send addr s (ground arith)
  enter-FlowOk step_model_app_bind addr s e n fl c at =
      emit_send-FlowOk cfg_bind bind_send addr s (ground arith)
  enter-FlowOk step_model_pub_set addr s e n fl c at =
      emit_send-FlowOk cfg_pub_set pubset_send addr s (ground arith)
  enter-FlowOk step_done addr s e n fl c at = finish_ok-FlowOk addr s.dev_key s (λ _. c) fl at
  enter-FlowOk past_done addr s e n fl c at = absurd (n refl)

  pub advance-FlowOk :
      (addr : ℕ) (s : Gw T)
      → FlowOk s
      → s.in_flight ≡ true
      → let after = cfg_step_advance stack tab addr s in
        FlowOk after × (answered after ≡ answered s)
  unfolding cfg_step_advance
  advance-FlowOk addr s h fl =
      let step = next_step s.cfg_step in
      enter-FlowOk step addr (record s { cfg_step = step; cfg_attempts = 1 }) refl
        (not_past s.cfg_step h.resting) fl (h.client fl) (omega arith)
    where
      not_past : (c : CfgStep) → is_resting c ≡ true → next_step c ≢ past_done
      not_past step_idle r e = cc
      not_past step_app_key_add r e = cc
      not_past step_model_app_bind r e = cc
      not_past step_model_pub_set r e = cc
      not_past step_done r e = cc
      not_past past_done r e = cc

  redo-FlowOk :
      (addr : ℕ) (s : Gw T)
      → FlowOk s
      → s.cfg_attempts < cfg_max_attempts
      → let after = cfg_step_redo stack tab addr s in FlowOk after × (answered after ≡ answered s)
  unfolding cfg_step_redo
  redo-FlowOk addr s h lt =
      send_or_fail-FlowOk (step_code stack tab s.cfg_step) addr
        (record s { cfg_attempts = s.cfg_attempts + 1 }) (ground arith)

  flow_event-FlowOk :
      (event : CfgEvent) (err : ℕ) (s : Gw T)
      → FlowOk s
      → s.in_flight ≡ true
      → let after = on_flow_event stack tab event err s in
        FlowOk after × (answered after ≡ answered s)
  unfolding on_flow_event
  flow_event-FlowOk publish_evt err s h fl = (h, refl)
  flow_event-FlowOk timeout_evt err s h fl =
      elim (Bool-cases (ltb s.cfg_attempts cfg_max_attempts)) [
        | inl more ↦ rw more (redo-FlowOk s.target_addr s h (ground arith))
        | inr spent ↦ rw spent (finish_err-FlowOk cfg_fail s h)
      ]
  flow_event-FlowOk reply_evt err s h fl = elim (Bool-cases (err == 0)) [
    | inl good ↦ rw good (advance-FlowOk s.target_addr s h fl)
    | inr bad ↦ rw bad (finish_err-FlowOk cfg_fail s h)
  ]

  decom_event-FlowOk :
      (event : CfgEvent) (err : ℕ) (s : Gw T)
      → FlowOk s
      → let after = on_decom_event stack tab event err s in
        FlowOk after × (answered after ≡ answered s)
  unfolding on_decom_event decom_finish
  decom_event-FlowOk publish_evt err s h = (h, refl)
  decom_event-FlowOk timeout_evt err s h = ground arith
  decom_event-FlowOk reply_evt err s h = ground arith

  pub cfg_client-FlowOk :
      (event : CfgEvent) (op : CfgOp) (err : ℕ) (s : Gw T)
      → FlowOk s
      → let after = on_cfg_client stack tab event op err s in
        FlowOk after × (answered after ≡ answered s)
  unfolding on_cfg_client
  cfg_client-FlowOk event op err s h =
      let Good : Gw T → Type 0 = λ after. FlowOk after × (answered after ≡ answered s) in
      split_if Good (s.decom_active && is_node_reset op) (on_decom_event stack tab event err s)
        (if s.in_flight then on_flow_event stack tab event err s else s)
        (λ _. decom_event-FlowOk event err s h)
        (λ _.
          split_if Good s.in_flight (on_flow_event stack tab event err s) s
            (λ fl. flow_event-FlowOk event err s h fl) (λ _. (h, refl)))
