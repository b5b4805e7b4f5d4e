-- ===== src/Mesh/Provisioner/Decom.antt =====
-- components/dp_mesh/dp_mesh_provisioner.c: the invariant of a decommission between two events, and one
-- answer for each.
use dockpulse_iot.Prelude.{
  ℕ, suc, ◌+◌, ◌≤◌, ◌≡◌, ◌≢◌, refl, sym, ◌∙◌, ap, true, false, List, [], ◌∷◌, Option, arith,
  split_if, ltb, ◌==◌, not,
}
use dockpulse_iot.Esp.{is_ok}
use dockpulse_iot.Mesh.Wire.{CfgEvent, publish_evt, timeout_evt, reply_evt}
use dockpulse_iot.Mesh.Gateway.{
  Phase, cfg_app_key, cfg_bind, cfg_pub_set, appkey_send, bind_send, pubset_send, FailCode,
  next_step, cfg_fail, Call, DecomResult, decom_done, CfgStep, step_idle, step_app_key_add,
  step_model_app_bind, step_model_pub_set, step_done, past_done, cfg_max_attempts,
  decom_max_attempts, MeshStack, AddrTable, Gw,
}
use dockpulse_iot.Mesh.Provisioner.{
  cfg_do_current_step, send_or_fail, prov_finish_ok, prov_finish_err, enter_step, emit_state,
  step_code, cfg_step_advance, cfg_step_redo, decom_finish, on_decom_event, on_flow_event,
}
use dockpulse_iot.Mesh.Provisioner.Invariant.{is_some, waiting}

-- Between events an active decommission names a node and has made one to three attempts; without one
-- its variables are zero.
pub record DecomOk {T : Type 0} (s : Gw T) : Type 0 where
  pub active : s.decom_active ≡ true → (s.decom_addr ≢ 0) × (1 ≤ s.decom_attempts)
  pub bounded : s.decom_attempts ≤ decom_max_attempts
  pub inactive :
      s.decom_active ≡ false
      → (s.decom_addr ≡ 0) × (s.decom_attempts ≡ 0) × (is_some s.decom_cb ≡ false)

-- How many decommissions have been answered, and how many clients wait.
abbrev pub count_decoms : List Call → ℕ
count_decoms [] = 0
count_decoms (decom_done client r n code ∷ cs) = suc (count_decoms cs)
count_decoms (_ ∷ cs) = count_decoms cs

-- What the client is told: its number, the result, the attempts, the code.
abbrev pub Told : Type 0
Told = ℕ × DecomResult × ℕ × Option FailCode

-- The calls of clients in a log, newest first.
abbrev pub decom_calls : List Call → List Told
decom_calls [] = []
decom_calls (decom_done client r n code ∷ cs) = (client, r, n, code) ∷ decom_calls cs
decom_calls (_ ∷ cs) = decom_calls cs

abbrev pub decoms : {T : Type 0} → Gw T → ℕ
decoms s = count_decoms s.log + waiting (is_some s.decom_cb)

-- The variables of a decommission, which an adoption does not touch.
pub record SameDecom {T : Type 0} (s after : Gw T) : Type 0 where
  pub active : after.decom_active ≡ s.decom_active
  pub addr : after.decom_addr ≡ s.decom_addr
  pub attempts : after.decom_attempts ≡ s.decom_attempts
  pub cb : after.decom_cb ≡ s.decom_cb
  pub count : count_decoms after.log ≡ count_decoms s.log
  pub calls : decom_calls after.log ≡ decom_calls s.log

module _ (stack : MeshStack) (tab : AddrTable) where
  open tab use {T}

  pub same_trans : (a b c : Gw T) → SameDecom a b → SameDecom b c → SameDecom a c
  same_trans a b c h k = record {
    active = k.active ∙ h.active;
    addr = k.addr ∙ h.addr;
    attempts = k.attempts ∙ h.attempts;
    cb = k.cb ∙ h.cb;
    count = k.count ∙ h.count;
    calls = k.calls ∙ h.calls;
  }

  pub SameDecom-DecomOk :
      (s after : Gw T) → SameDecom s after → DecomOk s → DecomOk after × (decoms after ≡ decoms s)
  SameDecom-DecomOk s after h ok =
      let same : decoms after ≡ decoms s = rw (h.cb, h.count) refl in
      (
        record {
          active = λ e.
              let (named, one) = ok.active (sym h.active ∙ e) in
              (λ z. named (sym h.addr ∙ z), rw h.attempts one);
          bounded = rw h.attempts ok.bounded;
          inactive = λ e.
              let (z, n, c) = ok.inactive (sym h.active ∙ e) in
              (h.addr ∙ z, h.attempts ∙ n, ap is_some h.cb ∙ c);
        },
        same,
      )

  pub finish_err-SameDecom :
      (code : FailCode) (s : Gw T) → SameDecom s (prov_finish_err stack tab code s)
  unfolding prov_finish_err
  finish_err-SameDecom code s = ground arith

  finish_ok-SameDecom :
      (addr : ℕ) (key : List ℕ) (s : Gw T) → SameDecom s (prov_finish_ok stack tab addr key s)
  unfolding prov_finish_ok
  finish_ok-SameDecom addr key s = ground arith

  pub emit-SameDecom : (ph : Phase) (s : Gw T) → SameDecom s (emit_state stack tab ph s)
  emit-SameDecom ph s = ground arith

  do_step-SameDecom : (addr : ℕ) (s : Gw T) → SameDecom s (cfg_do_current_step stack tab addr s).1
  unfolding cfg_do_current_step
  do_step-SameDecom addr s = ground arith

  pub send_or_fail-SameDecom :
      (code : FailCode) (addr : ℕ) (s : Gw T) → SameDecom s (send_or_fail stack tab code addr s)
  unfolding send_or_fail
  send_or_fail-SameDecom code addr s =
      let sent = (cfg_do_current_step stack tab addr s).1 in
      let one = do_step-SameDecom addr s in
      split_if (SameDecom s) (is_ok (cfg_do_current_step stack tab addr s).0) sent
        (prov_finish_err stack tab code sent) (λ _. one)
        (λ _.
          same_trans s sent (prov_finish_err stack tab code sent) one
            (finish_err-SameDecom code sent))

  emit_send-SameDecom :
      (ph : Phase) (code : FailCode) (addr : ℕ) (s : Gw T)
      → SameDecom s (send_or_fail stack tab code addr (emit_state stack tab ph s))
  emit_send-SameDecom ph code addr s =
      let told = emit_state stack tab ph s in
      same_trans s told (send_or_fail stack tab code addr told) (emit-SameDecom ph s)
        (send_or_fail-SameDecom code addr told)

  enter-SameDecom :
      (step : CfgStep) (addr : ℕ) (s : Gw T) → SameDecom s (enter_step stack tab step addr s)
  enter-SameDecom step_idle addr s = ground arith
  enter-SameDecom step_app_key_add addr s = emit_send-SameDecom cfg_app_key appkey_send addr s
  enter-SameDecom step_model_app_bind addr s = emit_send-SameDecom cfg_bind bind_send addr s
  enter-SameDecom step_model_pub_set addr s = emit_send-SameDecom cfg_pub_set pubset_send addr s
  enter-SameDecom step_done addr s = finish_ok-SameDecom addr s.dev_key s
  enter-SameDecom past_done addr s = ground arith

  pub advance-SameDecom : (addr : ℕ) (s : Gw T) → SameDecom s (cfg_step_advance stack tab addr s)
  unfolding cfg_step_advance
  advance-SameDecom addr s =
      let step = next_step s.cfg_step in
      let entered = record s { cfg_step = step; cfg_attempts = 1 } in
      same_trans s entered (enter_step stack tab step addr entered) (ground arith)
        (enter-SameDecom step addr entered)

  redo-SameDecom : (addr : ℕ) (s : Gw T) → SameDecom s (cfg_step_redo stack tab addr s)
  unfolding cfg_step_redo
  redo-SameDecom addr s =
      let again = record s { cfg_attempts = s.cfg_attempts + 1 } in
      let code = step_code stack tab s.cfg_step in
      same_trans s again (send_or_fail stack tab code addr again) (ground arith)
        (send_or_fail-SameDecom code addr again)

  pub flow_event-SameDecom :
      (event : CfgEvent) (err : ℕ) (s : Gw T) → SameDecom s (on_flow_event stack tab event err s)
  unfolding on_flow_event
  flow_event-SameDecom publish_evt err s = ground arith
  flow_event-SameDecom timeout_evt err s =
      split_if (SameDecom s) (ltb s.cfg_attempts cfg_max_attempts)
        (cfg_step_redo stack tab s.target_addr s) (prov_finish_err stack tab cfg_fail s)
        (λ _. redo-SameDecom s.target_addr s) (λ _. finish_err-SameDecom cfg_fail s)
  flow_event-SameDecom reply_evt err s =
      split_if (SameDecom s) (not (err == 0)) (prov_finish_err stack tab cfg_fail s)
        (cfg_step_advance stack tab s.target_addr s) (λ _. finish_err-SameDecom cfg_fail s)
        (λ _. advance-SameDecom s.target_addr s)

  pub decom_event-DecomOk :
      (event : CfgEvent) (err : ℕ) (s : Gw T)
      → DecomOk s
      → s.decom_active ≡ true
      → let after = on_decom_event stack tab event err s in
        DecomOk after × (decoms after ≡ decoms s)
  unfolding on_decom_event decom_finish
  decom_event-DecomOk publish_evt err s h act = (h, refl)
  decom_event-DecomOk timeout_evt err s h act = ground arith
  decom_event-DecomOk reply_evt err s h act = ground arith
