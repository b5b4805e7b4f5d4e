-- ===== src/Mesh/Provisioner/Steps.antt =====
-- components/dp_mesh/dp_mesh_provisioner.c: the configuration messages, and the steps that send them.
use dockpulse_iot.Prelude.{
  ℕ, ◌≡◌, refl, sym, ap, subst, true, List, [], ◌∷◌, Option, none, some, arith, if◌then◌else◌,
}
use dockpulse_iot.Esp.{is_ok}
use dockpulse_iot.Mesh.Wire.{net_idx, app_idx, app_key, group_addr, vnd_model_id, company_id}
use dockpulse_iot.Mesh.Gateway.{
  cfg_app_key, cfg_bind, cfg_pub_set, appkey_send, bind_send, pubset_send, FailCode, next_step,
  Call, CfgMsg, model_app_bind, model_pub_set, CfgStep, step_idle, step_app_key_add,
  step_model_app_bind, step_model_pub_set, step_done, past_done, MeshStack, AddrTable, Gw, note,
  cfg_set, app_key_add,
}
use dockpulse_iot.Mesh.Provisioner.{
  cfg_do_step, cfg_do_current_step, send_or_fail, prov_finish_err, enter_step, emit_state,
  cfg_step_advance,
}

-- The configuration messages of a log, newest first.
abbrev pub sent : List Call → List CfgMsg
sent [] = []
sent (cfg_set m ∷ cs) = m ∷ sent cs
sent (_ ∷ cs) = sent cs

-- The newest call of a log.
abbrev pub newest : List Call → Option Call
newest [] = none
newest (c ∷ cs) = some c

abbrev pub key_msg : ℕ → CfgMsg
key_msg addr = app_key_add addr net_idx app_idx app_key 8000

abbrev pub bind_msg : ℕ → CfgMsg
bind_msg addr = model_app_bind addr addr app_idx vnd_model_id company_id 8000

abbrev pub pub_msg : ℕ → CfgMsg
pub_msg addr = model_pub_set addr addr group_addr app_idx 7 0 (1, 50) vnd_model_id company_id 8000

-- The message of a step.
abbrev pub step_msg : CfgStep → ℕ → Option CfgMsg
step_msg step_app_key_add addr = some (key_msg addr)
step_msg step_model_app_bind addr = some (bind_msg addr)
step_msg step_model_pub_set addr = some (pub_msg addr)
step_msg _ addr = none

-- A flow goes on from one state to the next: nothing of it changes but the step and the log.
pub record GoesOn {T : Type 0} (s after : Gw T) : Type 0 where
  pub flight : after.in_flight ≡ s.in_flight
  pub decom : after.decom_active ≡ s.decom_active
  pub cb : after.prov_cb ≡ s.prov_cb
  pub target : after.target_addr ≡ s.target_addr
  pub key : after.dev_key ≡ s.dev_key
  pub table : after.table ≡ s.table

module _ (stack : MeshStack) (tab : AddrTable) where
  open tab use {T, forget}

  -- Every configuration message is sent.
  abbrev pub AlwaysSends : Type 0
  AlwaysSends = (log : List Call) (m : CfgMsg) → is_ok (stack.ret log (cfg_set m)) ≡ true

  -- A send that succeeds only logs the message.
  send_msg :
      (code : FailCode) (addr : ℕ) (s : Gw T) (step : CfgStep) (m : CfgMsg)
      → AlwaysSends
      → s.cfg_step ≡ step
      → step_msg step addr ≡ some m
      → send_or_fail stack tab code addr s ≡ note (cfg_set m) s
  unfolding send_or_fail cfg_do_current_step
  send_msg code addr s step m sends e h =
      let Sends : CfgStep → Type 0 = λ c.
        (if is_ok (cfg_do_step stack tab c addr s).0
          then (cfg_do_step stack tab c addr s).1
          else prov_finish_err stack tab code (cfg_do_step stack tab c addr s).1)
        ≡ note (cfg_set m) s in
      subst Sends (sym e) (sends_step step h)
    where
      sends_step :
          (c : CfgStep)
          → step_msg c addr ≡ some m
          → (if is_ok (cfg_do_step stack tab c addr s).0
              then (cfg_do_step stack tab c addr s).1
              else prov_finish_err stack tab code (cfg_do_step stack tab c addr s).1)
            ≡ note (cfg_set m) s
      sends_step step_app_key_add k =
          let same : key_msg addr ≡ m = cc in
          rw (sends s.log (key_msg addr)) (ap (λ m. note (cfg_set m) s) same)
      sends_step step_model_app_bind k =
          let same : bind_msg addr ≡ m = cc in
          rw (sends s.log (bind_msg addr)) (ap (λ m. note (cfg_set m) s) same)
      sends_step step_model_pub_set k =
          let same : pub_msg addr ≡ m = cc in
          rw (sends s.log (pub_msg addr)) (ap (λ m. note (cfg_set m) s) same)
      sends_step step_idle k = cc
      sends_step step_done k = cc
      sends_step past_done k = cc

  -- The step that is entered sends its message, and nothing else.
  enter_sends :
      (step : CfgStep) (addr : ℕ) (s : Gw T) (m : CfgMsg)
      → AlwaysSends
      → s.cfg_step ≡ step
      → step_msg step addr ≡ some m
      → let after = enter_step stack tab step addr s in
        GoesOn s after × (after.cfg_step ≡ step) × (sent after.log ≡ m ∷ sent s.log)
  enter_sends step_app_key_add addr s m sends e h =
      rw
        (send_msg appkey_send addr (emit_state stack tab cfg_app_key s) step_app_key_add m sends
          (ground arith) h)
        (ground arith)
  enter_sends step_model_app_bind addr s m sends e h =
      rw
        (send_msg bind_send addr (emit_state stack tab cfg_bind s) step_model_app_bind m sends
          (ground arith) h)
        (ground arith)
  enter_sends step_model_pub_set addr s m sends e h =
      rw
        (send_msg pubset_send addr (emit_state stack tab cfg_pub_set s) step_model_pub_set m sends
          (ground arith) h)
        (ground arith)
  enter_sends step_idle addr s m sends e h = cc
  enter_sends step_done addr s m sends e h = cc
  enter_sends past_done addr s m sends e h = cc

  pub advance_sends :
      (step : CfgStep) (addr : ℕ) (s : Gw T) (m : CfgMsg)
      → AlwaysSends
      → next_step s.cfg_step ≡ step
      → step_msg step addr ≡ some m
      → let after = cfg_step_advance stack tab addr s in
        GoesOn s after × (after.cfg_step ≡ step) × (sent after.log ≡ m ∷ sent s.log)
  unfolding cfg_step_advance
  advance_sends step addr s m sends e h =
      let Ends : CfgStep → Type 0 = λ c.
        let after = enter_step stack tab c addr (record s { cfg_step = c; cfg_attempts = 1 }) in
        GoesOn s after × (after.cfg_step ≡ step) × (sent after.log ≡ m ∷ sent s.log) in
      let entered = record s { cfg_step = step; cfg_attempts = 1 } in
      let (on, at, log) = enter_sends step addr entered m sends refl h in
      subst Ends (sym e) (
        record {
          flight = on.flight;
          decom = on.decom;
          cb = on.cb;
          target = on.target;
          key = on.key;
          table = on.table;
        },
        at,
        log,
      )
