-- ===== src/Uplink/Adoption/Story.antt =====
-- components/dp_gateway/dp_gateway_adopt.c, components/dp_mesh/dp_mesh_provisioner.c and
-- components/dp_prov/dp_prov.c: an adoption up to the berth of the node.
use dockpulse_iot.Prelude.{
  ℕ, suc, ◌≡◌, refl, sym, ap, ◌∙◌, subst, Bool, true, false, List, [], ◌∷◌, ◌++◌, Option, none,
  some, arith,
}
use dockpulse_iot.Mesh.Wire.{CfgOp, reply_evt}
use dockpulse_iot.Mesh.Gateway.{MeshStack, Gw, Call, prov_done, ProvResult, prov_ok, step_idle}
use dockpulse_iot.Mesh.Unbind.{prov_table}
use dockpulse_iot.Mesh.Provisioner.{prov_completed}
use dockpulse_iot.Mesh.Provisioner.Invariant.{FlowOk, count_done, waiting}
use dockpulse_iot.Mesh.Provisioner.History.{
  Input, adopts, react, react-FlowOk, cfg_input, prov_input,
}
use dockpulse_iot.Mesh.Provisioner.NewCalls.{
  new_calls, done_one, grown_new, react-Adds, count_done-new,
}
use dockpulse_iot.Mesh.Provisioner.Steps.{newest, AlwaysSends}
use dockpulse_iot.Mesh.Provisioner.Story.{adopts_stages}
use dockpulse_iot.Prov.Store.{Nvs, State}
use dockpulse_iot.Uplink.Adopt.{Adopt, AdoptAct, resp_ok, on_prov_state, on_prov_done}
use dockpulse_iot.Uplink.Adoption.Agree.{Agrees, event-Agrees}
use dockpulse_iot.Uplink.Adoption.{
  Adoption, AdoptionInput, bind_text, hear, hear_all, cfg_event, prov_event, moved, adoption_play,
}

-- The newest message or call of the file.
abbrev pub newest_act : List AdoptAct → Option AdoptAct
newest_act [] = none
newest_act (a ∷ acts) = some a

-- An adoption that goes on in both parts: the request stays as it is.
pub record Keeps {nvs : Nvs} (s : Adopt) (g : Gw (State nvs)) (after : Adoption nvs) : Type 0 where
  pub active : after.app.active ≡ s.active
  pub req_id : after.app.req_id ≡ s.req_id
  pub berth_id : after.app.berth_id ≡ s.berth_id
  pub node_id : after.app.node_id ≡ s.node_id
  pub gw : after.gw ≡ g

-- The events of an adoption without losses.
abbrev pub without_losses : ℕ → CfgOp → CfgOp → CfgOp → List AdoptionInput
without_losses addr op1 op2 op3 =
    prov_event (prov_completed addr)
    ∷ cfg_event reply_evt op1 0
    ∷ cfg_event reply_evt op2 0
    ∷ cfg_event reply_evt op3 0
    ∷ []

-- The only answer of a log's new part is the newest call.
answer_first :
    (cs old after : List Call) (client : ℕ) (r : ProvResult)
    → after ≡ cs ++ old
    → count_done cs ≡ 1
    → newest after ≡ some (prov_done client r)
    → (rest : List Call) × (cs ≡ prov_done client r ∷ rest) × (count_done rest ≡ 0)
answer_first [] old after client r e one h = absurd (omega (arith, one))
answer_first (c ∷ rest) old after client r e one h =
    let first : some c ≡ some (prov_done client r) = sym (ap newest e) ∙ h in
    let same : c ≡ prov_done client r = cc in
    let count : count_done (c ∷ rest) ≡ suc (count_done rest) =
      ap (λ c. count_done (c ∷ rest)) same in
    (rest, ap (λ c. c ∷ rest) same, omega (arith, one, count))

module _ (nvs : Nvs) where
  hear-Keeps :
      (c : Call) (s : Adopt) (g : Gw (State nvs)) (j : Adoption nvs)
      → count_done (c ∷ []) ≡ 0
      → Keeps s g j
      → Keeps s g (hear nvs c j)
  unfolding hear on_prov_state
  hear-Keeps c s g j quiet h = ground arith

  pub all-Keeps :
      (cs : List Call) (j : Adoption nvs) → count_done cs ≡ 0 → Keeps j.app j.gw (hear_all nvs cs j)
  all-Keeps [] j quiet = record {
    active = refl;
    req_id = refl;
    berth_id = refl;
    node_id = refl;
    gw = refl;
  }
  all-Keeps (c ∷ cs) j quiet =
      let both = done_one c cs in
      hear-Keeps c j.app j.gw (hear_all nvs cs j) (omega (arith, both, quiet))
        (all-Keeps cs j (omega (arith, both, quiet)))

  -- An adoption that is answered with success.
  answered_ok :
      (addr client : ℕ) (key : List ℕ) (s : Adopt) (g : Gw (State nvs)) (m : Adoption nvs)
      → Keeps s g m
      → s.active ≡ true
      → let after = hear nvs (prov_done client (prov_ok addr key)) m in
        (after.app.active ≡ false)
        × (newest_act after.app.acts ≡ some (resp_ok s.req_id addr key))
        × (after.gw.table ≡ bind_text nvs addr s.berth_id s.node_id g.table)
  unfolding hear on_prov_done
  answered_ok addr client key s g m k on = ground arith

module _ (scan_hex2 : List ℕ → Option ℕ) (nvs : Nvs) (stack : MeshStack) where
  -- An event in the middle of an adoption.
  event-Keeps :
      (i : Input) (j : Adoption nvs)
      → FlowOk j.gw
      → adopts stack (prov_table nvs) i j.gw ≡ 0
      → j.gw.in_flight ≡ true
      → let gw = react stack (prov_table nvs) i j.gw in
        gw.in_flight ≡ true → Keeps j.app gw (moved scan_hex2 nvs stack gw j)
  event-Keeps i j ok none_starts was now =
      let gw = react stack (prov_table nvs) i j.gw in
      let count = (react-FlowOk stack (prov_table nvs) i j.gw ok).1 in
      let new = count_done-new j.gw.log gw.log (react-Adds stack (prov_table nvs) i j.gw) in
      let on : waiting j.gw.in_flight ≡ 1 = ap waiting was in
      let still : waiting gw.in_flight ≡ 1 = ap waiting now in
      all-Keeps nvs (new_calls j.gw.log gw.log) (record j { gw = gw })
        (omega (arith, none_starts, count, new, on, still))

  -- The event that ends it.
  event_answers :
      (i : Input) (addr client : ℕ) (key : List ℕ) (j : Adoption nvs)
      → FlowOk j.gw
      → adopts stack (prov_table nvs) i j.gw ≡ 0
      → j.gw.in_flight ≡ true
      → j.app.active ≡ true
      → let gw = react stack (prov_table nvs) i j.gw in
        let after = moved scan_hex2 nvs stack gw j in
        gw.in_flight ≡ false
        → newest gw.log ≡ some (prov_done client (prov_ok addr key))
        → (after.app.active ≡ false)
          × (newest_act after.app.acts ≡ some (resp_ok j.app.req_id addr key))
          × (after.gw.table ≡ bind_text nvs addr j.app.berth_id j.app.node_id gw.table)
  event_answers i addr client key j ok none_starts was active now told =
      let gw = react stack (prov_table nvs) i j.gw in
      let grows = react-Adds stack (prov_table nvs) i j.gw in
      let count = (react-FlowOk stack (prov_table nvs) i j.gw ok).1 in
      let new = count_done-new j.gw.log gw.log grows in
      let on : waiting j.gw.in_flight ≡ 1 = ap waiting was in
      let off : waiting gw.in_flight ≡ 0 = ap waiting now in
      let (rest, first, quiet) =
        answer_first (new_calls j.gw.log gw.log) j.gw.log gw.log client (prov_ok addr key)
          (grown_new j.gw.log gw.log grows) (omega (arith, none_starts, count, new, on, off))
          told in
      let start : Adoption nvs = record j { gw = gw } in
      let Ends : List Call → Type 0 = λ cs.
        let after = hear_all nvs cs start in
        (after.app.active ≡ false)
        × (newest_act after.app.acts ≡ some (resp_ok j.app.req_id addr key))
        × (after.gw.table ≡ bind_text nvs addr j.app.berth_id j.app.node_id gw.table) in
      subst Ends (sym first) (
        answered_ok nvs addr client key j.app gw (hear_all nvs rest start)
          (all-Keeps nvs rest start quiet) active)

  pub play-answers_ok :
      (addr client : ℕ) (key : List ℕ) (op1 op2 op3 : CfgOp) (j : Adoption nvs)
      → AlwaysSends stack (prov_table nvs)
      → Agrees j
      → j.gw.in_flight ≡ true
      → j.gw.cfg_step ≡ step_idle
      → j.gw.decom_active ≡ false
      → j.gw.prov_cb ≡ some client
      → stack.node_key j.gw.log addr ≡ some key
      → let after = adoption_play scan_hex2 nvs stack (without_losses addr op1 op2 op3) j in
        (after.app.active ≡ false)
        × (newest_act after.app.acts ≡ some (resp_ok j.app.req_id addr key))
        × (after.gw.table ≡ bind_text nvs addr j.app.berth_id j.app.node_id j.gw.table)
  play-answers_ok addr client key op1 op2 op3 j sends h fl st dec cb k =
      let (fa, fb, fc, off, _, told, table) =
        adopts_stages stack (prov_table nvs) addr client key op1 op2 op3 j.gw sends fl st dec cb
          k in
      let done = prov_input (prov_completed addr) in
      let reply : CfgOp → Input = λ op. cfg_input reply_evt op 0 in
      let flies : Gw (State nvs) → Bool = λ g. g.in_flight in
      let step : Input → Gw (State nvs) → Gw (State nvs) = react stack (prov_table nvs) in
      let a = moved scan_hex2 nvs stack (step done j.gw) j in
      let ka = event-Keeps done j h.flow refl fl fa in
      let ha = (event-Agrees scan_hex2 nvs stack done j refl h).0 in
      let b = moved scan_hex2 nvs stack (step (reply op1) a.gw) a in
      let ea : step (reply op1) a.gw ≡ step (reply op1) (step done j.gw) =
        ap (step (reply op1)) ka.gw in
      let kb = event-Keeps (reply op1) a ha.flow refl (ap flies ka.gw ∙ fa) (ap flies ea ∙ fb) in
      let hb = (event-Agrees scan_hex2 nvs stack (reply op1) a refl ha).0 in
      let gb = kb.gw ∙ ea in
      let c = moved scan_hex2 nvs stack (step (reply op2) b.gw) b in
      let eb = ap (step (reply op2)) gb in
      let kc = event-Keeps (reply op2) b hb.flow refl (ap flies gb ∙ fb) (ap flies eb ∙ fc) in
      let hc = (event-Agrees scan_hex2 nvs stack (reply op2) b refl hb).0 in
      let gc = kc.gw ∙ eb in
      let ec = ap (step (reply op3)) gc in
      let active = kc.active ∙ kb.active ∙ ka.active ∙ h.both ∙ fl in
      let (idle, answer, bound) =
        event_answers (reply op3) addr client key c hc.flow refl (ap flies gc ∙ fc) active
          (ap flies ec ∙ off) (ap (λ g. newest g.log) ec ∙ told) in
      let after = step (reply op3) c.gw in
      let same : after.table ≡ j.gw.table = ap (λ g. g.table) ec ∙ table in
      (
        idle,
        answer ∙ ap (λ r. some (resp_ok r addr key)) (kc.req_id ∙ kb.req_id ∙ ka.req_id),
        bound
            ∙ ap (λ b. bind_text nvs addr b c.app.node_id after.table)
                (kc.berth_id ∙ kb.berth_id ∙ ka.berth_id)
            ∙ ap (λ n. bind_text nvs addr j.app.berth_id n after.table)
                (kc.node_id ∙ kb.node_id ∙ ka.node_id)
            ∙ ap (bind_text nvs addr j.app.berth_id j.app.node_id) same,
      )
