-- ===== src/Uplink/Adoption/Begins.antt =====
-- components/dp_mesh/dp_mesh_provisioner.c: the flow that a call of the gateway begins.
use dockpulse_iot.Prelude.{
  ℕ, ◌≡◌, refl, ◌∙◌, true, false, not, ◌||◌, List, Option, none, some, arith, if◌then◌else◌,
  split_if,
}
use dockpulse_iot.Esp.{EspErr, esp_ok, is_ok, invalid_state}
use dockpulse_iot.Mesh.Gateway.{MeshStack, Gw, Phase, started, set_uuid_match, note, step_idle}
use dockpulse_iot.Mesh.Unbind.{prov_table}
use dockpulse_iot.Mesh.Provisioner.{emit_state, set_oob, arm_timer, gateway_provision, start_flow}
use dockpulse_iot.Prov.Store.{Nvs, State}

module _ (nvs : Nvs) (stack : MeshStack) where
  abbrev pub Same : Gw (State nvs) → Gw (State nvs) → Type 0
  Same s after =
      (after.cfg_step ≡ s.cfg_step)
      × (after.prov_cb ≡ s.prov_cb)
      × (after.decom_active ≡ s.decom_active)
      × (after.table ≡ s.table)

  -- The flow that a call begins.
  abbrev pub Begins : ℕ → Gw (State nvs) → EspErr × Gw (State nvs) → Type 0
  Begins client s r =
      is_ok r.0 ≡ true
      → (r.1.cfg_step ≡ step_idle)
        × (r.1.prov_cb ≡ some client)
        × (r.1.decom_active ≡ s.decom_active)
        × (r.1.table ≡ s.table)

  emit-Same : (ph : Phase) (s : Gw (State nvs)) → Same s (emit_state stack (prov_table nvs) ph s)
  emit-Same ph s = ground arith

  timer-Same : (ms : ℕ) (s : Gw (State nvs)) → Same s (arm_timer stack (prov_table nvs) ms s)
  timer-Same ms s = ground arith

  oob-Same :
      (oob : Option (List ℕ)) (s : Gw (State nvs)) → Same s (set_oob stack (prov_table nvs) oob s).1
  oob-Same none s = (refl, refl, refl, refl)
  oob-Same (some v) s = (refl, refl, refl, refl)

  start-Begins :
      (uuid : List ℕ) (oob : Option (List ℕ)) (ms client : ℕ) (s : Gw (State nvs))
      → Begins client s (start_flow stack (prov_table nvs) uuid oob ms client s)
  unfolding start_flow
  start-Begins uuid oob ms client s =
      let begun = record s {
        in_flight = true;
        prov_cb = some client;
        prov_uuid = uuid;
        target_addr = 0;
        cfg_step = step_idle;
        cfg_attempts = 0;
      } in
      let (e, with_oob) = set_oob stack (prov_table nvs) oob begun in
      let (s1, p1, d1, t1) = oob-Same oob begun in
      let e' = stack.ret with_oob.log (set_uuid_match uuid true) in
      let matched = note (set_uuid_match uuid true) with_oob in
      let armed = arm_timer stack (prov_table nvs) ms matched in
      let (s2, p2, d2, t2) = timer-Same ms matched in
      let (s3, p3, d3, t3) = emit-Same started armed in
      let flies : EspErr × Gw (State nvs) =
        (esp_ok, emit_state stack (prov_table nvs) started armed) in
      let refused : EspErr × Gw (State nvs) = (e', record matched { in_flight = false }) in
      let unset : EspErr × Gw (State nvs) = (e, record with_oob { in_flight = false }) in
      split_if (Begins client s) (is_ok e) (if is_ok e' then flies else refused) unset
        (λ _.
          split_if (Begins client s) (is_ok e') flies refused
            (λ _ _. (s3 ∙ s2 ∙ s1, p3 ∙ p2 ∙ p1, d3 ∙ d2 ∙ d1, t3 ∙ t2 ∙ t1))
            (λ no ok. absurd (cc (no, ok))))
        (λ no ok. absurd (cc (no, ok)))

  pub provision-Begins :
      (uuid : List ℕ) (oob : Option (List ℕ)) (ms client : ℕ) (s : Gw (State nvs))
      → Begins client s
          (gateway_provision stack (prov_table nvs) (some uuid) oob ms (some client) s)
  unfolding gateway_provision
  provision-Begins uuid oob ms client s =
      split_if (Begins client s) (not s.is_gateway || s.in_flight) (invalid_state, s)
        (start_flow stack (prov_table nvs) uuid oob ms client s) (λ _ ok. absurd (cc ok))
        (λ _. start-Begins uuid oob ms client s)
