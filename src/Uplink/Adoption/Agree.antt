-- ===== src/Uplink/Adoption/Agree.antt =====
-- components/dp_gateway/dp_gateway_adopt.c with components/dp_mesh/dp_mesh_provisioner.c: the two agree
-- on whether an adoption is under way.
use dockpulse_iot.Prelude.{
  ℕ, ◌+◌, ◌≡◌, refl, sym, ◌∙◌, Bool, false, List, [], ◌∷◌, Option, arith, if◌then◌else◌, ◌==◌,
}
use dockpulse_iot.Mesh.Gateway.{MeshStack, Gw, Call}
use dockpulse_iot.Mesh.Unbind.{prov_table}
use dockpulse_iot.Mesh.Provisioner.Invariant.{FlowOk, count_done, waiting}
use dockpulse_iot.Mesh.Provisioner.History.{Input, react, adopts, react-FlowOk}
use dockpulse_iot.Mesh.Provisioner.NewCalls.{new_calls, done_one, react-Adds, count_done-new}
use dockpulse_iot.Prov.Store.{Nvs, State}
use dockpulse_iot.Uplink.Adopt.{on_prov_state, on_prov_done}
use dockpulse_iot.Uplink.Answers.{answered}
use dockpulse_iot.Uplink.Adoption.{Adoption, hear, hear_all, moved}

-- Both are idle, or both have the one adoption that is under way.
pub record Agrees {nvs : Nvs} (j : Adoption nvs) : Type 0 where
  pub flow : FlowOk j.gw
  pub both : j.app.active ≡ j.gw.in_flight

module _ (nvs : Nvs) where
  hear-FlowOk :
      (c : Call) (j : Adoption nvs)
      → FlowOk j.gw
      → (FlowOk (hear nvs c j).gw) × ((hear nvs c j).gw.in_flight ≡ j.gw.in_flight)
  unfolding hear
  hear-FlowOk c j h = ground arith

  hear-answered : (c : Call) (j : Adoption nvs) → answered (hear nvs c j).app ≡ answered j.app
  unfolding hear on_prov_state on_prov_done
  hear-answered c j = ground arith

  hear-active :
      (c : Call) (j : Adoption nvs)
      → (hear nvs c j).app.active ≡ (if count_done (c ∷ []) == 0 then j.app.active else false)
  unfolding hear on_prov_state on_prov_done
  hear-active c j = ground arith

  pub all-FlowOk :
      (cs : List Call) (j : Adoption nvs)
      → FlowOk j.gw
      → FlowOk (hear_all nvs cs j).gw × ((hear_all nvs cs j).gw.in_flight ≡ j.gw.in_flight)
  all-FlowOk [] j h = (h, refl)
  all-FlowOk (c ∷ cs) j h =
      let (ok, same) = all-FlowOk cs j h in
      let (ok', same') = hear-FlowOk c (hear_all nvs cs j) ok in (ok', same' ∙ same)

  pub all-answered :
      (cs : List Call) (j : Adoption nvs) → answered (hear_all nvs cs j).app ≡ answered j.app
  all-answered [] j = refl
  all-answered (c ∷ cs) j = hear-answered c (hear_all nvs cs j) ∙ all-answered cs j

  settle :
      (one rest : ℕ) (b : Bool)
      → (if one == 0 then (if rest == 0 then b else false) else false)
        ≡ (if one + rest == 0 then b else false)
  settle one rest b = ground arith

  pub all-active :
      (cs : List Call) (j : Adoption nvs)
      → (hear_all nvs cs j).app.active ≡ (if count_done cs == 0 then j.app.active else false)
  all-active [] j = refl
  all-active (c ∷ cs) j =
      let this = hear-active c (hear_all nvs cs j) in
      rw (this, all-active cs j, done_one c cs)
        (settle (count_done (c ∷ [])) (count_done cs) j.app.active)

-- A flow that ends is answered once.
ends_once :
    (n : ℕ) (was now active : Bool)
    → n + waiting now ≡ waiting was
    → active ≡ was
    → (if n == 0 then active else false) ≡ now
ends_once n was now active count same = ground arith

module _ (scan_hex2 : List ℕ → Option ℕ) (nvs : Nvs) (stack : MeshStack) where
  -- The callbacks keep the agreement when the provisioner has counted its answers.
  pub moved-Agrees :
      (gw : Gw (State nvs)) (j : Adoption nvs)
      → FlowOk gw
      → count_done (new_calls j.gw.log gw.log) + waiting gw.in_flight ≡ waiting j.app.active
      → let after = moved scan_hex2 nvs stack gw j in
        Agrees after × (answered after.app ≡ answered j.app)
  moved-Agrees gw j ok count =
      let cs = new_calls j.gw.log gw.log in
      let start : Adoption nvs = record j { gw = gw } in
      let (flow, same) = all-FlowOk nvs cs start ok in
      let ends = ends_once (count_done cs) j.app.active gw.in_flight j.app.active count refl in
      (
        record { flow = flow; both = all-active nvs cs start ∙ ends ∙ sym same },
        all-answered nvs cs start,
      )

  pub event-Agrees :
      (i : Input) (j : Adoption nvs)
      → adopts stack (prov_table nvs) i j.gw ≡ 0
      → Agrees j
      → let after = moved scan_hex2 nvs stack (react stack (prov_table nvs) i j.gw) j in
        Agrees after × (answered after.app ≡ answered j.app)
  event-Agrees i j quiet h =
      let gw = react stack (prov_table nvs) i j.gw in
      let (ok, count) = react-FlowOk stack (prov_table nvs) i j.gw h.flow in
      let new = count_done-new j.gw.log gw.log (react-Adds stack (prov_table nvs) i j.gw) in
      moved-Agrees gw j ok (rw h.both (omega (arith, quiet, count, new)))
