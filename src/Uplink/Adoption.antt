-- ===== src/Uplink/Adoption.antt =====
-- components/dp_gateway/dp_gateway_adopt.c on the provisioner of components/dp_mesh and the table of
-- components/dp_prov: a request on its way to the mesh, and the callbacks that the mesh calls.
pub mod Agree
pub mod Requests
pub mod InStep
pub mod Story
pub mod Begins
pub mod Bound
mod Examples
use dockpulse_iot.Prelude.{
  ℕ, ◌+◌, ◌≡◌, Bool, true, false, List, [], ◌∷◌, Option, none, some, if◌then◌else◌,
}
use dockpulse_iot.Esp.{EspErr, esp_ok}
use dockpulse_iot.Mesh.Wire.{CfgEvent, CfgOp}
use dockpulse_iot.Mesh.Gateway.{MeshStack, Gw, Call, emit, prov_done, ProvResult, prov_ok, prov_err}
use dockpulse_iot.Mesh.Unbind.{prov_table}
use dockpulse_iot.Mesh.Provisioner.{ProvEvent, gateway_provision, has_node_with_uuid}
use dockpulse_iot.Mesh.Provisioner.History.{
  Input, cfg_input, prov_input, timer_input, delete_input, decommission_input, react,
}
use dockpulse_iot.Mesh.Provisioner.NewCalls.{new_calls}
use dockpulse_iot.Prov.Store.{Nvs, State, record_node}
use dockpulse_iot.Uplink.Adopt.{
  Request, Adopt, hex_decode, request_oob, request_timeout, some_if_text, handle_provision_req,
  on_prov_state, on_prov_done,
}

-- `s_inflight` with the messages sent, and the provisioner, whose table is that of dp_prov.
pub record Adoption (nvs : Nvs) : Type 0 where
  pub app : Adopt
  pub gw : Gw (State nvs)

-- The arguments of `dp_mesh_gateway_provision`: UUID, OOB value, time.
abbrev pub MeshCall : Type 0
MeshCall = List ℕ × Option (List ℕ) × ℕ

module _ (scan_hex2 : List ℕ → Option ℕ) where
  -- The call of the mesh that a request comes to, if no check before it fails.
  abbrev pub oob_call : Request → List ℕ → Option (Option (List ℕ)) → Option MeshCall
  oob_call r uuid none = none
  oob_call r uuid (some oob) = some (uuid, oob, request_timeout r.ttl_s)

  abbrev pub uuid_call : Request → Option (List ℕ) → Option MeshCall
  uuid_call r none = none
  uuid_call r (some uuid) = oob_call r uuid (request_oob scan_hex2 r.oob)

  abbrev pub named_call : Option (List ℕ) → Option (List ℕ) → Request → Adopt → Option MeshCall
  named_call (some req_id) (some uuid) r s =
      if s.active then none else uuid_call r (hex_decode scan_hex2 uuid 16)
  named_call (some req_id) none r s = none
  named_call none uuid r s = none

  unfoldable pub mesh_call : Option Request → Adopt → Option MeshCall
  mesh_call none s = none
  mesh_call (some r) s = named_call r.req_id r.uuid r s

module _ (nvs : Nvs) where
  -- The call of `dp_prov_record_node` in `on_prov_done`.
  abbrev pub bind_text : ℕ → List ℕ → List ℕ → State nvs → State nvs
  bind_text addr [] node t = t
  bind_text addr (c ∷ cs) node t = (record_node nvs addr (some (c ∷ cs)) (some_if_text node) t).1

  abbrev pub bind_berth : ProvResult → Adopt → State nvs → State nvs
  bind_berth (prov_ok addr key) s t = if s.active then bind_text addr s.berth_id s.node_id t else t
  bind_berth (prov_err code) s t = t

  -- A call of the provisioner, heard by the callbacks of dp_gateway_adopt.c.
  unfoldable pub hear : Call → Adoption nvs → Adoption nvs
  hear (emit ph) j = record j { app = on_prov_state ph j.app }
  hear (prov_done client r) j = record {
    app = on_prov_done r j.app;
    gw = record j.gw { table = bind_berth r j.app j.gw.table };
  }
  hear _ j = j

  -- Calls, newest first.
  abbrev pub hear_all : List Call → Adoption nvs → Adoption nvs
  hear_all [] j = j
  hear_all (c ∷ older) j = hear c (hear_all older j)

-- What reaches the gateway: a request, or what reaches the provisioner otherwise.
pub data AdoptionInput : Type 0 where
  adopt_request : Option Request → AdoptionInput
  cfg_event : CfgEvent → CfgOp → ℕ → AdoptionInput
  prov_event : ProvEvent → AdoptionInput
  timer_fires : AdoptionInput
  delete_call : ℕ → AdoptionInput
  decommission_call : ℕ → Option ℕ → AdoptionInput

module _ (scan_hex2 : List ℕ → Option ℕ) (nvs : Nvs) (stack : MeshStack) where
  -- The provisioner has moved on to `gw`; the callbacks hear what it called.
  abbrev pub moved : Gw (State nvs) → Adoption nvs → Adoption nvs
  moved gw j = hear_all nvs (new_calls j.gw.log gw.log) (record j { gw = gw })

  -- The rest of a request, with the call of the mesh that it comes to. The one client of the mesh is 0.
  abbrev pub with_call : Option MeshCall → Option Request → Adoption nvs → Adoption nvs
  with_call none r j = record j { app = handle_provision_req scan_hex2 r false esp_ok j.app }
  with_call (some (uuid, oob, ms)) r j =
      let (e, gw) = gateway_provision stack (prov_table nvs) (some uuid) oob ms (some 0) j.gw in
      let known = record j { app = handle_provision_req scan_hex2 r true e j.app } in
      let app = handle_provision_req scan_hex2 r false e j.app in
      if has_node_with_uuid stack (prov_table nvs) (some uuid) j.gw
      then known
      else moved gw (record j { app = app })

  abbrev pub adoption_react : AdoptionInput → Adoption nvs → Adoption nvs
  adoption_react (adopt_request r) j = with_call (mesh_call scan_hex2 r j.app) r j
  adoption_react (cfg_event event op err) j =
      moved (react stack (prov_table nvs) (cfg_input event op err) j.gw) j
  adoption_react (prov_event e) j = moved (react stack (prov_table nvs) (prov_input e) j.gw) j
  adoption_react timer_fires j = moved (react stack (prov_table nvs) timer_input j.gw) j
  adoption_react (delete_call addr) j =
      moved (react stack (prov_table nvs) (delete_input addr) j.gw) j
  adoption_react (decommission_call addr client) j =
      moved (react stack (prov_table nvs) (decommission_input addr client) j.gw) j

  abbrev pub adoption_play : List AdoptionInput → Adoption nvs → Adoption nvs
  adoption_play [] j = j
  adoption_play (i ∷ is) j = adoption_play is (adoption_react i j)
