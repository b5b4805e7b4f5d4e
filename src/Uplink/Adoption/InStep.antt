-- ===== src/Uplink/Adoption/InStep.antt =====
-- components/dp_gateway/dp_gateway_adopt.c with components/dp_mesh/dp_mesh_provisioner.c: every history
-- of the gateway.
use dockpulse_iot.Prelude.{ℕ, ◌+◌, ◌≡◌, refl, ap, false, List, [], ◌∷◌, Option, arith}
use dockpulse_iot.Esp.{esp_ok}
use dockpulse_iot.Mesh.Gateway.{MeshStack}
use dockpulse_iot.Mesh.Unbind.{prov_table}
use dockpulse_iot.Mesh.Provisioner.Invariant.{waiting}
use dockpulse_iot.Mesh.Provisioner.History.{
  Input, adopts, cfg_input, prov_input, timer_input, delete_input, decommission_input, react,
}
use dockpulse_iot.Prov.Store.{Nvs}
use dockpulse_iot.Uplink.Answers.{answers, answered, asks, request_input}
use dockpulse_iot.Uplink.Adoption.{
  Adoption, mesh_call, AdoptionInput, adopt_request, cfg_event, prov_event, timer_fires,
  delete_call, decommission_call, moved, adoption_react, adoption_play,
}
use dockpulse_iot.Uplink.Adoption.Agree.{Agrees, event-Agrees}
use dockpulse_iot.Uplink.Adoption.Requests.{call-Agrees}

abbrev pub asked_by : AdoptionInput → ℕ
asked_by (adopt_request r) = asks (request_input r false esp_ok)
asked_by _ = 0

-- How many requests of a history name themselves and a UUID.
abbrev pub requests_in : List AdoptionInput → ℕ
requests_in [] = 0
requests_in (i ∷ is) = asked_by i + requests_in is

module _ (scan_hex2 : List ℕ → Option ℕ) (nvs : Nvs) (stack : MeshStack) where
  event_counts :
      (i : Input) (j : Adoption nvs)
      → adopts stack (prov_table nvs) i j.gw ≡ 0
      → Agrees j
      → let after = moved scan_hex2 nvs stack (react stack (prov_table nvs) i j.gw) j in
        Agrees after × (answered after.app ≡ answered j.app + 0)
  event_counts i j quiet h =
      let (agrees, same) = event-Agrees scan_hex2 nvs stack i j quiet h in
      (agrees, omega (arith, same))

  react-Agrees :
      (i : AdoptionInput) (j : Adoption nvs)
      → Agrees j
      → let after = adoption_react scan_hex2 nvs stack i j in
        Agrees after × (answered after.app ≡ answered j.app + asked_by i)
  react-Agrees (adopt_request r) j h =
      call-Agrees scan_hex2 nvs stack (mesh_call scan_hex2 r j.app) r j refl h
  react-Agrees (cfg_event event op err) j h = event_counts (cfg_input event op err) j refl h
  react-Agrees (prov_event e) j h = event_counts (prov_input e) j refl h
  react-Agrees timer_fires j h = event_counts timer_input j refl h
  react-Agrees (delete_call addr) j h = event_counts (delete_input addr) j refl h
  react-Agrees (decommission_call addr client) j h =
      event_counts (decommission_input addr client) j refl h

  -- The gateway and its mesh stay in step. From a state where an adoption is active in
  -- dp_gateway_adopt.c exactly if one is in flight in the provisioner, and where the provisioner
  -- fulfils its invariant, both hold after every sequence of requests, mesh events, timer events,
  -- deletions and decommissions. The answers sent, plus one if an adoption is in flight in the mesh,
  -- are those of before plus the requests of the sequence that name themselves and a UUID.
  pub adoption_play-Agrees :
      (inputs : List AdoptionInput) (j : Adoption nvs)
      → Agrees j
      → let after = adoption_play scan_hex2 nvs stack inputs j in
        Agrees after
        × (answers after.app.acts + waiting after.gw.in_flight
            ≡ answers j.app.acts + waiting j.gw.in_flight + requests_in inputs)
  adoption_play-Agrees [] j h = (h, omega arith)
  adoption_play-Agrees (i ∷ is) j h =
      let next = adoption_react scan_hex2 nvs stack i j in
      let (agrees, one) = react-Agrees i j h in
      let (end, rest) = adoption_play-Agrees is next agrees in
      let was : waiting j.app.active ≡ waiting j.gw.in_flight = ap waiting h.both in
      let now : waiting next.app.active ≡ waiting next.gw.in_flight = ap waiting agrees.both in
      (end, omega (arith, one, rest, was, now))
