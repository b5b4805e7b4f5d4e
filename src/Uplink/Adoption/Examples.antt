-- ===== src/Uplink/Adoption/Examples.antt =====
-- Runs of adoptions, from the request to the answer.
use dockpulse_iot.Prelude.{◌+◌, ◌≡◌, refl, true, false, List, [], ◌∷◌, some, none, arith, replicate}
use dockpulse_iot.Esp.{esp_ok, is_ok}
use dockpulse_iot.Mesh.Wire.{app_key_add_op, model_pub_set_op, reply_evt, model_app_bind_op}
use dockpulse_iot.Mesh.Gateway.{MeshStack, Gw, step_idle}
use dockpulse_iot.Mesh.Provisioner.{
  link_opened, prov_completed, gateway_provision, start_flow, has_node_with_uuid,
}
use dockpulse_iot.Mesh.Provisioner.Invariant.{waiting}
use dockpulse_iot.Prov.Store.{State, lookup_berth}
use dockpulse_iot.Uplink.Adopt.{Adopt, resp_ok, hex_decode, hex_bytes, request_oob, request_timeout}
use dockpulse_iot.Uplink.Answers.{answers}
use dockpulse_iot.Uplink.Adoption.{
  Adoption, AdoptionInput, adopt_request, cfg_event, prov_event, timer_fires, decommission_call,
  adoption_play,
}
use dockpulse_iot.Uplink.Adoption.Agree.{Agrees}
use dockpulse_iot.Uplink.Adoption.InStep.{requests_in, adoption_play-Agrees}
use dockpulse_iot.Mesh.Unbind.{prov_table}
use dockpulse_iot.Uplink.Hex.{hex_text}
use dockpulse_iot.Uplink.Adoption.Story.{newest_act, without_losses}
use dockpulse_iot.Uplink.Adoption.Bound.{Reaches, request-bound}
use dockpulse_iot.Uplink.Samples.{
  fresh-IsValid, t1_accepted, has_room, scan_digits, request, read_only, fresh,
}

abbrev stack : MeshStack
stack = record {
  ret = λ log c. esp_ok;
  node_key = λ log addr. some (replicate 16 7);
  knows_uuid = λ log u. false;
}

abbrev idle_app : Adopt
idle_app = record { active = false; req_id = []; berth_id = []; node_id = []; acts = [] }

abbrev idle_gw : Gw (State read_only)
idle_gw = record {
  is_gateway = true;
  status_cb = true;
  diag_cb = true;
  state_cb = true;
  prov_cb = none;
  prov_uuid = [];
  in_flight = false;
  target_addr = 0;
  dev_key = [];
  timer = false;
  cfg_step = step_idle;
  cfg_attempts = 0;
  decom_active = false;
  decom_addr = 0;
  decom_attempts = 0;
  decom_cb = none;
  table = fresh;
  log = [];
}

abbrev idle : Adoption read_only
idle = record { app = idle_app; gw = idle_gw }

idle-Agrees : Agrees idle
idle-Agrees = ground arith

-- The second request finds the first under way.
abbrev afternoon : List AdoptionInput
afternoon =
    adopt_request (some request)
    ∷ prov_event link_opened
    ∷ adopt_request (some request)
    ∷ prov_event (prov_completed 6)
    ∷ cfg_event reply_evt model_app_bind_op 0
    ∷ timer_fires
    ∷ decommission_call 5 none
    ∷ []

adoption_play-Agrees_example :
    let after = adoption_play scan_digits read_only stack afternoon idle in
    Agrees after
    × (answers after.app.acts + waiting after.gw.in_flight ≡ 0 + 0 + requests_in afternoon)
adoption_play-Agrees_example =
    adoption_play-Agrees scan_digits read_only stack afternoon idle idle-Agrees

request-Reaches : Reaches scan_digits request (b'7' ∷ []) (replicate 16 1) none
unfolding hex_decode hex_bytes request_oob
request-Reaches = record {
  named = refl;
  hex = hex_text (replicate 16 1);
  given = refl;
  decoded = refl;
  oob_decoded = refl;
}

idle_starts :
    is_ok
      (gateway_provision stack
        (prov_table read_only)
        (some (replicate 16 1))
        none
        (request_timeout request.ttl_s)
        (some 0)
        idle_gw).0
    ≡ true
unfolding gateway_provision start_flow
idle_starts = refl

idle_knows : has_node_with_uuid stack (prov_table read_only) (some (replicate 16 1)) idle_gw ≡ false
unfolding has_node_with_uuid
idle_knows = refl

request-bound_example :
    let inputs =
      adopt_request (some request)
      ∷ without_losses 5 app_key_add_op model_app_bind_op model_pub_set_op in
    let after = adoption_play scan_digits read_only stack inputs idle in
    (after.app.active ≡ false)
    × (newest_act after.app.acts ≡ some (resp_ok (b'7' ∷ []) 5 (replicate 16 7)))
    × (lookup_berth read_only 5 after.gw.table ≡ some (b't' ∷ b'1' ∷ []))
request-bound_example =
    request-bound scan_digits read_only stack 5 (replicate 16 7) (b'7' ∷ []) (replicate 16 1)
      (b't' ∷ b'1' ∷ []) none app_key_add_op model_app_bind_op model_pub_set_op request idle
      (λ log m. refl) (λ log. refl) idle-Agrees refl refl refl fresh-IsValid request-Reaches
      idle_knows idle_starts refl t1_accepted has_room
