-- ===== src/Mesh/Provisioner/Examples.antt =====
-- Runs of components/dp_mesh/dp_mesh_provisioner.c on a concrete gateway.
use dockpulse_iot.Prelude.{
  ℕ, ◌+◌, ◌≡◌, refl, inr, true, false, List, [], ◌∷◌, ◌++◌, none, some, map, arith, replicate,
}
use dockpulse_iot.Esp.{EspErr, esp_ok}
use dockpulse_iot.Mesh.Wire.{
  node_reset_op, app_key_add_op, model_app_bind_op, model_pub_set_op, reply_evt, timeout_evt,
}
use dockpulse_iot.Mesh.Gateway.{
  MeshStack, AddrTable, Gw, step_idle, prov_done, prov_ok, decom_done, decom_orphan, node_reset,
}
use dockpulse_iot.Mesh.Provisioner.{prov_completed}
use dockpulse_iot.Mesh.Provisioner.Invariant.{FlowOk, waiting, count_done}
use dockpulse_iot.Mesh.Provisioner.Decom.{DecomOk}
use dockpulse_iot.Mesh.Provisioner.History.{
  Input, cfg_input, prov_input, timer_input, decommission_input, provision_input, play, adopted,
  play-Invariant, play-answers_adoptions,
}
use dockpulse_iot.Mesh.Provisioner.Steps.{sent, newest, key_msg, bind_msg, pub_msg}
use dockpulse_iot.Mesh.Provisioner.Story.{play-adopts}
use dockpulse_iot.Mesh.Provisioner.Verdict.{lost, play-decommissions}

abbrev node_key : List ℕ
node_key = replicate 16 7

abbrev stack : MeshStack
stack = record {
  ret = λ log c. esp_ok;
  node_key = λ log addr. some node_key;
  knows_uuid = λ log u. false;
}

-- The addresses that are bound.
abbrev drop_addr : ℕ → List ℕ → EspErr × List ℕ
drop_addr a t = (esp_ok, [])

abbrev bound : AddrTable
bound = record { T = List ℕ; forget = drop_addr }

abbrev resting : Gw (List ℕ)
resting = record {
  is_gateway = true;
  status_cb = true;
  diag_cb = true;
  state_cb = true;
  prov_cb = none;
  prov_uuid = [];
  in_flight = false;
  target_addr = 0;
  dev_key = [];
  timer = false;
  cfg_step = step_idle;
  cfg_attempts = 0;
  decom_active = false;
  decom_addr = 0;
  decom_attempts = 0;
  decom_cb = none;
  table = 5 ∷ [];
  log = [];
}

abbrev adopting : Gw (List ℕ)
adopting = record resting { in_flight = true; prov_cb = some 1; timer = true }

resting-FlowOk : FlowOk resting
resting-FlowOk = ground arith

resting-DecomOk : DecomOk resting
resting-DecomOk = ground arith

abbrev day : List Input
day =
    provision_input (some (replicate 16 1)) none 60000 (some 1)
    ∷ decommission_input 5 (some 2)
    ∷ lost
    ∷ prov_input (prov_completed 6)
    ∷ timer_input
    ∷ cfg_input reply_evt node_reset_op 0
    ∷ []

play-Invariant_example :
    FlowOk (play stack bound day resting) × DecomOk (play stack bound day resting)
play-Invariant_example = play-Invariant stack bound day resting resting-FlowOk resting-DecomOk

play-answers_adoptions_example :
    count_done (play stack bound day resting).log + waiting (play stack bound day resting).in_flight
    ≡ 0 + 0 + adopted stack bound day resting
play-answers_adoptions_example = play-answers_adoptions stack bound day resting resting-FlowOk

play-adopts_example :
    let replies =
      map
        (λ op. cfg_input reply_evt op 0)
        (app_key_add_op ∷ model_app_bind_op ∷ model_pub_set_op ∷ []) in
    let after = play stack bound (prov_input (prov_completed 6) ∷ replies) adopting in
    (after.in_flight ≡ false)
    × (sent after.log ≡ pub_msg 6 ∷ bind_msg 6 ∷ key_msg 6 ∷ [])
    × (newest after.log ≡ some (prov_done 1 (prov_ok 6 node_key)))
play-adopts_example =
    play-adopts stack bound 6 1 node_key app_key_add_op model_app_bind_op model_pub_set_op adopting
      (λ log m. refl) refl refl refl refl refl

play-decommissions_example :
    let before = play stack bound (decommission_input 5 (some 2) ∷ replicate 2 lost) resting in
    let after = play stack bound (cfg_input timeout_evt node_reset_op 0 ∷ []) before in
    (after.decom_active ≡ false)
    × (after.table ≡ [])
    × (sent after.log ≡ replicate (2 + 1) (node_reset 5 1000) ++ [])
    × (newest after.log ≡ some (decom_done 2 decom_orphan (2 + 1) none))
play-decommissions_example =
    play-decommissions stack bound 2 5 2 0 false timeout_evt resting refl refl
      (λ e. absurd (omega arith)) (omega arith) (inr (refl, refl, refl))
