-- ===== src/Mesh/Provisioner/History.antt =====
-- components/dp_mesh/dp_mesh_provisioner.c: histories, the sequences of events and calls that the
-- gateway's file handles one at a time.
use dockpulse_iot.Prelude.{ℕ, ◌+◌, ◌≡◌, List, [], ◌∷◌, Option, arith, ◌&&◌}
use dockpulse_iot.Esp.{is_ok}
use dockpulse_iot.Mesh.Wire.{CfgOp, CfgEvent}
use dockpulse_iot.Mesh.Gateway.{MeshStack, AddrTable, Gw}
use dockpulse_iot.Mesh.Provisioner.{
  prov_timer_cb, on_cfg_client, ProvEvent, handle_prov_event, gateway_delete_node,
  decommission_node, gateway_provision,
}
use dockpulse_iot.Mesh.Provisioner.Invariant.{is_some, waiting}
use dockpulse_iot.Mesh.Provisioner.Invariant.{FlowOk, count_done, is_some, waiting, answered}
use dockpulse_iot.Mesh.Provisioner.Handlers.{
  timer-FlowOk, prov_event-FlowOk, delete_node-FlowOk, decommission-FlowOk, provision-FlowOk,
}
use dockpulse_iot.Mesh.Provisioner.Invariant.{cfg_client-FlowOk}
use dockpulse_iot.Mesh.Provisioner.Decom.{DecomOk, decoms, SameDecom-DecomOk}
use dockpulse_iot.Mesh.Provisioner.DecomHandlers.{
  cfg_client-DecomOk, timer-SameDecom, prov_event-SameDecom, delete_node-SameDecom,
  decommission-DecomOk, provision-SameDecom,
}

-- What reaches the file: the mesh stack's events, the timer, and the calls of the gateway.
pub data Input : Type 0 where
  cfg_input : CfgEvent → CfgOp → ℕ → Input
  prov_input : ProvEvent → Input
  timer_input : Input
  delete_input : ℕ → Input
  decommission_input : ℕ → Option ℕ → Input
  provision_input : Option (List ℕ) → Option (List ℕ) → ℕ → Option ℕ → Input

module _ (stack : MeshStack) (tab : AddrTable) where
  open tab use {T}

  abbrev pub react : Input → Gw T → Gw T
  react (cfg_input event op err) s = on_cfg_client stack tab event op err s
  react (prov_input event) s = handle_prov_event stack tab event s
  react timer_input s = prov_timer_cb stack tab s
  react (delete_input addr) s = (gateway_delete_node stack tab addr s).1
  react (decommission_input addr client) s = (decommission_node stack tab addr client s).1
  react (provision_input uuid oob timeout_ms client) s =
      (gateway_provision stack tab uuid oob timeout_ms client s).1

  abbrev pub play : List Input → Gw T → Gw T
  play [] s = s
  play (i ∷ is) s = play is (react i s)

  -- An input that starts an adoption, or a decommission with a client.
  abbrev pub adopts : Input → Gw T → ℕ
  adopts (provision_input uuid oob timeout_ms client) s =
      waiting (is_ok (gateway_provision stack tab uuid oob timeout_ms client s).0)
  adopts _ s = 0

  abbrev pub drops : Input → Gw T → ℕ
  drops (decommission_input addr client) s =
      waiting (is_ok (decommission_node stack tab addr client s).0 && is_some client)
  drops _ s = 0

  -- How many of them a history holds.
  abbrev pub adopted : List Input → Gw T → ℕ
  adopted [] s = 0
  adopted (i ∷ is) s = adopts i s + adopted is (react i s)

  abbrev pub dropped : List Input → Gw T → ℕ
  dropped [] s = 0
  dropped (i ∷ is) s = drops i s + dropped is (react i s)

  pub react-FlowOk :
      (i : Input) (s : Gw T)
      → FlowOk s
      → FlowOk (react i s) × (answered (react i s) ≡ answered s + adopts i s)
  react-FlowOk (cfg_input event op err) s h =
      let (ok, same) = cfg_client-FlowOk stack tab event op err s h in (ok, omega arith)
  react-FlowOk (prov_input event) s h =
      let (ok, same) = prov_event-FlowOk stack tab event s h in (ok, omega arith)
  react-FlowOk timer_input s h = let (ok, same) = timer-FlowOk stack tab s h in (ok, omega arith)
  react-FlowOk (delete_input addr) s h =
      let (ok, same) = delete_node-FlowOk stack tab addr s h in (ok, omega arith)
  react-FlowOk (decommission_input addr client) s h =
      let (ok, same) = decommission-FlowOk stack tab addr client s h in (ok, omega arith)
  react-FlowOk (provision_input uuid oob timeout_ms client) s h =
      provision-FlowOk stack tab uuid oob timeout_ms client s h

  pub react-DecomOk :
      (i : Input) (s : Gw T)
      → DecomOk s
      → DecomOk (react i s) × (decoms (react i s) ≡ decoms s + drops i s)
  react-DecomOk (cfg_input event op err) s h =
      let (ok, same) = cfg_client-DecomOk stack tab event op err s h in (ok, omega arith)
  react-DecomOk (prov_input event) s h =
      let after = handle_prov_event stack tab event s in
      let (ok, same) =
        SameDecom-DecomOk stack tab s after (prov_event-SameDecom stack tab event s) h in
      (ok, omega arith)
  react-DecomOk timer_input s h =
      let after = prov_timer_cb stack tab s in
      let (ok, same) = SameDecom-DecomOk stack tab s after (timer-SameDecom stack tab s) h in
      (ok, omega arith)
  react-DecomOk (delete_input addr) s h =
      let after = (gateway_delete_node stack tab addr s).1 in
      let (ok, same) =
        SameDecom-DecomOk stack tab s after (delete_node-SameDecom stack tab addr s) h in
      (ok, omega arith)
  react-DecomOk (decommission_input addr client) s h =
      decommission-DecomOk stack tab addr client s h
  react-DecomOk (provision_input uuid oob timeout_ms client) s h =
      let after = (gateway_provision stack tab uuid oob timeout_ms client s).1 in
      let (ok, same) =
        SameDecom-DecomOk stack tab s after
          (provision-SameDecom stack tab uuid oob timeout_ms client s) h in
      (ok, omega arith)

  -- From a state that fulfils the invariants of adoptions and of decommissions, they hold after
  -- every sequence of events and calls. An adoption in flight has a client; its step is one that
  -- waits for the node, with at most three attempts; without one the step is idle. An active
  -- decommission names a node and has made one to three attempts.
  pub play-Invariant :
      (inputs : List Input) (s : Gw T)
      → FlowOk s
      → DecomOk s
      → FlowOk (play inputs s) × DecomOk (play inputs s)
  play-Invariant [] s h k = (h, k)
  play-Invariant (i ∷ is) s h k =
      play-Invariant is (react i s) (react-FlowOk i s h).0 (react-DecomOk i s k).0

  -- Every adoption that is accepted is answered exactly once. After any sequence of events and calls
  -- the answers given, plus one if an adoption is in flight, are those given before, plus one if an
  -- adoption was in flight, plus the adoptions accepted.
  pub play-answers_adoptions :
      (inputs : List Input) (s : Gw T)
      → FlowOk s
      → count_done (play inputs s).log + waiting (play inputs s).in_flight
        ≡ count_done s.log + waiting s.in_flight + adopted inputs s
  play-answers_adoptions [] s h = omega arith
  play-answers_adoptions (i ∷ is) s h =
      let (ok, count) = react-FlowOk i s h in
      let rest = play-answers_adoptions is (react i s) ok in omega (arith, count, rest)

  -- Every accepted decommission with a client is answered exactly once: after any sequence of events
  -- and calls, the answers given and the clients that wait are those of before, plus the accepted
  -- decommissions with a client.
  pub play-answers_decommissions :
      (inputs : List Input) (s : Gw T)
      → DecomOk s
      → decoms (play inputs s) ≡ decoms s + dropped inputs s
  play-answers_decommissions [] s h = omega arith
  play-answers_decommissions (i ∷ is) s h =
      let (ok, count) = react-DecomOk i s h in
      let rest = play-answers_decommissions is (react i s) ok in omega (arith, count, rest)
