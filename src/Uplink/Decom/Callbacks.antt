-- ===== src/Uplink/Decom/Callbacks.antt =====
-- components/dp_mesh/dp_mesh_provisioner.c: every event calls the waiting client or leaves it alone.
use dockpulse_iot.Prelude.{
  ℕ, ◌≡◌, refl, ◌⊎◌, inl, inr, not, ◌&&◌, ◌∷◌, none, some, arith, if◌then◌else◌, split_if,
  Bool-cases, Option-cases, ltb, ◌==◌,
}
use dockpulse_iot.Esp.{is_ok, is_not_found}
use dockpulse_iot.Mesh.Wire.{CfgEvent, publish_evt, timeout_evt, reply_evt, CfgOp, is_node_reset}
use dockpulse_iot.Mesh.Gateway.{
  MeshStack, AddrTable, Gw, DecomResult, decom_ok, decom_orphan, delete_fail, nvs_write,
  delete_node, decom_max_attempts,
}
use dockpulse_iot.Mesh.Provisioner.{
  decom_finish, on_decom_event, on_flow_event, on_cfg_client, demote,
}
use dockpulse_iot.Mesh.Provisioner.Decom.{Told, decom_calls, SameDecom, flow_event-SameDecom}

-- What an input does to the callbacks: nothing, or it calls and forgets the waiting client.
abbrev pub Tells : {T : Type 0} → Gw T → Gw T → Type 0
Tells s after =
    ((decom_calls after.log ≡ decom_calls s.log) × (after.decom_cb ≡ s.decom_cb))
    ⊎ ((t : Told) × (s.decom_cb ≡ some t.0)
        × (decom_calls after.log ≡ t ∷ decom_calls s.log)
        × (after.decom_cb ≡ none))

module _ (stack : MeshStack) (tab : AddrTable) where
  open tab use {T, forget}

  pub finish-Tells : (result : DecomResult) (s : Gw T) → Tells s (decom_finish stack tab result s)
  unfolding decom_finish
  finish-Tells result s = elim (Option-cases s.decom_cb) [
    | inl e ↦ inl (ground arith, ground arith)
    | inr (c, e) ↦
        let d = stack.ret s.log (delete_node s.decom_addr) in
        let first =
          demote stack tab (not (is_ok d) && not (is_not_found d)) delete_fail (result, none) in
        let verdict =
          demote stack tab (not (is_ok (forget s.decom_addr s.table).0)) nvs_write first in
        inr ((c, verdict.0, s.decom_attempts, verdict.1), e, ground arith, ground arith)
  ]

  pub decom_event-Tells :
      (event : CfgEvent) (err : ℕ) (s : Gw T) → Tells s (on_decom_event stack tab event err s)
  unfolding on_decom_event
  decom_event-Tells publish_evt err s = inl (refl, refl)
  decom_event-Tells timeout_evt err s =
      elim (Bool-cases (ltb s.decom_attempts decom_max_attempts)) [
        | inl again ↦ rw again (inl (refl, refl))
        | inr last ↦ rw last (finish-Tells decom_orphan s)
      ]
  decom_event-Tells reply_evt err s =
      split_if (Tells s) (not (err == 0)) (decom_finish stack tab decom_orphan s)
        (decom_finish stack tab decom_ok s) (λ _. finish-Tells decom_orphan s)
        (λ _. finish-Tells decom_ok s)

  pub SameDecom-Tells : (s after : Gw T) → SameDecom s after → Tells s after
  SameDecom-Tells s after h = inl (h.calls, h.cb)

  pub cfg_client-Tells :
      (event : CfgEvent) (op : CfgOp) (err : ℕ) (s : Gw T)
      → Tells s (on_cfg_client stack tab event op err s)
  unfolding on_cfg_client
  cfg_client-Tells event op err s =
      split_if (Tells s) (s.decom_active && is_node_reset op) (on_decom_event stack tab event err s)
        (if s.in_flight then on_flow_event stack tab event err s else s)
        (λ _. decom_event-Tells event err s)
        (λ _.
          split_if (Tells s) s.in_flight (on_flow_event stack tab event err s) s
            (λ _.
              SameDecom-Tells s (on_flow_event stack tab event err s)
                (flow_event-SameDecom stack tab event err s))
            (λ _. inl (refl, refl)))
