-- ===== src/Sensor/Delivery.antt =====
-- components/dp_mesh: what a sensor publishes reaches the gateway's upper layer unchanged.
use dockpulse_iot.Prelude.{ℕ, ◌≡◌, ◌≢◌, refl, true, List, ◌∷◌, none, some, arith, length, take_all}
use dockpulse_iot.Esp.{esp_ok, is_ok}
use dockpulse_iot.Codec.Messages.{
  BerthStatus, BerthDiag, StatusInRange, DiagInRange, status_wire_len, diag_wire_len,
}
use dockpulse_iot.Codec.Status.{status_bytes, pack_whole, unpack_whole, length-status_bytes}
use dockpulse_iot.Codec.Diag.{diag_bytes, length-diag_bytes, pack_whole_diag, unpack_whole_diag}
use dockpulse_iot.Mesh.Wire.{VendorOp, status_pub, diag_pub}
use dockpulse_iot.Mesh.Gateway.{MeshStack, AddrTable, Gw, status_up, diag_up, note}
use dockpulse_iot.Mesh.Provisioner.{handle_model_op}
use dockpulse_iot.Sensor.Node.{
  NodeStack, Node, publish, publish_status, publish_diag, publish_guard,
}

module _ (node_stack : NodeStack) (stack : MeshStack) (tab : AddrTable) where
  -- A node that may publish, on a stack that takes every publication.
  pub record CanPublish (s : Node) : Type 0 where
    pub sensor : s.is_sensor ≡ true
    pub ready : s.ready_fired ≡ true
    pub armed : s.publish_addr ≢ 0
    pub takes :
        (op : VendorOp) (msg : List ℕ) → is_ok (node_stack.ret s.log (publish op msg)) ≡ true

  open_guard : (s : Node) → CanPublish s → publish_guard node_stack true s ≡ none
  open_guard s h = let a = h.sensor in let b = h.ready in let c = h.armed in ground arith

  -- On a ready, armed sensor, with a stack that takes publications, publishing a status in range
  -- succeeds and sends one message; and when the gateway, with a status handler, is given this message
  -- under the same operation code, its handler is called once, with the same status and the source
  -- address, and nothing else changes.
  pub publish_status-handle_model_op :
      (st old : BerthStatus) (d : BerthDiag) (wire : List ℕ) (src : ℕ) (s : Node) (gw : Gw tab.T)
      → CanPublish s
      → StatusInRange st
      → length wire ≡ status_wire_len
      → gw.status_cb ≡ true
      → let (e, after) = publish_status node_stack wire (some st) s in
        (e ≡ esp_ok)
        × ((msg : List ℕ) × (after.log ≡ publish status_pub msg ∷ s.log)
            × (handle_model_op stack tab old d status_pub msg (length msg) src gw
                ≡ note (status_up st src) gw))
  unfolding publish_status handle_model_op
  publish_status-handle_model_op st old d wire src s gw can range len cb =
      rw
        (
          open_guard s can,
          pack_whole st wire len,
          take_all (status_bytes st) 11 (length-status_bytes st),
          can.takes status_pub (status_bytes st),
        )
        (refl, (status_bytes st, refl, rw (unpack_whole st old range, cb) refl))

  -- The same of a diagnostic message.
  pub publish_diag-handle_model_op :
      (d old : BerthDiag) (st : BerthStatus) (wire : List ℕ) (src : ℕ) (s : Node) (gw : Gw tab.T)
      → CanPublish s
      → DiagInRange d
      → length wire ≡ diag_wire_len
      → gw.diag_cb ≡ true
      → let (e, after) = publish_diag node_stack wire (some d) s in
        (e ≡ esp_ok)
        × ((msg : List ℕ) × (after.log ≡ publish diag_pub msg ∷ s.log)
            × (handle_model_op stack tab st old diag_pub msg (length msg) src gw
                ≡ note (diag_up d src) gw))
  unfolding publish_diag handle_model_op
  publish_diag-handle_model_op d old st wire src s gw can range len cb =
      rw
        (
          open_guard s can,
          pack_whole_diag d wire range len,
          take_all (diag_bytes d) 42 (length-diag_bytes d range.gate_total),
          can.takes diag_pub (diag_bytes d),
        )
        (refl, (diag_bytes d, refl, rw (unpack_whole_diag d old range, cb) refl))
