-- ===== src/Sensor/Report.antt =====
-- main/sensor_main.c, components/dp_mesh, main/gateway_main.c and components/dp_gateway/dp_gateway.c: from a
-- sample of the radar to the message for the backend.
use dockpulse_iot.Prelude.{ℕ, ◌≡◌, ◌≢◌, refl, ap, true, List, ◌∷◌, Option, some, length, take_all}
use dockpulse_iot.Esp.{EspErr, no_mem}
use dockpulse_iot.Codec.Messages.{
  RadarSample, BerthStatus, BerthDiag, DiagInRange, diag_wire_len, gate_count,
}
use dockpulse_iot.Mesh.Wire.{diag_pub}
use dockpulse_iot.Mesh.Gateway.{MeshStack, AddrTable, Gw, diag_up, note}
use dockpulse_iot.Mesh.Provisioner.{handle_model_op}
use dockpulse_iot.Prov.Store.{Nvs, State, lookup_node_id, record_node}
use dockpulse_iot.Prov.Valid.{IsValid}
use dockpulse_iot.Prov.Refine.{Accepts}
use dockpulse_iot.Sensor.Node.{NodeStack, Node, publish, publish_diag}
use dockpulse_iot.Sensor.Delivery.{CanPublish, publish_diag-handle_model_op}
use dockpulse_iot.Sensor.Loop.{to_diag}
use dockpulse_iot.Uplink.Status.{
  UplinkConfig, Surroundings, node_name, addr_text, record_node-render_berth_id,
}
use dockpulse_iot.Uplink.Diag.{DiagMessage, diag_topic, int8_value, gateway_uplink_diag, on_diag}

module _ (nvs : Nvs) (node_stack : NodeStack) (stack : MeshStack) (tab : AddrTable) where
  -- What the backend is sent for a sample, from the address of a recorded node.
  abbrev pub diag_message : RadarSample → List ℕ → ℕ → ℕ → Surroundings → State nvs → DiagMessage
  diag_message x berth node_id addr w p = record {
    node_id = node_name (lookup_node_id nvs addr p) node_id;
    berth_id = berth;
    mesh_unicast_addr = addr_text addr;
    target_state = int8_value x.target_state;
    raw_distance_cm = x.distance_cm;
    gate_energy = x.gate_energy;
    timestamp = w.now;
  }

  recorded_diag :
      (a : ℕ) (berth : List ℕ) (name : Option (List ℕ)) (p : State nvs) (c : UplinkConfig)
      (w : Surroundings) (x : RadarSample) (node_id idx : ℕ)
      → Accepts a berth name
      → p.loaded ≡ true
      → IsValid p.table
      → (record_node nvs a (some berth) name p).0 ≢ no_mem
      → w.object_made ≡ true
      → w.text_made ≡ true
      → length x.gate_energy ≡ gate_count
      → let after = (record_node nvs a (some berth) name p).1 in
        gateway_uplink_diag nvs c w true (some (to_diag x node_id idx)) a after ≡ (
          w.published,
          some (diag_topic c.harbor_id c.dock_id berth, diag_message x berth node_id a w after),
        )
  unfolding gateway_uplink_diag to_diag
  recorded_diag a berth name p c w x node_id idx acc loaded valid room o t gates =
      rw
        (
          record_node-render_berth_id nvs a berth name p c idx acc loaded valid room,
          o,
          t,
          take_all x.gate_energy 16 gates,
        )
        refl

  -- The radar's energies reach the backend. A ready, armed sensor, on a stack that takes
  -- publications, sends one message for the diagnostics of a sample; the gateway, given this message
  -- from the address of a node that was recorded with a berth on a loaded, valid table (with no
  -- `ESP_ERR_NO_MEM`), calls its handler once; and the handler, with memory for the message,
  -- publishes on the topic of that berth the sample's distance, its target state as a signed number
  -- and its sixteen energies, in their order, whatever berth the sensor named.
  pub publish_diag-on_diag :
      (a : ℕ) (berth : List ℕ) (name : Option (List ℕ)) (p : State nvs) (c : UplinkConfig)
      (w : Surroundings) (x : RadarSample) (node_id idx : ℕ) (old : BerthDiag) (st : BerthStatus)
      (wire : List ℕ) (s : Node) (gw : Gw tab.T)
      → Accepts a berth name
      → p.loaded ≡ true
      → IsValid p.table
      → (record_node nvs a (some berth) name p).0 ≢ no_mem
      → w.object_made ≡ true
      → w.text_made ≡ true
      → CanPublish node_stack stack tab s
      → DiagInRange (to_diag x node_id idx)
      → length x.gate_energy ≡ gate_count
      → length wire ≡ diag_wire_len
      → gw.diag_cb ≡ true
      → let d = to_diag x node_id idx in
        let after = (record_node nvs a (some berth) name p).1 in
        (msg : List ℕ) × ((publish_diag node_stack wire (some d) s).1.log
          ≡ publish diag_pub msg ∷ s.log)
        × (handle_model_op stack tab st old diag_pub msg (length msg) a gw ≡ note (diag_up d a) gw)
        × (on_diag nvs c w true d a after
            ≡ some (diag_topic c.harbor_id c.dock_id berth, diag_message x berth node_id a w after))
  unfolding on_diag
  publish_diag-on_diag a berth name p c w x node_id idx old st wire s gw acc loaded valid room o t
        can range gates len cb =
      let d = to_diag x node_id idx in
      let (ok, (msg, sent, received)) =
        publish_diag-handle_model_op node_stack stack tab d old st wire a s gw can range len cb in
      (
        msg,
        sent,
        received,
        ap (λ (r : EspErr × Option (List ℕ × DiagMessage)). r.1)
            (recorded_diag a berth name p c w x node_id idx acc loaded valid room o t gates),
      )
