-- ===== src/Uplink/Diag.antt =====
-- components/dp_gateway/dp_gateway.c: the diagnostic message for the backend; and what main/gateway_main.c
-- does with the messages of the mesh.
use dockpulse_iot.Prelude.{
  ℕ, ◌-◌, Bool, not, ◌&&◌, List, ◌++◌, Option, none, some, ltb, if◌then◌else◌, take, codes,
}
use dockpulse_iot.Esp.{EspErr, invalid_arg, no_mem}
use dockpulse_iot.Codec.Messages.{BerthStatus, BerthDiag, gate_count}
use dockpulse_iot.Prov.Store.{Nvs, State, lookup_berth, lookup_node_id}
use dockpulse_iot.Uplink.Status.{
  UplinkConfig, Surroundings, StatusMessage, render_berth_id, node_name, addr_text, gateway_uplink,
}

-- A signed number; `negsuc n` is -(n + 1).
pub data ℤ : Type 0 where
  pos : ℕ → ℤ
  negsuc : ℕ → ℤ

-- The `int8_t` of a byte.
abbrev pub int8_value : ℕ → ℤ
int8_value b = if ltb b 128 then pos b else negsuc (255 - b)

abbrev pub diag_topic : List ℕ → List ℕ → List ℕ → List ℕ
diag_topic harbor dock berth = take 191 (
    codes "harbor/" ++ (harbor ++ (codes "/" ++ (dock ++ (codes "/" ++ (berth ++ codes "/diag"))))))

-- The members of the message.
pub record DiagMessage : Type 0 where
  pub node_id : List ℕ
  pub berth_id : List ℕ
  pub mesh_unicast_addr : List ℕ
  pub target_state : ℤ
  pub raw_distance_cm : ℕ
  pub gate_energy : List ℕ
  pub timestamp : List ℕ

-- `gates_made` is whether there is memory for the array of the gates.
abbrev pub send_diag :
    UplinkConfig
    → Surroundings
    → Bool
    → Option (List ℕ)
    → Option (List ℕ)
    → BerthDiag
    → ℕ
    → EspErr × Option (List ℕ × DiagMessage)
send_diag c w gates_made none name d src = (invalid_arg, none)
send_diag c w gates_made (some berth) name d src =
    let message : DiagMessage = record {
      node_id = node_name name d.node_id;
      berth_id = berth;
      mesh_unicast_addr = addr_text src;
      target_state = int8_value d.target_state;
      raw_distance_cm = d.raw_distance_cm;
      gate_energy = take gate_count d.gate_energy;
      timestamp = w.now;
    } in
    if not (w.object_made && (gates_made && w.text_made))
    then (no_mem, none)
    else (w.published, some (diag_topic c.harbor_id c.dock_id berth, message))

module _ (nvs : Nvs) where
  -- `dp_gateway_uplink_diag`: the result, and the topic and the message given to the MQTT wrapper.
  unfoldable pub gateway_uplink_diag :
      UplinkConfig
      → Surroundings
      → Bool
      → Option BerthDiag
      → ℕ
      → State nvs
      → EspErr × Option (List ℕ × DiagMessage)
  gateway_uplink_diag c w gates_made none src p = (invalid_arg, none)
  gateway_uplink_diag c w gates_made (some d) src p =
      send_diag c w gates_made (render_berth_id c (lookup_berth nvs src p) d.berth_id)
        (lookup_node_id nvs src p) d src

  -- `on_status` and `on_diag` of the gateway's main program: what they give to the MQTT wrapper.
  unfoldable pub on_status :
      UplinkConfig → Surroundings → BerthStatus → ℕ → State nvs → Option (List ℕ × StatusMessage)
  on_status c w s src p = (gateway_uplink nvs c w (some s) src p).1

  unfoldable pub on_diag :
      UplinkConfig → Surroundings → Bool → BerthDiag → ℕ → State nvs → Option (List ℕ × DiagMessage)
  on_diag c w gates_made d src p = (gateway_uplink_diag c w gates_made (some d) src p).1
