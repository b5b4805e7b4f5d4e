-- ===== src/Uplink/Examples.antt =====
-- Runs of components/dp_gateway: a subscription that outlives a lost connection, and requests.
use dockpulse_iot.Prelude.{ℕ, ◌≡◌, refl, true, false, List, [], ◌∷◌, none, some, replicate, arith}
use dockpulse_iot.Esp.{esp_ok}
use dockpulse_iot.Uplink.Mqtt.{
  PendingSub, Mqtt, broker_connected, broker_disconnected, mqtt_subscribe, fill_slot, on_mqtt_event,
}
use dockpulse_iot.Uplink.Slots.{Asked}
use dockpulse_iot.Uplink.Sessions.{
  SessionOk, MqttInput, event_input, subscribe_input, mqtt_play, mqtt_subscribe-Asked,
}
use dockpulse_iot.Mesh.Gateway.{started, prov_ok}
use dockpulse_iot.Uplink.Adopt.{Adopt}
use dockpulse_iot.Uplink.Answers.{AdoptInput, request_input, state_input, done_input, adopt_play}
use dockpulse_iot.Uplink.Calls.{CallsOk, adopt_play-CallsOk}
use dockpulse_iot.Codec.Messages.{BerthStatus, battery_unknown}
use dockpulse_iot.Prov.Store.{record_node, lookup_node_id}
use dockpulse_iot.Uplink.Status.{
  status_topic, node_name, addr_text, gateway_uplink, record_node-gateway_uplink,
}
use dockpulse_iot.Uplink.Samples.{
  scan_digits, request, read_only, fresh, fresh-IsValid, t1_accepted, has_room, harbor, calm,
}

abbrev free_sub : PendingSub
free_sub = record { topic = []; qos = 0; active = false }

abbrev online : Mqtt
online = record {
  client = true;
  events = true;
  connected = false;
  msg_cbs = [];
  pending_subs = replicate 4 free_sub;
  lwt_topic = b'l' ∷ [];
  dropped = 0;
  log = [];
}

online-SessionOk : SessionOk online
online-SessionOk = record { client = refl; events = refl; covered = λ e. cc }

abbrev adopt_topic : List ℕ
adopt_topic = b'r' ∷ b'e' ∷ b'q' ∷ []

abbrev lost_once : List MqttInput
lost_once =
    event_input broker_connected
    ∷ event_input broker_disconnected
    ∷ subscribe_input (some adopt_topic) 0
    ∷ event_input broker_connected
    ∷ []

accepted_there : (mqtt_subscribe (some adopt_topic) 1 online).0 ≡ esp_ok
unfolding mqtt_subscribe fill_slot
accepted_there = refl

connected_again :
    (mqtt_play lost_once (mqtt_subscribe (some adopt_topic) 1 online).1).connected ≡ true
unfolding on_mqtt_event
connected_again = refl

mqtt_subscribe-Asked_example :
    Asked adopt_topic 1 (mqtt_play lost_once (mqtt_subscribe (some adopt_topic) 1 online).1).log
mqtt_subscribe-Asked_example =
    mqtt_subscribe-Asked adopt_topic 1 lost_once online refl online-SessionOk accepted_there
      (tt, (tt, (refl, (tt, tt)))) connected_again

-- A reader of two hexadecimal digits.
abbrev no_request : Adopt
no_request = record { active = false; req_id = []; berth_id = []; node_id = []; acts = [] }

abbrev two_requests : List AdoptInput
two_requests =
    request_input (some request) false esp_ok
    ∷ request_input (some request) false esp_ok
    ∷ state_input started
    ∷ done_input (prov_ok 5 (replicate 16 7))
    ∷ []

adopt_play-CallsOk_example : CallsOk (adopt_play scan_digits two_requests no_request)
adopt_play-CallsOk_example =
    adopt_play-CallsOk scan_digits two_requests no_request
      (record { berth = omega arith; node = omega arith; calls = tt })

abbrev occupied_status : BerthStatus
occupied_status = record {
  node_id = 2;
  berth_id = 9;
  occupied = true;
  sensor_raw_mm = 2300;
  battery_pct = battery_unknown;
  ts_ms = 70000;
}

record_node-gateway_uplink_example :
    let after = (record_node read_only 5 (some (b't' ∷ b'1' ∷ [])) none fresh).1 in
    gateway_uplink read_only harbor calm (some occupied_status) 5 after ≡ (
      esp_ok,
      some (
        status_topic (b'h' ∷ []) (b'd' ∷ []) (b't' ∷ b'1' ∷ []),
        record {
          node_id = node_name (lookup_node_id read_only 5 after) 2;
          berth_id = b't' ∷ b'1' ∷ [];
          mesh_unicast_addr = addr_text 5;
          occupied = true;
          sensor_raw = 2300;
          battery_pct = none;
          timestamp = b'0' ∷ [];
        },
      ),
    )
record_node-gateway_uplink_example =
    record_node-gateway_uplink read_only 5 (b't' ∷ b'1' ∷ []) none fresh harbor calm occupied_status
      t1_accepted refl fresh-IsValid has_room refl refl
