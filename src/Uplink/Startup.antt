-- ===== src/Uplink/Startup.antt =====
-- components/dp_gateway: the start of the MQTT client and `dp_gateway_init`.
pub mod Subscribed
mod Examples
use dockpulse_iot.Prelude.{
  ℕ, ◌+◌, ◌≤◌, ◌≡◌, refl, sym, ap, ◌∙◌, subst, Bool, true, false, not, List, [], ◌∷◌, ◌++◌, Option,
  none, some, arith, if◌then◌else◌, take, length, All, replicate, codes, take_short, length-append,
  Bool-cases, inl, inr, split_if,
}
use dockpulse_iot.Esp.{EspErr, esp_ok, esp_fail, no_mem, timeout, is_ok}
use dockpulse_iot.Prov.Store.{Nvs, State, prov_init}
use dockpulse_iot.Uplink.Mqtt.{
  PendingSub, Mqtt, MqttEvent, on_mqtt_event, add_msg_cb, mqtt_subscribe, fill_slot,
}
use dockpulse_iot.Uplink.Topics.{
  gw_topic, provision_topic, decommission_topic, adopt_init, decom_init, register,
}
use dockpulse_iot.Uplink.Wifi.{
  Outcome, waiting, aborted, returned, Wifi, WifiEvent, wifi_start_and_wait,
}

-- What the surroundings give to the start of the client: the event group, the lock, the client, and
-- whether every driver call in `ESP_ERROR_CHECK` succeeds.
pub record MqttSetup : Type 0 where
  pub group_made : Bool
  pub lock_made : Bool
  pub client_made : Bool
  pub drivers_ok : Bool

-- The wait for the connection, on the events until its time is over.
unfoldable pub mqtt_wait : List MqttEvent → Mqtt → Outcome × Mqtt
mqtt_wait [] s = (returned timeout, s)
mqtt_wait (e ∷ es) s =
    let s' = on_mqtt_event e s in
    let rest = mqtt_wait es s' in if s'.connected then (returned esp_ok, s') else rest

-- `dp_gateway_mqtt_start_and_wait`
unfoldable pub mqtt_start_and_wait : List ℕ → MqttSetup → List MqttEvent → Mqtt → Outcome × Mqtt
mqtt_start_and_wait gateway_id w events s =
    let grouped = record s { events = true } in
    let willed = record grouped { lwt_topic = gw_topic gateway_id (codes "/status") } in
    let started = record willed { client = true } in
    if not w.group_made
    then (returned no_mem, s)
    else (if not w.lock_made
        then (returned no_mem, grouped)
        else (if not w.client_made
            then (returned esp_fail, willed)
            else (if w.drivers_ok then mqtt_wait events started else (aborted, started))))

-- The file's variables after a boot.
abbrev pub mqtt_boot : Mqtt
mqtt_boot = record {
  client = false;
  events = false;
  connected = false;
  msg_cbs = [];
  pending_subs = replicate 4 (record { topic = []; qos = 0; active = false });
  lwt_topic = [];
  dropped = 0;
  log = [];
}

-- A step is passed on only with success.
abbrev pub passed : Outcome → Bool
passed (returned e) = is_ok e
passed waiting = false
passed aborted = false

module _ (nvs : Nvs) where
  -- `dp_gateway_init`, in the build with the uplink and without the self-test: the table is loaded
  -- whatever comes of it, Wi-Fi and MQTT must come up, the registrations may fail.
  unfoldable pub gateway_init :
      List ℕ
      → Outcome
      → MqttSetup
      → List MqttEvent
      → State nvs × Mqtt
      → Outcome × (State nvs × Mqtt)
  gateway_init gateway_id wifi w events (p, s) =
      let loaded = (prov_init nvs p).1 in
      let (mqtt, up) = mqtt_start_and_wait gateway_id w events s in
      let adopting = (adopt_init gateway_id up).1 in
      let ready = (decom_init gateway_id adopting).1 in
      if not (passed wifi)
      then (wifi, (loaded, s))
      else (if passed mqtt then (returned esp_ok, (loaded, ready)) else (mqtt, (loaded, up)))
