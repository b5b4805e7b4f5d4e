-- ===== src/Uplink/Startup/Examples.antt =====
-- A start of components/dp_gateway, and a lost connection after it.
use dockpulse_iot.Prelude.{
  ℕ, ◌≡◌, refl, true, List, [], ◌∷◌, codes, arith, ◌+◌, ◌<◌, ◌↔◌, min, replicate,
}
use dockpulse_iot.Esp.{esp_ok, esp_fail}
use dockpulse_iot.Uplink.Mqtt.{broker_connected, broker_disconnected, on_mqtt_event}
use dockpulse_iot.Uplink.Slots.{Asked}
use dockpulse_iot.Uplink.Sessions.{MqttInput, event_input, mqtt_play}
use dockpulse_iot.Uplink.Samples.{read_only, fresh}
use dockpulse_iot.Uplink.Topics.{provision_topic, decommission_topic}
use dockpulse_iot.Uplink.Wifi.{
  waiting, returned, sta_start, sta_disconnected, sta_got_ip, wifi_start_and_wait, wifi_boot,
  wifi_run, wifi_wait_lem, losses_give_up,
}
use dockpulse_iot.Uplink.Startup.{
  MqttSetup, mqtt_wait, mqtt_start_and_wait, mqtt_boot, gateway_init,
}
use dockpulse_iot.Uplink.Startup.Subscribed.{gateway_init-Asked}

abbrev sound : MqttSetup
sound = record { group_made = true; lock_made = true; client_made = true; drivers_ok = true }

abbrev gw_001 : List ℕ
gw_001 = codes "gw-001"

abbrev reconnects : List MqttInput
reconnects = event_input broker_disconnected ∷ event_input broker_connected ∷ []

starts :
    (gateway_init read_only gw_001
      (returned esp_ok)
      sound
      (broker_connected ∷ [])
      (fresh, mqtt_boot)).0
    ≡ returned esp_ok
unfolding gateway_init mqtt_start_and_wait mqtt_wait on_mqtt_event
starts = refl

connected_again :
    (mqtt_play reconnects
      (gateway_init read_only gw_001
        (returned esp_ok)
        sound
        (broker_connected ∷ [])
        (fresh, mqtt_boot)).1.1).connected
    ≡ true
unfolding on_mqtt_event
connected_again = refl

gateway_init-Asked_example :
    let after =
      mqtt_play reconnects
        (gateway_init read_only gw_001
          (returned esp_ok)
          sound
          (broker_connected ∷ [])
          (fresh, mqtt_boot)).1.1 in
    Asked (provision_topic gw_001) 1 after.log × Asked (decommission_topic gw_001) 1 after.log
gateway_init-Asked_example =
    gateway_init-Asked read_only gw_001 (returned esp_ok) sound (broker_connected ∷ []) fresh
      reconnects (omega arith) starts (tt, (tt, tt)) connected_again

-- One loss before the address; five losses and a sixth.
wifi_wait_lem_example :
    ((wifi_start_and_wait true true (sta_start ∷ sta_disconnected ∷ [])).0 ≡ waiting)
    × ((wifi_start_and_wait true true (sta_start ∷ sta_disconnected ∷ sta_got_ip ∷ [])).0
        ≡ returned esp_ok)
    × ((◌≡◌ {A = ℕ} 1 5)
        → (wifi_start_and_wait true true (sta_start ∷ sta_disconnected ∷ sta_disconnected ∷ [])).0
          ≡ returned esp_fail)
wifi_wait_lem_example =
    wifi_wait_lem (sta_start ∷ sta_disconnected ∷ []) [] (tt, (tt, tt)) (omega arith)

losses_give_up_example :
    let after = wifi_run (replicate 7 sta_disconnected) wifi_boot in
    (after.connects ≡ 0 + min 7 5) × ((after.failed ≡ true) ↔ (5 < 7))
losses_give_up_example = losses_give_up 7 wifi_boot refl refl
