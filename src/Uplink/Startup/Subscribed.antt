-- ===== src/Uplink/Startup/Subscribed.antt =====
-- components/dp_gateway: after the start the gateway listens to both request topics.
use dockpulse_iot.Prelude.{
  ℕ, ◌≤◌, ◌≡◌, refl, sym, ap, ◌∙◌, subst, true, false, List, [], ◌∷◌, ◌++◌, none, some, arith,
  if◌then◌else◌, take, length, All, codes, take_short, length-append, length-take, replicate, not,
  split_if,
}
use dockpulse_iot.Esp.{EspErr, esp_ok, esp_fail, no_mem, is_ok}
use dockpulse_iot.Prov.Store.{Nvs, State}
use dockpulse_iot.Uplink.Mqtt.{
  PendingSub, Mqtt, MqttEvent, broker_connected, broker_disconnected, data_arrived, mqtt_logged,
  on_mqtt_event, add_msg_cb, mqtt_subscribe, fill_slot,
}
use dockpulse_iot.Uplink.Slots.{Asked}
use dockpulse_iot.Uplink.Sessions.{
  SessionOk, MqttInput, add_cb_input, subscribe_input, mqtt_play, IsShort, event-Goes, play-Goes,
  mqtt_subscribe-Asked,
}
use dockpulse_iot.Uplink.Topics.{
  gw_topic, provision_topic, decommission_topic, adopt_init, decom_init, register, adopt_on_msg,
  decom_on_msg,
}
use dockpulse_iot.Uplink.Wifi.{Outcome, aborted, returned}
use dockpulse_iot.Uplink.Startup.{
  MqttSetup, mqtt_wait, mqtt_start_and_wait, mqtt_boot, passed, gateway_init,
}

-- A name of at most 17 characters behind a gateway name of at most 62 fits the slot of a subscription.
topic-IsShort :
    (gateway_id name : List ℕ)
    → length gateway_id ≤ 62
    → length name ≤ 17
    → take 95 (gw_topic gateway_id name) ≡ gw_topic gateway_id name
topic-IsShort gateway_id name small short =
    let whole = codes "dockpulse/v1/gw/" ++ gateway_id ++ name in
    let size : length whole ≤ 95 = omega (
      arith,
      length-append (codes "dockpulse/v1/gw/" ++ gateway_id) name,
      length-append (codes "dockpulse/v1/gw/") gateway_id,
    ) in
    take_short 95 (gw_topic gateway_id name) (omega (arith, length-take 159 whole))

-- In order, with all slots free and no callback registered.
pub record IsFresh (s : Mqtt) : Type 0 where
  pub ok : SessionOk s
  pub slots : s.pending_subs ≡ mqtt_boot.pending_subs
  pub cbs : s.msg_cbs ≡ []

event-IsFresh : (e : MqttEvent) (s : Mqtt) → IsFresh s → IsFresh (on_mqtt_event e s)
unfolding on_mqtt_event
event-IsFresh e s h = record {
  ok = (event-Goes e s h.ok).ok;
  slots = same_slots e s ∙ h.slots;
  cbs = same_cbs e s ∙ h.cbs;
}
  where
    same_slots : (e : MqttEvent) (s : Mqtt) → (on_mqtt_event e s).pending_subs ≡ s.pending_subs
    same_slots broker_connected s = refl
    same_slots broker_disconnected s = refl
    same_slots (data_arrived (some t) (some m)) s = refl
    same_slots (data_arrived (some t) none) s = refl
    same_slots (data_arrived none m) s = refl
    same_slots mqtt_logged s = refl

    same_cbs : (e : MqttEvent) (s : Mqtt) → (on_mqtt_event e s).msg_cbs ≡ s.msg_cbs
    same_cbs broker_connected s = refl
    same_cbs broker_disconnected s = refl
    same_cbs (data_arrived (some t) (some m)) s = refl
    same_cbs (data_arrived (some t) none) s = refl
    same_cbs (data_arrived none m) s = refl
    same_cbs mqtt_logged s = refl

wait-IsFresh : (events : List MqttEvent) (s : Mqtt) → IsFresh s → IsFresh (mqtt_wait events s).1
unfolding mqtt_wait
wait-IsFresh [] s h = h
wait-IsFresh (e ∷ es) s h =
    let s' = on_mqtt_event e s in
    let fresh = event-IsFresh e s h in
    split_if (λ (r : Outcome × Mqtt). IsFresh r.1) s'.connected (returned esp_ok, s')
      (mqtt_wait es s') (λ _. fresh) (λ _. wait-IsFresh es s' fresh)

start-IsFresh :
    (gateway_id : List ℕ) (w : MqttSetup) (events : List MqttEvent)
    → passed (mqtt_start_and_wait gateway_id w events mqtt_boot).0 ≡ true
    → IsFresh (mqtt_start_and_wait gateway_id w events mqtt_boot).1
unfolding mqtt_start_and_wait
start-IsFresh gateway_id w events ok =
    let grouped = record mqtt_boot { events = true } in
    let willed = record grouped { lwt_topic = gw_topic gateway_id (codes "/status") } in
    let started = record willed { client = true } in
    let Good : Outcome × Mqtt → Type 0 = λ r. passed r.0 ≡ true → IsFresh r.1 in
    let fresh : IsFresh started = record {
      ok = record { client = refl; events = refl; covered = λ e. cc };
      slots = refl;
      cbs = refl;
    } in
    let step4 : Good (if w.drivers_ok then mqtt_wait events started else (aborted, started)) =
      split_if Good w.drivers_ok (mqtt_wait events started) (aborted, started)
        (λ _ _. wait-IsFresh events started fresh) (λ _ bad. cc) in
    let step3 =
      split_if Good (not w.client_made) (returned esp_fail, willed)
        (if w.drivers_ok then mqtt_wait events started else (aborted, started)) (λ _ bad. cc)
        (λ _. step4) in
    let step2 =
      split_if Good (not w.lock_made) (returned no_mem, grouped) _ (λ _ bad. cc) (λ _. step3) in
    split_if Good (not w.group_made) (returned no_mem, mqtt_boot) _ (λ _ bad. cc) (λ _. step2) ok

-- A subscription on a list of slots with a free one.
slot_taken :
    (topic : List ℕ) (qos : ℕ) (s : Mqtt) (subs : List PendingSub)
    → fill_slot topic qos s.pending_subs ≡ some subs
    → let (e, after) = mqtt_subscribe (some topic) qos s in
      (e ≡ esp_ok) × (after.pending_subs ≡ subs) × (after.msg_cbs ≡ s.msg_cbs)
unfolding mqtt_subscribe
slot_taken topic qos s subs e = rw e (refl, refl, refl)

cb_added :
    (cb : ℕ) (s : Mqtt)
    → length s.msg_cbs ≤ 3
    → let (e, after) = add_msg_cb (some cb) s in
      (is_ok e ≡ true)
      × (after.pending_subs ≡ s.pending_subs)
      × (after.msg_cbs ≡ s.msg_cbs ++ cb ∷ [])
unfolding add_msg_cb
cb_added cb s le = ground arith

-- Registering a callback with fewer than four, on slots with a free one.
register_lem :
    (cb : ℕ) (topic : List ℕ) (s : Mqtt) (subs : List PendingSub)
    → length s.msg_cbs ≤ 3
    → fill_slot topic 1 s.pending_subs ≡ some subs
    → let added = (add_msg_cb (some cb) s).1 in
      (register cb topic s ≡ mqtt_subscribe (some topic) 1 added)
      × ((mqtt_subscribe (some topic) 1 added).0 ≡ esp_ok)
      × ((register cb topic s).1.pending_subs ≡ subs)
      × ((register cb topic s).1.msg_cbs ≡ s.msg_cbs ++ cb ∷ [])
register_lem cb topic s subs room free =
    let (accepted, same, cbs) = cb_added cb s room in
    let added = (add_msg_cb (some cb) s).1 in
    let (ok, slots, kept) = slot_taken topic 1 added subs (ap (fill_slot topic 1) same ∙ free) in
    let both : register cb topic s ≡ mqtt_subscribe (some topic) 1 added = rw accepted refl in
    (
      both,
      ok,
      ap (λ (r : EspErr × Mqtt). r.1.pending_subs) both ∙ slots,
      ap (λ (r : EspErr × Mqtt). r.1.msg_cbs) both ∙ kept ∙ cbs,
    )

-- The slots after one subscription and after two.
abbrev one_taken : List ℕ → List PendingSub
one_taken topic =
    record { topic = take 95 topic; qos = 1; active = true }
    ∷ replicate 3 (record { topic = []; qos = 0; active = false })

abbrev two_taken : List ℕ → List ℕ → List PendingSub
two_taken first second =
    record { topic = take 95 first; qos = 1; active = true }
    ∷ record { topic = take 95 second; qos = 1; active = true }
    ∷ replicate 2 (record { topic = []; qos = 0; active = false })

-- After both registrations, a session that lasts has asked for both topics.
registered :
    (gateway_id : List ℕ) (s : Mqtt) (inputs : List MqttInput)
    → length gateway_id ≤ 62
    → IsFresh s
    → All IsShort inputs
    → let ready = (decom_init gateway_id (adopt_init gateway_id s).1).1 in
      (mqtt_play inputs ready).connected ≡ true
      → Asked (provision_topic gateway_id) 1 (mqtt_play inputs ready).log
        × Asked (decommission_topic gateway_id) 1 (mqtt_play inputs ready).log
unfolding adopt_init decom_init fill_slot
registered gateway_id s inputs small h shorts =
    let first = provision_topic gateway_id in
    let second = decommission_topic gateway_id in
    let short1 = topic-IsShort gateway_id (codes "/provision/req") small (omega arith) in
    let short2 = topic-IsShort gateway_id (codes "/decommission/req") small (omega arith) in
    let s1 = (add_msg_cb (some adopt_on_msg) s).1 in
    let s2 = (register adopt_on_msg first s).1 in
    let s3 = (add_msg_cb (some decom_on_msg) s2).1 in
    let s4 = (register decom_on_msg second s2).1 in
    let (both1, ok1, slots1, cbs1) =
      register_lem adopt_on_msg first s (one_taken first) (rw h.cbs (omega arith))
        (rw h.slots refl) in
    let (both2, ok2, slots2, cbs2) =
      register_lem decom_on_msg second s2 (two_taken first second) (rw (cbs1, h.cbs) (omega arith))
        (rw slots1 refl) in
    let good1 = (play-Goes (add_cb_input (some adopt_on_msg) ∷ []) s (tt, tt) h.ok).ok in
    let good3 =
      (play-Goes (subscribe_input (some first) 1 ∷ add_cb_input (some decom_on_msg) ∷ []) s1
        (short1, (tt, tt)) good1).ok in
    let first_sub = ap (λ (r : EspErr × Mqtt). r.1) both1 in
    let then_second =
      λ (x : Mqtt). mqtt_subscribe (some second) 1 (add_msg_cb (some decom_on_msg) x).1 in
    let sub1 = (mqtt_subscribe (some first) 1 s1).1 in
    let end : (register decom_on_msg second s2).1 ≡ (then_second sub1).1 =
      ap (λ (r : EspErr × Mqtt). r.1) both2 ∙ ap (λ (x : Mqtt). (then_second x).1) first_sub in
    let ok2' : (then_second sub1).0 ≡ esp_ok =
      ap (λ (x : Mqtt). (then_second x).0) (sym first_sub) ∙ ok2 in
    subst
      (λ (s : Mqtt).
        (mqtt_play inputs s).connected ≡ true
        → Asked first 1 (mqtt_play inputs s).log × Asked second 1 (mqtt_play inputs s).log)
      (sym end)
      (λ up. (
        mqtt_subscribe-Asked first 1
            (add_cb_input (some decom_on_msg) ∷ subscribe_input (some second) 1 ∷ inputs) s1 short1
            good1 ok1 (tt, (short2, shorts)) up,
        mqtt_subscribe-Asked second 1 inputs (add_msg_cb (some decom_on_msg) sub1).1 short2 good3
            ok2' shorts up,
      ))

module _ (nvs : Nvs) where
  init_ready :
      (gateway_id : List ℕ) (wifi : Outcome) (w : MqttSetup) (events : List MqttEvent)
      (p : State nvs)
      → (gateway_init nvs gateway_id wifi w events (p, mqtt_boot)).0 ≡ returned esp_ok
      → let (mqtt, up) = mqtt_start_and_wait gateway_id w events mqtt_boot in
        (passed mqtt ≡ true)
        × ((gateway_init nvs gateway_id wifi w events (p, mqtt_boot)).1.1
            ≡ (decom_init gateway_id (adopt_init gateway_id up).1).1)
  unfolding gateway_init
  init_ready gateway_id wifi w events p ok = ground arith

  -- A gateway that has started hears the backend. When `dp_gateway_init` after a boot returns
  -- `ESP_OK`, with a gateway name of at most 62 characters, then after every sequence of connections,
  -- disconnections, messages, publications and further subscriptions to filters of at most 95
  -- characters, a session that lasts has asked the broker for the topic of the adoption requests and
  -- for that of the decommission requests, with quality of service 1.
  pub gateway_init-Asked :
      (gateway_id : List ℕ) (wifi : Outcome) (w : MqttSetup) (events : List MqttEvent)
      (p : State nvs) (inputs : List MqttInput)
      → length gateway_id ≤ 62
      → (gateway_init nvs gateway_id wifi w events (p, mqtt_boot)).0 ≡ returned esp_ok
      → All IsShort inputs
      → (mqtt_play inputs (gateway_init nvs gateway_id wifi w events (p, mqtt_boot)).1.1).connected
        ≡ true
      → let after =
          mqtt_play inputs (gateway_init nvs gateway_id wifi w events (p, mqtt_boot)).1.1 in
        Asked (provision_topic gateway_id) 1 after.log
        × Asked (decommission_topic gateway_id) 1 after.log
  gateway_init-Asked gateway_id wifi w events p inputs small ok shorts up =
      let (started, ready) = init_ready gateway_id wifi w events p ok in
      subst
        (λ (s : Mqtt).
          (mqtt_play inputs s).connected ≡ true
          → Asked (provision_topic gateway_id) 1 (mqtt_play inputs s).log
            × Asked (decommission_topic gateway_id) 1 (mqtt_play inputs s).log)
        (sym ready)
        (registered gateway_id (mqtt_start_and_wait gateway_id w events mqtt_boot).1 inputs small
          (start-IsFresh gateway_id w events started) shorts)
        up
