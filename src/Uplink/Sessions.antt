-- ===== src/Uplink/Sessions.antt =====
-- components/dp_gateway/dp_gateway_mqtt.c: the subscriptions outlive the sessions with the broker.
use dockpulse_iot.Prelude.{
  ℕ, ◌+◌, ◌≡◌, refl, sym, subst, inl, inr, Bool, true, ◌&&◌, List, [], ◌∷◌, ◌++◌, Option, none,
  some, arith, if◌then◌else◌, split_if, if_true, length, take, All, not, leb, u32,
}
use dockpulse_iot.Esp.{EspErr, esp_ok, esp_fail, no_mem, invalid_arg, invalid_state}
use dockpulse_iot.Uplink.Mqtt.{
  PendingSub, session_begins, subscribe_call, publish_call, Mqtt, apply_pending_subs,
  publish_online_retained, MqttEvent, broker_connected, broker_disconnected, data_arrived,
  mqtt_logged, fan_out, on_mqtt_event, add_msg_cb, fill_slot, slot_filled, mqtt_subscribe,
  mqtt_publish, max_msg_cbs,
}
use dockpulse_iot.Uplink.Slots.{
  Asked, Covered, Holds, Covered-append, apply-All, online_keeps, fan_out_keeps, Holds-Asked,
  fill_slot-Fills,
}

-- After the start of the client: while a session lasts, the broker has been asked in it for every
-- active subscription.
pub record SessionOk (s : Mqtt) : Type 0 where
  pub client : s.client ≡ true
  pub events : s.events ≡ true
  pub covered : s.connected ≡ true → All (Covered s.log) s.pending_subs

-- What reaches the file once the client has been started.
pub data MqttInput : Type 0 where
  event_input : MqttEvent → MqttInput
  add_cb_input : Option ℕ → MqttInput
  subscribe_input : Option (List ℕ) → ℕ → MqttInput
  publish_input : Bool → Option (List ℕ) → Option (List ℕ) → ℕ → Bool → MqttInput

abbrev pub mqtt_react : MqttInput → Mqtt → Mqtt
mqtt_react (event_input e) s = on_mqtt_event e s
mqtt_react (add_cb_input cb) s = (add_msg_cb cb s).1
mqtt_react (subscribe_input topic qos) s = (mqtt_subscribe topic qos s).1
mqtt_react (publish_input ok topic payload qos retain) s =
    (mqtt_publish ok topic payload qos retain s).1

abbrev pub mqtt_play : List MqttInput → Mqtt → Mqtt
mqtt_play [] s = s
mqtt_play (i ∷ is) s = mqtt_play is (mqtt_react i s)

-- The topic filters that are subscribed fit the slot.
abbrev pub IsShort : MqttInput → Type 0
IsShort (subscribe_input (some topic) qos) = take 95 topic ≡ topic
IsShort _ = Unit

-- A state after another: still in order, with the subscriptions of before.
pub record Goes (s after : Mqtt) : Type 0 where
  pub ok : SessionOk after
  pub kept : (t : List ℕ) (q : ℕ) → Holds t q s.pending_subs → Holds t q after.pending_subs

pub event-Goes : (e : MqttEvent) (s : Mqtt) → SessionOk s → Goes s (on_mqtt_event e s)
unfolding on_mqtt_event
event-Goes broker_connected s h =
    let applied = apply_pending_subs s.pending_subs (session_begins ∷ s.log) in
    record {
      ok = record {
        client = h.client;
        events = h.events;
        covered = λ e.
            Covered-append applied (publish_online_retained s.lwt_topic applied) s.pending_subs
              (online_keeps s.lwt_topic applied)
              (apply-All s.pending_subs (session_begins ∷ s.log));
      };
      kept = λ t q h. h;
    }
event-Goes broker_disconnected s h = record {
  ok = record { client = h.client; events = h.events; covered = λ e. cc };
  kept = λ t q h. h;
}
event-Goes (data_arrived (some topic) (some msg)) s h = record {
  ok = record {
    client = h.client;
    events = h.events;
    covered = λ e.
        Covered-append s.log (fan_out s.msg_cbs (take 159 topic) msg s.log) s.pending_subs
          (fan_out_keeps s.msg_cbs (take 159 topic) msg s.log) (h.covered e);
  };
  kept = λ t q h. h;
}
event-Goes (data_arrived none msg) s h = record { ok = h; kept = λ t q h. h }
event-Goes (data_arrived (some topic) none) s h = record { ok = h; kept = λ t q h. h }
event-Goes mqtt_logged s h = record { ok = h; kept = λ t q h. h }

add_cb-Goes : (cb : Option ℕ) (s : Mqtt) → SessionOk s → Goes s (add_msg_cb cb s).1
unfolding add_msg_cb
add_cb-Goes none s h = record { ok = h; kept = λ t q h. h }
add_cb-Goes (some cb) s h =
    split_if (λ (r : EspErr × Mqtt). Goes s r.1) (leb max_msg_cbs (length s.msg_cbs)) (no_mem, s)
      (esp_ok, record s { msg_cbs = s.msg_cbs ++ cb ∷ [] })
      (λ _. record { ok = h; kept = λ t q h. h })
      (λ _. record {
        ok = record { client = h.client; events = h.events; covered = h.covered };
        kept = λ t q h. h;
      })

publish-Goes :
    (ok : Bool) (topic payload : Option (List ℕ)) (qos : ℕ) (retain : Bool) (s : Mqtt)
    → SessionOk s
    → Goes s (mqtt_publish ok topic payload qos retain s).1
unfolding mqtt_publish
publish-Goes ok none payload qos retain s h = record { ok = h; kept = λ t q h. h }
publish-Goes ok (some topic) none qos retain s h = record { ok = h; kept = λ t q h. h }
publish-Goes ok (some topic) (some payload) qos retain s h =
    let out = record s { log = publish_call topic payload qos retain ∷ s.log } in
    let drop = record s { dropped = u32 (s.dropped + 1) } in
    let Good : EspErr × Mqtt → Type 0 = λ (r : EspErr × Mqtt). Goes s r.1 in
    let sent : EspErr × Mqtt = (if ok then esp_ok else esp_fail, out) in
    split_if Good (not s.client) (invalid_arg, s)
      (if not s.connected then (invalid_state, drop) else sent)
      (λ _. record { ok = h; kept = λ t q h. h })
      (λ _.
        split_if Good (not s.connected) (invalid_state, drop) sent
          (λ _. record {
            ok = record { client = h.client; events = h.events; covered = h.covered };
            kept = λ t q h. h;
          })
          (λ _. record {
            ok = record {
              client = h.client;
              events = h.events;
              covered = λ e. Covered-append s.log out.log s.pending_subs (λ t q h. h) (h.covered e);
            };
            kept = λ t q h. h;
          }))

-- What a subscription does, by what the loop over the slots finds.
filled-Goes :
    (topic : List ℕ) (qos : ℕ) (o : Option (List PendingSub)) (s : Mqtt)
    → take 95 topic ≡ topic
    → fill_slot topic qos s.pending_subs ≡ o
    → SessionOk s
    → let (e, after) = slot_filled o topic qos s in
      Goes s after × (e ≡ esp_ok → Holds topic qos after.pending_subs)
filled-Goes topic qos none s short e h = (record { ok = h; kept = λ t q h. h }, λ z. cc)
filled-Goes topic qos (some qs) s short e h =
    let f = fill_slot-Fills topic qos s.pending_subs qs short e in
    let asked = subscribe_call topic qos ∷ s.log in
    let now = s.client && (s.events && s.connected) in
    let log = if now then asked else s.log in
    (
      record {
        ok = record {
          client = h.client;
          events = h.events;
          covered = λ up.
              let online : now ≡ true = ground (arith, h.client, h.events, up) in
              subst (λ l. All (Covered l) qs) (sym (if_true now asked s.log online))
                (f.cover asked (inl (refl, refl))
                  (Covered-append s.log asked s.pending_subs (λ t q h. inr h) (h.covered up)));
        };
        kept = f.kept;
      },
      λ z. f.stored,
    )

subscribe-Goes :
    (topic : List ℕ) (qos : ℕ) (s : Mqtt)
    → take 95 topic ≡ topic
    → SessionOk s
    → let (e, after) = mqtt_subscribe (some topic) qos s in
      Goes s after × (e ≡ esp_ok → Holds topic qos after.pending_subs)
unfolding mqtt_subscribe
subscribe-Goes topic qos s short h =
    filled-Goes topic qos (fill_slot topic qos s.pending_subs) s short refl h

react-Goes : (i : MqttInput) (s : Mqtt) → IsShort i → SessionOk s → Goes s (mqtt_react i s)
unfolding mqtt_subscribe
react-Goes (event_input e) s short h = event-Goes e s h
react-Goes (add_cb_input cb) s short h = add_cb-Goes cb s h
react-Goes (subscribe_input none qos) s short h = record { ok = h; kept = λ t q h. h }
react-Goes (subscribe_input (some topic) qos) s short h = (subscribe-Goes topic qos s short h).0
react-Goes (publish_input ok topic payload qos retain) s short h =
    publish-Goes ok topic payload qos retain s h

pub play-Goes :
    (inputs : List MqttInput) (s : Mqtt)
    → All IsShort inputs
    → SessionOk s
    → Goes s (mqtt_play inputs s)
play-Goes [] s short h = record { ok = h; kept = λ t q h. h }
play-Goes (i ∷ is) s short h =
    let one = react-Goes i s short.0 h in
    let rest = play-Goes is (mqtt_react i s) short.1 one.ok in
    record { ok = rest.ok; kept = λ t q k. rest.kept t q (one.kept t q k) }

-- A subscription outlives the sessions. When a subscription to a topic filter of at most 95 characters
-- is accepted after the client's start, then after every sequence of connections, disconnections,
-- messages, publications and further subscriptions to filters of that size, a session that lasts has
-- asked the broker for the filter with its quality of service.
pub mqtt_subscribe-Asked :
    (topic : List ℕ) (qos : ℕ) (inputs : List MqttInput) (s : Mqtt)
    → take 95 topic ≡ topic
    → SessionOk s
    → (mqtt_subscribe (some topic) qos s).0 ≡ esp_ok
    → All IsShort inputs
    → (mqtt_play inputs (mqtt_subscribe (some topic) qos s).1).connected ≡ true
    → Asked topic qos (mqtt_play inputs (mqtt_subscribe (some topic) qos s).1).log
mqtt_subscribe-Asked topic qos inputs s short h accepted shorts up =
    let (one, holds) = subscribe-Goes topic qos s short h in
    let rest = play-Goes inputs (mqtt_subscribe (some topic) qos s).1 shorts one.ok in
    let after = mqtt_play inputs (mqtt_subscribe (some topic) qos s).1 in
    Holds-Asked topic qos after.log after.pending_subs (rest.kept topic qos (holds accepted))
      (rest.ok.covered up)
