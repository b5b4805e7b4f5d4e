-- ===== src/Uplink/Mqtt.antt =====
-- components/dp_gateway/dp_gateway_mqtt.c: callbacks, subscriptions and publications. The MQTT client is
-- a parameter.
use dockpulse_iot.Prelude.{
  ℕ, ◌+◌, Bool, true, false, not, ◌&&◌, List, [], ◌∷◌, ◌++◌, Option, none, some, leb, if◌then◌else◌,
  length, take, u32,
}
use dockpulse_iot.Esp.{EspErr, esp_ok, esp_fail, no_mem, invalid_arg, invalid_state}

-- `pending_sub_t`; a `char` array is the list of the characters before its terminator.
pub record PendingSub : Type 0 where
  pub topic : List ℕ
  pub qos : ℕ
  pub active : Bool

-- What passes between the file and the client, and the calls of the registered callbacks.
pub data MqttCall : Type 0 where
  -- The event that a session with the broker begins.
  session_begins : MqttCall
  subscribe_call : List ℕ → ℕ → MqttCall
  publish_call : List ℕ → List ℕ → ℕ → Bool → MqttCall
  hand_over : ℕ → List ℕ → List ℕ → MqttCall

-- The static variables of the file; `connected` is the bit of the event group, and a callback is a
-- number.
pub record Mqtt : Type 0 where
  pub client : Bool
  pub events : Bool
  pub connected : Bool
  pub msg_cbs : List ℕ
  pub pending_subs : List PendingSub
  pub lwt_topic : List ℕ
  pub dropped : ℕ
  pub log : List MqttCall

abbrev pub max_msg_cbs : ℕ
max_msg_cbs = 4

abbrev pub max_pending_subs : ℕ
max_pending_subs = 4

-- The loop of `apply_pending_subs`; the log is newest first.
unfoldable pub apply_pending_subs : List PendingSub → List MqttCall → List MqttCall
apply_pending_subs [] log = log
apply_pending_subs (p ∷ ps) log =
    apply_pending_subs ps (if p.active then subscribe_call p.topic p.qos ∷ log else log)

-- "{\"online\":true}"
abbrev online_payload : List ℕ
online_payload =
    b'{' ∷ 34 ∷ b'o' ∷ b'n' ∷ b'l' ∷ b'i' ∷ b'n' ∷ b'e' ∷ 34 ∷ b':' ∷ b't' ∷ b'r' ∷ b'u' ∷ b'e'
    ∷ b'}' ∷ []

-- `publish_online_retained`
abbrev pub publish_online_retained : List ℕ → List MqttCall → List MqttCall
publish_online_retained [] log = log
publish_online_retained (c ∷ cs) log = publish_call (c ∷ cs) online_payload 1 true ∷ log

-- The events of `on_mqtt_event`; data comes with its topic, none for a null pointer. The error event
-- is only logged.
pub data MqttEvent : Type 0 where
  broker_connected broker_disconnected : MqttEvent
  data_arrived : Option (List ℕ) → Option (List ℕ) → MqttEvent
  mqtt_logged : MqttEvent

-- The loop over the callbacks.
abbrev pub fan_out : List ℕ → List ℕ → List ℕ → List MqttCall → List MqttCall
fan_out [] topic msg log = log
fan_out (cb ∷ cbs) topic msg log = fan_out cbs topic msg (hand_over cb topic msg ∷ log)

-- `on_mqtt_event`
unfoldable pub on_mqtt_event : MqttEvent → Mqtt → Mqtt
on_mqtt_event broker_connected s =
    let applied = apply_pending_subs s.pending_subs (session_begins ∷ s.log) in
    record s { connected = true; log = publish_online_retained s.lwt_topic applied }
on_mqtt_event broker_disconnected s = record s { connected = false }
on_mqtt_event (data_arrived (some topic) (some msg)) s = record s {
  log = fan_out s.msg_cbs (take 159 topic) msg s.log;
}
on_mqtt_event (data_arrived none msg) s = s
on_mqtt_event (data_arrived (some topic) none) s = s
on_mqtt_event mqtt_logged s = s

-- `dp_gateway_mqtt_add_msg_cb`
unfoldable pub add_msg_cb : Option ℕ → Mqtt → EspErr × Mqtt
add_msg_cb none s = (invalid_arg, s)
add_msg_cb (some cb) s =
    if leb max_msg_cbs (length s.msg_cbs)
    then (no_mem, s)
    else (esp_ok, record s { msg_cbs = s.msg_cbs ++ cb ∷ [] })

abbrev pub behind_slot : PendingSub → Option (List PendingSub) → Option (List PendingSub)
behind_slot p none = none
behind_slot p (some ps) = some (p ∷ ps)

-- The loop of `dp_gateway_mqtt_subscribe`: the slots with the first free one filled, none if there is
-- none.
unfoldable pub fill_slot : List ℕ → ℕ → List PendingSub → Option (List PendingSub)
fill_slot topic qos [] = none
fill_slot topic qos (p ∷ ps) =
    let rest = fill_slot topic qos ps in
    let filled : PendingSub = record { topic = take 95 topic; qos = qos; active = true } in
    if p.active then behind_slot p rest else some (filled ∷ ps)

abbrev pub slot_filled : Option (List PendingSub) → List ℕ → ℕ → Mqtt → EspErr × Mqtt
slot_filled none topic qos s = (no_mem, s)
slot_filled (some subs) topic qos s =
    let asked =
      if s.client && (s.events && s.connected) then subscribe_call topic qos ∷ s.log else s.log in
    (esp_ok, record s { pending_subs = subs; log = asked })

-- `dp_gateway_mqtt_subscribe`
unfoldable pub mqtt_subscribe : Option (List ℕ) → ℕ → Mqtt → EspErr × Mqtt
mqtt_subscribe none qos s = (invalid_arg, s)
mqtt_subscribe (some topic) qos s = slot_filled (fill_slot topic qos s.pending_subs) topic qos s

-- `publish`: the client's answer is whether the message identifier is not negative.
unfoldable pub mqtt_publish :
    Bool → Option (List ℕ) → Option (List ℕ) → ℕ → Bool → Mqtt → EspErr × Mqtt
mqtt_publish accepted (some topic) (some payload) qos retain s =
    let out = record s { log = publish_call topic payload qos retain ∷ s.log } in
    if not s.client
    then (invalid_arg, s)
    else (if not s.connected
        then (invalid_state, record s { dropped = u32 (s.dropped + 1) })
        else (if accepted then esp_ok else esp_fail, out))
mqtt_publish accepted none payload qos retain s = (invalid_arg, s)
mqtt_publish accepted (some topic) none qos retain s = (invalid_arg, s)
