-- ===== src/Uplink/Topics.antt =====
-- components/dp_gateway: the topics of requests, and how the two request handlers are registered with the
-- MQTT wrapper. The JSON parser is a parameter.
use dockpulse_iot.Prelude.{ℕ, Bool, List, ◌++◌, Option, some, if◌then◌else◌, take, str_eq, codes}
use dockpulse_iot.Esp.{EspErr, is_ok}
use dockpulse_iot.Mesh.Gateway.{MeshStack, AddrTable}
use dockpulse_iot.Uplink.Mqtt.{Mqtt, add_msg_cb, mqtt_subscribe}
use dockpulse_iot.Uplink.Adopt.{Request, Adopt, handle_provision_req}
use dockpulse_iot.Uplink.Decom.{DecomRequest, Joint, handle_decommission_req}

-- A topic of the gateway in an array of 160 characters.
abbrev pub gw_topic : List ℕ → List ℕ → List ℕ
gw_topic gateway_id name = take 159 (codes "dockpulse/v1/gw/" ++ gateway_id ++ name)

abbrev pub provision_topic : List ℕ → List ℕ
provision_topic gateway_id = gw_topic gateway_id (codes "/provision/req")

abbrev pub decommission_topic : List ℕ → List ℕ
decommission_topic gateway_id = gw_topic gateway_id (codes "/decommission/req")

-- The numbers of the two callbacks `on_msg`.
abbrev pub adopt_on_msg : ℕ
adopt_on_msg = 1

abbrev pub decom_on_msg : ℕ
decom_on_msg = 2

-- `on_msg` of dp_gateway_adopt.c
unfoldable pub provision_msg :
    (List ℕ → Option ℕ)
    → (List ℕ → Option Request)
    → List ℕ
    → List ℕ
    → List ℕ
    → Bool
    → EspErr
    → Adopt
    → Adopt
provision_msg scan_hex2 parse gateway_id topic payload has_node started s =
    if str_eq topic (provision_topic gateway_id)
    then handle_provision_req scan_hex2 (parse payload) has_node started s
    else s

-- `on_msg` of dp_gateway_decom.c
unfoldable pub decommission_msg :
    (stack : MeshStack) (tab : AddrTable)
    → (List ℕ → Option DecomRequest)
    → List ℕ
    → List ℕ
    → List ℕ
    → Bool
    → Joint tab.T
    → Joint tab.T
decommission_msg stack tab parse gateway_id topic payload room j =
    if str_eq topic (decommission_topic gateway_id)
    then handle_decommission_req stack tab (parse payload) room j
    else j

-- Register a callback, then subscribe to its topic.
abbrev pub register : ℕ → List ℕ → Mqtt → EspErr × Mqtt
register cb topic s =
    let (err, added) = add_msg_cb (some cb) s in
    if is_ok err then mqtt_subscribe (some topic) 1 added else (err, added)

-- `dp_gateway_adopt_init`; it also registers the state callback of the mesh.
unfoldable pub adopt_init : List ℕ → Mqtt → EspErr × Mqtt
adopt_init gateway_id s = register adopt_on_msg (provision_topic gateway_id) s

-- `dp_gateway_decom_init`
unfoldable pub decom_init : List ℕ → Mqtt → EspErr × Mqtt
decom_init gateway_id s = register decom_on_msg (decommission_topic gateway_id) s
