-- ===== src/Uplink/Status.antt =====
-- components/dp_gateway/dp_gateway.c: the message for the backend. The text of the clock, the format of
-- a berth and the JSON library are parameters; a JSON object is the record of its members.
use dockpulse_iot.Prelude.{
  ℕ, ◌+◌, ◌-◌, ◌/◌, ◌%◌, ◌≡◌, ◌≢◌, ◌≤◌, refl, ap, ◌∙◌, inl, inr, Bool, true, not, ◌&&◌, List, [],
  ◌∷◌, ◌++◌, Option, none, some, arith, leb, ◌==◌, ==_self, if◌then◌else◌, length, get_or, take,
  take_short,
}
use dockpulse_iot.Esp.{EspErr, invalid_arg, no_mem}
use dockpulse_iot.Codec.Messages.{BerthStatus, battery_unknown}
use dockpulse_iot.Uplink.Hex.{hex_digit}
use dockpulse_iot.Prov.Store.{Nvs, State, lookup_berth, lookup_node_id, record_node}
use dockpulse_iot.Prov.Valid.{IsValid}
use dockpulse_iot.Prov.Refine.{Accepts, record_node_lem, unless_same}

-- "harbor/", "/" and "/status"
abbrev pub status_topic : List ℕ → List ℕ → List ℕ → List ℕ
status_topic harbor dock berth = take 191 (
    (b'h' ∷ b'a' ∷ b'r' ∷ b'b' ∷ b'o' ∷ b'r' ∷ b'/' ∷ harbor)
    ++ b'/' ∷ dock
    ++ b'/' ∷ berth
    ++ b'/' ∷ b's' ∷ b't' ∷ b'a' ∷ b't' ∷ b'u' ∷ b's' ∷ [])

-- `SUFFIXES`
abbrev pub suffixes : List (List ℕ)
suffixes =
    (b't' ∷ b'1' ∷ [])
    ∷ (b't' ∷ b'2' ∷ [])
    ∷ (b't' ∷ b'3' ∷ [])
    ∷ (b't' ∷ b'4' ∷ [])
    ∷ (b'l' ∷ b'1' ∷ [])
    ∷ (b'l' ∷ b'2' ∷ [])
    ∷ (b'l' ∷ b'3' ∷ [])
    ∷ (b'l' ∷ b'4' ∷ [])
    ∷ (b'r' ∷ b'1' ∷ [])
    ∷ (b'r' ∷ b'2' ∷ [])
    ∷ (b'r' ∷ b'3' ∷ [])
    ∷ (b'r' ∷ b'4' ∷ [])
    ∷ []

-- "node-%03u" of a byte.
abbrev pub node_fallback : ℕ → List ℕ
node_fallback n =
    b'n'
    ∷ b'o'
    ∷ b'd'
    ∷ b'e'
    ∷ b'-'
    ∷ (b'0' + n / 100)
    ∷ (b'0' + n / 10 % 10)
    ∷ (b'0' + n % 10)
    ∷ []

-- "0x%04x" of a 16-bit address.
abbrev pub addr_text : ℕ → List ℕ
addr_text a =
    b'0'
    ∷ b'x'
    ∷ hex_digit (a / 4096)
    ∷ hex_digit (a / 256 % 16)
    ∷ hex_digit (a / 16 % 16)
    ∷ hex_digit (a % 16)
    ∷ []

-- The members of the message; the battery is left out when its charge is unknown.
pub record StatusMessage : Type 0 where
  pub node_id : List ℕ
  pub berth_id : List ℕ
  pub mesh_unicast_addr : List ℕ
  pub occupied : Bool
  pub sensor_raw : ℕ
  pub battery_pct : Option ℕ
  pub timestamp : List ℕ

-- The build: names, the format of a berth from its suffix, the quality of service.
pub record UplinkConfig : Type 0 where
  pub harbor_id : List ℕ
  pub dock_id : List ℕ
  pub berth_format : List ℕ → List ℕ

abbrev pub fallback_berth : UplinkConfig → ℕ → Option (List ℕ)
fallback_berth c idx =
    if leb 1 idx && leb idx 12
    then some (take 63 (c.berth_format (get_or suffixes (idx - 1) [])))
    else none

-- `render_berth_id`, on the answer of `dp_prov_lookup_berth`.
unfoldable pub render_berth_id : UplinkConfig → Option (List ℕ) → ℕ → Option (List ℕ)
render_berth_id c none idx = fallback_berth c idx
render_berth_id c (some []) idx = fallback_berth c idx
render_berth_id c (some (b ∷ bs)) idx = some (take 63 (b ∷ bs))

abbrev pub node_name : Option (List ℕ) → ℕ → List ℕ
node_name none n = node_fallback n
node_name (some name) n = name

-- What the surroundings give: is there memory for the object, for its text, the time, and the result
-- of the publication.
pub record Surroundings : Type 0 where
  pub object_made : Bool
  pub text_made : Bool
  pub now : List ℕ
  pub published : EspErr

abbrev pub send_status :
    UplinkConfig
    → Surroundings
    → Option (List ℕ)
    → Option (List ℕ)
    → BerthStatus
    → ℕ
    → EspErr × Option (List ℕ × StatusMessage)
send_status c w none name s src = (invalid_arg, none)
send_status c w (some berth) name s src =
    let message : StatusMessage = record {
      node_id = node_name name s.node_id;
      berth_id = berth;
      mesh_unicast_addr = addr_text src;
      occupied = s.occupied;
      sensor_raw = s.sensor_raw_mm;
      battery_pct = if s.battery_pct == battery_unknown then none else some s.battery_pct;
      timestamp = w.now;
    } in
    if not (w.object_made && w.text_made)
    then (no_mem, none)
    else (w.published, some (status_topic c.harbor_id c.dock_id berth, message))

render_whole :
    (c : UplinkConfig) (berth : List ℕ) (idx : ℕ)
    → berth ≢ []
    → length berth ≤ 63
    → render_berth_id c (some berth) idx ≡ some berth
unfolding render_berth_id
render_whole c [] idx named short = absurd (named refl)
render_whole c (b ∷ bs) idx named short = ap some (take_short 63 (b ∷ bs) short)

module _ (nvs : Nvs) where
  -- `dp_gateway_uplink`: the result, and the topic and the message given to the MQTT wrapper.
  unfoldable pub gateway_uplink :
      UplinkConfig
      → Surroundings
      → Option BerthStatus
      → ℕ
      → State nvs
      → EspErr × Option (List ℕ × StatusMessage)
  gateway_uplink c w none src p = (invalid_arg, none)
  gateway_uplink c w (some s) src p =
      send_status c w (render_berth_id c (lookup_berth nvs src p) s.berth_id)
        (lookup_node_id nvs src p) s src

  -- The berth under which a recorded node reports.
  pub record_node-render_berth_id :
      (a : ℕ) (berth : List ℕ) (node_id : Option (List ℕ)) (p : State nvs) (c : UplinkConfig)
      (idx : ℕ)
      → Accepts a berth node_id
      → p.loaded ≡ true
      → IsValid p.table
      → (record_node nvs a (some berth) node_id p).0 ≢ no_mem
      → render_berth_id c (lookup_berth nvs a (record_node nvs a (some berth) node_id p).1) idx
        ≡ some berth
  record_node-render_berth_id a berth node_id p c idx acc loaded valid room =
      let after = (record_node nvs a (some berth) node_id p).1 in
      let (ok, cases) = record_node_lem nvs a a berth node_id p acc loaded valid acc.addressed in
      let found : lookup_berth nvs a after ≡ some berth = elim cases [
        | inl bound ↦
            bound
            ∙ ap (λ b. if b then some berth else unless_same berth (lookup_berth nvs a p))
                (==_self a)
        | inr full ↦ absurd (room full.0)
      ] in
      ap (λ o. render_berth_id c o idx) found
      ∙ render_whole c berth idx acc.named (omega (arith, acc.short))

  -- An adopted node reports its berth. After a `dp_prov_record_node` with accepted arguments on a
  -- loaded, valid table that does not return `ESP_ERR_NO_MEM`, and with memory for the message, the
  -- gateway publishes every status from the address on the topic of the berth recorded, with that
  -- berth, the address, the reading and the charge if it is known, whatever berth the status names.
  pub record_node-gateway_uplink :
      (a : ℕ) (berth : List ℕ) (node_id : Option (List ℕ)) (p : State nvs) (c : UplinkConfig)
      (w : Surroundings) (s : BerthStatus)
      → Accepts a berth node_id
      → p.loaded ≡ true
      → IsValid p.table
      → (record_node nvs a (some berth) node_id p).0 ≢ no_mem
      → w.object_made ≡ true
      → w.text_made ≡ true
      → let after = (record_node nvs a (some berth) node_id p).1 in
        gateway_uplink c w (some s) a after ≡ (
          w.published,
          some (
            status_topic c.harbor_id c.dock_id berth,
            record {
              node_id = node_name (lookup_node_id nvs a after) s.node_id;
              berth_id = berth;
              mesh_unicast_addr = addr_text a;
              occupied = s.occupied;
              sensor_raw = s.sensor_raw_mm;
              battery_pct = if s.battery_pct == battery_unknown then none else some s.battery_pct;
              timestamp = w.now;
            },
          ),
        )
  unfolding gateway_uplink
  record_node-gateway_uplink a berth node_id p c w s acc loaded valid room o t =
      rw (record_node-render_berth_id a berth node_id p c s.berth_id acc loaded valid room, o, t)
        refl
