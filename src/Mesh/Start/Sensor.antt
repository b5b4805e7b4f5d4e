-- ===== src/Mesh/Start/Sensor.antt =====
-- components/dp_mesh/dp_mesh.c: what the start of a sensor has done, whether it succeeds or fails.
use dockpulse_iot.Prelude.{
  ℕ, ◌≡◌, refl, sym, ap, ◌∙◌, ◌⊎◌, Bool, true, false, List, [], ◌∷◌, ◌++◌, Option, some, Bool-cases,
  inl, inr, if_true, if_false, if◌then◌else◌, subst, arith, replicate, take, codes,
}
use dockpulse_iot.Esp.{EspErr, esp_ok, nvs_no_free_pages, nvs_new_version_found, is_ok}
use dockpulse_iot.Prov.Factory.{Factory, get_static_oob, get_dev_uuid}
use dockpulse_iot.Mesh.Gateway.{MeshStack, AddrTable}
use dockpulse_iot.Sensor.Node.{NodeStack, Node, ready_up, fire_ready}
use dockpulse_iot.Mesh.Start.{
  role_sensor, MeshCfg, InitCall, bt_host, register_prov, register_model, register_cfg_server,
  mesh_start, node_prov_enable, StartEnv, Device, make_dev_uuid, own_oob, answer, then_call,
  finish_start, start_calls, each_call, registered, mesh_init,
}
use dockpulse_iot.Mesh.Start.Boot.{boot, boot_gw}

-- The UUID that a sensor beacons with: the address of its radio, then the marker of the product, or
-- zeros where the address is not read.
abbrev pub beacon_uuid : Factory → List ℕ
beacon_uuid f =
    let (e, mac) = f.read_mac (replicate 6 0) in
    take 6 mac ++ (if is_ok e then codes "DOCKPULSE" ++ 1 ∷ [] else replicate 10 0)

-- The partition can be read: it is initialised, or full, or of a newer version.
abbrev pub Opens : EspErr → Type 0
Opens e = (e ≡ esp_ok) ⊎ (e ≡ nvs_no_free_pages) ⊎ (e ≡ nvs_new_version_found)

-- The partition holds an OOB value of sixteen bytes.
abbrev pub Holds : Factory → Type 0
Holds f =
    let (e, size, read) = f.read_oob (replicate 16 0) in
    Opens f.init_partition × (is_ok f.open_readonly ≡ true) × (is_ok e ≡ true) × (size ≡ 16)

-- The OOB value of a sensor: what the partition holds, or the shared one of the bench builds.
abbrev pub IsOob : Factory → List ℕ → Type 0
IsOob f oob =
    let (e, size, read) = f.read_oob (replicate 16 0) in
    (Holds f × (oob ≡ read)) ⊎ (¬ Holds f × (oob ≡ codes "dp-static-oob" ++ 0 ∷ 0 ∷ 0 ∷ []))

-- A sensor's side with its callback, before it is provisioned.
abbrev pub waiting : Bool → Node
waiting callback = record {
  is_sensor = true;
  ready_cb = callback;
  ready_fired = false;
  publish_addr = 0;
  publish_app_idx = 0;
  publish_ttl = 0;
  publish_period = 0;
  timer = false;
  log = [];
}

-- A sensor that is ready: it publishes to the group, and its callback heard of the address.
abbrev pub told : Bool → ℕ → Node
told callback addr = record {
  is_sensor = true;
  ready_cb = callback;
  ready_fired = true;
  publish_addr = 0xC000;
  publish_app_idx = 0;
  publish_ttl = 7;
  publish_period = 0;
  timer = false;
  log = if callback then ready_up addr ∷ [] else [];
}

-- A log, newest first, after calls, the first first.
abbrev logged : List InitCall → List InitCall → List InitCall
logged [] log = log
logged (c ∷ cs) log = logged cs (c ∷ log)

module _ (stack : MeshStack) (tab : AddrTable) (node_stack : NodeStack) (env : StartEnv) where
  open tab use {T}

  -- Every one of the calls succeeds when it is made after those before it.
  abbrev pub AllOk : List InitCall → List InitCall → Type 0
  AllOk [] log = Unit {0}
  AllOk (c ∷ cs) log = (is_ok (answer stack tab node_stack env log c) ≡ true) × AllOk cs (c ∷ log)

  -- The newest call of the log was answered by the error.
  abbrev pub EndsIn : EspErr → List InitCall → Type 0
  EndsIn e [] = ⊥
  EndsIn e (c ∷ log) = answer stack tab node_stack env log c ≡ e

  -- The calls of the start of a sensor up to the question whether it is provisioned, newest first.
  abbrev pub sensor_log : List ℕ → List ℕ → List InitCall
  sensor_log uuid oob =
      mesh_start uuid (some oob)
      ∷ register_cfg_server
      ∷ register_model
      ∷ register_prov
      ∷ bt_host
      ∷ []

  -- A start that succeeds: every call did; the node is ready if it is provisioned, and if not, its
  -- provisioning is enabled and it waits.
  abbrev pub Succeeds : Bool → List ℕ → List ℕ → Device T → Type 0
  Succeeds callback uuid oob after =
      let log = sensor_log uuid oob in
      AllOk
        (bt_host
          ∷ register_prov
          ∷ register_model
          ∷ register_cfg_server
          ∷ mesh_start uuid (some oob)
          ∷ [])
        []
      × (((env.is_provisioned log ≡ true)
            × (after.calls ≡ log)
            × (after.node ≡ told callback (node_stack.primary_addr [])))
          ⊎ ((env.is_provisioned log ≡ false)
              × (is_ok (env.ret log node_prov_enable) ≡ true)
              × (after.calls ≡ node_prov_enable ∷ log)
              × (after.node ≡ waiting callback)))

  -- What calls that are made in order until one fails leave.
  abbrev Ran : List InitCall → Device T → EspErr × Device T → Type 0
  Ran cs d r =
      ((is_ok r.0 ≡ true) × AllOk cs d.calls × (r.1 ≡ record d { calls = logged cs d.calls }))
      ⊎ ((is_ok r.0 ≡ false) × EndsIn r.0 r.1.calls × (r.1 ≡ record d { calls = r.1.calls }))

  each_call-failed :
      (cs : List InitCall) (e : EspErr) (d : Device T)
      → is_ok e ≡ false
      → each_call stack tab node_stack env cs (e, d) ≡ (e, d)
  each_call-failed [] e d h = refl
  each_call-failed (c ∷ cs) e d h =
      let stays : then_call stack tab node_stack env c (e, d) ≡ (e, d) =
        if_false (is_ok e)
          (answer stack tab node_stack env d.calls c, record d { calls = c ∷ d.calls }) (e, d) h in
      ap (each_call stack tab node_stack env cs) stays ∙ each_call-failed cs e d h

  each_call-Ran :
      (cs : List InitCall) (e : EspErr) (d : Device T)
      → is_ok e ≡ true
      → Ran cs d (each_call stack tab node_stack env cs (e, d))
  each_call-Ran [] e d h = inl (h, tt, refl)
  each_call-Ran (c ∷ cs) e d h =
      let rest = each_call stack tab node_stack env cs in
      let e2 = answer stack tab node_stack env d.calls c in
      let after : Device T = record d { calls = c ∷ d.calls } in
      let goes : then_call stack tab node_stack env c (e, d) ≡ (e2, after) =
        if_true (is_ok e) (e2, after) (e, d) h in
      subst (Ran (c ∷ cs) d) (sym (ap rest goes)) (elim (Bool-cases (is_ok e2)) [
        | inl b ↦ elim (each_call-Ran cs e2 after b) [
          | inl (ok, all, same) ↦ inl (ok, (b, all), same)
          | inr (bad, ends, same) ↦ inr (bad, ends, same)
        ]
        | inr b ↦
            subst (Ran (c ∷ cs) d) (sym (each_call-failed cs e2 after b)) (inr (b, refl, refl))
      ])

  make_dev_uuid-beacon :
      (old : List ℕ) → make_dev_uuid env.factory role_sensor old ≡ beacon_uuid env.factory
  unfolding make_dev_uuid get_dev_uuid
  make_dev_uuid-beacon old = ground arith

  own_oob-IsOob :
      (oob : List ℕ) → IsOob env.factory oob → own_oob env.factory role_sensor ≡ some oob
  unfolding own_oob get_static_oob
  own_oob-IsOob oob h = ground arith

  -- What the start leaves: the role, the UUID, the side of a gateway as it was, and the sensor's side.
  abbrev pub Started : Bool → List ℕ → List ℕ → T → EspErr × Device T → Type 0
  Started callback uuid oob t (e, after) =
      (after.role ≡ role_sensor)
      × (after.uuid ≡ uuid)
      × (after.gw ≡ boot_gw t)
      × (((is_ok e ≡ true) × Succeeds callback uuid oob after)
          ⊎ ((is_ok e ≡ false) × EndsIn e after.calls × (after.node ≡ waiting callback)))

  -- The device that is configured as a sensor, after some calls.
  abbrev called : Bool → List ℕ → T → List InitCall → Device T
  called callback uuid t log = record {
    role = role_sensor;
    uuid = uuid;
    gw = boot_gw t;
    node = waiting callback;
    calls = log;
  }

  finish-Started :
      (callback : Bool) (uuid oob : List ℕ) (t : T) (r : EspErr × Device T)
      → Ran (start_calls role_sensor uuid (some oob)) (called callback uuid t []) r
      → Started callback uuid oob t (finish_start stack tab node_stack env role_sensor r)
  unfolding fire_ready
  finish-Started callback uuid oob t (e, d) h = ground arith

  -- The start of a sensor from its boot, with any callbacks. The device has the role of a sensor and
  -- its UUID is the address of its radio and the marker, or zeros in place of the marker if that read
  -- fails; nothing of the gateway's side changes. Its OOB value is the one the partition holds, or the
  -- shared one if the partition holds none of sixteen bytes. If the start succeeds, the Bluetooth
  -- host, the three registrations and the start of the stack with that UUID and that value each
  -- succeeded, in this order and with no other call before. A node that the stack then says is
  -- provisioned is ready: it publishes to the group, with the application key 0, a ttl of 7 and no
  -- period, and its callback, if there is one, was told the address. A node that is not has enabled
  -- its provisioning, and waits unready. If the start fails, it is with the error of the last call
  -- made, and the node waits unready.
  pub mesh_init-sensor :
      (status_cb diag_cb sensor_ready : Bool) (oob : List ℕ) (t : T)
      → IsOob env.factory oob
      → let cfg : MeshCfg = record {
        role = role_sensor;
        status_cb = status_cb;
        diag_cb = diag_cb;
        sensor_ready = sensor_ready;
      } in
        Started sensor_ready
          (beacon_uuid env.factory)
          oob
          t
          (mesh_init stack tab node_stack env (some cfg) (boot t))
  unfolding mesh_init registered
  mesh_init-sensor status_cb diag_cb sensor_ready oob t h =
      let uuid = beacon_uuid env.factory in
      let start : List ℕ → Option (List ℕ) → EspErr × Device T = λ u own.
        finish_start stack tab node_stack env role_sensor (
          each_call stack tab node_stack env (start_calls role_sensor u own)
            (esp_ok, called sensor_ready u t [])) in
      let ran =
        each_call-Ran (start_calls role_sensor uuid (some oob)) esp_ok
          (called sensor_ready uuid t []) refl in
      let same : start uuid (some oob)
          ≡ start (make_dev_uuid env.factory role_sensor (replicate 16 0))
              (own_oob env.factory role_sensor) =
        sym (
          ap (λ u. start u (own_oob env.factory role_sensor))
            (make_dev_uuid-beacon (replicate 16 0))
          ∙ ap (start uuid) (own_oob-IsOob oob h)) in
      subst (Started sensor_ready uuid oob t) same (
        finish-Started sensor_ready uuid oob t
          (each_call stack tab node_stack env (start_calls role_sensor uuid (some oob))
            (esp_ok, called sensor_ready uuid t []))
          ran)
