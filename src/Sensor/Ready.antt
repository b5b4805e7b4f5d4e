-- ===== src/Sensor/Ready.antt =====
-- components/dp_mesh/dp_mesh_sensor.c: a node becomes ready once, and publishes only then.
use dockpulse_iot.Prelude.{
  ℕ, suc, ◌≡◌, refl, Bool, true, false, ◌&&◌, List, [], ◌∷◌, Option, none, some, arith, split_if,
  if◌then◌else◌,
}
use dockpulse_iot.Esp.{EspErr}
use dockpulse_iot.Codec.Messages.{BerthStatus, BerthDiag, status_wire_len, diag_wire_len}
use dockpulse_iot.Codec.Status.{berth_status_pack}
use dockpulse_iot.Codec.Diag.{berth_diag_pack}
use dockpulse_iot.Mesh.Wire.{CfgOp, VendorOp, group_addr, app_idx, is_pub_set, status_pub, diag_pub}
use dockpulse_iot.Sensor.Node.{
  NodeCall, ready_up, publish, NodeStack, Node, NodeEvent, node_provisioned, node_reset_evt,
  node_logged, fire_ready, node_prov_event, on_cfg_server, post_prov_timer_cb, publish_status,
  publish_diag, send_wire, publish_guard, unless_refused, is_given,
}

-- What reaches the file.
pub data NodeInput : Type 0 where
  node_event : NodeEvent → NodeInput
  cfg_server_event : Bool → CfgOp → NodeInput
  watchdog_fires restored : NodeInput
  status_call : List ℕ → Option BerthStatus → NodeInput
  diag_call : List ℕ → Option BerthDiag → NodeInput

abbrev pub ready_count : List NodeCall → ℕ
ready_count [] = 0
ready_count (ready_up addr ∷ cs) = suc (ready_count cs)
ready_count (_ ∷ cs) = ready_count cs

abbrev pub publish_count : List NodeCall → ℕ
publish_count [] = 0
publish_count (publish op msg ∷ cs) = suc (publish_count cs)
publish_count (_ ∷ cs) = publish_count cs

-- The node has told its readiness once if it is ready, and not before; before, it has published
-- nothing, and its model has no address to publish to. A ready node publishes to the group, with the
-- application key, at most seven hops far and not by itself.
pub record ReadyOk (s : Node) : Type 0 where
  pub told : ready_count s.log ≡ (if s.ready_fired && s.ready_cb then 1 else 0)
  pub quiet : s.ready_fired ≡ false → publish_count s.log ≡ 0
  pub unarmed : s.ready_fired ≡ false → s.publish_addr ≡ 0
  pub armed : s.ready_fired ≡ true → s.publish_addr ≡ group_addr
  pub keyed :
      s.ready_fired ≡ true
      → (s.publish_app_idx ≡ app_idx) × (s.publish_ttl ≡ 7) × (s.publish_period ≡ 0)

module _ (stack : NodeStack) where
  abbrev pub node_react : NodeInput → Node → Node
  node_react (node_event e) s = node_prov_event stack e s
  node_react (cfg_server_event change op) s = on_cfg_server stack change op s
  node_react watchdog_fires s = post_prov_timer_cb stack s
  node_react restored s = fire_ready stack s
  node_react (status_call wire st) s = (publish_status stack wire st s).1
  node_react (diag_call wire d) s = (publish_diag stack wire d s).1

  abbrev pub node_play : List NodeInput → Node → Node
  node_play [] s = s
  node_play (i ∷ is) s = node_play is (node_react i s)

  pub fire_ready-ReadyOk : (s : Node) → ReadyOk s → ReadyOk (fire_ready stack s)
  unfolding fire_ready
  fire_ready-ReadyOk s h = ground arith

  timer-ReadyOk : (s : Node) → ReadyOk s → ReadyOk (post_prov_timer_cb stack s)
  unfolding post_prov_timer_cb
  timer-ReadyOk s h = ground arith

  event-ReadyOk : (e : NodeEvent) (s : Node) → ReadyOk s → ReadyOk (node_prov_event stack e s)
  unfolding node_prov_event
  event-ReadyOk node_provisioned s h = ground arith
  event-ReadyOk node_reset_evt s h = ground arith
  event-ReadyOk node_logged s h = h

  cfg-ReadyOk :
      (change : Bool) (op : CfgOp) (s : Node)
      → ReadyOk s
      → ReadyOk (on_cfg_server stack change op s)
  unfolding on_cfg_server
  cfg-ReadyOk change op s h =
      split_if ReadyOk (change && is_pub_set op) (fire_ready stack s) s
        (λ _. fire_ready-ReadyOk s h) (λ _. h)

  send-ReadyOk :
      (op : VendorOp) (e : EspErr) (buf : Option (List ℕ)) (len : Option ℕ) (s : Node)
      → ReadyOk s
      → s.ready_fired ≡ true
      → ReadyOk (send_wire stack op (e, buf, len) s).1
  send-ReadyOk op e none len s h r = h
  send-ReadyOk op e (some b) none s h r = h
  send-ReadyOk op e (some b) (some n) s h r = ground arith

  unless-ReadyOk :
      (g : Option EspErr) (run : EspErr × Node) (s : Node)
      → ReadyOk s
      → (g ≡ none → ReadyOk run.1)
      → ReadyOk (unless_refused stack g run s).1
  unless-ReadyOk none run s h k = k refl
  unless-ReadyOk (some e) run s h k = h

  pub guard_ready :
      (given : Bool) (s : Node)
      → publish_guard stack given s ≡ none
      → (given ≡ true) × (s.ready_fired ≡ true)
  guard_ready given s h = ground arith

  guarded-ReadyOk :
      (given : Bool) (run : EspErr × Node) (s : Node)
      → ReadyOk s
      → (s.ready_fired ≡ true → ReadyOk run.1)
      → ReadyOk (unless_refused stack (publish_guard stack given s) run s).1
  guarded-ReadyOk given run s h k =
      unless-ReadyOk (publish_guard stack given s) run s h (λ g. k (guard_ready given s g).1)

  status-ReadyOk :
      (wire : List ℕ) (st : Option BerthStatus) (s : Node)
      → ReadyOk s
      → ReadyOk (publish_status stack wire st s).1
  unfolding publish_status
  status-ReadyOk wire st s h =
      let (e, out, n) = berth_status_pack st (some wire) status_wire_len (some 0) in
      guarded-ReadyOk (is_given stack st) (send_wire stack status_pub (e, out, n) s) s h
        (send-ReadyOk status_pub e out n s h)

  diag-ReadyOk :
      (wire : List ℕ) (d : Option BerthDiag) (s : Node)
      → ReadyOk s
      → ReadyOk (publish_diag stack wire d s).1
  unfolding publish_diag
  diag-ReadyOk wire d s h =
      let (e, out, n) = berth_diag_pack d (some wire) diag_wire_len (some 0) in
      guarded-ReadyOk (is_given stack d) (send_wire stack diag_pub (e, out, n) s) s h
        (send-ReadyOk diag_pub e out n s h)

  pub react-ReadyOk : (i : NodeInput) (s : Node) → ReadyOk s → ReadyOk (node_react i s)
  react-ReadyOk (node_event e) s h = event-ReadyOk e s h
  react-ReadyOk (cfg_server_event change op) s h = cfg-ReadyOk change op s h
  react-ReadyOk watchdog_fires s h = timer-ReadyOk s h
  react-ReadyOk restored s h = fire_ready-ReadyOk s h
  react-ReadyOk (status_call wire st) s h = status-ReadyOk wire st s h
  react-ReadyOk (diag_call wire d) s h = diag-ReadyOk wire d s h

  -- From a state that fulfils it, the invariant of a node holds after every sequence of events,
  -- restores and publications: a node with a callback has reported its readiness exactly once if it
  -- is ready, and never if it is not; a node that is not ready has published nothing and has no
  -- address to publish to; a ready one publishes to the group address.
  pub node_play-ReadyOk :
      (inputs : List NodeInput) (s : Node) → ReadyOk s → ReadyOk (node_play inputs s)
  node_play-ReadyOk [] s h = h
  node_play-ReadyOk (i ∷ is) s h = node_play-ReadyOk is (node_react i s) (react-ReadyOk i s h)
