-- ===== src/Uplink/Adoption/Requests.antt =====
-- components/dp_gateway/dp_gateway_adopt.c with components/dp_mesh/dp_mesh_provisioner.c: a request and
-- the call of the mesh that it comes to.
use dockpulse_iot.Prelude.{
  ℕ, ◌+◌, ◌≡◌, refl, sym, ap, ◌∙◌, Bool, true, false, not, ◌&&◌, ◌||◌, List, Option, none, some,
  arith, ◌⊎◌, inl, inr, split_if, if◌then◌else◌,
}
use dockpulse_iot.Esp.{EspErr, is_ok, esp_ok, invalid_state}
use dockpulse_iot.Mesh.Gateway.{MeshStack, Gw}
use dockpulse_iot.Mesh.Unbind.{prov_table}
use dockpulse_iot.Mesh.Provisioner.{gateway_provision, start_flow, has_node_with_uuid}
use dockpulse_iot.Mesh.Provisioner.Invariant.{FlowOk, count_done, waiting}
use dockpulse_iot.Mesh.Provisioner.History.{provision_input, react-FlowOk}
use dockpulse_iot.Mesh.Provisioner.NewCalls.{new_calls, react-Adds, count_done-new}
use dockpulse_iot.Prov.Store.{Nvs, State}
use dockpulse_iot.Uplink.Adopt.{
  Request, Adopt, act, resp_err, busy, hex_decode, request_oob, start_adoption, check_oob,
  check_uuid, with_names, handle_provision_req,
}
use dockpulse_iot.Uplink.Answers.{answered, asks, request_input, react_answers}
use dockpulse_iot.Uplink.Adoption.{
  Adoption, MeshCall, oob_call, uuid_call, named_call, mesh_call, moved, with_call,
}
use dockpulse_iot.Uplink.Adoption.Agree.{Agrees, moved-Agrees}

-- Whether an adoption is active after a request that comes to a call or not.
abbrev after_request : Option MeshCall → Bool → EspErr → Bool → Bool
after_request none has_node started active = active
after_request (some c) has_node started active = not has_node && is_ok started

module _ (scan_hex2 : List ℕ → Option ℕ) where
  start-active :
      (req_id : List ℕ) (r : Request) (uuid : List ℕ) (oob : Option (List ℕ)) (has_node : Bool)
      (started : EspErr) (s : Adopt)
      → s.active ≡ false
      → (start_adoption scan_hex2 req_id r uuid oob has_node started s).active
        ≡ (not has_node && is_ok started)
  unfolding start_adoption
  start-active req_id r uuid oob has_node started s free = ground arith

  -- What a request leaves: its effect on the flag, and that it comes to a call only when it is not set.
  abbrev Leaves : Option MeshCall → Bool → EspErr → Adopt → Adopt → Type 0
  Leaves c has_node started s after =
      (after.active ≡ after_request c has_node started s.active) × ((c ≡ none) ⊎ (s.active ≡ false))

  unless-busy :
      (b : Bool) (call : Option MeshCall) (has_node : Bool) (started : EspErr)
      (s refused after : Adopt)
      → s.active ≡ b
      → refused.active ≡ s.active
      → (s.active ≡ false → Leaves call has_node started s after)
      → Leaves (if b then none else call) has_node started s (if b then refused else after)
  unless-busy true call has_node started s refused after h k rest = (k, inl refl)
  unless-busy false call has_node started s refused after h k rest = rest h

  oob-active :
      (req_id : List ℕ) (r : Request) (uuid : List ℕ) (o : Option (Option (List ℕ)))
      (has_node : Bool) (started : EspErr) (s : Adopt)
      → s.active ≡ false
      → Leaves
          (oob_call scan_hex2 r uuid o)
          has_node
          started
          s
          (check_oob scan_hex2 req_id r uuid o has_node started s)
  oob-active req_id r uuid none has_node started s free = (refl, inl refl)
  oob-active req_id r uuid (some oob) has_node started s free =
      (start-active req_id r uuid oob has_node started s free, inr free)

  uuid-active :
      (req_id : List ℕ) (r : Request) (o : Option (List ℕ)) (has_node : Bool) (started : EspErr)
      (s : Adopt)
      → s.active ≡ false
      → Leaves
          (uuid_call scan_hex2 r o)
          has_node
          started
          s
          (check_uuid scan_hex2 req_id r o has_node started s)
  uuid-active req_id r none has_node started s free = (refl, inl refl)
  uuid-active req_id r (some uuid) has_node started s free =
      oob-active req_id r uuid (request_oob scan_hex2 r.oob) has_node started s free

  names-active :
      (id uuid : Option (List ℕ)) (r : Request) (has_node : Bool) (started : EspErr) (s : Adopt)
      → Leaves
          (named_call scan_hex2 id uuid r s)
          has_node
          started
          s
          (with_names scan_hex2 id uuid r has_node started s)
  names-active none uuid r has_node started s = (refl, inl refl)
  names-active (some id) none r has_node started s = (refl, inl refl)
  names-active (some id) (some uuid) r has_node started s =
      let call = uuid_call scan_hex2 r (hex_decode scan_hex2 uuid 16) in
      let refused = act (resp_err id busy) s in
      let after = check_uuid scan_hex2 id r (hex_decode scan_hex2 uuid 16) has_node started s in
      unless-busy s.active call has_node started s refused after refl refl
        (λ free. uuid-active id r (hex_decode scan_hex2 uuid 16) has_node started s free)

  request-active :
      (r : Option Request) (has_node : Bool) (started : EspErr) (s : Adopt)
      → Leaves
          (mesh_call scan_hex2 r s)
          has_node
          started
          s
          (handle_provision_req scan_hex2 r has_node started s)
  unfolding mesh_call handle_provision_req
  request-active none has_node started s = (refl, inl refl)
  request-active (some r) has_node started s = names-active r.req_id r.uuid r has_node started s

module _ (scan_hex2 : List ℕ → Option ℕ) (nvs : Nvs) (stack : MeshStack) where
  start_flies :
      (uuid : List ℕ) (oob : Option (List ℕ)) (ms client : ℕ) (s : Gw (State nvs))
      → let (e, after) = start_flow stack (prov_table nvs) uuid oob ms client s in
        after.in_flight ≡ is_ok e
  unfolding start_flow
  start_flies uuid none ms client s = ground arith
  start_flies uuid (some v) ms client s = ground arith

  -- A gateway without a flow has one after the call exactly if the call succeeds.
  pub provision_flies :
      (uuid : List ℕ) (oob : Option (List ℕ)) (ms client : ℕ) (s : Gw (State nvs))
      → s.in_flight ≡ false
      → let (e, after) =
          gateway_provision stack (prov_table nvs) (some uuid) oob ms (some client) s in
        after.in_flight ≡ is_ok e
  unfolding gateway_provision
  provision_flies uuid oob ms client s rest =
      split_if (λ (r : EspErr × Gw (State nvs)). r.1.in_flight ≡ is_ok r.0)
        (not s.is_gateway || s.in_flight) (invalid_state, s)
        (start_flow stack (prov_table nvs) uuid oob ms client s) (λ _. rest)
        (λ _. start_flies uuid oob ms client s)

  asks_alike :
      (r : Option Request) (has_node : Bool) (started : EspErr)
      → asks (request_input r has_node started) ≡ asks (request_input r false esp_ok)
  asks_alike none has_node started = refl
  asks_alike (some r) has_node started = refl

  request-answered :
      (r : Option Request) (has_node : Bool) (started : EspErr) (s : Adopt)
      → answered (handle_provision_req scan_hex2 r has_node started s)
        ≡ answered s + asks (request_input r false esp_ok)
  request-answered r has_node started s =
      react_answers scan_hex2 (request_input r has_node started) s
      ∙ ap (λ n. answered s + n) (asks_alike r has_node started)

  -- A request that comes to a call finds no adoption active.
  call-active :
      (c : MeshCall) (r : Option Request) (has_node : Bool) (started : EspErr) (s : Adopt)
      → mesh_call scan_hex2 r s ≡ some c
      → (s.active ≡ false)
        × ((handle_provision_req scan_hex2 r has_node started s).active
            ≡ (not has_node && is_ok started))
  call-active c r has_node started s e =
      let (flag, once) = request-active scan_hex2 r has_node started s in
      let free : s.active ≡ false = elim once [ inl n ↦ absurd (cc (n, e)) | inr f ↦ f ] in
      (free, flag ∙ ap (λ c. after_request c has_node started s.active) e)

  -- The provisioner counts no answer when it starts.
  pub started_count :
      (uuid : List ℕ) (oob : Option (List ℕ)) (ms : ℕ) (s : Gw (State nvs))
      → FlowOk s
      → s.in_flight ≡ false
      → let (e, after) = gateway_provision stack (prov_table nvs) (some uuid) oob ms (some 0) s in
        FlowOk after
        × (count_done (new_calls s.log after.log) + waiting after.in_flight ≡ waiting (is_ok e))
  started_count uuid oob ms s h rest =
      let i = provision_input (some uuid) oob ms (some 0) in
      let (e, after) = gateway_provision stack (prov_table nvs) (some uuid) oob ms (some 0) s in
      let (ok, count) = react-FlowOk stack (prov_table nvs) i s h in
      let new = count_done-new s.log after.log (react-Adds stack (prov_table nvs) i s) in
      let was : waiting s.in_flight ≡ 0 = ap waiting rest in
      let now : waiting after.in_flight ≡ waiting (is_ok e) =
        ap waiting (provision_flies uuid oob ms 0 s rest) in
      (ok, omega (arith, count, new, was, now))

  pub call-Agrees :
      (c : Option MeshCall) (r : Option Request) (j : Adoption nvs)
      → mesh_call scan_hex2 r j.app ≡ c
      → Agrees j
      → let after = with_call scan_hex2 nvs stack c r j in
        Agrees after × (answered after.app ≡ answered j.app + asks (request_input r false esp_ok))
  call-Agrees none r j e h =
      let flag = (request-active scan_hex2 r false esp_ok j.app).0 in
      let same = ap (λ c. after_request c false esp_ok j.app.active) e in
      (record { flow = h.flow; both = flag ∙ same ∙ h.both }, request-answered r false esp_ok j.app)
  call-Agrees (some (uuid, oob, ms)) r j e h =
      let (err, gw) = gateway_provision stack (prov_table nvs) (some uuid) oob ms (some 0) j.gw in
      let known : Adoption nvs = record j {
        app = handle_provision_req scan_hex2 r true err j.app;
      } in
      let begun : Adoption nvs = record j {
        app = handle_provision_req scan_hex2 r false err j.app;
      } in
      let End : Adoption nvs → Type 0 = λ after.
        Agrees after
        × (answered after.app ≡ answered j.app + asks (request_input r false esp_ok)) in
      let (free, refused) = call-active (uuid, oob, ms) r true err j.app e in
      let flag = (call-active (uuid, oob, ms) r false err j.app e).1 in
      let rest : j.gw.in_flight ≡ false = sym h.both ∙ free in
      let (ok, count) = started_count uuid oob ms j.gw h.flow rest in
      split_if End (has_node_with_uuid stack (prov_table nvs) (some uuid) j.gw) known
        (moved scan_hex2 nvs stack gw begun)
        (λ _.
          (record { flow = h.flow; both = refused ∙ sym rest }, request-answered r true err j.app))
        (λ _.
          let (agrees, same) =
            moved-Agrees scan_hex2 nvs stack gw begun ok (count ∙ sym (ap waiting flag)) in
          (agrees, same ∙ request-answered r false err j.app))
