-- ===== src/Uplink/Adoption/Bound.antt =====
-- components/dp_gateway/dp_gateway_adopt.c, components/dp_mesh/dp_mesh_provisioner.c and
-- components/dp_prov/dp_prov.c: from the request to the berth of the node.
use dockpulse_iot.Prelude.{
  ℕ, ◌≡◌, ◌≢◌, refl, sym, ap, ◌∙◌, subst, inl, inr, Bool, true, false, List, [], ◌∷◌, Option, some,
  arith, if◌then◌else◌, ==_self, split_if, take, take_short,
}
use dockpulse_iot.Esp.{EspErr, is_ok, no_mem}
use dockpulse_iot.Mesh.Wire.{CfgOp}
use dockpulse_iot.Mesh.Gateway.{MeshStack, Call}
use dockpulse_iot.Mesh.Unbind.{prov_table}
use dockpulse_iot.Mesh.Provisioner.{gateway_provision, has_node_with_uuid}
use dockpulse_iot.Mesh.Provisioner.Invariant.{waiting, count_done}
use dockpulse_iot.Mesh.Provisioner.NewCalls.{new_calls}
use dockpulse_iot.Mesh.Provisioner.Steps.{AlwaysSends}
use dockpulse_iot.Prov.Store.{Nvs, State, lookup_berth, record_node}
use dockpulse_iot.Prov.Valid.{IsValid}
use dockpulse_iot.Prov.Refine.{Accepts, unless_same, record_node_lem}
use dockpulse_iot.Uplink.Adopt.{
  Request, Adopt, resp_ok, copied, some_if_text, hex_decode, request_oob, request_timeout,
  start_adoption, handle_provision_req,
}
use dockpulse_iot.Uplink.Adoption.{
  Adoption, adopt_request, bind_text, mesh_call, moved, with_call, adoption_react, adoption_play,
}
use dockpulse_iot.Uplink.Adoption.Begins.{provision-Begins}
use dockpulse_iot.Uplink.Adoption.Agree.{Agrees}
use dockpulse_iot.Uplink.Adoption.Requests.{provision_flies, started_count, call-Agrees}
use dockpulse_iot.Uplink.Adoption.Story.{
  newest_act, Keeps, all-Keeps, without_losses, play-answers_ok,
}

-- What a request must hold to reach the mesh.
pub record Reaches (scan_hex2 : List ℕ → Option ℕ) (r : Request) (id uuid : List ℕ)
    (oob : Option (List ℕ)) : Type 0 where
  pub named : r.req_id ≡ some id
  pub hex : List ℕ
  pub given : r.uuid ≡ some hex
  pub decoded : hex_decode scan_hex2 hex 16 ≡ some uuid
  pub oob_decoded : request_oob scan_hex2 r.oob ≡ some oob

module _ (scan_hex2 : List ℕ → Option ℕ) (nvs : Nvs) (stack : MeshStack) where
  begun_fields :
      (id : List ℕ) (r : Request) (uuid : List ℕ) (oob : Option (List ℕ)) (e : EspErr) (s : Adopt)
      → is_ok e ≡ true
      → let after = start_adoption scan_hex2 id r uuid oob false e s in
        (after.active ≡ true)
        × (after.req_id ≡ take 63 id)
        × (after.berth_id ≡ copied 48 r.berth_id)
        × (after.node_id ≡ copied 40 r.node_id)
  unfolding start_adoption
  begun_fields id r uuid oob e s ok = ground arith

  Reaches-call :
      (r : Request) (id uuid : List ℕ) (oob : Option (List ℕ)) (s : Adopt)
      → Reaches scan_hex2 r id uuid oob
      → s.active ≡ false
      → mesh_call scan_hex2 (some r) s ≡ some (uuid, oob, request_timeout r.ttl_s)
  unfolding mesh_call
  Reaches-call r id uuid oob s h free = rw (h.named, h.given, free, h.decoded, h.oob_decoded) refl

  Reaches-start :
      (r : Request) (id uuid : List ℕ) (oob : Option (List ℕ)) (has_node : Bool) (e : EspErr)
      (s : Adopt)
      → Reaches scan_hex2 r id uuid oob
      → s.active ≡ false
      → handle_provision_req scan_hex2 (some r) has_node e s
        ≡ start_adoption scan_hex2 id r uuid oob has_node e s
  unfolding handle_provision_req
  Reaches-start r id uuid oob has_node e s h free =
      rw (h.named, h.given, free, h.decoded, h.oob_decoded) refl

  -- A request that reaches the mesh, whose node is not known yet and whose flow starts.
  request-Keeps :
      (r : Request) (id uuid : List ℕ) (oob : Option (List ℕ)) (j : Adoption nvs)
      → Reaches scan_hex2 r id uuid oob
      → Agrees j
      → j.app.active ≡ false
      → has_node_with_uuid stack (prov_table nvs) (some uuid) j.gw ≡ false
      → let (e, gw) =
          gateway_provision stack
            (prov_table nvs)
            (some uuid)
            oob
            (request_timeout r.ttl_s)
            (some 0)
            j.gw in
        is_ok e ≡ true
        → Keeps
            (start_adoption scan_hex2 id r uuid oob false e j.app)
            gw
            (adoption_react scan_hex2 nvs stack (adopt_request (some r)) j)
  request-Keeps r id uuid oob j h agrees free unknown ok =
      let ms = request_timeout r.ttl_s in
      let (e, gw) = gateway_provision stack (prov_table nvs) (some uuid) oob ms (some 0) j.gw in
      let rest : j.gw.in_flight ≡ false = sym agrees.both ∙ free in
      let count = (started_count scan_hex2 nvs stack uuid oob ms j.gw agrees.flow rest).1 in
      let flies : waiting gw.in_flight ≡ 1 =
        ap waiting (provision_flies scan_hex2 nvs stack uuid oob ms 0 j.gw rest ∙ ok) in
      let one : waiting (is_ok e) ≡ 1 = ap waiting ok in
      let quiet : count_done (new_calls j.gw.log gw.log) ≡ 0 = omega (arith, count, flies, one) in
      let begun : Adoption nvs = record j {
        app = handle_provision_req scan_hex2 (some r) false e j.app;
      } in
      let known : Adoption nvs = record j {
        app = handle_provision_req scan_hex2 (some r) true e j.app;
      } in
      let started_app = start_adoption scan_hex2 id r uuid oob false e j.app in
      let after = moved scan_hex2 nvs stack gw begun in
      let keeps : Keeps begun.app gw after =
        all-Keeps nvs (new_calls j.gw.log gw.log) (record begun { gw = gw }) quiet in
      let same : Keeps started_app gw after =
        subst (λ (s : Adopt). Keeps s gw after) (Reaches-start r id uuid oob false e j.app h free)
          keeps in
      let Goal : Adoption nvs → Type 0 = λ x. Keeps started_app gw x in
      subst (λ c. Goal (with_call scan_hex2 nvs stack c (some r) j))
        (sym (Reaches-call r id uuid oob j.app h free))
        (split_if Goal (has_node_with_uuid stack (prov_table nvs) (some uuid) j.gw) known after
          (λ there. absurd (cc (there, unknown))) (λ _. same))

  bind_text_record :
      (addr : ℕ) (berth node : List ℕ) (t : State nvs)
      → berth ≢ []
      → bind_text nvs addr berth node t
        ≡ (record_node nvs addr (some berth) (some_if_text node) t).1
  bind_text_record addr [] node t h = absurd (h refl)
  bind_text_record addr (c ∷ cs) node t h = refl

  recorded :
      (addr : ℕ) (berth : List ℕ) (node : Option (List ℕ)) (t : State nvs)
      → Accepts addr berth node
      → t.loaded ≡ true
      → IsValid t.table
      → (record_node nvs addr (some berth) node t).0 ≢ no_mem
      → lookup_berth nvs addr (record_node nvs addr (some berth) node t).1 ≡ some berth
  recorded addr berth node t acc loaded valid room =
      elim (record_node_lem nvs addr addr berth node t acc loaded valid acc.addressed).1 [
        | inl bound ↦
            bound
            ∙ ap (λ b. if b then some berth else unless_same berth (lookup_berth nvs addr t))
                (==_self addr)
        | inr full ↦ absurd (room full.0)
      ]

  -- A request without losses binds its berth. On a gateway with a loaded and valid table, whose
  -- provisioner fulfils its invariant, without an adoption and without a decommission, let a request
  -- hold its name, a well-formed UUID that no node has, a well-formed OOB value or none, and a berth
  -- that dp_prov accepts for the address, with the node name if there is one. If the call of the mesh
  -- succeeds, the stack sends every configuration message and knows the node's key, and the table has
  -- room, then after the node has been provisioned at the address and has replied three times without
  -- error, no adoption is active, the newest message is the answer with the name of the request (63
  -- characters at most), the address and the key, and in memory the address is bound to the berth.
  pub request-bound :
      (addr : ℕ) (key id uuid berth : List ℕ) (oob : Option (List ℕ)) (op1 op2 op3 : CfgOp)
      (r : Request) (j : Adoption nvs)
      → AlwaysSends stack (prov_table nvs)
      → ((log : List Call) → stack.node_key log addr ≡ some key)
      → Agrees j
      → j.app.active ≡ false
      → j.gw.decom_active ≡ false
      → j.gw.table.loaded ≡ true
      → IsValid j.gw.table.table
      → Reaches scan_hex2 r id uuid oob
      → has_node_with_uuid stack (prov_table nvs) (some uuid) j.gw ≡ false
      → is_ok
          (gateway_provision stack
            (prov_table nvs)
            (some uuid)
            oob
            (request_timeout r.ttl_s)
            (some 0)
            j.gw).0
        ≡ true
      → r.berth_id ≡ some berth
      → let node = some_if_text (copied 40 r.node_id) in
        Accepts addr berth node
        → (record_node nvs addr (some berth) node j.gw.table).0 ≢ no_mem
        → let after =
            adoption_play scan_hex2 nvs stack
              (adopt_request (some r) ∷ without_losses addr op1 op2 op3)
              j in
          (after.app.active ≡ false)
          × (newest_act after.app.acts ≡ some (resp_ok (take 63 id) addr key))
          × (lookup_berth nvs addr after.gw.table ≡ some berth)
  request-bound addr key id uuid berth oob op1 op2 op3 r j sends knows agrees free rest loaded valid
        reaches unknown ok named acc room =
      let ms = request_timeout r.ttl_s in
      let (e, gw) = gateway_provision stack (prov_table nvs) (some uuid) oob ms (some 0) j.gw in
      let next = adoption_react scan_hex2 nvs stack (adopt_request (some r)) j in
      let k = request-Keeps r id uuid oob j reaches agrees free unknown ok in
      let (on, name, berth_id, node_id) = begun_fields id r uuid oob e j.app ok in
      let (step, cb, decom, table) = provision-Begins nvs stack uuid oob ms 0 j.gw ok in
      let agrees' =
        (call-Agrees scan_hex2 nvs stack (mesh_call scan_hex2 (some r) j.app) (some r) j refl
          agrees).0 in
      let (idle, answer, bound) =
        play-answers_ok scan_hex2 nvs stack addr 0 key op1 op2 op3 next sends agrees'
          (sym agrees'.both ∙ k.active ∙ on) (ap (λ g. g.cfg_step) k.gw ∙ step)
          (ap (λ g. g.decom_active) k.gw ∙ decom ∙ rest) (ap (λ g. g.prov_cb) k.gw ∙ cb)
          (knows next.gw.log) in
      let short : copied 48 r.berth_id ≡ berth =
        ap (copied 48) named ∙ take_short 47 berth (omega (arith, acc.short)) in
      let bind = bind_text nvs addr in
      let b = k.berth_id ∙ berth_id ∙ short in
      let n = k.node_id ∙ node_id in
      let t : next.gw.table ≡ j.gw.table = ap (λ g. g.table) k.gw ∙ table in
      let same =
        bound
        ∙ ap (λ b. bind b next.app.node_id next.gw.table) b
        ∙ ap (λ n. bind berth n next.gw.table) n
        ∙ ap (bind berth (copied 40 r.node_id)) t
        ∙ bind_text_record addr berth (copied 40 r.node_id) j.gw.table acc.named in
      (
        idle,
        answer ∙ ap (λ i. some (resp_ok i addr key)) (k.req_id ∙ name),
        ap (lookup_berth nvs addr) same
            ∙ recorded addr berth (some_if_text (copied 40 r.node_id)) j.gw.table acc loaded valid
                room,
      )
