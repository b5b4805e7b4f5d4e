-- ===== src/Uplink/Decom/Answers.antt =====
-- components/dp_gateway/dp_gateway_decom.c with components/dp_mesh/dp_mesh_provisioner.c: one answer for
-- each request.
use dockpulse_iot.Prelude.{
  ℕ, ◌+◌, ◌≡◌, refl, sym, ap, ◌∙◌, inl, inr, List, [], ◌∷◌, Option, none, some, arith,
}
use dockpulse_iot.Mesh.Gateway.{MeshStack, AddrTable, Gw}
use dockpulse_iot.Mesh.Provisioner.Decom.{DecomOk, Told, decom_calls, SameDecom, SameDecom-DecomOk}
use dockpulse_iot.Mesh.Provisioner.DecomHandlers.{
  cfg_client-DecomOk, timer-SameDecom, prov_event-SameDecom, delete_node-SameDecom,
  provision-SameDecom,
}
use dockpulse_iot.Mesh.Provisioner.History.{
  Input, cfg_input, prov_input, timer_input, delete_input, provision_input, react,
}
use dockpulse_iot.Uplink.Decom.{
  with_gw, DecomResp, DecomCtx, DecomApp, load_ctx, free_ctx, on_decom_done, Joint, with_text,
  handle_decommission_req, JointInput, request, cfg_event, prov_event, timer_fires, delete_call,
  provision_call, mesh_reacts, joint_react, joint_play,
}
use dockpulse_iot.Uplink.Decom.Heap.{
  fresh_same, fresh_one, answered, asks, asked, HeapFits, JointOk, fits_at, load_first, free_at,
  told_resp, done_lem,
}
use dockpulse_iot.Uplink.Decom.Callbacks.{Tells, SameDecom-Tells, cfg_client-Tells}
use dockpulse_iot.Uplink.Decom.Requests.{Good, text-Good}

module _ (stack : MeshStack) (tab : AddrTable) where
  open tab use {T}

  -- What is reached without a fault, and is good.
  abbrev Reaches : ℕ → Joint T → Option (Joint T) → Type 0
  Reaches n j o = (after : Joint T) × (o ≡ some after) × Good stack tab n j after

  -- The call of the waiting client, whose context is the only one.
  told-Good :
      (t : Told) (a : DecomApp) (g : Gw T)
      → HeapFits (some t.0) a.heap a.next
      → DecomOk g
      → g.decom_cb ≡ none
      → (b : DecomApp) × (on_decom_done t a ≡ some b)
        × JointOk (record { app = b; gw = g })
        × (answered b ≡ answered a)
  told-Good t a g fits ok none_waits = done t a.heap a.next a.resps g fits ok none_waits
    where
      done :
          (t : Told) (heap : List (ℕ × DecomCtx)) (next : ℕ) (resps : List DecomResp) (g : Gw T)
          → HeapFits (some t.0) heap next
          → DecomOk g
          → g.decom_cb ≡ none
          → (b : DecomApp) × (on_decom_done t (record { heap = heap; next = next; resps = resps })
              ≡ some b)
            × JointOk (record { app = b; gw = g })
            × (answered b ≡ answered (record { heap = heap; next = next; resps = resps }))
      done t [] next resps g fits ok idle = absurd fits
      done (p, result, n, code) ((q, x) ∷ []) next resps g fits ok idle =
          let found : load_ctx p ((q, x) ∷ []) ≡ some x = load_first p q x [] (sym fits.0) in
          let gone : free_ctx p ((q, x) ∷ []) ≡ [] = free_at p q x [] (sym fits.0) in
          (
            record { heap = []; next = next; resps = told_resp x result n code ∷ resps },
            done_lem p result n code x (record { heap = (q, x) ∷ []; next = next; resps = resps })
                  found
                ∙ ap
                    (λ l.
                      some (record {
                        heap = l;
                        next = next;
                        resps = told_resp x result n code ∷ resps;
                      }))
                    gone,
            record { decom = ok; fits = rw idle tt },
            omega arith,
          )
      done t (x ∷ y ∷ heap) next resps g fits ok idle = absurd fits

  mesh-Good :
      (i : Input) (j : Joint T)
      → JointOk j
      → DecomOk (react stack tab i j.gw)
      → Tells j.gw (react stack tab i j.gw)
      → Reaches 0 j (mesh_reacts stack tab i j)
  mesh-Good i j h ok (inl (calls, cb)) =
      let after = react stack tab i j.gw in
      (
        record j { gw = after },
        rw (fresh_same (decom_calls j.gw.log) (decom_calls after.log) calls) refl,
        (
          record {
            decom = ok;
            fits = fits_at j.gw.decom_cb after.decom_cb j.app.heap j.app.next cb h.fits;
          },
          omega arith,
        ),
      )
  mesh-Good i j h ok (inr (t, waits, calls, cb)) =
      let after = react stack tab i j.gw in
      let held = fits_at j.gw.decom_cb (some t.0) j.app.heap j.app.next (sym waits) h.fits in
      let (b, called, good, count) = told-Good t j.app after held ok cb in
      (
        record { app = b; gw = after },
        rw (fresh_one t (decom_calls j.gw.log) (decom_calls after.log) calls)
            (ap (with_gw after) called),
        (good, omega (arith, count)),
      )

  same-Good :
      (i : Input) (j : Joint T)
      → JointOk j
      → SameDecom j.gw (react stack tab i j.gw)
      → Reaches 0 j (mesh_reacts stack tab i j)
  same-Good i j h same =
      let after = react stack tab i j.gw in
      mesh-Good i j h (SameDecom-DecomOk stack tab j.gw after same h.decom).0
        (SameDecom-Tells stack tab j.gw after same)

  react-Good :
      (i : JointInput) (j : Joint T) → JointOk j → Reaches (asks i) j (joint_react stack tab i j)
  unfolding handle_decommission_req
  react-Good (request none room) j h = (j, refl, (h, omega arith))
  react-Good (request (some r) room) j h = (
    with_text stack tab r.unicast_addr r room j,
    refl,
    text-Good stack tab r.unicast_addr r room j h,
  )
  react-Good (cfg_event event op err) j h =
      mesh-Good (cfg_input event op err) j h
        (cfg_client-DecomOk stack tab event op err j.gw h.decom).0
        (cfg_client-Tells stack tab event op err j.gw)
  react-Good (prov_event e) j h =
      same-Good (prov_input e) j h (prov_event-SameDecom stack tab e j.gw)
  react-Good timer_fires j h = same-Good timer_input j h (timer-SameDecom stack tab j.gw)
  react-Good (delete_call addr) j h =
      same-Good (delete_input addr) j h (delete_node-SameDecom stack tab addr j.gw)
  react-Good (provision_call uuid oob ms client) j h =
      same-Good (provision_input uuid oob ms client) j h
        (provision-SameDecom stack tab uuid oob ms client j.gw)

  -- Every decommission request that names itself is answered exactly once, and no context is used
  -- after it is freed or lost. After any sequence of requests and of what else reaches the
  -- provisioner, whatever the mesh, the table and the allocator answer, no fault has happened, the
  -- live contexts are the one of the active decommission or none, and the answers given, plus those
  -- that wait, are those of before plus the requests.
  pub joint_play-answers :
      (inputs : List JointInput) (j : Joint T)
      → JointOk j
      → (after : Joint T) × (joint_play stack tab inputs j ≡ some after)
        × JointOk after
        × (answered after.app ≡ answered j.app + asked inputs)
  joint_play-answers [] j h = (j, refl, h, omega arith)
  joint_play-answers (i ∷ is) j h =
      let (next, one, (ok, count)) = react-Good i j h in
      let (after, rest, ok', count') = joint_play-answers is next ok in
      (after, rw (one, joint_play) rest, ok', omega (arith, count, count'))
