-- ===== src/Uplink/Decom/Requests.antt =====
-- components/dp_gateway/dp_gateway_decom.c: a request keeps the invariant, on every path.
use dockpulse_iot.Prelude.{
  ℕ, ◌+◌, ◌≡◌, refl, sym, ap, ◌∙◌, subst, ◌⊎◌, inl, inr, Bool, true, false, List, [], ◌∷◌, Option,
  none, some, arith, strtoul, Bool-cases, ◌==◌,
}
use dockpulse_iot.Esp.{EspErr, is_ok}
use dockpulse_iot.Mesh.Gateway.{MeshStack, AddrTable, Gw}
use dockpulse_iot.Mesh.Provisioner.{decommission_node}
use dockpulse_iot.Mesh.Provisioner.DecomHandlers.{decommission-DecomOk}
use dockpulse_iot.Uplink.Decom.{
  RespStatus, resp_failed, DecomCode, bad_req, bad_unicast, unknown, missing_unicast_addr, oom,
  DecomMsg, publish_resp, start_msg, DecomRequest, DecomCtx, DecomApp, free_ctx, in_range, Joint,
  copied_64, start_decom, with_addr, with_text,
}
use dockpulse_iot.Uplink.Decom.Heap.{
  is_named, opt_named, count_resps, count_ctxs, answered, HeapFits, JointOk, no_client, fits_none,
  fits_at, fits_more, free_at,
}

module _ (stack : MeshStack) (tab : AddrTable) where
  open tab use {T}

  -- A start either leaves the provisioner alone, or gives it the client.
  abbrev pub Starts : ℕ → EspErr × Gw T → Gw T → Type 0
  Starts c r s =
      ((is_ok r.0 ≡ false) × (r.1.decom_cb ≡ s.decom_cb))
      ⊎ ((is_ok r.0 ≡ true) × (s.decom_active ≡ false) × (r.1.decom_cb ≡ some c))

  pub decommission-Starts :
      (addr c : ℕ) (s : Gw T) → Starts c (decommission_node stack tab addr (some c) s) s
  unfolding decommission_node
  decommission-Starts addr c s = elim (Bool-cases s.is_gateway) [
    | inr no_gw ↦ rw no_gw (inl (refl, refl))
    | inl gw ↦ elim (Bool-cases (addr == 0)) [
      | inl zero_addr ↦ rw (gw, zero_addr) (inl (refl, refl))
      | inr named ↦ elim (Bool-cases s.decom_active) [
        | inl busy ↦ rw (gw, named, busy) (inl (refl, refl))
        | inr free ↦ rw (gw, named, free) (inr (refl, refl, refl))
      ]
    ]
  ]

  -- What keeps the invariant and answers, or will answer, n more requests.
  abbrev pub Good : ℕ → Joint T → Joint T → Type 0
  Good n j after = JointOk after × (answered after.app ≡ answered j.app + n)

  pub named_copy : (o : Option (List ℕ)) → is_named (copied_64 o) ≡ opt_named o
  named_copy none = refl
  named_copy (some []) = refl
  named_copy (some (c ∷ cs)) = refl

  publish_keeps :
      (o name : Option (List ℕ)) (status : RespStatus) (code : Option DecomCode)
      (msg : Option DecomMsg) (n : ℕ) (a : DecomApp)
      → let after = publish_resp o name status code msg n a in
        (after.heap ≡ a.heap)
        × (after.next ≡ a.next)
        × (count_resps after.resps ≡ count_resps a.resps + opt_named o)
  publish_keeps none name status code msg n a = (refl, refl, omega arith)
  publish_keeps (some s) name status code msg n a = (refl, refl, omega arith)

  -- An answer to a request that leaves the heap alone.
  pub refused-Good :
      (r : DecomRequest) (code : DecomCode) (msg : Option DecomMsg) (j : Joint T)
      → JointOk j
      → Good
          (opt_named r.req_id)
          j
          (record j { app = publish_resp r.req_id r.node_id resp_failed (some code) msg 0 j.app })
  refused-Good r code msg j h =
      let told = publish_resp r.req_id r.node_id resp_failed (some code) msg 0 j.app in
      let (heap, next, count) =
        publish_keeps r.req_id r.node_id resp_failed (some code) msg 0 j.app in
      (
        record {
          decom = h.decom;
          fits =
              subst (λ l. HeapFits j.gw.decom_cb l told.next) (sym heap)
                (subst (λ n. HeapFits j.gw.decom_cb j.app.heap n) (sym next) h.fits);
        },
        omega (arith, count, ap count_ctxs heap),
      )

  pub start-Good :
      (r : DecomRequest) (addr : ℕ) (j : Joint T)
      → JointOk j
      → Good (opt_named r.req_id) j (start_decom stack tab r addr j)
  unfolding start_decom
  start-Good r addr j h =
      let c = j.app.next in
      let (kept, more) = decommission-DecomOk stack tab addr (some c) j.gw h.decom in
      let (err, gw) = decommission_node stack tab addr (some c) j.gw in
      let ctx : DecomCtx = record { req_id = copied_64 r.req_id; node_id = copied_64 r.node_id } in
      let filled = record j.app { heap = (c, ctx) ∷ j.app.heap; next = c + 1 } in
      let failed =
        publish_resp r.req_id r.node_id resp_failed (some unknown) (start_msg stack tab err) 0
          filled in
      let (heap, next, count) =
        publish_keeps r.req_id r.node_id resp_failed (some unknown) (start_msg stack tab err) 0
          filled in
      let copy = named_copy r.req_id in
      let freed : free_ctx c failed.heap ≡ j.app.heap =
        ap (free_ctx c) heap ∙ free_at c c ctx j.app.heap refl in
      elim (decommission-Starts addr c j.gw) [
        | inl (refused, same) ↦ rw refused (
          record {
            decom = kept;
            fits =
                rw (freed, next)
                  (fits_at j.gw.decom_cb gw.decom_cb j.app.heap (c + 1) same
                    (fits_more j.gw.decom_cb j.app.heap c h.fits));
          },
          omega (arith, count, ap count_ctxs freed),
        )
        | inr (accepted, free, held) ↦
            let empty : j.app.heap ≡ [] =
              fits_none j.gw.decom_cb j.app.heap c h.fits (no_client j.gw h.decom free) in
            rw accepted (
              record { decom = kept; fits = rw (held, empty) (refl, omega arith) },
              omega (arith, copy),
            )
      ]

  pub addr-Good :
      (o : Option ℕ) (r : DecomRequest) (room : Bool) (j : Joint T)
      → JointOk j
      → Good (opt_named r.req_id) j (with_addr stack tab o r room j)
  addr-Good none r room j h = refused-Good r bad_unicast none j h
  addr-Good (some addr) r false j h = refused-Good r unknown (some oom) j h
  addr-Good (some addr) r true j h = start-Good r addr j h

  pub text-Good :
      (o : Option (List ℕ)) (r : DecomRequest) (room : Bool) (j : Joint T)
      → JointOk j
      → Good (opt_named r.req_id) j (with_text stack tab o r room j)
  text-Good none r room j h = refused-Good r bad_req (some missing_unicast_addr) j h
  text-Good (some text) r room j h = addr-Good (in_range (strtoul text)) r room j h
