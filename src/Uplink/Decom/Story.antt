-- ===== src/Uplink/Decom/Story.antt =====
-- components/dp_gateway/dp_gateway_decom.c with components/dp_mesh/dp_mesh_provisioner.c: a request from
-- its message to its answer.
use dockpulse_iot.Prelude.{
  ℕ, zero, suc, ◌+◌, ◌≤◌, ◌<◌, ◌≡◌, ◌≢◌, refl, ap, ◌∙◌, subst, Bool, true, false, List, [], ◌∷◌,
  ◌++◌, Option, none, some, arith, take, replicate, if◌then◌else◌,
}
use dockpulse_iot.Esp.{is_ok}
use dockpulse_iot.Mesh.Wire.{CfgEvent, timeout_evt, node_reset_op}
use dockpulse_iot.Mesh.Gateway.{
  MeshStack, AddrTable, Gw, DecomResult, FailCode, decom_ok, decom_orphan,
}
use dockpulse_iot.Mesh.Provisioner.{decommission_node, decom_finish, on_decom_event, on_cfg_client}
use dockpulse_iot.Mesh.Provisioner.Decom.{decom_calls}
use dockpulse_iot.Mesh.Provisioner.History.{decommission_input, play}
use dockpulse_iot.Mesh.Provisioner.Verdict.{
  judge, is_gone, lost, Pending, timeouts, timeout_again, begin_decom, decom_ends, Ends, third,
  play-decommissions,
}
use dockpulse_iot.Uplink.Status.{addr_text}
use dockpulse_iot.Uplink.Decom.{
  DecomRequest, DecomResp, DecomCtx, DecomApp, Joint, JointInput, request, cfg_event, copied_64,
  text_or_null, status_of, code_of, some_attempts, start_decom, handle_decommission_req, joint_play,
}
use dockpulse_iot.Uplink.Decom.Heap.{
  done_lem, told_resp, fresh_same, fresh_one, load_first, free_at,
}
use dockpulse_iot.Uplink.Decom.Text.{strtoul-addr_text, in_range-addr}

abbrev pub lost_event : JointInput
lost_event = cfg_event timeout_evt node_reset_op 0

module _ (stack : MeshStack) (tab : AddrTable) where
  open tab use {T, forget}

  timeout_calls :
      (addr client attempts : ℕ) (s : Gw T)
      → Pending addr client attempts s
      → attempts < 3
      → decom_calls (on_cfg_client stack tab timeout_evt node_reset_op 0 s).log ≡ decom_calls s.log
  unfolding on_cfg_client on_decom_event
  timeout_calls addr client attempts s p lt = let a = p.active in let n = p.tries in ground arith

  finish_calls :
      (acked : Bool) (addr client attempts : ℕ) (s : Gw T)
      → Pending addr client attempts s
      → let after = decom_finish stack tab (if acked then decom_ok else decom_orphan) s in
        let verdict = judge acked (is_gone stack tab s.log addr) (is_ok (forget addr s.table).0) in
        decom_calls after.log ≡ (client, verdict.0, attempts, verdict.1) ∷ decom_calls s.log
  unfolding decom_finish
  finish_calls true addr client attempts s p =
      let e = p.addr_of in let c = p.cb in let n = p.tries in ground arith
  finish_calls false addr client attempts s p =
      let e = p.addr_of in let c = p.cb in let n = p.tries in ground arith

  begin_ok :
      (addr client : ℕ) (s : Gw T)
      → s.is_gateway ≡ true
      → s.decom_active ≡ false
      → addr ≢ 0
      → is_ok (decommission_node stack tab addr (some client) s).0 ≡ true
  unfolding decommission_node
  begin_ok addr client s gw rest named = ground arith

  -- What the request allocates, and the provisioner that it leaves.
  abbrev begun : DecomRequest → ℕ → Joint T → Joint T
  begun r addr j =
      let c = j.app.next in
      let ctx : DecomCtx = record { req_id = copied_64 r.req_id; node_id = copied_64 r.node_id } in
      record {
        app = record j.app { heap = (c, ctx) ∷ j.app.heap; next = c + 1 };
        gw = (decommission_node stack tab addr (some c) j.gw).1;
      }

  request_begins :
      (r : DecomRequest) (addr : ℕ) (j : Joint T)
      → j.gw.is_gateway ≡ true
      → j.gw.decom_active ≡ false
      → addr ≢ 0
      → addr < 65536
      → r.unicast_addr ≡ some (addr_text addr)
      → handle_decommission_req stack tab (some r) true j ≡ begun r addr j
  unfolding handle_decommission_req start_decom
  request_begins r addr j gw rest named small text =
      let ok = begin_ok addr j.app.next j.gw gw rest named in
      rw (text, strtoul-addr_text addr small, in_range-addr addr named small, ok) refl

  -- Time-outs leave the requests alone.
  timeouts_play :
      (n addr client attempts : ℕ) (more : List JointInput) (j : Joint T)
      → Pending addr client attempts j.gw
      → attempts + n ≤ 3
      → joint_play stack tab (replicate n lost_event ++ more) j
        ≡ joint_play stack tab more (record j { gw = play stack tab (replicate n lost) j.gw })
  timeouts_play zero addr client attempts more j p le = refl
  timeouts_play (suc n) addr client attempts more j p le =
      let again = on_cfg_client stack tab timeout_evt node_reset_op 0 j.gw in
      let (p1, t1, l1) = timeout_again stack tab addr client attempts j.gw p (omega arith) in
      let quiet =
        fresh_same (decom_calls j.gw.log) (decom_calls again.log)
          (timeout_calls addr client attempts j.gw p (omega arith)) in
      rw (quiet, joint_play)
        (timeouts_play n addr client (attempts + 1) more (record j { gw = again }) p1 (omega arith))

  -- The event that ends the decommission publishes the answer and frees the context.
  last_play :
      (event : CfgEvent) (err c k next : ℕ) (result : DecomResult) (code : Option FailCode)
      (ctx : DecomCtx) (heap : List (ℕ × DecomCtx)) (resps : List DecomResp) (g : Gw T)
      → let after = on_cfg_client stack tab event node_reset_op err g in
        decom_calls after.log ≡ (c, result, k, code) ∷ decom_calls g.log
        → let answer = told_resp ctx result k code in
          joint_play stack tab
            (cfg_event event node_reset_op err ∷ [])
            (record { app = record { heap = (c, ctx) ∷ heap; next = next; resps = resps }; gw = g })
          ≡ some (record {
            app = record { heap = heap; next = next; resps = answer ∷ resps };
            gw = on_cfg_client stack tab event node_reset_op err g;
          })
  last_play event err c k next result code ctx heap resps g calls =
      let after = on_cfg_client stack tab event node_reset_op err g in
      let a : DecomApp = record { heap = (c, ctx) ∷ heap; next = next; resps = resps } in
      let fresh =
        fresh_one (c, result, k, code) (decom_calls g.log) (decom_calls after.log) calls in
      let told = done_lem c result k code ctx a (load_first c c ctx heap refl) in
      let freed = free_at c c ctx heap refl in
      rw (fresh, joint_play) (rw (told, freed, joint_play) refl)

  -- A decommission request is answered with its verdict. On a gateway without an active decommission,
  -- with memory for the context, a request whose address is the text that the status messages carry
  -- for a 16-bit address other than 0, then n time-outs, then a reply (n at most 2) or a third
  -- time-out (n is 2) leave no decommission active, the node forgotten by the table, the context
  -- freed, and one answer more: under the first 63 characters of the name of the request, with those
  -- of the node, the number of attempts, n + 1, and the status and the code of the verdict that the
  -- node, the stack and the table deserve.
  pub request-answered :
      (n addr err : ℕ) (acked : Bool) (event : CfgEvent) (req_id : List ℕ)
      (node_id : Option (List ℕ)) (j : Joint T)
      → j.gw.is_gateway ≡ true
      → j.gw.decom_active ≡ false
      → addr ≢ 0
      → addr < 65536
      → n ≤ 2
      → Ends acked event err n
      → let r : DecomRequest = record {
        req_id = some req_id;
        unicast_addr = some (addr_text addr);
        node_id = node_id;
      } in
        let before =
          play stack tab (decommission_input addr (some j.app.next) ∷ replicate n lost) j.gw in
        let verdict =
          judge acked (is_gone stack tab before.log addr) (is_ok (forget addr j.gw.table).0) in
        let answer : DecomResp = record {
          req_id = take 63 req_id;
          node_id = text_or_null (copied_64 node_id);
          status = status_of verdict.0;
          code = code_of verdict.1;
          msg = none;
          attempts = some (n + 1);
        } in
        (after : Gw T) × (joint_play stack tab
            (request (some r) true ∷ replicate n lost_event
              ++ cfg_event event node_reset_op err ∷ [])
            j
          ≡ some (record {
            app = record { heap = j.app.heap; next = j.app.next + 1; resps = answer ∷ j.app.resps };
            gw = after;
          }))
        × (after.decom_active ≡ false)
        × (after.table ≡ (forget addr j.gw.table).1)
  request-answered n addr err acked event req_id node_id j gw rest named small le how =
      let r : DecomRequest = record {
        req_id = some req_id;
        unicast_addr = some (addr_text addr);
        node_id = node_id;
      } in
      let c = j.app.next in
      let start = begun r addr j in
      let (p1, t1, l1) = begin_decom stack tab addr c j.gw gw rest named in
      let before = play stack tab (replicate n lost) start.gw in
      let (p2, t2, l2) = timeouts stack tab n addr c 1 start.gw p1 (omega arith) in
      let tries : 1 + n ≡ n + 1 = omega arith in
      let p3 = subst (λ k. Pending addr c k before) tries p2 in
      let after = on_cfg_client stack tab event node_reset_op err before in
      let ended =
        decom_ends stack tab acked event err addr c (n + 1) before p3
          (third n acked event err how) in
      let (idle, table, resets, told) =
        play-decommissions stack tab n addr c err acked event j.gw gw rest named le how in
      let kept : before.table ≡ j.gw.table = t2 ∙ t1 in
      let verdict =
        judge acked (is_gone stack tab before.log addr) (is_ok (forget addr j.gw.table).0) in
      let calls : decom_calls after.log
          ≡ (c, verdict.0, n + 1, verdict.1) ∷ decom_calls before.log =
        ap (λ (g : Gw T). decom_calls g.log) ended
        ∙ finish_calls acked addr c (n + 1) before p3
        ∙ ap
            (λ t.
              let v = judge acked (is_gone stack tab before.log addr) (is_ok (forget addr t).0) in
              (c, v.0, n + 1, v.1) ∷ decom_calls before.log)
            kept in
      let counted : some_attempts (n + 1) ≡ some (n + 1) = ground arith in
      let ctx : DecomCtx = record { req_id = take 63 req_id; node_id = copied_64 node_id } in
      let last =
        last_play event err c (n + 1) (c + 1) verdict.0 verdict.1 ctx j.app.heap j.app.resps before
          calls in
      let begins = request_begins r addr j gw rest named small refl in
      let waits =
        timeouts_play n addr c 1 (cfg_event event node_reset_op err ∷ []) start p1 (omega arith) in
      (
        after,
        ap (joint_play stack tab (replicate n lost_event ++ cfg_event event node_reset_op err ∷ []))
              begins
            ∙ waits
            ∙ rw (← counted) last,
        idle,
        table,
      )
