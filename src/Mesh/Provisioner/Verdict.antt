-- ===== src/Mesh/Provisioner/Verdict.antt =====
-- components/dp_mesh/dp_mesh_provisioner.c: a decommission from its call to its verdict.
use dockpulse_iot.Prelude.{
  replicate, ◌++◌, ℕ, zero, suc, ◌+◌, ◌≤◌, ◌<◌, ◌≡◌, ◌≢◌, refl, sym, ◌∙◌, ap, subst, ◌⊎◌, inl, inr,
  Bool, true, false, List, [], ◌∷◌, Option, none, some, arith, ◌||◌, ◌==◌, if◌then◌else◌,
}
use dockpulse_iot.Esp.{is_not_found, is_ok}
use dockpulse_iot.Mesh.Wire.{node_reset_op, CfgEvent, publish_evt, timeout_evt, reply_evt}
use dockpulse_iot.Mesh.Gateway.{
  FailCode, DecomResult, Call, decom_done, MeshStack, AddrTable, Gw, delete_fail, nvs_write,
  decom_ok, decom_orphan, decom_err, node_reset, delete_node,
}
use dockpulse_iot.Mesh.Provisioner.{decom_finish, on_decom_event, on_cfg_client, decommission_node}
use dockpulse_iot.Mesh.Provisioner.History.{Input, cfg_input, decommission_input, play}
use dockpulse_iot.Mesh.Provisioner.Steps.{sent, newest}

-- The verdict that a decommission deserves: whether the node has acknowledged its reset, whether the
-- stack no longer has it, whether the table has been written.
abbrev pub judge : Bool → Bool → Bool → DecomResult × Option FailCode
judge false gone written = (decom_orphan, none)
judge true false written = (decom_err, some delete_fail)
judge true true false = (decom_err, some nvs_write)
judge true true true = (decom_ok, none)

abbrev told_verdict : ℕ → DecomResult × Option FailCode → ℕ → Option Call
told_verdict client (r, code) attempts = some (decom_done client r attempts code)

-- An active decommission of addr for a client.
pub record Pending {T : Type 0} (addr client attempts : ℕ) (s : Gw T) : Type 0 where
  pub active : s.decom_active ≡ true
  pub addr_of : s.decom_addr ≡ addr
  pub cb : s.decom_cb ≡ some client
  pub tries : s.decom_attempts ≡ attempts

abbrev pub lost : Input
lost = cfg_input timeout_evt node_reset_op 0

replicate_shift {ℓ} :
    {A : Type ℓ} (n : ℕ) (m : A) (l : List A) → replicate n m ++ m ∷ l ≡ m ∷ replicate n m ++ l
replicate_shift zero m l = refl
replicate_shift (suc n) m l = ap (λ l. m ∷ l) (replicate_shift n m l)

-- What ends a decommission after n time-outs: a reply, or the third time-out.
abbrev pub Ends : Bool → CfgEvent → ℕ → ℕ → Type 0
Ends acked event err n =
    ((event ≡ reply_evt) × ((err == 0) ≡ acked))
    ⊎ ((event ≡ timeout_evt) × (n ≡ 2) × (acked ≡ false))

pub third :
    (n : ℕ) (acked : Bool) (event : CfgEvent) (err : ℕ)
    → Ends acked event err n
    → ((event ≡ reply_evt) × ((err == 0) ≡ acked))
      ⊎ ((event ≡ timeout_evt) × (n + 1 ≡ 3) × (acked ≡ false))
third n acked event err (inl h) = inl h
third n acked event err (inr h) = let (a, b, c) = h in inr (a, omega (arith, b), c)

module _ (stack : MeshStack) (tab : AddrTable) where
  open tab use {T, forget}

  -- The stack has deleted the node, or did not know it.
  abbrev pub is_gone : List Call → ℕ → Bool
  is_gone log addr = let e = stack.ret log (delete_node addr) in is_ok e || is_not_found e

  pub decom_finish_ack :
      (acked : Bool) (addr client attempts : ℕ) (s : Gw T)
      → Pending addr client attempts s
      → let after = decom_finish stack tab (if acked then decom_ok else decom_orphan) s in
        (after.decom_active ≡ false)
        × (after.table ≡ (forget addr s.table).1)
        × (sent after.log ≡ sent s.log)
        × (newest after.log
            ≡ told_verdict client
                (judge acked (is_gone s.log addr) (is_ok (forget addr s.table).0))
                attempts)
  unfolding decom_finish
  decom_finish_ack true addr client attempts s p =
      let e = p.addr_of in let c = p.cb in let n = p.tries in ground arith
  decom_finish_ack false addr client attempts s p =
      let e = p.addr_of in let c = p.cb in let n = p.tries in ground arith

  pub timeout_again :
      (addr client attempts : ℕ) (s : Gw T)
      → Pending addr client attempts s
      → attempts < 3
      → let after = on_cfg_client stack tab timeout_evt node_reset_op 0 s in
        Pending addr client (attempts + 1) after
        × (after.table ≡ s.table)
        × (sent after.log ≡ node_reset addr 1000 ∷ sent s.log)
  unfolding on_cfg_client on_decom_event
  timeout_again addr client attempts s p lt =
      let a = p.active in let e = p.addr_of in let c = p.cb in let n = p.tries in ground arith

  -- Up to three attempts go out, one for each time-out.
  pub timeouts :
      (n addr client attempts : ℕ) (s : Gw T)
      → Pending addr client attempts s
      → attempts + n ≤ 3
      → let after = play stack tab (replicate n lost) s in
        Pending addr client (attempts + n) after
        × (after.table ≡ s.table)
        × (sent after.log ≡ replicate n (node_reset addr 1000) ++ sent s.log)
  timeouts zero addr client attempts s p le =
      let same : attempts + 0 ≡ attempts = omega arith in
      (subst (λ k. Pending addr client k s) (sym same) p, refl, refl)
  timeouts (suc n) addr client attempts s p le =
      let again = on_cfg_client stack tab timeout_evt node_reset_op 0 s in
      let (p1, t1, l1) = timeout_again addr client attempts s p (omega arith) in
      let (p2, t2, l2) = timeouts n addr client (attempts + 1) again p1 (omega arith) in
      let after = play stack tab (replicate n lost) again in
      let same : attempts + 1 + n ≡ attempts + suc n = omega arith in
      (
        subst (λ k. Pending addr client k after) same p2,
        t2 ∙ t1,
        l2
            ∙ ap (λ l. replicate n (node_reset addr 1000) ++ l) l1
            ∙ replicate_shift n (node_reset addr 1000) (sent s.log),
      )

  pub begin_decom :
      (addr client : ℕ) (s : Gw T)
      → s.is_gateway ≡ true
      → s.decom_active ≡ false
      → addr ≢ 0
      → let after = (decommission_node stack tab addr (some client) s).1 in
        Pending addr client 1 after
        × (after.table ≡ s.table)
        × (sent after.log ≡ node_reset addr 1000 ∷ sent s.log)
  unfolding decommission_node
  begin_decom addr client s gw rest named = ground arith

  -- What ends a decommission: a reply, with its error code, or none after three attempts.
  pub decom_ends :
      (acked : Bool) (event : CfgEvent) (err addr client attempts : ℕ) (s : Gw T)
      → Pending addr client attempts s
      → ((event ≡ reply_evt) × ((err == 0) ≡ acked))
        ⊎ ((event ≡ timeout_evt) × (attempts ≡ 3) × (acked ≡ false))
      → on_cfg_client stack tab event node_reset_op err s
        ≡ decom_finish stack tab (if acked then decom_ok else decom_orphan) s
  unfolding on_cfg_client on_decom_event
  decom_ends acked publish_evt err addr client attempts s p (inl h) = absurd (cc (h.0))
  decom_ends acked publish_evt err addr client attempts s p (inr h) = absurd (cc (h.0))
  decom_ends acked timeout_evt err addr client attempts s p (inl h) = absurd (cc (h.0))
  decom_ends acked timeout_evt err addr client attempts s p (inr h) =
      let a = p.active in let n = p.tries in let (e, three, bad) = h in ground arith
  decom_ends acked reply_evt err addr client attempts s p (inl h) =
      let a = p.active in let (e, b) = h in ground arith
  decom_ends acked reply_evt err addr client attempts s p (inr h) = absurd (cc (h.0))

  -- A decommission ends with the verdict that it deserves. On a gateway without one, of a node whose
  -- address is not zero, n time-outs and then either a reply (n at most 2) or a third time-out (n
  -- is 2) give: one reset sent for each attempt, the decommission over, the node forgotten by the
  -- table, and the last call tells the client the number of attempts, n + 1, and the verdict. It is
  -- orphan unless the reply has no error, and of an acknowledged reset ok, unless the stack still
  -- has the node or the table could not be written.
  pub play-decommissions :
      (n addr client err : ℕ) (acked : Bool) (event : CfgEvent) (s : Gw T)
      → s.is_gateway ≡ true
      → s.decom_active ≡ false
      → addr ≢ 0
      → n ≤ 2
      → ((event ≡ reply_evt) × ((err == 0) ≡ acked))
        ⊎ ((event ≡ timeout_evt) × (n ≡ 2) × (acked ≡ false))
      → let before = play stack tab (decommission_input addr (some client) ∷ replicate n lost) s in
        let after = play stack tab (cfg_input event node_reset_op err ∷ []) before in
        let verdict = judge acked (is_gone before.log addr) (is_ok (forget addr s.table).0) in
        (after.decom_active ≡ false)
        × (after.table ≡ (forget addr s.table).1)
        × (sent after.log ≡ replicate (n + 1) (node_reset addr 1000) ++ sent s.log)
        × (newest after.log ≡ some (decom_done client verdict.0 (n + 1) verdict.1))
  play-decommissions n addr client err acked event s gw rest named le how =
      let begun = (decommission_node stack tab addr (some client) s).1 in
      let (p1, t1, l1) = begin_decom addr client s gw rest named in
      let before = play stack tab (replicate n lost) begun in
      let (p2, t2, l2) = timeouts n addr client 1 begun p1 (omega arith) in
      let same : 1 + n ≡ n + 1 = omega arith in
      let same' : suc n ≡ n + 1 = omega arith in
      let p3 = subst (λ k. Pending addr client k before) same p2 in
      let (f, t, l, v) = decom_finish_ack acked addr client (n + 1) before p3 in
      let kept : before.table ≡ s.table = t2 ∙ t1 in
      let Final : Gw T → Type 0 = λ after.
        let verdict = judge acked (is_gone before.log addr) (is_ok (forget addr s.table).0) in
        (after.decom_active ≡ false)
        × (after.table ≡ (forget addr s.table).1)
        × (sent after.log ≡ replicate (n + 1) (node_reset addr 1000) ++ sent s.log)
        × (newest after.log ≡ some (decom_done client verdict.0 (n + 1) verdict.1)) in
      let ended =
        decom_ends acked event err addr client (n + 1) before p3 (third n acked event err how) in
      subst Final (sym ended) (
        f,
        t ∙ ap (λ t. (forget addr t).1) kept,
        l
            ∙ l2
            ∙ ap (λ l. replicate n (node_reset addr 1000) ++ l) l1
            ∙ replicate_shift n (node_reset addr 1000) (sent s.log)
            ∙ ap (λ k. replicate k (node_reset addr 1000) ++ sent s.log) same',
        v
            ∙ ap
                (λ t.
                  told_verdict client
                    (judge acked (is_gone before.log addr) (is_ok (forget addr t).0)) (n + 1))
                kept,
      )
