-- ===== src/Uplink/Decom/Heap.antt =====
-- components/dp_gateway/dp_gateway_decom.c: the live contexts, what counts as an answer, and the invariant.
use dockpulse_iot.Prelude.{
  ℕ, ◌+◌, ◌<◌, ◌≡◌, refl, sym, subst, inl, inr, false, List, [], ◌∷◌, Option, none, some, arith,
  ==_iff, Option-cases, ◌-◌, suc, length,
}
use dockpulse_iot.Mesh.Gateway.{Gw, FailCode, DecomResult}
use dockpulse_iot.Mesh.Provisioner.Decom.{DecomOk}
use dockpulse_iot.Mesh.Provisioner.Decom.{Told}
use dockpulse_iot.Uplink.Decom.{
  fresh_calls, text_or_null, status_of, code_of, some_attempts, DecomResp, DecomCtx, DecomApp,
  load_ctx, free_ctx, on_decom_done, Joint, JointInput, request,
}

-- An answer, a context or a request counts if it names the request.
abbrev pub is_named : List ℕ → ℕ
is_named [] = 0
is_named (c ∷ cs) = 1

abbrev pub opt_named : Option (List ℕ) → ℕ
opt_named none = 0
opt_named (some s) = is_named s

abbrev pub count_resps : List DecomResp → ℕ
count_resps [] = 0
count_resps (r ∷ rs) = is_named r.req_id + count_resps rs

abbrev pub count_ctxs : List (ℕ × DecomCtx) → ℕ
count_ctxs [] = 0
count_ctxs ((p, c) ∷ heap) = is_named c.req_id + count_ctxs heap

abbrev pub answered : DecomApp → ℕ
answered a = count_resps a.resps + count_ctxs a.heap

abbrev pub asks : JointInput → ℕ
asks (request (some r) room) = opt_named r.req_id
asks _ = 0

abbrev pub asked : List JointInput → ℕ
asked [] = 0
asked (i ∷ is) = asks i + asked is

-- The live contexts are the one that the provisioner holds, or none.
abbrev pub HeapFits : Option ℕ → List (ℕ × DecomCtx) → ℕ → Type 0
HeapFits none [] n = Unit
HeapFits none (x ∷ xs) n = ⊥
HeapFits (some c) [] n = ⊥
HeapFits (some c) ((p, x) ∷ []) n = (p ≡ c) × (c < n)
HeapFits (some c) (x ∷ y ∷ xs) n = ⊥

pub record JointOk {T : Type 0} (j : Joint T) : Type 0 where
  pub decom : DecomOk j.gw
  pub fits : HeapFits j.gw.decom_cb j.app.heap j.app.next

pub no_client : {T : Type 0} (s : Gw T) → DecomOk s → s.decom_active ≡ false → s.decom_cb ≡ none
no_client s h rest = elim (Option-cases s.decom_cb) [
  | inl e ↦ e
  | inr (c, e) ↦ let (a, n, waits) = h.inactive rest in cc
]

pub fits_none :
    (cb : Option ℕ) (heap : List (ℕ × DecomCtx)) (n : ℕ)
    → HeapFits cb heap n
    → cb ≡ none
    → heap ≡ []
fits_none none [] n h e = refl
fits_none none (x ∷ xs) n h e = absurd h
fits_none (some c) heap n h e = cc

pub fits_at :
    (cb cb' : Option ℕ) (heap : List (ℕ × DecomCtx)) (n : ℕ)
    → cb' ≡ cb
    → HeapFits cb heap n
    → HeapFits cb' heap n
fits_at cb cb' heap n e h = subst (λ k. HeapFits k heap n) (sym e) h

pub fits_more :
    (cb : Option ℕ) (heap : List (ℕ × DecomCtx)) (n : ℕ)
    → HeapFits cb heap n
    → HeapFits cb heap (n + 1)
fits_more none [] n h = tt
fits_more none (x ∷ xs) n h = h
fits_more (some c) [] n h = h
fits_more (some c) ((p, x) ∷ []) n h = (h.0, omega (arith, h.1))
fits_more (some c) (x ∷ y ∷ xs) n h = h

pub load_first :
    (p q : ℕ) (x : DecomCtx) (heap : List (ℕ × DecomCtx))
    → p ≡ q
    → load_ctx p ((q, x) ∷ heap) ≡ some x
unfolding load_ctx
load_first p q x heap e = rw ((==_iff p q).1 e) refl

pub free_at :
    (p q : ℕ) (x : DecomCtx) (heap : List (ℕ × DecomCtx))
    → p ≡ q
    → free_ctx p ((q, x) ∷ heap) ≡ heap
unfolding free_ctx
free_at p q x heap e = rw ((==_iff p q).1 e) refl

-- The answer that `on_decom_done` publishes.
abbrev pub told_resp : DecomCtx → DecomResult → ℕ → Option FailCode → DecomResp
told_resp x result n code = record {
  req_id = x.req_id;
  node_id = text_or_null x.node_id;
  status = status_of result;
  code = code_of code;
  msg = none;
  attempts = some_attempts n;
}

pub done_lem :
    (p : ℕ) (result : DecomResult) (n : ℕ) (code : Option FailCode) (x : DecomCtx) (a : DecomApp)
    → load_ctx p a.heap ≡ some x
    → on_decom_done (p, result, n, code) a
      ≡ some (record {
        heap = free_ctx p a.heap;
        next = a.next;
        resps = told_resp x result n code ∷ a.resps;
      })
unfolding on_decom_done
done_lem p result n code x a found = rw (found, on_decom_done) refl

-- The calls of the client that an input adds.
pub fresh_same : (l l' : List Told) → l' ≡ l → fresh_calls l l' ≡ []
fresh_same l l' e = let none_new : length l - length l ≡ 0 = omega arith in rw (e, none_new) refl

pub fresh_one : (t : Told) (l l' : List Told) → l' ≡ t ∷ l → fresh_calls l l' ≡ t ∷ []
fresh_one t l l' e =
    let one_new : suc (length l) - length l ≡ 1 = omega arith in rw (e, one_new) refl
