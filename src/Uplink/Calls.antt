-- ===== src/Uplink/Calls.antt =====
-- components/dp_gateway/dp_gateway_adopt.c: what the mesh and the table are given.
use dockpulse_iot.Prelude.{
  ℕ, zero, suc, ◌-◌, ◌*◌, ◌≡◌, ◌≢◌, ◌<◌, refl, sym, ap, ◌∙◌, Bool, false, List, [], ◌∷◌, Option,
  none, some, arith, Bool-cases, inl, inr, split_if, length, drop, u8, All, not, ◌==◌, length-take,
}
use dockpulse_iot.Esp.{EspErr, is_ok}
use dockpulse_iot.Mesh.Gateway.{ProvResult, prov_ok, prov_err}
use dockpulse_iot.Uplink.Adopt.{
  Request, AdoptAct, provision_call, record_call, resp_ok, resp_err, state_msg, busy, bad_oob,
  bad_uuid, Adopt, act, push_byte, hex_bytes, hex_decode, request_oob, start_adoption, check_oob,
  check_uuid, with_names, handle_provision_req, on_prov_state, on_prov_done, answer_done,
  record_berth, copied, request_timeout, some_if_text,
}
use dockpulse_iot.Uplink.Answers.{
  AdoptInput, request_input, state_input, done_input, adopt_react, adopt_play,
}

-- A value of sixteen bytes, if there is one.
abbrev pub IsKey : Option (List ℕ) → Type 0
IsKey none = Unit
IsKey (some k) = length k ≡ 16

abbrev pub text_length : Option (List ℕ) → ℕ
text_length none = 0
text_length (some s) = length s

-- A call within the limits of the mesh and of the table.
abbrev pub IsSound : AdoptAct → Type 0
IsSound (provision_call uuid oob ms) = (length uuid ≡ 16) × IsKey oob
IsSound (record_call addr berth node) = (berth ≢ []) × (length berth < 48) × (text_length node < 40)
IsSound _ = Unit

pub record CallsOk (s : Adopt) : Type 0 where
  pub berth : length s.berth_id < 48
  pub node : length s.node_id < 40
  pub calls : All IsSound s.acts

copied_short : (size : ℕ) (o : Option (List ℕ)) → 0 < size → length (copied size o) < size
copied_short size none h = h
copied_short size (some s) h = omega (arith, length-take (size - 1) s)

text_length-some_if_text : (s : List ℕ) → text_length (some_if_text s) ≡ length s
text_length-some_if_text [] = refl
text_length-some_if_text (c ∷ cs) = refl

module _ (scan_hex2 : List ℕ → Option ℕ) where
  push_length :
      (v : Option ℕ) (o : Option (List ℕ)) (n : ℕ) (bs : List ℕ)
      → ((cs : List ℕ) → o ≡ some cs → length cs ≡ n)
      → push_byte scan_hex2 v o ≡ some bs
      → length bs ≡ suc n
  push_length none o n bs k e = cc
  push_length (some v) none n bs k e = cc
  push_length (some v) (some cs) n bs k e =
      let same : u8 v ∷ cs ≡ bs = cc e in ap length (sym same) ∙ omega (arith, k cs refl)

  hex_bytes-length : (n : ℕ) (hex bs : List ℕ) → hex_bytes scan_hex2 n hex ≡ some bs → length bs ≡ n
  unfolding hex_bytes
  hex_bytes-length zero hex bs e = let same : [] ≡ bs = cc e in ap length (sym same)
  hex_bytes-length (suc n) hex bs e =
      push_length (scan_hex2 hex) (hex_bytes scan_hex2 n (drop 2 hex)) n bs
        (λ cs. hex_bytes-length n (drop 2 hex) cs) e

  hex_decode-IsKey : (hex : List ℕ) → IsKey (hex_decode scan_hex2 hex 16)
  unfolding hex_decode
  hex_decode-IsKey hex =
      split_if IsKey (not (length hex == 16 * 2)) none (hex_bytes scan_hex2 16 hex) (λ _. tt)
        (λ _. key (hex_bytes scan_hex2 16 hex) (λ bs. hex_bytes-length 16 hex bs))
    where
      key : (o : Option (List ℕ)) → ((bs : List ℕ) → o ≡ some bs → length bs ≡ 16) → IsKey o
      key none k = tt
      key (some bs) k = k bs refl

  abbrev IsOob : Option (Option (List ℕ)) → Type 0
  IsOob none = Unit
  IsOob (some o) = IsKey o

  request_oob-IsOob : (o : Option (List ℕ)) → IsOob (request_oob scan_hex2 o)
  unfolding request_oob
  request_oob-IsOob none = tt
  request_oob-IsOob (some []) = tt
  request_oob-IsOob (some (c ∷ cs)) =
      given (hex_decode scan_hex2 (c ∷ cs) 16) (hex_decode-IsKey (c ∷ cs))
    where
      given :
          (o : Option (List ℕ))
          → IsKey o
          → IsOob (elim o [ none ↦ none | some oob ↦ some (some oob) ])
      given none h = tt
      given (some oob) h = h

  start-CallsOk :
      (req_id : List ℕ) (r : Request) (uuid : List ℕ) (oob : Option (List ℕ)) (has_node : Bool)
      (started : EspErr) (s : Adopt)
      → CallsOk s
      → length uuid ≡ 16
      → IsKey oob
      → CallsOk (start_adoption scan_hex2 req_id r uuid oob has_node started s)
  unfolding start_adoption
  start-CallsOk req_id r uuid oob has_node started s h u o =
      let berth = copied_short 48 r.berth_id (omega arith) in
      let node = copied_short 40 r.node_id (omega arith) in
      let called : All IsSound (provision_call uuid oob (request_timeout r.ttl_s) ∷ s.acts) =
        ((u, o), h.calls) in
      elim (Bool-cases has_node) [
        | inl known ↦ rw known (record { berth = h.berth; node = h.node; calls = (tt, h.calls) })
        | inr fresh ↦ elim (Bool-cases (is_ok started)) [
          | inl good ↦ rw (fresh, good) (record { berth = berth; node = node; calls = called })
          | inr bad ↦ rw (fresh, bad) (record { berth = berth; node = node; calls = (tt, called) })
        ]
      ]

  said : (a : AdoptAct) (s : Adopt) → IsSound a → CallsOk s → CallsOk (act a s)
  said a s sound h = record { berth = h.berth; node = h.node; calls = (sound, h.calls) }

  oob-CallsOk :
      (req_id : List ℕ) (r : Request) (uuid : List ℕ) (o : Option (Option (List ℕ)))
      (has_node : Bool) (started : EspErr) (s : Adopt)
      → CallsOk s
      → length uuid ≡ 16
      → IsOob o
      → CallsOk (check_oob scan_hex2 req_id r uuid o has_node started s)
  oob-CallsOk req_id r uuid none has_node started s h u o = said (resp_err req_id bad_oob) s tt h
  oob-CallsOk req_id r uuid (some oob) has_node started s h u o =
      start-CallsOk req_id r uuid oob has_node started s h u o

  uuid-CallsOk :
      (req_id : List ℕ) (r : Request) (k : Option (List ℕ)) (has_node : Bool) (started : EspErr)
      (s : Adopt)
      → CallsOk s
      → IsKey k
      → CallsOk (check_uuid scan_hex2 req_id r k has_node started s)
  uuid-CallsOk req_id r none has_node started s h u = said (resp_err req_id bad_uuid) s tt h
  uuid-CallsOk req_id r (some uuid) has_node started s h u =
      oob-CallsOk req_id r uuid (request_oob scan_hex2 r.oob) has_node started s h u
        (request_oob-IsOob r.oob)

  names-CallsOk :
      (id uuid : Option (List ℕ)) (r : Request) (has_node : Bool) (started : EspErr) (s : Adopt)
      → CallsOk s
      → CallsOk (with_names scan_hex2 id uuid r has_node started s)
  names-CallsOk none uuid r has_node started s h = h
  names-CallsOk (some id) none r has_node started s h = h
  names-CallsOk (some id) (some uuid) r has_node started s h =
      split_if CallsOk s.active (act (resp_err id busy) s)
        (check_uuid scan_hex2 id r (hex_decode scan_hex2 uuid 16) has_node started s)
        (λ _. said (resp_err id busy) s tt h)
        (λ _.
          uuid-CallsOk id r (hex_decode scan_hex2 uuid 16) has_node started s h
            (hex_decode-IsKey uuid))

  recorded :
      (addr : ℕ) (berth node : List ℕ) (s : Adopt)
      → length berth < 48
      → length node < 40
      → CallsOk s
      → CallsOk (record_berth addr berth node s)
  recorded addr [] node s b n h = h
  recorded addr (c ∷ cs) node s b n h =
      said (record_call addr (c ∷ cs) (some_if_text node)) s
        (λ e. cc, b, rw (text_length-some_if_text node) n) h

  answer-CallsOk : (res : ProvResult) (s : Adopt) → CallsOk s → CallsOk (answer_done res s)
  answer-CallsOk (prov_ok addr key) s h =
      said (resp_ok s.req_id addr key) (record_berth addr s.berth_id s.node_id s) tt
        (recorded addr s.berth_id s.node_id s h.berth h.node h)
  answer-CallsOk (prov_err code) s h = said _ s tt h

  done-CallsOk : (res : ProvResult) (s : Adopt) → CallsOk s → CallsOk (on_prov_done res s)
  unfolding on_prov_done
  done-CallsOk res s h =
      split_if CallsOk s.active
        (record (answer_done res s) { active = false; req_id = []; berth_id = []; node_id = [] }) s
        (λ _. record {
          berth = omega arith;
          node = omega arith;
          calls = (answer-CallsOk res s h).calls;
        })
        (λ _. h)

  react-CallsOk : (i : AdoptInput) (s : Adopt) → CallsOk s → CallsOk (adopt_react scan_hex2 i s)
  unfolding handle_provision_req on_prov_state
  react-CallsOk (request_input none has_node started) s h = h
  react-CallsOk (request_input (some r) has_node started) s h =
      names-CallsOk r.req_id r.uuid r has_node started s h
  react-CallsOk (state_input ph) s h =
      split_if CallsOk s.active (act (state_msg s.req_id ph) s) s
        (λ _. said (state_msg s.req_id ph) s tt h) (λ _. h)
  react-CallsOk (done_input res) s h = done-CallsOk res s h

  -- From a state that fulfils it, the invariant of the requests holds after every sequence of
  -- requests, state reports and results, whatever a request holds and the formatted reader reads: the
  -- mesh is only ever given a UUID of sixteen bytes, and an OOB value of sixteen bytes or none; the
  -- table is only ever given a berth of 1 to 47 characters and a node name of at most 39.
  pub adopt_play-CallsOk :
      (inputs : List AdoptInput) (s : Adopt) → CallsOk s → CallsOk (adopt_play scan_hex2 inputs s)
  adopt_play-CallsOk [] s h = h
  adopt_play-CallsOk (i ∷ is) s h =
      adopt_play-CallsOk is (adopt_react scan_hex2 i s) (react-CallsOk i s h)
