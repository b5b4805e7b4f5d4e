-- ===== src/Uplink/Answers.antt =====
-- components/dp_gateway/dp_gateway_adopt.c: one answer for each request.
use dockpulse_iot.Prelude.{
  ℕ, suc, ◌+◌, ◌≡◌, Bool, false, List, [], ◌∷◌, Option, none, some, arith, if◌then◌else◌, split_if,
}
use dockpulse_iot.Esp.{EspErr}
use dockpulse_iot.Mesh.Gateway.{Phase, ProvResult}
use dockpulse_iot.Uplink.Adopt.{
  Request, AdoptAct, resp_ok, resp_err, busy, Adopt, act, hex_decode, request_oob, start_adoption,
  check_oob, check_uuid, with_names, handle_provision_req, on_prov_state, on_prov_done,
}

-- What reaches the file.
pub data AdoptInput : Type 0 where
  request_input : Option Request → Bool → EspErr → AdoptInput
  state_input : Phase → AdoptInput
  done_input : ProvResult → AdoptInput

abbrev pub answers : List AdoptAct → ℕ
answers [] = 0
answers (resp_ok r a k ∷ acts) = suc (answers acts)
answers (resp_err r c ∷ acts) = suc (answers acts)
answers (_ ∷ acts) = answers acts

abbrev pub answered : Adopt → ℕ
answered s = answers s.acts + (if s.active then 1 else 0)

-- A request can be answered if it names itself and a UUID.
abbrev pub named : Option (List ℕ) → Option (List ℕ) → ℕ
named (some r) (some u) = 1
named (some r) none = 0
named none u = 0

abbrev pub asks : AdoptInput → ℕ
asks (request_input none has_node started) = 0
asks (request_input (some r) has_node started) = named r.req_id r.uuid
asks (state_input ph) = 0
asks (done_input res) = 0

abbrev pub asked : List AdoptInput → ℕ
asked [] = 0
asked (i ∷ is) = asks i + asked is

module _ (scan_hex2 : List ℕ → Option ℕ) where
  abbrev pub adopt_react : AdoptInput → Adopt → Adopt
  adopt_react (request_input r has_node started) s =
      handle_provision_req scan_hex2 r has_node started s
  adopt_react (state_input ph) s = on_prov_state ph s
  adopt_react (done_input res) s = on_prov_done res s

  abbrev pub adopt_play : List AdoptInput → Adopt → Adopt
  adopt_play [] s = s
  adopt_play (i ∷ is) s = adopt_play is (adopt_react i s)

  start_answers :
      (req_id : List ℕ) (r : Request) (uuid : List ℕ) (oob : Option (List ℕ)) (has_node : Bool)
      (started : EspErr) (s : Adopt)
      → s.active ≡ false
      → answered (start_adoption scan_hex2 req_id r uuid oob has_node started s) ≡ answered s + 1
  unfolding start_adoption
  start_answers req_id r uuid oob has_node started s free = ground arith

  oob_answers :
      (req_id : List ℕ) (r : Request) (uuid : List ℕ) (o : Option (Option (List ℕ)))
      (has_node : Bool) (started : EspErr) (s : Adopt)
      → s.active ≡ false
      → answered (check_oob scan_hex2 req_id r uuid o has_node started s) ≡ answered s + 1
  oob_answers req_id r uuid none has_node started s free = omega arith
  oob_answers req_id r uuid (some oob) has_node started s free =
      start_answers req_id r uuid oob has_node started s free

  uuid_answers :
      (req_id : List ℕ) (r : Request) (o : Option (List ℕ)) (has_node : Bool) (started : EspErr)
      (s : Adopt)
      → s.active ≡ false
      → answered (check_uuid scan_hex2 req_id r o has_node started s) ≡ answered s + 1
  uuid_answers req_id r none has_node started s free = omega arith
  uuid_answers req_id r (some uuid) has_node started s free =
      oob_answers req_id r uuid (request_oob scan_hex2 r.oob) has_node started s free

  pub names_answers :
      (id uuid : Option (List ℕ)) (r : Request) (has_node : Bool) (started : EspErr) (s : Adopt)
      → answered (with_names scan_hex2 id uuid r has_node started s) ≡ answered s + named id uuid
  names_answers none uuid r has_node started s = omega arith
  names_answers (some id) none r has_node started s = omega arith
  names_answers (some id) (some uuid) r has_node started s =
      split_if (λ (after : Adopt). answered after ≡ answered s + 1) s.active
        (act (resp_err id busy) s)
        (check_uuid scan_hex2 id r (hex_decode scan_hex2 uuid 16) has_node started s)
        (λ _. omega arith)
        (λ free. uuid_answers id r (hex_decode scan_hex2 uuid 16) has_node started s free)

  pub done_answers : (res : ProvResult) (s : Adopt) → answered (on_prov_done res s) ≡ answered s
  unfolding on_prov_done
  done_answers res s = ground arith

  pub react_answers :
      (i : AdoptInput) (s : Adopt) → answered (adopt_react i s) ≡ answered s + asks i
  unfolding handle_provision_req on_prov_state
  react_answers (request_input none has_node started) s = omega arith
  react_answers (request_input (some r) has_node started) s =
      names_answers r.req_id r.uuid r has_node started s
  react_answers (state_input ph) s = ground arith
  react_answers (done_input res) s = rw (done_answers res s) (omega arith)

  -- Every request that names itself and a UUID is answered exactly once. After any sequence of
  -- requests, state reports and results of the mesh, whatever the mesh answers, the answers given,
  -- plus one if an adoption is active, are those of before plus the requests of the sequence.
  pub adopt_play-answers :
      (inputs : List AdoptInput) (s : Adopt)
      → answered (adopt_play inputs s) ≡ answered s + asked inputs
  adopt_play-answers [] s = omega arith
  adopt_play-answers (i ∷ is) s =
      let one = react_answers i s in
      let rest = adopt_play-answers is (adopt_react i s) in omega (arith, one, rest)
