-- ===== src/Uplink/Adopt.antt =====
-- components/dp_gateway/dp_gateway_adopt.c: the requests of the backend to adopt a node. JSON and the
-- formatted reader of hexadecimal digits are parameters; the mesh answers are arguments.
use dockpulse_iot.Prelude.{
  ℕ, zero, suc, ◌*◌, ◌-◌, ◌==◌, Bool, true, false, not, List, [], ◌∷◌, Option, none, some,
  if◌then◌else◌, length, take, drop, u8, u32,
}
use dockpulse_iot.Esp.{EspErr, is_ok}
use dockpulse_iot.Mesh.Gateway.{Phase, FailCode, ProvResult, prov_ok, prov_err}

-- The strings and the number of a request; none for a missing member. A negative number counts as 0,
-- which the code treats alike.
pub record Request : Type 0 where
  pub req_id : Option (List ℕ)
  pub uuid : Option (List ℕ)
  pub oob : Option (List ℕ)
  pub ttl_s : Option ℕ
  pub berth_id : Option (List ℕ)
  pub node_id : Option (List ℕ)

-- The codes of an answer; `from_mesh` passes on the code of the mesh.
pub data RespCode : Type 0 where
  busy bad_uuid bad_oob already_provisioned start_fail : RespCode
  from_mesh : FailCode → RespCode

-- What the file does: calls of the mesh and of the table, and messages to the backend.
pub data AdoptAct : Type 0 where
  provision_call : List ℕ → Option (List ℕ) → ℕ → AdoptAct
  record_call : ℕ → List ℕ → Option (List ℕ) → AdoptAct
  resp_ok : List ℕ → ℕ → List ℕ → AdoptAct
  resp_err : List ℕ → RespCode → AdoptAct
  state_msg : List ℕ → Phase → AdoptAct

-- `s_inflight`; a `char` array is the list of the characters before its terminator.
pub record Adopt : Type 0 where
  pub active : Bool
  pub req_id : List ℕ
  pub berth_id : List ℕ
  pub node_id : List ℕ
  pub acts : List AdoptAct

abbrev pub act : AdoptAct → Adopt → Adopt
act a s = record s { acts = a ∷ s.acts }

-- `DEFAULT_TTL_MS`
abbrev pub default_ttl_ms : ℕ
default_ttl_ms = 60000

-- `timeout_ms`, with the wrap-around of the product.
abbrev pub request_timeout : Option ℕ → ℕ
request_timeout none = default_ttl_ms
request_timeout (some n) = if n == 0 then default_ttl_ms else u32 (n * 1000)

-- A member that is copied into a field of the given size, if it is there and not empty.
abbrev pub copied : ℕ → Option (List ℕ) → List ℕ
copied size none = []
copied size (some s) = take (size - 1) s

abbrev pub some_if_text : List ℕ → Option (List ℕ)
some_if_text [] = none
some_if_text (c ∷ cs) = some (c ∷ cs)

module _ (scan_hex2 : List ℕ → Option ℕ) where
  abbrev pub push_byte : Option ℕ → Option (List ℕ) → Option (List ℕ)
  push_byte (some v) (some bs) = some (u8 v ∷ bs)
  push_byte (some v) none = none
  push_byte none bs = none

  -- The loop of `hex_decode`: rounds left, the rest of the string.
  unfoldable pub hex_bytes : ℕ → List ℕ → Option (List ℕ)
  hex_bytes zero hex = some []
  hex_bytes (suc n) hex = push_byte (scan_hex2 hex) (hex_bytes n (drop 2 hex))

  -- `hex_decode`; none stands for either error.
  unfoldable pub hex_decode : List ℕ → ℕ → Option (List ℕ)
  hex_decode hex expected_bytes =
      if not (length hex == expected_bytes * 2) then none else hex_bytes expected_bytes hex

  -- The OOB value of a request: none if it is there and wrong, some none if there is no value.
  unfoldable pub request_oob : Option (List ℕ) → Option (Option (List ℕ))
  request_oob none = some none
  request_oob (some []) = some none
  request_oob (some (c ∷ cs)) = elim (hex_decode (c ∷ cs) 16) [
    | none ↦ none
    | some oob ↦ some (some oob)
  ]

  -- The flow behind the checks: `has_node` and `started` are the answers of the mesh.
  unfoldable pub start_adoption :
      List ℕ → Request → List ℕ → Option (List ℕ) → Bool → EspErr → Adopt → Adopt
  start_adoption req_id r uuid oob has_node started s =
      let begun = record s {
        active = true;
        req_id = take 63 req_id;
        berth_id = copied 48 r.berth_id;
        node_id = copied 40 r.node_id;
      } in
      let called = act (provision_call uuid oob (request_timeout r.ttl_s)) begun in
      let failed = act (resp_err called.req_id start_fail) called in
      if has_node
      then act (resp_err req_id already_provisioned) s
      else (if is_ok started then called else record failed { active = false; req_id = [] })

  abbrev pub check_oob :
      List ℕ → Request → List ℕ → Option (Option (List ℕ)) → Bool → EspErr → Adopt → Adopt
  check_oob req_id r uuid none has_node started s = act (resp_err req_id bad_oob) s
  check_oob req_id r uuid (some oob) has_node started s =
      start_adoption req_id r uuid oob has_node started s

  abbrev pub check_uuid : List ℕ → Request → Option (List ℕ) → Bool → EspErr → Adopt → Adopt
  check_uuid req_id r none has_node started s = act (resp_err req_id bad_uuid) s
  check_uuid req_id r (some uuid) has_node started s =
      check_oob req_id r uuid (request_oob r.oob) has_node started s

  abbrev pub with_names :
      Option (List ℕ) → Option (List ℕ) → Request → Bool → EspErr → Adopt → Adopt
  with_names (some req_id) (some uuid) r has_node started s =
      if s.active
      then act (resp_err req_id busy) s
      else check_uuid req_id r (hex_decode uuid 16) has_node started s
  with_names (some req_id) none r has_node started s = s
  with_names none uuid r has_node started s = s

  -- `handle_provision_req`; none is a payload that is no JSON.
  unfoldable pub handle_provision_req : Option Request → Bool → EspErr → Adopt → Adopt
  handle_provision_req none has_node started s = s
  handle_provision_req (some r) has_node started s = with_names r.req_id r.uuid r has_node started s

-- `on_prov_state`
unfoldable pub on_prov_state : Phase → Adopt → Adopt
on_prov_state ph s = if s.active then act (state_msg s.req_id ph) s else s

abbrev pub record_berth : ℕ → List ℕ → List ℕ → Adopt → Adopt
record_berth addr [] node s = s
record_berth addr (c ∷ cs) node s = act (record_call addr (c ∷ cs) (some_if_text node)) s

abbrev pub answer_done : ProvResult → Adopt → Adopt
answer_done (prov_ok addr key) s =
    act (resp_ok s.req_id addr key) (record_berth addr s.berth_id s.node_id s)
answer_done (prov_err code) s = act (resp_err s.req_id (from_mesh code)) s

-- `on_prov_done`
unfoldable pub on_prov_done : ProvResult → Adopt → Adopt
on_prov_done res s =
    let cleared = record (answer_done res s) {
      active = false;
      req_id = [];
      berth_id = [];
      node_id = [];
    } in
    if s.active then cleared else s
