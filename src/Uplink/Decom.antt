-- ===== src/Uplink/Decom.antt =====
-- components/dp_gateway/dp_gateway_decom.c: the requests of the backend to decommission a node, on the
-- provisioner of components/dp_mesh. A JSON object is the record of its members.
pub mod Heap
pub mod Callbacks
pub mod Requests
pub mod Answers
pub mod Text
pub mod Story
mod Examples
use dockpulse_iot.Prelude.{
  ℕ, ◌+◌, ◌-◌, ◌==◌, Bool, true, false, ◌||◌, List, [], ◌∷◌, Option, none, some, if◌then◌else◌,
  length, take, ltb, strtoul, leb,
}
use dockpulse_iot.Esp.{EspErr, invalid_state, is_ok}
use dockpulse_iot.Mesh.Wire.{CfgEvent, CfgOp}
use dockpulse_iot.Mesh.Gateway.{
  MeshStack, AddrTable, Gw, FailCode, DecomResult, decom_ok, decom_orphan, decom_err,
}
use dockpulse_iot.Mesh.Provisioner.{ProvEvent, decommission_node}
use dockpulse_iot.Mesh.Provisioner.Decom.{Told, decom_calls}
use dockpulse_iot.Mesh.Provisioner.History.{
  Input, cfg_input, prov_input, timer_input, delete_input, provision_input, react,
}

-- The strings of a request; none for a member that is missing or no string.
pub record DecomRequest : Type 0 where
  pub req_id : Option (List ℕ)
  pub unicast_addr : Option (List ℕ)
  pub node_id : Option (List ℕ)

-- `status`, `code` and `msg` of an answer; `of_mesh` passes on the code of the mesh.
pub data RespStatus : Type 0 where
  resp_done resp_orphan resp_failed : RespStatus

pub data DecomCode : Type 0 where
  bad_req bad_unicast unknown : DecomCode
  of_mesh : FailCode → DecomCode

pub data DecomMsg : Type 0 where
  missing_unicast_addr oom another_in_flight : DecomMsg

-- The members of an answer; the attempts are left out when there were none.
pub record DecomResp : Type 0 where
  pub req_id : List ℕ
  pub node_id : Option (List ℕ)
  pub status : RespStatus
  pub code : Option DecomCode
  pub msg : Option DecomMsg
  pub attempts : Option ℕ

-- `decom_ctx_t`; a `char` array is the list of the characters before its terminator.
pub record DecomCtx : Type 0 where
  pub req_id : List ℕ
  pub node_id : List ℕ

-- The contexts that are allocated and not freed, by the number of their allocation, the number of
-- the next one, and the answers published, newest first.
pub record DecomApp : Type 0 where
  pub heap : List (ℕ × DecomCtx)
  pub next : ℕ
  pub resps : List DecomResp

abbrev pub some_attempts : ℕ → Option ℕ
some_attempts n = if ltb 0 n then some n else none

-- `publish_resp`, when there is memory for the object and its text.
abbrev pub publish_resp :
    Option (List ℕ)
    → Option (List ℕ)
    → RespStatus
    → Option DecomCode
    → Option DecomMsg
    → ℕ
    → DecomApp
    → DecomApp
publish_resp none node_id status code msg attempts a = a
publish_resp (some req_id) node_id status code msg attempts a =
    let resp : DecomResp = record {
      req_id = req_id;
      node_id = node_id;
      status = status;
      code = code;
      msg = msg;
      attempts = some_attempts attempts;
    } in
    record a { resps = resp ∷ a.resps }

abbrev pub status_of : DecomResult → RespStatus
status_of decom_ok = resp_done
status_of decom_orphan = resp_orphan
status_of decom_err = resp_failed

abbrev pub code_of : Option FailCode → Option DecomCode
code_of none = none
code_of (some c) = some (of_mesh c)

-- A read of a context; none for a pointer that is not live.
unfoldable pub load_ctx : ℕ → List (ℕ × DecomCtx) → Option DecomCtx
load_ctx p [] = none
load_ctx p ((q, c) ∷ heap) = let rest = load_ctx p heap in if p == q then some c else rest

unfoldable pub free_ctx : ℕ → List (ℕ × DecomCtx) → List (ℕ × DecomCtx)
free_ctx p [] = []
free_ctx p ((q, c) ∷ heap) = let rest = free_ctx p heap in if p == q then heap else (q, c) ∷ rest

abbrev pub text_or_null : List ℕ → Option (List ℕ)
text_or_null [] = none
text_or_null (c ∷ cs) = some (c ∷ cs)

-- `on_decom_done`; none is the use of a context that was freed.
unfoldable pub on_decom_done : Told → DecomApp → Option DecomApp
on_decom_done (p, result, attempts, code) a = elim (load_ctx p a.heap) [
  | none ↦ none
  | some c ↦
      let told =
        publish_resp (some c.req_id) (text_or_null c.node_id) (status_of result) (code_of code) none
          attempts a in
      some (record told { heap = free_ctx p a.heap })
]

-- The copy of a member into a field of 64 bytes.
abbrev pub copied_64 : Option (List ℕ) → List ℕ
copied_64 none = []
copied_64 (some s) = take 63 s

-- A number that `strtoul` reads, none for none, for 0 and for more than 16 bits.
abbrev pub in_range : Option ℕ → Option ℕ
in_range none = none
in_range (some n) = if n == 0 || ltb 0xFFFF n then none else some n

-- The two parts of the gateway that a decommission joins.
pub record Joint (T : Type 0) : Type 0 where
  pub app : DecomApp
  pub gw : Gw T

-- What the callbacks logged by the mesh since a log did, oldest first.
abbrev pub deliver : List Told → Option DecomApp → Option DecomApp
deliver [] a = a
deliver (t ∷ older) a = elim (deliver older a) [ none ↦ none | some b ↦ on_decom_done t b ]

abbrev pub fresh_calls : List Told → List Told → List Told
fresh_calls before after = take (length after - length before) after

abbrev pub with_gw : {T : Type 0} → Gw T → Option DecomApp → Option (Joint T)
with_gw g none = none
with_gw g (some a) = some (record { app = a; gw = g })

module _ (stack : MeshStack) (tab : AddrTable) where
  open tab use {T}

  abbrev pub start_msg : EspErr → Option DecomMsg
  start_msg invalid_state = some another_in_flight
  start_msg _ = none

  -- The call of the mesh and what follows it; `c` is the context.
  unfoldable pub start_decom : DecomRequest → ℕ → Joint T → Joint T
  start_decom r addr j =
      let c = j.app.next in
      let ctx : DecomCtx = record { req_id = copied_64 r.req_id; node_id = copied_64 r.node_id } in
      let filled = record j.app { heap = (c, ctx) ∷ j.app.heap; next = c + 1 } in
      let (err, gw) = decommission_node stack tab addr (some c) j.gw in
      let failed =
        publish_resp r.req_id r.node_id resp_failed (some unknown) (start_msg err) 0 filled in
      if is_ok err
      then record { app = filled; gw = gw }
      else record { app = record failed { heap = free_ctx c failed.heap }; gw = gw }

  -- `handle_decommission_req` behind the address; `room` is whether `calloc` succeeds.
  abbrev pub with_addr : Option ℕ → DecomRequest → Bool → Joint T → Joint T
  with_addr none r room j = record j {
    app = publish_resp r.req_id r.node_id resp_failed (some bad_unicast) none 0 j.app;
  }
  with_addr (some addr) r false j = record j {
    app = publish_resp r.req_id r.node_id resp_failed (some unknown) (some oom) 0 j.app;
  }
  with_addr (some addr) r true j = start_decom r addr j

  abbrev pub with_text : Option (List ℕ) → DecomRequest → Bool → Joint T → Joint T
  with_text none r room j = record j {
    app =
        publish_resp r.req_id r.node_id resp_failed (some bad_req) (some missing_unicast_addr) 0
          j.app;
  }
  with_text (some text) r room j = with_addr (in_range (strtoul text)) r room j

  -- `handle_decommission_req`; none is a payload that is no JSON.
  unfoldable pub handle_decommission_req : Option DecomRequest → Bool → Joint T → Joint T
  handle_decommission_req none room j = j
  handle_decommission_req (some r) room j = with_text r.unicast_addr r room j

-- What reaches the two parts: a request, or what reaches the provisioner otherwise.
pub data JointInput : Type 0 where
  request : Option DecomRequest → Bool → JointInput
  cfg_event : CfgEvent → CfgOp → ℕ → JointInput
  prov_event : ProvEvent → JointInput
  timer_fires : JointInput
  delete_call : ℕ → JointInput
  provision_call : Option (List ℕ) → Option (List ℕ) → ℕ → Option ℕ → JointInput

module _ (stack : MeshStack) (tab : AddrTable) where
  open tab use {T}

  -- The provisioner reacts, and the callbacks that it calls run.
  abbrev pub mesh_reacts : Input → Joint T → Option (Joint T)
  mesh_reacts i j =
      let after = react stack tab i j.gw in
      with_gw after
        (deliver (fresh_calls (decom_calls j.gw.log) (decom_calls after.log)) (some j.app))

  abbrev pub joint_react : JointInput → Joint T → Option (Joint T)
  joint_react (request r room) j = some (handle_decommission_req stack tab r room j)
  joint_react (cfg_event event op err) j = mesh_reacts (cfg_input event op err) j
  joint_react (prov_event e) j = mesh_reacts (prov_input e) j
  joint_react timer_fires j = mesh_reacts timer_input j
  joint_react (delete_call addr) j = mesh_reacts (delete_input addr) j
  joint_react (provision_call uuid oob ms client) j =
      mesh_reacts (provision_input uuid oob ms client) j

  -- Any sequence; none once a callback has used a freed context.
  abbrev pub joint_play : List JointInput → Joint T → Option (Joint T)
  joint_play [] j = some j
  joint_play (i ∷ is) j = elim (joint_react i j) [ none ↦ none | some j' ↦ joint_play is j' ]
