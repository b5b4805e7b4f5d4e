-- ===== src/Mesh/Gateway.antt =====
-- components/dp_mesh/dp_mesh_provisioner.c: the state of the gateway side and what it does to its
-- surroundings. The mesh stack and the timer are parameters: every call of them is logged, newest
-- first, and answered by a function of the log. The callbacks of the gateway's upper layer are logged
-- too. Strings that the code passes as literals are enumerations.
use dockpulse_iot.Prelude.{ℕ, Bool, true, false, List, ◌∷◌, Option}
use dockpulse_iot.Esp.{EspErr}
use dockpulse_iot.Codec.Messages.{BerthStatus, BerthDiag}

-- The phases that the state callback reports.
pub data Phase : Type 0 where
  started link_open pb_adv_done cfg_app_key cfg_bind cfg_pub_set complete : Phase

-- The error codes of an adoption and of a decommission.
pub data FailCode : Type 0 where
  cfg_fail link_close timed_out appkey_send bind_send pubset_send : FailCode
  delete_fail nvs_write : FailCode

-- `dp_mesh_decom_result_t`
pub data DecomResult : Type 0 where
  decom_ok decom_orphan decom_err : DecomResult

-- `dp_mesh_prov_result_t`: address and device key, or the code.
pub data ProvResult : Type 0 where
  prov_ok : ℕ → List ℕ → ProvResult
  prov_err : FailCode → ProvResult

-- A message of the configuration client, its address first, its time-out in ms last.
pub data CfgMsg : Type 0 where
  app_key_add : ℕ → ℕ → ℕ → List ℕ → ℕ → CfgMsg
  model_app_bind : ℕ → ℕ → ℕ → ℕ → ℕ → ℕ → CfgMsg
  model_pub_set : ℕ → ℕ → ℕ → ℕ → ℕ → ℕ → ℕ × ℕ → ℕ → ℕ → ℕ → CfgMsg
  node_reset : ℕ → ℕ → CfgMsg

pub data Call : Type 0 where
  -- The mesh stack and the timer.
  set_uuid_match : List ℕ → Bool → Call
  set_static_oob : List ℕ → Call
  timer_create timer_stop : Call
  timer_start : ℕ → Call
  cfg_set : CfgMsg → Call
  delete_node : ℕ → Call
  prov_enable update_net_key add_app_key bind_local subscribe_group : Call
  -- The callbacks; a client is the pair of a callback and its context.
  emit : Phase → Call
  prov_done : ℕ → ProvResult → Call
  decom_done : ℕ → DecomResult → ℕ → Option FailCode → Call
  status_up : BerthStatus → ℕ → Call
  diag_up : BerthDiag → ℕ → Call

-- `cfg_step_t`; `past_done` is a value behind the enumeration.
pub data CfgStep : Type 0 where
  step_idle step_app_key_add step_model_app_bind step_model_pub_set step_done past_done : CfgStep

-- `s_cfg_step++`
abbrev pub next_step : CfgStep → CfgStep
next_step step_idle = step_app_key_add
next_step step_app_key_add = step_model_app_bind
next_step step_model_app_bind = step_model_pub_set
next_step step_model_pub_set = step_done
next_step step_done = past_done
next_step past_done = past_done

-- `s_cfg_step < CFG_STEP_APP_KEY_ADD`
abbrev pub before_cfg : CfgStep → Bool
before_cfg step_idle = true
before_cfg _ = false

abbrev pub cfg_max_attempts : ℕ
cfg_max_attempts = 3

abbrev pub decom_max_attempts : ℕ
decom_max_attempts = 3

-- What the mesh stack answers after the calls logged so far.
pub record MeshStack : Type 0 where
  pub ret : List Call → Call → EspErr
  pub node_key : List Call → ℕ → Option (List ℕ)
  pub knows_uuid : List Call → List ℕ → Bool

-- The table of adopted nodes, as the gateway uses it: `dp_prov_forget_unicast`.
pub record AddrTable : Type 1 where
  pub T : Type 0
  pub forget : ℕ → T → EspErr × T

-- The static variables of the file, and `s_role`.
pub record Gw (T : Type 0) : Type 0 where
  pub is_gateway : Bool
  pub status_cb : Bool
  pub diag_cb : Bool
  pub state_cb : Bool
  pub prov_cb : Option ℕ
  pub prov_uuid : List ℕ
  pub in_flight : Bool
  pub target_addr : ℕ
  pub dev_key : List ℕ
  pub timer : Bool
  pub cfg_step : CfgStep
  pub cfg_attempts : ℕ
  pub decom_active : Bool
  pub decom_addr : ℕ
  pub decom_attempts : ℕ
  pub decom_cb : Option ℕ
  pub table : T
  pub log : List Call

-- A call whose result is not used.
abbrev pub note : {T : Type 0} → Call → Gw T → Gw T
note c s = record s { log = c ∷ s.log }

abbrev pub note_if : {T : Type 0} → Bool → Call → Gw T → Gw T
note_if true c s = note c s
note_if false c s = s
