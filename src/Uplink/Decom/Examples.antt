-- ===== src/Uplink/Decom/Examples.antt =====
-- Runs of components/dp_gateway/dp_gateway_decom.c on a concrete gateway.
use dockpulse_iot.Prelude.{
  ℕ, ◌+◌, ◌≡◌, refl, inl, true, false, List, [], ◌∷◌, ◌++◌, none, some, arith, replicate, strtoul,
  read_unsigned, read_digits,
}
use dockpulse_iot.Esp.{esp_ok}
use dockpulse_iot.Mesh.Wire.{reply_evt, node_reset_op}
use dockpulse_iot.Mesh.Gateway.{MeshStack, AddrTable, Gw, step_idle}
use dockpulse_iot.Uplink.Status.{addr_text}
use dockpulse_iot.Uplink.Decom.{
  DecomRequest, Joint, JointInput, request, cfg_event, joint_play, resp_done,
}
use dockpulse_iot.Uplink.Decom.Heap.{JointOk, answered, asked}
use dockpulse_iot.Uplink.Decom.Answers.{joint_play-answers}
use dockpulse_iot.Uplink.Decom.Story.{request-answered, lost_event}

abbrev willing : MeshStack
willing = record { ret = λ log c. esp_ok; node_key = λ log addr. none; knows_uuid = λ log u. false }

abbrev addresses : AddrTable
addresses = record { T = List ℕ; forget = λ a t. (esp_ok, []) }

abbrev idle : Gw (List ℕ)
idle = record {
  is_gateway = true;
  status_cb = true;
  diag_cb = true;
  state_cb = false;
  prov_cb = none;
  prov_uuid = [];
  in_flight = false;
  target_addr = 0;
  dev_key = [];
  timer = false;
  cfg_step = step_idle;
  cfg_attempts = 0;
  decom_active = false;
  decom_addr = 0;
  decom_attempts = 0;
  decom_cb = none;
  table = 5 ∷ [];
  log = [];
}

abbrev booted : Joint (List ℕ)
booted = record { app = record { heap = []; next = 0; resps = [] }; gw = idle }

booted-JointOk : JointOk booted
booted-JointOk = record { decom = ground arith; fits = tt }

abbrev request_five : DecomRequest
request_five = record {
  req_id = some (b'r' ∷ []);
  unicast_addr = some (addr_text 5);
  node_id = none;
}

-- Two requests, of which the second comes too early, and the node's reply.
abbrev inputs : List JointInput
inputs =
    request (some request_five) true
    ∷ request (some request_five) true
    ∷ cfg_event reply_evt node_reset_op 0
    ∷ []

joint_play-answers_example :
    (after : Joint (List ℕ)) × (joint_play willing addresses inputs booted ≡ some after)
    × JointOk after
    × (answered after.app ≡ answered booted.app + asked inputs)
joint_play-answers_example = joint_play-answers willing addresses inputs booted booted-JointOk

-- The node answers after one time-out: the second attempt succeeds.
request-answered_example :
    (after : Gw (List ℕ)) × (joint_play willing addresses
        (request (some request_five) true ∷ replicate 1 lost_event
          ++ cfg_event reply_evt node_reset_op 0 ∷ [])
        booted
      ≡ some (record {
        app = record {
          heap = [];
          next = 1;
          resps =
              record {
                req_id = b'r' ∷ [];
                node_id = none;
                status = resp_done;
                code = none;
                msg = none;
                attempts = some 2;
              }
              ∷ [];
        };
        gw = after;
      }))
    × (after.decom_active ≡ false)
    × (after.table ≡ [])
request-answered_example =
    request-answered willing addresses 1 5 0 true reply_evt (b'r' ∷ []) none booted refl refl
      (λ e. absurd (omega (arith, e))) (omega arith) (omega arith) (inl (refl, refl))

-- Base 0 reads hexadecimal, octal and decimal numbers; a sign wraps.
reads_hex : strtoul (b'0' ∷ b'x' ∷ b'0' ∷ b'0' ∷ b'1' ∷ b'F' ∷ []) ≡ some 31
unfolding strtoul read_unsigned read_digits
reads_hex = refl

reads_octal : strtoul (32 ∷ b'0' ∷ b'1' ∷ b'7' ∷ b'z' ∷ []) ≡ some 15
unfolding strtoul read_unsigned read_digits
reads_octal = refl

reads_minus : strtoul (b'-' ∷ b'1' ∷ []) ≡ some 4294967295
unfolding strtoul read_unsigned read_digits
reads_minus = refl
