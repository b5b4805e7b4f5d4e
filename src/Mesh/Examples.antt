-- ===== src/Mesh/Examples.antt =====
-- A decommission on a concrete table of dp_prov.
use dockpulse_iot.Prelude.{
  ◌≡◌, refl, ◌==◌, if◌then◌else◌, inl, true, false, [], ◌∷◌, none, some, arith, replicate,
}
use dockpulse_iot.Esp.{esp_ok, esp_fail}
use dockpulse_iot.Mesh.Wire.{reply_evt, node_reset_op}
use dockpulse_iot.Mesh.Gateway.{MeshStack, Gw, step_idle}
use dockpulse_iot.Mesh.Provisioner.History.{cfg_input, decommission_input, play}
use dockpulse_iot.Mesh.Provisioner.Verdict.{lost}
use dockpulse_iot.Mesh.Unbind.{prov_table, play-unbinds}
use dockpulse_iot.Prov.Table.{Table, empty_record}
use dockpulse_iot.Prov.Store.{Nvs, State, lookup_berth, sizeof_table}
use dockpulse_iot.Prov.Valid.{IsValid, has_addr, has_berth}

-- A flash that always holds one table, and cannot be written.
abbrev one_berth : Table
one_berth = record {
  version = 2;
  count = 1;
  records =
      record { unicast_addr = 5; berth_id = b't' ∷ b'1' ∷ []; node_id = [] }
      ∷ replicate 15 empty_record;
}

abbrev read_only : Nvs
read_only = record {
  Flash = Table;
  open_readonly = λ f. esp_ok;
  open_readwrite = λ f. esp_fail;
  blob_size = λ f. (esp_ok, sizeof_table);
  read_v1 = λ buffer f. (esp_fail, buffer);
  read_table = λ buffer f. (esp_ok, sizeof_table, f);
  set_blob = λ t f. (esp_fail, f);
  commit = λ f. (esp_fail, f);
  erase_namespace = λ f. f;
  erase_flash = λ f. f;
}

abbrev stack : MeshStack
stack = record { ret = λ log c. esp_ok; node_key = λ log addr. none; knows_uuid = λ log u. false }

abbrev gateway : Gw (State read_only)
gateway = record {
  is_gateway = true;
  status_cb = true;
  diag_cb = true;
  state_cb = false;
  prov_cb = none;
  prov_uuid = [];
  in_flight = false;
  target_addr = 0;
  dev_key = [];
  timer = false;
  cfg_step = step_idle;
  cfg_attempts = 0;
  decom_active = false;
  decom_addr = 0;
  decom_attempts = 0;
  decom_cb = none;
  table = record { table = one_berth; loaded = true; flash = one_berth };
  log = [];
}

one_berth-IsValid : IsValid one_berth
unfolding has_addr has_berth
one_berth-IsValid = ground arith

play-unbinds_example :
    let before =
      play stack
        (prov_table read_only)
        (decommission_input 5 (some 1) ∷ replicate 1 lost)
        gateway in
    let after =
      play stack (prov_table read_only) (cfg_input reply_evt node_reset_op 0 ∷ []) before in
    IsValid after.table.table
    × (lookup_berth read_only 5 after.table
        ≡ (if 5 == 5 then none else lookup_berth read_only 5 gateway.table))
play-unbinds_example =
    play-unbinds read_only stack 1 5 5 1 0 true reply_evt gateway refl refl refl one_berth-IsValid
      (λ e. absurd (omega arith)) (λ e. absurd (omega arith)) (omega arith) (inl (refl, refl))
