-- ===== src/Mesh/Unbind.antt =====
-- components/dp_mesh/dp_mesh_provisioner.c with components/dp_prov/dp_prov.c: the provisioner on the
-- table of dp_prov.
use dockpulse_iot.Prelude.{
  ℕ, ◌≤◌, ◌≡◌, ◌≢◌, sym, subst, ◌⊎◌, Bool, true, false, [], ◌∷◌, none, some, ◌==◌, if◌then◌else◌,
  replicate,
}
use dockpulse_iot.Mesh.Wire.{CfgEvent, reply_evt, timeout_evt, node_reset_op}
use dockpulse_iot.Mesh.Gateway.{MeshStack, AddrTable, Gw}
use dockpulse_iot.Mesh.Provisioner.History.{cfg_input, decommission_input, play}
use dockpulse_iot.Mesh.Provisioner.Verdict.{lost, play-decommissions}
use dockpulse_iot.Prov.Store.{Nvs, State, lookup_berth, forget_unicast}
use dockpulse_iot.Prov.Valid.{IsValid}
use dockpulse_iot.Prov.Refine.{forget_unicast_lem}

-- The table of dp_prov as the provisioner uses it.
abbrev pub prov_table : Nvs → AddrTable
prov_table nvs = record { T = State nvs; forget = λ a s. forget_unicast nvs a s }

-- A decommission frees its berth. On a gateway without one whose table is loaded and valid, n time-outs
-- and then either a reply (n at most 2) or a third time-out (n is 2) leave the table valid, the
-- address without a berth, and every other address with its berth, whatever the node, the stack and
-- NVS answer.
pub play-unbinds :
    (nvs : Nvs) (stack : MeshStack) (n addr other client err : ℕ) (acked : Bool) (event : CfgEvent)
    (s : Gw (State nvs))
    → s.is_gateway ≡ true
    → s.decom_active ≡ false
    → s.table.loaded ≡ true
    → IsValid s.table.table
    → addr ≢ 0
    → other ≢ 0
    → n ≤ 2
    → ((event ≡ reply_evt) × ((err == 0) ≡ acked))
      ⊎ ((event ≡ timeout_evt) × (n ≡ 2) × (acked ≡ false))
    → let before =
        play stack (prov_table nvs) (decommission_input addr (some client) ∷ replicate n lost) s in
      let after = play stack (prov_table nvs) (cfg_input event node_reset_op err ∷ []) before in
      IsValid after.table.table
      × (lookup_berth nvs other after.table
          ≡ (if other == addr then none else lookup_berth nvs other s.table))
play-unbinds nvs stack n addr other client err acked event s gw rest loaded valid named named' le
      how =
    let (idle, table, resets, verdict) =
      play-decommissions stack (prov_table nvs) n addr client err acked event s gw rest named le
        how in
    subst
      (λ (t : State nvs).
        IsValid t.table
        × (lookup_berth nvs other t
            ≡ (if other == addr then none else lookup_berth nvs other s.table)))
      (sym table) (forget_unicast_lem nvs addr other s.table loaded valid named named')
