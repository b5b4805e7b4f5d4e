-- ===== src/Prov/Refine.antt =====
-- components/dp_prov/dp_prov.c: the public calls as a map from addresses to berths.
use dockpulse_iot.Prelude.{
  ℕ, ◌<◌, ◌≡◌, ◌≢◌, refl, sym, ap, ◌∙◌, ◌⊎◌, inl, inr, true, false, List, [], ◌∷◌, Option, none,
  some, arith, Bool-cases, Option-cases, leb, ◌==◌, if◌then◌else◌, length, take, str_eq,
}
use dockpulse_iot.Esp.{esp_ok, no_mem}
use dockpulse_iot.Prov.Table.{
  Record, Table, max_records, find_record, new_record, record_in_table, forget_in_table,
}
use dockpulse_iot.Prov.Valid.{occupied, has_addr, IsValid}
use dockpulse_iot.Prov.Map.{unless_stale}
use dockpulse_iot.Prov.Swap.{
  record_in_table-IsValid, find-record_in_table, record_in_table_full, forget_in_table-IsValid,
  find-forget_in_table, same_berth,
}
use dockpulse_iot.Prov.Store.{
  Nvs, State, berth_of, NvsKeeps, save_table, load_table, load_v2, prov_init, lookup_berth,
  record_loaded, record_node, forget_loaded, forget_unicast, reboot, zero_table, sizeof_table,
}

find_record_addr :
    (c : ℕ) (rs : List Record) (r : Record) → find_record c rs ≡ some r → r.unicast_addr ≡ c
unfolding find_record
find_record_addr c [] r h = cc
find_record_addr c (x ∷ rs) r h = ground (arith, find_record_addr c rs r)

-- A berth, unless it is the one given.
abbrev pub unless_same : List ℕ → Option (List ℕ) → Option (List ℕ)
unless_same berth none = none
unless_same berth (some b) = if str_eq b berth then none else some b

-- Arguments that `dp_prov_record_node` accepts.
pub record Accepts (a : ℕ) (berth : List ℕ) (node_id : Option (List ℕ)) : Type 0 where
  pub addressed : a ≢ 0
  pub named : berth ≢ []
  pub short : length berth < 48
  pub node_short : length (elim node_id [ none ↦ [] | some n ↦ n ]) < 40

module _ (nvs : Nvs) where
  pub save_keeps :
      (s : State nvs)
      → ((save_table nvs s).1.table ≡ s.table) × ((save_table nvs s).1.loaded ≡ s.loaded)
  unfolding save_table
  save_keeps s = ground arith

  pub init_loaded : (s : State nvs) → s.loaded ≡ true → prov_init nvs s ≡ (esp_ok, s)
  unfolding prov_init
  init_loaded s l = rw l

  -- On a loaded table, an accepted call runs the table operation.
  pub record_node_accepted :
      (a : ℕ) (berth : List ℕ) (node_id : Option (List ℕ)) (s : State nvs)
      → Accepts a berth node_id
      → s.loaded ≡ true
      → record_node nvs a (some berth) node_id s ≡ record_loaded nvs a berth node_id s
  unfolding record_node
  record_node_accepted a [] node_id s acc l = absurd (acc.named refl)
  record_node_accepted a (b ∷ bs) none s acc l =
      let nonzero : (a == 0) ≡ false = ground (arith, acc.addressed) in
      let fits : leb 48 (length (b ∷ bs)) ≡ false = ground (arith, acc.short) in
      rw (nonzero, fits, init_loaded s l)
  record_node_accepted a (b ∷ bs) (some n) s acc l =
      let nonzero : (a == 0) ≡ false = ground (arith, acc.addressed) in
      let fits : leb 48 (length (b ∷ bs)) ≡ false = ground (arith, acc.short) in
      let node_fits : leb 40 (length n) ≡ false = ground (arith, acc.node_short) in
      rw (nonzero, fits, node_fits, init_loaded s l)

  -- Saving changes the flash alone.
  pub record_loaded_found :
      (a : ℕ) (berth : List ℕ) (node_id : Option (List ℕ)) (s : State nvs)
      → let (e, after) = record_loaded nvs a berth node_id s in
        let (t, found) = record_in_table a berth node_id s.table in
        (after.table ≡ t)
        × (after.loaded ≡ s.loaded)
        × ((found ≡ true) ⊎ ((found ≡ false) × (e ≡ no_mem) × (after.flash ≡ s.flash)))
  unfolding record_loaded
  record_loaded_found a berth node_id s =
      elim (Bool-cases (record_in_table a berth node_id s.table).1) [
        | inl found ↦ rw found (
            ground (
              arith,
              save_keeps (record s { table = (record_in_table a berth node_id s.table).0 }),
            ))
        | inr missing ↦ rw missing (ground arith)
      ]

  pub lookup_found :
      (c : ℕ) (s : State nvs)
      → s.loaded ≡ true
      → c ≢ 0
      → lookup_berth nvs c s ≡ berth_of (find_record c s.table.records)
  unfolding lookup_berth
  lookup_found c s l h = let nonzero : (c == 0) ≡ false = ground arith in rw (l, nonzero)

  -- The map after a record that found its slot, from the map before it.
  berths_after :
      (a c : ℕ) (berth : List ℕ) (node_id : Option (List ℕ)) (rs : List Record)
      → take 47 berth ≡ berth
      → c ≢ 0
      → berth_of (
          if a == c
          then some (new_record a berth node_id)
          else unless_stale a berth (find_record c rs))
        ≡ (if a == c then some berth else unless_same berth (berth_of (find_record c rs)))
  berths_after a c berth node_id rs same h = elim (Option-cases (find_record c rs)) [
    | inl missing ↦ rw missing (ground arith)
    | inr (r, found) ↦
        let addr : r.unicast_addr ≡ c = find_record_addr c rs r found in rw found (ground arith)
  ]

  forget_loaded_table :
      (a : ℕ) (s : State nvs)
      → let after = (forget_loaded nvs a s).1 in
        (after.table ≡ (forget_in_table a s.table).0) × (after.loaded ≡ s.loaded)
  unfolding forget_loaded
  forget_loaded_table a s = elim (Bool-cases (forget_in_table a s.table).1) [
    | inl hit ↦ rw hit (save_keeps (record s { table = (forget_in_table a s.table).0 }))
    | inr miss ↦ rw miss (refl, refl)
  ]

  forgotten :
      (c a : ℕ) (o : Option Record)
      → berth_of (if c == a then none else o) ≡ (if c == a then none else berth_of o)
  forgotten c a o = ground arith

  -- On a loaded, valid table, an accepted `dp_prov_record_node` keeps the table valid. Either it finds
  -- a slot, and then in memory the address is bound to the berth, an other address that had this
  -- berth is unbound, and every other address keeps its berth; or it returns `ESP_ERR_NO_MEM`, table
  -- and flash are as before, all sixteen slots are taken, and the address has none.
  pub record_node_lem :
      (a c : ℕ) (berth : List ℕ) (node_id : Option (List ℕ)) (s : State nvs)
      → Accepts a berth node_id
      → s.loaded ≡ true
      → IsValid s.table
      → c ≢ 0
      → let (e, after) = record_node nvs a (some berth) node_id s in
        IsValid after.table
        × ((lookup_berth nvs c after
              ≡ (if a == c then some berth else unless_same berth (lookup_berth nvs c s)))
            ⊎ ((e ≡ no_mem)
                × (after.table ≡ s.table)
                × (after.flash ≡ s.flash)
                × (occupied s.table.records ≡ max_records)
                × (has_addr a s.table.records ≡ false)))
  record_node_lem a c berth node_id s acc l v hc =
      let (same, still, cases) = record_loaded_found a berth node_id s in
      let after = (record_loaded nvs a berth node_id s).1 in
      let t = (record_in_table a berth node_id s.table).0 in
      let whole = same_berth a berth node_id s.table v acc.addressed acc.short in
      rw (record_node_accepted a berth node_id s acc l) (
        rw same (record_in_table-IsValid a berth node_id s.table v acc.addressed acc.short),
        elim cases [
          | inl found ↦ inl (
              lookup_found c after (still ∙ l) hc
              ∙ ap (λ (x : Table). berth_of (find_record c x.records)) same
              ∙ ap berth_of (
                  find-record_in_table a berth node_id s.table v acc.addressed acc.short c hc found)
              ∙ berths_after a c berth node_id s.table.records whole hc
              ∙ ap (λ o. if a == c then some berth else unless_same berth o)
                  (sym (lookup_found c s l hc)))
          | inr (missing, e, kept) ↦
              let (unchanged, taken, none_there) =
                record_in_table_full a berth node_id s.table v acc.addressed acc.short missing in
              inr (e, same ∙ unchanged, kept, taken, none_there)
        ],
      )

  -- On a loaded, valid table, `dp_prov_forget_unicast` of an address that is not 0 keeps the table
  -- valid, unbinds that address, and leaves every other address its berth, whatever NVS answers.
  pub forget_unicast_lem :
      (a c : ℕ) (s : State nvs)
      → s.loaded ≡ true
      → IsValid s.table
      → a ≢ 0
      → c ≢ 0
      → let after = (forget_unicast nvs a s).1 in
        IsValid after.table
        × (lookup_berth nvs c after ≡ (if c == a then none else lookup_berth nvs c s))
  unfolding forget_unicast
  forget_unicast_lem a c s l v ha hc =
      let (same, still) = forget_loaded_table a s in
      rw (init_loaded s l) (
        rw same (forget_in_table-IsValid a s.table v ha),
        lookup_found c (forget_loaded nvs a s).1 (still ∙ l) hc
            ∙ ap (λ (x : Table). berth_of (find_record c x.records)) same
            ∙ ap berth_of (find-forget_in_table a c s.table v ha hc)
            ∙ forgotten c a (find_record c s.table.records)
            ∙ ap (λ o. if c == a then none else o) (sym (lookup_found c s l hc)),
      )

  pub forget_stays :
      (a : ℕ) (s : State nvs) → s.loaded ≡ true → (forget_unicast nvs a s).1.loaded ≡ true
  unfolding forget_unicast
  forget_stays a s l = rw (init_loaded s l) ((forget_loaded_table a s).1 ∙ l)

  saved :
      (s : State nvs)
      → (save_table nvs s).0 ≡ esp_ok
      → (g : nvs.Flash) × (nvs.set_blob s.table s.flash ≡ (esp_ok, g))
        × ((nvs.commit g).0 ≡ esp_ok)
        × ((save_table nvs s).1.flash ≡ (nvs.commit g).1)
  unfolding save_table
  saved s h = ((nvs.set_blob s.table s.flash).1, ground arith, ground arith, ground arith)

  -- After a save that succeeded, a restart that finds the flash as promised loads the same table.
  pub reload_saved :
      (s : State nvs)
      → NvsKeeps nvs
      → s.table.version ≡ 2
      → (save_table nvs s).0 ≡ esp_ok
      → let (e, after) = prov_init nvs (reboot (save_table nvs s).1) in
        (e ≡ esp_ok) × (after.table ≡ s.table) × (after.loaded ≡ true)
  unfolding prov_init load_table load_v2
  reload_saved s keeps version h =
      let (g, set, done, now) = saved s h in
      let fresh = reboot (save_table nvs s).1 in
      let opens : nvs.open_readonly fresh.flash ≡ esp_ok =
        rw now (keeps.reopens s.table s.flash g set done) in
      let sized : nvs.blob_size fresh.flash ≡ (esp_ok, sizeof_table) =
        rw now (keeps.sized s.table s.flash g set done) in
      let reads : nvs.read_table zero_table fresh.flash ≡ (esp_ok, sizeof_table, s.table) =
        rw now (keeps.reads s.table zero_table s.flash g set done) in
      rw (opens, sized, reads, version) (refl, refl, refl)
