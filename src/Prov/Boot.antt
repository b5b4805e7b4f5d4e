-- ===== src/Prov/Boot.antt =====
-- components/dp_prov/dp_prov.c: what a boot finds, after a save, after an update from version 1 of
-- the table, and after a read that fails; and the table over any sequence of calls.
use dockpulse_iot.Prelude.{
  ℕ, ◌≡◌, ◌≢◌, refl, ap, ◌∙◌, inl, inr, true, false, not, ◌&&◌, ◌||◌, List, [], ◌∷◌, Option, none,
  some, map, arith, Bool-cases, ◌==◌, if◌then◌else◌,
}
use dockpulse_iot.Esp.{EspErr, esp_ok, is_ok, is_nvs_not_found, nvs_not_found}
use dockpulse_iot.Prov.Table.{
  RecordV1, Table, TableV1, wiped_table, find_record, record_in_table, migrate_from_v1,
  migrate_record,
}
use dockpulse_iot.Prov.Valid.{IsValid}
use dockpulse_iot.Prov.Store.{
  Nvs, State, NvsKeeps, berth_of, save_table, load_table, load_v1, load_v2, prov_init, lookup_berth,
  lookup_node_id, record_loaded, record_node, forget_unicast, reboot, zero_table, sizeof_table,
  sizeof_table_v1, zero_table_v1,
}
use dockpulse_iot.Prov.Refine.{
  Accepts, record_node_accepted, save_keeps, reload_saved, record_node_lem, forget_unicast_lem,
  record_loaded_found, lookup_found, forget_stays,
}

-- The first record of a version 1 table with the address.
abbrev pub find_v1 : ℕ → List RecordV1 → Option RecordV1
find_v1 c [] = none
find_v1 c (r ∷ rs) = if r.unicast_addr == c then some r else find_v1 c rs

abbrev pub berth_of_v1 : Option RecordV1 → Option (List ℕ)
berth_of_v1 none = none
berth_of_v1 (some r) = some r.berth_id

find-migrate :
    (c : ℕ) (rs : List RecordV1)
    → berth_of (find_record c (map migrate_record rs)) ≡ berth_of_v1 (find_v1 c rs)
unfolding find_record
find-migrate c [] = refl
find-migrate c (r ∷ rs) = ground (arith, find-migrate c rs)

version_kept :
    (a : ℕ) (berth : List ℕ) (node_id : Option (List ℕ)) (t : Table)
    → (record_in_table a berth node_id t).0.version ≡ t.version
unfolding record_in_table
version_kept a berth node_id t = ground arith

wiped-IsValid : IsValid wiped_table
wiped-IsValid = ground arith

module _ (nvs : Nvs) where
  -- The record is saved when the call succeeds.
  saved_record :
      (a : ℕ) (berth : List ℕ) (node_id : Option (List ℕ)) (s : State nvs)
      → (record_loaded nvs a berth node_id s).0 ≡ esp_ok
      → record_loaded nvs a berth node_id s
        ≡ save_table nvs (record s { table = (record_in_table a berth node_id s.table).0 })
  unfolding record_loaded
  saved_record a berth node_id s ok =
      elim (Bool-cases (record_in_table a berth node_id s.table).1) [
        | inl found ↦ rw found
        | inr missing ↦ absurd (cc (rw missing at ok))
      ]

  -- When an accepted `dp_prov_record_node` on a loaded table succeeds and the flash keeps what is
  -- committed, a restart loads the table, and both look-ups of every address answer as they did
  -- before the restart.
  pub record_node_survives :
      (a c : ℕ) (berth : List ℕ) (node_id : Option (List ℕ)) (s : State nvs)
      → NvsKeeps nvs
      → Accepts a berth node_id
      → s.loaded ≡ true
      → s.table.version ≡ 2
      → (record_node nvs a (some berth) node_id s).0 ≡ esp_ok
      → let after = (record_node nvs a (some berth) node_id s).1 in
        let (e, booted) = prov_init nvs (reboot after) in
        (e ≡ esp_ok)
        × (lookup_berth nvs c booted ≡ lookup_berth nvs c after)
        × (lookup_node_id nvs c booted ≡ lookup_node_id nvs c after)
  unfolding lookup_berth lookup_node_id
  record_node_survives a c berth node_id s keeps acc l version ok =
      let accepted = record_node_accepted nvs a berth node_id s acc l in
      let ok' : (record_loaded nvs a berth node_id s).0 ≡ esp_ok = rw accepted at ok in
      let written = record s { table = (record_in_table a berth node_id s.table).0 } in
      let saved : record_node nvs a (some berth) node_id s ≡ save_table nvs written =
        accepted ∙ saved_record a berth node_id s ok' in
      let (e, same, loaded) =
        reload_saved nvs written keeps (version_kept a berth node_id s.table ∙ version)
          (rw saved at ok) in
      let (kept, still) = save_keeps nvs written in
      rw saved (rw (e, same, loaded, kept, still, l) (refl, refl, refl))

  -- A boot that finds a readable table of version 1 answers every berth look-up from that table,
  -- whether or not the rewrite in the new layout is saved.
  pub migrated_lookup :
      (c : ℕ) (s : State nvs) (old : TableV1)
      → nvs.open_readonly s.flash ≡ esp_ok
      → nvs.blob_size s.flash ≡ (esp_ok, sizeof_table_v1)
      → nvs.read_v1 zero_table_v1 s.flash ≡ (esp_ok, old)
      → old.version ≡ 1
      → c ≢ 0
      → let (e, booted) = prov_init nvs (reboot s) in
        (e ≡ esp_ok) × (lookup_berth nvs c booted ≡ berth_of_v1 (find_v1 c old.records))
  unfolding prov_init load_table load_v1 migrate_from_v1
  migrated_lookup c s old opens size reads version hc =
      let migrated = record s { table = migrate_from_v1 old; loaded = true } in
      let (kept, still) = save_keeps nvs migrated in
      rw (opens, size, reads, version)
        (
          refl,
          lookup_found nvs c (save_table nvs migrated).1 still hc
              ∙ ap (λ (t : Table). berth_of (find_record c t.records)) kept
              ∙ find-migrate c old.records,
        )

  -- A boot whose read of the table leaves the buffer untouched, as a read that fails with any error
  -- does, still reports success, with an empty table that counts as loaded.
  pub read_error_wipes :
      (s : State nvs) (e e' : EspErr) (n size : ℕ)
      → nvs.open_readonly s.flash ≡ esp_ok
      → nvs.blob_size s.flash ≡ (e, n)
      → n ≢ sizeof_table_v1
      → nvs.read_table zero_table s.flash ≡ (e', size, zero_table)
      → prov_init nvs (reboot s)
        ≡ (esp_ok, record { table = wiped_table; loaded = true; flash = s.flash })
  unfolding prov_init load_table load_v2
  read_error_wipes s e e' n size opens sized other reads =
      let not_v1 : (is_ok e && n == sizeof_table_v1) ≡ false = ground arith in
      let wrong : (is_nvs_not_found e' || (not (size == sizeof_table) || true)) ≡ true =
        ground arith in
      rw (opens, sized, not_v1, reads, wrong)

-- A call on the table, with an address that is not 0.
pub data TableCall : Type 0 where
  record_call : ℕ → List ℕ → Option (List ℕ) → TableCall
  forget_call : ℕ → TableCall

abbrev pub IsAccepted : TableCall → Type 0
IsAccepted (record_call a berth node_id) = Accepts a berth node_id
IsAccepted (forget_call a) = a ≢ 0

abbrev pub AllAccepted : List TableCall → Type 0
AllAccepted [] = Unit
AllAccepted (c ∷ cs) = IsAccepted c × AllAccepted cs

module _ (nvs : Nvs) where
  pub make_call : TableCall → State nvs → State nvs
  make_call (record_call a berth node_id) s = (record_node nvs a (some berth) node_id s).1
  make_call (forget_call a) s = (forget_unicast nvs a s).1

  pub make_calls : List TableCall → State nvs → State nvs
  make_calls [] s = s
  make_calls (c ∷ cs) s = make_calls cs (make_call c s)

  call-IsValid :
      (c : TableCall) (s : State nvs)
      → IsAccepted c
      → s.loaded ≡ true
      → IsValid s.table
      → IsValid (make_call c s).table × ((make_call c s).loaded ≡ true)
  unfolding make_call
  call-IsValid (record_call a berth node_id) s acc l v = (
    (record_node_lem nvs a 1 berth node_id s acc l v (omega arith)).0,
    ap (λ (r : EspErr × State nvs). r.1.loaded) (record_node_accepted nvs a berth node_id s acc l)
        ∙ (record_loaded_found nvs a berth node_id s).1
        ∙ l,
  )
  call-IsValid (forget_call a) s acc l v =
      ((forget_unicast_lem nvs a 1 s l v acc (omega arith)).0, forget_stays nvs a s l)

  calls-IsValid :
      (cs : List TableCall) (s : State nvs)
      → AllAccepted cs
      → s.loaded ≡ true
      → IsValid s.table
      → IsValid (make_calls cs s).table
  unfolding make_calls
  calls-IsValid [] s acc l v = v
  calls-IsValid (c ∷ cs) s acc l v =
      let (v', l') = call-IsValid c s acc.0 l v in calls-IsValid cs (make_call c s) acc.1 l' v'

  -- From a first boot, whose flash has no table yet, every sequence of accepted records and of
  -- forgets of addresses other than 0 leaves a valid table: sixteen slots, a count that is the number
  -- of taken slots, and no two taken slots with one address or one berth, whatever NVS answers.
  pub make_calls-IsValid :
      (cs : List TableCall) (s : State nvs)
      → nvs.open_readonly s.flash ≡ nvs_not_found
      → AllAccepted cs
      → IsValid (make_calls cs (prov_init nvs (reboot s)).1).table
  make_calls-IsValid cs s absent acc =
      let booted : prov_init nvs (reboot s)
          ≡ (esp_ok, record { table = wiped_table; loaded = true; flash = s.flash }) =
        unfold prov_init load_table in rw absent in
      rw booted (calls-IsValid cs _ acc refl wiped-IsValid)
