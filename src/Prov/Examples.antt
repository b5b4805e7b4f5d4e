-- ===== src/Prov/Examples.antt =====
-- Runs of components/dp_prov on a concrete flash: nothing, a table, an old table, or a blob that
-- cannot be read.
use dockpulse_iot.Prelude.{
  ℕ, ◌≡◌, refl, sym, ◌⊎◌, ◌==◌, true, false, List, [], ◌∷◌, none, some, arith, replicate,
  if◌then◌else◌,
}
use dockpulse_iot.Esp.{EspErr, esp_ok, esp_fail, no_mem, nvs_not_found}
use dockpulse_iot.Prov.Table.{
  Table, TableV1, max_records, wiped_table, record_in_table, evict_stale, find_slot,
}
use dockpulse_iot.Prov.Valid.{IsValid, occupied, has_addr}
use dockpulse_iot.Prov.Store.{
  Nvs, NvsKeeps, State, reboot, zero_table, sizeof_table, sizeof_table_v1, record_node,
  forget_unicast, lookup_berth, lookup_node_id, prov_init, save_table, record_loaded, load_table,
}
use dockpulse_iot.Prov.Refine.{Accepts, unless_same, record_node_lem, forget_unicast_lem}
use dockpulse_iot.Prov.Boot.{
  record_node_survives, migrated_lookup, read_error_wipes, record_call, forget_call, make_calls,
  make_calls-IsValid, find_v1, berth_of_v1,
}

data Content : Type 0 where
  absent : Content
  saved : Table → Content
  old_layout : TableV1 → Content
  unreadable : Content

abbrev opening : Content → EspErr
opening absent = nvs_not_found
opening _ = esp_ok

abbrev size_of : Content → EspErr × ℕ
size_of (saved t) = (esp_ok, sizeof_table)
size_of (old_layout t) = (esp_ok, sizeof_table_v1)
size_of unreadable = (esp_fail, 0)
size_of absent = (nvs_not_found, 0)

abbrev old_read : TableV1 → Content → EspErr × TableV1
old_read buffer (old_layout t) = (esp_ok, t)
old_read buffer _ = (esp_fail, buffer)

abbrev table_read : Table → Content → EspErr × ℕ × Table
table_read buffer (saved t) = (esp_ok, sizeof_table, t)
table_read buffer _ = (esp_fail, sizeof_table, buffer)

abbrev board : Nvs
board = record {
  Flash = Content;
  open_readonly = opening;
  open_readwrite = λ f. esp_ok;
  blob_size = size_of;
  read_v1 = old_read;
  read_table = table_read;
  set_blob = λ t f. (esp_ok, saved t);
  commit = λ f. (esp_ok, f);
  erase_namespace = λ f. absent;
  erase_flash = λ f. absent;
}

board-NvsKeeps : NvsKeeps board
board-NvsKeeps = record {
  reopens = λ t f g e d. let same : saved t ≡ g = cc in rw (sym same) refl;
  sized = λ t f g e d. let same : saved t ≡ g = cc in rw (sym same) refl;
  reads = λ t b f g e d. let same : saved t ≡ g = cc in rw (sym same) refl;
}

abbrev booted : State board
booted = record { table = wiped_table; loaded = true; flash = absent }

wiped-IsValid : IsValid wiped_table
wiped-IsValid = ground arith

abbrev berth_t1 : List ℕ
berth_t1 = b't' ∷ b'1' ∷ []

t1_accepted : Accepts 5 berth_t1 none
t1_accepted = record {
  addressed = λ e. absurd (omega arith);
  named = λ e. cc;
  short = omega arith;
  node_short = omega arith;
}

record_node_lem_example :
    let (e, after) = record_node board 5 (some berth_t1) none booted in
    IsValid after.table
    × ((lookup_berth board 5 after
          ≡ (if 5 == 5 then some berth_t1 else unless_same berth_t1 (lookup_berth board 5 booted)))
        ⊎ ((e ≡ no_mem)
            × (after.table ≡ wiped_table)
            × (after.flash ≡ absent)
            × (occupied wiped_table.records ≡ max_records)
            × (has_addr 5 wiped_table.records ≡ false)))
record_node_lem_example =
    record_node_lem board 5 5 berth_t1 none booted t1_accepted refl wiped-IsValid
      (λ e. absurd (omega arith))

forget_unicast_lem_example :
    let after = (forget_unicast board 5 booted).1 in
    IsValid after.table
    × (lookup_berth board 6 after ≡ (if 6 == 5 then none else lookup_berth board 6 booted))
forget_unicast_lem_example =
    forget_unicast_lem board 5 6 booted refl wiped-IsValid (λ e. absurd (omega arith))
      (λ e. absurd (omega arith))

record_succeeds : (record_node board 5 (some berth_t1) none booted).0 ≡ esp_ok
unfolding record_node prov_init load_table record_loaded save_table record_in_table evict_stale
    find_slot
record_succeeds = refl

record_node_survives_example :
    let after = (record_node board 5 (some berth_t1) none booted).1 in
    let (e, again) = prov_init board (reboot after) in
    (e ≡ esp_ok)
    × (lookup_berth board 5 again ≡ lookup_berth board 5 after)
    × (lookup_node_id board 5 again ≡ lookup_node_id board 5 after)
record_node_survives_example =
    record_node_survives board 5 5 berth_t1 none booted board-NvsKeeps t1_accepted refl refl
      record_succeeds

abbrev old_table : TableV1
old_table = record {
  version = 1;
  count = 1;
  records =
      record { unicast_addr = 7; berth_id = berth_t1 }
      ∷ replicate 15 (record { unicast_addr = 0; berth_id = [] });
}

abbrev updated : State board
updated = record { table = zero_table; loaded = false; flash = old_layout old_table }

migrated_lookup_example :
    let (e, after) = prov_init board (reboot updated) in
    (e ≡ esp_ok) × (lookup_berth board 7 after ≡ berth_of_v1 (find_v1 7 old_table.records))
migrated_lookup_example =
    migrated_lookup board 7 updated old_table refl refl refl refl (λ e. absurd (omega arith))

abbrev damaged : State board
damaged = record { table = zero_table; loaded = false; flash = unreadable }

read_error_wipes_example :
    prov_init board (reboot damaged)
    ≡ (esp_ok, record { table = wiped_table; loaded = true; flash = unreadable })
read_error_wipes_example =
    read_error_wipes board damaged esp_fail esp_fail 0 sizeof_table refl refl
      (λ e. absurd (omega arith)) refl

make_calls-IsValid_example :
    IsValid
      (make_calls board
        (record_call 5 berth_t1 none ∷ forget_call 5 ∷ [])
        (prov_init board (reboot booted)).1).table
make_calls-IsValid_example =
    make_calls-IsValid board (record_call 5 berth_t1 none ∷ forget_call 5 ∷ []) booted refl
      (t1_accepted, (λ e. absurd (omega arith), tt))
