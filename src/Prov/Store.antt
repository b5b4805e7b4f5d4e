-- ===== src/Prov/Store.antt =====
-- components/dp_prov/dp_prov.c: loading and saving the table, the public calls. NVS is a parameter.
use dockpulse_iot.Prelude.{
  ℕ, ◌+◌, ◌*◌, ◌≡◌, Bool, true, false, not, ◌&&◌, ◌||◌, List, [], ◌∷◌, Option, none, some,
  replicate, leb, ◌==◌, if◌then◌else◌, length,
}
use dockpulse_iot.Esp.{EspErr, esp_ok, invalid_arg, invalid_size, no_mem, is_ok, is_nvs_not_found}
use dockpulse_iot.Prov.Table.{
  Record, Table, TableV1, max_records, berth_id_max, node_id_max, wiped_table, migrate_from_v1,
  find_record, record_in_table, forget_in_table,
}

-- The NVS calls on the key "berths" of the namespace "dp_prov", and the erasing ones. A read is given
-- the memory behind its buffer and gives that memory back; the blob reads also report a size.
pub record Nvs : Type 1 where
  pub Flash : Type 0
  pub open_readonly : Flash → EspErr
  pub open_readwrite : Flash → EspErr
  pub blob_size : Flash → EspErr × ℕ
  pub read_v1 : TableV1 → Flash → EspErr × TableV1
  pub read_table : Table → Flash → EspErr × ℕ × Table
  pub set_blob : Table → Flash → EspErr × Flash
  pub commit : Flash → EspErr × Flash
  pub erase_namespace : Flash → Flash
  pub erase_flash : Flash → Flash

-- `sizeof(dp_prov_table_v1_t)` and `sizeof(dp_prov_table_t)`
abbrev pub sizeof_table_v1 : ℕ
sizeof_table_v1 = 4 + 16 * (2 + 48)

abbrev pub sizeof_table : ℕ
sizeof_table = 4 + 16 * (2 + 48 + 40)

abbrev pub zero_table_v1 : TableV1
zero_table_v1 = record {
  version = 0;
  count = 0;
  records = replicate max_records (record { unicast_addr = 0; berth_id = [] });
}

-- `s_table`, `s_loaded` and the flash.
pub record ProvState (F : Type 0) : Type 0 where
  pub table : Table
  pub loaded : Bool
  pub flash : F

abbrev pub berth_of : Option Record → Option (List ℕ)
berth_of none = none
berth_of (some r) = some r.berth_id

abbrev pub text_or_null : List ℕ → Option (List ℕ)
text_or_null [] = none
text_or_null (c ∷ cs) = some (c ∷ cs)

abbrev pub node_of : Option Record → Option (List ℕ)
node_of none = none
node_of (some r) = text_or_null r.node_id

module _ (nvs : Nvs) where
  open nvs use {
    Flash, open_readonly, open_readwrite, blob_size, read_v1, read_table, set_blob, commit,
    erase_namespace, erase_flash,
  }

  abbrev pub State : Type 0
  State = ProvState Flash

  abbrev commit_after : EspErr × Flash → EspErr × Flash
  commit_after (e, f) = if is_ok e then commit f else (e, f)

  -- `save_table`
  unfoldable pub save_table : State → EspErr × State
  save_table s =
      let e = open_readwrite s.flash in
      let (e', f) = commit_after (set_blob s.table s.flash) in
      if is_ok e then (e', record s { flash = f }) else (e, s)

  -- `memset(&s_table, 0, …); s_table.version = DP_PROV_TABLE_VERSION; s_loaded = true; return ESP_OK;`
  abbrev pub load_wiped : State → EspErr × State
  load_wiped s = (esp_ok, record s { table = wiped_table; loaded = true })

  -- The branch of `load_table` for a blob of the size of version 1.
  unfoldable pub load_v1 : State → EspErr × State
  load_v1 s =
      let (e, old) = read_v1 zero_table_v1 s.flash in
      let migrated = record s { table = migrate_from_v1 old; loaded = true } in
      if is_ok e
      then (if old.version == 1 then (esp_ok, (save_table migrated).1) else load_wiped s)
      else (e, s)

  -- The branch for any other blob, or none.
  unfoldable pub load_v2 : State → EspErr × State
  load_v2 s =
      let (e, size, t) = read_table s.table s.flash in
      if is_nvs_not_found e || (not (size == sizeof_table) || not (t.version == 2))
      then load_wiped s
      else (if is_ok e
          then (esp_ok, record s { table = t; loaded = true })
          else (e, record s { table = t }))

  -- `load_table`
  unfoldable pub load_table : State → EspErr × State
  load_table s =
      let e = open_readonly s.flash in
      let (e', size) = blob_size s.flash in
      if is_nvs_not_found e
      then load_wiped s
      else (if is_ok e
          then (if is_ok e' && size == sizeof_table_v1 then load_v1 s else load_v2 s)
          else (e, s))

  -- `dp_prov_init`, and the same guard in `dp_prov_record_node` and `dp_prov_forget_unicast`.
  unfoldable pub prov_init : State → EspErr × State
  prov_init s = if s.loaded then (esp_ok, s) else load_table s

  -- `dp_prov_lookup_berth`; none is NULL.
  unfoldable pub lookup_berth : ℕ → State → Option (List ℕ)
  lookup_berth a s =
      if not s.loaded || a == 0 then none else berth_of (find_record a s.table.records)

  -- `dp_prov_lookup_node_id`
  unfoldable pub lookup_node_id : ℕ → State → Option (List ℕ)
  lookup_node_id a s =
      if not s.loaded || a == 0 then none else node_of (find_record a s.table.records)

  abbrev save_if : Bool → State → EspErr × State
  save_if true s = save_table s
  save_if false s = (no_mem, s)

  -- `dp_prov_record_node` behind its argument checks.
  unfoldable pub record_loaded : ℕ → List ℕ → Option (List ℕ) → State → EspErr × State
  record_loaded a berth node_id s =
      let (t, found) = record_in_table a berth node_id s.table in
      save_if found (record s { table = t })

  abbrev node_too_long : Option (List ℕ) → Bool
  node_too_long none = false
  node_too_long (some n) = leb node_id_max (length n)

  -- `berth_id && *berth_id`
  abbrev some_text : Option (List ℕ) → Bool
  some_text none = false
  some_text (some []) = false
  some_text (some (c ∷ cs)) = true

  abbrev text_of : Option (List ℕ) → List ℕ
  text_of none = []
  text_of (some s) = s

  abbrev pub run_if_ok : EspErr × State → (State → EspErr × State) → EspErr × State
  run_if_ok (e, s) next = if is_ok e then next s else (e, s)

  -- `dp_prov_record_node`
  unfoldable pub record_node : ℕ → Option (List ℕ) → Option (List ℕ) → State → EspErr × State
  record_node a berth node_id s =
      if a == 0 || not (some_text berth)
      then (invalid_arg, s)
      else (if leb berth_id_max (length (text_of berth)) || node_too_long node_id
          then (invalid_size, s)
          else run_if_ok (prov_init s) (record_loaded a (text_of berth) node_id))

  abbrev save_hit : Bool → State → EspErr × State
  save_hit true s = save_table s
  save_hit false s = (esp_ok, s)

  -- `dp_prov_forget_unicast` behind the load.
  unfoldable pub forget_loaded : ℕ → State → EspErr × State
  forget_loaded a s =
      let (t, hit) = forget_in_table a s.table in save_hit hit (record s { table = t })

  -- `dp_prov_forget_unicast`
  unfoldable pub forget_unicast : ℕ → State → EspErr × State
  forget_unicast a s = run_if_ok (prov_init s) (forget_loaded a)

  -- `dp_prov_factory_reset`: the flash when the device restarts.
  unfoldable pub factory_reset : Flash → Flash
  factory_reset f =
      let erased = (commit (erase_namespace f)).1 in
      erase_flash (if is_ok (open_readwrite f) then erased else f)

-- What the table promises on flash: what is set is committed and read back, and a blob that is there
-- can be read after a restart.
pub record NvsKeeps (nvs : Nvs) : Type 0 where
  pub reopens :
      (t : Table) (f g : nvs.Flash)
      → nvs.set_blob t f ≡ (esp_ok, g)
      → (nvs.commit g).0 ≡ esp_ok
      → nvs.open_readonly (nvs.commit g).1 ≡ esp_ok
  pub sized :
      (t : Table) (f g : nvs.Flash)
      → nvs.set_blob t f ≡ (esp_ok, g)
      → (nvs.commit g).0 ≡ esp_ok
      → nvs.blob_size (nvs.commit g).1 ≡ (esp_ok, sizeof_table)
  pub reads :
      (t buffer : Table) (f g : nvs.Flash)
      → nvs.set_blob t f ≡ (esp_ok, g)
      → (nvs.commit g).0 ≡ esp_ok
      → nvs.read_table buffer (nvs.commit g).1 ≡ (esp_ok, sizeof_table, t)

-- A boot: the RAM is zeroed, the flash stays.
abbrev pub zero_table : Table
zero_table = record {
  version = 0;
  count = 0;
  records = replicate max_records (record { unicast_addr = 0; berth_id = []; node_id = [] });
}

abbrev pub reboot : {F : Type 0} → ProvState F → ProvState F
reboot s = record { table = zero_table; loaded = false; flash = s.flash }
