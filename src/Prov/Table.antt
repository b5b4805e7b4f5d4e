-- ===== src/Prov/Table.antt =====
-- components/dp_prov/dp_prov.c: the table in memory and the loops over its records. A `char` array is
-- the list of the characters before its terminator.
use dockpulse_iot.Prelude.{
  ℕ, ◌+◌, ◌-◌, Bool, true, false, not, ◌&&◌, List, [], ◌∷◌, Option, none, some, map, ◌==◌,
  if◌then◌else◌, take, replicate, set, str_eq, u8,
}

abbrev pub max_records : ℕ
max_records = 16

abbrev pub berth_id_max : ℕ
berth_id_max = 48

abbrev pub node_id_max : ℕ
node_id_max = 40

abbrev pub table_version : ℕ
table_version = 2

-- `dp_prov_record_t`; an address of 0 marks an empty slot.
pub record Record : Type 0 where
  pub unicast_addr : ℕ
  pub berth_id : List ℕ
  pub node_id : List ℕ

-- `dp_prov_table_t`
pub record Table : Type 0 where
  pub version : ℕ
  pub count : ℕ
  pub records : List Record

-- `dp_prov_record_v1_t` and `dp_prov_table_v1_t`
pub record RecordV1 : Type 0 where
  pub unicast_addr : ℕ
  pub berth_id : List ℕ

pub record TableV1 : Type 0 where
  pub version : ℕ
  pub count : ℕ
  pub records : List RecordV1

-- `memset(&s_table.records[i], 0, …)`
abbrev pub empty_record : Record
empty_record = record { unicast_addr = 0; berth_id = []; node_id = [] }

abbrev pub wiped_table : Table
wiped_table = record {
  version = table_version;
  count = 0;
  records = replicate max_records empty_record;
}

abbrev pub migrate_record : RecordV1 → Record
migrate_record r = record { unicast_addr = r.unicast_addr; berth_id = r.berth_id; node_id = [] }

-- `migrate_from_v1`
unfoldable pub migrate_from_v1 : TableV1 → Table
migrate_from_v1 old = record {
  version = table_version;
  count = old.count;
  records = map migrate_record old.records;
}

-- The loop of both look-ups: the first record with the address.
unfoldable pub find_record : ℕ → List Record → Option Record
find_record a [] = none
find_record a (r ∷ rs) = if r.unicast_addr == a then some r else find_record a rs

-- `if (s_table.count) { s_table.count--; }`
abbrev pub dec_count : ℕ → ℕ
dec_count n = if n == 0 then 0 else n - 1

-- A record of the same berth under another address.
abbrev pub is_stale : ℕ → List ℕ → Record → Bool
is_stale a berth r =
    not (r.unicast_addr == 0) && (not (r.unicast_addr == a) && str_eq r.berth_id berth)

-- The hot-swap loop of `dp_prov_record_node`, on the records and the count.
unfoldable pub evict_stale : ℕ → List ℕ → List Record → ℕ → List Record × ℕ
evict_stale a berth [] n = ([], n)
evict_stale a berth (r ∷ rs) n =
    let stale = is_stale a berth r in
    let (rest, m) = evict_stale a berth rs (if stale then dec_count n else n) in
    ((if stale then empty_record else r) ∷ rest, m)

abbrev pub first_empty : Option ℕ → ℕ → Record → Option ℕ
first_empty (some e) i r = some e
first_empty none i r = if r.unicast_addr == 0 then some i else none

-- The slot loop of `dp_prov_record_node`: the slot of the address and the first empty one, from
-- index `i` on.
unfoldable pub find_slot : ℕ → ℕ → Option ℕ → List Record → Option ℕ × Option ℕ
find_slot a i empty [] = (none, empty)
find_slot a i empty (r ∷ rs) =
    let rest = find_slot a (i + 1) (first_empty empty i r) rs in
    if r.unicast_addr == a then (some i, empty) else rest

abbrev pub node_text : Option (List ℕ) → List ℕ
node_text none = []
node_text (some s) = take (node_id_max - 1) s

abbrev pub new_record : ℕ → List ℕ → Option (List ℕ) → Record
new_record a berth node = record {
  unicast_addr = a;
  berth_id = take (berth_id_max - 1) berth;
  node_id = node_text node;
}

-- The slots found, to the records and the count after the write; none if there is no slot.
abbrev pub write_slot : Option ℕ × Option ℕ → Record → List Record → ℕ → Option (List Record × ℕ)
write_slot (some slot, empty) r rs n = some (set rs slot r, n)
write_slot (none, some slot) r rs n = some (set rs slot r, u8 (n + 1))
write_slot (none, none) r rs n = none

abbrev pub store_records : Option (List Record × ℕ) → List Record → ℕ → Table → Table × Bool
store_records none rs n t = (record t { records = rs; count = n }, false)
store_records (some (rs', n')) rs n t = (record t { records = rs'; count = n' }, true)

-- The table after `dp_prov_record_node` has evicted stale records and found a slot, before it is
-- saved; the second part is false if there was no slot.
unfoldable pub record_in_table : ℕ → List ℕ → Option (List ℕ) → Table → Table × Bool
record_in_table a berth node t =
    let (rs, n) = evict_stale a berth t.records t.count in
    store_records (write_slot (find_slot a 0 none rs) (new_record a berth node) rs n) rs n t

-- The loop of `dp_prov_forget_unicast`: the records after the first match is wiped, and whether
-- there was one.
unfoldable pub wipe_first : ℕ → List Record → List Record × Bool
wipe_first a [] = ([], false)
wipe_first a (r ∷ rs) =
    let (rest, hit) = wipe_first a rs in
    if r.unicast_addr == a then (empty_record ∷ rs, true) else (r ∷ rest, hit)

unfoldable pub forget_in_table : ℕ → Table → Table × Bool
forget_in_table a t =
    let (rs, hit) = wipe_first a t.records in
    if hit then (record t { records = rs; count = dec_count t.count }, true) else (t, false)
