-- ===== src/Uplink/Samples.antt =====
-- A table and surroundings for the runs of components/dp_gateway.
use dockpulse_iot.Prelude.{
  ℕ, List, Option, ltb, if◌then◌else◌, ◌+◌, ◌-◌, ◌*◌, replicate, ◌≢◌, true, [], ◌∷◌, none, some,
  arith,
}
use dockpulse_iot.Esp.{esp_ok}
use dockpulse_iot.Esp.{esp_fail, no_mem}
use dockpulse_iot.Prov.Table.{Table, wiped_table, record_in_table, evict_stale, find_slot}
use dockpulse_iot.Prov.Store.{
  Nvs, State, sizeof_table, record_node, prov_init, load_table, record_loaded, save_table,
}
use dockpulse_iot.Prov.Valid.{IsValid}
use dockpulse_iot.Prov.Refine.{Accepts}
use dockpulse_iot.Uplink.Adopt.{Request}
use dockpulse_iot.Uplink.Hex.{hex_text}
use dockpulse_iot.Uplink.Status.{UplinkConfig, Surroundings}

-- A flash that cannot be written.
abbrev pub read_only : Nvs
read_only = record {
  Flash = Table;
  open_readonly = λ f. esp_ok;
  open_readwrite = λ f. esp_fail;
  blob_size = λ f. (esp_ok, sizeof_table);
  read_v1 = λ buffer f. (esp_fail, buffer);
  read_table = λ buffer f. (esp_ok, sizeof_table, f);
  set_blob = λ t f. (esp_fail, f);
  commit = λ f. (esp_fail, f);
  erase_namespace = λ f. f;
  erase_flash = λ f. f;
}

abbrev pub fresh : State read_only
fresh = record { table = wiped_table; loaded = true; flash = wiped_table }

pub fresh-IsValid : IsValid wiped_table
fresh-IsValid = ground arith

pub t1_accepted : Accepts 5 (b't' ∷ b'1' ∷ []) none
t1_accepted = record {
  addressed = λ e. absurd (omega arith);
  named = λ e. cc;
  short = omega arith;
  node_short = omega arith;
}

pub has_room : (record_node read_only 5 (some (b't' ∷ b'1' ∷ [])) none fresh).0 ≢ no_mem
unfolding record_node prov_init load_table record_loaded save_table record_in_table evict_stale
    find_slot
has_room e = cc

abbrev pub harbor : UplinkConfig
harbor = record { harbor_id = b'h' ∷ []; dock_id = b'd' ∷ []; berth_format = λ suffix. suffix }

abbrev pub calm : Surroundings
calm = record { object_made = true; text_made = true; now = b'0' ∷ []; published = esp_ok }

abbrev pub digit_value : ℕ → ℕ
digit_value c = if ltb c b'a' then c - b'0' else c + 10 - b'a'

abbrev pub scan_digits : List ℕ → Option ℕ
scan_digits [] = none
scan_digits (a ∷ []) = none
scan_digits (a ∷ b ∷ rest) = some (digit_value a * 16 + digit_value b)

abbrev pub request : Request
request = record {
  req_id = some (b'7' ∷ []);
  uuid = some (hex_text (replicate 16 1));
  oob = none;
  ttl_s = some 60;
  berth_id = some (b't' ∷ b'1' ∷ []);
  node_id = none;
}
