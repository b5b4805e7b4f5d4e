-- ===== src/Prov/Factory.antt =====
-- components/dp_prov/dp_prov.c: the data of the factory partition, and the UUID of the device.
use dockpulse_iot.Prelude.{
  ℕ, ◌==◌, Bool, true, false, not, List, [], ◌∷◌, ◌++◌, Option, none, some, if◌then◌else◌,
  replicate, take, codes,
}
use dockpulse_iot.Esp.{
  EspErr, esp_ok, invalid_arg, invalid_size, not_found, nvs_no_free_pages, nvs_new_version_found,
  is_ok, is_nvs_not_found,
}

-- The partition and the fuses. A read is given the memory behind its buffer and gives that memory
-- back; the blob read also reports a size.
pub record Factory : Type 0 where
  pub init_partition : EspErr
  pub open_readonly : EspErr
  pub read_oob : List ℕ → EspErr × ℕ × List ℕ
  pub read_mac : List ℕ → EspErr × List ℕ

-- `DP_PROV_OOB_LEN`
abbrev pub oob_len : ℕ
oob_len = 16

-- The errors of the initialisation that the code goes on with.
abbrev pub init_tolerated : EspErr → Bool
init_tolerated esp_ok = true
init_tolerated nvs_no_free_pages = true
init_tolerated nvs_new_version_found = true
init_tolerated _ = false

-- `ESP_ERR_NVS_NOT_FOUND` is reported as `ESP_ERR_NOT_FOUND`.
abbrev pub nvs_as_not_found : EspErr → EspErr
nvs_as_not_found e = if is_nvs_not_found e then not_found else e

-- `dp_prov_get_static_oob`; none is NULL.
unfoldable pub get_static_oob : Factory → Option (List ℕ) → EspErr × Option (List ℕ)
get_static_oob f none = (invalid_arg, none)
get_static_oob f (some out) =
    let (e, size, read) = f.read_oob out in
    if not (init_tolerated f.init_partition)
    then (f.init_partition, some out)
    else (if not (is_ok f.open_readonly)
        then (nvs_as_not_found f.open_readonly, some out)
        else (if not (is_ok e)
            then (nvs_as_not_found e, some read)
            else (if size == oob_len then esp_ok else invalid_size, some read)))

-- `MARKER`
abbrev pub uuid_marker : List ℕ
uuid_marker = codes "DOCKPULSE" ++ 1 ∷ []

-- `dp_prov_get_dev_uuid`; none is NULL.
unfoldable pub get_dev_uuid : Factory → Option (List ℕ) → EspErr × Option (List ℕ)
get_dev_uuid f none = (invalid_arg, none)
get_dev_uuid f (some out) =
    let (e, mac) = f.read_mac (replicate 6 0) in
    if is_ok e then (esp_ok, some (take 6 mac ++ uuid_marker)) else (e, some out)
