-- ===== src/Esp.antt =====
-- `esp_err_t`: the codes that the firmware names, and any other number.
use dockpulse_iot.Prelude.{ℕ, Bool, true, false}

pub data EspErr : Type 0 where
  esp_ok esp_fail no_mem invalid_arg invalid_state invalid_size not_found : EspErr
  not_supported timeout nvs_not_found nvs_no_free_pages nvs_new_version_found : EspErr
  other_err : ℕ → EspErr

-- `err == ESP_OK`
abbrev pub is_ok : EspErr → Bool
is_ok esp_ok = true
is_ok _ = false

-- `err == ESP_ERR_NOT_FOUND`
abbrev pub is_not_found : EspErr → Bool
is_not_found not_found = true
is_not_found _ = false

-- `err == ESP_ERR_NVS_NOT_FOUND`
abbrev pub is_nvs_not_found : EspErr → Bool
is_nvs_not_found nvs_not_found = true
is_nvs_not_found _ = false
