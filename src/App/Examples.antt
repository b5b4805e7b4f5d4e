-- ===== src/App/Examples.antt =====
-- A long press on a device with a table.
use dockpulse_iot.Prelude.{
  ◌≡◌, ◌≢◌, refl, ℕ, Bool, true, false, List, [], ◌∷◌, ◌++◌, Option, none, some, arith,
}
use dockpulse_iot.Esp.{EspErr, esp_ok, esp_fail, nvs_not_found}
use dockpulse_iot.Io.Led.{led_idle, led_ok}
use dockpulse_iot.Io.Button.{button_start, poll, polls, presses, HeldFor, polls-HeldFor}
use dockpulse_iot.Prov.Table.{Table}
use dockpulse_iot.Prov.Store.{Nvs, sizeof_table, lookup_berth}
use dockpulse_iot.Uplink.Samples.{fresh}
use dockpulse_iot.App.{FlashStart, App, app_polls}
use dockpulse_iot.App.Reset.{Erases, press-forgets}

abbrev opened : Option Table → EspErr
opened none = nvs_not_found
opened (some t) = esp_ok

abbrev stored : Table → Option Table → EspErr × ℕ × Table
stored buffer none = (nvs_not_found, 0, buffer)
stored buffer (some t) = (esp_ok, sizeof_table, t)

abbrev flash : Nvs
flash = record {
  Flash = Option Table;
  open_readonly = opened;
  open_readwrite = λ f. esp_ok;
  blob_size = λ f. (opened f, sizeof_table);
  read_v1 = λ buffer f. (esp_fail, buffer);
  read_table = stored;
  set_blob = λ t f. (esp_ok, some t);
  commit = λ f. (esp_ok, f);
  erase_namespace = λ f. none;
  erase_flash = λ f. none;
}

abbrev starting : FlashStart (Option Table)
starting = record { init = λ f. (esp_ok, f); erase = λ f. esp_ok }

flash-Erases : Erases flash starting
flash-Erases = record { starts = λ f. refl; empty = λ f. refl }

abbrev short_presses : List Bool
short_presses = true ∷ false ∷ true ∷ []

not_held : ¬ HeldFor (presses 100) short_presses
unfolding poll
not_held held =
    let one = (polls-HeldFor 100 short_presses).1.1 held in
    let differs : 0 ≢ 1 = omega arith in differs one

abbrev running : App flash
running = record {
  button = button_start;
  led = led_ok;
  prov = record { table = fresh.table; loaded = true; flash = some fresh.table };
}

press-forgets_example :
    (app_polls flash starting 100 short_presses running
      ≡ some (record running { button = polls 100 true short_presses button_start }))
    × (HeldFor (presses 100) (short_presses ++ true ∷ [])
        → (after : App flash) × (app_polls flash starting 100 (short_presses ++ true ∷ []) running
            ≡ some after)
          × ((addr : ℕ) → lookup_berth flash addr after.prov ≡ none)
          × (after.led ≡ led_idle))
press-forgets_example = press-forgets flash starting 100 short_presses running flash-Erases not_held
