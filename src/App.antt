-- ===== src/App.antt =====
-- main/app_main.c: the start of the firmware, and the restart that a long press brings about.
pub mod Reset
mod Examples
use dockpulse_iot.Prelude.{
  ℕ, Bool, true, false, List, [], ◌∷◌, Option, none, some, if◌then◌else◌, ltb,
}
use dockpulse_iot.Esp.{EspErr, nvs_no_free_pages, nvs_new_version_found, is_ok}
use dockpulse_iot.Io.Led.{LedState, led_idle, led_error}
use dockpulse_iot.Io.Button.{Button, button_start, poll}
use dockpulse_iot.Prov.Store.{Nvs, State, zero_table, prov_init, factory_reset}

-- `nvs_flash_init` and the answer of `nvs_flash_erase`.
pub record FlashStart (F : Type 0) : Type 0 where
  pub init : F → EspErr × F
  pub erase : F → EspErr

-- What the firmware holds after its start: the button's task, the status light, the table.
pub record App (nvs : Nvs) : Type 0 where
  pub button : Button
  pub led : LedState
  pub prov : State nvs

-- The errors after which the flash is erased and tried again.
abbrev pub wants_erase : EspErr → Bool
wants_erase nvs_no_free_pages = true
wants_erase nvs_new_version_found = true
wants_erase _ = false

-- `ESP_ERROR_CHECK`: none stands for the abort.
abbrev pub checked {ℓ} : {A : Type ℓ} → EspErr × A → Option A
checked (e, a) = if is_ok e then some a else none

module _ (nvs : Nvs) (start : FlashStart nvs.Flash) where
  -- `init_nvs`
  unfoldable pub init_nvs : nvs.Flash → Option nvs.Flash
  init_nvs f =
      let (e, g) = start.init f in
      if wants_erase e
      then (if is_ok (start.erase g) then checked (start.init (nvs.erase_flash g)) else none)
      else checked (e, g)

  abbrev pub booted : Option nvs.Flash → Option (App nvs)
  booted none = none
  booted (some f) =
      let prov = (prov_init nvs (record { table = zero_table; loaded = false; flash = f })).1 in
      some (record { button = button_start; led = led_idle; prov = prov })

  -- `app_main` up to the role; none is an abort.
  unfoldable pub app_main : nvs.Flash → Option (App nvs)
  app_main f = booted (init_nvs f)

  -- `on_factory_reset`: the light, the wiped flash, and the restart.
  unfoldable pub on_factory_reset : App nvs → Option (App nvs)
  on_factory_reset a = app_main (factory_reset nvs a.prov.flash)

  -- A poll of the button, and its callback.
  unfoldable pub app_poll : ℕ → Bool → App nvs → Option (App nvs)
  app_poll hold_ms low a =
      let b = poll hold_ms true low a.button in
      if ltb a.button.fired b.fired then on_factory_reset a else some (record a { button = b })

  abbrev pub app_polls : ℕ → List Bool → App nvs → Option (App nvs)
  app_polls hold_ms [] a = some a
  app_polls hold_ms (low ∷ more) a = elim (app_poll hold_ms low a) [
    | none ↦ none
    | some after ↦ app_polls hold_ms more after
  ]
