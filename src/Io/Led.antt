-- ===== src/Io/Led.antt =====
-- components/dp_io/dp_io.c: the patterns of the status light.
use dockpulse_iot.Prelude.{ℕ, Bool, not, List, [], ◌∷◌, ◌++◌, if◌then◌else◌}
use dockpulse_iot.Esp.{EspErr, esp_ok, no_mem, is_ok}

-- `dp_led_state_t`
pub data LedState : Type 0 where
  led_off led_ok led_idle led_provisioning led_error : LedState

-- `LED_OFF`, `LED_OK_COLOR`, `LED_PROV_COLOR`, `LED_ERR_COLOR`, each with the wait that follows, in ms.
pub data LedStep : Type 0 where
  dark green blue red : ℕ → LedStep

-- One turn of `led_task`: what it shows, oldest first, and the next `on`.
unfoldable pub led_round : LedState → Bool → List LedStep × Bool
led_round led_off on = (dark 200 ∷ [], on)
led_round led_ok on = (green 500 ∷ [], on)
led_round led_idle on = (green 100 ∷ dark 900 ∷ [], on)
led_round led_provisioning on = (if not on then blue 125 ∷ [] else dark 125 ∷ [], not on)
led_round led_error on = (red 80 ∷ dark 120 ∷ red 80 ∷ dark 1720 ∷ [], on)

-- The task, on the state that each turn reads.
unfoldable pub led_task : List LedState → Bool → List LedStep
led_task [] on = []
led_task (s ∷ more) on = let (shown, on') = led_round s on in shown ++ led_task more on'

-- `dp_led_init`: is a pin configured, the answer of its driver, is there memory for the task.
unfoldable pub led_init : Bool → EspErr → Bool → EspErr
led_init has_pin driver task_made =
    if not has_pin
    then esp_ok
    else (if is_ok driver then (if task_made then esp_ok else no_mem) else driver)
