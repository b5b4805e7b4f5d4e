-- ===== src/Io/Berth.antt =====
-- components/dp_io/dp_io.c: the green and the red lamp of the berth.
use dockpulse_iot.Prelude.{
  ℕ, ◌≡◌, ◌≢◌, Bool, true, false, not, ◌&&◌, List, [], ◌∷◌, Option, none, some, arith,
  if◌then◌else◌,
}
use dockpulse_iot.Esp.{EspErr, esp_ok, is_ok}
use dockpulse_iot.Io.Pins.{PinWrite, drive, lit}

-- `s_berth_green_gpio`, `s_berth_red_gpio`, `s_berth_active_low`; none is a negative number.
pub record BerthPins : Type 0 where
  pub green : Option ℕ
  pub red : Option ℕ
  pub active_low : Bool

-- `dp_berth_led_set`: the other lamp goes out first.
unfoldable pub berth_led_set : BerthPins → Bool → List PinWrite → List PinWrite
berth_led_set p true log = drive p.active_low p.red true (drive p.active_low p.green false log)
berth_led_set p false log = drive p.active_low p.green true (drive p.active_low p.red false log)

abbrev pub has_lamp : Option ℕ → Option ℕ → Bool
has_lamp none none = false
has_lamp none (some r) = true
has_lamp (some g) red = true

-- `dp_berth_led_init`: `configured` is the answer of `gpio_config`. The berth starts as free.
unfoldable pub berth_led_init : BerthPins → EspErr → List PinWrite → EspErr × List PinWrite
berth_led_init p configured log =
    if has_lamp p.green p.red
    then (if is_ok configured
        then (esp_ok, drive p.active_low p.green true (drive p.active_low p.red false log))
        else (configured, log))
    else (esp_ok, log)

-- At no time from the first write on were both lamps lit.
abbrev pub NeverBoth : Bool → (ℕ → Bool) → ℕ → ℕ → List PinWrite → Type 0
NeverBoth low reset green red [] = Unit
NeverBoth low reset green red (w ∷ ws) =
    ((lit low reset green (w ∷ ws) && lit low reset red (w ∷ ws)) ≡ false)
    × NeverBoth low reset green red ws

-- One lamp is lit: the red one if the berth is shown as occupied.
abbrev pub Shows : Bool → (ℕ → Bool) → ℕ → ℕ → Bool → List PinWrite → Type 0
Shows low reset green red occupied log =
    NeverBoth low reset green red log
    × (lit low reset red log ≡ occupied)
    × (lit low reset green log ≡ not occupied)

abbrev pub two_lamps : Bool → ℕ → ℕ → BerthPins
two_lamps low green red = record { green = some green; red = some red; active_low = low }

module _ (reset : ℕ → Bool) (green red : ℕ) (apart : green ≢ red) where
  pub set-Shows :
      (low before occupied : Bool) (log : List PinWrite)
      → Shows low reset green red before log
      → Shows low reset green red occupied (berth_led_set (two_lamps low green red) occupied log)
  unfolding berth_led_set drive
  set-Shows true before true log h = ground arith
  set-Shows true before false log h = ground arith
  set-Shows false before true log h = ground arith
  set-Shows false before false log h = ground arith

  pub init-Shows :
      (low : Bool)
      → let (err, log) = berth_led_init (two_lamps low green red) esp_ok [] in
        (err ≡ esp_ok) × Shows low reset green red false log
  unfolding berth_led_init drive
  init-Shows true = ground arith
  init-Shows false = ground arith
