-- ===== src/Sensor/Battery.antt =====
-- components/dp_io/dp_io.c: `dp_battery_init` and `dp_battery_read_pct`. The ADC driver and its
-- calibration are parameters.
use dockpulse_iot.Prelude.{
  ℕ, ◌+◌, ◌-◌, ◌*◌, ◌/◌, ◌≤◌, ◌<◌, ◌≡◌, ◌↔◌, ◌≢◌, not, ◌&&◌, Bool, true, false, Option, none, some,
  arith, ltb, if◌then◌else◌,
}
use dockpulse_iot.Esp.{EspErr, esp_ok, is_ok}
use dockpulse_iot.Codec.Messages.{battery_unknown}

-- The pin in millivolts: from the calibration if there is one, else on the linear scale.
abbrev pub pin_mv : Option (ℕ → ℕ) → ℕ → ℕ
pin_mv none raw = raw * 3300 / 4095
pin_mv (some to_voltage) raw = to_voltage raw

-- The percentage of a pin voltage. Below 3000 mV the quotient in C is negative or 0 and the first
-- clamp makes it 0; the subtraction here stops at 0.
abbrev pub pct_of_mv : ℕ → ℕ
pct_of_mv v_pin_mv =
    let pct = (v_pin_mv * 2 - 3000) * 100 / (4200 - 3000) in if ltb 100 pct then 100 else pct

-- `dp_battery_read_pct`: is there an ADC handle, is a pin configured, the raw value (none if the read
-- fails), the calibration (none without one).
unfoldable pub battery_read_pct : Bool → Bool → Option ℕ → Option (ℕ → ℕ) → ℕ
battery_read_pct false gpio raw cali = battery_unknown
battery_read_pct true false raw cali = battery_unknown
battery_read_pct true true none cali = battery_unknown
battery_read_pct true true (some raw) cali = pct_of_mv (pin_mv cali raw)

-- A reading gives a percentage: 100 from 2100 mV at the pin on, 0 up to 1505 mV, and between 1500 and
-- 2100 mV the whole percents of the 1200 mV of the battery between empty and full, 12 mV each, that
-- twice the voltage at the pin is above 3000 mV. A higher voltage at the pin never gives a lower
-- percentage. So no reading is taken for the byte that stands for an unknown charge.
pub battery_read_pct_lem :
    (raw raw' : ℕ) (cali cali' : Option (ℕ → ℕ))
    → let v = pin_mv cali raw in
      let v' = pin_mv cali' raw' in
      let pct = battery_read_pct true true (some raw) cali in
      let pct' = battery_read_pct true true (some raw') cali' in
      (pct ≤ 100)
      × ((pct ≡ 100) ↔ (2100 ≤ v))
      × ((pct ≡ 0) ↔ (v < 1506))
      × (1500 ≤ v → v ≤ 2100 → (3000 + 12 * pct ≤ 2 * v) × (2 * v < 3000 + 12 * (pct + 1)))
      × (v ≤ v' → pct ≤ pct')
unfolding battery_read_pct
battery_read_pct_lem raw raw' cali cali' = voltages (pin_mv cali raw) (pin_mv cali' raw')
  where
    voltages :
        (v v' : ℕ)
        → (pct_of_mv v ≤ 100)
          × ((pct_of_mv v ≡ 100) ↔ (2100 ≤ v))
          × ((pct_of_mv v ≡ 0) ↔ (v < 1506))
          × (1500 ≤ v
              → v ≤ 2100
              → (3000 + 12 * pct_of_mv v ≤ 2 * v) × (2 * v < 3000 + 12 * (pct_of_mv v + 1)))
          × (v ≤ v' → pct_of_mv v ≤ pct_of_mv v')
    voltages v v' = ground arith

-- `s_adc_handle` (is it there) and `s_cali_ok`.
pub record Adc : Type 0 where
  pub handle : Bool
  pub cali_ok : Bool

abbrev pub adc_boot : Adc
adc_boot = record { handle = false; cali_ok = false }

-- `dp_battery_init`: is a pin configured, and the answers of the driver for the unit, the channel and
-- the calibration.
unfoldable pub battery_init : Bool → EspErr → EspErr → EspErr → Adc → EspErr × Adc
battery_init has_pin unit channel cali a =
    if not has_pin
    then (esp_ok, a)
    else (if not (is_ok unit)
        then (unit, a)
        else (if not (is_ok channel)
            then (channel, record a { handle = true })
            else (esp_ok, record { handle = true; cali_ok = is_ok cali })))

-- `dp_battery_read_pct` on these variables, with the calibration of the driver.
abbrev pub battery_read : Bool → (ℕ → ℕ) → Option ℕ → Adc → ℕ
battery_read has_pin to_voltage raw a =
    battery_read_pct a.handle has_pin raw (if a.cali_ok then some to_voltage else none)

abbrev pub is_reading : Option ℕ → Bool
is_reading none = false
is_reading (some raw) = true

-- After an initialisation that succeeds the charge is known exactly if a pin is configured and the read
-- of the driver succeeds, with or without a calibration.
pub battery_init-battery_read :
    (has_pin : Bool) (unit channel cali : EspErr) (to_voltage : ℕ → ℕ) (raw : Option ℕ)
    → let (e, a) = battery_init has_pin unit channel cali adc_boot in
      is_ok e ≡ true
      → (battery_read has_pin to_voltage raw a ≢ battery_unknown)
        ↔ ((has_pin && is_reading raw) ≡ true)
unfolding battery_init battery_read_pct
battery_init-battery_read has_pin unit channel cali to_voltage raw ok = ground arith
