-- ===== src/Io/Pins.antt =====
-- components/dp_io/dp_io.c: output pins. The GPIO driver is a log of the levels written.
use dockpulse_iot.Prelude.{ℕ, Bool, not, List, [], ◌∷◌, Option, none, some, ◌==◌, if◌then◌else◌}

-- A level written to a pin.
pub record PinWrite : Type 0 where
  pub gpio : ℕ
  pub level : Bool

-- `berth_drive`, and `led_drive` of a plain LED; none is a negative GPIO number. The log is newest
-- first.
unfoldable pub drive : Bool → Option ℕ → Bool → List PinWrite → List PinWrite
drive active_low none on log = log
drive active_low (some gpio) on log =
    record { gpio = gpio; level = if active_low then not on else on } ∷ log

-- The level of a pin; `reset` gives the levels that the outputs have before the first write.
abbrev pub level_of : (ℕ → Bool) → ℕ → List PinWrite → Bool
level_of reset gpio [] = reset gpio
level_of reset gpio (w ∷ ws) =
    let older = level_of reset gpio ws in if w.gpio == gpio then w.level else older

-- A lamp is lit at the level that its polarity asks for.
abbrev pub lit : Bool → (ℕ → Bool) → ℕ → List PinWrite → Bool
lit active_low reset gpio log =
    let level = level_of reset gpio log in if active_low then not level else level
