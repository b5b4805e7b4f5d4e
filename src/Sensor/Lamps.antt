-- ===== src/Sensor/Lamps.antt =====
-- main/sensor_main.c with components/dp_io/dp_io.c: the lamps of the berth while the loop runs.
use dockpulse_iot.Prelude.{
  ℕ, ◌≡◌, ◌≢◌, ◌↔◌, sym, ap, ◌∙◌, subst, Bool, true, false, not, List, [], ◌∷◌, ◌++◌, Option, none,
  some,
}
use dockpulse_iot.Esp.{esp_ok}
use dockpulse_iot.Codec.Messages.{RadarSample}
use dockpulse_iot.Radar.Filter.{ConfigInRange, EndsNear}
use dockpulse_iot.Io.Pins.{PinWrite, lit}
use dockpulse_iot.Io.Berth.{
  BerthPins, berth_led_set, berth_led_init, NeverBoth, Shows, two_lamps, set-Shows, init-Shows,
}
use dockpulse_iot.Sensor.Loop.{
  Act, enter_report_mode, berth_led, publish_status, publish_diag, LoopConfig, Round, loop_start,
  sensor_loop, samples, last_led, sensor_loop-EndsNear,
}

-- The pins after the actions of the loop, newest first, from those that the start-up leaves.
abbrev pub pins_after : BerthPins → List PinWrite → List Act → List PinWrite
pins_after p log [] = log
pins_after p log (berth_led occupied ∷ acts) = berth_led_set p occupied (pins_after p log acts)
pins_after p log (enter_report_mode ∷ acts) = pins_after p log acts
pins_after p log (publish_status s ∷ acts) = pins_after p log acts
pins_after p log (publish_diag d ∷ acts) = pins_after p log acts

-- Free until a sample is read.
abbrev pub shown : Option Bool → Bool
shown none = false
shown (some b) = b

module _ (low : Bool) (reset : ℕ → Bool) (green red : ℕ) (apart : green ≢ red) where
  acts-Shows :
      (log : List PinWrite) (acts : List Act)
      → Shows low reset green red false log
      → Shows low reset green red
          (shown (last_led acts))
          (pins_after (two_lamps low green red) log acts)
  acts-Shows log [] h = h
  acts-Shows log (berth_led occupied ∷ acts) h =
      set-Shows reset green red apart low (shown (last_led acts)) occupied
        (pins_after (two_lamps low green red) log acts) (acts-Shows log acts h)
  acts-Shows log (enter_report_mode ∷ acts) h = acts-Shows log acts h
  acts-Shows log (publish_status s ∷ acts) h = acts-Shows log acts h
  acts-Shows log (publish_diag d ∷ acts) h = acts-Shows log acts h

  -- The lamps of the berth tell whether it is taken. With two lamps on different pins, of either
  -- polarity, whatever the levels of the outputs before the first write, a start-up that configures
  -- them, and the filter's configuration in its ranges: after the start-up and any rounds of the loop
  -- of which the last has a sample, both lamps have never been lit at once from the first write on,
  -- the red lamp is lit exactly when the last `prox_frames` samples are near, and the green one
  -- exactly when the red one is not.
  pub sensor_loop-lamps :
      (c : LoopConfig) (rs : List Round) (s : RadarSample) (now battery : ℕ)
      → ConfigInRange c.filter
      → let p = two_lamps low green red in
        let last : Round = record { sample = some s; now = now; battery = battery } in
        let after = sensor_loop c (rs ++ last ∷ []) loop_start in
        let log = pins_after p (berth_led_init p esp_ok []).1 after.acts in
        NeverBoth low reset green red log
        × ((lit low reset red log ≡ true)
            ↔ EndsNear c.filter c.filter.prox_frames (samples rs ++ s ∷ []))
        × (lit low reset green log ≡ not (lit low reset red log))
  sensor_loop-lamps c rs s now battery h =
      let p = two_lamps low green red in
      let last : Round = record { sample = some s; now = now; battery = battery } in
      let after = sensor_loop c (rs ++ last ∷ []) loop_start in
      let log = pins_after p (berth_led_init p esp_ok []).1 after.acts in
      let (ok, fresh) = init-Shows reset green red apart low in
      let (never, red_lit, green_lit) =
        acts-Shows (berth_led_init p esp_ok []).1 after.acts fresh in
      let (occupied, told, near) = sensor_loop-EndsNear c rs s now battery h in
      let says : lit low reset red log ≡ occupied = red_lit ∙ ap shown told in
      (
        never,
        subst (λ b. (b ≡ true) ↔ EndsNear c.filter c.filter.prox_frames (samples rs ++ s ∷ []))
            (sym says) near,
        green_lit ∙ ap not (sym red_lit),
      )
