-- ===== src/Io/Examples.antt =====
-- Runs of components/dp_io/dp_io.c.
use dockpulse_iot.Prelude.{◌≡◌, refl, ◌≤◌, ◌↔◌, true, false, [], ◌∷◌}
use dockpulse_iot.Io.Led.{led_task, led_round, led_provisioning, blue, dark}
use dockpulse_iot.Io.Button.{polls, button_start, HeldFor, presses, polls-HeldFor}

-- While the state is provisioning, the light alternates.
blinks :
    led_task (led_provisioning ∷ led_provisioning ∷ led_provisioning ∷ []) false
    ≡ blue 125 ∷ dark 125 ∷ blue 125 ∷ []
unfolding led_task led_round
blinks = refl

-- A press of 100 ms takes two polls.
polls-HeldFor_example :
    let after = polls 100 true (true ∷ false ∷ true ∷ true ∷ true ∷ []) button_start in
    (after.fired ≤ 1)
    × ((after.fired ≡ 1) ↔ HeldFor (presses 100) (true ∷ false ∷ true ∷ true ∷ true ∷ []))
polls-HeldFor_example = polls-HeldFor 100 (true ∷ false ∷ true ∷ true ∷ true ∷ [])
