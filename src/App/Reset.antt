-- ===== src/App/Reset.antt =====
-- main/app_main.c with components/dp_io/dp_io.c and components/dp_prov/dp_prov.c: a long press makes the
-- gateway forget its nodes.
use dockpulse_iot.Prelude.{
  ℕ, ◌≤◌, ◌<◌, ◌≡◌, ◌≢◌, refl, sym, ap, ◌∙◌, subst, Bool, true, false, List, [], ◌∷◌, ◌++◌,
  append-nil, none, some, arith, if◌then◌else◌, ltb, if_false, if_true,
}
use dockpulse_iot.Esp.{esp_ok, nvs_not_found, is_ok}
use dockpulse_iot.Io.Led.{led_idle}
use dockpulse_iot.Io.Button.{
  Button, button_start, poll, polls, presses, HeldFor, polls-append, polls-HeldFor,
}
use dockpulse_iot.Prov.Table.{wiped_table, find_record}
use dockpulse_iot.Prov.Store.{
  Nvs, State, zero_table, prov_init, load_table, factory_reset, lookup_berth,
}
use dockpulse_iot.App.{FlashStart, App, init_nvs, app_main, on_factory_reset, app_poll, app_polls}

-- An erased flash starts, and has no namespace.
pub record Erases (nvs : Nvs) (start : FlashStart nvs.Flash) : Type 0 where
  pub starts : (f : nvs.Flash) → start.init (nvs.erase_flash f) ≡ (esp_ok, nvs.erase_flash f)
  pub empty : (f : nvs.Flash) → nvs.open_readonly (nvs.erase_flash f) ≡ nvs_not_found

poll_mono : (hold_ms : ℕ) (low : Bool) (b : Button) → b.fired ≤ (poll hold_ms true low b).fired
unfolding poll
poll_mono hold_ms low b = ground arith

polls_mono :
    (hold_ms : ℕ) (lows : List Bool) (b : Button) → b.fired ≤ (polls hold_ms true lows b).fired
polls_mono hold_ms [] b = omega arith
polls_mono hold_ms (low ∷ lows) b =
    omega (arith, poll_mono hold_ms low b, polls_mono hold_ms lows (poll hold_ms true low b))

module _ (nvs : Nvs) (start : FlashStart nvs.Flash) (hold_ms : ℕ) where
  quiet_poll :
      (low : Bool) (a : App nvs)
      → (poll hold_ms true low a.button).fired ≡ a.button.fired
      → app_poll nvs start hold_ms low a
        ≡ some (record a { button = poll hold_ms true low a.button })
  unfolding app_poll
  quiet_poll low a h =
      let b = poll hold_ms true low a.button in
      let no : ltb a.button.fired b.fired ≡ false = ground (arith, h) in
      if_false (ltb a.button.fired b.fired) (on_factory_reset nvs start a)
        (some (record a { button = b })) no

  -- Polls that do not call the callback.
  quiet_polls :
      (lows more : List Bool) (a : App nvs)
      → (polls hold_ms true lows a.button).fired ≡ a.button.fired
      → app_polls nvs start hold_ms (lows ++ more) a
        ≡ app_polls nvs start hold_ms more (record a { button = polls hold_ms true lows a.button })
  quiet_polls [] more a h = refl
  quiet_polls (low ∷ lows) more a h =
      let b = poll hold_ms true low a.button in
      let up = poll_mono hold_ms low a.button in
      let on = polls_mono hold_ms lows b in
      let same : b.fired ≡ a.button.fired = omega (arith, h, up, on) in
      rw (quiet_poll low a same, app_polls)
        (quiet_polls lows more (record a { button = b }) (h ∙ sym same))

  no_table :
      (f : nvs.Flash)
      → nvs.open_readonly f ≡ nvs_not_found
      → prov_init nvs (record { table = zero_table; loaded = false; flash = f })
        ≡ (esp_ok, record { table = wiped_table; loaded = true; flash = f })
  unfolding prov_init load_table
  no_table f h = rw h refl

  no_berth :
      (addr : ℕ) (f : nvs.Flash)
      → lookup_berth nvs addr (record { table = wiped_table; loaded = true; flash = f }) ≡ none
  unfolding lookup_berth find_record
  no_berth addr f = ground arith

  -- A restart after a wipe finds no berth.
  wiped :
      (a : App nvs)
      → Erases nvs start
      → (after : App nvs) × (on_factory_reset nvs start a ≡ some after)
        × ((addr : ℕ) → lookup_berth nvs addr after.prov ≡ none)
        × (after.led ≡ led_idle)
  unfolding on_factory_reset app_main init_nvs factory_reset
  wiped a h =
      let x =
        if is_ok (nvs.open_readwrite a.prov.flash)
        then (nvs.commit (nvs.erase_namespace a.prov.flash)).1
        else a.prov.flash in
      let empty : State nvs = record {
        table = zero_table;
        loaded = false;
        flash = nvs.erase_flash x;
      } in
      let after : App nvs = record {
        button = button_start;
        led = led_idle;
        prov = (prov_init nvs empty).1;
      } in
      (
        after,
        rw (h.starts x) refl,
        λ addr.
            ap (λ r. lookup_berth nvs addr r.1) (no_table (nvs.erase_flash x) (h.empty x))
            ∙ no_berth addr (nvs.erase_flash x),
        refl,
      )

  fires_poll :
      (a : App nvs)
      → a.button.fired < (poll hold_ms true true a.button).fired
      → app_poll nvs start hold_ms true a ≡ on_factory_reset nvs start a
  unfolding app_poll
  fires_poll a h =
      let b = poll hold_ms true true a.button in
      let yes_fires : ltb a.button.fired b.fired ≡ true = ground (arith, h) in
      if_true (ltb a.button.fired b.fired) (on_factory_reset nvs start a)
        (some (record a { button = b })) yes_fires

  -- No poll calls the callback as long as no press is long enough.
  pressed :
      (lows : List Bool)
      → ¬ HeldFor (presses hold_ms) lows
      → (polls hold_ms true lows button_start).fired ≡ 0
  pressed lows short =
      let (once, long) = polls-HeldFor hold_ms lows in
      let never : (polls hold_ms true lows button_start).fired ≢ 1 = λ e. short (long.0 e) in
      omega (arith, once, never)

  -- A long press makes the device forget its nodes. On an erased flash the initialisation succeeds and
  -- the namespace is not found. From a start of the button's task, polls that hold no long enough
  -- press leave light and table as they are. If one more poll, of a pressed button, makes the press
  -- long enough, the device restarts, without an abort: the light is idle, and no address has a berth.
  pub press-forgets :
      (lows : List Bool) (a : App nvs)
      → Erases nvs start
      → ¬ HeldFor (presses hold_ms) lows
      → let fresh = record a { button = button_start } in
        (app_polls nvs start hold_ms lows fresh
          ≡ some (record a { button = polls hold_ms true lows button_start }))
        × (HeldFor (presses hold_ms) (lows ++ true ∷ [])
            → (after : App nvs) × (app_polls nvs start hold_ms (lows ++ true ∷ []) fresh
                ≡ some after)
              × ((addr : ℕ) → lookup_berth nvs addr after.prov ≡ none)
              × (after.led ≡ led_idle))
  press-forgets lows a h short =
      let fresh : App nvs = record a { button = button_start } in
      let b = polls hold_ms true lows button_start in
      let held : App nvs = record a { button = b } in
      let quiet = pressed lows short in
      let before = quiet_polls lows [] fresh quiet in
      (
        subst (λ l. app_polls nvs start hold_ms l fresh ≡ some held) (append-nil lows) before,
        λ long.
            let one = (polls-HeldFor hold_ms (lows ++ true ∷ [])).1.1 long in
            let last =
              sym (ap (λ b. b.fired) (polls-append hold_ms lows (true ∷ []) button_start)) ∙ one in
            let (after, restarts, forgets, idle) = wiped held h in
            let calls = quiet_polls lows (true ∷ []) fresh quiet in
            let fires = fires_poll held (omega (arith, quiet, last)) ∙ restarts in
            (after, calls ∙ rw (fires, app_polls) refl, forgets, idle),
      )
