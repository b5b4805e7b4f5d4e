-- ===== src/Radar/Fake.antt =====
-- components/dp_radar/dp_radar.c: the fake radar of a build with `CONFIG_DOCKPULSE_RADAR_FAKE`.
use dockpulse_iot.Prelude.{
  ℕ, ◌+◌, ◌*◌, ◌/◌, ◌%◌, Bool, true, false, Option, none, some, ltb, if◌then◌else◌, u16, u32, set,
  replicate,
}
use dockpulse_iot.Codec.Messages.{RadarSample, gate_count, gate_cm}
use dockpulse_iot.Esp.{EspErr, esp_ok, invalid_arg}

-- The distance of a step of the cycle.
abbrev pub fake_distance : ℕ → ℕ
fake_distance counter = u16 (200 + counter % 30 * 20)

-- `dp_radar_read`: is `out` a pointer, `s_counter`, the microsecond clock; the result, the counter
-- after the call and the sample written.
unfoldable pub fake_read : Bool → ℕ → ℕ → EspErr × ℕ × Option RadarSample
fake_read false counter us = (invalid_arg, counter, none)
fake_read true counter us =
    let distance = fake_distance counter in
    let zeros = replicate gate_count 0 in
    let gate = distance / gate_cm in
    (
      esp_ok,
      u32 (counter + 1),
      some (record {
        presence = ltb 100 distance;
        distance_cm = distance;
        target_state = 1;
        ts_ms = u32 (us / 1000);
        gate_energy = if ltb gate gate_count then set zeros gate 0x4000 else zeros;
      }),
    )
