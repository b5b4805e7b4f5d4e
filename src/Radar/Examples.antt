-- ===== src/Radar/Examples.antt =====
-- Runs of components/dp_radar on concrete bytes and samples.
use dockpulse_iot.Prelude.{
  ℕ, ◌≡◌, refl, ◌↔◌, true, List, [], ◌∷◌, ◌++◌, none, some, map, arith, replicate, str_eq,
}
use dockpulse_iot.Esp.{esp_ok, timeout}
use dockpulse_iot.Codec.Messages.{RadarSample}
use dockpulse_iot.Radar.Filter.{
  FilterConfig, EndsNear, filter_near, streak_after, filter_near-EndsNear,
}
use dockpulse_iot.Radar.Frame.{
  rx_start, report_tail, Poll, pending, got, feed, rx_step, dispatch_byte, on_sync, on_len, on_body,
  radar_read, decode_body,
}
use dockpulse_iot.Radar.Frame.Bounds.{PendingWritesInside, feed-WritesInside}
use dockpulse_iot.Radar.Frame.Deadline.{Elapsed, round_at, RunsOut, Returned, radar_read_ends}
use dockpulse_iot.Radar.Frame.Complete.{Live, frame_but_last, report_frame, radar_read_frame}
use dockpulse_iot.Radar.Frame.Sound.{EndsInFrame, feed_got-EndsInFrame}
use dockpulse_iot.Radar.Frame.Ack.{Brings, ack_but_last, read_command_ack, read_command_ack_frame}

abbrev boat_at : ℕ → RadarSample
boat_at cm = record {
  presence = true;
  distance_cm = cm;
  target_state = 1;
  ts_ms = 0;
  gate_energy = replicate 16 0;
}

abbrev three_frames : FilterConfig
three_frames = record { prox_cm = 250; prox_frames = 3 }

filter_near-EndsNear_example :
    ((filter_near three_frames
        (streak_after three_frames 0 (boat_at 900 ∷ boat_at 250 ∷ boat_at 100 ∷ []))
        (some (boat_at 90))).1
      ≡ true)
    ↔ EndsNear three_frames 3 (boat_at 900 ∷ boat_at 250 ∷ boat_at 100 ∷ boat_at 90 ∷ [])
filter_near-EndsNear_example =
    filter_near-EndsNear three_frames (boat_at 900 ∷ boat_at 250 ∷ boat_at 100 ∷ []) (boat_at 90)
      (record { cm = omega arith; frames = omega arith })

abbrev near_body : List ℕ
near_body = 0x01 ∷ 0xE6 ∷ 0x00 ∷ []

abbrev poll : ℕ → Poll
poll b = record { now = 10; byte = some b; us = 5000 }

abbrev silent : Poll
silent = record { now = 20; byte = none; us = 9000 }

polls-Live : (bs : List ℕ) → Live 100 (map poll bs) bs
polls-Live [] = tt
polls-Live (b ∷ bs) = (refl, refl, polls-Live bs)

feed-WritesInside_example :
    PendingWritesInside (feed rx_start (0xF4 ∷ 0xF3 ∷ 0xF2 ∷ 0xF1 ∷ 0x36 ∷ 0x00 ∷ 0x01 ∷ []) 5000)
feed-WritesInside_example =
    feed-WritesInside (0xF4 ∷ 0xF3 ∷ 0xF2 ∷ 0xF1 ∷ 0x36 ∷ 0x00 ∷ 0x01 ∷ []) 5000

-- The tick counter wraps during the read, and the third round is late.
abbrev wrapping : List Elapsed
wrapping =
    record { ticks = 3; byte = some 0xF4; us = 5000 }
    ∷ record { ticks = 40; byte = some 0xF3; us = 5100 }
    ∷ record { ticks = 100; byte = some 0xF2; us = 5200 }
    ∷ []

radar_read_ends_example :
    let r = radar_read true 4294967290 100 (map (round_at 4294967290) wrapping) in
    (RunsOut 100 wrapping → Returned r) × (r ≡ some (timeout, none) → RunsOut 100 wrapping)
radar_read_ends_example =
    radar_read_ends 4294967290 100 wrapping (omega arith)
      (omega arith, (omega arith, (omega arith, tt)))

noise_lost : feed rx_start (0x00 ∷ []) 5000 ≡ pending rx_start
unfolding feed rx_step dispatch_byte on_sync
noise_lost = refl

radar_read_frame_example :
    radar_read true 0 100 (map poll (0x00 ∷ frame_but_last near_body) ++ poll 0xF5 ∷ [])
    ≡ some (esp_ok, some (decode_body near_body 3 5000))
radar_read_frame_example =
    radar_read_frame 0 100 5000 (0x00 ∷ []) near_body rx_start
      (map poll (0x00 ∷ frame_but_last near_body)) [] (poll 0xF5) noise_lost refl (omega arith)
      (omega arith) (polls-Live (0x00 ∷ frame_but_last near_body)) (polls-Live (0xF5 ∷ []))

abbrev near_sample : RadarSample
near_sample = decode_body (near_body ++ report_tail) 3 5000

near_frame_read : feed rx_start (report_frame near_body) 5000 ≡ got near_sample
unfolding feed rx_step dispatch_byte on_sync on_len on_body str_eq
near_frame_read = refl

feed_got-EndsInFrame_example :
    (used : List ℕ) × (rest : List ℕ) × (report_frame near_body ≡ used ++ rest)
    × EndsInFrame used near_sample 5000
feed_got-EndsInFrame_example =
    feed_got-EndsInFrame (report_frame near_body) 5000 near_sample near_frame_read

brought : (bs : List ℕ) → Brings 50 (map poll bs) bs
brought [] = tt
brought (b ∷ bs) = (refl, refl, brought bs)

abbrev ack_of_enter : List ℕ
ack_of_enter = 0x12 ∷ 0x01 ∷ 0x00 ∷ 0x00 ∷ []

read_command_ack_frame_example :
    read_command_ack 0x12 0 50 (map poll (ack_but_last ack_of_enter) ++ poll 0x01 ∷ [])
    ≡ some esp_ok
read_command_ack_frame_example =
    read_command_ack_frame 0x12 0 50 ack_of_enter (map poll (ack_but_last ack_of_enter)) []
      (poll 0x01) (omega arith) (omega arith) (brought (ack_but_last ack_of_enter))
      (brought (0x01 ∷ []))
