-- ===== src/Codec/Examples.antt =====
-- Runs of the codec of components/dp_common on concrete messages.
use dockpulse_iot.Prelude.{
  ℕ, ◌≡◌, refl, ◌⊎◌, ◌≢◌, true, List, [], ◌∷◌, some, arith, replicate, length, drop,
}
use dockpulse_iot.Esp.{esp_ok, invalid_size}
use dockpulse_iot.Codec.Messages.{BerthStatus, BerthDiag, battery_unknown}
use dockpulse_iot.Codec.Status.{
  berth_status_pack, berth_status_unpack, status_bytes, unpack-pack, pack_frame,
}
use dockpulse_iot.Codec.Diag.{berth_diag_pack, berth_diag_unpack, unpack-pack_diag}

abbrev parked : BerthStatus
parked = record {
  node_id = 2;
  berth_id = 258;
  occupied = true;
  sensor_raw_mm = 2000;
  battery_pct = battery_unknown;
  ts_ms = 16909060;
}

abbrev parked_diag : BerthDiag
parked_diag = record {
  node_id = 2;
  berth_id = 2;
  target_state = 1;
  raw_distance_cm = 230;
  gate_energy = 0 ∷ 0 ∷ 0 ∷ 16384 ∷ replicate 12 0;
  ts_ms = 70000;
}

parked_bytes : status_bytes parked ≡ 2 ∷ 2 ∷ 1 ∷ 1 ∷ 208 ∷ 7 ∷ 255 ∷ 4 ∷ 3 ∷ 2 ∷ 1 ∷ []
unfolding status_bytes
parked_bytes = refl

unpack_short : berth_status_unpack (some (1 ∷ 2 ∷ [])) 2 (some parked) ≡ (invalid_size, some parked)
unfolding berth_status_unpack
unpack_short = refl

unpack-pack_example :
    let (e, out, n) = berth_status_pack (some parked) (some (replicate 14 9)) 14 (some 0) in
    (e ≡ esp_ok)
    × (n ≡ some 11)
    × (berth_status_unpack out 14 (some parked) ≡ (esp_ok, some parked))
unpack-pack_example =
    unpack-pack parked parked (replicate 14 9) 14 14 (omega arith) (omega arith) (omega arith)

pack_frame_example :
    let (e, out, len) = berth_status_pack (some parked) (some (replicate 14 9)) 14 (some 0) in
    ((e ≡ esp_ok)
      × (len ≡ some 11)
      × ((after : List ℕ) × (out ≡ some after)
          × (length after ≡ 14)
          × (drop 11 after ≡ 9 ∷ 9 ∷ 9 ∷ [])))
    ⊎ ((e ≢ esp_ok) × (out ≡ some (replicate 14 9)) × (len ≡ some 0))
pack_frame_example = pack_frame (some parked) (replicate 14 9) 14 0 (omega arith)

unpack-pack_diag_example :
    let (e, out, n) = berth_diag_pack (some parked_diag) (some (replicate 42 0)) 42 (some 0) in
    (e ≡ esp_ok)
    × (n ≡ some 42)
    × (berth_diag_unpack out 42 (some parked_diag) ≡ (esp_ok, some parked_diag))
unpack-pack_diag_example =
    unpack-pack_diag parked_diag parked_diag (replicate 42 0) 42 42 (omega arith) (omega arith)
      (omega arith)
