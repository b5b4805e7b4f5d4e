-- ===== src/Codec/Messages.antt =====
-- components/dp_common/include/dp_common.h: the samples and messages, and their ranges.
use dockpulse_iot.Prelude.{ℕ, ◌<◌, ◌≡◌, ◌*◌, ◌+◌, Bool, List, length, All}

abbrev pub gate_count : ℕ
gate_count = 16

abbrev pub gate_cm : ℕ
gate_cm = 70

abbrev pub battery_unknown : ℕ
battery_unknown = 0xFF

abbrev pub status_wire_len : ℕ
status_wire_len = 11

abbrev pub diag_wire_len : ℕ
diag_wire_len = 1 + 2 + 1 + 2 + 2 * gate_count + 4

-- `dp_radar_sample_t`
pub record RadarSample : Type 0 where
  pub presence : Bool
  pub distance_cm : ℕ
  pub target_state : ℕ
  pub ts_ms : ℕ
  pub gate_energy : List ℕ

-- `berth_status_t`
pub record BerthStatus : Type 0 where
  pub node_id : ℕ
  pub berth_id : ℕ
  pub occupied : Bool
  pub sensor_raw_mm : ℕ
  pub battery_pct : ℕ
  pub ts_ms : ℕ

-- `berth_diag_t`
pub record BerthDiag : Type 0 where
  pub node_id : ℕ
  pub berth_id : ℕ
  pub target_state : ℕ
  pub raw_distance_cm : ℕ
  pub gate_energy : List ℕ
  pub ts_ms : ℕ

abbrev pub IsByte : ℕ → Type 0
IsByte b = b < 256

abbrev pub IsU16 : ℕ → Type 0
IsU16 x = x < 65536

-- The fields fit the C types.
pub record StatusInRange (s : BerthStatus) : Type 0 where
  pub node_id : s.node_id < 256
  pub berth_id : s.berth_id < 65536
  pub sensor_raw_mm : s.sensor_raw_mm < 65536
  pub battery_pct : s.battery_pct < 256
  pub ts_ms : s.ts_ms < 4294967296

pub record DiagInRange (d : BerthDiag) : Type 0 where
  pub node_id : d.node_id < 256
  pub berth_id : d.berth_id < 65536
  pub target_state : d.target_state < 256
  pub raw_distance_cm : d.raw_distance_cm < 65536
  pub gates : All IsU16 d.gate_energy
  pub gate_total : length d.gate_energy ≡ gate_count
  pub ts_ms : d.ts_ms < 4294967296
