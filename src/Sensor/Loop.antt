-- ===== src/Sensor/Loop.antt =====
-- main/sensor_main.c: the conversions and the loop of `dp_sensor_run`.
use dockpulse_iot.Prelude.{
  ℕ, suc, ◌+◌, ◌*◌, ◌/◌, ◌%◌, ◌<◌, ◌≡◌, ◌↔◌, refl, sym, ap, ◌∙◌, Bool, true, false, ◌||◌, List, [],
  ◌∷◌, ◌++◌, Option, none, some, arith, leb, ◌==◌, if◌then◌else◌, u16, sub32, subst, All, length,
}
use dockpulse_iot.Codec.Messages.{RadarSample, BerthStatus, BerthDiag}
use dockpulse_iot.Radar.Filter.{
  FilterConfig, ConfigInRange, filter_near, streak_after, EndsNear, filter_near-EndsNear,
}

-- `to_status`, with the battery's reading
unfoldable pub to_status : RadarSample → Bool → ℕ → ℕ → ℕ → BerthStatus
to_status s occupied node_id berth_id battery = record {
  node_id = node_id;
  berth_id = berth_id;
  occupied = occupied;
  sensor_raw_mm = u16 (s.distance_cm * 10);
  battery_pct = battery;
  ts_ms = s.ts_ms;
}

-- `to_diag`
unfoldable pub to_diag : RadarSample → ℕ → ℕ → BerthDiag
to_diag s node_id berth_id = record {
  node_id = node_id;
  berth_id = berth_id;
  target_state = s.target_state;
  raw_distance_cm = s.distance_cm;
  gate_energy = s.gate_energy;
  ts_ms = s.ts_ms;
}

-- What the loop does to its surroundings.
pub data Act : Type 0 where
  enter_report_mode : Act
  berth_led : Bool → Act
  publish_status : BerthStatus → Act
  publish_diag : BerthDiag → Act

-- The build: the filter, the node, the publication interval in ticks, `CONFIG_DOCKPULSE_DIAG_ENABLE`.
pub record LoopConfig : Type 0 where
  pub filter : FilterConfig
  pub node_id : ℕ
  pub publish_interval : ℕ
  pub diag_enable : Bool

-- The locals of the loop, `s_prox_streak`, and the actions, newest first.
pub record LoopState : Type 0 where
  pub streak : ℕ
  pub consecutive_failures : ℕ
  pub last_publish : ℕ
  pub acts : List Act

abbrev pub loop_start : LoopState
loop_start = record { streak = 0; consecutive_failures = 0; last_publish = 0; acts = [] }

-- One round: the sample of the radar (none if the read fails), the tick count, the battery.
pub record Round : Type 0 where
  pub sample : Option RadarSample
  pub now : ℕ
  pub battery : ℕ

abbrev pub recovery_threshold : ℕ
recovery_threshold = 10

-- The branch of a failed read.
unfoldable pub on_failure : LoopState → LoopState
on_failure s =
    let failures = s.consecutive_failures + 1 in
    if failures == recovery_threshold
    then record s { consecutive_failures = 0; acts = enter_report_mode ∷ s.acts }
    else record s { consecutive_failures = failures }

abbrev pub add_diag : Bool → BerthDiag → List Act → List Act
add_diag true d acts = publish_diag d ∷ acts
add_diag false d acts = acts

-- The branch of a sample.
unfoldable pub on_sample : LoopConfig → RadarSample → ℕ → ℕ → LoopState → LoopState
on_sample c sample now battery s =
    let (streak, near) = filter_near c.filter s.streak (some sample) in
    let shown = record s {
      streak = streak;
      consecutive_failures = 0;
      acts = berth_led near ∷ s.acts;
    } in
    let status = to_status sample near c.node_id c.node_id battery in
    let diag = to_diag sample c.node_id c.node_id in
    let published = record shown {
      last_publish = now;
      acts = add_diag c.diag_enable diag (publish_status status ∷ shown.acts);
    } in
    if s.last_publish == 0 || leb c.publish_interval (sub32 now s.last_publish)
    then published
    else shown

abbrev pub on_read : LoopConfig → Option RadarSample → ℕ → ℕ → LoopState → LoopState
on_read c none now battery s = on_failure s
on_read c (some sample) now battery s = on_sample c sample now battery s

-- The loop on a list of rounds.
unfoldable pub sensor_loop : LoopConfig → List Round → LoopState → LoopState
sensor_loop c [] s = s
sensor_loop c (r ∷ rs) s = sensor_loop c rs (on_read c r.sample r.now r.battery s)

-- The samples of the rounds, oldest first.
abbrev pub samples : List Round → List RadarSample
samples [] = []
samples (r ∷ rs) = elim r.sample [ none ↦ samples rs | some s ↦ s ∷ samples rs ]

-- What the berth's light and the newest published status say.
abbrev pub last_led : List Act → Option Bool
last_led [] = none
last_led (berth_led b ∷ acts) = some b
last_led (_ ∷ acts) = last_led acts

abbrev pub report_modes : List Act → ℕ
report_modes [] = 0
report_modes (enter_report_mode ∷ acts) = suc (report_modes acts)
report_modes (_ ∷ acts) = report_modes acts

failure_keeps : (s : LoopState) → (on_failure s).streak ≡ s.streak
unfolding on_failure
failure_keeps s = ground arith

sample_streak :
    (c : LoopConfig) (sample : RadarSample) (now battery : ℕ) (s : LoopState)
    → let after = on_sample c sample now battery s in
      let (streak, near) = filter_near c.filter s.streak (some sample) in
      (after.streak ≡ streak) × (last_led after.acts ≡ some near) × (after.consecutive_failures ≡ 0)
unfolding on_sample
sample_streak c sample now battery s = ground arith

read_streak :
    (c : LoopConfig) (sample : Option RadarSample) (now battery : ℕ) (rs : List Round)
    (s : LoopState)
    → streak_after c.filter (on_read c sample now battery s).streak (samples rs)
      ≡ streak_after c.filter s.streak (elim sample [ none ↦ samples rs | some x ↦ x ∷ samples rs ])
unfolding streak_after
read_streak c none now battery rs s =
    ap (λ n. streak_after c.filter n (samples rs)) (failure_keeps s)
read_streak c (some x) now battery rs s =
    ap (λ n. streak_after c.filter n (samples rs)) (sample_streak c x now battery s).0

-- A failed read does not count for the filter.
loop_streak :
    (c : LoopConfig) (rs : List Round) (s : LoopState)
    → (sensor_loop c rs s).streak ≡ streak_after c.filter s.streak (samples rs)
unfolding sensor_loop streak_after
loop_streak c [] s = refl
loop_streak c (r ∷ rs) s =
    loop_streak c rs (on_read c r.sample r.now r.battery s)
    ∙ read_streak c r.sample r.now r.battery rs s

loop-append :
    (c : LoopConfig) (rs qs : List Round) (s : LoopState)
    → sensor_loop c (rs ++ qs) s ≡ sensor_loop c qs (sensor_loop c rs s)
unfolding sensor_loop
loop-append c [] qs s = refl
loop-append c (r ∷ rs) qs s = loop-append c rs qs (on_read c r.sample r.now r.battery s)

-- With the filter's configuration in its ranges, the light of the berth after a round that has a
-- sample, whatever rounds came before it since the start of the loop, shows occupied exactly when the
-- last `prox_frames` samples read are near, failed reads between them left out.
pub sensor_loop-EndsNear :
    (c : LoopConfig) (rs : List Round) (s : RadarSample) (now battery : ℕ)
    → ConfigInRange c.filter
    → let last : Round = record { sample = some s; now = now; battery = battery } in
      let after = sensor_loop c (rs ++ last ∷ []) loop_start in
      (occupied : Bool) × (last_led after.acts ≡ some occupied)
      × ((occupied ≡ true) ↔ EndsNear c.filter c.filter.prox_frames (samples rs ++ s ∷ []))
unfolding sensor_loop
sensor_loop-EndsNear c rs s now battery h =
    let last : Round = record { sample = some s; now = now; battery = battery } in
    let before = sensor_loop c rs loop_start in
    let near = (filter_near c.filter before.streak (some s)).1 in
    let shown : last_led (sensor_loop c (rs ++ last ∷ []) loop_start).acts ≡ some near =
      ap (λ (x : LoopState). last_led x.acts) (loop-append c rs (last ∷ []) loop_start)
      ∙ (sample_streak c s now battery before).1 in
    let same : before.streak ≡ streak_after c.filter 0 (samples rs) = loop_streak c rs loop_start in
    (
      near,
      shown,
      subst
          (λ k.
            ((filter_near c.filter k (some s)).1 ≡ true)
            ↔ EndsNear c.filter c.filter.prox_frames (samples rs ++ s ∷ []))
          (sym same) (filter_near-EndsNear c.filter (samples rs) s h),
    )

-- A round whose read fails.
abbrev pub IsFailure : Round → Type 0
IsFailure r = r.sample ≡ none

failure_counts :
    (s : LoopState)
    → s.consecutive_failures < 10
    → let after = on_failure s in
      (after.consecutive_failures < 10)
      × (10 * report_modes after.acts + after.consecutive_failures
          ≡ 10 * report_modes s.acts + s.consecutive_failures + 1)
unfolding on_failure
failure_counts s h = ground arith

read_failure :
    (c : LoopConfig) (o : Option RadarSample) (now battery : ℕ) (s : LoopState)
    → o ≡ none
    → on_read c o now battery s ≡ on_failure s
read_failure c none now battery s e = refl
read_failure c (some x) now battery s e = cc

failure_total :
    (c : LoopConfig) (rs : List Round) (s : LoopState)
    → All IsFailure rs
    → s.consecutive_failures < 10
    → let after = sensor_loop c rs s in
      (after.consecutive_failures < 10)
      × (10 * report_modes after.acts + after.consecutive_failures
          ≡ 10 * report_modes s.acts + s.consecutive_failures + length rs)
unfolding sensor_loop
failure_total c [] s all h = (h, omega arith)
failure_total c (r ∷ rs) s all h =
    let (small, total) = failure_counts s h in
    let (small', total') = failure_total c rs (on_failure s) all.1 small in
    subst
      (λ next.
        let after = sensor_loop c rs next in
        (after.consecutive_failures < 10)
        × (10 * report_modes after.acts + after.consecutive_failures
            ≡ 10 * report_modes s.acts + s.consecutive_failures + length (r ∷ rs)))
      (sym (read_failure c r.sample r.now r.battery s all.0)) (small', omega (arith, total, total'))

-- The recovery of the radar: after n failed reads in a row, from a state in which fewer than ten
-- failures are counted, the count is still below ten, and the mode change has been sent once for
-- every ten failures counted.
pub sensor_loop_recovers :
    (c : LoopConfig) (rs : List Round) (s : LoopState)
    → All IsFailure rs
    → s.consecutive_failures < 10
    → let after = sensor_loop c rs s in
      let counted = s.consecutive_failures + length rs in
      (after.consecutive_failures ≡ counted % 10)
      × (report_modes after.acts ≡ report_modes s.acts + counted / 10)
sensor_loop_recovers c rs s all h =
    let (small, total) = failure_total c rs s all h in (omega (arith, total), omega (arith, total))
