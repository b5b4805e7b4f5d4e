-- ===== src/Radar/Filter.antt =====
-- components/dp_radar/dp_radar_filter.c: the berth is occupied after enough near frames in a row.
use dockpulse_iot.Prelude.{
  ℕ, ◌+◌, ◌≤◌, ◌<◌, ◌≡◌, refl, ap, ◌↔◌, ◌⊎◌, Bool, true, false, not, ◌&&◌, ◌||◌, List, [], ◌∷◌,
  ◌++◌, Option, none, some, arith, ltb, leb, ◌==◌, if◌then◌else◌, length, u8, min, Bool-cases, inl,
  inr, All,
}
use dockpulse_iot.Codec.Messages.{RadarSample}

-- `CONFIG_DOCKPULSE_PROXIMITY_CM` and `CONFIG_DOCKPULSE_PROXIMITY_STABILITY_FRAMES`.
pub record FilterConfig : Type 0 where
  pub prox_cm : ℕ
  pub prox_frames : ℕ

-- The ranges that main/Kconfig.projbuild allows.
pub record ConfigInRange (c : FilterConfig) : Type 0 where
  pub cm : (1 ≤ c.prox_cm) × (c.prox_cm ≤ 1000)
  pub frames : (1 ≤ c.prox_frames) × (c.prox_frames ≤ 16)

-- The negation of the guard of `dp_radar_filter_near`.
pub out_of_range : FilterConfig → RadarSample → Bool
out_of_range c s = not s.presence || s.distance_cm == 0 || ltb c.prox_cm s.distance_cm

-- `dp_radar_filter_near`: from `s_prox_streak`, an `uint8_t`, to its new value and the result.
unfoldable pub filter_near : FilterConfig → ℕ → Option RadarSample → ℕ × Bool
filter_near c streak none = (0, false)
filter_near c streak (some s) =
    let bumped = if ltb streak c.prox_frames then u8 (streak + 1) else streak in
    if out_of_range c s then (0, false) else (bumped, leb c.prox_frames bumped)

-- The streak after the calls on a list of samples, oldest first.
unfoldable pub streak_after : FilterConfig → ℕ → List RadarSample → ℕ
streak_after c streak [] = streak
streak_after c streak (s ∷ ss) = streak_after c (filter_near c streak (some s)).0 ss

-- A sample in front of the sensor: present, at a distance that is not 0, and inside the threshold.
pub record IsNear (c : FilterConfig) (s : RadarSample) : Type 0 where
  pub present : s.presence ≡ true
  pub measured : 0 < s.distance_cm
  pub inside : s.distance_cm ≤ c.prox_cm

near_accepted : (c : FilterConfig) (s : RadarSample) → IsNear c s → out_of_range c s ≡ false
unfolding out_of_range
near_accepted c s n = ground arith

accepted-IsNear : (c : FilterConfig) (s : RadarSample) → out_of_range c s ≡ false → IsNear c s
unfolding out_of_range
accepted-IsNear c s h = ground arith

-- How many samples at the end of the list are near, counted from `n` near ones before it.
abbrev pub near_run : FilterConfig → ℕ → List RadarSample → ℕ
near_run c n [] = n
near_run c n (s ∷ ss) = near_run c (if out_of_range c s then 0 else n + 1) ss

filter_near_lem :
    (c : FilterConfig) (n : ℕ) (s : RadarSample)
    → c.prox_frames < 256
    → let run = if out_of_range c s then 0 else n + 1 in
      ((filter_near c (min n c.prox_frames) (some s)).0 ≡ min run c.prox_frames)
      × ((filter_near c (min n c.prox_frames) (some s)).1
          ≡ (not (out_of_range c s) && leb c.prox_frames run))
unfolding filter_near
filter_near_lem c n s h = ground arith

streak-eq-run :
    (c : FilterConfig) (n : ℕ) (ss : List RadarSample)
    → c.prox_frames < 256
    → streak_after c (min n c.prox_frames) ss ≡ min (near_run c n ss) c.prox_frames
unfolding streak_after
streak-eq-run c n [] h = refl
streak-eq-run c n (s ∷ ss) h =
    rw ((filter_near_lem c n s h).0) (streak-eq-run c (if out_of_range c s then 0 else n + 1) ss h)

near_run-append :
    (c : FilterConfig) (n : ℕ) (xs ys : List RadarSample)
    → near_run c n (xs ++ ys) ≡ near_run c (near_run c n xs) ys
near_run-append c n [] ys = refl
near_run-append c n (x ∷ xs) ys = near_run-append c (if out_of_range c x then 0 else n + 1) xs ys

near_run-All :
    (c : FilterConfig) (n : ℕ) (ss : List RadarSample)
    → All (IsNear c) ss
    → near_run c n ss ≡ n + length ss
near_run-All c n [] h = omega arith
near_run-All c n (s ∷ ss) h =
    rw (near_accepted c s h.0) (omega (arith, near_run-All c (n + 1) ss h.1))

-- The list ends in `k` near samples.
abbrev pub EndsNear : FilterConfig → ℕ → List RadarSample → Type 0
EndsNear c k ss =
    (before : List RadarSample) × (last : List RadarSample) × (ss ≡ before ++ last)
    × (length last ≡ k)
    × All (IsNear c) last

EndsNear-cons :
    (c : FilterConfig) (k : ℕ) (s : RadarSample) (ss : List RadarSample)
    → EndsNear c k ss
    → EndsNear c k (s ∷ ss)
EndsNear-cons c k s ss (before, last, e, n, h) = (s ∷ before, last, ap (λ l. s ∷ l) e, n, h)

EndsNear-of_All :
    (c : FilterConfig) (k : ℕ) (ss : List RadarSample)
    → All (IsNear c) ss
    → k ≤ length ss
    → EndsNear c k ss
EndsNear-of_All c k [] h le = ([], [], refl, omega arith, tt)
EndsNear-of_All c k (s ∷ ss) h le = elim (Bool-cases (leb k (length ss))) [
  | inl shorter ↦ EndsNear-cons c k s ss (EndsNear-of_All c k ss h.1 (ground arith))
  | inr whole ↦ ([], s ∷ ss, refl, ground arith, h)
]

run_shape :
    (c : FilterConfig) (k n : ℕ) (ss : List RadarSample)
    → k ≤ near_run c n ss
    → EndsNear c k ss ⊎ (All (IsNear c) ss × (k ≤ n + length ss))
run_shape c k n [] le = inr (tt, omega arith)
run_shape c k n (s ∷ ss) le = elim (Bool-cases (out_of_range c s)) [
  | inl far ↦ elim (run_shape c k 0 ss (rw far at le)) [
    | inl ends ↦ inl (EndsNear-cons c k s ss ends)
    | inr all ↦ inl (EndsNear-cons c k s ss (EndsNear-of_All c k ss all.0 (omega arith)))
  ]
  | inr near ↦ elim (run_shape c k (n + 1) ss (rw near at le)) [
    | inl ends ↦ inl (EndsNear-cons c k s ss ends)
    | inr all ↦ inr ((accepted-IsNear c s near, all.0), omega arith)
  ]
]

EndsNear-of_run :
    (c : FilterConfig) (k : ℕ) (ss : List RadarSample) → k ≤ near_run c 0 ss → EndsNear c k ss
EndsNear-of_run c k ss le = elim (run_shape c k 0 ss le) [
  | inl ends ↦ ends
  | inr all ↦ EndsNear-of_All c k ss all.0 (omega arith)
]

run_of_EndsNear :
    (c : FilterConfig) (k : ℕ) (ss : List RadarSample) → EndsNear c k ss → k ≤ near_run c 0 ss
run_of_EndsNear c k ss (before, last, e, n, h) =
    rw (e, near_run-append c 0 before last, near_run-All c (near_run c 0 before) last h)
      (omega arith)

accepted_iff_run :
    (c : FilterConfig) (ss : List RadarSample) (s : RadarSample)
    → ConfigInRange c
    → ((filter_near c (streak_after c 0 ss) (some s)).1 ≡ true)
      ↔ (c.prox_frames ≤ near_run c 0 (ss ++ s ∷ []))
accepted_iff_run c ss s r =
    let streak = streak-eq-run c 0 ss (omega arith) in
    let zero_min : min 0 c.prox_frames ≡ 0 = omega arith in
    let run = near_run c 0 ss in
    let step = filter_near_lem c run s (omega arith) in
    let start : streak_after c 0 ss ≡ min run c.prox_frames = rw zero_min at streak in
    rw (near_run-append c 0 ss (s ∷ []), start, step.1) (ground arith)

-- With the configuration in its Kconfig ranges, the filter, called on a list of samples since boot,
-- answers true on the last one exactly when the last `prox_frames` samples are all near: present, at
-- a measured distance, and inside the threshold.
pub filter_near-EndsNear :
    (c : FilterConfig) (ss : List RadarSample) (s : RadarSample)
    → ConfigInRange c
    → ((filter_near c (streak_after c 0 ss) (some s)).1 ≡ true)
      ↔ EndsNear c c.prox_frames (ss ++ s ∷ [])
filter_near-EndsNear c ss s r = (
  λ h. EndsNear-of_run c c.prox_frames (ss ++ s ∷ []) ((accepted_iff_run c ss s r).0 h),
  λ e. (accepted_iff_run c ss s r).1 (run_of_EndsNear c c.prox_frames (ss ++ s ∷ []) e),
)
