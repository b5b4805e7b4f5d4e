-- ===== src/Radar/Frame/Deadline.antt =====
-- components/dp_radar/dp_radar.c: when `dp_radar_read` returns, by the ticks that have passed since the
-- call.
use dockpulse_iot.Prelude.{
  ℕ, ◌+◌, ◌≤◌, ◌<◌, ◌≡◌, ◌≢◌, refl, ◌⊎◌, inl, inr, Bool, true, false, List, [], ◌∷◌, Option, none,
  some, arith, leb, ◌==◌, ◌||◌, map, u32, sub32, ◌-◌,
}
use dockpulse_iot.Esp.{esp_ok, timeout}
use dockpulse_iot.Radar.Frame.{
  Rx, rx_start, Outcome, pending, got, rx_step, Poll, expired, ReadResult, round, after_step,
  read_loop, radar_read,
}

-- A round by the ticks that have passed since the call, the byte, and the microsecond clock.
pub record Elapsed : Type 0 where
  pub ticks : ℕ
  pub byte : Option ℕ
  pub us : ℕ

-- The round on the tick counter, which had the value `start` at the call and wraps around.
abbrev pub round_at : ℕ → Elapsed → Poll
round_at start t = record { now = u32 (start + t.ticks); byte = t.byte; us = t.us }

-- No round is 2 ^ 31 ticks or more behind the deadline.
abbrev pub Timely : ℕ → List Elapsed → Type 0
Timely wait [] = Unit
Timely wait (t ∷ ts) = (t.ticks < wait + 2147483648) × Timely wait ts

-- Some round begins when the time is up, or brings no byte.
abbrev pub RunsOut : ℕ → List Elapsed → Type 0
RunsOut wait [] = ⊥
RunsOut wait (t ∷ ts) = (wait ≤ t.ticks) ⊎ ((t.byte ≡ none) ⊎ RunsOut wait ts)

-- The read has returned: a time-out with nothing written, or success with a sample.
abbrev pub Returned : ReadResult → Type 0
Returned none = ⊥
Returned (some (e, s)) = ((e ≡ timeout) × (s ≡ none)) ⊎ ((e ≡ esp_ok) × (s ≢ none))

round-Returned :
    (late : Bool) (byte : Option ℕ) (use_byte : ℕ → ReadResult)
    → ((b : ℕ) → Returned (use_byte b))
    → Returned (round late byte use_byte)
round-Returned true byte use_byte h = inl (refl, refl)
round-Returned false none use_byte h = inl (refl, refl)
round-Returned false (some b) use_byte h = h b

sub32_before :
    (start wait ticks : ℕ)
    → wait < 2147483648
    → ticks < wait
    → sub32 (u32 (start + wait)) (u32 (start + ticks)) ≡ wait - ticks
sub32_before start wait ticks hw ht = omega arith

sub32_after :
    (start wait ticks : ℕ)
    → wait ≤ ticks
    → ticks < wait + 2147483648
    → 0 < sub32 (u32 (start + wait)) (u32 (start + ticks))
    → 2147483648 ≤ sub32 (u32 (start + wait)) (u32 (start + ticks))
sub32_after start wait ticks hw ht some_ticks = omega arith

late_test : (d : ℕ) → (0 < d → 2147483648 ≤ d) → (d == 0 || leb 2147483648 d) ≡ true
late_test d h = ground arith

-- The comparison of the wrapped counters tells whether the time is up.
before_deadline :
    (start wait ticks : ℕ)
    → wait < 2147483648
    → ticks < wait
    → expired (u32 (start + wait)) (u32 (start + ticks)) ≡ false
before_deadline start wait ticks hw ht =
    let d = sub32_before start wait ticks hw ht in rw d (ground arith)

past_deadline :
    (start wait ticks : ℕ)
    → wait ≤ ticks
    → ticks < wait + 2147483648
    → expired (u32 (start + wait)) (u32 (start + ticks)) ≡ true
past_deadline start wait ticks hw ht =
    late_test (sub32 (u32 (start + wait)) (u32 (start + ticks)))
      (sub32_after start wait ticks hw ht)

-- The time-out of a read, with nothing written.
abbrev pub TimesOut : ReadResult → Type 0
TimesOut r = r ≡ some (timeout, none)

-- What the loop does on rounds given by their ticks.
abbrev Behaves : ℕ → List Elapsed → ReadResult → Type 0
Behaves wait ts r = (RunsOut wait ts → Returned r) × (TimesOut r → RunsOut wait ts)

round-Behaves :
    (wait : ℕ) (late : Bool) (byte : Option ℕ) (use_byte : ℕ → ReadResult) (t : Elapsed)
    (ts : List Elapsed)
    → t.byte ≡ byte
    → (wait ≤ t.ticks → late ≡ true)
    → (t.ticks < wait → late ≡ false)
    → ((b : ℕ) → Behaves wait ts (use_byte b))
    → Behaves wait (t ∷ ts) (round late byte use_byte)
round-Behaves wait true byte use_byte t ts e up early h =
    let over : wait ≤ t.ticks = ground (arith, early) in
    (λ out. inl (refl, refl), λ tells. inl over)
round-Behaves wait false none use_byte t ts e up early h =
    (λ out. inl (refl, refl), λ tells. inr (inl e))
round-Behaves wait false (some b) use_byte t ts e up early h = (
  λ out. elim out [
    | inl over ↦ absurd (cc (up over))
    | inr (inl silent) ↦ absurd (cc (e, silent))
    | inr (inr later) ↦ (h b).0 later
  ],
  λ tells. inr (inr ((h b).1 tells)),
)

step-Behaves :
    (wait : ℕ) (ts : List Elapsed) (o : Outcome) (again : Rx → ReadResult)
    → ((next : Rx) → Behaves wait ts (again next))
    → Behaves wait ts (after_step o again)
step-Behaves wait ts (pending next) again h = h next
step-Behaves wait ts (got s) again h = (λ out. inr (refl, λ e. cc), λ tells. absurd (cc tells))

loop-Behaves :
    (start wait : ℕ) (rx : Rx) (ts : List Elapsed)
    → wait < 2147483648
    → Timely wait ts
    → Behaves wait ts (read_loop (u32 (start + wait)) rx (map (round_at start) ts))
unfolding read_loop
loop-Behaves start wait rx [] hw h = (λ out. out, λ tells. cc)
loop-Behaves start wait rx (t ∷ ts) hw (near, rest) =
    round-Behaves wait (expired (u32 (start + wait)) (u32 (start + t.ticks))) t.byte _ t ts refl
      (λ up. past_deadline start wait t.ticks up near)
      (λ early. before_deadline start wait t.ticks hw early)
      (λ b.
        step-Behaves wait ts (rx_step rx b t.us) _
          (λ next. loop-Behaves start wait next ts hw rest))

-- A read ends when its time is up, and not before. With a wait of less than 2 ^ 31 ticks and no round
-- that is 2 ^ 31 ticks or more behind the deadline, whatever the tick counter was at the call, wraps
-- included: if some round begins after the wait or later, or brings no byte, then the read has
-- returned, with a time-out and nothing written or with success and a sample; and if it returns with
-- the time-out, there was such a round.
pub radar_read_ends :
    (start wait : ℕ) (ts : List Elapsed)
    → wait < 2147483648
    → Timely wait ts
    → let r = radar_read true start wait (map (round_at start) ts) in
      (RunsOut wait ts → Returned r) × (r ≡ some (timeout, none) → RunsOut wait ts)
unfolding radar_read
radar_read_ends start wait ts hw h = loop-Behaves start wait rx_start ts hw h
