-- ===== src/Radar/Frame.antt =====
-- components/dp_radar/dp_radar.c: the parser of the radar's report frames, and the reader of command
-- acknowledgements. The UART and the clocks are inputs: a `Poll` is what one round of the loop sees.
pub mod Bounds
pub mod Deadline
pub mod Sound
pub mod Complete
pub mod Ack
use dockpulse_iot.Prelude.{
  ℕ, zero, suc, ◌+◌, ◌-◌, ◌*◌, ◌/◌, ◌≡◌, Bool, true, false, not, ◌&&◌, ◌||◌, List, [], ◌∷◌, ◌++◌,
  Option, none, some, ltb, leb, ◌==◌, if◌then◌else◌, length, get_or, drop, replicate, le16, u32,
  sub32, str_eq,
}
use dockpulse_iot.Codec.Messages.{RadarSample, gate_count}
use dockpulse_iot.Esp.{EspErr, esp_ok, timeout, invalid_arg}

abbrev pub max_frame : ℕ
max_frame = 64

abbrev pub report_hdr : List ℕ
report_hdr = 0xF4 ∷ 0xF3 ∷ 0xF2 ∷ 0xF1 ∷ []

abbrev pub report_tail : List ℕ
report_tail = 0xF8 ∷ 0xF7 ∷ 0xF6 ∷ 0xF5 ∷ []

pub data RxState : Type 0 where
  sync_hdr read_len read_body : RxState

-- The locals of `dp_radar_read`: `frame` is the filled part of the buffer, so `frame_len` is its
-- length.
pub record Rx : Type 0 where
  pub state : RxState
  pub frame : List ℕ
  pub hdr_match : ℕ
  pub expected_body : ℕ

abbrev pub rx_start : Rx
rx_start = record { state = sync_hdr; frame = []; hdr_match = 0; expected_body = 0 }

-- What one byte leads to: another round, or a filled sample.
pub data Outcome : Type 0 where
  pending : Rx → Outcome
  got : RadarSample → Outcome

-- The loop over the gates: rounds left, the bytes from `body[3]` on, `i`.
pub read_gates : ℕ → List ℕ → ℕ → List ℕ
read_gates zero e i = []
read_gates (suc n) e i = le16 (get_or e (2 * i) 0) (get_or e (2 * i + 1) 0) ∷ read_gates n e (i + 1)

-- The sample of a complete frame body; `us` is the value of `esp_timer_get_time`.
pub decode_body : List ℕ → ℕ → ℕ → RadarSample
decode_body body expected_body us = record {
  presence = not (get_or body 0 0 == 0);
  distance_cm = le16 (get_or body 1 0) (get_or body 2 0);
  target_state = get_or body 0 0;
  ts_ms = u32 (us / 1000);
  gate_energy =
      if leb (3 + 2 * gate_count) expected_body
      then read_gates gate_count (drop 3 body) 0
      else replicate gate_count 0;
}

-- `state = SYNC_HDR; hdr_match = 0; frame_len = 0;`
abbrev pub resync : Rx → Rx
resync rx = record rx { state = sync_hdr; hdr_match = 0; frame = [] }

-- `case SYNC_HDR`
unfoldable pub on_sync : Rx → ℕ → Rx
on_sync rx b =
    if b == get_or report_hdr rx.hdr_match 0
    then (if rx.hdr_match + 1 == 4
        then record rx { hdr_match = rx.hdr_match + 1; frame = report_hdr; state = read_len }
        else record rx { hdr_match = rx.hdr_match + 1 })
    else record rx { hdr_match = if b == get_or report_hdr 0 0 then 1 else 0 }

-- `expected_body`, once its two bytes are in the frame.
abbrev pub frame_body_len : List ℕ → ℕ
frame_body_len frame = le16 (get_or frame 4 0) (get_or frame 5 0)

-- `case READ_LEN`
unfoldable pub on_len : Rx → ℕ → Rx
on_len rx b =
    let grown = rx.frame ++ b ∷ [] in
    let n = frame_body_len grown in
    let next = record rx { frame = grown; expected_body = n } in
    if length grown == 4 + 2
    then (if ltb n 3 || ltb max_frame (n + 4 + 2 + 4)
        then resync next
        else record next { state = read_body })
    else record rx { frame = grown }

-- `case READ_BODY`
unfoldable pub on_body : Rx → ℕ → ℕ → Outcome
on_body rx b us =
    let grown = rx.frame ++ b ∷ [] in
    if length grown == 4 + 2 + rx.expected_body + 4
    then (if str_eq (drop (length grown - 4) grown) report_tail
        then got (decode_body (drop 6 grown) rx.expected_body us)
        else pending (resync (record rx { frame = grown })))
    else pending (record rx { frame = grown })

-- The `switch` of `dp_radar_read`.
unfoldable pub dispatch_byte : RxState → Rx → ℕ → ℕ → Outcome
dispatch_byte sync_hdr rx b us = pending (on_sync rx b)
dispatch_byte read_len rx b us = pending (on_len rx b)
dispatch_byte read_body rx b us = on_body rx b us

unfoldable pub rx_step : Rx → ℕ → ℕ → Outcome
unfolding dispatch_byte
rx_step rx b us = dispatch_byte rx.state rx b us

-- One round: the tick count, the byte that `uart_read_bytes` gave (none if it gave no byte in
-- time), and the microsecond clock.
pub record Poll : Type 0 where
  pub now : ℕ
  pub byte : Option ℕ
  pub us : ℕ

-- `(int32_t)(deadline - now) <= 0`
abbrev pub expired : ℕ → ℕ → Bool
expired deadline now = sub32 deadline now == 0 || leb 2147483648 (sub32 deadline now)

abbrev pub ReadResult : Type 0
ReadResult = Option (EspErr × Option RadarSample)

-- The two early returns of a round, before the byte is looked at.
abbrev pub round : Bool → Option ℕ → (ℕ → ReadResult) → ReadResult
round true byte use_byte = some (timeout, none)
round false none use_byte = some (timeout, none)
round false (some b) use_byte = use_byte b

abbrev pub after_step : Outcome → (Rx → ReadResult) → ReadResult
after_step (pending next) again = again next
after_step (got s) again = some (esp_ok, some s)

-- The loop of `dp_radar_read`; `none` while the rounds given do not end it.
unfoldable pub read_loop : ℕ → Rx → List Poll → ReadResult
read_loop deadline rx [] = none
read_loop deadline rx (p ∷ ps) =
    round (expired deadline p.now) p.byte
      (λ b. after_step (rx_step rx b p.us) (λ next. read_loop deadline next ps))

-- `dp_radar_read`: is `out` a pointer, the tick count at the call, the timeout, the rounds. The
-- sample is what was written behind `out`.
unfoldable pub radar_read : Bool → ℕ → ℕ → List Poll → ReadResult
unfolding read_loop
radar_read false start wait ps = some (invalid_arg, none)
radar_read true start wait ps = read_loop (u32 (start + wait)) rx_start ps

abbrev pub then_feed : Outcome → (Rx → Outcome) → Outcome
then_feed (pending next) again = again next
then_feed (got s) again = got s

-- The bytes alone, without the deadline, at one reading of the microsecond clock.
unfoldable pub feed : Rx → List ℕ → ℕ → Outcome
feed rx [] us = pending rx
feed rx (b ∷ bs) us = then_feed (rx_step rx b us) (λ next. feed next bs us)
