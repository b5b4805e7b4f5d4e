-- ===== src/Radar/Frame/Bounds.antt =====
-- components/dp_radar/dp_radar.c: the parser stays inside its 64-byte buffer, and the loop ends.
use dockpulse_iot.Prelude.{ℕ, ◌+◌, ◌≤◌, ◌<◌, ◌≡◌, refl, List, [], ◌∷◌, arith, length, length-append}
use dockpulse_iot.Radar.Frame.{
  Rx, RxState, sync_hdr, read_len, read_body, Outcome, pending, got, rx_start, rx_step, on_sync,
  on_len, on_body, dispatch_byte, max_frame, then_feed, feed,
}

-- What holds of the filled part of the buffer in each state, between two bytes.
abbrev pub InBounds : RxState → Rx → Type 0
InBounds sync_hdr rx = rx.hdr_match < 4
InBounds read_len rx = (4 ≤ length rx.frame) × (length rx.frame < 6)
InBounds read_body rx =
    (6 ≤ length rx.frame)
    × (length rx.frame < 10 + rx.expected_body)
    × (3 ≤ rx.expected_body)
    × (rx.expected_body ≤ 54)

-- The next byte is written at index `length rx.frame` in the two states that write.
abbrev pub WritesInside : RxState → Rx → Type 0
WritesInside sync_hdr rx = rx.hdr_match < 4
WritesInside _ rx = length rx.frame < max_frame

abbrev pub PendingInBounds : Outcome → Type 0
PendingInBounds (pending rx) = InBounds rx.state rx
PendingInBounds (got s) = Unit {0}

on_sync-InBounds :
    (rx : Rx) (b : ℕ)
    → rx.state ≡ sync_hdr
    → rx.hdr_match < 4
    → InBounds (on_sync rx b).state (on_sync rx b)
unfolding on_sync
on_sync-InBounds rx b st h = ground arith

on_len-InBounds :
    (rx : Rx) (b : ℕ)
    → rx.state ≡ read_len
    → InBounds read_len rx
    → InBounds (on_len rx b).state (on_len rx b)
unfolding on_len
on_len-InBounds rx b st h = ground (arith, length-append rx.frame (b ∷ []))

on_body-InBounds :
    (rx : Rx) (b us : ℕ)
    → rx.state ≡ read_body
    → InBounds read_body rx
    → PendingInBounds (on_body rx b us)
unfolding on_body
on_body-InBounds rx b us st h = ground (arith, length-append rx.frame (b ∷ []))

dispatch-InBounds :
    (st : RxState) (rx : Rx) (b us : ℕ)
    → rx.state ≡ st
    → InBounds st rx
    → PendingInBounds (dispatch_byte st rx b us)
unfolding dispatch_byte
dispatch-InBounds sync_hdr rx b us e h = on_sync-InBounds rx b e h
dispatch-InBounds read_len rx b us e h = on_len-InBounds rx b e h
dispatch-InBounds read_body rx b us e h = on_body-InBounds rx b us e h

pub rx_step-InBounds :
    (rx : Rx) (b us : ℕ) → InBounds rx.state rx → PendingInBounds (rx_step rx b us)
unfolding rx_step
rx_step-InBounds rx b us h = dispatch-InBounds rx.state rx b us refl h

then_feed-InBounds :
    (o : Outcome) (again : Rx → Outcome)
    → PendingInBounds o
    → ((next : Rx) → InBounds next.state next → PendingInBounds (again next))
    → PendingInBounds (then_feed o again)
then_feed-InBounds (pending rx) again h k = k rx h
then_feed-InBounds (got s) again h k = tt

pub feed-InBounds :
    (rx : Rx) (bs : List ℕ) (us : ℕ) → InBounds rx.state rx → PendingInBounds (feed rx bs us)
unfolding feed
feed-InBounds rx [] us h = h
feed-InBounds rx (b ∷ bs) us h =
    then_feed-InBounds (rx_step rx b us) (λ next. feed next bs us) (rx_step-InBounds rx b us h)
      (λ next. feed-InBounds next bs us)

inside : (st : RxState) (rx : Rx) → InBounds st rx → WritesInside st rx
inside sync_hdr rx h = h
inside read_len rx h = omega arith
inside read_body rx h = omega arith

abbrev pub PendingWritesInside : Outcome → Type 0
PendingWritesInside (pending rx) = WritesInside rx.state rx
PendingWritesInside (got s) = Unit {0}

pending_inside : (o : Outcome) → PendingInBounds o → PendingWritesInside o
pending_inside (pending rx) h = inside rx.state rx h
pending_inside (got s) h = tt

-- After any bytes since the start of a read, a parser that still runs compares against one of the
-- four header bytes or writes its next byte inside the 64-byte frame buffer.
pub feed-WritesInside : (bs : List ℕ) (us : ℕ) → PendingWritesInside (feed rx_start bs us)
feed-WritesInside bs us =
    pending_inside (feed rx_start bs us) (feed-InBounds rx_start bs us (omega arith))
