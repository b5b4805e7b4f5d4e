-- ===== src/Radar/Frame/Ack.antt =====
-- components/dp_radar/dp_radar.c: `read_command_ack` and `dp_radar_enter_report_mode`.
use Prim.Native.Nat.{bit_or}
use dockpulse_iot.Prelude.{
  ℕ, ◌+◌, ◌-◌, ◌/◌, ◌%◌, ◌≤◌, ◌<◌, ◌≡◌, refl, ap, ◌∙◌, Bool, true, false, not, ◌||◌, List, [], ◌∷◌,
  ◌++◌, Option, none, some, arith, ltb, ◌==◌, if◌then◌else◌, length, length-append, append_assoc,
  append-nil, get_or, drop, drop-append_at, le16, u8, u32, str_eq, str_eq_refl,
}
use dockpulse_iot.Esp.{EspErr, esp_ok, esp_fail, timeout}
use dockpulse_iot.Radar.Frame.{
  Rx, RxState, sync_hdr, read_len, read_body, rx_start, max_frame, frame_body_len, Poll, expired,
}

abbrev pub cmd_hdr : List ℕ
cmd_hdr = 0xFD ∷ 0xFC ∷ 0xFB ∷ 0xFA ∷ []

abbrev pub cmd_tail : List ℕ
cmd_tail = 0x04 ∷ 0x03 ∷ 0x02 ∷ 0x01 ∷ []

abbrev pub cmd_enter_report_mode : List ℕ
cmd_enter_report_mode =
    cmd_hdr ++ (0x08 ∷ 0x00 ∷ 0x12 ∷ 0x00 ∷ 0x00 ∷ 0x00 ∷ 0x04 ∷ 0x00 ∷ 0x00 ∷ 0x00 ∷ cmd_tail)

pub data AckOutcome : Type 0 where
  waiting : Rx → AckOutcome
  done : EspErr → AckOutcome

-- `case SYNC_HDR`
unfoldable pub ack_sync : Rx → ℕ → Rx
ack_sync rx b =
    if b == get_or cmd_hdr rx.hdr_match 0
    then (if rx.hdr_match + 1 == 4
        then record rx { hdr_match = rx.hdr_match + 1; frame = cmd_hdr; state = read_len }
        else record rx { hdr_match = rx.hdr_match + 1 })
    else record rx { hdr_match = if b == get_or cmd_hdr 0 0 then 1 else 0 }

-- `case READ_LEN`
unfoldable pub ack_len : Rx → ℕ → AckOutcome
ack_len rx b =
    let grown = rx.frame ++ b ∷ [] in
    let n = frame_body_len grown in
    if length grown == 4 + 2
    then (if ltb n 2 || ltb max_frame (n + 4 + 2 + 4)
        then done esp_fail
        else waiting (record rx { frame = grown; expected_body = n; state = read_body }))
    else waiting (record rx { frame = grown })

-- `case READ_BODY`; the body starts at offset 6.
unfoldable pub ack_body : ℕ → Rx → ℕ → AckOutcome
ack_body want rx b =
    let grown = rx.frame ++ b ∷ [] in
    if length grown == 4 + 2 + rx.expected_body + 4
    then (if not (str_eq (drop (length grown - 4) grown) cmd_tail)
        then done esp_fail
        else (if not (le16 (get_or (drop 6 grown) 0 0) (get_or (drop 6 grown) 1 0) == want)
            then done esp_fail
            else done esp_ok))
    else waiting (record rx { frame = grown })

pub ack_dispatch : RxState → ℕ → Rx → ℕ → AckOutcome
ack_dispatch sync_hdr want rx b = waiting (ack_sync rx b)
ack_dispatch read_len want rx b = ack_len rx b
ack_dispatch read_body want rx b = ack_body want rx b

abbrev pub ack_round : Bool → Option ℕ → (ℕ → Option EspErr) → Option EspErr
ack_round true byte use_byte = some timeout
ack_round false none use_byte = some timeout
ack_round false (some b) use_byte = use_byte b

abbrev pub after_ack : AckOutcome → (Rx → Option EspErr) → Option EspErr
after_ack (waiting next) again = again next
after_ack (done e) again = some e

-- The loop of `read_command_ack`; `none` while the rounds given do not end it.
unfoldable pub ack_loop : ℕ → ℕ → Rx → List Poll → Option EspErr
ack_loop deadline want rx [] = none
ack_loop deadline want rx (p ∷ ps) =
    ack_round (expired deadline p.now) p.byte
      (λ b. after_ack (ack_dispatch rx.state want rx b) (λ next. ack_loop deadline want next ps))

-- `read_command_ack`: the command, the tick count at the call, the timeout, the rounds.
unfoldable pub read_command_ack : ℕ → ℕ → ℕ → List Poll → Option EspErr
unfolding ack_loop
read_command_ack req_cmd start wait ps =
    ack_loop (u32 (start + wait)) (bit_or req_cmd 0x0100) rx_start ps

-- `dp_radar_enter_report_mode`: the count that `uart_write_bytes` returned, the tick count after the
-- bytes are out, the rounds of the acknowledgement. 500 ms are 50 ticks at the 100 Hz of the build.
unfoldable pub enter_report_mode : ℕ → ℕ → ℕ → List Poll → Option EspErr
unfolding read_command_ack
enter_report_mode written start ticks_500ms ps =
    if not (written == length cmd_enter_report_mode)
    then some esp_fail
    else read_command_ack 0x0012 start ticks_500ms ps

-- An acknowledgement: header, length, body, tail.
abbrev pub ack_head : List ℕ → List ℕ
ack_head body = cmd_hdr ++ (length body % 256) ∷ u8 (length body / 256) ∷ []

-- The rounds are before the deadline and bring these bytes.
abbrev pub Brings : ℕ → List Poll → List ℕ → Type 0
Brings deadline [] [] = Unit
Brings deadline [] (b ∷ bs) = ⊥
Brings deadline (p ∷ ps) [] = ⊥
Brings deadline (p ∷ ps) (b ∷ bs) =
    (expired deadline p.now ≡ false) × (p.byte ≡ some b) × Brings deadline ps bs

abbrev ack_at : RxState → List ℕ → ℕ → ℕ → Rx
ack_at st frame m n = record { state = st; frame = frame; hdr_match = m; expected_body = n }

abbrev then_ack : AckOutcome → (Rx → AckOutcome) → AckOutcome
then_ack (waiting next) again = again next
then_ack (done e) again = done e

-- The bytes alone, without the deadline.
ack_feed : ℕ → Rx → List ℕ → AckOutcome
ack_feed want rx [] = waiting rx
ack_feed want rx (b ∷ bs) =
    then_ack (ack_dispatch rx.state want rx b) (λ next. ack_feed want next bs)

then_ack-waiting :
    (o : AckOutcome) (again : Rx → AckOutcome) (next : Rx)
    → then_ack o again ≡ waiting next
    → (mid : Rx) × (o ≡ waiting mid) × (again mid ≡ waiting next)
then_ack-waiting (waiting mid) again next h = (mid, refl, h)
then_ack-waiting (done e) again next h = cc

loop-ack_feed :
    (deadline want : ℕ) (rx next : Rx) (ps qs : List Poll) (bs : List ℕ)
    → Brings deadline ps bs
    → ack_feed want rx bs ≡ waiting next
    → ack_loop deadline want rx (ps ++ qs) ≡ ack_loop deadline want next qs
unfolding ack_feed ack_loop
loop-ack_feed deadline want rx next [] qs [] live h =
    let same : rx ≡ next = cc in ap (λ r. ack_loop deadline want r qs) same
loop-ack_feed deadline want rx next [] qs (b ∷ bs) live h = absurd live
loop-ack_feed deadline want rx next (p ∷ ps) qs [] live h = absurd live
loop-ack_feed deadline want rx next (p ∷ ps) qs (b ∷ bs) live h =
    let (mid, e, more) = then_ack-waiting _ (λ r. ack_feed want r bs) next h in
    rw (live.0, live.1, e) (loop-ack_feed deadline want mid next ps qs bs live.2 more)

body_waits :
    (want : ℕ) (frame : List ℕ) (b m n : ℕ)
    → length frame + 1 < 10 + n
    → ack_body want (ack_at read_body frame m n) b
      ≡ waiting (ack_at read_body (frame ++ b ∷ []) m n)
unfolding ack_body
body_waits want frame b m n h = ground (arith, length-append frame (b ∷ []))

feed_ack_body :
    (want : ℕ) (frame bytes : List ℕ) (m n : ℕ)
    → length frame + length bytes < 10 + n
    → ack_feed want (ack_at read_body frame m n) bytes
      ≡ waiting (ack_at read_body (frame ++ bytes) m n)
unfolding ack_feed ack_dispatch
feed_ack_body want frame [] m n h = rw append-nil
feed_ack_body want frame (b ∷ bytes) m n h = rw (body_waits want frame b m n (omega arith)) (
    feed_ack_body want (frame ++ b ∷ []) bytes m n (omega (arith, length-append frame (b ∷ [])))
    ∙ ap (λ f. waiting (ack_at read_body f m n)) (append_assoc frame (b ∷ []) bytes))

feed_ack_head :
    (want len : ℕ) (rest : List ℕ)
    → 2 ≤ len
    → len ≤ 54
    → ack_feed want rx_start (cmd_hdr ++ (len % 256) ∷ u8 (len / 256) ∷ rest)
      ≡ ack_feed want (ack_at read_body (cmd_hdr ++ (len % 256) ∷ u8 (len / 256) ∷ []) 4 len) rest
unfolding ack_feed ack_dispatch ack_sync ack_len
feed_ack_head want len rest lo hi = ground arith

abbrev short_cmd_tail : List ℕ
short_cmd_tail = 0x04 ∷ 0x03 ∷ 0x02 ∷ []

-- An acknowledgement but its last byte.
abbrev pub ack_but_last : List ℕ → List ℕ
ack_but_last body = ack_head body ++ (body ++ short_cmd_tail)

-- The command word of a body, and the answer that it gets.
abbrev pub ack_answer : ℕ → List ℕ → EspErr
ack_answer want body = if le16 (get_or body 0 0) (get_or body 1 0) == want then esp_ok else esp_fail

last_ack_byte :
    (want : ℕ) (body : List ℕ) (m : ℕ)
    → 2 ≤ length body
    → ack_body want (ack_at read_body (ack_but_last body) m (length body)) 0x01
      ≡ done (ack_answer want body)
unfolding ack_body
last_ack_byte want [] m h = absurd (omega arith)
last_ack_byte want (a ∷ []) m h = absurd (omega arith)
last_ack_byte want (a ∷ b ∷ e) m h = rw (append_assoc e short_cmd_tail (0x01 ∷ [])) (
    ground (
      arith,
      length-append e cmd_tail,
      drop-append_at (ack_head (a ∷ b ∷ e) ++ (a ∷ b ∷ e)) cmd_tail
          (length (ack_head (a ∷ b ∷ e) ++ (a ∷ b ∷ (e ++ cmd_tail))) - 4)
          (omega (arith, length-append e cmd_tail)),
      str_eq_refl cmd_tail,
    ))

-- An acknowledgement with a body of 2 to 54 bytes that arrives, before the deadline, as the first
-- bytes after the command, ends the wait: with success when its command word is the command with the
-- response bit, and with a failure when it is another.
pub read_command_ack_frame :
    (req_cmd start wait : ℕ) (body : List ℕ) (ps qs : List Poll) (p : Poll)
    → 2 ≤ length body
    → length body ≤ 54
    → Brings (u32 (start + wait)) ps (ack_but_last body)
    → Brings (u32 (start + wait)) (p ∷ []) (0x01 ∷ [])
    → read_command_ack req_cmd start wait (ps ++ p ∷ qs)
      ≡ some (ack_answer (bit_or req_cmd 0x0100) body)
unfolding read_command_ack ack_loop ack_dispatch
read_command_ack_frame req_cmd start wait body ps qs p lo hi live last =
    let deadline = u32 (start + wait) in
    let want = bit_or req_cmd 0x0100 in
    let locked = ack_at read_body (ack_but_last body) 4 (length body) in
    let tail = body ++ short_cmd_tail in
    loop-ack_feed deadline want rx_start locked ps (p ∷ qs) (ack_but_last body) live (
      feed_ack_head want (length body) tail lo hi
      ∙ feed_ack_body want (ack_head body) tail 4 (length body)
          (omega (arith, length-append body short_cmd_tail)))
    ∙ rw (last.0, last.1, last_ack_byte want body 4 lo)
