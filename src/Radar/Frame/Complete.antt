-- ===== src/Radar/Frame/Complete.antt =====
-- components/dp_radar/dp_radar.c: a well-formed report frame is recognised and decoded.
use dockpulse_iot.Prelude.{
  ℕ, zero, suc, ◌+◌, ◌*◌, ◌/◌, ◌%◌, ◌≤◌, ◌<◌, ◌≡◌, refl, sym, ap, ◌∙◌, true, false, List, [], ◌∷◌,
  ◌++◌, some, arith, ◌==◌, length, length-append, append_assoc, append-nil, get_or, drop,
  drop-append_at, ◌-◌, u8, u32, str_eq_refl, get_or-append_left,
}
use dockpulse_iot.Esp.{esp_ok}
use dockpulse_iot.Radar.Frame.{
  Rx, RxState, sync_hdr, read_len, read_body, Outcome, pending, got, rx_start, rx_step, on_sync,
  on_len, on_body, dispatch_byte, Poll, then_feed, expired, read_loop, radar_read, feed, report_hdr,
  report_tail, decode_body, read_gates,
}
use dockpulse_iot.Radar.Frame.Bounds.{InBounds, PendingInBounds, feed-InBounds}

-- A report frame: header, length, body, tail.
abbrev pub report_head : List ℕ → List ℕ
report_head body = report_hdr ++ (length body % 256) ∷ u8 (length body / 256) ∷ []

abbrev pub report_frame : List ℕ → List ℕ
report_frame body = report_head body ++ (body ++ report_tail)

-- Decoding does not look behind the body.
read_gates-append :
    (n i : ℕ) (e rest : List ℕ)
    → 2 * (i + n) ≤ length e
    → read_gates n (e ++ rest) i ≡ read_gates n e i
unfolding read_gates
read_gates-append zero i e rest h = refl
read_gates-append (suc n) i e rest h = rw (
  get_or-append_left e rest (2 * i) 0 (omega arith),
  get_or-append_left e rest (2 * i + 1) 0 (omega arith),
  read_gates-append n (i + 1) e rest (omega arith),
)

decode_body-append :
    (body rest : List ℕ) (us : ℕ)
    → 3 ≤ length body
    → decode_body (body ++ rest) (length body) us ≡ decode_body body (length body) us
unfolding decode_body
decode_body-append [] rest us h = absurd (omega arith)
decode_body-append (a ∷ []) rest us h = absurd (omega arith)
decode_body-append (a ∷ b ∷ []) rest us h = absurd (omega arith)
decode_body-append (a ∷ b ∷ c ∷ e) rest us h = ground (arith, read_gates-append 16 0 e rest)

-- The first header byte starts a match from anywhere in the search.
only_first : (m : ℕ) → m < 4 → (0xF4 == get_or report_hdr m 0) ≡ (m == 0)
only_first zero h = refl
only_first (suc zero) h = refl
only_first (suc (suc zero)) h = refl
only_first (suc (suc (suc zero))) h = refl
only_first (suc (suc (suc (suc m)))) h = absurd (omega arith)

first_byte : (rx : Rx) → rx.hdr_match < 4 → on_sync rx 0xF4 ≡ record rx { hdr_match = 1 }
unfolding on_sync
first_byte rx h = ground (arith, only_first rx.hdr_match h)

-- The parser in the search.
abbrev searching : List ℕ → ℕ → ℕ → Rx
searching frame m n = record { state = sync_hdr; frame = frame; hdr_match = m; expected_body = n }

abbrev in_len : List ℕ → ℕ → ℕ → Rx
in_len frame m n = record { state = read_len; frame = frame; hdr_match = m; expected_body = n }

abbrev in_body : List ℕ → ℕ → ℕ → Rx
in_body frame m n = record { state = read_body; frame = frame; hdr_match = m; expected_body = n }

feed_header :
    (frame rest : List ℕ) (m n us : ℕ)
    → m < 4
    → feed (searching frame m n) (report_hdr ++ rest) us ≡ feed (in_len report_hdr 4 n) rest us
unfolding feed rx_step on_sync
feed_header frame rest m n us h = ground (arith, only_first m h)

feed_length :
    (rest : List ℕ) (m n len us : ℕ)
    → 3 ≤ len
    → len ≤ 54
    → feed (in_len report_hdr m n) (len % 256 ∷ u8 (len / 256) ∷ rest) us
      ≡ feed (in_body (report_hdr ++ (len % 256) ∷ u8 (len / 256) ∷ []) m len) rest us
unfolding feed rx_step on_len
feed_length rest m n len us lo hi = ground arith

body_byte :
    (frame : List ℕ) (b m n us : ℕ)
    → length frame + 1 < 10 + n
    → on_body (in_body frame m n) b us ≡ pending (in_body (frame ++ b ∷ []) m n)
unfolding on_body
body_byte frame b m n us h = ground (arith, length-append frame (b ∷ []))

feed_body :
    (frame bytes rest : List ℕ) (m n us : ℕ)
    → length frame + length bytes < 10 + n
    → feed (in_body frame m n) (bytes ++ rest) us ≡ feed (in_body (frame ++ bytes) m n) rest us
unfolding feed rx_step
feed_body frame [] rest m n us h = rw append-nil
feed_body frame (b ∷ bytes) rest m n us h = rw (body_byte frame b m n us (omega arith)) (
    feed_body (frame ++ b ∷ []) bytes rest m n us (omega (arith, length-append frame (b ∷ [])))
    ∙ ap (λ f. feed (in_body f m n) rest us) (append_assoc frame (b ∷ []) bytes))

abbrev short_tail : List ℕ
short_tail = 0xF8 ∷ 0xF7 ∷ 0xF6 ∷ []

-- The frame but its last byte, in the bracketing of the buffer.
abbrev pub frame_but_last : List ℕ → List ℕ
frame_but_last body = report_head body ++ (body ++ short_tail)

length-frame_but_last : (body : List ℕ) → length (frame_but_last body) ≡ 9 + length body
length-frame_but_last body = omega (arith, length-append body short_tail)

whole :
    (body : List ℕ) → frame_but_last body ++ 0xF5 ∷ [] ≡ report_head body ++ (body ++ report_tail)
whole body = ap (λ l. report_head body ++ l) (append_assoc body short_tail (0xF5 ∷ []))

drop_to_tail :
    (body : List ℕ) (k : ℕ)
    → k ≡ 6 + length body
    → drop k (report_head body ++ (body ++ report_tail)) ≡ report_tail
drop_to_tail body k e = drop-append_at (report_head body ++ body) report_tail k (omega arith)

last_byte :
    (body : List ℕ) (m us : ℕ)
    → 3 ≤ length body
    → on_body (in_body (frame_but_last body) m (length body)) 0xF5 us
      ≡ got (decode_body body (length body) us)
unfolding on_body
last_byte body m us h =
    let tail = body ++ report_tail in
    rw (append_assoc body short_tail (0xF5 ∷ [])) (
      ground (
        arith,
        length-append body report_tail,
        drop_to_tail body (length (report_head body ++ tail) - 4)
            (omega (arith, length-append body report_tail)),
        str_eq_refl report_tail,
        decode_body-append body report_tail us h,
      ))

feed_frame :
    (frame body : List ℕ) (m n us : ℕ)
    → m < 4
    → 3 ≤ length body
    → length body ≤ 54
    → feed (searching frame m n) (frame_but_last body) us
      ≡ pending (in_body (frame_but_last body) 4 (length body))
feed_frame frame body m n us hm lo hi =
    let len = length body in
    let head = report_head body in
    feed_header frame (len % 256 ∷ u8 (len / 256) ∷ (body ++ short_tail)) m n us hm
    ∙ feed_length (body ++ short_tail) 4 n len us lo hi
    ∙ ap (λ l. feed (in_body head 4 len) l us) (sym (append-nil (body ++ short_tail)))
    ∙ feed_body head (body ++ short_tail) [] 4 len us (omega (arith, length-append body short_tail))
    ∙ unfold feed in refl

-- A byte that does not complete a frame does the same whatever the clock says.
step_pending :
    (rx next : Rx) (b us us' : ℕ) → rx_step rx b us ≡ pending next → rx_step rx b us' ≡ pending next
unfolding rx_step on_body
step_pending rx next b us us' h = go rx.state h
  where
    go :
        (st : RxState)
        → dispatch_byte st rx b us ≡ pending next
        → dispatch_byte st rx b us' ≡ pending next
    go sync_hdr e = e
    go read_len e = e
    go read_body e = ground arith

-- The rounds are before the deadline and bring these bytes.
abbrev pub Live : ℕ → List Poll → List ℕ → Type 0
Live deadline [] [] = Unit
Live deadline [] (b ∷ bs) = ⊥
Live deadline (p ∷ ps) [] = ⊥
Live deadline (p ∷ ps) (b ∷ bs) =
    (expired deadline p.now ≡ false) × (p.byte ≡ some b) × Live deadline ps bs

then_feed-pending :
    (o : Outcome) (again : Rx → Outcome) (next : Rx)
    → then_feed o again ≡ pending next
    → (mid : Rx) × (o ≡ pending mid) × (again mid ≡ pending next)
then_feed-pending (pending mid) again next h = (mid, refl, h)
then_feed-pending (got s) again next h = cc

-- While the bytes complete no frame, the loop runs on to where the bytes lead.
loop-feed :
    (deadline us : ℕ) (rx next : Rx) (ps qs : List Poll) (bs : List ℕ)
    → Live deadline ps bs
    → feed rx bs us ≡ pending next
    → read_loop deadline rx (ps ++ qs) ≡ read_loop deadline next qs
unfolding feed read_loop
loop-feed deadline us rx next [] qs [] live h =
    let same : rx ≡ next = cc in ap (λ r. read_loop deadline r qs) same
loop-feed deadline us rx next [] qs (b ∷ bs) live h = absurd live
loop-feed deadline us rx next (p ∷ ps) qs [] live h = absurd live
loop-feed deadline us rx next (p ∷ ps) qs (b ∷ bs) live h =
    let (mid, e, more) = then_feed-pending (rx_step rx b us) (λ r. feed r bs us) next h in
    rw (live.0, live.1, step_pending rx mid b us p.us e)
      (loop-feed deadline us mid next ps qs bs live.2 more)

feed-append :
    (rx mid : Rx) (xs ys : List ℕ) (us : ℕ)
    → feed rx xs us ≡ pending mid
    → feed rx (xs ++ ys) us ≡ feed mid ys us
unfolding feed
feed-append rx mid [] ys us h = let same : rx ≡ mid = cc in ap (λ r. feed r ys us) same
feed-append rx mid (x ∷ xs) ys us h =
    let (next, e, more) = then_feed-pending (rx_step rx x us) (λ r. feed r xs us) mid h in
    rw e (feed-append next mid xs ys us more)

search_match : (st : RxState) (rx : Rx) → st ≡ sync_hdr → InBounds st rx → rx.hdr_match < 4
search_match sync_hdr rx e h = h
search_match read_len rx e h = cc
search_match read_body rx e h = cc

noise_then_frame :
    (noise body : List ℕ) (rx : Rx) (us : ℕ)
    → feed rx_start noise us ≡ pending rx
    → rx.state ≡ sync_hdr
    → 3 ≤ length body
    → length body ≤ 54
    → feed rx_start (noise ++ frame_but_last body) us
      ≡ pending (in_body (frame_but_last body) 4 (length body))
noise_then_frame noise body rx us h st lo hi =
    let bounds : PendingInBounds (pending rx) =
      rw h at (feed-InBounds rx_start noise us (omega arith)) in
    let open_search : rx ≡ searching rx.frame rx.hdr_match rx.expected_body =
      λ i. record rx { state = st i } in
    feed-append rx_start rx noise (frame_but_last body) us h
    ∙ ap (λ r. feed r (frame_but_last body) us) open_search
    ∙ feed_frame rx.frame body rx.hdr_match rx.expected_body us (search_match rx.state rx st bounds)
        lo hi

-- A frame with a body of 3 to 54 bytes, whose bytes arrive in rounds before the deadline behind any
-- noise after which the parser still searches for a header, ends the read with success and with the
-- sample that its body encodes, stamped with the clock of the round of its last byte.
pub radar_read_frame :
    (start wait us : ℕ) (noise body : List ℕ) (rx : Rx) (ps qs : List Poll) (p : Poll)
    → feed rx_start noise us ≡ pending rx
    → rx.state ≡ sync_hdr
    → 3 ≤ length body
    → length body ≤ 54
    → Live (u32 (start + wait)) ps (noise ++ frame_but_last body)
    → Live (u32 (start + wait)) (p ∷ []) (0xF5 ∷ [])
    → radar_read true start wait (ps ++ p ∷ qs)
      ≡ some (esp_ok, some (decode_body body (length body) p.us))
unfolding radar_read read_loop rx_step
radar_read_frame start wait us noise body rx ps qs p h st lo hi live last =
    let deadline = u32 (start + wait) in
    let locked = in_body (frame_but_last body) 4 (length body) in
    loop-feed deadline us rx_start locked ps (p ∷ qs) (noise ++ frame_but_last body) live
      (noise_then_frame noise body rx us h st lo hi)
    ∙ rw (last.0, last.1, last_byte body 4 p.us lo) refl
