-- ===== src/Radar/Frame/Sound.antt =====
-- components/dp_radar/dp_radar.c: a sample comes only from a well-formed frame among the bytes.
use dockpulse_iot.Prelude.{
  ℕ, zero, suc, ◌+◌, ◌-◌, ◌≤◌, ◌<◌, ◌≡◌, refl, sym, ap, ◌∙◌, subst, inl, inr, List, [], ◌∷◌, ◌++◌,
  arith, Bool-cases, ◌==◌, ==_iff, ltb, ◌||◌, length, append_assoc, append-nil, get_or, take, drop,
  str_eq, str_eq_sound,
}
use dockpulse_iot.Codec.Messages.{RadarSample}
use dockpulse_iot.Radar.Frame.{
  Rx, RxState, sync_hdr, read_len, read_body, Outcome, pending, got, rx_start, rx_step, on_sync,
  on_len, on_body, dispatch_byte, max_frame, then_feed, feed, report_hdr, report_tail, decode_body,
  frame_body_len,
}
use dockpulse_iot.Radar.Frame.Bounds.{InBounds, PendingInBounds, rx_step-InBounds}

-- What the parser holds, in each state, is what ends the bytes read so far.
abbrev Tracks : RxState → List ℕ → Rx → Type 0
Tracks sync_hdr seen rx = (before : List ℕ) × (seen ≡ before ++ take rx.hdr_match report_hdr)
Tracks read_len seen rx =
    (before : List ℕ) × (seen ≡ before ++ rx.frame) × (take 4 rx.frame ≡ report_hdr)
Tracks read_body seen rx =
    (before : List ℕ) × (seen ≡ before ++ rx.frame)
    × (take 4 rx.frame ≡ report_hdr)
    × (frame_body_len rx.frame ≡ rx.expected_body)

-- The bytes end in a frame with the header, a body length in range, as many bytes as that says, and
-- the tail; the sample is what its body encodes.
abbrev pub EndsInFrame : List ℕ → RadarSample → ℕ → Type 0
EndsInFrame seen s us =
    (before : List ℕ) × (frame : List ℕ) × (seen ≡ before ++ frame)
    × (take 4 frame ≡ report_hdr)
    × (length frame ≡ 10 + frame_body_len frame)
    × (3 ≤ frame_body_len frame)
    × (frame_body_len frame ≤ 54)
    × (drop (length frame - 4) frame ≡ report_tail)
    × (s ≡ decode_body (drop 6 frame) (frame_body_len frame) us)

abbrev OutcomeTracks : List ℕ → ℕ → Outcome → Type 0
OutcomeTracks seen us (pending rx) = Tracks rx.state seen rx
OutcomeTracks seen us (got s) = EndsInFrame seen s us

grow_match :
    (m b : ℕ)
    → m < 4
    → b ≡ get_or report_hdr m 0
    → take m report_hdr ++ b ∷ [] ≡ take (m + 1) report_hdr
grow_match zero b h e = cc
grow_match (suc zero) b h e = cc
grow_match (suc (suc zero)) b h e = cc
grow_match (suc (suc (suc zero))) b h e = cc
grow_match (suc (suc (suc (suc m)))) b h e = absurd (omega arith)

take_four : (f : List ℕ) (b : ℕ) → 4 ≤ length f → take 4 (f ++ b ∷ []) ≡ take 4 f
take_four [] b h = absurd (omega arith)
take_four (w ∷ []) b h = absurd (omega arith)
take_four (w ∷ x ∷ []) b h = absurd (omega arith)
take_four (w ∷ x ∷ y ∷ []) b h = absurd (omega arith)
take_four (w ∷ x ∷ y ∷ z ∷ f) b h = refl

len_stays : (f : List ℕ) (b : ℕ) → 6 ≤ length f → frame_body_len (f ++ b ∷ []) ≡ frame_body_len f
len_stays [] b h = absurd (omega arith)
len_stays (u ∷ []) b h = absurd (omega arith)
len_stays (u ∷ v ∷ []) b h = absurd (omega arith)
len_stays (u ∷ v ∷ w ∷ []) b h = absurd (omega arith)
len_stays (u ∷ v ∷ w ∷ x ∷ []) b h = absurd (omega arith)
len_stays (u ∷ v ∷ w ∷ x ∷ y ∷ []) b h = absurd (omega arith)
len_stays (u ∷ v ∷ w ∷ x ∷ y ∷ z ∷ f) b h = refl

module _ (seen : List ℕ) (rx : Rx) (b us : ℕ) where
  abbrev seen' : List ℕ
  seen' = seen ++ b ∷ []

  sync-Tracks :
      rx.state ≡ sync_hdr
      → InBounds sync_hdr rx
      → Tracks sync_hdr seen rx
      → Tracks (on_sync rx b).state seen' (on_sync rx b)
  unfolding on_sync
  sync-Tracks st h (before, e) = elim (Bool-cases (b == get_or report_hdr rx.hdr_match 0)) [
    | inl hit ↦
        let grown : seen' ≡ before ++ take (rx.hdr_match + 1) report_hdr =
          ap (λ l. l ++ b ∷ []) e
          ∙ append_assoc before (take rx.hdr_match report_hdr) (b ∷ [])
          ∙ ap (λ l. before ++ l) (grow_match rx.hdr_match b h ((==_iff b _).0 hit)) in
        elim (Bool-cases (rx.hdr_match + 1 == 4)) [
          | inl full ↦
              let four : rx.hdr_match + 1 ≡ 4 = (==_iff _ _).0 full in
              rw (hit, full) (before, grown ∙ ap (λ n. before ++ take n report_hdr) four, refl)
          | inr part ↦ rw (hit, part, st) (before, grown)
        ]
    | inr miss ↦ elim (Bool-cases (b == 0xF4)) [
      | inl first ↦ rw (miss, first, st) (seen, ap (λ x. seen ++ x ∷ []) ((==_iff b 0xF4).0 first))
      | inr other ↦ rw (miss, other, st) (seen', sym (append-nil seen'))
    ]
  ]

  len-Tracks :
      rx.state ≡ read_len
      → InBounds read_len rx
      → Tracks read_len seen rx
      → Tracks (on_len rx b).state seen' (on_len rx b)
  unfolding on_len
  len-Tracks st h (before, e, hdr) =
      let grown = rx.frame ++ b ∷ [] in
      let moved : seen' ≡ before ++ grown =
        ap (λ l. l ++ b ∷ []) e ∙ append_assoc before rx.frame (b ∷ []) in
      let hdr' : take 4 grown ≡ report_hdr = take_four rx.frame b (omega arith) ∙ hdr in
      let n = frame_body_len grown in
      elim (Bool-cases (length grown == 4 + 2)) [
        | inl full ↦ elim (Bool-cases (ltb n 3 || ltb max_frame (n + 4 + 2 + 4))) [
          | inl bad ↦ rw (full, bad) (seen', sym (append-nil seen'))
          | inr good ↦ rw (full, good) (before, moved, hdr', refl)
        ]
        | inr part ↦ rw (part, st) (before, moved, hdr')
      ]

  body-Tracks :
      rx.state ≡ read_body
      → InBounds read_body rx
      → Tracks read_body seen rx
      → OutcomeTracks seen' us (on_body rx b us)
  unfolding on_body
  body-Tracks st h (before, e, hdr, len) =
      let grown = rx.frame ++ b ∷ [] in
      let moved : seen' ≡ before ++ grown =
        ap (λ l. l ++ b ∷ []) e ∙ append_assoc before rx.frame (b ∷ []) in
      let hdr' : take 4 grown ≡ report_hdr = take_four rx.frame b (omega arith) ∙ hdr in
      let len' : frame_body_len grown ≡ rx.expected_body =
        len_stays rx.frame b (omega arith) ∙ len in
      elim (Bool-cases (length grown == 4 + 2 + rx.expected_body + 4)) [
        | inl full ↦
            let total : length grown ≡ 4 + 2 + rx.expected_body + 4 = (==_iff _ _).0 full in
            elim (Bool-cases (str_eq (drop (length grown - 4) grown) report_tail)) [
              | inl tail ↦
                  rw (full, tail)
                    (
                      before,
                      grown,
                      moved,
                      hdr',
                      omega arith,
                      omega arith,
                      omega arith,
                      str_eq_sound _ _ tail,
                      ap (λ n. decode_body (drop 6 grown) n us) (sym len'),
                    )
              | inr other ↦ rw (full, other) (seen', sym (append-nil seen'))
            ]
        | inr part ↦ rw (part, st) (before, moved, hdr', len')
      ]

dispatch-Tracks :
    (st : RxState) (seen : List ℕ) (rx : Rx) (b us : ℕ)
    → rx.state ≡ st
    → InBounds st rx
    → Tracks st seen rx
    → OutcomeTracks (seen ++ b ∷ []) us (dispatch_byte st rx b us)
unfolding dispatch_byte
dispatch-Tracks sync_hdr seen rx b us e h t = sync-Tracks seen rx b us e h t
dispatch-Tracks read_len seen rx b us e h t = len-Tracks seen rx b us e h t
dispatch-Tracks read_body seen rx b us e h t = body-Tracks seen rx b us e h t

step-Tracks :
    (seen : List ℕ) (rx : Rx) (b us : ℕ)
    → InBounds rx.state rx
    → Tracks rx.state seen rx
    → OutcomeTracks (seen ++ b ∷ []) us (rx_step rx b us)
unfolding rx_step
step-Tracks seen rx b us h t = dispatch-Tracks rx.state seen rx b us refl h t

-- Some of the bytes, behind those already seen, end in the frame of the sample.
abbrev SplitsAtFrame : List ℕ → List ℕ → RadarSample → ℕ → Type 0
SplitsAtFrame seen bs s us =
    (used : List ℕ) × (rest : List ℕ) × (bs ≡ used ++ rest) × EndsInFrame (seen ++ used) s us

SplitsAtFrame-cons :
    (seen bs : List ℕ) (b us : ℕ) (s : RadarSample)
    → SplitsAtFrame (seen ++ b ∷ []) bs s us
    → SplitsAtFrame seen (b ∷ bs) s us
SplitsAtFrame-cons seen bs b us s (used, rest, e, ends) =
    (b ∷ used, rest, ap (λ l. b ∷ l) e, rw (append_assoc seen (b ∷ []) used) at ends)

then_sound :
    (seen bs : List ℕ) (b us : ℕ) (o : Outcome) (again : Rx → Outcome) (s : RadarSample)
    → PendingInBounds o
    → OutcomeTracks (seen ++ b ∷ []) us o
    → ((next : Rx)
        → InBounds next.state next
        → Tracks next.state (seen ++ b ∷ []) next
        → again next ≡ got s
        → SplitsAtFrame (seen ++ b ∷ []) bs s us)
    → then_feed o again ≡ got s
    → SplitsAtFrame seen (b ∷ bs) s us
then_sound seen bs b us (pending next) again s h t ih e =
    SplitsAtFrame-cons seen bs b us s (ih next h t e)
then_sound seen bs b us (got s') again s h t ih e =
    let same : s' ≡ s = cc in
    (b ∷ [], bs, refl, subst (λ r. EndsInFrame (seen ++ b ∷ []) r us) same t)

feed_sound :
    (seen bs : List ℕ) (rx : Rx) (us : ℕ) (s : RadarSample)
    → InBounds rx.state rx
    → Tracks rx.state seen rx
    → feed rx bs us ≡ got s
    → SplitsAtFrame seen bs s us
unfolding feed
feed_sound seen [] rx us s h t e = cc
feed_sound seen (b ∷ bs) rx us s h t e =
    then_sound seen bs b us (rx_step rx b us) (λ next. feed next bs us) s
      (rx_step-InBounds rx b us h) (step-Tracks seen rx b us h t)
      (λ next. feed_sound (seen ++ b ∷ []) bs next us s) e

-- When the bytes since the start of a read give a sample, they begin with bytes that end in a
-- well-formed frame: the header, a body length from 3 to 54, that many bytes of body, and the tail;
-- and the sample is the one that this body encodes.
pub feed_got-EndsInFrame :
    (bs : List ℕ) (us : ℕ) (s : RadarSample)
    → feed rx_start bs us ≡ got s
    → (used : List ℕ) × (rest : List ℕ) × (bs ≡ used ++ rest) × EndsInFrame used s us
feed_got-EndsInFrame bs us s e = feed_sound [] bs rx_start us s (omega arith) ([], refl) e
