-- ===== src/Io/Button.antt =====
-- components/dp_io/dp_io.c: the factory-reset button.
use dockpulse_iot.Prelude.{
  ℕ, zero, suc, ◌+◌, ◌*◌, ◌/◌, ◌≤◌, ◌<◌, ◌≡◌, ◌↔◌, refl, sym, ap, ◌∙◌, subst, Bool, true, false,
  not, List, [], ◌∷◌, ◌++◌, append_assoc, arith, leb, ltb, if◌then◌else◌, replicate, Bool-cases,
  ◌⊎◌, inl, inr,
}
use dockpulse_iot.Esp.{EspErr, esp_ok, no_mem, is_ok}

-- `button_task`: `held_ms`, whether the task has reached its second loop, and how often the callback
-- was called.
pub record Button : Type 0 where
  pub held_ms : ℕ
  pub done : Bool
  pub fired : ℕ

abbrev pub button_start : Button
button_start = record { held_ms = 0; done = false; fired = 0 }

-- One turn of the loop, every 50 ms: `low` is the level of the pin, `has_cb` whether a callback is
-- registered. In the second loop the task only waits.
unfoldable pub poll : ℕ → Bool → Bool → Button → Button
poll hold_ms has_cb low b =
    let held = b.held_ms + 50 in
    let called = if has_cb then b.fired + 1 else b.fired in
    if b.done
    then b
    else (if low
        then (if leb hold_ms held
            then record { held_ms = held; done = true; fired = called }
            else record b { held_ms = held })
        else record b { held_ms = 0 })

-- `dp_button_init`: is a pin configured, the answer of its driver, is there memory for the task.
unfoldable pub button_init : Bool → EspErr → Bool → EspErr
button_init has_pin driver task_made =
    if not has_pin
    then esp_ok
    else (if is_ok driver then (if task_made then esp_ok else no_mem) else driver)

-- The polls since the start, oldest first.
abbrev pub polls : ℕ → Bool → List Bool → Button → Button
polls hold_ms has_cb [] b = b
polls hold_ms has_cb (low ∷ more) b = polls hold_ms has_cb more (poll hold_ms has_cb low b)

-- The polls that a press of `hold_ms` takes, at least one.
abbrev pub presses : ℕ → ℕ
presses hold_ms = if ltb hold_ms 51 then 1 else (hold_ms + 49) / 50

-- Somewhere, n polls in a row find the button pressed.
abbrev pub HeldFor : ℕ → List Bool → Type 0
HeldFor n lows = (pre : List Bool) × (post : List Bool) × (lows ≡ pre ++ (replicate n true ++ post))

-- The state behind some presses in a row, not yet enough.
abbrev Counts : ℕ → ℕ → Button → Type 0
Counts hold_ms k b = (b.done ≡ false) × (b.fired ≡ 0) × (b.held_ms ≡ 50 * k) × (k < presses hold_ms)

replicate_next :
    (k : ℕ) (lows : List Bool) → replicate (k + 1) true ++ lows ≡ replicate k true ++ true ∷ lows
replicate_next k lows = let e : k + 1 ≡ suc k = omega arith in rw e (shift k)
  where
    shift : (k : ℕ) → replicate (suc k) true ++ lows ≡ replicate k true ++ true ∷ lows
    shift zero = refl
    shift (suc k) = ap (λ l. true ∷ l) (shift k)

module _ (hold_ms : ℕ) where
  press_on :
      (k : ℕ) (b : Button)
      → Counts hold_ms k b
      → k + 1 < presses hold_ms
      → Counts hold_ms (k + 1) (poll hold_ms true true b)
  unfolding poll
  press_on k b h more = ground arith

  press_last :
      (k : ℕ) (b : Button)
      → Counts hold_ms k b
      → k + 1 ≡ presses hold_ms
      → let after = poll hold_ms true true b in (after.done ≡ true) × (after.fired ≡ 1)
  unfolding poll
  press_last k b h e = ground arith

  release : (k : ℕ) (b : Button) → Counts hold_ms k b → Counts hold_ms 0 (poll hold_ms true false b)
  unfolding poll
  release k b h = ground arith

  done_poll : (low : Bool) (b : Button) → b.done ≡ true → poll hold_ms true low b ≡ b
  unfolding poll
  done_poll low b d = ground arith

  done_stays : (lows : List Bool) (b : Button) → b.done ≡ true → polls hold_ms true lows b ≡ b
  done_stays [] b d = refl
  done_stays (low ∷ more) b d = rw (done_poll low b d, polls) (done_stays more b d)

  -- The state behind any polls: the callback has been called, or some presses count.
  abbrev Known : Button → Type 0
  Known b = ((b.done ≡ true) × (b.fired ≡ 1)) ⊎ ((k : ℕ) × Counts hold_ms k b)

  Known-poll : (low : Bool) (b : Button) → Known b → Known (poll hold_ms true low b)
  Known-poll low b (inl (d, f)) = rw (done_poll low b d) (inl (d, f))
  Known-poll false b (inr (k, h)) = inr (0, release k b h)
  Known-poll true b (inr (k, h)) = elim (Bool-cases (ltb (k + 1) (presses hold_ms))) [
    | inl more ↦ inr (k + 1, press_on k b h (ground arith))
    | inr last ↦ inl (press_last k b h (ground arith))
  ]

  Known-polls : (lows : List Bool) (b : Button) → Known b → Known (polls hold_ms true lows b)
  Known-polls [] b h = h
  Known-polls (low ∷ more) b h = Known-polls more (poll hold_ms true low b) (Known-poll low b h)

  start-Counts : Counts hold_ms 0 button_start
  start-Counts = (refl, refl, refl, ground arith)

  -- Enough presses in a row, whatever comes after them, end the first loop.
  enough_presses :
      (n k : ℕ) (post : List Bool) (b : Button)
      → Counts hold_ms k b
      → presses hold_ms ≤ k + n
      → (polls hold_ms true (replicate n true ++ post) b).done ≡ true
  enough_presses zero k post b h le = let below = h.3 in absurd (omega arith)
  enough_presses (suc n) k post b h le = elim (Bool-cases (ltb (k + 1) (presses hold_ms))) [
    | inl more ↦
        enough_presses n (k + 1) post (poll hold_ms true true b) (press_on k b h (ground arith))
          (omega arith)
    | inr last ↦
        let (d, f) = press_last k b h (ground arith) in
        rw (done_stays (replicate n true ++ post) (poll hold_ms true true b) d) d
  ]

  held_done :
      (n : ℕ) (post : List Bool) (b : Button)
      → n ≡ presses hold_ms
      → Known b
      → (polls hold_ms true (replicate n true ++ post) b).done ≡ true
  held_done n post b e (inl (d, f)) = rw (done_stays (replicate n true ++ post) b d) d
  held_done n post b e (inr (k, h)) = enough_presses n k post b h (omega arith)

  pub polls-append :
      (xs ys : List Bool) (b : Button)
      → polls hold_ms true (xs ++ ys) b ≡ polls hold_ms true ys (polls hold_ms true xs b)
  polls-append [] ys b = refl
  polls-append (x ∷ xs) ys b = polls-append xs ys (poll hold_ms true x b)

  -- The polls that end the first loop hold enough presses in a row.
  done_held :
      (lows : List Bool) (k : ℕ) (b : Button)
      → Counts hold_ms k b
      → (polls hold_ms true lows b).done ≡ true
      → HeldFor (presses hold_ms) (replicate k true ++ lows)
  done_held [] k b h d = let open_loop = h.0 in absurd (cc)
  done_held (false ∷ lows) k b h d =
      let (pre, post, e) = done_held lows 0 (poll hold_ms true false b) (release k b h) d in
      (
        replicate k true ++ false ∷ pre,
        post,
        ap (λ l. replicate k true ++ (false ∷ l)) e
            ∙ sym (
                append_assoc (replicate k true) (false ∷ pre)
                  (replicate (presses hold_ms) true ++ post)),
      )
  done_held (true ∷ lows) k b h d = elim (Bool-cases (ltb (k + 1) (presses hold_ms))) [
    | inl more ↦
        let next = press_on k b h (ground arith) in
        subst (λ l. HeldFor (presses hold_ms) l) (replicate_next k lows)
          (done_held lows (k + 1) (poll hold_ms true true b) next d)
    | inr last ↦
        let e : k + 1 ≡ presses hold_ms = let below = h.3 in ground arith in
        ([], lows, sym (replicate_next k lows) ∙ ap (λ n. replicate n true ++ lows) e)
  ]

  -- A long press calls the callback, once. After any sequence of polls since the start of the task,
  -- with a callback registered, it has been called at most once, and it has been called exactly if
  -- somewhere in the sequence the button was found pressed in as many polls in a row as fill
  -- `hold_ms`, and in one at least.
  pub polls-HeldFor :
      (lows : List Bool)
      → let after = polls hold_ms true lows button_start in
        (after.fired ≤ 1) × ((after.fired ≡ 1) ↔ HeldFor (presses hold_ms) lows)
  polls-HeldFor lows =
      let after = polls hold_ms true lows button_start in
      elim (Known-polls lows button_start (inr (0, start-Counts))) [
        | inl (d, f) ↦
            (omega (arith, f), (λ _. done_held lows 0 button_start start-Counts d, λ _. f))
        | inr (k, h) ↦
            let zero_fired = h.1 in
            (
              omega (arith, zero_fired),
              (
                λ one. absurd (omega (arith, one, zero_fired)),
                λ (pre, post, e).
                    let d =
                      held_done (presses hold_ms) post (polls hold_ms true pre button_start) refl
                        (Known-polls pre button_start (inr (0, start-Counts))) in
                    let d' : after.done ≡ true =
                      ap (λ l. (polls hold_ms true l button_start).done) e
                      ∙ ap (λ (b : Button). b.done)
                          (polls-append pre (replicate (presses hold_ms) true ++ post) button_start)
                      ∙ d in
                    let open_loop = h.0 in absurd (cc),
              ),
            )
      ]
