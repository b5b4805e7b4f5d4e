-- ===== src/Uplink/Wifi.antt =====
-- components/dp_gateway/dp_gateway_wifi.c: the station's events and the wait at the start. The Wi-Fi
-- driver is a list of events; each `ESP_ERROR_CHECK` ends the program when its call fails.
use dockpulse_iot.Prelude.{
  ℕ, zero, suc, ◌+◌, ◌≤◌, ◌<◌, ◌≡◌, ◌↔◌, refl, Bool, true, false, not, ◌||◌, List, [], ◌∷◌, ◌++◌,
  arith, ltb, if◌then◌else◌, All, min, replicate, sym, ap, ◌∙◌, append-nil,
}
use dockpulse_iot.Esp.{EspErr, esp_ok, esp_fail, no_mem}

-- What becomes of a call that may wait.
pub data Outcome : Type 0 where
  waiting aborted : Outcome
  returned : EspErr → Outcome

-- The events that `on_wifi_event` names, and any other.
pub data WifiEvent : Type 0 where
  sta_start sta_disconnected sta_got_ip wifi_other : WifiEvent

-- `s_retry`, the two bits of the event group, and how often `esp_wifi_connect` was called.
pub record Wifi : Type 0 where
  pub retry : ℕ
  pub connected : Bool
  pub failed : Bool
  pub connects : ℕ

abbrev pub wifi_max_retry : ℕ
wifi_max_retry = 5

abbrev pub wifi_boot : Wifi
wifi_boot = record { retry = 0; connected = false; failed = false; connects = 0 }

-- `on_wifi_event`
unfoldable pub on_wifi_event : WifiEvent → Wifi → Wifi
on_wifi_event sta_start s = record s { connects = s.connects + 1 }
on_wifi_event sta_disconnected s =
    if ltb s.retry wifi_max_retry
    then record s { retry = s.retry + 1; connects = s.connects + 1 }
    else record s { failed = true }
on_wifi_event sta_got_ip s = record s { retry = 0; connected = true }
on_wifi_event wifi_other s = s

-- The wait for either bit.
unfoldable pub wifi_wait : List WifiEvent → Wifi → Outcome × Wifi
wifi_wait [] s = (waiting, s)
wifi_wait (e ∷ es) s =
    let s' = on_wifi_event e s in
    let rest = wifi_wait es s' in
    if s'.connected || s'.failed
    then (returned (if s'.connected then esp_ok else esp_fail), s')
    else rest

-- `dp_gateway_wifi_start_and_wait`: is there memory for the event group, do all driver calls succeed,
-- and the events.
unfoldable pub wifi_start_and_wait : Bool → Bool → List WifiEvent → Outcome × Wifi
wifi_start_and_wait group_made drivers_ok events =
    if not group_made
    then (returned no_mem, wifi_boot)
    else (if drivers_ok then wifi_wait events wifi_boot else (aborted, wifi_boot))

-- No address is given, and how often the network is lost.
abbrev pub IsNoAddress : WifiEvent → Type 0
IsNoAddress sta_got_ip = ⊥
IsNoAddress _ = Unit

abbrev pub losses : List WifiEvent → ℕ
losses [] = 0
losses (sta_disconnected ∷ es) = suc (losses es)
losses (_ ∷ es) = losses es

abbrev Waits : Wifi → Type 0
Waits s = (s.connected ≡ false) × (s.failed ≡ false)

wait_step :
    (e : WifiEvent) (es : List WifiEvent) (s : Wifi)
    → Waits (on_wifi_event e s)
    → wifi_wait (e ∷ es) s ≡ wifi_wait es (on_wifi_event e s)
unfolding wifi_wait
wait_step e es s w = rw (w.0, w.1) refl

-- An event after which the wait goes on.
quiet_event :
    (e : WifiEvent) (s : Wifi)
    → IsNoAddress e
    → Waits s
    → s.retry + losses (e ∷ []) ≤ 5
    → let after = on_wifi_event e s in Waits after × (after.retry ≡ s.retry + losses (e ∷ []))
unfolding on_wifi_event
quiet_event sta_start s no_address w le = (w, omega arith)
quiet_event sta_disconnected s no_address w le = ground arith
quiet_event sta_got_ip s no_address w le = absurd no_address
quiet_event wifi_other s no_address w le = (w, omega arith)

losses_cons : (e : WifiEvent) (es : List WifiEvent) → losses (e ∷ es) ≡ losses (e ∷ []) + losses es
losses_cons sta_start es = omega arith
losses_cons sta_disconnected es = omega arith
losses_cons sta_got_ip es = omega arith
losses_cons wifi_other es = omega arith

-- While at most five losses have happened, the wait goes on.
wait_on :
    (pre post : List WifiEvent) (s : Wifi)
    → All IsNoAddress pre
    → Waits s
    → s.retry + losses pre ≤ 5
    → (after : Wifi) × (wifi_wait (pre ++ post) s ≡ wifi_wait post after)
      × Waits after
      × (after.retry ≡ s.retry + losses pre)
wait_on [] post s no_address w le = (s, refl, w, omega arith)
wait_on (e ∷ pre) post s no_address w le =
    let split = losses_cons e pre in
    let (w', r') = quiet_event e s no_address.0 w (omega (arith, split)) in
    let (after, same, waits, count) =
      wait_on pre post (on_wifi_event e s) no_address.1 w' (omega (arith, split, r')) in
    (after, wait_step e (pre ++ post) s w' ∙ same, waits, omega (arith, split, r', count))

empty_wait : (s : Wifi) → (wifi_wait [] s).0 ≡ waiting
unfolding wifi_wait
empty_wait s = refl

address_ends :
    (post : List WifiEvent) (s : Wifi) → (wifi_wait (sta_got_ip ∷ post) s).0 ≡ returned esp_ok
unfolding wifi_wait on_wifi_event
address_ends post s = refl

loss_ends :
    (post : List WifiEvent) (s : Wifi)
    → Waits s
    → s.retry ≡ 5
    → (wifi_wait (sta_disconnected ∷ post) s).0 ≡ returned esp_fail
unfolding wifi_wait on_wifi_event
loss_ends post s w five = ground arith

-- The start waits for the network, through five losses. Among the events since the start, in which no
-- address has been given yet: while at most five are losses of the network, the wait goes on, and an
-- address ends it with success; after exactly five, a sixth loss ends it with a failure.
pub wifi_wait_lem :
    (pre post : List WifiEvent)
    → All IsNoAddress pre
    → losses pre ≤ 5
    → ((wifi_start_and_wait true true pre).0 ≡ waiting)
      × ((wifi_start_and_wait true true (pre ++ sta_got_ip ∷ post)).0 ≡ returned esp_ok)
      × (losses pre ≡ 5
          → (wifi_start_and_wait true true (pre ++ sta_disconnected ∷ post)).0 ≡ returned esp_fail)
unfolding wifi_start_and_wait
wifi_wait_lem pre post no_address le =
    let on =
      λ (more : List WifiEvent). wait_on pre more wifi_boot no_address (refl, refl) (omega arith) in
    let (s0, same0, w0, count0) = on [] in
    let (s1, same1, w1, count1) = on (sta_got_ip ∷ post) in
    let (s2, same2, w2, count2) = on (sta_disconnected ∷ post) in
    (
      ap (λ l. (wifi_wait l wifi_boot).0) (sym (append-nil pre))
          ∙ ap (λ (r : Outcome × Wifi). r.0) same0
          ∙ empty_wait s0,
      ap (λ (r : Outcome × Wifi). r.0) same1 ∙ address_ends post s1,
      λ five.
          ap (λ (r : Outcome × Wifi). r.0) same2
          ∙ loss_ends post s2 w2 (omega (arith, count2, five)),
    )

-- The handler on a list of events, oldest first.
abbrev pub wifi_run : List WifiEvent → Wifi → Wifi
wifi_run [] s = s
wifi_run (e ∷ es) s = wifi_run es (on_wifi_event e s)

lost_once :
    (s : Wifi)
    → s.retry ≤ 5
    → let after = on_wifi_event sta_disconnected s in
      (after.retry ≡ min (s.retry + 1) 5)
      × (after.connects + s.retry ≡ s.connects + after.retry)
      × (after.failed ≡ (s.failed || ltb 4 s.retry))
unfolding on_wifi_event
lost_once s le = ground arith

no_loss : (b : Bool) (r : ℕ) → r ≤ 5 → b ≡ (b || ltb 5 (r + 0))
no_loss true r le = refl
no_loss false r le = ground arith

more_losses :
    (b b' : Bool) (r r' n : ℕ)
    → r ≤ 5
    → r' ≡ min (r + 1) 5
    → b' ≡ (b || ltb 4 r)
    → (b' || ltb 5 (r' + n)) ≡ (b || ltb 5 (r + suc n))
more_losses true b' r r' n le e f = rw f refl
more_losses false true r r' n le e f = ground arith
more_losses false false r r' n le e f = ground arith

lost_run :
    (n : ℕ) (s : Wifi)
    → s.retry ≤ 5
    → let after = wifi_run (replicate n sta_disconnected) s in
      (after.retry ≡ min (s.retry + n) 5)
      × (after.connects + s.retry ≡ s.connects + after.retry)
      × (after.failed ≡ (s.failed || ltb 5 (s.retry + n)))
lost_run zero s le = (omega arith, refl, no_loss s.failed s.retry le)
lost_run (suc n) s le =
    let (r, c, f) = lost_once s le in
    let (r', c', f') = lost_run n (on_wifi_event sta_disconnected s) (omega (arith, r)) in
    (
      omega (arith, r, r'),
      omega (arith, c, c'),
      f'
          ∙ more_losses s.failed (on_wifi_event sta_disconnected s).failed s.retry
              (on_wifi_event sta_disconnected s).retry n le r f,
    )

-- A station gives up for good. From a state without counted retries, in which no failure is noted, n
-- losses of the network with no address between them make as many attempts to connect, but at most
-- five, and a failure is noted exactly from the sixth loss on: none makes a further attempt.
pub losses_give_up :
    (n : ℕ) (s : Wifi)
    → s.retry ≡ 0
    → s.failed ≡ false
    → let after = wifi_run (replicate n sta_disconnected) s in
      (after.connects ≡ s.connects + min n 5) × ((after.failed ≡ true) ↔ (5 < n))
losses_give_up n s zero_retry ok =
    let (retry, connects, gave_up) = lost_run n s (omega arith) in ground arith
