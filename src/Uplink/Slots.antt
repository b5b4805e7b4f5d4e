-- ===== src/Uplink/Slots.antt =====
-- components/dp_gateway/dp_gateway_mqtt.c: the slots of the subscriptions and what they ask of the
-- broker.
use dockpulse_iot.Prelude.{
  ℕ, ◌≡◌, refl, sym, ◌∙◌, subst, ◌⊎◌, inl, inr, true, false, List, [], ◌∷◌, Option, none, some,
  Bool-cases, if◌then◌else◌, split_if, if_true, if_false, take, All,
}
use dockpulse_iot.Uplink.Mqtt.{
  PendingSub, MqttCall, session_begins, subscribe_call, publish_call, hand_over, apply_pending_subs,
  publish_online_retained, fan_out, behind_slot, fill_slot,
}

-- The current session has asked the broker for the topic.
abbrev pub Asked : List ℕ → ℕ → List MqttCall → Type 0
Asked topic qos [] = ⊥
Asked topic qos (session_begins ∷ cs) = ⊥
Asked topic qos (subscribe_call t q ∷ cs) = ((t ≡ topic) × (q ≡ qos)) ⊎ Asked topic qos cs
Asked topic qos (publish_call t p q r ∷ cs) = Asked topic qos cs
Asked topic qos (hand_over cb t m ∷ cs) = Asked topic qos cs

abbrev pub Covered : List MqttCall → PendingSub → Type 0
Covered log p = p.active ≡ true → Asked p.topic p.qos log

-- An active slot holds the subscription.
abbrev pub Holds : List ℕ → ℕ → List PendingSub → Type 0
Holds topic qos [] = ⊥
Holds topic qos (p ∷ ps) =
    ((p.active ≡ true) × (p.topic ≡ topic) × (p.qos ≡ qos)) ⊎ Holds topic qos ps

pub Covered-append :
    (old new : List MqttCall) (ps : List PendingSub)
    → ((topic : List ℕ) (qos : ℕ) → Asked topic qos old → Asked topic qos new)
    → All (Covered old) ps
    → All (Covered new) ps
Covered-append old new [] k h = tt
Covered-append old new (p ∷ ps) k h =
    (λ a. k p.topic p.qos (h.0 a), Covered-append old new ps k h.1)

apply_keeps :
    (topic : List ℕ) (qos : ℕ) (ps : List PendingSub) (log : List MqttCall)
    → Asked topic qos log
    → Asked topic qos (apply_pending_subs ps log)
unfolding apply_pending_subs
apply_keeps topic qos [] log h = h
apply_keeps topic qos (p ∷ ps) log h =
    apply_keeps topic qos ps (if p.active then subscribe_call p.topic p.qos ∷ log else log) (
      split_if (Asked topic qos) p.active (subscribe_call p.topic p.qos ∷ log) log (λ _. inr h)
        (λ _. h))

pub apply-All :
    (ps : List PendingSub) (log : List MqttCall) → All (Covered (apply_pending_subs ps log)) ps
unfolding apply_pending_subs
apply-All [] log = tt
apply-All (p ∷ ps) log =
    let next = if p.active then subscribe_call p.topic p.qos ∷ log else log in
    (λ a. apply_keeps p.topic p.qos ps next (rw a (inl (refl, refl))), apply-All ps next)

pub online_keeps :
    (lwt : List ℕ) (log : List MqttCall) (topic : List ℕ) (qos : ℕ)
    → Asked topic qos log
    → Asked topic qos (publish_online_retained lwt log)
online_keeps [] log topic qos h = h
online_keeps (c ∷ cs) log topic qos h = h

pub fan_out_keeps :
    (cbs topic msg : List ℕ) (log : List MqttCall) (t : List ℕ) (q : ℕ)
    → Asked t q log
    → Asked t q (fan_out cbs topic msg log)
fan_out_keeps [] topic msg log t q h = h
fan_out_keeps (cb ∷ cbs) topic msg log t q h =
    fan_out_keeps cbs topic msg (hand_over cb topic msg ∷ log) t q h

pub Holds-Asked :
    (topic : List ℕ) (qos : ℕ) (log : List MqttCall) (ps : List PendingSub)
    → Holds topic qos ps
    → All (Covered log) ps
    → Asked topic qos log
Holds-Asked topic qos log [] h c = absurd h
Holds-Asked topic qos log (p ∷ ps) (inl h) c =
    let (a, t, q) = h in subst (λ q. Asked topic q log) q (subst (λ t. Asked t p.qos log) t (c.0 a))
Holds-Asked topic qos log (p ∷ ps) (inr h) c = Holds-Asked topic qos log ps h c.1

-- Filling a slot stores the subscription, and keeps the others and what is covered.
pub record Fills (topic : List ℕ) (qos : ℕ) (ps qs : List PendingSub) : Type 0 where
  pub stored : Holds topic qos qs
  pub kept : (t : List ℕ) (q : ℕ) → Holds t q ps → Holds t q qs
  pub cover :
      (log : List MqttCall) → Asked topic qos log → All (Covered log) ps → All (Covered log) qs

behind-Fills :
    (topic : List ℕ) (qos : ℕ) (p : PendingSub) (ps qs : List PendingSub)
    → Fills topic qos ps qs
    → Fills topic qos (p ∷ ps) (p ∷ qs)
behind-Fills topic qos p ps qs f = record {
  stored = inr f.stored;
  kept = λ t q h. elim h [ inl here ↦ inl here | inr there ↦ inr (f.kept t q there) ];
  cover = λ log a c. (c.0, f.cover log a c.1);
}

free-Fills :
    (topic : List ℕ) (qos : ℕ) (p : PendingSub) (ps : List PendingSub)
    → take 95 topic ≡ topic
    → p.active ≡ false
    → Fills topic qos (p ∷ ps) (record { topic = take 95 topic; qos = qos; active = true } ∷ ps)
free-Fills topic qos p ps short free = record {
  stored = inl (refl, short, refl);
  kept = λ t q h. elim h [ inl here ↦ absurd (cc (free, here.0)) | inr there ↦ inr there ];
  cover = λ log a c. (λ e. subst (λ t. Asked t qos log) (sym short) a, c.1);
}

behind_some :
    (p : PendingSub) (o : Option (List PendingSub)) (qs : List PendingSub)
    → behind_slot p o ≡ some qs
    → (rest : List PendingSub) × (o ≡ some rest) × (qs ≡ p ∷ rest)
behind_some p none qs h = cc
behind_some p (some rest) qs h = (rest, refl, cc)

pub fill_slot-Fills :
    (topic : List ℕ) (qos : ℕ) (ps qs : List PendingSub)
    → take 95 topic ≡ topic
    → fill_slot topic qos ps ≡ some qs
    → Fills topic qos ps qs
unfolding fill_slot
fill_slot-Fills topic qos [] qs short e = cc
fill_slot-Fills topic qos (p ∷ ps) qs short e =
    let filled : PendingSub = record { topic = take 95 topic; qos = qos; active = true } in
    let behind = behind_slot p (fill_slot topic qos ps) in
    elim (Bool-cases p.active) [
      | inl taken ↦
          let (rest, e', same) =
            behind_some p (fill_slot topic qos ps) qs
              (sym (if_true p.active behind (some (filled ∷ ps)) taken) ∙ e) in
          subst (Fills topic qos (p ∷ ps)) (sym same)
            (behind-Fills topic qos p ps rest (fill_slot-Fills topic qos ps rest short e'))
      | inr free ↦
          let found : some (filled ∷ ps) ≡ some qs =
            sym (if_false p.active behind (some (filled ∷ ps)) free) ∙ e in
          let same : filled ∷ ps ≡ qs = cc found in
          subst (Fills topic qos (p ∷ ps)) same (free-Fills topic qos p ps short free)
    ]
