-- ===== src/Prov/Map.antt =====
-- components/dp_prov/dp_prov.c: what the loops over the records do, slot by slot.
use dockpulse_iot.Prelude.{
  ℕ, zero, suc, ◌+◌, ◌≤◌, ◌≡◌, ◌≢◌, refl, ap, ◌∙◌, ◌⊎◌, inl, inr, false, List, [], ◌∷◌, Option,
  none, some, arith, Bool-cases, ◌==◌, if◌then◌else◌, length, set, str_eq, str_eq_comm, All,
}
use dockpulse_iot.Prov.Table.{
  Record, find_record, dec_count, is_stale, evict_stale, find_slot, first_empty, wipe_first,
}
use dockpulse_iot.Prov.Valid.{occupied, has_addr, has_berth, Distinct}

-- The index of the first record with the address.
unfoldable pub index_of : ℕ → List Record → Option ℕ
index_of a [] = none
index_of a (r ∷ rs) =
    let rest = index_of a rs in
    if r.unicast_addr == a then some 0 else elim rest [ none ↦ none | some k ↦ some (suc k) ]

abbrev offset : ℕ → Option ℕ → Option ℕ
offset i none = none
offset i (some k) = some (i + k)

abbrev or_else : Option ℕ → Option ℕ → Option ℕ
or_else none o = o
or_else (some e) o = some e

find_slot_index :
    (a i : ℕ) (e : Option ℕ) (rs : List Record) → (find_slot a i e rs).0 ≡ offset i (index_of a rs)
unfolding find_slot index_of
find_slot_index a i e [] = refl
find_slot_index a i e (r ∷ rs) = ground (arith, find_slot_index a (i + 1) (first_empty e i r) rs)

find_slot_empty :
    (a i : ℕ) (e : Option ℕ) (rs : List Record)
    → index_of a rs ≡ none
    → (find_slot a i e rs).1 ≡ or_else e (offset i (index_of 0 rs))
unfolding find_slot index_of
find_slot_empty a i e [] h = ground arith
find_slot_empty a i e (r ∷ rs) h = ground (arith, find_slot_empty a (i + 1) (first_empty e i r) rs)

offset_zero : (o : Option ℕ) → offset 0 o ≡ o
offset_zero none = refl
offset_zero (some k) = ground arith

-- The slot loop, run on the whole table, finds the first slot of the address, and if there is none
-- the first empty one.
pub find_slot_lem : (a : ℕ) (rs : List Record) → (find_slot a 0 none rs).0 ≡ index_of a rs
find_slot_lem a rs = find_slot_index a 0 none rs ∙ offset_zero (index_of a rs)

pub find_slot_empty_lem :
    (a : ℕ) (rs : List Record) → index_of a rs ≡ none → (find_slot a 0 none rs).1 ≡ index_of 0 rs
find_slot_empty_lem a rs h = find_slot_empty a 0 none rs h ∙ offset_zero (index_of 0 rs)

pub has_addr_of_index : (a : ℕ) (rs : List Record) → index_of a rs ≡ none → has_addr a rs ≡ false
unfolding index_of has_addr
has_addr_of_index a [] h = refl
has_addr_of_index a (r ∷ rs) h = ground (arith, has_addr_of_index a rs)

pub find_of_no_addr : (a : ℕ) (rs : List Record) → has_addr a rs ≡ false → find_record a rs ≡ none
unfolding find_record has_addr
find_of_no_addr a [] h = refl
find_of_no_addr a (r ∷ rs) h = ground (arith, find_of_no_addr a rs)

-- What the hot-swap leaves of a record that is found.
abbrev pub unless_stale : ℕ → List ℕ → Option Record → Option Record
unless_stale a berth none = none
unless_stale a berth (some r) = if is_stale a berth r then none else some r

module _ (a : ℕ) (berth : List ℕ) where
  pub length-evict : (rs : List Record) (n : ℕ) → length (evict_stale a berth rs n).0 ≡ length rs
  unfolding evict_stale
  length-evict [] n = refl
  length-evict (r ∷ rs) n = ap suc (length-evict rs (if is_stale a berth r then dec_count n else n))

  pub no_addr-evict :
      (c : ℕ) (rs : List Record) (n : ℕ)
      → c ≢ 0
      → has_addr c rs ≡ false
      → has_addr c (evict_stale a berth rs n).0 ≡ false
  unfolding evict_stale has_addr
  no_addr-evict c [] n h e = refl
  no_addr-evict c (r ∷ rs) n h e =
      let m = if is_stale a berth r then dec_count n else n in
      elim (Bool-cases (is_stale a berth r)) [
        | inl s ↦ rw s (ground (arith, no_addr-evict c rs (dec_count n)))
        | inr s ↦ rw s (ground (arith, no_addr-evict c rs n))
      ]

  pub no_berth-evict :
      (b : List ℕ) (rs : List Record) (n : ℕ)
      → has_berth b rs ≡ false
      → has_berth b (evict_stale a berth rs n).0 ≡ false
  unfolding evict_stale has_berth
  no_berth-evict b [] n e = refl
  no_berth-evict b (r ∷ rs) n e = elim (Bool-cases (is_stale a berth r)) [
    | inl s ↦ rw s (ground (arith, no_berth-evict b rs (dec_count n)))
    | inr s ↦ rw s (ground (arith, no_berth-evict b rs n))
  ]

  pub find-evict :
      (c : ℕ) (rs : List Record) (n : ℕ)
      → c ≢ 0
      → Distinct rs
      → find_record c (evict_stale a berth rs n).0 ≡ unless_stale a berth (find_record c rs)
  unfolding evict_stale find_record
  find-evict c [] n h d = refl
  find-evict c (r ∷ rs) n h d = elim (Bool-cases (is_stale a berth r)) [
    | inl s ↦ rw s (
        ground (
          arith,
          s,
          find-evict c rs (dec_count n) h d.1,
          no_addr-evict c rs (dec_count n),
          find_of_no_addr c (evict_stale a berth rs (dec_count n)).0,
        ))
    | inr s ↦ rw s (ground (arith, s, find-evict c rs n h d.1))
  ]

  pub count-evict :
      (rs : List Record) (n : ℕ)
      → occupied rs ≤ n
      → (evict_stale a berth rs n).1 + occupied rs ≡ n + occupied (evict_stale a berth rs n).0
  unfolding evict_stale
  count-evict [] n h = omega arith
  count-evict (r ∷ rs) n h = elim (Bool-cases (is_stale a berth r)) [
    | inl s ↦ rw s (ground (arith, s, count-evict rs (dec_count n)))
    | inr s ↦ rw s (ground (arith, s, count-evict rs n))
  ]

  -- After the loop no record is stale.
  pub evict_clean :
      (rs : List Record) (n : ℕ)
      → All (λ r. is_stale a berth r ≡ false) (evict_stale a berth rs n).0
  unfolding evict_stale
  evict_clean [] n = tt
  evict_clean (r ∷ rs) n = elim (Bool-cases (is_stale a berth r)) [
    | inl s ↦ rw s (refl, evict_clean rs (dec_count n))
    | inr s ↦ rw s (s, evict_clean rs n)
  ]

  pub Distinct-evict :
      (rs : List Record) (n : ℕ) → Distinct rs → Distinct (evict_stale a berth rs n).0
  unfolding evict_stale
  Distinct-evict [] n d = tt
  Distinct-evict (r ∷ rs) n d = elim (Bool-cases (is_stale a berth r)) [
    | inl s ↦ rw s (inl refl, Distinct-evict rs (dec_count n) d.1)
    | inr s ↦ rw s (
      ground (arith, no_addr-evict r.unicast_addr rs n, no_berth-evict r.berth_id rs n),
      Distinct-evict rs n d.1,
    )
  ]

  -- A clean list with no slot of the address has no slot of the berth.
  no_berth_of_clean :
      (rs : List Record)
      → All (λ r. is_stale a berth r ≡ false) rs
      → has_addr a rs ≡ false
      → has_berth berth rs ≡ false
  unfolding has_addr has_berth
  no_berth_of_clean [] h e = refl
  no_berth_of_clean (r ∷ rs) h e = ground (arith, no_berth_of_clean rs h.1)

-- Writing a record into a slot.
module _ (new : Record) where
  no_addr-set :
      (c : ℕ) (rs : List Record) (k : ℕ)
      → new.unicast_addr ≢ c
      → has_addr c rs ≡ false
      → has_addr c (set rs k new) ≡ false
  unfolding has_addr
  no_addr-set c [] k h e = refl
  no_addr-set c (r ∷ rs) zero h e = ground arith
  no_addr-set c (r ∷ rs) (suc k) h e = ground (arith, no_addr-set c rs k h)

  no_berth-set :
      (b : List ℕ) (rs : List Record) (k : ℕ)
      → str_eq new.berth_id b ≡ false
      → has_berth b rs ≡ false
      → has_berth b (set rs k new) ≡ false
  unfolding has_berth
  no_berth-set b [] k h e = refl
  no_berth-set b (r ∷ rs) zero h e = ground arith
  no_berth-set b (r ∷ rs) (suc k) h e = ground (arith, no_berth-set b rs k h)

  pub length-set : (rs : List Record) (k : ℕ) → length (set rs k new) ≡ length rs
  length-set [] k = refl
  length-set (r ∷ rs) zero = refl
  length-set (r ∷ rs) (suc k) = ap suc (length-set rs k)

  -- The slot written is that of the address, or an empty one when the address has none.
  abbrev pub SlotFits : ℕ → List Record → Type 0
  SlotFits s rs = (s ≡ new.unicast_addr) ⊎ ((s ≡ 0) × (has_addr new.unicast_addr rs ≡ false))

  SlotFits-tail : (s : ℕ) (r : Record) (rs : List Record) → SlotFits s (r ∷ rs) → SlotFits s rs
  unfolding has_addr
  SlotFits-tail s r rs f = ground arith

  pub find-set :
      (c s : ℕ) (rs : List Record) (k : ℕ)
      → c ≢ 0
      → SlotFits s rs
      → index_of s rs ≡ some k
      → find_record c (set rs k new)
        ≡ (if new.unicast_addr == c then some new else find_record c rs)
  unfolding find_record index_of has_addr
  find-set c s [] k h f e = cc
  find-set c s (r ∷ rs) zero h f e = ground arith
  find-set c s (r ∷ rs) (suc k) h f e = ground (arith, find-set c s rs k h (SlotFits-tail s r rs f))

  pub occupied-set :
      (s : ℕ) (rs : List Record) (k : ℕ)
      → new.unicast_addr ≢ 0
      → index_of s rs ≡ some k
      → occupied (set rs k new) ≡ (if s == 0 then 1 else 0) + occupied rs
  unfolding index_of
  occupied-set s [] k h e = cc
  occupied-set s (r ∷ rs) zero h e = ground arith
  occupied-set s (r ∷ rs) (suc k) h e = ground (arith, occupied-set s rs k h)

  pub Distinct-set :
      (s : ℕ) (rs : List Record) (k : ℕ)
      → new.unicast_addr ≢ 0
      → SlotFits s rs
      → index_of s rs ≡ some k
      → All (λ r. is_stale new.unicast_addr new.berth_id r ≡ false) rs
      → Distinct rs
      → Distinct (set rs k new)
  unfolding index_of has_addr
  Distinct-set s [] k h f e clean d = cc
  Distinct-set s (r ∷ rs) zero h f e clean d =
      let alone : has_addr new.unicast_addr rs ≡ false = ground arith in
      (inr (alone, no_berth_of_clean new.unicast_addr new.berth_id rs clean.1 alone), d.1)
  Distinct-set s (r ∷ rs) (suc k) h f e clean d = (
    ground (
      arith,
      no_addr-set r.unicast_addr rs k,
      no_berth-set r.berth_id rs k,
      str_eq_comm r.berth_id new.berth_id,
    ),
    Distinct-set s rs k h (SlotFits-tail s r rs f) (ground arith) clean.1 d.1,
  )

-- The loop of `dp_prov_forget_unicast`.
module _ (a : ℕ) where
  pub length-wipe : (rs : List Record) → length (wipe_first a rs).0 ≡ length rs
  unfolding wipe_first
  length-wipe [] = refl
  length-wipe (r ∷ rs) = ground (arith, length-wipe rs)

  pub wipe_hit : (rs : List Record) → (wipe_first a rs).1 ≡ has_addr a rs
  unfolding wipe_first has_addr
  wipe_hit [] = refl
  wipe_hit (r ∷ rs) = ground (arith, wipe_hit rs)

  pub no_addr-wipe :
      (c : ℕ) (rs : List Record)
      → c ≢ 0
      → has_addr c rs ≡ false
      → has_addr c (wipe_first a rs).0 ≡ false
  unfolding wipe_first has_addr
  no_addr-wipe c [] h e = refl
  no_addr-wipe c (r ∷ rs) h e = ground (arith, no_addr-wipe c rs h)

  pub no_berth-wipe :
      (b : List ℕ) (rs : List Record)
      → has_berth b rs ≡ false
      → has_berth b (wipe_first a rs).0 ≡ false
  unfolding wipe_first has_berth
  no_berth-wipe b [] e = refl
  no_berth-wipe b (r ∷ rs) e = ground (arith, no_berth-wipe b rs)

  pub find-wipe :
      (c : ℕ) (rs : List Record)
      → a ≢ 0
      → c ≢ 0
      → Distinct rs
      → find_record c (wipe_first a rs).0 ≡ (if c == a then none else find_record c rs)
  unfolding wipe_first find_record
  find-wipe c [] ha hc d = ground arith
  find-wipe c (r ∷ rs) ha hc d = ground (arith, find-wipe c rs ha hc d.1, find_of_no_addr c rs)

  pub occupied-wipe :
      (rs : List Record)
      → a ≢ 0
      → occupied (wipe_first a rs).0 + (if has_addr a rs then 1 else 0) ≡ occupied rs
  unfolding wipe_first has_addr
  occupied-wipe [] ha = omega arith
  occupied-wipe (r ∷ rs) ha = ground (arith, occupied-wipe rs ha)

  pub Distinct-wipe : (rs : List Record) → Distinct rs → Distinct (wipe_first a rs).0
  unfolding wipe_first
  Distinct-wipe [] d = tt
  Distinct-wipe (r ∷ rs) d = elim (Bool-cases (r.unicast_addr == a)) [
    | inl hit ↦ rw hit (inl refl, d.1)
    | inr miss ↦ rw miss (
      ground (arith, no_addr-wipe r.unicast_addr rs, no_berth-wipe r.berth_id rs),
      Distinct-wipe rs d.1,
    )
  ]
