-- ===== src/Prov/Swap.antt =====
-- components/dp_prov/dp_prov.c: what `dp_prov_record_node` and `dp_prov_forget_unicast` do to the table.
use dockpulse_iot.Prelude.{
  take_short, ℕ, ◌+◌, ◌≤◌, ◌<◌, ◌≡◌, ◌≢◌, refl, sym, ap, ◌∙◌, ◌⊎◌, inl, inr, true, false, List, [],
  ◌∷◌, Option, none, some, arith, Bool-cases, Option-cases, ◌==◌, if◌then◌else◌, length, take, set,
  All, u8,
}
use dockpulse_iot.Prov.Table.{
  Record, Table, max_records, berth_id_max, find_record, is_stale, evict_stale, find_slot,
  new_record, record_in_table, wipe_first, forget_in_table,
}
use dockpulse_iot.Prov.Valid.{occupied, has_addr, IsValid}
use dockpulse_iot.Prov.Map.{
  index_of, find_slot_lem, find_slot_empty_lem, has_addr_of_index, find_of_no_addr, unless_stale,
  length-evict, find-evict, count-evict, evict_clean, Distinct-evict, length-set, find-set,
  occupied-set, Distinct-set, length-wipe, wipe_hit, find-wipe, occupied-wipe, Distinct-wipe,
}

occupied-le-length : (rs : List Record) → occupied rs ≤ length rs
occupied-le-length [] = omega arith
occupied-le-length (r ∷ rs) = ground (arith, occupied-le-length rs)

-- With no empty slot left, every slot is taken.
occupied_full : (rs : List Record) → index_of 0 rs ≡ none → occupied rs ≡ length rs
unfolding index_of
occupied_full [] h = refl
occupied_full (r ∷ rs) h = ground (arith, occupied_full rs)

-- With no empty slot after the hot-swap loop, the loop has changed nothing.
evict_nothing :
    (a : ℕ) (berth : List ℕ) (rs : List Record) (n : ℕ)
    → index_of 0 (evict_stale a berth rs n).0 ≡ none
    → evict_stale a berth rs n ≡ (rs, n)
unfolding index_of evict_stale
evict_nothing a berth [] n h = refl
evict_nothing a berth (r ∷ rs) n h = elim (Bool-cases (is_stale a berth r)) [
  | inl s ↦ absurd (cc (rw s at h))
  | inr s ↦ rw s (ground (arith, evict_nothing a berth rs n, rw s at h))
]

-- How `dp_prov_record_node` finds its slot, after the hot-swap loop has left `rs` and `n`.
data Slotted (a : ℕ) (rs : List Record) (slots : Option ℕ × Option ℕ) : Type 0 where
  own : (k : ℕ) (e : Option ℕ) → slots ≡ (some k, e) → index_of a rs ≡ some k → Slotted a rs slots
  fresh :
      (k : ℕ)
      → slots ≡ (none, some k)
      → index_of 0 rs ≡ some k
      → has_addr a rs ≡ false
      → Slotted a rs slots
  full : slots ≡ (none, none) → index_of 0 rs ≡ none → has_addr a rs ≡ false → Slotted a rs slots

slotted : (a : ℕ) (rs : List Record) → Slotted a rs (find_slot a 0 none rs)
slotted a rs = elim (Option-cases (index_of a rs)) [
  | inr (k, e) ↦ own k (find_slot a 0 none rs).1 (ground (arith, find_slot_lem a rs)) e
  | inl e ↦ elim (Option-cases (index_of 0 rs)) [
    | inr (k, e') ↦
        fresh k (ground (arith, find_slot_lem a rs, find_slot_empty_lem a rs e)) e'
          (has_addr_of_index a rs e)
    | inl e' ↦
        full (ground (arith, find_slot_lem a rs, find_slot_empty_lem a rs e)) e'
          (has_addr_of_index a rs e)
  ]
]

module _ (a : ℕ) (berth : List ℕ) (node : Option (List ℕ)) (t : Table) where
  abbrev swept : List Record
  swept = (evict_stale a berth t.records t.count).0

  abbrev swept_count : ℕ
  swept_count = (evict_stale a berth t.records t.count).1

  abbrev written : Record
  written = new_record a berth node

  module _ (v : IsValid t) (ha : a ≢ 0) (short : length berth < berth_id_max) where
    -- The stored berth is the whole berth.
    pub same_berth : take 47 berth ≡ berth
    same_berth = take_short 47 berth (omega arith)

    swept_clean : All (λ r. is_stale written.unicast_addr written.berth_id r ≡ false) swept
    swept_clean = rw same_berth (evict_clean a berth t.records t.count)

    swept_total : swept_count ≡ occupied swept
    swept_total =
        omega (arith, v.counted, count-evict a berth t.records t.count (omega (arith, v.counted)))

    no_extra : ◌≡◌ {A = ℕ} (if a == 0 then 1 else 0) 0
    no_extra = ground arith

    swept-IsValid : IsValid (record t { records = swept; count = swept_count })
    swept-IsValid = record {
      size = length-evict a berth t.records t.count ∙ v.size;
      counted = swept_total;
      distinct = Distinct-evict a berth t.records t.count v.distinct;
    }

    swept_small : occupied swept ≤ 16
    swept_small = omega (arith, occupied-le-length swept, swept-IsValid.size)

    written-IsValid :
        (s k n : ℕ)
        → ((s ≡ a) ⊎ ((s ≡ 0) × (has_addr a swept ≡ false)))
        → index_of s swept ≡ some k
        → n ≡ (if s == 0 then 1 else 0) + occupied swept
        → IsValid (record t { records = set swept k written; count = n })
    written-IsValid s k n f e c = record {
      size = length-set written swept k ∙ length-evict a berth t.records t.count ∙ v.size;
      counted = c ∙ sym (occupied-set written s swept k ha e);
      distinct =
          Distinct-set written s swept k ha f e swept_clean
            (Distinct-evict a berth t.records t.count v.distinct);
    }

    -- Recording a node keeps the table valid, whether or not a slot is found.
    pub record_in_table-IsValid : IsValid (record_in_table a berth node t).0
    unfolding record_in_table
    record_in_table-IsValid = elim (slotted a swept) [
      | own k e s i ↦
          rw s (written-IsValid a k swept_count (inl refl) i (omega (arith, no_extra, swept_total)))
      | fresh k s i free ↦ rw s (
          written-IsValid 0 k (u8 (swept_count + 1)) (inr (refl, free)) i
            (omega (arith, swept_total, swept_small)))
      | full s i free ↦ rw s swept-IsValid
    ]

    -- After a record that found its slot, the address has the new record, and any other address the
    -- one it had, unless that was of the same berth.
    pub find-record_in_table :
        (c : ℕ)
        → c ≢ 0
        → (record_in_table a berth node t).1 ≡ true
        → find_record c (record_in_table a berth node t).0.records
          ≡ (if a == c then some written else unless_stale a berth (find_record c t.records))
    unfolding record_in_table
    find-record_in_table c hc ok = elim (slotted a swept) [
      | own k e s i ↦ rw (s, find-set written c a swept k hc (inl refl) i, swept_find c hc) refl
      | fresh k s i free ↦
          rw (s, find-set written c 0 swept k hc (inr (refl, free)) i, swept_find c hc) refl
      | full s i free ↦ absurd (cc (rw s at ok))
    ]
      where
        swept_find :
            (x : ℕ) → x ≢ 0 → find_record x swept ≡ unless_stale a berth (find_record x t.records)
        swept_find x hx = find-evict a berth x t.records t.count hx v.distinct

    -- A record that finds no slot changes nothing: all sixteen slots are taken, none by the address.
    pub record_in_table_full :
        (record_in_table a berth node t).1 ≡ false
        → ((record_in_table a berth node t).0 ≡ t)
          × (occupied t.records ≡ max_records)
          × (has_addr a t.records ≡ false)
    unfolding record_in_table
    record_in_table_full bad = elim (slotted a swept) [
      | own k e s i ↦ absurd (cc (rw s at bad))
      | fresh k s i free ↦ absurd (cc (rw s at bad))
      | full s i free ↦
          let same : evict_stale a berth t.records t.count ≡ (t.records, t.count) =
            evict_nothing a berth t.records t.count i in
          let kept : swept ≡ t.records = ap (λ (p : List Record × ℕ). p.0) same in
          let number : swept_count ≡ t.count = ap (λ (p : List Record × ℕ). p.1) same in
          rw s (
            λ j. record t { records = kept j; count = number j },
            sym (ap occupied kept) ∙ occupied_full swept i ∙ swept-IsValid.size,
            rw kept at free,
          )
    ]

-- Forgetting an address keeps the table valid and removes that address alone.
pub forget_in_table-IsValid :
    (a : ℕ) (t : Table) → IsValid t → a ≢ 0 → IsValid (forget_in_table a t).0
unfolding forget_in_table
forget_in_table-IsValid a t v ha = elim (Bool-cases (wipe_first a t.records).1) [
  | inl hit ↦ rw hit (record {
    size = length-wipe a t.records ∙ v.size;
    counted = ground (arith, v.counted, occupied-wipe a t.records ha, wipe_hit a t.records);
    distinct = Distinct-wipe a t.records v.distinct;
  })
  | inr miss ↦ rw miss v
]

pub find-forget_in_table :
    (a c : ℕ) (t : Table)
    → IsValid t
    → a ≢ 0
    → c ≢ 0
    → find_record c (forget_in_table a t).0.records
      ≡ (if c == a then none else find_record c t.records)
unfolding forget_in_table
find-forget_in_table a c t v ha hc = elim (Bool-cases (wipe_first a t.records).1) [
  | inl hit ↦ rw hit (find-wipe a c t.records ha hc v.distinct)
  | inr miss ↦ rw miss (ground (arith, wipe_hit a t.records, find_of_no_addr a t.records))
]
