-- ===== src/Prov/Valid.antt =====
-- components/dp_prov/dp_prov.c: the well-formedness of the table.
use dockpulse_iot.Prelude.{
  ℕ, ◌+◌, ◌≡◌, ◌⊎◌, Bool, false, not, ◌&&◌, ◌||◌, List, [], ◌∷◌, ◌==◌, if◌then◌else◌, length,
  str_eq,
}
use dockpulse_iot.Prov.Table.{Record, Table, max_records}

-- How many slots are taken.
abbrev pub occupied : List Record → ℕ
occupied [] = 0
occupied (r ∷ rs) = (if r.unicast_addr == 0 then 0 else 1) + occupied rs

unfoldable pub has_addr : ℕ → List Record → Bool
has_addr a [] = false
has_addr a (r ∷ rs) = r.unicast_addr == a || has_addr a rs

-- Some taken slot holds the berth.
unfoldable pub has_berth : List ℕ → List Record → Bool
has_berth berth [] = false
has_berth berth (r ∷ rs) =
    (not (r.unicast_addr == 0) && str_eq r.berth_id berth) || has_berth berth rs

-- No two taken slots share an address or a berth.
abbrev pub Distinct : List Record → Type 0
Distinct [] = Unit
Distinct (r ∷ rs) =
    ((r.unicast_addr ≡ 0)
      ⊎ ((has_addr r.unicast_addr rs ≡ false) × (has_berth r.berth_id rs ≡ false)))
    × Distinct rs

-- A table as the operations leave it.
pub record IsValid (t : Table) : Type 0 where
  pub size : length t.records ≡ max_records
  pub counted : t.count ≡ occupied t.records
  pub distinct : Distinct t.records
