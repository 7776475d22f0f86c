-- ===== src/PageTable/Sound.antt =====
-- What `walk` with `alloc` 1 leaves: the tables it adds come off the free list, and the entries that
-- were valid stay.
use os_2_course_work.Prelude.{
  NotIn, true-false, ℕ, ◌+◌, ◌%◌, ◌≡◌, ◌≢◌, ◌⊎◌, inl, inr, refl, sym, ap, ◌∙◌, false, true, List,
  [], ◌∷◌, arith, ℕ_discrete,
}
use os_2_course_work.Raid.{Page}
use os_2_course_work.Memory.{Memory, pgsize}
use os_2_course_work.PageTable.{
  Tables, Place, pte_at, set_pte, zero_table, pte_v, pte2pa, pa2pte, flag_v,
}
use os_2_course_work.PageTable.Walk.{pte_at-set_pte_self, Place-cases}

-- The pages of a free list: they are different and aligned.
abbrev pub IsFreelist : List ℕ → Type 0
IsFreelist [] = Unit {0}
IsFreelist (x ∷ xs) = (x % pgsize ≡ 0) × NotIn x xs × IsFreelist xs

-- A page that is not on the free list.
abbrev pub Live : Memory → ℕ → Type 0
Live mem t = NotIn t mem.freelist

-- No valid entry of a live table leads to a page on the free list.
pub record IsSound (mem : Memory) (tables : Tables) : Type 0 where
  pub free : IsFreelist mem.freelist
  pub closed :
      (q : Place)
      → Live mem q.0
      → pte_v (pte_at tables q) ≡ true
      → Live mem (pte2pa (pte_at tables q))

-- The valid entries of the live tables stay.
abbrev pub Keeps : Memory → Tables → Tables → Type 0
Keeps mem tables tables' =
    (q : Place) → Live mem q.0 → pte_v (pte_at tables q) ≡ true → pte_at tables' q ≡ pte_at tables q

-- The first page of the free list as a new table, entered at `place`.
abbrev pub new_table : Tables → ℕ → Place → Tables
new_table tables pg place = set_pte (zero_table tables pg) place (pa2pte pg + flag_v)

pub new_pte : (pg : ℕ) → pg % pgsize ≡ 0 → pte2pa (pa2pte pg + flag_v) ≡ pg
new_pte pg h = omega arith

pub new_pte_valid : (pg : ℕ) → pte_v (pa2pte pg + flag_v) ≡ true
new_pte_valid pg = ground arith

pub new_table_self :
    (tables : Tables) (pg : ℕ) (place : Place)
    → pte_at (new_table tables pg place) place ≡ pa2pte pg + flag_v
new_table_self tables pg place =
    pte_at-set_pte_self (zero_table tables pg) place (pa2pte pg + flag_v)

pub new_table-zero :
    (tables : Tables) (pg : ℕ) (place : Place) (i : ℕ)
    → pg ≢ place.0
    → new_table tables pg place pg i ≡ 0
new_table-zero tables pg place i ne = ground arith

new_table-ne :
    (tables : Tables) (pg : ℕ) (place q : Place)
    → (q.0 ≢ place.0) ⊎ (q.1 ≢ place.1)
    → q.0 ≢ pg
    → pte_at (new_table tables pg place) q ≡ pte_at tables q
new_table-ne tables pg place q ne other = ground arith

pub new_table-Keeps :
    (tables : Tables) (pg : ℕ) (rest : List ℕ) (page : ℕ → _) (place : Place)
    → pte_v (pte_at tables place) ≡ false
    → Keeps (record { freelist = pg ∷ rest; page = page }) tables (new_table tables pg place)
new_table-Keeps tables pg rest page place invalid q live valid = elim (Place-cases q place) [
  | inl (a, b) ↦
      let same : pte_at tables q ≡ pte_at tables place = rw (a, b) refl in
      absurd (true-false (sym valid ∙ ap pte_v same ∙ invalid))
  | inr ne ↦ new_table-ne tables pg place q ne live.0
]

pub new_table-IsSound :
    (tables : Tables) (pg : ℕ) (rest : List ℕ) (page after : ℕ → Page) (place : Place)
    → IsSound (record { freelist = pg ∷ rest; page = page }) tables
    → pte_v (pte_at tables place) ≡ false
    → IsSound (record { freelist = rest; page = after }) (new_table tables pg place)
new_table-IsSound tables pg rest page after place s invalid = record {
  free = s.free.2;
  closed = closed;
}
  where
    leads :
        (q : Place)
        → NotIn q.0 rest
        → pte_v (pte_at (new_table tables pg place) q) ≡ true
        → (q.0 ≢ place.0) ⊎ (q.1 ≢ place.1)
        → NotIn (pte2pa (pte_at (new_table tables pg place) q)) rest
    leads q live valid ne = elim (ℕ_discrete q.0 pg) [
      | yes e ↦
          let zero_entry : pte_at (new_table tables pg place) q ≡ 0 = ground arith in
          absurd (true-false (sym valid ∙ ap pte_v zero_entry))
      | no other ↦
          let same = new_table-ne tables pg place q ne other in
          rw same ((s.closed q (other, live) (ap pte_v (sym same) ∙ valid)).1)
    ]

    closed :
        (q : Place)
        → NotIn q.0 rest
        → pte_v (pte_at (new_table tables pg place) q) ≡ true
        → NotIn (pte2pa (pte_at (new_table tables pg place) q)) rest
    closed q live valid = elim (Place-cases q place) [
      | inl (a, b) ↦
          let here : pte_at (new_table tables pg place) q ≡ pa2pte pg + flag_v =
            rw (a, b) (new_table_self tables pg place) in
          rw (here, new_pte pg s.free.0) s.free.1
      | inr ne ↦ leads q live valid ne
    ]
