-- ===== src/PageTable/Walk.antt =====
-- What `walk` finds.
use os_2_course_work.Prelude.{
  true-false, some-none, ℕ, zero, suc, Bool-cases, some, none, ◌<◌, ◌≡◌, ◌≢◌, ◌⊎◌, inl, inr, refl,
  sym, ap, ◌∙◌, false, true, done, ℕ_discrete, arith,
}
use os_2_course_work.Memory.{Memory}
use os_2_course_work.PageTable.{
  Tables, Place, maxva, pte_at, set_pte, pte_v, px, pte2pa, walk_down, walk, alloc_down,
}

pub walk_lem :
    (tables : Tables) (pagetable va : ℕ)
    → va < maxva
    → walk tables pagetable va ≡ done (walk_down 2 tables pagetable va)
unfolding walk
walk_lem tables pagetable va h = ground arith

pub pte_at-set_pte_self :
    (tables : Tables) (place : Place) (e : ℕ) → pte_at (set_pte tables place e) place ≡ e
pte_at-set_pte_self tables place e = ground arith

pub Place-cases : (p q : Place) → ((p.0 ≡ q.0) × (p.1 ≡ q.1)) ⊎ ((p.0 ≢ q.0) ⊎ (p.1 ≢ q.1))
Place-cases p q = elim (ℕ_discrete p.0 q.0) [
  | yes a ↦ elim (ℕ_discrete p.1 q.1) [ yes b ↦ inl (a, b) | no b ↦ inr (inr b) ]
  | no a ↦ inr (inl a)
]

pub pte_at-set_pte_ne :
    (tables : Tables) (place q : Place) (e : ℕ)
    → (q.0 ≢ place.0) ⊎ (q.1 ≢ place.1)
    → pte_at (set_pte tables place e) q ≡ pte_at tables q
pte_at-set_pte_ne tables place q e h = ground arith

-- Writing over a valid entry leaves the entries that are not valid alone.
pub pte_at-set_pte_invalid :
    (tables : Tables) (place q : Place) (e : ℕ)
    → pte_v (pte_at tables place) ≡ true
    → pte_v (pte_at tables q) ≡ false
    → pte_at (set_pte tables place e) q ≡ pte_at tables q
pte_at-set_pte_invalid tables place q e valid other = elim (Place-cases q place) [
  | inl (a, b) ↦
      let same : pte_at tables q ≡ pte_at tables place = rw (a, b) refl in
      absurd (true-false (sym valid ∙ ap pte_v (sym same) ∙ other))
  | inr ne ↦ pte_at-set_pte_ne tables place q e ne
]

-- One level of each loop.
pub walk_down-valid :
    (level : ℕ) (tables : Tables) (pagetable va : ℕ)
    → pte_v (pte_at tables (pagetable, px (suc level) va)) ≡ true
    → walk_down (suc level) tables pagetable va
      ≡ walk_down level tables (pte2pa (pte_at tables (pagetable, px (suc level) va))) va
unfolding walk_down
walk_down-valid level tables pagetable va valid = rw (valid, walk_down) refl

pub walk_down-invalid :
    (level : ℕ) (tables : Tables) (pagetable va : ℕ)
    → pte_v (pte_at tables (pagetable, px (suc level) va)) ≡ false
    → walk_down (suc level) tables pagetable va ≡ none
unfolding walk_down
walk_down-invalid level tables pagetable va invalid = rw (invalid, walk_down) refl

pub alloc_down-valid :
    (level pagetable va : ℕ) (mem : Memory) (tables : Tables)
    → pte_v (pte_at tables (pagetable, px (suc level) va)) ≡ true
    → alloc_down (suc level) pagetable va mem tables
      ≡ alloc_down level (pte2pa (pte_at tables (pagetable, px (suc level) va))) va mem tables
unfolding alloc_down
alloc_down-valid level pagetable va mem tables valid = rw (valid, alloc_down) refl

-- Where the tables of an address are there, `walk` with `alloc` 1 finds its place and changes nothing.
pub alloc_down-walk_down :
    (level : ℕ) (tables : Tables) (pagetable va : ℕ) (mem : Memory) (place : Place)
    → walk_down level tables pagetable va ≡ some place
    → alloc_down level pagetable va mem tables ≡ (some place, mem, tables)
unfolding walk_down alloc_down
alloc_down-walk_down zero tables pagetable va mem place h = rw h refl
alloc_down-walk_down (suc level) tables pagetable va mem place h =
    let e = pte_at tables (pagetable, px (suc level) va) in
    elim (Bool-cases (pte_v e)) [
      | inl valid ↦
          alloc_down-valid level pagetable va mem tables valid
          ∙ alloc_down-walk_down level tables (pte2pa e) va mem place
              (sym (walk_down-valid level tables pagetable va valid) ∙ h)
      | inr invalid ↦
          absurd (some-none (sym h ∙ walk_down-invalid level tables pagetable va invalid))
    ]
