-- ===== src/PageTable/There.antt =====
-- `mappages` of one page where the tables of the address are there, and the tables that a walk reads.
use os_2_course_work.Prelude.{
  ℕ, zero, suc, ◌%◌, ◌<◌, ◌≡◌, ◌≢◌, ◌⊎◌, inl, inr, refl, sym, ap, ◌∙◌, Bool-cases, true, false,
  some, done, ◌==◌, leb, true-false, some-none, arith,
}
use os_2_course_work.Memory.{Memory, pgsize}
use os_2_course_work.PageTable.{
  Tables, Place, maxva, pte_at, set_pte, pte2pa, pte_v, has_flag, flag_u, px, walk_down, walk_alloc,
  walkaddr, leaf, map_loop, mappages,
}
use os_2_course_work.PageTable.Walk.{
  pte_at-set_pte_self, pte_at-set_pte_ne, Place-cases, walk_down-valid, walk_down-invalid,
  alloc_down-walk_down,
}
use os_2_course_work.PageTable.Map.{walkaddr_lem, leaf_valid, leaf_pa, leaf_user}

-- The walk to the address does not read the entry at `q`.
abbrev pub Avoids : ℕ → Tables → ℕ → ℕ → Place → Type 0
Avoids zero tables t va q = Unit {0}
Avoids (suc level) tables t va q =
    ((t ≢ q.0) ⊎ (px (suc level) va ≢ q.1))
    × Avoids level tables (pte2pa (pte_at tables (t, px (suc level) va))) va q

-- Tables that differ at an entry that the walk does not read.
pub walk_down-Avoids :
    (level : ℕ) (tables tables' : Tables) (t va : ℕ) (q : Place)
    → ((r : Place) → (r.0 ≢ q.0) ⊎ (r.1 ≢ q.1) → pte_at tables' r ≡ pte_at tables r)
    → Avoids level tables t va q
    → walk_down level tables' t va ≡ walk_down level tables t va
unfolding walk_down
walk_down-Avoids zero tables tables' t va q same a = refl
walk_down-Avoids (suc level) tables tables' t va q same a =
    let at : Place = (t, px (suc level) va) in
    let here = same at a.0 in
    elim (Bool-cases (pte_v (pte_at tables at))) [
      | inl valid ↦
          walk_down-valid level tables' t va (ap pte_v here ∙ valid)
          ∙ ap (λ e. walk_down level tables' (pte2pa e) va) here
          ∙ walk_down-Avoids level tables tables' (pte2pa (pte_at tables at)) va q same a.1
          ∙ sym (walk_down-valid level tables t va valid)
      | inr invalid ↦
          walk_down-invalid level tables' t va (ap pte_v here ∙ invalid)
          ∙ sym (walk_down-invalid level tables t va invalid)
    ]

-- A walk that ends reads no entry that is not valid.
Avoids-invalid :
    (level : ℕ) (tables : Tables) (t va : ℕ) (q r : Place)
    → pte_v (pte_at tables q) ≡ false
    → walk_down level tables t va ≡ some r
    → Avoids level tables t va q
unfolding walk_down
Avoids-invalid zero tables t va q r invalid h = tt
Avoids-invalid (suc level) tables t va q r invalid h =
    let at : Place = (t, px (suc level) va) in
    elim (Bool-cases (pte_v (pte_at tables at))) [
      | inl valid ↦
          let other : (t ≢ q.0) ⊎ (px (suc level) va ≢ q.1) = elim (Place-cases at q) [
            | inl (a, b) ↦
                let same : pte_at tables at ≡ pte_at tables q = rw (a, b) refl in
                absurd (true-false (sym valid ∙ ap pte_v same ∙ invalid))
            | inr ne ↦ ne
          ] in
          (
            other,
            Avoids-invalid level tables (pte2pa (pte_at tables at)) va q r invalid
                (sym (walk_down-valid level tables t va valid) ∙ h),
          )
      | inr none_there ↦ absurd (some-none (sym h ∙ walk_down-invalid level tables t va none_there))
    ]

module _ (pagetable va pa perm : ℕ) (mem : Memory) (tables : Tables) (q : Place)
    (aligned : va % pgsize ≡ 0) (low : va < maxva)
    (there : walk_down 2 tables pagetable va ≡ some q)
    (invalid : pte_v (pte_at tables q) ≡ false) where
  -- It takes no page.
  pub mappages_there :
      mappages pagetable va pgsize pa perm mem tables
      ≡ done (true, mem, set_pte tables q (leaf pa perm))
  unfolding mappages map_loop walk_alloc
  mappages_there =
      let whole : (va % pgsize == 0) ≡ true = ground arith in
      let below : leb maxva va ≡ false = ground arith in
      rw (whole, below, alloc_down-walk_down 2 tables pagetable va mem q there, invalid) refl

  pub walkaddr_there :
      pa % pgsize ≡ 0
      → perm < 1024
      → has_flag flag_u perm ≡ true
      → walkaddr (set_pte tables q (leaf pa perm)) pagetable va ≡ done pa
  walkaddr_there pa_aligned small user =
      let grown = set_pte tables q (leaf pa perm) in
      let found : walk_down 2 grown pagetable va ≡ some q =
        walk_down-Avoids 2 tables grown pagetable va q
          (λ r. pte_at-set_pte_ne tables q r (leaf pa perm))
          (Avoids-invalid 2 tables pagetable va q q invalid there)
        ∙ there in
      let entry = pte_at-set_pte_self tables q (leaf pa perm) in
      walkaddr_lem grown pagetable va low
      ∙ (rw
          (
            found,
            entry,
            leaf_valid pa perm,
            leaf_user pa perm small user,
            leaf_pa pa perm pa_aligned small,
          )
          refl)
