-- ===== src/PageTable/Grow.antt =====
-- The loop of `walk` with `alloc` 1: with a page for each level it finds a place.
use os_2_course_work.Prelude.{
  NotIn, some-none, some-some, ℕ, zero, suc, ◌+◌, ◌≤◌, ◌≡◌, ◌⊎◌, inl, inr, refl, sym, ap, ◌∙◌,
  Bool-cases, false, true, some, List, [], ◌∷◌, length, arith,
}
use os_2_course_work.Raid.{Page}
use os_2_course_work.Memory.{Memory, fill, kalloc}
use os_2_course_work.PageTable.{
  Tables, Place, pte_at, pte_v, px, pte2pa, pa2pte, flag_v, walk_down, alloc_down,
}
use os_2_course_work.PageTable.Sound.{
  Live, IsSound, Keeps, new_table, new_pte, new_pte_valid, new_table_self, new_table-zero,
  new_table-Keeps, new_table-IsSound,
}
use os_2_course_work.PageTable.Walk.{walk_down-valid, walk_down-invalid, alloc_down-valid}

-- What the loop of `walk` finds with `level` levels to go.
pub record Found (level pagetable va : ℕ) (mem : Memory) (tables : Tables) : Type 0 where
  pub place : Place
  pub after : Memory
  pub grown : Tables
  pub returns : alloc_down level pagetable va mem tables ≡ (some place, after, grown)
  pub sound : IsSound after grown
  pub live : (t : ℕ) → Live mem t → Live after t
  pub keeps : Keeps mem tables grown
  pub found : walk_down level grown pagetable va ≡ some place
  pub place_live : Live after place.0
  pub entry :
      ((walk_down level tables pagetable va ≡ some place)
        × (pte_at grown place ≡ pte_at tables place))
      ⊎ (pte_at grown place ≡ 0)

-- In an empty table only an invalid entry is found.
zero_found :
    (level : ℕ) (tables : Tables) (t va : ℕ) (place : Place)
    → ((i : ℕ) → tables t i ≡ 0)
    → walk_down level tables t va ≡ some place
    → pte_at tables place ≡ 0
unfolding walk_down
zero_found zero tables t va place z h =
    let here : (t, px 0 va) ≡ place = some-some h in rw (← here) (z (px 0 va))
zero_found (suc level) tables t va place z h =
    let e = z (px (suc level) va) in
    let invalid : pte_v (pte_at tables (t, px (suc level) va)) ≡ false = rw e refl in
    absurd (some-none (sym h ∙ walk_down-invalid level tables t va invalid))

-- A level whose table is there.
down_valid :
    (level pagetable va : ℕ) (mem : Memory) (tables : Tables)
    → Live mem pagetable
    → pte_v (pte_at tables (pagetable, px (suc level) va)) ≡ true
    → Found level (pte2pa (pte_at tables (pagetable, px (suc level) va))) va mem tables
    → Found (suc level) pagetable va mem tables
down_valid level pagetable va mem tables live valid f =
    let e : pte_at f.grown (pagetable, px (suc level) va)
        ≡ pte_at tables (pagetable, px (suc level) va) =
      f.keeps (pagetable, px (suc level) va) live valid in
    record {
      place = f.place;
      after = f.after;
      grown = f.grown;
      returns = alloc_down-valid level pagetable va mem tables valid ∙ f.returns;
      sound = f.sound;
      live = f.live;
      keeps = f.keeps;
      found = walk_down-valid level f.grown pagetable va (ap pte_v e ∙ valid) ∙ (rw e f.found);
      place_live = f.place_live;
      entry = elim f.entry [
        | inl (there, same) ↦ inl (walk_down-valid level tables pagetable va valid ∙ there, same)
        | inr z ↦ inr z
      ];
    }

-- A level whose table is new.
down_new :
    (level pagetable va pg : ℕ) (rest : List ℕ) (page : ℕ → Page) (tables : Tables)
    → IsSound (record { freelist = pg ∷ rest; page = page }) tables
    → NotIn pagetable (pg ∷ rest)
    → pte_v (pte_at tables (pagetable, px (suc level) va)) ≡ false
    → Found level pg va
        (record { freelist = rest; page = fill page pg 5 })
        (new_table tables pg (pagetable, px (suc level) va))
    → Found (suc level) pagetable va (record { freelist = pg ∷ rest; page = page }) tables
unfolding alloc_down kalloc
down_new level pagetable va pg rest page tables s live invalid f =
    let here : Place = (pagetable, px (suc level) va) in
    let at_here = new_table_self tables pg here in
    let e : pte_at f.grown here ≡ pa2pte pg + flag_v =
      f.keeps here live.1 (ap pte_v at_here ∙ new_pte_valid pg) ∙ at_here in
    record {
      place = f.place;
      after = f.after;
      grown = f.grown;
      returns = rw (invalid, alloc_down) f.returns;
      sound = f.sound;
      live = λ t l. f.live t l.1;
      keeps = λ q l valid.
          let first = new_table-Keeps tables pg rest page here invalid q l valid in
          f.keeps q l.1 (ap pte_v first ∙ valid) ∙ first;
      found =
          walk_down-valid level f.grown pagetable va (ap pte_v e ∙ new_pte_valid pg)
          ∙ (rw (e, new_pte pg s.free.0) f.found);
      place_live = f.place_live;
      entry = elim f.entry [
        | inl (there, same) ↦ inr (
            same
            ∙ zero_found level (new_table tables pg here) pg va f.place
                (λ i. new_table-zero tables pg here i (λ x. live.0 (sym x))) there)
        | inr z ↦ inr z
      ];
    }

down_fresh :
    (level pagetable va : ℕ) (fl : List ℕ) (page : ℕ → Page) (tables : Tables)
    → IsSound (record { freelist = fl; page = page }) tables
    → NotIn pagetable fl
    → suc level ≤ length fl
    → pte_v (pte_at tables (pagetable, px (suc level) va)) ≡ false
    → ((pg : ℕ) (rest : List ℕ) (t : Tables)
        → IsSound (record { freelist = rest; page = fill page pg 5 }) t
        → NotIn pg rest
        → level ≤ length rest
        → Found level pg va (record { freelist = rest; page = fill page pg 5 }) t)
    → Found (suc level) pagetable va (record { freelist = fl; page = page }) tables
down_fresh level pagetable va [] page tables s live h invalid below = absurd (omega arith)
down_fresh level pagetable va (pg ∷ rest) page tables s live h invalid below =
    let here : Place = (pagetable, px (suc level) va) in
    down_new level pagetable va pg rest page tables s live invalid (
      below pg rest (new_table tables pg here)
        (new_table-IsSound tables pg rest page (fill page pg 5) here s invalid) s.free.1
        (omega arith))

down_Found :
    (level pagetable va : ℕ) (fl : List ℕ) (page : ℕ → Page) (tables : Tables)
    → IsSound (record { freelist = fl; page = page }) tables
    → NotIn pagetable fl
    → level ≤ length fl
    → Found level pagetable va (record { freelist = fl; page = page }) tables
unfolding alloc_down walk_down
down_Found zero pagetable va fl page tables s live h = record {
  place = (pagetable, px 0 va);
  after = record { freelist = fl; page = page };
  grown = tables;
  returns = refl;
  sound = s;
  live = λ t l. l;
  keeps = λ q l v. refl;
  found = refl;
  place_live = live;
  entry = inl (refl, refl);
}
down_Found (suc level) pagetable va fl page tables s live h =
    elim (Bool-cases (pte_v (pte_at tables (pagetable, px (suc level) va)))) [
      | inl valid ↦
          down_valid level pagetable va (record { freelist = fl; page = page }) tables live valid
            (down_Found level (pte2pa (pte_at tables (pagetable, px (suc level) va))) va fl page
              tables s (s.closed (pagetable, px (suc level) va) live valid) (omega arith))
      | inr invalid ↦
          down_fresh level pagetable va fl page tables s live h invalid
            (λ pg rest t new new_live. down_Found level pg va rest (fill page pg 5) t new new_live)
    ]

-- With a page for each level the loop of `walk` finds a place.
pub alloc_down-Found :
    (level pagetable va : ℕ) (mem : Memory) (tables : Tables)
    → IsSound mem tables
    → Live mem pagetable
    → level ≤ length mem.freelist
    → Found level pagetable va mem tables
alloc_down-Found level pagetable va mem tables s live h =
    down_Found level pagetable va mem.freelist mem.page tables s live h
